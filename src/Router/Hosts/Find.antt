-- ===== src/Router/Hosts/Find.antt =====
-- `Lookup` of router/router.go on the hosts of requests.
use mathlib.Core.Path.{subst}
use aah.Prelude.{
  ℕ, zero, suc, ◌≡◌, ◌≢◌, refl, sym, ap, ◌∙◌, ◌⊎◌, inl, inr, true, List, [], ◌∷◌, ◌++◌, Option,
  none, some, some_inj, arith, ltb, length, Bool, if◌then◌else◌, ◌==◌, ==_iff, Bool-cases,
  Option-cases, In,
}
use aah.Text.{Text, text_eq, to_lower, index_byte, drop, take, next_index}
use aah.Text.Split.{Lacks}
use aah.Text.Index.{index_byte-append, drop-append_byte}
use aah.Text.Equality.{text_eq_iff}
use aah.Router.Domain.{Domain}
use aah.Router.Hosts.{
  Router, with_key, find_domain, parent_host, wildcard_domain, only_domain, lookup_domain,
  wildcard_subdomain_prefix,
}

with_key-some :
    (ds : List Domain) (key : Text) (d : Domain)
    → with_key ds key ≡ some d
    → In d ds × (d.key ≡ key)
unfolding with_key
with_key-some [] key d h = cc h
with_key-some (c ∷ ds) key d h = elim (Bool-cases (text_eq c.key key)) [
  | inl e ↦
      let same : c ≡ d = some_inj (rw (with_key, e) at h) in
      (inl same, subst (λ (x : Domain). x.key ≡ key) same ((text_eq_iff c.key key).0 e))
  | inr e ↦ let (i, k) = with_key-some ds key d (rw (with_key, e) at h) in (inr i, k)
]

with_key-none :
    (ds : List Domain) (key : Text) (d : Domain)
    → In d ds
    → d.key ≡ key
    → with_key ds key ≡ none
    → ⊥
unfolding with_key
with_key-none [] key d i k h = i
with_key-none (c ∷ ds) key d i k h = elim (Bool-cases (text_eq c.key key)) [
  | inl e ↦ cc (rw (with_key, e) at h)
  | inr e ↦ elim i [
    | inl same ↦
        let f : text_eq c.key key ≡ true =
          (text_eq_iff c.key key).1 (ap (λ (x : Domain). x.key) same ∙ k) in
        absurd (cc (e, f))
    | inr i' ↦ with_key-none ds key d i' k (rw (with_key, e) at h)
  ]
]

index_byte-some :
    (s : Text) (b i : ℕ) → index_byte s b ≡ some i → s ≡ take i s ++ b ∷ drop (suc i) s
unfolding index_byte
index_byte-some [] b i h = cc h
index_byte-some (c ∷ s) b i h = elim (Bool-cases (c == b)) [
  | inl e ↦ let z : 0 ≡ i = some_inj (rw (index_byte, e) at h) in rw (sym z, (==_iff c b).0 e) refl
  | inr e ↦ later (index_byte s b) refl (rw (index_byte, e) at h) (index_byte-some s b)
]
  where
    later :
        (o : Option ℕ)
        → index_byte s b ≡ o
        → next_index o ≡ some i
        → ((j : ℕ) → index_byte s b ≡ some j → s ≡ take j s ++ b ∷ drop (suc j) s)
        → c ∷ s ≡ take i (c ∷ s) ++ b ∷ drop (suc i) (c ∷ s)
    later none e h ih = cc h
    later (some j) e h ih =
        let up : suc j ≡ i = omega (arith, some_inj h) in
        subst (λ (x : ℕ). c ∷ s ≡ take x (c ∷ s) ++ b ∷ drop (suc x) (c ∷ s)) up
          (ap (◌∷◌ c) (ih j e))

index_byte-Lacks_before : (s : Text) (b i : ℕ) → index_byte s b ≡ some i → Lacks b (take i s)
unfolding index_byte
index_byte-Lacks_before [] b i h = cc h
index_byte-Lacks_before (c ∷ s) b zero h = tt
index_byte-Lacks_before (c ∷ s) b (suc i) h = elim (Bool-cases (c == b)) [
  | inl e ↦ absurd (omega (arith, some_inj (rw (index_byte, e) at h)))
  | inr e ↦ (e, index_byte-Lacks_before s b i (before (index_byte s b) (rw (index_byte, e) at h)))
]
  where
    before : (o : Option ℕ) → next_index o ≡ some (suc i) → o ≡ some i
    before none k = cc k
    before (some j) k = ap some (omega (arith, some_inj k))

not_first : (s : Text) (b i : ℕ) → index_byte s b ≡ some i → ltb 0 i ≡ true → take i s ≢ []
unfolding index_byte
not_first [] b i h k e = cc h
not_first (c ∷ s) b zero h k e = cc k
not_first (c ∷ s) b (suc i) h k e = cc e

-- the host is below the domain: `d` has the key of the part behind the first dot
abbrev pub Below : Text → Domain → Type 0
Below host d =
    (sub : Text) × (rest : Text) × (host ≡ sub ++ b'.' ∷ rest)
    × (sub ≢ [])
    × Lacks b'.' sub
    × (d.key ≡ to_lower (wildcard_subdomain_prefix ++ rest))

wildcard_domain-Below :
    (r : Router) (host : Text) (d : Domain)
    → wildcard_domain r host ≡ some d
    → In d r.domains × Below host d
unfolding wildcard_domain find_domain
wildcard_domain-Below r host d h = at_dot (index_byte host b'.') refl h
  where
    at_dot :
        (o : Option ℕ)
        → index_byte host b'.' ≡ o
        → (elim (parent_host host o) [
          | none ↦ none
          | some rest ↦ find_domain r (wildcard_subdomain_prefix ++ rest)
        ])
          ≡ some d
        → In d r.domains × Below host d
    at_dot none e k = cc k
    at_dot (some i) e k = elim (Bool-cases (ltb 0 i)) [
      | inl f ↦
          let (m, same) =
            with_key-some r.domains (to_lower (wildcard_subdomain_prefix ++ drop (suc i) host)) d
              (rw (f, find_domain) at k) in
          (
            m,
            (
              take i host,
              drop (suc i) host,
              index_byte-some host b'.' i e,
              not_first host b'.' i e f,
              index_byte-Lacks_before host b'.' i e,
              same,
            ),
          )
      | inr f ↦ cc (rw f at k)
    ]

lookup_domain-found :
    (r : Router) (host : Text) (d : Domain)
    → lookup_domain r host ≡ some d
    → (only_domain r.domains ≡ some d)
      ⊎ (In d r.domains
          × ((d.key ≡ to_lower host)
              ⊎ (Below host d × ((c : Domain) → In c r.domains → c.key ≡ to_lower host → ⊥))))
unfolding lookup_domain find_domain
lookup_domain-found r host d h = elim (Option-cases (only_domain r.domains)) [
  | inr (c, e) ↦ inl (e ∙ rw (lookup_domain, e) at h)
  | inl e ↦ elim (Option-cases (with_key r.domains (to_lower host))) [
    | inr (c, f) ↦
        let same : c ≡ d = some_inj (rw (lookup_domain, e, find_domain, f) at h) in
        let (m, k) = with_key-some r.domains (to_lower host) c f in
        inr (
          subst (λ (x : Domain). In x r.domains) same m,
          inl (ap (λ (x : Domain). x.key) (sym same) ∙ k),
        )
    | inl f ↦
        let (m, b) = wildcard_domain-Below r host d (rw (lookup_domain, e, find_domain, f) at h) in
        inr (m, inr (b, λ c i k. with_key-none r.domains (to_lower host) c i k f))
  ]
]

-- a host with a dot that is not its first byte has the key of its parent looked up
wildcard_domain-append :
    (r : Router) (sub rest : Text)
    → sub ≢ []
    → Lacks b'.' sub
    → wildcard_domain r (sub ++ b'.' ∷ rest) ≡ find_domain r (wildcard_subdomain_prefix ++ rest)
unfolding wildcard_domain
wildcard_domain-append r [] rest n l = absurd (n refl)
wildcard_domain-append r (c ∷ sub) rest n l =
    ap
      (λ (o : Option ℕ). elim (parent_host ((c ∷ sub) ++ b'.' ∷ rest) o) as (λ _. Option Domain) [
        | none ↦ none
        | some above ↦ find_domain r (wildcard_subdomain_prefix ++ above)
      ])
      (index_byte-append b'.' (c ∷ sub) rest l)
    ∙ ap
        (λ (b : Bool).
          elim (if b then some (drop (suc (length (c ∷ sub))) ((c ∷ sub) ++ b'.' ∷ rest)) else none)
            as (λ _. Option Domain) [
              | none ↦ none
              | some above ↦ find_domain r (wildcard_subdomain_prefix ++ above)
            ])
        (positive (length sub))
    ∙ ap (λ (x : Text). find_domain r (wildcard_subdomain_prefix ++ x))
        (drop-append_byte b'.' (c ∷ sub) rest)
  where
    positive : (m : ℕ) → ltb 0 (suc m) ≡ true
    positive m = ground arith

wildcard_domain-Lacks :
    (r : Router) (host sub rest : Text)
    → host ≡ sub ++ b'.' ∷ rest
    → sub ≢ []
    → Lacks b'.' sub
    → wildcard_domain r host ≡ find_domain r (wildcard_subdomain_prefix ++ rest)
wildcard_domain-Lacks r host sub rest e n l =
    ap (wildcard_domain r) e ∙ wildcard_domain-append r sub rest n l

only_domain-none : (ds : List Domain) (d : Domain) → only_domain ds ≡ none → ds ≢ d ∷ []
only_domain-none ds d h e = cc (rw e at h)

-- `Lookup` gives a host one of the router's domains: the only one, or the one whose key is the host in
-- lower case, or else that with the key of `*.` before what is behind the host's first dot. A domain
-- with the host's own key is preferred to that. Where it gives none, the router has not just one
-- domain, and none of its domains has either key.
pub lookup_domain_lem :
    (r : Router) (host : Text)
    → ((d : Domain)
        → lookup_domain r host ≡ some d
        → (r.domains ≡ d ∷ [])
          ⊎ (In d r.domains
              × ((d.key ≡ to_lower host)
                  ⊎ (Below host d × ((c : Domain) → In c r.domains → c.key ≡ to_lower host → ⊥)))))
      × (lookup_domain r host ≡ none
          → (d : Domain)
          → (r.domains ≢ d ∷ []) × (In d r.domains → (d.key ≢ to_lower host) × (Below host d → ⊥)))
unfolding lookup_domain find_domain
lookup_domain_lem r host = (
  λ d h. elim (lookup_domain-found r host d h) [
    | inl one ↦ inl (only_one r.domains d one)
    | inr x ↦ inr x
  ],
  λ h d. elim (Option-cases (only_domain r.domains)) [
    | inr (c, e) ↦ absurd (cc (rw (lookup_domain, e) at h))
    | inl e ↦ elim (Option-cases (with_key r.domains (to_lower host))) [
      | inr (c, f) ↦ absurd (cc (rw (lookup_domain, e, find_domain, f) at h))
      | inl f ↦
          let missed : wildcard_domain r host ≡ none = rw (lookup_domain, e, find_domain, f) at h in
          (
            only_domain-none r.domains d e,
            λ i. (
              λ k. with_key-none r.domains (to_lower host) d i k f,
              λ (sub, rest, g, n, l, k).
                  with_key-none r.domains (to_lower (wildcard_subdomain_prefix ++ rest)) d i k
                    (sym (wildcard_domain-Lacks r host sub rest g n l) ∙ missed),
            ),
          )
    ]
  ],
)
  where
    only_one : (ds : List Domain) (d : Domain) → only_domain ds ≡ some d → ds ≡ d ∷ []
    only_one [] d h = cc h
    only_one (c ∷ []) d h = ap (λ (x : Domain). x ∷ []) (some_inj h)
    only_one (c ∷ e ∷ ds) d h = cc h
