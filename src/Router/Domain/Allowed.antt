-- ===== src/Router/Domain/Allowed.antt =====
-- The value of the header Allow.
use mathlib.Core.Path.{subst}
use aah.Prelude.{
  ℕ, ◌≡◌, ◌≢◌, refl, sym, ap, ◌∙◌, ◌↔◌, ◌⊎◌, inl, inr, Bool, true, false, not, ◌&&◌, List, [], ◌∷◌,
  ◌++◌, arith, if◌then◌else◌, Bool-cases, In, All, append_assoc,
}
use aah.Prelude.Outcome.{returns, >>=-returns}
use aah.Text.{Text, codes, text_eq, join}
use aah.Text.Equality.{text_eq_iff}
use aah.Router.Tree.Insert.{Tree}
use aah.Router.Paths.{suffix_comma_value}
use aah.Router.Domain.{Route, Domain, lookup_tree, found_route, allowed_from, allowed}

-- another method's tree finds a route for the path
abbrev pub Offers : Text → Text → List (Text × Tree Route) → Text → Type 0
Offers request_method p [] m = ⊥
Offers request_method p ((method, t) ∷ trees) m =
    ((method ≡ m)
      × (m ≢ request_method)
      × (m ≢ codes "OPTIONS")
      × (found_route (lookup_tree t p) ≡ returns true))
    ⊎ Offers request_method p trees m

-- the text after more names are added to it
abbrev suffixed : Text → List Text → Text
suffixed a [] = a
suffixed a (n ∷ ns) = suffixed (suffix_comma_value a n) ns

join-suffixed :
    (sep x n : Text) (ns : List Text)
    → join sep ((x ++ (sep ++ n)) ∷ ns) ≡ x ++ (sep ++ join sep (n ∷ ns))
unfolding join
join-suffixed sep x n [] = refl
join-suffixed sep x n (m ∷ ns) =
    append_assoc x (sep ++ n) (sep ++ join sep (m ∷ ns))
    ∙ ap (λ t. x ++ t) (append_assoc sep n (sep ++ join sep (m ∷ ns)))

suffixed-join :
    (c : ℕ) (a : Text) (ns : List Text) → suffixed (c ∷ a) ns ≡ join (codes ", ") ((c ∷ a) ∷ ns)
unfolding suffix_comma_value join
suffixed-join c a [] = refl
suffixed-join c a (n ∷ ns) =
    suffixed-join c (a ++ (codes ", " ++ n)) ns ∙ join-suffixed (codes ", ") (c ∷ a) n ns

returns_inj : {A : Type 0} {x y : A} → returns x ≡ returns y → x ≡ y
returns_inj h = cc

-- another method than the request's and than OPTIONS
other_method :
    (m request_method : Text)
    → ((not (text_eq m request_method) && not (text_eq m (codes "OPTIONS"))) ≡ true)
      ↔ ((m ≢ request_method) × (m ≢ codes "OPTIONS"))
other_method m request_method =
    ground (arith, text_eq_iff m request_method, text_eq_iff m (codes "OPTIONS"))

-- the names that the loop adds to the text
abbrev Adds : Text → Text → Text → List (Text × Tree Route) → Text → Type 0
Adds request_method p a trees text =
    (names : List Text) × (text ≡ suffixed a names)
    × ((m : Text) → In m names ↔ Offers request_method p trees m)

-- a tree that adds no name
Adds-skip :
    (request_method p a text method : Text) (t : Tree Route) (trees : List (Text × Tree Route))
    → ((method ≢ request_method)
        → (method ≢ codes "OPTIONS")
        → found_route (lookup_tree t p) ≡ returns true
        → ⊥)
    → Adds request_method p a trees text
    → Adds request_method p a ((method, t) ∷ trees) text
Adds-skip request_method p a text method t trees never (names, e, f) = (
  names,
  e,
  λ m. (
    λ k. inr ((f m).0 k),
    λ k. elim k [
      | inl (q, u, v, w) ↦ absurd (never (λ x. u (sym q ∙ x)) (λ x. v (sym q ∙ x)) w)
      | inr r ↦ (f m).1 r
    ],
  ),
)

Adds-name :
    (request_method p a text method : Text) (t : Tree Route) (trees : List (Text × Tree Route))
    → (method ≢ request_method)
    → (method ≢ codes "OPTIONS")
    → found_route (lookup_tree t p) ≡ returns true
    → Adds request_method p (suffix_comma_value a method) trees text
    → Adds request_method p a ((method, t) ∷ trees) text
Adds-name request_method p a text method t trees u v w (names, e, f) = (
  method ∷ names,
  e,
  λ m. (
    λ k. elim k [
      | inl q ↦ inl (q, (λ x. u (q ∙ x)), (λ x. v (q ∙ x)), w)
      | inr r ↦ inr ((f m).0 r)
    ],
    λ k. elim k [ inl (q, _, _, _) ↦ inl q | inr r ↦ inr ((f m).1 r) ],
  ),
)

allowed_from-Adds :
    (request_method p a : Text) (trees : List (Text × Tree Route)) (text : Text)
    → allowed_from request_method p a trees ≡ returns text
    → Adds request_method p a trees text
unfolding allowed_from
allowed_from-Adds request_method p a [] text h = ([], sym (returns_inj h), λ m. (λ x. x, λ x. x))
allowed_from-Adds request_method p a ((method, t) ∷ trees) text h =
    elim (Bool-cases
      (not (text_eq method request_method) && not (text_eq method (codes "OPTIONS")))) [
        | inr e ↦
            Adds-skip request_method p a text method t trees
              (λ u v w. false_true e ((other_method method request_method).1 (u, v)))
              (allowed_from-Adds request_method p a trees text (rw e at h))
        | inl e ↦
            let (u, v) = (other_method method request_method).0 e in
            let (b, f, g) = >>=-returns (found_route (lookup_tree t p)) _ (rw e at h) in
            elim (Bool-cases b) [
              | inl y ↦ Adds-name request_method p a text method t trees u v (f ∙ ap returns y) (
                  allowed_from-Adds request_method p (suffix_comma_value a method) trees text (
                    subst
                      (λ x.
                        allowed_from request_method p (if x then suffix_comma_value a method else a)
                          trees
                        ≡ returns text)
                      y g))
              | inr n ↦
                  Adds-skip request_method p a text method t trees
                    (λ _ _ w. false_true n (returns_inj (sym f ∙ w)))
                    (allowed_from-Adds request_method p a trees text (
                      subst
                        (λ x.
                          allowed_from request_method p
                            (if x then suffix_comma_value a method else a) trees
                          ≡ returns text)
                        n g))
            ]
      ]
  where
    false_true : {b : Bool} → b ≡ false → b ≡ true → ⊥
    false_true e f = cc

abbrev pub HaveNames : List (Text × Tree Route) → Type 0
HaveNames = All (λ e. e.0 ≢ [])

Offers-ne :
    (request_method p : Text) (trees : List (Text × Tree Route)) (m : Text)
    → HaveNames trees
    → Offers request_method p trees m
    → m ≢ []
Offers-ne request_method p [] m h o e = absurd o
Offers-ne request_method p ((method, t) ∷ trees) m (h, hs) (inl (q, _, _, _)) e = h (q ∙ e)
Offers-ne request_method p ((method, t) ∷ trees) m (h, hs) (inr o) e =
    Offers-ne request_method p trees m hs o e

suffixed-names :
    (names : List Text) → All (λ n. n ≢ []) names → suffixed [] names ≡ join (codes ", ") names
unfolding suffix_comma_value join
suffixed-names [] h = refl
suffixed-names ([] ∷ ns) (h, _) = absurd (h refl)
suffixed-names ((c ∷ a) ∷ ns) h = suffixed-join c a ns

All-In : (P : Text → Type 0) (xs : List Text) → ((m : Text) → In m xs → P m) → All P xs
All-In P [] f = tt
All-In P (x ∷ xs) f = (f x (inl refl), All-In P xs (λ m k. f m (inr k)))

-- For a path other than `*` and trees whose methods have names, the text that `Allowed` returns lists
-- the methods, other than the request's and than OPTIONS, whose tree finds a route for the path, and
-- no other, with a comma and a blank between two.
pub allowed_lem :
    (d : Domain) (request_method p text : Text)
    → p ≢ codes "*"
    → HaveNames d.trees
    → allowed d request_method p ≡ returns text
    → (names : List Text) × (text ≡ join (codes ", ") names)
      × ((m : Text) → In m names ↔ Offers request_method p d.trees m)
unfolding allowed
allowed_lem d request_method p text star named h =
    let h' = (rw (star_test (text_eq p (codes "*")) refl) at h) in
    let (names, e, f) = allowed_from-Adds request_method p [] d.trees text h' in
    (
      names,
      e
          ∙ suffixed-names names (
              All-In (λ m. m ≢ []) names
                (λ m k. Offers-ne request_method p d.trees m named ((f m).0 k))),
      f,
    )
  where
    star_test : (b : Bool) → text_eq p (codes "*") ≡ b → text_eq p (codes "*") ≡ false
    star_test true e = absurd (star ((text_eq_iff p (codes "*")).0 e))
    star_test false e = e
