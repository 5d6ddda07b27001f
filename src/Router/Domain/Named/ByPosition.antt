-- ===== src/Router/Domain/Named/ByPosition.antt =====
-- RouteURLNamedArgs beside RouteURL of router/domain.go.
use aah.Prelude.{
  ℕ, suc, ◌+◌, ◌≡◌, refl, sym, ap, ◌∙◌, inl, inr, true, false, ◌&&◌, List, [], ◌∷◌, map, Option,
  some, if◌then◌else◌, All, arith, Bool-cases, ne-test, ltb, ◌==◌, length, get_elem?,
}
use aah.Prelude.Outcome.{returns}
use aah.Text.{Text, codes, text_eq, split, drop}
use aah.Text.Equality.{text_eq_iff}
use aah.Router.Tree.{count_params}
use aah.Router.Paths.{join_path}
use aah.Router.Domain.{Route, Domain, find_entry, is_parameter, reverse_from, route_url}
use aah.Router.Domain.Named.{
  Arguments, delete_entry, reverse_named, with_query, route_url_named_args,
}

-- the names of the parameters in a path
abbrev pub names_in : List Text → List Text
names_in [] = []
names_in (s ∷ ss) = if is_parameter s then drop 1 s ∷ names_in ss else names_in ss

-- no name stands twice
abbrev pub Distinct : List Text → Type 0
Distinct [] = Unit
Distinct (n ∷ ns) = All (λ m. text_eq n m ≡ false) ns × Distinct ns

find_entry-delete_entry :
    (args : Arguments) (k n : Text)
    → text_eq k n ≡ false
    → find_entry (delete_entry args k) n ≡ find_entry args n
unfolding find_entry delete_entry
find_entry-delete_entry [] k n h = refl
find_entry-delete_entry ((m, v) ∷ args) k n h = elim (Bool-cases (text_eq m k)) [
  | inl e ↦ rw (e, ap (λ x. text_eq x n) ((text_eq_iff m k).0 e), h) refl
  | inr e ↦ rw (e, find_entry-delete_entry args k n h) refl
]

length-delete_entry :
    (args : Arguments) (k v : Text)
    → find_entry args k ≡ some v
    → length args ≡ suc (length (delete_entry args k))
unfolding find_entry delete_entry
length-delete_entry ((m, w) ∷ args) k v h = elim (Bool-cases (text_eq m k)) [
  | inl e ↦ rw e refl
  | inr e ↦ rw e (ap suc (length-delete_entry args k v (rw e at h)))
]
length-delete_entry [] k v h = absurd (cc h)

-- a name that is deleted is none of the others
map-delete_entry :
    (args : Arguments) (k : Text) (ns : List Text)
    → All (λ m. text_eq k m ≡ false) ns
    → map (find_entry (delete_entry args k)) ns ≡ map (find_entry args) ns
map-delete_entry args k [] _ = refl
map-delete_entry args k (n ∷ ns) (h, hs) =
    rw (find_entry-delete_entry args k n h, map-delete_entry args k ns hs) refl

first_found :
    (find : Text → Option Text) (n : Text) (ns values : List Text)
    → map find (n ∷ ns) ≡ map some values
    → (v : Text) × (rest : List Text) × (values ≡ v ∷ rest)
      × (find n ≡ some v)
      × (map find ns ≡ map some rest)
first_found find n ns [] h = absurd (cc h)
first_found find n ns (v ∷ rest) h = (v, rest, refl, cc h, cc h)

parts :
    (s : Text) (segments : List Text)
    → Distinct (s ∷ names_in segments)
    → All (λ m. text_eq s m ≡ false) (names_in segments) × Distinct (names_in segments)
parts s segments h = h

one_less : {l m n : ℕ} → l ≡ suc m → l ≡ suc n → m ≡ n
one_less h k = omega arith

ltb_self : (n : ℕ) → ltb n n ≡ false
ltb_self n = ground arith

length-map : (f : Text → Text) (vs : List Text) → length (map f vs) ≡ length vs
length-map f [] = refl
length-map f (v ∷ vs) = ap suc (length-map f vs)

empty : (args : Arguments) → ((length args == 0) && (length args == 0)) ≡ true → args ≡ []
empty [] e = refl
empty (a ∷ args) e = absurd (ground arith)

from_start : (vs : List Text) (i : ℕ) → get_elem? vs (0 + i) ≡ get_elem? vs i
from_start vs i = let e : 0 + i ≡ i = omega arith in ap (get_elem? vs) e

split_rooted : (p rest : Text) → p ≡ b'/' ∷ rest → split b'/' p ≡ [] ∷ split b'/' rest
unfolding split
split_rooted p rest e = rw e refl

module _ (path_escape : Text → Text) (encode : Arguments → Text) where
  here :
      (all_values : List Text) (idx : ℕ) (v : Text) (rest : List Text)
      → ((i : ℕ) → get_elem? all_values (idx + i) ≡ get_elem? (map path_escape (v ∷ rest)) i)
      → get_elem? all_values idx ≡ some (path_escape v)
  here all_values idx v rest same =
      let e : idx ≡ idx + 0 = omega arith in ap (get_elem? all_values) e ∙ same 0

  shifted :
      (all_values : List Text) (idx : ℕ) (v : Text) (rest : List Text)
      → ((i : ℕ) → get_elem? all_values (idx + i) ≡ get_elem? (map path_escape (v ∷ rest)) i)
      → (i : ℕ) → get_elem? all_values (idx + 1 + i) ≡ get_elem? (map path_escape rest) i
  shifted all_values idx v rest same i =
      let e : idx + 1 + i ≡ idx + suc i = omega arith in ap (get_elem? all_values) e ∙ same (suc i)

  -- at index `idx` of the values by position come those of the remaining names
  reverse_named-reverse_from :
      (segments : List Text) (all_values : List Text) (idx : ℕ) (values : List Text)
      (args : Arguments) (u : Text)
      → ((i : ℕ) → get_elem? all_values (idx + i) ≡ get_elem? (map path_escape values) i)
      → Distinct (names_in segments)
      → map (find_entry args) (names_in segments) ≡ map some values
      → length args ≡ length values
      → (w : Text) × (reverse_from all_values idx u segments ≡ returns w)
        × (reverse_named path_escape encode args u segments ≡ (some w, []))
  unfolding reverse_from reverse_named
  reverse_named-reverse_from [] all_values idx [] [] u at distinct found len = (u, refl, refl)
  reverse_named-reverse_from [] all_values idx [] (a ∷ args) u at distinct found len =
      absurd (omega arith)
  reverse_named-reverse_from [] all_values idx (v ∷ values) args u same distinct found len =
      absurd (cc found)
  reverse_named-reverse_from ([] ∷ segments) all_values idx values args u same distinct found len =
      reverse_named-reverse_from segments all_values idx values args u same distinct found len
  reverse_named-reverse_from ((c ∷ s) ∷ segments) all_values idx values args u same distinct found
        len =
      elim (Bool-cases (is_parameter (c ∷ s))) [
        | inr e ↦
            rw (ne-test (suc (length s)) 0 (λ q. omega arith), e)
              (reverse_named-reverse_from segments all_values idx values args (join_path u (c ∷ s))
                same (rw e at distinct) (rw e at found) len)
        | inl e ↦
            let (v, rest, is_cons, at_name, at_rest) =
              first_found (find_entry args) (drop 1 (c ∷ s)) (names_in segments) values
                (rw e at found) in
            let (absent, distinct') = parts s segments (rw e at distinct) in
            rw
              (
                ne-test (suc (length s)) 0 (λ q. omega arith),
                e,
                at_name,
                here all_values idx v rest (rw is_cons at same),
              )
              (reverse_named-reverse_from segments all_values (idx + 1) rest (delete_entry args s)
                (join_path u (path_escape v)) (shifted all_values idx v rest (rw is_cons at same))
                distinct' (map-delete_entry args s (names_in segments) absent ∙ at_rest)
                (one_less (length-delete_entry args s v at_name) (rw is_cons at len)))
      ]

  -- For a route whose path starts with a slash, a map of as many arguments as the path has signs of
  -- parameters, and values that are those of the map for the names in the path, in their order and
  -- no name twice: `RouteURLNamedArgs` with the map gives the URL that `RouteURL` gives with the
  -- values, and neither fails. No argument becomes a query, and the map is empty afterwards.
  pub route_url_named_args-route_url :
      (d : Domain) (route_name : Text) (route : Route) (rest : Text) (args : Arguments)
      (values : List Text)
      → find_entry d.routes route_name ≡ some route
      → route.path ≡ b'/' ∷ rest
      → count_params route.path ≡ length args
      → Distinct (names_in (split b'/' rest))
      → map (find_entry args) (names_in (split b'/' rest)) ≡ map some values
      → length args ≡ length values
      → (u : Text) × (route_url d route_name (map path_escape values) ≡ returns u)
        × (route_url_named_args path_escape encode d route_name args ≡ (u, []))
  unfolding route_url route_url_named_args with_query
  route_url_named_args-route_url d route_name route rest args values h slash count distinct found
        len =
      elim (Bool-cases ((length args == 0) && (length args == 0))) [
        | inl e ↦ (
          route.path,
          rw (route_url, h, count, length-map path_escape values, sym len, e) refl,
          rw (route_url_named_args, h, count, e) (ap (λ x. (route.path, x)) (empty args e)),
        )
        | inr e ↦
            let (u, by_position, by_name) =
              reverse_named-reverse_from (split b'/' rest) (map path_escape values) 0 values args
                (codes "/") (from_start (map path_escape values)) distinct found len in
            (
              u,
              rw
                  (
                    route_url,
                    h,
                    count,
                    length-map path_escape values,
                    sym len,
                    e,
                    ltb_self (length args),
                    split_rooted route.path rest slash,
                  )
                  by_position,
              rw
                  (
                    route_url_named_args,
                    h,
                    count,
                    e,
                    ltb_self (length args),
                    split_rooted route.path rest slash,
                    by_name,
                  )
                  refl,
            )
      ]
