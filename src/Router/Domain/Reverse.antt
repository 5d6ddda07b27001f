-- ===== src/Router/Domain/Reverse.antt =====
-- `RouteURL` of router/domain.go: the URLs that it makes of values.
use mathlib.Core.Path.{subst}
use aah.Prelude.{
  ℕ, zero, suc, ◌+◌, ◌≤◌, ◌<◌, ◌≡◌, ◌≢◌, refl, sym, ap, if◌then◌else◌, some_inj, inl, inr, Bool,
  true, false, ◌||◌, List, [], ◌∷◌, arith, some, Bool-cases, ne-test, ltb, ◌==◌, length, get_elem?,
}
use aah.Prelude.Outcome.{returns}
use aah.Text.{Text, codes, split, cons_head, is_nil}
use aah.Router.Tree.{count_params, count_params_from, param_byte, wild_byte}
use aah.Router.Paths.{join_path}
use aah.Router.Paths.Rooted.{Rooted, join_path-Rooted}
use aah.Router.Domain.{Route, Domain, find_entry, is_parameter, reverse_from, route_url}

abbrev one_if : Bool → ℕ
one_if true = 1
one_if false = 0

abbrev parameters_in : List Text → ℕ
parameters_in [] = 0
parameters_in (s ∷ ss) = one_if (is_parameter s) + parameters_in ss

count_params_from-add : (n : ℕ) (p : Text) → count_params_from n p ≡ n + count_params_from 0 p
unfolding count_params_from
count_params_from-add n [] = omega arith
count_params_from-add n (c ∷ p) = elim (Bool-cases ((c == param_byte) || (c == wild_byte))) [
  | inl e ↦ rw e (omega (arith, count_params_from-add (n + 1) p, count_params_from-add 1 p))
  | inr e ↦ rw e (count_params_from-add n p)
]

count_params_from-cons :
    (c : ℕ) (p : Text)
    → count_params_from 0 (c ∷ p)
      ≡ one_if ((c == param_byte) || (c == wild_byte)) + count_params_from 0 p
unfolding count_params_from
count_params_from-cons c p = elim (Bool-cases ((c == param_byte) || (c == wild_byte))) [
  | inl e ↦ rw e (count_params_from-add 1 p)
  | inr e ↦ rw e (omega arith)
]

parameters_in-cons_head :
    (c : ℕ) (ss : List Text)
    → parameters_in (cons_head c ss)
      ≤ one_if ((c == param_byte) || (c == wild_byte)) + parameters_in ss
parameters_in-cons_head c [] = omega arith
parameters_in-cons_head c (s ∷ ss) = omega arith

-- the segments that are parameters are at most the signs that are counted
parameters_in-split : (p : Text) → parameters_in (split b'/' p) ≤ count_params_from 0 p
unfolding split
parameters_in-split [] = unfold count_params_from in omega arith
parameters_in-split (c ∷ p) = elim (Bool-cases (c == b'/')) [
  | inl e ↦ rw e (omega (arith, parameters_in-split p, count_params_from-cons c p))
  | inr e ↦ rw e (
      omega (
        arith,
        parameters_in-split p,
        count_params_from-cons c p,
        parameters_in-cons_head c (split b'/' p),
      ))
]

get_elem?-some : (vs : List Text) (i : ℕ) → i < length vs → (v : Text) × (get_elem? vs i ≡ some v)
get_elem?-some [] i h = absurd (omega arith)
get_elem?-some (v ∷ vs) zero h = (v, refl)
get_elem?-some (v ∷ vs) (suc i) h = get_elem?-some vs i (omega arith)

-- what a URL is made of: the segments that are not empty, each parameter, in order, replaced by the
-- next value
abbrev pub segments_of : List Text → List Text
segments_of [] = []
segments_of (s ∷ ss) = if is_nil s then segments_of ss else s ∷ segments_of ss

abbrev pub filled : List Text → List Text → List Text
filled [] values = []
filled (s ∷ ss) [] = s ∷ filled ss []
filled (s ∷ ss) (v ∷ values) =
    let next = v ∷ filled ss values in
    let same = s ∷ filled ss (v ∷ values) in if is_parameter s then next else same

abbrev pub joined : Text → List Text → Text
joined u [] = u
joined u (s ∷ ss) = joined (join_path u s) ss

abbrev from : ℕ → List Text → List Text
from zero values = values
from (suc i) [] = []
from (suc i) (v ∷ values) = from i values

from-next :
    (i : ℕ) (values : List Text) (v : Text)
    → get_elem? values i ≡ some v
    → from i values ≡ v ∷ from (i + 1) values
from-next i [] v h = cc h
from-next zero (w ∷ values) v h =
    subst (λ n. w ∷ values ≡ v ∷ from n (w ∷ values)) (one 0) (ap (λ x. x ∷ values) (some_inj h))
  where
    one : (n : ℕ) → suc n ≡ n + 1
    one n = omega arith
from-next (suc i) (w ∷ values) v h =
    subst (λ n. from i values ≡ v ∷ from n (w ∷ values)) (shift i) (from-next i values v h)
  where
    shift : (n : ℕ) → suc (n + 1) ≡ suc n + 1
    shift n = omega arith

joined-Rooted : (u : Text) (ss : List Text) → Rooted u → Rooted (joined u ss)
joined-Rooted u [] r = r
joined-Rooted u (s ∷ ss) r = joined-Rooted (join_path u s) ss (join_path-Rooted u s r)

filled-parameter :
    (s : Text) (ss : List Text) (v : Text) (values : List Text)
    → is_parameter s ≡ true
    → filled (s ∷ ss) (v ∷ values) ≡ v ∷ filled ss values
filled-parameter s ss v values e = rw e refl

filled-plain :
    (s : Text) (ss values : List Text)
    → is_parameter s ≡ false
    → filled (s ∷ ss) values ≡ s ∷ filled ss values
filled-plain s ss [] e = refl
filled-plain s ss (v ∷ values) e = rw e refl

reverse_from-filled :
    (values : List Text) (idx : ℕ) (u : Text) (segments : List Text)
    → idx + parameters_in segments ≤ length values
    → reverse_from values idx u segments
      ≡ returns (joined u (filled (segments_of segments) (from idx values)))
unfolding reverse_from
reverse_from-filled values idx u [] h = refl
reverse_from-filled values idx u ([] ∷ segments) h =
    reverse_from-filled values idx u segments (omega arith)
reverse_from-filled values idx u ((c ∷ s) ∷ segments) h = elim (Bool-cases (is_parameter (c ∷ s))) [
  | inl e ↦
      let (v, f) =
        get_elem?-some values idx (within (parameters_in segments) (length values) (rw e at h)) in
      at_value e v f (
        reverse_from-filled values (idx + 1) (join_path u v) segments
          (after (parameters_in segments) (length values) (rw e at h)))
  | inr e ↦
      rw
        (
          ne-test (suc (length s)) 0 (λ q. omega arith),
          e,
          filled-plain (c ∷ s) (segments_of segments) (from idx values) e,
        )
        (reverse_from-filled values idx (join_path u (c ∷ s)) segments
          (same (parameters_in segments) (length values) (rw e at h)))
]
  where
    at_value :
        is_parameter (c ∷ s) ≡ true
        → (v : Text) → get_elem? values idx ≡ some v
        → reverse_from values (idx + 1) (join_path u v) segments
          ≡ returns (joined (join_path u v) (filled (segments_of segments) (from (idx + 1) values)))
        → reverse_from values idx u ((c ∷ s) ∷ segments)
          ≡ returns (joined u (filled (segments_of ((c ∷ s) ∷ segments)) (from idx values)))
    at_value e v f rest =
        rw
          (
            ne-test (suc (length s)) 0 (λ q. omega arith),
            e,
            f,
            from-next idx values v f,
            filled-parameter (c ∷ s) (segments_of segments) v (from (idx + 1) values) e,
          )
          rest

    within : (m n : ℕ) → idx + (1 + m) ≤ n → idx < n
    within m n k = omega arith

    after : (m n : ℕ) → idx + (1 + m) ≤ n → idx + 1 + m ≤ n
    after m n k = omega arith

    same : (m n : ℕ) → idx + (0 + m) ≤ n → idx + m ≤ n
    same m n k = omega arith

count_params-eq : (p : Text) → count_params_from 0 p < 255 → count_params p ≡ count_params_from 0 p
unfolding count_params
count_params-eq p h = ground arith

-- For a route whose path has fewer than 255 signs of parameters, `RouteURL` refuses any other number
-- of values by the empty text. With as many values as signs it returns, without reading beyond them:
-- the path itself where there are none, else the slash joined with the path's segments, in which each
-- parameter, in order, is replaced by the next value, which is a URL that starts with a slash.
pub route_url-returns :
    (d : Domain) (route_name : Text) (args : List Text) (route : Route)
    → find_entry d.routes route_name ≡ some route
    → count_params_from 0 route.path < 255
    → (length args ≢ count_params_from 0 route.path → route_url d route_name args ≡ returns [])
      × (length args ≡ 0
          → count_params_from 0 route.path ≡ 0
          → route_url d route_name args ≡ returns route.path)
      × (length args ≡ count_params_from 0 route.path
          → count_params_from 0 route.path ≢ 0
          → let url = joined (codes "/") (filled (segments_of (split b'/' route.path)) args) in
            (route_url d route_name args ≡ returns url) × Rooted url)
unfolding route_url
route_url-returns d route_name args route h small =
    rw (route_url, h, count_params-eq route.path small)
      (
        λ ne. ground arith,
        λ e f. rw (e, f) refl,
        λ eq pos. (
          rw
              (
                ne-test (count_params_from 0 route.path) 0 pos,
                ltb-eq (count_params_from 0 route.path) (length args) eq,
                ltb-eq (length args) (count_params_from 0 route.path) (sym eq),
              )
              (reverse_from-filled args 0 (codes "/") (split b'/' route.path)
                (enough (parameters_in-split route.path) eq)),
          joined-Rooted (codes "/") (filled (segments_of (split b'/' route.path)) args) (_, refl),
        ),
      )
  where
    enough : {m n l : ℕ} → m ≤ n → l ≡ n → 0 + m ≤ l
    enough h e = omega arith

    ltb-eq : (m n : ℕ) → n ≡ m → ltb m n ≡ false
    ltb-eq m n e = ground arith
