-- ===== src/Cookie/Laws.antt =====
-- What the manager relies on: decoding undoes encoding, the key stream undoes itself, and neither
-- base64 nor a number has a pipe.
use aah.Prelude.{ℕ, zero, suc, ◌+◌, ◌≤◌, ◌≡◌, refl, [], ◌∷◌, ◌++◌, some, length}
use aah.Prelude.Integers.{ℤ, pos, negsuc}
use aah.Text.{Text}
use aah.Text.Split.{Lacks}
use aah.Cookie.{Primitives, pipe, cut, split_parts}

pub record Lawful (prim : Primitives) : Type 0 where
  pub unbase64-base64 : (b : Text) → prim.unbase64 (prim.base64 b) ≡ some b
  pub base64-Lacks : (b : Text) → Lacks pipe (prim.base64 b)
  pub parse_int-decimal : (n : ℕ) → prim.parse_int (prim.decimal n) ≡ some (pos n)
  pub decimal-Lacks : (n : ℕ) → Lacks pipe (prim.decimal n)
  pub ctr-ctr : (key iv b : Text) → prim.ctr key iv (prim.ctr key iv b) ≡ b
  pub length-ctr : (key iv b : Text) → length (prim.ctr key iv b) ≡ length b

-- the time that a cookie stays valid; a negative age leaves it no time at all
abbrev pub InTime : ℤ → ℕ → ℕ → Type 0
InTime (pos zero) t now = t ≤ now
InTime (pos (suc age)) t now = (t ≤ now) × (now ≤ t + suc age)
InTime (negsuc age) t now = ⊥

cut-append : (s t : Text) → Lacks pipe s → cut (s ++ pipe ∷ t) ≡ some (s, t)
unfolding cut
cut-append [] t h = refl
cut-append (c ∷ s) t (p, h) = rw (p, cut-append s t h) refl

pub split_parts-append :
    (a b c : Text)
    → Lacks pipe a
    → Lacks pipe b
    → split_parts (a ++ pipe ∷ (b ++ pipe ∷ c)) ≡ some (a, b, c)
split_parts-append a b c h k =
    rw (split_parts, cut-append a (b ++ pipe ∷ c) h, cut-append b c k) refl
