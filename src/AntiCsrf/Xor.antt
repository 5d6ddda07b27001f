-- ===== src/AntiCsrf/Xor.antt =====
-- Exclusive or on bytes, as `XOR` of security/anticsrf uses it.
use aah.Prelude.{
  ℕ, zero, suc, ◌+◌, ◌*◌, ◌/◌, ◌%◌, ◌<◌, ◌≡◌, refl, ap, [], ◌∷◌, arith, if◌then◌else◌, ◌==◌, length,
  All,
}
use aah.Text.{Text}
use aah.AntiCsrf.{xor_bits, xor_bytes}

-- the numbers of `n` bits are below this
abbrev limit : ℕ → ℕ
limit zero = 1
limit (suc n) = 2 * limit n

digit : ℕ → ℕ → ℕ
digit a b = if a % 2 == b % 2 then 0 else 1

xor_bits-step : (n a b : ℕ) → xor_bits (suc n) a b ≡ xor_bits n (a / 2) (b / 2) * 2 + digit a b
unfolding xor_bits digit
xor_bits-step n a b = refl

digit-half : (r a b : ℕ) → (r * 2 + digit a b) / 2 ≡ r
unfolding digit
digit-half r a b = ground arith

digit-digit : (r a b : ℕ) → digit a (r * 2 + digit a b) ≡ b % 2
unfolding digit
digit-digit r a b = ground arith

xor_bits-xor_bits : (n a b : ℕ) → b < limit n → xor_bits n a (xor_bits n a b) ≡ b
xor_bits-xor_bits zero a b h = unfold xor_bits in omega arith
xor_bits-xor_bits (suc n) a b h =
    let r = xor_bits n (a / 2) (b / 2) in
    rw
      (
        xor_bits-step n a b,
        xor_bits-step n a (r * 2 + digit a b),
        digit-half r a b,
        digit-digit r a b,
        xor_bits-xor_bits n (a / 2) (b / 2) (omega arith),
      )
      (omega arith)

abbrev pub IsByte : ℕ → Type 0
IsByte c = c < 256

pub xor_bytes-xor_bytes :
    (salt secret : Text)
    → length salt ≡ length secret
    → All IsByte secret
    → xor_bytes salt (xor_bytes salt secret) ≡ secret
unfolding xor_bytes
xor_bytes-xor_bytes [] [] e h = refl
xor_bytes-xor_bytes [] (b ∷ t) e h = absurd (omega arith)
xor_bytes-xor_bytes (a ∷ s) [] e h = absurd (omega arith)
xor_bytes-xor_bytes (a ∷ s) (b ∷ t) e (p, h) =
    rw (xor_bits-xor_bits 8 a b p, xor_bytes-xor_bytes s t (omega arith) h) refl

pub length-xor_bytes :
    (salt secret : Text)
    → length salt ≡ length secret
    → length (xor_bytes salt secret) ≡ length salt
unfolding xor_bytes
length-xor_bytes [] [] e = refl
length-xor_bytes [] (b ∷ t) e = refl
length-xor_bytes (a ∷ s) [] e = absurd (omega arith)
length-xor_bytes (a ∷ s) (b ∷ t) e = ap suc (length-xor_bytes s t (omega arith))
