-- ===== src/Cookie/Tests.antt =====
-- Runs of the cookie manager with stand-ins for cryptography, and the theorems about it at such inputs.
use aah.Prelude.{ℕ, ◌≡◌, refl, ap, inr, true, [], ◌∷◌, some, arith}
use aah.Prelude.Integers.{pos}
use aah.Text.{Text, codes}
use aah.Cookie.{
  Manager, Coded, ok, err, no_key, unable_to_decrypt, timestamp_is_expired, encode, decode,
  new_manager,
}
use aah.Cookie.StandIn.{stand_in, stand_in-Lawful}
use aah.Cookie.RoundTrip.{decode-encode, decode-rotated}
use aah.Cookie.Authentic.{Accepted, decode-Accepted}

abbrev sealed : Manager
sealed = record {
  name = codes "s";
  max_age = pos 60;
  key = record { sign = codes "k"; enc = codes "e" };
  old_key = no_key;
  max_cookie_size = 4096;
}

abbrev rotated : Manager
rotated = record sealed {
  key = record { sign = codes "n"; enc = codes "f" };
  old_key = record { sign = codes "k"; enc = codes "e" };
}

abbrev coded : Coded → Text
coded (ok v) = v
coded (err e) = []

abbrev hi : Text
hi = coded (encode stand_in sealed (codes "i") 100 (codes "hi"))

made : new_manager (λ k. true) (codes "s") (pos 60) (codes "k" ∷ codes "e" ∷ []) ≡ some sealed
unfolding new_manager aah.Text.is_str_empty
made = refl

encode-hi : encode stand_in sealed (codes "i") 100 (codes "hi") ≡ ok hi
unfolding encode
encode-hi = refl

decode-hi : decode stand_in sealed 160 hi ≡ ok (codes "hi")
unfolding decode encode aah.Text.text_eq
decode-hi = refl

decode_late : decode stand_in sealed 161 hi ≡ err timestamp_is_expired
unfolding decode encode aah.Text.text_eq
decode_late = refl

-- an empty value is encrypted, and is refused when it comes back
decode_empty :
    decode stand_in sealed 100 (coded (encode stand_in sealed (codes "i") 100 []))
    ≡ err unable_to_decrypt
unfolding decode encode aah.Text.text_eq
decode_empty = refl

abbrev head_or_zero : Text → ℕ
head_or_zero [] = 0
head_or_zero (c ∷ s) = c

decode-encode_example : decode stand_in sealed 130 hi ≡ ok (codes "hi")
decode-encode_example =
    decode-encode stand_in stand_in-Lawful sealed (codes "i") 100 130 (codes "hi") hi refl
      (inr (λ e. cc e)) (omega arith, omega arith) encode-hi

decode-rotated_example : decode stand_in rotated 130 hi ≡ ok (codes "hi")
decode-rotated_example =
    decode-rotated stand_in stand_in-Lawful sealed rotated (codes "i") 100 130 (codes "hi") hi refl
      refl refl (λ e. cc e) (λ e. cc e) (λ e. cc e) (λ e. cc e)
      (λ e. let h : b'k' ≡ b'n' = ap head_or_zero e in omega arith) refl (λ e. cc e)
      (omega arith, omega arith) encode-hi

decode-Accepted_example : Accepted stand_in sealed 160 hi (codes "hi")
decode-Accepted_example = decode-Accepted stand_in sealed 160 hi (codes "hi") (λ e. cc e) decode-hi
