-- ===== src/Text/Index.antt =====
-- Where a byte stands in a text that is put together around it.
use aah.Prelude.{ℕ, suc, ◌≡◌, refl, ap, [], ◌∷◌, ◌++◌, none, some, arith, ==_refl, length}
use aah.Text.{Text, index_byte, drop, take}
use aah.Text.Split.{Lacks}

pub index_byte-append :
    (b : ℕ) (s t : Text) → Lacks b s → index_byte (s ++ b ∷ t) b ≡ some (length s)
unfolding index_byte
index_byte-append b [] t h = rw (==_refl b) refl
index_byte-append b (c ∷ s) t (p, h) = rw (p, index_byte-append b s t h) (ap some (omega arith))

pub index_byte-Lacks : (b : ℕ) (s : Text) → Lacks b s → index_byte s b ≡ none
unfolding index_byte
index_byte-Lacks b [] h = refl
index_byte-Lacks b (c ∷ s) (p, h) = rw (p, index_byte-Lacks b s h) refl

pub take-append : (s t : Text) → take (length s) (s ++ t) ≡ s
take-append [] t = refl
take-append (c ∷ s) t = ap (◌∷◌ c) (take-append s t)

pub drop-append : (s t : Text) → drop (length s) (s ++ t) ≡ t
drop-append [] t = refl
drop-append (c ∷ s) t = drop-append s t

pub drop-append_byte : (b : ℕ) (s t : Text) → drop (suc (length s)) (s ++ b ∷ t) ≡ t
drop-append_byte b [] t = refl
drop-append_byte b (c ∷ s) t = drop-append_byte b s t
