-- ===== src/Text.antt =====
-- The functions of Go's `strings` package that the program calls, on texts of ASCII bytes, and
-- essentials/string.go. The separator of `Split` and `Join` is one byte wherever they are called.
pub mod Equality
pub mod Trim
pub mod Split
pub mod Index
pub mod Size
use Prim.Native.Char.{code}
use Prim.Native.String.{String}
use aah.Prelude.{
  ℕ, zero, suc, ◌+◌, ◌-◌, Bool, true, false, ◌&&◌, ◌||◌, List, [], ◌∷◌, ◌++◌, map, Option, none,
  some, leb, ◌==◌, if◌then◌else◌, length,
}

abbrev pub Text : Type 0
Text = List ℕ

-- A literal of the source. `String` has its own `[]` and `∷`.
abbrev pub codes : String → Text
codes String.[] = []
codes (String.◌∷◌ c s) = code c ∷ codes s

-- Go's `==` on strings
unfoldable pub text_eq : Text → Text → Bool
text_eq [] [] = true
text_eq (c ∷ s) (d ∷ t) = (c == d) && text_eq s t
text_eq _ _ = false

unfoldable pub lower_byte : ℕ → ℕ
lower_byte c = if leb b'A' c && leb c b'Z' then c + 32 else c

unfoldable pub upper_byte : ℕ → ℕ
upper_byte c = if leb b'a' c && leb c b'z' then c - 32 else c

abbrev pub to_lower : Text → Text
to_lower = map lower_byte

abbrev pub to_upper : Text → Text
to_upper = map upper_byte

-- strings.EqualFold
unfoldable pub equal_fold : Text → Text → Bool
unfolding text_eq lower_byte
equal_fold s t = text_eq (to_lower s) (to_lower t)

-- ess.IsSliceContainsString
unfoldable pub contains_fold : List Text → Text → Bool
unfolding equal_fold
contains_fold [] search = false
contains_fold (str ∷ rest) search =
    if equal_fold str search then true else contains_fold rest search

unfoldable pub is_space : ℕ → Bool
is_space c = (leb 9 c && leb c 13) || (c == 32)

unfoldable pub trim_left : Text → Text
unfolding is_space
trim_left [] = []
trim_left (c ∷ s) = if is_space c then trim_left s else c ∷ s

-- `c ∷ s` when `s` has had its trailing blanks dropped
abbrev pub cons_trimmed : ℕ → Text → Text
cons_trimmed c [] = if is_space c then [] else c ∷ []
cons_trimmed c (d ∷ s) = c ∷ d ∷ s

unfoldable pub trim_right : Text → Text
unfolding is_space
trim_right [] = []
trim_right (c ∷ s) = cons_trimmed c (trim_right s)

unfoldable pub trim_space : Text → Text
unfolding trim_left trim_right
trim_space s = trim_right (trim_left s)

abbrev pub is_nil {ℓ} : {A : Type ℓ} → List A → Bool
is_nil [] = true
is_nil (_ ∷ _) = false

-- ess.IsStrEmpty
unfoldable pub is_str_empty : Text → Bool
unfolding trim_space
is_str_empty s = is_nil (trim_space s)

abbrev pub cons_head : ℕ → List Text → List Text
cons_head c [] = (c ∷ []) ∷ []
cons_head c (s ∷ ss) = (c ∷ s) ∷ ss

-- strings.Split
unfoldable pub split : ℕ → Text → List Text
split sep [] = [] ∷ []
split sep (c ∷ s) = if c == sep then [] ∷ split sep s else cons_head c (split sep s)

-- strings.Join
unfoldable pub join : Text → List Text → Text
join sep [] = []
join sep (s ∷ []) = s
join sep (s ∷ t ∷ ss) = s ++ (sep ++ join sep (t ∷ ss))

unfoldable pub has_prefix : Text → Text → Bool
has_prefix s [] = true
has_prefix [] (d ∷ p) = false
has_prefix (c ∷ s) (d ∷ p) = (c == d) && has_prefix s p

abbrev pub next_index : Option ℕ → Option ℕ
next_index none = none
next_index (some i) = some (i + 1)

-- strings.IndexByte; `none` is -1
unfoldable pub index_byte : Text → ℕ → Option ℕ
index_byte [] b = none
index_byte (c ∷ s) b = if c == b then some 0 else next_index (index_byte s b)

-- how often a byte occurs: strings.Count for a separator of one byte
unfoldable pub count : ℕ → Text → ℕ
count b [] = 0
count b (c ∷ s) = if c == b then suc (count b s) else count b s

-- `s[n:]` and `s[:n]` for `n` within the text
abbrev pub drop : ℕ → Text → Text
drop zero s = s
drop (suc n) [] = []
drop (suc n) (c ∷ s) = drop n s

abbrev pub take : ℕ → Text → Text
take zero s = []
take (suc n) [] = []
take (suc n) (c ∷ s) = c ∷ take n s
