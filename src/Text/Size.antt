-- ===== src/Text/Size.antt =====
-- essentials/format.go: StrToBytes. An int64 is its bits, a number below 2 ^ 64. Case is that of ASCII.
use aah.Prelude.{
  ℕ, ◌+◌, ◌*◌, ◌-◌, ◌%◌, Bool, false, ◌&&◌, ◌||◌, [], ◌∷◌, Option, none, some, if◌then◌else◌, leb,
  ◌==◌,
}
use aah.Text.{Text, to_lower, trim_space}

abbrev pub is_digit : ℕ → Bool
is_digit c = leb b'0' c && leb c b'9'

abbrev pub is_unit_end : ℕ → Bool
is_unit_end c = (c == b'b') || (c == b'?') || (c == b'|')

abbrev pub is_prefix : ℕ → Bool
is_prefix c = (c == b'k') || (c == b'm') || (c == b'g') || (c == b't')

-- `[kmgt]?[i]?[b?|b]` in lower case
unfoldable pub is_unit : Text → Bool
is_unit (a ∷ []) = is_unit_end a
is_unit (a ∷ b ∷ []) = (is_prefix a || (a == b'i')) && is_unit_end b
is_unit (a ∷ b ∷ c ∷ []) = is_prefix a && (b == b'i') && is_unit_end c
is_unit _ = false

-- the digits at the start and what is behind them
unfoldable pub split_digits : Text → Text × Text
split_digits [] = ([], [])
split_digits (c ∷ s) =
    let (digits, rest) = split_digits s in if is_digit c then (c ∷ digits, rest) else ([], c ∷ s)

unfoldable pub decimal_from : ℕ → Text → ℕ
decimal_from n [] = n
decimal_from n (c ∷ s) = decimal_from (10 * n + (c - b'0')) s

abbrev pub int64_mod : ℕ
int64_mod = 18446744073709551616

abbrev pub int64_max : ℕ
int64_max = 9223372036854775807

-- the factor of a unit, by its first byte
abbrev pub unit_size : Text → ℕ
unit_size [] = 0
unit_size (c ∷ _) =
    if c == b't'
    then 1099511627776
    else if c == b'g'
    then 1073741824
    else if c == b'm'
    then 1048576
    else if c == b'k'
    then 1024
    else if c == b'b'
    then 1
    else 0

unfoldable pub sized : Text → Text → Option ℕ
unfolding is_unit decimal_from
sized [] unit = none
sized (c ∷ digits) unit =
    let value = decimal_from 0 (c ∷ digits) in
    if is_unit unit
    then (if leb value int64_max then some ((value * unit_size unit) % int64_mod) else none)
    else none

-- `none` is an error
unfoldable pub str_to_bytes : Text → Option ℕ
unfolding split_digits sized
str_to_bytes value =
    let (digits, unit) = split_digits (trim_space value) in sized digits (to_lower unit)
