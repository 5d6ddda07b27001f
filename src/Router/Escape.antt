-- ===== src/Router/Escape.antt =====
-- `url.PathUnescape` of Go's library, on ASCII texts: what stands for an escaped byte.
use aah.Prelude.{ℕ, ◌+◌, ◌-◌, ◌*◌, ◌&&◌, [], ◌∷◌, Option, none, some, if◌then◌else◌, leb, ◌==◌}
use aah.Text.{Text}

unhex : ℕ → Option ℕ
unhex c =
    if leb b'0' c && leb c b'9'
    then some (c - b'0')
    else if leb b'a' c && leb c b'f'
    then some (c - b'a' + 10)
    else if leb b'A' c && leb c b'F'
    then some (c - b'A' + 10)
    else none

abbrev byte_of : Option ℕ → Option ℕ → Option Text → Option Text
byte_of (some hi) (some lo) (some rest) = some ((hi * 16 + lo) ∷ rest)
byte_of _ _ _ = none

abbrev cons_byte : ℕ → Option Text → Option Text
cons_byte c none = none
cons_byte c (some rest) = some (c ∷ rest)

unescape : Text → Option Text
unfolding unhex
unescape [] = some []
unescape (c ∷ []) = if c == b'%' then none else some (c ∷ [])
unescape (c ∷ a ∷ []) = if c == b'%' then none else cons_byte c (unescape (a ∷ []))
unescape (c ∷ a ∷ b ∷ s) =
    let escaped = byte_of (unhex a) (unhex b) (unescape s) in
    let plain = cons_byte c (unescape (a ∷ b ∷ s)) in if c == b'%' then escaped else plain

abbrev value_or_empty : Option Text → Text
value_or_empty none = []
value_or_empty (some v) = v

-- `v, _ := url.PathUnescape(s)`: the empty string where the text is not well escaped
unfoldable pub path_unescape : Text → Text
unfolding unescape
path_unescape s = value_or_empty (unescape s)
