-- ===== src/Engine/PairingUri.antt =====
-- desktop/src/engine/mod.rs: `url_escape` and `url_unescape`, which carry the device name in a
-- pairing URI. Both work on the bytes of a string; `from_utf8_lossy`, which follows, is left out.
pub mod Escaped
pub mod Target
pub mod Scanned
pub mod Dial
use antarloka.Prelude.{
  ℕ, ◌+◌, ◌-◌, ◌*◌, ◌/◌, ◌%◌, Bool, true, false, not, ◌&&◌, ◌||◌, List, [], ◌∷◌, ◌++◌, Option, none,
  some, ltb, leb, ◌==◌, nat_eq, if◌then◌else◌,
}
use antarloka.Prelude.Map.{map_option}
use antarloka.Text.{Bytes}
use antarloka.Security.Fingerprint.{hex_upper}

unfoldable pub is_ascii_alphanumeric : ℕ → Bool
is_ascii_alphanumeric b =
    (leb b'0' b && leb b b'9') || (leb b'A' b && leb b b'Z') || (leb b'a' b && leb b b'z')

unfoldable pub is_unreserved : ℕ → Bool
is_unreserved b = is_ascii_alphanumeric b || b == b'-' || b == b'_' || b == b'.' || b == b'~'

unfoldable pub escape_byte : ℕ → Bytes
escape_byte b =
    if is_unreserved b then b ∷ [] else b'%' ∷ hex_upper (b / 16) ∷ hex_upper (b % 16) ∷ []

unfoldable pub url_escape : Bytes → Bytes
url_escape [] = []
url_escape (b ∷ bs) = escape_byte b ++ url_escape bs

-- The value of a digit in base 16.
unfoldable pub hex_value : ℕ → Option ℕ
hex_value c =
    if leb b'0' c && leb c b'9'
    then some (c - b'0')
    else if leb b'A' c && leb c b'F'
    then some (c - b'A' + 10)
    else if leb b'a' c && leb c b'f'
    then some (c - b'a' + 10)
    else none

unfoldable pub two_digits : Option ℕ → Option ℕ → Option ℕ
two_digits (some hi) (some lo) = some (hi * 16 + lo)
two_digits _ _ = none

-- `u8::from_str_radix(s, 16)` for two bytes: a plus sign may stand in front.
unfoldable pub from_str_radix : ℕ → ℕ → Option ℕ
from_str_radix x y = if x == b'+' then hex_value y else two_digits (hex_value x) (hex_value y)

-- A string may be cut in front of a byte that does not continue a character.
abbrev pub begins_char : ℕ → Bool
begins_char b = ltb b 0x80 || leb 0xc0 b

abbrev pub begins : Bytes → Bool
begins [] = true
begins (b ∷ bs) = begins_char b

-- None is a panic: `&s[i + 1..i + 3]` cuts a character in two.
unfoldable pub url_unescape : Bytes → Option Bytes
url_unescape [] = some []
url_unescape (b ∷ []) = some (b ∷ [])
url_unescape (b ∷ x ∷ []) = map_option (λ bs. b ∷ bs) (url_unescape (x ∷ []))
url_unescape (b ∷ x ∷ y ∷ more) =
    let skip = url_unescape (x ∷ y ∷ more) in
    let jump = url_unescape more in
    if not (b == b'%')
    then map_option (λ bs. b ∷ bs) skip
    else if not (begins_char x && begins more)
    then none
    else elim (from_str_radix x y) [
      | some v ↦ map_option (λ bs. v ∷ bs) jump
      | none ↦ map_option (λ bs. b ∷ bs) skip
    ]
