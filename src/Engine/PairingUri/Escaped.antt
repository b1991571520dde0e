-- ===== src/Engine/PairingUri/Escaped.antt =====
-- desktop/src/engine/mod.rs: what `url_escape` writes, `url_unescape` reads.
use antarloka.Prelude.{
  ℕ, ◌/◌, ◌%◌, ◌<◌, ◌≡◌, refl, true, false, [], ◌∷◌, ◌++◌, some, ltb, ◌==◌, nat_eq, arith, all,
  Bool-cases, inl, inr,
}
use antarloka.Prelude.Map.{map_option}
use antarloka.Text.{Bytes}
use antarloka.Security.Fingerprint.{hex_upper}
use antarloka.Engine.PairingUri.{
  is_ascii_alphanumeric, is_unreserved, escape_byte, url_escape, hex_value, two_digits,
  from_str_radix, begins_char, begins, url_unescape,
}

unreserved_plain : (b : ℕ) → is_unreserved b ≡ true → ((b == b'%') ≡ false) × (begins_char b ≡ true)
unfolding is_unreserved is_ascii_alphanumeric
unreserved_plain b h = ground arith

-- A byte that is no percent sign stands for itself.
url_unescape-plain :
    (b : ℕ) (bs : Bytes)
    → (b == b'%') ≡ false
    → url_unescape (b ∷ bs) ≡ map_option (λ t. b ∷ t) (url_unescape bs)
unfolding url_unescape
url_unescape-plain b [] h = refl
url_unescape-plain b (x ∷ []) h = refl
url_unescape-plain b (x ∷ y ∷ more) h = ground arith

hex_upper_digit : (n : ℕ) → n < 16 → hex_value (hex_upper n) ≡ some n
unfolding hex_value hex_upper
hex_upper_digit n h = ground arith

hex_upper_ascii :
    (n : ℕ) → n < 16 → (begins_char (hex_upper n) ≡ true) × ((hex_upper n == b'+') ≡ false)
unfolding hex_upper
hex_upper_ascii n h = ground arith

from_str_radix-hex_upper :
    (b : ℕ) → b < 256 → from_str_radix (hex_upper (b / 16)) (hex_upper (b % 16)) ≡ some b
unfolding from_str_radix two_digits
from_str_radix-hex_upper b h = ground (
  arith,
  hex_upper_digit (b / 16) (omega arith),
  hex_upper_digit (b % 16) (omega arith),
  hex_upper_ascii (b / 16) (omega arith),
)

begins-url_escape : (bs : Bytes) → begins (url_escape bs) ≡ true
unfolding url_escape escape_byte
begins-url_escape [] = refl
begins-url_escape (b ∷ bs) = ground (arith, unreserved_plain b)

escape_byte-url_unescape :
    (b : ℕ) (bs : Bytes)
    → b < 256
    → begins bs ≡ true
    → url_unescape (escape_byte b ++ bs) ≡ map_option (λ t. b ∷ t) (url_unescape bs)
unfolding escape_byte url_unescape
escape_byte-url_unescape b bs h k = elim (Bool-cases (is_unreserved b)) [
  | inl plain ↦ simp plain (url_unescape-plain b bs (unreserved_plain b plain).0)
  | inr coded ↦ ground (arith, from_str_radix-hex_upper b h, hex_upper_ascii (b / 16) (omega arith))
]

nothing_back : url_unescape [] ≡ some []
unfolding url_unescape
nothing_back = refl

-- Any bytes come back as they were, and the reader does not panic on what the writer wrote.
pub url_unescape-url_escape :
    (bs : Bytes) → all (λ b. ltb b 256) bs ≡ true → url_unescape (url_escape bs) ≡ some bs
unfolding url_escape all
url_unescape-url_escape [] h = nothing_back
url_unescape-url_escape (b ∷ bs) h = ground (
  arith,
  escape_byte-url_unescape b (url_escape bs) (ground arith) (begins-url_escape bs),
  url_unescape-url_escape bs,
)
