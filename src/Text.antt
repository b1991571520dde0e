-- ===== src/Text.antt =====
-- What desktop/src uses of Rust's `char` and `str`. A `String` is the list of its code points, and
-- its `len()` is the length of its UTF-8 form; a byte string is the list of its bytes.
pub mod Laws
use Prim.Native.Char.{code}
use Prim.Native.String.{String}
use antarloka.Prelude.{
  ℕ, zero, suc, ◌+◌, ◌-◌, ◌/◌, ◌%◌, ◌≡◌, refl, Bool, true, false, ◌&&◌, ◌||◌, List, [], ◌∷◌, ◌++◌,
  Option, none, some, ltb, leb, ◌==◌, nat_eq, if◌then◌else◌, length,
}

abbrev pub Str : Type 0
Str = List ℕ

abbrev pub Bytes : Type 0
Bytes = List ℕ

-- The code points of a literal.
abbrev pub codes : String → Str
codes String.[] = []
codes (String.◌∷◌ c s) = code c ∷ codes s

-- `char::len_utf8`
unfoldable pub utf8_len : ℕ → ℕ
utf8_len c = if ltb c 0x80 then 1 else if ltb c 0x800 then 2 else if ltb c 0x1_0000 then 3 else 4

-- `str::len`
unfoldable pub byte_len : Str → ℕ
byte_len [] = 0
byte_len (c ∷ s) = utf8_len c + byte_len s

-- `char::is_control`: the category Cc.
unfoldable pub is_control : ℕ → Bool
is_control c = ltb c 0x20 || (leb 0x7f c && ltb c 0xa0)

-- `char::is_whitespace`: the property White_Space.
unfoldable pub is_whitespace : ℕ → Bool
is_whitespace c =
    (leb 9 c && leb c 13)
    || c == 0x20
    || c == 0x85
    || c == 0xa0
    || c == 0x1680
    || (leb 0x2000 c && leb c 0x200a)
    || c == 0x2028
    || c == 0x2029
    || c == 0x202f
    || c == 0x205f
    || c == 0x3000

-- `str::trim_start_matches` and `str::trim_end_matches`.
unfoldable pub trim_start_by : (ℕ → Bool) → Str → Str
trim_start_by p [] = []
trim_start_by p (c ∷ s) = if p c then trim_start_by p s else c ∷ s

trim_end_cons : (ℕ → Bool) → ℕ → Str → Str
trim_end_cons p c [] = if p c then [] else c ∷ []
trim_end_cons p c (d ∷ s) = c ∷ d ∷ s

unfoldable pub trim_end_by : (ℕ → Bool) → Str → Str
unfolding trim_end_cons
trim_end_by p [] = []
trim_end_by p (c ∷ s) = trim_end_cons p c (trim_end_by p s)

unfoldable pub trim : Str → Str
unfolding trim_start_by trim_end_by is_whitespace
trim s = trim_end_by is_whitespace (trim_start_by is_whitespace s)

-- `u8::to_ascii_uppercase` and `to_ascii_lowercase`.
unfoldable pub to_ascii_uppercase : ℕ → ℕ
to_ascii_uppercase c = if leb b'a' c && leb c b'z' then c - 32 else c

unfoldable pub to_ascii_lowercase : ℕ → ℕ
to_ascii_lowercase c = if leb b'A' c && leb c b'Z' then c + 32 else c

unfoldable pub is_ascii_hexdigit : ℕ → Bool
is_ascii_hexdigit c =
    (leb b'0' c && leb c b'9') || (leb b'A' c && leb c b'F') || (leb b'a' c && leb c b'f')

-- `s.split(c).next()`: what stands before the first separator.
unfoldable pub before : ℕ → Str → Str
before d [] = []
before d (c ∷ s) = if c == d then [] else c ∷ before d s

-- `s.rfind(c)`, as the text before the last `c` and the text from it on.
split_cons : ℕ → ℕ → Str → Option (Str × Str) → Option (Str × Str)
split_cons d c s none = if c == d then some ([], c ∷ s) else none
split_cons d c s (some (stem, ext)) = some (c ∷ stem, ext)

unfoldable pub split_last : ℕ → Str → Option (Str × Str)
unfolding split_cons
split_last d [] = none
split_last d (c ∷ s) = split_cons d c s (split_last d s)

-- `str::is_char_boundary`
unfoldable pub is_char_boundary : Str → ℕ → Bool
is_char_boundary [] n = n == 0
is_char_boundary (c ∷ s) n = n == 0 || (leb (utf8_len c) n && is_char_boundary s (n - utf8_len c))

-- `&s[..n]`, at a boundary.
unfoldable pub slice_to : Str → ℕ → Str
slice_to [] n = []
slice_to (c ∷ s) n = if leb (utf8_len c) n then c ∷ slice_to s (n - utf8_len c) else []

-- The digits of `n`, on fuel that is more than its number of digits.
unfoldable pub decimal_digits : ℕ → ℕ → Str
decimal_digits zero n = []
decimal_digits (suc f) n =
    let rest = decimal_digits f (n / 10) in
    if ltb n 10 then (b'0' + n) ∷ [] else rest ++ (b'0' + n % 10) ∷ []

-- `format!("{n}")`
unfoldable pub to_decimal : ℕ → Str
unfolding decimal_digits
to_decimal n = decimal_digits (suc n) n
