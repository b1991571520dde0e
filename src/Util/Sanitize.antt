-- ===== src/Util/Sanitize.antt =====
-- desktop/src/util.rs: `sanitize_filename` and `truncate_keeping_extension`.
mod Cases
pub mod Safe
use antarloka.Prelude.{
  ℕ, zero, suc, ◌+◌, ◌-◌, Bool, true, false, not, ◌&&◌, ◌||◌, List, [], ◌∷◌, ◌++◌, Option, none,
  some, min, map, ltb, leb, ◌==◌, nat_eq, list_eq, if◌then◌else◌, length, any, keep,
}
use antarloka.Text.{
  Str, codes, byte_len, is_control, is_whitespace, trim, trim_start_by, trim_end_by,
  to_ascii_uppercase, before, split_last, is_char_boundary, slice_to,
}
use antarloka.Fs.{is_separator}

-- `< > : " / \ | ? *`
abbrev pub illegal : List ℕ
illegal = b'<' ∷ b'>' ∷ b':' ∷ 0x22 ∷ b'/' ∷ 0x5c ∷ b'|' ∷ b'?' ∷ b'*' ∷ []

abbrev pub reserved : List Str
reserved =
    codes "CON"
    ∷ codes "PRN"
    ∷ codes "AUX"
    ∷ codes "NUL"
    ∷ codes "COM1"
    ∷ codes "COM2"
    ∷ codes "COM3"
    ∷ codes "COM4"
    ∷ codes "COM5"
    ∷ codes "COM6"
    ∷ codes "COM7"
    ∷ codes "COM8"
    ∷ codes "COM9"
    ∷ codes "LPT1"
    ∷ codes "LPT2"
    ∷ codes "LPT3"
    ∷ codes "LPT4"
    ∷ codes "LPT5"
    ∷ codes "LPT6"
    ∷ codes "LPT7"
    ∷ codes "LPT8"
    ∷ codes "LPT9"
    ∷ []

abbrev pub max_name_len : ℕ
max_name_len = 120

abbrev pub received_file : Str
received_file = codes "received_file"

-- `raw.rsplit(['/', '\\']).next()`
unfoldable pub last_component : Str → Str
last_component [] = []
last_component (c ∷ s) =
    if any is_separator s then last_component s else if is_separator c then s else c ∷ s

abbrev pub is_kept : ℕ → Bool
is_kept c = not (is_control c) && not (any (λ d. d == c) illegal)

abbrev pub is_dot_or_space : ℕ → Bool
is_dot_or_space c = c == b'.' || c == b' '

-- Steps 1 to 3.
unfoldable pub clean : Str → Str
clean raw =
    trim_start_by is_whitespace
      (trim_end_by is_dot_or_space (keep is_kept (trim (last_component raw))))

-- `RESERVED.contains(&stem)`
unfoldable pub is_reserved : Str → Bool
is_reserved name = any (λ r. r == map to_ascii_uppercase (before b'.' name)) reserved

-- The extension is kept if it is short and not the whole name.
unfoldable pub split_extension : ℕ → Str → Str × Str
split_extension longest name = elim (split_last b'.' name) [
  | none ↦ (name, [])
  | some (stem, ext) ↦
      if ltb 0 (byte_len stem) && leb (byte_len ext) longest then (stem, ext) else (name, [])
]

-- `while cut > 0 && !stem.is_char_boundary(cut) { cut -= 1 }`
unfoldable pub cut_back : Str → ℕ → ℕ
cut_back s zero = zero
cut_back s (suc n) = let rest = cut_back s n in if is_char_boundary s (suc n) then suc n else rest

cut_to : Str → Str → ℕ → Str
cut_to stem ext cut = if cut == 0 then received_file else slice_to stem cut ++ ext

unfoldable pub truncate_keeping_extension : Str → ℕ → Str
unfolding cut_to
truncate_keeping_extension name max =
    if leb (byte_len name) max
    then name
    else let (stem, ext) = split_extension 16 name in
      cut_to stem ext (cut_back stem (min (max - byte_len ext) (byte_len stem)))

-- Steps 4 to 6.
unfoldable pub escape : Str → Str
escape cleaned =
    if cleaned == [] || cleaned == codes "." || cleaned == codes ".."
    then received_file
    else if is_reserved cleaned
    then b'_' ∷ cleaned
    else truncate_keeping_extension cleaned max_name_len

unfoldable pub sanitize_filename : Str → Str
sanitize_filename raw = escape (clean raw)
