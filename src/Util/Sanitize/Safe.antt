-- ===== src/Util/Sanitize/Safe.antt =====
-- What `sanitize_filename` promises of its result, for every input.
use antarloka.Prelude.{
  ℕ, suc, ◌+◌, ◌≤◌, ◌<◌, ◌≡◌, ◌≢◌, refl, ◌⊎◌, inl, inr, Bool, true, false, List, [], ◌∷◌, ◌++◌,
  some, map, arith, leb, ◌==◌, nat_eq, list_eq, list_beq, list_beq_iff, if◌then◌else◌, length,
  append_assoc, length-append, ◌∙◌, ap, any, all, all-keep, all-append, all_append_split,
  Bool-cases,
}
use antarloka.Text.{
  Str, codes, byte_len, is_control, is_whitespace, to_ascii_uppercase, before, utf8_len,
}
use antarloka.Text.Laws.{all-trim_start, all-trim_end, byte_len-append, byte_len-le}
use antarloka.Util.Sanitize.{
  reserved, max_name_len, received_file, is_kept, is_dot_or_space, clean, is_reserved,
  sanitize_filename,
}
use antarloka.Fs.{FilePath, join, parent}
use antarloka.Fs.Laws.{is_plain, IsName, join-IsName, parent-join}
use antarloka.Prelude.{all_mono}
use antarloka.Util.Sanitize.Cases.{IsCut, truncate_cases, escape_cases}

-- Kept characters only.
abbrev IsClean : Str → Type 0
IsClean s = all is_kept s ≡ true

clean-IsClean : (raw : Str) → IsClean (clean raw)
unfolding clean
clean-IsClean raw =
    all-trim_start is_kept is_whitespace _
      (all-trim_end is_kept is_dot_or_space _ (all-keep is_kept _))

cut-IsClean : (name : Str) (max : ℕ) (cut : Str) → IsClean name → IsCut name max cut → IsClean cut
cut-IsClean name max cut h c =
    let (a, b) = all_append_split is_kept (c.front ++ c.lost) c.ext (rw (← c.name_parts) h) in
    let (d, _) = all_append_split is_kept c.front c.lost a in
    rw c.cut_parts (all-append is_kept c.front c.ext d b)

received_file-IsClean : IsClean received_file
unfolding all is_control any
received_file-IsClean = refl

-- No control character, separator or other character that Windows forbids is left.
pub sanitize_filename-IsClean : (raw : Str) → all is_kept (sanitize_filename raw) ≡ true
unfolding sanitize_filename all is_control any
sanitize_filename-IsClean raw =
    let clean_raw = clean-IsClean raw in
    escape_cases IsClean (clean raw) refl (λ _ _. clean_raw)
      λ _ _ _ _.
        truncate_cases IsClean (clean raw) max_name_len (omega arith) refl (λ _. clean_raw)
          λ cut c. cut-IsClean (clean raw) max_name_len cut clean_raw c

module _ (P : Str → Type 0) (raw : Str) where
  -- The three ways in which `sanitize_filename` answers.
  sanitize_cases :
      P received_file
      → (clean raw ≢ [] → is_reserved (clean raw) ≡ true → P (b'_' ∷ clean raw))
      → (clean raw ≢ []
          → clean raw ≢ codes "."
          → clean raw ≢ codes ".."
          → is_reserved (clean raw) ≡ false
          → byte_len (clean raw) ≤ max_name_len
          → P (clean raw))
      → (is_reserved (clean raw) ≡ false → (cut : Str) → IsCut (clean raw) max_name_len cut → P cut)
      → P (sanitize_filename raw)
  unfolding sanitize_filename
  sanitize_cases fallback marked whole cut = escape_cases P (clean raw) fallback marked λ a b c d.
      truncate_cases P (clean raw) max_name_len (omega arith) fallback (whole a b c d) (cut d)

kept_plain : (c : ℕ) → is_kept c ≡ true → is_plain c ≡ true
unfolding any
kept_plain c h = ground arith

-- A file name that is neither empty nor one of the two special entries.
abbrev pub IsSpecial : Str → Type 0
IsSpecial s = (s ≡ []) ⊎ (s ≡ codes ".") ⊎ (s ≡ codes "..")

cut-byte_len :
    {name cut : Str} {max : ℕ}
    → IsCut name max cut
    → (byte_len cut ≤ max) × (max < byte_len cut + 4)
cut-byte_len c = rw c.cut_parts (
  omega (arith, byte_len-append c.front c.ext, c.fits),
  omega (arith, byte_len-append c.front c.ext, c.nearly),
)

long_not-IsSpecial : (s : Str) → 2 < byte_len s → ¬ IsSpecial s
unfolding byte_len utf8_len
long_not-IsSpecial s h (inl e) = absurd (omega (arith, ap byte_len e))
long_not-IsSpecial s h (inr (inl e)) = absurd (omega (arith, ap byte_len e))
long_not-IsSpecial s h (inr (inr e)) = absurd (omega (arith, ap byte_len e))

-- The result is never empty, `.` or `..`.
pub sanitize_filename-not-IsSpecial : (raw : Str) → ¬ IsSpecial (sanitize_filename raw)
unfolding byte_len utf8_len
sanitize_filename-not-IsSpecial raw =
    sanitize_cases (λ s. ¬ IsSpecial s) raw (ground arith) (λ a _. ground arith)
      (λ a b c _ _. ground arith) λ _ s c. long_not-IsSpecial s (omega (arith, (cut-byte_len c).1))

-- Whatever the peer sends, the result is one name with no separator, neither `.` nor `..`, and the file
-- is a direct child of the directory it is joined to.
pub parent-join-sanitize_filename :
    (dir : FilePath) (raw : Str)
    → IsName (sanitize_filename raw)
      × (sanitize_filename raw ≢ codes "..")
      × (join dir (sanitize_filename raw) ≡ dir ++ sanitize_filename raw ∷ [])
      × (parent (join dir (sanitize_filename raw)) ≡ some dir)
parent-join-sanitize_filename dir raw =
    let name : Str = sanitize_filename raw in
    let is_name : IsName name = (
      λ e. sanitize_filename-not-IsSpecial raw (inl e),
      λ e. sanitize_filename-not-IsSpecial raw (inr (inl e)),
      all_mono is_kept is_plain _ kept_plain (sanitize_filename-IsClean raw),
    ) in
    (
      is_name,
      λ e. sanitize_filename-not-IsSpecial raw (inr (inr e)),
      join-IsName dir name is_name,
      parent-join dir name is_name,
    )

-- The name fits in 120 bytes, unless it was a device name: then it is that name behind `_`.
pub byte_len-sanitize_filename :
    (raw : Str)
    → (byte_len (sanitize_filename raw) ≤ max_name_len)
      ⊎ ((is_reserved (clean raw) ≡ true) × (sanitize_filename raw ≡ b'_' ∷ clean raw))
unfolding byte_len utf8_len
byte_len-sanitize_filename raw =
    sanitize_cases
      (λ s.
        (byte_len s ≤ max_name_len) ⊎ ((is_reserved (clean raw) ≡ true) × (s ≡ b'_' ∷ clean raw)))
      raw (inl (omega arith)) (λ _ device. inr (device, refl)) (λ _ _ _ _ short. inl short)
      λ _ s c. inl (cut-byte_len c).0

abbrev is_short : Str → Bool
is_short r = leb (length r) 4

any-equal-short :
    (x : Str) (rs : List Str) → any (λ r. r == x) rs ≡ true → all is_short rs ≡ true → length x ≤ 4
unfolding any all
any-equal-short x [] h k = cc
any-equal-short x (r ∷ rs) h k = elim (Bool-cases (r == x)) [
  | inl e ↦ ground (arith, ap length ((list_beq_iff nat_eq r x).0 e))
  | inr e ↦ ground (arith, any-equal-short x rs)
]

length-map : (f : ℕ → ℕ) (s : Str) → length (map f s) ≡ length s
length-map f [] = refl
length-map f (c ∷ s) = ap suc (length-map f s)

is_reserved_short : (name : Str) → is_reserved name ≡ true → length (before b'.' name) ≤ 4
unfolding is_reserved all
is_reserved_short name h = omega (
  arith,
  any-equal-short (map to_ascii_uppercase (before b'.' name)) reserved h refl,
  length-map to_ascii_uppercase (before b'.' name),
)

abbrev is_dot : ℕ → Bool
is_dot c = c == b'.'

before-append :
    (s t : Str)
    → before b'.' (s ++ t) ≡ (if any is_dot s then before b'.' s else s ++ before b'.' t)
unfolding before any
before-append [] t = refl
before-append (c ∷ s) t = ground (arith, before-append s t)

is_reserved_same_stem : (s t : Str) → before b'.' s ≡ before b'.' t → is_reserved s ≡ is_reserved t
unfolding is_reserved
is_reserved_same_stem s t e = rw e

-- Cutting a name short makes no device name of it.
cut_not_reserved :
    (name cut : Str)
    → IsCut name max_name_len cut
    → is_reserved name ≡ false
    → is_reserved cut ≡ false
cut_not_reserved name cut c h = elim (Bool-cases (any is_dot c.front)) [
  | inl early ↦
      let same : before b'.' cut ≡ before b'.' name =
        rw (c.cut_parts, c.name_parts, append_assoc, before-append, before-append, early) refl in
      is_reserved_same_stem cut name same ∙ h
  | inr late ↦
      let whole : before b'.' cut ≡ c.front ++ before b'.' c.ext =
        rw (c.cut_parts, before-append, late) refl in
      elim (Bool-cases (is_reserved cut)) [
        | inl device ↦ absurd (
            omega (
              arith,
              is_reserved_short cut device,
              ap length whole,
              length-append c.front (before b'.' c.ext),
              byte_len-le c.front,
              c.nearly,
              c.short_ext,
            ))
        | inr free ↦ free
      ]
]

-- The result is no device name of Windows, in any case and with any extension.
pub sanitize_filename-not_reserved : (raw : Str) → is_reserved (sanitize_filename raw) ≡ false
unfolding is_reserved any before list_beq to_ascii_uppercase
sanitize_filename-not_reserved raw =
    sanitize_cases (λ s. is_reserved s ≡ false) raw refl (λ _ _. refl) (λ _ _ _ free _. free)
      λ free s c. cut_not_reserved (clean raw) s c free
