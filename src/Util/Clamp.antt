-- ===== src/Util/Clamp.antt =====
-- desktop/src/util.rs: `clamp_str`, which shortens the texts and the names of devices that are shown.
use antarloka.Prelude.{
  ℕ, zero, suc, ◌+◌, ◌≤◌, ◌≡◌, refl, Bool, true, not, ◌||◌, [], ◌∷◌, ◌++◌, map, arith, leb, leb→le,
  ◌==◌, nat_eq, if◌then◌else◌, length, length-append, length-take, take, all, all-append,
  Bool-cases, inl, inr,
}
use antarloka.Text.{Str}

abbrev is_line_break : ℕ → Bool
is_line_break c = c == 13 || c == 10 || c == 0

-- `s.replace(['\r', '\n', '\0'], " ")`
blank : ℕ → ℕ
blank c = if is_line_break c then b' ' else c

-- The result ends in an ellipsis, U+2026, if something was cut.
unfoldable pub clamp_str : Str → ℕ → Str
unfolding blank
clamp_str s max =
    let s' = map blank s in if leb (length s') max then s' else take max s' ++ 0x2026 ∷ []

abbrev pub is_one_line : ℕ → Bool
is_one_line c = not (is_line_break c)

all-map-blank : (s : Str) → all is_one_line (map blank s) ≡ true
unfolding all blank
all-map-blank [] = refl
all-map-blank (c ∷ s) = ground (arith, all-map-blank s)

all-take : (q : ℕ → Bool) (n : ℕ) (s : Str) → all q s ≡ true → all q (take n s) ≡ true
unfolding all
all-take q zero s h = refl
all-take q (suc n) [] h = refl
all-take q (suc n) (c ∷ s) h = ground (arith, all-take q n s)

-- A clamped text is one line of at most `max` characters and an ellipsis.
pub clamp_str_bounds :
    (s : Str) (max : ℕ)
    → (length (clamp_str s max) ≤ max + 1) × (all is_one_line (clamp_str s max) ≡ true)
unfolding clamp_str all
clamp_str_bounds s max = elim (Bool-cases (leb (length (map blank s)) max)) [
  | inl short ↦ rw short (omega (arith, leb→le _ _ short), all-map-blank s)
  | inr long ↦ rw long (
    omega (
      arith,
      length-append (take max (map blank s)) (0x2026 ∷ []),
      length-take max (map blank s),
    ),
    all-append is_one_line (take max (map blank s)) (0x2026 ∷ [])
        (all-take is_one_line max _ (all-map-blank s)) refl,
  )
]

map-blank : (s : Str) → all is_one_line s ≡ true → map blank s ≡ s
unfolding all blank
map-blank [] h = refl
map-blank (c ∷ s) h = ground (arith, map-blank s)

-- A text of one line that is short enough is left as it is.
pub clamp_str_id :
    (s : Str) (max : ℕ) → length s ≤ max → all is_one_line s ≡ true → clamp_str s max ≡ s
unfolding clamp_str
clamp_str_id s max h k = ground (arith, map-blank s k)
