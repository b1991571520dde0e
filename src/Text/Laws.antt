-- ===== src/Text/Laws.antt =====
-- Laws of the text functions.
use antarloka.Prelude.{
  ℕ, ◌+◌, ◌-◌, ◌*◌, ◌≤◌, ◌<◌, ◌≡◌, refl, inl, inr, Bool, true, [], ◌∷◌, ◌++◌, some, arith, nat_eq,
  length, leb, ap, Bool-cases, all, Option-cases,
}
use antarloka.Text.{
  Str, utf8_len, byte_len, trim_start_by, trim_end_by, trim_end_cons, split_last, split_cons,
  is_char_boundary, slice_to,
}

pub utf8_len_bounds : (c : ℕ) → (1 ≤ utf8_len c) × (utf8_len c ≤ 4)
unfolding utf8_len
utf8_len_bounds c = ground arith

pub byte_len-append : (s t : Str) → byte_len (s ++ t) ≡ byte_len s + byte_len t
unfolding byte_len
byte_len-append [] t = omega arith
byte_len-append (c ∷ s) t = omega (arith, byte_len-append s t)

pub byte_len-le : (s : Str) → byte_len s ≤ 4 * length s
unfolding byte_len
byte_len-le [] = omega arith
byte_len-le (c ∷ s) = omega (arith, byte_len-le s, (utf8_len_bounds c).1)

module _ (q p : ℕ → Bool) where
  pub all-trim_start : (s : Str) → all q s ≡ true → all q (trim_start_by p s) ≡ true
  unfolding trim_start_by all
  all-trim_start [] h = refl
  all-trim_start (c ∷ s) h = ground (arith, all-trim_start s)

  all-trim_end_cons :
      (c : ℕ) (s : Str) → q c ≡ true → all q s ≡ true → all q (trim_end_cons p c s) ≡ true
  unfolding trim_end_cons all
  all-trim_end_cons c [] h k = ground arith
  all-trim_end_cons c (d ∷ s) h k = ground arith

  pub all-trim_end : (s : Str) → all q s ≡ true → all q (trim_end_by p s) ≡ true
  unfolding trim_end_by all
  all-trim_end [] h = refl
  all-trim_end (c ∷ s) h = ground (arith, all-trim_end s, all-trim_end_cons c (trim_end_by p s))

pub all-slice_to : (q : ℕ → Bool) (s : Str) (n : ℕ) → all q s ≡ true → all q (slice_to s n) ≡ true
unfolding slice_to all
all-slice_to q [] n h = refl
all-slice_to q (c ∷ s) n h = ground (arith, all-slice_to q s (n - utf8_len c))

pub byte_len-slice_to : (s : Str) (n : ℕ) → byte_len (slice_to s n) ≤ n
unfolding slice_to byte_len
byte_len-slice_to [] n = omega arith
byte_len-slice_to (c ∷ s) n = ground (arith, byte_len-slice_to s (n - utf8_len c))

-- At a boundary the slice has exactly the bytes that were asked for.
pub byte_len-slice_at :
    (s : Str) (n : ℕ) → is_char_boundary s n ≡ true → byte_len (slice_to s n) ≡ n
unfolding slice_to byte_len is_char_boundary
byte_len-slice_at [] n h = ground arith
byte_len-slice_at (c ∷ s) n h =
    ground (arith, byte_len-slice_at s (n - utf8_len c), utf8_len_bounds c)

-- A slice is a prefix.
pub slice_to_prefix : (s : Str) (n : ℕ) → (r : Str) × (s ≡ slice_to s n ++ r)
unfolding slice_to
slice_to_prefix [] n = ([], refl)
slice_to_prefix (c ∷ s) n = elim (Bool-cases (leb (utf8_len c) n)) [
  | inl fits ↦ let (r, e) = slice_to_prefix s (n - utf8_len c) in (r, rw fits (ap (λ t. c ∷ t) e))
  | inr full ↦ (c ∷ s, rw full)
]

-- `split_last` cuts the text in two, before its last `d`.
pub split_last-append :
    (d : ℕ) (s : Str) (stem ext : Str) → split_last d s ≡ some (stem, ext) → s ≡ stem ++ ext
unfolding split_last split_cons
split_last-append d [] stem ext h = cc
split_last-append d (c ∷ s) stem ext h = elim (Option-cases (split_last d s)) [
  | inl e ↦ ground arith
  | inr (r, e) ↦ ground (arith, split_last-append d s r.0 r.1)
]

-- Below a boundary there is another within four bytes.
pub boundary_below :
    (s : Str) (n : ℕ)
    → n ≤ byte_len s
    → (m : ℕ) × (m ≤ n) × (n < m + 4) × (is_char_boundary s m ≡ true)
unfolding byte_len is_char_boundary
boundary_below [] n h = (0, omega arith, omega arith, refl)
boundary_below (c ∷ s) n h = elim (Bool-cases (leb (utf8_len c) n)) [
  | inl fits ↦
      let (m, a, b, e) = boundary_below s (n - utf8_len c) (ground arith) in
      (utf8_len c + m, ground arith, ground arith, ground (arith, (utf8_len_bounds c).0))
  | inr full ↦ (0, omega arith, ground (arith, utf8_len_bounds c), refl)
]
