-- ===== src/Util/Unique.antt =====
-- desktop/src/util.rs: `unique_path`, the choice of a name that is still free.
use antarloka.Prelude.{
  ℕ, zero, suc, ◌+◌, ◌≤◌, ◌<◌, ◌≡◌, refl, ◌⊎◌, inl, inr, true, false, [], ◌∷◌, ◌++◌, Option, none,
  some, arith, ltb, ◌==◌, nat_eq, list_eq, if◌then◌else◌, all, all-append, all_append_split,
  Bool-cases, Option-cases, sym, append-nil, length, length-append, append_assoc, ap, subst, ◌∙◌,
  nat_beq_iff, ◌/◌, ◌%◌,
}
use antarloka.Text.{Str, codes, byte_len, split_last, to_decimal, decimal_digits}
use antarloka.Text.Laws.{split_last-append}
use antarloka.Fs.{FilePath, Disk, join, parent, exists}
use antarloka.Fs.Laws.{IsName, is_plain, parent-join}

-- `Some(i) if i > 0 => (&name[..i], &name[i..]), _ => (name, "")`
unfoldable pub split_stem : Str → Str × Str
split_stem name = elim (split_last b'.' name) [
  | none ↦ (name, [])
  | some (stem, ext) ↦ if ltb 0 (byte_len stem) then (stem, ext) else (name, [])
]

-- `format!("{stem} ({n}){ext}")`
unfoldable pub numbered : Str × Str → ℕ → Str
numbered (stem, ext) n = stem ++ (codes " (" ++ (to_decimal n ++ (codes ")" ++ ext)))

-- The loop from `n` on, over the given number of rounds.
unfoldable pub first_free : FilePath → Str × Str → Disk → ℕ → ℕ → Option FilePath
first_free dir name disk zero n = none
first_free dir name disk (suc rounds) n =
    let rest = first_free dir name disk rounds (n + 1) in
    let candidate = join dir (numbered name n) in
    if exists candidate disk then rest else some candidate

-- The name of last resort, with the process id.
unfoldable pub fallback : FilePath → Str × Str → ℕ → FilePath
fallback dir (stem, ext) pid =
    join dir (stem ++ (codes "." ++ (to_decimal pid ++ (codes "." ++ ext))))

unfoldable pub or_else : Option FilePath → FilePath → FilePath
or_else none q = q
or_else (some p) q = p

unfoldable pub unique_path : FilePath → Str → Disk → ℕ → FilePath
unique_path dir name disk pid =
    if exists (join dir name) disk
    then or_else (first_free dir (split_stem name) disk 9999 1) (fallback dir (split_stem name) pid)
    else join dir name

split_stem-append : (name : Str) → name ≡ (split_stem name).0 ++ (split_stem name).1
unfolding split_stem
split_stem-append name = elim (Option-cases (split_last b'.' name)) [
  | inl e ↦ rw (e, split_stem) (sym (append-nil name))
  | inr (r, e) ↦ ground (arith, split_last-append b'.' name r.0 r.1, append-nil name)
]

long-IsName : (s : Str) → 2 ≤ length s → all is_plain s ≡ true → IsName s
long-IsName s h plain =
    (λ e. absurd (omega (arith, ap length e)), λ e. absurd (omega (arith, ap length e)), plain)

decimal-plain : (f n : ℕ) → all is_plain (decimal_digits f n) ≡ true
unfolding decimal_digits all
decimal-plain zero n = refl
decimal-plain (suc f) n = ground (
  arith,
  decimal-plain f (n / 10),
  all-append is_plain (decimal_digits f (n / 10)) ((b'0' + n % 10) ∷ []),
)

to_decimal-plain : (n : ℕ) → all is_plain (to_decimal n) ≡ true
unfolding to_decimal
to_decimal-plain n = decimal-plain (suc n) n

module _ (name : Str) (is_name : IsName name) where
  stem-plain : (all is_plain (split_stem name).0 ≡ true) × (all is_plain (split_stem name).1 ≡ true)
  stem-plain =
      all_append_split is_plain (split_stem name).0 (split_stem name).1
        (rw (← split_stem-append name) is_name.2)

  -- A text of two characters and more between the stem and the extension makes a name.
  between-IsName :
      (middle : Str)
      → 2 ≤ length middle
      → all is_plain middle ≡ true
      → IsName ((split_stem name).0 ++ (middle ++ (split_stem name).1))
  between-IsName middle h plain =
      let stem : Str = (split_stem name).0 in
      let ext : Str = (split_stem name).1 in
      long-IsName _ (omega (arith, length-append stem (middle ++ ext), length-append middle ext)) (
        all-append is_plain stem (middle ++ ext) stem-plain.0
          (all-append is_plain middle ext plain stem-plain.1))

  -- A number in brackets keeps a name a name, and so do the dots of the last resort.
  wrapped-IsName :
      (open' close : Str) (n : ℕ)
      → 2 ≤ length open' + length close
      → all is_plain open' ≡ true
      → all is_plain close ≡ true
      → IsName ((split_stem name).0 ++ (open' ++ (to_decimal n ++ (close ++ (split_stem name).1))))
  wrapped-IsName open' close n h p q =
      let (stem, ext) = split_stem name in
      let digits : Str = to_decimal n in
      subst (λ t. IsName (stem ++ t))
        (append_assoc open' (digits ++ close) ext
          ∙ ap (λ t. open' ++ t) (append_assoc digits close ext))
        (between-IsName (open' ++ (digits ++ close))
          (omega (arith, length-append open' (digits ++ close), length-append digits close))
          (all-append is_plain open' (digits ++ close) p
            (all-append is_plain digits close (to_decimal-plain n) q)))

  numbered-IsName : (n : ℕ) → IsName (numbered (split_stem name) n)
  unfolding numbered all
  numbered-IsName n = wrapped-IsName (codes " (") (codes ")") n (omega arith) refl refl

  parent-fallback :
      (dir : FilePath) (pid : ℕ) → parent (fallback dir (split_stem name) pid) ≡ some dir
  unfolding fallback all
  parent-fallback dir pid =
      parent-join dir _ (wrapped-IsName (codes ".") (codes ".") pid (omega arith) refl refl)

  module _ (dir : FilePath) (disk : Disk) where
    abbrev pub Taken : ℕ → Type 0
    Taken n = exists (join dir (numbered (split_stem name) n)) disk ≡ true

    -- What the loop finds is free and in the directory, and it stops only when all is taken.
    abbrev Found : ℕ → ℕ → Option FilePath → Type 0
    Found rounds n none = (k : ℕ) → n ≤ k → k < n + rounds → Taken k
    Found rounds n (some p) = (exists p disk ≡ false) × (parent p ≡ some dir)

    Found-step :
        (rounds n : ℕ) (r : Option FilePath)
        → Taken n
        → Found rounds (n + 1) r
        → Found (suc rounds) n r
    Found-step rounds n (some p) busy rest = rest
    Found-step rounds n none busy rest = λ k h j. elim (Bool-cases (n == k)) [
      | inl e ↦ subst Taken ((nat_beq_iff n k).0 e) busy
      | inr e ↦ rest k (ground arith) (omega arith)
    ]

    first_free-Found :
        (rounds n : ℕ) → Found rounds n (first_free dir (split_stem name) disk rounds n)
    unfolding first_free
    first_free-Found zero n = λ k h j. absurd (omega arith)
    first_free-Found (suc rounds) n =
        elim (Bool-cases (exists (join dir (numbered (split_stem name) n)) disk)) [
          | inl busy ↦ rw busy (Found-step rounds n _ busy (first_free-Found rounds (n + 1)))
          | inr free ↦ rw free (free, parent-join dir _ (numbered-IsName n))
        ]

    or_else-Found :
        (pid : ℕ) (r : Option FilePath)
        → Found 9999 1 r
        → let p = or_else r (fallback dir (split_stem name) pid) in
          (parent p ≡ some dir)
          × ((exists p disk ≡ false) ⊎ ((k : ℕ) → 1 ≤ k → k < 10000 → Taken k))
    unfolding or_else
    or_else-Found pid none f = (parent-fallback dir pid, inr f)
    or_else-Found pid (some p) f = (f.1, inl f.0)

    -- The chosen path lies in the directory; and it is free, unless all 9999 numbers are taken.
    pub unique_path_lem :
        (pid : ℕ)
        → let p = unique_path dir name disk pid in
          (parent p ≡ some dir)
          × ((exists p disk ≡ false) ⊎ ((k : ℕ) → 1 ≤ k → k < 10000 → Taken k))
    unfolding unique_path
    unique_path_lem pid = elim (Bool-cases (exists (join dir name) disk)) [
      | inl busy ↦
          rw (busy, unique_path)
            (or_else-Found pid (first_free dir (split_stem name) disk 9999 1)
              (first_free-Found 9999 1))
      | inr free ↦ rw (free, unique_path) (parent-join dir name is_name, inl free)
    ]

module _ (dir : FilePath) (d e : Disk) (same : (p : FilePath) → exists p d ≡ exists p e) where
  first_free_same :
      (name : Str × Str) (rounds n : ℕ)
      → first_free dir name d rounds n ≡ first_free dir name e rounds n
  unfolding first_free
  first_free_same name zero n = refl
  first_free_same name (suc rounds) n =
      rw (same (join dir (numbered name n)), first_free_same name rounds (n + 1)) refl

  -- The choice depends only on which paths are taken.
  pub unique_path_same :
      (name : Str) (pid : ℕ) → unique_path dir name d pid ≡ unique_path dir name e pid
  unfolding unique_path
  unique_path_same name pid =
      rw (same (join dir name), first_free_same (split_stem name) 9999 1) refl
