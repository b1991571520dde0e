-- ===== src/Engine/Transfer/Hashing.antt =====
-- desktop/src/engine/transfer.rs: `hash_file`, the loop that reads a file for its size and hash.
use antarloka.Prelude.{
  ℕ, zero, suc, ◌+◌, ◌-◌, ◌≤◌, ◌<◌, ◌≡◌, refl, [], ◌∷◌, ◌++◌, Option, none, some, min, length,
  length-drop, take, drop, arith, append_assoc, append-nil, ap, ◌∙◌,
}
use antarloka.Prelude.Map.{map_option}
use antarloka.Text.{Str, Bytes}
use antarloka.Engine.Transfer.{Digests}

-- The buffer of the loop.
abbrev pub buffer_size : ℕ
buffer_size = 262_144

-- How much a call of `read` gives, of what is left and as much as it likes: at least one byte, and
-- no more than the buffer holds.
abbrev pub read_size : ℕ → ℕ → ℕ
read_size likes left = min left (min buffer_size (suc likes))

-- The loop, with what the hasher has taken and the count so far. None is too few rounds.
unfoldable pub hash_loop : ℕ → (ℕ → ℕ) → ℕ → Bytes → Bytes → ℕ → Option (Bytes × ℕ)
hash_loop zero likes round left hasher total = none
hash_loop (suc fuel) likes round [] hasher total = some (hasher, total)
hash_loop (suc fuel) likes round (b ∷ bs) hasher total =
    let n = read_size (likes round) (length (b ∷ bs)) in
    hash_loop fuel likes (suc round) (drop n (b ∷ bs)) (hasher ++ take n (b ∷ bs)) (total + n)

-- `hash_file` of a file that can be opened and read.
unfoldable pub hash_file : Digests → ℕ → (ℕ → ℕ) → Bytes → Option (Str × ℕ)
hash_file dg fuel likes file =
    map_option (λ (r : Bytes × ℕ). (dg.hex_encode (dg.sha256 r.0), r.1))
      (hash_loop fuel likes 0 file [] 0)

rejoined : (n : ℕ) (xs : Bytes) → take n xs ++ drop n xs ≡ xs
rejoined zero xs = refl
rejoined (suc n) [] = refl
rejoined (suc n) (x ∷ xs) = ap (λ t. x ∷ t) (rejoined n xs)

hash_loop_ends :
    (fuel : ℕ) (likes : ℕ → ℕ) (round : ℕ) (left hasher : Bytes) (total : ℕ)
    → length left < fuel
    → hash_loop fuel likes round left hasher total ≡ some (hasher ++ left, total + length left)
unfolding hash_loop
hash_loop_ends zero likes round left hasher total h = ground (arith, h)
hash_loop_ends (suc fuel) likes round [] hasher total h = rw (append-nil hasher) (ground arith)
hash_loop_ends (suc fuel) likes round (b ∷ bs) hasher total h =
    let xs : Bytes = b ∷ bs in
    let n = read_size (likes round) (length xs) in
    let fits : n ≤ length xs = omega arith in
    let gives : 0 < n = omega arith in
    let rest : length (drop n xs) ≡ length xs - n = length-drop n xs in
    let shorter : length (drop n xs) < fuel = omega (arith, h, rest, gives) in
    let whole : (hasher ++ take n xs) ++ drop n xs ≡ hasher ++ xs =
      append_assoc hasher (take n xs) (drop n xs) ∙ ap (λ t. hasher ++ t) (rejoined n xs) in
    let counted : (total + n) + length (drop n xs) ≡ total + length xs =
      omega (arith, rest, fits) in
    hash_loop_ends fuel likes (suc round) (drop n xs) (hasher ++ take n xs) (total + n) shorter
    ∙ ap some (λ i. (whole i, counted i))

-- However much each call of `read` gives, `hash_file` ends once it has more rounds than the file
-- has bytes, with the hash of the whole file and the number of its bytes.
pub hash_file_lem :
    (dg : Digests) (likes : ℕ → ℕ) (fuel : ℕ) (file : Bytes)
    → length file < fuel
    → hash_file dg fuel likes file ≡ some (dg.hex_encode (dg.sha256 file), length file)
unfolding hash_file
hash_file_lem dg likes fuel file h = ground (arith, hash_loop_ends fuel likes 0 file [] 0 h)
