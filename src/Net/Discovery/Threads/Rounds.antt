-- ===== src/Net/Discovery/Threads/Rounds.antt =====
-- The announcer's sleep ends, and it announces to each address once.
use antarloka.Prelude.{
  ℕ, zero, suc, ◌+◌, ◌-◌, ◌*◌, ◌≤◌, ◌<◌, ◌≡◌, refl, Bool, true, false, List, [], ◌∷◌, Option, some,
  ltb, leb, min, ◌==◌, nat_eq, arith, all, Bool-cases, inl, inr, any, ap, ◌∙◌, ◌&&◌, ◌||◌,
}
use antarloka.Prelude.Map.{map_option}
use antarloka.Net.Discovery.Threads.{
  sleep_interruptible, sleep_step, insert_number, sort_numbers, dedup, broadcasts_of,
  interface_broadcasts,
}

sleep_on :
    (fuel : ℕ) (running : ℕ → Bool) (round left : ℕ)
    → (ltb 0 left && running round) ≡ true
    → sleep_interruptible (suc fuel) running round left
      ≡ map_option
          (λ n. min sleep_step left + n)
          (sleep_interruptible fuel running (suc round) (left - min sleep_step left))
unfolding sleep_interruptible
sleep_on fuel running round left h = ground (arith, h)

sleep_over :
    (fuel : ℕ) (running : ℕ → Bool) (round left : ℕ)
    → (ltb 0 left && running round) ≡ false
    → sleep_interruptible (suc fuel) running round left ≡ some 0
unfolding sleep_interruptible
sleep_over fuel running round left h = ground (arith, h)

-- A sleep of `left` milliseconds ends after at most one round for each 200 of them and one more,
-- having slept no longer than it was to, and just as long if the flag stays set.
pub sleep_interruptible_ends :
    (fuel : ℕ) (running : ℕ → Bool) (round left : ℕ)
    → left ≤ 200 * fuel
    → (n : ℕ) × (sleep_interruptible (suc fuel) running round left ≡ some n)
      × (n ≤ left)
      × (((k : ℕ) → running k ≡ true) → n ≡ left)
sleep_interruptible_ends zero running round left h =
    (0, sleep_over zero running round left (ground (arith, h)), omega arith, λ on. omega (arith, h))
sleep_interruptible_ends (suc fuel) running round left h =
    let step : ℕ = min sleep_step left in
    let (n, e, short, whole) =
      sleep_interruptible_ends fuel running (suc round) (left - step) (omega (arith, h)) in
    elim (Bool-cases (ltb 0 left && running round)) [
      | inr over ↦ (
        0,
        sleep_over (suc fuel) running round left over,
        omega arith,
        λ on. ground (arith, over, on round),
      )
      | inl on ↦ (
        step + n,
        sleep_on (suc fuel) running round left on ∙ ap (map_option (λ k. step + k)) e,
        omega (arith, short),
        λ always. omega (arith, whole always),
      )
    ]

-- Each number of a list is above the given one, and the list ascends.
abbrev all_above : ℕ → List ℕ → Bool
all_above a bs = all (λ b. ltb a b) bs

abbrev pub IsAscending : List ℕ → Type 0
IsAscending [] = Unit {0}
IsAscending (a ∷ bs) = (all_above a bs ≡ true) × IsAscending bs

abbrev all_from : ℕ → List ℕ → Bool
all_from a bs = all (λ b. leb a b) bs

abbrev IsOrdered : List ℕ → Type 0
IsOrdered [] = Unit {0}
IsOrdered (a ∷ bs) = (all_from a bs ≡ true) × IsOrdered bs

abbrev pub is_in : ℕ → List ℕ → Bool
is_in x bs = any (λ b. b == x) bs

all_from-insert_number :
    (a b : ℕ) (bs : List ℕ) → a ≤ b → all_from a bs ≡ true → all_from a (insert_number b bs) ≡ true
unfolding all insert_number
all_from-insert_number a b [] h k = ground (arith, h)
all_from-insert_number a b (c ∷ bs) h k = ground (arith, h, k, all_from-insert_number a b bs)

all_from_trans : (a b : ℕ) (bs : List ℕ) → a ≤ b → all_from b bs ≡ true → all_from a bs ≡ true
unfolding all
all_from_trans a b [] h k = refl
all_from_trans a b (c ∷ bs) h k = ground (arith, h, k, all_from_trans a b bs)

insert_number-IsOrdered : (a : ℕ) (bs : List ℕ) → IsOrdered bs → IsOrdered (insert_number a bs)
unfolding insert_number all
insert_number-IsOrdered a [] o = (refl, tt)
insert_number-IsOrdered a (b ∷ bs) (f, o) = elim (Bool-cases (leb a b)) [
  | inl low ↦ ground (arith, low, f, o, all_from_trans a b bs)
  | inr high ↦
      rw high
        (all_from-insert_number b a bs (ground (arith, high)) f, insert_number-IsOrdered a bs o)
]

sort_numbers-IsOrdered : (xs : List ℕ) → IsOrdered (sort_numbers xs)
unfolding sort_numbers
sort_numbers-IsOrdered [] = tt
sort_numbers-IsOrdered (x ∷ xs) =
    insert_number-IsOrdered x (sort_numbers xs) (sort_numbers-IsOrdered xs)

is_in-insert_number :
    (x a : ℕ) (bs : List ℕ) → is_in x (insert_number a bs) ≡ ((a == x) || is_in x bs)
unfolding any insert_number
is_in-insert_number x a [] = refl
is_in-insert_number x a (b ∷ bs) = ground (arith, is_in-insert_number x a bs)

is_in-sort_numbers : (x : ℕ) (xs : List ℕ) → is_in x (sort_numbers xs) ≡ is_in x xs
unfolding any sort_numbers
is_in-sort_numbers x [] = refl
is_in-sort_numbers x (y ∷ ys) =
    ground (arith, is_in-insert_number x y (sort_numbers ys), is_in-sort_numbers x ys)

is_in-dedup : (x : ℕ) (bs : List ℕ) → is_in x (dedup bs) ≡ is_in x bs
unfolding any dedup
is_in-dedup x [] = refl
is_in-dedup x (a ∷ []) = refl
is_in-dedup x (a ∷ b ∷ bs) = ground (arith, is_in-dedup x (b ∷ bs))

above-dedup :
    (a b : ℕ) (bs : List ℕ) → a < b → IsOrdered (b ∷ bs) → all_above a (dedup (b ∷ bs)) ≡ true
unfolding all dedup
above-dedup a b [] h o = ground (arith, h)
above-dedup a b (c ∷ bs) h (f, o) = elim (Bool-cases (b == c)) [
  | inl same ↦ rw same (above-dedup a c bs (ground (arith, h, same)) o)
  | inr apart ↦ rw apart (ground (arith, h, above-dedup a c bs (ground (arith, h, f)) o))
]

dedup-IsAscending : (bs : List ℕ) → IsOrdered bs → IsAscending (dedup bs)
unfolding dedup all
dedup-IsAscending [] o = tt
dedup-IsAscending (a ∷ []) o = (refl, tt)
dedup-IsAscending (a ∷ b ∷ bs) (f, o) = elim (Bool-cases (a == b)) [
  | inl same ↦ rw same (dedup-IsAscending (b ∷ bs) o)
  | inr apart ↦
      rw apart (above-dedup a b bs (ground (arith, f, apart)) o, dedup-IsAscending (b ∷ bs) o)
]

-- The addresses that are announced to are those of the interfaces that are no loopback, each once,
-- in ascending order.
pub interface_broadcasts_lem :
    (ifaces : List (Bool × Option ℕ))
    → IsAscending (interface_broadcasts ifaces)
      × ((x : ℕ) → is_in x (interface_broadcasts ifaces) ≡ is_in x (broadcasts_of ifaces))
unfolding interface_broadcasts
interface_broadcasts_lem ifaces =
    let sorted : List ℕ = sort_numbers (broadcasts_of ifaces) in
    (
      dedup-IsAscending sorted (sort_numbers-IsOrdered (broadcasts_of ifaces)),
      λ x. is_in-dedup x sorted ∙ is_in-sort_numbers x (broadcasts_of ifaces),
    )
