-- ===== src/Security/Trust/Order.antt =====
-- The order of the trust store's keys, and that insertion keeps a list in order.
use antarloka.Prelude.{
  ◌≡◌, ◌≢◌, refl, Bool, true, false, [], ◌∷◌, ◌++◌, ◌==◌, nat_eq, list_eq, arith, list_beq_iff, all,
  Bool-cases, inl, inr,
}
use antarloka.Prelude.Map.{Map, insert_sorted, remove, adjust}
use antarloka.Text.{Str}
use antarloka.Security.Trust.{TrustedDevice, str_lt}

-- `str_lt` is a strict order.
pub str_lt-asymmetric : (s t : Str) → str_lt s t ≡ true → str_lt t s ≡ false
unfolding str_lt
str_lt-asymmetric s [] h = ground (arith, h)
str_lt-asymmetric [] (d ∷ t) h = refl
str_lt-asymmetric (c ∷ s) (d ∷ t) h = ground (arith, h, str_lt-asymmetric s t)

pub str_lt_total : (s t : Str) → str_lt s t ≡ false → s ≢ t → str_lt t s ≡ true
unfolding str_lt
str_lt_total [] [] h n = absurd (n refl)
str_lt_total (c ∷ s) [] h n = refl
str_lt_total [] (d ∷ t) h n = ground (arith, h)
str_lt_total (c ∷ s) (d ∷ t) h n = ground (arith, h, n, str_lt_total s t)

pub str_lt_trans : (s t u : Str) → str_lt s t ≡ true → str_lt t u ≡ true → str_lt s u ≡ true
unfolding str_lt
str_lt_trans s t [] h k = ground (arith, k)
str_lt_trans s [] (e ∷ u) h k = ground (arith, h)
str_lt_trans [] (d ∷ t) (e ∷ u) h k = refl
str_lt_trans (c ∷ s) (d ∷ t) (e ∷ u) h k = ground (arith, h, k, str_lt_trans s t u)

-- Every key of the map comes after, or before, the given one.
abbrev pub above : Str → Map Str TrustedDevice → Bool
above k m = all (λ e. str_lt k e.0) m

abbrev pub below : Map Str TrustedDevice → Str → Bool
below m k = all (λ e. str_lt e.0 k) m

-- The keys are in order, each before all that follow.
abbrev pub IsSorted : Map Str TrustedDevice → Type 0
IsSorted [] = Unit {0}
IsSorted ((k, d) ∷ m) = (above k m ≡ true) × IsSorted m

above_trans :
    (j k : Str) (m : Map Str TrustedDevice)
    → str_lt j k ≡ true
    → above k m ≡ true
    → above j m ≡ true
unfolding all
above_trans j k [] h a = refl
above_trans j k ((i, d) ∷ m) h a = ground (arith, h, a, above_trans j k m, str_lt_trans j k i)

above-insert_sorted :
    (j k : Str) (d : TrustedDevice) (m : Map Str TrustedDevice)
    → str_lt j k ≡ true
    → above j m ≡ true
    → above j (insert_sorted str_lt k d m) ≡ true
unfolding all insert_sorted
above-insert_sorted j k d [] h a = ground (arith, h)
above-insert_sorted j k d ((i, e) ∷ m) h a = ground (arith, h, a, above-insert_sorted j k d m)

pub insert_sorted-IsSorted :
    (k : Str) (d : TrustedDevice) (m : Map Str TrustedDevice)
    → IsSorted m
    → IsSorted (insert_sorted str_lt k d m)
unfolding insert_sorted all
insert_sorted-IsSorted k d [] s = (refl, tt)
insert_sorted-IsSorted k d ((j, e) ∷ m) (a, s) = elim (Bool-cases (j == k)) [
  | inl same ↦ ground (arith, same, list_beq_iff nat_eq j k, a, s)
  | inr other ↦ elim (Bool-cases (str_lt k j)) [
    | inl lower ↦ ground (arith, other, lower, a, s, above_trans k j m)
    | inr higher ↦
        let later : str_lt j k ≡ true =
          str_lt_total k j higher (ground (arith, other, list_beq_iff nat_eq j k)) in
        rw (other, higher) (above-insert_sorted j k d m later a, insert_sorted-IsSorted k d m s)
  ]
]

-- A key after all others is filed at the end.
pub insert_sorted_last :
    (k : Str) (d : TrustedDevice) (m : Map Str TrustedDevice)
    → below m k ≡ true
    → insert_sorted str_lt k d m ≡ m ++ (k, d) ∷ []
unfolding insert_sorted all
insert_sorted_last k d [] b = refl
insert_sorted_last k d ((j, e) ∷ m) b = ground (
  arith,
  b,
  str_lt-asymmetric j k,
  str_lt-asymmetric k k,
  list_beq_iff nat_eq j k,
  insert_sorted_last k d m,
)

above-remove :
    (j k : Str) (m : Map Str TrustedDevice) → above j m ≡ true → above j (remove k m) ≡ true
unfolding all remove
above-remove j k [] a = refl
above-remove j k ((i, e) ∷ m) a = ground (arith, a, above-remove j k m)

pub remove-IsSorted : (k : Str) (m : Map Str TrustedDevice) → IsSorted m → IsSorted (remove k m)
unfolding remove
remove-IsSorted k [] s = tt
remove-IsSorted k ((j, e) ∷ m) (a, s) = ground (arith, above-remove j k m a, remove-IsSorted k m s)

above-adjust :
    (f : TrustedDevice → TrustedDevice) (j k : Str) (m : Map Str TrustedDevice)
    → above j (adjust f k m) ≡ above j m
unfolding all adjust
above-adjust f j k [] = refl
above-adjust f j k ((i, e) ∷ m) = ground (arith, above-adjust f j k m)

pub adjust-IsSorted :
    (f : TrustedDevice → TrustedDevice) (k : Str) (m : Map Str TrustedDevice)
    → IsSorted m
    → IsSorted (adjust f k m)
unfolding adjust
adjust-IsSorted f k [] s = tt
adjust-IsSorted f k ((j, e) ∷ m) (a, s) =
    ground (arith, a, above-adjust f j k m, s, adjust-IsSorted f k m s)
