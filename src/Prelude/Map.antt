-- ===== src/Prelude/Map.antt =====
-- `HashMap` as an association list: its iteration order is left open by Rust, and here it is the
-- order of first insertion. `BTreeMap` iterates in the order of its keys: `insert_sorted`.
use Prim.Native.Nat.{suc, ◌≤◌}
use mathlib.Core.Path.{◌≡◌, refl}
use mathlib.Core.Bool.{Bool, true, not, ◌&&◌}
use mathlib.Core.List.{List, [], ◌∷◌}
use mathlib.Core.Option.{Option, none, some}
use native.Mathlib.Omega.{arith}
use antarloka.Prelude.Tests.{Eq, ◌==◌, if◌then◌else◌, is_some}
use antarloka.Prelude.Lists.{length}

abbrev pub Map {ℓ κ} : Type ℓ → Type κ → Type (ℓ ⊔ κ)
Map K V = List (K × V)

abbrev pub map_option {κ μ} : {V : Type κ} {B : Type μ} → (V → B) → Option V → Option B
map_option f none = none
map_option f (some v) = some (f v)

module _ {ℓ κ} {K : Type ℓ} {V : Type κ} ⦃e : Eq K⦄ where
  unfoldable pub lookup : K → Map K V → Option V
  lookup k [] = none
  lookup k ((j, v) ∷ m) = if j == k then some v else lookup k m

  unfoldable pub insert : K → V → Map K V → Map K V
  insert k v [] = (k, v) ∷ []
  insert k v ((j, w) ∷ m) = if j == k then (k, v) ∷ m else (j, w) ∷ insert k v m

  unfoldable pub remove : K → Map K V → Map K V
  remove k [] = []
  remove k ((j, v) ∷ m) = if j == k then remove k m else (j, v) ∷ remove k m

  -- `if let Some(v) = map.get_mut(k) { *v = f(v) }`
  unfoldable pub adjust : (V → V) → K → Map K V → Map K V
  adjust f k [] = []
  adjust f k ((j, v) ∷ m) = if j == k then (j, f v) ∷ m else (j, v) ∷ adjust f k m

  -- `HashMap::retain`
  unfoldable pub retain : (K → V → Bool) → Map K V → Map K V
  retain p [] = []
  retain p ((j, v) ∷ m) = if p j v then (j, v) ∷ retain p m else retain p m

  abbrev pub contains : K → Map K V → Bool
  contains k m = is_some (lookup k m)

  -- `BTreeMap::insert`, for an order given by its strict test.
  unfoldable pub insert_sorted : (K → K → Bool) → K → V → Map K V → Map K V
  insert_sorted lt k v [] = (k, v) ∷ []
  insert_sorted lt k v ((j, w) ∷ m) =
      if j == k
      then (k, v) ∷ m
      else if lt k j
      then (k, v) ∷ (j, w) ∷ m
      else (j, w) ∷ insert_sorted lt k v m

  pub lookup-insert :
      (filed asked : K) (new : V) (map : Map K V)
      → lookup asked (insert filed new map)
        ≡ (if filed == asked then some new else lookup asked map)
  unfolding lookup insert
  lookup-insert filed asked new [] = refl
  lookup-insert filed asked new ((first, old) ∷ map) = ground (
    arith,
    lookup-insert filed asked new map,
    e.same_iff filed asked,
    e.same_iff first filed,
    e.same_iff first asked,
  )

  pub lookup-insert_sorted :
      (lt : K → K → Bool) (k j : K) (v : V) (m : Map K V)
      → lookup j (insert_sorted lt k v m) ≡ (if k == j then some v else lookup j m)
  unfolding lookup insert_sorted
  lookup-insert_sorted lt k j v [] = refl
  lookup-insert_sorted lt k j v ((i, w) ∷ m) =
      ground
        (arith, e.same_iff k j, e.same_iff i k, e.same_iff i j, lookup-insert_sorted lt k j v m)

  pub lookup-remove :
      (k j : K) (m : Map K V) → lookup j (remove k m) ≡ (if k == j then none else lookup j m)
  unfolding lookup remove
  lookup-remove k j [] = ground arith
  lookup-remove k j ((i, w) ∷ m) =
      ground (arith, e.same_iff k j, e.same_iff i k, e.same_iff i j, lookup-remove k j m)

  pub length-adjust : (f : V → V) (k : K) (m : Map K V) → length (adjust f k m) ≡ length m
  unfolding adjust
  length-adjust f k [] = refl
  length-adjust f k ((i, w) ∷ m) = ground (arith, length-adjust f k m)

  pub length-remove-le : (k : K) (m : Map K V) → length (remove k m) ≤ length m
  unfolding remove
  length-remove-le k [] = omega arith
  length-remove-le k ((i, w) ∷ m) = ground (arith, length-remove-le k m)

  pub length-retain-le : (p : K → V → Bool) (m : Map K V) → length (retain p m) ≤ length m
  unfolding retain
  length-retain-le p [] = omega arith
  length-retain-le p ((i, w) ∷ m) = ground (arith, length-retain-le p m)

  pub length-insert :
      (k : K) (v : V) (m : Map K V)
      → length (insert k v m) ≡ (if contains k m then length m else suc (length m))
  unfolding lookup insert
  length-insert k v [] = refl
  length-insert k v ((i, w) ∷ m) = ground (arith, length-insert k v m)

  pub length-insert_sorted-le :
      (lt : K → K → Bool) (k : K) (v : V) (m : Map K V)
      → length (insert_sorted lt k v m) ≤ suc (length m)
  unfolding insert_sorted
  length-insert_sorted-le lt k v [] = omega arith
  length-insert_sorted-le lt k v ((i, w) ∷ m) = ground (arith, length-insert_sorted-le lt k v m)

  pub lookup-adjust :
      (f : V → V) (k j : K) (m : Map K V)
      → lookup j (adjust f k m) ≡ (if k == j then map_option f (lookup j m) else lookup j m)
  unfolding lookup adjust
  lookup-adjust f k j [] = ground arith
  lookup-adjust f k j ((i, w) ∷ m) =
      ground (arith, e.same_iff i k, e.same_iff i j, e.same_iff k j, lookup-adjust f k j m)

  -- Every key occurs once.
  unfoldable pub distinct : Map K V → Bool
  distinct [] = true
  distinct ((k, v) ∷ m) = not (contains k m) && distinct m

  pub distinct-insert :
      (k : K) (v : V) (m : Map K V) → distinct m ≡ true → distinct (insert k v m) ≡ true
  unfolding distinct insert lookup
  distinct-insert k v [] h = refl
  distinct-insert k v ((j, w) ∷ m) h =
      ground (arith, distinct-insert k v m, lookup-insert k j v m, e.same_iff j k, e.same_iff k j)

  pub distinct-remove : (k : K) (m : Map K V) → distinct m ≡ true → distinct (remove k m) ≡ true
  unfolding distinct remove
  distinct-remove k [] h = refl
  distinct-remove k ((j, w) ∷ m) h =
      ground (arith, distinct-remove k m, lookup-remove k j m, e.same_iff j k, e.same_iff k j)
