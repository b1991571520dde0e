-- ===== src/Net/RateLimit/Budget.antt =====
-- `ConnGuard::allow` in desktop/src/engine/mod.rs: how many handshakes one address gets in a minute.
use antarloka.Prelude.{
  ℕ, suc, ◌+◌, ◌-◌, ◌^◌, ◌≤◌, ◌<◌, ◌≡◌, refl, Bool, true, false, ◌&&◌, List, [], ◌∷◌, Option, none,
  some, ltb, leb, if◌then◌else◌, ◌==◌, length, Eq, arith, Bool-cases, inl, inr,
}
use antarloka.Prelude.Map.{Map, lookup, retain, distinct, distinct-insert, lookup-insert}
use antarloka.Net.RateLimit.{count_one, window, count_in, is_within, guard_allow}

module _ {ℓ κ} {K : Type ℓ} {V : Type κ} ⦃e : Eq K⦄ where
  -- What is kept of an entry.
  abbrev passed : (K → V → Bool) → K → Option V → Option V
  passed p k none = none
  passed p k (some v) = if p k v then some v else none

  lookup-retain :
      (p : K → V → Bool) (k : K) (m : Map K V)
      → distinct m ≡ true
      → lookup k (retain p m) ≡ passed p k (lookup k m)
  unfolding lookup retain distinct
  lookup-retain p k [] d = refl
  lookup-retain p k ((j, w) ∷ m) d = ground (arith, lookup-retain p k m, e.same_iff j k)

  distinct-retain :
      (p : K → V → Bool) (m : Map K V) → distinct m ≡ true → distinct (retain p m) ≡ true
  unfolding retain distinct
  distinct-retain p [] d = refl
  distinct-retain p ((j, w) ∷ m) d = ground (arith, distinct-retain p m, lookup-retain p j m)

-- What an address has used of its minute.
abbrev pub used : Option (ℕ × ℕ) → ℕ
used none = 0
used (some (t, n)) = n

-- The window of the entry, if any, began at `start` or later.
abbrev pub is_recent : ℕ → Option (ℕ × ℕ) → Bool
is_recent start none = true
is_recent start (some (t, n)) = leb start t

-- What an address may still use in the minute that begins at `start`: what is left of the ten of its
-- window, and ten more if that window began before the minute and so may end in it.
abbrev pub budget : ℕ → Option (ℕ × ℕ) → ℕ
budget start o = (10 - used o) + (if is_recent start o then 0 else 10)

-- One request in the minute.
abbrev Spends : ℕ → Bool → Option (ℕ × ℕ) → Option (ℕ × ℕ) → Type 0
Spends start let_through before after =
    (used after ≤ used before + 1)
    × ((if let_through then 1 else 0) + budget start after ≤ budget start before)

window-Spends :
    (start now : ℕ) (o : Option (ℕ × ℕ))
    → start ≤ now
    → now < start + 60_000
    → used o + 1 < 2 ^ 32
    → let (t, n) = window 60_000 now o in
      Spends start (leb (count_one n) 10) o (some (t, count_one n))
window-Spends start now none a b c = ground arith
window-Spends start now (some (t, n)) a b c = ground arith

-- An entry that is dropped was of an earlier window.
passed-Spends {ℓ} :
    {K : Type ℓ} ⦃e : Eq K⦄ (start now : ℕ) (ip : K) (o : Option (ℕ × ℕ))
    → now < start + 60_000
    → Spends start false o (passed (is_within {K = K} 60_000 now) ip o)
passed-Spends start now ip none b = ground arith
passed-Spends start now ip (some (t, n)) b = ground arith

module _ {ℓ} {K : Type ℓ} ⦃e : Eq K⦄ where
  -- The handshakes of `ip` that are let in, of a list of requests with their times.
  unfoldable pub let_in : K → List (ℕ × K) → Map K (ℕ × ℕ) → ℕ
  let_in ip [] seen = 0
  let_in ip ((now, from) ∷ rest) seen =
      let (ok', seen') = guard_allow seen now from in
      let later = let_in ip rest seen' in if from == ip && ok' then suc later else later

  -- Every request comes in the minute that begins at `start`.
  unfoldable pub in_minute : ℕ → List (ℕ × K) → Bool
  in_minute start [] = true
  in_minute start ((now, from) ∷ rest) =
      leb start now && ltb now (start + 60_000) && in_minute start rest

  guard_allow-distinct :
      (seen : Map K (ℕ × ℕ)) (now : ℕ) (from : K)
      → distinct seen ≡ true
      → distinct (guard_allow seen now from).1 ≡ true
  unfolding guard_allow count_in
  guard_allow-distinct seen now from d =
      let kept = retain (is_within 60_000 now) seen in
      let (t, n) = window 60_000 now (lookup from kept) in
      ground (
        arith,
        distinct-retain (is_within {K = K} 60_000 now) seen,
        distinct-insert from (t, count_one n) kept,
      )

  count_in-Spends :
      (kept : Map K (ℕ × ℕ)) (start now : ℕ) (from ip : K)
      → start ≤ now
      → now < start + 60_000
      → used (lookup ip kept) + 1 < 2 ^ 32
      → Spends start
          (from == ip && (count_in 60_000 10 kept now from).0)
          (lookup ip kept)
          (lookup ip (count_in 60_000 10 kept now from).1)
  unfolding count_in
  count_in-Spends kept start now from ip a b c =
      let (t, n) = window 60_000 now (lookup from kept) in
      elim (Bool-cases (from == ip)) [
        | inl same ↦
            let here : from ≡ ip = (e.same_iff from ip).0 same in
            ground (
              arith,
              window-Spends start now (lookup ip kept) a b,
              lookup-insert from ip (t, count_one n) kept,
            )
        | inr other ↦ ground (arith, lookup-insert from ip (t, count_one n) kept)
      ]

  guard_allow-Spends :
      (seen : Map K (ℕ × ℕ)) (start now : ℕ) (from ip : K)
      → distinct seen ≡ true
      → start ≤ now
      → now < start + 60_000
      → used (lookup ip seen) + 1 < 2 ^ 32
      → Spends start
          (from == ip && (guard_allow seen now from).0)
          (lookup ip seen)
          (lookup ip (guard_allow seen now from).1)
  unfolding guard_allow
  guard_allow-Spends seen start now from ip d a b c =
      let kept = retain (is_within {K = K} 60_000 now) seen in
      ground (
        arith,
        lookup-retain (is_within {K = K} 60_000 now) ip seen d,
        passed-Spends start now ip (lookup ip seen) b,
        count_in-Spends kept start now from ip a b,
      )

  -- In any minute, from any state and however many addresses ask in between, an address is let in no
  -- more often than its window leaves of ten, and ten times more if that window began before the minute.
  pub let_in-le :
      (start : ℕ) (ip : K) (requests : List (ℕ × K)) (seen : Map K (ℕ × ℕ))
      → distinct seen ≡ true
      → in_minute start requests ≡ true
      → used (lookup ip seen) + length requests < 2 ^ 32
      → let_in ip requests seen ≤ budget start (lookup ip seen)
  unfolding let_in in_minute
  let_in-le start ip [] seen d m c = omega arith
  let_in-le start ip ((now, from) ∷ rest) seen d m c =
      let seen' = (guard_allow seen now from).1 in
      ground (
        arith,
        guard_allow-Spends seen start now from ip d,
        guard_allow-distinct seen now from d,
        let_in-le start ip rest seen',
      )
