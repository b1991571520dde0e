-- ===== src/Net/RateLimit.antt =====
-- The limiters of handshakes, `ConnGuard` in desktop/src/engine/mod.rs, and of beacons,
-- `RateLimiter` in desktop/src/net/discovery.rs. Time is in milliseconds; `K` is `IpAddr`.
pub mod Budget
use antarloka.Prelude.{
  ℕ, ◌+◌, ◌-◌, ◌%◌, ◌^◌, Bool, false, not, Option, none, some, ltb, leb, if◌then◌else◌, length, Eq,
}
use antarloka.Prelude.Map.{Map, lookup, insert, retain}

-- The number of an address in its window, `u32`, after one more.
abbrev pub count_one : ℕ → ℕ
count_one n = (n + 1) % 2 ^ 32

-- `entry(ip).or_insert((now, 0))`, the window started again when it is over.
abbrev pub window : ℕ → ℕ → Option (ℕ × ℕ) → ℕ × ℕ
window span now none = (now, 0)
window span now (some (t, n)) = if leb span (now - t) then (now, 0) else (t, n)

module _ {ℓ} {K : Type ℓ} ⦃e : Eq K⦄ where
  -- The end of both `allow`s.
  unfoldable pub count_in : ℕ → ℕ → Map K (ℕ × ℕ) → ℕ → K → Bool × Map K (ℕ × ℕ)
  count_in span limit seen now ip =
      let (t, n) = window span now (lookup ip seen) in
      (leb (count_one n) limit, insert ip (t, count_one n) seen)

  abbrev pub is_within : ℕ → ℕ → K → ℕ × ℕ → Bool
  is_within span now ip (t, n) = ltb (now - t) span

  -- `ConnGuard::allow`
  unfoldable pub guard_allow : Map K (ℕ × ℕ) → ℕ → K → Bool × Map K (ℕ × ℕ)
  guard_allow seen now ip =
      let kept = retain (is_within 60_000 now) seen in
      if ltb 512 (length kept) then (false, kept) else count_in 60_000 10 kept now ip

  -- `RateLimiter::allow`
  unfoldable pub limiter_allow : Map K (ℕ × ℕ) → ℕ → K → Bool × Map K (ℕ × ℕ)
  limiter_allow seen now ip =
      let kept = retain (is_within 5_000 now) seen in
      if not (ltb 1024 (length seen))
      then count_in 1_000 4 seen now ip
      else if ltb 1024 (length kept)
      then (false, kept)
      else count_in 1_000 4 kept now ip
