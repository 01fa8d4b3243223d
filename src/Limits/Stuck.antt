-- ===== src/Limits/Stuck.antt =====
-- A window whose `EXPIRE` was lost: the key stays, and the limit with it.
use vpn_suite.Prelude.{
  ℕ, zero, suc, ◌+◌, ◌-◌, min, ◌<◌, String, false, some, ◌≡◌, refl, string_eq, nat_eq, ==_refl,
  arith, ◌∙◌,
}
use vpn_suite.Limits.Counter.{Redis, IsCounting, count_hit}
use vpn_suite.Limits.Requests.{passes, limit_key}
use vpn_suite.Limits.Window.{admitted}

-- Counting does not raise; setting a time to live may.
pub record CanCount (r : Redis) : Type 0 where
  pub incr_up : (k : String) (s : r.State) → (n : ℕ) × ((r.incr k s).0 ≡ some n)

module _ (r : Redis) (c : IsCounting r) (up : CanCount r) where
  -- A hit on a key that has been counted gives it no time to live.
  count_hit-later :
      (key : String) (window : ℕ) (s : r.State)
      → 0 < c.value s key
      → ((count_hit r key window s).0 ≡ some (c.value s key + 1))
        × (c.value (count_hit r key window s).1 key ≡ c.value s key + 1)
        × (c.has_ttl (count_hit r key window s).1 key ≡ c.has_ttl s key)
  unfolding count_hit
  count_hit-later key window s pos =
      let (n, counted) = up.incr_up key s in
      let next = c.incr_counts key s n counted in
      let grown = c.incr_value key s n counted key in
      let kept = c.incr_ttl key s key in
      (
        ground (arith, counted, next),
        ground (arith, counted, next, grown, ==_refl key),
        ground (arith, counted, next, kept),
      )

  later_requests :
      (key : String) (window limit requests : ℕ) (s : r.State)
      → 0 < c.value s key
      → ((admitted r key window limit requests s).0 ≡ min requests (limit - c.value s key))
        × (c.has_ttl (admitted r key window limit requests s).1 key ≡ c.has_ttl s key)
  unfolding admitted limit_key
  later_requests key window limit zero s pos = (omega arith, refl)
  later_requests key window limit (suc more) s pos =
      let (counted, grown, kept) = count_hit-later key window s pos in
      let (some_pass, same) =
        later_requests key window limit more (count_hit r key window s).1 (omega (arith, grown)) in
      (ground (arith, counted, grown, some_pass), same ∙ kept)

  -- In a store whose `INCR` never raises: if `EXPIRE` raises for the request that opens a window, and
  -- has not been carried out, so that the key has no time to live then, that request passes and the
  -- key keeps no time to live, whatever requests follow; of all of them together, however many and
  -- however long after, only `limit - 1` pass.
  pub lost_expire_locks :
      (key : String) (window limit requests : ℕ) (s : r.State)
      → c.value s key ≡ 0
      → (r.expire key window (r.incr key s).1).0 ≡ false
      → c.has_ttl (r.expire key window (r.incr key s).1).1 key ≡ false
      → let (first, s₁) = limit_key r key window limit s in
        let (later, s₂) = admitted r key window limit requests s₁ in
        (first ≡ passes) × (later ≡ min requests (limit - 1)) × (c.has_ttl s₂ key ≡ false)
  unfolding limit_key count_hit
  lost_expire_locks key window limit requests s fresh lost forever =
      let (n, counted) = up.incr_up key s in
      let next = c.incr_counts key s n counted in
      let s' = (r.incr key s).1 in
      let s₁ = (r.expire key window s').1 in
      let grown : c.value s₁ key ≡ 1 = ground (
        arith,
        c.expire_value key window s' key,
        c.incr_value key s n counted key,
        fresh,
        ==_refl key,
      ) in
      let after : (limit_key r key window limit s).1 ≡ s₁ =
        ground (arith, counted, next, fresh, lost) in
      let (some_pass, same) = later_requests key window limit requests s₁ (omega (arith, grown)) in
      (
        ground (arith, counted, next, fresh, lost),
        rw after (ground (arith, some_pass, grown)),
        rw after (same ∙ forever),
      )
