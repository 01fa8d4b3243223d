-- ===== src/Limits/Window.antt =====
-- How many requests a window lets through.
use vpn_suite.Prelude.{
  ℕ, zero, suc, ◌+◌, ◌-◌, min, String, some, ◌≡◌, string_eq, nat_eq, ==_refl, arith,
}
use vpn_suite.Limits.Counter.{Redis, IsCounting, IsUp, count_hit}
use vpn_suite.Limits.Requests.{passes, limit_key}

-- The requests that pass, of a number of requests for one key.
unfoldable pub admitted : (r : Redis) → String → ℕ → ℕ → ℕ → r.State → ℕ × r.State
admitted r key window limit zero s = (0, s)
admitted r key window limit (suc more) s =
    let (v, s') = limit_key r key window limit s in
    let (n, s'') = admitted r key window limit more s' in (elim v [ passes ↦ suc n | _ ↦ n ], s'')

module _ (r : Redis) (c : IsCounting r) (up : IsUp r) where
  -- A hit on a store that answers counts one more.
  pub count_hit-value :
      (key : String) (window : ℕ) (s : r.State)
      → ((count_hit r key window s).0 ≡ some (c.value s key + 1))
        × (c.value (count_hit r key window s).1 key ≡ c.value s key + 1)
  unfolding count_hit
  count_hit-value key window s =
      let (n, counted) = up.incr_up key s in
      ground (
        arith,
        counted,
        c.incr_counts key s n counted,
        c.incr_value key s n counted key,
        ==_refl key,
        up.expire_up key window (r.incr key s).1,
        c.expire_value key window (r.incr key s).1 key,
      )

  -- Of the requests in a window, those are admitted that the limit still leaves room for: from a
  -- fresh key the first `limit`, and no more.
  pub window_admits :
      (key : String) (window limit requests : ℕ) (s : r.State)
      → (admitted r key window limit requests s).0 ≡ min requests (limit - c.value s key)
  unfolding admitted limit_key
  window_admits key window limit zero s = omega arith
  window_admits key window limit (suc more) s =
      let (counted, grown) = count_hit-value key window s in
      ground
        (arith, counted, grown, window_admits key window limit more (count_hit r key window s).1)
