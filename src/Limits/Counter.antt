-- ===== src/Limits/Counter.antt =====
-- The counter of a window: `INCR`, and `EXPIRE` by the request that counts one.
-- The store is a parameter, with what its commands are documented to do as laws.
use vpn_suite.Prelude.{
  ℕ, ◌+◌, String, Bool, true, Option, none, some, ◌≡◌, ◌==◌, string_eq, nat_eq, if◌then◌else◌,
}

-- A command answers `none` (or `false`) where it raises.
pub record Redis : Type 1 where
  pub State : Type 0
  pub incr : String → State → Option ℕ × State
  pub expire : String → ℕ → State → Bool × State

-- `INCR` that answers has counted and leaves times to live alone; `EXPIRE` changes no counter, whether
-- it raises or not. The laws hold between two moments at which keys lapse.
pub record IsCounting (r : Redis) : Type 1 where
  pub value : r.State → String → ℕ
  pub has_ttl : r.State → String → Bool
  pub incr_counts : (k : String) (s : r.State) (n : ℕ) → (r.incr k s).0 ≡ some n → n ≡ value s k + 1
  pub incr_value :
      (k : String) (s : r.State) (n : ℕ)
      → (r.incr k s).0 ≡ some n
      → (j : String) → value (r.incr k s).1 j ≡ (if k == j then value s k + 1 else value s j)
  pub incr_ttl : (k : String) (s : r.State) (j : String) → has_ttl (r.incr k s).1 j ≡ has_ttl s j
  pub expire_value :
      (k : String) (window : ℕ) (s : r.State) (j : String)
      → value (r.expire k window s).1 j ≡ value s j

-- No command raises.
pub record IsUp (r : Redis) : Type 0 where
  pub incr_up : (k : String) (s : r.State) → (n : ℕ) × ((r.incr k s).0 ≡ some n)
  pub expire_up : (k : String) (window : ℕ) (s : r.State) → (r.expire k window s).0 ≡ true

-- `n = await r.incr(key); if n == 1: await r.expire(key, window)`: the count, or `none` where one of
-- the two raises.
unfoldable pub count_hit : (r : Redis) → String → ℕ → r.State → Option ℕ × r.State
count_hit r key window s =
    let (counted, s') = r.incr key s in
    elim counted [
      | none ↦ (none, s')
      | some n ↦
          let (ok, s'') = r.expire key window s' in
          if n == 1 then (if ok then (some n, s'') else (none, s'')) else (some n, s')
    ]
