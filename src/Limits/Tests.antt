-- ===== src/Limits/Tests.antt =====
-- A store of counters, and one whose `EXPIRE` always fails.
use vpn_suite.Prelude.{
  ℕ, ◌+◌, ◌-◌, min, String, Bool, true, false, none, some, ◌≡◌, refl, ◌==◌, string_eq, nat_eq,
  if◌then◌else◌, arith, is_truthy, strip,
}
use vpn_suite.Limits.Counter.{Redis, IsCounting, IsUp, count_hit}
use vpn_suite.Limits.Requests.{
  Request, passes, limit_key, client_ip, before_comma, global_api_limit,
}
use vpn_suite.Limits.Window.{admitted, window_admits}
use vpn_suite.Limits.Stuck.{CanCount, lost_expire_locks}

abbrev store : Bool → Redis
store expires = record {
  State = String → ℕ;
  incr = λ k s. (some (s k + 1), λ j. if k == j then s k + 1 else s j);
  expire = λ k window s. (expires, s);
}

store-IsCounting : (expires : Bool) → IsCounting (store expires)
store-IsCounting expires = record {
  value = λ s k. s k;
  has_ttl = λ s k. false;
  incr_counts = λ k s n h. ground arith;
  incr_value = λ k s n h j. refl;
  incr_ttl = λ k s j. refl;
  expire_value = λ k window s j. refl;
}

store-IsUp : IsUp (store true)
store-IsUp = record { incr_up = λ k s. (s k + 1, refl); expire_up = λ k window s. refl }

store-CanCount : CanCount (store false)
store-CanCount = record { incr_up = λ k s. (s k + 1, refl) }

abbrev fresh : String → ℕ
fresh k = 0

abbrev proxied : Request
proxied = record {
  forwarded_for = some " 10.0.0.9, 10.0.0.1";
  real_ip = none;
  client_host = some "10.0.0.1";
  path = "/api/v1/users";
}

proxied_ip : client_ip proxied ≡ "10.0.0.9"
unfolding client_ip before_comma strip is_truthy
proxied_ip = refl

api_passes : (global_api_limit (store true) 100 60 (λ ip. false) proxied fresh).0 ≡ passes
unfolding global_api_limit limit_key count_hit client_ip before_comma strip is_truthy
api_passes = refl

-- Of twelve requests in a window of ten, ten pass.
a_window_passes : (admitted (store true) "k" 60 10 12 fresh).0 ≡ min 12 (10 - 0)
unfolding store-IsCounting
a_window_passes = window_admits (store true) (store-IsCounting true) store-IsUp "k" 60 10 12 fresh

lost_expire_locks_example :
    let (first, s₁) = limit_key (store false) "k" 60 10 fresh in
    let (later, s₂) = admitted (store false) "k" 60 10 1000 s₁ in
    (first ≡ passes) × (later ≡ min 1000 (10 - 1)) × (false ≡ false)
unfolding store-IsCounting
lost_expire_locks_example =
    lost_expire_locks (store false) (store-IsCounting false) store-CanCount "k" 60 10 1000 fresh
      refl refl refl
