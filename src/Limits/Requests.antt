-- ===== src/Limits/Requests.antt =====
-- The checks that requests go through. Log lines are left out; the address tests of `ipaddress` are
-- an argument.
use Prim.Native.String.{◌++◌ as text_append}
use Prim.Native.Char.{code}
use text.Mathlib.Text.{starts_with}
use vpn_suite.Prelude.{
  ℕ, String, Bool, true, Option, none, some, string_eq, nat_eq, ◌||◌, not, if◌then◌else◌, ltb, leb,
  nat_beq, strip, text_take, is_truthy,
}
use vpn_suite.Limits.Counter.{Redis, count_hit}

-- What a check answers: it passes, or the response with status 429 or 503.
pub data Verdict : Type 0 where
  passes too_many unavailable : Verdict

-- The text up to the first comma, `s.split(",")[0]`.
unfoldable pub before_comma : String → String
before_comma String.[] = ""
before_comma (String.◌∷◌ c s) = if nat_beq (code c) b',' then "" else String.◌∷◌ c (before_comma s)

-- The headers and the peer that a request shows; a header that is missing is `none`.
pub record Request : Type 0 where
  pub forwarded_for : Option String
  pub real_ip : Option String
  pub client_host : Option String
  pub path : String

abbrev pub or_unknown : Option String → String
or_unknown none = "unknown"
or_unknown (some host) = host

abbrev pub truthy_header : Option String → Option String
truthy_header none = none
truthy_header (some h) = if is_truthy h then some h else none

unfoldable pub client_ip : Request → String
unfolding before_comma strip is_truthy
client_ip q = elim (truthy_header q.forwarded_for) [
  | some forwarded ↦ strip (before_comma forwarded)
  | none ↦ elim (truthy_header q.real_ip) [
    | some real ↦ strip real
    | none ↦ or_unknown q.client_host
  ]
]

-- A count beyond the limit is refused; a count that failed passes.
abbrev pub verdict_of : ℕ → Option ℕ → Verdict
verdict_of limit none = passes
verdict_of limit (some n) = if ltb limit n then too_many else passes

module _ (r : Redis) where
  -- The checks that differ only in key, window and limit.
  unfoldable pub limit_key : String → ℕ → ℕ → r.State → Verdict × r.State
  unfolding count_hit
  limit_key key window limit s = let (n, s') = count_hit r key window s in (verdict_of limit n, s')

  -- The middleware: `limit` of 0 turns it off, and other paths and exempt addresses pass.
  unfoldable pub global_api_limit : ℕ → ℕ → (String → Bool) → Request → r.State → Verdict × r.State
  unfolding limit_key client_ip
  global_api_limit limit window is_exempt q s =
      if leb limit 0 || not (starts_with q.path "/api/")
      then (passes, s)
      else if is_exempt (client_ip q)
      then (passes, s)
      else limit_key (text_append "ratelimit:api:" (client_ip q)) window limit s

  abbrev pub login_key : Option String → String
  login_key host = text_append "ratelimit:login:" (or_unknown host)

  -- A count that failed passes, unless the setting closes the door.
  unfoldable pub rate_limit_login_failure :
      ℕ → ℕ → Bool → Option String → r.State → Verdict × r.State
  unfolding count_hit
  rate_limit_login_failure limit window fail_closed host s =
      let (n, s') = count_hit r (login_key host) window s in
      elim n [
        | none ↦ if fail_closed then (unavailable, s') else (passes, s')
        | some k ↦ (verdict_of limit (some k), s')
      ]

  unfoldable pub rate_limit_admin_issue : Option String → r.State → Verdict × r.State
  unfolding limit_key
  rate_limit_admin_issue host s =
      limit_key (text_append "ratelimit:admin_issue:" (or_unknown host)) 60 30 s

  unfoldable pub rate_limit_server_actions : String → String → r.State → Verdict × r.State
  unfolding limit_key
  rate_limit_server_actions server_id admin_id s =
      limit_key
        (text_append "ratelimit:server_actions:" (text_append admin_id (text_append ":" server_id)))
        60 10 s

  -- Both counts are taken before either is compared.
  unfoldable pub rate_limit_config_download : Option String → String → r.State → Verdict × r.State
  unfolding count_hit text_take
  rate_limit_config_download host token s =
      let (n_ip, s') = count_hit r (text_append "ratelimit:config_dl:ip:" (or_unknown host)) 60 s in
      let (n_tok, s'') =
        count_hit r (text_append "ratelimit:config_dl:tok:" (text_take 32 token)) 60 s' in
      elim n_ip [
        | none ↦ (passes, s')
        | some k ↦ elim n_tok [
          | none ↦ (passes, s'')
          | some m ↦ (if ltb 60 k || ltb 5 m then too_many else passes, s'')
        ]
      ]

  -- `should_log_error`, with the key made of code, route and fingerprint.
  unfoldable pub should_log_error : String → r.State → Bool × r.State
  unfolding count_hit
  should_log_error key s =
      let (n, s') = count_hit r key 60 s in elim n [ none ↦ (true, s') | some k ↦ (leb k 10, s') ]
