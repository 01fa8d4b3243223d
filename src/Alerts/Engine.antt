-- ===== src/Alerts/Engine.antt =====
-- The second half of `evaluate_once`: the rows of open alerts are refreshed, added and resolved.
-- `open_alerts` maps a fingerprint to the last queried row that has it; the rows are changed where
-- they stand, and new ones come after them.
use vpn_suite.Prelude.{
  ℕ, ◌+◌, max, String, Bool, true, not, ◌&&◌, Option, none, some, List, [], ◌∷◌, ◌++◌, ◌==◌,
  string_eq, if◌then◌else◌, is_some, is_empty, ltb, member, any, filter, length,
}
use vpn_suite.Alerts.Rules.{Context, Rule, Host, Settings, fingerprint, hosts_pass, with_disk}

pub record Alert : Type 0 where
  pub fingerprint : String
  pub rule : String
  pub severity : String
  pub host_id : String
  pub container_id : Option String
  pub container_name : Option String
  pub context : Context
  pub first_seen_at : ℕ
  pub last_seen_at : ℕ
  pub resolved_at : Option ℕ

-- The query: not resolved, on a visited host.
unfoldable pub is_queried : List String → Alert → Bool
is_queried hosts a = not (is_some a.resolved_at) && member a.host_id hosts

-- A queried row with a fingerprint.
unfoldable pub is_open : List String → String → Alert → Bool
is_open hosts k a = is_queried hosts a && a.fingerprint == k

-- Changes the last row that passes a test.
unfoldable pub change_last : (Alert → Bool) → (Alert → Alert) → List Alert → List Alert
change_last test change [] = []
change_last test change (a ∷ rest) =
    let rest' = change_last test change rest in
    if test a && not (any test rest) then change a ∷ rest else a ∷ rest'

unfoldable pub seen : ℕ → Rule → Alert → Alert
seen now r a = record a {
  last_seen_at = now;
  context = r.context;
  severity = r.severity;
  rule = r.rule;
  container_name = r.container_name;
}

unfoldable pub new_alert : ℕ → String → Rule → Alert
new_alert now k r = record {
  fingerprint = k;
  rule = r.rule;
  severity = r.severity;
  host_id = r.host_id;
  container_id = r.container_id;
  container_name = r.container_name;
  context = r.context;
  first_seen_at = now;
  last_seen_at = now;
  resolved_at = none;
}

-- The rows as queried, the rows added, and `active_fingerprints`.
pub record Pass : Type 0 where
  pub present : List Alert
  pub added : List Alert
  pub active : List String

-- `active_fingerprints.add(k)`
abbrev pub set_add : String → List String → List String
set_add k ks = if member k ks then ks else k ∷ ks

module _ (sha : String → String) (now : ℕ) (hosts : List String) where
  -- One turn of the loop over the active rules.
  unfoldable pub rule_step : Rule → Pass → Pass
  unfolding is_open change_last new_alert
  rule_step r p =
      let k = fingerprint sha r in
      let active = set_add k p.active in
      if any (is_open hosts k) p.present
      then record p {
        present = change_last (is_open hosts k) (seen now r) p.present;
        active = active;
      }
      else record p { added = p.added ++ (new_alert now k r ∷ []); active = active }

  unfoldable pub rule_loop : List Rule → Pass → Pass
  unfolding rule_step
  rule_loop [] p = p
  rule_loop (r ∷ rs) p = rule_loop rs (rule_step r p)

module _ (now : ℕ) (hosts : List String) where
  -- The loop over `open_alerts`: a row whose fingerprint is not active is resolved.
  unfoldable pub resolve_stale : List String → List Alert → List Alert
  resolve_stale active [] = []
  resolve_stale active (a ∷ rest) =
      let rest' = resolve_stale active rest in
      if is_queried hosts a
        && not (any (is_open hosts a.fingerprint) rest)
        && not (member a.fingerprint active)
      then record a { resolved_at = some now; last_seen_at = now } ∷ rest'
      else a ∷ rest'

-- `_cleanup_resolved`: the rows that stay.
unfoldable pub is_kept : Settings → ℕ → Alert → Bool
is_kept settings now a = elim a.resolved_at [
  | none ↦ true
  | some since ↦ not (ltb (since + max 60 settings.resolved_ttl_seconds) now)
]

abbrev pub cleanup_resolved : Settings → ℕ → List Alert → List Alert
cleanup_resolved settings now rows = filter (is_kept settings now) rows

-- What follows once rules and hosts are known.
unfoldable pub evaluate_rules :
    (String → String) → Settings → ℕ → List Rule × List String → List Alert → ℕ × List Alert
unfolding rule_loop resolve_stale is_kept
evaluate_rules sha settings now (rules, hosts) rows =
    if is_empty hosts
    then (0, cleanup_resolved settings now rows)
    else (let p =
          rule_loop sha now hosts rules (record { present = rows; added = []; active = [] }) in
        (
          length p.active,
          cleanup_resolved settings now (resolve_stale now hosts p.active p.present ++ p.added),
        ))

-- A pass over all hosts: the count and the table, or nothing where a listing raises.
unfoldable pub evaluate_once :
    (String → String) → Settings → ℕ → List Host → ℕ → ℕ → List Alert → Option (ℕ × List Alert)
evaluate_once sha settings now hosts used_pct free rows = elim (hosts_pass settings hosts) [
  | none ↦ none
  | some found ↦
      some (evaluate_rules sha settings now (with_disk settings used_pct free found) rows)
]
