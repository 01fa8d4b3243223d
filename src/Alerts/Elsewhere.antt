-- ===== src/Alerts/Elsewhere.antt =====
-- The alerts of hosts that a pass does not visit.
use vpn_suite.Prelude.{
  ℕ, String, Bool, not, List, [], ◌∷◌, ◌++◌, string_eq, ◌≡◌, refl, arith, member, filter,
  filter-append, append-nil, filter-filter_comm, ◌∙◌,
}
use vpn_suite.Alerts.Rules.{Rule, Settings, fingerprint}
use vpn_suite.Alerts.Engine.{
  Alert, is_queried, is_open, change_last, seen, new_alert, Pass, rule_step, rule_loop,
  resolve_stale, is_kept, cleanup_resolved, evaluate_rules,
}
use vpn_suite.Alerts.Tracks.{AreOf}

-- The row is of another host.
abbrev pub is_elsewhere : List String → Alert → Bool
is_elsewhere hosts a = not (member a.host_id hosts)

module _ (hosts : List String) where
  elsewhere-change_last :
      (now : ℕ) (r : Rule) (k : String) (rows : List Alert)
      → filter (is_elsewhere hosts) (change_last (is_open hosts k) (seen now r) rows)
        ≡ filter (is_elsewhere hosts) rows
  unfolding change_last is_open is_queried seen
  elsewhere-change_last now r k [] = refl
  elsewhere-change_last now r k (a ∷ rest) = ground (arith, elsewhere-change_last now r k rest)

  elsewhere-resolve_stale :
      (now : ℕ) (active : List String) (rows : List Alert)
      → filter (is_elsewhere hosts) (resolve_stale now hosts active rows)
        ≡ filter (is_elsewhere hosts) rows
  unfolding resolve_stale is_queried
  elsewhere-resolve_stale now active [] = refl
  elsewhere-resolve_stale now active (a ∷ rest) =
      ground (arith, elsewhere-resolve_stale now active rest)

module _ (sha : String → String) (now : ℕ) (hosts : List String) where
  elsewhere-present :
      (rules : List Rule) (p : Pass)
      → filter (is_elsewhere hosts) (rule_loop sha now hosts rules p).present
        ≡ filter (is_elsewhere hosts) p.present
  unfolding rule_loop rule_step
  elsewhere-present [] p = refl
  elsewhere-present (r ∷ rs) p =
      elsewhere-present rs (rule_step sha now hosts r p)
      ∙ ground (arith, elsewhere-change_last hosts now r (fingerprint sha r) p.present)

  elsewhere-added :
      (rules : List Rule) (p : Pass)
      → AreOf hosts rules
      → filter (is_elsewhere hosts) (rule_loop sha now hosts rules p).added
        ≡ filter (is_elsewhere hosts) p.added
  unfolding rule_loop rule_step new_alert
  elsewhere-added [] p h = refl
  elsewhere-added (r ∷ rs) p h =
      let k = fingerprint sha r in
      elsewhere-added rs (rule_step sha now hosts r p) h.1
      ∙ ground (
        arith,
        h.0,
        filter-append (is_elsewhere hosts) p.added (new_alert now k r ∷ []),
        append-nil (filter (is_elsewhere hosts) p.added),
      )

  pub evaluate_rules-elsewhere :
      (settings : Settings) (rules : List Rule) (rows : List Alert)
      → AreOf hosts rules
      → filter (is_elsewhere hosts) (evaluate_rules sha settings now (rules, hosts) rows).1
        ≡ filter (is_elsewhere hosts) (cleanup_resolved settings now rows)
  unfolding evaluate_rules
  evaluate_rules-elsewhere settings rules rows of =
      let away = is_elsewhere hosts in
      let start : Pass = record { present = rows; added = []; active = [] } in
      let p = rule_loop sha now hosts rules start in
      let stale = resolve_stale now hosts p.active p.present in
      ground (
        arith,
        filter-filter_comm away (is_kept settings now) (stale ++ p.added),
        filter-filter_comm away (is_kept settings now) rows,
        filter-append away stale p.added,
        elsewhere-resolve_stale hosts now p.active p.present,
        elsewhere-present rules start,
        elsewhere-added rules start of,
        append-nil (filter away p.present),
      )
