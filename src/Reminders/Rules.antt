-- ===== src/Reminders/Rules.antt =====
-- `run_retention_rules`. Times are in seconds; a rule's conditions and priority are taken not to be negative.
use vpn_suite.Prelude.{
  ℕ, ◌+◌, ◌-◌, ◌*◌, ◌/◌, String, Bool, true, not, ◌&&◌, Option, none, some, List, [], ◌∷◌, ◌==◌,
  string_eq, nat_eq, if◌then◌else◌, is_some, leb, ltb, filter, length, sort_by,
}
use vpn_suite.Reminders.Rows.{Subscription}

-- `RetentionRule`: the keys of its condition, and `which` of its parameters.
pub record RetentionRule : Type 0 where
  pub expiry_days_lte : Option ℕ
  pub lifetime_months_gte : Option ℕ
  pub action_type : String
  pub which : Option String
  pub priority : ℕ
  pub enabled : Bool

abbrev pub day : ℕ
day = 86400

-- The query of `get_matching_subscriptions`.
unfoldable pub is_matching : ℕ → RetentionRule → Subscription → Bool
is_matching now rule s =
    s.status == "active"
    && ltb now s.valid_until
    && not (is_some s.paused_at)
    && elim rule.expiry_days_lte [ none ↦ true | some days ↦ leb s.valid_until (now + days * day) ]
    && elim rule.lifetime_months_gte [
      | none ↦ true
      | some months ↦ leb (s.created_at + months * 30 * day) now
    ]

-- `(sub.valid_until - now).days`, of a subscription that has not ended.
abbrev pub days_left : ℕ → Subscription → ℕ
days_left now s = (s.valid_until - now) / day

-- `params.get("which", "3d")`
abbrev pub which_of : RetentionRule → String
which_of rule = elim rule.which [ none ↦ "3d" | some w ↦ w ]

abbrev pub is_marked_3d : ℕ → RetentionRule → Subscription → Bool
is_marked_3d now rule s =
    which_of rule == "3d"
    && not (is_some s.reminder_3d_sent_at)
    && ltb 0 (days_left now s)
    && leb (days_left now s) 3

abbrev pub is_marked_1d : ℕ → RetentionRule → Subscription → Bool
is_marked_1d now rule s =
    which_of rule == "1d"
    && not (is_some s.reminder_1d_sent_at)
    && ltb 0 (days_left now s)
    && leb (days_left now s) 1

-- What a rule makes of a subscription, and the actions that it counts.
unfoldable pub apply_rule : ℕ → RetentionRule → Subscription → ℕ × Subscription
unfolding is_matching
apply_rule now rule s =
    if is_matching now rule s && rule.action_type == "reminder"
    then (if is_marked_3d now rule s
        then (1, record s { reminder_3d_sent_at = some now })
        else if is_marked_1d now rule s
        then (1, record s { reminder_1d_sent_at = some now })
        else (0, s))
    else (0, s)

unfoldable pub apply_to_all : ℕ → RetentionRule → List Subscription → ℕ × List Subscription
unfolding apply_rule
apply_to_all now rule [] = (0, [])
apply_to_all now rule (s ∷ ss) =
    let (taken, s') = apply_rule now rule s in
    let (more, ss') = apply_to_all now rule ss in (taken + more, s' ∷ ss')

unfoldable pub apply_rules : ℕ → List RetentionRule → List Subscription → ℕ × List Subscription
unfolding apply_to_all
apply_rules now [] subs = (0, subs)
apply_rules now (rule ∷ rules) subs =
    let (taken, subs') = apply_to_all now rule subs in
    let (more, subs'') = apply_rules now rules subs' in (taken + more, subs'')

-- The rules evaluated, the actions taken, and the table.
unfoldable pub run_retention_rules :
    ℕ → List RetentionRule → List Subscription → ℕ × ℕ × List Subscription
unfolding apply_rules
run_retention_rules now rules subs =
    let ordered = sort_by (λ p q. ltb q.priority p.priority) (filter (λ r. r.enabled) rules) in
    let (taken, subs') = apply_rules now ordered subs in (length ordered, taken, subs')
