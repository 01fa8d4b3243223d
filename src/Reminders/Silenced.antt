-- ===== src/Reminders/Silenced.antt =====
-- What the rules' marks do to the reminders.
use vpn_suite.Prelude.{
  ℕ, ◌+◌, ◌-◌, ◌*◌, ◌/◌, ◌≤◌, String, Bool, true, false, not, ◌&&◌, Option, none, some, List, [],
  ◌∷◌, ◌==◌, string_eq, nat_eq, is_some, leb, ltb, filter, length, ◌≡◌, refl, ◌∙◌, arith,
  Bool-cases, inl, inr,
}
use vpn_suite.Reminders.Rows.{Subscription}
use vpn_suite.Reminders.Task.{
  hours, is_between, is_due_3d, is_sent_3d, run_subscription_reminder_check,
}
use vpn_suite.Reminders.Rules.{
  RetentionRule, which_of, day, is_matching, is_marked_3d, is_marked_1d, apply_rule, apply_to_all,
}

-- A rule that marks the reminder of three days, without a condition on the lifetime, and without
-- one on the end or with one of at least four days.
abbrev pub marks_3d : RetentionRule → Bool
marks_3d rule =
    rule.action_type == "reminder"
    && which_of rule == "3d"
    && not (is_some rule.lifetime_months_gte)
    && elim rule.expiry_days_lte [ none ↦ true | some days ↦ leb 4 days ]

abbrev pub is_unpaused : Subscription → Bool
is_unpaused s = not (is_some s.paused_at)

days_left-in_reach :
    (v now later : ℕ)
    → now ≤ later
    → later ≤ now + hours 22
    → is_between (later + hours 71) (later + hours 73) v ≡ true
    → (ltb now v ≡ true) × (ltb 0 ((v - now) / day) ≡ true) × (leb ((v - now) / day) 3 ≡ true)
days_left-in_reach v now later a b h = (ground arith, ground arith, ground arith)

condition-holds :
    (now later v : ℕ) (limit : Option ℕ)
    → now ≤ later
    → later ≤ now + hours 22
    → is_between (later + hours 71) (later + hours 73) v ≡ true
    → elim limit [ none ↦ true | some days ↦ leb 4 days ] ≡ true
    → elim limit [ none ↦ true | some days ↦ leb v (now + days * day) ] ≡ true
condition-holds now later v none a b h wide = refl
condition-holds now later v (some days) a b h wide = ground arith

false-and : (a b : Bool) → a ≡ false → (a && b) ≡ false
false-and a b h = ground arith

module _ (rule : RetentionRule) (now later : ℕ) (wide : marks_3d rule ≡ true) (a : now ≤ later)
    (b : later ≤ now + hours 22) where
  -- A subscription that is due at the later time is one that the rule marks, if nobody has.
  due-is_marked :
      (s : Subscription)
      → is_unpaused s ≡ true
      → is_due_3d later s ≡ true
      → (is_matching now rule s && rule.action_type == "reminder") ≡ true
        × (is_marked_3d now rule s ≡ true)
  unfolding is_due_3d is_matching
  due-is_marked s unpaused due =
      let (started, some_days, few_days) =
        days_left-in_reach s.valid_until now later a b (ground arith) in
      let within =
        condition-holds now later s.valid_until rule.expiry_days_lte a b (ground arith)
          (ground arith) in
      (ground (arith, started, within), ground (arith, some_days, few_days))

  marked-not_due :
      (s : Subscription) → is_due_3d later (record s { reminder_3d_sent_at = some now }) ≡ false
  unfolding is_due_3d
  marked-not_due s = ground arith

  other-due :
      (s : Subscription)
      → is_due_3d later (record s { reminder_1d_sent_at = some now }) ≡ is_due_3d later s
  unfolding is_due_3d
  other-due s = refl

  not_due_after :
      (s : Subscription) → is_unpaused s ≡ true → is_due_3d later (apply_rule now rule s).1 ≡ false
  unfolding apply_rule
  not_due_after s unpaused = elim (Bool-cases (is_due_3d later s)) [
    | inl due ↦
        let (matching, marked) = due-is_marked s unpaused due in
        rw matching (rw marked (marked-not_due s))
    | inr free ↦ elim (Bool-cases (is_matching now rule s && rule.action_type == "reminder")) [
      | inr other ↦ rw other free
      | inl matching ↦ elim (Bool-cases (is_marked_3d now rule s)) [
        | inl marked ↦ rw matching (rw marked (marked-not_due s))
        | inr kept ↦ elim (Bool-cases (is_marked_1d now rule s)) [
          | inl marked ↦ rw matching (rw kept (rw marked (other-due s ∙ free)))
          | inr untouched ↦ rw matching (rw kept (rw untouched free))
        ]
      ]
    ]
  ]

  apply_rule-paused : (s : Subscription) → is_unpaused (apply_rule now rule s).1 ≡ is_unpaused s
  unfolding apply_rule
  apply_rule-paused s = ground arith

  nothing_due :
      (subs : List Subscription)
      → filter (is_due_3d later) (filter is_unpaused (apply_to_all now rule subs).1) ≡ []
  unfolding apply_to_all
  nothing_due [] = refl
  nothing_due (s ∷ subs) = elim (Bool-cases (is_unpaused s)) [
    | inl unpaused ↦ ground (arith, apply_rule-paused s, not_due_after s unpaused, nothing_due subs)
    | inr paused ↦ ground (arith, apply_rule-paused s, nothing_due subs)
  ]

none_sent :
    (sent : ℕ → String → Bool) (later : ℕ) (subs : List Subscription)
    → filter (is_due_3d later) subs ≡ []
    → length (filter (is_sent_3d sent later) subs) ≡ 0
none_sent sent later [] h = refl
none_sent sent later (s ∷ subs) h = ground (arith, none_sent sent later subs)

-- A rule of the kind `reminder` marks subscriptions as reminded of the last three days without
-- sending anything: after it has run, and for the next 22 hours, the task that sends the reminders
-- sends none of three days to a subscription that is not paused. The rule has no condition on the
-- lifetime, and none on the end or one of at least four days.
pub rule_silences :
    (rule : RetentionRule) (now later : ℕ) (sent : ℕ → String → Bool) (subs : List Subscription)
    → marks_3d rule ≡ true
    → now ≤ later
    → later ≤ now + hours 22
    → (run_subscription_reminder_check sent later
        (filter is_unpaused (apply_to_all now rule subs).1)).0
      ≡ 0
unfolding run_subscription_reminder_check
rule_silences rule now later sent subs wide a b =
    none_sent sent later (filter is_unpaused (apply_to_all now rule subs).1)
      (nothing_due rule now later wide a b subs)
