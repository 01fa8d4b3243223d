-- ===== src/Reminders/Tests.antt =====
-- Subscriptions that end in three days.
use vpn_suite.Prelude.{
  ℕ, String, Bool, true, none, List, [], ◌∷◌, ◌≡◌, refl, arith, inl, inr, filter,
}
use vpn_suite.Reminders.Rows.{Subscription}
use vpn_suite.Reminders.Task.{hours, run_subscription_reminder_check, reminder_runs}
use vpn_suite.Reminders.Rules.{RetentionRule, apply_to_all, run_retention_rules}
use vpn_suite.Reminders.Missed.{marks_of, reminder_missed}
use vpn_suite.Reminders.Silenced.{is_unpaused, rule_silences}

abbrev ending : ℕ → Subscription
ending v = record {
  user_id = 7;
  status = "active";
  valid_until = v;
  created_at = 0;
  paused_at = none;
  reminder_3d_sent_at = none;
  reminder_1d_sent_at = none;
}

-- Seventy-two hours after the run, and seventy-five.
abbrev subs : List Subscription
subs = ending (hours 172) ∷ ending (hours 175) ∷ []

abbrev delivered : ℕ → String → Bool
delivered user text = true

one_reminded : (run_subscription_reminder_check delivered (hours 100) subs).0 ≡ 1
unfolding run_subscription_reminder_check
one_reminded = refl

reminder_missed_example :
    marks_of
      (hours 100)
      (reminder_runs (λ now. delivered) (hours 94 ∷ hours 100 ∷ hours 106 ∷ hours 112 ∷ []) subs)
    ≡ none ∷ []
reminder_missed_example =
    reminder_missed (λ now. delivered) (hours 100)
      (hours 94 ∷ hours 100 ∷ hours 106 ∷ hours 112 ∷ []) subs
      (inl (omega arith), (inl (omega arith), (inr (omega arith), (inr (omega arith), tt))))

abbrev rule : RetentionRule
rule = record {
  expiry_days_lte = none;
  lifetime_months_gte = none;
  action_type = "reminder";
  which = none;
  priority = 1;
  enabled = true;
}

one_marked : (run_retention_rules (hours 100) (rule ∷ []) (ending (hours 172) ∷ [])).1 ≡ 1
unfolding run_retention_rules
one_marked = refl

rule_silences_holds :
    (run_subscription_reminder_check delivered
      (hours 101)
      (filter is_unpaused (apply_to_all (hours 100) rule subs).1)).0
    ≡ 0
rule_silences_holds =
    rule_silences rule (hours 100) (hours 101) delivered subs refl (omega arith) (omega arith)
