-- ===== src/Reminders/Task.antt =====
-- `run_subscription_reminder_check`. Times are in seconds. Whether a message reaches a user is the
-- answer of `_send_telegram_message`, an argument.
use vpn_suite.Prelude.{
  ℕ, ◌+◌, ◌*◌, String, Bool, not, ◌&&◌, some, List, [], ◌∷◌, ◌==◌, string_eq, if◌then◌else◌,
  is_some, leb, map, filter, length,
}
use vpn_suite.Reminders.Rows.{Subscription}

abbrev pub hours : ℕ → ℕ
hours n = n * 3600

-- `valid_until >= start` and `valid_until <= end`
abbrev pub is_between : ℕ → ℕ → ℕ → Bool
is_between start end at_time = leb start at_time && leb at_time end

-- The first query.
unfoldable pub is_due_3d : ℕ → Subscription → Bool
is_due_3d now s =
    s.status == "active"
    && is_between (now + hours 71) (now + hours 73) s.valid_until
    && not (is_some s.reminder_3d_sent_at)

-- The second query.
unfoldable pub is_due_1d : ℕ → Subscription → Bool
is_due_1d now s =
    s.status == "active"
    && is_between (now + hours 23) (now + hours 25) s.valid_until
    && not (is_some s.reminder_1d_sent_at)

abbrev pub text_3d : String
text_3d = "Your secure tunnel expires soon."

abbrev pub text_1d : String
text_1d = "Don't lose your secure route."

module _ (sent : ℕ → String → Bool) where
  abbrev pub is_sent_3d : ℕ → Subscription → Bool
  is_sent_3d now s = is_due_3d now s && sent s.user_id text_3d

  abbrev pub is_sent_1d : ℕ → Subscription → Bool
  is_sent_1d now s = is_due_1d now s && sent s.user_id text_1d

  unfoldable pub remind_3d : ℕ → Subscription → Subscription
  unfolding is_due_3d
  remind_3d now s = if is_sent_3d now s then record s { reminder_3d_sent_at = some now } else s

  unfoldable pub remind_1d : ℕ → Subscription → Subscription
  unfolding is_due_1d
  remind_1d now s = if is_sent_1d now s then record s { reminder_1d_sent_at = some now } else s

  -- The two counts, and the table.
  unfoldable pub run_subscription_reminder_check : ℕ → List Subscription → ℕ × ℕ × List Subscription
  unfolding remind_3d remind_1d
  run_subscription_reminder_check now subs =
      let after_3d = map (remind_3d now) subs in
      (
        length (filter (is_sent_3d now) subs),
        length (filter (is_sent_1d now) after_3d),
        map (remind_1d now) after_3d,
      )

-- The runs of the loop, at the times at which it wakes; what is sent may differ from run to run.
unfoldable pub reminder_runs :
    (ℕ → ℕ → String → Bool) → List ℕ → List Subscription → List Subscription
unfolding run_subscription_reminder_check
reminder_runs sent [] subs = subs
reminder_runs sent (now ∷ later) subs =
    reminder_runs sent later (run_subscription_reminder_check (sent now) now subs).2
