-- ===== src/Reminders/Rows.antt =====
-- The columns of a subscription (backend/app/models/subscription.py) that the two tasks use.
use vpn_suite.Prelude.{ℕ, String, Option}

pub record Subscription : Type 0 where
  pub user_id : ℕ
  pub status : String
  pub valid_until : ℕ
  pub created_at : ℕ
  pub paused_at : Option ℕ
  pub reminder_3d_sent_at : Option ℕ
  pub reminder_1d_sent_at : Option ℕ
