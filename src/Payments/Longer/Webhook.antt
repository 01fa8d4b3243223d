-- ===== src/Payments/Longer/Webhook.antt =====
-- The table of subscriptions across a webhook.
use vpn_suite.Prelude.{true, ◌≡◌, ℕ, String, ◌==◌, string_eq, Option-cases, Bool-cases, inl, inr}
use vpn_suite.Payments.Records.{Payment, Db, first}
use vpn_suite.Payments.Effects.{Clock}
use vpn_suite.Payments.Webhook.{Payload, external_id_of, create, register, process_payment_webhook}
use vpn_suite.Payments.Longer.{Prolongs, RowByRow, are_natural, unchanged, effects-Prolongs}

register-Prolongs :
    (clock : Clock) (bonus : ℕ) (payment : Payment) (db : Db)
    → are_natural db.plans ≡ true
    → RowByRow Prolongs db.subscriptions (register clock bonus payment db).subscriptions
unfolding register
register-Prolongs clock bonus payment db natural =
    elim (Bool-cases (payment.status == "completed")) [
      | inl paid ↦
          rw (register, paid) (effects-Prolongs clock bonus payment.promo_code payment _ natural)
      | inr unpaid ↦ rw (register, unpaid) (unchanged db.subscriptions)
    ]

create-Prolongs :
    (clock : Clock) (bonus : ℕ) (new_id provider external : String) (p : Payload) (db : Db)
    → are_natural db.plans ≡ true
    → RowByRow Prolongs db.subscriptions
        (create clock bonus new_id provider external p db).1.subscriptions
unfolding create
create-Prolongs clock bonus new_id provider external p db natural = elim (Option-cases p.user_id) [
  | inl missing ↦ rw (create, missing) (unchanged db.subscriptions)
  | inr (raw, has_user) ↦ elim (Option-cases p.subscription_id) [
    | inl missing ↦ rw (create, has_user, missing) (unchanged db.subscriptions)
    | inr (sub, has_sub) ↦ elim (Option-cases raw) [
      | inl bad ↦ rw (create, has_user, has_sub, bad) (unchanged db.subscriptions)
      | inr (user, good) ↦ elim (Option-cases p.amount) [
        | inl bad ↦ rw (create, has_user, has_sub, good, bad) (unchanged db.subscriptions)
        | inr (amount, fine) ↦
            rw (create, has_user, has_sub, good, fine) (register-Prolongs clock bonus _ db natural)
      ]
    ]
  ]
]

-- If no plan has a negative number of days, then whatever a webhook says and however it ends, every
-- subscription row keeps its identifier and its user, and one that was active stays active to an end
-- that is no earlier. The bonus days of promo codes and referrals are not negative.
pub process_payment_webhook-Prolongs :
    (clock : Clock) (bonus : ℕ) (new_id provider : String) (p : Payload) (db : Db)
    → are_natural db.plans ≡ true
    → RowByRow Prolongs db.subscriptions
        (process_payment_webhook clock bonus new_id provider p db).1.subscriptions
unfolding process_payment_webhook
process_payment_webhook-Prolongs clock bonus new_id provider p db natural =
    elim (Option-cases (external_id_of p)) [
      | inl missing ↦ rw (process_payment_webhook, missing) (unchanged db.subscriptions)
      | inr (external, has_id) ↦
          elim (Option-cases (first (λ q. q.external_id == external) db.payments)) [
            | inl unknown ↦
                rw (process_payment_webhook, has_id, unknown)
                  (create-Prolongs clock bonus new_id provider external p db natural)
            | inr (q, found) ↦
                rw (process_payment_webhook, has_id, found) (unchanged db.subscriptions)
          ]
    ]
