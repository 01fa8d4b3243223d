-- ===== src/Payments/Webhook.antt =====
-- `process_payment_webhook` and `complete_pending_payment_by_bot`.
use vpn_suite.Prelude.{
  ℕ, String, Bool, true, false, Option, none, some, [], ◌∷◌, ◌++◌, ◌==◌, string_eq, nat_eq, not,
  if◌then◌else◌, is_truthy, text_take, text_or_none,
}
use vpn_suite.Payments.Records.{Payment, Db, first, update_where}
use vpn_suite.Payments.Effects.{Clock, apply_payment_success_effects}

-- The keys of the payload that the service reads. A missing key is `none`, and so is a null one,
-- but in `status` and `currency`, which are the texts that `str()` makes of what is there. A user id
-- is `some none` where `int()` would raise. `Decimal(str(payload.get("amount", 0)))` is taken with
-- the payload: `none` where it raises.
pub record Payload : Type 0 where
  pub external_id : Option String
  pub id : Option String
  pub payment_id : Option String
  pub user_id : Option (Option ℕ)
  pub subscription_id : Option String
  pub amount : Option ℕ
  pub status : Option String
  pub currency : Option String
  pub promo_code : Option String

pub data Error : Type 0 where
  missing_external_id missing_user_or_subscription bad_user_id bad_amount : Error

pub data Outcome : Type 0 where
  raised : Error → Outcome
  accepted : String → Bool → Outcome  -- `WebhookResult(payment_id, created)`

-- `a or b` on optional texts.
abbrev pub or_else_text : Option String → Option String → Option String
or_else_text none b = b
or_else_text (some a) b = if is_truthy a then some a else b

-- `payload.get("external_id") or payload.get("id") or payload.get("payment_id")`, if not empty.
unfoldable pub external_id_of : Payload → Option String
external_id_of p = elim (or_else_text (or_else_text p.external_id p.id) p.payment_id) [
  | none ↦ none
  | some e ↦ text_or_none e
]

abbrev pub or_default : Option String → String → String
or_default none d = d
or_default (some s) d = s

abbrev pub add_event : String → String → Db → Db
add_event payment event_type db = record db {
  events = db.events ++ (record { payment_id = payment; event_type = event_type } ∷ []);
}

abbrev pub add_payment : Payment → Db → Db
add_payment p db = record db { payments = db.payments ++ (p ∷ []) }

-- The row of a new payment; `new_id` is the identifier that the database gives it.
abbrev pub new_payment : String → String → String → ℕ → String → ℕ → Payload → Payment
new_payment new_id provider external user subscription amount p = record {
  id = new_id;
  user_id = user;
  subscription_id = subscription;
  provider = provider;
  status = text_take 32 (or_default p.status "completed");
  amount = amount;
  currency = text_take 8 (or_default p.currency "XTR");
  external_id = external;
  promo_code = p.promo_code;
}

-- What follows the insertion of a new payment.
unfoldable pub register : Clock → ℕ → Payment → Db → Db
register clock bonus payment db =
    let db' = add_event payment.id "webhook_received" (add_payment payment db) in
    if payment.status == "completed"
    then apply_payment_success_effects clock bonus payment.promo_code payment db'
    else db'

-- A webhook whose external id is not known.
unfoldable pub create : Clock → ℕ → String → String → String → Payload → Db → Outcome × Db
create clock bonus new_id provider external p db = elim p.user_id [
  | none ↦ (raised missing_user_or_subscription, db)
  | some raw_user ↦ elim p.subscription_id [
    | none ↦ (raised missing_user_or_subscription, db)
    | some subscription ↦ elim raw_user [
      | none ↦ (raised bad_user_id, db)
      | some user ↦ elim p.amount [
        | none ↦ (raised bad_amount, db)
        | some amount ↦ (
          accepted new_id true,
          register clock bonus (new_payment new_id provider external user subscription amount p) db,
        )
      ]
    ]
  ]
]

unfoldable pub process_payment_webhook : Clock → ℕ → String → String → Payload → Db → Outcome × Db
process_payment_webhook clock bonus new_id provider p db = elim (external_id_of p) [
  | none ↦ (raised missing_external_id, db)
  | some external ↦ elim (first (λ q. q.external_id == external) db.payments) [
    | some known ↦ (accepted known.id false, add_event known.id "webhook_repeat" db)
    | none ↦ create clock bonus new_id provider external p db
  ]
]

-- The bot's confirmation of a payment that was found.
unfoldable pub confirm : Clock → ℕ → Payment → Db → Bool × Db
confirm clock bonus payment db =
    if payment.status == "completed"
    then (true, db)
    else if not (payment.status == "pending")
    then (false, db)
    else (
      true,
      apply_payment_success_effects clock bonus payment.promo_code payment (
          add_event payment.id "bot_confirm" (record db {
            payments =
                update_where (λ q. q.id == payment.id) (λ q. record q { status = "completed" })
                  db.payments;
          })),
    )

unfoldable pub complete_pending_payment_by_bot : Clock → ℕ → String → ℕ → Db → Bool × Db
complete_pending_payment_by_bot clock bonus payment_id tg_id db =
    elim (first (λ q. q.id == payment_id) db.payments) [
      | none ↦ (false, db)
      | some payment ↦
          if not (db.tg_of payment.user_id == tg_id)
          then (false, db)
          else confirm clock bonus payment db
    ]
