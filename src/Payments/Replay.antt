-- ===== src/Payments/Replay.antt =====
-- A webhook that comes again, and a confirmation that comes again.
use vpn_suite.Prelude.{
  ℕ, String, Bool, true, false, Option, none, some, List, [], ◌∷◌, ◌++◌, ◌==◌, string_eq, nat_eq,
  ◌≡◌, arith, ==_refl, Option-cases, Bool-cases, inl, inr, ◌∙◌, ap, sym,
}
use vpn_suite.Payments.Records.{Payment, PromoCode, Db, first}
use vpn_suite.Payments.Effects.{
  Clock, apply_payment_success_effects, apply_plan, apply_promo, redeem_code, reward_open,
  apply_referral, redeem, promo_bonus, reward, reward_referrer,
}
use vpn_suite.Payments.Webhook.{
  Payload, Outcome, accepted, raised, missing_external_id, external_id_of, add_event, register,
  create, process_payment_webhook, new_payment,
}

module _ (test : Payment → Bool) where
  first-snoc :
      (xs : List Payment) (x : Payment)
      → first test xs ≡ none
      → test x ≡ true
      → first test (xs ++ (x ∷ [])) ≡ some x
  first-snoc [] x h t = rw t
  first-snoc (y ∷ ys) x h t = ground (arith, first-snoc ys x)

payments-promo_bonus :
    (now : ℕ) (promo : PromoCode) (sub : String) (db : Db)
    → (promo_bonus now promo sub db).payments ≡ db.payments
unfolding promo_bonus
payments-promo_bonus now promo sub db = ground arith

payments-apply_promo :
    (now : ℕ) (code : Option String) (payment : Payment) (db : Db)
    → (apply_promo now code payment db).payments ≡ db.payments
unfolding apply_promo redeem_code redeem promo_bonus
payments-apply_promo now code payment db = ground arith

payments-apply_referral :
    (now bonus user : ℕ) (db : Db) → (apply_referral now bonus user db).payments ≡ db.payments
unfolding apply_referral reward_open reward reward_referrer
payments-apply_referral now bonus user db = ground arith

-- The effects leave the table of payments alone.
pub payments-effects :
    (clock : Clock) (bonus : ℕ) (code : Option String) (payment : Payment) (db : Db)
    → (apply_payment_success_effects clock bonus code payment db).payments ≡ db.payments
unfolding apply_payment_success_effects apply_plan
payments-effects clock bonus code payment db =
    grind (arith, payments-apply_promo, payments-apply_referral)

payments-register :
    (clock : Clock) (bonus : ℕ) (payment : Payment) (db : Db)
    → (register clock bonus payment db).payments ≡ db.payments ++ (payment ∷ [])
unfolding register
payments-register clock bonus payment db = elim (Bool-cases (payment.status == "completed")) [
  | inl paid ↦ rw paid (payments-effects clock bonus payment.promo_code payment _)
  | inr unpaid ↦ rw unpaid
]

-- A webhook with an unknown external id that is accepted has all its keys, and registers a row.
create-register :
    (clock : Clock) (bonus : ℕ) (new_id provider external : String) (p : Payload) (db : Db)
    (pid : String) (created : Bool)
    → (create clock bonus new_id provider external p db).0 ≡ accepted pid created
    → (user : ℕ) × (subscription : String) × (amount : ℕ) × (pid ≡ new_id)
      × (create clock bonus new_id provider external p db ≡ (
        accepted new_id true,
        register clock bonus (new_payment new_id provider external user subscription amount p) db,
      ))
unfolding create
create-register clock bonus new_id provider external p db pid created h =
    elim (Option-cases p.user_id) [
      | inl missing ↦ absurd (ground arith)
      | inr (raw, has_user) ↦ elim (Option-cases p.subscription_id) [
        | inl missing ↦ absurd (ground arith)
        | inr (subscription, has_subscription) ↦ elim (Option-cases raw) [
          | inl bad ↦ absurd (ground arith)
          | inr (user, good) ↦ elim (Option-cases p.amount) [
            | inl bad ↦ absurd (ground arith)
            | inr (amount, fine) ↦ (
              user,
              subscription,
              amount,
              ground arith,
              rw (has_user, has_subscription, good, fine),
            )
          ]
        ]
      ]
    ]

abbrev has_external : String → Payment → Bool
has_external external q = q.external_id == external

module _ (clock : Clock) (bonus : ℕ) (new_id provider external : String) (p : Payload) (db : Db)
    (has_id : external_id_of p ≡ some external) where
  webhook_known :
      (q : Payment)
      → first (has_external external) db.payments ≡ some q
      → process_payment_webhook clock bonus new_id provider p db
        ≡ (accepted q.id false, add_event q.id "webhook_repeat" db)
  unfolding process_payment_webhook
  webhook_known q found = ground (arith)

  webhook_new :
      first (has_external external) db.payments ≡ none
      → process_payment_webhook clock bonus new_id provider p db
        ≡ create clock bonus new_id provider external p db
  unfolding process_payment_webhook
  webhook_new unknown = ground (arith)

webhook_missing :
    (clock : Clock) (bonus : ℕ) (new_id provider : String) (p : Payload) (db : Db)
    → external_id_of p ≡ none
    → process_payment_webhook clock bonus new_id provider p db ≡ (raised missing_external_id, db)
unfolding process_payment_webhook
webhook_missing clock bonus new_id provider p db missing = ground (arith)

-- An accepted webhook leaves a payment with its external id, which it names.
webhook_leaves :
    (clock : Clock) (bonus : ℕ) (new_id provider external : String) (p : Payload) (db : Db)
    (pid : String) (created : Bool)
    → external_id_of p ≡ some external
    → (process_payment_webhook clock bonus new_id provider p db).0 ≡ accepted pid created
    → (q : Payment) × (first
          (has_external external)
          (process_payment_webhook clock bonus new_id provider p db).1.payments
        ≡ some q)
      × (q.id ≡ pid)
webhook_leaves clock bonus new_id provider external p db pid created has_id h =
    elim (Option-cases (first (has_external external) db.payments)) [
      | inl unknown ↦
          let step = webhook_new clock bonus new_id provider external p db has_id unknown in
          let (user, sub, amount, same_id, made) =
            create-register clock bonus new_id provider external p db pid created
              (ap (λ (x : Outcome × Db). x.0) (sym step) ∙ h) in
          let row = new_payment new_id provider external user sub amount p in
          (
            row,
            ap (λ (x : Outcome × Db). first (has_external external) x.1.payments) (step ∙ made)
                ∙ ap (first (has_external external)) (payments-register clock bonus row db)
                ∙ first-snoc (has_external external) db.payments row unknown (==_refl external),
            sym same_id,
          )
      | inr (q, found) ↦
          let step = webhook_known clock bonus new_id provider external p db has_id q found in
          (
            q,
            ap (λ (x : Outcome × Db). first (has_external external) x.1.payments) step ∙ found,
            ground (arith, ap (λ (x : Outcome × Db). x.0) (sym step) ∙ h),
          )
    ]

-- If a webhook is accepted, then a later webhook with the same external id, whatever else its
-- payload says and whenever it comes, is answered with the same payment and `created = false`,
-- and changes nothing but for one more `webhook_repeat` event.
pub webhook_replay :
    (clock clock' : Clock) (bonus bonus' : ℕ) (new_id new_id' provider provider' : String)
    (p p' : Payload) (db : Db) (pid : String) (created : Bool)
    → external_id_of p' ≡ external_id_of p
    → (process_payment_webhook clock bonus new_id provider p db).0 ≡ accepted pid created
    → let db' = (process_payment_webhook clock bonus new_id provider p db).1 in
      process_payment_webhook clock' bonus' new_id' provider' p' db'
      ≡ (accepted pid false, add_event pid "webhook_repeat" db')
webhook_replay clock clock' bonus bonus' new_id new_id' provider provider' p p' db pid created same
      h =
    elim (Option-cases (external_id_of p)) [
      | inl missing ↦ absurd (
          ground (
            arith,
            ap (λ (x : Outcome × Db). x.0)
                  (sym (webhook_missing clock bonus new_id provider p db missing))
                ∙ h,
          ))
      | inr (external, has_id) ↦
          let db' = (process_payment_webhook clock bonus new_id provider p db).1 in
          let (q, found, same_id) =
            webhook_leaves clock bonus new_id provider external p db pid created has_id h in
          webhook_known clock' bonus' new_id' provider' external p' db' (same ∙ has_id) q found
          ∙ ap (λ (k : String). (accepted k false, add_event k "webhook_repeat" db')) same_id
    ]
