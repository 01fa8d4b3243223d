-- ===== src/Payments/Bot.antt =====
-- The bot's confirmation of a payment: whom it serves, and that it confirms once.
use vpn_suite.Prelude.{
  ℕ, String, Bool, true, false, Option, some, List, [], ◌∷◌, ◌==◌, string_eq, nat_eq, ◌≡◌, refl,
  arith, Option-cases, Bool-cases, inl, inr, ◌∙◌, ap, sym, eq_iff,
}
use vpn_suite.Payments.Records.{Payment, Db, first, update_where}
use vpn_suite.Payments.Effects.{
  Clock, apply_payment_success_effects, apply_plan, apply_promo, redeem_code, redeem, promo_bonus,
  apply_referral, reward_open, reward, reward_referrer,
}
use vpn_suite.Payments.Webhook.{add_event, confirm, complete_pending_payment_by_bot}
use vpn_suite.Payments.Replay.{payments-effects}

tg_of-apply_promo :
    (now : ℕ) (code : Option String) (payment : Payment) (db : Db)
    → (apply_promo now code payment db).tg_of ≡ db.tg_of
unfolding apply_promo redeem_code redeem promo_bonus
tg_of-apply_promo now code payment db = ground arith

tg_of-apply_referral :
    (now bonus user : ℕ) (db : Db) → (apply_referral now bonus user db).tg_of ≡ db.tg_of
unfolding apply_referral reward_open reward reward_referrer
tg_of-apply_referral now bonus user db = ground arith

tg_of-effects :
    (clock : Clock) (bonus : ℕ) (code : Option String) (payment : Payment) (db : Db)
    → (apply_payment_success_effects clock bonus code payment db).tg_of ≡ db.tg_of
unfolding apply_payment_success_effects apply_plan
tg_of-effects clock bonus code payment db = grind (arith, tg_of-apply_promo, tg_of-apply_referral)

abbrev has_id : String → Payment → Bool
has_id id q = q.id == id

abbrev completed : Payment → Payment
completed q = record q { status = "completed" }

first-completed :
    (id : String) (qs : List Payment) (q : Payment)
    → first (has_id id) qs ≡ some q
    → first (has_id id) (update_where (has_id id) completed qs) ≡ some (completed q)
first-completed id [] q h = absurd (ground arith)
first-completed id (x ∷ xs) q h = elim (Bool-cases (x.id == id)) [
  | inl chosen ↦ ground arith
  | inr passed ↦ ground (arith, first-completed id xs q)
]

first-has_id :
    (id : String) (qs : List Payment) (q : Payment) → first (has_id id) qs ≡ some q → q.id ≡ id
first-has_id id [] q h = absurd (ground arith)
first-has_id id (x ∷ xs) q h = ground (arith, eq_iff x.id id, first-has_id id xs q)

confirm-completed :
    (clock : Clock) (bonus : ℕ) (payment : Payment) (db : Db)
    → (payment.status == "completed") ≡ true
    → confirm clock bonus payment db ≡ (true, db)
unfolding confirm
confirm-completed clock bonus payment db h = rw h

module _ (clock : Clock) (bonus : ℕ) (payment_id : String) (tg_id : ℕ) (db : Db) where
  served :
      (q : Payment)
      → first (has_id payment_id) db.payments ≡ some q
      → (db.tg_of q.user_id == tg_id) ≡ true
      → complete_pending_payment_by_bot clock bonus payment_id tg_id db ≡ confirm clock bonus q db
  unfolding complete_pending_payment_by_bot
  served q found same = ground arith

  -- A confirmation that succeeds was of a payment that its user asked for.
  served_back :
      (complete_pending_payment_by_bot clock bonus payment_id tg_id db).0 ≡ true
      → (q : Payment) × (first (has_id payment_id) db.payments ≡ some q)
        × ((db.tg_of q.user_id == tg_id) ≡ true)
  unfolding complete_pending_payment_by_bot
  served_back h = elim (Option-cases (first (has_id payment_id) db.payments)) [
    | inl missing ↦ absurd (ground arith)
    | inr (q, found) ↦ (q, found, ground arith)
  ]

-- The row marked and the event added, before the effects.
abbrev marked : Payment → Db → Db
marked q db =
    add_event q.id "bot_confirm"
      (record db { payments = update_where (has_id q.id) completed db.payments })

confirm-pending :
    (clock : Clock) (bonus : ℕ) (q : Payment) (db : Db)
    → (q.status == "completed") ≡ false
    → (confirm clock bonus q db).0 ≡ true
    → confirm clock bonus q db
      ≡ (true, apply_payment_success_effects clock bonus q.promo_code q (marked q db))
unfolding confirm
confirm-pending clock bonus q db waits h = ground arith

-- What a confirmation that succeeds leaves: the payment is completed, of the same user.
confirm-leaves :
    (clock : Clock) (bonus : ℕ) (q : Payment) (db : Db)
    → first (has_id q.id) db.payments ≡ some q
    → (confirm clock bonus q db).0 ≡ true
    → let db' = (confirm clock bonus q db).1 in
      (r : Payment) × (first (has_id q.id) db'.payments ≡ some r)
      × ((r.status == "completed") ≡ true)
      × (r.user_id ≡ q.user_id)
      × (db'.tg_of ≡ db.tg_of)
confirm-leaves clock bonus q db found h = elim (Bool-cases (q.status == "completed")) [
  | inl paid ↦
      let same = ap (λ (x : Bool × Db). x.1) (confirm-completed clock bonus q db paid) in
      (
        q,
        ap (λ (x : Db). first (has_id q.id) x.payments) same ∙ found,
        paid,
        refl,
        ap (λ (x : Db). x.tg_of) same,
      )
  | inr waits ↦
      let done = ap (λ (x : Bool × Db). x.1) (confirm-pending clock bonus q db waits h) in
      (
        completed q,
        ap (λ (x : Db). first (has_id q.id) x.payments) done
            ∙ ap (first (has_id q.id)) (payments-effects clock bonus q.promo_code q (marked q db))
            ∙ first-completed q.id db.payments q found,
        refl,
        refl,
        ap (λ (x : Db). x.tg_of) done ∙ tg_of-effects clock bonus q.promo_code q (marked q db),
      )
]

-- If a confirmation succeeds, then a later one of the same payment by the same Telegram user
-- succeeds too, whenever it comes, and changes nothing.
pub bot_confirms_once :
    (clock clock' : Clock) (bonus bonus' : ℕ) (payment_id : String) (tg_id : ℕ) (db : Db)
    → (complete_pending_payment_by_bot clock bonus payment_id tg_id db).0 ≡ true
    → let db' = (complete_pending_payment_by_bot clock bonus payment_id tg_id db).1 in
      complete_pending_payment_by_bot clock' bonus' payment_id tg_id db' ≡ (true, db')
bot_confirms_once clock clock' bonus bonus' payment_id tg_id db h =
    let (q, found, own) = served_back clock bonus payment_id tg_id db h in
    let step = served clock bonus payment_id tg_id db q found own in
    let same_id = first-has_id payment_id db.payments q found in
    let (r, there, paid, same_user, same_tg) =
      confirm-leaves clock bonus q db
        (ap (λ (i : String). first (has_id i) db.payments) same_id ∙ found)
        (ap (λ (x : Bool × Db). x.0) (sym step) ∙ h) in
    let db' = (complete_pending_payment_by_bot clock bonus payment_id tg_id db).1 in
    let same_db = ap (λ (x : Bool × Db). x.1) step in
    let there' =
      ap (λ (i : String). first (has_id i) db'.payments) (sym same_id)
      ∙ ap (λ (x : Db). first (has_id q.id) x.payments) same_db
      ∙ there in
    let own' =
      ap (λ (f : ℕ → ℕ). f r.user_id == tg_id) (ap (λ (x : Db). x.tg_of) same_db ∙ same_tg)
      ∙ ap (λ (u : ℕ). db.tg_of u == tg_id) same_user
      ∙ own in
    served clock' bonus' payment_id tg_id db' r there' own'
    ∙ confirm-completed clock' bonus' r db' paid
