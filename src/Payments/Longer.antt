-- ===== src/Payments/Longer.antt =====
-- The effects of a payment on the table of subscriptions, row by row.
pub mod Webhook
use vpn_suite.Prelude.{
  ℤ, pos, negsuc, all, subst, ℕ, zero, suc, ◌+◌, ◌≤◌, String, Bool, true, false, Option, none, some,
  List, [], ◌∷◌, ◌==◌, string_eq, nat_eq, ◌&&◌, if◌then◌else◌, ltb, strip, or_text, text_or_none,
  ◌≡◌, refl, arith, Option-cases, Bool-cases, inl, inr, ◌∙◌, ap, sym, eq_iff,
}
use vpn_suite.Payments.Records.{
  Subscription, Plan, Payment, Referral, PromoCode, Db, first, update_where, days,
}
use vpn_suite.Payments.Effects.{
  Clock, is_active, extend, renew, latest_active, reward_days_of, is_open_referral, reward_referrer,
  reward, apply_referral, is_live_promo, is_redemption_of, promo_bonus, reward_open, redeem,
  redeem_code, apply_promo, is_paid_subscription, apply_plan, apply_payment_success_effects,
}

-- The later row is of the same subscription, and active to a later end if the earlier was active.
abbrev pub Prolongs : Subscription → Subscription → Type 0
Prolongs s t =
    (s.id ≡ t.id)
    × (s.user_id ≡ t.user_id)
    × (is_active s ≡ true → (is_active t ≡ true) × (s.valid_until ≤ t.valid_until))

-- Two tables agree row by row.
pub data RowByRow {ℓ} {A : Type ℓ} (R : A → A → Type 0) : List A → List A → Type ℓ where
  no_rows : RowByRow R [] []
  rows : {x y : A} {xs ys : List A} → R x y → RowByRow R xs ys → RowByRow R (x ∷ xs) (y ∷ ys)

Prolongs-refl : (s : Subscription) → Prolongs s s
Prolongs-refl s = (refl, refl, λ a. (a, omega arith))

Prolongs-trans : (s t u : Subscription) → Prolongs s t → Prolongs t u → Prolongs s u
Prolongs-trans s t u (i, j, f) (i', j', g) =
    (i ∙ i', j ∙ j', λ a. let (b, le) = f a in let (c, le') = g b in (c, omega (arith, le, le')))

pub unchanged : (xs : List Subscription) → RowByRow Prolongs xs xs
unchanged [] = no_rows
unchanged (s ∷ ss) = rows (Prolongs-refl s) (unchanged ss)

pub one_then_other :
    (xs ys zs : List Subscription)
    → RowByRow Prolongs xs ys
    → RowByRow Prolongs ys zs
    → RowByRow Prolongs xs zs
one_then_other _ _ _ no_rows no_rows = no_rows
one_then_other _ _ _ (rows r rs) (rows q qs) =
    rows (Prolongs-trans _ _ _ r q) (one_then_other _ _ _ rs qs)

pub update_where-Prolongs :
    (test : Subscription → Bool) (change : Subscription → Subscription)
    → ((s : Subscription) → Prolongs s (change s))
    → (xs : List Subscription) → RowByRow Prolongs xs (update_where test change xs)
update_where-Prolongs test change h [] = no_rows
update_where-Prolongs test change h (s ∷ ss) = elim (Bool-cases (test s)) [
  | inl chosen ↦ rows (rw chosen (h s)) (update_where-Prolongs test change h ss)
  | inr passed ↦ rows (rw passed (Prolongs-refl s)) (update_where-Prolongs test change h ss)
]

extend-Prolongs : (now n : ℕ) (s : Subscription) → Prolongs s (extend now (pos n) s)
unfolding extend is_active
extend-Prolongs now n s = (refl, refl, λ a. (a, ground arith))

-- The number of days is not negative.
abbrev pub is_natural : ℤ → Bool
is_natural (pos n) = true
is_natural (negsuc n) = false

renew-Prolongs :
    (now : ℕ) (n : ℤ) → is_natural n ≡ true → (s : Subscription) → Prolongs s (renew now n s)
unfolding renew extend is_active
renew-Prolongs now (pos n) h s = (ground arith, ground arith, λ a. ground arith)
renew-Prolongs now (negsuc n) h s = absurd (ground arith)

-- No plan has a negative number of days.
abbrev pub are_natural : List Plan → Bool
are_natural plans = all (λ p. is_natural p.duration_days) plans

first-is_natural :
    (test : Plan → Bool) (plans : List Plan) (p : Plan)
    → are_natural plans ≡ true
    → first test plans ≡ some p
    → is_natural p.duration_days ≡ true
first-is_natural test [] p h found = absurd (ground arith)
first-is_natural test (q ∷ plans) p h found = elim (Bool-cases (test q)) [
  | inl here ↦
      subst (λ (r : Plan). is_natural r.duration_days ≡ true) (same q p (ground arith))
        (ground arith)
  | inr later ↦ first-is_natural test plans p (ground arith) (ground arith)
]
  where
    same : (q p : Plan) → some q ≡ some p → q ≡ p
    same q p e = ground arith

reward_referrer-Prolongs :
    (now n referrer : ℕ) (db : Db)
    → RowByRow Prolongs db.subscriptions (reward_referrer now n referrer db).subscriptions
unfolding reward_referrer
reward_referrer-Prolongs now n referrer db =
    elim (Option-cases (latest_active referrer db.subscriptions)) [
      | inl missing ↦ rw (reward_referrer, missing) (unchanged db.subscriptions)
      | inr (s, found) ↦
          rw (reward_referrer, found)
            (update_where-Prolongs (λ t. t.id == s.id) (extend now (pos n)) (extend-Prolongs now n)
              db.subscriptions)
    ]

reward-Prolongs :
    (now n : ℕ) (ref : Referral) (db : Db)
    → RowByRow Prolongs db.subscriptions (reward now n ref db).subscriptions
unfolding reward
reward-Prolongs now n ref db = reward_referrer-Prolongs now n ref.referrer_user_id db

reward_open-Prolongs :
    (now n : ℕ) (ref : Referral) (db : Db)
    → RowByRow Prolongs db.subscriptions (reward_open now n ref db).subscriptions
unfolding reward_open
reward_open-Prolongs now zero ref db = unchanged db.subscriptions
reward_open-Prolongs now (suc n) ref db = reward-Prolongs now (suc n) ref db

apply_referral-Prolongs :
    (now bonus user : ℕ) (db : Db)
    → RowByRow Prolongs db.subscriptions (apply_referral now bonus user db).subscriptions
unfolding apply_referral
apply_referral-Prolongs now bonus user db =
    elim (Option-cases (first (is_open_referral user) db.referrals)) [
      | inl missing ↦ rw (apply_referral, missing) (unchanged db.subscriptions)
      | inr (ref, found) ↦
          rw (apply_referral, found) (reward_open-Prolongs now (reward_days_of bonus ref) ref db)
    ]

promo_bonus-Prolongs :
    (now : ℕ) (promo : PromoCode) (sub : String) (db : Db)
    → RowByRow Prolongs db.subscriptions (promo_bonus now promo sub db).subscriptions
unfolding promo_bonus
promo_bonus-Prolongs now promo sub db = elim (Bool-cases (promo.kind == "bonus_days")) [
  | inr other ↦ rw (promo_bonus, other) (unchanged db.subscriptions)
  | inl bonus ↦ elim (Option-cases promo.value_days) [
    | inl bad ↦ rw (promo_bonus, bonus, bad) (unchanged db.subscriptions)
    | inr (n, good) ↦
        rw (promo_bonus, bonus, good)
          (update_where-Prolongs (λ s. s.id == sub) (extend now (pos n)) (extend-Prolongs now n)
            db.subscriptions)
  ]
]

redeem-Prolongs :
    (now : ℕ) (promo : PromoCode) (payment : Payment) (db : Db)
    → RowByRow Prolongs db.subscriptions (redeem now promo payment db).subscriptions
unfolding redeem
redeem-Prolongs now promo payment db =
    elim (Option-cases (first (is_redemption_of promo.id payment.user_id) db.redemptions)) [
      | inr (r, found) ↦ rw (redeem, found) (unchanged db.subscriptions)
      | inl missing ↦
          rw (redeem, missing) (promo_bonus-Prolongs now promo payment.subscription_id _)
    ]

redeem_code-Prolongs :
    (now : ℕ) (code : Option String) (payment : Payment) (db : Db)
    → RowByRow Prolongs db.subscriptions (redeem_code now code payment db).subscriptions
unfolding redeem_code
redeem_code-Prolongs now none payment db = unchanged db.subscriptions
redeem_code-Prolongs now (some code) payment db =
    elim (Option-cases (first (is_live_promo code) db.promos)) [
      | inl missing ↦ rw (redeem_code, missing) (unchanged db.subscriptions)
      | inr (promo, found) ↦ rw (redeem_code, found) (redeem-Prolongs now promo payment db)
    ]

-- What follows the renewal.
pub after_renewal-Prolongs :
    (clock : Clock) (bonus : ℕ) (promo_code : Option String) (payment : Payment) (plan : Plan)
    (db : Db)
    → RowByRow Prolongs
        (update_where
          (λ s. s.id == payment.subscription_id)
          (renew clock.at_start plan.duration_days)
          db.subscriptions)
        (apply_plan clock bonus promo_code payment plan db).subscriptions
unfolding apply_plan apply_promo
after_renewal-Prolongs clock bonus promo_code payment plan db =
    one_then_other _ _ _ (apply_referral-Prolongs clock.at_reward bonus payment.user_id _)
      (redeem_code-Prolongs clock.at_promo (text_or_none (strip (or_text promo_code ""))) payment _)

pub effects-Prolongs :
    (clock : Clock) (bonus : ℕ) (promo_code : Option String) (payment : Payment) (db : Db)
    → are_natural db.plans ≡ true
    → RowByRow Prolongs db.subscriptions
        (apply_payment_success_effects clock bonus promo_code payment db).subscriptions
unfolding apply_payment_success_effects
effects-Prolongs clock bonus promo_code payment db natural =
    elim (Option-cases (first (is_paid_subscription payment) db.subscriptions)) [
      | inl missing ↦ rw (apply_payment_success_effects, missing) (unchanged db.subscriptions)
      | inr (sub, found) ↦ elim (Option-cases (first (λ p. p.id == sub.plan_id) db.plans)) [
        | inl no_plan ↦
            rw (apply_payment_success_effects, found, no_plan) (unchanged db.subscriptions)
        | inr (plan, has_plan) ↦
            rw (apply_payment_success_effects, found, has_plan)
              (one_then_other _ _ _
                (update_where-Prolongs (λ s. s.id == payment.subscription_id)
                  (renew clock.at_start plan.duration_days)
                  (renew-Prolongs clock.at_start plan.duration_days
                    (first-is_natural (λ p. p.id == sub.plan_id) db.plans plan natural has_plan))
                  db.subscriptions)
                (after_renewal-Prolongs clock bonus promo_code payment plan db))
      ]
    ]
