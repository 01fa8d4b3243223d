-- ===== src/Payments/Effects.antt =====
-- `_apply_payment_success_effects`: the subscription, the referral reward and the promo code.
-- Metrics are left out. Where one expression reads the clock twice, the two readings are taken to be
-- one.
use vpn_suite.Prelude.{
  ℤ, pos, ℕ, zero, suc, String, Bool, Option, none, some, List, [], ◌∷◌, ◌++◌, ◌==◌, string_eq,
  nat_eq, ◌&&◌, not, if◌then◌else◌, is_some, ltb, strip, or_text, text_or_none,
}
use vpn_suite.Payments.Records.{
  Subscription, Plan, Payment, Referral, PromoCode, PromoRedemption, Db, first, update_where,
  plus_days,
}

-- The readings of the clock: for the subscription, for the reward, and for the promo code.
pub record Clock : Type 0 where
  pub at_start : ℕ
  pub at_reward : ℕ
  pub at_promo : ℕ

unfoldable pub is_active : Subscription → Bool
is_active s = s.status == "active"

-- `base + timedelta(days=n)`, with the later of the end and now as the base.
unfoldable pub extend : ℕ → ℤ → Subscription → Subscription
extend now n s = record s {
  valid_until = plus_days (if ltb now s.valid_until then s.valid_until else now) n;
}

-- The paid subscription: an active one goes on from its end, another starts now.
unfoldable pub renew : ℕ → ℤ → Subscription → Subscription
unfolding is_active extend
renew now n s =
    if is_active s
    then extend now n s
    else record s { status = "active"; valid_from = now; valid_until = plus_days now n }

abbrev pub funnel_event : String → ℕ → Db → Db
funnel_event event_type user db = record db {
  funnel = db.funnel ++ (record { event_type = event_type; user_id = user } ∷ []);
}

abbrev pub update_subscription : String → (Subscription → Subscription) → Db → Db
update_subscription id change db = record db {
  subscriptions = update_where (λ s. s.id == id) change db.subscriptions;
}

-- The active subscription of a user that ends last.
unfoldable pub latest_active : ℕ → List Subscription → Option Subscription
latest_active user [] = none
latest_active user (s ∷ ss) =
    let rest = latest_active user ss in
    if s.user_id == user && is_active s
    then elim rest [
      | none ↦ some s
      | some t ↦ if ltb s.valid_until t.valid_until then some t else some s
    ]
    else rest

-- `getattr(ref, "reward_days", None) or settings.referral_reward_bonus_days`
abbrev pub reward_days_of : ℕ → Referral → ℕ
reward_days_of bonus r = elim r.reward_days [ zero ↦ bonus | suc n ↦ suc n ]

unfoldable pub is_open_referral : ℕ → Referral → Bool
is_open_referral user r = r.referee_user_id == user && not (is_some r.reward_applied_at)

-- The reward on the referrer's subscription, if there is an active one.
unfoldable pub reward_referrer : ℕ → ℕ → ℕ → Db → Db
reward_referrer now n referrer db = elim (latest_active referrer db.subscriptions) [
  | none ↦ db
  | some s ↦ update_subscription s.id (extend now (pos n)) db
]

abbrev pub mark_rewarded : ℕ → Referral → Referral
mark_rewarded now r = record r { reward_applied_at = some now; status = "rewarded" }

-- The reward of one referral, which is then closed.
unfoldable pub reward : ℕ → ℕ → Referral → Db → Db
reward now n ref db =
    let db' = reward_referrer now n ref.referrer_user_id db in
    funnel_event "referral_signup" ref.referrer_user_id (record db' {
      referrals = update_where (λ r. r.id == ref.id) (mark_rewarded now) db'.referrals;
    })

-- `if ref and reward_days`
unfoldable pub reward_open : ℕ → ℕ → Referral → Db → Db
reward_open now zero ref db = db
reward_open now (suc n) ref db = reward now (suc n) ref db

-- The referral part: at most one open referral of the payer, with a reward of at least a day.
unfoldable pub apply_referral : ℕ → ℕ → ℕ → Db → Db
apply_referral now bonus user db = elim (first (is_open_referral user) db.referrals) [
  | none ↦ db
  | some ref ↦ reward_open now (reward_days_of bonus ref) ref db
]

unfoldable pub is_live_promo : String → PromoCode → Bool
is_live_promo code p = p.code == code && p.status == "active"

unfoldable pub is_redemption_of : String → ℕ → PromoRedemption → Bool
is_redemption_of promo user r = r.promo_code_id == promo && r.user_id == user

-- The bonus of a promo code on the paid subscription.
unfoldable pub promo_bonus : ℕ → PromoCode → String → Db → Db
promo_bonus now promo sub_id db =
    if promo.kind == "bonus_days"
    then elim promo.value_days [
      | none ↦ db
      | some n ↦ update_subscription sub_id (extend now (pos n)) db
    ]
    else db

unfoldable pub redeem : ℕ → PromoCode → Payment → Db → Db
redeem now promo payment db =
    elim (first (is_redemption_of promo.id payment.user_id) db.redemptions) [
      | some r ↦ db
      | none ↦ funnel_event "promo_applied" payment.user_id (
          promo_bonus now promo payment.subscription_id (record db {
            redemptions =
                db.redemptions
                ++ (record {
                  promo_code_id = promo.id;
                  user_id = payment.user_id;
                  payment_id = payment.id;
                  subscription_id = payment.subscription_id;
                }
                    ∷ []);
          }))
    ]

-- `if promo_code_str`
unfoldable pub redeem_code : ℕ → Option String → Payment → Db → Db
redeem_code now none payment db = db
redeem_code now (some code) payment db = elim (first (is_live_promo code) db.promos) [
  | none ↦ db
  | some promo ↦ redeem now promo payment db
]

unfoldable pub apply_promo : ℕ → Option String → Payment → Db → Db
apply_promo now promo_code payment db =
    redeem_code now (text_or_none (strip (or_text promo_code ""))) payment db

unfoldable pub is_paid_subscription : Payment → Subscription → Bool
is_paid_subscription payment s = s.id == payment.subscription_id && s.user_id == payment.user_id

-- The part that follows the two lookups.
unfoldable pub apply_plan : Clock → ℕ → Option String → Payment → Plan → Db → Db
apply_plan clock bonus promo_code payment plan db = apply_promo clock.at_promo promo_code payment (
    apply_referral clock.at_reward bonus payment.user_id (
      funnel_event "renewal" payment.user_id (
        funnel_event "payment" payment.user_id (
          update_subscription payment.subscription_id (renew clock.at_start plan.duration_days)
            db))))

unfoldable pub apply_payment_success_effects : Clock → ℕ → Option String → Payment → Db → Db
apply_payment_success_effects clock bonus promo_code payment db =
    elim (first (is_paid_subscription payment) db.subscriptions) [
      | none ↦ db
      | some sub ↦ elim (first (λ p. p.id == sub.plan_id) db.plans) [
        | none ↦ db
        | some plan ↦ apply_plan clock bonus promo_code payment plan db
      ]
    ]
