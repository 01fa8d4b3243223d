-- ===== src/Payments/Records.antt =====
-- The rows that a payment reads and writes (backend/app/models), as far as the service uses their
-- columns. A time is a number of seconds, a row's identifier a text. A plan's number of days may be
-- negative; those of a reward and of a promo code are taken not to be.
use vpn_suite.Prelude.{
  ℕ, suc, ◌+◌, ◌-◌, ◌*◌, ℤ, pos, negsuc, String, Bool, Option, none, some, List, [], ◌∷◌, string_eq,
  nat_eq, if◌then◌else◌,
}

pub record Subscription : Type 0 where
  pub id : String
  pub user_id : ℕ
  pub plan_id : String
  pub valid_from : ℕ
  pub valid_until : ℕ
  pub status : String

pub record Plan : Type 0 where
  pub id : String
  pub duration_days : ℤ

pub record Payment : Type 0 where
  pub id : String
  pub user_id : ℕ
  pub subscription_id : String
  pub provider : String
  pub status : String
  pub amount : ℕ
  pub currency : String
  pub external_id : String
  pub promo_code : Option String  -- the key of `webhook_payload` that is read later

pub record PaymentEvent : Type 0 where
  pub payment_id : String
  pub event_type : String

pub record Referral : Type 0 where
  pub id : String
  pub referrer_user_id : ℕ
  pub referee_user_id : ℕ
  pub reward_days : ℕ
  pub status : String
  pub reward_applied_at : Option ℕ

-- `value_days` is `int(promo.value)`, `none` where the conversion raises.
pub record PromoCode : Type 0 where
  pub id : String
  pub code : String
  pub kind : String
  pub value_days : Option ℕ
  pub status : String

pub record PromoRedemption : Type 0 where
  pub promo_code_id : String
  pub user_id : ℕ
  pub payment_id : String
  pub subscription_id : String

pub record FunnelEvent : Type 0 where
  pub event_type : String
  pub user_id : ℕ

-- The tables. `tg_of` is the Telegram id of a user, which a payment's row refers to.
pub record Db : Type 0 where
  pub payments : List Payment
  pub events : List PaymentEvent
  pub subscriptions : List Subscription
  pub plans : List Plan
  pub referrals : List Referral
  pub promos : List PromoCode
  pub redemptions : List PromoRedemption
  pub funnel : List FunnelEvent
  pub tg_of : ℕ → ℕ

-- The first row that a query's condition selects; the conditions used are on unique columns, or the
-- query says `limit(1)`.
abbrev pub first {ℓ} : {A : Type ℓ} → (A → Bool) → List A → Option A
first test [] = none
first test (x ∷ xs) = if test x then some x else first test xs

-- Changes the rows that a condition selects.
abbrev pub update_where {ℓ} : {A : Type ℓ} → (A → Bool) → (A → A) → List A → List A
update_where test change [] = []
update_where test change (x ∷ xs) = (if test x then change x else x) ∷ update_where test change xs

-- `timedelta(days=n)`
abbrev pub days : ℕ → ℕ
days n = n * 86400

-- `base + timedelta(days=z)`; before the epoch, where the source has earlier times, it stops at 0.
abbrev pub plus_days : ℕ → ℤ → ℕ
plus_days base (pos n) = base + days n
plus_days base (negsuc n) = base - days (suc n)
