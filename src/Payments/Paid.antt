-- ===== src/Payments/Paid.antt =====
-- The subscription that a completed payment pays for.
use mathlib.Core.Path.{subst}
use vpn_suite.Prelude.{
  ℤ, pos, negsuc, ℕ, ◌≤◌, String, Bool, true, Option, some, List, [], ◌∷◌, ◌==◌, string_eq, nat_eq,
  ◌≡◌, refl, arith, Bool-cases, inl, inr,
}
use vpn_suite.Payments.Records.{Subscription, Plan, Payment, Db, first, update_where, plus_days}
use vpn_suite.Payments.Effects.{
  Clock, is_active, extend, renew, is_paid_subscription, apply_payment_success_effects,
}
use vpn_suite.Payments.Longer.{Prolongs, RowByRow, no_rows, rows, after_renewal-Prolongs}

is_paid_subscription-renew :
    (payment : Payment) (now : ℕ) (n : ℤ) (s : Subscription)
    → is_paid_subscription payment (renew now n s) ≡ is_paid_subscription payment s
unfolding is_paid_subscription renew extend
is_paid_subscription-renew payment now n s = ground arith

is_paid_subscription-Prolongs :
    (payment : Payment) (s t : Subscription)
    → Prolongs s t
    → is_paid_subscription payment t ≡ is_paid_subscription payment s
unfolding is_paid_subscription
is_paid_subscription-Prolongs payment s t (i, j, f) = rw (i, j)

is_paid_subscription-id :
    (payment : Payment) (s : Subscription)
    → is_paid_subscription payment s ≡ true
    → (s.id == payment.subscription_id) ≡ true
unfolding is_paid_subscription
is_paid_subscription-id payment s h = ground arith

-- The renewal changes the row that the query selects.
first-renew :
    (payment : Payment) (now : ℕ) (n : ℤ) (ss : List Subscription) (sub : Subscription)
    → first (is_paid_subscription payment) ss ≡ some sub
    → first
        (is_paid_subscription payment)
        (update_where (λ s. s.id == payment.subscription_id) (renew now n) ss)
      ≡ some (renew now n sub)
first-renew payment now n [] sub h = absurd (ground arith)
first-renew payment now n (s ∷ ss) sub h =
    let same = is_paid_subscription-renew payment now n s in
    elim (Bool-cases (is_paid_subscription payment s)) [
      | inl chosen ↦ ground (arith, same, is_paid_subscription-id payment s chosen)
      | inr passed ↦ ground (arith, same, first-renew payment now n ss sub)
    ]

first_row :
    (test : Subscription → Bool) (x s : Subscription) (xs : List Subscription)
    → first test (x ∷ xs) ≡ some s
    → test x ≡ true
    → x ≡ s
first_row test x s xs h chosen = ground arith

-- A table that goes on row by row answers the same query with the same row, prolonged.
first-RowByRow :
    (payment : Payment) (ss ts : List Subscription) (s : Subscription)
    → RowByRow Prolongs ss ts
    → first (is_paid_subscription payment) ss ≡ some s
    → (t : Subscription) × (first (is_paid_subscription payment) ts ≡ some t) × Prolongs s t
first-RowByRow payment _ _ s no_rows h = absurd (ground arith)
first-RowByRow payment _ _ s (rows {x} {y} {xs} {ys} r rs) h =
    let same = is_paid_subscription-Prolongs payment x y r in
    elim (Bool-cases (is_paid_subscription payment x)) [
      | inl chosen ↦ (
        y,
        ground (arith, same),
        subst (λ u. Prolongs u y) (first_row (is_paid_subscription payment) x s xs h chosen) r,
      )
      | inr passed ↦
          let (t, found, longer) = first-RowByRow payment xs ys s rs (ground arith) in
          (t, ground (arith, same), longer)
    ]

renew-is_active : (now : ℕ) (n : ℤ) (s : Subscription) → is_active (renew now n s) ≡ true
unfolding is_active renew extend
renew-is_active now n s = elim (Bool-cases (is_active s)) [
  | inl active ↦ rw active active
  | inr inactive ↦ rw inactive refl
]

renew-paid :
    (now : ℕ) (n : ℤ) (s : Subscription)
    → (is_active (renew now n s) ≡ true)
      × (plus_days now n ≤ (renew now n s).valid_until)
      × (is_active s ≡ true → plus_days s.valid_until n ≤ (renew now n s).valid_until)
unfolding is_active renew extend
renew-paid now (pos n) s = (renew-is_active now (pos n) s, ground arith, λ a. ground arith)
renew-paid now (negsuc n) s = (renew-is_active now (negsuc n) s, ground arith, λ a. ground arith)

-- When a payment's subscription is found, and so is its plan, then after the effects the same
-- query finds it active, to an end that is at least the plan's days from the present and, if it was
-- active before, at least the plan's days from its former end.
pub effects-paid :
    (clock : Clock) (bonus : ℕ) (promo_code : Option String) (payment : Payment) (db : Db)
    (sub : Subscription) (plan : Plan)
    → first (is_paid_subscription payment) db.subscriptions ≡ some sub
    → first (λ p. p.id == sub.plan_id) db.plans ≡ some plan
    → (t : Subscription) × (first
          (is_paid_subscription payment)
          (apply_payment_success_effects clock bonus promo_code payment db).subscriptions
        ≡ some t)
      × (is_active t ≡ true)
      × (plus_days clock.at_start plan.duration_days ≤ t.valid_until)
      × (is_active sub ≡ true → plus_days sub.valid_until plan.duration_days ≤ t.valid_until)
unfolding apply_payment_success_effects
effects-paid clock bonus promo_code payment db sub plan found has_plan =
    let paid = renew-paid clock.at_start plan.duration_days sub in
    let (t, result, (i, j, longer)) =
      first-RowByRow payment _ _ (renew clock.at_start plan.duration_days sub)
        (after_renewal-Prolongs clock bonus promo_code payment plan db)
        (first-renew payment clock.at_start plan.duration_days db.subscriptions sub found) in
    let (active, le) = longer paid.0 in
    (
      t,
      rw (apply_payment_success_effects, found, has_plan) result,
      active,
      omega (arith, paid.1, le),
      λ was_active. omega (arith, paid.2 was_active, le),
    )
