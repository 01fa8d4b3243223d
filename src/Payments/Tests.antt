-- ===== src/Payments/Tests.antt =====
-- A small database, a webhook that pays for a subscription, and a confirmation by the bot.
use vpn_suite.Prelude.{
  pos, ℕ, ◌+◌, ◌≤◌, true, false, none, some, List, [], ◌∷◌, ◌≡◌, refl, strip, is_truthy, text_take,
  string_eq, nat_eq,
}
use vpn_suite.Payments.Records.{Subscription, Plan, Payment, Db, first, days}
use vpn_suite.Payments.Effects.{
  Clock, is_active, extend, renew, latest_active, is_open_referral, reward_referrer, reward,
  reward_open, apply_referral, is_live_promo, is_redemption_of, promo_bonus, redeem, redeem_code,
  apply_promo, is_paid_subscription, apply_plan, apply_payment_success_effects,
}
use vpn_suite.Payments.Webhook.{
  Payload, accepted, external_id_of, add_event, register, create, process_payment_webhook, confirm,
  complete_pending_payment_by_bot,
}
use vpn_suite.Payments.Replay.{webhook_replay}
use vpn_suite.Payments.Longer.{RowByRow, Prolongs}
use vpn_suite.Payments.Longer.Webhook.{process_payment_webhook-Prolongs}
use vpn_suite.Payments.Paid.{effects-paid}
use vpn_suite.Payments.Bot.{bot_confirms_once}

abbrev payer : Subscription
payer = record {
  id = "s1";
  user_id = 1;
  plan_id = "month";
  valid_from = 0;
  valid_until = 5000;
  status = "active";
}

abbrev friend : Subscription
friend = record {
  id = "s2";
  user_id = 2;
  plan_id = "month";
  valid_from = 0;
  valid_until = 900;
  status = "active";
}

abbrev waiting : Payment
waiting = record {
  id = "p0";
  user_id = 1;
  subscription_id = "s1";
  provider = "telegram";
  status = "pending";
  amount = 300;
  currency = "XTR";
  external_id = "invoice-0";
  promo_code = none;
}

abbrev month : Plan
month = record { id = "month"; duration_days = pos 30 }

abbrev start : Db
start = record {
  payments = waiting ∷ [];
  events = [];
  subscriptions = payer ∷ friend ∷ [];
  plans = month ∷ [];
  referrals =
      record {
        id = "r1";
        referrer_user_id = 2;
        referee_user_id = 1;
        reward_days = 0;
        status = "pending";
        reward_applied_at = none;
      }
      ∷ [];
  promos =
      record {
        id = "c1";
        code = "SPRING";
        kind = "bonus_days";
        value_days = some 3;
        status = "active";
      }
      ∷ [];
  redemptions = [];
  funnel = [];
  tg_of = λ user. 100 + user;
}

abbrev at_1000 : Clock
at_1000 = record { at_start = 1000; at_reward = 1001; at_promo = 1002 }

abbrev paid : Payload
paid = record {
  external_id = none;
  id = some "ext-1";
  payment_id = none;
  user_id = some (some 1);
  subscription_id = some "s1";
  amount = some 300;
  status = none;
  currency = none;
  promo_code = some " SPRING ";
}

abbrev ends : List Subscription → List ℕ
ends [] = []
ends (s ∷ ss) = s.valid_until ∷ ends ss

-- Thirty days and the promo's three for the payer, seven for the friend.
webhook_ends :
    ends (process_payment_webhook at_1000 7 "p1" "stripe" paid start).1.subscriptions
    ≡ (5000 + days 33) ∷ (1001 + days 7) ∷ []
unfolding process_payment_webhook create register external_id_of apply_payment_success_effects
    apply_plan apply_promo redeem_code redeem promo_bonus apply_referral reward_open reward
    reward_referrer latest_active is_open_referral is_live_promo is_redemption_of
    is_paid_subscription renew extend is_active strip is_truthy text_take
webhook_ends = refl

webhook_replay_example :
    let after = (process_payment_webhook at_1000 7 "p1" "stripe" paid start).1 in
    process_payment_webhook at_1000 7 "p2" "stripe" paid after
    ≡ (accepted "p1" false, add_event "p1" "webhook_repeat" after)
unfolding process_payment_webhook create external_id_of is_truthy
webhook_replay_example =
    webhook_replay at_1000 at_1000 7 7 "p1" "p2" "stripe" "stripe" paid paid start "p1" true refl
      refl

process_payment_webhook-Prolongs_example :
    RowByRow Prolongs
      (payer ∷ friend ∷ [])
      (process_payment_webhook at_1000 7 "p1" "stripe" paid start).1.subscriptions
process_payment_webhook-Prolongs_example =
    process_payment_webhook-Prolongs at_1000 7 "p1" "stripe" paid start refl

effects-paid_example :
    (t : Subscription) × (first
        (is_paid_subscription waiting)
        (apply_payment_success_effects at_1000 7 none waiting start).subscriptions
      ≡ some t)
    × (is_active t ≡ true)
    × (1000 + days 30 ≤ t.valid_until)
    × (is_active payer ≡ true → 5000 + days 30 ≤ t.valid_until)
unfolding is_paid_subscription
effects-paid_example = effects-paid at_1000 7 none waiting start payer month refl refl

bot_confirms_once_example :
    let after = (complete_pending_payment_by_bot at_1000 7 "p0" 101 start).1 in
    complete_pending_payment_by_bot at_1000 7 "p0" 101 after ≡ (true, after)
unfolding complete_pending_payment_by_bot confirm
bot_confirms_once_example = bot_confirms_once at_1000 at_1000 7 7 "p0" 101 start refl
