-- ===== src/Issue/Trial.antt =====
-- `start_trial` of backend/app/services/trial_service.py. The counter of metrics and the server's
-- name and region, which are only shown, are left out.
pub mod Once
use vpn_suite.Prelude.{
  ℕ, ◌+◌, ◌*◌, min, max, String, Bool, true, false, not, ◌&&◌, Option, none, some, List, [], ◌∷◌,
  ◌++◌, ◌==◌, string_eq, nat_eq, if◌then◌else◌, is_truthy, ltb, any, filter, sort_by, Result, ok,
  err, ℤ, pos, negsuc,
}
use vpn_suite.Payments.Records.{first}
use vpn_suite.Balancer.Select.{Node}
use vpn_suite.Issue.Rows.{User, Subscription, Tables, Runtime, IssueSettings}
use vpn_suite.Issue.Checks.{IssueError, IssueRequest, Generated, IssueResult}
use vpn_suite.Issue.Prepare.{Outside}
use vpn_suite.Issue.Device.{issue_device}

-- `is_free` says that the price is not positive.
pub record TrialPlan : Type 0 where
  pub id : String
  pub is_free : Bool
  pub duration_days : ℕ

-- `funnel` are the users of the events `trial_started`.
pub record TrialTables (S : Type 0) : Type 0 where
  pub tables : Tables S
  pub plans : List TrialPlan
  pub funnel : List ℕ

pub record TrialSettings : Type 0 where
  pub trial_plan_id : String
  pub trial_duration_hours : ℤ

pub data TrialError : Type 0 where
  user_create_failed trial_user_banned trial_already_used trial_plan_not_found : TrialError
  issue_failed : IssueError → TrialError

-- The identifiers that the database gives to a new user and to the subscription.
pub record TrialIds : Type 0 where
  pub user_id : ℕ
  pub subscription_id : String

abbrev pub find_user : ℕ → List User → Option User
find_user tg users = first (λ u. u.tg_id == tg) users

-- The users, with a new one where none has the Telegram id.
unfoldable pub with_user : ℕ → ℕ → List User → List User
with_user tg new_id users = elim (find_user tg users) [
  | some u ↦ users
  | none ↦ users ++ (record { id = new_id; tg_id = tg; is_banned = false } ∷ [])
]

abbrev pub is_trial_of : ℕ → Subscription → Bool
is_trial_of user_id s = s.user_id == user_id && s.is_trial

-- The configured plan, or the shortest that is free.
unfoldable pub trial_plan : TrialSettings → List TrialPlan → Option TrialPlan
unfolding is_truthy
trial_plan ts plans =
    let shortest =
      first (λ p. true)
        (sort_by (λ p q. ltb p.duration_days q.duration_days) (filter (λ p. p.is_free) plans)) in
    if is_truthy ts.trial_plan_id
    then elim (first (λ p. p.id == ts.trial_plan_id) plans) [ some p ↦ some p | none ↦ shortest ]
    else shortest

-- `max(1, min(168, hours))`
unfoldable pub trial_hours : ℤ → ℕ
trial_hours (pos n) = max 1 (min 168 n)
trial_hours (negsuc n) = 1

-- The checks, and the user and the plan that they find.
unfoldable pub check_trial :
    TrialSettings
    → ℕ
    → List User
    → List Subscription
    → List TrialPlan
    → Result TrialError (User × TrialPlan)
unfolding trial_plan
check_trial ts tg users subs plans =
    elim (find_user tg users) as (λ o. Result TrialError (User × TrialPlan)) [
      | none ↦ err user_create_failed
      | some u ↦
          if u.is_banned
          then err trial_user_banned
          else if any (is_trial_of u.id) subs
          then err trial_already_used
          else elim (trial_plan ts plans) as (λ o. Result TrialError (User × TrialPlan)) [
            | none ↦ err trial_plan_not_found
            | some p ↦ ok (u, p)
          ]
    ]

abbrev pub trial_subscription : TrialSettings → ℕ → TrialIds → User × TrialPlan → Subscription
trial_subscription ts now ids (u, p) = record {
  id = ids.subscription_id;
  user_id = u.id;
  plan_id = p.id;
  valid_from = now;
  valid_until = now + trial_hours ts.trial_duration_hours * 3600;
  device_limit = 1;
  status = "active";
  is_trial = true;
}

abbrev pub raise_issue {ℓ} : {A : Type ℓ} → Result IssueError A → Result TrialError A
raise_issue (ok a) = ok a
raise_issue (err e) = err (issue_failed e)

module _ (rt : Runtime) (has_runtime : Bool) (o : Outside) (settings : IssueSettings) where
  open rt use {adapter}

  -- The user's row, if it is new.
  abbrev pub with_trial_user : ℕ → TrialIds → TrialTables adapter.State → TrialTables adapter.State
  with_trial_user tg ids t = record t {
    tables = record t.tables { users = with_user tg ids.user_id t.tables.users };
  }

  -- The subscription and the event.
  abbrev pub subscribe :
      TrialSettings
      → ℕ
      → TrialIds
      → User × TrialPlan
      → TrialTables adapter.State
      → TrialTables adapter.State
  subscribe ts now ids found t = record t {
    tables = record t.tables {
      subscriptions = t.tables.subscriptions ++ (trial_subscription ts now ids found ∷ []);
    };
    funnel = t.funnel ++ (found.0.id ∷ []);
  }

  abbrev pub trial_request : TrialIds → Option (List Node) → User → IssueRequest
  trial_request ids topology u = record {
    user_id = u.id;
    subscription_id = ids.subscription_id;
    server_id = none;
    topology = topology;
  }

  -- The subscription's first device.
  unfoldable pub issue_trial :
      TrialIds
      → Option (List Node)
      → Generated
      → User
      → TrialTables adapter.State
      → Result TrialError IssueResult × TrialTables adapter.State
  issue_trial ids topology g u t =
      let (res, tables) =
        issue_device rt has_runtime o settings (trial_request ids topology u) g t.tables in
      (raise_issue res, record t { tables = tables })

  unfoldable pub start_trial :
      TrialSettings
      → ℕ
      → TrialIds
      → Option (List Node)
      → Generated
      → TrialTables adapter.State
      → Result TrialError IssueResult × TrialTables adapter.State
  unfolding check_trial with_user issue_trial
  start_trial ts tg ids topology g t =
      let t' = with_trial_user tg ids t in
      elim (check_trial ts tg t'.tables.users t'.tables.subscriptions t'.plans) [
        | err e ↦ (err e, t')
        | ok found ↦ issue_trial ids topology g found.0 (subscribe ts g.now ids found t')
      ]
