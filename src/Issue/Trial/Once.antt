-- ===== src/Issue/Trial/Once.antt =====
-- One trial for a user.
use vpn_suite.Prelude.{
  ℕ, Bool, true, false, Option, some, List, [], ◌∷◌, ◌++◌, string_eq, nat_eq, any, any-append,
  Result, ok, err, ◌≡◌, ◌≢◌, sym, ap, ◌∙◌, arith, inl, inr, Bool-cases, Option-cases, Result-cases,
  ==_refl,
}
use vpn_suite.Balancer.Select.{Node}
use vpn_suite.Reconcile.Nodes.Settles.{Outcome-cases}
use vpn_suite.Issue.Rows.{User, Subscription, Tables, Runtime, IssueSettings}
use vpn_suite.Issue.Checks.{IssueError, IssueRequest, Generated, IssueResult}
use vpn_suite.Issue.Prepare.{Prepared, Outside}
use vpn_suite.Issue.Peer.{create_peer}
use vpn_suite.Issue.Device.{add_rows, prepare, apply_peer, issue_device}
use vpn_suite.Issue.Limit.{issued_prepared, issued_refused, emitted-tables}
use vpn_suite.Issue.Trial.{
  TrialPlan, TrialTables, TrialSettings, TrialError, trial_already_used, TrialIds, find_user,
  with_user, is_trial_of, trial_plan, check_trial, trial_subscription, with_trial_user,
  trial_request, subscribe, issue_trial, start_trial,
}

-- What an issue never changes: the users and the subscriptions.
abbrev pub accounts : {S : Type 0} → Tables S → List User × List Subscription
accounts t = (t.users, t.subscriptions)

module _ (rt : Runtime) (has_runtime : Bool) (o : Outside) (settings : IssueSettings) where
  open rt use {adapter}

  apply_peer-accounts :
      (g : Generated) (p : Prepared) (u : Tables adapter.State)
      → accounts (apply_peer rt has_runtime o settings g p u).1 ≡ accounts u
  unfolding apply_peer
  apply_peer-accounts g p u =
      let made =
        create_peer adapter p.server.id g.public_key p.allowed_ips p.preshared_key u.nodes in
      elim (Outcome-cases made.0) [ inl returns ↦ ground arith | inr (e, raises) ↦ ground arith ]

  issue_device-accounts :
      (r : IssueRequest) (g : Generated) (t : Tables adapter.State)
      → accounts (issue_device rt has_runtime o settings r g t).1 ≡ accounts t
  issue_device-accounts r g t = elim (Result-cases (prepare rt has_runtime o settings r g t)) [
    | inr (e, refused) ↦
        ap (λ (y : Result IssueError IssueResult × Tables adapter.State). accounts y.1)
          (issued_refused rt has_runtime o settings r g t e refused)
    | inl (p, prepared) ↦
        let applied = apply_peer rt has_runtime o settings g p (add_rows rt settings r g p t) in
        ap (λ (y : Result IssueError IssueResult × Tables adapter.State). accounts y.1)
          (issued_prepared rt has_runtime o settings r g t p prepared)
        ∙ ap (λ (v : Tables adapter.State). accounts v)
            (emitted-tables rt has_runtime o settings r g t p applied)
        ∙ apply_peer-accounts g p (add_rows rt settings r g p t)
  ]

checked :
    (ts : TrialSettings) (tg : ℕ) (users : List User) (subs : List Subscription)
    (plans : List TrialPlan) (found : User × TrialPlan)
    → check_trial ts tg users subs plans ≡ ok found
    → (find_user tg users ≡ some found.0) × (found.0.is_banned ≡ false)
unfolding check_trial
checked ts tg users subs plans found h = elim (Option-cases (find_user tg users)) [
  | inl missing ↦ absurd (ground arith)
  | inr (u, there) ↦ elim (Bool-cases u.is_banned) [
    | inl banned ↦ absurd (ground arith)
    | inr free ↦ elim (Bool-cases (any (is_trial_of u.id) subs)) [
      | inl used ↦ absurd (ground arith)
      | inr fresh ↦ elim (Option-cases (trial_plan ts plans)) [
        | inl planless ↦ absurd (ground arith)
        | inr (p, planned) ↦ ground arith
      ]
    ]
  ]
]

used_up :
    (ts : TrialSettings) (tg : ℕ) (users : List User) (subs : List Subscription)
    (plans : List TrialPlan) (u : User)
    → find_user tg users ≡ some u
    → u.is_banned ≡ false
    → any (is_trial_of u.id) subs ≡ true
    → check_trial ts tg users subs plans ≡ err trial_already_used
unfolding check_trial
used_up ts tg users subs plans u there free used = ground arith

known :
    (tg id : ℕ) (users : List User) (u : User)
    → find_user tg users ≡ some u
    → with_user tg id users ≡ users
unfolding with_user
known tg id users u there = ground arith

now_used :
    (ts : TrialSettings) (now : ℕ) (ids : TrialIds) (found : User × TrialPlan)
    (subs : List Subscription)
    → any (is_trial_of found.0.id) (subs ++ (trial_subscription ts now ids found ∷ [])) ≡ true
now_used ts now ids found subs =
    any-append (is_trial_of found.0.id) subs (trial_subscription ts now ids found ∷ [])
    ∙ rw (==_refl found.0.id) (ground arith)

err-ne-ok : (e : TrialError) (res : IssueResult) → err e ≢ ok res
err-ne-ok e res h = cc

module _ (rt : Runtime) (has_runtime : Bool) (o : Outside) (settings : IssueSettings) where
  open rt use {adapter}

  issue_trial-accounts :
      (ids : TrialIds) (topology : Option (List Node)) (g : Generated) (u : User)
      (t : TrialTables adapter.State)
      → accounts (issue_trial rt has_runtime o settings ids topology g u t).1.tables
        ≡ accounts t.tables
  unfolding issue_trial
  issue_trial-accounts ids topology g u t =
      issue_device-accounts rt has_runtime o settings
        (trial_request rt has_runtime o settings ids topology u) g t.tables

  started :
      (ts : TrialSettings) (tg : ℕ) (ids : TrialIds) (topology : Option (List Node)) (g : Generated)
      (t : TrialTables adapter.State) (found : User × TrialPlan)
      → check_trial ts tg (with_user tg ids.user_id t.tables.users) t.tables.subscriptions t.plans
        ≡ ok found
      → start_trial rt has_runtime o settings ts tg ids topology g t
        ≡ issue_trial rt has_runtime o settings ids topology g found.0 (
            subscribe rt has_runtime o settings ts g.now ids found
              (with_trial_user rt has_runtime o settings tg ids t))
  unfolding start_trial
  started ts tg ids topology g t found passed = ground arith

  not_started :
      (ts : TrialSettings) (tg : ℕ) (ids : TrialIds) (topology : Option (List Node)) (g : Generated)
      (t : TrialTables adapter.State) (e : TrialError)
      → check_trial ts tg (with_user tg ids.user_id t.tables.users) t.tables.subscriptions t.plans
        ≡ err e
      → (start_trial rt has_runtime o settings ts tg ids topology g t).0 ≡ err e
  unfolding start_trial
  not_started ts tg ids topology g t e refused = ground arith

  -- Once a trial was started for a Telegram user, another is refused, whatever its settings, its
  -- identifiers, its nodes and the other tables are then, as long as the users and the subscriptions
  -- are those that the first one left.
  pub trial_once :
      (ts ts' : TrialSettings) (tg : ℕ) (ids ids' : TrialIds)
      (topology topology' : Option (List Node)) (g g' : Generated)
      (t t' later : TrialTables adapter.State) (res : IssueResult)
      → start_trial rt has_runtime o settings ts tg ids topology g t ≡ (ok res, t')
      → accounts later.tables ≡ accounts t'.tables
      → (start_trial rt has_runtime o settings ts' tg ids' topology' g' later).0
        ≡ err trial_already_used
  trial_once ts ts' tg ids ids' topology topology' g g' t t' later res ran same =
      let T = with_trial_user rt has_runtime o settings tg ids t in
      elim (Result-cases (check_trial ts tg T.tables.users T.tables.subscriptions T.plans)) [
        | inr (e, refused) ↦ absurd (
            err-ne-ok e res (
              sym (not_started ts tg ids topology g t e refused)
              ∙ ap (λ (y : Result TrialError IssueResult × TrialTables adapter.State). y.0) ran))
        | inl (found, passed) ↦
            let S = subscribe rt has_runtime o settings ts g.now ids found T in
            let begun = started ts tg ids topology g t found passed in
            let left : accounts later.tables ≡ accounts S.tables =
              same
              ∙ ap
                  (λ (y : Result TrialError IssueResult × TrialTables adapter.State).
                    accounts y.1.tables)
                  (sym ran ∙ begun)
              ∙ issue_trial-accounts ids topology g found.0 S in
            let users : later.tables.users ≡ T.tables.users =
              ap (λ (y : List User × List Subscription). y.0) left in
            let subs : later.tables.subscriptions ≡ S.tables.subscriptions =
              ap (λ (y : List User × List Subscription). y.1) left in
            let (there, free) =
              checked ts tg T.tables.users T.tables.subscriptions T.plans found passed in
            let there' : find_user tg later.tables.users ≡ some found.0 = rw users there in
            not_started ts' tg ids' topology' g' later trial_already_used (
              rw (known tg ids'.user_id later.tables.users found.0 there') (
                used_up ts' tg later.tables.users later.tables.subscriptions later.plans found.0
                  there' free (rw subs (now_used ts g.now ids found T.tables.subscriptions))))
      ]
