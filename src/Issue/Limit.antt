-- ===== src/Issue/Limit.antt =====
-- The devices that an issue leaves: at most one more, and only below the subscription's limit.
use vpn_suite.Prelude.{
  ◌+◌, ◌<◌, String, Bool, none, some, List, [], ◌∷◌, ◌++◌, ◌==◌, string_eq, if◌then◌else◌, leb,
  Result, ok, err, ◌≡◌, refl, sym, ap, ◌∙◌, subst, arith, ◌⊎◌, inl, inr, Bool-cases, Option-cases,
  Result-cases, Holds, Holds->>=, Holds-ok, all-Holds, constant-Holds, nat_eq,
}
use vpn_suite.Payments.Records.{first, update_where}
use vpn_suite.Devices.Rows.{Device, is_row}
use vpn_suite.Reconcile.Nodes.{mark_applied}
use vpn_suite.Reconcile.Nodes.Settles.{Outcome-cases}
use vpn_suite.Config.Text.Wrappers.{build_all_configs}
use vpn_suite.Issue.Peer.{create_peer}
use vpn_suite.Issue.Rows.{User, Subscription, Tables, Runtime, IssueSettings}
use vpn_suite.Issue.Checks.{
  IssueError, IssueRequest, Generated, IssueResult, check_subscription, usable_subscription,
  standing_devices,
}
use vpn_suite.Issue.Prepare.{Prepared, Outside}
use vpn_suite.Issue.Device.{
  with_apply_status, fall_back, add_rows, new_device, prepare, apply_peer, emit_configs,
  issue_device,
}

-- A change of a device that leaves its subscription and its revocation as they are.
abbrev pub Keeps : (Device → Device) → Type 0
Keeps change =
    (d : Device)
    → ((change d).subscription_id ≡ d.subscription_id) × ((change d).revoked_at ≡ d.revoked_at)

standing_devices-update :
    (sid : String) (test : Device → Bool) (change : Device → Device) (ds : List Device)
    → Keeps change
    → standing_devices sid (update_where test change ds) ≡ standing_devices sid ds
unfolding standing_devices
standing_devices-update sid test change [] keeps = refl
standing_devices-update sid test change (d ∷ ds) keeps =
    ground (arith, keeps d, standing_devices-update sid test change ds keeps)

standing_devices-add :
    (sid : String) (ds : List Device) (d : Device)
    → d.revoked_at ≡ none
    → standing_devices sid (ds ++ (d ∷ []))
      ≡ (if d.subscription_id == sid then standing_devices sid ds + 1 else standing_devices sid ds)
unfolding standing_devices
standing_devices-add sid [] d h = ground arith
standing_devices-add sid (e ∷ ds) d h = ground (arith, standing_devices-add sid ds d h)

-- What was checked of the subscription: it is there, and below its limit.
abbrev pub HasRoom :
    Generated → IssueRequest → List Subscription → List Device → Subscription → Type 0
HasRoom g r subs devices sub =
    (usable_subscription g.now r subs ≡ some sub)
    × (standing_devices r.subscription_id devices < sub.device_limit)

check_subscription-HasRoom :
    (g : Generated) (r : IssueRequest) (users : List User) (subs : List Subscription)
    (devices : List Device) (sub : Subscription)
    → check_subscription g.now r users subs devices ≡ ok sub
    → HasRoom g r subs devices sub
unfolding check_subscription
check_subscription-HasRoom g r users subs devices sub h =
    elim (Option-cases (first (λ (u : User). u.id == r.user_id) users)) [
      | inl nobody ↦ absurd (ground arith)
      | inr (u, found) ↦ elim (Bool-cases u.is_banned) [
        | inl banned ↦ absurd (ground arith)
        | inr free ↦ elim (Option-cases (usable_subscription g.now r subs)) [
          | inl missing ↦ absurd (ground arith)
          | inr (s, there) ↦
              elim (Bool-cases (leb s.device_limit (standing_devices r.subscription_id devices))) [
                | inl full ↦ absurd (ground arith)
                | inr room ↦ ground arith
              ]
        ]
      ]
    ]

-- One device more of the request's subscription, which was below its limit; none of any other.
abbrev pub AddsOne :
    Generated → IssueRequest → List Subscription → List Device → String → List Device → Type 0
AddsOne g r subs before sid after =
    (standing_devices sid after ≡ (
      if r.subscription_id == sid
      then standing_devices sid before + 1
      else standing_devices sid before))
    × ((sub : Subscription) × HasRoom g r subs before sub)

-- An issue that returns adds one device; one that raises adds none, or one.
abbrev pub IsCounted :
    Generated
    → IssueRequest
    → List Subscription
    → List Device
    → String
    → Result IssueError IssueResult
    → List Device
    → Type 0
IsCounted g r subs before sid (ok res) after = AddsOne g r subs before sid after
IsCounted g r subs before sid (err e) after =
    (standing_devices sid after ≡ standing_devices sid before) ⊎ AddsOne g r subs before sid after

added-IsCounted :
    (g : Generated) (r : IssueRequest) (subs : List Subscription) (before : List Device)
    (sid : String) (m : Result IssueError IssueResult) (after : List Device)
    → AddsOne g r subs before sid after
    → IsCounted g r subs before sid m after
added-IsCounted g r subs before sid (ok res) after h = h
added-IsCounted g r subs before sid (err e) after h = inr h

module _ (rt : Runtime) (has_runtime : Bool) (o : Outside) (settings : IssueSettings)
    (r : IssueRequest) (g : Generated) (t : Tables rt.adapter.State) where
  open rt use {adapter}

  -- What is prepared was checked before.
  prepare-HasRoom :
      Holds
        (λ p. (sub : Subscription) × HasRoom g r t.subscriptions t.devices sub)
        (prepare rt has_runtime o settings r g t)
  unfolding prepare
  prepare-HasRoom =
      let Q : Prepared → Type 0 =
        λ p. (sub : Subscription) × HasRoom g r t.subscriptions t.devices sub in
      Holds->>= (λ sub. HasRoom g r t.subscriptions t.devices sub) Q
        (check_subscription g.now r t.users t.subscriptions t.devices) _
        (all-Holds (λ sub. HasRoom g r t.subscriptions t.devices sub)
          (check_subscription g.now r t.users t.subscriptions t.devices)
          (λ sub. check_subscription-HasRoom g r t.users t.subscriptions t.devices sub))
        λ sub room.
          let checked : (s : Subscription) × HasRoom g r t.subscriptions t.devices s =
            (sub, room) in
          constant-Holds _ checked

  apply_peer-standing_devices :
      (sid : String) (p : Prepared) (u : Tables adapter.State)
      → standing_devices sid (apply_peer rt has_runtime o settings g p u).1.devices
        ≡ standing_devices sid u.devices
  unfolding apply_peer
  apply_peer-standing_devices sid p u =
      let made =
        create_peer adapter p.server.id g.public_key p.allowed_ips p.preshared_key u.nodes in
      let applying = update_where (is_row g.device_id) (with_apply_status "APPLYING") u.devices in
      let once : standing_devices sid applying ≡ standing_devices sid u.devices =
        standing_devices-update sid (is_row g.device_id) (with_apply_status "APPLYING") u.devices
          λ d. (refl, refl) in
      elim (Outcome-cases made.0) [
        | inl returns ↦ ground (
          arith,
          standing_devices-update sid (is_row g.device_id) (mark_applied g.applied_at) applying
              (λ d. (refl, refl)),
        )
        | inr (e, raises) ↦ ground (
          arith,
          standing_devices-update sid (is_row g.device_id) (fall_back (o.redact e)) applying
              (λ d. (refl, refl)),
        )
      ]

  emit_configs-tables :
      (p : Prepared) (m : Result IssueError Bool) (u : Tables adapter.State)
      → (emit_configs rt o g p (m, u)).1 ≡ u
  unfolding emit_configs
  emit_configs-tables p (err e) u = refl
  emit_configs-tables p (ok b) u = elim (Result-cases (build_all_configs o.parsers p.config)) [
    | inl (configs, built) ↦ ground arith
    | inr (faults, refused) ↦ ground arith
  ]

  pub emitted-tables :
      (p : Prepared) (x : Result IssueError Bool × Tables adapter.State)
      → (emit_configs rt o g p x).1 ≡ x.1
  emitted-tables p (m, u) = emit_configs-tables p m u

  pub issued_prepared :
      (p : Prepared)
      → prepare rt has_runtime o settings r g t ≡ ok p
      → issue_device rt has_runtime o settings r g t
        ≡ emit_configs rt o g p
            (apply_peer rt has_runtime o settings g p (add_rows rt settings r g p t))
  unfolding issue_device
  issued_prepared p prepared = ground arith

  pub issued_refused :
      (e : IssueError)
      → prepare rt has_runtime o settings r g t ≡ err e
      → issue_device rt has_runtime o settings r g t ≡ (err e, t)
  unfolding issue_device
  issued_refused e refused = ground arith

  abbrev CountedOutcome : String → Result IssueError IssueResult × Tables adapter.State → Type 0
  CountedOutcome sid x = IsCounted g r t.subscriptions t.devices sid x.0 x.1.devices

  -- On every branch, the devices of a subscription that are not revoked stay as many as they were,
  -- unless it is the request's: then they are one more, and were fewer than the limit of an active
  -- subscription of the user with that identifier. An issue that returns has added that one.
  pub issue_device-IsCounted :
      (sid : String)
      → IsCounted g r t.subscriptions t.devices sid
          (issue_device rt has_runtime o settings r g t).0
          (issue_device rt has_runtime o settings r g t).1.devices
  issue_device-IsCounted sid = elim (Result-cases (prepare rt has_runtime o settings r g t)) [
    | inr (e, refused) ↦ subst (CountedOutcome sid) (sym (issued_refused e refused)) (inl refl)
    | inl (p, prepared) ↦
        let u = add_rows rt settings r g p t in
        let applied = apply_peer rt has_runtime o settings g p u in
        subst (CountedOutcome sid) (sym (issued_prepared p prepared)) (
          added-IsCounted g r t.subscriptions t.devices sid (emit_configs rt o g p applied).0
            (emit_configs rt o g p applied).1.devices
            (
              ap (λ (x : Tables adapter.State). standing_devices sid x.devices)
                    (emitted-tables p applied)
                  ∙ apply_peer-standing_devices sid p u
                  ∙ standing_devices-add sid t.devices (new_device settings r g p) refl,
              Holds-ok
                  (λ (q : Prepared).
                    (sub : Subscription) × HasRoom g r t.subscriptions t.devices sub)
                  (prepare rt has_runtime o settings r g t) p prepare-HasRoom prepared,
            ))
  ]
