-- ===== src/Issue/Placed.antt =====
-- The peer of an issued device on its node, also where the configurations are refused afterwards.
use vpn_suite.Prelude.{
  ℕ, String, Bool, true, false, not, ◌&&◌, ◌||◌, Option, some, List, [], ◌∷◌, ◌==◌, string_eq,
  if◌then◌else◌, all, strip, Result, ok, err, ◌≡◌, refl, sym, ap, ◌⊎◌, ◌≢◌, ◌∙◌, subst, arith, inl,
  inr, Bool-cases, Result-cases, ==_refl,
}
use vpn_suite.Payments.Records.{update_where}
use vpn_suite.Devices.Rows.{Device, is_row, has_status}
use vpn_suite.Config.Text.Fields.{Fault}
use vpn_suite.Config.Text.Wrappers.{build_all_configs}
use vpn_suite.Reconcile.Peer.{PeerConfigLike}
use vpn_suite.Reconcile.Apply.{Outcome, returned}
use vpn_suite.Reconcile.Nodes.{Adapter, mark_applied}
use vpn_suite.Reconcile.Nodes.Settles.{Outcome-cases}
use vpn_suite.Migrate.Moves.{IsExact}
use vpn_suite.Issue.Rows.{Tables, Runtime, IssueSettings}
use vpn_suite.Issue.Checks.{IssueError, config_refused, IssueRequest, Generated, IssueResult}
use vpn_suite.Issue.Prepare.{Prepared, Outside}
use vpn_suite.Issue.Peer.{issued_config, ensure_device_peer_on_node, create_peer, lists_key}
use vpn_suite.Issue.Device.{
  update_device, is_direct, with_apply_status, add_rows, prepare, apply_peer, emit_configs,
  issue_device,
}
use vpn_suite.Issue.Limit.{issued_prepared, issued_refused}

here :
    (node key : String) (p : PeerConfigLike) (q : Option PeerConfigLike)
    → (if node == node && key == key then some p else q) ≡ some p
here node key p q = rw (==_refl node, ==_refl key) refl

module _ (a : Adapter) (x : IsExact a)
    (routed : (n : String) (s : a.State) (m k : String)
      → x.config_at (a.ensure_reply_routes n s).1 m k ≡ x.config_at s m k) where
  -- Where the addition and the check return, the node has the peer.
  pub create_peer-config_at :
      (node key allowed psk : String) (s : a.State)
      → strip key ≡ key
      → (create_peer a node key allowed psk s).0 ≡ returned
      → x.config_at (create_peer a node key allowed psk s).1 node key
        ≡ some (issued_config key allowed (some psk))
  unfolding create_peer ensure_device_peer_on_node
  create_peer-config_at node key allowed psk s trimmed made =
      let config = issued_config key allowed (some psk) in
      let s' = (a.add_peer node config s).1 in
      elim (Outcome-cases (a.add_peer node config s).0) [
        | inr (e, raises) ↦ absurd (ground arith)
        | inl returns ↦ elim (Outcome-cases (a.list_peers node s').0) [
          | inr (e, raises) ↦ absurd (ground arith)
          | inl listed ↦ elim (Bool-cases (lists_key key (a.list_peers node s').1)) [
            | inr missing ↦ absurd (ground arith)
            | inl there ↦
                let still : lists_key (strip key) (a.list_peers node s').1 ≡ true =
                  subst (λ (k : String). lists_key k (a.list_peers node s').1 ≡ true) (sym trimmed)
                    there in
                let ends : create_peer a node key allowed psk s ≡ a.ensure_reply_routes node s' =
                  ground arith in
                ap (λ (q : Outcome × a.State). x.config_at q.1 node key) ends
                ∙ routed node s' node key
                ∙ x.add_peer_sets node config s returns node key
                ∙ here node key config _
          ]
        ]
      ]

marked :
    (id : String) (now : ℕ) (ds : List Device)
    → all
        (λ d. not (is_row id d) || has_status "APPLIED" d)
        (update_where (is_row id) (mark_applied now) ds)
      ≡ true
unfolding has_status
marked id now [] = refl
marked id now (d ∷ ds) = ground (arith, marked id now ds)

-- The node has the peer of what was prepared.
abbrev pub IsPlaced :
    (rt : Runtime) → IsExact rt.adapter → Generated → Prepared → Tables rt.adapter.State → Type 0
IsPlaced rt x g p t =
    x.config_at t.nodes p.server.id g.public_key
    ≡ some (issued_config g.public_key p.allowed_ips (some p.preshared_key))

-- Every row of the device says that it is applied.
abbrev pub is_marked : String → List Device → Bool
is_marked id devices = all (λ d. not (is_row id d) || has_status "APPLIED" d) devices

module _ (rt : Runtime) (x : IsExact rt.adapter)
    (routed : (n : String) (s : rt.adapter.State) (m k : String)
      → x.config_at (rt.adapter.ensure_reply_routes n s).1 m k ≡ x.config_at s m k)
    (has_runtime : Bool) (o : Outside) (settings : IssueSettings) (r : IssueRequest) (g : Generated)
    (trimmed : strip g.public_key ≡ g.public_key) (t : Tables rt.adapter.State) where
  open rt use {adapter}

  apply_peer-IsPlaced :
      (p : Prepared) (u : Tables adapter.State)
      → (apply_peer rt has_runtime o settings g p u).0 ≡ ok true
      → IsPlaced rt x g p (apply_peer rt has_runtime o settings g p u).1
        × (is_marked g.device_id (apply_peer rt has_runtime o settings g p u).1.devices ≡ true)
  unfolding apply_peer
  apply_peer-IsPlaced p u h =
      let Placed : Result IssueError Bool × Tables adapter.State → Type 0 =
        λ y. IsPlaced rt x g p y.1 × (is_marked g.device_id y.1.devices ≡ true) in
      let made =
        create_peer adapter p.server.id g.public_key p.allowed_ips p.preshared_key u.nodes in
      elim (Bool-cases (is_direct settings)) [
        | inr elsewhere ↦ absurd (ground arith)
        | inl direct ↦ elim (Bool-cases has_runtime) [
          | inr missing ↦ absurd (ground arith)
          | inl there ↦ elim (Outcome-cases made.0) [
            | inr (e, raises) ↦ absurd (ground arith)
            | inl returns ↦
                let applying : Tables adapter.State =
                  record (update_device g.device_id (with_apply_status "APPLYING") u) {
                    nodes = made.1;
                  } in
                let ends : apply_peer rt has_runtime o settings g p u
                    ≡ (ok true, update_device g.device_id (mark_applied g.applied_at) applying) =
                  ground arith in
                subst Placed (sym ends) (
                  create_peer-config_at adapter x routed p.server.id g.public_key p.allowed_ips
                      p.preshared_key u.nodes trimmed returns,
                  marked g.device_id g.applied_at applying.devices,
                )
          ]
        ]
      ]

  emitted-ok :
      (p : Prepared) (y : Result IssueError Bool × Tables adapter.State) (res : IssueResult)
      (t' : Tables adapter.State)
      → emit_configs rt o g p y ≡ (ok res, t')
      → y ≡ (ok res.peer_created, t')
  unfolding emit_configs
  emitted-ok p (err e, u) res t' h = absurd (ground arith)
  emitted-ok p (ok b, u) res t' h = elim (Result-cases (build_all_configs o.parsers p.config)) [
    | inl (configs, built) ↦ ground arith
    | inr (faults, refused) ↦ absurd (ground arith)
  ]

  emitted-refused :
      (p : Prepared) (y : Result IssueError Bool × Tables adapter.State) (faults : List Fault)
      (t' : Tables adapter.State)
      → emit_configs rt o g p y ≡ (err (config_refused faults), t')
      → ((b : Bool) × (y ≡ (ok b, t'))) ⊎ (y.0 ≡ err (config_refused faults))
  unfolding emit_configs
  emitted-refused p (err e, u) faults t' h = inr (ground arith)
  emitted-refused p (ok b, u) faults t' h =
      elim (Result-cases (build_all_configs o.parsers p.config)) [
        | inl (configs, built) ↦ absurd (ground arith)
        | inr (faults', refused) ↦ inl (b, ground arith)
      ]

  never_refuses :
      (p : Prepared) (u : Tables adapter.State) (faults : List Fault)
      → (apply_peer rt has_runtime o settings g p u).0 ≢ err (config_refused faults)
  unfolding apply_peer
  never_refuses p u faults h =
      let made =
        create_peer adapter p.server.id g.public_key p.allowed_ips p.preshared_key u.nodes in
      elim (Outcome-cases made.0) [ inl returns ↦ ground arith | inr (e, raises) ↦ ground arith ]

  -- Where the peer's part may not fall back, it has created the peer if it returns.
  applied_strictly :
      (p : Prepared) (u : Tables adapter.State) (b : Bool)
      → is_direct settings ≡ true
      → settings.issue_fallback_on_peer_failure ≡ false
      → (apply_peer rt has_runtime o settings g p u).0 ≡ ok b
      → b ≡ true
  unfolding apply_peer
  applied_strictly p u b direct strict h =
      let made =
        create_peer adapter p.server.id g.public_key p.allowed_ips p.preshared_key u.nodes in
      elim (Bool-cases has_runtime) [
        | inr missing ↦ absurd (ground arith)
        | inl there ↦ elim (Outcome-cases made.0) [
          | inl returns ↦ ground arith
          | inr (e, raises) ↦ absurd (ground arith)
        ]
      ]

  not_both :
      (e : IssueError) (res : IssueResult)
      (m : Result IssueError IssueResult × Tables adapter.State) (u t' : Tables adapter.State)
      → m ≡ (err e, u)
      → m ≡ (ok res, t')
      → ⊥
  not_both e res m u t' f h = ground arith

  first_of :
      (y : Result IssueError Bool × Tables adapter.State) (b : Bool) (t' : Tables adapter.State)
      → y ≡ (ok b, t')
      → (y.0 ≡ ok b) × (y.1 ≡ t')
  first_of y b t' h = (
    ap (λ (z : Result IssueError Bool × Tables adapter.State). z.0) h,
    ap (λ (z : Result IssueError Bool × Tables adapter.State). z.1) h,
  )

  -- An issue that returns and says that the peer was created has put it on the server's node, with
  -- the device's address and preshared key, and every row of the device says that it is applied. The
  -- adapter does what it says, its call for reply routes changes no peer, and the generated key has
  -- no space around it.
  pub issued-IsPlaced :
      (res : IssueResult) (t' : Tables adapter.State)
      → issue_device rt has_runtime o settings r g t ≡ (ok res, t')
      → res.peer_created ≡ true
      → (p : Prepared) × (prepare rt has_runtime o settings r g t ≡ ok p)
        × IsPlaced rt x g p t'
        × (is_marked g.device_id t'.devices ≡ true)
  issued-IsPlaced res t' ran created =
      elim (Result-cases (prepare rt has_runtime o settings r g t)) [
        | inr (e, refused) ↦ absurd (
            not_both e res (issue_device rt has_runtime o settings r g t) t t'
              (issued_refused rt has_runtime o settings r g t e refused) ran)
        | inl (p, prepared) ↦
            let u = add_rows rt settings r g p t in
            let applied = apply_peer rt has_runtime o settings g p u in
            let ends = sym (issued_prepared rt has_runtime o settings r g t p prepared) ∙ ran in
            let (returned_so, tables) =
              first_of applied res.peer_created t' (emitted-ok p applied res t' ends) in
            let placed = apply_peer-IsPlaced p u (returned_so ∙ ap (λ (b : Bool). ok b) created) in
            let here =
              subst
                (λ (v : Tables adapter.State).
                  IsPlaced rt x g p v × (is_marked g.device_id v.devices ≡ true))
                tables placed in
            (p, prepared, here.0, here.1)
      ]

  -- Where the request itself puts peers on nodes and may not fall back, an issue that passes its
  -- checks and raises because its configurations are refused has put the peer on the server's node
  -- before: the device's row is only in the session that the exception ends.
  pub refused_config_leaves_peer :
      is_direct settings ≡ true
      → settings.issue_fallback_on_peer_failure ≡ false
      → (p : Prepared) → prepare rt has_runtime o settings r g t ≡ ok p
      → (faults : List Fault) (t' : Tables adapter.State)
      → issue_device rt has_runtime o settings r g t ≡ (err (config_refused faults), t')
      → IsPlaced rt x g p t'
  refused_config_leaves_peer direct strict p prepared faults t' ran =
      let u = add_rows rt settings r g p t in
      let applied = apply_peer rt has_runtime o settings g p u in
      let ends = sym (issued_prepared rt has_runtime o settings r g t p prepared) ∙ ran in
      elim (emitted-refused p applied faults t' ends) [
        | inr never ↦ absurd (never_refuses p u faults never)
        | inl (b, applies) ↦
            let (returned_so, tables) = first_of applied b t' applies in
            let made = applied_strictly p u b direct strict returned_so in
            let placed = apply_peer-IsPlaced p u (returned_so ∙ ap (λ (c : Bool). ok c) made) in
            subst (IsPlaced rt x g p) tables placed.0
      ]
