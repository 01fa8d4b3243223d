-- ===== src/Issue/Admin/Rotate/Served.antt =====
-- The new key of a device after a rotation that returns.
use vpn_suite.Prelude.{
  String, Bool, true, some, List, [], ◌∷◌, string_eq, strip, Result, ok, err, Holds-ok, ◌≡◌, refl,
  sym, ap, ◌∙◌, arith, inl, inr, Bool-cases, Result-cases,
}
use vpn_suite.Payments.Records.{update_where}
use vpn_suite.Devices.Rows.{Device, is_row}
use vpn_suite.Reconcile.Apply.{Outcome, returned}
use vpn_suite.Reconcile.Nodes.{Adapter, mark_applied}
use vpn_suite.Reconcile.Nodes.Settles.{Outcome-cases}
use vpn_suite.Migrate.Moves.{IsExact}
use vpn_suite.Issue.Rows.{Tables, Runtime, IssueSettings}
use vpn_suite.Issue.Checks.{Generated}
use vpn_suite.Issue.Prepare.{Prepared, Outside}
use vpn_suite.Issue.Peer.{
  issued_config, create_peer, add_verified, ensure_device_peer_on_node, lists_key,
}
use vpn_suite.Issue.Device.{is_direct}
use vpn_suite.Issue.Placed.{create_peer-config_at}
use vpn_suite.Issue.Admin.{AdminError}
use vpn_suite.Issue.Admin.Rotate.Kept.{IsKept, own_address, renewed-IsKept}
use vpn_suite.Issue.Admin.Rotate.{
  Rotation, missing_after_rotate, with_peer, write_rotation, rotation_of, drop_old, renewed,
  put_new, rotate_found, admin_rotate_peer,
}

-- An addition that is verified, and the call that ensures the peer, are a creation.
created_in_two :
    (a : Adapter) (node key allowed psk missing : String) (s : a.State)
    → (add_verified a node (issued_config key allowed (some psk)) missing s).0 ≡ returned
    → create_peer a node key allowed psk s
      ≡ ensure_device_peer_on_node a node key allowed
          (some psk)
          (add_verified a node (issued_config key allowed (some psk)) missing s).1
unfolding add_verified create_peer
created_in_two a node key allowed psk missing s verified =
    let config = issued_config key allowed (some psk) in
    let s' = (a.add_peer node config s).1 in
    elim (Outcome-cases (a.add_peer node config s).0) [
      | inr (e, raises) ↦ absurd (ground arith)
      | inl returns ↦ elim (Outcome-cases (a.list_peers node s').0) [
        | inr (e, raises) ↦ absurd (ground arith)
        | inl listed ↦ elim (Bool-cases (lists_key key (a.list_peers node s').1)) [
          | inr unlisted ↦ absurd (ground arith)
          | inl there ↦ ground arith
        ]
      ]
    ]

-- The row of the device with the prepared peer, applied.
abbrev pub served : Generated → Prepared → Device → Device
served g p d = mark_applied g.applied_at (with_peer g.public_key p d)

written_twice :
    (id : String) (g : Generated) (p : Prepared) (ds : List Device)
    → update_where
        (is_row id)
        (mark_applied g.applied_at)
        (update_where (is_row id) (with_peer g.public_key p) ds)
      ≡ update_where (is_row id) (served g p) ds
written_twice id g p [] = refl
written_twice id g p (d ∷ ds) = elim (Bool-cases (is_row id d)) [
  | inl same ↦ rw (same, same, written_twice id g p ds) refl
  | inr apart ↦ rw (apart, apart, written_twice id g p ds) refl
]

module _ (rt : Runtime) (x : IsExact rt.adapter)
    (routed : (n : String) (s : rt.adapter.State) (m k : String)
      → x.config_at (rt.adapter.ensure_reply_routes n s).1 m k ≡ x.config_at s m k)
    (has_runtime : Bool) (o : Outside) (settings : IssueSettings) (g : Generated)
    (trimmed : strip g.public_key ≡ g.public_key) where
  open rt use {adapter}

  -- The node has the new key with what was prepared, and the device's rows say so.
  abbrev pub IsServed : Rotation → Prepared → List Device → Tables adapter.State → Type 0
  IsServed found p devices t =
      (x.config_at t.nodes found.server.id g.public_key
        ≡ some (issued_config g.public_key p.allowed_ips (some p.preshared_key)))
      × (t.devices ≡ update_where (is_row found.device.id) (served g p) devices)

  put_new-IsServed :
      (found : Rotation) (p : Prepared) (configs res : String × String × String)
      (t u : Tables adapter.State)
      → is_direct settings ≡ true
      → has_runtime ≡ true
      → put_new rt has_runtime o settings g found p configs
          (write_rotation rt has_runtime o settings g found p t)
        ≡ (ok res, u)
      → IsServed found p t.devices u
  unfolding put_new
  put_new-IsServed found p configs res t u direct there ran =
      let config = issued_config g.public_key p.allowed_ips (some p.preshared_key) in
      let node = found.server.id in
      let added = add_verified adapter node config missing_after_rotate t.nodes in
      let ensured =
        ensure_device_peer_on_node adapter node g.public_key p.allowed_ips (some p.preshared_key)
          added.1 in
      elim (Outcome-cases added.0) [
        | inr (e, raises) ↦ absurd (ground arith)
        | inl returns ↦ elim (Outcome-cases ensured.0) [
          | inr (e, raises) ↦ absurd (ground arith)
          | inl holds ↦
              let made =
                created_in_two adapter node g.public_key p.allowed_ips p.preshared_key
                  missing_after_rotate t.nodes returns in
              let nodes_so : u.nodes ≡ ensured.1 = ground arith in
              let rows_so : u.devices
                  ≡ update_where (is_row found.device.id) (mark_applied g.applied_at)
                      (update_where (is_row found.device.id) (with_peer g.public_key p) t.devices) =
                ground arith in
              (
                ap (λ (s : adapter.State). x.config_at s node g.public_key) nodes_so
                    ∙ ap (λ (y : Outcome × adapter.State). x.config_at y.1 node g.public_key)
                        (sym made)
                    ∙ create_peer-config_at adapter x routed node g.public_key p.allowed_ips
                        p.preshared_key t.nodes trimmed
                        (ap (λ (y : Outcome × adapter.State). y.0) made ∙ holds),
                rows_so ∙ written_twice found.device.id g p t.devices,
              )
        ]
      ]

  not_ok :
      (e : AdminError) (res : String × String × String) (u u' : Tables adapter.State)
      (y : Result AdminError (String × String × String) × Tables adapter.State)
      → y ≡ (err e, u)
      → y ≡ (ok res, u')
      → ⊥
  not_ok e res u u' y stopped ran = ground arith

  -- Where the request itself puts peers on nodes, a rotation that returns has put the new key on the
  -- device's node, with the device's own address where its row has one, and the table of devices
  -- differs from that before in the device's rows only: they have that key, the address and the
  -- preshared key, and are applied. The adapter does what it says, its call for reply routes changes
  -- no peer, and the generated key has no space around it.
  pub rotated-IsServed :
      (server_id peer_id : String) (t u : Tables adapter.State) (found : Rotation)
      (res : String × String × String)
      → rotation_of rt has_runtime o settings server_id peer_id g t ≡ ok found
      → is_direct settings ≡ true
      → has_runtime ≡ true
      → admin_rotate_peer rt has_runtime o settings server_id peer_id g t ≡ (ok res, u)
      → (p : Prepared) × IsKept (own_address found) p.allowed_ips × IsServed found p t.devices u
  unfolding admin_rotate_peer rotate_found
  rotated-IsServed server_id peer_id t u found res checked direct there ran =
      let t' : Tables adapter.State = record t {
        nodes = drop_old rt has_runtime o settings found t.nodes;
      } in
      let starts : admin_rotate_peer rt has_runtime o settings server_id peer_id g t
          ≡ rotate_found rt has_runtime o settings g found t =
        ground arith in
      elim (Result-cases (renewed rt has_runtime o settings g found t')) [
        | inr (e, stopped) ↦
            let stops : rotate_found rt has_runtime o settings g found t ≡ (err e, t') =
              ground arith in
            absurd (not_ok e res t' u _ (starts ∙ stops) ran)
        | inl (made, ready) ↦
            let ends : rotate_found rt has_runtime o settings g found t
                ≡ put_new rt has_runtime o settings g found made.0 made.1
                    (write_rotation rt has_runtime o settings g found made.0 t') =
              ground arith in
            (
              made.0,
              Holds-ok
                  (λ (q : Prepared × (String × String × String)).
                    IsKept (own_address found) q.0.allowed_ips)
                  (renewed rt has_runtime o settings g found t') made
                  (renewed-IsKept rt has_runtime o settings g found t') ready,
              put_new-IsServed found made.0 made.1 res t' u direct there
                  (sym ends ∙ sym starts ∙ ran),
            )
      ]
