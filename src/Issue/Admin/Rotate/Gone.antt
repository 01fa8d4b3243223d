-- ===== src/Issue/Admin/Rotate/Gone.antt =====
-- The old key of a device after a rotation, whatever the rotation answers.
use vpn_suite.Prelude.{
  String, Bool, true, false, ◌&&◌, Option, none, some, ◌==◌, string_eq, if◌then◌else◌, strip,
  Result, ok, ◌≡◌, refl, ap, ◌∙◌, arith, inl, inr, Bool-cases, Result-cases, ==_refl,
}
use vpn_suite.Reconcile.Peer.{PeerConfigLike}
use vpn_suite.Reconcile.Apply.{returned}
use vpn_suite.Reconcile.Nodes.{Adapter}
use vpn_suite.Reconcile.Nodes.Settles.{Outcome-cases}
use vpn_suite.Migrate.Moves.{IsExact}
use vpn_suite.Issue.Rows.{Tables, Runtime, IssueSettings}
use vpn_suite.Issue.Checks.{Generated}
use vpn_suite.Issue.Prepare.{Prepared, Outside}
use vpn_suite.Issue.Peer.{issued_config, add_verified, ensure_device_peer_on_node, lists_key}
use vpn_suite.Issue.Device.{is_direct}
use vpn_suite.Issue.Admin.{AdminError}
use vpn_suite.Issue.Admin.Rotate.{
  Rotation, missing_after_rotate, write_rotation, rotation_of, drop_old, renewed, put_new,
  rotate_found, admin_rotate_peer,
}

module _ (a : Adapter) (x : IsExact a)
    (routed : (n : String) (s : a.State) (m k : String)
      → x.config_at (a.ensure_reply_routes n s).1 m k ≡ x.config_at s m k) where
  add_peer-other :
      (node m k : String) (p : PeerConfigLike) (s : a.State)
      → (p.public_key == k) ≡ false
      → x.config_at (a.add_peer node p s).1 m k ≡ x.config_at s m k
  add_peer-other node m k p s differs = x.add_peer_others node p s m k (ground arith)

  add_verified-other :
      (node m k missing : String) (p : PeerConfigLike) (s : a.State)
      → (p.public_key == k) ≡ false
      → x.config_at (add_verified a node p missing s).1 m k ≡ x.config_at s m k
  unfolding add_verified
  add_verified-other node m k missing p s differs =
      let s' = (a.add_peer node p s).1 in
      let kept = add_peer-other node m k p s differs in
      elim (Outcome-cases (a.add_peer node p s).0) [
        | inr (e, raises) ↦ ground arith
        | inl returns ↦ elim (Outcome-cases (a.list_peers node s').0) [
          | inr (e, raises) ↦ ground arith
          | inl listed ↦ elim (Bool-cases (lists_key p.public_key (a.list_peers node s').1)) [
            | inr unlisted ↦ ground arith
            | inl there ↦ ground arith
          ]
        ]
      ]

  ensured-other :
      (node m key k allowed : String) (psk : Option String) (s : a.State)
      → (strip key == k) ≡ false
      → x.config_at (ensure_device_peer_on_node a node key allowed psk s).1 m k ≡ x.config_at s m k
  unfolding ensure_device_peer_on_node
  ensured-other node m key k allowed psk s differs =
      let config = issued_config (strip key) (strip allowed) psk in
      let s' = (a.add_peer node config s).1 in
      let kept = add_peer-other node m k config s differs in
      let here = routed node s m k in
      let there = routed node s' m k in
      elim (Outcome-cases (a.list_peers node s).0) [
        | inr (e, raises) ↦ ground arith
        | inl listed ↦ elim (Bool-cases (lists_key (strip key) (a.list_peers node s).1)) [
          | inl known ↦ ground arith
          | inr missing ↦ elim (Outcome-cases (a.add_peer node config s).0) [
            | inr (e, raises) ↦ ground arith
            | inl returns ↦ ground arith
          ]
        ]
      ]

module _ (rt : Runtime) (x : IsExact rt.adapter)
    (routed : (n : String) (s : rt.adapter.State) (m k : String)
      → x.config_at (rt.adapter.ensure_reply_routes n s).1 m k ≡ x.config_at s m k)
    (has_runtime : Bool) (o : Outside) (settings : IssueSettings) (g : Generated)
    (trimmed : strip g.public_key ≡ g.public_key) where
  open rt use {adapter}

  put_new-other :
      (found : Rotation) (p : Prepared) (configs : String × String × String)
      (t : Tables adapter.State) (m k : String)
      → (g.public_key == k) ≡ false
      → x.config_at (put_new rt has_runtime o settings g found p configs t).1.nodes m k
        ≡ x.config_at t.nodes m k
  unfolding put_new
  put_new-other found p configs t m k differs =
      let config = issued_config g.public_key p.allowed_ips (some p.preshared_key) in
      let node = found.server.id in
      let added = add_verified adapter node config missing_after_rotate t.nodes in
      let ensured =
        ensure_device_peer_on_node adapter node g.public_key p.allowed_ips (some p.preshared_key)
          added.1 in
      let first_kept : x.config_at added.1 m k ≡ x.config_at t.nodes m k =
        add_verified-other adapter x routed node m k missing_after_rotate config t.nodes differs in
      let then_kept : x.config_at ensured.1 m k ≡ x.config_at added.1 m k =
        ensured-other adapter x routed node m g.public_key k p.allowed_ips (some p.preshared_key)
          added.1 (ap (λ (j : String). j == k) trimmed ∙ differs) in
      elim (Bool-cases (is_direct settings && has_runtime)) [
        | inr elsewhere ↦ ground arith
        | inl direct ↦ elim (Outcome-cases added.0) [
          | inr (e, raises) ↦ ground arith
          | inl returns ↦ elim (Outcome-cases ensured.0) [
            | inr (e, raises) ↦ ground arith
            | inl holds ↦ ground arith
          ]
        ]
      ]

  rotate_found-other :
      (found : Rotation) (t : Tables adapter.State) (m k : String)
      → (g.public_key == k) ≡ false
      → x.config_at (rotate_found rt has_runtime o settings g found t).1.nodes m k
        ≡ x.config_at (drop_old rt has_runtime o settings found t.nodes) m k
  unfolding rotate_found
  rotate_found-other found t m k differs =
      let t' : Tables adapter.State = record t {
        nodes = drop_old rt has_runtime o settings found t.nodes;
      } in
      elim (Result-cases (renewed rt has_runtime o settings g found t')) [
        | inr (e, refused) ↦ ground arith
        | inl (made, ready) ↦
            let u = write_rotation rt has_runtime o settings g found made.0 t' in
            let ends : rotate_found rt has_runtime o settings g found t
                ≡ put_new rt has_runtime o settings g found made.0 made.1 u =
              ground arith in
            ap
              (λ (y : Result AdminError (String × String × String) × Tables adapter.State).
                x.config_at y.1.nodes m k)
              ends
            ∙ put_new-other found made.0 made.1 u m k differs
      ]

  gone :
      (node key : String) (q : Option PeerConfigLike)
      → (if node == node && key == key then none else q) ≡ none
  gone node key q = rw (==_refl node, ==_refl key) refl

  -- Where the request itself puts peers on nodes, a rotation that passes its checks and whose removal
  -- of the old key returns leaves the node without that key, whatever it answers, also where it
  -- raises afterwards. A removal that returns drops the key, an addition touches no key but its own,
  -- whether it raises or not, the call for reply routes changes no peer, and the generated key is not
  -- the old one and has no space around it.
  pub rotated_key_gone :
      (server_id peer_id : String) (t : Tables adapter.State) (found : Rotation)
      → rotation_of rt has_runtime o settings server_id peer_id g t ≡ ok found
      → is_direct settings ≡ true
      → has_runtime ≡ true
      → (adapter.remove_peer found.server.id found.device.public_key t.nodes).0 ≡ returned
      → (g.public_key == found.device.public_key) ≡ false
      → x.config_at
          (admin_rotate_peer rt has_runtime o settings server_id peer_id g t).1.nodes
          found.server.id
          found.device.public_key
        ≡ none
  unfolding admin_rotate_peer drop_old
  rotated_key_gone server_id peer_id t found checked direct there removed differs =
      let node = found.server.id in
      let old = found.device.public_key in
      let starts : admin_rotate_peer rt has_runtime o settings server_id peer_id g t
          ≡ rotate_found rt has_runtime o settings g found t =
        ground arith in
      let drops : drop_old rt has_runtime o settings found t.nodes
          ≡ (adapter.remove_peer node old t.nodes).1 =
        ground arith in
      ap
        (λ (y : Result AdminError (String × String × String) × Tables adapter.State).
          x.config_at y.1.nodes node old)
        starts
      ∙ rotate_found-other found t node old differs
      ∙ ap (λ (s : adapter.State). x.config_at s node old) drops
      ∙ x.remove_peer_drops node old t.nodes removed node old
      ∙ gone node old (x.config_at t.nodes node old)
