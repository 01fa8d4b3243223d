-- ===== src/Devices/Handlers/Settles.antt =====
-- A suspension, and the round of the reconciliation that follows it.
use vpn_suite.Prelude.{
  ℕ, String, Bool, true, false, not, ◌&&◌, none, some, List, [], ◌∷◌, string_eq, is_some, any, ok,
  ◌≡◌, refl, sym, ap, ◌∙◌, arith, inl, inr, Bool-cases,
}
use vpn_suite.Payments.Records.{update_where}
use vpn_suite.Devices.Rows.{Device, is_row}
use vpn_suite.Reconcile.Diff.Exact.{reported}
use vpn_suite.Reconcile.Apply.{IsFaithful, ReconciliationResult, Settings}
use vpn_suite.Reconcile.Nodes.{Adapter, at_node, World, reconcile_node, result, ids_of}
use vpn_suite.Reconcile.Nodes.Settles.{stands_for, revoked_key_gone}
use vpn_suite.Devices.Handlers.{
  HandlerSettings, done, find_device, suspended, change_device, suspend_device,
}

-- A device of a key other than the row.
abbrev pub stands_beside : String → List String → String → Device → Bool
stands_beside id ids k d = not (is_row id d) && stands_for ids k d

any-suspended :
    (id : String) (now : ℕ) (ids : List String) (k : String) (ds : List Device)
    → any (stands_for ids k) (update_where (is_row id) (suspended (some now)) ds)
      ≡ any (stands_beside id ids k) ds
any-suspended id now ids k [] = refl
any-suspended id now ids k (d ∷ ds) = ground (arith, any-suspended id now ids k ds)

module _ (a : Adapter) (f : (node : String) → IsFaithful (at_node a node)) (settings : Settings)
    (handlers : HandlerSettings) (now later : ℕ) (live : settings.reconciliation_read_only ≡ false)
    (orphans : settings.reconciliation_remove_orphans ≡ true) (node_id : String)
    (server_ids : List String) (w : World a.State)
    (listed : (k : String)
      → reported (a.list_peers node_id w.nodes).1 k ≡ (f node_id).peer_at w.nodes k)
    (routed : (k : String)
      → (f node_id).peer_at (a.ensure_reply_routes node_id w.nodes).1 k
        ≡ (f node_id).peer_at w.nodes k) where
  suspends :
      (id : String) (d : Device) (w' : World a.State)
      → suspend_device handlers now id w ≡ (ok done, w')
      → find_device id w.devices ≡ some d
      → d.suspended_at ≡ none
      → w' ≡ change_device handlers now id (suspended (some now)) w
  unfolding suspend_device
  suspends id d w' ran found active = elim (Bool-cases (is_some d.revoked_at)) [
    | inl gone ↦ absurd (ground arith)
    | inr standing ↦ ground arith
  ]

  -- Where a device is suspended that was not, and no other standing device of the node has its key,
  -- the next round of the node that returns a result without errors leaves no peer under the key.
  -- The round is outside read-only mode and removes orphans, the adapter does what it says, its
  -- listing tells what the node holds, and its call for reply routes changes no peer.
  pub suspended_key_gone :
      (id : String) (d : Device) (w' w'' : World a.State) (res : ReconciliationResult)
      → suspend_device handlers now id w ≡ (ok done, w')
      → find_device id w.devices ≡ some d
      → d.suspended_at ≡ none
      → any (stands_beside id (ids_of node_id server_ids) d.public_key) w.devices ≡ false
      → reconcile_node a settings later false node_id server_ids w' ≡ (result res, w'')
      → res.errors ≡ []
      → (f node_id).peer_at w''.nodes d.public_key ≡ none
  suspended_key_gone id d w' w'' res ran found active alone round clean =
      let W = change_device handlers now id (suspended (some now)) w in
      let same : w' ≡ W = suspends id d w' ran found active in
      revoked_key_gone a f settings later live orphans node_id server_ids W listed routed res w''
        (ap (λ v. reconcile_node a settings later false node_id server_ids v) (sym same) ∙ round)
        clean d.public_key
        (any-suspended id now (ids_of node_id server_ids) d.public_key w.devices ∙ alone)
