-- ===== src/Reconcile/Nodes/Settles.antt =====
-- What a round of one node leaves on the node, from the devices of the database.
use vpn_suite.Prelude.{
  member, not, is_some, ℕ, String, Bool, true, false, ◌&&◌, none, List, [], ◌∷◌, ◌==◌, string_eq,
  is_truthy, ◌≡◌, refl, arith, Bool-cases, inl, inr, ◌⊎◌, ◌∙◌, ap, sym, any,
}
use vpn_suite.Devices.Rows.{Device}
use vpn_suite.Reconcile.Diff.{ReconciliationDiff, compute_diff}
use vpn_suite.Reconcile.Diff.Exact.{wanted, reported}
use vpn_suite.Reconcile.Apply.{
  Outcome, returned, raised, NodeRuntime, IsFaithful, ReconciliationResult, no_result, Settings,
  has_drift, apply_diff,
}
use vpn_suite.Reconcile.Apply.Accounts.{write_nothing}
use vpn_suite.Reconcile.Apply.Converges.{settled}
use vpn_suite.Reconcile.Round.{round_settles}
use vpn_suite.Reconcile.Nodes.{
  Adapter, at_node, ids_of, is_wanted, db_peers_of, finish_round, round_with, result, World,
  reconcile_node,
}

-- A device that the node should have under a key: of one of its servers, neither revoked nor
-- suspended.
abbrev pub stands_for : List String → String → Device → Bool
stands_for ids k d =
    member d.server_id ids
    && not (is_some d.revoked_at)
    && not (is_some d.suspended_at)
    && is_truthy d.public_key
    && d.public_key == k

-- No such device, no row for the key.
wanted-none :
    (ids : List String) (k : String) (ds : List Device)
    → any (stands_for ids k) ds ≡ false
    → wanted (db_peers_of ids ds) k ≡ none
unfolding db_peers_of is_wanted
wanted-none ids k [] h = refl
wanted-none ids k (d ∷ ds) h = ground (arith, wanted-none ids k ds)

pub Outcome-cases : (o : Outcome) → (o ≡ returned) ⊎ ((e : String) × (o ≡ raised e))
Outcome-cases returned = inl refl
Outcome-cases (raised e) = inr (e, refl)

apply_nothing :
    (r : NodeRuntime) (settings : Settings) (d : ReconciliationDiff) (s : r.State)
    → has_drift d ≡ false
    → apply_diff r settings d s ≡ (no_result, s)
unfolding apply_diff
apply_nothing r settings d s quiet = ground (arith, write_nothing r settings d s quiet)

module _ (a : Adapter) (f : (node : String) → IsFaithful (at_node a node)) (settings : Settings)
    (now : ℕ) (live : settings.reconciliation_read_only ≡ false)
    (orphans : settings.reconciliation_remove_orphans ≡ true) (node_id : String)
    (server_ids : List String) (w : World a.State)
    (listed : (k : String)
      → reported (a.list_peers node_id w.nodes).1 k ≡ (f node_id).peer_at w.nodes k)
    (routed : (k : String)
      → (f node_id).peer_at (a.ensure_reply_routes node_id w.nodes).1 k
        ≡ (f node_id).peer_at w.nodes k) where
  abbrev ids : List String
  ids = ids_of node_id server_ids

  abbrev routed_state : a.State
  routed_state = (a.ensure_reply_routes node_id w.nodes).1

  -- A round that returns has applied the diff, also where the diff is empty.
  round_applied :
      (res : ReconciliationResult) (w' : World a.State)
      → reconcile_node a settings now false node_id server_ids w ≡ (result res, w')
      → apply_diff
          (at_node a node_id)
          settings
          (compute_diff (db_peers_of ids w.devices) (a.list_peers node_id w.nodes).1)
          routed_state
        ≡ (res, w'.nodes)
  unfolding reconcile_node round_with finish_round
  round_applied res w' h =
      let diff = compute_diff (db_peers_of ids w.devices) (a.list_peers node_id w.nodes).1 in
      elim (Outcome-cases (a.list_peers node_id w.nodes).0) [
        | inr (e, raises) ↦ absurd (ground arith)
        | inl returns ↦ elim (Outcome-cases (a.ensure_reply_routes node_id w.nodes).0) [
          | inr (e, raises) ↦ absurd (ground arith)
          | inl returns' ↦ elim (Bool-cases (has_drift diff)) [
            | inl drift ↦ ground arith
            | inr quiet ↦
                ground (arith, apply_nothing (at_node a node_id) settings diff routed_state quiet)
          ]
        ]
      ]

  -- After a round that returns a result without errors, outside read-only mode and with orphan
  -- removal, on a listing that tells what the node holds, every key is settled as the devices of the
  -- database say that belong to the node and are neither revoked nor suspended.
  pub reconcile_node-settles :
      (res : ReconciliationResult) (w' : World a.State)
      → reconcile_node a settings now false node_id server_ids w ≡ (result res, w')
      → res.errors ≡ []
      → (k : String)
      → (f node_id).peer_at w'.nodes k
        ≡ settled (wanted (db_peers_of ids w.devices) k) ((f node_id).peer_at w.nodes k)
  reconcile_node-settles res w' h clean k =
      let ran = round_applied res w' h in
      let row = wanted (db_peers_of ids w.devices) k in
      ap (λ (x : ReconciliationResult × a.State). (f node_id).peer_at x.1 k) (sym ran)
      ∙ round_settles (at_node a node_id) (f node_id) settings live orphans
          (db_peers_of ids w.devices) (a.list_peers node_id w.nodes).1 routed_state
          (λ j. listed j ∙ sym (routed j))
          (ap (λ (x : ReconciliationResult × a.State). x.0.errors) ran ∙ clean) k
      ∙ ap (settled row) (routed k)

  -- A round of a node that returns a result without errors, outside read-only mode and with orphan
  -- removal, leaves no peer under a key for which no standing device of the node stands, so that a
  -- key whose devices are all revoked, suspended or of other nodes is gone. The adapter does what it
  -- says, its listing tells what the node holds, and its call for reply routes changes no peer.
  pub revoked_key_gone :
      (res : ReconciliationResult) (w' : World a.State)
      → reconcile_node a settings now false node_id server_ids w ≡ (result res, w')
      → res.errors ≡ []
      → (k : String) → any (stands_for ids k) w.devices ≡ false
      → (f node_id).peer_at w'.nodes k ≡ none
  revoked_key_gone res w' h clean k nobody =
      reconcile_node-settles res w' h clean k
      ∙ ap (λ row. settled row ((f node_id).peer_at w.nodes k)) (wanted-none ids k w.devices nobody)
