-- ===== src/Reconcile/Round.antt =====
-- One round of `reconcile_node`, from the diff to the calls: what the node holds afterwards, and
-- that a second round against the same database is empty.
use vpn_suite.Prelude.{
  ◌≡◌, refl, ap, true, false, List, [], ◌∷◌, none, arith, String, ◌∙◌, string_eq, ==_refl, is_some,
  ◌&&◌, not,
}
use vpn_suite.Reconcile.Peer.{PeerConfigLike, DbPeer, WgPeer, find_config, has_key}
use vpn_suite.Reconcile.Diff.{ReconciliationDiff, compute_diff}
use vpn_suite.Reconcile.Diff.Exact.{
  wanted, reported, planned_add, planned_update, compute_diff_exact,
}
use vpn_suite.Reconcile.Apply.{NodeRuntime, IsFaithful, Settings, apply_diff}
use vpn_suite.Reconcile.Apply.Converges.{
  apply_diff-peer_at, settled, overlay-planned, settled-planned,
}

abbrev pub no_diff : ReconciliationDiff
no_diff = record { peers_to_add = []; peers_to_remove = []; peers_to_update = [] }

nil_of_find_config : (cs : List PeerConfigLike) → ((k : String) → find_config k cs ≡ none) → cs ≡ []
nil_of_find_config [] h = refl
nil_of_find_config (c ∷ cs) h = ground (arith, h c.public_key, ==_refl c.public_key)

nil_of_has_key : (ks : List String) → ((k : String) → has_key k ks ≡ false) → ks ≡ []
nil_of_has_key [] h = refl
nil_of_has_key (k ∷ ks) h = ground (arith, h k, ==_refl k)

no_diff_of_parts :
    (d : ReconciliationDiff)
    → d.peers_to_add ≡ []
    → d.peers_to_remove ≡ []
    → d.peers_to_update ≡ []
    → d ≡ no_diff
no_diff_of_parts d a b c =
    λ i. record { peers_to_add = a i; peers_to_remove = b i; peers_to_update = c i }

module _ (r : NodeRuntime) (f : IsFaithful r) (settings : Settings)
    (live : settings.reconciliation_read_only ≡ false)
    (orphans : settings.reconciliation_remove_orphans ≡ true) (db : List DbPeer) (wg : List WgPeer)
    (s : r.State) (listed : (k : String) → reported wg k ≡ f.peer_at s k)
    (clean : (apply_diff r settings (compute_diff db wg) s).0.errors ≡ []) where
  abbrev after : r.State
  after = (apply_diff r settings (compute_diff db wg) s).1

  -- If the listing `wg` tells what the node holds, the adapter's calls do what they are asked
  -- unless they report a failure, and the round has no error, with orphan removal
  -- enabled and outside read-only mode, then for every key: without a row of the database the
  -- node has no such peer; with a row, a missing peer has been set if its address is valid, a
  -- replaceable value has been replaced by the row's, and any other value is as it was.
  pub round_settles : (k : String) → f.peer_at after k ≡ settled (wanted db k) (f.peer_at s k)
  round_settles k =
      let (a, b, c) = compute_diff_exact db wg k in
      apply_diff-peer_at r f settings (compute_diff db wg) s live orphans clean k
      ∙ overlay-planned (wanted db k) (f.peer_at s k) k _ _ _
          (a ∙ ap (λ o. planned_add (wanted db k) o k) (listed k))
          (b ∙ ap (λ o. is_some o && not (is_some (wanted db k))) (listed k))
          (c ∙ ap (λ o. planned_update (wanted db k) o k) (listed k))

  module _ (wg' : List WgPeer) (listed' : (k : String) → reported wg' k ≡ f.peer_at after k) where
    still_planned : (k : String) → reported wg' k ≡ settled (wanted db k) (f.peer_at s k)
    still_planned k = listed' k ∙ round_settles k

    -- After a round without errors, with orphan removal enabled, outside read-only mode and on
    -- listings that tell what the node holds before and after it, the next diff against the same
    -- database is empty.
    pub round_stable : compute_diff db wg' ≡ no_diff
    round_stable =
        let settled_at = λ (k : String). settled-planned (wanted db k) (f.peer_at s k) k in
        let exact = λ (k : String). compute_diff_exact db wg' k in
        no_diff_of_parts (compute_diff db wg')
          (nil_of_find_config _ (λ k. (exact k).0 ∙ rw (still_planned k) (settled_at k).0))
          (nil_of_has_key _ (λ k. (exact k).1 ∙ rw (still_planned k) (settled_at k).1))
          (nil_of_find_config _ (λ k. (exact k).2 ∙ rw (still_planned k) (settled_at k).2))
