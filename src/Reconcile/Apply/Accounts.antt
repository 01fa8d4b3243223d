-- ===== src/Reconcile/Apply/Accounts.antt =====
-- The counts of `apply_diff`, for a node that may fail at any call.
use vpn_suite.Prelude.{
  ℕ, ◌+◌, ◌≡◌, true, false, if◌then◌else◌, List, [], ◌∷◌, length, length-snoc, arith, String,
  Bool-cases, inl, inr,
}
use vpn_suite.Reconcile.Peer.{PeerConfigLike}
use vpn_suite.Reconcile.Diff.{ReconciliationDiff}
use vpn_suite.Reconcile.Apply.{
  NodeRuntime, ReconciliationResult, no_result, Settings, remove_one, add_one, update_one, for_each,
  apply_diff, Progress, remove_orphans, write_diff, has_drift,
}

-- The calls that a result accounts for, failed ones included.
abbrev pub handled : ReconciliationResult → ℕ
handled res = res.peers_added + res.peers_removed + res.peers_updated + length res.errors

abbrev pub asked : Settings → ReconciliationDiff → ℕ
asked settings d =
    length d.peers_to_add
    + length d.peers_to_update
    + (if settings.reconciliation_remove_orphans then length d.peers_to_remove else 0)

module _ (r : NodeRuntime) where
  handled-remove_one :
      (k : String) (p : Progress r) → handled (remove_one r k p).0 ≡ handled p.0 + 1
  unfolding remove_one
  handled-remove_one k p = grind (arith, length-snoc)

  handled-add_one :
      (c : PeerConfigLike) (p : Progress r) → handled (add_one r c p).0 ≡ handled p.0 + 1
  unfolding add_one
  handled-add_one c p = grind (arith, length-snoc)

  handled-update_one :
      (c : PeerConfigLike) (p : Progress r) → handled (update_one r c p).0 ≡ handled p.0 + 1
  unfolding update_one
  handled-update_one c p = grind (arith, length-snoc)

  handled-for_each :
      {A : Type 0} (pass : A → Progress r → Progress r)
      → ((x : A) (p : Progress r) → handled (pass x p).0 ≡ handled p.0 + 1)
      → (xs : List A) (p : Progress r) → handled (for_each r pass xs p).0 ≡ handled p.0 + length xs
  unfolding for_each
  handled-for_each pass h [] p = omega arith
  handled-for_each pass h (x ∷ xs) p = omega (arith, h x p, handled-for_each pass h xs (pass x p))

  handled-remove_orphans :
      (settings : Settings) (keys : List String) (p : Progress r)
      → handled (remove_orphans r settings keys p).0
        ≡ handled p.0 + (if settings.reconciliation_remove_orphans then length keys else 0)
  unfolding remove_orphans
  handled-remove_orphans settings keys p =
      elim (Bool-cases settings.reconciliation_remove_orphans) [
        | inl on ↦ rw on (handled-for_each (remove_one r) handled-remove_one keys p)
        | inr off ↦ rw off (omega arith)
      ]

  handled-write_diff :
      (settings : Settings) (d : ReconciliationDiff) (s : r.State)
      → handled (write_diff r settings d s).0 ≡ asked settings d
  unfolding write_diff
  handled-write_diff settings d s =
      let p₁ = remove_orphans r settings d.peers_to_remove (no_result, s) in
      let p₂ = for_each r (add_one r) d.peers_to_add p₁ in
      omega (
        arith,
        handled-remove_orphans settings d.peers_to_remove (no_result, s),
        handled-for_each (add_one r) handled-add_one d.peers_to_add p₁,
        handled-for_each (update_one r) handled-update_one d.peers_to_update p₂,
      )

  -- Unless read-only mode stops it, every planned call is counted once, as done or as an error:
  -- additions, updates, removals and errors add up to the calls that were asked for, whatever
  -- the node answers. Orphans count only where their removal is enabled.
  pub apply_diff-accounts :
      (settings : Settings) (d : ReconciliationDiff) (s : r.State)
      → settings.reconciliation_read_only ≡ false
      → handled (apply_diff r settings d s).0 ≡ asked settings d
  unfolding apply_diff
  apply_diff-accounts settings d s live = rw live (handled-write_diff settings d s)

  pub write_nothing :
      (settings : Settings) (d : ReconciliationDiff) (s : r.State)
      → has_drift d ≡ false
      → write_diff r settings d s ≡ (no_result, s)
  unfolding write_diff
  write_nothing settings d s none_found = ground arith

  -- In read-only mode the node is not touched and nothing is counted.
  pub apply_diff-read_only :
      (settings : Settings) (d : ReconciliationDiff) (s : r.State)
      → settings.reconciliation_read_only ≡ true
      → apply_diff r settings d s ≡ (no_result, s)
  unfolding apply_diff
  apply_diff-read_only settings d s frozen = elim (Bool-cases (has_drift d)) [
    | inl some_drift ↦ rw (frozen, some_drift)
    | inr no_drift ↦ rw (frozen, no_drift) (write_nothing settings d s no_drift)
  ]
