-- ===== src/NodeAgent/Cycle/Budget.antt =====
-- The budget of mutations, and the guards that stop a cycle before any command.
use vpn_suite.Prelude.{
  ℕ, zero, suc, ◌+◌, ◌≤◌, String, true, false, Option, none, some, ◌≡◌, refl, arith, List, [], ◌∷◌,
  Dict, is_empty, ◌⊎◌, inl, inr, Option-cases,
}
use vpn_suite.NodeAgent.Keys.{sanitize_pubkey}
use vpn_suite.NodeAgent.Plan.{
  DesiredPeer, Spec, Peer, desired_map_from, runtime_map_from, to_add, to_remove, to_update,
}
use vpn_suite.NodeAgent.Cycle.{
  WgTool, counts, Options, set_peers, remove_peers, finish, mutate, guarded, reconcile,
}

-- The budget left and the mutations done.
abbrev spent {ℓ} : {S : Type ℓ} → ℕ × ℕ × S → ℕ
spent (left, done, s) = left + done

module _ (t : WgTool) where
  -- What a loop does not spend it leaves.
  pub set_peers-spent :
      (es : List (String × Spec)) (left done : ℕ) (s : t.State)
      → spent (set_peers t es (left, done, s)) ≡ left + done
  unfolding set_peers
  set_peers-spent [] left done s = refl
  set_peers-spent (e ∷ es) zero done s = refl
  set_peers-spent (e ∷ es) (suc left) done s =
      let (ok, s') = t.set_peer e.0 e.1 s in
      ground (arith, set_peers-spent es left (done + 1) s', set_peers-spent es (suc left) done s')

  pub remove_peers-spent :
      (es : List (String × Peer)) (left done : ℕ) (s : t.State) (left' done' : ℕ)
      → (remove_peers t es (left, done, s)).0 ≡ some (left', done')
      → left' + done' ≡ left + done
  unfolding remove_peers
  remove_peers-spent [] left done s left' done' h = ground arith
  remove_peers-spent (e ∷ es) zero done s left' done' h = ground arith
  remove_peers-spent (e ∷ es) (suc left) done s left' done' h =
      elim (Option-cases (sanitize_pubkey e.0)) [
        | inl bad ↦ ground arith
        | inr (k, good) ↦
            let (ok, s') = t.remove_peer k s in
            ground (
              arith,
              remove_peers-spent es left (done + 1) s' left' done',
              remove_peers-spent es (suc left) done s' left' done',
            )
      ]

  finish-counts :
      (added updated : ℕ) (removal : Option (ℕ × ℕ) × t.State) (a r u : ℕ)
      → (finish t added updated removal).0 ≡ counts a r u
      → (left : ℕ) × (removal.0 ≡ some (left, r)) × (a ≡ added) × (u ≡ updated)
  unfolding finish
  finish-counts added updated (none, s) a r u h = cc
  finish-counts added updated (some (left, removed), s) a r u h =
      (left, ground arith, ground arith, ground arith)

  mutate-budget :
      (max_mutations : ℕ) (desired : Dict String Spec) (runtime : Dict String Peer) (s : t.State)
      (a r u : ℕ)
      → (mutate t max_mutations desired runtime s).0 ≡ counts a r u
      → a + r + u ≤ max_mutations
  unfolding mutate
  mutate-budget max_mutations desired runtime s a r u h =
      let (left, added, s₁) = set_peers t (to_add runtime desired) (max_mutations, 0, s) in
      let (left', updated, s₂) = set_peers t (to_update runtime desired) (left, 0, s₁) in
      let removal = remove_peers t (to_remove desired runtime) (left', 0, s₂) in
      let (left'', kept, same_a, same_u) = finish-counts added updated removal a r u h in
      omega (
        arith,
        set_peers-spent (to_add runtime desired) max_mutations 0 s,
        set_peers-spent (to_update runtime desired) left 0 s₁,
        remove_peers-spent (to_remove desired runtime) left' 0 s₂ left'' r kept,
      )

  guarded-budget :
      (o : Options) (desired : Dict String Spec) (runtime : Dict String Peer) (s : t.State)
      (a r u : ℕ)
      → (guarded t o desired runtime s).0 ≡ counts a r u
      → a + r + u ≤ o.max_mutations
  unfolding guarded
  guarded-budget o desired runtime s a r u h =
      ground (arith, mutate-budget o.max_mutations desired runtime s a r u)

  -- A cycle that returns its counts has done at most `max_mutations` of them in all.
  pub reconcile-budget :
      (o : Options) (desired : List DesiredPeer) (runtime : List Peer) (s : t.State) (a r u : ℕ)
      → (reconcile t o desired runtime s).0 ≡ counts a r u
      → a + r + u ≤ o.max_mutations
  unfolding reconcile
  reconcile-budget o desired runtime s a r u h = elim (Option-cases (desired_map_from [] desired)) [
    | inl bad ↦ ground arith
    | inr (m, good) ↦ ground (arith, guarded-budget o m (runtime_map_from [] runtime) s a r u)
  ]

  -- In read-only mode, and where the desired state is empty but the interface is not and pruning
  -- to nothing is not allowed, a cycle leaves the interface as it was.
  pub reconcile-frozen :
      (o : Options) (desired : List DesiredPeer) (runtime : List Peer) (s : t.State)
      → ((o.read_only ≡ true)
          ⊎ ((desired ≡ [])
              × (is_empty (runtime_map_from [] runtime) ≡ false)
              × (o.allow_prune_empty ≡ false)))
      → (reconcile t o desired runtime s).1 ≡ s
  unfolding reconcile guarded desired_map_from
  reconcile-frozen o [] runtime s h = ground arith
  reconcile-frozen o (p ∷ ps) runtime s h = elim (Option-cases (desired_map_from [] (p ∷ ps))) [
    | inl bad ↦ ground arith
    | inr (m, good) ↦ ground arith
  ]
