-- ===== src/NodeAgent/Cycle/Starves.antt =====
-- Removals come last and share the budget with updates, and every desired peer with a preshared
-- key counts as an update in every cycle.
use vpn_suite.Prelude.{
  false, ◌==◌, ◌||◌, all-filter_still, ℕ, zero, suc, ◌+◌, ◌-◌, ◌≤◌, String, Bool, true, ◌&&◌, not,
  Option, none, some, ◌≡◌, refl, arith, List, [], ◌∷◌, Dict, length, filter, lookup, contains,
  is_some, string_eq, length-filter_mono, lookup-filter-none, ◌∙◌, ap,
}
use vpn_suite.NodeAgent.Plan.{
  DesiredPeer, Spec, Peer, desired_map_from, runtime_map_from, to_add, to_remove, to_update,
  needs_update, is_stale,
}
use vpn_suite.NodeAgent.Cycle.{
  WgTool, is_clear, is_apart, IsFaithful, IsReliable, Options, set_peers, remove_peers, finish,
  mutate, guarded, reconcile,
}

-- A desired peer that the interface has, with a preshared key.
abbrev pub is_keyed : Dict String Peer → String × Spec → Bool
is_keyed runtime (pk, spec) = contains pk runtime && is_some spec.preshared_key

keyed-needs_update :
    (runtime : Dict String Peer) (x : String × Spec)
    → is_keyed runtime x ≡ true
    → needs_update runtime x ≡ true
unfolding needs_update is_stale
keyed-needs_update runtime x h = ground arith

module _ (t : WgTool) (f : IsFaithful t) (ok : IsReliable t) where
  pub set_peers-left :
      (es : List (String × Spec)) (left done : ℕ) (s : t.State)
      → (set_peers t es (left, done, s)).0 ≡ left - length es
  unfolding set_peers
  set_peers-left [] left done s = omega arith
  set_peers-left (e ∷ es) zero done s = omega arith
  set_peers-left (e ∷ es) (suc left) done s =
      let s' = (t.set_peer e.0 e.1 s).1 in
      ground (arith, ok.set_ok e.0 e.1 s, set_peers-left es left (done + 1) s')

  -- Setting other peers does not touch a key whose addresses are not set.
  set_peers-others :
      (k : String) (es : List (String × Spec)) (left done : ℕ) (s : t.State)
      → lookup k es ≡ none
      → is_apart f.shares k (f.peer_at s k) es ≡ true
      → f.peer_at (set_peers t es (left, done, s)).2 k ≡ f.peer_at s k
  unfolding set_peers
  set_peers-others k [] left done s h apart = refl
  set_peers-others k (e ∷ es) zero done s h apart = refl
  set_peers-others k (e ∷ es) (suc left) done s h apart =
      let s' = (t.set_peer e.0 e.1 s).1 in
      let other : (e.0 == k) ≡ false = ground arith in
      let kept : f.peer_at s' k ≡ f.peer_at s k =
        f.set_peer_keeps e.0 e.1 s (ok.set_ok e.0 e.1 s) k other (ground arith) in
      let still : is_apart f.shares k (f.peer_at s' k) es ≡ true = rw kept (ground arith) in
      ground (arith, ok.set_ok e.0 e.1 s, kept, set_peers-others k es left (done + 1) s', still)

  remove_peers-exhausted :
      (es : List (String × Peer)) (left done : ℕ) (s : t.State)
      → left ≡ 0
      → (remove_peers t es (left, done, s)).1 ≡ s
  unfolding remove_peers
  remove_peers-exhausted [] left done s h = refl
  remove_peers-exhausted (e ∷ es) zero done s h = refl
  remove_peers-exhausted (e ∷ es) (suc left) done s h = absurd (omega arith)

  pub finish-peer_at :
      (added updated : ℕ) (removal : Option (ℕ × ℕ) × t.State) (k : String)
      → f.peer_at (finish t added updated removal).1 k ≡ f.peer_at removal.1 k
  unfolding finish
  finish-peer_at added updated (none, s) k = refl
  finish-peer_at added updated (some (left, removed), s) k = ground (arith, f.save_keeps s k)

  module _ (desired : Dict String Spec) (runtime : Dict String Peer) (max_mutations : ℕ)
      (crowded : max_mutations ≤ length (filter (is_keyed runtime) desired)) (s : t.State)
      (k : String) (orphan : lookup k desired ≡ none)
      (apart : is_apart f.shares k (f.peer_at s k) desired ≡ true) where
    mutate-starves : f.peer_at (mutate t max_mutations desired runtime s).1 k ≡ f.peer_at s k
    unfolding mutate to_add to_update
    mutate-starves =
        let adds = filter (λ x. not (contains x.0 runtime)) desired in
        let updates = filter (needs_update runtime) desired in
        let (left, added, s₁) = set_peers t adds (max_mutations, 0, s) in
        let (left', updated, s₂) = set_peers t updates (left, 0, s₁) in
        let removal = remove_peers t (to_remove desired runtime) (left', 0, s₂) in
        let many =
          length-filter_mono (is_keyed runtime) (needs_update runtime) desired
            (keyed-needs_update runtime) in
        let exhausted : left' ≡ 0 =
          omega (
            arith,
            set_peers-left adds max_mutations 0 s,
            set_peers-left updates left 0 s₁,
            many,
          ) in
        let clear : (String × Spec) → Bool =
          λ e. e.0 == k || is_clear f.shares e.1.allowed_ips (f.peer_at s k) in
        let first_kept : f.peer_at s₁ k ≡ f.peer_at s k =
          set_peers-others k adds max_mutations 0 s (lookup-filter-none _ k desired orphan)
            (all-filter_still (λ x. not (contains x.0 runtime)) clear desired apart) in
        let still : is_apart f.shares k (f.peer_at s₁ k) updates ≡ true =
          rw first_kept (all-filter_still (needs_update runtime) clear desired apart) in
        finish-peer_at added updated removal k
        ∙ ap (λ (x : t.State). f.peer_at x k)
            (remove_peers-exhausted (to_remove desired runtime) left' 0 s₂ exhausted)
        ∙ set_peers-others k updates left 0 s₁
            (lookup-filter-none (needs_update runtime) k desired orphan) still
        ∙ first_kept

  guarded-starves :
      (o : Options) (desired : Dict String Spec) (runtime : Dict String Peer) (s : t.State)
      (k : String)
      → lookup k desired ≡ none
      → o.max_mutations ≤ length (filter (is_keyed runtime) desired)
      → is_apart f.shares k (f.peer_at s k) desired ≡ true
      → f.peer_at (guarded t o desired runtime s).1 k ≡ f.peer_at s k
  unfolding guarded
  guarded-starves o desired runtime s k orphan crowded apart =
      ground (arith, mutate-starves desired runtime o.max_mutations crowded s k orphan apart)

  -- If at least `max_mutations` desired peers that the interface has carry a preshared key, a cycle
  -- whose commands all succeed and do what they are asked leaves every key that is not desired, and
  -- whose addresses are not among those of a desired peer, as it was: an orphan, such as a revoked
  -- peer whose address has not been given away, keeps its place.
  pub reconcile-starves :
      (o : Options) (desired : List DesiredPeer) (runtime : List Peer) (s : t.State) (k : String)
      (m : Dict String Spec)
      → desired_map_from [] desired ≡ some m
      → lookup k m ≡ none
      → o.max_mutations ≤ length (filter (is_keyed (runtime_map_from [] runtime)) m)
      → is_apart f.shares k (f.peer_at s k) m ≡ true
      → f.peer_at (reconcile t o desired runtime s).1 k ≡ f.peer_at s k
  unfolding reconcile
  reconcile-starves o desired runtime s k m built orphan crowded apart =
      ground (arith, guarded-starves o m (runtime_map_from [] runtime) s k orphan crowded apart)
