-- ===== src/NodeAgent/Cycle/Converges.antt =====
-- A cycle whose budget covers its work, with commands that all succeed.
use vpn_suite.Prelude.{
  Bool, Bool-cases, ◌==◌, all-filter_still, ℕ, zero, suc, ◌+◌, ◌≤◌, String, true, false, ◌&&◌, ◌||◌,
  not, Option, none, some, ◌≡◌, ◌≢◌, refl, arith, if◌then◌else◌, List, [], ◌∷◌, Dict, is_empty, ◌⊎◌,
  inl, inr, Option-cases, length, All, lookup, contains, is_some, is_truthy, string_eq, ◌∙◌, strip,
  insert, or_text, HasUniqueKeys, find_last, find_last-filter, contains-filter,
  insert-HasUniqueKeys, eq_iff,
}
use mathlib.Core.Path.{subst}
use mathlib.Core.Option.{some-injective}
use vpn_suite.NodeAgent.Keys.{sanitize_pubkey, sanitize_iface, sanitize_container}
use vpn_suite.NodeAgent.Plan.{
  DesiredPeer, Spec, Peer, spec_of, desired_map_from, runtime_map_from, to_add, to_remove,
  to_update, needs_update, is_stale,
}
use vpn_suite.NodeAgent.Cycle.{
  WgTool, is_clear, is_apart, IsFaithful, IsReliable, Options, set_peers, remove_peers, mutate,
  guarded, reconcile,
}
use vpn_suite.NodeAgent.Cycle.Starves.{set_peers-left, finish-peer_at}

abbrev overlaid : Option Spec → Option String → Option String
overlaid none old = old
overlaid (some spec) old = some spec.allowed_ips

-- What a list of settings leaves for a key.
abbrev overlay : List (String × Spec) → String → Option String → Option String
overlay es k old = overlaid (find_last k es) old

-- The keys that the agent would remove are keys that it accepts.
abbrev pub AreRemovable : List (String × Peer) → Type 0
AreRemovable es = All (λ e. sanitize_pubkey e.0 ≡ some e.0) es

desired_map_from-HasUniqueKeys :
    (ps : List DesiredPeer) (m m' : Dict String Spec)
    → HasUniqueKeys m
    → desired_map_from m ps ≡ some m'
    → HasUniqueKeys m'
unfolding desired_map_from
desired_map_from-HasUniqueKeys [] m m' u h =
    subst (λ (x : Dict String Spec). HasUniqueKeys x) (some-injective m m' h) u
desired_map_from-HasUniqueKeys (p ∷ ps) m m' u h =
    elim (Option-cases (sanitize_pubkey (strip (or_text p.public_key "")))) [
      | inl bad ↦ absurd (ground arith)
      | inr (pk, good) ↦
          desired_map_from-HasUniqueKeys ps (insert pk (spec_of p) m) m'
            (insert-HasUniqueKeys pk (spec_of p) m u) (ground arith)
    ]

module _ (t : WgTool) (f : IsFaithful t) (ok : IsReliable t) where
  -- What setting leaves for a key, if no other key's addresses take it away.
  set_peers-peer_at :
      (k : String) (v : Option String) (es : List (String × Spec)) (left done : ℕ) (s : t.State)
      → length es ≤ left
      → is_apart f.shares k v es ≡ true
      → overlay es k (f.peer_at s k) ≡ v
      → f.peer_at (set_peers t es (left, done, s)).2 k ≡ v
  unfolding set_peers
  set_peers-peer_at k v [] left done s h apart sum = sum
  set_peers-peer_at k v (e ∷ es) zero done s h apart sum = absurd (omega arith)
  set_peers-peer_at k v (e ∷ es) (suc left) done s h apart sum =
      let s' = (t.set_peer e.0 e.1 s).1 in
      let fine = ok.set_ok e.0 e.1 s in
      let next : overlay es k (f.peer_at s' k) ≡ v = elim (Bool-cases (e.0 == k)) [
        | inl same ↦
            let put : f.peer_at s' k ≡ some e.1.allowed_ips =
              subst (λ (j : String). f.peer_at s' j ≡ some e.1.allowed_ips) ((eq_iff e.0 k).0 same)
                (f.set_peer_sets e.0 e.1 s fine) in
            ground (arith, put, same)
        | inr differs ↦ elim (Option-cases (find_last k es)) [
          | inr (w, later) ↦ ground (arith, later)
          | inl never ↦
              let now_there : f.peer_at s k ≡ v = ground (arith, never, differs) in
              let clear : is_clear f.shares e.1.allowed_ips (f.peer_at s k) ≡ true =
                rw now_there (ground (arith, differs)) in
              let kept = f.set_peer_keeps e.0 e.1 s fine k differs clear in
              ground (arith, never, now_there, kept)
        ]
      ] in
      let rest = set_peers-peer_at k v es left (done + 1) s' (omega arith) (ground arith) next in
      ground (arith, fine, rest)

  remove_peers-peer_at :
      (k : String) (es : List (String × Peer)) (left done : ℕ) (s : t.State)
      → length es ≤ left
      → AreRemovable es
      → f.peer_at (remove_peers t es (left, done, s)).1 k
        ≡ (if contains k es then none else f.peer_at s k)
  unfolding remove_peers
  remove_peers-peer_at k [] left done s h valid = refl
  remove_peers-peer_at k (e ∷ es) zero done s h valid = absurd (omega arith)
  remove_peers-peer_at k (e ∷ es) (suc left) done s h valid =
      let s' = (t.remove_peer e.0 s).1 in
      ground (
        arith,
        ok.remove_ok e.0 s,
        f.remove_peer_drops e.0 s (ok.remove_ok e.0 s) k,
        remove_peers-peer_at k es left (done + 1) s' (omega arith) valid.1,
      )

-- What a cycle plans for a key, and what the interface shows of it.
abbrev pub shown : Option Peer → Option String
shown none = none
shown (some rp) = some (strip rp.allowed_ips)

-- The value of a key after a cycle that could do all its work.
abbrev pub desired_value : Option Spec → Option String → Option String
desired_value none old = none
desired_value (some spec) none = some spec.allowed_ips
desired_value (some spec) (some v) =
    if is_truthy spec.allowed_ips || is_some spec.preshared_key
    then some spec.allowed_ips
    else some v

cycle_value :
    (want : Option Spec) (have : Option Peer) (k : String) (runtime : Dict String Peer)
    → lookup k runtime ≡ have
    → let updated : Option Spec = elim want [
      | none ↦ none
      | some v ↦ if needs_update runtime (k, v) then some v else none
    ] in
      let added : Option Spec = elim want [
        | none ↦ none
        | some v ↦ if not (is_some have) then some v else none
      ] in
      (if is_some have && not (is_some want)
        then none
        else overlaid updated (overlaid added (shown have)))
      ≡ desired_value want (shown have)
unfolding needs_update is_stale
cycle_value none none k runtime h = refl
cycle_value none (some rp) k runtime h = refl
cycle_value (some spec) none k runtime h = ground arith
cycle_value (some spec) (some rp) k runtime h =
    ground (arith, eq_iff spec.allowed_ips (strip rp.allowed_ips))

module _ (t : WgTool) (f : IsFaithful t) (ok : IsReliable t) where
  mutate-value :
      (max_mutations : ℕ) (desired : Dict String Spec) (runtime : Dict String Peer) (s : t.State)
      (k : String)
      → HasUniqueKeys desired
      → AreRemovable (to_remove desired runtime)
      → length (to_add runtime desired)
          + length (to_update runtime desired)
          + length (to_remove desired runtime)
        ≤ max_mutations
      → f.peer_at s k ≡ shown (lookup k runtime)
      → is_apart f.shares k (desired_value (lookup k desired) (f.peer_at s k)) desired ≡ true
      → f.peer_at (mutate t max_mutations desired runtime s).1 k
        ≡ desired_value (lookup k desired) (f.peer_at s k)
  unfolding mutate to_add to_update to_remove
  mutate-value max_mutations desired runtime s k unique removable enough listed apart =
      let adds = to_add runtime desired in
      let updates = to_update runtime desired in
      let removes = to_remove desired runtime in
      let (left, added, s₁) = set_peers t adds (max_mutations, 0, s) in
      let (left', updated, s₂) = set_peers t updates (left, 0, s₁) in
      let fewer = set_peers-left t f ok adds max_mutations 0 s in
      let fewest = set_peers-left t f ok updates left 0 s₁ in
      let v = desired_value (lookup k desired) (f.peer_at s k) in
      let clear : (String × Spec) → Bool = λ e. e.0 == k || is_clear f.shares e.1.allowed_ips v in
      let found_updates = find_last-filter (needs_update runtime) k desired unique in
      let found_adds = find_last-filter (λ x. not (contains x.0 runtime)) k desired unique in
      let orphaned = contains-filter (λ j. not (contains j desired)) k runtime in
      let value = cycle_value (lookup k desired) (lookup k runtime) k runtime refl in
      let removed =
        remove_peers-peer_at t f ok k removes left' 0 s₂ (omega (arith, fewer, fewest)) removable in
      let apart_adds : is_apart f.shares k v adds ≡ true =
        all-filter_still (λ x. not (contains x.0 runtime)) clear desired apart in
      let apart_updates : is_apart f.shares k v updates ≡ true =
        all-filter_still (needs_update runtime) clear desired apart in
      finish-peer_at t f ok added updated (remove_peers t removes (left', 0, s₂)) k
      ∙ removed
      ∙ elim (Bool-cases (contains k removes)) [
        | inl orphan ↦ ground (arith, orphan, orphaned, value, listed)
        | inr kept ↦
            let after_adds : find_last k updates ≡ none → f.peer_at s₁ k ≡ v = λ never.
              set_peers-peer_at t f ok k v adds max_mutations 0 s (omega arith) apart_adds
                (ground (arith, kept, never, found_updates, found_adds, orphaned, value, listed)) in
            let ended : f.peer_at s₂ k ≡ v =
              set_peers-peer_at t f ok k v updates left 0 s₁ (omega (arith, fewer)) apart_updates
                (elim (Option-cases (find_last k updates)) [
                  | inl never ↦ ground (arith, never, after_adds never)
                  | inr (w, later) ↦
                      ground
                        (arith, kept, later, found_updates, found_adds, orphaned, value, listed)
                ]) in
            ground (arith, kept, ended)
      ]

  -- The cycle's conditions: writing is enabled, the guard against an empty desired state does not
  -- hold, the names and keys are valid, and the budget covers the planned commands.
  module _ (o : Options) (desired : List DesiredPeer) (runtime : List Peer) (s : t.State)
      (m : Dict String Spec) (writes : o.read_only ≡ false)
      (allowed : (is_empty m ≡ false) ⊎ (o.allow_prune_empty ≡ true))
      (named : (sanitize_iface o.iface ≢ none) × (sanitize_container o.container ≢ none))
      (built : desired_map_from [] desired ≡ some m)
      (removable : AreRemovable (to_remove m (runtime_map_from [] runtime)))
      (enough : length (to_add (runtime_map_from [] runtime) m)
          + length (to_update (runtime_map_from [] runtime) m)
          + length (to_remove m (runtime_map_from [] runtime))
        ≤ o.max_mutations)
      (listed : (k : String) → f.peer_at s k ≡ shown (lookup k (runtime_map_from [] runtime))) where
    -- A cycle that no guard stops, with a budget for all that it plans, orphans whose keys are well
    -- formed, commands that all succeed and do what they are asked, and a listing that tells what
    -- the interface shows, leaves for every key what the desired state says, if that has no address
    -- in common with another desired peer, which would take it: nothing for a key that is not
    -- desired; the desired addresses for one that was missing, has addresses to set or has a
    -- preshared key; and the old value for one that has neither.
    pub reconcile-value :
        (k : String)
        → is_apart f.shares k (desired_value (lookup k m) (f.peer_at s k)) m ≡ true
        → f.peer_at (reconcile t o desired runtime s).1 k
          ≡ desired_value (lookup k m) (f.peer_at s k)
    unfolding reconcile guarded
    reconcile-value k apart =
        let unique = desired_map_from-HasUniqueKeys desired [] m tt built in
        ground (
          arith,
          mutate-value o.max_mutations m (runtime_map_from [] runtime) s k unique removable enough
              (listed k) apart,
        )
