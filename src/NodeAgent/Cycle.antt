-- ===== src/NodeAgent/Cycle.antt =====
-- The second half of `_reconcile`: the guards, and the commands under the budget of mutations.
pub mod Budget
pub mod Converges
pub mod Starves
use vpn_suite.Prelude.{
  all, ℕ, zero, suc, ◌+◌, ◌-◌, String, Bool, true, false, ◌&&◌, ◌||◌, not, Option, none, some, ◌≡◌,
  if◌then◌else◌, List, [], ◌∷◌, Dict, is_empty, nat_beq, ◌==◌, string_eq,
}
use vpn_suite.NodeAgent.Keys.{sanitize_pubkey, sanitize_iface, sanitize_container}
use vpn_suite.NodeAgent.Plan.{
  DesiredPeer, Spec, Peer, desired_map_from, runtime_map_from, to_add, to_remove, to_update,
}

-- The commands that the agent runs in the container, with the state of the interface written out.
-- The Boolean is `code == 0`.
pub record WgTool : Type 1 where
  pub State : Type 0
  pub set_peer : String → Spec → State → Bool × State
  pub remove_peer : String → State → Bool × State
  pub save : State → State

-- The addresses have none in common with what the interface shows for a key.
abbrev pub is_clear : (String → String → Bool) → String → Option String → Bool
is_clear shares allowed none = true
is_clear shares allowed (some v) = not (shares allowed v)

-- What `awg set` and `awg-quick save` do when they succeed: `peer_at s k` is the value of allowed
-- addresses that the interface shows for a key. An address that is set moves from the peer that had
-- it; `shares` says that two values have an address in common.
pub record IsFaithful (t : WgTool) : Type 1 where
  pub peer_at : t.State → String → Option String
  pub shares : String → String → Bool
  pub set_peer_sets :
      (j : String) (spec : Spec) (s : t.State)
      → (t.set_peer j spec s).0 ≡ true
      → peer_at (t.set_peer j spec s).1 j ≡ some spec.allowed_ips
  pub set_peer_keeps :
      (j : String) (spec : Spec) (s : t.State)
      → (t.set_peer j spec s).0 ≡ true
      → (k : String) → (j == k) ≡ false
      → is_clear shares spec.allowed_ips (peer_at s k) ≡ true
      → peer_at (t.set_peer j spec s).1 k ≡ peer_at s k
  pub remove_peer_drops :
      (j : String) (s : t.State)
      → (t.remove_peer j s).0 ≡ true
      → (k : String) → peer_at (t.remove_peer j s).1 k ≡ (if j == k then none else peer_at s k)
  pub save_keeps : (s : t.State) (k : String) → peer_at (t.save s) k ≡ peer_at s k

-- No entry of another key has an address in common with the key's value.
abbrev pub is_apart :
    (String → String → Bool) → String → Option String → List (String × Spec) → Bool
is_apart shares k v es = all (λ e. e.0 == k || is_clear shares e.1.allowed_ips v) es

-- Every command succeeds.
pub record IsReliable (t : WgTool) : Type 0 where
  pub set_ok : (j : String) (spec : Spec) (s : t.State) → (t.set_peer j spec s).0 ≡ true
  pub remove_ok : (j : String) (s : t.State) → (t.remove_peer j s).0 ≡ true

-- The counts that `_reconcile` returns, or its `ValueError`.
pub data CycleResult : Type 0 where
  invalid_name : CycleResult
  counts : ℕ → ℕ → ℕ → CycleResult

pub record Options : Type 0 where
  pub container : String
  pub iface : String
  pub max_mutations : ℕ
  pub read_only : Bool
  pub allow_prune_empty : Bool

module _ (t : WgTool) where
  open t use {State, set_peer, remove_peer, save}

  -- `mutations_left`, the count of the loop, and the interface.
  abbrev pub Work : Type 0
  Work = ℕ × ℕ × State

  -- The loop over `to_add`, and the one over `to_update`: both set the peer. A failed command uses
  -- no budget.
  unfoldable pub set_peers : List (String × Spec) → Work → Work
  set_peers [] w = w
  set_peers ((pk, spec) ∷ es) (zero, done, s) = (zero, done, s)
  set_peers ((pk, spec) ∷ es) (suc left, done, s) =
      let (ok, s') = set_peer pk spec s in
      set_peers es (if ok then (left, done + 1, s') else (suc left, done, s'))

  -- The loop over `to_remove`: an invalid key raises, with the earlier removals done.
  unfoldable pub remove_peers : List (String × Peer) → Work → Option (ℕ × ℕ) × State
  remove_peers [] (left, done, s) = (some (left, done), s)
  remove_peers ((pk, rp) ∷ es) (zero, done, s) = (some (zero, done), s)
  remove_peers ((pk, rp) ∷ es) (suc left, done, s) = elim (sanitize_pubkey pk) [
    | none ↦ (none, s)
    | some k ↦
        let (ok, s') = remove_peer k s in
        remove_peers es (if ok then (left, done + 1, s') else (suc left, done, s'))
  ]

  unfoldable pub finish : ℕ → ℕ → Option (ℕ × ℕ) × State → CycleResult × State
  finish added updated (none, s) = (invalid_name, s)
  finish added updated (some (left, removed), s) = (
    counts added removed updated,
    (if nat_beq added 0 && nat_beq removed 0 && nat_beq updated 0 then s else save s),
  )

  -- Additions, then updates, then removals.
  unfoldable pub mutate : ℕ → Dict String Spec → Dict String Peer → State → CycleResult × State
  mutate max_mutations desired runtime s =
      let (left, added, s₁) = set_peers (to_add runtime desired) (max_mutations, 0, s) in
      let (left', updated, s₂) = set_peers (to_update runtime desired) (left, 0, s₁) in
      finish added updated (remove_peers (to_remove desired runtime) (left', 0, s₂))

  -- The guards behind the maps: an empty desired state, and read-only mode.
  unfoldable pub guarded :
      Options → Dict String Spec → Dict String Peer → State → CycleResult × State
  guarded o desired runtime s =
      if is_empty desired && not (is_empty runtime) && not o.allow_prune_empty
      then (counts 0 0 0, s)
      else if o.read_only
      then (counts 0 0 0, s)
      else mutate o.max_mutations desired runtime s

  unfoldable pub reconcile : Options → List DesiredPeer → List Peer → State → CycleResult × State
  reconcile o desired runtime s = elim (sanitize_iface o.iface) [
    | none ↦ (invalid_name, s)
    | some iface ↦ elim (sanitize_container o.container) [
      | none ↦ (invalid_name, s)
      | some container ↦ elim (desired_map_from [] desired) [
        | none ↦ (invalid_name, s)
        | some m ↦ guarded o m (runtime_map_from [] runtime) s
      ]
    ]
  ]
