-- ===== src/Reconcile/Apply.antt =====
-- `apply_diff`: the calls that the engine makes to a node, and what it counts. Logs, metrics and the
-- measured duration are left out.
pub mod Converges
pub mod Accounts
use Prim.Native.String.{◌++◌ as text_append}
use vpn_suite.Prelude.{
  ℕ, ◌+◌, String, ◌≡◌, Bool, true, false, Option, none, some, ◌&&◌, ◌||◌, not, ◌==◌, string_eq,
  text_take, if◌then◌else◌, List, [], ◌∷◌, ◌++◌, is_empty,
}
use vpn_suite.Reconcile.Peer.{PeerConfigLike}
use vpn_suite.Reconcile.Diff.{ReconciliationDiff}

-- How a call of the adapter ends; an exception carries its text.
pub data Outcome : Type 0 where
  returned : Outcome
  raised : String → Outcome

-- `NodeRuntimeAdapter`, at one node, with the state of the node written out. The adapters reach the
-- node by commands in its container, so their effect is a parameter.
pub record NodeRuntime : Type 1 where
  pub State : Type 0
  pub add_peer : PeerConfigLike → State → Outcome × State
  pub remove_peer : String → State → Outcome × State

-- What the abstract class documents of a call that does not raise: `peer_at s k` is the value of
-- allowed addresses that the node reports for a key, if it has the peer.
pub record IsFaithful (r : NodeRuntime) : Type 1 where
  pub peer_at : r.State → String → Option String
  pub add_peer_sets :
      (p : PeerConfigLike) (s : r.State)
      → (r.add_peer p s).0 ≡ returned
      → (k : String)
      → peer_at (r.add_peer p s).1 k ≡ (if p.public_key == k then p.allowed_ips else peer_at s k)
  pub remove_peer_drops :
      (j : String) (s : r.State)
      → (r.remove_peer j s).0 ≡ returned
      → (k : String) → peer_at (r.remove_peer j s).1 k ≡ (if j == k then none else peer_at s k)

pub record ReconciliationResult : Type 0 where
  pub peers_added : ℕ
  pub peers_removed : ℕ
  pub peers_updated : ℕ
  pub peers_added_pubkeys : List String
  pub errors : List String

abbrev pub no_result : ReconciliationResult
no_result = record {
  peers_added = 0;
  peers_removed = 0;
  peers_updated = 0;
  peers_added_pubkeys = [];
  errors = [];
}

pub record Settings : Type 0 where
  pub reconciliation_read_only : Bool
  pub reconciliation_remove_orphans : Bool

-- `f"{stage} {pubkey[:16]}: {e!s}"`
unfoldable pub error_line : String → String → String → String
error_line stage pubkey e =
    text_append stage (text_append " " (text_append (text_take 16 pubkey) (text_append ": " e)))

-- `result.errors.append(...)`
abbrev pub with_error : String → String → String → ReconciliationResult → ReconciliationResult
with_error stage pubkey e res = record res {
  errors = res.errors ++ (error_line stage pubkey e ∷ []);
}

abbrev pub has_drift : ReconciliationDiff → Bool
has_drift diff =
    not (is_empty diff.peers_to_add)
    || not (is_empty diff.peers_to_remove)
    || not (is_empty diff.peers_to_update)

module _ (r : NodeRuntime) where
  open r use {State, add_peer, remove_peer}

  abbrev pub Progress : Type 0
  Progress = ReconciliationResult × State

  -- One pass of the loop over `peers_to_remove`.
  unfoldable pub remove_one : String → Progress → Progress
  remove_one pubkey (res, s) =
      let (o, s') = remove_peer pubkey s in
      elim o [
        | returned ↦ (record res { peers_removed = res.peers_removed + 1 }, s')
        | raised e ↦ (with_error "remove" pubkey e res, s')
      ]

  -- One pass of the loop over `peers_to_add`.
  unfoldable pub add_one : PeerConfigLike → Progress → Progress
  add_one peer (res, s) =
      let (o, s') = add_peer peer s in
      elim o [
        | returned ↦ (
          record res {
            peers_added = res.peers_added + 1;
            peers_added_pubkeys = res.peers_added_pubkeys ++ (peer.public_key ∷ []);
          },
          s',
        )
        | raised e ↦ (with_error "add" peer.public_key e res, s')
      ]

  -- One pass of the loop over `peers_to_update`: removed and added again, in one `try`.
  unfoldable pub update_one : PeerConfigLike → Progress → Progress
  update_one peer (res, s) =
      let (o, s') = remove_peer peer.public_key s in
      let (o', s'') = add_peer peer s' in
      elim o [
        | raised e ↦ (with_error "update" peer.public_key e res, s')
        | returned ↦ elim o' [
          | raised e ↦ (with_error "update" peer.public_key e res, s'')
          | returned ↦ (record res { peers_updated = res.peers_updated + 1 }, s'')
        ]
      ]

  unfoldable pub for_each {ℓ} :
      {A : Type ℓ} → (A → Progress → Progress) → List A → Progress → Progress
  for_each pass [] p = p
  for_each pass (x ∷ xs) p = for_each pass xs (pass x p)

  -- The removal of orphans, where it is enabled.
  unfoldable pub remove_orphans : Settings → List String → Progress → Progress
  unfolding for_each remove_one
  remove_orphans settings keys p =
      if settings.reconciliation_remove_orphans then for_each remove_one keys p else p

  -- What follows the test of read-only mode: orphans, additions, updates.
  unfoldable pub write_diff : Settings → ReconciliationDiff → State → Progress
  unfolding remove_orphans for_each add_one update_one
  write_diff settings diff s = for_each update_one diff.peers_to_update (
      for_each add_one diff.peers_to_add
        (remove_orphans settings diff.peers_to_remove (no_result, s)))

  unfoldable pub apply_diff : Settings → ReconciliationDiff → State → Progress
  unfolding write_diff
  apply_diff settings diff s =
      if settings.reconciliation_read_only && has_drift diff
      then (no_result, s)
      else write_diff settings diff s
