-- ===== src/Reconcile/Tests.antt =====
-- A node that keeps its peers in a function, and runs of the engine against it.
use vpn_suite.Prelude.{
  ◌≡◌, refl, true, false, List, [], ◌∷◌, Option, none, some, arith, String, ◌==◌, string_eq,
  if◌then◌else◌, strip, contains_text, is_truthy, eq_iff, is_some, not, ◌&&◌,
}
use vpn_suite.Reconcile.Peer.{DbPeer, WgPeer, find_config, has_key}
use vpn_suite.Reconcile.Diff.{ReconciliationDiff, compute_diff, config_for}
use vpn_suite.Reconcile.Diff.Exact.{
  wanted, reported, planned_add, planned_update, compute_diff_exact,
}
use vpn_suite.Reconcile.Apply.{
  NodeRuntime, IsFaithful, returned, raised, Settings, apply_diff, no_result,
}
use vpn_suite.Reconcile.Apply.Accounts.{handled, asked, apply_diff-accounts, apply_diff-read_only}
use vpn_suite.Reconcile.Apply.Converges.{settled}
use vpn_suite.Reconcile.Round.{no_diff, round_settles, round_stable}

abbrev node : NodeRuntime
node = record {
  State = String → Option String;
  add_peer = λ c s. (returned, λ k. if c.public_key == k then c.allowed_ips else s k);
  remove_peer = λ j s. (returned, λ k. if j == k then none else s k);
}

abbrev node-IsFaithful : IsFaithful node
node-IsFaithful = record {
  peer_at = λ s k. s k;
  add_peer_sets = λ c s h k. refl;
  remove_peer_drops = λ j s h k. refl;
}

-- A node whose commands always fail.
abbrev broken : NodeRuntime
broken = record {
  State = Unit {0};
  add_peer = λ c s. (raised "timeout", s);
  remove_peer = λ j s. (raised "timeout", s);
}

abbrev enforcing : Settings
enforcing = record { reconciliation_read_only = false; reconciliation_remove_orphans = true }

abbrev watching : Settings
watching = record enforcing { reconciliation_read_only = true }

abbrev row : String → String → DbPeer
row k a = record { public_key = k; allowed_ips = a; preshared_key = none }

abbrev seen : String → String → WgPeer
seen k a = record { public_key = some k; allowed_ips = some a; allowed_ip = none }

abbrev rows : List DbPeer
rows = row "new" " 10.8.0.2/32" ∷ row "drifted" "10.8.0.3/32" ∷ row "bad" "0.0.0.0/0" ∷ []

abbrev listing : List WgPeer
listing = seen "drifted" "0.0.0.0/0" ∷ seen "orphan" "10.8.0.9/32" ∷ []

abbrev drift : ReconciliationDiff
drift = compute_diff rows listing

compute_diff_rows : drift ≡ record {
  peers_to_add = config_for "new" ("10.8.0.2/32", none) ∷ [];
  peers_to_remove = "orphan" ∷ [];
  peers_to_update = config_for "drifted" ("10.8.0.3/32", none) ∷ [];
}
unfolding compute_diff strip contains_text is_truthy
compute_diff_rows = refl

compute_diff_exact_example :
    (find_config "new" drift.peers_to_add
      ≡ planned_add (wanted rows "new") (reported listing "new") "new")
    × (has_key "new" drift.peers_to_remove
        ≡ (is_some (reported listing "new") && not (is_some (wanted rows "new"))))
    × (find_config "new" drift.peers_to_update
        ≡ planned_update (wanted rows "new") (reported listing "new") "new")
compute_diff_exact_example = compute_diff_exact rows listing "new"

apply_diff-accounts_example :
    handled (apply_diff broken enforcing drift tt).0 ≡ asked enforcing drift
apply_diff-accounts_example = apply_diff-accounts broken enforcing drift tt refl

nothing_is_written : apply_diff broken watching drift tt ≡ (no_result, tt)
nothing_is_written = apply_diff-read_only broken watching drift tt refl

-- The state that the listing reports, and a state after the round.
abbrev before : String → Option String
before k = reported listing k

clean_run : (apply_diff node enforcing drift before).0.errors ≡ []
unfolding apply_diff compute_diff strip contains_text is_truthy
clean_run = refl

round_settles_example :
    (apply_diff node enforcing drift before).1 "drifted"
    ≡ settled (wanted rows "drifted") (before "drifted")
unfolding apply_diff compute_diff strip contains_text is_truthy
round_settles_example =
    round_settles node node-IsFaithful enforcing refl refl rows listing before (λ k. refl) clean_run
      "drifted"

abbrev settled_listing : List WgPeer
settled_listing = seen "new" "10.8.0.2/32" ∷ seen "drifted" "10.8.0.3/32" ∷ []

settled_listing_accurate :
    (k : String) → reported settled_listing k ≡ (apply_diff node enforcing drift before).1 k
unfolding apply_diff compute_diff strip contains_text is_truthy
settled_listing_accurate k = ground (
  arith,
  eq_iff "new" k,
  eq_iff "drifted" k,
  eq_iff "orphan" k,
  eq_iff "new" "drifted",
  eq_iff "new" "orphan",
  eq_iff "drifted" "orphan",
)

round_stable_example : compute_diff rows settled_listing ≡ no_diff
round_stable_example =
    round_stable node node-IsFaithful enforcing refl refl rows listing before (λ k. refl) clean_run
      settled_listing settled_listing_accurate
