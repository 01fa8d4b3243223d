-- ===== src/NodeAgent/Tests.antt =====
-- An interface that keeps its peers in a function, and cycles against it.
use vpn_suite.Prelude.{
  ==_refl, ◌+◌, ◌≤◌, ◌≡◌, ◌≢◌, refl, true, false, List, [], ◌∷◌, Option, none, some, arith, String,
  ◌==◌, string_eq, if◌then◌else◌, strip, is_truthy, eq_iff, all_chars, text_length, Dict, lookup,
  inl, inr,
}
use vpn_suite.NodeAgent.Keys.{
  sanitize_pubkey, sanitize_iface, sanitize_container, is_pubkey, is_interface_name,
  is_container_name,
}
use vpn_suite.NodeAgent.Plan.{
  DesiredPeer, Spec, Peer, desired_map_from, runtime_map_from, spec_of, to_add, to_remove,
  to_update, needs_update, is_stale,
}
use vpn_suite.NodeAgent.Cycle.{
  WgTool, is_clear, IsFaithful, IsReliable, Options, counts, set_peers, remove_peers, finish,
  mutate, guarded, reconcile,
}
use vpn_suite.NodeAgent.Cycle.Budget.{reconcile-budget, reconcile-frozen}
use vpn_suite.NodeAgent.Cycle.Starves.{reconcile-starves}
use vpn_suite.NodeAgent.Cycle.Converges.{desired_value, reconcile-value, shown}

-- What is left of a value from which an address moves.
abbrev moved : String → Option String → Option String
moved a none = none
moved a (some v) = if a == v then some "" else some v

moved-keeps : (a : String) (v : Option String) → is_clear (λ a v. a == v) a v ≡ true → moved a v ≡ v
moved-keeps a none h = refl
moved-keeps a (some v) h = ground arith

abbrev tool : WgTool
tool = record {
  State = String → Option String;
  set_peer = λ j spec s.
      (true, λ k. if j == k then some spec.allowed_ips else moved spec.allowed_ips (s k));
  remove_peer = λ j s. (true, λ k. if j == k then none else s k);
  save = λ s. s;
}

abbrev tool-IsFaithful : IsFaithful tool
tool-IsFaithful = record {
  peer_at = λ s k. s k;
  shares = λ a v. a == v;
  set_peer_sets = λ j spec s h. rw (==_refl j) refl;
  set_peer_keeps =
      λ j spec s h k differs clear. rw differs (moved-keeps spec.allowed_ips (s k) clear);
  remove_peer_drops = λ j s h k. refl;
  save_keeps = λ s k. refl;
}

abbrev tool-IsReliable : IsReliable tool
tool-IsReliable = record { set_ok = λ j spec s. refl; remove_ok = λ j s. refl }

abbrev key_a : String
key_a = "AAAAAAAAAAAAAAAAAAAAAAAAAAAAAAAAAAAAAAAAAAA="

abbrev key_b : String
key_b = "BBBBBBBBBBBBBBBBBBBBBBBBBBBBBBBBBBBBBBBBBBB="

abbrev key_c : String
key_c = "CCCCCCCCCCCCCCCCCCCCCCCCCCCCCCCCCCCCCCCCCCC="

abbrev wants : String → String → Option String → DesiredPeer
wants k a psk = record {
  public_key = some k;
  allowed_ips = some a;
  preshared_key = psk;
  persistent_keepalive = none;
}

abbrev has : String → String → Peer
has k a = record {
  public_key = k;
  allowed_ips = a;
  last_handshake_ts = 0;
  rx = 0;
  tx = 0;
  endpoint = "";
}

abbrev options : Options
options = record {
  container = "amnezia-awg";
  iface = "awg0";
  max_mutations = 1;
  read_only = false;
  allow_prune_empty = false;
}

abbrev roomy : Options
roomy = record options { max_mutations = 200 }

-- One keyed peer on the interface, and one orphan.
abbrev keyed : List DesiredPeer
keyed = wants key_a "10.8.1.2/32" (some "psk") ∷ []

abbrev running : List Peer
running = has key_a "10.8.1.2/32" ∷ has key_c "10.8.1.9/32" ∷ []

abbrev start : String → Option String
start k = if key_c == k then some "10.8.1.9/32" else if key_a == k then some "10.8.1.2/32" else none

abbrev keyed_map : Dict String Spec
keyed_map =
    (key_a, record { allowed_ips = "10.8.1.2/32"; keepalive = 25; preshared_key = some "psk" }) ∷ []

keyed_map_built : desired_map_from [] keyed ≡ some keyed_map
unfolding desired_map_from spec_of sanitize_pubkey is_pubkey strip all_chars text_length
keyed_map_built = refl

-- The keyed peer uses the whole budget: the orphan stays.
orphan_stays : (reconcile tool options keyed running start).0 ≡ counts 0 0 1
unfolding reconcile guarded mutate set_peers remove_peers finish desired_map_from spec_of
    runtime_map_from to_add to_remove to_update needs_update is_stale sanitize_pubkey sanitize_iface
    sanitize_container is_pubkey is_interface_name is_container_name strip all_chars text_length
    is_truthy
orphan_stays = refl

budget_is_kept : 0 + 0 + 1 ≤ 1
budget_is_kept = reconcile-budget tool options keyed running start 0 0 1 orphan_stays

reconcile-starves_example :
    (reconcile tool options keyed running start).1 key_c ≡ some "10.8.1.9/32"
unfolding runtime_map_from is_truthy
reconcile-starves_example =
    reconcile-starves tool tool-IsFaithful tool-IsReliable options keyed running start key_c
      keyed_map keyed_map_built refl (omega arith) refl

frozen_cycle_runs : (reconcile tool options [] running start).1 ≡ start
unfolding runtime_map_from is_truthy
frozen_cycle_runs = reconcile-frozen tool options [] running start (inr (refl, refl, refl))

named : (sanitize_iface "awg0" ≢ none) × (sanitize_container "amnezia-awg" ≢ none)
unfolding sanitize_iface sanitize_container is_interface_name is_container_name strip all_chars
    text_length
named = (λ e. cc, λ e. cc)

start_listed : (k : String) → start k ≡ shown (lookup k (runtime_map_from [] running))
unfolding runtime_map_from is_truthy strip
start_listed k = ground (arith, eq_iff key_a k, eq_iff key_c k, eq_iff key_a key_c)

-- With room for both commands the orphan goes.
reconcile-value_example :
    (reconcile tool roomy keyed running start).1 key_c ≡ desired_value none (start key_c)
unfolding runtime_map_from to_add to_remove to_update needs_update is_stale strip is_truthy
    sanitize_pubkey is_pubkey all_chars text_length
reconcile-value_example =
    reconcile-value tool tool-IsFaithful tool-IsReliable roomy keyed running start keyed_map refl
      (inl refl) named keyed_map_built (refl, tt) (omega arith) start_listed key_c refl
