-- ===== src/Reconcile/Diff/Exact.antt =====
-- The diff against a description that has no dictionaries: the last row of the database and the
-- last report of the node decide what happens to a key.
use vpn_suite.Prelude.{
  String, ◌≡◌, refl, Bool, false, Option, none, some, ◌&&◌, not, ◌==◌, is_truthy, is_some,
  if◌then◌else◌, List, [], ◌∷◌, arith, eq_iff, Dict, lookup, contains, insert, HasUniqueKeys,
  lookup-insert, insert-HasUniqueKeys, string_eq, Bool-cases, Option-cases, inl, inr, ◌∙◌,
}
use vpn_suite.Reconcile.Peer.{
  PeerConfigLike, DbPeer, WgPeer, peer_allowed_ips, is_valid_server_allowed_ips, find_config,
  has_key,
}
use vpn_suite.Reconcile.Diff.{
  Wanted, normalized, db_map_from, wg_map_from, config_for, is_replaceable, configs_where,
  needs_add, needs_update, to_remove, compute_diff,
}

-- The last row of the database with this key, which must not be empty.
abbrev pub wanted : List DbPeer → String → Option Wanted
wanted [] k = none
wanted (p ∷ ps) k =
    let rest = wanted ps k in
    elim rest [
      | some w ↦ some w
      | none ↦ if is_truthy p.public_key && p.public_key == k then some (normalized p) else none
    ]

abbrev pub key_is : Option String → String → Bool
key_is none k = false
key_is (some j) k = is_truthy j && j == k

-- What the node says last of this key.
abbrev pub reported : List WgPeer → String → Option String
reported [] k = none
reported (p ∷ ps) k =
    let rest = reported ps k in
    elim rest [
      | some a ↦ some a
      | none ↦ if key_is p.public_key k then some (peer_allowed_ips p) else none
    ]

abbrev or_else {ℓ} : {A : Type ℓ} → Option A → Option A → Option A
or_else none b = b
or_else (some a) b = some a

or_else-none {ℓ} : {A : Type ℓ} (a : Option A) → or_else a none ≡ a
or_else-none none = refl
or_else-none (some a) = refl

lookup-db_map_from :
    (k : String) (ps : List DbPeer) (m : Dict String Wanted)
    → lookup k (db_map_from m ps) ≡ or_else (wanted ps k) (lookup k m)
unfolding db_map_from
lookup-db_map_from k [] m = refl
lookup-db_map_from k (p ∷ ps) m =
    let m' = if is_truthy p.public_key then insert p.public_key (normalized p) m else m in
    ground (arith, lookup-db_map_from k ps m', lookup-insert k p.public_key (normalized p) m)

lookup-wg_map_from :
    (k : String) (ps : List WgPeer) (m : Dict String String)
    → lookup k (wg_map_from m ps) ≡ or_else (reported ps k) (lookup k m)
unfolding wg_map_from
lookup-wg_map_from k [] m = refl
lookup-wg_map_from k (p ∷ ps) m = elim (Option-cases p.public_key) [
  | inl e ↦ rw e (ground (arith, lookup-wg_map_from k ps m))
  | inr (j, e) ↦
      let m' = if is_truthy j then insert j (peer_allowed_ips p) m else m in
      rw e (ground (arith, lookup-wg_map_from k ps m', lookup-insert k j (peer_allowed_ips p) m))
]

db_map_from-HasUniqueKeys :
    (ps : List DbPeer) (m : Dict String Wanted) → HasUniqueKeys m → HasUniqueKeys (db_map_from m ps)
unfolding db_map_from
db_map_from-HasUniqueKeys [] m h = h
db_map_from-HasUniqueKeys (p ∷ ps) m h = elim (Bool-cases (is_truthy p.public_key)) [
  | inl e ↦
      rw e (db_map_from-HasUniqueKeys ps _ (insert-HasUniqueKeys p.public_key (normalized p) m h))
  | inr e ↦ rw e (db_map_from-HasUniqueKeys ps m h)
]

lookup-db_map : (k : String) (ps : List DbPeer) → lookup k (db_map_from [] ps) ≡ wanted ps k
lookup-db_map k ps = lookup-db_map_from k ps [] ∙ or_else-none (wanted ps k)

lookup-wg_map : (k : String) (ps : List WgPeer) → lookup k (wg_map_from [] ps) ≡ reported ps k
lookup-wg_map k ps = lookup-wg_map_from k ps [] ∙ or_else-none (reported ps k)

find_config-configs_where :
    (test : String → Wanted → Bool) (k : String) (db : Dict String Wanted)
    → HasUniqueKeys db
    → find_config k (configs_where test db) ≡ elim (lookup k db) [
      | none ↦ none
      | some w ↦ if test k w then some (config_for k w) else none
    ]
unfolding configs_where
find_config-configs_where test k [] h = refl
find_config-configs_where test k ((j, w) ∷ db) h =
    ground (arith, eq_iff j k, find_config-configs_where test k db h.1)

has_key-to_remove :
    (k : String) (db : Dict String Wanted) (wg : Dict String String)
    → has_key k (to_remove db wg) ≡ (contains k wg && not (contains k db))
unfolding to_remove
has_key-to_remove k db [] = refl
has_key-to_remove k db ((j, a) ∷ wg) = ground (arith, eq_iff j k, has_key-to_remove k db wg)

-- What `compute_diff` plans for a key, from the last row and the last report of it.
abbrev pub planned_add : Option Wanted → Option String → String → Option PeerConfigLike
planned_add none on_node k = none
planned_add (some w) (some a) k = none
planned_add (some w) none k =
    if is_valid_server_allowed_ips w.0 then some (config_for k w) else none

abbrev pub planned_update : Option Wanted → Option String → String → Option PeerConfigLike
planned_update none on_node k = none
planned_update (some w) none k = none
planned_update (some w) (some a) k =
    if is_valid_server_allowed_ips w.0 && is_replaceable a w.0 then some (config_for k w) else none

module _ (row : Option Wanted) (on_node : Option String) (wg : Dict String String) (k : String)
    (at_k : lookup k wg ≡ on_node) where
  add_test-planned :
      (elim row [ none ↦ none | some w ↦ if needs_add wg k w then some (config_for k w) else none ])
      ≡ planned_add row on_node k
  unfolding needs_add
  add_test-planned = ground arith

  update_test-planned :
      (elim row [
        | none ↦ none
        | some w ↦ if needs_update wg k w then some (config_for k w) else none
      ])
      ≡ planned_update row on_node k
  unfolding needs_update
  update_test-planned = ground arith

-- For every key, by the last row of the database and the last report of the node with that key:
-- it is added, with the configuration of the row, exactly when the node does not report it and
-- the address is valid; removed exactly when the node reports it and no row has it; reapplied
-- exactly when both have it, the address is valid and the node's value may be replaced.
pub compute_diff_exact :
    (db_peers : List DbPeer) (wg_peers : List WgPeer) (k : String)
    → let d = compute_diff db_peers wg_peers in
      let row = wanted db_peers k in
      let on_node = reported wg_peers k in
      (find_config k d.peers_to_add ≡ planned_add row on_node k)
      × (has_key k d.peers_to_remove ≡ (is_some on_node && not (is_some row)))
      × (find_config k d.peers_to_update ≡ planned_update row on_node k)
unfolding compute_diff
compute_diff_exact db_peers wg_peers k =
    let unique = db_map_from-HasUniqueKeys db_peers [] tt in
    let db = db_map_from [] db_peers in
    let wg = wg_map_from [] wg_peers in
    (
      find_config-configs_where (needs_add wg) k db unique
          ∙ rw (lookup-db_map k db_peers) (
              add_test-planned (wanted db_peers k) (reported wg_peers k) wg k
                (lookup-wg_map k wg_peers)),
      rw (has_key-to_remove k db wg, lookup-db_map k db_peers, lookup-wg_map k wg_peers),
      find_config-configs_where (needs_update wg) k db unique
          ∙ rw (lookup-db_map k db_peers) (
              update_test-planned (wanted db_peers k) (reported wg_peers k) wg k
                (lookup-wg_map k wg_peers)),
    )
