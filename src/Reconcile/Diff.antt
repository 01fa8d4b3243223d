-- ===== src/Reconcile/Diff.antt =====
-- `compute_diff`: what must be added to, removed from and reapplied on a node.
-- Its log lines are left out; the node's name serves only for them.
pub mod Exact
use vpn_suite.Prelude.{
  String, Bool, Option, none, some, ◌&&◌, ◌||◌, not, ◌==◌, strip, contains_text, is_truthy, or_text,
  text_or_none, if◌then◌else◌, List, [], ◌∷◌, Dict, lookup, contains, insert, string_eq, false,
}
use vpn_suite.Reconcile.Peer.{
  PeerConfigLike, DbPeer, WgPeer, peer_allowed_ips, is_valid_server_allowed_ips,
}

pub record ReconciliationDiff : Type 0 where
  pub peers_to_add : List PeerConfigLike
  pub peers_to_remove : List String
  pub peers_to_update : List PeerConfigLike

-- What the database wants for a key: the allowed addresses and the preshared key.
abbrev pub Wanted : Type 0
Wanted = String × Option String

-- `(allowed_norm, psk_norm)` of one row.
unfoldable pub normalized : DbPeer → Wanted
unfolding strip
normalized p = (strip p.allowed_ips, text_or_none (strip (or_text p.preshared_key "")))

-- The loop that fills `db_map`: a row without a key is skipped, and a later row wins.
unfoldable pub db_map_from : Dict String Wanted → List DbPeer → Dict String Wanted
unfolding normalized
db_map_from m [] = m
db_map_from m (p ∷ ps) =
    db_map_from (if is_truthy p.public_key then insert p.public_key (normalized p) m else m) ps

-- The comprehension that fills `wg_map`.
unfoldable pub wg_map_from : Dict String String → List WgPeer → Dict String String
unfolding peer_allowed_ips
wg_map_from m [] = m
wg_map_from m (p ∷ ps) =
    wg_map_from
      (elim p.public_key [
        | none ↦ m
        | some k ↦ if is_truthy k then insert k (peer_allowed_ips p) m else m
      ])
      ps

-- The configuration that the engine sends for a key.
abbrev pub config_for : String → Wanted → PeerConfigLike
config_for pk (allowed, psk) = record {
  public_key = pk;
  allowed_ips = some allowed;
  preshared_key = psk;
  persistent_keepalive = 25;
}

-- A node's value that may be replaced: empty, or the default route.
unfoldable pub is_replaceable : String → String → Bool
unfolding contains_text
is_replaceable wg_val allowed =
    not (wg_val == allowed) && (not (is_truthy wg_val) || contains_text "0.0.0.0/0" wg_val)

-- A loop over `db_map` that appends the configuration of each entry that passes its test.
unfoldable pub configs_where : (String → Wanted → Bool) → Dict String Wanted → List PeerConfigLike
configs_where test [] = []
configs_where test ((pk, w) ∷ db) =
    let rest = configs_where test db in if test pk w then config_for pk w ∷ rest else rest

-- The test of the first loop: missing on the node, with an address that may be sent.
unfoldable pub needs_add : Dict String String → String → Wanted → Bool
unfolding is_valid_server_allowed_ips
needs_add wg pk w = not (contains pk wg) && is_valid_server_allowed_ips w.0

-- `[pk for pk in wg_map if pk not in db_map]`
unfoldable pub to_remove : Dict String Wanted → Dict String String → List String
to_remove db [] = []
to_remove db ((pk, a) ∷ wg) =
    let rest = to_remove db wg in if not (contains pk db) then pk ∷ rest else rest

-- The test of the second loop over `db_map`.
unfoldable pub needs_update : Dict String String → String → Wanted → Bool
unfolding is_valid_server_allowed_ips is_replaceable
needs_update wg pk w =
    is_valid_server_allowed_ips w.0
    && elim (lookup pk wg) [ none ↦ false | some wg_val ↦ is_replaceable wg_val w.0 ]

unfoldable pub compute_diff : List DbPeer → List WgPeer → ReconciliationDiff
unfolding db_map_from wg_map_from configs_where needs_add needs_update to_remove
compute_diff db_peers wg_peers =
    let db = db_map_from [] db_peers in
    let wg = wg_map_from [] wg_peers in
    record {
      peers_to_add = configs_where (needs_add wg) db;
      peers_to_remove = to_remove db wg;
      peers_to_update = configs_where (needs_update wg) db;
    }
