-- ===== src/Reconcile/Peer.antt =====
-- The peer configuration of backend/app/services/node_runtime.py, the rows that the engine reads
-- from the database, and the peer dictionaries that a node reports.
use vpn_suite.Prelude.{
  ℕ, String, Bool, Option, none, some, ◌&&◌, ◌||◌, not, ◌==◌, strip, contains_text, is_truthy,
  or_text, if◌then◌else◌, List, [], ◌∷◌, string_eq, false,
}

pub record PeerConfigLike : Type 0 where
  pub public_key : String
  pub allowed_ips : Option String
  pub preshared_key : Option String
  pub persistent_keepalive : ℕ

-- One tuple of `db_peers`.
pub record DbPeer : Type 0 where
  pub public_key : String
  pub allowed_ips : String
  pub preshared_key : Option String

-- One dictionary of `list_peers`; a missing key is `none`.
pub record WgPeer : Type 0 where
  pub public_key : Option String
  pub allowed_ips : Option String
  pub allowed_ip : Option String

-- `_peer_allowed_ips`
unfoldable pub peer_allowed_ips : WgPeer → String
unfolding strip
peer_allowed_ips peer =
    strip (or_text peer.allowed_ips (elim peer.allowed_ip [ none ↦ "" | some a ↦ a ]))

-- `_is_valid_server_allowed_ips`
unfoldable pub is_valid_server_allowed_ips : String → Bool
unfolding strip contains_text
is_valid_server_allowed_ips allowed =
    let a = strip allowed in
    is_truthy allowed
    && is_truthy a
    && not (contains_text "0.0.0.0/0" a)
    && (contains_text "/32" a || contains_text "/128" a)

-- The configuration that a list of them leaves for a key: a later one wins.
abbrev pub find_config : String → List PeerConfigLike → Option PeerConfigLike
find_config k [] = none
find_config k (p ∷ ps) =
    let rest = find_config k ps in
    elim rest [ some c ↦ some c | none ↦ if p.public_key == k then some p else none ]

-- `pk in keys`
abbrev pub has_key : String → List String → Bool
has_key k [] = false
has_key k (j ∷ js) = j == k || has_key k js
