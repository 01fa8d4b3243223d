-- ===== src/Migrate/Candidates.antt =====
-- The devices that a move may take, in the order in which it takes them. The node's listing is an
-- argument, as are the lower case of a text and the settings.
use Prim.Native.Char.{code}
use vpn_suite.Prelude.{
  ℕ, ◌+◌, ◌-◌, ◌*◌, String, Bool, true, false, not, ◌&&◌, Option, none, some, List, [], ◌∷◌, ◌==◌,
  string_eq, nat_eq, if◌then◌else◌, is_some, is_empty, is_truthy, strip, contains_text, any, filter,
  map, insert_by, ltb, leb, nat_beq, Dict, lookup, insert,
}
use vpn_suite.Devices.Rows.{Device}
use vpn_suite.Payments.Records.{Subscription}

-- `Plan`, of which the query reads the name.
pub record NamedPlan : Type 0 where
  pub id : String
  pub name : String

-- A device as the session holds it, and the server that its row has in the database: the session
-- does not flush by itself, so that a query reads the row.
pub record Tracked : Type 0 where
  pub device : Device
  pub stored_server_id : String

-- One dictionary of `list_peers`; a count that is missing or null is 0.
pub record PeerStats : Type 0 where
  pub public_key : String
  pub last_handshake : ℕ
  pub transfer_rx : ℕ
  pub transfer_tx : ℕ

-- `s.split(",")`
unfoldable pub split_comma : String → List String
split_comma String.[] = "" ∷ []
split_comma (String.◌∷◌ c s) =
    let rest = split_comma s in
    if nat_beq (code c) b','
    then "" ∷ rest
    else elim rest [ [] ↦ [] | part ∷ parts ↦ String.◌∷◌ c part ∷ parts ]

module _ (lower : String → String) where
  -- `_enterprise_plan_keywords`
  unfoldable pub enterprise_plan_keywords : String → List String
  unfolding split_comma strip is_truthy
  enterprise_plan_keywords raw =
      map (λ item. lower (strip item)) (filter (λ item. is_truthy (strip item)) (split_comma raw))

  -- `_is_enterprise_plan_name`
  unfoldable pub is_enterprise_plan_name : String → List String → Bool
  unfolding contains_text is_truthy
  is_enterprise_plan_name plan_name keywords =
      is_truthy plan_name
      && not (is_empty keywords)
      && any (λ keyword. contains_text keyword (lower plan_name)) keywords

abbrev pub find_subscription : String → List Subscription → Option Subscription
find_subscription id [] = none
find_subscription id (s ∷ ss) = if s.id == id then some s else find_subscription id ss

abbrev pub find_plan : String → List NamedPlan → Option NamedPlan
find_plan id [] = none
find_plan id (p ∷ ps) = if p.id == id then some p else find_plan id ps

-- The join: the name of the plan of a device's active subscription.
unfoldable pub plan_name_of : List Subscription → List NamedPlan → Device → Option String
plan_name_of subs plans d = elim (find_subscription d.subscription_id subs) [
  | none ↦ none
  | some s ↦
      if s.status == "active"
      then (elim (find_plan s.plan_id plans) [ none ↦ none | some p ↦ some p.name ])
      else none
]

-- The query of a source's devices, each with its plan's name, by the time of issue.
unfoldable pub movable_rows :
    List Subscription → List NamedPlan → String → List Tracked → List (Device × String)
unfolding plan_name_of
movable_rows subs plans source [] = []
movable_rows subs plans source (t ∷ ts) =
    let rest = movable_rows subs plans source ts in
    if t.stored_server_id == source && not (is_some t.device.revoked_at)
    then (elim (plan_name_of subs plans t.device) [
      | none ↦ rest
      | some name ↦ insert_by (λ x y. ltb x.0.issued_at y.0.issued_at) (t.device, name) rest
    ])
    else rest

-- The two idle and traffic settings of the key below.
pub record QosSettings : Type 0 where
  pub idle_handshake_seconds : ℕ
  pub hot_traffic_bytes : ℕ

-- `peer_stats_by_pub`: a later peer wins.
unfoldable pub stats_map_from : Dict String PeerStats → List PeerStats → Dict String PeerStats
stats_map_from m [] = m
stats_map_from m (p ∷ ps) = stats_map_from (insert p.public_key p m) ps

-- The tuple of `_qos_migration_key`, whose third entry is negated there.
pub record QosKey : Type 0 where
  pub is_hot_peer : Bool
  pub traffic_total : ℕ
  pub handshake_age : ℕ
  pub issued_at : ℕ

abbrev pub no_stats : String → PeerStats
no_stats k = record { public_key = k; last_handshake = 0; transfer_rx = 0; transfer_tx = 0 }

-- `_qos_migration_key`
unfoldable pub qos_migration_key : QosSettings → Dict String PeerStats → ℕ → Device → QosKey
qos_migration_key q stats now d =
    let p = elim (lookup d.public_key stats) as (λ o. PeerStats) [
      | none ↦ no_stats d.public_key
      | some found ↦ found
    ] in
    let traffic = p.transfer_rx + p.transfer_tx in
    let age =
      if ltb 0 p.last_handshake then now - p.last_handshake else q.idle_handshake_seconds * 100 in
    record {
      is_hot_peer = leb age q.idle_handshake_seconds && leb q.hot_traffic_bytes traffic;
      traffic_total = traffic;
      handshake_age = age;
      issued_at = d.issued_at;
    }

-- `<` on the tuples: idle before hot, less traffic before more, a longer silence before a shorter.
unfoldable pub qos_before : QosKey → QosKey → Bool
qos_before k j =
    if not k.is_hot_peer && j.is_hot_peer
    then true
    else if k.is_hot_peer && not j.is_hot_peer
    then false
    else if ltb k.traffic_total j.traffic_total
    then true
    else if ltb j.traffic_total k.traffic_total
    then false
    else if ltb j.handshake_age k.handshake_age
    then true
    else if ltb k.handshake_age j.handshake_age
    then false
    else ltb k.issued_at j.issued_at
