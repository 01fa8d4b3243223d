-- ===== src/Issue/Key.antt =====
-- `_heartbeat_container_id` and `live_key_fetch` of backend/app/services/server_live_key_service.py.
-- A time is a number of seconds. Log lines, metrics and the fingerprint are left out.
pub mod Sources
use Prim.Native.Char.{code}
use vpn_suite.Prelude.{
  ℕ, zero, suc, ◌+◌, ◌-◌, String, Bool, true, false, not, ◌&&◌, ◌||◌, Option, none, some, List, [],
  ◌∷◌, ◌++◌, ◌==◌, string_eq, if◌then◌else◌, is_empty, is_some, is_truthy, leb, ltb, nat_beq,
  member, Dict, lookup, Result, ok, err, ◌>>=◌, strip, or_text, text_take, text_length,
}

-- `s.lower()` on one code point, as far as a test for small ASCII letters sees it: a capital letter,
-- and the Kelvin sign.
abbrev lower_code : ℕ → ℕ
lower_code c = if leb b'A' c && leb c b'Z' then c + 32 else if nat_beq c 0x212a then b'k' else c

-- What follows a prefix, which is compared in lower case.
unfoldable pub after_prefix : String → String → Option String
after_prefix String.[] s = some s
after_prefix (String.◌∷◌ p prefix) String.[] = none
after_prefix (String.◌∷◌ p prefix) (String.◌∷◌ c s) =
    let rest = after_prefix prefix s in
    if nat_beq (code p) (lower_code (code c)) then rest else none

-- `_heartbeat_container_id`
unfoldable pub heartbeat_container_id : Option String → String → Option String
unfolding after_prefix strip is_truthy text_take
heartbeat_container_id api_endpoint server_id =
    elim (after_prefix "docker://" (strip (or_text api_endpoint ""))) [
      | none ↦ none
      | some rest ↦
          let name = strip rest in
          if not (is_truthy name) || name == server_id then none else some (text_take 32 name)
    ]

-- What Redis holds under a heartbeat's key: an empty value, one whose reading raises, one that is no
-- dictionary, or a dictionary with its public key.
pub data Beat : Type 0 where
  blank unreadable no_dict : Beat
  beat : Option String → Beat

pub data KeyError : Type 0 where
  missing_id heartbeat_failed no_heartbeat no_runtime no_key : KeyError
  runtime_failed : String → KeyError

-- `public_key` and `node_id`.
pub record LiveKeyResult : Type 0 where
  pub public_key : String
  pub node_id : String

-- The trimmed key of a heartbeat, if it has one; `err` where reading it raises.
unfoldable pub key_of : Beat → Result (Unit {0}) (Option String)
unfolding strip is_truthy
key_of blank = ok none
key_of unreadable = err tt
key_of no_dict = ok none
key_of (beat k) =
    let trimmed = strip (or_text k "") in ok (if is_truthy trimmed then some trimmed else none)

-- `ids_to_try`: the names of the container, once each and not empty, then the server.
unfoldable pub ids_from : List String → List String → List String
unfolding is_truthy
ids_from [] ids = ids
ids_from (f ∷ fs) ids =
    ids_from fs (if is_truthy f && not (member f ids) then ids ++ (f ∷ []) else ids)

unfoldable pub ids_to_try : String → List String → List String
unfolding ids_from
ids_to_try server_id fallbacks =
    let ids = ids_from fallbacks [] in if member server_id ids then ids else ids ++ (server_id ∷ [])

-- The loop over them: the first heartbeat with a key.
unfoldable pub find_beat : Dict String Beat → List String → Result (Unit {0}) (Option LiveKeyResult)
unfolding key_of
find_beat beats [] = ok none
find_beat beats (id ∷ ids) =
    let rest = find_beat beats ids in
    elim (lookup id beats) [
      | none ↦ rest
      | some b ↦ key_of b >>= λ found. elim found [
        | none ↦ rest
        | some k ↦ ok (some (record { public_key = k; node_id = id }))
      ]
    ]

-- A key of the database that may stand in: long enough, and synced within the last hour, if it is
-- known when.
unfoldable pub is_usable_db_key : ℕ → String → Option ℕ → Bool
unfolding is_truthy text_length
is_usable_db_key now key synced_at =
    is_truthy key
    && leb 43 (text_length key)
    && (elim synced_at [ none ↦ true | some ts ↦ leb (now - ts) 3600 ])

-- The scan over all heartbeats: those with a key that is long enough.
unfoldable pub scan_beats : Dict String Beat → Result (Unit {0}) (List LiveKeyResult)
unfolding key_of text_length
scan_beats [] = ok []
scan_beats ((id, b) ∷ beats) =
    let rest = scan_beats beats in
    key_of b >>= λ found. rest >>= λ candidates. elim found [
      | none ↦ ok candidates
      | some k ↦ ok (
          if leb 43 (text_length k)
          then record { public_key = k; node_id = id } ∷ candidates
          else candidates)
    ]

unfoldable pub find_candidate : List String → List LiveKeyResult → Option LiveKeyResult
find_candidate ids [] = none
find_candidate ids (c ∷ cs) =
    let rest = find_candidate ids cs in if member c.node_id ids then some c else rest

-- One of the tried names, or the only one that there is.
unfoldable pub pick_candidate : List String → List LiveKeyResult → Option LiveKeyResult
unfolding find_candidate
pick_candidate ids cs = elim (find_candidate ids cs) [
  | some c ↦ some c
  | none ↦ elim cs [ [] ↦ none | c ∷ rest ↦ if is_empty rest then some c else none ]
]

-- The last resort, whose exceptions are passed over.
unfoldable pub last_resort : Dict String Beat → List String → Result KeyError LiveKeyResult
unfolding scan_beats pick_candidate
last_resort beats ids = elim (scan_beats beats) [
  | err e ↦ err no_heartbeat
  | ok cs ↦ elim (pick_candidate ids cs) [ none ↦ err no_heartbeat | some c ↦ ok c ]
]

-- The agent's mode, once Redis is there.
unfoldable pub fetch_from_beats :
    ℕ → Dict String Beat → String → List String → String → Option ℕ → Result KeyError LiveKeyResult
unfolding ids_to_try find_beat is_usable_db_key last_resort
fetch_from_beats now beats server_id fallbacks db_key synced_at =
    elim (find_beat beats (ids_to_try server_id fallbacks)) [
      | err e ↦ err heartbeat_failed
      | ok (some found) ↦ ok found
      | ok none ↦
          if is_usable_db_key now db_key synced_at
          then ok (record { public_key = db_key; node_id = server_id })
          else last_resort beats (ids_to_try server_id fallbacks)
    ]

-- The agent's mode. Without Redis only the database's key is left, whatever its age.
unfoldable pub fetch_by_agent :
    ℕ
    → Option (Dict String Beat)
    → String
    → List String
    → String
    → Option ℕ
    → Result KeyError LiveKeyResult
unfolding fetch_from_beats is_truthy text_length
fetch_by_agent now none server_id fallbacks db_key synced_at =
    if is_truthy db_key && leb 43 (text_length db_key)
    then ok (record { public_key = db_key; node_id = server_id })
    else err heartbeat_failed
fetch_by_agent now (some beats) server_id fallbacks db_key synced_at =
    fetch_from_beats now beats server_id fallbacks db_key synced_at

-- The columns of a node that a runtime discovers, as far as they are read here.
pub record LiveNode : Type 0 where
  pub node_id : String
  pub public_key : Option String
  pub endpoint_ip : Option String
  pub listen_port : Option ℕ

-- What the runtime answers when it is asked for nodes; `get_node_for_sync` is missing in some
-- adapters.
pub record Discovery : Type 0 where
  pub get_node_for_sync : Option (String → Result String (Option LiveNode))
  pub discover_nodes : Result String (List LiveNode)

-- `next((n for n in nodes if n.node_id == server_id), None)`
unfoldable pub node_of : String → List LiveNode → Option LiveNode
node_of server_id [] = none
node_of server_id (n ∷ ns) =
    let rest = node_of server_id ns in if n.node_id == server_id then some n else rest

abbrev pub asked_node : Discovery → String → Result String (Option LiveNode)
asked_node d server_id = elim d.get_node_for_sync [ none ↦ ok none | some get ↦ get server_id ]

-- The node, asked for and then looked up among all.
unfoldable pub node_for_key : Discovery → String → Result String (Option LiveNode)
unfolding node_of
node_for_key d server_id = asked_node d server_id >>= λ asked. elim asked [
  | some n ↦ ok (some n)
  | none ↦ d.discover_nodes >>= λ nodes. ok (node_of server_id nodes)
]

abbrev pub key_of_node : Option LiveNode → String
key_of_node none = ""
key_of_node (some n) = strip (or_text n.public_key "")

abbrev pub id_of_node : String → Option LiveNode → String
id_of_node server_id none = server_id
id_of_node server_id (some n) = or_text (some n.node_id) server_id

-- The docker mode: the node's key, or that of the database.
unfoldable pub fetch_by_runtime : Option Discovery → String → String → Result KeyError LiveKeyResult
unfolding node_for_key is_truthy text_length strip
fetch_by_runtime none server_id db_key = err no_runtime
fetch_by_runtime (some d) server_id db_key = elim (node_for_key d server_id) [
  | err e ↦ err (runtime_failed e)
  | ok node ↦
      if is_truthy (key_of_node node)
      then ok (record { public_key = key_of_node node; node_id = id_of_node server_id node })
      else if leb 43 (text_length db_key)
      then ok (record { public_key = db_key; node_id = server_id })
      else err no_key
]

-- `db_key` is the trimmed `fallback_public_key`, empty where there is none.
unfoldable pub live_key_fetch :
    Bool
    → ℕ
    → Option (Dict String Beat)
    → Option Discovery
    → String
    → List String
    → String
    → Option ℕ
    → Result KeyError LiveKeyResult
unfolding fetch_by_agent fetch_by_runtime is_truthy
live_key_fetch by_agent now redis runtime server_id fallbacks db_key synced_at =
    if not (is_truthy server_id)
    then err missing_id
    else if by_agent
    then fetch_by_agent now redis server_id fallbacks db_key synced_at
    else fetch_by_runtime runtime server_id db_key
