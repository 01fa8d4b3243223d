-- ===== src/NodeAgent/Plan.antt =====
-- The first half of `_reconcile`: the maps of desired and running peers, and the three lists.
use vpn_suite.Prelude.{
  zero, suc, ℕ, String, Bool, false, ◌&&◌, ◌||◌, not, Option, none, some, strip, is_truthy, or_text,
  text_or_none, is_some, if◌then◌else◌, List, [], ◌∷◌, filter, Dict, lookup, contains, insert,
  string_eq, ◌==◌,
}
use vpn_suite.NodeAgent.Keys.{sanitize_pubkey}

-- One peer of the control plane's answer; a missing or null key is `none`.
pub record DesiredPeer : Type 0 where
  pub public_key : Option String
  pub allowed_ips : Option String
  pub preshared_key : Option String
  pub persistent_keepalive : Option ℕ

-- One value of `desired_map`.
pub record Spec : Type 0 where
  pub allowed_ips : String
  pub keepalive : ℕ
  pub preshared_key : Option String

-- A peer of the interface, as `_parse_dump` reads it.
pub record Peer : Type 0 where
  pub public_key : String
  pub allowed_ips : String
  pub last_handshake_ts : ℕ
  pub rx : ℕ
  pub tx : ℕ
  pub endpoint : String

-- `int(p.get("persistent_keepalive") or 25)`
abbrev keepalive_of : Option ℕ → ℕ
keepalive_of none = 25
keepalive_of (some n) = elim n [ zero ↦ 25 | suc m ↦ suc m ]

unfoldable pub spec_of : DesiredPeer → Spec
spec_of p = record {
  allowed_ips = strip (or_text p.allowed_ips "0.0.0.0/0, ::/0");
  keepalive = keepalive_of p.persistent_keepalive;
  preshared_key = text_or_none (strip (or_text p.preshared_key ""));
}

-- The loop that fills `desired_map`; an invalid key raises, and nothing has been done by then.
unfoldable pub desired_map_from : Dict String Spec → List DesiredPeer → Option (Dict String Spec)
desired_map_from m [] = some m
desired_map_from m (p ∷ ps) = elim (sanitize_pubkey (strip (or_text p.public_key ""))) [
  | none ↦ none
  | some pk ↦ desired_map_from (insert pk (spec_of p) m) ps
]

-- The comprehension that fills `runtime_map`.
unfoldable pub runtime_map_from : Dict String Peer → List Peer → Dict String Peer
runtime_map_from m [] = m
runtime_map_from m (p ∷ ps) =
    runtime_map_from (if is_truthy p.public_key then insert p.public_key p m else m) ps

-- The keys of `to_add` and `to_update` stand here with their entry of `desired_map`, which the
-- loops over them look up.
unfoldable pub to_add : Dict String Peer → Dict String Spec → List (String × Spec)
to_add runtime desired = filter (λ e. not (contains e.0 runtime)) desired

unfoldable pub to_remove : Dict String Spec → Dict String Peer → List (String × Peer)
to_remove desired runtime = filter (λ e. not (contains e.0 desired)) runtime

-- `allowed_changed or has_psk`
unfoldable pub is_stale : Spec → Peer → Bool
is_stale spec rp =
    (is_truthy spec.allowed_ips && not (spec.allowed_ips == strip rp.allowed_ips))
    || is_some spec.preshared_key

unfoldable pub needs_update : Dict String Peer → String × Spec → Bool
needs_update runtime (pk, spec) = elim (lookup pk runtime) [
  | none ↦ false
  | some rp ↦ is_stale spec rp
]

unfoldable pub to_update : Dict String Peer → Dict String Spec → List (String × Spec)
to_update runtime desired = filter (needs_update runtime) desired
