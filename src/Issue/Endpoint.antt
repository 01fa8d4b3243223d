-- ===== src/Issue/Endpoint.antt =====
-- node_endpoint_utils.py, and the endpoint of an issued configuration.
use Prim.Native.String.{◌++◌ as text_append}
use vpn_suite.Prelude.{
  ℕ, zero, suc, String, Bool, true, false, not, ◌&&◌, ◌||◌, Option, none, some, ◌==◌, string_eq,
  if◌then◌else◌, is_truthy, strip, or_text, Dict, Result, ok, err, ◌>>=◌, decimal,
}
use vpn_suite.Config.Values.{Value, text, is_true, text_of, value_at}
use vpn_suite.Config.Text.Fields.{split_first, split_last}
use vpn_suite.Issue.Key.{LiveNode, Discovery, asked_node, node_of}

-- `s.split(c)[0]`
abbrev pub before_first : ℕ → String → String
before_first c s = elim (split_first c s) [ none ↦ s | some (l, r) ↦ l ]

-- `_is_private_ip`; `is_private` is what `ipaddress` says of an address, `none` where it raises.
unfoldable pub is_private_ip : (String → Option Bool) → String → Bool
unfolding split_first strip is_truthy
is_private_ip is_private ip =
    let addr = before_first b':' (before_first b'/' (strip ip)) in
    if not (is_truthy addr) || addr == "localhost"
    then true
    else elim (is_private addr) [ none ↦ true | some private ↦ private ]

unfoldable pub is_endpoint_private : (String → Option Bool) → String → Bool
unfolding is_private_ip split_first strip is_truthy
is_endpoint_private is_private endpoint =
    let host = before_first b':' (strip endpoint) in
    if not (is_truthy endpoint) || not (is_truthy host)
    then false
    else is_private_ip is_private host

-- The node, asked for and then looked up; only the second passes over an exception.
unfoldable pub node_for_endpoint : Discovery → String → Result String (Option LiveNode)
unfolding node_of
node_for_endpoint d server_id = asked_node d server_id >>= λ asked. elim asked [
  | some n ↦ ok (some n)
  | none ↦ elim d.discover_nodes [ err e ↦ ok none | ok nodes ↦ ok (node_of server_id nodes) ]
]

abbrev pub with_port : String → ℕ → String
with_port host port = text_append host (text_append ":" (decimal port))

-- The endpoint of a node with a port.
unfoldable pub endpoint_of_node :
    (String → Option Bool) → Option String → Option String → ℕ → Option String
unfolding is_private_ip strip is_truthy decimal
endpoint_of_node is_private default_host endpoint_ip port =
    let host = strip (or_text default_host "") in
    let fallback = if is_truthy host then some (with_port host port) else none in
    elim endpoint_ip [
      | none ↦ fallback
      | some ip ↦
          if not (is_truthy ip) || is_private_ip is_private ip
          then fallback
          else some (with_port ip port)
    ]

unfoldable pub get_endpoint_from_runtime :
    (String → Option Bool) → Discovery → String → Option String → Result String (Option String)
unfolding node_for_endpoint endpoint_of_node
get_endpoint_from_runtime is_private d server_id default_host =
    node_for_endpoint d server_id >>= λ node. ok (elim node [
      | none ↦ none
      | some n ↦ elim n.listen_port [
        | none ↦ none
        | some zero ↦ none
        | some (suc p) ↦ endpoint_of_node is_private default_host n.endpoint_ip (suc p)
      ]
    ])

-- `server.vpn_endpoint or request_params.get("client_endpoint")`
unfoldable pub stored_endpoint : Option String → Dict String Value → Value
unfolding value_at is_truthy
stored_endpoint none params = value_at "client_endpoint" params
stored_endpoint (some e) params = if is_truthy e then text e else value_at "client_endpoint" params

-- What is asked of the runtime where none is stored; an exception is passed over.
unfoldable pub derived_endpoint :
    (String → Option Bool) → Option Discovery → String → Option String → Option String
unfolding get_endpoint_from_runtime strip is_truthy
derived_endpoint is_private none server_id default_host = none
derived_endpoint is_private (some d) server_id default_host =
    elim (get_endpoint_from_runtime is_private d server_id default_host) [
      | err e ↦ none
      | ok none ↦ none
      | ok (some e) ↦ if is_truthy e then some e else none
    ]

-- The endpoint, and that which the server's row is given.
unfoldable pub resolve_endpoint :
    (String → Option Bool)
    → Option Discovery
    → String
    → Option String
    → Option String
    → Dict String Value
    → Value × Option String
unfolding stored_endpoint derived_endpoint is_endpoint_private is_true
resolve_endpoint is_private d server_id default_host vpn_endpoint params =
    if is_true (stored_endpoint vpn_endpoint params)
    then (stored_endpoint vpn_endpoint params, vpn_endpoint)
    else elim (derived_endpoint is_private d server_id default_host) [
      | none ↦ (stored_endpoint vpn_endpoint params, vpn_endpoint)
      | some e ↦ (text e, if is_endpoint_private is_private e then vpn_endpoint else some e)
    ]

-- `endpoint.split(":")[-1].strip()`, or the default port.
unfoldable pub port_text : String → String
unfolding split_last strip
port_text endpoint = elim (split_last b':' endpoint) [ none ↦ "45790" | some (l, r) ↦ strip r ]

-- A private endpoint is replaced by the default host, if there is one. Only texts are looked at.
unfoldable pub public_endpoint : (String → Option Bool) → Option String → Value → Value
unfolding is_endpoint_private port_text strip is_truthy
public_endpoint is_private default_host (text e) =
    let host = strip (or_text default_host "") in
    if is_endpoint_private is_private e && is_truthy host
    then text (text_append host (text_append ":" (port_text e)))
    else text e
public_endpoint is_private default_host v = v

-- `endpoint or ""`, as a configuration is given it.
unfoldable pub endpoint_text : Value → Option String
unfolding is_true text_of
endpoint_text v = if is_true v then some (text_of v) else none
