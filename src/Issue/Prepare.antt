-- ===== src/Issue/Prepare.antt =====
-- What `issue_device` gathers between its checks and the device's row: the server's key, the
-- address, and the arguments of the configurations.
use vpn_suite.Prelude.{
  ℕ, String, Bool, false, not, ◌&&◌, ◌||◌, Option, none, some, List, [], ◌∷◌, ◌==◌, string_eq,
  nat_eq, if◌then◌else◌, is_some, is_truthy, strip, or_text, Dict, Result, ok, err, ◌>>=◌, ℤ, pos,
  negsuc,
}
use vpn_suite.Devices.Rows.{Device}
use vpn_suite.Balancer.Select.{Scores}
use vpn_suite.Addresses.Allocate.{allocate_address_for_device}
use vpn_suite.Config.Values.{Value, text, either_at, int_of, text_of, is_true}
use vpn_suite.Config.Text.Fields.{Parsers}
use vpn_suite.Config.Text.Wrappers.{ClientConfig}
use vpn_suite.Issue.Key.{Beat, KeyError, Discovery, heartbeat_container_id, live_key_fetch}
use vpn_suite.Issue.Rows.{Server, ServerProfile, IssueSettings}
use vpn_suite.Issue.Endpoint.{resolve_endpoint, public_endpoint, endpoint_text}
use vpn_suite.Issue.Material.{
  dns_of, mtu_of, client_keepalive_of, preshared_key_of, obfuscation_for,
}
use vpn_suite.Issue.Checks.{
  IssueError, params_refused, no_free_address, server_public_key_required, not_synced, Generated,
}

-- The server's key, as it is stored.
abbrev pub stored_key : Server → String
stored_key s = strip (or_text s.public_key "")

abbrev pub raise_key {ℓ} : {A : Type ℓ} → Result KeyError A → Result IssueError A
raise_key (ok a) = ok a
raise_key (err e) = err (not_synced e)

abbrev pub names_of : Option String → List String
names_of none = []
names_of (some n) = n ∷ []

-- The key of the server: the stored one without a runtime in mock mode, else that which is fetched.
unfoldable pub server_key :
    IssueSettings
    → ℕ
    → Option (Dict String Beat)
    → Option Discovery
    → Server
    → Result IssueError String
unfolding live_key_fetch heartbeat_container_id strip is_truthy
server_key settings now redis d s =
    if settings.node_mode == "mock" && not (is_some d)
    then (if is_truthy (stored_key s) then ok (stored_key s) else err server_public_key_required)
    else raise_key (
        live_key_fetch (settings.node_discovery == "agent" || settings.node_mode == "agent") now
          redis d s.id (names_of (heartbeat_container_id s.api_endpoint s.id)) (stored_key s)
          s.public_key_synced_at)
      >>= λ live. ok live.public_key

abbrev pub params_of : Option ServerProfile → Dict String Value
params_of none = []
params_of (some profile) = profile.request_params

abbrev pub mtu_column : Option ServerProfile → Option ℤ
mtu_column none = none
mtu_column (some profile) = profile.mtu

abbrev pub is_restricted : Option ServerProfile → Bool
is_restricted none = false
is_restricted (some profile) = profile.disable_ipv6_on_unstable_route

-- `{"subnet_address"} or {"amnezia_subnet"}`, as a text, and the prefix length.
abbrev pub subnet_of : Dict String Value → Option String
subnet_of params =
    let v = either_at "subnet_address" "amnezia_subnet" params in
    if is_true v then some (text_of v) else none

abbrev pub cidr_of : Dict String Value → Option ℤ
cidr_of params =
    let v = either_at "subnet_cidr" "amnezia_cidr" params in
    if is_true v then int_of v else some (pos 24)

-- A prefix length that `int()` accepts; the peer's address, which alone is used, does not show it.
abbrev pub cidr_number : Option ℤ → Option ℕ
cidr_number none = none
cidr_number (some (pos n)) = some n
cidr_number (some (negsuc n)) = some 0

-- What stands before the device's row is added: the server with the columns that are written to it,
-- the peer's address, and what the configurations are made of.
pub record Prepared : Type 0 where
  pub server : Server
  pub allowed_ips : String
  pub preshared_key : String
  pub config : ClientConfig

abbrev pub or_raise {ℓ} : {A : Type ℓ} → IssueError → Option A → Result IssueError A
or_raise e none = err e
or_raise e (some a) = ok a

-- The arguments from outside: the parsers, what `ipaddress` says of an address, the balancer's
-- scores, Redis, and the redaction of a log text.
pub record Outside : Type 0 where
  pub parsers : Parsers
  pub is_private : String → Option Bool
  pub scores : Scores
  pub redis : Option (Dict String Beat)
  pub redact : String → String

-- The row of a server, with the key, the endpoint and the headers that are found.
abbrev pub with_found : String → Option String → List (Option ℤ) → Server → Server
with_found key endpoint hs s = record s {
  public_key = if stored_key s == key then s.public_key else some key;
  vpn_endpoint = endpoint;
  amnezia_h = hs;
}

-- The endpoint that is asked for, or that of the server; and the server's column.
abbrev pub endpoint_for :
    (String → Option Bool)
    → Option Discovery
    → IssueSettings
    → Option String
    → Server
    → Dict String Value
    → Value × Option String
endpoint_for is_private d settings none server params =
    resolve_endpoint is_private d server.id settings.vpn_default_host server.vpn_endpoint params
endpoint_for is_private d settings (some e) server params = (text e, server.vpn_endpoint)

-- The peer's address: one that is kept, or a new one.
abbrev pub address_for : Option String → Dict String Value → List Device → Option String
address_for (some a) params devices = some a
address_for none params devices =
    elim (allocate_address_for_device (subnet_of params) (cidr_number (cidr_of params)) devices) [
      | none ↦ none
      | some allocated ↦ some allocated.1
    ]

-- What differs between an issue and a rotation: the endpoint that is asked for, the address that is
-- kept, and the networks that the client sends through the tunnel.
pub record Wishes : Type 0 where
  pub client_endpoint : Option String
  pub kept_address : Option String
  pub tunnel : String

-- The configurations' common part, from the profile, once the server's key is known.
unfoldable pub gather :
    Outside
    → IssueSettings
    → Generated
    → Wishes
    → Option Discovery
    → Option (Dict String Value)
    → String
    → Server
    → Option ServerProfile
    → List Device
    → Result IssueError Prepared
unfolding resolve_endpoint public_endpoint endpoint_text dns_of mtu_of client_keepalive_of
    preshared_key_of obfuscation_for
gather o settings g wishes d runtime_obf key server profile devices =
    let params = params_of profile in
    let (endpoint, vpn_endpoint) =
      endpoint_for o.is_private d settings wishes.client_endpoint server params in
    let psk = preshared_key_of params server.preshared_key g.preshared_key in
    or_raise params_refused (obfuscation_for settings.node_mode runtime_obf params server.amnezia_h)
    >>= λ obf. or_raise params_refused (dns_of params) >>= λ dns.
        or_raise no_free_address (address_for wishes.kept_address params devices) >>= λ allowed.
        ok (record {
          server = with_found key vpn_endpoint obf.1 server;
          allowed_ips = allowed;
          preshared_key = psk;
          config = record {
            server_public_key = key;
            client_private_key_b64 = g.private_key;
            endpoint =
                endpoint_text (public_endpoint o.is_private settings.vpn_default_host endpoint);
            allowed_ips = wishes.tunnel;
            dns = some dns;
            persistent_keepalive = client_keepalive_of params;
            obfuscation = obf.0;
            mtu = some (pos (mtu_of (mtu_column profile) params));
            address = some allowed;
            preshared_key = some psk;
          };
        })

-- An IPv4-only tunnel for a restricted profile.
abbrev pub tunnel_of : Option ServerProfile → String
tunnel_of profile = if is_restricted profile then "0.0.0.0/0" else "0.0.0.0/0, ::/0"

unfoldable pub prepare_with :
    Outside
    → IssueSettings
    → Generated
    → Option Discovery
    → Option (Dict String Value)
    → Server
    → Option ServerProfile
    → List Device
    → Result IssueError Prepared
unfolding server_key gather
prepare_with o settings g d runtime_obf server profile devices =
    server_key settings g.now o.redis d server >>= λ key.
    gather o settings g
      (record { client_endpoint = none; kept_address = none; tunnel = tunnel_of profile }) d
      runtime_obf key server profile devices
