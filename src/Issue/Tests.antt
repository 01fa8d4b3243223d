-- ===== src/Issue/Tests.antt =====
-- A user with room for one device, and a server whose node has a key.
use vpn_suite.Prelude.{
  String, true, false, Option, none, some, List, [], ◌∷◌, ◌≡◌, refl, arith, ◌==◌, string_eq, nat_eq,
  ◌&&◌, if◌then◌else◌, strip, Result, ok, err, Dict, pos, decimal, map,
}
use vpn_suite.Config.Values.{Value, null, parse_int, parse_h_value}
use vpn_suite.Config.Text.Fields.{
  obfuscation_fault, validate_key_b64, validate_address, validate_endpoint, validate_allowed_ips,
}
use vpn_suite.Config.Text.{build_config}
use vpn_suite.Config.Text.Wrappers.{get_obfuscation_params, select_awg_profile}
use vpn_suite.Addresses.Allocate.{allocate_address_for_device}
use vpn_suite.Config.Obfuscation.{empty_text, normalize_awg2}
use vpn_suite.Reconcile.Peer.{PeerConfigLike}
use vpn_suite.Reconcile.Apply.{returned}
use vpn_suite.Reconcile.Nodes.{Adapter}
use vpn_suite.Migrate.Moves.{placed, IsExact}
use vpn_suite.Issue.Key.{Beat, beat, LiveKeyResult}
use vpn_suite.Issue.Rows.{Subscription, Server, Tables, Runtime, IssueSettings}
use vpn_suite.Issue.Checks.{IssueRequest, Generated, IssueResult, IssueError, config_refused}
use vpn_suite.Issue.Prepare.{Prepared, Outside}
use vpn_suite.Issue.Device.{prepare, issue_device}
use vpn_suite.Issue.Limit.{IsCounted, issue_device-IsCounted}
use vpn_suite.Balancer.Select.{Node, select_node}
use vpn_suite.Issue.Trial.{
  TrialTables, TrialSettings, TrialError, trial_already_used, TrialIds, trial_hours, start_trial,
}
use vpn_suite.Issue.Trial.Once.{trial_once}
use vpn_suite.Issue.Placed.{IsPlaced, is_marked, issued-IsPlaced, refused_config_leaves_peer}

abbrev server_key_text : String
server_key_text = "AAAAAAAAAAAAAAAAAAAAAAAAAAAAAAAAAAAAAAAAAAA="

abbrev pub client_key_text : String
client_key_text = "BBBBBBBBBBBBBBBBBBBBBBBBBBBBBBBBBBBBBBBBBBB="

abbrev pub Held : Type 0
Held = String → String → Option PeerConfigLike

-- The nodes list the peer of the one client.
abbrev pub nodes : Adapter
nodes = record {
  State = Held;
  add_peer = λ n p s.
      (returned, λ m k. if n == m && p.public_key == k then some (placed p (s m k)) else s m k);
  remove_peer = λ n j s. (returned, λ m k. if n == m && j == k then none else s m k);
  list_peers = λ n s. (
    returned,
    elim (s n client_key_text) [
      | none ↦ []
      | some p ↦
          record { public_key = some p.public_key; allowed_ips = p.allowed_ips; allowed_ip = none }
          ∷ []
    ],
  );
  ensure_reply_routes = λ n s. (returned, s);
  discover_nodes = λ s. (returned, []);
}

pub nodes-IsExact : IsExact nodes
nodes-IsExact = record {
  config_at = λ s. s;
  add_peer_sets = λ n p s h m k. refl;
  add_peer_others = λ n p s m k h. ground arith;
  remove_peer_drops = λ n j s h m k. refl;
}

abbrev pub runtime : Runtime
runtime = record {
  adapter = nodes;
  discovery = λ s. record {
    get_node_for_sync = none;
    discover_nodes = ok (
        record {
          node_id = "n1";
          public_key = some server_key_text;
          endpoint_ip = some "8.8.4.4";
          listen_port = some 51820;
        }
        ∷ []);
  };
  obfuscation_of = λ n s. none;
}

-- Parsers that take every text.
abbrev pub outside : Outside
outside = record {
  parsers = record {
    ip_version = λ s. some 4;
    is_interface = λ s. true;
    is_network = λ s. true;
    decoded_length = λ s. some 32;
  };
  is_private = λ s. some false;
  scores = record {
    is_degraded_at_least = λ n. true;
    is_healthy = λ n. true;
    before = λ n m. false;
  };
  redis = none;
  redact = λ s. s;
}

abbrev pub settings : IssueSettings
settings = record {
  node_mode = "real";
  node_discovery = "docker";
  vpn_default_host = none;
  issue_fallback_on_peer_failure = false;
}

abbrev request : IssueRequest
request = record { user_id = 7; subscription_id = "s1"; server_id = some "n1"; topology = none }

abbrev pub generated : Generated
generated = record {
  now = 100;
  applied_at = 101;
  device_id = "d1";
  private_key = client_key_text;
  public_key = client_key_text;
  preshared_key = client_key_text;
}

-- The server's row, with an endpoint or without.
abbrev server : Option String → Server
server endpoint = record {
  id = "n1";
  is_active = true;
  is_draining = false;
  api_endpoint = none;
  public_key = none;
  public_key_synced_at = none;
  vpn_endpoint = endpoint;
  preshared_key = none;
  amnezia_h = none ∷ none ∷ none ∷ none ∷ [];
}

abbrev pub tables : Option String → Dict String Value → Tables Held
tables endpoint params = record {
  users = record { id = 7; tg_id = 70; is_banned = false } ∷ [];
  subscriptions =
      record {
        id = "s1";
        user_id = 7;
        plan_id = "p1";
        valid_from = 0;
        valid_until = 200;
        device_limit = 1;
        status = "active";
        is_trial = false;
      }
      ∷ [];
  servers = server endpoint ∷ [];
  profiles =
      record {
        server_id = "n1";
        request_params = params;
        mtu = none;
        disable_ipv6_on_unstable_route = false;
      }
      ∷ [];
  devices = [];
  issues = [];
  nodes = λ n k. none;
}

abbrev issued : Result IssueError IssueResult × Tables Held
issued =
    issue_device runtime true outside settings request generated
      (tables (some "vpn.example:51820") [])

abbrev issued_result : IssueResult
issued_result = elim issued.0 [
  | ok res ↦ res
  | err e ↦ record {
    device_id = "";
    private_key = "";
    configs = ("", "", "");
    peer_created = false;
  }
]

is_issued : issued ≡ (ok issued_result, issued.1)
unfolding issue_device decimal get_obfuscation_params allocate_address_for_device build_config
    validate_key_b64 validate_address validate_endpoint validate_allowed_ips select_awg_profile
    normalize_awg2 parse_int parse_h_value
is_issued = refl

key_is_trimmed : strip client_key_text ≡ client_key_text
unfolding strip
key_is_trimmed = refl

peer_was_created : issued_result.peer_created ≡ true
unfolding issue_device decimal get_obfuscation_params allocate_address_for_device build_config
    validate_key_b64 validate_address validate_endpoint validate_allowed_ips select_awg_profile
    normalize_awg2 parse_int parse_h_value
peer_was_created = refl

issue_device-IsCounted_example :
    IsCounted generated request
      (tables (some "vpn.example:51820") []).subscriptions
      []
      "s1"
      issued.0
      issued.1.devices
issue_device-IsCounted_example =
    issue_device-IsCounted runtime true outside settings request generated
      (tables (some "vpn.example:51820") []) "s1"

issued-IsPlaced_example :
    (p : Prepared) × (prepare runtime true outside settings request generated
        (tables (some "vpn.example:51820") [])
      ≡ ok p)
    × IsPlaced runtime nodes-IsExact generated p issued.1
    × (is_marked "d1" issued.1.devices ≡ true)
issued-IsPlaced_example =
    issued-IsPlaced runtime nodes-IsExact (λ n s m k. refl) true outside settings request generated
      key_is_trimmed (tables (some "vpn.example:51820") []) issued_result issued.1 is_issued
      peer_was_created

-- A profile with a null `I1` has its configurations refused.
abbrev pub null_params : Dict String Value
null_params = ("amnezia_i1", null) ∷ []

abbrev refused : Result IssueError IssueResult × Tables Held
refused =
    issue_device runtime true outside settings request generated
      (tables (some "vpn.example:51820") null_params)

abbrev prepared : Prepared
prepared =
    elim (prepare runtime true outside settings request generated
        (tables (some "vpn.example:51820") null_params))
      as (λ m. Prepared) [ ok p ↦ p | err e ↦ no_preparation ]
  where
    no_preparation : Prepared
    no_preparation = record {
      server = server none;
      allowed_ips = "";
      preshared_key = "";
      config = record {
        server_public_key = "";
        client_private_key_b64 = "";
        endpoint = none;
        allowed_ips = "";
        dns = none;
        persistent_keepalive = 0;
        obfuscation = [];
        mtu = none;
        address = none;
        preshared_key = none;
      };
    }

is_prepared :
    prepare runtime true outside settings request generated
      (tables (some "vpn.example:51820") null_params)
    ≡ ok prepared
unfolding prepare decimal get_obfuscation_params allocate_address_for_device
is_prepared = refl

is_refused : refused ≡ (err (config_refused (obfuscation_fault (empty_text "I1") ∷ [])), refused.1)
unfolding issue_device decimal get_obfuscation_params allocate_address_for_device build_config
    validate_key_b64 validate_address validate_endpoint validate_allowed_ips select_awg_profile
    normalize_awg2 parse_int parse_h_value
is_refused = refl

refused_config_leaves_peer_example : IsPlaced runtime nodes-IsExact generated prepared refused.1
refused_config_leaves_peer_example =
    refused_config_leaves_peer runtime nodes-IsExact (λ n s m k. refl) true outside settings request
      generated key_is_trimmed (tables (some "vpn.example:51820") null_params) refl refl prepared
      is_prepared (obfuscation_fault (empty_text "I1") ∷ []) refused.1 is_refused

-- The server `n1` sends nothing, and the only heartbeat with a key is another server's.
abbrev beats : Dict String Beat
beats = ("n2", beat (some server_key_text)) ∷ []

abbrev found : LiveKeyResult
found = record { public_key = server_key_text; node_id = "n2" }

-- A new user starts a trial on the node that the balancer selects.
abbrev before_trial : TrialTables Held
before_trial = record {
  tables = record (tables (some "vpn.example:51820") []) { users = []; subscriptions = [] };
  plans =
      record { id = "p2"; is_free = true; duration_days = 30 }
      ∷ record { id = "p3"; is_free = true; duration_days = 1 }
      ∷ [];
  funnel = [];
}

abbrev trial_settings : TrialSettings
trial_settings = record { trial_plan_id = ""; trial_duration_hours = pos 500 }

abbrev trial_ids : TrialIds
trial_ids = record { user_id = 9; subscription_id = "s9" }

abbrev topology : Option (List Node)
topology = some (
    record {
      node_id = "n1";
      status = "healthy";
      peer_count = 0;
      max_peers = 10;
      is_draining = false;
      capabilities = [];
    }
    ∷ [])

abbrev trial : Result TrialError IssueResult × TrialTables Held
trial =
    start_trial runtime true outside settings trial_settings 90 trial_ids topology generated
      before_trial

trial_starts : trial ≡ (ok issued_result, trial.1)
unfolding start_trial select_node issue_device decimal get_obfuscation_params
    allocate_address_for_device build_config validate_key_b64 validate_address validate_endpoint
    validate_allowed_ips select_awg_profile normalize_awg2 parse_int parse_h_value trial_hours
trial_starts = refl

trial_ends : map (λ (s : Subscription). s.valid_until) trial.1.tables.subscriptions ≡ 604900 ∷ []
unfolding start_trial select_node issue_device trial_hours get_obfuscation_params
    allocate_address_for_device build_config validate_key_b64 validate_address validate_endpoint
    validate_allowed_ips select_awg_profile normalize_awg2 parse_int parse_h_value
trial_ends = refl

trial_once_example :
    (start_trial runtime true outside settings trial_settings 90 trial_ids none generated trial.1).0
    ≡ err trial_already_used
trial_once_example =
    trial_once runtime true outside settings trial_settings trial_settings 90 trial_ids trial_ids
      topology none generated generated before_trial trial.1 trial.1 issued_result trial_starts refl
