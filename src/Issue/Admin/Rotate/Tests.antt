-- ===== src/Issue/Admin/Rotate/Tests.antt =====
-- A device with an address of its own, whose key is rotated on a node that holds the old one.
use vpn_suite.Prelude.{
  Dict, String, true, false, none, some, [], ◌∷◌, ◌==◌, string_eq, ◌&&◌, if◌then◌else◌, strip,
  Result, ok, err, ◌≡◌, refl, decimal,
}
use vpn_suite.Devices.Rows.{Device}
use vpn_suite.Config.Values.{Value, parse_int, parse_h_value}
use vpn_suite.Config.Obfuscation.{normalize_awg2, empty_text}
use vpn_suite.Config.Text.{build_config}
use vpn_suite.Config.Text.Fields.{
  obfuscation_fault, validate_key_b64, validate_address, validate_endpoint, validate_allowed_ips,
}
use vpn_suite.Config.Text.Wrappers.{get_obfuscation_params, select_awg_profile}
use vpn_suite.Issue.Rows.{Tables}
use vpn_suite.Issue.Checks.{config_refused}
use vpn_suite.Issue.Prepare.{Prepared}
use vpn_suite.Issue.Peer.{issued_config}
use vpn_suite.Issue.Tests.{
  client_key_text, Held, nodes-IsExact, runtime, outside, settings, generated, tables, null_params,
}
use vpn_suite.Issue.Admin.{AdminError, refused}
use vpn_suite.Issue.Admin.Rotate.{Rotation, rotation_of, admin_rotate_peer}
use vpn_suite.Issue.Admin.Rotate.Gone.{rotated_key_gone}
use vpn_suite.Issue.Admin.Rotate.Kept.{IsKept}
use vpn_suite.Issue.Admin.Rotate.Served.{IsServed, rotated-IsServed}

abbrev old_device : Device
old_device = record {
  id = "d1";
  subscription_id = "s1";
  issued_at = 5;
  server_id = "n1";
  public_key = "old";
  allowed_ips = some "10.8.1.7/32";
  preshared_key = none;
  revoked_at = none;
  suspended_at = none;
  expires_at = none;
  apply_status = some "APPLIED";
  last_applied_at = some 6;
  last_error = none;
  unstable_reason = none;
}

abbrev before : Dict String Value → Tables Held
before params = record (tables (some "vpn.example:51820") params) {
  devices = old_device ∷ [];
  nodes = λ n k.
      if n == "n1" && k == "old" then some (issued_config "old" "10.8.1.7/32" none) else none;
}

abbrev start : Dict String Value → Result AdminError Rotation
start params = rotation_of runtime true outside settings "n1" "d1" generated (before params)

abbrev found : Dict String Value → Rotation
found params = elim (start params) as (λ m. Rotation) [ ok r ↦ r | err e ↦ no_rotation ]
  where
    no_rotation : Rotation
    no_rotation = record {
      device = old_device;
      server = record {
        id = "";
        is_active = false;
        is_draining = false;
        api_endpoint = none;
        public_key = none;
        public_key_synced_at = none;
        vpn_endpoint = none;
        preshared_key = none;
        amnezia_h = [];
      };
      profile = none;
      key = "";
      discovery = none;
    }

is_found : start [] ≡ ok (found [])
unfolding rotation_of
is_found = refl

abbrev rotated : Dict String Value → Result AdminError (String × String × String) × Tables Held
rotated params = admin_rotate_peer runtime true outside settings "n1" "d1" generated (before params)

abbrev configs : String × String × String
configs = elim (rotated []).0 [ ok c ↦ c | err e ↦ ("", "", "") ]

is_rotated : rotated [] ≡ (ok configs, (rotated []).1)
unfolding admin_rotate_peer decimal get_obfuscation_params build_config validate_key_b64
    validate_address validate_endpoint validate_allowed_ips select_awg_profile normalize_awg2
    parse_int parse_h_value
is_rotated = refl

key_is_trimmed : strip client_key_text ≡ client_key_text
unfolding strip
key_is_trimmed = refl

rotated-IsServed_example :
    (p : Prepared) × IsKept (some "10.8.1.7/32") p.allowed_ips
    × IsServed runtime nodes-IsExact
        (λ n s m k. refl)
        true
        outside
        settings
        generated
        key_is_trimmed
        (found [])
        p
        (before []).devices
        (rotated []).1
unfolding rotation_of
rotated-IsServed_example =
    rotated-IsServed runtime nodes-IsExact (λ n s m k. refl) true outside settings generated
      key_is_trimmed "n1" "d1" (before []) (rotated []).1 (found []) configs is_found refl refl
      is_rotated

-- The configurations of a profile with a null `I1` are refused.
is_refused :
    (rotated null_params).0
    ≡ err (refused (config_refused (obfuscation_fault (empty_text "I1") ∷ [])))
unfolding admin_rotate_peer decimal get_obfuscation_params build_config validate_key_b64
    validate_address validate_endpoint validate_allowed_ips select_awg_profile normalize_awg2
    parse_int parse_h_value
is_refused = refl

is_found_null : start null_params ≡ ok (found null_params)
unfolding rotation_of
is_found_null = refl

rotated_key_gone_example : nodes-IsExact.config_at (rotated null_params).1.nodes "n1" "old" ≡ none
unfolding rotation_of
rotated_key_gone_example =
    rotated_key_gone runtime nodes-IsExact (λ n s m k. refl) true outside settings generated
      key_is_trimmed "n1" "d1" (before null_params) (found null_params) is_found_null refl refl refl
      refl
