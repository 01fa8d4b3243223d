-- ===== src/Config/Tests.antt =====
-- Concrete obfuscation dictionaries.
use vpn_suite.Prelude.{
  String, true, some, decimal, none, [], ◌∷◌, ◌≡◌, refl, Dict, ok, err, pos, negsuc,
}
use vpn_suite.Config.Values.{Value, null, number, text, single, range, parse_int, parse_h_value}
use vpn_suite.Config.Obfuscation.{
  Obfuscation, overlap, s1_meets_s2, normalize_awg2, normalize_legacy,
}
use native.Mathlib.Decide.{dec_lt}
use vpn_suite.Config.Text.Fields.{
  Parsers, validate_key_b64, validate_address, validate_endpoint, validate_allowed_ips,
}
use vpn_suite.Config.Text.{InterfaceFields, PeerFields, awg_2_0_asc, build_config}
use vpn_suite.Config.Text.Sound.{IsWritten, build_config-IsWritten}
use vpn_suite.Config.Obfuscation.Sound.{IsAscProfile, awg2_sound, IsLegacyProfile, legacy_sound}

abbrev profile : Dict String Value
profile =
    ("Jc", number (pos 4))
    ∷ ("Jmin", text " 40 ")
    ∷ ("Jmax", number (pos 70))
    ∷ ("S1", number (pos 30))
    ∷ ("S2", number (pos 40))
    ∷ ("S3", number (negsuc 0))
    ∷ ("H1", text "5-9")
    ∷ ("H2", number (pos 20))
    ∷ ("H3", null)
    ∷ []

abbrev normal_profile : Obfuscation
normal_profile = record {
  numbers = ("Jc", 4) ∷ ("Jmin", 40) ∷ ("Jmax", 70) ∷ ("S1", 30) ∷ ("S2", 40) ∷ [];
  texts = [];
  headers =
      record { key = "H1"; low = 5; high = 9; rendered = range 5 9 }
      ∷ record { key = "H2"; low = 20; high = 20; rendered = single (pos 20) }
      ∷ [];
}

profile_normalizes : normalize_awg2 profile none ≡ ok normal_profile
unfolding normalize_awg2 parse_int parse_h_value
profile_normalizes = refl

current_profile_fits : IsAscProfile none normal_profile
current_profile_fits = awg2_sound profile none normal_profile profile_normalizes

abbrev legacy : Dict String Value
legacy =
    ("Jc", number (pos 4))
    ∷ ("Jmin", text "64")
    ∷ ("Jmax", number (pos 70))
    ∷ ("H1", text "0")
    ∷ ("I1", text " x ")
    ∷ []

abbrev legacy_normalized : Obfuscation
legacy_normalized = record {
  numbers = ("Jc", 4) ∷ ("Jmin", 64) ∷ ("Jmax", 70) ∷ [];
  texts = ("I1", "x") ∷ [];
  headers = [];
}

legacy_normalizes : normalize_legacy legacy ≡ ok legacy_normalized
unfolding normalize_legacy parse_int
legacy_normalizes = refl

old_profile_fits : IsLegacyProfile legacy_normalized
old_profile_fits = legacy_sound legacy legacy_normalized legacy_normalizes

overlap_refused :
    normalize_awg2 (("H1", text "5-9") ∷ ("H4", number (pos 7)) ∷ []) none ≡ err (overlap "H1" "H4")
unfolding normalize_awg2 parse_int parse_h_value
overlap_refused = refl

pair_refused :
    normalize_legacy (("S1", number (pos 4)) ∷ ("S2", number (pos 60)) ∷ []) ≡ err s1_meets_s2
unfolding normalize_legacy parse_int
pair_refused = refl

-- A whole configuration, with parsers that take every text.
abbrev parsers : Parsers
parsers = record {
  ip_version = λ s. some 4;
  is_interface = λ s. true;
  is_network = λ s. true;
  decoded_length = λ s. some 32;
}

abbrev key : String
key = "AAAAAAAAAAAAAAAAAAAAAAAAAAAAAAAAAAAAAAAAAAA="

abbrev interface : InterfaceFields
interface = record {
  private_key = key;
  address = " 10.8.1.2/32";
  dns = none;
  mtu = some (pos 1200);
}

abbrev peer : PeerFields
peer = record {
  public_key = key;
  endpoint = "vpn.example:51820";
  allowed_ips = "0.0.0.0/0,::/0";
  persistent_keepalive = 25;
  preshared_key = none;
}

abbrev written : String
written =
    "[Interface]\nPrivateKey = AAAAAAAAAAAAAAAAAAAAAAAAAAAAAAAAAAAAAAAAAAA=\nAddress = 10.8.1.2/32\nDNS = 1.1.1.1, 1.0.0.1, 8.8.8.8, 8.8.4.4\nMTU = 1200\nJc = 4\nJmin = 40\nJmax = 70\nS1 = 30\nS2 = 40\nH1 = 5-9\nH2 = 20\n\n[Peer]\nPublicKey = AAAAAAAAAAAAAAAAAAAAAAAAAAAAAAAAAAAAAAAAAAA=\nEndpoint = vpn.example:51820\nAllowedIPs = 0.0.0.0/0, ::/0\nPersistentKeepalive = 25\n"

config_builds : build_config parsers interface peer awg_2_0_asc profile ≡ ok written
unfolding build_config normalize_awg2 parse_int parse_h_value validate_key_b64 validate_address
    validate_endpoint validate_allowed_ips decimal dec_lt
config_builds = refl

build_config-IsWritten_example : IsWritten parsers interface peer awg_2_0_asc profile written
build_config-IsWritten_example =
    build_config-IsWritten parsers interface peer awg_2_0_asc profile written config_builds
