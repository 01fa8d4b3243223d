-- ===== src/Config/Text/Wrappers.antt =====
-- backend/app/core/amnezia_config.py: the obfuscation parameters of a profile, the choice of the
-- configuration's profile, and the three configurations of a device. Metrics are left out.
use vpn_suite.Prelude.{
  zero, suc, ◌+◌, ◌-◌, String, Bool, true, false, not, ◌&&◌, Option, none, some, List, [], ◌∷◌,
  ◌++◌, if◌then◌else◌, is_empty, is_truthy, strip, or_text, leb, nat_beq, Dict, lookup, Result, ok,
  ◌>>=◌, ℕ, ℤ, pos, negsuc, string_eq,
}
use vpn_suite.Config.Values.{Value, null, flag, number, text, other, int_of, text_of, value_at}
use vpn_suite.Config.Text.Fields.{Fault, Parsers}
use vpn_suite.Config.Text.{
  ConfigProfile, wireguard_universal, awg_legacy_or_basic, awg_2_0_asc, build_config,
}

-- `s1 + 56`
abbrev pub plus_56 : ℤ → ℤ
plus_56 (pos n) = pos (n + 56)
plus_56 (negsuc n) = if leb n 55 then pos (55 - n) else negsuc (n - 56)

abbrev pub same_ℤ : ℤ → ℤ → Bool
same_ℤ (pos n) (pos m) = nat_beq n m
same_ℤ (negsuc n) (negsuc m) = nat_beq n m
same_ℤ _ _ = false

-- `int(params.get(key, default))`
unfoldable pub int_at : Dict String Value → String → ℤ → Option ℤ
unfolding int_of
int_at params key d = elim (lookup key params) [ none ↦ some d | some v ↦ int_of v ]

-- The loop over numeric entries, `none` where `int` raises.
unfoldable pub ints_at : Dict String Value → List (String × String × ℤ) → Option (Dict String Value)
unfolding int_at
ints_at params [] = some []
ints_at params ((k, param_key, d) ∷ entries) =
    let rest = ints_at params entries in
    elim (int_at params param_key d) as (λ o. Option (Dict String Value)) [
      | none ↦ none
      | some z ↦ elim rest as (λ o. Option (Dict String Value)) [
        | none ↦ none
        | some out ↦ some ((k, number z) ∷ out)
      ]
    ]

abbrev pub number_entries : List (String × String × ℤ)
number_entries =
    ("Jc", "amnezia_jc", pos 3)
    ∷ ("Jmin", "amnezia_jmin", pos 10)
    ∷ ("Jmax", "amnezia_jmax", pos 50)
    ∷ ("S1", "amnezia_s1", pos 213)
    ∷ ("S2", "amnezia_s2", pos 237)
    ∷ ("H1", "amnezia_h1", pos 10)
    ∷ ("H2", "amnezia_h2", pos 20)
    ∷ ("H3", "amnezia_h3", pos 30)
    ∷ ("H4", "amnezia_h4", pos 40)
    ∷ ("S3", "amnezia_s3", pos 0)
    ∷ ("S4", "amnezia_s4", pos 0)
    ∷ []

-- The loop over `I1` to `I5`: a null value becomes an empty text.
unfoldable pub texts_at : Dict String Value → List (String × String) → Dict String Value
unfolding text_of
texts_at params [] = []
texts_at params ((k, param_key) ∷ entries) =
    let rest = texts_at params entries in
    elim (lookup param_key params) [
      | none ↦ rest
      | some v ↦ elim v [ null ↦ (k, text "") ∷ rest | given ↦ (k, text (text_of given)) ∷ rest ]
    ]

abbrev pub text_entries : List (String × String)
text_entries =
    ("I1", "amnezia_i1")
    ∷ ("I2", "amnezia_i2")
    ∷ ("I3", "amnezia_i3")
    ∷ ("I4", "amnezia_i4")
    ∷ ("I5", "amnezia_i5")
    ∷ []

-- `_validate_s1_s2_constraint`
unfoldable pub keeps_s1_s2 : ℤ → ℤ → Bool
keeps_s1_s2 s1 s2 = not (same_ℤ (plus_56 s1) s2)

abbrev pub default_params : Dict String Value
default_params =
    ("Jc", number (pos 3))
    ∷ ("Jmin", number (pos 10))
    ∷ ("Jmax", number (pos 50))
    ∷ ("S1", number (pos 213))
    ∷ ("S2", number (pos 237))
    ∷ ("H1", number (pos 10))
    ∷ ("H2", number (pos 20))
    ∷ ("H3", number (pos 30))
    ∷ ("H4", number (pos 40))
    ∷ []

unfoldable pub s1_s2_fit : Dict String Value → Bool
unfolding int_at keeps_s1_s2
s1_s2_fit params = elim (int_at params "amnezia_s1" (pos 213)) [
  | none ↦ false
  | some s1 ↦ elim (int_at params "amnezia_s2" (pos 237)) [
    | none ↦ false
    | some s2 ↦ keeps_s1_s2 s1 s2
  ]
]

-- `none` where it raises.
unfoldable pub get_obfuscation_params : Dict String Value → Option (Dict String Value)
unfolding s1_s2_fit ints_at texts_at
get_obfuscation_params params =
    if is_empty params
    then some default_params
    else if s1_s2_fit params
    then elim (ints_at params number_entries) as (λ o. Option (Dict String Value)) [
      | none ↦ none
      | some out ↦ some (out ++ texts_at params text_entries)
    ]
    else none

-- A value that the loop of `_select_awg_profile` passes over.
unfoldable pub is_idle : Value → Bool
unfolding strip is_truthy
is_idle null = true
is_idle (flag b) = not b
is_idle (number (pos zero)) = true
is_idle (number (pos (suc n))) = false
is_idle (number (negsuc n)) = true
is_idle (text s) = not (is_truthy (strip s))
is_idle (other o) = false

unfoldable pub all_idle : Dict String Value → List String → Bool
unfolding is_idle value_at
all_idle obf [] = true
all_idle obf (k ∷ ks) = is_idle (value_at k obf) && all_idle obf ks

abbrev pub asc_only_keys : List String
asc_only_keys = "H1" ∷ "H2" ∷ "H3" ∷ "H4" ∷ "S3" ∷ "S4" ∷ "I1" ∷ "I2" ∷ "I3" ∷ "I4" ∷ "I5" ∷ []

unfoldable pub select_awg_profile : Dict String Value → ConfigProfile
unfolding all_idle
select_awg_profile obf = if all_idle obf asc_only_keys then awg_legacy_or_basic else awg_2_0_asc

-- The arguments that the three builders share.
pub record ClientConfig : Type 0 where
  pub server_public_key : String
  pub client_private_key_b64 : String
  pub endpoint : Option String
  pub allowed_ips : String
  pub dns : Option String
  pub persistent_keepalive : ℕ
  pub obfuscation : Dict String Value
  pub mtu : Option ℤ
  pub address : Option String
  pub preshared_key : Option String

-- A builder: its default for the DNS servers, its profile and its obfuscation.
unfoldable pub build_client_config :
    Parsers → String → ConfigProfile → Dict String Value → ClientConfig → Result (List Fault) String
build_client_config p dns profile obf c =
    build_config p
      (record {
        private_key = c.client_private_key_b64;
        address = or_text c.address "10.8.1.2/32";
        dns = some (or_text c.dns dns);
        mtu = c.mtu;
      })
      (record {
        public_key = c.server_public_key;
        endpoint = or_text c.endpoint "";
        allowed_ips = c.allowed_ips;
        persistent_keepalive = c.persistent_keepalive;
        preshared_key = c.preshared_key;
      })
      profile obf

unfoldable pub build_amnezia_client_config : Parsers → ClientConfig → Result (List Fault) String
unfolding build_client_config
build_amnezia_client_config p c =
    build_client_config p "1.1.1.1, 1.0.0.1, 8.8.8.8, 8.8.4.4" (select_awg_profile c.obfuscation)
      c.obfuscation c

unfoldable pub build_wg_obfuscated_config : Parsers → ClientConfig → Result (List Fault) String
unfolding build_client_config
build_wg_obfuscated_config p c =
    build_client_config p "1.1.1.1, 1.0.0.1" (select_awg_profile c.obfuscation) c.obfuscation c

unfoldable pub build_standard_wg_client_config : Parsers → ClientConfig → Result (List Fault) String
unfolding build_client_config
build_standard_wg_client_config p c =
    build_client_config p "1.1.1.1, 1.0.0.1, 8.8.8.8, 8.8.4.4" wireguard_universal [] c

-- The first exception ends it.
unfoldable pub build_all_configs :
    Parsers → ClientConfig → Result (List Fault) (String × String × String)
unfolding build_amnezia_client_config build_wg_obfuscated_config build_standard_wg_client_config
build_all_configs p c = build_amnezia_client_config p c >>= λ awg.
    build_wg_obfuscated_config p c >>= λ wg_obf.
    build_standard_wg_client_config p c >>= λ wg. ok (awg, wg_obf, wg)
