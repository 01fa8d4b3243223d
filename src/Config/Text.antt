-- ===== src/Config/Text.antt =====
-- `build_config` of backend/app/core/config_builder.py. The parsers of the `ipaddress` and `base64`
-- modules are parameters. Digits are those of ASCII.
pub mod Fields
pub mod Wrappers
pub mod Sound
use Prim.Native.String.{◌++◌ as text_append}
use vpn_suite.Prelude.{
  ℕ, zero, suc, String, Bool, true, false, ◌&&◌, ◌||◌, Option, none, some, List, [], ◌∷◌, ◌++◌,
  if◌then◌else◌, is_empty, is_truthy, strip, or_text, Dict, lookup, Result, ok, err, ◌>>=◌, ℤ, pos,
  negsuc, decimal, decimal_ℤ, string_eq, ◌==◌,
}
use vpn_suite.Config.Values.{Value, HValue, single, range}
use vpn_suite.Config.Obfuscation.{Header, Obfuscation, normalize_legacy, normalize_awg2, Error}
use vpn_suite.Config.Text.Fields.{
  Fault, Parsers, wrong_key, validate_key_b64, validate_address, validate_endpoint,
  validate_allowed_ips, no_address, not_allowed, obfuscation_fault,
}

-- `universal_safe` and `awg_safe` are other names of the first and the third.
pub data ConfigProfile : Type 0 where
  wireguard_universal awg_legacy_or_basic awg_2_0_asc mobile_optimized : ConfigProfile

pub record InterfaceFields : Type 0 where
  pub private_key : String
  pub address : String
  pub dns : Option String
  pub mtu : Option ℤ

pub record PeerFields : Type 0 where
  pub public_key : String
  pub endpoint : String
  pub allowed_ips : String
  pub persistent_keepalive : ℕ
  pub preshared_key : Option String

-- A text that a validator returns, or none, and the error that it adds.
abbrev pub value_of {ℓ} : {E : Type ℓ} → Result E String → String
value_of (ok s) = s
value_of (err e) = ""

abbrev pub faults_of {ℓ} : {E : Type ℓ} → Result E String → List E
faults_of (ok s) = []
faults_of (err e) = e ∷ []

abbrev pub default_dns : String
default_dns = "1.1.1.1, 1.0.0.1, 8.8.8.8, 8.8.4.4"

unfoldable pub dns_text : Option String → String
unfolding is_truthy strip
dns_text none = default_dns
dns_text (some dns) = if is_truthy dns then strip dns else default_dns

-- The MTU that is written, and that the obfuscation is checked with.
unfoldable pub effective_mtu : ConfigProfile → Option ℤ → Option ℤ
effective_mtu mobile_optimized none = some (pos 1200)
effective_mtu mobile_optimized (some (pos zero)) = some (pos 1200)
effective_mtu mobile_optimized (some (negsuc n)) = some (pos 1200)
effective_mtu _ mtu = mtu

unfoldable pub mtu_lines : Option ℤ → List String
unfolding decimal
mtu_lines none = []
mtu_lines (some (pos zero)) = []
mtu_lines (some (pos (suc n))) = text_append "MTU = " (decimal (suc n)) ∷ []
mtu_lines (some (negsuc n)) = []

-- `f"{key} = {value}"`
abbrev pub line : String → String → String
line key value = text_append key (text_append " = " value)

unfoldable pub h_text : HValue → String
unfolding decimal decimal_ℤ
h_text (single z) = decimal_ℤ z
h_text (range lo hi) = text_append (decimal lo) (text_append "-" (decimal hi))

unfoldable pub header_line : String → List Header → List String
unfolding h_text
header_line k [] = []
header_line k (h ∷ hs) =
    let rest = header_line k hs in if h.key == k then line k (h_text h.rendered) ∷ [] else rest

-- The line of one key of `AWG_EMIT_ORDER`.
unfoldable pub emitted : Obfuscation → String → List String
unfolding header_line decimal
emitted o k = elim (lookup k o.numbers) [
  | some n ↦ line k (decimal n) ∷ []
  | none ↦ elim (lookup k o.texts) [ some t ↦ line k t ∷ [] | none ↦ header_line k o.headers ]
]

abbrev pub emit_order : List String
emit_order =
    "Jc" ∷ "Jmin" ∷ "Jmax" ∷ "S1" ∷ "S2" ∷ "S3" ∷ "S4" ∷ "H1" ∷ "H2" ∷ "H3" ∷ "H4" ∷ "I1" ∷ "I2"
    ∷ "I3" ∷ "I4" ∷ "I5" ∷ []

unfoldable pub emit_all : Obfuscation → List String → List String
unfolding emitted
emit_all o [] = []
emit_all o (k ∷ ks) = emitted o k ++ emit_all o ks

abbrev pub no_obfuscation : Obfuscation
no_obfuscation = record { numbers = []; texts = []; headers = [] }

abbrev pub raise_one {ℓ} : {A : Type ℓ} → Result Error A → Result (List Fault) A
raise_one (ok a) = ok a
raise_one (err e) = err (obfuscation_fault e ∷ [])

-- What the profile makes of the obfuscation; `None` is the empty dictionary.
unfoldable pub normalize_for :
    ConfigProfile → Dict String Value → Option ℤ → Result (List Fault) Obfuscation
normalize_for wireguard_universal obf mtu = ok no_obfuscation
normalize_for awg_legacy_or_basic obf mtu =
    if is_empty obf then ok no_obfuscation else raise_one (normalize_legacy obf)
normalize_for awg_2_0_asc obf mtu =
    if is_empty obf then ok no_obfuscation else raise_one (normalize_awg2 obf mtu)
normalize_for mobile_optimized obf mtu =
    if is_empty obf then ok no_obfuscation else raise_one (normalize_awg2 obf mtu)

-- The preshared key's line, which is checked last.
unfoldable pub psk_lines : Parsers → Option String → Result (List Fault) (List String)
unfolding is_truthy
psk_lines p none = ok []
psk_lines p (some key) =
    if is_truthy key
    then elim (validate_key_b64 p "PresharedKey" key) as (λ r. Result (List Fault) (List String)) [
      | ok k ↦ ok (line "PresharedKey" k ∷ [])
      | err e ↦ err (e ∷ [])
    ]
    else ok []

-- The validated fields, in the order in which they are checked.
pub record Checked : Type 0 where
  pub private_key : String
  pub address : String
  pub public_key : String
  pub endpoint : String
  pub allowed_ips : String

-- A universal configuration must come without obfuscation.
unfoldable pub profile_faults : ConfigProfile → Dict String Value → List Fault
profile_faults wireguard_universal obf = if is_empty obf then [] else not_allowed ∷ []
profile_faults _ obf = []

-- The errors that are collected, or the fields.
unfoldable pub check_fields :
    Parsers
    → InterfaceFields
    → PeerFields
    → ConfigProfile
    → Dict String Value
    → Result (List Fault) Checked
unfolding profile_faults
check_fields p interface peer profile obf =
    let priv = validate_key_b64 p "PrivateKey" interface.private_key in
    let addr = validate_address p interface.address in
    let pub_key = validate_key_b64 p "PublicKey" peer.public_key in
    let ep = validate_endpoint p peer.endpoint in
    let allowed = validate_allowed_ips p peer.allowed_ips in
    let errors =
      faults_of priv
      ++ (faults_of addr
          ++ (faults_of pub_key
              ++ (faults_of ep ++ (faults_of allowed ++ profile_faults profile obf)))) in
    if is_empty errors
    then ok (record {
      private_key = value_of priv;
      address = value_of addr;
      public_key = value_of pub_key;
      endpoint = value_of ep;
      allowed_ips = value_of allowed;
    })
    else err errors

-- The lines, from what was checked.
unfoldable pub config_lines :
    Checked → Option String → Option ℤ → Obfuscation → ℕ → List String → List String
unfolding dns_text mtu_lines emit_all decimal
config_lines c dns mtu obf keepalive psk =
    "[Interface]"
    ∷ line "PrivateKey" c.private_key
    ∷ line "Address" c.address
    ∷ line "DNS" (dns_text dns)
    ∷ (mtu_lines mtu
        ++ (emit_all obf emit_order
            ++ (""
                ∷ "[Peer]"
                ∷ line "PublicKey" c.public_key
                ∷ line "Endpoint" c.endpoint
                ∷ line "AllowedIPs" c.allowed_ips
                ∷ line "PersistentKeepalive" (decimal keepalive)
                ∷ psk)))

-- `"\n".join(lines) + "\n"`
unfoldable pub join_lines : List String → String
join_lines [] = ""
join_lines (l ∷ ls) = text_append l (text_append "\n" (join_lines ls))

unfoldable pub build_config :
    Parsers
    → InterfaceFields
    → PeerFields
    → ConfigProfile
    → Dict String Value
    → Result (List Fault) String
unfolding check_fields effective_mtu normalize_for psk_lines config_lines join_lines
build_config p interface peer profile obf = check_fields p interface peer profile obf >>= λ c.
    normalize_for profile obf (effective_mtu profile interface.mtu) >>= λ o.
    psk_lines p peer.preshared_key >>= λ psk. ok (
      join_lines (
        config_lines c interface.dns (effective_mtu profile interface.mtu) o
          peer.persistent_keepalive psk))
