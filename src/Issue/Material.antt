-- ===== src/Issue/Material.antt =====
-- What `issue_device` reads from a server's profile: the DNS servers, the MTU, the keepalive, the
-- preshared key and the obfuscation.
use vpn_suite.Prelude.{
  ℕ, zero, suc, min, max, String, Bool, true, false, not, ◌&&◌, ◌||◌, Option, none, some, List, [],
  ◌∷◌, ◌==◌, string_eq, if◌then◌else◌, is_truthy, strip, or_text, member, filter, Dict, insert, ℤ,
  pos, negsuc, nat_beq,
}
use Prim.Native.Char.{code}
use vpn_suite.Config.Values.{Value, null, text, other, int_of, is_true, value_at, either_at}
use vpn_suite.Config.Text.{default_dns}
use vpn_suite.Config.Text.Wrappers.{get_obfuscation_params}

-- `s.replace(" ", "")`
unfoldable pub without_spaces : String → String
without_spaces String.[] = ""
without_spaces (String.◌∷◌ c s) =
    let rest = without_spaces s in if nat_beq (code c) b' ' then rest else String.◌∷◌ c rest

-- The text of the DNS servers, `none` where `",".join` raises.
unfoldable pub joined : Value → Option String
joined (text s) = some s
joined (other o) = o.as_joined
joined v = none

unfoldable pub dns_of : Dict String Value → Option String
unfolding value_at is_true joined without_spaces strip is_truthy
dns_of params =
    if not (is_true (value_at "dns" params))
    then some default_dns
    else elim (joined (value_at "dns" params)) [
      | none ↦ none
      | some dns ↦
          if not (is_truthy dns)
            || strip (without_spaces dns) == "1.1.1.1,1.0.0.1"
            || strip (without_spaces dns) == "1.1.1.1, 1.0.0.1"
          then some default_dns
          else some dns
    ]

-- A positive MTU, or 1200.
unfoldable pub positive_mtu : Option ℤ → ℕ
positive_mtu none = 1200
positive_mtu (some (pos zero)) = 1200
positive_mtu (some (pos (suc n))) = suc n
positive_mtu (some (negsuc n)) = 1200

unfoldable pub mtu_of : Option ℤ → Dict String Value → ℕ
unfolding positive_mtu either_at int_of
mtu_of (some m) params = positive_mtu (some m)
mtu_of none params = positive_mtu (int_of (either_at "mtu" "amnezia_mtu" params))

-- `max(10, min(60, n))`
unfoldable pub clamp_keepalive : Option ℤ → ℕ
clamp_keepalive none = 10
clamp_keepalive (some (pos n)) = max 10 (min 60 n)
clamp_keepalive (some (negsuc n)) = 10

unfoldable pub client_keepalive_of : Dict String Value → ℕ
unfolding clamp_keepalive either_at int_of
client_keepalive_of params =
    clamp_keepalive (int_of (either_at "persistent_keepalive" "amnezia_keepalive" params))

-- A key that is a text with something in it, trimmed.
unfoldable pub key_text : Value → Option String
unfolding strip is_truthy
key_text (text s) = if is_truthy (strip s) then some (strip s) else none
key_text v = none

-- The profile's key, then the server's, then a new one.
unfoldable pub preshared_key_of : Dict String Value → Option String → String → String
unfolding either_at is_true key_text
preshared_key_of params server_key generated =
    let given = either_at "preshared_key" "amnezia_preshared_key" params in
    let chosen = if is_true given then given else text (or_text server_key "") in
    elim (key_text chosen) [ none ↦ generated | some k ↦ k ]

abbrev pub h_params : List String
h_params = "amnezia_h1" ∷ "amnezia_h2" ∷ "amnezia_h3" ∷ "amnezia_h4" ∷ []

-- `request_params_with_server_h`
unfoldable pub request_params_with_server_h : String → Dict String Value → Dict String Value
request_params_with_server_h node_mode params =
    if node_mode == "real" then filter (λ e. not (member e.0 h_params)) params else params

abbrev pub h_keys : List String
h_keys = "H1" ∷ "H2" ∷ "H3" ∷ "H4" ∷ []

abbrev pub is_null : Value → Bool
is_null null = true
is_null v = false

-- All of the four are there.
unfoldable pub has_all : Dict String Value → List String → Bool
unfolding value_at
has_all obf [] = true
has_all obf (k ∷ ks) = not (is_null (value_at k obf)) && has_all obf ks

-- `int()` of each, `none` where one raises.
unfoldable pub ints_of : Dict String Value → List String → Option (List (Option ℤ))
unfolding value_at int_of
ints_of obf [] = some []
ints_of obf (k ∷ ks) =
    let rest = ints_of obf ks in
    elim (int_of (value_at k obf)) [
      | none ↦ none
      | some z ↦ elim rest [ none ↦ none | some zs ↦ some (some z ∷ zs) ]
    ]

-- `{**a, **b}`
unfoldable pub merge : Dict String Value → Dict String Value → Dict String Value
merge a [] = a
merge a ((k, v) ∷ b) = merge (insert k v a) b

-- The obfuscation, and the columns `amnezia_h` of the server; `none` where a conversion raises.
unfoldable pub with_runtime_obf :
    Option (Dict String Value)
    → Dict String Value
    → List (Option ℤ)
    → Option (Dict String Value × List (Option ℤ))
unfolding has_all ints_of merge
with_runtime_obf none obf columns = some (obf, columns)
with_runtime_obf (some runtime) obf columns =
    if not (has_all runtime h_keys)
    then some (obf, columns)
    else elim (ints_of runtime h_keys) [ none ↦ none | some hs ↦ some (merge obf runtime, hs) ]

unfoldable pub obfuscation_for :
    String
    → Option (Dict String Value)
    → Dict String Value
    → List (Option ℤ)
    → Option (Dict String Value × List (Option ℤ))
unfolding request_params_with_server_h with_runtime_obf
obfuscation_for node_mode runtime params columns =
    elim (get_obfuscation_params (request_params_with_server_h node_mode params)) [
      | none ↦ none
      | some obf ↦ with_runtime_obf runtime obf columns
    ]
