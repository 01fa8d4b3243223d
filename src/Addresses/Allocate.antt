-- ===== src/Addresses/Allocate.antt =====
-- `allocate_next_address` and `allocate_address_for_device`. The request's parameters are given as
-- the subnet's text and the prefix length that `int()` makes of the value.
use vpn_suite.Prelude.{
  ℕ, zero, suc, ◌+◌, ◌-◌, String, Bool, false, not, ◌&&◌, Option, none, some, List, [], ◌∷◌,
  string_eq, nat_eq, if◌then◌else◌, is_some, member, is_truthy, strip, nat_beq,
}
use Prim.Native.String.{◌++◌ as text_append}
use Prim.Native.Char.{code}
use text.Mathlib.Text.{starts_with}
use vpn_suite.Devices.Rows.{Device}
use vpn_suite.Addresses.Octets.{last_octet_from_allowed_ips, octet_text}

-- The loop over the hosts: the first, of a number of them, that is not used.
unfoldable pub next_host : List ℕ → ℕ → ℕ → Option ℕ
next_host used h zero = none
next_host used h (suc more) =
    let rest = next_host used (h + 1) more in if not (member h used) then some h else rest

-- The host of `allocate_next_address`; `none` where it raises.
unfoldable pub allocate_host : List ℕ → ℕ → ℕ → Option ℕ
unfolding next_host
allocate_host used host_min host_max = next_host used host_min (host_max + 1 - host_min)

abbrev pub address_text : String → ℕ → String
address_text subnet_base h = text_append subnet_base (text_append "." (octet_text h))

unfoldable pub allocate_next_address : String → List ℕ → Option String
unfolding allocate_host octet_text
allocate_next_address subnet_base used = elim (allocate_host used 2 254) [
  | none ↦ none
  | some h ↦ some (text_append (address_text subnet_base h) "/32")
]

abbrev pub has_prefix : String → Option String → Bool
has_prefix prefix none = false
has_prefix prefix (some a) = starts_with a prefix

-- The query and the loop that fill `used`.
unfoldable pub used_octets : String → List Device → List ℕ
unfolding last_octet_from_allowed_ips
used_octets prefix [] = []
used_octets prefix (d ∷ ds) =
    let rest = used_octets prefix ds in
    if not (is_some d.revoked_at) && has_prefix prefix d.allowed_ips
    then (elim (last_octet_from_allowed_ips d.allowed_ips) as (λ o. List ℕ) [
      | none ↦ rest
      | some lo ↦ lo ∷ rest
    ])
    else rest

-- `_subnet_base_and_cidr`: the first three parts of four, and the prefix length; `none` where the
-- parameters name no subnet.
unfoldable pub first_three : List String → Option String
first_three (a ∷ b ∷ c ∷ d ∷ []) =
    some (text_append a (text_append "." (text_append b (text_append "." c))))
first_three parts = none

-- `s.split(".")`
unfoldable pub split_points : String → List String
split_points String.[] = "" ∷ []
split_points (String.◌∷◌ c s) =
    let rest = split_points s in
    if nat_beq (code c) b'.'
    then "" ∷ rest
    else elim rest [ [] ↦ [] | part ∷ parts ↦ String.◌∷◌ c part ∷ parts ]

-- A subnet that is not given, or empty, or has no four parts, or comes with a prefix length that
-- `int()` refuses, is none.
unfoldable pub subnet_base_and_cidr : Option String → Option ℕ → Option (String × ℕ)
unfolding first_three split_points is_truthy strip
subnet_base_and_cidr none cidr = none
subnet_base_and_cidr (some subnet) cidr =
    if is_truthy subnet
    then (elim (first_three (split_points (strip subnet))) as (λ o. Option (String × ℕ)) [
      | none ↦ none
      | some base ↦ elim cidr as (λ o. Option (String × ℕ)) [
        | none ↦ none
        | some n ↦ some (base, n)
      ]
    ])
    else none

abbrev pub base_of : Option (String × ℕ) → String × ℕ
base_of none = ("10.8.1", 24)
base_of (some parsed) = parsed

-- The address of the client's configuration and that of the peer; `none` where it raises.
unfoldable pub allocate_address_for_device :
    Option String → Option ℕ → List Device → Option (String × String)
unfolding allocate_host used_octets subnet_base_and_cidr octet_text
allocate_address_for_device subnet cidr devices =
    let (base, length) = base_of (subnet_base_and_cidr subnet cidr) in
    elim (allocate_host (used_octets (text_append base ".") devices) 2 254) [
      | none ↦ none
      | some h ↦ some (
        text_append (address_text base h) (text_append "/" (octet_text length)),
        text_append (address_text base h) "/32",
      )
    ]
