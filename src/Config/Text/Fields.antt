-- ===== src/Config/Text/Fields.antt =====
-- `_validate_key_b64`, `_validate_endpoint`, `_validate_address`, `_validate_allowed_ips` and
-- `_is_valid_hostname`.
use Prim.Native.Char.{code}
use Prim.Native.String.{◌++◌ as text_append}
use vpn_suite.Prelude.{
  ℕ, zero, suc, ◌-◌, ◌%◌, String, Bool, true, false, not, ◌&&◌, ◌||◌, Option, none, some, List, [],
  ◌∷◌, if◌then◌else◌, leb, nat_beq, is_truthy, strip, text_length, contains_text, any, all, map,
  Result, ok, err, pos, negsuc, string_eq, nat_eq, ◌==◌,
}
use text.Mathlib.Text.{starts_with}
use vpn_suite.Addresses.Allocate.{split_points}
use vpn_suite.Config.Values.{int_signed}
use vpn_suite.Config.Obfuscation.{Error}

-- What the parsers of the standard library say of a text: the version of an address, whether an
-- interface or a network is valid, and the number of bytes that a base64 text decodes to.
pub record Parsers : Type 0 where
  pub ip_version : String → Option ℕ
  pub is_interface : String → Bool
  pub is_network : String → Bool
  pub decoded_length : String → Option ℕ

pub data KeyFault : Type 0 where
  key_empty key_length key_characters key_undecodable key_size : KeyFault

pub data EndpointFault : Type 0 where
  endpoint_missing endpoint_form endpoint_address endpoint_host host_empty endpoint_port :
      EndpointFault

-- An error of `ConfigValidationError`, for its text.
pub data Fault : Type 0 where
  wrong_key : String → KeyFault → Fault
  no_address not_cidr not_interface : Fault
  wrong_endpoint : EndpointFault → Fault
  no_allowed_ips empty_item : Fault
  wrong_network : String → Fault
  not_allowed : Fault
  obfuscation_fault : Error → Fault

abbrev is_letter_or_digit : ℕ → Bool
is_letter_or_digit c =
    (leb b'a' c && leb c b'z') || (leb b'A' c && leb c b'Z') || (leb b'0' c && leb c b'9')

-- `[A-Za-z0-9+/]+=*`, after the first character: `padding` says that an equals sign was read.
unfoldable pub base64_tail : Bool → String → Bool
base64_tail padding String.[] = true
base64_tail padding (String.◌∷◌ c s) =
    let equals = nat_beq (code c) b'=' in
    let rest = base64_tail equals s in
    if equals
    then rest
    else not padding
      && (is_letter_or_digit (code c) || nat_beq (code c) b'+' || nat_beq (code c) b'/')
      && rest

unfoldable pub is_base64 : String → Bool
unfolding base64_tail
is_base64 String.[] = false
is_base64 (String.◌∷◌ c s) = not (nat_beq (code c) b'=') && base64_tail false (String.◌∷◌ c s)

unfoldable pub equals_signs : ℕ → String
equals_signs zero = ""
equals_signs (suc n) = text_append "=" (equals_signs n)

-- The check of a trimmed key.
unfoldable pub check_key : Parsers → String → Option KeyFault
unfolding is_base64 equals_signs text_length
check_key p k =
    if not (leb 43 (text_length k) && leb (text_length k) 44)
    then some key_length
    else if not (is_base64 k)
    then some key_characters
    else elim (p.decoded_length (text_append k (equals_signs ((4 - text_length k % 4) % 4)))) [
      | none ↦ some key_undecodable
      | some n ↦ if n == 32 then none else some key_size
    ]

unfoldable pub validate_key_b64 : Parsers → String → String → Result Fault String
unfolding check_key is_truthy strip
validate_key_b64 p name key =
    if not (is_truthy key)
    then err (wrong_key name key_empty)
    else elim (check_key p (strip key)) [ some e ↦ err (wrong_key name e) | none ↦ ok (strip key) ]

-- `s.split(c, 1)`
unfoldable pub split_first : ℕ → String → Option (String × String)
split_first k String.[] = none
split_first k (String.◌∷◌ c s) =
    let rest = split_first k s in
    if nat_beq (code c) k
    then some ("", s)
    else elim rest [ none ↦ none | some (l, r) ↦ some (String.◌∷◌ c l, r) ]

-- `s.rsplit(c, 1)`
unfoldable pub split_last : ℕ → String → Option (String × String)
split_last k String.[] = none
split_last k (String.◌∷◌ c s) = elim (split_last k s) [
  | some (l, r) ↦ some (String.◌∷◌ c l, r)
  | none ↦ if nat_beq (code c) k then some ("", s) else none
]

-- `s.split(c)`
unfoldable pub split_at : ℕ → String → List String
split_at k String.[] = "" ∷ []
split_at k (String.◌∷◌ c s) =
    let rest = split_at k s in
    if nat_beq (code c) k
    then "" ∷ rest
    else elim rest [ [] ↦ [] | part ∷ parts ↦ String.◌∷◌ c part ∷ parts ]

-- The characters of a label after the first; `alnum` says whether the last read may end it. The
-- pattern's `$` lets one line feed follow.
unfoldable pub label_tail : Bool → String → Bool
label_tail alnum String.[] = alnum
label_tail alnum (String.◌∷◌ c s) =
    let rest = label_tail (is_letter_or_digit (code c)) s in
    if is_letter_or_digit (code c) || nat_beq (code c) b'-'
    then rest
    else alnum && nat_beq (code c) b'\n' && s == ""

-- The number of characters before a line feed that ends the label.
unfoldable pub label_length : String → ℕ
label_length String.[] = 0
label_length (String.◌∷◌ c s) =
    let rest = label_length s in if nat_beq (code c) b'\n' then 0 else suc rest

unfoldable pub is_label : String → Bool
unfolding label_tail label_length
is_label String.[] = false
is_label (String.◌∷◌ c s) =
    is_letter_or_digit (code c) && label_tail true s && leb (label_length (String.◌∷◌ c s)) 63

-- Without one point at the end.
unfoldable pub drop_last_point : String → String
drop_last_point String.[] = ""
drop_last_point (String.◌∷◌ c s) =
    let rest = drop_last_point s in
    if nat_beq (code c) b'.' && s == "" then "" else String.◌∷◌ c rest

unfoldable pub is_valid_hostname : String → Bool
unfolding drop_last_point is_label split_points text_length is_truthy
is_valid_hostname host =
    is_truthy host
    && leb (text_length host) 253
    && all is_label (split_points (drop_last_point host))

-- `1 <= int(port) <= 65535`
unfoldable pub is_port : String → Bool
unfolding int_signed strip
is_port port = elim (int_signed (strip port)) [
  | none ↦ false
  | some z ↦ elim z [ pos n ↦ leb 1 n && leb n 65535 | negsuc n ↦ false ]
]

-- A host in brackets, and what follows the opening one.
unfoldable pub check_bracketed : Parsers → String → Option EndpointFault
unfolding split_first is_truthy is_port
check_bracketed p s = elim (split_first b']' s) [
  | none ↦ some endpoint_form
  | some (host, rest) ↦
      if not (starts_with rest ":")
      then some endpoint_form
      else elim (p.ip_version host) as (λ o. Option EndpointFault) [
        | none ↦ some endpoint_address
        | some v ↦
            if not (v == 6)
            then some endpoint_address
            else if not (is_truthy host)
            then some host_empty
            else if is_port (drop_one rest)
            then none
            else some endpoint_port
      ]
]
  where
    drop_one : String → String
    drop_one String.[] = ""
    drop_one (String.◌∷◌ c s) = s

-- Another host: an address of version 4, or a name. An address of another version raises inside the
-- `try` and is tried as a name.
unfoldable pub is_plain_host : Parsers → String → Bool
unfolding is_valid_hostname
is_plain_host p host = elim (p.ip_version host) [
  | none ↦ is_valid_hostname host
  | some v ↦ v == 4 || is_valid_hostname host
]

unfoldable pub check_plain : Parsers → String → Option EndpointFault
unfolding split_last is_plain_host is_truthy is_port
check_plain p s = elim (split_last b':' s) [
  | none ↦ some endpoint_form
  | some (host, port) ↦
      if not (is_plain_host p host)
      then some endpoint_host
      else if not (is_truthy host)
      then some host_empty
      else if is_port port
      then none
      else some endpoint_port
]

unfoldable pub check_endpoint : Parsers → String → Option EndpointFault
unfolding check_bracketed check_plain
check_endpoint p String.[] = some endpoint_missing
check_endpoint p (String.◌∷◌ c s) =
    if nat_beq (code c) b'[' then check_bracketed p s else check_plain p (String.◌∷◌ c s)

unfoldable pub validate_endpoint : Parsers → String → Result Fault String
unfolding check_endpoint strip
validate_endpoint p endpoint = elim (check_endpoint p (strip endpoint)) [
  | some e ↦ err (wrong_endpoint e)
  | none ↦ ok (strip endpoint)
]

unfoldable pub validate_address : Parsers → String → Result Fault String
unfolding strip is_truthy contains_text
validate_address p address =
    if not (is_truthy (strip address))
    then err no_address
    else if not (contains_text "/" (strip address))
    then err not_cidr
    else if p.is_interface (strip address)
    then ok (strip address)
    else err not_interface

-- The loop over the items: the first that is no network.
unfoldable pub wrong_item : Parsers → List String → Option String
wrong_item p [] = none
wrong_item p (i ∷ is) = let rest = wrong_item p is in if p.is_network i then rest else some i

-- `", ".join(items)`
unfoldable pub join_items : List String → String
join_items [] = ""
join_items (i ∷ []) = i
join_items (i ∷ j ∷ is) = text_append i (text_append ", " (join_items (j ∷ is)))

unfoldable pub items_of : String → List String
unfolding split_at strip
items_of allowed_ips = map strip (split_at b',' allowed_ips)

unfoldable pub validate_allowed_ips : Parsers → String → Result Fault String
unfolding items_of wrong_item join_items strip is_truthy
validate_allowed_ips p allowed_ips =
    if not (is_truthy (strip allowed_ips))
    then err no_allowed_ips
    else if any (λ i. not (is_truthy i)) (items_of allowed_ips)
    then err empty_item
    else elim (wrong_item p (items_of allowed_ips)) [
      | some i ↦ err (wrong_network i)
      | none ↦ ok (join_items (items_of allowed_ips))
    ]
