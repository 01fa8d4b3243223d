-- ===== src/Config/Obfuscation.antt =====
-- `_normalize_obfuscation_legacy` and `_normalize_obfuscation_awg2`. The result keeps the numbers,
-- the texts and the ranges apart; their keys are, and a configuration lists them in a fixed order.
pub mod Numbers
pub mod Headers
pub mod Sound
pub mod Keyed
use vpn_suite.Prelude.{
  ℕ, zero, suc, ◌+◌, ◌-◌, min, max, String, Bool, true, false, not, ◌&&◌, ◌||◌, Option, none, some,
  List, [], ◌∷◌, ◌==◌, string_eq, nat_eq, if◌then◌else◌, leb, ltb, strip, is_truthy, member, Dict,
  lookup, Result, ok, err, ◌>>=◌, ◌>>◌, ℤ, pos, negsuc,
}
use vpn_suite.Config.Values.{
  Value, null, flag, number, text, other, HValue, single, range, parse_int, parse_h_value,
}

pub data Error : Type 0 where
  unsupported_key not_integer out_of_range exceeds_mtu empty_text range_invalid : String → Error
  overlap : String → String → Error
  s1_meets_s2 jmin_above_jmax : Error

abbrev pub legacy_keys : List String
legacy_keys = "I1" ∷ "I2" ∷ "I3" ∷ "I4" ∷ "I5" ∷ "S1" ∷ "S2" ∷ "Jc" ∷ "Jmin" ∷ "Jmax" ∷ []

abbrev pub asc_keys : List String
asc_keys =
    "I1" ∷ "I2" ∷ "I3" ∷ "I4" ∷ "I5" ∷ "S1" ∷ "S2" ∷ "S3" ∷ "S4" ∷ "Jc" ∷ "Jmin" ∷ "Jmax" ∷ "H1"
    ∷ "H2" ∷ "H3" ∷ "H4" ∷ []

abbrev pub text_keys : List String
text_keys = "I1" ∷ "I2" ∷ "I3" ∷ "I4" ∷ "I5" ∷ []

abbrev pub legacy_numbers : List String
legacy_numbers = "Jc" ∷ "Jmin" ∷ "Jmax" ∷ "S1" ∷ "S2" ∷ []

abbrev pub asc_numbers : List String
asc_numbers = "Jc" ∷ "Jmin" ∷ "Jmax" ∷ "S1" ∷ "S2" ∷ "S3" ∷ "S4" ∷ []

abbrev pub header_keys : List String
header_keys = "H1" ∷ "H2" ∷ "H3" ∷ "H4" ∷ []

-- A range with its key. A single number is a range of one.
pub record Header : Type 0 where
  pub key : String
  pub low : ℕ
  pub high : ℕ
  pub rendered : HValue

pub record Obfuscation : Type 0 where
  pub numbers : Dict String ℕ
  pub texts : Dict String String
  pub headers : List Header

abbrev Checked : Type 0 → Type 0
Checked A = Result Error A

-- A missing or null value is left out, and so is a number that is not positive.
unfoldable pub number_at : Dict String Value → String → Checked (Option ℕ)
number_at obf k = elim (lookup k obf) [
  | none ↦ ok none
  | some v ↦ elim v [
    | null ↦ ok none
    | given ↦ elim (parse_int given) [
      | none ↦ err (not_integer k)
      | some z ↦ elim z [
        | pos n ↦ elim n [ zero ↦ ok none | suc m ↦ ok (some (suc m)) ]
        | negsuc n ↦ ok none
      ]
    ]
  ]
]

-- A loop over keys that hold numbers, each with the profile's check.
unfoldable pub numbers_from :
    (String → ℕ → Option Error) → Dict String Value → List String → Checked (Dict String ℕ)
unfolding number_at
numbers_from check obf [] = ok []
numbers_from check obf (k ∷ ks) =
    let rest = numbers_from check obf ks in
    number_at obf k >>= λ found. elim found [
      | none ↦ rest
      | some n ↦ elim (check k n) [ some e ↦ err e | none ↦ rest >>= λ out. ok ((k, n) ∷ out) ]
    ]

-- The loop over `I1` to `I5`.
unfoldable pub texts_from : Dict String Value → List String → Checked (Dict String String)
unfolding strip is_truthy
texts_from obf [] = ok []
texts_from obf (k ∷ ks) =
    let rest = texts_from obf ks in
    elim (lookup k obf) [
      | none ↦ rest
      | some v ↦ elim v [
        | null ↦ rest
        | text s ↦
            if is_truthy (strip s)
            then rest >>= (λ out. ok ((k, strip s) ∷ out))
            else err (empty_text k)
        | _ ↦ err (empty_text k)
      ]
    ]

-- `_validate_s1_s2` and `_validate_jmin_jmax`, where both keys are there.
unfoldable pub check_pairs : Dict String ℕ → Option Error
check_pairs out =
    let jitter : Option Error = elim (lookup "Jmin" out) [
      | none ↦ none
      | some lo ↦ elim (lookup "Jmax" out) [
        | none ↦ none
        | some hi ↦ if ltb hi lo then some jmin_above_jmax else none
      ]
    ] in
    elim (lookup "S1" out) [
      | none ↦ jitter
      | some s1 ↦ elim (lookup "S2" out) [
        | none ↦ jitter
        | some s2 ↦ if s1 + 56 == s2 then some s1_meets_s2 else jitter
      ]
    ]

-- A header key that the legacy profile lets pass: null, a number that is not positive (`False`
-- among them), or a text that is blank or `0`.
unfoldable pub is_idle_header : Value → Bool
unfolding strip
is_idle_header null = true
is_idle_header (flag b) = not b
is_idle_header (number (pos zero)) = true
is_idle_header (number (pos (suc n))) = false
is_idle_header (number (negsuc n)) = true
is_idle_header (text s) = strip s == "" || strip s == "0"
is_idle_header (other o) = false

unfoldable pub legacy_keys_ok : Dict String Value → Option Error
unfolding is_idle_header
legacy_keys_ok [] = none
legacy_keys_ok ((k, v) ∷ obf) =
    let rest = legacy_keys_ok obf in
    if member k legacy_keys
    then rest
    else if member k header_keys && is_idle_header v
    then rest
    else some (unsupported_key k)

unfoldable pub legacy_check : String → ℕ → Option Error
legacy_check k n =
    if k == "Jc" && not (leb n 10)
    then some (out_of_range k)
    else if (k == "Jmin" || k == "Jmax") && not (leb 64 n && leb n 1024)
    then some (out_of_range k)
    else if (k == "S1" || k == "S2") && not (leb n 64)
    then some (out_of_range k)
    else none

unfoldable pub normalize_legacy : Dict String Value → Checked Obfuscation
unfolding legacy_keys_ok numbers_from legacy_check texts_from check_pairs
normalize_legacy obf = elim (legacy_keys_ok obf) [
  | some e ↦ err e
  | none ↦ numbers_from legacy_check obf legacy_numbers >>= λ numbers.
      texts_from obf text_keys >>= λ texts. elim (check_pairs numbers) [
        | some e ↦ err e
        | none ↦ ok (record { numbers = numbers; texts = texts; headers = [] })
      ]
]

unfoldable pub asc_keys_ok : Dict String Value → Option Error
asc_keys_ok [] = none
asc_keys_ok ((k, v) ∷ obf) =
    let rest = asc_keys_ok obf in if member k asc_keys then rest else some (unsupported_key k)

-- `mtu or 1280`; a negative one leaves no room below, as 0 does.
abbrev pub base_mtu : Option ℤ → ℕ
base_mtu none = 1280
base_mtu (some (pos zero)) = 1280
base_mtu (some (pos (suc n))) = suc n
base_mtu (some (negsuc n)) = 0

unfoldable pub asc_check : Option ℤ → String → ℕ → Option Error
asc_check mtu k n =
    if k == "Jc" && not (leb n 128)
    then some (out_of_range k)
    else if (k == "Jmin" || k == "Jmax") && not (leb n 1280)
    then some (out_of_range k)
    else if k == "S1" && ltb (base_mtu mtu - 148) n
    then some (exceeds_mtu k)
    else if k == "S2" && ltb (base_mtu mtu - 92) n
    then some (exceeds_mtu k)
    else none

abbrev pub h_max : ℕ
h_max = 4294967295

-- A header from its bounds: one that ends at 0 is left out.
unfoldable pub header_of : String → ℕ → ℕ → HValue → Checked (Option Header)
header_of k lo hi rendered =
    if hi == 0
    then ok none
    else if ltb h_max lo || ltb h_max hi
    then err (out_of_range k)
    else if ltb hi lo
    then err (range_invalid k)
    else ok (some (record { key = k; low = lo; high = hi; rendered = rendered }))

unfoldable pub header_at : Dict String Value → String → Checked (Option Header)
unfolding header_of
header_at obf k = elim (lookup k obf) [
  | none ↦ ok none
  | some v ↦ elim v [
    | null ↦ ok none
    | given ↦ elim (parse_h_value given) [
      | none ↦ err (not_integer k)
      | some h ↦ elim h [
        | single z ↦ elim z [ pos n ↦ header_of k n n (single (pos n)) | negsuc n ↦ ok none ]
        | range lo hi ↦ header_of k lo hi (range lo hi)
      ]
    ]
  ]
]

-- The loop over `H1` to `H4`.
unfoldable pub headers_from : Dict String Value → List String → Checked (List Header)
unfolding header_at
headers_from obf [] = ok []
headers_from obf (k ∷ ks) =
    let rest = headers_from obf ks in
    header_at obf k >>= λ found. elim found [ none ↦ rest | some h ↦ rest >>= λ out. ok (h ∷ out) ]

unfoldable pub overlap_with : Header → List Header → Option Error
overlap_with h [] = none
overlap_with h (g ∷ gs) =
    let rest = overlap_with h gs in
    if leb (max h.low g.low) (min h.high g.high) then some (overlap h.key g.key) else rest

unfoldable pub overlaps : List Header → Option Error
unfolding overlap_with
overlaps [] = none
overlaps (h ∷ hs) =
    let rest = overlaps hs in elim (overlap_with h hs) [ some e ↦ some e | none ↦ rest ]

unfoldable pub normalize_awg2 : Dict String Value → Option ℤ → Checked Obfuscation
unfolding asc_keys_ok numbers_from asc_check texts_from headers_from overlaps check_pairs
normalize_awg2 obf mtu = elim (asc_keys_ok obf) [
  | some e ↦ err e
  | none ↦ numbers_from (asc_check mtu) obf asc_numbers >>= λ numbers.
      texts_from obf text_keys >>= λ texts. headers_from obf header_keys >>= λ headers.
      elim (overlaps headers) [
        | some e ↦ err e
        | none ↦ elim (check_pairs numbers) [
          | some e ↦ err e
          | none ↦ ok (record { numbers = numbers; texts = texts; headers = headers })
        ]
      ]
]
