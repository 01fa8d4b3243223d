-- ===== src/Addresses/Octets.antt =====
-- The last octet of an address, read and written. Digits are those of ASCII.
use Prim.Native.Char.{code}
use vpn_suite.Prelude.{
  ℕ, ◌/◌, ◌%◌, String, ◌&&◌, Option, none, some, string_eq, if◌then◌else◌, leb, ltb, nat_beq,
  is_truthy, strip, digit_text,
}
use Prim.Native.String.{◌++◌ as text_append}
use vpn_suite.Config.Values.{digits}

-- The digits that a text starts with, and what follows.
unfoldable pub digit_run : String → String × String
digit_run String.[] = ("", "")
digit_run (String.◌∷◌ c s) =
    let (run, rest) = digit_run s in
    if leb 48 (code c) && leb (code c) 57 then (String.◌∷◌ c run, rest) else ("", String.◌∷◌ c s)

-- `\d+\.`: what follows a run of digits and a point.
unfoldable pub after_group : String → Option String
unfolding digit_run is_truthy
after_group s = let (run, rest) = digit_run s in if is_truthy run then skip_point rest else none
  where
    skip_point : String → Option String
    skip_point String.[] = none
    skip_point (String.◌∷◌ c s) = if nat_beq (code c) b'.' then some s else none

-- `_last_octet_from_allowed_ips`: the match of `^\d+\.\d+\.\d+\.(\d+)`.
unfoldable pub last_octet_from_allowed_ips : Option String → Option ℕ
unfolding after_group digit_run digits strip is_truthy
last_octet_from_allowed_ips none = none
last_octet_from_allowed_ips (some allowed_ips) =
    if is_truthy allowed_ips
    then (elim (after_group (strip allowed_ips)) as (λ o. Option ℕ) [
      | none ↦ none
      | some s ↦ elim (after_group s) as (λ o. Option ℕ) [
        | none ↦ none
        | some s' ↦ elim (after_group s') as (λ o. Option ℕ) [
          | none ↦ none
          | some s'' ↦ digits (digit_run s'').0
        ]
      ]
    ])
    else none

-- `str(n)` below 1000.
unfoldable pub octet_text : ℕ → String
unfolding digit_text
octet_text n =
    if ltb n 10
    then digit_text n
    else if ltb n 100
    then text_append (digit_text (n / 10)) (digit_text (n % 10))
    else text_append (digit_text (n / 100))
        (text_append (digit_text (n / 10 % 10)) (digit_text (n % 10)))
