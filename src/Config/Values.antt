-- ===== src/Config/Values.antt =====
-- The values of an obfuscation dictionary, and the numbers read from them. Digits are those of
-- ASCII.
use Prim.Native.Char.{code}
use vpn_suite.Prelude.{
  ℕ, ◌+◌, ◌-◌, ◌*◌, String, Bool, ◌&&◌, Option, none, some, if◌then◌else◌, leb, nat_beq, strip, ℤ,
  pos, neg_ℕ, string_eq, negsuc, true, false, zero, suc, ◌||◌, is_truthy, Dict, lookup, decimal_ℤ,
}

-- A value of another type: what `int()`, `str()` and `",".join()` make of it, where `none` stands for
-- an exception, and whether it is true.
pub record Other : Type 0 where
  pub as_int : Option ℤ
  pub as_text : String
  pub as_joined : Option String
  pub as_bool : Bool

pub data Value : Type 0 where
  null : Value
  flag : Bool → Value
  number : ℤ → Value
  text : String → Value
  other : Other → Value

abbrev is_digit : ℕ → Bool
is_digit c = leb 48 c && leb c 57

-- The number that a text of digits spells, after those read.
digits_from : ℕ → String → Option ℕ
digits_from n String.[] = some n
digits_from n (String.◌∷◌ c s) =
    let rest = digits_from (n * 10 + (code c - 48)) s in if is_digit (code c) then rest else none

-- A text of digits, which must not be empty.
unfoldable pub digits : String → Option ℕ
unfolding digits_from
digits String.[] = none
digits (String.◌∷◌ c s) = digits_from 0 (String.◌∷◌ c s)

-- `int(s)` on a trimmed text that is digits but for dashes before them: a second dash raises.
unfoldable pub integer : String → Option ℤ
unfolding digits
integer String.[] = none
integer (String.◌∷◌ c s) =
    if nat_beq (code c) b'-'
    then elim (digits s) [ none ↦ none | some n ↦ some (neg_ℕ n) ]
    else elim (digits (String.◌∷◌ c s)) [ none ↦ none | some n ↦ some (pos n) ]

-- `_parse_int`, `none` where it raises.
unfoldable pub parse_int : Value → Option ℤ
unfolding integer strip
parse_int null = none
parse_int (flag b) = none
parse_int (number z) = some z
parse_int (text s) = integer (strip s)
parse_int (other o) = o.as_int

-- What `_parse_h_value` returns: one number, or two with a dash between them.
pub data HValue : Type 0 where
  single : ℤ → HValue
  range : ℕ → ℕ → HValue

-- `s.partition("-")`: the texts before and after the first dash.
unfoldable pub partition_dash : String → Option (String × String)
partition_dash String.[] = none
partition_dash (String.◌∷◌ c s) =
    let rest = partition_dash s in
    if nat_beq (code c) b'-'
    then some ("", s)
    else elim rest [ none ↦ none | some (l, r) ↦ some (String.◌∷◌ c l, r) ]

unfoldable pub parse_range : String → Option HValue
unfolding partition_dash digits strip
parse_range s = elim (partition_dash s) [
  | none ↦ none
  | some (left, right) ↦ elim (digits (strip left)) [
    | none ↦ none
    | some lo ↦ elim (digits (strip right)) [ none ↦ none | some hi ↦ some (range lo hi) ]
  ]
]

-- `_parse_h_value`
unfoldable pub parse_h_value : Value → Option HValue
unfolding integer parse_range strip
parse_h_value null = none
parse_h_value (flag b) = none
parse_h_value (number z) = some (single z)
parse_h_value (text s) = elim (integer (strip s)) [
  | some z ↦ some (single z)
  | none ↦ parse_range (strip s)
]
parse_h_value (other o) = none

-- Python's `int(s)` on the trimmed digits of a text: one underscore may stand between two digits.
-- `after` says that a digit came last.
unfoldable pub int_digits : ℕ → Bool → String → Option ℕ
int_digits n after String.[] = if after then some n else none
int_digits n after (String.◌∷◌ c s) =
    let digit = is_digit (code c) in
    let rest = int_digits (if digit then n * 10 + (code c - 48) else n) digit s in
    if digit || (after && nat_beq (code c) b'_') then rest else none

-- After a sign.
unfoldable pub int_signed : String → Option ℤ
unfolding int_digits
int_signed String.[] = none
int_signed (String.◌∷◌ c s) =
    if nat_beq (code c) b'-'
    then elim (int_digits 0 false s) [ none ↦ none | some n ↦ some (neg_ℕ n) ]
    else if nat_beq (code c) b'+'
    then elim (int_digits 0 false s) [ none ↦ none | some n ↦ some (pos n) ]
    else elim (int_digits 0 false (String.◌∷◌ c s)) [ none ↦ none | some n ↦ some (pos n) ]

-- `int(value)`, `none` where it raises.
unfoldable pub int_of : Value → Option ℤ
unfolding int_signed strip
int_of null = none
int_of (flag b) = some (if b then pos 1 else pos 0)
int_of (number z) = some z
int_of (text s) = int_signed (strip s)
int_of (other o) = o.as_int

-- `str(value)`
unfoldable pub text_of : Value → String
unfolding decimal_ℤ
text_of null = "None"
text_of (flag b) = if b then "True" else "False"
text_of (number z) = decimal_ℤ z
text_of (text s) = s
text_of (other o) = o.as_text

-- `bool(value)`
unfoldable pub is_true : Value → Bool
unfolding is_truthy
is_true null = false
is_true (flag b) = b
is_true (number (pos zero)) = false
is_true (number (pos (suc n))) = true
is_true (number (negsuc n)) = true
is_true (text s) = is_truthy s
is_true (other o) = o.as_bool

-- `params.get(key)`
unfoldable pub value_at : String → Dict String Value → Value
value_at key params = elim (lookup key params) [ none ↦ null | some v ↦ v ]

-- `params.get(a) or params.get(b)`
unfoldable pub either_at : String → String → Dict String Value → Value
unfolding value_at is_true
either_at a b params = if is_true (value_at a params) then value_at a params else value_at b params
