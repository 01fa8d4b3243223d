-- ===== src/Config/Obfuscation/Numbers.antt =====
-- What the loop over the numeric keys lets pass.
use vpn_suite.Prelude.{
  ℕ, ◌<◌, ◌≡◌, String, Option, none, some, List, [], ◌∷◌, Dict, All, arith, string_eq, nat_eq,
  Holds, Holds->>=, Holds-option, subst, Holds-check,
}
use vpn_suite.Config.Values.{Value}
use vpn_suite.Config.Obfuscation.{Error, number_at, numbers_from}

abbrev pub Passed : (String → ℕ → Option Error) → String × ℕ → Type 0
Passed check (k, n) = (0 < n) × (check k n ≡ none)

abbrev IsPositive : Option ℕ → Type 0
IsPositive none = Unit
IsPositive (some n) = 0 < n

number_at-IsPositive : (obf : Dict String Value) (k : String) → Holds IsPositive (number_at obf k)
unfolding number_at
number_at-IsPositive obf k = ground arith

pub numbers_from-Passed :
    (check : String → ℕ → Option Error) (obf : Dict String Value) (ks : List String)
    → Holds (All (Passed check)) (numbers_from check obf ks)
unfolding numbers_from
numbers_from-Passed check obf [] = tt
numbers_from-Passed check obf (k ∷ ks) =
    let Q = All (Passed check) in
    let rest = numbers_from-Passed check obf ks in
    Holds->>= IsPositive Q (number_at obf k) _ (number_at-IsPositive obf k) λ found p.
      Holds-option Q found _ _ rest λ n e. Holds-check Q (check k n) _ λ c.
        Holds->>= Q Q (numbers_from check obf ks) _ rest
          λ out passed. ((subst IsPositive e p, c), passed)
