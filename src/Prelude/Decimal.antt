-- ===== src/Prelude/Decimal.antt =====
-- Python's `str(n)` of numbers.
use Prim.Native.Nat.{ℕ, zero, suc, ◌/◌, ◌%◌, ◌<◌}
use Prim.Native.String.{String, ◌++◌ as text_append}
use mathlib.Core.List.{List, [], ◌∷◌}
use mathlib.Core.Logic.{dite}
use mathlib.Core.Path.{◌≡◌, refl}
use mathlib.Core.WellFounded.{Acc}
use native.Mathlib.Decide.{dec_lt}
use native.Mathlib.Omega.{arith}
use vpn_suite.Prelude.Int.{ℤ, pos, negsuc}

abbrev digit_texts : List String
digit_texts = "0" ∷ "1" ∷ "2" ∷ "3" ∷ "4" ∷ "5" ∷ "6" ∷ "7" ∷ "8" ∷ "9" ∷ []

unfoldable text_at : List String → ℕ → String
text_at [] n = ""
text_at (t ∷ ts) zero = t
text_at (t ∷ ts) (suc n) = text_at ts n

unfoldable pub digit_text : ℕ → String
unfolding text_at
digit_text n = text_at digit_texts n

below : (k n : ℕ) → n < k → Acc ◌<◌ n
below zero n h = absurd (omega arith)
below (suc k) n h = Acc.intro n λ m lt. below k m (omega arith)

pub quotient_below : {n : ℕ} → 9 < n → n / 10 < n
quotient_below h = omega arith

write_digits : (n : ℕ) → Acc ◌<◌ n → String
unfolding digit_text
write_digits n (Acc.intro _ smaller) =
    dite (dec_lt 9 n)
      (λ h.
        text_append (write_digits (n / 10) (smaller (n / 10) (quotient_below h)))
          (digit_text (n % 10)))
      (λ _. digit_text n)

unfoldable pub decimal : ℕ → String
unfolding write_digits below
decimal n = write_digits n (below (suc n) n (omega arith))

unfoldable pub decimal_ℤ : ℤ → String
unfolding decimal
decimal_ℤ (pos n) = decimal n
decimal_ℤ (negsuc n) = text_append "-" (decimal (suc n))

decimal_max : decimal 4294967295 ≡ "4294967295"
unfolding decimal dec_lt
decimal_max = refl
