-- ===== src/Prelude/Lists.antt =====
-- Lists measured by native numbers, under the library's names.
use Prim.Native.Nat.{ℕ, zero, suc, ◌+◌, ◌≤◌}
use mathlib.Core.Path.{◌≡◌, refl}
use mathlib.Core.Bool.{Bool, true, false, not, ◌&&◌, ◌||◌}
use mathlib.Core.Logic.{◌⊎◌, inl, inr}
use mathlib.Core.List.{List, [], ◌∷◌, ◌++◌}
use native.Mathlib.Omega.{arith}
use vpn_suite.Prelude.Tests.{if◌then◌else◌}

module _ {ℓ} {A : Type ℓ} where
  abbrev pub length : List A → ℕ
  length [] = 0
  length (x ∷ xs) = suc (length xs)

  -- A Python list as a truth value.
  abbrev pub is_empty : List A → Bool
  is_empty [] = true
  is_empty (x ∷ xs) = false

  -- `[x for x in xs if keep(x)]`
  abbrev pub filter : (A → Bool) → List A → List A
  filter keep [] = []
  filter keep (x ∷ xs) = let rest = filter keep xs in if keep x then x ∷ rest else rest

  -- `xs[:n]`
  abbrev pub take : ℕ → List A → List A
  take zero xs = []
  take (suc n) [] = []
  take (suc n) (x ∷ xs) = x ∷ take n xs

  -- `xs.sort(key=...)`, which is stable: `before` says that one key is smaller than another.
  abbrev pub insert_by : (A → A → Bool) → A → List A → List A
  insert_by before x [] = x ∷ []
  insert_by before x (y ∷ ys) =
      let rest = insert_by before x ys in if before y x then y ∷ rest else x ∷ y ∷ ys

  abbrev pub sort_by : (A → A → Bool) → List A → List A
  sort_by before [] = []
  sort_by before (x ∷ xs) = insert_by before x (sort_by before xs)

  -- `all(test(x) for x in xs)`
  abbrev pub all : (A → Bool) → List A → Bool
  all test [] = true
  all test (x ∷ xs) = test x && all test xs

  -- `any(test(x) for x in xs)`
  abbrev pub any : (A → Bool) → List A → Bool
  any test [] = false
  any test (x ∷ xs) = test x || any test xs

  pub any-append :
      (test : A → Bool) (xs ys : List A) → any test (xs ++ ys) ≡ (any test xs || any test ys)
  any-append test [] ys = ground arith
  any-append test (x ∷ xs) ys = ground (arith, any-append test xs ys)

  pub any-filter :
      (test keep : A → Bool) (xs : List A)
      → ((x : A) → test x ≡ true → keep x ≡ true)
      → any test (filter keep xs) ≡ any test xs
  any-filter test keep [] h = ground arith
  any-filter test keep (x ∷ xs) h = ground (arith, h x, any-filter test keep xs h)

  pub append-nil : (xs : List A) → xs ++ [] ≡ xs
  append-nil [] = ground arith
  append-nil (x ∷ xs) = ground (arith, append-nil xs)

  pub filter-append :
      (keep : A → Bool) (xs ys : List A) → filter keep (xs ++ ys) ≡ filter keep xs ++ filter keep ys
  filter-append keep [] ys = ground arith
  filter-append keep (x ∷ xs) ys = ground (arith, filter-append keep xs ys)

  pub filter-filter_comm :
      (p q : A → Bool) (xs : List A) → filter p (filter q xs) ≡ filter q (filter p xs)
  filter-filter_comm p q [] = ground arith
  filter-filter_comm p q (x ∷ xs) = ground (arith, filter-filter_comm p q xs)

  pub length-append : (xs ys : List A) → length (xs ++ ys) ≡ length xs + length ys
  length-append [] ys = omega arith
  length-append (x ∷ xs) ys = omega (arith, length-append xs ys)

  pub length-snoc : (xs : List A) (x : A) → length (xs ++ (x ∷ [])) ≡ length xs + 1
  length-snoc [] x = omega arith
  length-snoc (y ∷ xs) x = omega (arith, length-snoc xs x)

  pub length-filter_mono :
      (p q : A → Bool) (xs : List A)
      → ((x : A) → p x ≡ true → q x ≡ true)
      → length (filter p xs) ≤ length (filter q xs)
  length-filter_mono p q [] h = omega arith
  length-filter_mono p q (x ∷ xs) h = ground (arith, h x, length-filter_mono p q xs h)

pub length-take {ℓ} : {A : Type ℓ} (n : ℕ) (xs : List A) → length (take n xs) ≤ n
length-take zero xs = omega arith
length-take (suc n) [] = omega arith
length-take (suc n) (x ∷ xs) = omega (arith, length-take n xs)

abbrev pub sum : List ℕ → ℕ
sum [] = 0
sum (x ∷ xs) = x + sum xs

-- Every element has the property.
abbrev pub All {ℓ κ} : {A : Type ℓ} → (A → Type κ) → List A → Type κ
All P [] = Unit
All P (x ∷ xs) = P x × All P xs

pub All-append {ℓ κ} :
    {A : Type ℓ} (P : A → Type κ) (xs ys : List A) → All P xs → All P ys → All P (xs ++ ys)
All-append P [] ys h k = k
All-append P (x ∷ xs) ys h k = (h.0, All-append P xs ys h.1 k)

-- The element is one of the list's.
abbrev pub IsOneOf : {A : Type 0} → A → List A → Type 0
IsOneOf x [] = ⊥
IsOneOf x (y ∷ ys) = (y ≡ x) ⊎ IsOneOf x ys

pub filter-IsOneOf :
    {A : Type 0} (test : A → Bool) (x : A) (ys : List A) → IsOneOf x (filter test ys) → IsOneOf x ys
filter-IsOneOf test x [] h = h
filter-IsOneOf test x (y ∷ ys) h = one (test y) (λ k. filter-IsOneOf test x ys k) h
  where
    one :
        (b : Bool)
        → (IsOneOf x (filter test ys) → IsOneOf x ys)
        → IsOneOf x (if b then y ∷ filter test ys else filter test ys)
        → IsOneOf x (y ∷ ys)
    one true rec (inl e) = inl e
    one true rec (inr r) = inr (rec r)
    one false rec r = inr (rec r)

-- What all of a filtered list pass, all of the list pass that pass the filter.
pub all-filter_implies {ℓ} :
    {A : Type ℓ} (test pred : A → Bool) (ys : List A)
    → all pred (filter test ys) ≡ true
    → all (λ y. not (test y) || pred y) ys ≡ true
all-filter_implies test pred [] h = refl
all-filter_implies test pred (y ∷ ys) h = ground (arith, all-filter_implies test pred ys)

-- What all of a list pass, all of it pass that is kept.
pub all-filter_still {ℓ} :
    {A : Type ℓ} (keep pred : A → Bool) (ys : List A)
    → all pred ys ≡ true
    → all pred (filter keep ys) ≡ true
all-filter_still keep pred [] h = refl
all-filter_still keep pred (y ∷ ys) h = ground (arith, all-filter_still keep pred ys)
