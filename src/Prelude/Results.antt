-- ===== src/Prelude/Results.antt =====
-- Results with an error, and chains of them.
use mathlib.Core.Path.{◌≡◌, refl, subst}
use mathlib.Core.Option.{Option, none, some}
use mathlib.Core.Logic.{◌⊎◌, inl, inr}

pub data Result {ℓ κ} (E : Type ℓ) (A : Type κ) : Type (ℓ ⊔ κ) where
  ok : A → Result E A
  err : E → Result E A

infixl 5 ◌>>=◌ ◌>>◌
abbrev pub ◌>>=◌ {ℓ κ μ} :
    {E : Type ℓ} {A : Type κ} {B : Type μ} → Result E A → (A → Result E B) → Result E B
ok a >>= f = f a
err e >>= f = err e

abbrev pub ◌>>◌ {ℓ κ} : {E : Type ℓ} {B : Type κ} → Result E (Unit {0}) → Result E B → Result E B
m >> k = m >>= λ u. k

-- What a result holds satisfies a property.
abbrev pub Holds {ℓ κ μ} : {E : Type ℓ} {A : Type κ} → (A → Type μ) → Result E A → Type μ
Holds P (ok a) = P a
Holds P (err e) = Unit

pub Holds->>= {ℓ κ μ ν ξ} :
    {E : Type ℓ} {A : Type κ} {B : Type μ} (P : A → Type ν) (Q : B → Type ξ) (m : Result E A)
    (f : A → Result E B)
    → Holds P m
    → ((a : A) → P a → Holds Q (f a))
    → Holds Q (m >>= f)
Holds->>= P Q (ok a) f p q = q a p
Holds->>= P Q (err e) f p q = tt

pub Holds-ok {ℓ κ μ} :
    {E : Type ℓ} {A : Type κ} (P : A → Type μ) (m : Result E A) (a : A) → Holds P m → m ≡ ok a → P a
Holds-ok P m a p h = subst (Holds P) h p

-- A check before the rest.
pub Holds-check {ℓ κ μ} :
    {E : Type ℓ} {A : Type κ} (P : A → Type μ) (c : Option E) (m : Result E A)
    → (c ≡ none → Holds P m)
    → Holds P (elim c [ some e ↦ err e | none ↦ m ])
Holds-check P none m p = p refl
Holds-check P (some e) m p = tt

-- A step that an option decides.
pub Holds-option {ℓ κ μ ν} :
    {E : Type ℓ} {A : Type κ} {B : Type μ} (P : B → Type ν) (o : Option A) (rest : Result E B)
    (f : A → Result E B)
    → Holds P rest
    → ((a : A) → o ≡ some a → Holds P (f a))
    → Holds P (elim o [ none ↦ rest | some a ↦ f a ])
Holds-option P none rest f p q = p
Holds-option P (some a) rest f p q = q a refl

pub Holds-trivial {ℓ κ} : {E : Type ℓ} {A : Type κ} (m : Result E A) → Holds (λ a. Unit {0}) m
Holds-trivial (ok a) = tt
Holds-trivial (err e) = tt

pub Result-cases {ℓ κ} :
    {E : Type ℓ} {A : Type κ} (m : Result E A) → ((a : A) × (m ≡ ok a)) ⊎ ((e : E) × (m ≡ err e))
Result-cases (ok a) = inl (a, refl)
Result-cases (err e) = inr (e, refl)

-- A result holds what it is.
pub ok-Holds {ℓ κ} : {E : Type ℓ} {A : Type κ} (m : Result E A) → Holds (λ a. m ≡ ok a) m
ok-Holds (ok a) = refl
ok-Holds (err e) = tt

-- What follows of a result holds of it.
pub all-Holds {ℓ κ μ} :
    {E : Type ℓ} {A : Type κ} (P : A → Type μ) (m : Result E A)
    → ((a : A) → m ≡ ok a → P a)
    → Holds P m
all-Holds P (ok a) h = h a refl
all-Holds P (err e) h = tt

pub constant-Holds {ℓ κ μ} :
    {E : Type ℓ} {A : Type κ} {C : Type μ} (m : Result E A) → C → Holds (λ (a : A). C) m
constant-Holds (ok a) c = c
constant-Holds (err e) c = tt

-- What every continuation gives, whatever stands before it.
pub Holds-rest {ℓ κ μ ν} :
    {E : Type ℓ} {A : Type κ} {B : Type μ} (Q : B → Type ν) (m : Result E A) (f : A → Result E B)
    → ((a : A) → Holds Q (f a))
    → Holds Q (m >>= f)
Holds-rest Q (ok a) f q = q a
Holds-rest Q (err e) f q = tt
