-- ===== src/Prelude/Maps.antt =====
-- Python's `dict`, in insertion order: an assignment to a known key keeps its place.
use mathlib.Core.Path.{◌≡◌, refl}
use mathlib.Core.Logic.{◌↔◌}
use mathlib.Core.Bool.{Bool, true, false, ◌&&◌, ◌||◌}
use mathlib.Core.Option.{Option, none, some}
use mathlib.Core.List.{List, [], ◌∷◌}
use native.Mathlib.Omega.{arith}
use Prim.Native.Nat.{ℕ}
use Prim.Native.String.{String}
use text.Mathlib.Text.{◌==◌ as text_eq}
use text.Mathlib.TextEquality.{eq_iff}
use vpn_suite.Prelude.Lists.{filter}
use vpn_suite.Prelude.Tests.{if◌then◌else◌, is_some, nat_beq, nat_beq_iff}

-- Equality of keys, as `==` decides it.
pub record Eq {ℓ} (K : Type ℓ) : Type ℓ where
  pub beq : K → K → Bool
  pub beq_iff : (a b : K) → (beq a b ≡ true) ↔ (a ≡ b)

infix 50 ◌==◌
abbrev pub ◌==◌ {ℓ} : {K : Type ℓ} ⦃e : Eq K⦄ → K → K → Bool
◌==◌ ⦃e⦄ = e.beq

pub ==_refl {ℓ} : {K : Type ℓ} ⦃e : Eq K⦄ (a : K) → (a == a) ≡ true
==_refl ⦃e⦄ a = (e.beq_iff a a).1 refl

abbrev pub Dict {ℓ κ} : Type ℓ → Type κ → Type (ℓ ⊔ κ)
Dict K V = List (K × V)

module _ {ℓ κ} {K : Type ℓ} {V : Type κ} ⦃e : Eq K⦄ where
  -- `d.get(k)`
  abbrev pub lookup : K → Dict K V → Option V
  lookup k [] = none
  lookup k ((j, v) ∷ d) = if j == k then some v else lookup k d

  -- `k in d`
  abbrev pub contains : K → Dict K V → Bool
  contains k d = is_some (lookup k d)

  -- `d[k] = v`
  abbrev pub insert : K → V → Dict K V → Dict K V
  insert k v [] = (k, v) ∷ []
  insert k v ((j, w) ∷ d) = if j == k then (j, v) ∷ d else (j, w) ∷ insert k v d

  -- No key stands twice.
  abbrev pub HasUniqueKeys : Dict K V → Type 0
  HasUniqueKeys [] = Unit
  HasUniqueKeys ((k, v) ∷ d) = (contains k d ≡ false) × HasUniqueKeys d

module _ {ℓ κ} {K : Type ℓ} {V : Type κ} ⦃e : Eq K⦄ where
  -- A later write wins, and no other key is touched.
  pub lookup-insert :
      (k j : K) (v : V) (d : Dict K V)
      → lookup k (insert j v d) ≡ (if j == k then some v else lookup k d)
  lookup-insert k j v [] = refl
  lookup-insert k j v ((i, w) ∷ d) =
      ground (arith, e.beq_iff i j, e.beq_iff i k, e.beq_iff j k, lookup-insert k j v d)

  pub insert-HasUniqueKeys :
      (j : K) (v : V) (d : Dict K V) → HasUniqueKeys d → HasUniqueKeys (insert j v d)
  insert-HasUniqueKeys j v [] h = (refl, tt)
  insert-HasUniqueKeys j v ((i, w) ∷ d) h =
      ground
        (arith, e.beq_iff i j, e.beq_iff j i, insert-HasUniqueKeys j v d h.1, lookup-insert i j v d)

instance abbrev pub string_eq : Eq String
string_eq = record { beq = text_eq; beq_iff = eq_iff }

instance abbrev pub nat_eq : Eq ℕ
nat_eq = record { beq = nat_beq; beq_iff = nat_beq_iff }

module _ {ℓ κ} {K : Type ℓ} {V : Type κ} ⦃e : Eq K⦄ where
  -- The value that a list of writes leaves for a key: the last one.
  abbrev pub find_last : K → List (K × V) → Option V
  find_last k [] = none
  find_last k ((j, v) ∷ d) = elim (find_last k d) [
    | some w ↦ some w
    | none ↦ if j == k then some v else none
  ]

  pub lookup-filter-none :
      (keep : K × V → Bool) (k : K) (d : Dict K V)
      → lookup k d ≡ none
      → lookup k (filter keep d) ≡ none
  lookup-filter-none keep k [] h = refl
  lookup-filter-none keep k ((j, v) ∷ d) h = ground (arith, lookup-filter-none keep k d)

  -- Where keys are unique, a filter keeps a key's entry or drops it.
  pub find_last-filter :
      (keep : K × V → Bool) (k : K) (d : Dict K V)
      → HasUniqueKeys d
      → find_last k (filter keep d)
        ≡ elim (lookup k d) [ none ↦ none | some v ↦ if keep (k, v) then some v else none ]
  find_last-filter keep k [] h = refl
  find_last-filter keep k ((j, v) ∷ d) h =
      ground (arith, e.beq_iff j k, find_last-filter keep k d h.1)

  -- A filter on keys alone.
  pub contains-filter :
      (keep : K → Bool) (k : K) (d : Dict K V)
      → contains k (filter (λ x. keep x.0) d) ≡ (contains k d && keep k)
  contains-filter keep k [] = refl
  contains-filter keep k ((j, v) ∷ d) = ground (arith, e.beq_iff j k, contains-filter keep k d)

module _ {ℓ κ} {K : Type ℓ} {V : Type κ} ⦃e : Eq K⦄ where
  pub filter-HasUniqueKeys :
      (keep : K × V → Bool) (d : Dict K V) → HasUniqueKeys d → HasUniqueKeys (filter keep d)
  filter-HasUniqueKeys keep [] h = tt
  filter-HasUniqueKeys keep ((j, v) ∷ d) h =
      ground (arith, filter-HasUniqueKeys keep d h.1, lookup-filter-none keep j d)

  -- Where keys are unique, what a filtered dictionary holds was there and passed the test.
  pub lookup-filter-some :
      (keep : K × V → Bool) (k : K) (v : V) (d : Dict K V)
      → HasUniqueKeys d
      → lookup k (filter keep d) ≡ some v
      → (lookup k d ≡ some v) × (keep (k, v) ≡ true)
  lookup-filter-some keep k v [] u h = cc
  lookup-filter-some keep k v ((j, w) ∷ d) u h =
      ground (arith, e.beq_iff j k, lookup-filter-some keep k v d u.1, lookup-filter-none keep j d)

-- `k in ks`
abbrev pub member {ℓ} : {K : Type ℓ} ⦃e : Eq K⦄ → K → List K → Bool
member k [] = false
member k (j ∷ js) = j == k || member k js
