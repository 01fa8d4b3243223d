-- ===== src/Config/Obfuscation/Sound.antt =====
-- What a normalised obfuscation promises: the kernel's conditions on pairs, the bounds of the
-- profile, and header ranges that are disjoint.
use vpn_suite.Prelude.{
  ℕ, ◌≤◌, ◌<◌, ◌+◌, ◌-◌, ◌≡◌, ◌≢◌, refl, String, Option, none, some, [], ◌∷◌, Dict, lookup, ok, All,
  arith, string_eq, nat_eq, eq_iff, Holds, Holds->>=, Holds-ok, Holds-trivial, Holds-check, ℤ,
}
use vpn_suite.Config.Values.{Value}
use vpn_suite.Config.Obfuscation.{
  Error, Obfuscation, asc_check, legacy_check, base_mtu, check_pairs, normalize_awg2,
  normalize_legacy, asc_keys_ok, legacy_keys_ok, overlaps, texts_from, text_keys, asc_numbers,
  legacy_numbers, header_keys,
}
use vpn_suite.Config.Obfuscation.Numbers.{Passed, numbers_from-Passed}
use vpn_suite.Config.Obfuscation.Headers.{IsRange, AreDisjoint, headers_from-IsRange, overlaps-none}

-- Both numbers are there, and are related.
abbrev pub Related : (ℕ → ℕ → Type 0) → Option ℕ → Option ℕ → Type 0
Related R none b = Unit
Related R (some a) none = Unit
Related R (some a) (some b) = R a b

-- A number that is there lies between 1 and the bound.
abbrev pub IsWithin : ℕ → ℕ → Option ℕ → Type 0
IsWithin low high none = Unit
IsWithin low high (some n) = (low ≤ n) × (n ≤ high)

-- What the kernel asks of a profile's numbers.
abbrev pub ArePaired : Dict String ℕ → Type 0
ArePaired d =
    Related (λ s1 s2. s1 + 56 ≢ s2) (lookup "S1" d) (lookup "S2" d)
    × Related ◌≤◌ (lookup "Jmin" d) (lookup "Jmax" d)

check_pairs-none : (d : Dict String ℕ) → check_pairs d ≡ none → ArePaired d
unfolding check_pairs
check_pairs-none d h = (ground arith, ground arith)

lookup-Passed :
    (check : String → ℕ → Option Error) (k : String) (d : Dict String ℕ) (low high : ℕ)
    → ((n : ℕ) → 0 < n → check k n ≡ none → IsWithin low high (some n))
    → All (Passed check) d
    → IsWithin low high (lookup k d)
lookup-Passed check k [] low high w p = tt
lookup-Passed check k ((j, n) ∷ d) low high w p =
    ground (arith, eq_iff j k, w n, lookup-Passed check k d low high w p.1)

abbrev pub AscBounds : Option ℤ → Dict String ℕ → Type 0
AscBounds mtu d =
    IsWithin 1 128 (lookup "Jc" d)
    × IsWithin 1 1280 (lookup "Jmin" d)
    × IsWithin 1 1280 (lookup "Jmax" d)
    × IsWithin 1 (base_mtu mtu - 148) (lookup "S1" d)
    × IsWithin 1 (base_mtu mtu - 92) (lookup "S2" d)

abbrev pub LegacyBounds : Dict String ℕ → Type 0
LegacyBounds d =
    IsWithin 1 10 (lookup "Jc" d)
    × IsWithin 64 1024 (lookup "Jmin" d)
    × IsWithin 64 1024 (lookup "Jmax" d)
    × IsWithin 1 64 (lookup "S1" d)
    × IsWithin 1 64 (lookup "S2" d)

asc_bounds : (mtu : Option ℤ) (d : Dict String ℕ) → All (Passed (asc_check mtu)) d → AscBounds mtu d
unfolding asc_check
asc_bounds mtu d p = (
  lookup-Passed (asc_check mtu) "Jc" d 1 128 (λ n q h. ground arith) p,
  lookup-Passed (asc_check mtu) "Jmin" d 1 1280 (λ n q h. ground arith) p,
  lookup-Passed (asc_check mtu) "Jmax" d 1 1280 (λ n q h. ground arith) p,
  lookup-Passed (asc_check mtu) "S1" d 1 (base_mtu mtu - 148) (λ n q h. ground arith) p,
  lookup-Passed (asc_check mtu) "S2" d 1 (base_mtu mtu - 92) (λ n q h. ground arith) p,
)

legacy_bounds : (d : Dict String ℕ) → All (Passed legacy_check) d → LegacyBounds d
unfolding legacy_check
legacy_bounds d p = (
  lookup-Passed legacy_check "Jc" d 1 10 (λ n q h. ground arith) p,
  lookup-Passed legacy_check "Jmin" d 64 1024 (λ n q h. ground arith) p,
  lookup-Passed legacy_check "Jmax" d 64 1024 (λ n q h. ground arith) p,
  lookup-Passed legacy_check "S1" d 1 64 (λ n q h. ground arith) p,
  lookup-Passed legacy_check "S2" d 1 64 (λ n q h. ground arith) p,
)

abbrev pub IsAscProfile : Option ℤ → Obfuscation → Type 0
IsAscProfile mtu o =
    ArePaired o.numbers × AscBounds mtu o.numbers × All IsRange o.headers × AreDisjoint o.headers

pub awg2-Holds :
    (obf : Dict String Value) (mtu : Option ℤ) → Holds (IsAscProfile mtu) (normalize_awg2 obf mtu)
unfolding normalize_awg2
awg2-Holds obf mtu =
    let Q = IsAscProfile mtu in
    Holds-check Q (asc_keys_ok obf) _ λ known.
      Holds->>= (All (Passed (asc_check mtu))) Q _ _
        (numbers_from-Passed (asc_check mtu) obf asc_numbers)
        λ numbers passed.
          Holds->>= (λ t. Unit {0}) Q (texts_from obf text_keys) _
            (Holds-trivial (texts_from obf text_keys))
            λ texts u.
              Holds->>= (All IsRange) Q _ _ (headers_from-IsRange obf header_keys) λ headers ranges.
                Holds-check Q (overlaps headers) _ λ apart.
                  Holds-check Q (check_pairs numbers)
                    (ok (record { numbers = numbers; texts = texts; headers = headers }))
                    λ paired. (
                      check_pairs-none numbers paired,
                      asc_bounds mtu numbers passed,
                      ranges,
                      overlaps-none headers ranges apart,
                    )

-- Where the normalisation of a current profile succeeds, what it keeps is what the kernel and the
-- profile take: S1 + 56 is not S2 and Jmin is at most Jmax, where both are there; Jc, Jmin, Jmax, S1
-- and S2 are positive and within the profile's bounds, those of S1 and S2 counted from the MTU; and
-- the header ranges are not empty, end between 1 and 2^32 - 1, and no two have a number in common.
pub awg2_sound :
    (obf : Dict String Value) (mtu : Option ℤ) (o : Obfuscation)
    → normalize_awg2 obf mtu ≡ ok o
    → IsAscProfile mtu o
awg2_sound obf mtu o h =
    Holds-ok (IsAscProfile mtu) (normalize_awg2 obf mtu) o (awg2-Holds obf mtu) h

abbrev pub IsLegacyProfile : Obfuscation → Type 0
IsLegacyProfile o = ArePaired o.numbers × LegacyBounds o.numbers × (o.headers ≡ [])

pub legacy-Holds : (obf : Dict String Value) → Holds IsLegacyProfile (normalize_legacy obf)
unfolding normalize_legacy
legacy-Holds obf = Holds-check IsLegacyProfile (legacy_keys_ok obf) _ λ known.
    Holds->>= (All (Passed legacy_check)) IsLegacyProfile _ _
      (numbers_from-Passed legacy_check obf legacy_numbers)
      λ numbers passed.
        Holds->>= (λ t. Unit {0}) IsLegacyProfile (texts_from obf text_keys) _
          (Holds-trivial (texts_from obf text_keys))
          λ texts u.
            Holds-check IsLegacyProfile (check_pairs numbers)
              (ok (record { numbers = numbers; texts = texts; headers = [] }))
              λ paired. (check_pairs-none numbers paired, legacy_bounds numbers passed, refl)

-- Where the normalisation of a legacy profile succeeds, S1 + 56 is not S2 and Jmin is at most Jmax,
-- where both are there, the numbers kept are within the legacy bounds, and no header is kept.
pub legacy_sound :
    (obf : Dict String Value) (o : Obfuscation) → normalize_legacy obf ≡ ok o → IsLegacyProfile o
legacy_sound obf o h = Holds-ok IsLegacyProfile (normalize_legacy obf) o (legacy-Holds obf) h
