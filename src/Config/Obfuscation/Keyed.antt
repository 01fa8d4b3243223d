-- ===== src/Config/Obfuscation/Keyed.antt =====
-- Under which keys a normalised obfuscation keeps its numbers, its texts and its ranges.
use vpn_suite.Prelude.{
  ℕ, String, true, Option, some, List, [], ◌∷◌, ◌≡◌, refl, arith, all, member, Dict, string_eq, ok,
  Holds, Holds->>=, Holds-option, Holds-check, Holds-rest, if◌then◌else◌, strip, is_truthy, lookup,
  Bool-cases, inl, inr, ℤ, none, Result, err, ◌>>=◌,
}
use vpn_suite.Config.Values.{Value, null, flag, number, text, other}
use vpn_suite.Config.Obfuscation.{
  Error, empty_text, Header, Obfuscation, asc_check, legacy_check, number_at, numbers_from,
  texts_from, header_of, header_at, headers_from, overlaps, check_pairs, asc_keys_ok,
  legacy_keys_ok, normalize_awg2, normalize_legacy, asc_numbers, legacy_numbers, text_keys,
  header_keys,
}

-- Every key of a dictionary is one of the keys.
abbrev pub AreOf {ℓ} : {V : Type ℓ} → List String → Dict String V → Type 0
AreOf keys d = all (λ e. member e.0 keys) d ≡ true

numbers_from-AreOf :
    (keys : List String) (check : String → ℕ → Option Error) (obf : Dict String Value)
    (ks : List String)
    → all (λ k. member k keys) ks ≡ true
    → Holds (AreOf keys) (numbers_from check obf ks)
unfolding numbers_from
numbers_from-AreOf keys check obf [] h = refl
numbers_from-AreOf keys check obf (k ∷ ks) h =
    let Q : Dict String ℕ → Type 0 = AreOf keys in
    let rest = numbers_from-AreOf keys check obf ks (ground arith) in
    Holds-rest Q (number_at obf k) _ λ found. Holds-option Q found _ _ rest λ n e.
      Holds-check Q (check k n) _
        λ c. Holds->>= Q Q (numbers_from check obf ks) _ rest λ out known. ground arith

texts_from-AreOf :
    (keys : List String) (obf : Dict String Value) (ks : List String)
    → all (λ k. member k keys) ks ≡ true
    → Holds (AreOf keys) (texts_from obf ks)
unfolding texts_from
texts_from-AreOf keys obf [] h = refl
texts_from-AreOf keys obf (k ∷ ks) h =
    let Q : Dict String String → Type 0 = AreOf keys in
    let rest = texts_from-AreOf keys obf ks (ground arith) in
    Holds-option Q (lookup k obf) _ _ rest λ v e. kept v rest
  where
    kept :
        (v : Value)
        → Holds (AreOf keys) (texts_from obf ks)
        → Holds (AreOf keys) (elim v as (λ v. Result Error (Dict String String)) [
          | null ↦ texts_from obf ks
          | text s ↦
              if is_truthy (strip s)
              then texts_from obf ks >>= (λ out. ok ((k, strip s) ∷ out))
              else err (empty_text k)
          | _ ↦ err (empty_text k)
        ])
    kept null r = r
    kept (flag b) r = tt
    kept (number z) r = tt
    kept (other o) r = tt
    kept (text s) r = elim (Bool-cases (is_truthy (strip s))) [
      | inl full ↦
          rw full
            (Holds->>= (AreOf keys) (AreOf keys) (texts_from obf ks) _ r λ out known. ground arith)
      | inr blank ↦ rw blank tt
    ]

abbrev IsAt : String → Option Header → Type 0
IsAt k none = Unit
IsAt k (some h) = h.key ≡ k

header_at-key : (obf : Dict String Value) (k : String) → Holds (IsAt k) (header_at obf k)
unfolding header_at header_of
header_at-key obf k = ground arith

headers_from-AreOf :
    (keys : List String) (obf : Dict String Value) (ks : List String)
    → all (λ k. member k keys) ks ≡ true
    → Holds (λ hs. all (λ h. member h.key keys) hs ≡ true) (headers_from obf ks)
unfolding headers_from
headers_from-AreOf keys obf [] h = refl
headers_from-AreOf keys obf (k ∷ ks) h =
    let Q : List Header → Type 0 = λ hs. all (λ h. member h.key keys) hs ≡ true in
    let rest = headers_from-AreOf keys obf ks (ground arith) in
    Holds->>= (IsAt k) Q (header_at obf k) _ (header_at-key obf k) λ found named.
      Holds-option Q found _ _ rest
        λ g e. Holds->>= Q Q (headers_from obf ks) _ rest λ out known. ground arith

-- The numbers stand under the numbers' keys, the texts under `I1` to `I5`, the ranges under `H1` to
-- `H4`.
abbrev pub IsKeyed : Obfuscation → Type 0
IsKeyed o =
    AreOf asc_numbers o.numbers
    × AreOf text_keys o.texts
    × (all (λ h. member h.key header_keys) o.headers ≡ true)

pub awg2-IsKeyed :
    (obf : Dict String Value) (mtu : Option ℤ) → Holds IsKeyed (normalize_awg2 obf mtu)
unfolding normalize_awg2
awg2-IsKeyed obf mtu = Holds-check IsKeyed (asc_keys_ok obf) _ λ known.
    Holds->>= (AreOf asc_numbers) IsKeyed _ _
      (numbers_from-AreOf asc_numbers (asc_check mtu) obf asc_numbers refl)
      λ numbers ns.
        Holds->>= (AreOf text_keys) IsKeyed _ _ (texts_from-AreOf text_keys obf text_keys refl)
          λ texts ts.
            Holds->>= (λ hs. all (λ h. member h.key header_keys) hs ≡ true) IsKeyed _ _
              (headers_from-AreOf header_keys obf header_keys refl)
              λ headers hs. Holds-check IsKeyed (overlaps headers) _ λ apart.
                Holds-check IsKeyed (check_pairs numbers)
                  (ok (record { numbers = numbers; texts = texts; headers = headers }))
                  λ paired. (ns, ts, hs)

pub legacy-IsKeyed : (obf : Dict String Value) → Holds IsKeyed (normalize_legacy obf)
unfolding normalize_legacy
legacy-IsKeyed obf = Holds-check IsKeyed (legacy_keys_ok obf) _ λ known.
    Holds->>= (AreOf asc_numbers) IsKeyed _ _
      (numbers_from-AreOf asc_numbers legacy_check obf legacy_numbers refl)
      λ numbers ns.
        Holds->>= (AreOf text_keys) IsKeyed _ _ (texts_from-AreOf text_keys obf text_keys refl)
          λ texts ts.
            Holds-check IsKeyed (check_pairs numbers)
              (ok (record { numbers = numbers; texts = texts; headers = [] }))
              λ paired. (ns, ts, refl)
