-- ===== src/Config/Text/Sound.antt =====
-- What a configuration that is built consists of.
use vpn_suite.Prelude.{
  String, Bool, true, false, Option, List, [], ◌∷◌, ◌++◌, ◌≡◌, refl, arith, is_empty, if◌then◌else◌,
  Dict, Result, ok, err, Holds, Holds->>=, Holds-ok, ok-Holds, ℤ, Bool-cases, inl, inr,
}
use vpn_suite.Config.Values.{Value}
use vpn_suite.Config.Obfuscation.{Error, Obfuscation, normalize_awg2, normalize_legacy}
use vpn_suite.Config.Obfuscation.Sound.{
  IsAscProfile, IsLegacyProfile, ArePaired, LegacyBounds, awg2-Holds, legacy-Holds,
}
use vpn_suite.Config.Obfuscation.Keyed.{IsKeyed, awg2-IsKeyed, legacy-IsKeyed}
use vpn_suite.Config.Text.Fields.{
  Parsers, validate_key_b64, validate_address, validate_endpoint, validate_allowed_ips,
}
use vpn_suite.Config.Text.{
  ConfigProfile, wireguard_universal, awg_legacy_or_basic, awg_2_0_asc, mobile_optimized,
  InterfaceFields, PeerFields, Checked, check_fields, effective_mtu, normalize_for, psk_lines,
  config_lines, join_lines, build_config, no_obfuscation, faults_of, value_of, profile_faults,
  raise_one,
}

-- What a profile promises of the obfuscation that is written: none at all, or what the kernel and
-- the profile take.
abbrev pub IsFit : ConfigProfile → Option ℤ → Obfuscation → Type 0
IsFit wireguard_universal mtu o = o ≡ no_obfuscation
IsFit awg_legacy_or_basic mtu o = IsLegacyProfile o
IsFit awg_2_0_asc mtu o = IsAscProfile mtu o
IsFit mobile_optimized mtu o = IsAscProfile mtu o

-- The fields are what the validators return of them.
abbrev pub AreValid : Parsers → InterfaceFields → PeerFields → Checked → Type 0
AreValid p interface peer c =
    (validate_key_b64 p "PrivateKey" interface.private_key ≡ ok c.private_key)
    × (validate_address p interface.address ≡ ok c.address)
    × (validate_key_b64 p "PublicKey" peer.public_key ≡ ok c.public_key)
    × (validate_endpoint p peer.endpoint ≡ ok c.endpoint)
    × (validate_allowed_ips p peer.allowed_ips ≡ ok c.allowed_ips)

empty-append {ℓ} :
    {A : Type ℓ} (xs ys : List A)
    → is_empty (xs ++ ys) ≡ true
    → (is_empty xs ≡ true) × (is_empty ys ≡ true)
empty-append [] ys h = (refl, h)
empty-append (x ∷ xs) ys h = absurd (ground arith)

no_faults {ℓ} :
    {E : Type ℓ} (r : Result E String) → is_empty (faults_of r) ≡ true → r ≡ ok (value_of r)
no_faults (ok s) h = refl
no_faults (err e) h = absurd (ground arith)

check_fields-AreValid :
    (p : Parsers) (interface : InterfaceFields) (peer : PeerFields) (profile : ConfigProfile)
    (obf : Dict String Value)
    → Holds (AreValid p interface peer) (check_fields p interface peer profile obf)
unfolding check_fields
check_fields-AreValid p interface peer profile obf =
    let priv = validate_key_b64 p "PrivateKey" interface.private_key in
    let addr = validate_address p interface.address in
    let pub_key = validate_key_b64 p "PublicKey" peer.public_key in
    let ep = validate_endpoint p peer.endpoint in
    let allowed = validate_allowed_ips p peer.allowed_ips in
    let e5 = faults_of allowed ++ profile_faults profile obf in
    let e4 = faults_of ep ++ e5 in
    let e3 = faults_of pub_key ++ e4 in
    let e2 = faults_of addr ++ e3 in
    elim (Bool-cases (is_empty (faults_of priv ++ e2))) [
      | inr faulty ↦ rw faulty tt
      | inl clean ↦ rw clean (
          let (f1, r1) = empty-append (faults_of priv) e2 clean in
          let (f2, r2) = empty-append (faults_of addr) e3 r1 in
          let (f3, r3) = empty-append (faults_of pub_key) e4 r2 in
          let (f4, r4) = empty-append (faults_of ep) e5 r3 in
          let (f5, r5) = empty-append (faults_of allowed) (profile_faults profile obf) r4 in
          (
            no_faults priv f1,
            no_faults addr f2,
            no_faults pub_key f3,
            no_faults ep f4,
            no_faults allowed f5,
          ))
    ]

raise_one-Holds {ℓ κ} :
    {A : Type ℓ} (P : A → Type κ) (m : Result Error A) → Holds P m → Holds P (raise_one m)
raise_one-Holds P (ok a) h = h
raise_one-Holds P (err e) h = tt

if-Holds {ℓ κ μ} :
    {E : Type ℓ} {A : Type κ} (P : A → Type μ) (b : Bool) (m n : Result E A)
    → Holds P m
    → Holds P n
    → Holds P (if b then m else n)
if-Holds P true m n h k = h
if-Holds P false m n h k = k

nothing_paired : ArePaired []
nothing_paired = (tt, tt)

nothing_small : LegacyBounds []
nothing_small = (tt, tt, tt, tt, tt)

asc-IsFit :
    (obf : Dict String Value) (mtu : Option ℤ)
    → Holds
        (IsAscProfile mtu)
        (if is_empty obf then ok no_obfuscation else raise_one (normalize_awg2 obf mtu))
asc-IsFit obf mtu =
    if-Holds (IsAscProfile mtu) (is_empty obf) (ok no_obfuscation) _
      (nothing_paired, (tt, tt, tt, tt, tt), tt, tt)
      (raise_one-Holds (IsAscProfile mtu) (normalize_awg2 obf mtu) (awg2-Holds obf mtu))

normalize_for-IsFit :
    (profile : ConfigProfile) (obf : Dict String Value) (mtu : Option ℤ)
    → Holds (IsFit profile mtu) (normalize_for profile obf mtu)
unfolding normalize_for
normalize_for-IsFit wireguard_universal obf mtu = refl
normalize_for-IsFit awg_legacy_or_basic obf mtu =
    if-Holds IsLegacyProfile (is_empty obf) (ok no_obfuscation) _
      (nothing_paired, nothing_small, refl)
      (raise_one-Holds IsLegacyProfile (normalize_legacy obf) (legacy-Holds obf))
normalize_for-IsFit awg_2_0_asc obf mtu = asc-IsFit obf mtu
normalize_for-IsFit mobile_optimized obf mtu = asc-IsFit obf mtu

none-IsKeyed : IsKeyed no_obfuscation
none-IsKeyed = (refl, refl, refl)

normalize_for-IsKeyed :
    (profile : ConfigProfile) (obf : Dict String Value) (mtu : Option ℤ)
    → Holds IsKeyed (normalize_for profile obf mtu)
unfolding normalize_for
normalize_for-IsKeyed wireguard_universal obf mtu = none-IsKeyed
normalize_for-IsKeyed awg_legacy_or_basic obf mtu =
    if-Holds IsKeyed (is_empty obf) (ok no_obfuscation) _ none-IsKeyed
      (raise_one-Holds IsKeyed (normalize_legacy obf) (legacy-IsKeyed obf))
normalize_for-IsKeyed awg_2_0_asc obf mtu =
    if-Holds IsKeyed (is_empty obf) (ok no_obfuscation) _ none-IsKeyed
      (raise_one-Holds IsKeyed (normalize_awg2 obf mtu) (awg2-IsKeyed obf mtu))
normalize_for-IsKeyed mobile_optimized obf mtu =
    if-Holds IsKeyed (is_empty obf) (ok no_obfuscation) _ none-IsKeyed
      (raise_one-Holds IsKeyed (normalize_awg2 obf mtu) (awg2-IsKeyed obf mtu))

-- What is written in a configuration that is built: the validated fields, and the obfuscation that
-- the profile makes of the one given.
abbrev pub IsWritten :
    Parsers → InterfaceFields → PeerFields → ConfigProfile → Dict String Value → String → Type 0
IsWritten p interface peer profile obf t =
    (c : Checked) × (o : Obfuscation) × (psk : List String) × AreValid p interface peer c
    × (normalize_for profile obf (effective_mtu profile interface.mtu) ≡ ok o)
    × IsFit profile (effective_mtu profile interface.mtu) o
    × IsKeyed o
    × (psk_lines p peer.preshared_key ≡ ok psk)
    × (t
        ≡ join_lines (
            config_lines c interface.dns (effective_mtu profile interface.mtu) o
              peer.persistent_keepalive psk))

build_config-Holds :
    (p : Parsers) (interface : InterfaceFields) (peer : PeerFields) (profile : ConfigProfile)
    (obf : Dict String Value)
    → Holds (IsWritten p interface peer profile obf) (build_config p interface peer profile obf)
unfolding build_config
build_config-Holds p interface peer profile obf =
    let Q = IsWritten p interface peer profile obf in
    let mtu = effective_mtu profile interface.mtu in
    let normal = normalize_for profile obf mtu in
    Holds->>= (AreValid p interface peer) Q _ _ (check_fields-AreValid p interface peer profile obf)
      λ c valid.
        Holds->>= (λ o. normal ≡ ok o) Q normal _ (ok-Holds normal)
          λ o made.
            Holds->>= (λ psk. psk_lines p peer.preshared_key ≡ ok psk) Q
              (psk_lines p peer.preshared_key) _ (ok-Holds (psk_lines p peer.preshared_key))
              λ psk keyed. (
                c,
                o,
                psk,
                valid,
                made,
                Holds-ok (IsFit profile mtu) normal o (normalize_for-IsFit profile obf mtu) made,
                Holds-ok IsKeyed normal o (normalize_for-IsKeyed profile obf mtu) made,
                keyed,
                refl,
              )

-- A configuration that is built consists of lines whose keys, address, endpoint and allowed
-- addresses are those that the validators return, whose preshared key is validated too, and whose
-- obfuscation is what the profile's normalisation makes of the one given. That is none in the
-- universal profile, and otherwise what the kernel and the profile take: in a legacy profile the
-- legacy bounds without a header, in the others the bounds counted from the MTU that is written, with
-- headers that are disjoint ranges, each written with its own bounds; in both S1 + 56 is not S2 and
-- Jmin is at most Jmax, where they are there. Its numbers stand under the numbers' keys, its texts
-- under I1 to I5 and its headers under H1 to H4.
pub build_config-IsWritten :
    (p : Parsers) (interface : InterfaceFields) (peer : PeerFields) (profile : ConfigProfile)
    (obf : Dict String Value) (t : String)
    → build_config p interface peer profile obf ≡ ok t
    → IsWritten p interface peer profile obf t
build_config-IsWritten p interface peer profile obf t built =
    Holds-ok (IsWritten p interface peer profile obf) (build_config p interface peer profile obf) t
      (build_config-Holds p interface peer profile obf) built
