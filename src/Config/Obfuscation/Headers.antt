-- ===== src/Config/Obfuscation/Headers.antt =====
-- What the loop over the header ranges and the comparison of every two let pass.
use vpn_suite.Prelude.{
  pos, negsuc, ℕ, ◌≤◌, ◌<◌, ◌≡◌, String, Option, none, some, List, [], ◌∷◌, Dict, All, arith,
  string_eq, nat_eq, Holds, Holds->>=, Holds-option, subst, ◌⊎◌,
}
use vpn_suite.Config.Values.{Value, HValue, single, range}
use vpn_suite.Config.Obfuscation.{
  Header, header_of, header_at, headers_from, overlap_with, overlaps,
}

-- The bounds that a value is written with.
abbrev pub bounds_of : HValue → Option (ℕ × ℕ)
bounds_of (single (pos n)) = some (n, n)
bounds_of (single (negsuc n)) = none
bounds_of (range lo hi) = some (lo, hi)

-- A range of 32-bit numbers that is not empty and does not end at 0, written as it is.
abbrev pub IsRange : Header → Type 0
IsRange h =
    (h.low ≤ h.high)
    × (0 < h.high)
    × (h.high ≤ 4294967295)
    × (bounds_of h.rendered ≡ some (h.low, h.high))

abbrev AreRange : Option Header → Type 0
AreRange none = Unit
AreRange (some h) = IsRange h

header_of-IsRange :
    (k : String) (lo hi : ℕ) (rendered : HValue)
    → bounds_of rendered ≡ some (lo, hi)
    → Holds AreRange (header_of k lo hi rendered)
unfolding header_of
header_of-IsRange k lo hi rendered written = ground arith

header_at-IsRange : (obf : Dict String Value) (k : String) → Holds AreRange (header_at obf k)
unfolding header_at
header_at-IsRange obf k = ground (arith, header_of-IsRange k)

pub headers_from-IsRange :
    (obf : Dict String Value) (ks : List String) → Holds (All IsRange) (headers_from obf ks)
unfolding headers_from
headers_from-IsRange obf [] = tt
headers_from-IsRange obf (k ∷ ks) =
    let Q = All IsRange in
    let rest = headers_from-IsRange obf ks in
    Holds->>= AreRange Q (header_at obf k) _ (header_at-IsRange obf k) λ found p.
      Holds-option Q found _ _ rest
        λ h e. Holds->>= Q Q (headers_from obf ks) _ rest λ out ranges. (subst AreRange e p, ranges)

-- No number is in both ranges.
abbrev pub IsApart : Header → Header → Type 0
IsApart h g = (h.high < g.low) ⊎ (g.high < h.low)

-- Every two ranges have no number in common.
abbrev pub AreDisjoint : List Header → Type 0
AreDisjoint [] = Unit
AreDisjoint (h ∷ hs) = All (IsApart h) hs × AreDisjoint hs

overlap_with-none :
    (h : Header) (hs : List Header)
    → IsRange h
    → All IsRange hs
    → overlap_with h hs ≡ none
    → All (IsApart h) hs
unfolding overlap_with
overlap_with-none h [] r rs e = tt
overlap_with-none h (g ∷ gs) r rs e = ground (arith, overlap_with-none h gs r rs.1)

pub overlaps-none : (hs : List Header) → All IsRange hs → overlaps hs ≡ none → AreDisjoint hs
unfolding overlaps
overlaps-none [] rs e = tt
overlaps-none (h ∷ hs) rs e =
    ground (arith, overlap_with-none h hs rs.0 rs.1, overlaps-none hs rs.1)
