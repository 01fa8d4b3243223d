-- ===== src/Addresses/Free.antt =====
-- Which host is allocated, and that two devices of a subnet get different ones.
use vpn_suite.Prelude.{
  ℕ, zero, suc, ◌+◌, ◌≤◌, ◌<◌, String, Bool, true, false, ◌&&◌, none, some, List, [], ◌∷◌, ◌++◌,
  ◌==◌, string_eq, nat_eq, nat_beq_iff, member, ◌≡◌, ◌≢◌, sym, ap, ◌∙◌, subst, arith, inl, inr,
  Bool-cases, Option-cases,
}
use Prim.Native.String.{◌++◌ as text_append}
use vpn_suite.Devices.Rows.{Device}
use vpn_suite.Addresses.Octets.{last_octet_from_allowed_ips}
use vpn_suite.Addresses.Allocate.{
  next_host, allocate_host, address_text, allocate_next_address, has_prefix, used_octets,
}

next_host-free :
    (used : List ℕ) (h more k : ℕ)
    → next_host used h more ≡ some k
    → (h ≤ k) × (k < h + more) × (member k used ≡ false)
unfolding next_host
next_host-free used h zero k e = absurd (ground arith)
next_host-free used h (suc more) k e = elim (Bool-cases (member h used)) [
  | inl taken ↦ ground (arith, next_host-free used (h + 1) more k)
  | inr free ↦ ground arith
]

abbrev pub peer_text : String → ℕ → String
peer_text base h = text_append (address_text base h) "/32"

-- The peer's address of a host is recognised as one of the subnet, with its octet.
abbrev pub is_read : String → ℕ → Bool
is_read base h =
    has_prefix (text_append base ".") (some (peer_text base h))
    && (elim (last_octet_from_allowed_ips (some (peer_text base h))) as (λ o. Bool) [
      | none ↦ false
      | some lo ↦ lo == h
    ])

-- The same of every host from one on, of a number of them.
abbrev pub are_read : String → ℕ → ℕ → Bool
are_read base h zero = true
are_read base h (suc more) = is_read base h && are_read base (h + 1) more

are_read-is_read :
    (base : String) (h more k : ℕ)
    → are_read base h more ≡ true
    → h ≤ k
    → k < h + more
    → is_read base k ≡ true
are_read-is_read base h zero k e low high = absurd (omega arith)
are_read-is_read base h (suc more) k e low high = elim (Bool-cases (k == h)) [
  | inl first ↦
      subst (λ (n : ℕ). is_read base n ≡ true) (sym ((nat_beq_iff k h).0 first)) (ground arith)
  | inr later ↦ are_read-is_read base (h + 1) more k (ground arith) (ground arith) (omega arith)
]

member-used :
    (base : String) (h : ℕ) (d : Device) (ds : List Device)
    → is_read base h ≡ true
    → d.allowed_ips ≡ some (peer_text base h)
    → d.revoked_at ≡ none
    → member h (used_octets (text_append base ".") (d ∷ ds)) ≡ true
unfolding used_octets
member-used base h d ds read own standing = rw standing (
    rw own (elim (Option-cases (last_octet_from_allowed_ips (some (peer_text base h)))) [
      | inl unread ↦ absurd (ground arith)
      | inr (lo, octet) ↦ ground (arith, nat_beq_iff lo h)
    ]))

allocated :
    (base : String) (used : List ℕ) (a : String)
    → allocate_next_address base used ≡ some a
    → (h : ℕ) × (a ≡ peer_text base h) × (2 ≤ h) × (h < 255) × (member h used ≡ false)
unfolding allocate_next_address allocate_host
allocated base used a e = elim (Option-cases (next_host used 2 253)) [
  | inl full ↦ absurd (ground arith)
  | inr (h, found) ↦
      let (low, high, free) = next_host-free used 2 253 h found in
      (h, ground arith, low, high, free)
]

-- A host that is used by some devices is used by one more.
member-used_more :
    (prefix : String) (h : ℕ) (before ds : List Device)
    → member h (used_octets prefix ds) ≡ true
    → member h (used_octets prefix (before ++ ds)) ≡ true
unfolding used_octets
member-used_more prefix h [] ds m = m
member-used_more prefix h (d ∷ before) ds m =
    elim (Option-cases (last_octet_from_allowed_ips d.allowed_ips)) [
      | inl unread ↦ ground (arith, member-used_more prefix h before ds m)
      | inr (lo, octet) ↦ ground (arith, member-used_more prefix h before ds m)
    ]

read-back :
    (base : String) (h : ℕ)
    → is_read base h ≡ true
    → last_octet_from_allowed_ips (some (peer_text base h)) ≡ some h
read-back base h read =
    elim (Option-cases (last_octet_from_allowed_ips (some (peer_text base h)))) [
      | inl unread ↦ absurd (ground arith)
      | inr (lo, octet) ↦ ground (arith, nat_beq_iff lo h)
    ]

true-ne-false : true ≢ false
true-ne-false e = cc

some-injective : (h k : ℕ) → some h ≡ some k → h ≡ k
some-injective h k e = ground arith

module _ (base : String) (readable : are_read base 2 253 ≡ true) where
  -- Where a subnet's addresses are read back as they are written, a device that has the address
  -- allocated to it, and is not revoked, keeps it for itself: whatever other devices there are then,
  -- what is allocated in the subnet afterwards is another address.
  pub allocated_apart :
      (devices before after : List Device) (d : Device) (a b : String)
      → allocate_next_address base (used_octets (text_append base ".") devices) ≡ some a
      → d.allowed_ips ≡ some a
      → d.revoked_at ≡ none
      → allocate_next_address base (used_octets (text_append base ".") (before ++ (d ∷ after)))
        ≡ some b
      → a ≢ b
  allocated_apart devices before after d a b first own standing second same =
      let (h, is_a, low, high, free) = allocated base _ a first in
      let (k, is_b, low', high', free') = allocated base _ b second in
      let read : is_read base h ≡ true = are_read-is_read base 2 253 h readable low high in
      let read' : is_read base k ≡ true = are_read-is_read base 2 253 k readable low' high' in
      let taken : member h (used_octets (text_append base ".") (before ++ (d ∷ after))) ≡ true =
        member-used_more (text_append base ".") h before (d ∷ after)
          (member-used base h d after read (own ∙ ap (λ (t : String). some t) is_a) standing) in
      let texts : peer_text base h ≡ peer_text base k = sym is_a ∙ same ∙ is_b in
      let hosts : h ≡ k = some-injective h k (
        sym (read-back base h read)
        ∙ ap (λ (t : String). last_octet_from_allowed_ips (some t)) texts
        ∙ read-back base k read') in
      true-ne-false (
        sym taken
        ∙ ap (λ (n : ℕ). member n (used_octets (text_append base ".") (before ++ (d ∷ after))))
            hosts
        ∙ free')
