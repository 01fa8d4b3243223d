-- ===== src/Devices/Expiry.antt =====
-- `run_device_expiry_check`.
use vpn_suite.Prelude.{
  ℕ, ◌+◌, Bool, true, false, not, ◌&&◌, none, some, List, [], ◌∷◌, if◌then◌else◌, is_some, leb, map,
  filter, length, ◌≡◌, refl, arith,
}
use vpn_suite.Devices.Rows.{Device}

unfoldable pub is_expired : ℕ → Device → Bool
is_expired now d = elim d.expires_at [
  | none ↦ false
  | some t ↦ leb t now && not (is_some d.revoked_at)
]

unfoldable pub expire : ℕ → Device → Device
unfolding is_expired
expire now d = if is_expired now d then record d { revoked_at = some now } else d

unfoldable pub run_device_expiry_check : ℕ → List Device → ℕ × List Device
unfolding expire
run_device_expiry_check now devices =
    (length (filter (is_expired now) devices), map (expire now) devices)

-- A device that is usable at a time: not revoked, and not past its expiry.
abbrev pub is_usable : ℕ → Device → Bool
is_usable now d =
    not (is_some d.revoked_at) && elim d.expires_at [ none ↦ true | some t ↦ not (leb t now) ]

-- The devices that are not revoked.
abbrev pub standing : List Device → List Device
standing devices = filter (λ d. not (is_some d.revoked_at)) devices

-- After a check no device stands that has expired, those that stand are unchanged and are exactly
-- those that were usable, and the count is that of the devices revoked.
pub expiry_leaves_usable :
    (now : ℕ) (devices : List Device)
    → (standing (run_device_expiry_check now devices).1 ≡ filter (is_usable now) devices)
      × (length (standing (run_device_expiry_check now devices).1)
            + (run_device_expiry_check now devices).0
          ≡ length (standing devices))
unfolding run_device_expiry_check is_expired
expiry_leaves_usable now [] = (refl, refl)
expiry_leaves_usable now (d ∷ ds) =
    let (same, counted) = expiry_leaves_usable now ds in
    (ground (arith, same), ground (arith, counted))
