-- ===== src/Devices/Tests.antt =====
-- Devices before and after the tasks.
use vpn_suite.Prelude.{
  ℕ, ◌+◌, String, Option, none, some, List, [], ◌∷◌, ◌≡◌, refl, length, filter, map,
}
use vpn_suite.Devices.Rows.{Device, has_status}
use vpn_suite.Devices.Gate.{DeviceTelemetry, is_due, fails, run_handshake_quality_gate_once}
use vpn_suite.Devices.Gate.Laws.{is_overdue, gate_outcome, gate_exact, gate_once}
use vpn_suite.Devices.Expiry.{run_device_expiry_check, standing, is_usable, expiry_leaves_usable}

abbrev device : String → String → Option ℕ → Device
device id status applied = record {
  id = id;
  subscription_id = "sub1";
  issued_at = 0;
  server_id = "s1";
  public_key = id;
  allowed_ips = some "10.8.1.2/32";
  preshared_key = none;
  revoked_at = none;
  suspended_at = none;
  expires_at = some 500;
  apply_status = some status;
  last_applied_at = applied;
  last_error = none;
  unstable_reason = none;
}

abbrev fleet : List Device
fleet = device "d1" "APPLIED" (some 10) ∷ device "d2" "ERROR" none ∷ []

-- Nobody has shown a handshake.
abbrev silence : String → Option DeviceTelemetry
silence id = some (record { handshake_latest_at = none; handshake_age_sec = none })

gate_marks_one : (run_handshake_quality_gate_once 5 1000 silence silence fleet).0 ≡ 1
unfolding run_handshake_quality_gate_once fails is_due has_status
gate_marks_one = refl

gate_exact_example : run_handshake_quality_gate_once 5 1000 silence silence fleet ≡ (
  length (filter (is_overdue 5 1000 silence) fleet),
  map (gate_outcome 5 1000 silence silence) fleet,
)
gate_exact_example = gate_exact 5 1000 silence silence fleet

fleet_settles :
    let after = (run_handshake_quality_gate_once 5 1000 silence silence fleet).1 in
    run_handshake_quality_gate_once 5 1000 silence silence after ≡ (0, after)
fleet_settles = gate_once 5 1000 silence fleet

one_expired :
    (standing (run_device_expiry_check 600 fleet).1 ≡ filter (is_usable 600) fleet)
    × (length (standing (run_device_expiry_check 600 fleet).1)
          + (run_device_expiry_check 600 fleet).0
        ≡ length (standing fleet))
one_expired = expiry_leaves_usable 600 fleet
