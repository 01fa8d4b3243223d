-- ===== src/Devices/Gate.antt =====
-- `run_handshake_quality_gate_once`. Both passes select rows and then update each by its primary
-- key, which changes the row itself. Metrics are left out.
pub mod Laws
use vpn_suite.Prelude.{
  ℕ, zero, suc, ◌+◌, ◌*◌, String, Bool, true, false, not, ◌&&◌, ◌||◌, Option, none, some, List, [],
  ◌∷◌, if◌then◌else◌, is_some, ltb, map, filter, length,
}
use vpn_suite.Devices.Rows.{Device, has_status}

-- What the telemetry cache has on a device. A negative age counts as none: only `>= 0` is asked.
pub record DeviceTelemetry : Type 0 where
  pub handshake_latest_at : Option ℕ
  pub handshake_age_sec : Option ℕ

abbrev pub has_handshake : DeviceTelemetry → Bool
has_handshake data_of = is_some data_of.handshake_latest_at || is_some data_of.handshake_age_sec

-- `getattr(settings, "handshake_quality_gate_minutes", 5) or 5`
abbrev pub gate_minutes_of : ℕ → ℕ
gate_minutes_of zero = 5
gate_minutes_of (suc n) = suc n

-- `last_applied_at < now - minutes`, which a null column does not satisfy.
abbrev pub is_past_gate : ℕ → ℕ → Option ℕ → Bool
is_past_gate minutes now none = false
is_past_gate minutes now (some at_time) = ltb (at_time + gate_minutes_of minutes * 60) now

-- The query of the first pass.
unfoldable pub is_due : ℕ → ℕ → Device → Bool
unfolding has_status
is_due minutes now d =
    has_status "APPLIED" d
    && is_past_gate minutes now d.last_applied_at
    && not (is_some d.revoked_at)
    && not (is_some d.unstable_reason)

abbrev pub is_silent : Option DeviceTelemetry → Bool
is_silent none = false
is_silent (some t) = not (has_handshake t)

abbrev pub is_alive : Option DeviceTelemetry → Bool
is_alive none = false
is_alive (some t) = has_handshake t

abbrev pub no_handshake_reason : String
no_handshake_reason = "no_handshake_within_gate"

abbrev pub mark_error : Device → Device
mark_error d = record d {
  apply_status = some "ERROR";
  last_error = some no_handshake_reason;
  unstable_reason = some no_handshake_reason;
}

-- The query of the second pass.
unfoldable pub is_eligible : Device → Bool
unfolding has_status
is_eligible d =
    (has_status "APPLIED" d || has_status "NO_HANDSHAKE" d || has_status "ERROR" d)
    && not (is_some d.revoked_at)

abbrev pub mark_verified : Device → Device
mark_verified d = record d {
  apply_status = some "VERIFIED";
  last_error = none;
  unstable_reason = none;
}

module _ (minutes now : ℕ) where
  unfoldable pub fails : (String → Option DeviceTelemetry) → Device → Bool
  unfolding is_due
  fails telemetry d = is_due minutes now d && is_silent (telemetry d.id)

  unfoldable pub first_pass : (String → Option DeviceTelemetry) → Device → Device
  unfolding fails
  first_pass telemetry d = if fails telemetry d then mark_error d else d

unfoldable pub second_pass : (String → Option DeviceTelemetry) → Device → Device
unfolding is_eligible
second_pass telemetry d = if is_eligible d && is_alive (telemetry d.id) then mark_verified d else d

-- The number marked, and the table after both passes.
unfoldable pub run_handshake_quality_gate_once :
    ℕ
    → ℕ
    → (String → Option DeviceTelemetry)
    → (String → Option DeviceTelemetry)
    → List Device
    → ℕ × List Device
unfolding first_pass second_pass
run_handshake_quality_gate_once minutes now telemetry telemetry2 devices = (
  length (filter (fails minutes now telemetry) devices),
  map (second_pass telemetry2) (map (first_pass minutes now telemetry) devices),
)
