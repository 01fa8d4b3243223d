-- ===== src/Devices/Gate/Laws.antt =====
-- What a run of the gate leaves, and that a second run finds nothing to do.
use vpn_suite.Prelude.{
  zero, suc, ◌+◌, ◌*◌, Bool, not, ◌||◌, none, some, is_some, ltb, nat_beq, ℕ, String, true, false,
  ◌&&◌, Option, List, [], ◌∷◌, if◌then◌else◌, map, filter, length, ◌≡◌, refl, arith, ap, Bool-cases,
  inl, inr, ◌∙◌, string_eq,
}
use vpn_suite.Devices.Rows.{Device, has_status}
use vpn_suite.Devices.Gate.{
  DeviceTelemetry, is_due, is_alive, mark_error, is_eligible, mark_verified, fails, first_pass,
  second_pass, run_handshake_quality_gate_once,
}

-- A device that waits too long for a handshake: applied, not revoked, without a reason of
-- instability, applied more than the gate's minutes ago (5 where none are set), with telemetry that
-- knows no handshake.
abbrev pub is_overdue : ℕ → ℕ → (String → Option DeviceTelemetry) → Device → Bool
is_overdue minutes now telemetry d =
    let wait = if nat_beq minutes 0 then 300 else minutes * 60 in
    has_status "APPLIED" d
    && not (is_some d.revoked_at)
    && not (is_some d.unstable_reason)
    && (elim d.last_applied_at [ none ↦ false | some t ↦ ltb (t + wait) now ])
    && (elim (telemetry d.id) [
      | none ↦ false
      | some t ↦ not (is_some t.handshake_latest_at) && not (is_some t.handshake_age_sec)
    ])

-- A device that is not revoked, waits for a handshake or has been given up, and whose telemetry
-- knows a handshake.
abbrev pub is_seen : (String → Option DeviceTelemetry) → Device → Bool
is_seen telemetry d =
    not (is_some d.revoked_at)
    && (has_status "APPLIED" d || has_status "NO_HANDSHAKE" d || has_status "ERROR" d)
    && (elim (telemetry d.id) [
      | none ↦ false
      | some t ↦ is_some t.handshake_latest_at || is_some t.handshake_age_sec
    ])

-- What becomes of a device.
abbrev pub gate_outcome :
    ℕ → ℕ → (String → Option DeviceTelemetry) → (String → Option DeviceTelemetry) → Device → Device
gate_outcome minutes now telemetry telemetry2 d =
    if is_seen telemetry2 d
    then record d { apply_status = some "VERIFIED"; last_error = none; unstable_reason = none }
    else if is_overdue minutes now telemetry d
    then record d {
      apply_status = some "ERROR";
      last_error = some "no_handshake_within_gate";
      unstable_reason = some "no_handshake_within_gate";
    }
    else d

-- The same, as the two passes test it.
abbrev pass_outcome :
    ℕ → ℕ → (String → Option DeviceTelemetry) → (String → Option DeviceTelemetry) → Device → Device
pass_outcome minutes now telemetry telemetry2 d =
    if is_eligible d && is_alive (telemetry2 d.id)
    then mark_verified d
    else if fails minutes now telemetry d
    then mark_error d
    else d

seen :
    (telemetry : String → Option DeviceTelemetry) (d : Device)
    → (is_eligible d && is_alive (telemetry d.id)) ≡ is_seen telemetry d
unfolding is_eligible
seen telemetry d = ground arith

overdue :
    (minutes now : ℕ) (telemetry : String → Option DeviceTelemetry) (d : Device)
    → fails minutes now telemetry d ≡ is_overdue minutes now telemetry d
unfolding fails is_due
overdue zero now telemetry d = ground arith
overdue (suc m) now telemetry d = ground arith

same_outcome :
    (minutes now : ℕ) (telemetry telemetry2 : String → Option DeviceTelemetry) (d : Device)
    → pass_outcome minutes now telemetry telemetry2 d
      ≡ gate_outcome minutes now telemetry telemetry2 d
same_outcome minutes now telemetry telemetry2 d =
    rw (seen telemetry2 d, overdue minutes now telemetry d) refl

is_eligible-mark_error :
    (minutes now : ℕ) (telemetry : String → Option DeviceTelemetry) (d : Device)
    → fails minutes now telemetry d ≡ true
    → (is_eligible d ≡ true) × (is_eligible (mark_error d) ≡ true)
unfolding fails is_due is_eligible has_status
is_eligible-mark_error minutes now telemetry d h = (ground arith, ground arith)

both_passes :
    (minutes now : ℕ) (telemetry telemetry2 : String → Option DeviceTelemetry) (d : Device)
    → second_pass telemetry2 (first_pass minutes now telemetry d)
      ≡ pass_outcome minutes now telemetry telemetry2 d
unfolding first_pass second_pass
both_passes minutes now telemetry telemetry2 d = elim (Bool-cases (fails minutes now telemetry d)) [
  | inl due ↦
      let (before, after) = is_eligible-mark_error minutes now telemetry d due in
      ground (arith, before, after)
  | inr left ↦ ground arith
]

module _ (minutes now : ℕ) (telemetry telemetry2 : String → Option DeviceTelemetry) where
  -- The passes run over the whole table one after the other.
  gate_passes :
      (devices : List Device)
      → run_handshake_quality_gate_once minutes now telemetry telemetry2 devices ≡ (
        length (filter (fails minutes now telemetry) devices),
        map (pass_outcome minutes now telemetry telemetry2) devices,
      )
  unfolding run_handshake_quality_gate_once
  gate_passes devices =
      ap (λ (ds : List Device). (length (filter (fails minutes now telemetry) devices), ds))
        (each devices)
    where
      each :
          (ds : List Device)
          → map (second_pass telemetry2) (map (first_pass minutes now telemetry) ds)
            ≡ map (pass_outcome minutes now telemetry telemetry2) ds
      each [] = refl
      each (d ∷ ds) = λ i. both_passes minutes now telemetry telemetry2 d i ∷ each ds i

  -- A run leaves a revoked device as it is. Of the others it verifies those that have an applied,
  -- silent or failed status and a handshake in the second reading; else it fails those that are
  -- applied, without a reason of instability, for longer than the gate's minutes (5 where 0 are set),
  -- and have no handshake in the first reading; and it leaves the rest. Its count is that of the
  -- devices that fail in the first reading, verified afterwards or not.
  pub gate_exact :
      (devices : List Device)
      → run_handshake_quality_gate_once minutes now telemetry telemetry2 devices ≡ (
        length (filter (is_overdue minutes now telemetry) devices),
        map (gate_outcome minutes now telemetry telemetry2) devices,
      )
  gate_exact devices = gate_passes devices ∙ (λ i. (counted devices i, each devices i))
    where
      counted :
          (ds : List Device)
          → length (filter (fails minutes now telemetry) ds)
            ≡ length (filter (is_overdue minutes now telemetry) ds)
      counted [] = refl
      counted (d ∷ ds) = ground (arith, overdue minutes now telemetry d, counted ds)

      each :
          (ds : List Device)
          → map (pass_outcome minutes now telemetry telemetry2) ds
            ≡ map (gate_outcome minutes now telemetry telemetry2) ds
      each [] = refl
      each (d ∷ ds) = λ i. same_outcome minutes now telemetry telemetry2 d i ∷ each ds i

module _ (minutes now : ℕ) (telemetry : String → Option DeviceTelemetry) where
  abbrev outcome : Device → Device
  outcome d = pass_outcome minutes now telemetry telemetry d

  mark_verified-settled :
      (d : Device)
      → (is_eligible (mark_verified d) ≡ false)
        × (fails minutes now telemetry (mark_verified d) ≡ false)
  unfolding fails is_due is_eligible has_status
  mark_verified-settled d = (refl, refl)

  mark_error-settled : (d : Device) → fails minutes now telemetry (mark_error d) ≡ false
  unfolding fails is_due has_status
  mark_error-settled d = refl

  -- After a run on one reading, a device neither fails nor is to be verified.
  outcome_settled :
      (d : Device)
      → (fails minutes now telemetry (outcome d) ≡ false) × (outcome (outcome d) ≡ outcome d)
  outcome_settled d = elim (Bool-cases (is_eligible d && is_alive (telemetry d.id))) [
    | inl seen ↦
        let (done, quiet) = mark_verified-settled d in
        (ground (arith, quiet), ground (arith, done, quiet))
    | inr unseen ↦ elim (Bool-cases (fails minutes now telemetry d)) [
      | inr left ↦ (ground arith, ground arith)
      | inl due ↦
          let (before, after) = is_eligible-mark_error minutes now telemetry d due in
          (
            ground (arith, mark_error-settled d),
            ground (arith, before, after, mark_error-settled d),
          )
    ]
  ]

  settled_list :
      (ds : List Device)
      → (length (filter (fails minutes now telemetry) (map outcome ds)) ≡ 0)
        × (map outcome (map outcome ds) ≡ map outcome ds)
  settled_list [] = (refl, refl)
  settled_list (d ∷ ds) =
      let (quiet, same) = outcome_settled d in
      let (none_left, rest) = settled_list ds in (rw quiet none_left, λ i. same i ∷ rest i)

  -- Once the gate has run, a second run at the same time on the same telemetry marks nothing and
  -- changes nothing.
  pub gate_once :
      (devices : List Device)
      → let after = (run_handshake_quality_gate_once minutes now telemetry telemetry devices).1 in
        run_handshake_quality_gate_once minutes now telemetry telemetry after ≡ (0, after)
  gate_once devices =
      let ran = gate_passes minutes now telemetry telemetry devices in
      let (none_left, same) = settled_list devices in
      rw ran (
        gate_passes minutes now telemetry telemetry (map outcome devices)
        ∙ (λ i. (none_left i, same i)))
