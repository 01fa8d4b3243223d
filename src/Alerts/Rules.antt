-- ===== src/Alerts/Rules.antt =====
-- The first half of `evaluate_once`: the rules that the telemetry makes active.
-- Percentages and thresholds are only compared; they are numbers of one fixed small unit.
use Prim.Native.String.{◌++◌ as text_append}
use vpn_suite.Prelude.{
  ℕ, String, Bool, false, Option, none, some, List, [], ◌∷◌, ◌++◌, ◌==◌, string_eq, if◌then◌else◌,
  leb,
}

pub record Container : Type 0 where
  pub container_id : String
  pub name : String
  pub state : String
  pub health_status : Option String
  pub is_restart_loop : Bool
  pub restart_count : ℕ
  pub uptime_seconds : Option ℕ
  pub cpu_pct : Option ℕ
  pub mem_pct : Option ℕ

-- A host with what `list_containers` answers: `none` where it raises.
pub record Host : Type 0 where
  pub host_id : String
  pub is_reachable : Bool
  pub containers : Option (List Container)

pub data Context : Type 0 where
  health : Option String → String → Context
  restarts : ℕ → Option ℕ → Context
  cpu memory : Option ℕ → Context
  disk : ℕ → ℕ → Context

pub record Rule : Type 0 where
  pub rule : String
  pub severity : String
  pub host_id : String
  pub container_id : Option String
  pub container_name : Option String
  pub context : Context

pub record Settings : Type 0 where
  pub high_cpu_critical_pct : ℕ
  pub high_cpu_warning_pct : ℕ
  pub high_mem_critical_pct : ℕ
  pub high_mem_warning_pct : ℕ
  pub disk_pressure_pct : ℕ
  pub resolved_ttl_seconds : ℕ

-- `_fingerprint`, by the digest `sha` of the text.
unfoldable pub fingerprint : (String → String) → Rule → String
fingerprint sha r = sha (
    text_append r.rule (
      text_append ":" (
        text_append r.host_id (
          text_append ":"
            (elim r.container_id [ none ↦ "-" | some c ↦ if c == "" then "-" else c ])))))

abbrev pub container_rule : String → String → String → Container → Context → Rule
container_rule name severity host_id c context = record {
  rule = name;
  severity = severity;
  host_id = host_id;
  container_id = some c.container_id;
  container_name = some c.name;
  context = context;
}

-- `x or 0`
abbrev pub or_zero : Option ℕ → ℕ
or_zero none = 0
or_zero (some n) = n

abbrev pub is_unhealthy : Option String → Bool
is_unhealthy none = false
is_unhealthy (some h) = h == "unhealthy"

unfoldable pub cpu_rules : Settings → String → Container → List Rule
cpu_rules settings host_id c =
    if leb settings.high_cpu_critical_pct (or_zero c.cpu_pct)
    then container_rule "DockerContainerHighCPUCritical" "critical" host_id c
        (Context.cpu c.cpu_pct)
      ∷ []
    else if leb settings.high_cpu_warning_pct (or_zero c.cpu_pct)
    then container_rule "DockerContainerHighCPUWarning" "warning" host_id c (Context.cpu c.cpu_pct)
      ∷ []
    else []

unfoldable pub mem_rules : Settings → String → Container → List Rule
mem_rules settings host_id c =
    if leb settings.high_mem_critical_pct (or_zero c.mem_pct)
    then container_rule "DockerContainerHighMemoryCritical" "critical" host_id c
        (Context.memory c.mem_pct)
      ∷ []
    else if leb settings.high_mem_warning_pct (or_zero c.mem_pct)
    then container_rule "DockerContainerHighMemoryWarning" "warning" host_id c
        (Context.memory c.mem_pct)
      ∷ []
    else []

unfoldable pub state_rules : String → Container → List Rule
state_rules host_id c =
    (if is_unhealthy c.health_status
      then container_rule "DockerContainerUnhealthy" "critical" host_id c
          (Context.health c.health_status c.state)
        ∷ []
      else [])
    ++ (if c.is_restart_loop
        then container_rule "DockerContainerRestartLoop" "critical" host_id c
            (Context.restarts c.restart_count c.uptime_seconds)
          ∷ []
        else [])

-- The body of the loop over a host's containers.
unfoldable pub container_rules : Settings → String → Container → List Rule
unfolding state_rules cpu_rules mem_rules
container_rules settings host_id c =
    state_rules host_id c ++ (cpu_rules settings host_id c ++ mem_rules settings host_id c)

unfoldable pub rules_of : Settings → String → List Container → List Rule
unfolding container_rules
rules_of settings host_id [] = []
rules_of settings host_id (c ∷ cs) =
    container_rules settings host_id c ++ rules_of settings host_id cs

-- The loop over the hosts: the active rules and the hosts that were visited.
unfoldable pub hosts_pass : Settings → List Host → Option (List Rule × List String)
unfolding rules_of
hosts_pass settings [] = some ([], [])
hosts_pass settings (h ∷ hs) =
    let rest = hosts_pass settings hs in
    if h.is_reachable
    then elim h.containers [
      | none ↦ none
      | some cs ↦ elim rest [
        | none ↦ none
        | some (rules, ids) ↦ some (rules_of settings h.host_id cs ++ rules, h.host_id ∷ ids)
      ]
    ]
    else rest

-- The rule on the engine's own disk, of which `used_pct` and `free` are measured.
unfoldable pub with_disk : Settings → ℕ → ℕ → List Rule × List String → List Rule × List String
with_disk settings used_pct free (rules, ids) =
    if leb settings.disk_pressure_pct used_pct
    then (
      rules
          ++ (record {
            rule = "DockerHostDiskPressure";
            severity = "warning";
            host_id = "local";
            container_id = none;
            container_name = none;
            context = Context.disk used_pct free;
          }
              ∷ []),
      "local" ∷ ids,
    )
    else (rules, ids)
