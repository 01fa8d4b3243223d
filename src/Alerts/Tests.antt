-- ===== src/Alerts/Tests.antt =====
-- A host with an unhealthy container, and an engine whose disk was full before.
use vpn_suite.Prelude.{ℕ, String, true, false, none, some, List, [], ◌∷◌, string_eq, ◌≡◌, refl, any}
use vpn_suite.Alerts.Rules.{
  Container, Host, Context, Rule, Settings, fingerprint, container_rules, state_rules, cpu_rules,
  mem_rules, rules_of, hosts_pass, with_disk,
}
use vpn_suite.Alerts.Engine.{Alert, is_queried, is_open, evaluate_rules, evaluate_once}
use vpn_suite.Alerts.Pass.{evaluate_once-open, disk_alert_stays}

abbrev plain : String → String
plain s = s

abbrev limits : Settings
limits = record {
  high_cpu_critical_pct = 95;
  high_cpu_warning_pct = 85;
  high_mem_critical_pct = 95;
  high_mem_warning_pct = 85;
  disk_pressure_pct = 85;
  resolved_ttl_seconds = 3600;
}

abbrev sick : Container
sick = record {
  container_id = "c1";
  name = "awg0";
  state = "running";
  health_status = some "unhealthy";
  is_restart_loop = false;
  restart_count = 0;
  uptime_seconds = some 60;
  cpu_pct = some 90;
  mem_pct = none;
}

abbrev node_1 : Host
node_1 = record { host_id = "node-1"; is_reachable = true; containers = some (sick ∷ []) }

-- An alert that no longer holds, and the one on the disk.
abbrev alert : String → String → Alert
alert k host = record {
  fingerprint = k;
  rule = "old";
  severity = "warning";
  host_id = host;
  container_id = none;
  container_name = none;
  context = Context.disk 0 0;
  first_seen_at = 10;
  last_seen_at = 20;
  resolved_at = none;
}

abbrev table : List Alert
table = alert "old:node-1:c9" "node-1" ∷ alert "DockerHostDiskPressure:local:-" "local" ∷ []

abbrev sick_rules : List Rule
sick_rules =
    record {
      rule = "DockerContainerUnhealthy";
      severity = "critical";
      host_id = "node-1";
      container_id = some "c1";
      container_name = some "awg0";
      context = Context.health (some "unhealthy") "running";
    }
    ∷ record {
      rule = "DockerContainerHighCPUWarning";
      severity = "warning";
      host_id = "node-1";
      container_id = some "c1";
      container_name = some "awg0";
      context = Context.cpu (some 90);
    }
    ∷ []

found_sick : hosts_pass limits (node_1 ∷ []) ≡ some (sick_rules, "node-1" ∷ [])
unfolding hosts_pass rules_of container_rules state_rules cpu_rules mem_rules
found_sick = refl

after : ℕ × List Alert
after = evaluate_rules plain limits 100 (sick_rules, "node-1" ∷ []) table

ran : evaluate_once plain limits 100 (node_1 ∷ []) 40 1000 table ≡ some after
unfolding evaluate_once hosts_pass rules_of container_rules state_rules cpu_rules mem_rules
    with_disk after evaluate_rules
ran = refl

evaluate_once-open_example : any (is_open ("node-1" ∷ []) "old:node-1:c9") after.1 ≡ false
unfolding with_disk fingerprint is_open is_queried
evaluate_once-open_example =
    evaluate_once-open plain limits 100 (node_1 ∷ []) 40 1000 table sick_rules ("node-1" ∷ [])
      found_sick refl ((λ q. refl), ((λ q. refl), tt)) after.0 after.1 ran "old:node-1:c9"

disk_alert_is_kept :
    any (is_open ("local" ∷ []) "DockerHostDiskPressure:local:-") after.1
    ≡ any (is_open ("local" ∷ []) "DockerHostDiskPressure:local:-") table
disk_alert_is_kept =
    disk_alert_stays plain limits 100 (node_1 ∷ []) 40 1000 table sick_rules ("node-1" ∷ [])
      found_sick refl refl after.0 after.1 ran "DockerHostDiskPressure:local:-"
