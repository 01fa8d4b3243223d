-- ===== src/Alerts/Pass.antt =====
-- A whole pass: what is open afterwards on the hosts that it visits, and on the others.
use vpn_suite.Prelude.{
  ℕ, String, true, false, Option, none, some, List, [], ◌∷◌, string_eq, is_empty, ◌≡◌, refl, arith,
  eq_iff, member, any, leb, any-filter, Option-cases, Bool-cases, inl, inr, ◌∙◌, ap, sym, All,
  All-append,
}
use vpn_suite.Alerts.Rules.{
  Container, Host, Rule, Settings, container_rules, state_rules, cpu_rules, mem_rules, rules_of,
  hosts_pass, with_disk,
}
use vpn_suite.Alerts.Engine.{
  Alert, is_queried, is_open, cleanup_resolved, evaluate_rules, evaluate_once,
}
use vpn_suite.Alerts.Tracks.{AreOf, HasUniqueOpen, is_active_rule, any-is_kept, evaluate_rules-open}
use vpn_suite.Alerts.Elsewhere.{is_elsewhere, evaluate_rules-elsewhere}

abbrev AreFrom : String → List Rule → Type 0
AreFrom h rules = All (λ (r : Rule). r.host_id ≡ h) rules

of_state : (settings : Settings) (h : String) (c : Container) → AreFrom h (state_rules h c)
unfolding state_rules
of_state settings h c = ground arith

of_cpu : (settings : Settings) (h : String) (c : Container) → AreFrom h (cpu_rules settings h c)
unfolding cpu_rules
of_cpu settings h c = ground arith

of_mem : (settings : Settings) (h : String) (c : Container) → AreFrom h (mem_rules settings h c)
unfolding mem_rules
of_mem settings h c = ground arith

container_rules-AreFrom :
    (settings : Settings) (h : String) (c : Container) → AreFrom h (container_rules settings h c)
unfolding container_rules
container_rules-AreFrom settings h c =
    All-append (λ (r : Rule). r.host_id ≡ h) (state_rules h c) _ (of_state settings h c)
      (All-append (λ (r : Rule). r.host_id ≡ h) (cpu_rules settings h c) _ (of_cpu settings h c)
        (of_mem settings h c))

rules_of-AreFrom :
    (settings : Settings) (h : String) (cs : List Container) → AreFrom h (rules_of settings h cs)
unfolding rules_of
rules_of-AreFrom settings h [] = tt
rules_of-AreFrom settings h (c ∷ cs) =
    All-append (λ (r : Rule). r.host_id ≡ h) (container_rules settings h c) _
      (container_rules-AreFrom settings h c) (rules_of-AreFrom settings h cs)

AreFrom-AreOf :
    (h : String) (ids : List String) (rules : List Rule) → AreFrom h rules → AreOf (h ∷ ids) rules
AreFrom-AreOf h ids [] from = tt
AreFrom-AreOf h ids (r ∷ rs) from =
    (ground (arith, eq_iff h r.host_id, from.0), AreFrom-AreOf h ids rs from.1)

AreOf-cons :
    (h : String) (ids : List String) (rules : List Rule) → AreOf ids rules → AreOf (h ∷ ids) rules
AreOf-cons h ids [] of = tt
AreOf-cons h ids (r ∷ rs) of = (ground (arith, of.0), AreOf-cons h ids rs of.1)

-- Rules that were found, if any, are of the hosts that were visited.
abbrev AreOfFound : Option (List Rule × List String) → Type 0
AreOfFound none = Unit
AreOfFound (some found) = AreOf found.1 found.0

hosts_pass-AreOfFound :
    (settings : Settings) (hosts : List Host) → AreOfFound (hosts_pass settings hosts)
unfolding hosts_pass
hosts_pass-AreOfFound settings [] = tt
hosts_pass-AreOfFound settings (h ∷ hs) = elim (Bool-cases h.is_reachable) [
  | inr down ↦ rw (hosts_pass, down) (hosts_pass-AreOfFound settings hs)
  | inl up ↦ elim (Option-cases h.containers) [
    | inl raises ↦ rw (hosts_pass, up, raises) tt
    | inr (cs, listed) ↦ elim (Option-cases (hosts_pass settings hs)) [
      | inl none_found ↦ rw (hosts_pass, up, listed, none_found) tt
      | inr (found, some_found) ↦
          rw (hosts_pass, up, listed, some_found)
            (All-append (λ (r : Rule). member r.host_id (h.host_id ∷ found.1) ≡ true)
              (rules_of settings h.host_id cs) found.0
              (AreFrom-AreOf h.host_id found.1 _ (rules_of-AreFrom settings h.host_id cs))
              (AreOf-cons h.host_id found.1 found.0
                (rw some_found at (hosts_pass-AreOfFound settings hs))))
    ]
  ]
]

with_disk-AreOf :
    (settings : Settings) (used_pct free : ℕ) (rules : List Rule) (ids : List String)
    → AreOf ids rules
    → AreOf
        (with_disk settings used_pct free (rules, ids)).1
        (with_disk settings used_pct free (rules, ids)).0
unfolding with_disk
with_disk-AreOf settings used_pct free rules ids of =
    elim (Bool-cases (leb settings.disk_pressure_pct used_pct)) [
      | inr enough ↦ rw (with_disk, enough) of
      | inl full ↦
          rw (with_disk, full)
            (All-append (λ (r : Rule). member r.host_id ("local" ∷ ids) ≡ true) rules _
              (AreOf-cons "local" ids rules of) (refl, tt))
    ]

with_disk-enough :
    (settings : Settings) (used_pct free : ℕ) (found : List Rule × List String)
    → leb settings.disk_pressure_pct used_pct ≡ false
    → with_disk settings used_pct free found ≡ found
unfolding with_disk
with_disk-enough settings used_pct free (rules, ids) enough = rw enough

is_open_local-elsewhere :
    (ids : List String)
    → member "local" ids ≡ false
    → (k : String) (a : Alert) → is_open ("local" ∷ []) k a ≡ true
    → is_elsewhere ids a ≡ true
unfolding is_open is_queried
is_open_local-elsewhere ids away k a h = ground (arith, eq_iff "local" a.host_id)

module _ (sha : String → String) (settings : Settings) (now : ℕ) (hosts : List Host)
    (used_pct free : ℕ) (rows : List Alert) (rules : List Rule) (ids : List String)
    (listed : hosts_pass settings hosts ≡ some (rules, ids)) where
  AreOf-listed : AreOf ids rules
  AreOf-listed = rw listed at (hosts_pass-AreOfFound settings hosts)

  run_rows :
      (count : ℕ) (rows' : List Alert)
      → evaluate_once sha settings now hosts used_pct free rows ≡ some (count, rows')
      → rows'
        ≡ (evaluate_rules sha settings now (with_disk settings used_pct free (rules, ids)) rows).1
  unfolding evaluate_once
  run_rows count rows' run = ground (arith, listed)

  -- A pass whose listings do not raise, that visits a host, and that finds no two open alerts with
  -- one fingerprint on the visited hosts, leaves on them an open alert for exactly the
  -- fingerprints of the active rules: those that hold are opened or kept, all others resolved.
  pub evaluate_once-open :
      let (active, visited) = with_disk settings used_pct free (rules, ids) in
      is_empty visited ≡ false
      → HasUniqueOpen visited rows
      → (count : ℕ) (rows' : List Alert)
      → evaluate_once sha settings now hosts used_pct free rows ≡ some (count, rows')
      → (k : String) → any (is_open visited k) rows' ≡ is_active_rule sha k active
  evaluate_once-open some_host unique count rows' run k =
      let found : List Rule × List String = with_disk settings used_pct free (rules, ids) in
      ap (any (is_open found.1 k)) (run_rows count rows' run)
      ∙ evaluate_rules-open sha now found.1 settings found.0 rows k some_host
          (with_disk-AreOf settings used_pct free rules ids AreOf-listed) unique

  -- When the engine's own disk is not under pressure, and no visited host is named `local`, a pass
  -- whose listings do not raise leaves on `local`, where the disk's alerts are kept, the same
  -- fingerprints open as before: it does not resolve the alert of an earlier pressure.
  pub disk_alert_stays :
      leb settings.disk_pressure_pct used_pct ≡ false
      → member "local" ids ≡ false
      → (count : ℕ) (rows' : List Alert)
      → evaluate_once sha settings now hosts used_pct free rows ≡ some (count, rows')
      → (k : String) → any (is_open ("local" ∷ []) k) rows' ≡ any (is_open ("local" ∷ []) k) rows
  disk_alert_stays enough elsewhere count rows' run k =
      let test = is_open ("local" ∷ []) k in
      let away = is_elsewhere ids in
      let keeps = is_open_local-elsewhere ids elsewhere k in
      let after = (evaluate_rules sha settings now (rules, ids) rows).1 in
      ap (any test) (run_rows count rows' run)
      ∙ ap (λ (x : List Rule × List String). any test (evaluate_rules sha settings now x rows).1)
          (with_disk-enough settings used_pct free (rules, ids) enough)
      ∙ sym (any-filter test away after keeps)
      ∙ ap (any test) (evaluate_rules-elsewhere sha now ids settings rules rows AreOf-listed)
      ∙ any-filter test away (cleanup_resolved settings now rows) keeps
      ∙ any-is_kept ("local" ∷ []) settings now k rows
