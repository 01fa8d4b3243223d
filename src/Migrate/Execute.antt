-- ===== src/Migrate/Execute.antt =====
-- `execute_rebalance_plan`.
pub mod Counts
pub mod Again
use vpn_suite.Prelude.{
  ℕ, suc, zero, ◌+◌, ◌-◌, min, String, Bool, true, false, not, ◌&&◌, ◌||◌, Option, none, some, List,
  [], ◌∷◌, ◌++◌, ◌==◌, string_eq, nat_eq, if◌then◌else◌, is_some, is_empty, any, filter, map,
  length, sort_by, take, ltb, leb, nat_beq, Result, ok, err,
}
use vpn_suite.Devices.Rows.{Device}
use vpn_suite.Payments.Records.{Subscription}
use vpn_suite.Rebalance.Moves.{Move}
use vpn_suite.Reconcile.Nodes.{Adapter}
use vpn_suite.Migrate.Peer.{MigrateError, migrate_peer}
use vpn_suite.Migrate.Candidates.{
  is_enterprise_plan_name, enterprise_plan_keywords, NamedPlan, Tracked, PeerStats, QosSettings,
  movable_rows, stats_map_from, qos_migration_key, qos_before,
}

-- `RebalanceExecutionOut`
pub record Execution : Type 0 where
  pub source_node_id : String
  pub target_node_id : String
  pub requested : ℕ
  pub attempted : ℕ
  pub succeeded : ℕ
  pub failed : ℕ
  pub rolled_back : ℕ
  pub rollback_failed : ℕ
  pub skipped_enterprise : ℕ
  pub status : String

-- The counters of one move, and the devices that it has migrated.
pub record Tally : Type 0 where
  pub attempted : ℕ
  pub succeeded : ℕ
  pub failed : ℕ
  pub rolled_back : ℕ
  pub rollback_failed : ℕ
  pub migrated : List Device
  pub status : String

abbrev pub fresh : Tally
fresh = record {
  attempted = 0;
  succeeded = 0;
  failed = 0;
  rolled_back = 0;
  rollback_failed = 0;
  migrated = [];
  status = "completed";
}

-- The session's devices, the nodes, and what is left of the budget.
pub record Progress (S : Type 0) : Type 0 where
  pub fleet : List Tracked
  pub nodes : S
  pub remaining_budget : ℕ

-- `max(0, int(...))` of the two limits is taken as done, and the other settings are arguments.
pub record Limits : Type 0 where
  pub batch_size : ℕ
  pub max_executions_per_cycle : ℕ
  pub stop_on_error : Bool
  pub rollback_on_error : Bool

-- A migration assigns `server_id` to the one object that the session holds for a row.
unfoldable pub put : Device → List Tracked → List Tracked
put d [] = []
put d (t ∷ ts) =
    let rest = put d ts in
    if t.device.id == d.id
    then record t { device = record t.device { server_id = d.server_id } } ∷ rest
    else t ∷ rest

module _ (a : Adapter) where
  -- The loop over the migrated devices, the last one first.
  unfoldable pub roll_back :
      String → List Device → Tally → Progress a.State → Tally × Progress a.State
  unfolding put
  roll_back source [] t p = (t, p)
  roll_back source (d ∷ ds) t p =
      let (o, s') = migrate_peer a d source p.nodes in
      elim o [
        | ok d' ↦
            roll_back source ds
              (record t { rolled_back = t.rolled_back + 1; succeeded = t.succeeded - 1 })
              (record p { fleet = put d' p.fleet; nodes = s' })
        | err e ↦
            roll_back source ds (record t { rollback_failed = t.rollback_failed + 1 })
              (record p { nodes = s' })
      ]

  abbrev pub reverse : List Device → List Device
  reverse [] = []
  reverse (d ∷ ds) = reverse ds ++ (d ∷ [])

  -- What follows a migration that raised, before the test of `stop_on_error`.
  unfoldable pub recover : Bool → String → Tally → Progress a.State → Tally × Progress a.State
  unfolding roll_back
  recover rollback_on_error source t p =
      let failed : Tally = record t { failed = t.failed + 1; status = "failed" } in
      if rollback_on_error && not (is_empty t.migrated)
      then (let (t', p') = roll_back source (reverse t.migrated) failed p in
          (
            record t' {
              migrated = [];
              status = if t'.rollback_failed == 0 then "rolled_back" else "rollback_failed";
            },
            p',
          ))
      else (failed, p)

  -- The loop over the devices of a move; it ends early where it stops on an error.
  unfoldable pub migrate_each :
      Limits → Move → List Device → Tally → Progress a.State → Tally × Progress a.State
  unfolding recover put
  migrate_each l m [] t p = (t, p)
  migrate_each l m (d ∷ ds) t p =
      let tried : Tally = record t { attempted = t.attempted + 1 } in
      let (o, s') = migrate_peer a d m.target_node_id p.nodes in
      elim o [
        | ok d' ↦
            migrate_each l m ds
              (record tried {
                succeeded = tried.succeeded + 1;
                migrated = tried.migrated ++ (d' ∷ []);
              })
              (record {
                fleet = put d' p.fleet;
                nodes = s';
                remaining_budget = p.remaining_budget - 1;
              })
        | err e ↦
            let (t', p') =
              recover l.rollback_on_error m.source_node_id tried (record p { nodes = s' }) in
            elim l.stop_on_error [
              | true ↦ (record t' { status = "stopped_on_error" }, p')
              | false ↦ migrate_each l m ds t' p'
            ]
      ]

-- The status that a move's entry shows.
unfoldable pub final_status : ℕ → Tally → ℕ → String
final_status requested t remaining =
    if t.attempted == 0
    then "no_candidates"
    else if t.failed == 0 && ltb t.attempted requested
    then (if remaining == 0 then "partial_budget" else "partial")
    else t.status

-- What the execution reads: the tables of subscriptions and plans, the settings, the clock, the
-- listing of a node, `str.lower`, and the setting with the keywords of an enterprise plan's name.
pub record Context (S : Type 0) : Type 0 where
  pub subscriptions : List Subscription
  pub plans : List NamedPlan
  pub lower : String → String
  pub enterprise_setting : String
  pub qos : QosSettings
  pub now : ℕ
  pub list_stats : String → S → Option (List PeerStats)

module _ (a : Adapter) (c : Context a.State) (l : Limits) where
  abbrev pub rows_of : String → Progress a.State → List (Device × String)
  rows_of source p = movable_rows c.subscriptions c.plans source p.fleet

  abbrev pub is_enterprise : String → Bool
  is_enterprise name =
      is_enterprise_plan_name c.lower name (enterprise_plan_keywords c.lower c.enterprise_setting)

  -- The devices of a move, the first ones of the order.
  unfoldable pub candidate_devices : String → Progress a.State → List Device
  unfolding movable_rows is_enterprise_plan_name enterprise_plan_keywords
  candidate_devices source p =
      let stats = elim (c.list_stats source p.nodes) as (λ o. List PeerStats) [
        | none ↦ []
        | some found ↦ found
      ] in
      let key = qos_migration_key c.qos (stats_map_from [] stats) c.now in
      sort_by (λ d e. qos_before (key d) (key e))
        (map (λ x. x.0) (filter (λ x. not (is_enterprise x.1)) (rows_of source p)))

  unfoldable pub skipped_enterprise : String → Progress a.State → ℕ
  unfolding movable_rows is_enterprise_plan_name enterprise_plan_keywords
  skipped_enterprise source p = length (filter (λ x. is_enterprise x.1) (rows_of source p))

  -- One move that is not out of the budget or the batch.
  unfoldable pub execute_move : Move → Progress a.State → Execution × Progress a.State
  unfolding migrate_each final_status candidate_devices skipped_enterprise
  execute_move m p =
      let limit = min m.peers_to_move (min l.batch_size p.remaining_budget) in
      let (t, p') =
        migrate_each a l m (take limit (candidate_devices m.source_node_id p)) fresh p in
      (
        record {
          source_node_id = m.source_node_id;
          target_node_id = m.target_node_id;
          requested = m.peers_to_move;
          attempted = t.attempted;
          succeeded = t.succeeded;
          failed = t.failed;
          rolled_back = t.rolled_back;
          rollback_failed = t.rollback_failed;
          skipped_enterprise = skipped_enterprise m.source_node_id p;
          status = final_status m.peers_to_move t p'.remaining_budget;
        },
        p',
      )

  -- The loop over the moves; the second result says that it ended because of the budget.
  unfoldable pub execute_moves :
      List Move → Progress a.State → List Execution × Bool × Progress a.State
  unfolding execute_move
  execute_moves [] p = ([], false, p)
  execute_moves (m ∷ ms) p = elim (p.remaining_budget == 0) [
    | true ↦ ([], true, p)
    | false ↦ elim (m.peers_to_move == 0 || l.batch_size == 0) [
      | true ↦ execute_moves ms p
      | false ↦
          let (e, p') = execute_move m p in
          elim (l.stop_on_error && ltb 0 e.failed) [
            | true ↦ (e ∷ [], false, p')
            | false ↦ let (es, over, p'') = execute_moves ms p' in (e ∷ es, over, p'')
          ]
    ]
  ]

  abbrev pub has_failed : List Execution → Bool
  has_failed es = any (λ e. ltb 0 e.failed) es

  unfoldable pub execute_rebalance_plan :
      List Move → List Tracked → a.State → List Execution × Option String × Progress a.State
  unfolding execute_moves
  execute_rebalance_plan moves fleet s =
      let (es, over, p) =
        execute_moves moves
          (record { fleet = fleet; nodes = s; remaining_budget = l.max_executions_per_cycle }) in
      let stop_reason =
        if over
        then some "execution_budget_reached"
        else if has_failed es && l.stop_on_error
        then some "stopped_on_error"
        else if p.remaining_budget == 0
        then some "execution_budget_reached"
        else none in
      (es, stop_reason, p)
