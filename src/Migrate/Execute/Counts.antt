-- ===== src/Migrate/Execute/Counts.antt =====
-- What the counters of an execution say, whatever the nodes answer.
use vpn_suite.Prelude.{
  ℕ, ◌+◌, ◌-◌, ◌≤◌, min, String, Bool, List, [], ◌∷◌, ◌++◌, string_eq, nat_eq, map, length, take,
  sum, All, ◌≡◌, refl, arith, length-append, length-take, inl, inr, Result-cases,
}
use vpn_suite.Devices.Rows.{Device}
use vpn_suite.Rebalance.Moves.{Move}
use vpn_suite.Reconcile.Nodes.{Adapter}
use vpn_suite.Migrate.Peer.{migrate_peer}
use vpn_suite.Migrate.Candidates.{Tracked}
use vpn_suite.Migrate.Execute.{
  Execution, Tally, Progress, Limits, Context, fresh, put, roll_back, recover, reverse,
  migrate_each, execute_move, execute_moves, execute_rebalance_plan, candidate_devices,
}

-- The migrations that a move has made, those rolled back included.
abbrev pub made : Execution → ℕ
made e = e.succeeded + e.rolled_back

-- Every attempt is counted once, and the attempts are within the request and the batch.
abbrev pub IsBalanced : Limits → Execution → Type 0
IsBalanced l e =
    (e.succeeded + e.failed + e.rolled_back ≡ e.attempted)
    × (e.attempted ≤ e.requested)
    × (e.attempted ≤ l.batch_size)

abbrev Balance : Tally → Type 0
Balance t =
    (t.succeeded + t.failed + t.rolled_back ≡ t.attempted) × (length t.migrated ≤ t.succeeded)

module _ (a : Adapter) where
  length-reverse : (ds : List Device) → length (reverse a ds) ≡ length ds
  length-reverse [] = refl
  length-reverse (d ∷ ds) = omega (arith, length-append (reverse a ds) (d ∷ []), length-reverse ds)

  roll_back-counts :
      (source : String) (ds : List Device) (t : Tally) (p : Progress a.State)
      → length ds ≤ t.succeeded
      → let (t', p') = roll_back a source ds t p in
        (t'.succeeded + t'.rolled_back ≡ t.succeeded + t.rolled_back)
        × (t'.attempted ≡ t.attempted)
        × (t'.failed ≡ t.failed)
        × (p'.remaining_budget ≡ p.remaining_budget)
  unfolding roll_back
  roll_back-counts source [] t p h = (refl, refl, refl, refl)
  roll_back-counts source (d ∷ ds) t p h =
      let s' = (migrate_peer a d source p.nodes).1 in
      elim (Result-cases (migrate_peer a d source p.nodes).0) [
        | inl (d', moved) ↦ ground (
          arith,
          roll_back-counts source ds
              (record t { rolled_back = t.rolled_back + 1; succeeded = t.succeeded - 1 })
              (record p { fleet = put d' p.fleet; nodes = s' }),
        )
        | inr (e, kept) ↦ ground (
          arith,
          roll_back-counts source ds (record t { rollback_failed = t.rollback_failed + 1 })
              (record p { nodes = s' }),
        )
      ]

  -- A migration that raised has been counted as an attempt, and nothing else.
  recover-counts :
      (rollback_on_error : Bool) (source : String) (t : Tally) (p : Progress a.State)
      → t.succeeded + t.failed + t.rolled_back + 1 ≡ t.attempted
      → length t.migrated ≤ t.succeeded
      → let (t', p') = recover a rollback_on_error source t p in
        (t'.succeeded + t'.rolled_back ≡ t.succeeded + t.rolled_back)
        × (t'.attempted ≡ t.attempted)
        × Balance t'
        × (p'.remaining_budget ≡ p.remaining_budget)
  unfolding recover
  recover-counts rollback_on_error source t p counted kept = ground (
    arith,
    length-reverse t.migrated,
    roll_back-counts source (reverse a t.migrated)
        (record t { failed = t.failed + 1; status = "failed" }) p,
  )

  migrate_each-counts :
      (l : Limits) (m : Move) (ds : List Device) (t : Tally) (p : Progress a.State)
      → Balance t
      → length ds ≤ p.remaining_budget
      → let (t', p') = migrate_each a l m ds t p in
        Balance t'
        × (t'.attempted ≤ t.attempted + length ds)
        × (t'.succeeded + t'.rolled_back + p'.remaining_budget
            ≡ t.succeeded + t.rolled_back + p.remaining_budget)
  unfolding migrate_each
  migrate_each-counts l m [] t p b room = ground arith
  migrate_each-counts l m (d ∷ ds) t p b room =
      let s' = (migrate_peer a d m.target_node_id p.nodes).1 in
      let tried : Tally = record t { attempted = t.attempted + 1 } in
      elim (Result-cases (migrate_peer a d m.target_node_id p.nodes).0) [
        | inl (d', moved) ↦ ground (
          arith,
          length-append t.migrated (d' ∷ []),
          migrate_each-counts l m ds
              (record tried {
                succeeded = tried.succeeded + 1;
                migrated = tried.migrated ++ (d' ∷ []);
              })
              (record {
                fleet = put d' p.fleet;
                nodes = s';
                remaining_budget = p.remaining_budget - 1;
              }),
        )
        | inr (e, kept) ↦
            let (t', p') =
              recover a l.rollback_on_error m.source_node_id tried (record p { nodes = s' }) in
            ground (
              arith,
              recover-counts l.rollback_on_error m.source_node_id tried (record p { nodes = s' }),
              migrate_each-counts l m ds t' p',
            )
      ]

module _ (a : Adapter) (c : Context a.State) (l : Limits) where
  execute_move-counts :
      (m : Move) (p : Progress a.State)
      → let (e, p') = execute_move a c l m p in
        IsBalanced l e × (made e + p'.remaining_budget ≡ p.remaining_budget)
  unfolding execute_move
  execute_move-counts m p =
      let limit = min m.peers_to_move (min l.batch_size p.remaining_budget) in
      let ds = take limit (candidate_devices a c l m.source_node_id p) in
      ground (
        arith,
        length-take limit (candidate_devices a c l m.source_node_id p),
        migrate_each-counts a l m ds fresh p,
      )

  execute_moves-counts :
      (ms : List Move) (p : Progress a.State)
      → let (es, over, p') = execute_moves a c l ms p in
        All (IsBalanced l) es × (sum (map made es) + p'.remaining_budget ≡ p.remaining_budget)
  unfolding execute_moves
  execute_moves-counts [] p = (tt, omega arith)
  execute_moves-counts (m ∷ ms) p = ground (
    arith,
    execute_move-counts m p,
    execute_moves-counts ms p,
    execute_moves-counts ms (execute_move a c l m p).1,
  )

  -- Whatever the nodes answer, the counters of every entry of an execution add up: an attempt is
  -- counted as succeeded, as failed, or as rolled back. An entry attempts no more than its move asks
  -- for and its batch allows, and all entries together count no more migrations than a cycle may
  -- make, those rolled back included.
  pub execution_balances :
      (moves : List Move) (fleet : List Tracked) (s : a.State)
      → let es = (execute_rebalance_plan a c l moves fleet s).0 in
        All (IsBalanced l) es × (sum (map made es) ≤ l.max_executions_per_cycle)
  unfolding execute_rebalance_plan
  execution_balances moves fleet s =
      let p : Progress a.State = record {
        fleet = fleet;
        nodes = s;
        remaining_budget = l.max_executions_per_cycle;
      } in
      let (balanced, total) = execute_moves-counts moves p in (balanced, omega (arith, total))
