-- ===== src/Migrate/Execute/Again.antt =====
-- What the query for a move's devices finds after earlier moves.
use vpn_suite.Prelude.{
  ◌+◌, ◌-◌, String, Bool, not, ◌&&◌, none, some, List, [], ◌∷◌, ◌++◌, ◌==◌, string_eq, nat_eq,
  if◌then◌else◌, is_some, map, insert_by, ltb, ◌≡◌, refl, arith, inl, inr, Bool-cases, Result-cases,
  Option-cases,
}
use vpn_suite.Devices.Rows.{Device}
use vpn_suite.Payments.Records.{Subscription}
use vpn_suite.Rebalance.Moves.{Move}
use vpn_suite.Reconcile.Nodes.{Adapter}
use vpn_suite.Migrate.Peer.{migrate_peer}
use vpn_suite.Migrate.Candidates.{Tracked, NamedPlan, plan_name_of, movable_rows}
use vpn_suite.Migrate.Execute.{
  Tally, Progress, Limits, Context, fresh, put, roll_back, recover, reverse, migrate_each,
  execute_move, execute_moves,
}

-- A row without the server that the session's object shows.
abbrev pub without_server : Device × String → Device × String
without_server (d, name) = (record d { server_id = "" }, name)

abbrev earlier : Device × String → Device × String → Bool
earlier x y = ltb x.0.issued_at y.0.issued_at

map-insert_by :
    (x : Device × String) (xs : List (Device × String))
    → map without_server (insert_by earlier x xs)
      ≡ insert_by earlier (without_server x) (map without_server xs)
map-insert_by x [] = refl
map-insert_by x (y ∷ ys) = ground (arith, map-insert_by x ys)

module _ (subs : List Subscription) (plans : List NamedPlan) (source : String) where
  abbrev rows : List Tracked → List (Device × String)
  rows = movable_rows subs plans source

  -- What a device adds to the rows after it.
  abbrev add_row : Tracked → List (Device × String) → List (Device × String)
  add_row t rest =
      if t.stored_server_id == source && not (is_some t.device.revoked_at)
      then (elim (plan_name_of subs plans t.device) as (λ o. List (Device × String)) [
        | none ↦ rest
        | some name ↦ insert_by earlier (without_server (t.device, name)) rest
      ])
      else rest

  rows-cons :
      (t : Tracked) (ts : List Tracked)
      → map without_server (rows (t ∷ ts)) ≡ add_row t (map without_server (rows ts))
  unfolding movable_rows
  rows-cons t ts = elim (Option-cases (plan_name_of subs plans t.device)) [
    | inl missing ↦ ground arith
    | inr (name, found) ↦ ground (arith, map-insert_by (t.device, name) (rows ts))
  ]

  add_row-put :
      (t : Tracked) (server : String) (rest : List (Device × String))
      → add_row (record t { device = record t.device { server_id = server } }) rest ≡ add_row t rest
  unfolding plan_name_of
  add_row-put t server rest = refl

  -- The rows found depend on nothing that a migration assigns.
  rows-put :
      (d : Device) (ts : List Tracked)
      → map without_server (rows (put d ts)) ≡ map without_server (rows ts)
  unfolding put
  rows-put d [] = refl
  rows-put d (t ∷ ts) =
      let moved : Tracked = record t { device = record t.device { server_id = d.server_id } } in
      elim (Bool-cases (t.device.id == d.id)) [
        | inl same ↦ ground (
          arith,
          rows-cons moved (put d ts),
          rows-cons t ts,
          add_row-put t d.server_id (map without_server (rows (put d ts))),
          rows-put d ts,
        )
        | inr other ↦ ground (arith, rows-cons t (put d ts), rows-cons t ts, rows-put d ts)
      ]

  module _ (a : Adapter) where
    abbrev found : Progress a.State → List (Device × String)
    found p = map without_server (rows p.fleet)

    roll_back-rows :
        (node : String) (ds : List Device) (t : Tally) (p : Progress a.State)
        → found (roll_back a node ds t p).1 ≡ found p
    unfolding roll_back
    roll_back-rows node [] t p = refl
    roll_back-rows node (d ∷ ds) t p =
        let s' = (migrate_peer a d node p.nodes).1 in
        elim (Result-cases (migrate_peer a d node p.nodes).0) [
          | inl (d', moved) ↦ ground (
            arith,
            rows-put d' p.fleet,
            roll_back-rows node ds
                (record t { rolled_back = t.rolled_back + 1; succeeded = t.succeeded - 1 })
                (record p { fleet = put d' p.fleet; nodes = s' }),
          )
          | inr (e, kept) ↦ ground (
            arith,
            roll_back-rows node ds (record t { rollback_failed = t.rollback_failed + 1 })
                (record p { nodes = s' }),
          )
        ]

    recover-rows :
        (b : Bool) (node : String) (t : Tally) (p : Progress a.State)
        → found (recover a b node t p).1 ≡ found p
    unfolding recover
    recover-rows b node t p = ground (
      arith,
      roll_back-rows node (reverse a t.migrated)
          (record t { failed = t.failed + 1; status = "failed" }) p,
    )

    migrate_each-rows :
        (l : Limits) (m : Move) (ds : List Device) (t : Tally) (p : Progress a.State)
        → found (migrate_each a l m ds t p).1 ≡ found p
    unfolding migrate_each
    migrate_each-rows l m [] t p = refl
    migrate_each-rows l m (d ∷ ds) t p =
        let s' = (migrate_peer a d m.target_node_id p.nodes).1 in
        let tried : Tally = record t { attempted = t.attempted + 1 } in
        elim (Result-cases (migrate_peer a d m.target_node_id p.nodes).0) [
          | inl (d', moved) ↦ ground (
            arith,
            rows-put d' p.fleet,
            migrate_each-rows l m ds
                (record tried {
                  succeeded = tried.succeeded + 1;
                  migrated = tried.migrated ++ (d' ∷ []);
                })
                (record {
                  fleet = put d' p.fleet;
                  nodes = s';
                  remaining_budget = p.remaining_budget - 1;
                }),
          )
          | inr (e, kept) ↦
              let (t', p') =
                recover a l.rollback_on_error m.source_node_id tried (record p { nodes = s' }) in
              ground (
                arith,
                recover-rows l.rollback_on_error m.source_node_id tried (record p { nodes = s' }),
                migrate_each-rows l m ds t' p',
              )
        ]

module _ (a : Adapter) (c : Context a.State) (l : Limits) (source : String) where
  execute_move-rows :
      (m : Move) (p : Progress a.State)
      → found c.subscriptions c.plans source a (execute_move a c l m p).1
        ≡ found c.subscriptions c.plans source a p
  unfolding execute_move
  execute_move-rows m p = migrate_each-rows c.subscriptions c.plans source a l m _ fresh p

  -- However many moves have been executed, the query for a node's devices finds the same devices as
  -- before the first of them, in the same order, but for the server that each shows: a device that
  -- has just been moved away is found again, by the next move of the same source.
  pub moves_keep_candidates :
      (moves : List Move) (p : Progress a.State)
      → map without_server
          (movable_rows c.subscriptions c.plans source (execute_moves a c l moves p).2.fleet)
        ≡ map without_server (movable_rows c.subscriptions c.plans source p.fleet)
  unfolding execute_moves
  moves_keep_candidates [] p = refl
  moves_keep_candidates (m ∷ ms) p = ground (
    arith,
    execute_move-rows m p,
    moves_keep_candidates ms p,
    moves_keep_candidates ms (execute_move a c l m p).1,
  )
