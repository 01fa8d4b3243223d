-- ===== src/Actions/Tests.antt =====
-- Two servers with waiting actions.
use vpn_suite.Prelude.{
  text_length, ◌⊎◌, ℕ, ◌+◌, ◌≤◌, String, true, Option, none, some, [], ◌∷◌, ◌≡◌, refl, All,
  string_eq,
}
use vpn_suite.Actions.Queue.{
  AgentAction, Db, find_action, is_pending, get_pending_action, append_log, set_status, with_status,
  poll, internal_error, reported, report,
}
use vpn_suite.Actions.Drain.{pending, poll_takes_oldest, poll_answers}
use vpn_suite.Actions.Report.{report_never_missing, report_overwrites}

abbrev action : String → String → ℕ → String → AgentAction
action id server at_time status = record {
  id = id;
  server_id = server;
  type = "sync";
  status = status;
  requested_by = none;
  requested_at = at_time;
  started_at = none;
  finished_at = none;
  error = none;
}

abbrev queue : Db
queue = record {
  actions =
      action "a1" "s1" 20 "pending"
      ∷ action "a2" "s2" 5 "pending"
      ∷ action "a3" "s1" 10 "pending"
      ∷ action "a4" "s1" 1 "completed"
      ∷ [];
  logs = [];
  snapshots = ("s1", none) ∷ [];
  audits = [];
}

abbrev or_db : Option (Option AgentAction × Db) → Db
or_db none = queue
or_db (some (a, db)) = db

poll_takes_oldest_example :
    let after = or_db (poll 30 "s1" queue) in
    (is_pending "s1" (action "a3" "s1" 10 "pending") ≡ true)
    × All (λ (b : AgentAction). is_pending "s1" b ≡ true → 10 ≤ b.requested_at) queue.actions
    × (pending "s1" after.actions + 1 ≡ pending "s1" queue.actions)
unfolding poll get_pending_action append_log set_status is_pending
poll_takes_oldest_example =
    poll_takes_oldest 30 "s1" queue (or_db (poll 30 "s1" queue)) (action "a3" "s1" 10 "pending")
      (refl, (refl, (refl, (refl, tt)))) refl

an_action_is_handed_out :
    (answer : Option AgentAction) × (db' : Db) × (poll 30 "s3" queue ≡ some (answer, db'))
    × (answer ≡ none → (pending "s3" queue.actions ≡ 0) × (db' ≡ queue))
an_action_is_handed_out = poll_answers 30 "s3" queue (refl, (refl, (refl, (refl, tt))))

report_never_missing_example :
    ((report 40 "a9" "completed" "" queue).0 ≡ internal_error)
    × (((report 40 "a9" "completed" "" queue).0 ≡ reported)
        ⊎ ((report 40 "a9" "completed" "" queue).1 ≡ queue))
report_never_missing_example = report_never_missing 40 "a9" "completed" "" queue

report_overwrites_holds :
    find_action "a4" (report 40 "a4" "pending" "" queue).1.actions
    ≡ some (with_status "pending" none none (some 40) (action "a4" "s1" 1 "completed"))
unfolding text_length
report_overwrites_holds =
    report_overwrites 40 "a4" "pending" "" queue (action "a4" "s1" 1 "completed") refl refl
