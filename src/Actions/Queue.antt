-- ===== src/Actions/Queue.antt =====
-- The operations on actions and their logs, and the endpoints `poll` and `report`.
-- Payloads, `meta` and the caller's token are left out; the commit at the end of an endpoint is
-- where its new state counts, and a failed one leaves the old state.
use vpn_suite.Prelude.{
  ℕ, String, Bool, true, false, Option, none, some, List, [], ◌∷◌, ◌++◌, ◌==◌, string_eq, ◌&&◌,
  ◌||◌, if◌then◌else◌, ltb, leb, text_length,
}

pub record AgentAction : Type 0 where
  pub id : String
  pub server_id : String
  pub type : String
  pub status : String
  pub requested_by : Option String
  pub requested_at : ℕ
  pub started_at : Option ℕ
  pub finished_at : Option ℕ
  pub error : Option String

pub record AgentActionLog : Type 0 where
  pub action_id : String
  pub level : String
  pub message : String

-- The tables, in the order of insertion. `snapshots` holds the servers that exist, each with its
-- `last_snapshot_at`; `audits` the audited (action, resource) pairs.
pub record Db : Type 0 where
  pub actions : List AgentAction
  pub logs : List AgentActionLog
  pub snapshots : List (String × Option ℕ)
  pub audits : List (String × String)

unfoldable pub create_action : String → ℕ → String → String → Option String → Db → AgentAction × Db
create_action new_id now server_id type requested_by db =
    let action : AgentAction = record {
      id = new_id;
      server_id = server_id;
      type = type;
      status = "pending";
      requested_by = requested_by;
      requested_at = now;
      started_at = none;
      finished_at = none;
      error = none;
    } in
    (action, record db { actions = db.actions ++ (action ∷ []) })

abbrev pub find_action : String → List AgentAction → Option AgentAction
find_action id [] = none
find_action id (a ∷ rest) = if a.id == id then some a else find_action id rest

unfoldable pub get_action : Db → String → Option AgentAction
get_action db id = find_action id db.actions

-- The new row refers to its action: without one, the database refuses it and the call raises.
unfoldable pub append_log : String → String → String → Db → Option Db
append_log id level message db = elim (find_action id db.actions) [
  | none ↦ none
  | some a ↦ some (record db {
    logs = db.logs ++ (record { action_id = id; level = level; message = message } ∷ []);
  })
]

-- `if x is not None: field = x`
abbrev pub or_keep {ℓ} : {A : Type ℓ} → Option A → Option A → Option A
or_keep none old = old
or_keep (some x) old = some x

abbrev pub with_status : String → Option String → Option ℕ → Option ℕ → AgentAction → AgentAction
with_status status error started finished a = record a {
  status = status;
  error = or_keep error a.error;
  started_at = or_keep started a.started_at;
  finished_at = or_keep finished a.finished_at;
}

-- Changes the row with an identifier.
abbrev pub update_action :
    String → (AgentAction → AgentAction) → List AgentAction → List AgentAction
update_action id change [] = []
update_action id change (a ∷ rest) =
    let rest' = update_action id change rest in if a.id == id then change a ∷ rest else a ∷ rest'

-- The column of the status has 32 characters: with a longer one the flush raises, which is `none`.
unfoldable pub set_status :
    String → String → Option String → Option ℕ → Option ℕ → Db → Option (Bool × Db)
unfolding text_length
set_status id status error started finished db = elim (find_action id db.actions) [
  | none ↦ some (false, db)
  | some a ↦
      if leb (text_length status) 32
      then some (
        true,
        record db {
          actions = update_action id (with_status status error started finished) db.actions;
        },
      )
      else none
]

unfoldable pub is_pending : String → AgentAction → Bool
is_pending server a = a.server_id == server && a.status == "pending"

-- The pending action of a server that was requested first; of two at one time, the earlier row.
unfoldable pub get_pending_action : String → List AgentAction → Option AgentAction
unfolding is_pending
get_pending_action server [] = none
get_pending_action server (a ∷ rest) =
    let best = get_pending_action server rest in
    if is_pending server a
    then elim best [
      | none ↦ some a
      | some b ↦ if ltb b.requested_at a.requested_at then some b else some a
    ]
    else best

-- The endpoint `poll`: the action handed out, and the new state; `none` where a call raises.
unfoldable pub poll : ℕ → String → Db → Option (Option AgentAction × Db)
unfolding get_pending_action set_status append_log
poll now server db = elim (get_pending_action server db.actions) [
  | none ↦ some (none, db)
  | some a ↦ elim (set_status a.id "running" none (some now) none db) [
    | none ↦ none
    | some set ↦ elim (append_log a.id "info" "Agent started execution" set.1) [
      | none ↦ none
      | some db'' ↦ some (some a, db'')
    ]
  ]
]

abbrev pub touch_snapshot : ℕ → String → List (String × Option ℕ) → List (String × Option ℕ)
touch_snapshot now server [] = []
touch_snapshot now server ((s, at_time) ∷ rest) =
    (if s == server then (s, some now) else (s, at_time)) ∷ touch_snapshot now server rest

-- What a finished action leaves: an audit entry and, for a sync, the server's time of snapshot.
unfoldable pub finished : ℕ → String → AgentAction → Db → Db
finished now status a db =
    let db' = record db { audits = db.audits ++ ((status, a.id) ∷ []) } in
    if a.type == "sync" && status == "completed"
    then record db' { snapshots = touch_snapshot now a.server_id db'.snapshots }
    else db'

pub data Answer : Type 0 where
  internal_error not_found reported : Answer

-- What follows the log: the new status, and what a finished action leaves; `none` where the change of
-- the status raises.
unfoldable pub settle : ℕ → String → String → String → Db → Option (Answer × Db)
unfolding set_status get_action finished
settle now id status message db =
    let error : Option String = if status == "failed" then some message else none in
    elim (set_status id status error none (some now) db) [
      | none ↦ none
      | some set ↦
          if set.0
          then (if status == "completed" || status == "failed"
              then some (
                reported,
                elim (get_action set.1 id) [ none ↦ set.1 | some a ↦ finished now status a set.1 ],
              )
              else some (reported, set.1))
          else some (not_found, set.1)
    ]

-- The endpoint `report`.
unfoldable pub report : ℕ → String → String → String → Db → Answer × Db
unfolding append_log settle
report now id status message db =
    let level = if status == "failed" then "error" else "info" in
    elim (append_log id level (if message == "" then status else message) db) [
      | none ↦ (internal_error, db)
      | some db' ↦ elim (settle now id status message db') [
        | none ↦ (internal_error, db)
        | some answered ↦ answered
      ]
    ]
