-- ===== src/Actions/Report.antt =====
-- The answers of `report`.
use vpn_suite.Prelude.{
  leb, text_length, ◌&&◌, ◌⊎◌, true, Bool-cases, ℕ, String, Option, none, some, List, [], ◌∷◌, ◌==◌,
  string_eq, if◌then◌else◌, ◌≡◌, arith, Option-cases, inl, inr, is_some,
}
use vpn_suite.Actions.Queue.{
  AgentAction, Db, find_action, get_action, append_log, with_status, update_action, set_status,
  finished, internal_error, reported, settle, report,
}

-- A report is never answered with "not found": for an identifier without an action it ends in an
-- internal error, and so it does where the status has more than 32 characters; any other report is
-- accepted. A report that ends in an internal error changes nothing.
pub report_never_missing :
    (now : ℕ) (id status message : String) (db : Db)
    → ((report now id status message db).0 ≡ (
        if is_some (find_action id db.actions) && leb (text_length status) 32
        then reported
        else internal_error))
      × (((report now id status message db).0 ≡ reported)
          ⊎ ((report now id status message db).1 ≡ db))
unfolding report append_log settle set_status
report_never_missing now id status message db = elim (Option-cases (find_action id db.actions)) [
  | inl missing ↦ (ground arith, inr (ground arith))
  | inr (a, there) ↦ elim (Bool-cases (leb (text_length status) 32)) [
    | inl short ↦ (ground arith, inl (ground arith))
    | inr long ↦ (ground arith, inr (ground arith))
  ]
]

find_action-with_status :
    (id status : String) (error : Option String) (started ended : Option ℕ)
    (actions : List AgentAction) (a : AgentAction)
    → find_action id actions ≡ some a
    → find_action id (update_action id (with_status status error started ended) actions)
      ≡ some (with_status status error started ended a)
find_action-with_status id status error started ended [] a h = absurd (ground arith)
find_action-with_status id status error started ended (x ∷ rest) a h =
    ground (arith, find_action-with_status id status error started ended rest a)

actions-finished :
    (now : ℕ) (status : String) (a : AgentAction) (db : Db)
    → (finished now status a db).actions ≡ db.actions
unfolding finished
actions-finished now status a db = ground arith

-- What a report of a status of at most 32 characters leaves under its identifier, whatever the status
-- of the action was: the reported
-- status, the time of the report, the message as error if it failed, and all else as it was.
pub report_overwrites :
    (now : ℕ) (id status message : String) (db : Db) (a : AgentAction)
    → find_action id db.actions ≡ some a
    → leb (text_length status) 32 ≡ true
    → let error : Option String = if status == "failed" then some message else none in
      find_action id (report now id status message db).1.actions
      ≡ some (with_status status error none (some now) a)
unfolding report append_log settle set_status finished get_action
report_overwrites now id status message db a there short =
    let error : Option String = if status == "failed" then some message else none in
    ground (
      arith,
      find_action-with_status id status error none (some now) db.actions a there,
      actions-finished now status,
    )
