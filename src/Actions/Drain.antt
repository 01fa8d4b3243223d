-- ===== src/Actions/Drain.antt =====
-- Polling: the oldest pending action is handed out once.
use vpn_suite.Prelude.{
  ℕ, ◌+◌, ◌≤◌, String, true, false, Option, none, some, List, [], ◌∷◌, ◌++◌, string_eq, ◌≡◌, refl,
  arith, eq_iff, ==_refl, length, filter, Option-cases, inl, inr, ◌∙◌, ap, All, is_some,
}
use vpn_suite.Actions.Queue.{
  AgentAction, Db, find_action, append_log, with_status, update_action, set_status, is_pending,
  get_pending_action, poll,
}

-- No two rows share an identifier.
abbrev pub HasUniqueIds : List AgentAction → Type 0
HasUniqueIds [] = Unit
HasUniqueIds (a ∷ rest) = (is_some (find_action a.id rest) ≡ false) × HasUniqueIds rest

-- The number of pending actions of a server.
abbrev pub pending : String → List AgentAction → ℕ
pending server actions = length (filter (is_pending server) actions)

abbrev NotBefore : String → ℕ → AgentAction → Type 0
NotBefore server t b = is_pending server b ≡ true → t ≤ b.requested_at

get_pending_action-none :
    (server : String) (actions : List AgentAction)
    → get_pending_action server actions ≡ none
    → pending server actions ≡ 0
unfolding get_pending_action
get_pending_action-none server [] h = refl
get_pending_action-none server (a ∷ rest) h = elim (Option-cases (get_pending_action server rest)) [
  | inl empty ↦ ground (arith, get_pending_action-none server rest empty)
  | inr (b, best) ↦ ground arith
]

-- The action found is a pending row of the server under its identifier, and none is older.
get_pending_action-some :
    (server : String) (actions : List AgentAction) (a : AgentAction)
    → HasUniqueIds actions
    → get_pending_action server actions ≡ some a
    → (find_action a.id actions ≡ some a) × (is_pending server a ≡ true)
unfolding get_pending_action
get_pending_action-some server [] a u h = absurd (ground arith)
get_pending_action-some server (x ∷ rest) a u h =
    elim (Option-cases (get_pending_action server rest)) [
      | inl empty ↦ (ground (arith, eq_iff x.id a.id, ==_refl x.id), ground arith)
      | inr (b, best) ↦
          let (there, waits) = get_pending_action-some server rest b u.1 best in
          (
            ground (arith, there, u.0, eq_iff x.id b.id, eq_iff x.id a.id, ==_refl x.id),
            ground (arith, waits),
          )
    ]

running_is_not_pending :
    (server : String) (now : ℕ) (a : AgentAction)
    → is_pending server (with_status "running" none (some now) none a) ≡ false
unfolding is_pending
running_is_not_pending server now a = ground (arith, eq_iff "running" "pending")

running-pending :
    (server : String) (now : ℕ) (actions : List AgentAction) (a : AgentAction)
    → find_action a.id actions ≡ some a
    → is_pending server a ≡ true
    → pending server (update_action a.id (with_status "running" none (some now) none) actions) + 1
      ≡ pending server actions
unfolding is_pending
running-pending server now [] a h p = absurd (ground arith)
running-pending server now (x ∷ rest) a h p =
    ground (arith, running_is_not_pending server now x, running-pending server now rest a)

NotBefore-earlier :
    (server : String) (t t' : ℕ) (actions : List AgentAction)
    → t ≤ t'
    → All (NotBefore server t') actions
    → All (NotBefore server t) actions
NotBefore-earlier server t t' [] le h = tt
NotBefore-earlier server t t' (x ∷ rest) le h =
    ((λ p. omega (arith, h.0 p, le)), NotBefore-earlier server t t' rest le h.1)

NotBefore-none :
    (server : String) (t : ℕ) (actions : List AgentAction)
    → get_pending_action server actions ≡ none
    → All (NotBefore server t) actions
unfolding get_pending_action
NotBefore-none server t [] h = tt
NotBefore-none server t (x ∷ rest) h = elim (Option-cases (get_pending_action server rest)) [
  | inl empty ↦ ((λ p. absurd (ground arith)), NotBefore-none server t rest empty)
  | inr (b, best) ↦ absurd (ground arith)
]

-- No pending action of the server was requested before the one handed out.
get_pending_action-oldest :
    (server : String) (actions : List AgentAction) (a : AgentAction)
    → get_pending_action server actions ≡ some a
    → All (NotBefore server a.requested_at) actions
unfolding get_pending_action
get_pending_action-oldest server [] a h = tt
get_pending_action-oldest server (x ∷ rest) a h =
    elim (Option-cases (get_pending_action server rest)) [
      | inl empty ↦ ((λ p. ground arith), NotBefore-none server a.requested_at rest empty)
      | inr (b, best) ↦ (
        (λ p. ground arith),
        NotBefore-earlier server a.requested_at b.requested_at rest (ground arith)
            (get_pending_action-oldest server rest b best),
      )
    ]

-- After a poll that hands out an action, the log does not change the queue.
poll-some :
    (now : ℕ) (server : String) (db db' : Db) (a : AgentAction)
    → poll now server db ≡ some (some a, db')
    → (get_pending_action server db.actions ≡ some a)
      × (db'.actions ≡ update_action a.id (with_status "running" none (some now) none) db.actions)
unfolding poll set_status append_log
poll-some now server db db' a h = elim (Option-cases (get_pending_action server db.actions)) [
  | inl empty ↦ absurd (ground arith)
  | inr (b, best) ↦ elim (Option-cases (find_action b.id db.actions)) [
    | inl missing ↦ absurd (ground arith)
    | inr (c, there) ↦
        elim (Option-cases (
          find_action b.id
            (update_action b.id (with_status "running" none (some now) none) db.actions))) [
              | inl gone ↦ absurd (ground arith)
              | inr (d, kept) ↦ (ground arith, ground arith)
            ]
  ]
]

-- With unique identifiers, a poll that hands out an action hands out a pending one of the server,
-- before which no pending action of the server was requested, and leaves one pending action of the
-- server less.
pub poll_takes_oldest :
    (now : ℕ) (server : String) (db db' : Db) (a : AgentAction)
    → HasUniqueIds db.actions
    → poll now server db ≡ some (some a, db')
    → (is_pending server a ≡ true)
      × All (NotBefore server a.requested_at) db.actions
      × (pending server db'.actions + 1 ≡ pending server db.actions)
poll_takes_oldest now server db db' a unique h =
    let (best, left) = poll-some now server db db' a h in
    let (there, waits) = get_pending_action-some server db.actions a unique best in
    (
      waits,
      get_pending_action-oldest server db.actions a best,
      ap (λ (x : List AgentAction). pending server x + 1) left
          ∙ running-pending server now db.actions a there waits,
    )

find_action-update_action :
    (id k : String) (status : String) (now : ℕ) (actions : List AgentAction)
    → is_some (find_action k (update_action id (with_status status none (some now) none) actions))
      ≡ is_some (find_action k actions)
find_action-update_action id k status now [] = refl
find_action-update_action id k status now (x ∷ rest) =
    ground (arith, find_action-update_action id k status now rest)

-- With unique identifiers a poll never raises, and it hands out nothing only when no action of the
-- server is pending; then it changes nothing.
pub poll_answers :
    (now : ℕ) (server : String) (db : Db)
    → HasUniqueIds db.actions
    → (answer : Option AgentAction) × (db' : Db) × (poll now server db ≡ some (answer, db'))
      × (answer ≡ none → (pending server db.actions ≡ 0) × (db' ≡ db))
unfolding poll set_status append_log
poll_answers now server db unique = elim (Option-cases (get_pending_action server db.actions)) [
  | inl empty ↦
      (none, db, ground arith, λ q. (get_pending_action-none server db.actions empty, refl))
  | inr (a, best) ↦
      let (there, waits) = get_pending_action-some server db.actions a unique best in
      let started : List AgentAction =
        update_action a.id (with_status "running" none (some now) none) db.actions in
      elim (Option-cases (find_action a.id started)) [
        | inl gone ↦
            absurd (ground (arith, find_action-update_action a.id a.id "running" now db.actions))
        | inr (d, kept) ↦ (
          some a,
          record db {
            actions = started;
            logs =
                db.logs
                ++ (record { action_id = a.id; level = "info"; message = "Agent started execution" }
                    ∷ []);
          },
          ground arith,
          λ q. absurd (ground arith),
        )
      ]
]
