-- ===== src/Rebalance/Plan/Capacity.antt =====
-- What a plan may do to each node.
use vpn_suite.Prelude.{
  ℕ, ◌+◌, ◌-◌, ◌≤◌, String, Bool, false, Option, none, some, List, [], ◌∷◌, ◌++◌, insert, filter,
  ◌==◌, string_eq, if◌then◌else◌, ◌≡◌, refl, arith, HasUniqueKeys, insert-HasUniqueKeys,
  lookup-insert, All, All-append, ◌<◌,
}
use vpn_suite.Rebalance.Node.{NodeMetadata, Watermarks}
use vpn_suite.Rebalance.Moves.{Move, Slots, send}
use vpn_suite.Rebalance.Moves.Room.{
  room, received, total_moved, send-room, send-HasUniqueKeys, send-total, send-Leaves, Leaves,
}
use vpn_suite.Rebalance.Plan.{
  is_overloaded, is_underloaded, receiver_slots_from, quota, send_all, RebalancePlan,
  plan_rebalance,
}

-- The node of this name in a list, the last if there are several.
abbrev pub find_node : String → List NodeMetadata → Option NodeMetadata
find_node k [] = none
find_node k (n ∷ ns) = elim (find_node k ns) [
  | some m ↦ some m
  | none ↦ if n.node_id == k then some n else none
]

-- The peers that a list of moves takes from a node.
abbrev pub sent : String → List Move → ℕ
sent k [] = 0
sent k (m ∷ ms) = (if m.source_node_id == k then m.peers_to_move else 0) + sent k ms

received-append :
    (k : String) (xs ys : List Move) → received k (xs ++ ys) ≡ received k xs + received k ys
received-append k [] ys = omega arith
received-append k (m ∷ xs) ys = omega (arith, received-append k xs ys)

sent-append : (k : String) (xs ys : List Move) → sent k (xs ++ ys) ≡ sent k xs + sent k ys
sent-append k [] ys = omega arith
sent-append k (m ∷ xs) ys = omega (arith, sent-append k xs ys)

-- At least one peer, from a node to another.
abbrev pub IsMove : Move → Type 0
IsMove m = ((m.target_node_id == m.source_node_id) ≡ false) × (0 < m.peers_to_move)

sent-Leaves :
    (source k : String) (ms : List Move)
    → All (Leaves source) ms
    → sent k ms ≡ (if source == k then total_moved ms else 0)
sent-Leaves source k [] h = ground arith
sent-Leaves source k (m ∷ ms) ((from, other, pos), hs) =
    rw from (ground (arith, sent-Leaves source k ms hs))

Leaves-IsMove : (source : String) (ms : List Move) → All (Leaves source) ms → All IsMove ms
Leaves-IsMove source [] h = tt
Leaves-IsMove source (m ∷ ms) ((from, other, pos), hs) =
    ((rw from other, pos), Leaves-IsMove source ms hs)

module _ (w : Watermarks) where
  -- The room below the target, of a node that may be absent.
  abbrev pub room_below : Option NodeMetadata → ℕ
  room_below none = 0
  room_below (some n) = w.target n.max_peers - n.peer_count

  room-receiver_slots_from :
      (k : String) (ns : List NodeMetadata) (slots : Slots)
      → room k (receiver_slots_from w slots ns)
        ≡ (elim (find_node k ns) [ none ↦ room k slots | some n ↦ room_below (some n) ])
  unfolding receiver_slots_from
  room-receiver_slots_from k [] slots = refl
  room-receiver_slots_from k (n ∷ ns) slots =
      let free = w.target n.max_peers - n.peer_count in
      ground (
        arith,
        room-receiver_slots_from k ns (insert n.node_id free slots),
        lookup-insert k n.node_id free slots,
      )

  receiver_slots_from-HasUniqueKeys :
      (ns : List NodeMetadata) (slots : Slots)
      → HasUniqueKeys slots
      → HasUniqueKeys (receiver_slots_from w slots ns)
  unfolding receiver_slots_from
  receiver_slots_from-HasUniqueKeys [] slots u = u
  receiver_slots_from-HasUniqueKeys (n ∷ ns) slots u =
      receiver_slots_from-HasUniqueKeys ns _ (insert-HasUniqueKeys n.node_id _ slots u)

  send_all-room :
      (pending : NodeMetadata → ℕ) (k : String) (ns : List NodeMetadata) (slots : Slots)
      → HasUniqueKeys slots
      → let (moves, slots') = send_all w pending ns slots in
        received k moves + room k slots' ≡ room k slots
  unfolding send_all
  send_all-room pending k [] slots u = omega arith
  send_all-room pending k (n ∷ ns) slots u =
      let (moves, slots', left) = send n.node_id (pending n) (pending n) slots in
      let (rest, slots'') = send_all w pending ns slots' in
      omega (
        arith,
        received-append k moves rest,
        send-room n.node_id (pending n) (pending n) slots k u,
        send_all-room pending k ns slots'
            (send-HasUniqueKeys n.node_id (pending n) (pending n) slots u),
      )

  -- The peers that the sources of this name may give.
  abbrev pub quota_of : (NodeMetadata → ℕ) → String → List NodeMetadata → ℕ
  quota_of pending k [] = 0
  quota_of pending k (n ∷ ns) = (if n.node_id == k then pending n else 0) + quota_of pending k ns

  send_all-sent :
      (pending : NodeMetadata → ℕ) (k : String) (ns : List NodeMetadata) (slots : Slots)
      → HasUniqueKeys slots
      → sent k (send_all w pending ns slots).0 ≤ quota_of pending k ns
  unfolding send_all
  send_all-sent pending k [] slots u = omega arith
  send_all-sent pending k (n ∷ ns) slots u =
      let (moves, slots', left) = send n.node_id (pending n) (pending n) slots in
      let (rest, slots'') = send_all w pending ns slots' in
      let unique = send-HasUniqueKeys n.node_id (pending n) (pending n) slots u in
      ground (
        arith,
        sent-append k moves rest,
        send-total n.node_id (pending n) (pending n) slots,
        sent-Leaves n.node_id k moves (send-Leaves n.node_id (pending n) (pending n) slots u),
        send_all-sent pending k ns slots' unique,
      )

  send_all-IsMove :
      (pending : NodeMetadata → ℕ) (ns : List NodeMetadata) (slots : Slots)
      → HasUniqueKeys slots
      → All IsMove (send_all w pending ns slots).0
  unfolding send_all
  send_all-IsMove pending [] slots u = tt
  send_all-IsMove pending (n ∷ ns) slots u =
      All-append IsMove _ _
        (Leaves-IsMove n.node_id _ (send-Leaves n.node_id (pending n) (pending n) slots u))
        (send_all-IsMove pending ns _
          (send-HasUniqueKeys n.node_id (pending n) (pending n) slots u))

  module _ (inverted : Bool) (pinned : String → ℕ) (max_moves : ℕ) (nodes : List NodeMetadata)
      (plan : RebalancePlan)
      (planned : plan_rebalance w inverted pinned max_moves nodes ≡ some plan) where
    abbrev pub slots₀ : Slots
    slots₀ = receiver_slots_from w [] (filter (is_underloaded w) nodes)

    abbrev pub sources : List NodeMetadata
    sources = w.by_load (filter (is_overloaded w) nodes)

    pub moves_of_plan : plan.moves ≡ (send_all w (quota w pinned max_moves) sources slots₀).0
    unfolding plan_rebalance
    moves_of_plan = ground arith

    -- A plan never sends a node more peers than it lacks to the target watermark, and sends none
    -- to a node that is not underloaded. A plan here is any that `plan_rebalance` returns.
    pub plan_rebalance-capacity :
        (k : String)
        → received k plan.moves ≤ room_below (find_node k (filter (is_underloaded w) nodes))
    plan_rebalance-capacity k = rw moves_of_plan (
        ground (
          arith,
          send_all-room (quota w pinned max_moves) k sources slots₀
              (receiver_slots_from-HasUniqueKeys _ [] tt),
          room-receiver_slots_from k (filter (is_underloaded w) nodes) [],
        ))

    -- A plan takes from a node at most the quotas of the sources of its name: the peers above the
    -- pinned ones and the target, and at most `max_moves` for each. Every move goes from a node
    -- to another and moves at least one peer.
    pub plan_rebalance-sources :
        (k : String)
        → (sent k plan.moves ≤ quota_of (quota w pinned max_moves) k sources)
          × All IsMove plan.moves
    plan_rebalance-sources k =
        let unique = receiver_slots_from-HasUniqueKeys (filter (is_underloaded w) nodes) [] tt in
        rw moves_of_plan (
          send_all-sent (quota w pinned max_moves) k sources slots₀ unique,
          send_all-IsMove (quota w pinned max_moves) sources slots₀ unique,
        )
