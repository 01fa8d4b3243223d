-- ===== src/Rebalance/Moves.antt =====
-- The `while pending > 0` loop: the peers of one source go to the receiver with most free slots,
-- until none are pending or no receiver has room.
pub mod Room
use vpn_suite.Prelude.{
  ℕ, zero, suc, ◌+◌, ◌-◌, min, String, Bool, true, false, ◌&&◌, not, Option, none, some, List, [],
  ◌∷◌, Dict, insert, filter, ltb, nat_beq, ◌==◌, string_eq, if◌then◌else◌,
}

-- `RebalanceMoveOut`
pub record Move : Type 0 where
  pub source_node_id : String
  pub target_node_id : String
  pub peers_to_move : ℕ

-- `receiver_slots`
abbrev pub Slots : Type 0
Slots = Dict String ℕ

-- The list `receivers` for a source.
unfoldable pub receivers : String → Slots → List (String × ℕ)
receivers source slots = filter (λ x. ltb 0 x.1 && not (x.0 == source)) slots

-- `max(receivers, key=lambda item: item[1])`: the first of the largest; `none` on an empty list.
unfoldable pub max_slots : List (String × ℕ) → Option (String × ℕ)
max_slots [] = none
max_slots ((k, n) ∷ xs) = elim (max_slots xs) [
  | none ↦ some (k, n)
  | some (j, m) ↦ if ltb n m then some (j, m) else some (k, n)
]

-- The moves of one source, the slots after them, and what is still pending. The fuel bounds the
-- rounds; each round sends at least one peer.
unfoldable pub send : String → ℕ → ℕ → Slots → List Move × Slots × ℕ
send source zero pending slots = ([], slots, pending)
send source (suc fuel) zero slots = ([], slots, 0)
send source (suc fuel) (suc more) slots = elim (max_slots (receivers source slots)) [
  | none ↦ ([], slots, suc more)
  | some (target_id, free_slots) ↦
      let moved = min (suc more) free_slots in
      let (moves, slots', left) =
        send source fuel (suc more - moved) (insert target_id (free_slots - moved) slots) in
      elim (nat_beq moved 0) [
        | true ↦ ([], slots, suc more)
        | false ↦ (
          record { source_node_id = source; target_node_id = target_id; peers_to_move = moved }
              ∷ moves,
          slots',
          left,
        )
      ]
]
