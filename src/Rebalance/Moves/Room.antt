-- ===== src/Rebalance/Moves/Room.antt =====
-- No receiver gets more than its free slots, nothing is sent twice, and the loop stops only when it
-- is done or no receiver has room.
use vpn_suite.Prelude.{
  ℕ, zero, suc, ◌+◌, ◌-◌, ◌≤◌, ◌<◌, min, String, false, ◌&&◌, not, none, some, List, [], ◌∷◌,
  lookup, insert, filter, ltb, ◌==◌, string_eq, if◌then◌else◌, ◌≡◌, refl, arith, ◌⊎◌, inl, inr,
  HasUniqueKeys, filter-HasUniqueKeys, lookup-filter-some, insert-HasUniqueKeys, lookup-insert,
  Option-cases, All, eq_iff,
}
use vpn_suite.Rebalance.Moves.{Move, Slots, receivers, max_slots, send}

-- The free slots of a node; a node that is not a receiver has none.
abbrev pub room : String → Slots → ℕ
room k slots = elim (lookup k slots) [ none ↦ 0 | some n ↦ n ]

-- The peers that a list of moves sends to a node.
abbrev pub received : String → List Move → ℕ
received k [] = 0
received k (m ∷ ms) = (if m.target_node_id == k then m.peers_to_move else 0) + received k ms

-- The peers that a list of moves sends in all.
abbrev pub total_moved : List Move → ℕ
total_moved [] = 0
total_moved (m ∷ ms) = m.peers_to_move + total_moved ms

max_slots-lookup :
    (xs : List (String × ℕ)) (t : String) (n : ℕ)
    → HasUniqueKeys xs
    → max_slots xs ≡ some (t, n)
    → lookup t xs ≡ some n
unfolding max_slots
max_slots-lookup [] t n u h = cc
max_slots-lookup ((k, m) ∷ xs) t n u h = elim (Option-cases (max_slots xs)) [
  | inl alone ↦ ground (arith, eq_iff k t)
  | inr ((j, l), best) ↦ ground (arith, eq_iff k t, eq_iff k j, max_slots-lookup xs j l u.1 best)
]

-- The chosen receiver is another node, with free slots.
chosen :
    (source : String) (slots : Slots) (t : String) (n : ℕ)
    → HasUniqueKeys slots
    → max_slots (receivers source slots) ≡ some (t, n)
    → (lookup t slots ≡ some n) × (0 < n) × ((t == source) ≡ false)
unfolding receivers
chosen source slots t n u h =
    let keep = λ (x : String × ℕ). ltb 0 x.1 && not (x.0 == source) in
    let found = max_slots-lookup (filter keep slots) t n (filter-HasUniqueKeys keep slots u) h in
    let (there, kept) = lookup-filter-some keep t n slots u found in
    (there, ground arith, ground arith)

module _ (source : String) where
  -- What a receiver gets comes out of its room, peer for peer.
  pub send-room :
      (fuel pending : ℕ) (slots : Slots) (k : String)
      → HasUniqueKeys slots
      → let (moves, slots', left) = send source fuel pending slots in
        received k moves + room k slots' ≡ room k slots
  unfolding send
  send-room zero pending slots k u = omega arith
  send-room (suc fuel) zero slots k u = omega arith
  send-room (suc fuel) (suc more) slots k u =
      elim (Option-cases (max_slots (receivers source slots))) [
        | inl full ↦ ground arith
        | inr ((t, n), best) ↦
            let moved = min (suc more) n in
            let (there, pos, other) = chosen source slots t n u best in
            let slots₁ = insert t (n - moved) slots in
            ground (
              arith,
              eq_iff t k,
              lookup-insert k t (n - moved) slots,
              send-room fuel (suc more - moved) slots₁ k
                  (insert-HasUniqueKeys t (n - moved) slots u),
            )
      ]

  pub send-HasUniqueKeys :
      (fuel pending : ℕ) (slots : Slots)
      → HasUniqueKeys slots
      → HasUniqueKeys (send source fuel pending slots).1
  unfolding send
  send-HasUniqueKeys zero pending slots u = u
  send-HasUniqueKeys (suc fuel) zero slots u = u
  send-HasUniqueKeys (suc fuel) (suc more) slots u =
      elim (Option-cases (max_slots (receivers source slots))) [
        | inl full ↦ ground arith
        | inr ((t, n), best) ↦
            let moved = min (suc more) n in
            ground (
              arith,
              send-HasUniqueKeys fuel (suc more - moved) (insert t (n - moved) slots)
                  (insert-HasUniqueKeys t (n - moved) slots u),
            )
      ]

  -- Every pending peer is sent once or is still pending.
  pub send-total :
      (fuel pending : ℕ) (slots : Slots)
      → let (moves, slots', left) = send source fuel pending slots in
        total_moved moves + left ≡ pending
  unfolding send
  send-total zero pending slots = omega arith
  send-total (suc fuel) zero slots = omega arith
  send-total (suc fuel) (suc more) slots =
      elim (Option-cases (max_slots (receivers source slots))) [
        | inl full ↦ ground arith
        | inr ((t, n), best) ↦
            let moved = min (suc more) n in
            ground (arith, send-total fuel (suc more - moved) (insert t (n - moved) slots))
      ]

  -- With at least as much fuel as pending peers, and each receiver listed once, the loop ends by its
  -- own tests: nothing is pending, or no receiver has room.
  pub send-ends :
      (fuel pending : ℕ) (slots : Slots)
      → HasUniqueKeys slots
      → pending ≤ fuel
      → let (moves, slots', left) = send source fuel pending slots in
        (left ≡ 0) ⊎ (max_slots (receivers source slots') ≡ none)
  unfolding send
  send-ends zero pending slots u h = inl (omega arith)
  send-ends (suc fuel) zero slots u h = inl refl
  send-ends (suc fuel) (suc more) slots u h =
      elim (Option-cases (max_slots (receivers source slots))) [
        | inl full ↦ ground arith
        | inr ((t, n), best) ↦
            let moved = min (suc more) n in
            let (there, pos, other) = chosen source slots t n u best in
            ground (
              arith,
              send-ends fuel (suc more - moved) (insert t (n - moved) slots)
                  (insert-HasUniqueKeys t (n - moved) slots u) (omega arith),
            )
      ]

  -- A move takes at least one peer from the source to another node.
  abbrev pub Leaves : Move → Type 0
  Leaves m =
      (m.source_node_id ≡ source) × ((m.target_node_id == source) ≡ false) × (0 < m.peers_to_move)

  pub send-Leaves :
      (fuel pending : ℕ) (slots : Slots)
      → HasUniqueKeys slots
      → All Leaves (send source fuel pending slots).0
  unfolding send
  send-Leaves zero pending slots u = tt
  send-Leaves (suc fuel) zero slots u = tt
  send-Leaves (suc fuel) (suc more) slots u =
      elim (Option-cases (max_slots (receivers source slots))) [
        | inl full ↦ ground arith
        | inr ((t, n), best) ↦
            let moved = min (suc more) n in
            let (there, pos, other) = chosen source slots t n u best in
            ground (
              arith,
              send-Leaves fuel (suc more - moved) (insert t (n - moved) slots)
                  (insert-HasUniqueKeys t (n - moved) slots u),
            )
      ]
