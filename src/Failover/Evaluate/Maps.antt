-- ===== src/Failover/Evaluate/Maps.antt =====
-- What the failed nodes are mapped to.
use vpn_suite.Prelude.{
  false, if◌then◌else◌, IsOneOf, filter-IsOneOf, all-filter_implies, is_some, lookup, lookup-insert,
  ==_refl, ◌||◌, Bool, true, String, not, Option, none, some, List, [], ◌∷◌, ◌==◌, string_eq,
  eq_iff, is_empty, all, filter, Dict, insert, All, ◌≡◌, refl, sym, subst, ◌⊎◌, inl, inr, arith,
  Bool-cases, Option-decides,
}
use vpn_suite.Balancer.Select.{Node, Scores, best}
use vpn_suite.Balancer.Best.{
  IsOrdered, best-passes, best-top, best-IsOneOf, all-filter, all-filter_keeps,
}
use vpn_suite.Failover.Evaluate.{
  Selected, is_same, is_failed, is_fallback, regional, failover_pool, map_failed, evaluate_failover,
}

empty-nil : (ns : List Node) → is_empty ns ≡ true → ns ≡ []
empty-nil [] h = refl
empty-nil (n ∷ ns) h = absurd (ground arith)

module _ (s : Scores) (regions : String → Option String) where
  -- What a failed node is mapped to.
  abbrev pub IsTarget : List Node → Node → Option String → Type 0
  IsTarget nodes n none = filter is_fallback nodes ≡ []
  IsTarget nodes n (some t) =
      (c : Node) × IsOneOf c nodes
      × (c.node_id ≡ t)
      × (is_fallback c ≡ true)
      × ((is_same (regions c.node_id) (regions n.node_id) ≡ true)
          ⊎ (regional regions n (filter is_fallback nodes) ≡ []))
      × (all (λ m. not (s.before c m)) (failover_pool regions n (filter is_fallback nodes)) ≡ true)

  -- An entry of the mappings is right: its node is one of the topology that has failed; without a
  -- target, no node of the topology may serve as a fallback; with one, the target is a node of the
  -- topology that may serve, it is of the same region if any node that may serve is, and none of
  -- those has a greater score.
  abbrev pub IsMapped : List Node → String × Option String → Type 0
  IsMapped nodes (k, target) =
      (n : Node) × IsOneOf n nodes
      × (n.node_id ≡ k)
      × (is_failed s n ≡ true)
      × IsTarget nodes n target

  All-insert :
      (P : String × Option String → Type 0) (k : String) (v : Option String)
      (d : Dict String (Option String))
      → All P d
      → P (k, v)
      → All P (insert k v d)
  All-insert P k v [] h p = (p, tt)
  All-insert P k v ((j, w) ∷ d) h p = elim (Bool-cases (j == k)) [
    | inl same ↦ rw same ((subst (λ (i : String). P (i, v)) (sym ((eq_iff j k).0 same)) p, h.1))
    | inr other ↦ rw other ((h.0, All-insert P k v d h.1 p))
  ]

  pool-is_fallback :
      (n : Node) (fallback : List Node)
      → all is_fallback fallback ≡ true
      → all is_fallback (failover_pool regions n fallback) ≡ true
  unfolding failover_pool regional
  pool-is_fallback n fallback h = ground (
    arith,
    all-filter_keeps is_fallback (λ c. is_same (regions c.node_id) (regions n.node_id)) fallback h,
  )

  pool-region :
      (n c : Node) (fallback : List Node)
      → best s (failover_pool regions n fallback) ≡ some c
      → (is_same (regions c.node_id) (regions n.node_id) ≡ true)
        ⊎ (regional regions n fallback ≡ [])
  unfolding failover_pool regional
  pool-region n c fallback h =
      let near : Node → Bool = λ c. is_same (regions c.node_id) (regions n.node_id) in
      elim (Bool-cases (is_empty (filter near fallback))) [
        | inl none_near ↦ inr (empty-nil (filter near fallback) none_near)
        | inr some_near ↦
            inl (
              best-passes s near (filter near fallback) c (all-filter near fallback) (ground arith))
      ]

  pool-nil :
      (n : Node) (fallback : List Node)
      → best s (failover_pool regions n fallback) ≡ none
      → fallback ≡ []
  unfolding failover_pool regional best
  pool-nil n [] h = refl
  pool-nil n (c ∷ cs) h = absurd (ground arith)

  pool-IsOneOf :
      (n c : Node) (fallback : List Node)
      → IsOneOf c (failover_pool regions n fallback)
      → IsOneOf c fallback
  unfolding failover_pool regional
  pool-IsOneOf n c fallback h =
      let near : Node → Bool = λ c. is_same (regions c.node_id) (regions n.node_id) in
      elim (Bool-cases (is_empty (filter near fallback))) [
        | inl none_near ↦ subst (λ (ns : List Node). IsOneOf c ns) (ground arith) h
        | inr some_near ↦
            filter-IsOneOf near c fallback
              (subst (λ (ns : List Node). IsOneOf c ns) (ground arith) h)
      ]

  module _ (ordered : IsOrdered s) (nodes : List Node) where
    abbrev fallback : List Node
    fallback = filter is_fallback nodes

    map_failed-IsMapped :
        (ns : List Node) (d : Dict String (Option String)) (events : List Selected)
        → All (λ n. IsOneOf n nodes × (is_failed s n ≡ true)) ns
        → All (IsMapped nodes) d
        → All (IsMapped nodes) (map_failed s regions fallback ns d events).0
    unfolding map_failed
    map_failed-IsMapped [] d events f h = h
    map_failed-IsMapped (n ∷ ns) d events f h =
        Option-decides
          (λ (r : Dict String (Option String) × List Selected). All (IsMapped nodes) r.0)
          (best s (failover_pool regions n fallback)) _ _
          (λ nobody. map_failed-IsMapped ns (insert n.node_id none d) events f.1 (
            All-insert (IsMapped nodes) n.node_id none d h
              (n, f.0.0, refl, f.0.1, pool-nil n fallback nobody)))
          (λ c chosen. map_failed-IsMapped ns (insert n.node_id (some c.node_id) d) _ f.1 (
            All-insert (IsMapped nodes) n.node_id (some c.node_id) d h (
              n,
              f.0.0,
              refl,
              f.0.1,
              (
                c,
                filter-IsOneOf is_fallback c nodes (
                    pool-IsOneOf n c fallback
                      (best-IsOneOf s (failover_pool regions n fallback) c chosen)),
                refl,
                best-passes s is_fallback (failover_pool regions n fallback) c
                    (pool-is_fallback n fallback (all-filter is_fallback nodes)) chosen,
                pool-region n c fallback chosen,
                best-top s ordered (failover_pool regions n fallback) c chosen,
              ),
            )))

    map_failed-keeps :
        (k : String) (ns : List Node) (d : Dict String (Option String)) (events : List Selected)
        → is_some (lookup k d) ≡ true
        → is_some (lookup k (map_failed s regions fallback ns d events).0) ≡ true
    unfolding map_failed
    map_failed-keeps k [] d events h = h
    map_failed-keeps k (n ∷ ns) d events h =
        Option-decides
          (λ (r : Dict String (Option String) × List Selected). is_some (lookup k r.0) ≡ true)
          (best s (failover_pool regions n fallback)) _ _
          (λ nobody.
            map_failed-keeps k ns (insert n.node_id none d) events
              (ground (arith, lookup-insert k n.node_id none d)))
          (λ c chosen.
            map_failed-keeps k ns (insert n.node_id (some c.node_id) d) _
              (ground (arith, lookup-insert k n.node_id (some c.node_id) d)))

    map_failed-keys :
        (ns : List Node) (d : Dict String (Option String)) (events : List Selected)
        → All
            (λ n. is_some (lookup n.node_id (map_failed s regions fallback ns d events).0) ≡ true)
            ns
    unfolding map_failed
    map_failed-keys [] d events = tt
    map_failed-keys (n ∷ ns) d events =
        Option-decides
          (λ (r : Dict String (Option String) × List Selected).
            All (λ m. is_some (lookup m.node_id r.0) ≡ true) (n ∷ ns))
          (best s (failover_pool regions n fallback)) _ _
          (λ nobody. (
            map_failed-keeps n.node_id ns (insert n.node_id none d) events
                (ground (arith, lookup-insert n.node_id n.node_id none d, ==_refl n.node_id)),
            map_failed-keys ns (insert n.node_id none d) events,
          ))
          (λ c chosen. (
            map_failed-keeps n.node_id ns (insert n.node_id (some c.node_id) d) _ (
                ground
                  (arith, lookup-insert n.node_id n.node_id (some c.node_id) d, ==_refl n.node_id)),
            map_failed-keys ns (insert n.node_id (some c.node_id) d) _,
          ))

  All-all : (test : Node → Bool) (ns : List Node) → All (λ n. test n ≡ true) ns → all test ns ≡ true
  All-all test [] h = refl
  All-all test (n ∷ ns) h = ground (arith, h.0, All-all test ns h.1)

  failed-among :
      (nodes ms : List Node)
      → ((n : Node) → IsOneOf n ms → IsOneOf n nodes)
      → All (λ n. IsOneOf n nodes × (is_failed s n ≡ true)) (filter (is_failed s) ms)
  failed-among nodes [] up = tt
  failed-among nodes (m ∷ ms) up =
      if-All (is_failed s m) refl (up m (inl refl)) (failed-among nodes ms (λ n h. up n (inr h)))
    where
      if-All :
          (b : Bool)
          → is_failed s m ≡ b
          → IsOneOf m nodes
          → All (λ n. IsOneOf n nodes × (is_failed s n ≡ true)) (filter (is_failed s) ms)
          → All
              (λ n. IsOneOf n nodes × (is_failed s n ≡ true))
              (if b then m ∷ filter (is_failed s) ms else filter (is_failed s) ms)
      if-All true e one rest = ((one, e), rest)
      if-All false e one rest = rest

  -- Where the scores are ordered, a failover evaluation has an entry for every node of the topology
  -- that has failed, and every entry is that of a node of the topology that has failed. It is mapped
  -- to nothing only if no node may serve as a fallback, and else to a node of the topology that is
  -- live, has room and does not drain, of the same region if there is one, with the greatest score
  -- of those.
  pub evaluate_failover-IsMapped :
      (nodes : List Node)
      → IsOrdered s
      → All (IsMapped nodes) (evaluate_failover s regions nodes).0.mappings
        × (all
              (λ n.
                not (is_failed s n)
                || is_some (lookup n.node_id (evaluate_failover s regions nodes).0.mappings))
              nodes
            ≡ true)
  unfolding evaluate_failover
  evaluate_failover-IsMapped nodes ordered =
      let failed = filter (is_failed s) nodes in
      let mappings = (map_failed s regions (filter is_fallback nodes) failed [] []).0 in
      (
        map_failed-IsMapped ordered nodes failed [] [] (failed-among nodes nodes (λ n h. h)) tt,
        all-filter_implies (is_failed s) (λ n. is_some (lookup n.node_id mappings)) nodes
            (All-all (λ n. is_some (lookup n.node_id mappings)) failed
              (map_failed-keys ordered nodes failed [] [])),
      )
