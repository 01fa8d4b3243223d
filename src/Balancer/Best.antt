-- ===== src/Balancer/Best.antt =====
-- What the selected node is.
use mathlib.Core.Path.{subst}
use vpn_suite.Prelude.{
  String, Bool, true, false, not, ◌&&◌, ◌||◌, some, List, [], ◌∷◌, string_eq, if◌then◌else◌,
  is_empty, filter, all, member, ◌≡◌, refl, arith, IsOneOf, filter-IsOneOf, all-filter_implies, ltb,
  ◌==◌, Bool-cases, inl, inr, sym,
}
use vpn_suite.Balancer.Select.{
  Node, Scores, is_open, candidates, pool, best_from, best, select_node,
}

-- The order of the keys: asymmetric, and a node that is not before a second that is not before a
-- third is not before the third.
pub record IsOrdered (s : Scores) : Type 0 where
  pub asym : (a b : Node) → s.before a b ≡ true → s.before b a ≡ false
  pub step : (a b c : Node) → s.before a b ≡ false → s.before b c ≡ false → s.before a c ≡ false

-- The node serves a request: its status and score are not too low, it has room, it is not draining,
-- and it has every required capability.
abbrev pub serves : Scores → List String → Node → Bool
serves s required n =
    ((n.status == "healthy" || n.status == "degraded" || n.status == "unknown")
      && s.is_degraded_at_least n
      && ltb n.peer_count n.max_peers
      && not n.is_draining)
    && all (λ c. member c n.capabilities) required

-- A node is to be preferred to another: a healthy one to one that is not, and else the greater key.
abbrev pub beats : Scores → Node → Node → Bool
beats s m n =
    if s.is_healthy n then s.is_healthy m && s.before n m else s.is_healthy m || s.before n m

module _ (s : Scores) where
  -- A test that all of a list pass is passed by the chosen.
  best_from-passes :
      (test : Node → Bool) (n : Node) (rest : List Node)
      → test n ≡ true
      → all test rest ≡ true
      → test (best_from s n rest) ≡ true
  unfolding best_from
  best_from-passes test n [] h k = h
  best_from-passes test n (m ∷ rest) h k =
      best_from-passes test (if s.before n m then m else n) rest (ground arith) (ground arith)

  pub best-passes :
      (test : Node → Bool) (nodes : List Node) (n : Node)
      → all test nodes ≡ true
      → best s nodes ≡ some n
      → test n ≡ true
  unfolding best
  best-passes test [] n h k = absurd (ground arith)
  best-passes test (m ∷ rest) n h k =
      ground (arith, best_from-passes test m rest (ground arith) (ground arith))

  -- Nothing in the list goes beyond the node.
  abbrev pub IsTop : Node → List Node → Type 0
  IsTop b nodes = all (λ m. not (s.before b m)) nodes ≡ true

  best_from-first :
      (n m : Node) (rest : List Node)
      → s.before n m ≡ true
      → best_from s n (m ∷ rest) ≡ best_from s m rest
  unfolding best_from
  best_from-first n m rest h = rw h

  best_from-kept :
      (n m : Node) (rest : List Node)
      → s.before n m ≡ false
      → best_from s n (m ∷ rest) ≡ best_from s n rest
  unfolding best_from
  best_from-kept n m rest h = rw h

  module _ (ordered : IsOrdered s) where
    IsTop-first :
        (b n m : Node) (rest : List Node)
        → s.before n m ≡ true
        → IsTop b (m ∷ rest)
        → IsTop b (n ∷ m ∷ rest)
    IsTop-first b n m rest h top =
        let under : s.before b m ≡ false = ground arith in
        ground (arith, ordered.step b m n under (ordered.asym n m h))

    IsTop-kept :
        (b n m : Node) (rest : List Node)
        → s.before n m ≡ false
        → IsTop b (n ∷ rest)
        → IsTop b (n ∷ m ∷ rest)
    IsTop-kept b n m rest h top =
        let under : s.before b n ≡ false = ground arith in
        ground (arith, ordered.step b n m under h)

    best_from-IsTop : (n : Node) (rest : List Node) → IsTop (best_from s n rest) (n ∷ rest)
    unfolding best_from
    best_from-IsTop n [] = elim (Bool-cases (s.before n n)) [
      | inl itself ↦ absurd (ground (arith, ordered.asym n n itself))
      | inr apart ↦ ground arith
    ]
    best_from-IsTop n (m ∷ rest) = elim (Bool-cases (s.before n m)) [
      | inl later ↦
          subst (λ (b : Node). IsTop b (n ∷ m ∷ rest)) (sym (best_from-first n m rest later))
            (IsTop-first (best_from s m rest) n m rest later (best_from-IsTop m rest))
      | inr kept ↦
          subst (λ (b : Node). IsTop b (n ∷ m ∷ rest)) (sym (best_from-kept n m rest kept))
            (IsTop-kept (best_from s n rest) n m rest kept (best_from-IsTop n rest))
    ]

pub all-filter : (test : Node → Bool) (nodes : List Node) → all test (filter test nodes) ≡ true
all-filter test [] = refl
all-filter test (n ∷ rest) = ground (arith, all-filter test rest)

pub all-filter_keeps :
    (test keep : Node → Bool) (nodes : List Node)
    → all test nodes ≡ true
    → all test (filter keep nodes) ≡ true
all-filter_keeps test keep [] h = refl
all-filter_keeps test keep (n ∷ rest) h = ground (arith, all-filter_keeps test keep rest)

all-and :
    (p q : Node → Bool) (nodes : List Node)
    → all p nodes ≡ true
    → all q nodes ≡ true
    → all (λ n. p n && q n) nodes ≡ true
all-and p q [] h k = refl
all-and p q (n ∷ rest) h k = ground (arith, all-and p q rest)

all-weaker :
    (p q : Node → Bool) (nodes : List Node)
    → ((n : Node) → p n ≡ true → q n ≡ true)
    → all p nodes ≡ true
    → all q nodes ≡ true
all-weaker p q [] w h = refl
all-weaker p q (n ∷ rest) w h = ground (arith, w n, all-weaker p q rest w)

all-true : (nodes : List Node) → all (λ n. true) nodes ≡ true
all-true [] = refl
all-true (n ∷ rest) = all-true rest

candidates-serve :
    (s : Scores) (required : List String) (nodes : List Node)
    → all (serves s required) (candidates s required nodes) ≡ true
unfolding candidates is_open
candidates-serve s [] nodes =
    all-and (is_open s) (λ n. true) (filter (is_open s) nodes) (all-filter (is_open s) nodes)
      (all-true (filter (is_open s) nodes))
candidates-serve s (c ∷ cs) nodes =
    let able : Node → Bool = λ n. all (λ k. member k n.capabilities) (c ∷ cs) in
    let open_nodes : List Node = filter (is_open s) nodes in
    all-and (is_open s) able (filter able open_nodes)
      (all-filter_keeps (is_open s) able open_nodes (all-filter (is_open s) nodes))
      (all-filter able open_nodes)

pool-serve :
    (s : Scores) (required : List String) (nodes : List Node)
    → all (serves s required) (pool s (candidates s required nodes)) ≡ true
unfolding pool
pool-serve s required nodes =
    let found : List Node = candidates s required nodes in
    let fine = candidates-serve s required nodes in
    elim (Bool-cases (is_empty (filter s.is_healthy found))) [
      | inl none_healthy ↦ rw none_healthy fine
      | inr healthy ↦ rw healthy (all-filter_keeps (serves s required) s.is_healthy found fine)
    ]

-- What all candidates pass, all nodes pass that serve.
candidates-all :
    (s : Scores) (required : List String) (pred : Node → Bool) (nodes : List Node)
    → all pred (candidates s required nodes) ≡ true
    → all (λ m. not (serves s required m) || pred m) nodes ≡ true
unfolding candidates is_open
candidates-all s [] pred nodes h =
    all-weaker (λ m. not (is_open s m) || pred m) (λ m. not (serves s [] m) || pred m) nodes
      (λ m k. ground arith) (all-filter_implies (is_open s) pred nodes h)
candidates-all s (c ∷ cs) pred nodes h =
    let able : Node → Bool = λ n. all (λ k. member k n.capabilities) (c ∷ cs) in
    let open_nodes : List Node = filter (is_open s) nodes in
    all-weaker (λ m. not (is_open s m) || (not (able m) || pred m))
      (λ m. not (serves s (c ∷ cs) m) || pred m) nodes (λ m k. ground arith)
      (all-filter_implies (is_open s) (λ m. not (able m) || pred m) nodes
        (all-filter_implies able pred open_nodes h))

none-filter :
    (test : Node → Bool) (nodes : List Node)
    → is_empty (filter test nodes) ≡ true
    → all (λ m. not (test m)) nodes ≡ true
none-filter test [] h = refl
none-filter test (n ∷ rest) h = ground (arith, none-filter test rest)

pub best-top :
    (s : Scores) (ordered : IsOrdered s) (nodes : List Node) (n : Node)
    → best s nodes ≡ some n
    → all (λ m. not (s.before n m)) nodes ≡ true
unfolding best
best-top s ordered [] n h = absurd (ground arith)
best-top s ordered (m ∷ rest) n h =
    subst (λ (b : Node). IsTop s b (m ∷ rest)) (chosen (best_from s m rest) n h)
      (best_from-IsTop s ordered m rest)
  where
    chosen : (b n : Node) → some b ≡ some n → b ≡ n
    chosen b n h = ground arith

best_from-IsOneOf :
    (s : Scores) (m : Node) (rest : List Node) → IsOneOf (best_from s m rest) (m ∷ rest)
unfolding best_from
best_from-IsOneOf s m [] = inl refl
best_from-IsOneOf s m (k ∷ rest) = elim (Bool-cases (s.before m k)) [
  | inl later ↦
      subst (λ (b : Node). IsOneOf b (m ∷ k ∷ rest)) (sym (best_from-first s m k rest later))
        (inr (best_from-IsOneOf s k rest))
  | inr kept ↦
      subst (λ (b : Node). IsOneOf b (m ∷ k ∷ rest)) (sym (best_from-kept s m k rest kept))
        (skip (best_from-IsOneOf s m rest))
]
  where
    skip : {b : Node} → IsOneOf b (m ∷ rest) → IsOneOf b (m ∷ k ∷ rest)
    skip (inl here) = inl here
    skip (inr there) = inr (inr there)

pub best-IsOneOf :
    (s : Scores) (nodes : List Node) (n : Node) → best s nodes ≡ some n → IsOneOf n nodes
unfolding best
best-IsOneOf s [] n h = absurd (ground arith)
best-IsOneOf s (m ∷ rest) n h =
    subst (λ (b : Node). IsOneOf b (m ∷ rest)) (same (best_from s m rest) n h)
      (best_from-IsOneOf s m rest)
  where
    same : (b n : Node) → some b ≡ some n → b ≡ n
    same b n h = ground arith

pool-IsOneOf :
    (s : Scores) (n : Node) (found : List Node) → IsOneOf n (pool s found) → IsOneOf n found
unfolding pool
pool-IsOneOf s n found k = elim (Bool-cases (is_empty (filter s.is_healthy found))) [
  | inl nobody ↦ subst (λ (ns : List Node). IsOneOf n ns) (ground arith) k
  | inr some_healthy ↦
      filter-IsOneOf s.is_healthy n found
        (subst (λ (ns : List Node). IsOneOf n ns) (ground arith) k)
]

candidates-IsOneOf :
    (s : Scores) (required : List String) (n : Node) (nodes : List Node)
    → IsOneOf n (candidates s required nodes)
    → IsOneOf n nodes
unfolding candidates
candidates-IsOneOf s [] n nodes h = filter-IsOneOf (is_open s) n nodes h
candidates-IsOneOf s (c ∷ cs) n nodes h =
    filter-IsOneOf (is_open s) n nodes (filter-IsOneOf _ n (filter (is_open s) nodes) h)

-- Where the keys are ordered, a selected node is one of the topology; its status is `healthy`,
-- `degraded` or `unknown`, its score at least one half, it has room, is not draining and has every
-- required capability. No other node that serves as well is to be preferred: none is healthy if the
-- selected one is not, and of those that are as healthy none has a greater key.
pub select_node-best :
    (s : Scores) (required : List String) (nodes : List Node) (n : Node)
    → IsOrdered s
    → select_node s required nodes ≡ some n
    → IsOneOf n nodes
      × (serves s required n ≡ true)
      × (all (λ m. not (serves s required m) || not (beats s m n)) nodes ≡ true)
unfolding select_node pool
select_node-best s required nodes n ordered h =
    let found : List Node = candidates s required nodes in
    let top = best-top s ordered (pool s found) n h in
    (
      candidates-IsOneOf s required n nodes
          (pool-IsOneOf s n found (best-IsOneOf s (pool s found) n h)),
      best-passes s (serves s required) (pool s found) n (pool-serve s required nodes) h,
      candidates-all s required (λ m. not (beats s m n)) nodes
          (elim (Bool-cases (is_empty (filter s.is_healthy found))) [
            | inl nobody ↦
                let ill = none-filter s.is_healthy found nobody in
                let itself : not (s.is_healthy n) ≡ true =
                  best-passes s (λ m. not (s.is_healthy m)) found n ill (ground arith) in
                all-weaker (λ m. not (s.is_healthy m) && not (s.before n m))
                  (λ m. not (beats s m n)) found (λ m k. ground arith)
                  (all-and (λ m. not (s.is_healthy m)) (λ m. not (s.before n m)) found ill
                    (ground arith))
            | inr healthy ↦
                let itself : s.is_healthy n ≡ true =
                  best-passes s s.is_healthy (filter s.is_healthy found) n
                    (all-filter s.is_healthy found) (ground arith) in
                all-weaker (λ m. not (s.is_healthy m) || not (s.before n m))
                  (λ m. not (beats s m n)) found (λ m k. ground arith)
                  (all-filter_implies s.is_healthy (λ m. not (s.before n m)) found (ground arith))
          ]),
    )
