-- ===== src/Balancer/Answers.antt =====
-- When a node is selected at all.
use vpn_suite.Prelude.{
  String, Bool, true, not, ◌&&◌, List, [], ◌∷◌, string_eq, is_empty, is_some, filter, all, any,
  member, ◌≡◌, refl, arith, Bool-cases, inl, inr, ◌∙◌, ap,
}
use vpn_suite.Balancer.Select.{Node, Scores, is_open, candidates, pool, best, select_node}
use vpn_suite.Balancer.Best.{serves}

is_empty-filter :
    (test : Node → Bool) (nodes : List Node) → not (is_empty (filter test nodes)) ≡ any test nodes
is_empty-filter test [] = refl
is_empty-filter test (n ∷ rest) = ground (arith, is_empty-filter test rest)

any-filter_and :
    (p q : Node → Bool) (nodes : List Node) → any q (filter p nodes) ≡ any (λ n. p n && q n) nodes
any-filter_and p q [] = refl
any-filter_and p q (n ∷ rest) = ground (arith, any-filter_and p q rest)

any-and_true : (p : Node → Bool) (nodes : List Node) → any p nodes ≡ any (λ n. p n && true) nodes
any-and_true p [] = refl
any-and_true p (n ∷ rest) = ground (arith, any-and_true p rest)

is_empty-candidates :
    (s : Scores) (required : List String) (nodes : List Node)
    → not (is_empty (candidates s required nodes)) ≡ any (serves s required) nodes
unfolding candidates
is_empty-candidates s [] nodes = is_empty-filter (is_open s) nodes ∙ any-and_true (is_open s) nodes
is_empty-candidates s (c ∷ cs) nodes =
    let able : Node → Bool = λ n. all (λ k. member k n.capabilities) (c ∷ cs) in
    is_empty-filter able (filter (is_open s) nodes) ∙ any-filter_and (is_open s) able nodes

is_empty-pool : (s : Scores) (found : List Node) → is_empty (pool s found) ≡ is_empty found
unfolding pool
is_empty-pool s [] = refl
is_empty-pool s (n ∷ rest) = elim (Bool-cases (is_empty (filter s.is_healthy (n ∷ rest)))) [
  | inl none_healthy ↦ ground arith
  | inr healthy ↦ ground arith
]

is_some-best : (s : Scores) (nodes : List Node) → is_some (best s nodes) ≡ not (is_empty nodes)
unfolding best
is_some-best s [] = refl
is_some-best s (n ∷ rest) = refl

-- A node is selected exactly when some node serves the request: one that is live, healthy enough,
-- below its capacity, not draining and with every required capability. Else the error is raised.
pub select_node-answers :
    (s : Scores) (required : List String) (nodes : List Node)
    → is_some (select_node s required nodes) ≡ any (serves s required) nodes
unfolding select_node
select_node-answers s required nodes =
    is_some-best s (pool s (candidates s required nodes))
    ∙ ap not (is_empty-pool s (candidates s required nodes))
    ∙ is_empty-candidates s required nodes
