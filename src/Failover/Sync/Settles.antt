-- ===== src/Failover/Sync/Settles.antt =====
-- A second run on the same topology finds nothing to do.
use vpn_suite.Prelude.{
  String, Bool, true, false, not, ◌&&◌, none, some, List, [], ◌∷◌, ◌==◌, string_eq, eq_iff,
  if◌then◌else◌, any, all, ◌≡◌, refl, arith, inl, inr, Option-cases,
}
use vpn_suite.Balancer.Select.{Node}
use vpn_suite.Failover.Sync.{
  Server, find_server, set_active, is_unhealthy, is_live, sync_one, sync_server_provisioning_state,
}

find_server-set_active :
    (id j : String) (on : Bool) (rs : List Server)
    → find_server id (set_active j on rs) ≡ elim (find_server id rs) [
      | none ↦ none
      | some r ↦ if r.id == j then some (record r { is_active = on }) else some r
    ]
unfolding set_active
find_server-set_active id j on [] = refl
find_server-set_active id j on (r ∷ rs) = ground (arith, find_server-set_active id j on rs)

find_server-id :
    (id : String) (rs : List Server) (r : Server) → find_server id rs ≡ some r → r.id ≡ id
find_server-id id [] r h = absurd (ground arith)
find_server-id id (x ∷ rs) r h = ground (arith, eq_iff x.id id, find_server-id id rs r)

-- A server of another name is found as before.
set_active-apart :
    (id j : String) (on : Bool) (rs : List Server)
    → (id == j) ≡ false
    → find_server id (set_active j on rs) ≡ find_server id rs
unfolding set_active
set_active-apart id j on [] apart = refl
set_active-apart id j on (r ∷ rs) apart =
    ground (arith, eq_iff r.id j, eq_iff r.id id, eq_iff id j, set_active-apart id j on rs)

abbrev pub has_node : String → List Node → Bool
has_node id ns = any (λ m. id == m.node_id) ns

-- No two nodes of a topology have the same name.
abbrev pub HasUniqueNodes : List Node → Type 0
HasUniqueNodes [] = Unit
HasUniqueNodes (n ∷ ns) = (has_node n.node_id ns ≡ false) × HasUniqueNodes ns

module _ (is_below : Node → Bool) where
  -- A node has nothing to change in a table.
  abbrev pub is_settled : List Server → Node → Bool
  is_settled servers n = elim (find_server n.node_id servers) [
    | none ↦ true
    | some r ↦
        not (is_unhealthy is_below n && r.is_active)
        && not (not (is_unhealthy is_below n) && is_live is_below n && not r.is_active)
  ]

  sync_one-settled :
      (n : Node) (servers : List Server)
      → is_settled servers n ≡ true
      → sync_one is_below n servers ≡ (0, 0, servers)
  unfolding sync_one
  sync_one-settled n servers h = ground arith

  sync_one-settles :
      (n : Node) (servers : List Server) → is_settled (sync_one is_below n servers).2 n ≡ true
  unfolding sync_one
  sync_one-settles n servers = elim (Option-cases (find_server n.node_id servers)) [
    | inl missing ↦ ground arith
    | inr (r, found) ↦ ground (
      arith,
      find_server-id n.node_id servers r found,
      eq_iff r.id n.node_id,
      find_server-set_active n.node_id n.node_id false servers,
      find_server-set_active n.node_id n.node_id true servers,
    )
  ]

  -- Another node's turn leaves it settled.
  sync_one-keeps :
      (n m : Node) (servers : List Server)
      → (m.node_id == n.node_id) ≡ false
      → is_settled servers m ≡ true
      → is_settled (sync_one is_below n servers).2 m ≡ true
  unfolding sync_one
  sync_one-keeps n m servers apart h = ground (
    arith,
    set_active-apart m.node_id n.node_id false servers apart,
    set_active-apart m.node_id n.node_id true servers apart,
  )

  abbrev after : List Node → List Server → List Server
  after ns servers = (sync_server_provisioning_state is_below ns servers).2

  sync-keeps :
      (ns : List Node) (m : Node) (servers : List Server)
      → has_node m.node_id ns ≡ false
      → is_settled servers m ≡ true
      → is_settled (after ns servers) m ≡ true
  unfolding sync_server_provisioning_state
  sync-keeps [] m servers apart h = h
  sync-keeps (n ∷ ns) m servers apart h =
      sync-keeps ns m (sync_one is_below n servers).2 (ground arith)
        (sync_one-keeps n m servers (ground arith) h)

  all_settled :
      (ns : List Node) (servers : List Server)
      → HasUniqueNodes ns
      → all (is_settled (after ns servers)) ns ≡ true
  unfolding sync_server_provisioning_state
  all_settled [] servers u = refl
  all_settled (n ∷ ns) servers u =
      let servers' = (sync_one is_below n servers).2 in
      let first : is_settled (after ns servers') n ≡ true =
        sync-keeps ns n servers' u.0 (sync_one-settles n servers) in
      ground (arith, first, all_settled ns servers' u.1)

  settled_stays :
      (ns : List Node) (servers : List Server)
      → all (is_settled servers) ns ≡ true
      → sync_server_provisioning_state is_below ns servers ≡ (0, 0, servers)
  unfolding sync_server_provisioning_state
  settled_stays [] servers h = refl
  settled_stays (n ∷ ns) servers h =
      ground (arith, sync_one-settled n servers, settled_stays ns servers)

  -- Where the nodes of a topology have different names, a second run on it pauses and resumes no
  -- server, and leaves the table as it is.
  pub sync_again :
      (ns : List Node) (servers : List Server)
      → HasUniqueNodes ns
      → sync_server_provisioning_state is_below ns (after ns servers) ≡ (0, 0, after ns servers)
  sync_again ns servers u = settled_stays ns (after ns servers) (all_settled ns servers u)
