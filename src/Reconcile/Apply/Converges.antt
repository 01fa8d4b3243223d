-- ===== src/Reconcile/Apply/Converges.antt =====
-- What the node holds after a run without errors, and that the next run finds nothing to do.
use vpn_suite.Prelude.{
  ◌≡◌, ◌≢◌, refl, ap, Bool, true, false, if◌then◌else◌, List, [], ◌∷◌, ◌++◌, Option, none, some,
  arith, ◌&&◌, not, String, ◌∙◌, ◌==◌, string_eq, eq_iff, is_some,
}
use vpn_suite.Reconcile.Peer.{PeerConfigLike, is_valid_server_allowed_ips, find_config, has_key}
use vpn_suite.Reconcile.Diff.{ReconciliationDiff, Wanted, is_replaceable}
use vpn_suite.Reconcile.Diff.Exact.{planned_add, planned_update}
use vpn_suite.Reconcile.Apply.{
  NodeRuntime, IsFaithful, no_result, Settings, remove_one, add_one, update_one, for_each,
  apply_diff, Progress, remove_orphans, write_diff,
}

snoc-ne-nil : (xs : List String) (x : String) → xs ++ (x ∷ []) ≢ []
snoc-ne-nil [] x e = cc
snoc-ne-nil (y ∷ xs) x e = cc

-- The value that a list of configurations leaves for a key.
abbrev overlay : List PeerConfigLike → String → Option String → Option String
overlay ps k old = elim (find_config k ps) [ none ↦ old | some c ↦ c.allowed_ips ]

module _ (r : NodeRuntime) (f : IsFaithful r) where
  open f use {peer_at}

  abbrev IsClean : Progress r → Type 0
  IsClean p = p.0.errors ≡ []

  -- An error is never taken back.
  remove_one-IsClean : (k : String) (p : Progress r) → IsClean (remove_one r k p) → IsClean p
  unfolding remove_one
  remove_one-IsClean k p h = grind (arith, snoc-ne-nil)

  add_one-IsClean : (c : PeerConfigLike) (p : Progress r) → IsClean (add_one r c p) → IsClean p
  unfolding add_one
  add_one-IsClean c p h = grind (arith, snoc-ne-nil)

  update_one-IsClean :
      (c : PeerConfigLike) (p : Progress r) → IsClean (update_one r c p) → IsClean p
  unfolding update_one
  update_one-IsClean c p h = grind (arith, snoc-ne-nil)

  for_each-IsClean :
      {A : Type 0} (pass : A → Progress r → Progress r)
      → ((x : A) (p : Progress r) → IsClean (pass x p) → IsClean p)
      → (xs : List A) (p : Progress r) → IsClean (for_each r pass xs p)
      → IsClean p
  unfolding for_each
  for_each-IsClean pass back [] p h = h
  for_each-IsClean pass back (x ∷ xs) p h = back x p (for_each-IsClean pass back xs (pass x p) h)

  remove_one-peer_at :
      (j : String) (p : Progress r)
      → IsClean (remove_one r j p)
      → (k : String) → peer_at (remove_one r j p).1 k ≡ (if j == k then none else peer_at p.1 k)
  unfolding remove_one
  remove_one-peer_at j p h k = grind (arith, snoc-ne-nil, f.remove_peer_drops j p.1)

  add_one-peer_at :
      (c : PeerConfigLike) (p : Progress r)
      → IsClean (add_one r c p)
      → (k : String)
      → peer_at (add_one r c p).1 k ≡ (if c.public_key == k then c.allowed_ips else peer_at p.1 k)
  unfolding add_one
  add_one-peer_at c p h k = grind (arith, snoc-ne-nil, f.add_peer_sets c p.1)

  update_one-peer_at :
      (c : PeerConfigLike) (p : Progress r)
      → IsClean (update_one r c p)
      → (k : String)
      → peer_at (update_one r c p).1 k
        ≡ (if c.public_key == k then c.allowed_ips else peer_at p.1 k)
  unfolding update_one
  update_one-peer_at c p h k = grind (
    arith,
    snoc-ne-nil,
    f.remove_peer_drops c.public_key p.1,
    f.add_peer_sets c (r.remove_peer c.public_key p.1).1,
  )

  for_each-remove :
      (keys : List String) (p : Progress r)
      → IsClean (for_each r (remove_one r) keys p)
      → (k : String)
      → peer_at (for_each r (remove_one r) keys p).1 k
        ≡ (if has_key k keys then none else peer_at p.1 k)
  unfolding for_each
  for_each-remove [] p h k = refl
  for_each-remove (j ∷ js) p h k =
      let p' = remove_one r j p in
      let first_clean = for_each-IsClean (remove_one r) remove_one-IsClean js p' h in
      ground (arith, for_each-remove js p' h k, remove_one-peer_at j p first_clean k)

  -- Additions and updates: each pass sets the value of its key.
  for_each-set :
      (pass : PeerConfigLike → Progress r → Progress r)
      → ((c : PeerConfigLike) (p : Progress r) → IsClean (pass c p) → IsClean p)
      → ((c : PeerConfigLike) (p : Progress r)
          → IsClean (pass c p)
          → (k : String)
          → peer_at (pass c p).1 k ≡ (if c.public_key == k then c.allowed_ips else peer_at p.1 k))
      → (cs : List PeerConfigLike) (p : Progress r) → IsClean (for_each r pass cs p)
      → (k : String) → peer_at (for_each r pass cs p).1 k ≡ overlay cs k (peer_at p.1 k)
  unfolding for_each
  for_each-set pass back sets [] p h k = refl
  for_each-set pass back sets (c ∷ cs) p h k =
      let p' = pass c p in
      let first_clean = for_each-IsClean pass back cs p' h in
      ground (arith, for_each-set pass back sets cs p' h k, sets c p first_clean k)

  remove_orphans-peer_at :
      (settings : Settings) (keys : List String) (p : Progress r)
      → settings.reconciliation_remove_orphans ≡ true
      → IsClean (remove_orphans r settings keys p)
      → (k : String)
      → peer_at (remove_orphans r settings keys p).1 k
        ≡ (if has_key k keys then none else peer_at p.1 k)
  unfolding remove_orphans
  remove_orphans-peer_at settings keys p on clean k =
      rw on (for_each-remove keys p (rw on at clean) k)

  write_diff-peer_at :
      (settings : Settings) (d : ReconciliationDiff) (s : r.State)
      → settings.reconciliation_remove_orphans ≡ true
      → IsClean (write_diff r settings d s)
      → (k : String)
      → peer_at (write_diff r settings d s).1 k
        ≡ overlay d.peers_to_update k
            (overlay d.peers_to_add k (if has_key k d.peers_to_remove then none else peer_at s k))
  unfolding write_diff
  write_diff-peer_at settings d s on clean k =
      let p₁ = remove_orphans r settings d.peers_to_remove (no_result, s) in
      let p₂ = for_each r (add_one r) d.peers_to_add p₁ in
      let clean₂ = for_each-IsClean (update_one r) update_one-IsClean d.peers_to_update p₂ clean in
      let clean₁ = for_each-IsClean (add_one r) add_one-IsClean d.peers_to_add p₁ clean₂ in
      for_each-set (update_one r) update_one-IsClean update_one-peer_at d.peers_to_update p₂ clean k
      ∙ ap (overlay d.peers_to_update k) (
          for_each-set (add_one r) add_one-IsClean add_one-peer_at d.peers_to_add p₁ clean₂ k
          ∙ ap (overlay d.peers_to_add k)
              (remove_orphans-peer_at settings d.peers_to_remove (no_result, s) on clean₁ k))

  -- After a run without errors, with orphan removal enabled and outside read-only mode, the node
  -- holds for every key what the last update says; if none, what the last addition says; if
  -- none, nothing if the key was an orphan, and else what it held before.
  pub apply_diff-peer_at :
      (settings : Settings) (d : ReconciliationDiff) (s : r.State)
      → settings.reconciliation_read_only ≡ false
      → settings.reconciliation_remove_orphans ≡ true
      → IsClean (apply_diff r settings d s)
      → (k : String)
      → peer_at (apply_diff r settings d s).1 k
        ≡ overlay d.peers_to_update k
            (overlay d.peers_to_add k (if has_key k d.peers_to_remove then none else peer_at s k))
  unfolding apply_diff
  apply_diff-peer_at settings d s live orphans clean k =
      rw live (write_diff-peer_at settings d s orphans (rw live at clean) k)

-- What a clean round leaves for a key, from the row of the database and the node's value before.
abbrev pub settled : Option Wanted → Option String → Option String
settled none on_node = none
settled (some w) none = if is_valid_server_allowed_ips w.0 then some w.0 else none
settled (some w) (some a) =
    if is_valid_server_allowed_ips w.0 && is_replaceable a w.0 then some w.0 else some a

pub overlay-planned :
    (row : Option Wanted) (on_node : Option String) (k : String)
    (added updated : Option PeerConfigLike) (removed : Bool)
    → added ≡ planned_add row on_node k
    → removed ≡ (is_some on_node && not (is_some row))
    → updated ≡ planned_update row on_node k
    → (elim updated [
      | none ↦ elim added [ none ↦ if removed then none else on_node | some c ↦ c.allowed_ips ]
      | some c ↦ c.allowed_ips
    ])
      ≡ settled row on_node
overlay-planned none on_node k added updated removed a b c = ground arith
overlay-planned (some w) none k added updated removed a b c = ground arith
overlay-planned (some w) (some v) k added updated removed a b c = ground arith

-- A settled key needs nothing more.
pub settled-planned :
    (row : Option Wanted) (on_node : Option String) (k : String)
    → (planned_add row (settled row on_node) k ≡ none)
      × ((is_some (settled row on_node) && not (is_some row)) ≡ false)
      × (planned_update row (settled row on_node) k ≡ none)
unfolding is_replaceable
settled-planned none on_node k = ground arith
settled-planned (some w) none k = ground (arith, eq_iff w.0 w.0)
settled-planned (some w) (some a) k = ground (arith, eq_iff w.0 w.0)
