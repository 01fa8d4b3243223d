-- ===== src/Alerts/Tracks.antt =====
-- The open alerts of the visited hosts follow the active rules; the alerts of other hosts stay.
use vpn_suite.Prelude.{
  ℕ, String, Bool, true, false, not, ◌&&◌, ◌||◌, List, [], ◌∷◌, ◌++◌, ◌==◌, string_eq, is_empty,
  ◌≡◌, refl, arith, eq_iff, member, any, any-append, any-filter, Bool-cases, inl, inr, ◌∙◌, All,
}
use vpn_suite.Alerts.Rules.{Rule, Settings, fingerprint}
use vpn_suite.Alerts.Engine.{
  Alert, is_queried, is_open, change_last, seen, new_alert, Pass, set_add, rule_step, rule_loop,
  resolve_stale, is_kept, cleanup_resolved, evaluate_rules,
}

module _ (hosts : List String) where
  -- No two queried rows share a fingerprint.
  abbrev pub HasUniqueOpen : List Alert → Type 0
  HasUniqueOpen [] = Unit
  HasUniqueOpen (a ∷ rest) =
      (is_queried hosts a ≡ true → any (is_open hosts a.fingerprint) rest ≡ false)
      × HasUniqueOpen rest

  is_open-seen :
      (now : ℕ) (r : Rule) (k : String) (a : Alert)
      → is_open hosts k (seen now r a) ≡ is_open hosts k a
  unfolding is_open is_queried seen
  is_open-seen now r k a = refl

  any-change_last :
      (now : ℕ) (r : Rule) (j k : String) (rows : List Alert)
      → any (is_open hosts k) (change_last (is_open hosts j) (seen now r) rows)
        ≡ any (is_open hosts k) rows
  unfolding change_last
  any-change_last now r j k [] = refl
  any-change_last now r j k (a ∷ rest) =
      ground (arith, is_open-seen now r k a, any-change_last now r j k rest)

  HasUniqueOpen-seen :
      (now : ℕ) (r : Rule) (a : Alert) (rest : List Alert)
      → HasUniqueOpen (a ∷ rest)
      → HasUniqueOpen (seen now r a ∷ rest)
  unfolding is_queried seen
  HasUniqueOpen-seen now r a rest u = u

  change_last-HasUniqueOpen :
      (now : ℕ) (r : Rule) (j : String) (rows : List Alert)
      → HasUniqueOpen rows
      → HasUniqueOpen (change_last (is_open hosts j) (seen now r) rows)
  unfolding change_last
  change_last-HasUniqueOpen now r j [] u = tt
  change_last-HasUniqueOpen now r j (a ∷ rest) u =
      elim (Bool-cases (is_open hosts j a && not (any (is_open hosts j) rest))) [
        | inl last ↦ rw last (HasUniqueOpen-seen now r a rest u)
        | inr other ↦ rw other (
          (λ q. any-change_last now r j a.fingerprint rest ∙ u.0 q),
          change_last-HasUniqueOpen now r j rest u.1,
        )
      ]

  -- Resolving the stale rows leaves the active ones open.
  any-resolve_stale :
      (now : ℕ) (active : List String) (k : String) (rows : List Alert)
      → HasUniqueOpen rows
      → any (is_open hosts k) (resolve_stale now hosts active rows)
        ≡ (any (is_open hosts k) rows && member k active)
  unfolding resolve_stale is_open is_queried
  any-resolve_stale now active k [] u = refl
  any-resolve_stale now active k (a ∷ rest) u =
      ground (arith, eq_iff a.fingerprint k, u.0, any-resolve_stale now active k rest u.1)

  is_open-is_kept :
      (settings : Settings) (now : ℕ) (k : String) (a : Alert)
      → is_open hosts k a ≡ true
      → is_kept settings now a ≡ true
  unfolding is_open is_queried is_kept
  is_open-is_kept settings now k a h = ground arith

  pub any-is_kept :
      (settings : Settings) (now : ℕ) (k : String) (rows : List Alert)
      → any (is_open hosts k) (cleanup_resolved settings now rows) ≡ any (is_open hosts k) rows
  any-is_kept settings now k rows =
      any-filter (is_open hosts k) (is_kept settings now) rows (is_open-is_kept settings now k)

-- Some rule has the fingerprint.
abbrev pub is_active_rule : (String → String) → String → List Rule → Bool
is_active_rule sha k [] = false
is_active_rule sha k (r ∷ rs) = fingerprint sha r == k || is_active_rule sha k rs

-- Every rule is about a visited host.
abbrev pub AreOf : List String → List Rule → Type 0
AreOf hosts rules = All (λ (r : Rule). member r.host_id hosts ≡ true) rules

member-set_add :
    (j k : String) (ks : List String) → member k (set_add j ks) ≡ (j == k || member k ks)
member-set_add j k ks = ground (arith, eq_iff j k)

module _ (sha : String → String) (now : ℕ) (hosts : List String) where
  is_open-new_alert :
      (j k : String) (r : Rule)
      → member r.host_id hosts ≡ true
      → is_open hosts k (new_alert now j r) ≡ (j == k)
  unfolding is_open is_queried new_alert
  is_open-new_alert j k r h = ground arith

  rule_loop-active :
      (k : String) (rules : List Rule) (p : Pass)
      → member k (rule_loop sha now hosts rules p).active
        ≡ (is_active_rule sha k rules || member k p.active)
  unfolding rule_loop rule_step
  rule_loop-active k [] p = refl
  rule_loop-active k (r ∷ rs) p =
      rule_loop-active k rs (rule_step sha now hosts r p)
      ∙ ground (arith, member-set_add (fingerprint sha r) k p.active)

  rule_loop-present :
      (k : String) (rules : List Rule) (p : Pass)
      → any (is_open hosts k) (rule_loop sha now hosts rules p).present
        ≡ any (is_open hosts k) p.present
  unfolding rule_loop rule_step
  rule_loop-present k [] p = refl
  rule_loop-present k (r ∷ rs) p =
      rule_loop-present k rs (rule_step sha now hosts r p)
      ∙ ground (arith, any-change_last hosts now r (fingerprint sha r) k p.present)

  rule_loop-added :
      (k : String) (rules : List Rule) (p : Pass)
      → AreOf hosts rules
      → any (is_open hosts k) (rule_loop sha now hosts rules p).added ≡ (
          (is_active_rule sha k rules && not (any (is_open hosts k) p.present))
          || any (is_open hosts k) p.added)
  unfolding rule_loop rule_step
  rule_loop-added k [] p h = refl
  rule_loop-added k (r ∷ rs) p h =
      let j = fingerprint sha r in
      rule_loop-added k rs (rule_step sha now hosts r p) h.1
      ∙ ground (
        arith,
        eq_iff j k,
        any-change_last hosts now r j k p.present,
        any-append (is_open hosts k) p.added (new_alert now j r ∷ []),
        is_open-new_alert j k r h.0,
      )

  rule_loop-HasUniqueOpen :
      (rules : List Rule) (p : Pass)
      → HasUniqueOpen hosts p.present
      → HasUniqueOpen hosts (rule_loop sha now hosts rules p).present
  unfolding rule_loop
  rule_loop-HasUniqueOpen [] p u = u
  rule_loop-HasUniqueOpen (r ∷ rs) p u =
      rule_loop-HasUniqueOpen rs (rule_step sha now hosts r p) (one r p u)
    where
      one :
          (r : Rule) (p : Pass)
          → HasUniqueOpen hosts p.present
          → HasUniqueOpen hosts (rule_step sha now hosts r p).present
      one r p u = elim (Bool-cases (any (is_open hosts (fingerprint sha r)) p.present)) [
        | inl known ↦
            rw (rule_step, known)
              (change_last-HasUniqueOpen hosts now r (fingerprint sha r) p.present u)
        | inr unknown ↦ rw (rule_step, unknown) u
      ]

  -- What the pass leaves open on the visited hosts, once rules and hosts are known.
  pub evaluate_rules-open :
      (settings : Settings) (rules : List Rule) (rows : List Alert) (k : String)
      → is_empty hosts ≡ false
      → AreOf hosts rules
      → HasUniqueOpen hosts rows
      → any (is_open hosts k) (evaluate_rules sha settings now (rules, hosts) rows).1
        ≡ is_active_rule sha k rules
  unfolding evaluate_rules
  evaluate_rules-open settings rules rows k some_host of unique =
      let start : Pass = record { present = rows; added = []; active = [] } in
      let p = rule_loop sha now hosts rules start in
      let stale = resolve_stale now hosts p.active p.present in
      ground (
        arith,
        any-is_kept hosts settings now k (stale ++ p.added),
        any-append (is_open hosts k) stale p.added,
        any-resolve_stale hosts now p.active k p.present
            (rule_loop-HasUniqueOpen rules start unique),
        rule_loop-active k rules start,
        rule_loop-present k rules start,
        rule_loop-added k rules start of,
      )
