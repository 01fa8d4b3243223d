-- ===== src/Issue/Key/Sources.antt =====
-- Where the key of a server comes from.
use vpn_suite.Prelude.{
  ◌+◌, all, any, not, ◌||◌, err, ℕ, String, Bool, true, false, Option, none, some, List, [], ◌∷◌,
  ◌==◌, string_eq, leb, Dict, ok, ◌≡◌, ◌⊎◌, text_length,
}
use vpn_suite.Issue.Key.{Beat, LiveKeyResult, key_of}

-- Some heartbeat under the result's name holds the result's key.
abbrev pub IsSent : LiveKeyResult → Dict String Beat → Type 0
IsSent r [] = ⊥
IsSent r ((id, b) ∷ beats) =
    ((id ≡ r.node_id) × (key_of b ≡ ok (some r.public_key))) ⊎ IsSent r beats

-- A heartbeat holds a key of at least 43 characters.
abbrev pub has_long_key : Beat → Bool
has_long_key b = elim (key_of b) [
  | err e ↦ false
  | ok found ↦ elim found [ none ↦ false | some k ↦ leb 43 (text_length k) ]
]

-- Every heartbeat with such a key is one of the candidates, by its name.
abbrev are_listed : List LiveKeyResult → Dict String Beat → Bool
are_listed cs beats = all (λ e. not (has_long_key e.1) || any (λ c. c.node_id == e.0) cs) beats

-- The candidates have keys of 43 characters or more, and no other heartbeat has one.
abbrev AreLong : Dict String Beat → List LiveKeyResult → Type 0
AreLong beats cs =
    (all (λ c. leb 43 (text_length c.public_key)) cs ≡ true) × (are_listed cs beats ≡ true)

-- A key of the database is not older than an hour, if it is known when it was synced.
abbrev pub is_recent : ℕ → Option ℕ → Bool
is_recent now none = true
is_recent now (some synced) = leb now (synced + 3600)

-- The heartbeat is the only one with a key of at least 43 characters.
abbrev pub IsAlone : LiveKeyResult → Dict String Beat → Type 0
IsAlone r beats =
    (leb 43 (text_length r.public_key) ≡ true)
    × (all (λ e. not (has_long_key e.1) || r.node_id == e.0) beats ≡ true)
