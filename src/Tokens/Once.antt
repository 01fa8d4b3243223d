-- ===== src/Tokens/Once.antt =====
-- A token opens what it was made for, once and in time.
use vpn_suite.Prelude.{
  ℕ, ◌+◌, ◌≤◌, max, String, true, none, some, List, [], ◌∷◌, ◌++◌, ◌==◌, string_eq, ◌≡◌, ◌≢◌, arith,
  eq_iff, ==_refl, Option-cases, inl, inr,
}
use vpn_suite.Tokens.OneTime.{
  OneTimeDownloadToken, Db, find_token, consume, create_one_time_token,
  verify_and_consume_one_time_token,
}

find_token-append :
    (h : String) (ts : List OneTimeDownloadToken) (t : OneTimeDownloadToken)
    → find_token h ts ≡ none
    → (t.token_hash == h) ≡ true
    → find_token h (ts ++ (t ∷ [])) ≡ some t
find_token-append h [] t free own = rw own
find_token-append h (x ∷ xs) t free own = ground (arith, find_token-append h xs t)

find_token-consume :
    (h : String) (now : ℕ) (ts : List OneTimeDownloadToken) (t : OneTimeDownloadToken)
    → find_token h ts ≡ some t
    → find_token h (consume h now ts) ≡ some (record t { consumed_at = some now })
find_token-consume h now [] t there = absurd (ground arith)
find_token-consume h now (x ∷ xs) t there = ground (arith, find_token-consume h now xs t)

module _ (hash : String → String) where
  -- A token that was created for a device, and whose digest no other token has, opens that device's
  -- download of that kind until its time is up: for `ttl_seconds`, and for at least a second.
  pub created_token_opens :
      (now later : ℕ) (token device_id kind : String) (ttl_seconds : ℕ) (db db' : Db) (raw : String)
      → token ≢ ""
      → find_token (hash token) db.tokens ≡ none
      → create_one_time_token hash now token device_id kind ttl_seconds db ≡ some (raw, db')
      → later ≤ now + max ttl_seconds 1
      → (verify_and_consume_one_time_token hash later raw db').0 ≡ some (device_id, kind)
  unfolding create_one_time_token verify_and_consume_one_time_token
  created_token_opens now later token device_id kind ttl_seconds db db' raw some_text free made
        in_time =
      let row : OneTimeDownloadToken = record {
        token_hash = hash token;
        device_id = device_id;
        kind = kind;
        expires_at = now + max ttl_seconds 1;
        consumed_at = none;
      } in
      ground (
        arith,
        eq_iff token "",
        find_token-append (hash token) db.tokens row free (==_refl (hash token)),
      )

  -- A token that has opened a download opens none again, at whatever time.
  pub token_opens_once :
      (now later : ℕ) (token : String) (db : Db) (opened : String × String)
      → (verify_and_consume_one_time_token hash now token db).0 ≡ some opened
      → let db' = (verify_and_consume_one_time_token hash now token db).1 in
        verify_and_consume_one_time_token hash later token db' ≡ (none, db')
  unfolding verify_and_consume_one_time_token
  token_opens_once now later token db opened h =
      elim (Option-cases (find_token (hash token) db.tokens)) [
        | inl missing ↦ absurd (ground arith)
        | inr (t, there) ↦ ground (arith, find_token-consume (hash token) now db.tokens t there)
      ]

  -- A token that was created for a device, and whose digest no other token has, opens that device's
  -- download of that kind until its time is up, for `ttl_seconds` and at least a second; and once it
  -- has, it opens none again, at whatever time.
  pub token_opens_then_never :
      (now later again : ℕ) (token device_id kind : String) (ttl_seconds : ℕ) (db db' : Db)
      (raw : String)
      → token ≢ ""
      → find_token (hash token) db.tokens ≡ none
      → create_one_time_token hash now token device_id kind ttl_seconds db ≡ some (raw, db')
      → later ≤ now + max ttl_seconds 1
      → let db'' = (verify_and_consume_one_time_token hash later raw db').1 in
        ((verify_and_consume_one_time_token hash later raw db').0 ≡ some (device_id, kind))
        × (verify_and_consume_one_time_token hash again raw db'' ≡ (none, db''))
  token_opens_then_never now later again token device_id kind ttl_seconds db db' raw some_text free
        made in_time =
      let opened =
        created_token_opens now later token device_id kind ttl_seconds db db' raw some_text free
          made in_time in
      (opened, token_opens_once later again raw db' (device_id, kind) opened)
