-- ===== src/Tokens/OneTime.antt =====
-- `create_one_time_token` and `verify_and_consume_one_time_token`.
-- The random token is an argument, and its digest `hash` a parameter.
use vpn_suite.Prelude.{
  ℕ, ◌+◌, max, String, ◌||◌, Option, none, some, List, [], ◌∷◌, ◌++◌, ◌==◌, string_eq,
  if◌then◌else◌, is_some, ltb, member,
}

pub record OneTimeDownloadToken : Type 0 where
  pub token_hash : String
  pub device_id : String
  pub kind : String
  pub expires_at : ℕ
  pub consumed_at : Option ℕ

pub record Db : Type 0 where
  pub devices : List String
  pub tokens : List OneTimeDownloadToken

-- `OneTimeDownloadToken.token_hash == token_hash`; the column is unique.
abbrev pub find_token : String → List OneTimeDownloadToken → Option OneTimeDownloadToken
find_token h [] = none
find_token h (t ∷ ts) = if t.token_hash == h then some t else find_token h ts

-- `item.consumed_at = now`
abbrev pub consume : String → ℕ → List OneTimeDownloadToken → List OneTimeDownloadToken
consume h now [] = []
consume h now (t ∷ ts) =
    let rest = consume h now ts in
    if t.token_hash == h then record t { consumed_at = some now } ∷ ts else t ∷ rest

module _ (hash : String → String) where
  -- `none` where the device is not found.
  unfoldable pub create_one_time_token :
      ℕ → String → String → String → ℕ → Db → Option (String × Db)
  create_one_time_token now token device_id kind ttl_seconds db =
      if member device_id db.devices
      then some (
        token,
        record db {
          tokens =
              db.tokens
              ++ (record {
                token_hash = hash token;
                device_id = device_id;
                kind = kind;
                expires_at = now + max ttl_seconds 1;
                consumed_at = none;
              }
                  ∷ []);
        },
      )
      else none

  unfoldable pub verify_and_consume_one_time_token : ℕ → String → Db → Option (String × String) × Db
  verify_and_consume_one_time_token now token db =
      if token == "" then (none, db) else elim (find_token (hash token) db.tokens) [
        | none ↦ (none, db)
        | some item ↦ if is_some item.consumed_at || ltb item.expires_at now then (none, db) else (
          some (item.device_id, item.kind),
          record db { tokens = consume (hash token) now db.tokens },
        )
      ]
