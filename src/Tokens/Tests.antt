-- ===== src/Tokens/Tests.antt =====
-- A download link, and an answer that is kept.
use vpn_suite.Prelude.{
  String, Bool, true, false, Option, none, some, [], ◌∷◌, ◌≡◌, refl, arith, ◌==◌, string_eq,
  if◌then◌else◌, eq_iff, strip, is_truthy, text_length,
}
use vpn_suite.Tokens.OneTime.{Db, create_one_time_token, verify_and_consume_one_time_token}
use vpn_suite.Tokens.Once.{token_opens_then_never}
use vpn_suite.Tokens.Idempotency.{
  KeyValue, Json, normalize_key, get_cached_idempotency_response, store_idempotency_response,
}
use vpn_suite.Tokens.Replay.{IsStore, IsEncoding, stored_answer_replays}

abbrev plain : String → String
plain s = s

abbrev before : Db
before = record { devices = "d1" ∷ []; tokens = [] }

abbrev made : Db
made = record {
  devices = "d1" ∷ [];
  tokens =
      record {
        token_hash = "secret";
        device_id = "d1";
        kind = "awg_conf";
        expires_at = 700;
        consumed_at = none;
      }
      ∷ [];
}

token_opens_then_never_example :
    let after = (verify_and_consume_one_time_token plain 700 "secret" made).1 in
    ((verify_and_consume_one_time_token plain 700 "secret" made).0 ≡ some ("d1", "awg_conf"))
    × (verify_and_consume_one_time_token plain 701 "secret" after ≡ (none, after))
unfolding create_one_time_token
token_opens_then_never_example =
    token_opens_then_never plain 100 700 701 "secret" "d1" "awg_conf" 600 before made "secret"
      (ground (arith, eq_iff "secret" "")) refl refl (omega arith)

abbrev cache : KeyValue
cache = record {
  State = String → Option String;
  get = λ k s. some (s k);
  setex = λ k ttl v s. (true, λ i. if k == i then some v else s i);
}

cache-IsStore : IsStore cache
cache-IsStore = record { get-setex = λ k i ttl v s h. ground arith }

-- Answers that are `true` or `false`.
abbrev write : Bool → String
write true = "true"
write false = "false"

abbrev flags : Json
flags = record {
  Value = Bool;
  Body = Bool;
  response = λ n b. b;
  dumps = write;
  loads = λ t. if t == "true" then some true else if t == "false" then some false else none;
  is_response = λ v. true;
}

loads-write : (v : Bool) → (flags.loads (write v) ≡ some v) × (is_truthy (write v) ≡ true)
unfolding is_truthy
loads-write true = (refl, refl)
loads-write false = (refl, refl)

flags-IsEncoding : IsEncoding flags
flags-IsEncoding = record {
  loads-dumps = λ v. (loads-write v).0;
  dumps_some = λ v. (loads-write v).1;
  response_is = λ n b. refl;
}

stored_answer_replays_example :
    let after =
      store_idempotency_response cache flags plain "issue" "s1"
        (some " key ")
        true
        200
        none
        0
        (λ k. none) in
    get_cached_idempotency_response cache flags plain "issue" "s1" (some "key") after ≡ some true
unfolding normalize_key strip is_truthy text_length
stored_answer_replays_example =
    stored_answer_replays cache flags plain cache-IsStore flags-IsEncoding "issue" "s1"
      (some " key ") (some "key") "key" true 200 none 0 (λ k. none) refl refl refl
