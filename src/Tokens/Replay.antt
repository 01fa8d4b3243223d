-- ===== src/Tokens/Replay.antt =====
-- A kept answer is given back to the same key, and to no other.
use vpn_suite.Prelude.{
  ℕ, max, String, true, Option, some, ◌≡◌, ◌≢◌, arith, ◌==◌, string_eq, eq_iff, if◌then◌else◌,
  is_truthy, ==_refl,
}
use vpn_suite.Tokens.Idempotency.{
  KeyValue, Json, normalize_key, ttl_of, cache_key, decode, get_cached_idempotency_response,
  store_idempotency_response,
}

-- What a store does before the time to live is over, if the write returns: the written key answers
-- what was written, every other key what it did.
pub record IsStore (kv : KeyValue) : Type 0 where
  pub get-setex :
      (k i : String) (ttl : ℕ) (v : String) (s : kv.State)
      → (kv.setex k ttl v s).0 ≡ true
      → kv.get i (kv.setex k ttl v s).1 ≡ (if k == i then some (some v) else kv.get i s)

-- Answers are encoded as a text that is not empty and decodes to the same value.
pub record IsEncoding (j : Json) : Type 0 where
  pub loads-dumps : (v : j.Value) → j.loads (j.dumps v) ≡ some v
  pub dumps_some : (v : j.Value) → is_truthy (j.dumps v) ≡ true
  pub response_is : (n : ℕ) (b : j.Body) → j.is_response (j.response n b) ≡ true

module _ (kv : KeyValue) (j : Json) (sha : String → String) (ks : IsStore kv)
    (js : IsEncoding j) where
  decode-dumps :
      (n : ℕ) (b : j.Body) → decode kv j sha (j.dumps (j.response n b)) ≡ some (j.response n b)
  unfolding decode
  decode-dumps n b =
      ground
        (arith, js.loads-dumps (j.response n b), js.dumps_some (j.response n b), js.response_is n b)

  -- An answer that was stored under a key that is not blank is what a request with that key, or with
  -- one that is the same once trimmed and cut to 256 characters, gets for that scope and resource
  -- until its time to live is over, whatever the store held before; the write has returned.
  pub stored_answer_replays :
      (scope resource_id : String) (raw raw' : Option String) (key : String) (body : j.Body)
      (status_code : ℕ) (ttl : Option ℕ) (setting : ℕ) (s : kv.State)
      → normalize_key raw ≡ some key
      → normalize_key raw' ≡ some key
      → (kv.setex
          (cache_key kv j sha scope resource_id key)
          (max 1 (ttl_of ttl setting))
          (j.dumps (j.response status_code body))
          s).0
        ≡ true
      → let s' =
          store_idempotency_response kv j sha scope resource_id raw body status_code ttl setting
            s in
        get_cached_idempotency_response kv j sha scope resource_id raw' s'
        ≡ some (j.response status_code body)
  unfolding get_cached_idempotency_response store_idempotency_response
  stored_answer_replays scope resource_id raw raw' key body status_code ttl setting s n n' wrote =
      let k = cache_key kv j sha scope resource_id key in
      let v = j.dumps (j.response status_code body) in
      ground (
        arith,
        ks.get-setex k k (max 1 (ttl_of ttl setting)) v s wrote,
        ==_refl k,
        decode-dumps status_code body,
      )

  -- A stored answer does not show under another cache key.
  pub stored_answer_apart :
      (scope resource_id scope' resource' : String) (raw other : Option String) (key key' : String)
      (body : j.Body) (status_code : ℕ) (ttl : Option ℕ) (setting : ℕ) (s : kv.State)
      → normalize_key raw ≡ some key
      → normalize_key other ≡ some key'
      → cache_key kv j sha scope resource_id key ≢ cache_key kv j sha scope' resource' key'
      → (kv.setex
          (cache_key kv j sha scope resource_id key)
          (max 1 (ttl_of ttl setting))
          (j.dumps (j.response status_code body))
          s).0
        ≡ true
      → let s' =
          store_idempotency_response kv j sha scope resource_id raw body status_code ttl setting
            s in
        get_cached_idempotency_response kv j sha scope' resource' other s'
        ≡ get_cached_idempotency_response kv j sha scope' resource' other s
  unfolding get_cached_idempotency_response store_idempotency_response
  stored_answer_apart scope resource_id scope' resource' raw other key key' body status_code ttl
        setting s n n' apart wrote =
      let k = cache_key kv j sha scope resource_id key in
      let k' = cache_key kv j sha scope' resource' key' in
      let v = j.dumps (j.response status_code body) in
      ground (arith, ks.get-setex k k' (max 1 (ttl_of ttl setting)) v s wrote, eq_iff k k')
