-- ===== src/Tokens/Idempotency.antt =====
-- The answers kept for a key that a client sends with a request.
-- The store, the digest and the encoding of an answer are parameters.
use Prim.Native.String.{◌++◌ as text_append}
use vpn_suite.Prelude.{
  ℕ, zero, suc, max, String, Bool, Option, none, some, string_eq, if◌then◌else◌, ltb, strip,
  text_take, text_length, is_truthy,
}

-- `get` is `none` where it raises, and `some none` for a missing key; `setex` says whether it raised.
pub record KeyValue : Type 1 where
  pub State : Type 0
  pub get : String → State → Option (Option String)
  pub setex : String → ℕ → String → State → Bool × State

-- `json.dumps` and `json.loads`; `is_response` is the test that the decoded value is a dictionary
-- with a dictionary under `body`, and `response` makes such a value.
pub record Json : Type 1 where
  pub Value : Type 0
  pub Body : Type 0
  pub response : ℕ → Body → Value
  pub dumps : Value → String
  pub loads : String → Option Value
  pub is_response : Value → Bool

-- `_normalize_key`
unfoldable pub normalize_key : Option String → Option String
unfolding strip is_truthy text_length text_take
normalize_key none = none
normalize_key (some raw) =
    let key = strip raw in
    if is_truthy key
    then some (if ltb 256 (text_length key) then text_take 256 key else key)
    else none

-- `int(ttl_seconds or settings.idempotency_ttl_seconds or 86400)`, and at least 1.
abbrev pub ttl_of : Option ℕ → ℕ → ℕ
ttl_of none zero = 86400
ttl_of none (suc n) = suc n
ttl_of (some zero) zero = 86400
ttl_of (some zero) (suc n) = suc n
ttl_of (some (suc n)) setting = suc n

module _ (kv : KeyValue) (j : Json) (sha : String → String) where
  -- `_cache_key`
  unfoldable pub cache_key : String → String → String → String
  cache_key scope resource_id key =
      text_append "idempotency:action:"
        (sha (text_append scope (text_append ":" (text_append resource_id (text_append ":" key)))))

  unfoldable pub decode : String → Option j.Value
  unfolding is_truthy
  decode cached =
      if is_truthy cached
      then elim (j.loads cached) [ none ↦ none | some v ↦ if j.is_response v then some v else none ]
      else none

  unfoldable pub get_cached_idempotency_response :
      String → String → Option String → kv.State → Option j.Value
  unfolding cache_key decode normalize_key
  get_cached_idempotency_response scope resource_id raw s = elim (normalize_key raw) [
    | none ↦ none
    | some key ↦ elim (kv.get (cache_key scope resource_id key) s) [
      | none ↦ none
      | some found ↦ elim found [ none ↦ none | some cached ↦ decode cached ]
    ]
  ]

  unfoldable pub store_idempotency_response :
      String → String → Option String → j.Body → ℕ → Option ℕ → ℕ → kv.State → kv.State
  unfolding cache_key normalize_key
  store_idempotency_response scope resource_id raw body status_code ttl setting s =
      elim (normalize_key raw) [
        | none ↦ s
        | some key ↦
            (kv.setex (cache_key scope resource_id key) (max 1 (ttl_of ttl setting))
              (j.dumps (j.response status_code body)) s).1
      ]
