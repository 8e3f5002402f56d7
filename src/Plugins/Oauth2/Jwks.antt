-- ===== src/Plugins/Oauth2/Jwks.antt =====
-- src/plugins/oauth2_auth/mod.rs: `validate_token_jwks` and `fetch_jwks`. The branch that takes the key from
-- the cache once more is left out: `should_fetch_jwks` is true wherever its block yields a value.
pub mod Padding
use Prim.Native.String.{◌++◌ as append, len}
use ferrumgw.Common.{
  ℕ, ◌-◌, ◌*◌, ◌%◌, String, Bool, true, false, List, [], ◌∷◌, Option, none, some, Result, ok, err,
  ltb, is_empty, ◌==◌, string_eq, nat_eq, ◌>>=◌, split_on, if◌then◌else◌,
}
use ferrumgw.Common.HashMap.{HashMap, get_key, insert_key}
use ferrumgw.Plugins.Oauth2.{
  Oauth2AuthConfig, Value, Claims, Algorithm, rs256, rs384, rs512, JwksKey, JwksCache, HttpResponse,
  Validation, Services, Failure, caused_by, jwks_uri_not_configured, jwks_failed, invalid_jwt,
  no_key_id, unsupported_algorithm, missing_keys, no_valid_keys, no_matching_key, claims_of_members,
  unwrap_or, and_then,
}

-- `==` of `Algorithm`.
abbrev same_algorithm : Algorithm → Algorithm → Bool
same_algorithm rs256 rs256 = true
same_algorithm rs384 rs384 = true
same_algorithm rs512 rs512 = true
same_algorithm _ _ = false

abbrev parse_algorithm : String → Option Algorithm
parse_algorithm alg =
    if alg == "RS256"
    then some rs256
    else if alg == "RS384"
    then some rs384
    else if alg == "RS512"
    then some rs512
    else none

abbrev pub padding : ℕ → String
padding n =
    if n % 4 == 0 then "" else if n % 4 == 1 then "===" else if n % 4 == 2 then "==" else "="

-- The first of three parts.
abbrev pub header_part : {Error : Type 0} → String × List String → Result (Failure Error) String
header_part (header, _ ∷ _ ∷ []) = ok header
header_part parts = err invalid_jwt

module _ {DecodingKey Error : Type 0} (S : Services DecodingKey Error) where
  abbrev text_member : Value → String → Option String
  text_member v name = and_then (S.get v name) S.as_str

  abbrev algorithm_of : Value → Option Algorithm
  algorithm_of v = parse_algorithm (unwrap_or "RS256" (text_member v "alg"))

  -- The key that a document describes; `none` where the loop goes on with the next.
  abbrev decoding_key_of :
      Result Error DecodingKey → String → Algorithm → Option (JwksKey DecodingKey)
  decoding_key_of (ok key) kid algorithm =
      some (record { key_id = kid; algorithm = algorithm; decoding_key = key })
  decoding_key_of (err e) kid algorithm = none

  abbrev rsa_key : Value → String → Algorithm → Option (JwksKey DecodingKey)
  rsa_key v kid algorithm =
      if unwrap_or "" (text_member v "kty") == "RSA"
      then and_then (text_member v "n") (λ n.
        and_then (text_member v "e")
          (λ e. decoding_key_of (S.from_rsa_components n e) kid algorithm))
      else none

  abbrev pub key_of : Value → Option (JwksKey DecodingKey)
  key_of v = and_then (text_member v "kid") (λ kid. and_then (algorithm_of v) (rsa_key v kid))

  abbrev insert_parsed :
      Option (JwksKey DecodingKey) → HashMap (JwksKey DecodingKey) → HashMap (JwksKey DecodingKey)
  insert_parsed none keys = keys
  insert_parsed (some key) keys = insert_key key.key_id key keys

  abbrev pub parse_keys : List Value → HashMap (JwksKey DecodingKey) → HashMap (JwksKey DecodingKey)
  parse_keys [] keys = keys
  parse_keys (v ∷ vs) keys = parse_keys vs (insert_parsed (key_of v) keys)

  abbrev Fetched : Type 0
  Fetched = Result (Failure Error) (HashMap (JwksKey DecodingKey))

  abbrev some_keys : HashMap (JwksKey DecodingKey) → Fetched
  some_keys keys = if is_empty keys then err no_valid_keys else ok keys

  abbrev keys_of : Option (List Value) → Fetched
  keys_of none = err missing_keys
  keys_of (some values) = some_keys (parse_keys values [])

  abbrev read_document : Result Error Value → Fetched
  read_document (err e) = err (caused_by e)
  read_document (ok document) = keys_of (and_then (S.get document "keys") S.as_array)

  abbrev read_jwks : Result Error (HttpResponse Error) → Fetched
  read_jwks (err e) = err (caused_by e)
  read_jwks (ok response) =
      if response.status == 200
      then read_document response.body
      else err (jwks_failed response.status)

  unfoldable pub fetch_jwks : String → Fetched
  fetch_jwks jwks_uri = read_jwks (S.fetch jwks_uri)

  abbrev checked_claims : Result Error Value → Option Claims
  checked_claims (ok claims) = some (claims_of_members (S.as_object claims))
  checked_claims (err e) = none

  abbrev singleton_of : Option String → Option (List String)
  singleton_of value = and_then value (λ text. some (text ∷ []))

  unfoldable pub validate_token_with_key :
      Oauth2AuthConfig → String → DecodingKey → Algorithm → Option Claims
  validate_token_with_key config token key algorithm = checked_claims (
      S.decode token key (record {
        algorithm = algorithm;
        issuer = singleton_of config.issuer;
        audience = singleton_of config.audience;
      }))

  -- The key identifier and the algorithm that the header of a token names.
  abbrev named_algorithm : String → Option Algorithm → Result (Failure Error) (String × Algorithm)
  named_algorithm kid (some algorithm) = ok (kid, algorithm)
  named_algorithm kid none = err unsupported_algorithm

  abbrev named_key : Value → Option String → Result (Failure Error) (String × Algorithm)
  named_key header (some kid) = named_algorithm kid (algorithm_of header)
  named_key header none = err no_key_id

  abbrev read_header : Result Error Value → Result (Failure Error) (String × Algorithm)
  read_header (ok header) = named_key header (text_member header "kid")
  read_header (err e) = err (caused_by e)

  abbrev pub header_of : String → Result (Failure Error) (String × Algorithm)
  header_of token = header_part (split_on 46 token) >>= λ header.
      read_header (S.decode_base64 (append header (padding (len header))))

  abbrev key_with : Algorithm → JwksKey DecodingKey → Option DecodingKey
  key_with algorithm key =
      if same_algorithm key.algorithm algorithm then some key.decoding_key else none

  -- The key of a cache that is not older than a day. A clock that was set back makes an age of 0.
  abbrev key_in_cache : ℕ → String → Algorithm → JwksCache DecodingKey → Option DecodingKey
  key_in_cache now kid algorithm cache =
      if ltb (86400 * 1000) (now - cache.fetched_at)
      then none
      else and_then (get_key cache.keys kid) (key_with algorithm)

  abbrev Checked : Type 0
  Checked = HashMap (JwksCache DecodingKey) × Result (Failure Error) (Option Claims)

  abbrev with_fetched :
      Oauth2AuthConfig
      → HashMap (JwksCache DecodingKey)
      → String
      → String
      → Algorithm
      → ℕ
      → HashMap (JwksKey DecodingKey)
      → Option (JwksKey DecodingKey)
      → Checked
  with_fetched config caches jwks_uri token algorithm later keys none =
      (caches, err no_matching_key)
  with_fetched config caches jwks_uri token algorithm later keys (some key) = (
    insert_key jwks_uri (record { keys = keys; fetched_at = later }) caches,
    ok (validate_token_with_key config token key.decoding_key algorithm),
  )

  abbrev with_jwks :
      Oauth2AuthConfig
      → HashMap (JwksCache DecodingKey)
      → String
      → String
      → String × Algorithm
      → ℕ
      → Fetched
      → Checked
  with_jwks config caches jwks_uri token named later (err e) = (caches, err e)
  with_jwks config caches jwks_uri token (kid, algorithm) later (ok keys) =
      with_fetched config caches jwks_uri token algorithm later keys (get_key keys kid)

  abbrev with_cached :
      Oauth2AuthConfig
      → HashMap (JwksCache DecodingKey)
      → String
      → String
      → String × Algorithm
      → ℕ
      → Option DecodingKey
      → Checked
  with_cached config caches jwks_uri token (kid, algorithm) later (some key) =
      (caches, ok (validate_token_with_key config token key algorithm))
  with_cached config caches jwks_uri token named later none =
      with_jwks config caches jwks_uri token named later (fetch_jwks jwks_uri)

  abbrev with_header :
      Oauth2AuthConfig
      → HashMap (JwksCache DecodingKey)
      → String
      → String
      → ℕ
      → ℕ
      → Result (Failure Error) (String × Algorithm)
      → Checked
  with_header config caches jwks_uri token now later (err e) = (caches, err e)
  with_header config caches jwks_uri token now later (ok (kid, algorithm)) =
      with_cached config caches jwks_uri token (kid, algorithm) later
        (and_then (get_key caches jwks_uri) (key_in_cache now kid algorithm))

  -- The cache of keys afterwards, and the answer. `now` is the time of the look at the cache, `later` that
  -- of the answer from the network.
  unfoldable pub validate_token_jwks :
      Oauth2AuthConfig → HashMap (JwksCache DecodingKey) → String → ℕ → ℕ → Checked
  validate_token_jwks config caches token now later = elim config.jwks_uri [
    | some jwks_uri ↦ with_header config caches jwks_uri token now later (header_of token)
    | none ↦ (caches, err jwks_uri_not_configured)
  ]
