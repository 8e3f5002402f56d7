-- ===== src/Plugins/Oauth2.antt =====
-- src/plugins/oauth2_auth/mod.rs: the OAuth2 plugin, its settings and its two caches. A `SystemTime` is a
-- number of milliseconds since 1970. The HTTP client and the crates serde_json, base64 and jsonwebtoken
-- are the record `Services`; a JSON value is its text.
pub mod Introspection
pub mod Jwks
pub mod Tokens
pub mod Consumers
pub mod Deciding
use ferrumgw.Common.{
  ℕ, String, Bool, true, false, List, [], ◌∷◌, Option, none, some, Result, ok, err,
}
use ferrumgw.Common.HashMap.{HashMap, insert_key}

pub data ValidationMode : Type 0 where
  introspection jwks : ValidationMode

pub record Oauth2AuthConfig : Type 0 where
  pub validation_mode : ValidationMode
  pub introspection_url : Option String
  pub introspection_client_id : Option String
  pub introspection_client_secret : Option String
  pub jwks_uri : Option String
  pub issuer : Option String
  pub audience : Option String
  pub consumer_claim_field : String
  pub use_cache : Bool
  pub cache_ttl_seconds : ℕ
  pub provider_name : String

-- `OAuth2AuthConfig::default()`
abbrev pub default_config : Oauth2AuthConfig
default_config = record {
  validation_mode = introspection;
  introspection_url = none;
  introspection_client_id = none;
  introspection_client_secret = none;
  jwks_uri = none;
  issuer = none;
  audience = none;
  consumer_claim_field = "sub";
  use_cache = true;
  cache_ttl_seconds = 300;
  provider_name = "oauth2";
}

abbrev pub Value : Type 0
Value = String

abbrev pub Claims : Type 0
Claims = HashMap Value

pub data Algorithm : Type 0 where
  rs256 rs384 rs512 : Algorithm

pub record JwksKey (DecodingKey : Type 0) : Type 0 where
  pub key_id : String
  pub algorithm : Algorithm
  pub decoding_key : DecodingKey

pub record JwksCache (DecodingKey : Type 0) : Type 0 where
  pub keys : HashMap (JwksKey DecodingKey)
  pub fetched_at : ℕ

pub record TokenCacheEntry : Type 0 where
  pub claims : Claims
  pub expires_at : ℕ

pub record Oauth2AuthPlugin (DecodingKey : Type 0) : Type 0 where
  pub config : Oauth2AuthConfig
  pub jwks_cache : HashMap (JwksCache DecodingKey)
  pub token_cache : HashMap TokenCacheEntry

-- A response whose body was read and parsed as JSON.
pub record HttpResponse (Error : Type 0) : Type 0 where
  pub status : ℕ
  pub body : Result Error Value

-- What a token is checked against.
pub record Validation : Type 0 where
  pub algorithm : Algorithm
  pub issuer : Option (List String)
  pub audience : Option (List String)

-- `post` sends a form and `fetch` gets a document. The functions of JSON are those of `Value` with `get`
-- for a member; `as_number` is the text of a number. `decode_base64` is that of `URL_SAFE_NO_PAD` with
-- the parse of what it decodes to, and `decode` checks a token and returns its claims.
pub record Services (DecodingKey Error : Type 0) : Type 0 where
  pub post : String → List (String × String) → Result Error (HttpResponse Error)
  pub fetch : String → Result Error (HttpResponse Error)
  pub get : Value → String → Option Value
  pub as_str : Value → Option String
  pub as_number : Value → Option String
  pub as_bool : Value → Option Bool
  pub as_u64 : Value → Option ℕ
  pub as_array : Value → Option (List Value)
  pub as_object : Value → Option (List (String × Value))
  pub decode_base64 : String → Result Error Value
  pub from_rsa_components : String → String → Result Error DecodingKey
  pub decode : String → DecodingKey → Validation → Result Error Value

-- The errors of the plugin; `caused_by` is one of its services.
pub data Failure (Error : Type 0) : Type 0 where
  caused_by : Error → Failure Error
  introspection_url_required jwks_uri_not_configured : Failure Error
  introspection_failed jwks_failed : ℕ → Failure Error
  invalid_jwt no_key_id unsupported_algorithm : Failure Error
  missing_keys no_valid_keys no_matching_key : Failure Error

-- A call that returns, or one that waits for ever.
pub data Outcome (A : Type 0) : Type 0 where
  returns : A → Outcome A
  blocks : Outcome A

abbrev pub fresh_plugin : {DecodingKey : Type 0} → Oauth2AuthConfig → Oauth2AuthPlugin DecodingKey
fresh_plugin config = record { config = config; jwks_cache = []; token_cache = [] }

module _ {DecodingKey Error : Type 0} where
  abbrev pub required :
      Option String
      → Failure Error
      → Oauth2AuthConfig
      → Result (Failure Error) (Oauth2AuthPlugin DecodingKey)
  required (some url) e config = ok (fresh_plugin config)
  required none e config = err e

  abbrev pub validated_config :
      Oauth2AuthConfig → Result (Failure Error) (Oauth2AuthPlugin DecodingKey)
  validated_config config = elim config.validation_mode [
    | introspection ↦ required config.introspection_url introspection_url_required config
    | jwks ↦ required config.jwks_uri jwks_uri_not_configured config
  ]

  -- `OAuth2AuthPlugin::new`, from the settings as serde reads them.
  abbrev pub new_plugin :
      Result Error Oauth2AuthConfig → Result (Failure Error) (Oauth2AuthPlugin DecodingKey)
  new_plugin (ok config) = validated_config config
  new_plugin (err e) = validated_config default_config

-- The loop that inserts the members of an object.
abbrev pub insert_members : List (String × Value) → Claims → Claims
insert_members [] claims = claims
insert_members ((key, value) ∷ members) claims =
    insert_members members (insert_key key value claims)

abbrev pub claims_of_members : Option (List (String × Value)) → Claims
claims_of_members none = []
claims_of_members (some members) = insert_members members []

abbrev pub unwrap_or : {A : Type 0} → A → Option A → A
unwrap_or d none = d
unwrap_or d (some a) = a

abbrev pub and_then : {A B : Type 0} → Option A → (A → Option B) → Option B
and_then none f = none
and_then (some a) f = f a
