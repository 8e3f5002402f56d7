-- ===== src/Plugins/Oauth2/Tokens.antt =====
-- src/plugins/oauth2_auth/mod.rs: `extract_token`, `validate_token` and `cleanup_token_cache`.
pub mod Caching
pub mod Waiting
pub mod Confirmed
use Prim.Native.Char.{Char, code}
use ferrumgw.Common.{
  ℕ, ◌+◌, ◌-◌, ◌*◌, ◌^◌, String, Bool, true, false, ◌&&◌, ◌||◌, List, [], ◌∷◌, Option, none, some,
  Result, ok, err, ltb, leb, ◌==◌, string_eq, nat_eq, strip_prefix, length, retain, if◌then◌else◌,
}
use ferrumgw.Common.HashMap.{HashMap, get_key, insert_key}
use ferrumgw.Plugins.Oauth2.{
  Oauth2AuthConfig, Claims, introspection, jwks, JwksCache, TokenCacheEntry, Oauth2AuthPlugin,
  Services, Failure, Outcome, returns, blocks, and_then,
}
use ferrumgw.Plugins.Oauth2.Introspection.{validate_token_introspection}
use ferrumgw.Plugins.Oauth2.Jwks.{validate_token_jwks}

-- `trim()`, of a header that `to_str` gives: of the blanks it lets spaces and tabs through.
abbrev is_blank : Char → Bool
is_blank c = code c == 32 || code c == 9

abbrev trim_start : String → String
trim_start String.[] = String.[]
trim_start (String.◌∷◌ c s) = let rest = trim_start s in if is_blank c then rest else String.◌∷◌ c s

abbrev end_with : Char → String → String
end_with c String.[] = if is_blank c then String.[] else String.◌∷◌ c String.[]
end_with c (String.◌∷◌ d s) = String.◌∷◌ c (String.◌∷◌ d s)

abbrev trim_end : String → String
trim_end String.[] = String.[]
trim_end (String.◌∷◌ c s) = end_with c (trim_end s)

-- From the value of the header `Authorization`, if it is a text.
unfoldable pub extract_token : Option String → Option String
extract_token auth_header =
    and_then (and_then auth_header (λ value. strip_prefix value "Bearer "))
      (λ token. some (trim_end (trim_start token)))

-- When a call reads the clock: before the cache of tokens, before that of keys, after the keys were fetched
-- and at the end; and whether the random number is below one tenth.
pub record Moments : Type 0 where
  pub checked : ℕ
  pub looked_up : ℕ
  pub fetched : ℕ
  pub stored : ℕ
  pub draw : Bool

abbrev unexpired : ℕ → TokenCacheEntry → Option Claims
unexpired now entry = if ltb now entry.expires_at then some entry.claims else none

-- The claims that the cache of tokens has, if it is used.
abbrev pub cached_claims :
    {DecodingKey : Type 0} → Oauth2AuthPlugin DecodingKey → String → ℕ → Option Claims
cached_claims p token now =
    if p.config.use_cache then and_then (get_key p.token_cache token) (unexpired now) else none

-- `SystemTime::checked_add` of seconds: the seconds since 1970 are an `i64`.
abbrev checked_add : ℕ → ℕ → Option ℕ
checked_add time seconds =
    if ltb (time + seconds * 1000) (2 ^ 63 * 1000) then some (time + seconds * 1000) else none

abbrev or_now : ℕ → Option ℕ → ℕ
or_now now (some time) = time
or_now now none = now

abbrev or_ttl : Oauth2AuthConfig → ℕ → Option ℕ → ℕ
or_ttl config now (some time) = time
or_ttl config now none = or_now now (checked_add now config.cache_ttl_seconds)

-- `cleanup_token_cache`; it waits for the lock, also where its own caller holds it.
unfoldable pub cleanup_token_cache :
    Bool → ℕ → HashMap TokenCacheEntry → Outcome (HashMap TokenCacheEntry)
cleanup_token_cache locked now cache =
    if locked then blocks else returns (retain (λ entry. ltb now entry.1.expires_at) cache)

module _ {DecodingKey Error : Type 0} (S : Services DecodingKey Error) where
  abbrev pub Answer : Type 0
  Answer = Oauth2AuthPlugin DecodingKey × Result (Failure Error) (Option Claims)

  abbrev pub expires_at : Oauth2AuthConfig → ℕ → Claims → ℕ
  expires_at config now claims =
      or_ttl config now (and_then (and_then (get_key claims "exp") S.as_u64) (checked_add 0))

  abbrev with_caches :
      Oauth2AuthPlugin DecodingKey
      → HashMap (JwksCache DecodingKey) × Result (Failure Error) (Option Claims)
      → Answer
  with_caches p (caches, result) = (record p { jwks_cache = caches }, result)

  -- The provider's answer, in the configured mode.
  unfoldable pub validation_result : Oauth2AuthPlugin DecodingKey → String → Moments → Answer
  validation_result p token c = elim p.config.validation_mode [
    | introspection ↦ (p, validate_token_introspection S p.config token)
    | jwks ↦ with_caches p (validate_token_jwks S p.config p.jwks_cache token c.looked_up c.fetched)
  ]

  abbrev pub stored_token :
      Oauth2AuthPlugin DecodingKey → String → Moments → Claims → Oauth2AuthPlugin DecodingKey
  stored_token p token c claims = record p {
    token_cache =
        insert_key token
          (record { claims = claims; expires_at = expires_at p.config c.stored claims })
          p.token_cache;
  }

  abbrev cleaned :
      Oauth2AuthPlugin DecodingKey → Claims → Outcome (HashMap TokenCacheEntry) → Outcome Answer
  cleaned p claims (returns cache) = returns (record p { token_cache = cache }, ok (some claims))
  cleaned p claims blocks = blocks

  -- The lock on the cache is held from the insertion to the end.
  abbrev then_cleanup : Oauth2AuthPlugin DecodingKey → Moments → Claims → Outcome Answer
  then_cleanup p c claims =
      if ltb 100 (length p.token_cache) && c.draw
      then cleaned p claims (cleanup_token_cache true c.stored p.token_cache)
      else returns (p, ok (some claims))

  abbrev pub store : String → Moments → Answer → Outcome Answer
  store token c (p, ok (some claims)) =
      if p.config.use_cache
      then then_cleanup (stored_token p token c claims) c claims
      else returns (p, ok (some claims))
  store token c (p, result) = returns (p, result)

  abbrev pub or_validate :
      Oauth2AuthPlugin DecodingKey → String → Moments → Option Claims → Outcome Answer
  or_validate p token c (some claims) = returns (p, ok (some claims))
  or_validate p token c none = store token c (validation_result p token c)

  -- `validate_token`, where the lock on the cache of tokens can be had; an outcome that waits keeps it.
  unfoldable pub validate_token : Oauth2AuthPlugin DecodingKey → String → Moments → Outcome Answer
  validate_token p token c = or_validate p token c (cached_claims p token c.checked)

  -- The plugin that the requests share, and whether the lock on its cache of tokens is held for good.
  pub record Shared : Type 0 where
    pub plugin : Oauth2AuthPlugin DecodingKey
    pub held : Bool

  abbrev pub settled :
      Shared → Outcome Answer → Shared × Option (Result (Failure Error) (Option Claims))
  settled s (returns (p, result)) = (record s { plugin = p }, some result)
  settled s blocks = (record s { held = true }, none)

  -- `validate_token` on the shared plugin: the cache is read under its lock first, if it is used; `none` is
  -- a validation that waits for ever.
  unfoldable pub validate_shared :
      Shared → String → Moments → Shared × Option (Result (Failure Error) (Option Claims))
  validate_shared s token c =
      if s.plugin.config.use_cache && s.held
      then (s, none)
      else settled s (validate_token s.plugin token c)

  -- Validations one after the other, as far as each of them comes.
  unfoldable pub validate_all :
      List (String × Moments) → Shared → List (Option (Result (Failure Error) (Option Claims)))
  validate_all [] s = []
  validate_all ((token, c) ∷ rest) s =
      let (s', answer) = validate_shared s token c in answer ∷ validate_all rest s'
