-- ===== src/Tests/Oauth2.antt =====
-- The theorems about the OAuth2 plugin, at concrete values.
use ferrumgw.Common.{
  ℕ, zero, suc, All, ◌≡◌, refl, String, Bool, true, false, List, [], ◌∷◌, Option, none, some, ok,
  err, ltb, ◌==◌, string_eq, if◌then◌else◌,
}
use ferrumgw.Common.HashMap.{HashMap, get_key}
use ferrumgw.Config.{single, Consumer}
use ferrumgw.Plugins.Authentication.{authenticate as chain}
use ferrumgw.Plugins.Oauth2.{
  Oauth2AuthConfig, Oauth2AuthPlugin, TokenCacheEntry, default_config, fresh_plugin, jwks, Claims,
  Services, caused_by, returns, claims_of_members, and_then,
}
use ferrumgw.Plugins.Oauth2.Introspection.{validate_token_introspection}
use ferrumgw.Plugins.Oauth2.Jwks.{validate_token_jwks}
use ferrumgw.Plugins.Oauth2.Jwks.Padding.{is_padded, unaligned_header-IsRefused}
use ferrumgw.Plugins.Oauth2.Tokens.{
  Moments, extract_token, validation_result, stored_token, expires_at, store, validate_token,
  validate_all,
}
use ferrumgw.Plugins.Oauth2.Tokens.Caching.{validated_token-IsCached}
use ferrumgw.Plugins.Oauth2.Tokens.Waiting.{IsNone, cleanup_blocks_all}
use ferrumgw.Plugins.Oauth2.Tokens.Confirmed.{IsSound, validate_token-IsSound}
use ferrumgw.Plugins.Oauth2.Consumers.{find_consumer_from_claims}
use ferrumgw.Plugins.Oauth2.Consumers.Identified.{IsIdentified, find_consumer_from_claims_best}
use ferrumgw.Plugins.Oauth2.Deciding.{authenticate}
use ferrumgw.Plugins.Oauth2.Deciding.Agreeing.{claims_of, authenticate-chain}
use ferrumgw.Tests.Samples.{served}

-- The provider answers with one document, which confirms the token until the second 900.
abbrev members : String → Option (List (String × String))
members v =
    if v == "document"
    then some (("active", "true") ∷ ("sub", "alice") ∷ ("exp", "900") ∷ [])
    else none

abbrev provider : Services ℕ String
provider = record {
  post = λ url form. ok (record { status = 200; body = ok "document" });
  fetch = λ url. err "not found";
  get = λ v name. and_then (members v) (λ m. get_key m name);
  as_str = λ v. some v;
  as_number = λ v. none;
  as_bool = λ v. if v == "true" then some true else none;
  as_u64 = λ v. if v == "900" then some 900 else none;
  as_array = λ v. none;
  as_object = members;
  decode_base64 = λ text. if is_padded text then err "invalid padding" else ok text;
  from_rsa_components = λ n e. ok 7;
  decode = λ token key validation. ok "document";
}

-- The provider after it has revoked all tokens.
abbrev revoked : Services ℕ String
revoked = record provider { post = λ url form. ok (record { status = 200; body = ok "{}" }) }

abbrev config : Oauth2AuthConfig
config = record default_config { introspection_url = some "https://provider" }

abbrev plugin : Oauth2AuthPlugin ℕ
plugin = fresh_plugin config

abbrev at_ten : Moments
at_ten = record { checked = 10; looked_up = 10; fetched = 20; stored = 20; draw = true }

abbrev later : Moments
later = record { checked = 5000; looked_up = 5000; fetched = 5010; stored = 5010; draw = true }

abbrev confirmed : Claims
confirmed = claims_of_members (members "document")

abbrev with_token : Oauth2AuthPlugin ℕ
with_token = stored_token provider plugin "token" at_ten confirmed

validated_token-IsCached_example : validate_token revoked with_token "token" later ≡ (
    if ltb 5000 (expires_at provider config 20 confirmed)
    then returns (with_token, ok (some confirmed))
    else store revoked "token" later (validation_result revoked with_token "token" later))
unfolding validate_token validation_result validate_token_introspection
validated_token-IsCached_example =
    validated_token-IsCached provider revoked plugin with_token "token" at_ten later confirmed refl
      refl refl

-- A cache with a hundred entries, and with those of the token a hundred and one.
abbrev entries : ℕ → HashMap TokenCacheEntry
entries zero = []
entries (suc n) = ("other", record { claims = []; expires_at = 9000 }) ∷ entries n

abbrev crowded : Oauth2AuthPlugin ℕ
crowded = record plugin { token_cache = entries 100 }

cleanup_blocks_all_example : All (IsNone provider) (
    validate_all provider
      (("token", at_ten) ∷ ("other", later) ∷ [])
      (record { plugin = crowded; held = false }))
unfolding validation_result validate_token_introspection
cleanup_blocks_all_example =
    cleanup_blocks_all provider crowded "token" at_ten confirmed (("other", later) ∷ []) refl refl
      refl refl refl

-- The only confirmed claims are those of the document.
abbrev IsDocument : String → Claims → Type 0
IsDocument token claims = claims ≡ confirmed

validate_token-IsSound_example :
    IsSound provider IsDocument "token" (validate_token provider plugin "token" at_ten)
unfolding validation_result validate_token_introspection
validate_token-IsSound_example =
    validate_token-IsSound provider IsDocument plugin "token" at_ten tt refl

unaligned_header-IsRefused_example :
    (e : String) × (validate_token_jwks provider
        (record config { validation_mode = jwks; jwks_uri = some "https://keys" })
        []
        "abc.def.ghi"
        10
        20
      ≡ ([], err (caused_by e)))
unaligned_header-IsRefused_example =
    unaligned_header-IsRefused provider (λ text h. ("invalid padding", rw h refl))
      (record config { validation_mode = jwks; jwks_uri = some "https://keys" }) [] "abc.def.ghi"
      "https://keys" "abc" "def" "ghi" 10 20 refl refl refl

find_consumer_from_claims_best_example :
    IsIdentified provider config "alice" served.consumers
      (find_consumer_from_claims provider config (some served.consumers) confirmed)
find_consumer_from_claims_best_example =
    find_consumer_from_claims_best provider config "alice" served.consumers confirmed refl

abbrev missing : Option Consumer × Bool
missing = (none, false)

authenticate-chain_example :
    missing
    ≡ chain extract_token
        (λ token. claims_of provider single none (validate_token provider plugin token at_ten))
        (find_consumer_from_claims provider config none)
        single
        (some "Bearer token")
        none
unfolding authenticate extract_token validate_token validation_result validate_token_introspection
    find_consumer_from_claims
authenticate-chain_example =
    authenticate-chain provider single none plugin with_token at_ten (some "Bearer token") none
      missing refl
