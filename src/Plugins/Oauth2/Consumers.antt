-- ===== src/Plugins/Oauth2/Consumers.antt =====
-- src/plugins/oauth2_auth/mod.rs: `find_consumer_from_claims`. The consumers are those of
-- `ctx.proxy.active_config`, a field that `Proxy` does not have.
pub mod Identified
use ferrumgw.Common.{String, Bool, false, List, [], ◌∷◌, Option, none, some, find, ◌==◌, string_eq}
use ferrumgw.Common.HashMap.{get_key}
use ferrumgw.Config.{Consumer}
use ferrumgw.Plugins.Oauth2.{Oauth2AuthConfig, Value, Claims, Services, unwrap_or, and_then}

abbrev pub or_else : {A : Type 0} → Option A → Option A → Option A
or_else (some a) o = some a
or_else none o = o

-- The first consumer by the first test that some consumer meets.
abbrev pub search_by : List (Consumer → Bool) → List Consumer → Option Consumer
search_by [] consumers = none
search_by (test ∷ tests) consumers =
    let rest = search_by tests consumers in or_else (find test consumers) rest

module _ {DecodingKey Error : Type 0} (S : Services DecodingKey Error)
    (config : Oauth2AuthConfig) where
  abbrev pub is_text : String → Option String → Bool
  is_text identifier text = unwrap_or false (and_then text (λ t. some (t == identifier)))

  abbrev identifier_text : Value → Option String
  identifier_text v = or_else (S.as_str v) (S.as_number v)

  -- The identifier that the configured claim holds.
  abbrev pub claimed_id : Claims → Option String
  claimed_id claims = and_then (get_key claims config.consumer_claim_field) identifier_text

  abbrev pub provider_id : Value → Option String
  provider_id oauth_ids =
      and_then (and_then (S.as_object oauth_ids) (λ _. S.get oauth_ids config.provider_name))
        S.as_str

  abbrev pub has_id : String → Consumer → Bool
  has_id identifier c = c.id == identifier

  abbrev pub has_custom_id : String → Consumer → Bool
  has_custom_id identifier c = is_text identifier c.custom_id

  abbrev pub has_username : String → Consumer → Bool
  has_username identifier c = c.username == identifier

  abbrev pub has_provider_id : String → Consumer → Bool
  has_provider_id identifier c =
      is_text identifier (and_then (get_key c.credentials "oauth_provider_ids") provider_id)

  -- The four ways to find a consumer, in the order in which they are tried.
  abbrev pub has_any : String → List (Consumer → Bool)
  has_any identifier =
      has_id identifier
      ∷ has_custom_id identifier
      ∷ has_username identifier
      ∷ has_provider_id identifier
      ∷ []

  unfoldable pub find_consumer_from_claims : Option (List Consumer) → Claims → Option Consumer
  find_consumer_from_claims active claims =
      and_then (claimed_id claims)
        (λ identifier. and_then active (λ consumers. search_by (has_any identifier) consumers))
