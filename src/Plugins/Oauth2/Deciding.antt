-- ===== src/Plugins/Oauth2/Deciding.antt =====
-- src/plugins/oauth2_auth/mod.rs: `authenticate`.
pub mod Agreeing
use ferrumgw.Common.{String, Bool, true, List, Option, none, some, Result, ok, err}
use ferrumgw.Config.{AuthMode, Consumer}
use ferrumgw.Plugins.Authentication.{on_failure}
use ferrumgw.Plugins.Oauth2.{Oauth2AuthPlugin, Claims, Services, Failure, Outcome, returns, blocks}
use ferrumgw.Plugins.Oauth2.Tokens.{extract_token, Moments, Answer, validate_token}
use ferrumgw.Plugins.Oauth2.Consumers.{find_consumer_from_claims}

module _ {DecodingKey Error : Type 0} (S : Services DecodingKey Error) (mode : AuthMode)
    (active : Option (List Consumer)) where
  abbrev pub with_consumer : Option Consumer → Option Consumer × Bool
  with_consumer none = (none, on_failure mode)
  with_consumer (some consumer) = (some consumer, true)

  abbrev pub with_result :
      Oauth2AuthPlugin DecodingKey → Result (Failure Error) (Option Claims) → Option Consumer × Bool
  with_result p (ok (some claims)) =
      with_consumer (find_consumer_from_claims S p.config active claims)
  with_result p (ok none) = (none, on_failure mode)
  with_result p (err e) = (none, on_failure mode)

  abbrev pub with_answer :
      Outcome (Answer S) → Outcome (Oauth2AuthPlugin DecodingKey × (Option Consumer × Bool))
  with_answer (returns (p, result)) = returns (p, with_result p result)
  with_answer blocks = blocks

  abbrev with_token :
      Oauth2AuthPlugin DecodingKey
      → Moments
      → Option String
      → Outcome (Oauth2AuthPlugin DecodingKey × (Option Consumer × Bool))
  with_token p c none = returns (p, (none, on_failure mode))
  with_token p c (some token) = with_answer (validate_token S p token c)

  -- With the value of the header `Authorization` and the consumer of the context: the plugin afterwards, the
  -- consumer of the context, and whether the request goes on.
  unfoldable pub authenticate :
      Oauth2AuthPlugin DecodingKey
      → Moments
      → Option String
      → Option Consumer
      → Outcome (Oauth2AuthPlugin DecodingKey × (Option Consumer × Bool))
  authenticate p c auth_header (some consumer) = returns (p, (some consumer, true))
  authenticate p c auth_header none = with_token p c (extract_token auth_header)
