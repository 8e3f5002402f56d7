-- ===== src/Plugins/Oauth2/Deciding/Agreeing.antt =====
-- src/plugins/oauth2_auth/mod.rs: the OAuth2 plugin is one more authentication method.
use ferrumgw.Common.{
  ◌≡◌, sym, ap, ◌∙◌, inl, inr, Option-cases, String, Bool, List, Option, none, some, ok, err, arith,
}
use ferrumgw.Config.{AuthMode, Consumer}
use ferrumgw.Plugins.Authentication.{authenticate as chain, on_failure}
use ferrumgw.Plugins.Oauth2.{Oauth2AuthPlugin, Claims, Services, Outcome, returns, blocks}
use ferrumgw.Plugins.Oauth2.Tokens.{extract_token, Moments, Answer, validate_token}
use ferrumgw.Plugins.Oauth2.Consumers.{find_consumer_from_claims}
use ferrumgw.Plugins.Oauth2.Deciding.{with_consumer, with_answer, authenticate}

module _ {DecodingKey Error : Type 0} (S : Services DecodingKey Error) (mode : AuthMode)
    (active : Option (List Consumer)) where
  -- What a validation lets the chain see: its claims, if there are any.
  abbrev pub claims_of : Outcome (Answer S) → Option Claims
  claims_of (returns (p, ok (some claims))) = some claims
  claims_of (returns (p, ok none)) = none
  claims_of (returns (p, err e)) = none
  claims_of blocks = none

  abbrev decided : Oauth2AuthPlugin DecodingKey → Option Claims → Option Consumer × Bool
  decided p none = (none, on_failure mode)
  decided p (some claims) =
      with_consumer S mode active (find_consumer_from_claims S p.config active claims)

  with_answer-decided :
      (o : Outcome (Answer S)) (p' : Oauth2AuthPlugin DecodingKey)
      (decision : Option Consumer × Bool)
      → with_answer S mode active o ≡ returns (p', decision)
      → decision ≡ decided p' (claims_of o)
  with_answer-decided blocks p' decision h = absurd (ground arith)
  with_answer-decided (returns (q, ok none)) p' decision h = ground arith
  with_answer-decided (returns (q, err e)) p' decision h = ground arith
  with_answer-decided (returns (q, ok (some claims))) p' decision h =
      let same : q ≡ p' = ground arith in
      let decides : with_consumer S mode active (find_consumer_from_claims S q.config active claims)
          ≡ decision =
        ground arith in
      sym decides
      ∙ ap (λ p. with_consumer S mode active (find_consumer_from_claims S p.config active claims))
          same

  -- The plugin decides like `authenticate` of the other authentication plugins, with its own extraction,
  -- validation and search, whenever it returns; the settings are those it has afterwards.
  pub authenticate-chain :
      (p p' : Oauth2AuthPlugin DecodingKey) (c : Moments) (auth_header : Option String)
      (before : Option Consumer) (decision : Option Consumer × Bool)
      → authenticate S mode active p c auth_header before ≡ returns (p', decision)
      → decision
        ≡ chain extract_token
            (λ token. claims_of (validate_token S p token c))
            (find_consumer_from_claims S p'.config active)
            mode
            auth_header
            before
  unfolding authenticate chain
  authenticate-chain p p' c auth_header (some consumer) decision h = ground arith
  authenticate-chain p p' c auth_header none decision h =
      elim (Option-cases (extract_token auth_header)) [
        | inl missing ↦ ground arith
        | inr (token, found) ↦
            let decides : decision ≡ decided p' (claims_of (validate_token S p token c)) =
              with_answer-decided (validate_token S p token c) p' decision (rw found at h) in
            rw found (decides ∙ ground arith)
      ]
