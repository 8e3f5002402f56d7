-- ===== src/Plugins/Oauth2/Tokens/Caching.antt =====
-- src/plugins/oauth2_auth/mod.rs: what the cache of tokens answers after a validation.
use ferrumgw.Common.{
  ℕ, ◌≡◌, refl, sym, ap, ◌∙◌, String, Bool, true, false, none, some, ok, err, ltb, length, ◌&&◌,
  if◌then◌else◌, arith,
}
use ferrumgw.Common.HashMap.{get-insert_same}
use ferrumgw.Plugins.Oauth2.{Oauth2AuthPlugin, Claims, Services, returns, blocks}
use ferrumgw.Plugins.Oauth2.Tokens.{
  Moments, Answer, cached_claims, cleanup_token_cache, validation_result, stored_token, expires_at,
  store, or_validate, validate_token,
}

if-returns :
    {A : Type 0} (used due : Bool) (x y z : A)
    → used ≡ true
    → (if used then if due then blocks else returns x else returns z) ≡ returns y
    → x ≡ y
if-returns true true x y z on h = absurd (ground arith)
if-returns true false x y z on h = ground arith
if-returns false due x y z on h = absurd (ground arith)

module _ {DecodingKey Error : Type 0} (S : Services DecodingKey Error) where
  store-cached :
      (token : String) (c : Moments) (a : Answer S) (p : Oauth2AuthPlugin DecodingKey)
      (claims : Claims)
      → a.0.config.use_cache ≡ true
      → store S token c a ≡ returns (p, ok (some claims))
      → p ≡ stored_token S a.0 token c claims
  unfolding cleanup_token_cache
  store-cached token c (q, ok (some claims')) p claims on h =
      let same : ◌≡◌ {A = Answer S} (stored_token S q token c claims', ok (some claims'))
          (p, ok (some claims)) =
        if-returns q.config.use_cache
          (ltb 100 (length (stored_token S q token c claims').token_cache) && c.draw)
          (stored_token S q token c claims', ok (some claims')) (p, ok (some claims))
          (q, ok (some claims')) on h in
      let same_claims : claims' ≡ claims = ground arith in
      rw (← same_claims) (sym (ap (λ a. a.0) same))
  store-cached token c (q, ok none) p claims on h = absurd (ground arith)
  store-cached token c (q, err e) p claims on h = absurd (ground arith)

  cached-stored :
      (p : Oauth2AuthPlugin DecodingKey) (token : String) (c : Moments) (claims : Claims) (now : ℕ)
      → p.config.use_cache ≡ true
      → cached_claims (stored_token S p token c claims) token now
        ≡ (if ltb now (expires_at S p.config c.stored claims) then some claims else none)
  cached-stored p token c claims now on =
      rw
        (
          on,
          get-insert_same token
              (record { claims = claims; expires_at = expires_at S p.config c.stored claims })
              p.token_cache,
        )
        refl

  pub validation_result-config :
      (p : Oauth2AuthPlugin DecodingKey) (token : String) (c : Moments)
      → (validation_result S p token c).0.config ≡ p.config
  unfolding validation_result
  validation_result-config p token c = ground arith

  or_validate-if :
      (S' : Services DecodingKey Error) (p : Oauth2AuthPlugin DecodingKey) (token : String)
      (c : Moments) (claims : Claims) (b : Bool)
      → or_validate S' p token c (if b then some claims else none) ≡ (
          if b
          then returns (p, ok (some claims))
          else store S' token c (validation_result S' p token c))
  or_validate-if S' p token c claims true = refl
  or_validate-if S' p token c claims false = refl

  -- A token that was validated afresh is accepted with the same claims until its expiry, whatever the
  -- provider would answer by then; from then on it is validated anew.
  pub validated_token-IsCached :
      (S' : Services DecodingKey Error) (p p' : Oauth2AuthPlugin DecodingKey) (token : String)
      (c c' : Moments) (claims : Claims)
      → p.config.use_cache ≡ true
      → cached_claims p token c.checked ≡ none
      → validate_token S p token c ≡ returns (p', ok (some claims))
      → validate_token S' p' token c' ≡ (
          if ltb c'.checked (expires_at S p.config c.stored claims)
          then returns (p', ok (some claims))
          else store S' token c' (validation_result S' p' token c'))
  unfolding validate_token
  validated_token-IsCached S' p p' token c c' claims on missed h =
      let q = (validation_result S p token c).0 in
      let same = validation_result-config p token c in
      let used : q.config.use_cache ≡ true = ap (λ o. o.use_cache) same ∙ on in
      let stored : p' ≡ stored_token S q token c claims =
        store-cached token c (validation_result S p token c) p' claims used (rw missed at h) in
      let hit : cached_claims p' token c'.checked
          ≡ (if ltb c'.checked (expires_at S p.config c.stored claims) then some claims else none) =
        ap (λ o. cached_claims o token c'.checked) stored
        ∙ cached-stored q token c claims c'.checked used
        ∙ ap (λ o. if ltb c'.checked (expires_at S o c.stored claims) then some claims else none)
            same in
      ap (or_validate S' p' token c') hit
      ∙ or_validate-if S' p' token c' claims
          (ltb c'.checked (expires_at S p.config c.stored claims))
