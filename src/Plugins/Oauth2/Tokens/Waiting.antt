-- ===== src/Plugins/Oauth2/Tokens/Waiting.antt =====
-- src/plugins/oauth2_auth/mod.rs: a validation that waits for a lock that it holds itself.
use ferrumgw.Common.{
  ◌≡◌, refl, ap, ◌∙◌, String, Bool, true, false, ◌&&◌, List, [], ◌∷◌, Option, none, some, Result,
  ok, err, ltb, length, All, if◌then◌else◌, arith,
}
use ferrumgw.Plugins.Oauth2.{
  Oauth2AuthPlugin, ValidationMode, introspection, jwks, Claims, Services, Failure, blocks,
}
use ferrumgw.Plugins.Oauth2.Tokens.{
  Moments, Answer, cached_claims, cleanup_token_cache, validation_result, stored_token, store,
  or_validate, validate_token, Shared, settled, validate_shared, validate_all,
}

if-true : {A : Type 0} (b : Bool) (x y : A) → b ≡ true → (if b then x else y) ≡ x
if-true true x y h = refl
if-true false x y h = absurd (ground arith)

both : (a b : Bool) → a ≡ true → b ≡ true → (a && b) ≡ true
both a b h k = ground arith

if-and_false : {A : Type 0} (b : Bool) (x y : A) → (if b && false then x else y) ≡ y
if-and_false true x y = refl
if-and_false false x y = refl

module _ {DecodingKey Error : Type 0} (S : Services DecodingKey Error) where
  store-waits :
      (token : String) (c : Moments) (a : Answer S) (claims : Claims)
      → a.1 ≡ ok (some claims)
      → a.0.config.use_cache ≡ true
      → ltb 100 (length (stored_token S a.0 token c claims).token_cache) ≡ true
      → c.draw ≡ true
      → store S token c a ≡ blocks
  unfolding cleanup_token_cache
  store-waits token c (p, ok (some x)) claims accepted used full draw =
      if-true p.config.use_cache _ _ used
      ∙ if-true _ _ _
          (both (ltb 100 (length (stored_token S p token c x).token_cache)) c.draw full draw)
  store-waits token c (p, ok none) claims accepted used full draw = absurd (ground arith)
  store-waits token c (p, err e) claims accepted used full draw = absurd (ground arith)

  config-validation_result :
      (p : Oauth2AuthPlugin DecodingKey) (token : String) (c : Moments) (m : ValidationMode)
      → p.config.validation_mode ≡ m
      → (validation_result S p token c).0.config ≡ p.config
  unfolding validation_result
  config-validation_result p token c introspection mode = rw mode refl
  config-validation_result p token c jwks mode = rw mode refl

  abbrev pub IsNone : Option (Result (Failure Error) (Option Claims)) → Type 0
  IsNone o = o ≡ none

  held_step :
      (s : Shared S) (token : String) (c : Moments)
      → s.plugin.config.use_cache ≡ true
      → s.held ≡ true
      → validate_shared S s token c ≡ (s, none)
  unfolding validate_shared
  held_step s token c used held = if-true _ _ _ (both s.plugin.config.use_cache s.held used held)

  waiting_step :
      (p : Oauth2AuthPlugin DecodingKey) (token : String) (c : Moments)
      → validate_token S p token c ≡ blocks
      → validate_shared S (record { plugin = p; held = false }) token c
        ≡ (record { plugin = p; held = true }, none)
  unfolding validate_shared
  waiting_step p token c waits =
      if-and_false p.config.use_cache _ _
      ∙ ap (settled S (record { plugin = p; held = false })) waits

  held-waits :
      (s : Shared S) (later : List (String × Moments))
      → s.plugin.config.use_cache ≡ true
      → s.held ≡ true
      → All IsNone (validate_all S later s)
  unfolding validate_all
  held-waits s [] used held = tt
  held-waits s ((token, c) ∷ later) used held =
      rw (held_step s token c used held) (refl, held-waits s later used held)

  -- With a cache that is used and does not have the token unexpired: where the provider accepts the token,
  -- the cache has more than 100 entries with it, and the random number asks for a cleanup, the validation
  -- never returns, since its cleanup waits for the lock that it holds itself; and neither does any later
  -- validation, of whatever token, one that the cache has included.
  pub cleanup_blocks_all :
      (p : Oauth2AuthPlugin DecodingKey) (token : String) (c : Moments) (claims : Claims)
      (later : List (String × Moments))
      → p.config.use_cache ≡ true
      → cached_claims p token c.checked ≡ none
      → (validation_result S p token c).1 ≡ ok (some claims)
      → ltb 100
          (length (stored_token S (validation_result S p token c).0 token c claims).token_cache)
        ≡ true
      → c.draw ≡ true
      → All IsNone (validate_all S ((token, c) ∷ later) (record { plugin = p; held = false }))
  unfolding validate_all validate_token
  cleanup_blocks_all p token c claims later used unknown accepted full draw =
      let config = config-validation_result p token c p.config.validation_mode refl in
      let waits =
        ap (or_validate S p token c) unknown
        ∙ store-waits token c (validation_result S p token c) claims accepted
            (ap (λ g. g.use_cache) config ∙ used) full draw in
      rw (waiting_step p token c waits)
        (refl, held-waits (record { plugin = p; held = true }) later used refl)
