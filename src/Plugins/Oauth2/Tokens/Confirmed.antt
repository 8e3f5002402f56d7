-- ===== src/Plugins/Oauth2/Tokens/Confirmed.antt =====
-- src/plugins/oauth2_auth/mod.rs: the claims in the cache are those that the provider confirmed.
use ferrumgw.Common.{
  ℕ, ◌≡◌, refl, inl, inr, String, Bool, true, false, not, ◌&&◌, Option, none, some, Result, ok, err,
  ltb, length, All, All-retain, Option-cases, if◌then◌else◌, ◌==◌, string_eq, arith,
}
use ferrumgw.Common.HashMap.{get_key, All-get}
use ferrumgw.Plugins.Oauth2.{Oauth2AuthPlugin, Claims, Services, Outcome, returns, blocks, Failure}
use ferrumgw.Plugins.Oauth2.Tokens.{
  Moments, Answer, cached_claims, cleanup_token_cache, validation_result, stored_token, store,
  or_validate, validate_token,
}

module _ {DecodingKey Error : Type 0} (S : Services DecodingKey Error)
    (IsConfirmed : String → Claims → Type 0) where
  -- All claims in the cache were confirmed for their tokens.
  abbrev pub AreConfirmed : Oauth2AuthPlugin DecodingKey → Type 0
  AreConfirmed p = All (λ e. IsConfirmed e.0 e.1.claims) p.token_cache

  -- The claims of an answer, if there are any, were confirmed.
  abbrev pub Accepts : String → Result (Failure Error) (Option Claims) → Type 0
  Accepts token (ok (some claims)) = IsConfirmed token claims
  Accepts token (ok none) = Unit
  Accepts token (err e) = Unit

  abbrev pub IsSound : String → Outcome (Answer S) → Type 0
  IsSound token (returns (p, result)) = AreConfirmed p × Accepts token result
  IsSound token blocks = Unit

  validation_result-token_cache :
      (p : Oauth2AuthPlugin DecodingKey) (token : String) (c : Moments)
      → (validation_result S p token c).0.token_cache ≡ p.token_cache
  unfolding validation_result
  validation_result-token_cache p token c = ground arith

  if-IsSound :
      (token : String) (used due : Bool) (x z : Answer S)
      → IsSound token (returns x)
      → IsSound token (returns z)
      → IsSound token (if used then if due then blocks else returns x else returns z)
  if-IsSound token true true x z hx hz = tt
  if-IsSound token true false x z hx hz = hx
  if-IsSound token false due x z hx hz = hz

  store-IsSound :
      (token : String) (c : Moments) (a : Answer S)
      → AreConfirmed a.0
      → Accepts token a.1
      → IsSound token (store S token c a)
  unfolding cleanup_token_cache
  store-IsSound token c (p, ok (some claims)) h accepted =
      if-IsSound token p.config.use_cache
        (ltb 100 (length (stored_token S p token c claims).token_cache) && c.draw)
        (stored_token S p token c claims, ok (some claims)) (p, ok (some claims))
        (
          (
            accepted,
            All-retain (λ e. IsConfirmed e.0 e.1.claims) (λ e. IsConfirmed e.0 e.1.claims)
                (λ e. not (e.0 == token)) (λ e kept g. g) p.token_cache h,
          ),
          accepted,
        )
        (h, accepted)
  store-IsSound token c (p, ok none) h accepted = (h, tt)
  store-IsSound token c (p, err e) h accepted = (h, tt)

  cached-IsConfirmed :
      (p : Oauth2AuthPlugin DecodingKey) (token : String) (now : ℕ) (claims : Claims)
      → AreConfirmed p
      → cached_claims p token now ≡ some claims
      → IsConfirmed token claims
  cached-IsConfirmed p token now claims h eq = elim (Option-cases (get_key p.token_cache token)) [
    | inl missed ↦ absurd (ground arith)
    | inr (entry, found) ↦
        let same : entry.claims ≡ claims = ground arith in
        rw (← same) (All-get (λ k e. IsConfirmed k e.claims) p.token_cache h token entry found)
  ]

  or_validate-IsSound :
      (p : Oauth2AuthPlugin DecodingKey) (token : String) (c : Moments) (o : Option Claims)
      → AreConfirmed p
      → Accepts token (ok o)
      → Accepts token (validation_result S p token c).1
      → IsSound token (or_validate S p token c o)
  or_validate-IsSound p token c (some claims) h cached accepted = (h, cached)
  or_validate-IsSound p token c none h cached accepted =
      store-IsSound token c _ (rw (validation_result-token_cache p token c) h) accepted

  cached-Accepts :
      (p : Oauth2AuthPlugin DecodingKey) (token : String) (now : ℕ) (o : Option Claims)
      → AreConfirmed p
      → cached_claims p token now ≡ o
      → Accepts token (ok o)
  cached-Accepts p token now (some claims) h eq = cached-IsConfirmed p token now claims h eq
  cached-Accepts p token now none h eq = tt

  -- Where all claims in the cache were confirmed for their tokens, and the provider accepts the token only
  -- with confirmed claims, a validation that returns leaves such a cache, and the claims it returns were
  -- confirmed for its own token.
  pub validate_token-IsSound :
      (p : Oauth2AuthPlugin DecodingKey) (token : String) (c : Moments)
      → AreConfirmed p
      → Accepts token (validation_result S p token c).1
      → IsSound token (validate_token S p token c)
  unfolding validate_token
  validate_token-IsSound p token c h accepted =
      or_validate-IsSound p token c (cached_claims p token c.checked) h
        (cached-Accepts p token c.checked _ h refl) accepted
