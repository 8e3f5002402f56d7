-- ===== src/Plugins/Oauth2/Jwks/Padding.antt =====
-- src/plugins/oauth2_auth/mod.rs: tokens whose header is padded before it is decoded.
use Prim.Native.Char.{Char, code}
use Prim.Native.String.{◌++◌ as append, len}
use Prim.Native.String.append.{nil, cons}
use ferrumgw.Common.{
  ℕ, ◌%◌, ◌≡◌, refl, inl, inr, String, Bool, true, false, [], ◌∷◌, some, err, ◌==◌, nat_eq,
  Bool-cases, split_on,
}
use ferrumgw.Common.HashMap.{HashMap}
use ferrumgw.Plugins.Oauth2.{Oauth2AuthConfig, JwksCache, Services, caused_by}
use ferrumgw.Plugins.Oauth2.Jwks.{padding, validate_token_jwks}

abbrev last_is_equals : Bool → String → Bool
last_is_equals b String.[] = b
last_is_equals b (String.◌∷◌ c s) = last_is_equals (code c == 61) s

-- `text.ends_with("=")`
abbrev pub is_padded : String → Bool
is_padded = last_is_equals false

last_is_equals-append :
    (b : Bool) (s : String) (c : Char) (t : String)
    → last_is_equals b (append s (String.◌∷◌ c t)) ≡ last_is_equals (code c == 61) t
last_is_equals-append b String.[] c t = rw (nil (String.◌∷◌ c t)) refl
last_is_equals-append b (String.◌∷◌ d s) c t =
    rw (cons d s (String.◌∷◌ c t)) (last_is_equals-append (code d == 61) s c t)

padding-is_padded :
    (s : String) (n : ℕ) → (n % 4 == 0) ≡ false → is_padded (append s (padding n)) ≡ true
padding-is_padded s n h = rw h (elim (Bool-cases (n % 4 == 1)) [
  | inl one ↦ rw one (last_is_equals-append false s "=" "==")
  | inr other ↦ rw other (elim (Bool-cases (n % 4 == 2)) [
    | inl two ↦ rw two (last_is_equals-append false s "=" "=")
    | inr three ↦ rw three (last_is_equals-append false s "=" "")
  ])
])

module _ {DecodingKey Error : Type 0} (S : Services DecodingKey Error)
    (refuses : (text : String)
      → is_padded text ≡ true
      → (e : Error) × (S.decode_base64 text ≡ err e)) where
  -- With a decoder that refuses padded texts, as `URL_SAFE_NO_PAD` does: a token of three parts is refused
  -- in JWKS mode whenever the length of its header is no multiple of 4, whatever keys are known.
  pub unaligned_header-IsRefused :
      (config : Oauth2AuthConfig) (caches : HashMap (JwksCache DecodingKey))
      (token jwks_uri header payload signature : String) (now later : ℕ)
      → config.jwks_uri ≡ some jwks_uri
      → split_on 46 token ≡ (header, payload ∷ signature ∷ [])
      → (len header % 4 == 0) ≡ false
      → (e : Error) × (validate_token_jwks S config caches token now later
          ≡ (caches, err (caused_by e)))
  unfolding validate_token_jwks
  unaligned_header-IsRefused config caches token jwks_uri header payload signature now later uri
        parts n =
      let (e, refused) =
        refuses (append header (padding (len header))) (padding-is_padded header (len header) n) in
      (e, rw (uri, parts, refused) refl)
