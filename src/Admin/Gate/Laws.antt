-- ===== src/Admin/Gate/Laws.antt =====
-- src/admin/mod.rs: what a request without a valid token can do.
use ferrumgw.Common.{
  String, ◌≡◌, refl, ◌||◌, false, ◌⊎◌, inl, inr, Option, none, some, Result, ok, err, ◌==◌,
  string_eq, strip_prefix, arith,
}
use ferrumgw.Admin.Api.{Done}
use ferrumgw.Admin.Gate.{
  unauthorized, check_token, authenticate_request, handle_authenticated, handle_request,
}

module _ {Claims Error : Type 0} (decode : String → Result Error Claims)
    (missing invalid : Error) where
  -- The header holds `Bearer ` and a token that is valid.
  abbrev pub HasToken : Option (Result Error String) → Type 0
  HasToken authorization =
      (text : String) × (token : String) × (claims : Claims) × (authorization ≡ some (ok text))
      × (strip_prefix text "Bearer " ≡ some token)
      × (decode token ≡ ok claims)

  check_token-ok :
      (text : String) (o : Option String) (claims : Claims)
      → strip_prefix text "Bearer " ≡ o
      → check_token decode missing invalid o ≡ ok claims
      → HasToken (some (ok text))
  unfolding check_token
  check_token-ok text none claims eq h = ground arith
  check_token-ok text (some token) claims eq h = (text, token, claims, refl, eq, h)

  authenticate_request-ok :
      (authorization : Option (Result Error String)) (claims : Claims)
      → authenticate_request decode missing invalid authorization ≡ ok claims
      → HasToken authorization
  unfolding authenticate_request
  authenticate_request-ok none claims h = ground arith
  authenticate_request-ok (some (err e)) claims h = ground arith
  authenticate_request-ok (some (ok text)) claims h =
      check_token-ok text (strip_prefix text "Bearer ") claims refl h

  module _ {Db : Type 0} (route : Claims → Db → Done Db Error) where
    authenticated_cases :
        (db : Db) (authorization : Option (Result Error String)) (o : Result Error Claims)
        → authenticate_request decode missing invalid authorization ≡ o
        → HasToken authorization
          ⊎ (((handle_authenticated decode missing invalid route db o).0.status ≡ unauthorized)
              × ((handle_authenticated decode missing invalid route db o).1 ≡ db))
    unfolding handle_authenticated
    authenticated_cases db authorization (ok claims) eq =
        inl (authenticate_request-ok authorization claims eq)
    authenticated_cases db authorization (err e) eq = inr (refl, refl)

    -- A request for a path other than the two health checks comes with a valid bearer token, or it
    -- is answered 401 and the database stays as it is, whatever the handlers do.
    pub handle_request_needs_token :
        (path : String) (authorization : Option (Result Error String)) (db : Db)
        → (path == "/health" || path == "/status") ≡ false
        → HasToken authorization
          ⊎ (((handle_request decode missing invalid route path authorization db).0.status
                ≡ unauthorized)
              × ((handle_request decode missing invalid route path authorization db).1 ≡ db))
    unfolding handle_request
    handle_request_needs_token path authorization db other = rw other (
        authenticated_cases db authorization
          (authenticate_request decode missing invalid authorization) refl)
