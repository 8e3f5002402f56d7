-- ===== src/Plugins/Oauth2/Introspection.antt =====
-- src/plugins/oauth2_auth/mod.rs: `validate_token_introspection`.
use ferrumgw.Common.{
  ℕ, String, Bool, false, ◌&&◌, List, [], ◌∷◌, ◌++◌, Option, none, some, Result, ok, err, leb, ltb,
  if◌then◌else◌,
}
use ferrumgw.Plugins.Oauth2.{
  Oauth2AuthConfig, Value, Claims, HttpResponse, Services, Failure, caused_by,
  introspection_url_required, introspection_failed, claims_of_members, unwrap_or, and_then,
}

abbrev optional_field : String → Option String → List (String × String)
optional_field name none = []
optional_field name (some value) = (name, value) ∷ []

abbrev form : Oauth2AuthConfig → String → List (String × String)
form config token =
    ("token", token)
    ∷ ("token_type_hint", "access_token")
    ∷ (optional_field "client_id" config.introspection_client_id
        ++ optional_field "client_secret" config.introspection_client_secret)

abbrev is_success : ℕ → Bool
is_success status = leb 200 status && ltb status 300

module _ {DecodingKey Error : Type 0} (S : Services DecodingKey Error) where
  abbrev is_active : Value → Bool
  is_active response = unwrap_or false (and_then (S.get response "active") S.as_bool)

  abbrev active_claims : Result Error Value → Result (Failure Error) (Option Claims)
  active_claims (err e) = err (caused_by e)
  active_claims (ok response) =
      if is_active response then ok (some (claims_of_members (S.as_object response))) else ok none

  abbrev read_response : Result Error (HttpResponse Error) → Result (Failure Error) (Option Claims)
  read_response (err e) = err (caused_by e)
  read_response (ok response) =
      if is_success response.status
      then active_claims response.body
      else err (introspection_failed response.status)

  unfoldable pub validate_token_introspection :
      Oauth2AuthConfig → String → Result (Failure Error) (Option Claims)
  validate_token_introspection config token = elim config.introspection_url [
    | some introspection_url ↦ read_response (S.post introspection_url (form config token))
    | none ↦ err introspection_url_required
  ]
