-- ===== src/Admin/Gate.antt =====
-- src/admin/mod.rs, `handle_request` and `authenticate_request`: who may reach the handlers.
-- `decode` is the check of a token by the crate jsonwebtoken. The value of the `Authorization` header
-- is `none` where there is none, and an error where it is no text. `route` is `route_request` on the
-- state of the database; what it does is not seen here.
pub mod Laws
use ferrumgw.Common.{
  ℕ, String, ◌||◌, Option, none, some, Result, ok, err, ◌==◌, string_eq, strip_prefix,
  if◌then◌else◌,
}
use ferrumgw.Admin.Api.{Body, message, json, Response, Done, respond}

abbrev pub unauthorized : ℕ
unauthorized = 401

module _ {Claims Error : Type 0} (decode : String → Result Error Claims)
    (missing invalid : Error) where
  -- The token behind `Bearer `, which is cut off by its length.
  unfoldable pub check_token : Option String → Result Error Claims
  check_token none = err invalid
  check_token (some token) = decode token

  unfoldable pub authenticate_request : Option (Result Error String) → Result Error Claims
  authenticate_request none = err missing
  authenticate_request (some (err e)) = err e
  authenticate_request (some (ok text)) = check_token (strip_prefix text "Bearer ")

  module _ {Db : Type 0} (route : Claims → Db → Done Db Error) where
    -- The answer, and the database that it leaves.
    unfoldable pub handle_authenticated : Db → Result Error Claims → Response Error × Db
    handle_authenticated db (ok claims) = (respond (route claims db).response, (route claims db).db)
    handle_authenticated db (err e) =
        (record { status = unauthorized; body = message "Unauthorized" }, db)

    unfoldable pub handle_request : String → Option (Result Error String) → Db → Response Error × Db
    handle_request path authorization db =
        if path == "/health" || path == "/status"
        then (record { status = 200; body = json "ok" }, db)
        else handle_authenticated db (authenticate_request authorization)
