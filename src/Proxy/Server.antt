-- ===== src/Proxy/Server.antt =====
-- src/proxy/mod.rs, `handle_request`: what a server does with a request. The router and the handler are
-- those of Proxy/Router and Proxy/Handler.
pub mod Reaching
use Prim.Native.Char.{code}
use ferrumgw.Common.{
  ℕ, ◌+◌, ◌-◌, ◌*◌, ◌^◌, String, Bool, true, false, ◌&&◌, Option, none, some, [], Result, ok, err,
  ltb, leb, ◌==◌, nat_eq, if◌then◌else◌,
}
use ferrumgw.Config.{Proxy, Configuration}
use ferrumgw.Proxy.Router.{RouteTree, route}
use ferrumgw.Proxy.Handler.{Services, Handled, handle, internal_server_error}

-- `parse::<usize>()`: decimal digits, after a plus sign at most, of a number that has 64 bits.
abbrev below_2_64 : ℕ → Option ℕ
below_2_64 n = if ltb n (2 ^ 64) then some n else none

abbrev next_digit : Option ℕ → ℕ → Option ℕ
next_digit none c = none
next_digit (some n) c = if leb 48 c && leb c 57 then below_2_64 (n * 10 + (c - 48)) else none

abbrev parse_digits : Option ℕ → String → Option ℕ
parse_digits n String.[] = n
parse_digits n (String.◌∷◌ c s) = parse_digits (next_digit n (code c)) s

abbrev unsigned : String → Option ℕ
unsigned String.[] = none
unsigned (String.◌∷◌ c s) = parse_digits (some 0) (String.◌∷◌ c s)

unfoldable pub parse_usize : String → Option ℕ
parse_usize String.[] = none
parse_usize (String.◌∷◌ c s) = if code c == 43 then unsigned s else unsigned (String.◌∷◌ c s)

abbrev exceeds : ℕ → Option ℕ → Bool
exceeds max_body_size none = false
exceeds max_body_size (some size) = ltb 0 max_body_size && ltb max_body_size size

-- The header `Content-Length`: absent, no text, or a text.
pub data ContentLength : Type 0 where
  absent no_text : ContentLength
  as_text : String → ContentLength

unfoldable pub is_too_large : ℕ → ContentLength → Bool
is_too_large max_body_size absent = false
is_too_large max_body_size no_text = exceeds max_body_size (parse_usize "0")
is_too_large max_body_size (as_text length) = exceeds max_body_size (parse_usize length)

abbrev pub payload_too_large : ℕ
payload_too_large = 413

abbrev pub not_found : ℕ
not_found = 404

module _ {Req Resp Ctx BackendReq Uri Error : Type 0} (M : RouteTree)
    (S : Services Req Resp Ctx BackendReq Uri Error) (content_length : Req → ContentLength)
    (context_of : Proxy → Ctx) where
  abbrev pub answer : ℕ → String → Handled Req Resp BackendReq Error
  answer status text = record {
    response = some (ok (S.respond status text));
    sent = [];
    logged = [];
  }

  -- An error of the handler is answered.
  abbrev pub or_error : Option (Result Error Resp) → Option (Result Error Resp)
  or_error none = none
  or_error (some (ok response)) = some (ok response)
  or_error (some (err e)) = some (ok (S.respond internal_server_error "Internal Server Error"))

  abbrev answered : Handled Req Resp BackendReq Error → Handled Req Resp BackendReq Error
  answered h = record h { response = or_error h.response }

  unfoldable pub after_route : Req → Option Proxy → Handled Req Resp BackendReq Error
  after_route req none = answer not_found "Not Found"
  after_route req (some proxy) = answered (handle S req proxy (context_of proxy))

  unfoldable pub handle_request :
      M.Tree → Configuration → ℕ → Req → Handled Req Resp BackendReq Error
  handle_request tree config max_body_size req =
      if is_too_large max_body_size (content_length req)
      then answer payload_too_large "Request body too large"
      else after_route req (route M tree config (S.path_of req))
