-- ===== src/Plugins/Authentication.antt =====
-- The method `authenticate` of src/plugins/jwt_auth/mod.rs, src/plugins/key_auth/mod.rs and
-- src/plugins/basic_auth/mod.rs, which is the same chain in all three: skip where a consumer is
-- known, extract the credentials, check them, find the consumer.
-- The three steps are parameters: they decode with the crates `jsonwebtoken`, `bcrypt` and
-- `base64`, and read `ctx.proxy.active_config`, a field that `Proxy` does not have.
pub mod Laws
use ferrumgw.Common.{Bool, true, false, Option, none, some}
use ferrumgw.Config.{AuthMode, single, multi}

-- A failed step lets the request go on in multi-auth mode only.
abbrev pub on_failure : AuthMode → Bool
on_failure multi = true
on_failure single = false

-- The token, key or credentials `K`; what the check yields `V`; the consumer `C`.
module _ {Req K V C : Type 0} (extract : Req → Option K) (validate : K → Option V)
    (find_consumer : V → Option C) where
  abbrev attach : AuthMode → Option C → Option C × Bool
  attach mode none = (none, on_failure mode)
  attach mode (some consumer) = (some consumer, true)

  abbrev with_claims : AuthMode → Option V → Option C × Bool
  with_claims mode none = (none, on_failure mode)
  with_claims mode (some claims) = attach mode (find_consumer claims)

  abbrev with_token : AuthMode → Option K → Option C × Bool
  with_token mode none = (none, on_failure mode)
  with_token mode (some token) = with_claims mode (validate token)

  -- `authenticate`: the consumer of the context afterwards, and whether the request goes on.
  unfoldable pub authenticate : AuthMode → Req → Option C → Option C × Bool
  authenticate mode req (some consumer) = (some consumer, true)
  authenticate mode req none = with_token mode (extract req)
