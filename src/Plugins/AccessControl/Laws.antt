-- ===== src/Plugins/AccessControl/Laws.antt =====
-- Whom the access control plugin lets through, in terms of its configuration.
use ferrumgw.Common.{
  String, ◌≡◌, refl, ◌↔◌, ◌⊎◌, true, false, List, [], ◌∷◌, none, some, arith, string_eq, ==_iff,
  contains,
}
use ferrumgw.Config.{AuthMode, single, multi}
use ferrumgw.Plugins.AccessControl.{AccessControlConfig, new_plugin, refused, authorize}

-- The lists that name a user, as a proposition about the configuration.
abbrev pub Lists : List String → String → Type 0
Lists [] username = ⊥
Lists (x ∷ xs) username = (x ≡ username) ⊎ Lists xs username

contains_iff :
    (xs : List String) (username : String) → (contains xs username ≡ true) ↔ Lists xs username
contains_iff [] username = ground arith
contains_iff (x ∷ xs) username = ground (arith, ==_iff x username, contains_iff xs username)

refused-false : (auth_mode : AuthMode) → refused auth_mode ≡ false
refused-false multi = refl
refused-false single = refl

-- In either authentication mode of the proxy: an identified consumer is let through exactly when no list
-- of disallowed consumers names it and the list of allowed consumers is empty or names it; a request
-- without a consumer exactly when anonymous access is allowed. A configuration that does not parse lets
-- every identified consumer through, and no other request.
pub authorize_iff :
    (config : AccessControlConfig) (auth_mode : AuthMode) (username : String)
    → ((authorize (new_plugin (some config)) auth_mode (some username) ≡ true) ↔ (
        (¬ Lists config.disallowed_consumers username)
        × ((config.allowed_consumers ≡ []) ⊎ Lists config.allowed_consumers username)))
      × ((authorize (new_plugin (some config)) auth_mode none ≡ true)
          ↔ (config.allow_anonymous ≡ true))
      × (authorize (new_plugin none) auth_mode (some username) ≡ true)
      × (authorize (new_plugin none) auth_mode none ≡ false)
unfolding authorize new_plugin
authorize_iff config auth_mode username = ground (
  arith,
  refused-false auth_mode,
  contains_iff config.disallowed_consumers username,
  contains_iff config.allowed_consumers username,
)
