-- ===== src/Plugins/AccessControl.antt =====
-- src/plugins/access_control/mod.rs: who may use a proxy. A `HashSet` is a list of which only
-- membership and emptiness are asked.
pub mod Laws
use ferrumgw.Common.{
  String, Bool, true, false, not, ◌&&◌, List, [], Option, none, some, string_eq, contains, is_empty,
  if◌then◌else◌,
}
use ferrumgw.Config.{AuthMode, single, multi}

pub record AccessControlConfig : Type 0 where
  pub allowed_consumers : List String
  pub disallowed_consumers : List String
  pub allow_anonymous : Bool

-- `AccessControlConfig::default()`
abbrev pub default_config : AccessControlConfig
default_config = record {
  allowed_consumers = [];
  disallowed_consumers = [];
  allow_anonymous = false;
}

pub record AccessControlPlugin : Type 0 where
  pub config : AccessControlConfig
  pub allowed_set : List String
  pub disallowed_set : List String

-- `AccessControlPlugin::new`; `parsed` is the JSON configuration, `none` where it does not parse.
unfoldable pub new_plugin : Option AccessControlConfig → AccessControlPlugin
new_plugin none = record { config = default_config; allowed_set = []; disallowed_set = [] }
new_plugin (some config) = record {
  config = config;
  allowed_set = config.allowed_consumers;
  disallowed_set = config.disallowed_consumers;
}

-- What a request without a consumer gets where anonymous access is not allowed: the modes differ in the
-- message that is logged.
abbrev pub refused : AuthMode → Bool
refused multi = false
refused single = false

-- `authorize`; the mode is that of the proxy of the request context, and the consumer the one of the
-- context, by its username.
unfoldable pub authorize : AccessControlPlugin → AuthMode → Option String → Bool
authorize plugin auth_mode (some username) =
    if contains plugin.disallowed_set username
    then false
    else if not (is_empty plugin.allowed_set) && not (contains plugin.allowed_set username)
    then false
    else true
authorize plugin auth_mode none = if plugin.config.allow_anonymous then true else refused auth_mode
