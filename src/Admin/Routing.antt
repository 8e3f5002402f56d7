-- ===== src/Admin/Routing.antt =====
-- src/admin/mod.rs, `route_request`: which handler a request gets, and with which part of its path. The
-- handler is named by a constructor; the paths that are sliced begin with ASCII text, so that a slice is
-- the rest of the characters.
pub mod Misrouted
use ferrumgw.Common.{
  ℕ, zero, suc, String, Bool, true, false, ◌||◌, List, [], ◌∷◌, ◌==◌, string_eq, starts_with,
  if◌then◌else◌, nat_eq,
}
use Prim.Native.Char.{code}

pub data Method : Type 0 where
  get post put delete other : Method

pub data Route : Type 0 where
  list_proxies create_proxy : Route
  get_proxy update_proxy delete_proxy : String → Route
  list_consumers create_consumer : Route
  get_consumer update_consumer delete_consumer : String → Route
  get_credentials update_credentials delete_credentials : String → String → Route
  list_plugin_types list_plugin_configs create_plugin_config : Route
  get_plugin_config update_plugin_config delete_plugin_config : String → Route
  get_metrics invalid_path not_found : Route

-- `&path[n..]`
abbrev pub text_from : ℕ → String → String
text_from zero s = s
text_from (suc n) String.[] = String.[]
text_from (suc n) (String.◌∷◌ c s) = text_from n s

-- `path.contains(part)`
abbrev pub contains_text : String → String → Bool
contains_text String.[] part = starts_with String.[] part
contains_text (String.◌∷◌ c s) part = starts_with (String.◌∷◌ c s) part || contains_text s part

-- `path.split('/')`: the first part, and the others.
abbrev pub split_slash : String → String × List String
split_slash String.[] = (String.[], [])
split_slash (String.◌∷◌ c s) =
    let (first, rest) = split_slash s in
    if code c == 47 then (String.[], first ∷ rest) else (String.◌∷◌ c first, rest)

-- The handler of the credentials, for a path of four parts.
abbrev credentials_at : (String → String → Route) → String × List String → Route
credentials_at handler (first, second ∷ consumer_id ∷ credential_type ∷ []) =
    handler consumer_id credential_type
credentials_at handler parts = invalid_path

abbrev pub route_consumer : (String → String → Route) → (String → Route) → String → Route
route_consumer credentials consumer path =
    if contains_text path "/credentials/"
    then credentials_at credentials (split_slash path)
    else consumer (text_from 11 path)

abbrev route_get : String → Route
route_get path =
    if path == "/proxies"
    then list_proxies
    else if starts_with path "/proxies/"
    then get_proxy (text_from 9 path)
    else if path == "/consumers"
    then list_consumers
    else if starts_with path "/consumers/"
    then route_consumer get_credentials get_consumer path
    else if path == "/plugins"
    then list_plugin_types
    else if path == "/plugins/config"
    then list_plugin_configs
    else if starts_with path "/plugins/config/"
    then get_plugin_config (text_from 15 path)
    else if path == "/admin/metrics"
    then get_metrics
    else not_found

abbrev route_post : String → Route
route_post path =
    if path == "/proxies"
    then create_proxy
    else if path == "/consumers"
    then create_consumer
    else if path == "/plugins/config"
    then create_plugin_config
    else not_found

abbrev route_put : String → Route
route_put path =
    if starts_with path "/proxies/"
    then update_proxy (text_from 9 path)
    else if starts_with path "/consumers/"
    then route_consumer update_credentials update_consumer path
    else if starts_with path "/plugins/config/"
    then update_plugin_config (text_from 15 path)
    else not_found

abbrev route_delete : String → Route
route_delete path =
    if starts_with path "/proxies/"
    then delete_proxy (text_from 9 path)
    else if starts_with path "/consumers/"
    then route_consumer delete_credentials delete_consumer path
    else if starts_with path "/plugins/config/"
    then delete_plugin_config (text_from 15 path)
    else not_found

-- `route_request`
unfoldable pub route_request : Method → String → Route
route_request get path = route_get path
route_request post path = route_post path
route_request put path = route_put path
route_request delete path = route_delete path
route_request other path = not_found
