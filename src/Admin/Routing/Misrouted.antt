-- ===== src/Admin/Routing/Misrouted.antt =====
-- src/admin/mod.rs, `route_request`: the paths that do not reach what they name.
use ferrumgw.Common.{
  ℕ, suc, ◌+◌, ◌≤◌, String, ◌≡◌, refl, ap, true, false, List, [], ◌∷◌, ◌==◌, string_eq, nat_eq,
  starts_with, arith, length, ==_refl, ==_iff, Bool-cases, inl, inr, if◌then◌else◌, ok,
}
use Prim.Native.Char.{code}
use ferrumgw.Config.{PluginConfig, Configuration}
use ferrumgw.Admin.Api.{OperationMode, Response, Done}
use ferrumgw.Admin.Frames.{unless_file_mode-elim}
use ferrumgw.Admin.PluginConfigs
use ferrumgw.Admin.PluginConfigs.{PluginConfigTable}
use ferrumgw.Admin.Routing.{
  put, delete, Route, update_proxy, delete_proxy, update_plugin_config, delete_plugin_config,
  invalid_path, contains_text, split_slash, credentials_at, route_consumer, route_request,
  update_credentials, update_consumer, delete_credentials, delete_consumer,
}

-- The text of both in order.
abbrev pub join : String → String → String
join String.[] t = t
join (String.◌∷◌ c s) t = String.◌∷◌ c (join s t)

abbrev size : String → ℕ
size String.[] = 0
size (String.◌∷◌ c s) = suc (size s)

longer : (s : String) → size (join "/" s) ≡ suc (size s)
longer s = refl

-- An id and the id with a slash before it differ.
slash_differs : (s : String) → (s == join "/" s) ≡ false
slash_differs s = elim (Bool-cases (s == join "/" s)) [
  | inl same ↦ absurd (not_longer (ap size ((==_iff s (join "/" s)).0 same)))
  | inr differs ↦ differs
]
  where
    not_longer : {n : ℕ} → ¬ (n ≡ suc n)
    not_longer e = omega (arith, e)

starts_with-join : (part t : String) → starts_with (join part t) part ≡ true
starts_with-join String.[] String.[] = refl
starts_with-join String.[] (String.◌∷◌ c t) = refl
starts_with-join (String.◌∷◌ c part) t = rw (==_refl (code c), starts_with-join part t) refl

contains_start : (s part : String) → starts_with s part ≡ true → contains_text s part ≡ true
contains_start String.[] part h = h
contains_start (String.◌∷◌ c s) part h = rw h refl

contains_text-join : (s part t : String) → contains_text (join s (join part t)) part ≡ true
contains_text-join String.[] part t = contains_start (join part t) part (starts_with-join part t)
contains_text-join (String.◌∷◌ c s) part t = ground (arith, contains_text-join s part t)

-- The slashes of a text, of which it has one part more.
abbrev slashes : String → ℕ
slashes String.[] = 0
slashes (String.◌∷◌ c s) = if code c == 47 then suc (slashes s) else slashes s

split-slashes : (s : String) → length (split_slash s).1 ≡ slashes s
split-slashes String.[] = refl
split-slashes (String.◌∷◌ c s) = elim (Bool-cases (code c == 47)) [
  | inl slash ↦ rw slash (ap suc (split-slashes s))
  | inr none_here ↦ rw none_here (split-slashes s)
]

slashes-join : (s t : String) → slashes (join s t) ≡ slashes s + slashes t
slashes-join String.[] t = omega arith
slashes-join (String.◌∷◌ c s) t = ground (arith, slashes-join s t)

many_parts :
    (handler : String → String → Route) (parts : String × List String)
    → 4 ≤ length parts.1
    → credentials_at handler parts ≡ invalid_path
many_parts handler (first, []) h = refl
many_parts handler (first, a ∷ []) h = refl
many_parts handler (first, a ∷ b ∷ []) h = refl
many_parts handler (first, a ∷ b ∷ c ∷ []) h = absurd (omega (arith, h))
many_parts handler (first, a ∷ b ∷ c ∷ d ∷ rest) h = refl

-- The path of a credential.
abbrev pub credentials_path : String → String → String
credentials_path consumer_id credential_type =
    join "/consumers/" (join consumer_id (join "/credentials/" credential_type))

credentials_slashes :
    (consumer_id credential_type : String)
    → 4 ≤ length (split_slash (credentials_path consumer_id credential_type)).1
credentials_slashes consumer_id credential_type = omega (
  arith,
  split-slashes (credentials_path consumer_id credential_type),
  slashes-join consumer_id (join "/credentials/" credential_type),
)

consumer_route :
    (handler : String → String → Route) (consumer : String → Route)
    (consumer_id credential_type : String)
    → route_consumer handler consumer (credentials_path consumer_id credential_type) ≡ invalid_path
consumer_route handler consumer consumer_id credential_type =
    rw (contains_text-join (join "/consumers/" consumer_id) "/credentials/" credential_type) (
      many_parts handler (split_slash (credentials_path consumer_id credential_type))
        (credentials_slashes consumer_id credential_type))

-- Whatever the ids are: a PUT or DELETE request for a proxy reaches the handler with the id of the path,
-- one for a plugin configuration with a slash before it, and one for a credential of a consumer is
-- answered as a path of the wrong format.
pub route_request_ids :
    (id credential_type : String)
    → (route_request put (join "/proxies/" id) ≡ update_proxy id)
      × (route_request delete (join "/proxies/" id) ≡ delete_proxy id)
      × (route_request put (join "/plugins/config/" id) ≡ update_plugin_config (join "/" id))
      × (route_request delete (join "/plugins/config/" id) ≡ delete_plugin_config (join "/" id))
      × (route_request put (credentials_path id credential_type) ≡ invalid_path)
      × (route_request delete (credentials_path id credential_type) ≡ invalid_path)
unfolding route_request
route_request_ids id credential_type = (
  refl,
  refl,
  refl,
  refl,
  consumer_route update_credentials update_consumer id credential_type,
  consumer_route delete_credentials delete_consumer id credential_type,
)

-- The answer is an error, and the database is as it was.
abbrev pub IsRefused : {Db Error : Type 0} → Db → Done Db Error → Type 0
IsRefused db done =
    (done.db ≡ db) × (answer : Response _) × (done.response ≡ ok answer) × (400 ≤ answer.status)

-- A PUT request with a plugin configuration, for the path of its own id, does not write: it is answered
-- with a status of at least 400 and leaves the database as it is.
pub own_path-IsRefused :
    {Db Error : Type 0} (T : PluginConfigTable Db Error) (available : List String)
    (mode : OperationMode) (config : Configuration) (now : ℕ) (db : Db) (pc : PluginConfig)
    → (target : String) × (route_request put (join "/plugins/config/" pc.id)
        ≡ update_plugin_config target)
      × IsRefused db
          (PluginConfigs.update_plugin_config T available mode target config now db (ok pc))
unfolding route_request PluginConfigs.update_plugin_config PluginConfigs.replace_plugin_config
own_path-IsRefused T available mode config now db pc = (
  join "/" pc.id,
  refl,
  unless_file_mode-elim (IsRefused db) mode db _ (refl, _, refl, omega arith)
      (rw (slash_differs pc.id) (refl, _, refl, omega arith)),
)
