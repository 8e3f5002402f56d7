-- ===== src/Admin/Proxies.antt =====
-- src/admin/routes/proxies.rs: the handlers of the proxies.
-- `parsed` is the body of the request, read and parsed as a proxy; `config` is the configuration in
-- memory and `subscribed` tells whether the state has a sender for updates.
pub mod UniquePaths
pub mod Guards
pub mod Answers
use ferrumgw.Common.{
  ℕ, String, Bytes, Bool, true, false, not, ◌&&◌, Option, none, some, Result, ok, err, any, find,
  ◌==◌, string_eq, bytes_eq, if◌then◌else◌,
}
use ferrumgw.Config.{Proxy, Configuration}
use ferrumgw.Config.Paths.{has_path}
use ferrumgw.Admin.Api.{
  OperationMode, Done, created_status, no_content, bad_request, not_found, conflict,
  internal_server_error, message, failed, taken, empty, reply, fail, reply_json, unless_file_mode,
}

pub record ProxyTable (Db Error : Type 0) : Type 0 where
  pub create_proxy : Db → Proxy → Db × Result Error Proxy
  pub update_proxy : Db → Proxy → Db × Result Error (Unit {0})
  pub delete_proxy : Db → String → Db × Result Error (Unit {0})
  pub get_proxy_by_id : Db → String → Result Error Proxy
  pub to_json : Proxy → Result Error String

abbrev pub with_times : ℕ → ℕ → Proxy → Proxy
with_times created_at updated_at p = record p { created_at = created_at; updated_at = updated_at }

abbrev pub exists_proxy : String → Configuration → Bool
exists_proxy proxy_id config = any (λ p. p.id == proxy_id) config.proxies

-- Another proxy than `proxy_id` listens on the path.
abbrev pub has_other_path : String → Bytes → Configuration → Bool
has_other_path proxy_id path config =
    any (λ p. not (p.id == proxy_id) && p.listen_path == path) config.proxies

module _ {Db Error : Type 0} (T : ProxyTable Db Error) (mode : OperationMode)
    (subscribed : Bool) where
  -- What follows the write of the database.
  unfoldable pub after_create : Db × Result Error Proxy → Done Db Error
  after_create (db, ok created_proxy) =
      reply_json db subscribed created_status (T.to_json created_proxy)
  after_create (db, err e) =
      reply db false internal_server_error (failed "Failed to create proxy" e)

  unfoldable pub insert_proxy : Configuration → ℕ → Db → Result Error Proxy → Done Db Error
  insert_proxy config now db (ok proxy) =
      if has_path proxy.listen_path config.proxies
      then reply db false conflict (taken "A proxy with listen_path")
      else after_create (T.create_proxy db (with_times now now proxy))
  insert_proxy config now db (err e) = fail db e

  unfoldable pub create_proxy : Configuration → ℕ → Db → Result Error Proxy → Done Db Error
  create_proxy config now db parsed = unless_file_mode mode db (insert_proxy config now db parsed)

  unfoldable pub after_update : Proxy → Db × Result Error (Unit {0}) → Done Db Error
  after_update updated_proxy (db, ok _) = reply_json db subscribed 200 (T.to_json updated_proxy)
  after_update updated_proxy (db, err e) =
      reply db false internal_server_error (failed "Failed to update proxy" e)

  unfoldable pub replace_proxy :
      String → Configuration → ℕ → Db → Result Error Proxy → Done Db Error
  replace_proxy proxy_id config now db (ok proxy) =
      if not (proxy.id == proxy_id)
      then reply db false bad_request (message "Proxy ID in path does not match ID in body")
      else if has_other_path proxy_id proxy.listen_path config
      then reply db false conflict (taken "A proxy with listen_path")
      else if not (exists_proxy proxy_id config)
      then reply db false not_found (message "Proxy not found")
      else after_update (with_times proxy.created_at now proxy)
          (T.update_proxy db (with_times proxy.created_at now proxy))
  replace_proxy proxy_id config now db (err e) = fail db e

  unfoldable pub update_proxy : String → Configuration → ℕ → Db → Result Error Proxy → Done Db Error
  update_proxy proxy_id config now db parsed =
      unless_file_mode mode db (replace_proxy proxy_id config now db parsed)

  unfoldable pub after_delete : Db × Result Error (Unit {0}) → Done Db Error
  after_delete (db, ok _) = reply db subscribed no_content empty
  after_delete (db, err e) =
      reply db false internal_server_error (failed "Failed to delete proxy" e)

  unfoldable pub delete_proxy : String → Configuration → Db → Done Db Error
  delete_proxy proxy_id config db = unless_file_mode mode db (
      if not (exists_proxy proxy_id config)
      then reply db false not_found (message "Proxy not found")
      else after_delete (T.delete_proxy db proxy_id))

-- `get_proxy`: the proxy in memory, or else that of the database.
module _ {Db Error : Type 0} (T : ProxyTable Db Error) where
  unfoldable pub or_stored : Db → Result Error Proxy → Done Db Error
  or_stored db (ok proxy) = reply_json db false 200 (T.to_json proxy)
  or_stored db (err e) = reply db false not_found (message "Proxy not found")

  unfoldable pub found_or_stored : String → Db → Option Proxy → Done Db Error
  found_or_stored proxy_id db (some proxy) = reply_json db false 200 (T.to_json proxy)
  found_or_stored proxy_id db none = or_stored db (T.get_proxy_by_id db proxy_id)

  unfoldable pub get_proxy : String → Configuration → Db → Done Db Error
  get_proxy proxy_id config db =
      found_or_stored proxy_id db (find (λ p. p.id == proxy_id) config.proxies)
