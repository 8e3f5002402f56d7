-- ===== src/Admin/Frames.antt =====
-- src/admin/routes: a handler touches the database only by the operations of its client, so that it keeps
-- what these keep.
pub mod Proxies
pub mod Consumers
pub mod PluginConfigs
use ferrumgw.Common.{
  ℕ, String, Bool, false, ◌≡◌, List, Result, ok, err, arith, not, contains, string_eq, ◌==◌,
}
use ferrumgw.Config.{Proxy, Consumer, PluginConfig, Configuration}
use ferrumgw.Config.Paths.{has_path}
use ferrumgw.Admin.Api.{OperationMode, Done, reply_json, read_only, unless_file_mode}

-- What holds of the answer in file mode and of the handler's holds of both.
pub unless_file_mode-elim :
    {Db Error : Type 0} (P : Done Db Error → Type 0) (m : OperationMode) (db : Db)
    (rest : Done Db Error)
    → P (read_only db)
    → P rest
    → P (unless_file_mode m db rest)
unfolding unless_file_mode
unless_file_mode-elim P OperationMode.file db rest p q = p
unless_file_mode-elim P OperationMode.database db rest p q = q
unless_file_mode-elim P OperationMode.control_plane db rest p q = q
unless_file_mode-elim P OperationMode.data_plane db rest p q = q

module _ {Db Error : Type 0} (P : Db → Type 0) where
  pub unless_file_mode-keeps :
      (m : OperationMode) (db : Db) (rest : Done Db Error)
      → P db
      → P rest.db
      → P (unless_file_mode m db rest).db
  unless_file_mode-keeps m db rest p q = unless_file_mode-elim (λ d. P d.db) m db rest p q

  pub reply_json-keeps :
      (db : Db) (notified : Bool) (status : ℕ) (o : Result Error String)
      → P db
      → P (reply_json {Db = Db} {Error = Error} db notified status o).db
  reply_json-keeps db notified status (ok text) p = p
  reply_json-keeps db notified status (err e) p = p
