-- ===== src/Admin/Api.antt =====
-- src/admin/mod.rs: what the handlers of the administration interface share.
-- A handler returns a response or an error, which `handle_request` turns into a response; it leaves
-- the database in a state and has notified the router of a change or not. The database is
-- `crate::database`'s client: its operations are the fields of the records `ProxyTable` and
-- `ConsumerTable` of the handlers, on a state of the database.
use ferrumgw.Common.{ℕ, String, Bool, false, Result, ok, err}
pub use ferrumgw.Modes.{OperationMode, database, file, control_plane, data_plane}

-- The bodies: a fixed message, a message with an error in it, or a value as JSON.
pub data Body (Error : Type 0) : Type 0 where
  message : String → Body Error
  failed : String → Error → Body Error
  taken : String → Body Error
  json : String → Body Error
  empty : Body Error

pub record Response (Error : Type 0) : Type 0 where
  pub status : ℕ
  pub body : Body Error

pub record Done (Db Error : Type 0) : Type 0 where
  pub response : Result Error (Response Error)
  pub db : Db
  pub notified : Bool

abbrev pub created_status : ℕ
created_status = 201

abbrev pub no_content : ℕ
no_content = 204

abbrev pub bad_request : ℕ
bad_request = 400

abbrev pub not_found : ℕ
not_found = 404

abbrev pub conflict : ℕ
conflict = 409

abbrev pub internal_server_error : ℕ
internal_server_error = 500

module _ {Db Error : Type 0} where
  abbrev pub reply : Db → Bool → ℕ → Body Error → Done Db Error
  reply db notified status body = record {
    response = ok record { status = status; body = body };
    db = db;
    notified = notified;
  }

  -- `return Err(e)`, also by `?`.
  abbrev pub fail : Db → Error → Done Db Error
  fail db e = record { response = err e; db = db; notified = false }

  -- A value that is serialised after the write of the database; the notification comes after it.
  abbrev pub reply_json : Db → Bool → ℕ → Result Error String → Done Db Error
  reply_json db notified status (ok text) = reply db notified status (json text)
  reply_json db notified status (err e) = fail db e

  abbrev pub read_only : Db → Done Db Error
  read_only db =
      reply db false conflict (message "Cannot modify config — currently running in File Mode")

  -- The first test of every handler that writes.
  unfoldable pub unless_file_mode : OperationMode → Db → Done Db Error → Done Db Error
  unless_file_mode file db rest = read_only db
  unless_file_mode _ db rest = rest

-- The end of `handle_request` for an authenticated request.
unfoldable pub respond : {Error : Type 0} → Result Error (Response Error) → Response Error
respond (ok response) = response
respond (err e) = record { status = internal_server_error; body = failed "" e }
