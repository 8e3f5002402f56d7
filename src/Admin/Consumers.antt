-- ===== src/Admin/Consumers.antt =====
-- src/admin/routes/consumers.rs: the handlers of the consumers and of their credentials.
-- A credential is a `serde_json::Value`, kept as its text. `parsed` is the body of the request, read
-- and parsed.
pub mod Credentials
pub mod Hashing
use ferrumgw.Common.{
  ℕ, String, Bool, true, false, not, ◌&&◌, Option, none, some, Result, ok, err, any, find, ◌==◌,
  string_eq, if◌then◌else◌,
}
use ferrumgw.Config.{Consumer, Configuration}
use ferrumgw.Admin.Api.{
  OperationMode, Done, created_status, no_content, bad_request, not_found, conflict,
  internal_server_error, message, failed, taken, empty, reply, fail, reply_json, unless_file_mode,
}

pub record ConsumerTable (Db Error : Type 0) : Type 0 where
  pub create_consumer : Db → Consumer → Db × Result Error String
  pub update_consumer : Db → Consumer → Db × Result Error (Unit {0})
  pub delete_consumer : Db → String → Db × Result Error (Unit {0})
  pub get_consumer_by_id : Db → String → Result Error Consumer
  pub to_json : Consumer → Result Error String

abbrev pub stamped : String → ℕ → ℕ → Consumer → Consumer
stamped id created_at updated_at c = record c {
  id = id;
  created_at = created_at;
  updated_at = updated_at;
}

abbrev pub exists_consumer : String → Configuration → Bool
exists_consumer consumer_id config = any (λ c. c.id == consumer_id) config.consumers

abbrev pub has_username : String → Configuration → Bool
has_username username config = any (λ c. c.username == username) config.consumers

-- Another consumer than `consumer_id` has the name.
abbrev pub has_other_username : String → String → Configuration → Bool
has_other_username consumer_id username config =
    any (λ c. c.username == username && not (c.id == consumer_id)) config.consumers

module _ {Db Error : Type 0} (T : ConsumerTable Db Error) (mode : OperationMode) where
  -- The id is the one that the database made.
  unfoldable pub after_create : Consumer → Db × Result Error String → Done Db Error
  after_create consumer (db, ok id) =
      reply_json db false created_status
        (T.to_json (stamped id consumer.created_at consumer.updated_at consumer))
  after_create consumer (db, err e) =
      reply db false internal_server_error (failed "Failed to create consumer" e)

  unfoldable pub insert_consumer : Configuration → ℕ → Db → Result Error Consumer → Done Db Error
  insert_consumer config now db (ok consumer) =
      if has_username consumer.username config
      then reply db false conflict (taken "A consumer with username")
      else after_create (stamped consumer.id now now consumer)
          (T.create_consumer db (stamped consumer.id now now consumer))
  insert_consumer config now db (err e) = fail db e

  unfoldable pub create_consumer : Configuration → ℕ → Db → Result Error Consumer → Done Db Error
  create_consumer config now db parsed =
      unless_file_mode mode db (insert_consumer config now db parsed)

  unfoldable pub after_update : Consumer → Db × Result Error (Unit {0}) → Done Db Error
  after_update consumer (db, ok _) = reply_json db false 200 (T.to_json consumer)
  after_update consumer (db, err e) =
      reply db false internal_server_error (failed "Failed to update consumer" e)

  unfoldable pub replace_consumer :
      String → Configuration → ℕ → Db → Result Error Consumer → Done Db Error
  replace_consumer consumer_id config now db (ok consumer) =
      if not (consumer.id == consumer_id)
      then reply db false bad_request
          (message "Consumer ID in the path does not match the ID in the request body")
      else if not (exists_consumer consumer_id config)
      then reply db false not_found (message "Consumer not found")
      else if has_other_username consumer_id consumer.username config
      then reply db false conflict (taken "A consumer with username")
      else after_update (stamped consumer.id consumer.created_at now consumer)
          (T.update_consumer db (stamped consumer.id consumer.created_at now consumer))
  replace_consumer consumer_id config now db (err e) = fail db e

  unfoldable pub update_consumer :
      String → Configuration → ℕ → Db → Result Error Consumer → Done Db Error
  update_consumer consumer_id config now db parsed =
      unless_file_mode mode db (replace_consumer consumer_id config now db parsed)

  unfoldable pub after_delete : Db × Result Error (Unit {0}) → Done Db Error
  after_delete (db, ok _) = reply db false no_content empty
  after_delete (db, err e) =
      reply db false internal_server_error (failed "Failed to delete consumer" e)

  unfoldable pub delete_consumer : String → Configuration → Db → Done Db Error
  delete_consumer consumer_id config db = unless_file_mode mode db (
      if not (exists_consumer consumer_id config)
      then reply db false not_found (message "Consumer not found")
      else after_delete (T.delete_consumer db consumer_id))

-- `get_consumer`: the consumer in memory, or else that of the database; one that neither has is the
-- error `consumer_not_found`.
module _ {Db Error : Type 0} (T : ConsumerTable Db Error) (consumer_not_found : Error) where
  unfoldable pub or_stored : Db → Result Error Consumer → Done Db Error
  or_stored db (ok consumer) = reply_json db false 200 (T.to_json consumer)
  or_stored db (err e) = fail db consumer_not_found

  unfoldable pub found_or_stored : String → Db → Option Consumer → Done Db Error
  found_or_stored consumer_id db (some consumer) = reply_json db false 200 (T.to_json consumer)
  found_or_stored consumer_id db none = or_stored db (T.get_consumer_by_id db consumer_id)

  unfoldable pub get_consumer : String → Configuration → Db → Done Db Error
  get_consumer consumer_id config db =
      found_or_stored consumer_id db (find (λ c. c.id == consumer_id) config.consumers)
