-- ===== src/Admin/Consumers/Credentials.antt =====
-- src/admin/routes/consumers.rs: the handlers of the credentials of a consumer.
-- The two errors are those of a missing consumer and of a missing type of credential.
pub mod Stored
use ferrumgw.Common.{
  ℕ, String, false, not, List, [], ◌∷◌, Option, none, some, Result, ok, err, any, find, retain,
  ◌==◌, string_eq, if◌then◌else◌,
}
use ferrumgw.Config.{Consumer, Configuration}
use ferrumgw.Admin.Api.{
  OperationMode, Done, no_content, not_found, internal_server_error, message, failed, empty, reply,
  fail, reply_json, unless_file_mode,
}
use ferrumgw.Admin.Consumers.{ConsumerTable}
use ferrumgw.Admin.Consumers.Hashing.{Hashing, hash_credential}

abbrev pub Credentials : Type 0
Credentials = List (String × String)

abbrev pub credential_of : Credentials → String → Option String
credential_of [] kind = none
credential_of ((name, value) ∷ rest) kind =
    if name == kind then some value else credential_of rest kind

-- `HashMap::remove` and `HashMap::insert`
unfoldable pub remove_credential : String → Credentials → Credentials
remove_credential kind = retain (λ kv. not (kv.0 == kind))

unfoldable pub insert_credential : String → String → Credentials → Credentials
insert_credential kind value credentials = (kind, value) ∷ remove_credential kind credentials

abbrev pub with_credentials : Credentials → ℕ → Consumer → Consumer
with_credentials credentials now c = record c { credentials = credentials; updated_at = now }

abbrev pub found : String → Configuration → Option Consumer
found consumer_id config = find (λ c. c.id == consumer_id) config.consumers

module _ {Db Error : Type 0} (T : ConsumerTable Db Error) (mode : OperationMode)
    (hashing : Hashing String Error) (value_to_json : String → Result Error String)
    (consumer_not_found credential_not_found : Error) where
  unfoldable pub show_credential : Db → Option String → Done Db Error
  show_credential db (some credential) = reply_json db false 200 (value_to_json credential)
  show_credential db none = fail db credential_not_found

  unfoldable pub show_of : String → Db → Option Consumer → Done Db Error
  show_of kind db (some consumer) = show_credential db (credential_of consumer.credentials kind)
  show_of kind db none = fail db consumer_not_found

  -- `get_consumer_credentials`
  unfoldable pub get_consumer_credentials : String → String → Configuration → Db → Done Db Error
  get_consumer_credentials consumer_id kind config db = show_of kind db (found consumer_id config)

  unfoldable pub after_store : String → Db × Result Error (Unit {0}) → Done Db Error
  after_store credential (db, ok _) = reply_json db false 200 (value_to_json credential)
  after_store credential (db, err e) =
      reply db false internal_server_error (failed "Failed to update consumer credentials" e)

  unfoldable pub store_in : String → String → ℕ → Db → Option Consumer → Done Db Error
  store_in kind credential now db (some consumer) = after_store credential (
      T.update_consumer db
        (with_credentials (insert_credential kind credential consumer.credentials) now consumer))
  store_in kind credential now db none = fail db consumer_not_found

  -- The credential is hashed before the consumer is looked up.
  unfoldable pub store_hashed :
      String → String → Configuration → ℕ → Db → Result Error String → Done Db Error
  store_hashed consumer_id kind config now db (ok credential) =
      store_in kind credential now db (found consumer_id config)
  store_hashed consumer_id kind config now db (err e) = fail db e

  unfoldable pub hash_and_store :
      String → String → Configuration → ℕ → Db → Result Error String → Done Db Error
  hash_and_store consumer_id kind config now db (ok value) =
      store_hashed consumer_id kind config now db (hash_credential hashing kind value)
  hash_and_store consumer_id kind config now db (err e) = fail db e

  -- `update_consumer_credentials`
  unfoldable pub update_consumer_credentials :
      String → String → Configuration → ℕ → Db → Result Error String → Done Db Error
  update_consumer_credentials consumer_id kind config now db parsed =
      unless_file_mode mode db (hash_and_store consumer_id kind config now db parsed)

  unfoldable pub after_drop : Db × Result Error (Unit {0}) → Done Db Error
  after_drop (db, ok _) = reply db false no_content empty
  after_drop (db, err e) =
      reply db false internal_server_error (failed "Failed to delete consumer credentials" e)

  unfoldable pub drop_from : String → ℕ → Db → Option Consumer → Done Db Error
  drop_from kind now db (some consumer) =
      if not (any (λ kv. kv.0 == kind) consumer.credentials)
      then reply db false not_found (message "Credential type not found for this consumer")
      else after_drop (
          T.update_consumer db
            (with_credentials (remove_credential kind consumer.credentials) now consumer))
  drop_from kind now db none = fail db consumer_not_found

  -- `delete_consumer_credentials`
  unfoldable pub delete_consumer_credentials :
      String → String → Configuration → ℕ → Db → Done Db Error
  delete_consumer_credentials consumer_id kind config now db =
      unless_file_mode mode db (drop_from kind now db (found consumer_id config))
