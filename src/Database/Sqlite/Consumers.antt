-- ===== src/Database/Sqlite/Consumers.antt =====
-- src/database/sqlite.rs: the writes of consumers. A new consumer gets the identifier `uuid`, which is
-- an argument; the identifier of the consumer that is given is not stored.
use ferrumgw.Common.{
  ℕ, String, Bool, false, not, ◌&&◌, [], ◌∷◌, ◌++◌, map, Option, none, some, Result, ok, ◌==◌,
  string_eq, any, retain, if◌then◌else◌,
}
use ferrumgw.Config.{Consumer}
use ferrumgw.Database.Sqlite.{
  ConsumerRow, Tables, DbError, username_exists, other_username_exists, custom_id_exists,
  other_custom_id_exists, consumer_missing, constraint_failed, track_deletion, is_named, refuse_if,
}
use ferrumgw.Database.Sqlite.Stamps.{datetime_now}

abbrev pub has_consumer : String → Tables → Bool
has_consumer id t = any (λ row. row.columns.id == id) t.consumers

abbrev pub has_username : String → Tables → Bool
has_username username t = any (λ row. row.columns.username == username) t.consumers

abbrev pub has_custom_id : Option String → Tables → Bool
has_custom_id none t = false
has_custom_id (some custom_id) t = any (λ row. is_named custom_id row.columns.custom_id) t.consumers

abbrev pub new_consumer_row : String → ℕ → Consumer → ConsumerRow
new_consumer_row uuid now consumer = record {
  columns = record consumer { id = uuid };
  created_at = datetime_now now;
  updated_at = datetime_now now;
}

-- `create_consumer`
unfoldable pub create_consumer : String → ℕ → Consumer → Tables → Result DbError Tables
create_consumer uuid now consumer t = refuse_if (has_username consumer.username t) username_exists (
    refuse_if (has_custom_id consumer.custom_id t) custom_id_exists (
      refuse_if (has_consumer uuid t) constraint_failed
        (ok (record t { consumers = t.consumers ++ (new_consumer_row uuid now consumer ∷ []) }))))

abbrev pub has_other_username : Consumer → Tables → Bool
has_other_username consumer t =
    any (λ row. row.columns.username == consumer.username && not (row.columns.id == consumer.id))
      t.consumers

abbrev pub has_other_custom_id : String → Option String → Tables → Bool
has_other_custom_id id none t = false
has_other_custom_id id (some custom_id) t =
    any (λ row. is_named custom_id row.columns.custom_id && not (row.columns.id == id)) t.consumers

abbrev pub update_consumer_row : ℕ → Consumer → ConsumerRow → ConsumerRow
update_consumer_row now consumer row =
    if row.columns.id == consumer.id
    then record {
      columns = record consumer { created_at = row.columns.created_at };
      created_at = row.created_at;
      updated_at = datetime_now now;
    }
    else row

-- `update_consumer`
unfoldable pub update_consumer : ℕ → Consumer → Tables → Result DbError Tables
update_consumer now consumer t = refuse_if (not (has_consumer consumer.id t)) consumer_missing (
    refuse_if (has_other_username consumer t) other_username_exists (
      refuse_if (has_other_custom_id consumer.id consumer.custom_id t) other_custom_id_exists
        (ok (record t { consumers = map (update_consumer_row now consumer) t.consumers }))))

-- `delete_consumer`
unfoldable pub delete_consumer : ℕ → String → Tables → Tables
delete_consumer now id t =
    if has_consumer id t
    then record t {
      consumers = retain (λ row. not (row.columns.id == id)) t.consumers;
      consumer_deletions = track_deletion id (datetime_now now) t.consumer_deletions;
    }
    else t
