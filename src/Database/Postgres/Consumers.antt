-- ===== src/Database/Postgres/Consumers.antt =====
-- src/database/postgres.rs: the writes of consumers. The credentials are always an object, so that they
-- are read as they were written.
use ferrumgw.Common.{
  ℕ, String, Bool, false, not, ◌&&◌, ◌||◌, [], ◌∷◌, ◌++◌, map, Option, none, some, Result, ok, ◌==◌,
  string_eq, any, retain, if◌then◌else◌,
}
use ferrumgw.Config.{Consumer}
use ferrumgw.Database.Sqlite.{
  DbError, username_exists, other_username_exists, custom_id_exists, other_custom_id_exists,
  consumer_missing, constraint_failed, is_named,
}
use ferrumgw.Database.Postgres.{Schema, Tables, track_deletion, refuse_if}

abbrev pub has_consumer : String → Tables → Bool
has_consumer id t = any (λ c. c.id == id) t.consumers

abbrev pub has_username : String → Tables → Bool
has_username username t = any (λ c. c.username == username) t.consumers

abbrev pub has_custom_id : Option String → Tables → Bool
has_custom_id none t = false
has_custom_id (some custom_id) t = any (λ c. is_named custom_id c.custom_id) t.consumers

abbrev pub returned_consumer : String → ℕ → Consumer → Consumer
returned_consumer uuid now consumer = record consumer {
  id = uuid;
  created_at = now;
  updated_at = now;
}

-- `create_consumer`
unfoldable pub create_consumer :
    Schema → String → ℕ → Consumer → Tables → Result DbError (Consumer × Tables)
create_consumer schema uuid now consumer t =
    refuse_if (has_username consumer.username t) username_exists (
      refuse_if (has_custom_id consumer.custom_id t) custom_id_exists (
        refuse_if (not schema.generates_ids || has_consumer uuid t) constraint_failed (
          ok (
            returned_consumer uuid now consumer,
            record t { consumers = t.consumers ++ (returned_consumer uuid now consumer ∷ []) },
          ))))

abbrev pub has_other_username : Consumer → Tables → Bool
has_other_username consumer t =
    any (λ c. c.username == consumer.username && not (c.id == consumer.id)) t.consumers

abbrev pub has_other_custom_id : String → Option String → Tables → Bool
has_other_custom_id id none t = false
has_other_custom_id id (some custom_id) t =
    any (λ c. is_named custom_id c.custom_id && not (c.id == id)) t.consumers

abbrev pub update_consumer_row : ℕ → Consumer → Consumer → Consumer
update_consumer_row now consumer c =
    if c.id == consumer.id
    then record consumer { created_at = c.created_at; updated_at = now }
    else c

-- `update_consumer`
unfoldable pub update_consumer : ℕ → Consumer → Tables → Result DbError (Consumer × Tables)
update_consumer now consumer t = refuse_if (not (has_consumer consumer.id t)) consumer_missing (
    refuse_if (has_other_username consumer t) other_username_exists (
      refuse_if (has_other_custom_id consumer.id consumer.custom_id t) other_custom_id_exists (
        ok (
          record consumer { updated_at = now },
          record t { consumers = map (update_consumer_row now consumer) t.consumers },
        ))))

-- `delete_consumer`
unfoldable pub delete_consumer : ℕ → String → Tables → Result DbError Tables
delete_consumer now id t = refuse_if (not (has_consumer id t)) consumer_missing (
    ok (record t {
      consumers = retain (λ c. not (c.id == id)) t.consumers;
      consumer_deletions = track_deletion id now t.consumer_deletions;
    }))
