-- ===== src/Database/Sqlite/Sound/Consumers.antt =====
-- src/database/sqlite.rs: the writes of consumers keep the keys apart.
use ferrumgw.Common.{
  ℕ, String, ◌≡◌, refl, true, false, ◌==◌, string_eq, bytes_eq, ==_iff, arith, Bool-cases, inl, inr,
}
use ferrumgw.Common.Distinct.{
  append-IsDistinct, retain-IsDistinct, map-IsDistinct, overwrite-IsDistinct,
}
use ferrumgw.Config.{Consumer}
use ferrumgw.Database.Sqlite.{ConsumerRow, Tables}
use ferrumgw.Database.Sqlite.Consumers.{
  create_consumer, update_consumer, delete_consumer, update_consumer_row, new_consumer_row,
  has_consumer,
}
use ferrumgw.Database.Sqlite.Writes.{after, after-guard}
use ferrumgw.Database.Sqlite.Sound.{consumer_id_of, username_of, IsSound}

pub create_consumer-IsSound :
    (uuid : String) (now : ℕ) (consumer : Consumer) (t : Tables)
    → IsSound t
    → IsSound (after t (create_consumer uuid now consumer t))
unfolding create_consumer after
create_consumer-IsSound uuid now consumer t h = after-guard IsSound _ _ _ t h λ free.
    after-guard IsSound _ _ _ t h λ free_id. after-guard IsSound _ _ _ t h λ new. record {
      proxy_ids = h.proxy_ids;
      paths = h.paths;
      consumer_ids =
          append-IsDistinct consumer_id_of t.consumers (new_consumer_row uuid now consumer) new
            h.consumer_ids;
      usernames =
          append-IsDistinct username_of t.consumers (new_consumer_row uuid now consumer) free
            h.usernames;
      plugin_config_ids = h.plugin_config_ids;
    }

update_consumer_row-id :
    (now : ℕ) (consumer : Consumer) (r : ConsumerRow)
    → (update_consumer_row now consumer r).columns.id ≡ r.columns.id
update_consumer_row-id now consumer r = ground (arith, ==_iff r.columns.id consumer.id)

update_row-username :
    (now : ℕ) (consumer : Consumer) (r : ConsumerRow)
    → (r.columns.id == consumer.id) ≡ true
    → (update_consumer_row now consumer r).columns.username ≡ consumer.username
update_row-username now consumer r same = rw same refl

other_row-username :
    (now : ℕ) (consumer : Consumer) (r : ConsumerRow)
    → (r.columns.id == consumer.id) ≡ false
    → (update_consumer_row now consumer r).columns.username ≡ r.columns.username
other_row-username now consumer r other = rw other refl

pub update_consumer-IsSound :
    (now : ℕ) (consumer : Consumer) (t : Tables)
    → IsSound t
    → IsSound (after t (update_consumer now consumer t))
unfolding update_consumer after
update_consumer-IsSound now consumer t h = after-guard IsSound _ _ _ t h λ there.
    after-guard IsSound _ _ _ t h λ free. after-guard IsSound _ _ _ t h λ free_id. record {
      proxy_ids = h.proxy_ids;
      paths = h.paths;
      consumer_ids =
          map-IsDistinct consumer_id_of (update_consumer_row now consumer)
            (update_consumer_row-id now consumer) t.consumers h.consumer_ids;
      usernames =
          overwrite-IsDistinct username_of consumer_id_of consumer.id consumer.username
            (update_consumer_row now consumer) (update_row-username now consumer)
            (other_row-username now consumer) t.consumers h.consumer_ids free h.usernames;
      plugin_config_ids = h.plugin_config_ids;
    }

pub delete_consumer-IsSound :
    (now : ℕ) (id : String) (t : Tables) → IsSound t → IsSound (delete_consumer now id t)
unfolding delete_consumer
delete_consumer-IsSound now id t h = elim (Bool-cases (has_consumer id t)) [
  | inl there ↦ rw there (record {
    proxy_ids = h.proxy_ids;
    paths = h.paths;
    consumer_ids = retain-IsDistinct consumer_id_of _ t.consumers h.consumer_ids;
    usernames = retain-IsDistinct username_of _ t.consumers h.usernames;
    plugin_config_ids = h.plugin_config_ids;
  })
  | inr absent ↦ rw absent h
]
