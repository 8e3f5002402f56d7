-- ===== src/Database/Sqlite/Unseen.antt =====
-- src/database/sqlite.rs with src/modes/database.rs: the changes that a delta does not bring.
use ferrumgw.Common.{
  ℕ, ◌/◌, String, ◌≡◌, ◌∙◌, refl, Bool, true, false, List, [], ◌∷◌, map, ok, err, ◌==◌, string_eq,
  nat_eq, any, retain, arith, Bool-cases, inl, inr,
}
use ferrumgw.Config.{Consumer}
use ferrumgw.Config.Delta.{ConfigurationDelta}
use ferrumgw.Modes.Polling.{Database, Settings, Poller, check_changes, apply_changes}
use ferrumgw.Database.Sqlite.{ProxyRow, ConsumerRow, Tables, DbError, no_such_column, refuse_if}
use ferrumgw.Database.Sqlite.Stamps.{Stamp, is_after, to_rfc3339, datetime_now}
use ferrumgw.Database.Sqlite.Consumers.{
  update_consumer, update_consumer_row, has_consumer, has_other_username, has_other_custom_id,
}
use ferrumgw.Database.Sqlite.Loading.{
  rows_since, load_associations, load_configuration_delta, get_latest_update_timestamp, order_by,
  insert_ordered, load_configuration, read_consumer, read_plugin_config, deleted_since,
}

-- A blank sorts before a T.
same_day_not_after :
    (now since : ℕ)
    → since / 86400000 ≡ now / 86400000
    → is_after (datetime_now now) (to_rfc3339 since) ≡ false
same_day_not_after now since same = ground arith

module _ {A : Type 0} (stamp_of : A → Stamp) (p : A → Bool) where
  insert-any :
      (a : A) (xs : List A)
      → any p xs ≡ false
      → p a ≡ false
      → any p (insert_ordered stamp_of a xs) ≡ false
  insert-any a [] h k = ground arith
  insert-any a (x ∷ xs) h k = ground (arith, insert-any a xs)

  order-any : (xs : List A) → any p xs ≡ false → any p (order_by stamp_of xs) ≡ false
  order-any [] h = refl
  order-any (x ∷ xs) h =
      insert-any x (order_by stamp_of xs) (order-any xs (ground arith)) (ground arith)

any-read :
    (id : String) (rows : List ConsumerRow)
    → any (λ c. c.id == id) (map read_consumer rows) ≡ any (λ r. r.columns.id == id) rows
any-read id [] = refl
any-read id (r ∷ rows) = rw (any-read id rows) refl

updated_not_since :
    (now since : ℕ) (consumer : Consumer) (r : ConsumerRow)
    → since / 86400000 ≡ now / 86400000
    → (r.columns.id == consumer.id) ≡ true
    → is_after (update_consumer_row now consumer r).updated_at (to_rfc3339 since) ≡ false
updated_not_since now since consumer r same there = rw there (same_day_not_after now since same)

other-id :
    (now : ℕ) (consumer : Consumer) (r : ConsumerRow)
    → (r.columns.id == consumer.id) ≡ false
    → ((update_consumer_row now consumer r).columns.id == consumer.id) ≡ false
other-id now consumer r other = rw other other

not_retained :
    (now since : ℕ) (consumer : Consumer) (rows : List ConsumerRow)
    → since / 86400000 ≡ now / 86400000
    → any
        (λ r. r.columns.id == consumer.id)
        (retain
          (λ r. is_after r.updated_at (to_rfc3339 since))
          (map (update_consumer_row now consumer) rows))
      ≡ false
not_retained now since consumer [] same = refl
not_retained now since consumer (r ∷ rows) same = elim (Bool-cases (r.columns.id == consumer.id)) [
  | inl there ↦
      rw (updated_not_since now since consumer r same there)
        (not_retained now since consumer rows same)
  | inr other ↦
      ground (arith, other-id now consumer r other, not_retained now since consumer rows same)
]

-- The delta where no proxy was updated.
abbrev quiet_delta : ℕ → ℕ → Tables → ConfigurationDelta
quiet_delta now since t = record {
  updated_proxies = [];
  deleted_proxy_ids = deleted_since since t.proxy_deletions;
  updated_consumers = map read_consumer (rows_since (λ row. row.updated_at) since t.consumers);
  deleted_consumer_ids = deleted_since since t.consumer_deletions;
  updated_plugin_configs =
      map read_plugin_config (rows_since (λ row. row.updated_at) since t.plugin_configs);
  deleted_plugin_config_ids = deleted_since since t.plugin_config_deletions;
  last_updated_at = get_latest_update_timestamp now t;
}

-- A consumer is updated, and a delta is asked for since a time of the same day; no proxy was updated
-- since then, and the update meets no refusal. Then both succeed, and the delta does not bring the
-- consumer, whether the time was before or after the update.
pub update_unseen_same_day :
    (now since later : ℕ) (consumer : Consumer) (t : Tables)
    → since / 86400000 ≡ now / 86400000
    → has_consumer consumer.id t ≡ true
    → has_other_username consumer t ≡ false
    → has_other_custom_id consumer.id consumer.custom_id t ≡ false
    → rows_since (λ row. row.updated_at) since t.proxies ≡ []
    → (u : Tables) × (update_consumer now consumer t ≡ ok u)
      × (delta : ConfigurationDelta) × (load_configuration_delta later since u ≡ ok delta)
      × (any (λ c. c.id == consumer.id) delta.updated_consumers ≡ false)
unfolding update_consumer refuse_if load_configuration_delta
update_unseen_same_day now since later consumer t same there free free_id quiet = (
  record t { consumers = map (update_consumer_row now consumer) t.consumers },
  rw (there, free, free_id) refl,
  quiet_delta later since
      (record t { consumers = map (update_consumer_row now consumer) t.consumers }),
  rw quiet refl,
  any-read consumer.id _
      ∙ order-any (λ r. r.updated_at) (λ r. r.columns.id == consumer.id) _
          (not_retained now since consumer t.consumers same),
)

insert-filled :
    {A : Type 0} (stamp_of : A → Stamp) (a : A) (xs : List A)
    → (x : A) × (ys : List A) × (insert_ordered stamp_of a xs ≡ x ∷ ys)
insert-filled stamp_of a [] = (a, [], refl)
insert-filled stamp_of a (x ∷ xs) = elim (Bool-cases (is_after (stamp_of a) (stamp_of x))) [
  | inl later ↦ (x, insert_ordered stamp_of a xs, rw later refl)
  | inr first ↦ (a, x ∷ xs, rw first refl)
]

since-filled :
    (since : ℕ) (rows : List ProxyRow)
    → any (λ r. is_after r.updated_at (to_rfc3339 since)) rows ≡ true
    → load_associations (rows_since (λ r. r.updated_at) since rows) ≡ err no_such_column
since-filled since [] h = cc
since-filled since (r ∷ rows) h = elim (Bool-cases (is_after r.updated_at (to_rfc3339 since))) [
  | inl later ↦
      let (x, ys, e) =
        insert-filled (λ r. r.updated_at) r (rows_since (λ r. r.updated_at) since rows) in
      rw (later, e) refl
  | inr earlier ↦ rw earlier (since-filled since rows (rw earlier at h))
]

-- The database as the polling task asks it, at a time when it holds these tables.
abbrev pub client_of : Tables → Database DbError
client_of t = record {
  get_latest_update_timestamp = λ now. ok (get_latest_update_timestamp now t);
  load_configuration_delta = λ now since. load_configuration_delta now since t;
  load_full_configuration = λ now. ok (load_configuration now t);
}

-- If a proxy was updated since the time up to which the polling task knows the changes, then its delta
-- fails, and a check for changes leaves the configuration that is served and that time as they are.
pub check_never_brings_proxy :
    (settings : Settings) (now : ℕ) (t : Tables) (s : Poller)
    → any (λ r. is_after r.updated_at (to_rfc3339 s.last_update_timestamp)) t.proxies ≡ true
    → (load_configuration_delta now s.last_update_timestamp t ≡ err no_such_column)
      × ((check_changes settings
            (client_of t)
            now
            (ok (get_latest_update_timestamp now t))
            s).served
          ≡ s.served)
      × ((check_changes settings
            (client_of t)
            now
            (ok (get_latest_update_timestamp now t))
            s).last_update_timestamp
          ≡ s.last_update_timestamp)
unfolding check_changes apply_changes load_configuration_delta
check_never_brings_proxy settings now t s h =
    let failed = since-filled s.last_update_timestamp t.proxies h in
    (rw failed refl, rw failed (ground arith), rw failed (ground arith))
