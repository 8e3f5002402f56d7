-- ===== src/Modes/ControlPlane/Mirrored.antt =====
-- src/modes/control_plane.rs: the updates that are pushed are enough to follow the configuration.
use ferrumgw.Common.{
  ℕ, ◌≡◌, refl, ap, ◌∙◌, String, Bool-cases, inl, inr, List, [], ◌∷◌, map, Result, ok, err, ltb,
  contains, ◌==◌, string_eq,
}
use ferrumgw.Config.{Configuration}
use ferrumgw.Config.Delta.{
  ConfigurationDelta, apply_to, is_empty_delta, upsert, upsert_all, remove_ids,
}
use ferrumgw.Config.Paths.{PathError, validate_listen_path_uniqueness}
use ferrumgw.Grpc.Messages.{Entities}
use ferrumgw.Grpc.Conversions.{
  Codec, proxy_to_proto, consumer_to_proto, plugin_config_to_proto, entities_of,
}
use ferrumgw.Modes.Polling.{Database, Settings}
use ferrumgw.Modes.ControlPlane.{
  Update, delta_update, full_snapshot, ConfigUpdate, Poller, delta_to_proto, apply_changes,
  check_changes, take_over, reload, check, poll, Steps, here, then_step,
}

module _ {A B : Type 0} (f : A → B) (id_of : A → String) (id_of' : B → String)
    (same : (a : A) → id_of' (f a) ≡ id_of a) where
  map-upsert : (a : A) (xs : List A) → map f (upsert id_of a xs) ≡ upsert id_of' (f a) (map f xs)
  unfolding upsert
  map-upsert a [] = refl
  map-upsert a (x ∷ xs) =
      rw (same x, same a)
        (elim (Bool-cases (id_of x == id_of a)) [
          | inl found ↦ rw found refl
          | inr other ↦ rw (other, map-upsert a xs) refl
        ])

  map-upsert_all :
      (updated xs : List A)
      → map f (upsert_all id_of updated xs) ≡ upsert_all id_of' (map f updated) (map f xs)
  unfolding upsert_all
  map-upsert_all [] xs = refl
  map-upsert_all (a ∷ updated) xs =
      map-upsert_all updated (upsert id_of a xs)
      ∙ ap (upsert_all id_of' (map f updated)) (map-upsert a xs)

  map-remove_ids :
      (deleted : List String) (xs : List A)
      → map f (remove_ids id_of deleted xs) ≡ remove_ids id_of' deleted (map f xs)
  unfolding remove_ids
  map-remove_ids deleted [] = refl
  map-remove_ids deleted (x ∷ xs) = rw (same x) (elim (Bool-cases (contains deleted (id_of x))) [
    | inl gone ↦ rw gone (map-remove_ids deleted xs)
    | inr kept ↦ rw (kept, map-remove_ids deleted xs) refl
  ])

  map-changes :
      (updated : List A) (deleted : List String) (xs : List A)
      → map f (remove_ids id_of deleted (upsert_all id_of updated xs))
        ≡ remove_ids id_of' deleted (upsert_all id_of' (map f updated) (map f xs))
  map-changes updated deleted xs =
      map-remove_ids deleted (upsert_all id_of updated xs)
      ∙ ap (remove_ids id_of' deleted) (map-upsert_all updated xs)

-- What a receiver makes of an update: a delta changes the entities that it has, a snapshot replaces them.
abbrev pub receive : Update → Entities → Entities
receive (full_snapshot entities) old = entities
receive (delta_update delta) old = record {
  proxies =
      remove_ids (λ x. x.id) delta.remove_proxy_ids
        (upsert_all (λ x. x.id) delta.upsert_proxies old.proxies);
  consumers =
      remove_ids (λ x. x.id) delta.remove_consumer_ids
        (upsert_all (λ x. x.id) delta.upsert_consumers old.consumers);
  plugin_configs =
      remove_ids (λ x. x.id) delta.remove_plugin_config_ids
        (upsert_all (λ x. x.id) delta.upsert_plugin_configs old.plugin_configs);
}

-- All updates, the last first.
abbrev pub receive_all : List ConfigUpdate → Entities → Entities
receive_all [] entities = entities
receive_all (update ∷ updates) entities = receive update.update (receive_all updates entities)

module _ {Error : Type 0} (codec : Codec Error) (settings : Settings) (db : Database Error) where
  -- A receiver that had the entities `initial` before the first update has those that are served.
  abbrev pub IsMirrored : Entities → Poller → Type 0
  IsMirrored initial s = receive_all s.pushed initial ≡ entities_of codec s.served

  receive-delta :
      (delta : ConfigurationDelta) (config : Configuration)
      → receive (delta_update (delta_to_proto codec delta)) (entities_of codec config)
        ≡ entities_of codec (apply_to delta config)
  unfolding delta_to_proto entities_of apply_to proxy_to_proto consumer_to_proto
      plugin_config_to_proto
  receive-delta delta config =
      rw
        (
          map-changes (proxy_to_proto codec) (λ x. x.id) (λ x. x.id) (λ a. refl)
              delta.updated_proxies delta.deleted_proxy_ids config.proxies,
          map-changes (consumer_to_proto codec) (λ x. x.id) (λ x. x.id) (λ a. refl)
              delta.updated_consumers delta.deleted_consumer_ids config.consumers,
          map-changes (plugin_config_to_proto codec) (λ x. x.id) (λ x. x.id) (λ a. refl)
              delta.updated_plugin_configs delta.deleted_plugin_config_ids config.plugin_configs,
        )
        refl

  apply_changes-IsMirrored :
      (initial : Entities) (now : ℕ) (o : Result Error ConfigurationDelta) (s : Poller)
      → IsMirrored initial s
      → IsMirrored initial (apply_changes codec settings db now o s)
  unfolding apply_changes
  apply_changes-IsMirrored initial now (err e) s h = h
  apply_changes-IsMirrored initial now (ok delta) s h = elim (Bool-cases (is_empty_delta delta)) [
    | inl empty ↦ rw empty h
    | inr filled ↦
        rw filled (
          ap (receive (delta_update (delta_to_proto codec delta))) h ∙ receive-delta delta s.served)
  ]

  check_changes-IsMirrored :
      (initial : Entities) (now : ℕ) (o : Result Error ℕ) (s : Poller)
      → IsMirrored initial s
      → IsMirrored initial (check_changes codec settings db now o s)
  unfolding check_changes apply_changes
  check_changes-IsMirrored initial now (err e) s h = h
  check_changes-IsMirrored initial now (ok latest) s h =
      elim (Bool-cases (ltb s.last_update_timestamp latest)) [
        | inr old ↦ rw old h
        | inl later ↦ rw later (elim (Bool-cases settings.use_incremental_polling) [
          | inl by_delta ↦ rw by_delta (
              apply_changes-IsMirrored initial now
                (db.load_configuration_delta now s.last_update_timestamp) s h)
          | inr in_full ↦ rw in_full h
        ])
      ]

  take_over-IsMirrored :
      (initial : Entities) (config : Configuration) (o : Result PathError (Unit {0})) (s : Poller)
      → IsMirrored initial s
      → IsMirrored initial (take_over codec settings db config o s)
  unfolding take_over
  take_over-IsMirrored initial config (err e) s h = h
  take_over-IsMirrored initial config (ok tt) s h =
      elim (Bool-cases (ltb s.served.last_updated_at config.last_updated_at)) [
        | inl later ↦ rw later refl
        | inr old ↦ rw old h
      ]

  reload-IsMirrored :
      (initial : Entities) (o : Result Error Configuration) (s : Poller)
      → IsMirrored initial s
      → IsMirrored initial (reload codec settings db o s)
  unfolding reload
  reload-IsMirrored initial (err e) s h = h
  reload-IsMirrored initial (ok config) s h =
      take_over-IsMirrored initial config (validate_listen_path_uniqueness config) s h

  -- In every run of the polling task, a receiver that has the entities of the served configuration at the
  -- start and gets all updates that are pushed has those of the served configuration at the end: by deltas,
  -- by full updates, and whatever the database returns.
  pub steps-IsMirrored :
      (initial : Entities) (s s' : Poller)
      → Steps codec settings db s s'
      → IsMirrored initial s
      → IsMirrored initial s'
  steps-IsMirrored initial s _ here h = h
  steps-IsMirrored initial s _ (then_step {t = t} run (check due)) h =
      check_changes-IsMirrored initial t.check_at (db.get_latest_update_timestamp t.check_at) _
        (steps-IsMirrored initial s t run h)
  steps-IsMirrored initial s _ (then_step {t = t} run (poll due)) h =
      reload-IsMirrored initial (db.load_full_configuration t.poll_at) _
        (steps-IsMirrored initial s t run h)
