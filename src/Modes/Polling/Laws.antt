-- ===== src/Modes/Polling/Laws.antt =====
-- src/modes/database.rs: what the polling task keeps, and when it never reloads.
use ferrumgw.Common.{
  ℕ, ◌≤◌, ◌<◌, ◌≡◌, refl, false, Bool-cases, inl, inr, Result, ok, err, ltb, arith, lt→ltb,
}
use ferrumgw.Config.{Configuration}
use ferrumgw.Config.Delta.{ConfigurationDelta, apply_to}
use ferrumgw.Config.Paths.{PathError, validate_listen_path_uniqueness, HasUniquePaths, validate_iff}
use ferrumgw.Modes.Polling.{
  Database, Settings, Poller, apply_changes, check_changes, take_over, reload, Step, check, poll,
  Steps, here, then_step,
}

module _ {Error : Type 0} (settings : Settings) (db : Database Error) where
  -- The time up to which changes were loaded is not later than that of the configuration.
  abbrev pub IsTracked : Poller → Type 0
  IsTracked s = s.last_update_timestamp ≤ s.served.last_updated_at

  apply_changes-IsTracked :
      (now : ℕ) (o : Result Error ConfigurationDelta) (s : Poller)
      → IsTracked s
      → IsTracked (apply_changes settings db now o s)
  unfolding apply_changes apply_to
  apply_changes-IsTracked now (err e) s h = h
  apply_changes-IsTracked now (ok delta) s h = ground arith

  check_changes-IsTracked :
      (now : ℕ) (o : Result Error ℕ) (s : Poller)
      → IsTracked s
      → IsTracked (check_changes settings db now o s)
  unfolding check_changes
  check_changes-IsTracked now (err e) s h = h
  check_changes-IsTracked now (ok latest) s h = ground (
    arith,
    apply_changes-IsTracked now (db.load_configuration_delta now s.last_update_timestamp) s,
  )

  take_over-IsTracked :
      (config : Configuration) (o : Result PathError (Unit {0})) (s : Poller)
      → IsTracked s
      → IsTracked (take_over settings db config o s)
  unfolding take_over
  take_over-IsTracked config (err e) s h = h
  take_over-IsTracked config (ok u) s h = ground arith

  reload-IsTracked :
      (o : Result Error Configuration) (s : Poller)
      → IsTracked s
      → IsTracked (reload settings db o s)
  unfolding reload
  reload-IsTracked (err e) s h = h
  reload-IsTracked (ok config) s h =
      take_over-IsTracked config (validate_listen_path_uniqueness config) s h

  -- Along every run of the polling task the time from which deltas are asked is not later than the
  -- time of the configuration that is served, if it is so at the start.
  pub steps-IsTracked : (s s' : Poller) → Steps settings db s s' → IsTracked s → IsTracked s'
  steps-IsTracked s _ here h = h
  steps-IsTracked s _ (then_step {t = t} run (check due)) h =
      check_changes-IsTracked t.check_at (db.get_latest_update_timestamp t.check_at) _
        (steps-IsTracked s t run h)
  steps-IsTracked s _ (then_step {t = t} run (poll due)) h =
      reload-IsTracked (db.load_full_configuration t.poll_at) _ (steps-IsTracked s t run h)

  -- The proxies that are served listen on different paths.
  abbrev pub IsValid : Poller → Type 0
  IsValid s = HasUniquePaths s.served.proxies

  check_changes-IsValid :
      (now : ℕ) (o : Result Error ℕ) (s : Poller)
      → settings.use_incremental_polling ≡ false
      → IsValid s
      → IsValid (check_changes settings db now o s)
  unfolding check_changes
  check_changes-IsValid now (err e) s full h = h
  check_changes-IsValid now (ok latest) s full h =
      elim (Bool-cases (ltb s.last_update_timestamp latest)) [
        | inl later ↦ rw (later, full) h
        | inr old ↦ rw old h
      ]

  take_over-IsValid :
      (config : Configuration) (o : Result PathError (Unit {0})) (s : Poller)
      → validate_listen_path_uniqueness config ≡ o
      → IsValid s
      → IsValid (take_over settings db config o s)
  unfolding take_over
  take_over-IsValid config (err e) s eq h = h
  take_over-IsValid config (ok tt) s eq h =
      elim (Bool-cases (ltb s.last_update_timestamp config.last_updated_at)) [
        | inl later ↦ rw later ((validate_iff config).0 eq)
        | inr old ↦ rw old h
      ]

  reload-IsValid :
      (o : Result Error Configuration) (s : Poller) → IsValid s → IsValid (reload settings db o s)
  unfolding reload
  reload-IsValid (err e) s h = h
  reload-IsValid (ok config) s h =
      take_over-IsValid config (validate_listen_path_uniqueness config) s refl h

  -- Without incremental polling every configuration that the polling task comes to serve has
  -- different listen paths, whatever the database returns, if the first one has.
  pub steps-IsValid :
      (s s' : Poller)
      → settings.use_incremental_polling ≡ false
      → Steps settings db s s'
      → IsValid s
      → IsValid s'
  steps-IsValid s _ full here h = h
  steps-IsValid s _ full (then_step {t = t} run (check due)) h =
      check_changes-IsValid t.check_at (db.get_latest_update_timestamp t.check_at) _ full
        (steps-IsValid s t full run h)
  steps-IsValid s _ full (then_step {t = t} run (poll due)) h =
      reload-IsValid (db.load_full_configuration t.poll_at) _ (steps-IsValid s t full run h)

  -- The next event is a check, and the configuration is the one of `s`.
  abbrev pub IsStarved : Poller → Poller → Type 0
  IsStarved s t =
      (t.served ≡ s.served)
      × (t.last_update_timestamp ≡ s.last_update_timestamp)
      × (t.check_at < t.poll_at)

  -- Each check finds a change that `s` has not seen.
  abbrev pub KeepsChanging : Poller → Type 0
  KeepsChanging s =
      (now : ℕ)
      → (latest : ℕ) × (db.get_latest_update_timestamp now ≡ ok latest)
        × (s.last_update_timestamp < latest)

  starves_next :
      (s t u : Poller)
      → settings.use_incremental_polling ≡ false
      → settings.check_interval < settings.poll_interval
      → KeepsChanging s
      → IsStarved s t
      → Step settings db t u
      → IsStarved s u
  unfolding check_changes
  starves_next s t _ full often changes (same, seen, first) (check due) =
      let (latest, answer, later) = changes t.check_at in
      rw (answer, lt→ltb t.last_update_timestamp latest (rw seen later), full)
        (same, seen, omega (arith, often))
  starves_next s t _ full often changes (same, seen, first) (poll due) =
      absurd (omega (arith, due, first))

  -- Without incremental polling, where a check comes more often than a reload and each check finds a
  -- change, the reload never takes place: the configuration that is served stays the same in every
  -- run, since each check resets the timer of the reload. The next event is a check at the start.
  pub reload_starves :
      (s s' : Poller)
      → settings.use_incremental_polling ≡ false
      → settings.check_interval < settings.poll_interval
      → KeepsChanging s
      → s.check_at < s.poll_at
      → Steps settings db s s'
      → IsStarved s s'
  reload_starves s _ full often changes first here = (refl, refl, first)
  reload_starves s u full often changes first (then_step {t = t} run step) =
      starves_next s t u full often changes (reload_starves s t full often changes first run) step
