-- ===== src/Modes/DataPlane/Retrying.antt =====
-- src/modes/data_plane.rs: how often a data plane tries again.
use ferrumgw.Common.{
  ℕ, suc, ◌+◌, ◌≤◌, ◌<◌, ◌≡◌, ◌⊎◌, inl, inr, refl, true, List, [], ◌∷◌, none, some, Result, ok, err,
  arith,
}
use ferrumgw.Modes.DataPlane.{Reconnecting, new_reconnecting, after_connection, reconnect}

module _ {Error : Type 0} where
  abbrev pub failures : List (Result Error (Unit {0}) × ℕ) → ℕ
  failures [] = 0
  failures ((ok _, jitter) ∷ rest) = failures rest
  failures ((err e, jitter) ∷ rest) = suc (failures rest)

  -- A failure after which the channel is full: the loop stands still at the next one.
  notified_waits :
      (outcomes : List (Result Error (Unit {0}) × ℕ)) (s : Reconnecting)
      → s.is_notified ≡ true
      → ((failures outcomes < 1)
          × (t : Reconnecting) × (reconnect outcomes s ≡ some t)
          × (t.sleeps ≡ s.sleeps))
        ⊎ ((1 ≤ failures outcomes) × (reconnect outcomes s ≡ none))
  unfolding reconnect after_connection
  notified_waits [] s h = inl (omega arith, s, refl, refl)
  notified_waits ((ok _, jitter) ∷ rest) s h =
      notified_waits rest (record s { connection_retry_delay = 1000 }) h
  notified_waits ((err e, jitter) ∷ rest) s h = inr (omega arith, rw h refl)

  -- The sleeps of a run without a second failure.
  abbrev pub sleeps_of : List (Result Error (Unit {0}) × ℕ) → List ℕ
  sleeps_of [] = []
  sleeps_of ((ok _, jitter) ∷ rest) = sleeps_of rest
  sleeps_of ((err e, jitter) ∷ rest) = (1000 + jitter) ∷ []

  abbrev pub IsRetried : List (Result Error (Unit {0}) × ℕ) → Type 0
  IsRetried outcomes =
      ((failures outcomes ≤ 1)
        × (t : Reconnecting) × (reconnect outcomes new_reconnecting ≡ some t)
        × (t.sleeps ≡ sleeps_of outcomes))
      ⊎ ((2 ≤ failures outcomes) × (reconnect outcomes new_reconnecting ≡ none))

  -- Whatever the connections of a data plane come to: with at most one failure the loop goes on, and
  -- has slept one second and the jitter for it; at the second failure it stops for ever, and the data
  -- plane does not connect again.
  pub reconnect-IsRetried : (outcomes : List (Result Error (Unit {0}) × ℕ)) → IsRetried outcomes
  unfolding reconnect after_connection
  reconnect-IsRetried [] = inl (omega arith, new_reconnecting, refl, refl)
  reconnect-IsRetried ((ok _, jitter) ∷ rest) = reconnect-IsRetried rest
  reconnect-IsRetried ((err e, jitter) ∷ rest) =
      elim (notified_waits rest
        (record {
          connection_retry_delay = 2000;
          is_notified = true;
          sleeps = (1000 + jitter) ∷ [];
        })
        refl) [
          | inl (few, t, run, slept) ↦ inl (omega (arith, few), t, run, slept)
          | inr (more, stuck) ↦ inr (omega (arith, more), stuck)
        ]
