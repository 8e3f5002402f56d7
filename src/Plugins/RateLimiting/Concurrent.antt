-- ===== src/Plugins/RateLimiting/Concurrent.antt =====
-- src/plugins/rate_limiting/mod.rs: requests that share the counters, between whose tests and records those
-- of others may come.
use ferrumgw.Common.DashMap.{DashMap}
use ferrumgw.Common.{
  ℕ, ◌+◌, ◌≤◌, ◌<◌, String, List, [], ◌∷◌, Option, ◌==◌, string_eq, contains, if◌then◌else◌,
}
use ferrumgw.Plugins.RateLimiting.{
  RateLimitingConfig, WindowCounter, second_ms, Client, Checked, unlimited, to_record, exceeded,
  RateLimitState, record_request, check_request,
}
use ferrumgw.Plugins.RateLimiting.Bounds.{count_of}
use ferrumgw.Plugins.RateLimiting.Pending.{remove_first, count_key, StartedFrom}

-- A request is tested, or one that passed the test under a key is recorded; with the time of the clock.
pub data Step : Type 0 where
  tests : Client → ℕ → Step
  records : String → ℕ → Step

abbrev pub time_of : Step → ℕ
time_of (tests client now) = now
time_of (records key now) = now

-- The steps lie in the second that starts at `start`.
abbrev pub WithinSecond : ℕ → Step → Type 0
WithinSecond start s = (start ≤ time_of s) × (time_of s < start + second_ms)

module _ (D : DashMap WindowCounter) (config : RateLimitingConfig) where
  open D use {get}

  -- The counters, and the keys of the requests that passed the test and are not recorded yet.
  pub record Run : Type 0 where
    pub counters : RateLimitState D
    pub pending : List String

  abbrev pub tested : Run → Checked → Run
  tested r unlimited = r
  tested r (exceeded headers) = r
  tested r (to_record key) = record r { pending = key ∷ r.pending }

  abbrev pub step : Step → Run → Run
  step (tests client now) r = tested r (check_request D config client now r.counters)
  step (records key now) r =
      if contains r.pending key
      then record {
        counters = record_request D r.counters key config now;
        pending = remove_first key r.pending;
      }
      else r

  module _ (k : String) where
    abbrev is_passed : Checked → ℕ
    is_passed unlimited = 0
    is_passed (exceeded headers) = 0
    is_passed (to_record key) = if key == k then 1 else 0

    abbrev passes : Step → Run → ℕ
    passes (tests client now) r = is_passed (check_request D config client now r.counters)
    passes (records key now) r = 0

    -- How many requests with the key `k` pass the test, and so are let through.
    unfoldable pub passed : List Step → Run → ℕ
    passed [] r = 0
    passed (s ∷ steps) r = passes s r + passed steps (step s r)

    -- After each step at most `n` requests with the key stand between their test and their record.
    abbrev pub AtMost : ℕ → List Step → Run → Type 0
    AtMost n [] r = Unit
    AtMost n (s ∷ steps) r = (count_key k (step s r).pending ≤ n) × AtMost n steps (step s r)

    -- The requests that the window counts, and those that it will count.
    abbrev load : Run → ℕ
    load r = count_of (get r.counters.second_counters k) + count_key k r.pending

    -- The window, and the number of requests that it will count.
    record IsLoaded (n start : ℕ) (window : Option WindowCounter) (m : ℕ) : Type 0 where
      pub started : StartedFrom start window
      pub below : count_of window + m < config.requests_per_second + n

    abbrev IsLoadedRun : ℕ → ℕ → Run → Type 0
    IsLoadedRun n start r =
        IsLoaded n start (get r.counters.second_counters k) (count_key k r.pending)
