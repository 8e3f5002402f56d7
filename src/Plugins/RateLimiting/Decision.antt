-- ===== src/Plugins/RateLimiting/Decision.antt =====
-- Whom the rate limiter refuses.
use ferrumgw.Common.DashMap.{DashMap}
use ferrumgw.Common.{
  ℕ, ◌-◌, String, ◌≡◌, Bool, true, false, not, ◌&&◌, ◌||◌, Option, none, some, arith, ltb, leb,
  if◌then◌else◌,
}
use ferrumgw.Plugins.RateLimiting.{
  RateLimitingConfig, WindowCounter, RateLimitCheckResult, is_expired, check_window, second_ms,
  minute_ms, hour_ms, Client, get_rate_limit_key, skips, Verdict, allowed, refused, RateLimitState,
  new_state, check_limits, record_request, check_request, finish_request, authenticate,
}

-- The window is limited, still runs, and holds as many requests as its limit.
abbrev pub exhausted : ℕ → ℕ → Option WindowCounter → ℕ → Bool
exhausted limit duration none now = false
exhausted limit duration (some counter) now =
    ltb 0 limit && (ltb (now - counter.window_start) duration && leb limit counter.count)

check_window_exceeded :
    (unit : String) (duration limit : ℕ) (counter : Option WindowCounter) (now : ℕ)
    (result : RateLimitCheckResult)
    → (check_window unit duration limit counter now result).limit_exceeded
      ≡ (result.limit_exceeded || exhausted limit duration counter now)
unfolding check_window is_expired
check_window_exceeded unit duration limit none now result = ground arith
check_window_exceeded unit duration limit (some counter) now result = ground arith

abbrev pub is_allowed : Verdict → Bool
is_allowed allowed = true
is_allowed (refused _) = false

module _ (D : DashMap WindowCounter) where
  open D use {Map, get}

  -- One of the configured windows of the key is exhausted.
  abbrev pub any_exhausted : RateLimitState D → String → RateLimitingConfig → ℕ → Bool
  any_exhausted s key config now =
      exhausted config.requests_per_second second_ms (get s.second_counters key) now
      || exhausted config.requests_per_minute minute_ms (get s.minute_counters key) now
      || exhausted config.requests_per_hour hour_ms (get s.hour_counters key) now

  pub limit_exceeded-check_limits :
      (s : RateLimitState D) (key : String) (config : RateLimitingConfig) (now : ℕ)
      → (check_limits D s key config now).limit_exceeded ≡ any_exhausted s key config now
  unfolding check_limits
  limit_exceeded-check_limits s key config now = simp check_window_exceeded (ground arith)

  -- A request is let through exactly when there is no consumer to limit by, or none of the
  -- configured windows of its key runs and holds as many requests as its limit. A request that is
  -- let through by the second test is recorded; in every other case the counters stay as they are.
  pub authenticate_decision :
      (config : RateLimitingConfig) (client : Client) (checked recorded : ℕ) (s : RateLimitState D)
      → (is_allowed (authenticate D config client checked recorded s).1 ≡ (
          skips config.limit_by client.username
          || not (any_exhausted s (get_rate_limit_key config.limit_by client) config checked)))
        × ((authenticate D config client checked recorded s).0 ≡ (
            if skips config.limit_by client.username
              || any_exhausted s (get_rate_limit_key config.limit_by client) config checked
            then s
            else record_request D s (get_rate_limit_key config.limit_by client) config recorded))
  unfolding authenticate check_request finish_request
  authenticate_decision config client checked recorded s = ground (
    arith,
    limit_exceeded-check_limits s (get_rate_limit_key config.limit_by client) config checked,
  )

  no_window :
      (limit duration now : ℕ) (k : String) → exhausted limit duration (get D.empty k) now ≡ false
  no_window limit duration now k = rw D.get-empty

  -- A plugin instance whose counters are new lets every request through, whatever the limits.
  pub fresh_instance_allows :
      (config : RateLimitingConfig) (client : Client) (checked recorded : ℕ)
      → (authenticate D config client checked recorded (new_state D)).1 ≡ allowed
  unfolding authenticate check_request finish_request
  fresh_instance_allows config client checked recorded = ground (
    arith,
    limit_exceeded-check_limits (new_state D) (get_rate_limit_key config.limit_by client) config
        checked,
    no_window config.requests_per_second second_ms checked
        (get_rate_limit_key config.limit_by client),
    no_window config.requests_per_minute minute_ms checked
        (get_rate_limit_key config.limit_by client),
    no_window config.requests_per_hour hour_ms checked (get_rate_limit_key config.limit_by client),
  )
