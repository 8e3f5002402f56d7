-- ===== src/Plugins/RateLimiting.antt =====
-- src/plugins/rate_limiting/mod.rs: fixed windows of a second, a minute and an hour, for each key.
-- An `Instant` is a number of milliseconds of the monotonic clock. `check_limits` and
-- `record_request` are given the instant at which each of them reads the clock.
pub mod Decision
pub mod Bounds
pub mod Burst
pub mod Concurrent
pub mod Pending
use Prim.Native.String.{◌++◌ as append}
use ferrumgw.Common.DashMap.{DashMap}
use ferrumgw.Common.{
  ℕ, ◌+◌, ◌-◌, ◌*◌, ◌%◌, ◌^◌, String, Bool, true, false, not, ◌&&◌, List, [], ◌∷◌, ◌++◌, Option,
  none, some, ltb, leb, nat_beq, ◌==◌, string_eq, if◌then◌else◌,
}

pub data LimitBy : Type 0 where
  consumer ip : LimitBy

pub record RateLimitingConfig : Type 0 where
  pub limit_by : LimitBy
  pub requests_per_second : ℕ
  pub requests_per_minute : ℕ
  pub requests_per_hour : ℕ
  pub add_headers : Bool

-- `RateLimitingConfig::default()`
abbrev pub default_config : RateLimitingConfig
default_config = record {
  limit_by = consumer;
  requests_per_second = 0;
  requests_per_minute = 0;
  requests_per_hour = 0;
  add_headers = true;
}

abbrev pub u32_mod : ℕ
u32_mod = 2 ^ 32

pub record WindowCounter : Type 0 where
  pub window_start : ℕ
  pub count : ℕ

-- `WindowCounter::new`, and what `reset` leaves
abbrev pub new_window : ℕ → WindowCounter
new_window now = record { window_start = now; count = 0 }

unfoldable pub is_expired : WindowCounter → ℕ → ℕ → Bool
is_expired counter now window_duration = leb window_duration (now - counter.window_start)

unfoldable pub increment : WindowCounter → WindowCounter
increment counter = record counter { count = (counter.count + 1) % u32_mod }

abbrev pub second_ms : ℕ
second_ms = 1000

abbrev pub minute_ms : ℕ
minute_ms = 60 * 1000

abbrev pub hour_ms : ℕ
hour_ms = 3600 * 1000

pub record RateLimitCheckResult : Type 0 where
  pub limit_exceeded : Bool
  pub window_unit : Option String
  pub remaining : List (String × ℕ)

abbrev pub initial_result : RateLimitCheckResult
initial_result = record { limit_exceeded = false; window_unit = none; remaining = [] }

-- One of the three blocks of `check_limits`. `saturating_sub` is subtraction that stops at 0.
unfoldable pub check_window :
    String → ℕ → ℕ → Option WindowCounter → ℕ → RateLimitCheckResult → RateLimitCheckResult
check_window unit duration limit none now result =
    if ltb 0 limit then record result { remaining = (unit, limit) ∷ result.remaining } else result
check_window unit duration limit (some counter) now result =
    let remaining = if is_expired counter now duration then limit else limit - counter.count in
    let noted = record result { remaining = (unit, remaining) ∷ result.remaining } in
    if ltb 0 limit
    then if nat_beq remaining 0 && not result.limit_exceeded
      then record noted { limit_exceeded = true; window_unit = some unit }
      else noted
    else result

-- The counter that one block of `record_request` writes.
unfoldable pub record_window : ℕ → Option WindowCounter → ℕ → WindowCounter
unfolding increment
record_window duration none now =
    increment (if is_expired (new_window now) now duration then new_window now else new_window now)
record_window duration (some counter) now =
    increment (if is_expired counter now duration then new_window now else counter)

-- What the plugin reads of a `RequestContext`.
pub record Client : Type 0 where
  pub username : Option String
  pub client_addr : String

-- `get_rate_limit_key`
abbrev pub prefixed : String → String → String
prefixed prefix s = append prefix s

unfoldable pub get_rate_limit_key : LimitBy → Client → String
get_rate_limit_key consumer client = elim client.username [
  | none ↦ prefixed "ip:" client.client_addr
  | some username ↦ prefixed "consumer:" username
]
get_rate_limit_key ip client = prefixed "ip:" client.client_addr

abbrev if_set : ℕ → String → List (String × ℕ)
if_set limit name = if ltb 0 limit then (name, limit) ∷ [] else []

abbrev remaining_headers : List (String × ℕ) → List (String × ℕ)
remaining_headers [] = []
remaining_headers ((window, n) ∷ rest) =
    (prefixed "x-ratelimit-remaining-" window, n) ∷ remaining_headers rest

-- The value of `Retry-After` for the unit that was exceeded.
abbrev pub retry_after : String → ℕ
retry_after unit =
    if unit == "second"
    then 1
    else if unit == "minute"
    then 60
    else if unit == "hour"
    then 3600
    else 60

abbrev retry_headers : Bool → Option String → List (String × ℕ)
retry_headers true (some unit) = ("retry-after", retry_after unit) ∷ []
retry_headers true none = []
retry_headers false unit = []

-- `add_rate_limit_headers`: the headers that are set, with their values as numbers.
unfoldable pub rate_limit_headers : RateLimitingConfig → RateLimitCheckResult → List (String × ℕ)
rate_limit_headers config result =
    if config.add_headers
    then if_set config.requests_per_second "x-ratelimit-limit-second"
      ++ (if_set config.requests_per_minute "x-ratelimit-limit-minute"
          ++ (if_set config.requests_per_hour "x-ratelimit-limit-hour"
              ++ (remaining_headers result.remaining
                  ++ retry_headers result.limit_exceeded result.window_unit)))
    else []

-- How `authenticate` ends, with the 429 response that it puts into the request's extensions.
pub data Verdict : Type 0 where
  allowed : Verdict
  refused : List (String × ℕ) → Verdict

-- What the test leaves to be done.
pub data Checked : Type 0 where
  unlimited : Checked
  to_record : String → Checked
  exceeded : List (String × ℕ) → Checked

abbrev pub skips : LimitBy → Option String → Bool
skips consumer none = true
skips _ _ = false

-- The plugin over the concurrent map that holds its counters.
module _ (D : DashMap WindowCounter) where
  open D use {Map, empty, get, insert}

  pub record RateLimitState : Type 0 where
    pub second_counters : Map
    pub minute_counters : Map
    pub hour_counters : Map

  -- `RateLimitState::new`
  abbrev pub new_state : RateLimitState
  new_state = record { second_counters = empty; minute_counters = empty; hour_counters = empty }

  unfoldable pub check_limits :
      RateLimitState → String → RateLimitingConfig → ℕ → RateLimitCheckResult
  check_limits s key config now =
      check_window "hour" hour_ms config.requests_per_hour (get s.hour_counters key) now (
        check_window "minute" minute_ms config.requests_per_minute (get s.minute_counters key) now (
          check_window "second" second_ms config.requests_per_second (get s.second_counters key) now
            initial_result))

  unfoldable pub record_in : ℕ → ℕ → Map → String → ℕ → Map
  record_in limit duration counters key now =
      if ltb 0 limit
      then insert counters key (record_window duration (get counters key) now)
      else counters

  unfoldable pub record_request : RateLimitState → String → RateLimitingConfig → ℕ → RateLimitState
  record_request s key config now = record {
    second_counters = record_in config.requests_per_second second_ms s.second_counters key now;
    minute_counters = record_in config.requests_per_minute minute_ms s.minute_counters key now;
    hour_counters = record_in config.requests_per_hour hour_ms s.hour_counters key now;
  }

  -- The part of `authenticate` up to the test: the request is let through without a record, or to be
  -- recorded under its key, or refused. It reads the clock at `checked`.
  unfoldable pub check_request : RateLimitingConfig → Client → ℕ → RateLimitState → Checked
  check_request config client checked s =
      if skips config.limit_by client.username
      then unlimited
      else let key = get_rate_limit_key config.limit_by client in
        let result = check_limits s key config checked in
        if result.limit_exceeded then exceeded (rate_limit_headers config result) else to_record key

  -- The rest of `authenticate`, which reads the clock at `recorded`. Other requests that share the counters
  -- may come between the two parts.
  unfoldable pub finish_request :
      RateLimitingConfig → ℕ → Checked → RateLimitState → RateLimitState × Verdict
  finish_request config recorded unlimited s = (s, allowed)
  finish_request config recorded (to_record key) s = (record_request s key config recorded, allowed)
  finish_request config recorded (exceeded headers) s = (s, refused headers)

  -- `authenticate`, where no other request comes between the test and the record.
  unfoldable pub authenticate :
      RateLimitingConfig → Client → ℕ → ℕ → RateLimitState → RateLimitState × Verdict
  authenticate config client checked recorded s =
      finish_request config recorded (check_request config client checked s) s
