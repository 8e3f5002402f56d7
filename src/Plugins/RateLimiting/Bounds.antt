-- ===== src/Plugins/RateLimiting/Bounds.antt =====
-- No counter of the rate limiter passes its limit.
use ferrumgw.Common.DashMap.{DashMap}
use ferrumgw.Common.{
  ℕ, ◌≤◌, ◌<◌, String, ◌≡◌, false, Option, none, some, arith, Bool-cases, inl, inr,
}
use ferrumgw.Plugins.RateLimiting.{
  RateLimitingConfig, WindowCounter, u32_mod, is_expired, record_window, second_ms, minute_ms,
  hour_ms, Client, get_rate_limit_key, skips, RateLimitState, record_in, record_request,
  authenticate,
}
use ferrumgw.Plugins.RateLimiting.Decision.{exhausted, any_exhausted, authenticate_decision}

abbrev pub count_of : Option WindowCounter → ℕ
count_of none = 0
count_of (some counter) = counter.count

-- The limits are `u32` values.
pub record AreU32 (config : RateLimitingConfig) : Type 0 where
  pub second : config.requests_per_second < u32_mod
  pub minute : config.requests_per_minute < u32_mod
  pub hour : config.requests_per_hour < u32_mod

count-record_window :
    (limit duration : ℕ) (counter : Option WindowCounter) (checked recorded : ℕ)
    → exhausted limit duration counter checked ≡ false
    → 0 < limit
    → limit < u32_mod
    → checked ≤ recorded
    → count_of counter ≤ limit
    → (record_window duration counter recorded).count ≤ limit
unfolding record_window is_expired
count-record_window limit duration none checked recorded free pos fits order within = ground arith
count-record_window limit duration (some counter) checked recorded free pos fits order within =
    ground arith

module _ (D : DashMap WindowCounter) where
  open D use {Map, get}

  -- No counter is above the limit.
  abbrev pub Within : ℕ → Map → Type 0
  Within limit counters = (k : String) → count_of (get counters k) ≤ limit

  record_in-Within :
      (limit duration : ℕ) (counters : Map) (key : String) (checked recorded : ℕ)
      → exhausted limit duration (get counters key) checked ≡ false
      → limit < u32_mod
      → checked ≤ recorded
      → Within limit counters
      → Within limit (record_in D limit duration counters key recorded)
  unfolding record_in
  record_in-Within limit duration counters key checked recorded free fits order within k = ground (
    arith,
    within k,
    within key,
    D.get-insert counters key k (record_window duration (get counters key) recorded),
    count-record_window limit duration (get counters key) checked recorded,
  )

  pub record IsWithin (config : RateLimitingConfig) (s : RateLimitState D) : Type 0 where
    pub second : Within config.requests_per_second s.second_counters
    pub minute : Within config.requests_per_minute s.minute_counters
    pub hour : Within config.requests_per_hour s.hour_counters

  record_request-IsWithin :
      (config : RateLimitingConfig) (s : RateLimitState D) (key : String) (checked recorded : ℕ)
      → AreU32 config
      → any_exhausted D s key config checked ≡ false
      → checked ≤ recorded
      → IsWithin config s
      → IsWithin config (record_request D s key config recorded)
  unfolding record_request
  record_request-IsWithin config s key checked recorded fits free order h = record {
    second =
        record_in-Within config.requests_per_second second_ms s.second_counters key checked recorded
          (ground arith) fits.second order h.second;
    minute =
        record_in-Within config.requests_per_minute minute_ms s.minute_counters key checked recorded
          (ground arith) fits.minute order h.minute;
    hour =
        record_in-Within config.requests_per_hour hour_ms s.hour_counters key checked recorded
          (ground arith) fits.hour order h.hour;
  }

  -- With `u32` limits and a clock that does not run backwards between the test and the record, a request
  -- during which no other is tested or recorded makes no counter of any key pass the limit of its window.
  pub authenticate-IsWithin :
      (config : RateLimitingConfig) (client : Client) (checked recorded : ℕ) (s : RateLimitState D)
      → AreU32 config
      → checked ≤ recorded
      → IsWithin config s
      → IsWithin config (authenticate D config client checked recorded s).0
  authenticate-IsWithin config client checked recorded s fits order h =
      let key = get_rate_limit_key config.limit_by client in
      let stays = authenticate_decision D config client checked recorded s in
      rw stays.1 elim (Bool-cases (skips config.limit_by client.username)) [
        | inl skip ↦ rw skip h
        | inr limited ↦ elim (Bool-cases (any_exhausted D s key config checked)) [
          | inl full ↦ rw (limited, full) h
          | inr free ↦
              rw (limited, free)
                (record_request-IsWithin config s key checked recorded fits free order h)
        ]
      ]
