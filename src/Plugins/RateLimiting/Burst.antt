-- ===== src/Plugins/RateLimiting/Burst.antt =====
-- How many requests of a burst, handled one after the other, the rate limiter lets through.
use ferrumgw.Common.DashMap.{DashMap}
use ferrumgw.Common.{
  ℕ, ◌+◌, ◌≤◌, ◌<◌, String, ◌≡◌, Bool, true, false, not, ◌&&◌, List, [], ◌∷◌, Option, none, some,
  arith, ◌==◌, string_eq, ==_iff, ap, ◌∙◌, All, Bool-cases, inl, inr, if◌then◌else◌,
}
use ferrumgw.Plugins.RateLimiting.{
  RateLimitingConfig, WindowCounter, u32_mod, is_expired, record_window, second_ms, Client,
  get_rate_limit_key, skips, RateLimitState, record_in, record_request, authenticate,
}
use ferrumgw.Plugins.RateLimiting.Decision.{exhausted, is_allowed, authenticate_decision}
use ferrumgw.Plugins.RateLimiting.Bounds.{count_of}

pub record Request : Type 0 where
  pub client : Client
  pub checked : ℕ
  pub recorded : ℕ

-- The request is limited, and its key is `k`.
abbrev pub counts_for : RateLimitingConfig → String → Request → Bool
counts_for config k r =
    not (skips config.limit_by r.client.username)
    && get_rate_limit_key config.limit_by r.client == k

-- The clock readings of the request lie in the second that starts at `start`.
abbrev pub WithinSecond : ℕ → Request → Type 0
WithinSecond start r =
    (start ≤ r.checked) × (r.checked ≤ r.recorded) × (r.recorded < start + second_ms)

-- The window, if there is one, started at `start` or later.
abbrev StartedFrom : ℕ → Option WindowCounter → Type 0
StartedFrom start none = Unit
StartedFrom start (some counter) = start ≤ counter.window_start

next_window :
    (limit start : ℕ) (counter : Option WindowCounter) (r : Request)
    → StartedFrom start counter
    → WithinSecond start r
    → exhausted limit second_ms counter r.checked ≡ false
    → 0 < limit
    → limit < u32_mod
    → count_of counter ≤ limit
    → ((record_window second_ms counter r.recorded).count ≡ count_of counter + 1)
      × (start ≤ (record_window second_ms counter r.recorded).window_start)
      × (count_of counter + 1 ≤ limit)
unfolding record_window is_expired
next_window limit start none r started time free pos fits within = ground arith
next_window limit start (some counter) r started time free pos fits within = ground arith

module _ (D : DashMap WindowCounter) (config : RateLimitingConfig) (k : String) where
  open D use {Map, get}

  -- The requests are authenticated one after the other: how many of those with the key `k` are let
  -- through.
  pub admitted : List Request → RateLimitState D → ℕ
  admitted [] s = 0
  admitted (r ∷ rs) s =
      let (s', verdict) = authenticate D config r.client r.checked r.recorded s in
      (if counts_for config k r && is_allowed verdict then 1 else 0) + admitted rs s'

  -- What the request leaves in the second window of the key `k`.
  second_window :
      (r : Request) (s : RateLimitState D)
      → 0 < config.requests_per_second
      → get (authenticate D config r.client r.checked r.recorded s).0.second_counters k ≡ (
          if counts_for config k r
            && is_allowed (authenticate D config r.client r.checked r.recorded s).1
          then some (record_window second_ms (get s.second_counters k) r.recorded)
          else get s.second_counters k)
  unfolding record_request record_in
  second_window r s pos =
      let key = get_rate_limit_key config.limit_by r.client in
      let decision = authenticate_decision D config r.client r.checked r.recorded s in
      rw (decision.0, decision.1)
        (ground (
          arith,
          ==_iff key k,
          D.get-insert s.second_counters key k
              (record_window second_ms (get s.second_counters key) r.recorded),
        ))

  has_room :
      (r : Request) (s : RateLimitState D)
      → (counts_for config k r
          && is_allowed (authenticate D config r.client r.checked r.recorded s).1)
        ≡ true
      → exhausted config.requests_per_second second_ms (get s.second_counters k) r.checked ≡ false
  has_room r s counted =
      let key = get_rate_limit_key config.limit_by r.client in
      ground (arith, ==_iff key k, authenticate_decision D config r.client r.checked r.recorded s)

  burst :
      (start : ℕ) (rs : List Request) (s : RateLimitState D)
      → 0 < config.requests_per_second
      → config.requests_per_second < u32_mod
      → All (WithinSecond start) rs
      → StartedFrom start (get s.second_counters k)
      → count_of (get s.second_counters k) ≤ config.requests_per_second
      → admitted rs s + count_of (get s.second_counters k) ≤ config.requests_per_second
  unfolding admitted
  burst start [] s pos fits times started within = omega arith
  burst start (r ∷ rs) s pos fits (time, times) started within =
      let s' = (authenticate D config r.client r.checked r.recorded s).0 in
      elim (Bool-cases (
        counts_for config k r
        && is_allowed (authenticate D config r.client r.checked r.recorded s).1)) [
          | inl counted ↦
              let next : ((record_window second_ms (get s.second_counters k) r.recorded).count
                    ≡ count_of (get s.second_counters k) + 1)
                  × (start
                      ≤ (record_window second_ms (get s.second_counters k) r.recorded).window_start)
                  × (count_of (get s.second_counters k) + 1 ≤ config.requests_per_second) =
                next_window config.requests_per_second start (get s.second_counters k) r started
                  time (has_room r s counted) pos fits within in
              let after : get s'.second_counters k
                  ≡ some (record_window second_ms (get s.second_counters k) r.recorded) =
                second_window r s pos ∙ rw counted in
              let rest : admitted rs s' + count_of (get s'.second_counters k)
                  ≤ config.requests_per_second =
                burst start rs s' pos fits times (rw after next.1) (rw after (omega arith)) in
              rw counted (omega (arith, ap count_of after))
          | inr other ↦
              let after : get s'.second_counters k ≡ get s.second_counters k =
                second_window r s pos ∙ rw other in
              let rest : admitted rs s' + count_of (get s'.second_counters k)
                  ≤ config.requests_per_second =
                burst start rs s' pos fits times (rw after started) (rw after within) in
              rw other (omega (arith, ap count_of after))
        ]

  -- Among requests that are handled one after the other, all within one second, at most `requests_per_second` of those
  -- with one key are let through, whatever the other requests are, if the key has no second window
  -- yet. The limit is a `u32` above 0, and the clock does not run backwards within a request.
  pub admitted-le-limit :
      (start : ℕ) (rs : List Request) (s : RateLimitState D)
      → 0 < config.requests_per_second
      → config.requests_per_second < u32_mod
      → All (WithinSecond start) rs
      → get s.second_counters k ≡ none
      → admitted rs s ≤ config.requests_per_second
  admitted-le-limit start rs s pos fits times unseen =
      let total : admitted rs s + count_of (get s.second_counters k) ≤ config.requests_per_second =
        burst start rs s pos fits times (rw unseen tt) (rw unseen (omega arith)) in
      omega arith
