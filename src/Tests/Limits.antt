-- ===== src/Tests/Limits.antt =====
-- The theorems about the rate limiter, at concrete values.
use ferrumgw.Common.DashMap.{write_log}
use ferrumgw.Common.{refl, ◌≡◌, List, [], ◌∷◌, some, arith}
use ferrumgw.Plugins.RateLimiting.{
  RateLimitingConfig, WindowCounter, default_config, Client, RateLimitState, new_state,
  authenticate, check_request, check_limits, check_window, record_request, record_in, record_window,
  is_expired, increment, get_rate_limit_key,
}
use ferrumgw.Plugins.RateLimiting.Bounds.{AreU32, IsWithin, authenticate-IsWithin}
use ferrumgw.Plugins.RateLimiting.Concurrent.{Step, tests, records, passed}

abbrev one_per_second : RateLimitingConfig
one_per_second = record default_config { requests_per_second = 1 }

abbrev alice_at : Client
alice_at = record { username = some "alice"; client_addr = "10.0.0.1" }

abbrev fresh : RateLimitState (write_log WindowCounter)
fresh = new_state (write_log WindowCounter)

-- A state in which the window of the key holds one request.
abbrev used : RateLimitState (write_log WindowCounter)
used = (authenticate (write_log WindowCounter) one_per_second alice_at 10 10 fresh).0

are_u32 : AreU32 one_per_second
are_u32 = record { second = omega arith; minute = omega arith; hour = omega arith }

fresh-IsWithin : IsWithin (write_log WindowCounter) one_per_second fresh
fresh-IsWithin = record {
  second = λ k. omega arith;
  minute = λ k. omega arith;
  hour = λ k. omega arith;
}

authenticate-IsWithin_example :
    IsWithin
      (write_log WindowCounter)
      one_per_second
      (authenticate (write_log WindowCounter) one_per_second alice_at 20 21 fresh).0
authenticate-IsWithin_example =
    authenticate-IsWithin (write_log WindowCounter) one_per_second alice_at 20 21 fresh are_u32
      (omega arith) fresh-IsWithin

-- Two requests of one consumer are tested before either is recorded: both are let through, with a limit of
-- one.
abbrev overlapping : List Step
overlapping =
    tests alice_at 20
    ∷ tests alice_at 21
    ∷ records "consumer:alice" 22
    ∷ records "consumer:alice" 23
    ∷ tests alice_at 24
    ∷ []

both_pass :
    passed
      (write_log WindowCounter)
      one_per_second
      "consumer:alice"
      overlapping
      (record { counters = fresh; pending = [] })
    ≡ 2
unfolding passed check_request check_limits check_window record_request record_in record_window
    is_expired increment get_rate_limit_key
both_pass = refl
