-- ===== src/Plugins/RateLimiting/Pending.antt =====
-- src/plugins/rate_limiting/mod.rs: the requests that passed the test and are not recorded yet, and what a window
-- that started in the running second does with one of them.
use ferrumgw.Common.{
  ℕ, ◌+◌, ◌≤◌, ◌<◌, String, ◌≡◌, refl, true, false, List, [], ◌∷◌, Option, none, some, arith, ◌==◌,
  string_eq, ==_iff, Bool-cases, inl, inr, contains, if◌then◌else◌,
}
use ferrumgw.Plugins.RateLimiting.{
  WindowCounter, u32_mod, is_expired, increment, record_window, second_ms,
}
use ferrumgw.Plugins.RateLimiting.Decision.{exhausted}
use ferrumgw.Plugins.RateLimiting.Bounds.{count_of}

abbrev pub remove_first : String → List String → List String
remove_first key [] = []
remove_first key (x ∷ xs) = let rest = remove_first key xs in if x == key then xs else x ∷ rest

abbrev pub count_key : String → List String → ℕ
count_key k [] = 0
count_key k (x ∷ xs) = (if x == k then 1 else 0) + count_key k xs

pub count_key-remove_first :
    (k key : String) (xs : List String)
    → contains xs key ≡ true
    → (if key == k then 1 else 0) + count_key k (remove_first key xs) ≡ count_key k xs
count_key-remove_first k key [] h = absurd (ground arith)
count_key-remove_first k key (x ∷ xs) h = elim (Bool-cases (x == key)) [
  | inl same ↦ rw (same, (==_iff x key).0 same) refl
  | inr other ↦ rw other (
      let rest : (if key == k then 1 else 0) + count_key k (remove_first key xs) ≡ count_key k xs =
        count_key-remove_first k key xs (ground arith) in
      omega arith)
]

abbrev pub StartedFrom : ℕ → Option WindowCounter → Type 0
StartedFrom start none = Unit
StartedFrom start (some counter) = start ≤ counter.window_start

-- In a window of this second, a record counts one more, and a test that passes finds room.
pub counts_one :
    (start now : ℕ) (counter : Option WindowCounter)
    → StartedFrom start counter
    → start ≤ now
    → now < start + second_ms
    → count_of counter + 1 < u32_mod
    → ((record_window second_ms counter now).count ≡ count_of counter + 1)
      × (start ≤ (record_window second_ms counter now).window_start)
unfolding record_window is_expired increment
counts_one start now none started from until fits = ground arith
counts_one start now (some counter) started from until fits = ground arith

pub room_left :
    (limit start now : ℕ) (counter : Option WindowCounter)
    → StartedFrom start counter
    → now < start + second_ms
    → 0 < limit
    → exhausted limit second_ms counter now ≡ false
    → count_of counter < limit
room_left limit start now none started until pos free = ground arith
room_left limit start now (some counter) started until pos free = ground arith
