-- ===== src/Database/Sqlite/Stamps.antt =====
-- src/database/sqlite.rs: times as texts. `to_rfc3339` writes a day, a T and a time of day; SQLite's
-- `datetime('now')` and `CURRENT_TIMESTAMP` write a day, a blank and whole seconds. Columns of type TEXT
-- are compared as texts: by the day, then by the sign between, of which the blank is the smaller one,
-- then by the time of day. A bound `DateTime<Utc>` is written by sqlx like `to_rfc3339`.
use ferrumgw.Common.{
  ℕ, ◌+◌, ◌*◌, ◌/◌, ◌%◌, Bool, true, false, not, ◌&&◌, ◌||◌, List, [], ◌∷◌, Option, none, some,
  ◌==◌, nat_eq, ltb, if◌then◌else◌,
}

pub record Stamp : Type 0 where
  pub day : ℕ
  pub has_t : Bool
  pub of_day : ℕ

abbrev pub day_ms : ℕ
day_ms = 86400000

abbrev pub to_rfc3339 : ℕ → Stamp
to_rfc3339 t = record { day = t / 86400000; has_t = true; of_day = t % 86400000 }

-- `datetime('now')` and `CURRENT_TIMESTAMP`
abbrev pub datetime_now : ℕ → Stamp
datetime_now now = record {
  day = now / 86400000;
  has_t = false;
  of_day = now % 86400000 / 1000 * 1000;
}

-- The time that sqlx reads.
abbrev pub time_of : Stamp → ℕ
time_of s = s.day * 86400000 + s.of_day

-- `a > b` on texts
abbrev pub is_after : Stamp → Stamp → Bool
is_after a b =
    ltb b.day a.day
    || (a.day == b.day
        && ((a.has_t && not b.has_t)
            || (not (a.has_t && not b.has_t)
                && not (b.has_t && not a.has_t)
                && ltb b.of_day a.of_day)))

-- The greater one of two values that may be NULL, for `MAX`.
abbrev pub greater : Option Stamp → Option Stamp → Option Stamp
greater none b = b
greater (some a) none = some a
greater (some a) (some b) = if is_after b a then some b else some a

-- `MAX` of a column
abbrev pub max_stamp {ℓ} : {A : Type ℓ} → (A → Stamp) → List A → Option Stamp
max_stamp stamp_of [] = none
max_stamp stamp_of (x ∷ xs) = greater (some (stamp_of x)) (max_stamp stamp_of xs)
