-- ===== src/Clock.antt =====
-- Time: an instant is a number of microseconds since the epoch, in UTC.
use balance_tracker.Prelude.{ℕ, ◌*◌, Option, none, some}

abbrev pub second : ℕ
second = 1_000_000

abbrev pub day : ℕ
day = 86_400 * second

-- A `datetime` as a column returns it: without a time zone (SQLite), or at an instant.
pub data Datetime : Type 0 where
  naive : ℕ → Datetime
  aware : ℕ → Datetime

-- `_normalize_datetime`: a naive value is read as UTC.
abbrev pub normalize : Option Datetime → Option ℕ
normalize none = none
normalize (some (naive t)) = some t
normalize (some (aware t)) = some t
