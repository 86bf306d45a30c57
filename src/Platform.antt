-- ===== src/Platform.antt =====
-- What the program calls and the repository does not hold: the database, the Modbus client library,
-- the clock and the cancellation of the program's context.
pub mod Sqlite
pub mod Memory
pub mod Modbus
use huawei_proxy.Prelude.{ℕ, ◌+◌, ◌≤◌, Bool, false, Option, none, some, List, leb}

-- Times are nanoseconds. `sleep d c` is the time at which a `time.Sleep(d)` that begins at `c` ends:
-- it lasts at least `d`. `cancel_at` is the time at which the context is cancelled, if it ever is.
-- `format` is `Time.Format(time.RFC3339Nano)` of a time in UTC.
pub record Platform : Type 1 where
  pub sql : Sqlite.Sqlite
  pub modbus : Modbus.Modbus
  pub cancel_at : Option ℕ
  pub sleep : ℕ → ℕ → ℕ
  pub format : ℕ → List ℕ
  pub sleep_long : (d c : ℕ) → d + c ≤ sleep d c

-- `ctx.Err() != nil` at a time
unfoldable pub cancelled : Option ℕ → ℕ → Bool
cancelled none clock = false
cancelled (some t) clock = leb t clock
