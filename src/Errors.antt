-- ===== src/Errors.antt =====
-- Go errors, as far as the program looks at them, and the four tests of client.go. An error is what
-- `errors.As`, `errors.Is` and `Error()` report of it; `nil` is `none`.
use huawei_proxy.Prelude.{ℕ, Bool, false, ◌||◌, Option, none, some, ◌==◌}
use huawei_proxy.Text.{Text, codes, contains}

pub record GoError : Type 0 where
  -- the exception code of the first `*modbus.ModbusError` in the chain
  pub modbus_code : Option ℕ
  -- `Timeout()` of the first `net.Error` in the chain
  pub net_timeout : Option Bool
  -- `errors.Is(err, os.ErrDeadlineExceeded)`
  pub deadline_exceeded : Bool
  -- `errors.Is(err, net.ErrClosed)`
  pub net_closed : Bool
  -- `err.Error()`
  pub message : Text

-- A value or an error, of a Go function that returns both.
pub data Result {ℓ} (A : Type ℓ) : Type ℓ where
  ok : A → Result A
  err : GoError → Result A

-- `ctx.Err()` of a cancelled context
abbrev pub canceled : GoError
canceled = record {
  modbus_code = none;
  net_timeout = none;
  deadline_exceeded = false;
  net_closed = false;
  message = codes "context canceled";
}

abbrev server_device_busy : Option ℕ → Bool
server_device_busy none = false
server_device_busy (some exception_code) = exception_code == 6

-- `IsDeviceBusy`
unfoldable pub is_device_busy : Option GoError → Bool
is_device_busy none = false
is_device_busy (some e) = server_device_busy e.modbus_code

-- `IsTransactionMismatch`
unfoldable pub is_transaction_mismatch : Option GoError → Bool
unfolding contains
is_transaction_mismatch none = false
is_transaction_mismatch (some e) = contains e.message (codes "transaction id")

abbrev timed_out : Option Bool → Bool → Bool
timed_out (some timeout) deadline = timeout
timed_out none deadline = deadline

-- `IsTimeout`
unfoldable pub is_timeout : Option GoError → Bool
is_timeout none = false
is_timeout (some e) = timed_out e.net_timeout e.deadline_exceeded

-- `IsConnectionError`
unfoldable pub is_connection_error : Option GoError → Bool
unfolding contains
is_connection_error none = false
is_connection_error (some e) =
    e.net_closed
    || contains e.message (codes "broken pipe")
    || contains e.message (codes "connection reset")
    || contains e.message (codes "EOF")
