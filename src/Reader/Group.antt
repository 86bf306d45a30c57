-- ===== src/Reader/Group.antt =====
-- `readGroup` and `sleepCtx` of reader.go: one register group, with retries.
pub mod Trace
pub mod Outcome
use Prim.Native.Nat.{max}
use huawei_proxy.Prelude.{
  ℕ, zero, suc, ◌+◌, ◌*◌, Bool, ◌||◌, List, [], ◌∷◌, ◌++◌, Option, none, some, ltb, if◌then◌else◌,
}
use huawei_proxy.Bytes.{Bytes}
use huawei_proxy.Text.{Text, codes, decimal}
use huawei_proxy.Errors.{
  GoError, Result, ok, err, canceled, is_device_busy, is_timeout, is_transaction_mismatch,
  is_connection_error,
}
use huawei_proxy.Platform.{Platform, cancelled}
use huawei_proxy.Client.{World, read_registers, reconnect}
use huawei_proxy.Config.{RegisterGroup}

abbrev pub max_retries : ℕ
max_retries = 3

-- 3 and 2 seconds
abbrev pub device_busy_backoff : ℕ
device_busy_backoff = 3 * 1000000000

abbrev pub reconnect_backoff : ℕ
reconnect_backoff = 2 * 1000000000

-- A retry with the same connection, and one with a new connection.
abbrev pub is_busy : Option GoError → Bool
is_busy e = is_device_busy e || is_timeout e

abbrev pub is_broken : Option GoError → Bool
is_broken e = is_transaction_mismatch e || is_connection_error e

-- `fmt.Errorf("reading %s (addr=%d, count=%d): %w", …)`, which the tests see through
abbrev reading_text : RegisterGroup → Text → Text
reading_text g inner =
    codes "reading "
    ++ g.name
    ++ codes " (addr="
    ++ decimal g.address
    ++ codes ", count="
    ++ decimal g.count
    ++ codes "): "
    ++ inner

unfoldable pub wrap : RegisterGroup → Option GoError → GoError
wrap g none = record canceled { message = reading_text g (codes "%!w(<nil>)") }
wrap g (some e) = record e { message = reading_text g e.message }

-- the earliest time, from `clock` on, at which the context is cancelled
unfoldable pub wake_cancelled : Option ℕ → ℕ → ℕ
wake_cancelled none clock = clock
wake_cancelled (some t) clock = max clock t

-- How the loop of `readGroup` is left: by a return, or by its end or `break` with `lastErr`.
pub data Attempts (p : Platform) : Type 0 where
  finished : Result Bytes → World p → Attempts p
  exhausted : Option GoError → World p → Attempts p

module _ (p : Platform) where
  -- `sleepCtx`. Where the context is cancelled by the time the sleep would end, `Done` is taken, and
  -- the call returns at the time of the cancellation.
  unfoldable pub sleep_ctx : ℕ → World p → Option GoError × World p
  unfolding wake_cancelled
  sleep_ctx d w =
      let wake = p.sleep d w.clock in
      if cancelled p.cancel_at wake
      then (some canceled, record w { clock = wake_cancelled p.cancel_at w.clock })
      else (none, record w { clock = wake })

  -- what follows a backoff: `return nil, err`, or `continue`
  unfoldable pub back_off :
      (Option GoError → World p → Attempts p) → GoError → Option GoError × World p → Attempts p
  back_off next e (some c, w) = finished (err c) w
  back_off next e (none, w) = next (some e) w

  -- the body of the loop behind the read
  unfoldable pub after_read :
      (Option GoError → World p → Attempts p) → ℕ → Result Bytes × World p → Attempts p
  after_read next attempt (ok bytes, w) = finished (ok bytes) w
  after_read next attempt (err e, w) =
      if is_busy (some e)
      then (if ltb attempt max_retries
          then back_off next e (sleep_ctx device_busy_backoff w)
          else next (some e) w)
      else if is_broken (some e)
      then (if ltb attempt max_retries
          then back_off next e (sleep_ctx reconnect_backoff (reconnect p w))
          else next (some e) w)
      else exhausted (some e) w

  -- `for attempt := 1; attempt <= maxRetries; attempt++`, on the rounds that are left
  unfoldable pub attempts :
      (left attempt unit : ℕ) → RegisterGroup → Option GoError → World p → Attempts p
  attempts zero attempt unit g last_err w = exhausted last_err w
  attempts (suc left) attempt unit g last_err w =
      after_read (attempts left (attempt + 1) unit g) attempt
        (read_registers p unit g.address g.count w)

  -- the part of `readGroup` behind its loop
  unfoldable pub conclude : RegisterGroup → Attempts p → Result Bytes × World p
  conclude g (finished r w) = (r, w)
  conclude g (exhausted last_err w) =
      (err (wrap g last_err), if is_busy last_err || is_broken last_err then reconnect p w else w)

  -- `readGroup`
  unfoldable pub read_group : ℕ → RegisterGroup → World p → Result Bytes × World p
  read_group unit g w =
      if cancelled p.cancel_at w.clock
      then (err canceled, w)
      else conclude g (attempts max_retries 1 unit g none w)
