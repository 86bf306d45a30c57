-- ===== src/Client.antt =====
-- client.go: the Modbus client with its mutex and its pause between requests. Each method holds the
-- mutex from its first line to its return, so it is one step on the state. `World` holds all that
-- the goroutines share: the cache's database, the fields of `InverterClient` (its library client and
-- handler are `link` and `slave_id`), the clock, and the trace of what went over the wire.
pub mod Pause
pub mod Interleaving
use huawei_proxy.Prelude.{
  ℕ, ◌+◌, ◌-◌, ◌*◌, Bool, List, [], ◌∷◌, Option, none, some, ltb, if◌then◌else◌,
}
use huawei_proxy.Bytes.{Bytes}
use huawei_proxy.Errors.{Result}
use huawei_proxy.Prelude.Int.{ℤ, pos_part}
use huawei_proxy.Config.Durations.{duration, millisecond}
use huawei_proxy.Platform.{Platform}

-- What a request asks of the inverter.
pub data Call : Type 0 where
  read : (address count : ℕ) → Call
  write_single : (address value : ℕ) → Call
  write_multiple : (address count : ℕ) → Bytes → Call

-- A request with the times of its begin and end, or the closing of the connection.
pub data Event : Type 0 where
  exchange : (unit : ℕ) → Call → (start finish : ℕ) → Event
  hang_up : Event

pub record World (p : Platform) : Type 0 where
  pub db : p.sql.Db
  pub link : p.modbus.Link
  pub slave_id : ℕ
  pub pause_ms : ℤ
  -- `lastRead`, with `none` for the zero time
  pub last_read : Option ℕ
  pub clock : ℕ
  -- newest first
  pub wire : List Event

-- `time.Duration(ic.pauseMs)*time.Millisecond`; a gap that is not positive is no pause, and the gap is
-- taken to be an `int64` for a negative pause too
unfoldable pub pause_ns : ℤ → ℕ
unfolding duration
pause_ns ms = pos_part (duration ms millisecond)

module _ (p : Platform) where
  -- `time.Sleep(d)`
  unfoldable pub sleep : ℕ → World p → World p
  sleep d w = record w { clock = p.sleep d w.clock }

  pause_after : Option ℕ → World p → World p
  unfolding sleep
  pause_after none w = w
  pause_after (some last_read) w =
      let elapsed = w.clock - last_read in
      let gap = pause_ns w.pause_ms - elapsed in if ltb 0 gap then sleep gap w else w

  -- `enforcePause`
  unfoldable pub enforce_pause : World p → World p
  unfolding pause_after
  enforce_pause w = pause_after w.last_read w

  -- The body that the three request methods share: the unit, the pause, the library's call `perform`,
  -- and the time of its return.
  unfoldable pub transact :
      ℕ
      → Call
      → (ℕ → p.modbus.Link → Result Bytes × p.modbus.Link × ℕ)
      → World p
      → Result Bytes × World p
  unfolding enforce_pause
  transact unit call perform w =
      let w' = enforce_pause (record w { slave_id = unit }) in
      let (result, link, took) = perform w'.slave_id w'.link in
      let finish = w'.clock + took in
      (
        result,
        record w' {
          link = link;
          clock = finish;
          last_read = some finish;
          wire = exchange w'.slave_id call w'.clock finish ∷ w'.wire;
        },
      )

  -- `ReadRegisters`
  unfoldable pub read_registers : (unit address count : ℕ) → World p → Result Bytes × World p
  read_registers unit address count =
      transact unit (read address count)
        (λ slave. p.modbus.read_holding_registers slave address count)

  -- `WriteSingleRegister`
  unfoldable pub write_single_register : (unit address value : ℕ) → World p → Result Bytes × World p
  write_single_register unit address value =
      transact unit (write_single address value)
        (λ slave. p.modbus.write_single_register slave address value)

  -- `WriteMultipleRegisters`
  unfoldable pub write_multiple_registers :
      (unit address count : ℕ) → Bytes → World p → Result Bytes × World p
  write_multiple_registers unit address count bytes =
      transact unit (write_multiple address count bytes)
        (λ slave. p.modbus.write_multiple_registers slave address count bytes)

  -- `Reconnect`
  unfoldable pub reconnect : World p → World p
  reconnect w = record w { link = p.modbus.close w.link; last_read = none; wire = hang_up ∷ w.wire }
