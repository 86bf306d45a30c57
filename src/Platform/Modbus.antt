-- ===== src/Platform/Modbus.antt =====
-- `github.com/goburrow/modbus` as client.go calls it. The library is no part of the repository, so
-- its state, with the TCP connection and the inverter behind it, is a parameter. A request names the
-- unit, as `handler.SlaveId` does, and returns a response or an error, the new state, and the time
-- that it took in nanoseconds.
use huawei_proxy.Prelude.{ℕ}
use huawei_proxy.Bytes.{Bytes}
use huawei_proxy.Errors.{Result}

pub record Modbus : Type 1 where
  pub Link : Type 0
  pub read_holding_registers : (unit address count : ℕ) → Link → Result Bytes × Link × ℕ
  pub write_single_register : (unit address value : ℕ) → Link → Result Bytes × Link × ℕ
  pub write_multiple_registers : (unit address count : ℕ) → Bytes → Link → Result Bytes × Link × ℕ
  pub close : Link → Link
