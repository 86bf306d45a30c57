-- ===== src/Tests/Setup.antt =====
-- A small platform: the cache in memory, and an inverter that answers at once.
use huawei_proxy.Prelude.{
  zero, suc, ◌≡◌, refl, ap, length, ℕ, ◌+◌, ◌≤◌, [], ◌∷◌, none, some, ◌==◌, if◌then◌else◌,
  replicate, true, false, arith,
}
use huawei_proxy.Bytes.{uint16_to_bytes}
use huawei_proxy.Text.{codes}
use huawei_proxy.Prelude.Int.{pos}
use huawei_proxy.Errors.{GoError, ok, err}
use huawei_proxy.Platform.{Platform}
use huawei_proxy.Platform.Memory.{memory}
use huawei_proxy.Platform.Modbus.{Modbus}
use huawei_proxy.Client.{World}
use huawei_proxy.Server.Handlers.{Server}

-- exception 0x06
abbrev pub busy : GoError
busy = record {
  modbus_code = some 6;
  net_timeout = none;
  deadline_exceeded = false;
  net_closed = false;
  message = codes "busy";
}

-- Each register holds 0x1234, and unit 9 is always busy. The state counts the requests; one takes 5 ms.
abbrev pub inverter : Modbus
inverter = record {
  Link = ℕ;
  read_holding_registers = λ unit address count n. (
    if unit == 9 then err busy else ok (uint16_to_bytes (replicate count 0x1234)),
    n + 1,
    5000000,
  );
  write_single_register = λ unit address value n.
      (if unit == 9 then err busy else ok (uint16_to_bytes (value ∷ [])), n + 1, 5000000);
  write_multiple_registers = λ unit address count bytes n.
      (if unit == 9 then err busy else ok (uint16_to_bytes (count ∷ [])), n + 1, 5000000);
  close = λ n. n;
}

pub sum_le : (d c : ℕ) → d + c ≤ d + c
sum_le d c = omega arith

abbrev pub house : Platform
house = record {
  sql = memory;
  modbus = inverter;
  cancel_at = none;
  sleep = λ d c. d + c;
  format = λ t. t ∷ [];
  sleep_long = sum_le;
}

abbrev pub start : World house
start = record {
  db = λ u a. none;
  link = 0;
  slave_id = 0;
  pause_ms = pos 500;
  last_read = none;
  clock = 1000;
  wire = [];
}

abbrev pub forwarding : Server
forwarding = record { forward_unknown_reads = true; attached = true }

pub length-replicate : (n v : ℕ) → length (replicate n v) ≡ n
length-replicate zero v = refl
length-replicate (suc n) v = ap suc (length-replicate n v)
