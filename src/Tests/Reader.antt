-- ===== src/Tests/Reader.antt =====
-- The reader over the small platform.
use huawei_proxy.Prelude.{
  length, ◌==◌, Bool-cases, ℕ, List, inl, inr, true, arith, replicate, ◌≡◌, refl, [], ◌∷◌, none,
  some,
}
use huawei_proxy.Prelude.Int.{pos}
use huawei_proxy.Bytes.{bytes_to_uint16, uint16_to_bytes}
use huawei_proxy.Text.{contains}
use huawei_proxy.Errors.{is_device_busy, is_timeout, is_transaction_mismatch, is_connection_error}
use huawei_proxy.Platform.{Platform, cancelled}
use huawei_proxy.Platform.Memory.{memory-IsReliable}
use huawei_proxy.Platform.Sqlite.{upsert, select_range}
use huawei_proxy.Cache.{fill, get, batch_set, exec_values, exec_writes, finish}
use huawei_proxy.Client.{World, sleep, enforce_pause, transact, read_registers, reconnect}
use huawei_proxy.Config.{RegisterGroup}
use huawei_proxy.Config.HaOptions.{group}
use huawei_proxy.Reader.{Reader}
use huawei_proxy.Reader.Group.{
  max_retries, sleep_ctx, back_off, after_read, attempts, conclude, read_group,
}
use huawei_proxy.Reader.Group.Trace.{requests, Polled, read_group-Polled}
use huawei_proxy.Reader.Group.Outcome.{Outcome, read_group-Outcome}
use huawei_proxy.Reader.Scan.{unit_groups, scan_pass, flush, scan_passes, initial_scan}
use huawei_proxy.Reader.Cycle.{Progress, poll_groups, finish_cycle, after_fast, run_cycle, run}
use huawei_proxy.Reader.Cycle.Runs.{get-run, run-cancelled}
use huawei_proxy.Reader.Cycle.Right.{IsSized}
use huawei_proxy.Reader.Cycle.Fresh.{get-run_cycle-bytes_to_uint16}
use huawei_proxy.Errors.{ok}
use huawei_proxy.Tests.Setup.{length-replicate}
use huawei_proxy.Reader.Cycle.Effect.{CycleEffect, run_cycle-effect}
use huawei_proxy.Config.Durations.{int64, duration}
use huawei_proxy.Client.{pause_ns}
use huawei_proxy.Bytes.RoundTrip.{uint16_to_bytes-AreBytes, length-uint16_to_bytes}
use huawei_proxy.Client.{write_single_register}
use huawei_proxy.Client.Interleaving.{here}
use huawei_proxy.Reader.Scan.{pending_write}
use huawei_proxy.Server.Frames.{send_read_response, send_write_single_response}
use huawei_proxy.Server.Handlers.{handle_read_registers, handle_write_single_register}
use huawei_proxy.Server.Coherence.{read_request}
use huawei_proxy.Server.Writes.{write_request}
use huawei_proxy.Server.Overwritten.{flush-overwrites}
use huawei_proxy.Tests.Setup.{house, start, forwarding}

polled : Unit {0}
unfolding bytes_to_uint16 uint16_to_bytes contains is_device_busy is_timeout is_transaction_mismatch
    is_connection_error cancelled upsert select_range fill get batch_set exec_values exec_writes
    finish sleep enforce_pause transact read_registers reconnect sleep_ctx back_off after_read
    attempts conclude read_group unit_groups scan_pass flush scan_passes initial_scan poll_groups
    finish_cycle after_fast run_cycle run write_single_register pause_ns duration int64
polled = tt

abbrev pair : RegisterGroup
pair = group "pair" 100 2 "fast"

abbrev reader : Reader
reader = record {
  unit_ids = 1 ∷ 9 ∷ [];
  fast_groups = pair ∷ [];
  slow_groups = [];
  slow_interval = pos 300000000000;
  cache_ttl = pos 7200000000000;
}

-- The scan caches the group of unit 1. It asks unit 9, which is always busy, three times in each of
-- the three passes.
scan_caches :
    get house.sql 1 100 2 (initial_scan house reader start).db ≡ some (0x1234 ∷ 0x1234 ∷ [])
unfolding polled
scan_caches = refl

scan_requests : requests (initial_scan house reader start).wire ≡ 10
unfolding polled
scan_requests = refl

read_group-Outcome_example :
    Outcome house 1 pair start (read_group house 1 pair start).0 (read_group house 1 pair start).1
read_group-Outcome_example = read_group-Outcome house 1 pair start

read_group-Polled_example : Polled 9 pair max_retries start (read_group house 9 pair start).1
read_group-Polled_example = read_group-Polled house 9 pair start

abbrev fresh : Progress
fresh = record {
  last_slow_poll = 1000;
  cycle_count = 0;
  last_cycle_time = none;
  last_cycle_dur = 0;
}

run_cycle-effect_example : CycleEffect house fresh start (run_cycle house reader fresh start)
run_cycle-effect_example = run_cycle-effect house reader fresh start

-- The group is a slow one, and the slow groups are polled in each cycle.
abbrev slow_reader : Reader
slow_reader = record reader { fast_groups = []; slow_groups = pair ∷ []; slow_interval = pos 0 }

abbrev old_values : List ℕ
old_values = 0x1234 ∷ 0x1234 ∷ []

house-IsSized : IsSized house
house-IsSized unit address count link bytes e = elim (Bool-cases (unit == 9)) [
  | inl t ↦ absurd (cc (rw t at e))
  | inr f ↦
      let same : ok (uint16_to_bytes (replicate count 0x1234)) ≡ ok bytes = rw f at e in
      let l : length (uint16_to_bytes (replicate count 0x1234)) ≡ length bytes = cc in
      omega
        (arith, l, length-uint16_to_bytes (replicate count 0x1234), length-replicate count 0x1234)
]

get-run_cycle-bytes_to_uint16_example :
    let (next, w) = run_cycle house slow_reader fresh start in
    (st : Progress) × (next ≡ some st)
    × (st.cycle_count ≡ 1)
    × (get house.sql 1 100 2 w.db ≡ some (bytes_to_uint16 (uint16_to_bytes old_values)))
get-run_cycle-bytes_to_uint16_example =
    get-run_cycle-bytes_to_uint16 house memory-IsReliable house-IsSized slow_reader fresh start
      (record { unit_id = 1; group = pair }) (uint16_to_bytes old_values) refl
      (λ link. unfold uint16_to_bytes in refl) (uint16_to_bytes-AreBytes old_values)
      (unfold unit_groups in tt) (unfold unit_groups in (inl refl, (inr (inl (omega arith)), tt)))
      (inr (unfold unit_groups in inl refl, omega arith))

abbrev fast_reader : Reader
fast_reader = record reader { unit_ids = 1 ∷ [] }

get-run_example :
    let (next, w) = run house 3 fast_reader fresh start in
    (st : Progress) × (next ≡ some st)
    × (st.cycle_count ≡ 3)
    × ((vs : List ℕ) × (get house.sql 1 100 2 w.db ≡ some vs))
get-run_example =
    get-run house memory-IsReliable fast_reader (record { unit_id = 1; group = pair }) refl
      (λ link. (uint16_to_bytes (replicate 2 0x1234), refl, unfold uint16_to_bytes in refl))
      (unfold unit_groups in inl refl) 2 fresh start

-- The context is cancelled before the second request.
abbrev dying : Platform
dying = record house { cancel_at = some 2000000 }

abbrev dying_start : World dying
dying_start = record {
  db = λ u a. none;
  link = 0;
  slave_id = 0;
  pause_ms = pos 500;
  last_read = none;
  clock = 1000;
  wire = [];
}

run-cancelled_example :
    cancelled (some 2000000) (run dying 3 fast_reader fresh dying_start).1.clock ≡ true
unfolding polled
run-cancelled_example = run-cancelled dying 3 fast_reader fresh dying_start refl

-- The client writes 7 to register 100 between the read of the group and the batch.
flush-overwrites_example :
    let asked = (read_group house 1 pair start).1 in
    let written = handle_write_single_register house forwarding 5 1 (write_request 100 7) asked in
    let after =
      flush house
        (pending_write (record { unit_id = 1; group = pair }) (uint16_to_bytes old_values) ∷ [])
        written.1 in
    (written.0 ≡ send_write_single_response 5 1 100 7)
    × ((tx fc : ℕ)
        → handle_read_registers house forwarding tx 1 fc (read_request fc 100 2) after
          ≡ (send_read_response tx 1 fc (uint16_to_bytes old_values), after))
unfolding polled
flush-overwrites_example =
    let asked = (read_group house 1 pair start).1 in
    let written = handle_write_single_register house forwarding 5 1 (write_request 100 7) asked in
    flush-overwrites house memory-IsReliable (record { unit_id = 1; group = pair })
      (uint16_to_bytes old_values) (uint16_to_bytes-AreBytes old_values) refl forwarding 5 100 7
      start written.1 (uint16_to_bytes (7 ∷ [])) (omega arith) (omega arith) (omega arith)
      (omega arith) (omega arith) (omega arith) (omega arith) refl refl refl here
