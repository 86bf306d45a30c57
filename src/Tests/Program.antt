-- ===== src/Tests/Program.antt =====
-- The program from its start, over the small platform.
use huawei_proxy.Prelude.{ℕ, ◌≡◌, refl, inl, arith, true, not, List, [], ◌∷◌, none, some, replicate}
use huawei_proxy.Prelude.Int.{pos, pos_part}
use huawei_proxy.Config.Durations.{read_pause}
use huawei_proxy.Bytes.{Bytes, uint16_to_bytes}
use huawei_proxy.Text.{codes, text_eq}
use huawei_proxy.Platform.Memory.{memory-IsReliable}
use huawei_proxy.Platform.Sqlite.{upsert}
use huawei_proxy.Cache.Open.{
  has_column, has_unit_id, run_pragmas, prepare_all, create_table, migrate, new_register_cache,
  opened,
}
use huawei_proxy.Cache.Open.Memory.{small_file}
use huawei_proxy.Client.{World}
use huawei_proxy.Client.Pause.{Spaced}
use huawei_proxy.Client.Interleaving.{Reach}
use huawei_proxy.Config.{
  Config, RegisterGroup, default_config, contains_id, check_unit_ids, check_groups, check_config,
  is_empty, load_config,
}
use huawei_proxy.Config.HaOptions.{group}
use huawei_proxy.Server.Connection.{handle_connection}
use huawei_proxy.Reader.{Reader, new_reader}
use huawei_proxy.Server.Handlers.{Server, handle_read_registers}
use huawei_proxy.Reader.Scan.{initial_scan}
use huawei_proxy.Reader.Cycle.{Progress, run, purge}
use huawei_proxy.Program.{
  Invocation, load_any, running, exited, config_failed, log_level, warn, new_server,
  set_inverter_client, new_inverter_client, after_connect, after_cache, after_config, main,
}
use huawei_proxy.Program.Life.{main-Spaced}
use huawei_proxy.Program.Served.{main-serves}
use huawei_proxy.Cache.Get.{cached_values}
use huawei_proxy.Server.Frames.{send_read_response}
use huawei_proxy.Server.Coherence.{read_request}
use huawei_proxy.Tests.Setup.{house, forwarding}
use huawei_proxy.Tests.Opening.{new_file}

begun : Unit {0}
unfolding text_eq has_column has_unit_id run_pragmas prepare_all create_table migrate
    new_register_cache upsert contains_id check_unit_ids check_groups check_config is_empty
    load_config load_any log_level new_server set_inverter_client after_connect after_cache
    after_config main
begun = tt

abbrev pub pair : RegisterGroup
pair = group "pair" 100 2 "fast"

abbrev pub cfg : Config
cfg = record default_config {
  inverter = record {
    host = codes "10.0.0.5";
    port = pos 502;
    unit_ids = 1 ∷ 9 ∷ [];
    timeout_ms = pos 5000;
  };
  register_groups = pair ∷ [];
}

-- `huawei-proxy` with a file that decodes to `cfg`
abbrev plain : Invocation
plain = record {
  config_path = codes "config.yaml";
  ha_options_path = [];
  read_file = λ path. some [];
  unmarshal_yaml = λ bytes d. some cfg;
  unmarshal_json = λ bytes d. none;
}

-- the state with which the polling loop is started
abbrev filled : World house
filled = initial_scan house (new_reader cfg) (
    purge house (new_reader cfg) (
      new_inverter_client house (small_file new_file) (λ address timeout. some 0) cfg new_file.1 0
        1000))

starts :
    main house (small_file new_file) (λ address timeout. some 0) plain 1000
    ≡ running forwarding true (new_reader cfg) filled
unfolding begun
starts = refl

stops_without_file :
    main house
      (small_file new_file)
      (λ address timeout. some 0)
      (record plain { read_file = λ path. none })
      1000
    ≡ exited config_failed
unfolding begun
stops_without_file = refl

quiet : log_level (codes "warn") ≡ warn
unfolding begun
quiet = refl

main-Spaced_example :
    (db : house.sql.Db) × (link : house.modbus.Link) × Reach
      (new_inverter_client house (small_file new_file) (λ address timeout. some 0) cfg db link 1000)
      filled
    × ((v : World house)
        → Reach
            (new_inverter_client house
              (small_file new_file)
              (λ address timeout. some 0)
              cfg
              db
              link
              1000)
            v
        → Spaced (pos_part (read_pause cfg)) v.wire
          × ((cycles : ℕ) (st : Progress)
              → Spaced (pos_part (read_pause cfg)) (run house cycles (new_reader cfg) st v).1.wire)
          × ((fuel : ℕ) (server : Server) (input : Bytes)
              → Spaced
                  (pos_part (read_pause cfg))
                  (handle_connection house fuel server input v).2.wire))
main-Spaced_example =
    main-Spaced house (small_file new_file) (λ address timeout. some 0) plain 1000 cfg forwarding
      true (new_reader cfg) filled (unfold begun in refl) starts

opens : new_register_cache house.sql (small_file new_file) cfg.cache_path ≡ opened new_file
unfolding begun
opens = refl

-- a client reads the second register of the group
main-serves_example :
    (s : Server) × (r : Reader) × (w : World house) × (vs : List ℕ) × (main house
        (small_file new_file)
        (λ address timeout. some 0)
        plain
        1000
      ≡ running s (not (is_empty cfg.web)) r w)
    × (cached_values (house.sql.committed w.db 1) 101 1 ≡ some vs)
    × ((tx_id fc : ℕ)
        → handle_read_registers house s tx_id 1 fc (read_request fc 101 1) w
          ≡ (send_read_response tx_id 1 fc (uint16_to_bytes vs), w))
main-serves_example =
    main-serves house (small_file new_file) (λ address timeout. some 0) plain 1000 cfg new_file 0
      memory-IsReliable pair 1 101 1 (unfold begun in refl) opens refl (inl refl) (inl refl) refl
      (λ link. (uint16_to_bytes (replicate 2 0x1234), refl, unfold uint16_to_bytes in refl))
      (omega arith) (omega arith) (omega arith) (omega arith) (omega arith)
