-- ===== src/Program.antt =====
-- main.go: how the parts are put together. The model is the main goroutine up to the start of the
-- polling loop; the server's and the web page's goroutines, which it starts on the way, act between
-- its steps. Flags, signals and the log's output are the process's input and output.
pub mod Life
pub mod Filled
pub mod Served
use huawei_proxy.Prelude.{
  ℕ, Bool, true, false, not, List, [], ◌∷◌, Option, none, some, if◌then◌else◌,
}
use huawei_proxy.Prelude.Int.{ℤ}
use huawei_proxy.Config.Durations.{inverter_addr, inverter_timeout}
use huawei_proxy.Text.{Text, codes, text_eq}
use huawei_proxy.Bytes.{Bytes}
use huawei_proxy.Platform.{Platform}
use huawei_proxy.Cache.Open.{Opener, opened, failed, new_register_cache}
use huawei_proxy.Client.{World}
use huawei_proxy.Config.{Config, Loaded, loaded, load_config, is_empty}
use huawei_proxy.Config.HaOptions.{HaOptions, load_ha_options}
use huawei_proxy.Server.Handlers.{Server}
use huawei_proxy.Reader.{Reader, new_reader}
use huawei_proxy.Reader.Scan.{initial_scan}
use huawei_proxy.Reader.Cycle.{purge}

-- The flags, the files, and the two decoders.
pub record Invocation : Type 0 where
  pub config_path : Text
  pub ha_options_path : Text
  pub read_file : Text → Option Bytes
  pub unmarshal_yaml : Bytes → Config → Option Config
  pub unmarshal_json : Bytes → HaOptions → Option HaOptions

unfoldable pub load_any : Invocation → Loaded
load_any i =
    if is_empty i.ha_options_path
    then load_config (i.read_file i.config_path) i.unmarshal_yaml
    else load_ha_options (i.read_file i.ha_options_path) i.unmarshal_json

pub data LogLevel : Type 0 where
  debug info warn error : LogLevel

-- the `switch cfg.LogLevel`
unfoldable pub log_level : Text → LogLevel
log_level level =
    if text_eq level (codes "debug")
    then debug
    else if text_eq level (codes "warn")
    then warn
    else if text_eq level (codes "error")
    then error
    else info

-- `NewServer`, and `SetInverterClient`
unfoldable pub new_server : Config → Server
new_server cfg = record { forward_unknown_reads = cfg.forward_unknown_reads; attached = false }

unfoldable pub set_inverter_client : Server → Server
set_inverter_client s = record s { attached = true }

-- The calls of `os.Exit(1)`.
pub data ExitReason : Type 0 where
  config_failed cache_failed connect_failed : ExitReason

-- How the start ends: with an exit, or with the server, the page if it is configured, the reader and
-- the state with which `Run` is started.
pub data Started (p : Platform) : Type 0 where
  exited : ExitReason → Started p
  running : Server → (web : Bool) → Reader → World p → Started p

module _ (p : Platform) (o : Opener p.sql) (connect : Text → ℤ → Option p.modbus.Link) where
  -- `NewInverterClient` with the link that `handler.Connect` gives
  unfoldable pub new_inverter_client : Config → p.sql.Db → p.modbus.Link → ℕ → World p
  new_inverter_client cfg db link clock = record {
    db = db;
    link = link;
    slave_id = 0;
    pause_ms = cfg.polling.read_pause_ms;
    last_read = none;
    clock = clock;
    wire = [];
  }

  -- what `main` does once it is connected
  unfoldable pub after_connect : Config → World p → Started p
  unfolding new_server set_inverter_client
  after_connect cfg w =
      let reader = new_reader cfg in
      running (set_inverter_client (new_server cfg)) (not (is_empty cfg.web)) reader
        (initial_scan p reader (purge p reader w))

  unfoldable pub after_cache : Config → p.sql.Db → ℕ → Started p
  unfolding new_inverter_client after_connect inverter_addr inverter_timeout
  after_cache cfg db clock = elim (connect (inverter_addr cfg) (inverter_timeout cfg)) [
    | none ↦ exited connect_failed
    | some link ↦ after_connect cfg (new_inverter_client cfg db link clock)
  ]

  unfoldable pub after_config : Config → ℕ → Started p
  unfolding after_cache
  after_config cfg clock = elim (new_register_cache p.sql o cfg.cache_path) [
    | failed e h ↦ exited cache_failed
    | opened h ↦ after_cache cfg (o.ready h) clock
  ]

  -- `main` up to `go reader.Run(ctx)`; `clock` is the time at which it is connected.
  unfoldable pub main : Invocation → ℕ → Started p
  unfolding load_any after_config
  main i clock = elim (load_any i) [
    | Loaded.failed e ↦ exited config_failed
    | loaded cfg ↦ after_config cfg clock
  ]
