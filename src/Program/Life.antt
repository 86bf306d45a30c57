-- ===== src/Program/Life.antt =====
-- What main.go starts, from its first line to the polling loop and the connections.
use huawei_proxy.Prelude.{ℕ, ◌≡◌, refl, sym, ap, ◌∙◌, inl, inr, Bool, true, Option, Option-cases}
use mathlib.Core.Path.{subst}
use huawei_proxy.Prelude.Int.{ℤ, pos_part}
use huawei_proxy.Text.{Text}
use huawei_proxy.Client.{pause_ns}
use huawei_proxy.Config.Durations.{read_pause, inverter_addr, inverter_timeout}
use huawei_proxy.Bytes.{Bytes}
use huawei_proxy.Platform.{Platform}
use huawei_proxy.Cache.Open.{Opener, Opened, opened, failed, new_register_cache}
use huawei_proxy.Client.{World}
use huawei_proxy.Client.Pause.{IsPaced, Spaced}
use huawei_proxy.Client.Interleaving.{Reach, Reach-IsPaced, Reach-pause_ms, Reach-trans}
use huawei_proxy.Config.{Config, Loaded, loaded}
use huawei_proxy.Config.HaOptions.Valid.{loaded-injective}
use huawei_proxy.Server.Handlers.{Server}
use huawei_proxy.Server.Connection.{handle_connection}
use huawei_proxy.Server.Steps.{handle_connection-Reach}
use huawei_proxy.Reader.{Reader, new_reader}
use huawei_proxy.Reader.Scan.{initial_scan}
use huawei_proxy.Reader.Cycle.{Progress, run, purge}
use huawei_proxy.Reader.Cycle.Steps.{initial_scan-Reach, run-Reach, purge-Reach}
use huawei_proxy.Program.{
  Invocation, load_any, Started, exited, running, new_inverter_client, after_connect, after_cache,
  after_config, main, config_failed, cache_failed,
}

module _ (p : Platform) (o : Opener p.sql) (connect : Text → ℤ → Option p.modbus.Link) where
  -- How the program came to run.
  pub record RunsFrom (i : Invocation) (clock : ℕ) (s : Server) (r : Reader) (w : World p)
      : Type 0 where
    pub cfg : Config
    pub was_loaded : load_any i ≡ loaded cfg
    pub same_reader : r ≡ new_reader cfg
    pub is_attached : s.attached ≡ true
    pub db : p.sql.Db
    pub link : p.modbus.Link
    pub scanned :
        w
        ≡ initial_scan p
            (new_reader cfg)
            (purge p (new_reader cfg) (new_inverter_client p o connect cfg db link clock))

  running-injective :
      {s s' : Server} {web web' : Bool} {r r' : Reader} {w w' : World p}
      → ◌≡◌ {A = Started p} (running s web r w) (running s' web' r' w')
      → (s ≡ s') × (r ≡ r') × (w ≡ w')
  running-injective e = (cc, cc, cc)

  after_cache-running :
      (cfg : Config) (db : p.sql.Db) (clock : ℕ) (s : Server) (web : Bool) (r : Reader)
      (w : World p)
      → after_cache p o connect cfg db clock ≡ running s web r w
      → (link : p.modbus.Link) × (s.attached ≡ true)
        × (r ≡ new_reader cfg)
        × (w
            ≡ initial_scan p
                (new_reader cfg)
                (purge p (new_reader cfg) (new_inverter_client p o connect cfg db link clock)))
  unfolding after_cache after_connect
  after_cache-running cfg db clock s web r w e =
      elim (Option-cases (connect (inverter_addr cfg) (inverter_timeout cfg))) [
        | inl n ↦ absurd (cc (rw (n, after_cache) at e))
        | inr (link, c) ↦
            let (same_s, same_r, same_w) = running-injective (rw (c, after_cache) at e) in
            (link, ap (λ (x : Server). x.attached) (sym same_s), sym same_r, sym same_w)
      ]

  after_config-running :
      (cfg : Config) (clock : ℕ) (s : Server) (web : Bool) (r : Reader) (w : World p)
      → after_config p o connect cfg clock ≡ running s web r w
      → (db : p.sql.Db) × (after_cache p o connect cfg db clock ≡ running s web r w)
  unfolding after_config
  after_config-running cfg clock s web r w e =
      opened_first (new_register_cache p.sql o cfg.cache_path) e
    where
      opened_first :
          (x : Opened o.Handle)
          → ◌≡◌ {A = Started p}
              (elim x as (λ _. Started p) [
                | failed e h ↦ exited cache_failed
                | opened h ↦ after_cache p o connect cfg (o.ready h) clock
              ])
              (running s web r w)
          → (db : p.sql.Db) × (after_cache p o connect cfg db clock ≡ running s web r w)
      opened_first (failed x h) q = absurd (cc q)
      opened_first (opened h) q = (o.ready h, q)

  pub main-RunsFrom :
      (i : Invocation) (clock : ℕ) (s : Server) (web : Bool) (r : Reader) (w : World p)
      → main p o connect i clock ≡ running s web r w
      → RunsFrom i clock s r w
  unfolding main
  main-RunsFrom i clock s web r w e = loaded_first (load_any i) refl e
    where
      loaded_first :
          (x : Loaded)
          → load_any i ≡ x
          → ◌≡◌ {A = Started p}
              (elim x as (λ _. Started p) [
                | Loaded.failed e ↦ exited config_failed
                | loaded cfg ↦ after_config p o connect cfg clock
              ])
              (running s web r w)
          → RunsFrom i clock s r w
      loaded_first (Loaded.failed x) l q = absurd (cc q)
      loaded_first (loaded cfg) l q =
          let (db, q') = after_config-running cfg clock s web r w q in
          let (link, on, same_r, same_w) = after_cache-running cfg db clock s web r w q' in
          record {
            cfg = cfg;
            was_loaded = l;
            same_reader = same_r;
            is_attached = on;
            db = db;
            link = link;
            scanned = same_w;
          }

  -- the state in which the client is connected
  abbrev connected :
      {i : Invocation} {clock : ℕ} {s : Server} {r : Reader} {w : World p}
      → RunsFrom i clock s r w
      → World p
  connected {clock = clock} from = new_inverter_client p o connect from.cfg from.db from.link clock

  running-Reach :
      {i : Invocation} {clock : ℕ} {s : Server} {r : Reader} {w : World p}
      (from : RunsFrom i clock s r w)
      → Reach (connected from) w
  running-Reach from =
      let reader = new_reader from.cfg in
      rw from.scanned (
        Reach-trans (purge-Reach p reader (connected from))
          (initial_scan-Reach p reader (purge p reader (connected from))))

  new_inverter_client-IsPaced :
      (cfg : Config) (db : p.sql.Db) (link : p.modbus.Link) (clock : ℕ)
      → IsPaced (new_inverter_client p o connect cfg db link clock)
  unfolding new_inverter_client
  new_inverter_client-IsPaced cfg db link clock = record { remembers = tt; spaced = tt }

  connected-Spaced :
      (cfg : Config) {i : Invocation} {clock : ℕ} {s : Server} {r : Reader} {w : World p}
      (from : RunsFrom i clock s r w)
      → from.cfg ≡ cfg
      → (v : World p) → Reach (connected from) v
      → Spaced (pos_part (read_pause cfg)) v.wire
  unfolding read_pause pause_ns
  connected-Spaced cfg {clock = clock} from same v path =
      let paced =
        Reach-IsPaced (new_inverter_client-IsPaced from.cfg from.db from.link clock) path in
      let kept : v.pause_ms ≡ from.cfg.polling.read_pause_ms =
        unfold new_inverter_client in Reach-pause_ms path in
      subst (λ (c : Config). Spaced (pos_part (read_pause c)) v.wire) same
        (subst (λ n. Spaced (pause_ns n) v.wire) kept paced.spaced)

  -- From the connection to the inverter on, no interleaving of the goroutines breaks the configured
  -- pause, except across a closed connection. Where `main` comes to the polling loop, the state in
  -- which it had just made the client leads to the state that it leaves, by steps of the client; and
  -- after any steps from that first state on, so also where connections are served between the
  -- requests of the initial scan, the trace of the wire since then shows each request the configured
  -- `ReadPause` or more after the end of the one before it, unless the connection was closed in
  -- between. The same holds behind any cycles of the loop, and behind whatever a client sends on a
  -- connection, begun in such a state.
  pub main-Spaced :
      (i : Invocation) (clock : ℕ) (cfg : Config) (s : Server) (web : Bool) (r : Reader)
      (w : World p)
      → load_any i ≡ loaded cfg
      → main p o connect i clock ≡ running s web r w
      → (db : p.sql.Db) × (link : p.modbus.Link) × Reach
          (new_inverter_client p o connect cfg db link clock)
          w
        × ((v : World p)
            → Reach (new_inverter_client p o connect cfg db link clock) v
            → Spaced (pos_part (read_pause cfg)) v.wire
              × ((cycles : ℕ) (st : Progress)
                  → Spaced (pos_part (read_pause cfg)) (run p cycles r st v).1.wire)
              × ((fuel : ℕ) (server : Server) (input : Bytes)
                  → Spaced
                      (pos_part (read_pause cfg))
                      (handle_connection p fuel server input v).2.wire))
  main-Spaced i clock cfg s web r w l e =
      let from = main-RunsFrom i clock s web r w e in
      let same : from.cfg ≡ cfg = loaded-injective (sym from.was_loaded ∙ l) in
      let first : Config → World p =
        λ c. new_inverter_client p o connect c from.db from.link clock in
      let paced = connected-Spaced cfg from same in
      let back : (v : World p) → Reach (first cfg) v → Reach (connected from) v =
        λ v q. subst (λ c. Reach (first c) v) (sym same) q in
      (
        from.db,
        from.link,
        subst (λ c. Reach (first c) w) same (running-Reach from),
        λ v path. (
          paced v (back v path),
          λ cycles st. paced _ (Reach-trans (back v path) (run-Reach p cycles r st v)),
          λ fuel server input.
              paced _ (Reach-trans (back v path) (handle_connection-Reach p server fuel input v)),
        ),
      )
