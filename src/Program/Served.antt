-- ===== src/Program/Served.antt =====
-- The Modbus server of main.go once the polling loop is started: what a client of the proxy reads.
use huawei_proxy.Prelude.{
  Member, ℕ, zero, suc, ◌+◌, ◌≤◌, ◌<◌, ◌≡◌, ◌∙◌, inl, inr, not, List, Option, none, some,
  Option-cases, Bool-cases, ◌==◌, ap, arith,
}
use huawei_proxy.Prelude.Int.{ℤ}
use huawei_proxy.Text.{Text}
use huawei_proxy.Bytes.{IsWord, uint16_to_bytes}
use huawei_proxy.Platform.{Platform}
use huawei_proxy.Platform.Sqlite.{Cell, IsReliable}
use huawei_proxy.Cache.Get.{cached_values, get_sound}
use huawei_proxy.Cache.Open.{Opener, opened, new_register_cache}
use huawei_proxy.Client.{World}
use huawei_proxy.Config.{Config, RegisterGroup, loaded, is_empty}
use huawei_proxy.Config.Durations.{inverter_addr, inverter_timeout}
use huawei_proxy.Server.Frames.{send_read_response}
use huawei_proxy.Server.Handlers.{Server, handle_read_registers}
use huawei_proxy.Server.Coherence.{read_request, handle_read_registers-cached}
use huawei_proxy.Reader.{Reader}
use huawei_proxy.Reader.Scan.Covered.{cached_values-some}
use huawei_proxy.Reader.Scan.Live.{Answers}
use huawei_proxy.Program.{Invocation, load_any, running, main}
use huawei_proxy.Program.Filled.{main-fills}

cached_values-covers :
    (column : ℕ → Option Cell) (lo n : ℕ) (vs : List ℕ)
    → cached_values column lo n ≡ some vs
    → (a : ℕ) → lo ≤ a
    → a < lo + n
    → (c : Cell) × (column a ≡ some c)
unfolding cached_values
cached_values-covers column lo zero vs e a l h = absurd (omega arith)
cached_values-covers column lo (suc n) vs e a l h = elim (Option-cases (column lo)) [
  | inl none_there ↦ absurd (cc (rw (none_there, cached_values) at e))
  | inr (c, there) ↦ elim (Option-cases (cached_values column (lo + 1) n)) [
    | inl cut ↦ absurd (cc (rw (there, cached_values, cut) at e))
    | inr (ws, more) ↦ elim (Bool-cases (lo == a)) [
      | inl here ↦ let same : a ≡ lo = ground arith in (c, ap column same ∙ there)
      | inr later ↦
          let beyond : lo + 1 ≤ a = ground arith in
          cached_values-covers column (lo + 1) n ws more a beyond (omega arith)
    ]
  ]
]

module _ (p : Platform) (o : Opener p.sql) (connect : Text → ℤ → Option p.modbus.Link)
    (i : Invocation) (clock : ℕ) (cfg : Config) (h : o.Handle) (link : p.modbus.Link) where
  -- Once `main` is in the polling loop, a client reads from the cache: a read, with any function code
  -- and transaction, of any registers within a configured group of a configured unit that the
  -- inverter answers, is answered with the values that the table has, and neither the cache changes
  -- nor is anything sent to the inverter. The configuration is loaded, the database is opened and
  -- does not fail, the inverter is connected, and the context is not cancelled.
  pub main-serves :
      (fine : IsReliable p.sql) (g : RegisterGroup) (uid address count : ℕ)
      → load_any i ≡ loaded cfg
      → new_register_cache p.sql o cfg.cache_path ≡ opened h
      → connect (inverter_addr cfg) (inverter_timeout cfg) ≡ some link
      → Member g cfg.register_groups
      → Member uid cfg.inverter.unit_ids
      → p.cancel_at ≡ none
      → Answers p (record { unit_id = uid; group = g })
      → IsWord address
      → 0 < count
      → count ≤ 125
      → g.address ≤ address
      → address + count ≤ g.address + g.count
      → (s : Server) × (r : Reader) × (w : World p) × (vs : List ℕ) × (main p o connect i clock
          ≡ running s (not (is_empty cfg.web)) r w)
        × (cached_values (p.sql.committed w.db uid) address count ≡ some vs)
        × ((tx_id fc : ℕ)
            → handle_read_registers p s tx_id uid fc (read_request fc address count) w
              ≡ (send_read_response tx_id uid fc (uint16_to_bytes vs), w))
  main-serves fine g uid address count l n c m u live answers a positive limit low high =
      let (s, r, w, started, attached, (got, cached)) =
        main-fills p o connect i clock cfg h link fine g uid l n c m u live answers in
      let column = p.sql.committed w.db uid in
      let covers =
        cached_values-covers column g.address g.count got
          (get_sound p.sql uid g.address g.count w.db got cached) in
      let (vs, e) =
        cached_values-some column address count λ b x y. covers b (omega arith) (omega arith) in
      (
        s,
        r,
        w,
        vs,
        started,
        e,
        λ tx_id fc.
            handle_read_registers-cached p s tx_id uid fc address count a positive limit fine w vs
              e,
      )
