-- ===== src/Program/Filled.antt =====
-- What the cache holds when main.go starts the polling loop.
use huawei_proxy.Prelude.{
  ℕ, ◌≡◌, sym, ap, All, ◌∙◌, inl, refl, inr, true, not, List, [], ◌∷◌, ◌++◌, map, Option, none,
  some, Bool-cases, Member, Member-append_left, Member-append_right, Member-map, All-Member,
}
use mathlib.Core.Path.{subst}
use huawei_proxy.Text.{Text, codes, text_eq, text_eq_iff}
use huawei_proxy.Platform.{Platform}
use huawei_proxy.Platform.Sqlite.{IsReliable}
use huawei_proxy.Cache.{get}
use huawei_proxy.Prelude.Int.{ℤ}
use huawei_proxy.Config.Durations.{inverter_addr, inverter_timeout}
use huawei_proxy.Cache.Open.{Opener, opened, new_register_cache}
use huawei_proxy.Client.{World}
use huawei_proxy.Config.{Config, RegisterGroup, loaded, load_config, is_empty}
use huawei_proxy.Config.Valid.{IsGoodGroup, load_config_iff}
use huawei_proxy.Config.HaOptions.{load_ha_options}
use huawei_proxy.Config.HaOptions.Valid.{load_ha_options-good}
use huawei_proxy.Bytes.{Bytes}
use huawei_proxy.Server.Handlers.{Server}
use huawei_proxy.Reader.{Reader, new_reader, groups_polled}
use huawei_proxy.Reader.Scan.{UnitGroup, unit_groups, initial_scan}
use huawei_proxy.Reader.Cycle.{purge}
use huawei_proxy.Reader.Scan.Live.{Answers, get-initial_scan}
use huawei_proxy.Program.{
  Invocation, load_any, running, new_server, set_inverter_client, new_inverter_client,
  after_connect, after_cache, after_config, main,
}

groups_polled-Member :
    (poll : Text) (g : RegisterGroup) (gs : List RegisterGroup)
    → g.poll ≡ poll
    → Member g gs
    → Member g (groups_polled poll gs)
unfolding groups_polled
groups_polled-Member poll g [] e m = elim m [ ]
groups_polled-Member poll g (x ∷ gs) e m = elim (Bool-cases (text_eq x.poll poll)) [
  | inl t ↦ elim m [
    | inl same ↦ rw t (inl same)
    | inr later ↦ rw t (inr (groups_polled-Member poll g gs e later))
  ]
  | inr f ↦ elim m [
    | inl same ↦
        let equal =
          (text_eq_iff x.poll poll).1 (ap (λ (y : RegisterGroup). y.poll) (sym same) ∙ e) in
        absurd (cc)
    | inr later ↦ rw f (groups_polled-Member poll g gs e later)
  ]
]

unit_groups-Member :
    (gs : List RegisterGroup) (uids : List ℕ) (g : RegisterGroup) (uid : ℕ)
    → Member g gs
    → Member uid uids
    → Member {A = UnitGroup} (record { unit_id = uid; group = g }) (unit_groups gs uids)
unfolding unit_groups
unit_groups-Member [] uids g uid m n = elim m [ ]
unit_groups-Member (x ∷ gs) uids g uid m n = elim m [
  | inl same ↦ Member-append_left _ _ (unit_groups gs uids) (
      subst
        (λ (y : RegisterGroup).
          Member {A = UnitGroup} (record { unit_id = uid; group = g })
            (map (λ u. record { unit_id = u; group = y }) uids))
        same (Member-map (λ u. record { unit_id = u; group = g }) uid uids n))
  | inr later ↦
      Member-append_right _ _ (unit_groups gs uids) (unit_groups-Member gs uids g uid later n)
]

-- A group that is polled `fast` or `slow` is among those of the reader.
new_reader-Member :
    (cfg : Config) (g : RegisterGroup)
    → IsGoodGroup g
    → Member g cfg.register_groups
    → Member g ((new_reader cfg).fast_groups ++ (new_reader cfg).slow_groups)
unfolding new_reader
new_reader-Member cfg g good m = elim good.2 [
  | inl fast ↦
      Member-append_left g (groups_polled (codes "fast") cfg.register_groups) _
        (groups_polled-Member (codes "fast") g cfg.register_groups fast m)
  | inr slow ↦
      Member-append_right g (groups_polled (codes "fast") cfg.register_groups) _
        (groups_polled-Member (codes "slow") g cfg.register_groups slow m)
]

load_any-good :
    (i : Invocation) (cfg : Config) → load_any i ≡ loaded cfg → All IsGoodGroup cfg.register_groups
unfolding load_any load_config load_ha_options
load_any-good i cfg l = elim (Bool-cases (is_empty i.ha_options_path)) [
  | inl h ↦ from_file (i.read_file i.config_path) (rw h at l)
  | inr h ↦ from_options (i.read_file i.ha_options_path) (rw h at l)
]
  where
    from_file :
        (content : Option Bytes)
        → load_config content i.unmarshal_yaml ≡ loaded cfg
        → All IsGoodGroup cfg.register_groups
    from_file none q = absurd (cc q)
    from_file (some bytes) q = ((load_config_iff bytes i.unmarshal_yaml cfg).0 q).1.groups

    from_options :
        (content : Option Bytes)
        → load_ha_options content i.unmarshal_json ≡ loaded cfg
        → All IsGoodGroup cfg.register_groups
    from_options none q = absurd (cc q)
    from_options (some bytes) q = load_ha_options-good bytes i.unmarshal_json cfg q

module _ (p : Platform) (o : Opener p.sql) (connect : Text → ℤ → Option p.modbus.Link)
    (i : Invocation) (clock : ℕ) (cfg : Config) (h : o.Handle) (link : p.modbus.Link) where
  -- the state with which the polling loop is started
  abbrev scanned : World p
  scanned =
      let reader = new_reader cfg in
      initial_scan p reader
        (purge p reader (new_inverter_client p o connect cfg (o.ready h) link clock))

  main-running :
      load_any i ≡ loaded cfg
      → new_register_cache p.sql o cfg.cache_path ≡ opened h
      → connect (inverter_addr cfg) (inverter_timeout cfg) ≡ some link
      → main p o connect i clock
        ≡ running
            (set_inverter_client (new_server cfg))
            (not (is_empty cfg.web))
            (new_reader cfg)
            scanned
  unfolding main after_config after_cache after_connect
  main-running l n c = rw (l, main) (rw (n, after_config) (rw (c, after_cache) refl))

  -- Once the configuration is loaded, the database opened and the inverter connected, `main` comes to
  -- the polling loop, with the inverter attached to the server, and then `Get` returns all registers
  -- of each configured group of each configured unit that the inverter answers. The context is not
  -- cancelled, and the opened database does not fail.
  pub main-fills :
      (fine : IsReliable p.sql) (g : RegisterGroup) (uid : ℕ)
      → load_any i ≡ loaded cfg
      → new_register_cache p.sql o cfg.cache_path ≡ opened h
      → connect (inverter_addr cfg) (inverter_timeout cfg) ≡ some link
      → Member g cfg.register_groups
      → Member uid cfg.inverter.unit_ids
      → p.cancel_at ≡ none
      → Answers p (record { unit_id = uid; group = g })
      → (s : Server) × (r : Reader) × (w : World p) × (main p o connect i clock
          ≡ running s (not (is_empty cfg.web)) r w)
        × (s.attached ≡ true)
        × ((vs : List ℕ) × (get p.sql uid g.address g.count w.db ≡ some vs))
  unfolding new_reader set_inverter_client
  main-fills fine g uid l n c m u live answers =
      let good = All-Member IsGoodGroup g cfg.register_groups (load_any-good i cfg l) m in
      (
        set_inverter_client (new_server cfg),
        new_reader cfg,
        scanned,
        main-running l n c,
        refl,
        get-initial_scan p fine (new_reader cfg) _ (record { unit_id = uid; group = g }) live
            answers
            (unit_groups-Member _ (new_reader cfg).unit_ids g uid (new_reader-Member cfg g good m)
              u),
      )
