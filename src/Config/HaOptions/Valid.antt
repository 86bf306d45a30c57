-- ===== src/Config/HaOptions/Valid.antt =====
-- What `LoadHAOptions` of ha_options.go accepts, against the checks of `LoadConfig`.
use huawei_proxy.Prelude.{
  ℕ, ◌+◌, ◌%◌, ◌≤◌, ◌≡◌, ◌≢◌, ◌↔◌, ◌⊎◌, inl, inr, refl, ap, ◌∙◌, Bool, true, false, ◌&&◌, ◌||◌,
  List, [], ◌∷◌, map, ◌++◌, if◌then◌else◌, Option, none, some, All, arith, leb, Bool-cases,
  Option-cases,
}
use huawei_proxy.Prelude.Int.{ℤ, pos, negsuc}
use huawei_proxy.Bytes.{Bytes}
use huawei_proxy.Config.{Config, RegisterGroup, loaded, is_empty, check_config}
use huawei_proxy.Config.Valid.{IsGoodGroup, AllDistinct, check_config_iff}
use huawei_proxy.Config.HaOptions.{
  HaOptions, default_options, base_groups, meter_groups, battery_groups, default_register_groups,
  unit_id_in_range, UnitIds, converted, rejected, convert_unit_ids, to_config, check_options,
  load_ha_options,
}

-- Every built-in group passes the checks of `LoadConfig`.
default_register_groups-good :
    (has_battery has_power_meter : Bool)
    → All IsGoodGroup (default_register_groups has_battery has_power_meter)
unfolding default_register_groups
default_register_groups-good false false = ground arith
default_register_groups-good false true = ground arith
default_register_groups-good true false = ground arith
default_register_groups-good true true = ground arith

-- The built-in groups, by the two options.
default_register_groups_lem :
    (has_battery has_power_meter : Bool)
    → default_register_groups has_battery has_power_meter
      ≡ base_groups
        ++ ((if has_power_meter then meter_groups else [])
            ++ (if has_battery then battery_groups else []))
unfolding default_register_groups
default_register_groups_lem false false = refl
default_register_groups_lem false true = refl
default_register_groups_lem true false = refl
default_register_groups_lem true true = refl

-- The register ranges of two groups do not meet.
abbrev pub AreApart : RegisterGroup → RegisterGroup → Type 0
AreApart g h = (g.address + g.count ≤ h.address) ⊎ (h.address + h.count ≤ g.address)

abbrev pub AllApart : List RegisterGroup → Type 0
AllApart [] = Unit
AllApart (g ∷ gs) = All (AreApart g) gs × AllApart gs

apart_from : RegisterGroup → List RegisterGroup → Bool
apart_from g [] = true
apart_from g (h ∷ hs) =
    (leb (g.address + g.count) h.address || leb (h.address + h.count) g.address) && apart_from g hs

all_apart : List RegisterGroup → Bool
unfolding apart_from
all_apart [] = true
all_apart (g ∷ gs) = apart_from g gs && all_apart gs

apart_from_sound :
    (g : RegisterGroup) (hs : List RegisterGroup) → apart_from g hs ≡ true → All (AreApart g) hs
unfolding apart_from
apart_from_sound g [] e = tt
apart_from_sound g (h ∷ hs) e = ground (arith, apart_from_sound g hs)

all_apart_sound : (gs : List RegisterGroup) → all_apart gs ≡ true → AllApart gs
unfolding all_apart
all_apart_sound [] e = tt
all_apart_sound (g ∷ gs) e = ground (arith, all_apart_sound gs, apart_from_sound g gs)

-- The built-in groups never overlap, with and without battery and meter: no register is polled twice.
pub default_register_groups-AllApart :
    (has_battery has_power_meter : Bool)
    → AllApart (default_register_groups has_battery has_power_meter)
unfolding default_register_groups all_apart
default_register_groups-AllApart false false =
    all_apart_sound (default_register_groups false false) refl
default_register_groups-AllApart false true =
    all_apart_sound (default_register_groups false true) refl
default_register_groups-AllApart true false =
    all_apart_sound (default_register_groups true false) refl
default_register_groups-AllApart true true =
    all_apart_sound (default_register_groups true true) refl

abbrev pub IsUnitId : ℕ → Type 0
IsUnitId u = (1 ≤ u) × (u ≤ 247)

abbrev pub ids : List ℕ → List ℤ
ids us = map pos us

UnitIds-cases :
    (r : UnitIds) → ((us : List ℕ) × (r ≡ converted us)) ⊎ ((id : ℤ) × (r ≡ rejected id))
UnitIds-cases (converted us) = inl (us, refl)
UnitIds-cases (rejected id) = inr (id, refl)

converted-injective : {us vs : List ℕ} → converted us ≡ converted vs → us ≡ vs
converted-injective e = cc

-- The conversion to bytes keeps every ID, and takes only those from 1 to 247.
convert_unit_ids_sound :
    (l : List ℤ) (us : List ℕ) → convert_unit_ids l ≡ converted us → (l ≡ ids us) × All IsUnitId us
unfolding convert_unit_ids unit_id_in_range
convert_unit_ids_sound [] us e = rw (← converted-injective e) (refl, tt)
convert_unit_ids_sound (negsuc n ∷ l) us e = cc
convert_unit_ids_sound (pos n ∷ l) us e = elim (Bool-cases (unit_id_in_range (pos n))) [
  | inr out ↦ absurd (cc (rw (out, convert_unit_ids) at e))
  | inl range ↦ elim (UnitIds-cases (convert_unit_ids l)) [
    | inr (id, q) ↦ absurd (cc (rw (range, convert_unit_ids, q) at e))
    | inl (vs, q) ↦
        let small : n % 256 ≡ n = ground arith in
        let same = converted-injective (rw (range, convert_unit_ids, q, small) at e) in
        let (ih, rest) = convert_unit_ids_sound l vs q in
        rw (← same) (ap (λ (t : List ℤ). pos n ∷ t) ih, (ground arith, rest))
  ]
]

convert_unit_ids_complete :
    (us : List ℕ) → All IsUnitId us → convert_unit_ids (ids us) ≡ converted us
unfolding convert_unit_ids unit_id_in_range
convert_unit_ids_complete [] h = refl
convert_unit_ids_complete (u ∷ us) h = ground (arith, convert_unit_ids_complete us)

ne-is_empty {ℓ} : {A : Type ℓ} {xs : List A} → is_empty xs ≡ false → xs ≢ []
unfolding is_empty
ne-is_empty {xs = []} h = cc
ne-is_empty {xs = x ∷ xs} h = cc

pub loaded-injective : {a b : Config} → loaded a ≡ loaded b → a ≡ b
loaded-injective e = cc

default_register_groups-ne :
    (has_battery has_power_meter : Bool) → default_register_groups has_battery has_power_meter ≢ []
unfolding default_register_groups
default_register_groups-ne false false = cc
default_register_groups-ne false true = cc
default_register_groups-ne true false = cc
default_register_groups-ne true true = cc

module _ (bytes : Bytes) (unmarshal : Bytes → HaOptions → Option HaOptions) (cfg : Config) where
  options_of :
      load_ha_options (some bytes) unmarshal ≡ loaded cfg
      → (opts : HaOptions) × (unmarshal bytes default_options ≡ some opts)
        × (check_options opts ≡ loaded cfg)
  unfolding load_ha_options
  options_of e = elim (Option-cases (unmarshal bytes default_options)) [
    | inl n ↦ absurd (cc (rw (n, load_ha_options) at e))
    | inr (opts, s) ↦ (opts, s, rw (s, load_ha_options) at e)
  ]

  built_from :
      (opts : HaOptions)
      → check_options opts ≡ loaded cfg
      → (us : List ℕ) × (opts.inverter_host ≢ [])
        × (us ≢ [])
        × All IsUnitId us
        × (opts.unit_ids ≡ ids us)
        × (to_config opts us ≡ cfg)
  unfolding check_options
  built_from opts e = elim (Bool-cases (is_empty opts.inverter_host)) [
    | inl h ↦ absurd (cc (rw (h, check_options) at e))
    | inr h ↦ elim (Bool-cases (is_empty opts.unit_ids)) [
      | inl u ↦ absurd (cc (rw (h, u, check_options) at e))
      | inr u ↦ elim (UnitIds-cases (convert_unit_ids opts.unit_ids)) [
        | inr (id, q) ↦ absurd (cc (rw (h, u, check_options, q) at e))
        | inl (us, q) ↦
            let (same, range) = convert_unit_ids_sound opts.unit_ids us q in
            (
              us,
              ne-is_empty h,
              (λ n. ne-is_empty u (same ∙ ap ids n)),
              range,
              same,
              loaded-injective (rw (h, u, check_options, q) at e),
            )
      ]
    ]
  ]

  pub load_ha_options-good :
      load_ha_options (some bytes) unmarshal ≡ loaded cfg → All IsGoodGroup cfg.register_groups
  load_ha_options-good e =
      let (opts, decoded, checked) = options_of e in
      let (us, host, units, range, same, built) = built_from opts checked in
      rw (← built) (default_register_groups-good opts.has_battery opts.has_power_meter)

  -- What `LoadHAOptions` returns is built from the options that the file gives over the defaults: it
  -- polls exactly their units, each from 1 to 247, and the base groups, with the meter's groups
  -- exactly if the options name a meter, and the battery's exactly if they name a battery. `LoadConfig`
  -- would accept it exactly when no unit ID stands twice: of that, `LoadHAOptions` makes no check.
  pub load_ha_options_lem :
      load_ha_options (some bytes) unmarshal ≡ loaded cfg
      → (opts : HaOptions) × (unmarshal bytes default_options ≡ some opts)
        × (opts.unit_ids ≡ ids cfg.inverter.unit_ids)
        × All IsUnitId cfg.inverter.unit_ids
        × (cfg.register_groups
            ≡ base_groups
              ++ ((if opts.has_power_meter then meter_groups else [])
                  ++ (if opts.has_battery then battery_groups else [])))
        × ((check_config cfg ≡ none) ↔ AllDistinct cfg.inverter.unit_ids)
  load_ha_options_lem e =
      let (opts, decoded, checked) = options_of e in
      let (us, host, units, range, same, built) = built_from opts checked in
      rw (← built) (
        opts,
        decoded,
        same,
        range,
        default_register_groups_lem opts.has_battery opts.has_power_meter,
        (
          (λ c. ((check_config_iff (to_config opts us)).0 c).distinct),
          λ d. (check_config_iff (to_config opts us)).1 (record {
            has_host = host;
            has_groups = default_register_groups-ne opts.has_battery opts.has_power_meter;
            has_units = units;
            distinct = d;
            groups = default_register_groups-good opts.has_battery opts.has_power_meter;
          }),
        ),
      )
