-- ===== src/Config/Valid.antt =====
-- What `LoadConfig` of config.go accepts.
use huawei_proxy.Prelude.{
  ℕ, ◌+◌, ◌≤◌, ◌<◌, ◌≡◌, ◌≢◌, ◌↔◌, ◌⊎◌, inl, inr, refl, ap, ◌∙◌, false, List, [], ◌∷◌, Option, none,
  some, All, arith, Bool-cases, Option-cases,
}
use huawei_proxy.Bytes.{Bytes}
use huawei_proxy.Text.{codes, text_eq_iff}
use huawei_proxy.Config.{
  Config, RegisterGroup, loaded, contains_id, check_unit_ids, check_groups, check_config,
  load_config, is_empty, or_else, default_config,
}

abbrev pub IsGoodGroup : RegisterGroup → Type 0
IsGoodGroup g =
    (0 < g.count) × (g.count ≤ 125) × ((g.poll ≡ codes "fast") ⊎ (g.poll ≡ codes "slow"))

-- No two entries of the list are equal.
abbrev pub AllDistinct : List ℕ → Type 0
AllDistinct [] = Unit
AllDistinct (x ∷ xs) = All (λ y. y ≢ x) xs × AllDistinct xs

pub record IsValid (cfg : Config) : Type 0 where
  pub has_host : cfg.inverter.host ≢ []
  pub has_groups : cfg.register_groups ≢ []
  pub has_units : cfg.inverter.unit_ids ≢ []
  pub distinct : AllDistinct cfg.inverter.unit_ids
  pub groups : All IsGoodGroup cfg.register_groups

check_groups_iff :
    (i : ℕ) (gs : List RegisterGroup) → (check_groups i gs ≡ none) ↔ All IsGoodGroup gs
unfolding check_groups
check_groups_iff i [] = (λ e. tt, λ h. refl)
check_groups_iff i (g ∷ gs) = ground (
  arith,
  check_groups_iff (i + 1) gs,
  text_eq_iff g.poll (codes "fast"),
  text_eq_iff g.poll (codes "slow"),
)

Unseen : List ℕ → List ℕ → Type 0
Unseen seen us = All (λ y. contains_id seen y ≡ false) us

Unseen-cons :
    (u : ℕ) (seen us : List ℕ) → Unseen (u ∷ seen) us ↔ (All (λ y. y ≢ u) us × Unseen seen us)
unfolding Unseen contains_id
Unseen-cons u seen [] = (λ h. (tt, tt), λ h. tt)
Unseen-cons u seen (x ∷ us) = ground (arith, Unseen-cons u seen us)

Unseen-nil : (us : List ℕ) → Unseen [] us
unfolding Unseen contains_id
Unseen-nil [] = tt
Unseen-nil (x ∷ us) = (refl, Unseen-nil us)

check_unit_ids_iff :
    (seen us : List ℕ) → (check_unit_ids seen us ≡ none) ↔ (Unseen seen us × AllDistinct us)
unfolding check_unit_ids Unseen
check_unit_ids_iff seen [] = (λ e. (tt, tt), λ h. refl)
check_unit_ids_iff seen (u ∷ us) =
    let ih = check_unit_ids_iff (u ∷ seen) us in
    let sp = Unseen-cons u seen us in
    (
      λ e. elim (Bool-cases (contains_id seen u)) [
        | inl c ↦ absurd (cc (rw (c, check_unit_ids) at e))
        | inr c ↦
            let (un, di) = ih.0 (rw (c, check_unit_ids) at e) in
            let (ne, se) = sp.0 un in ((c, se), (ne, di))
      ],
      λ h. rw (h.0.0, check_unit_ids) (ih.1 (sp.1 (h.1.0, h.0.1), h.1.1)),
    )

is_empty-ne {ℓ} : {A : Type ℓ} {xs : List A} → xs ≢ [] → is_empty xs ≡ false
unfolding is_empty
is_empty-ne {xs = []} h = absurd (h refl)
is_empty-ne {xs = x ∷ xs} h = refl

loaded-injective : {a b : Config} → loaded a ≡ loaded b → a ≡ b
loaded-injective e = cc

check_config_sound : (cfg : Config) → check_config cfg ≡ none → IsValid cfg
unfolding check_config
check_config_sound cfg e =
    ground
      (arith, check_unit_ids_iff [] cfg.inverter.unit_ids, check_groups_iff 0 cfg.register_groups)

check_config_complete : (cfg : Config) → IsValid cfg → check_config cfg ≡ none
unfolding check_config
check_config_complete cfg v =
    let us =
      (check_unit_ids_iff [] cfg.inverter.unit_ids).1
        (Unseen-nil cfg.inverter.unit_ids, v.distinct) in
    let gs = (check_groups_iff 0 cfg.register_groups).1 v.groups in
    rw (is_empty-ne v.has_host, is_empty-ne v.has_groups, is_empty-ne v.has_units, us, or_else) gs

pub check_config_iff : (cfg : Config) → (check_config cfg ≡ none) ↔ IsValid cfg
check_config_iff cfg = (check_config_sound cfg, check_config_complete cfg)

-- `LoadConfig` returns a configuration exactly when the file decodes to it over the defaults and it
-- is valid: it names a host, register groups and distinct unit IDs, and every group has 1 to 125
-- registers and is polled `fast` or `slow`. It changes nothing of what was decoded.
pub load_config_iff :
    (bytes : Bytes) (unmarshal : Bytes → Config → Option Config) (cfg : Config)
    → (load_config (some bytes) unmarshal ≡ loaded cfg)
      ↔ ((unmarshal bytes default_config ≡ some cfg) × IsValid cfg)
unfolding load_config
load_config_iff bytes unmarshal cfg = (
  λ e. elim (Option-cases (unmarshal bytes default_config)) [
    | inl n ↦ absurd (cc (rw (n, load_config) at e))
    | inr (c, s) ↦ elim (Option-cases (check_config c)) [
      | inl n ↦
          let same = loaded-injective (rw (s, load_config, n) at e) in
          (s ∙ ap some same, rw (← same) (check_config_sound c n))
      | inr (x, f) ↦ absurd (cc (rw (s, load_config, f) at e))
    ]
  ],
  λ h. rw (h.0, load_config) (rw (check_config_complete cfg h.1)),
)
