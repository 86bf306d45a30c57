-- ===== src/Web/Page/Present.antt =====
-- The status page leaves out no register of a configured unit.
use huawei_proxy.Prelude.{
  ℕ, zero, suc, ◌+◌, ◌<◌, ◌≡◌, refl, ap, ◌∙◌, inl, inr, true, Bool, Bool-cases, List, [], ◌∷◌, ◌++◌,
  some, length, Option-cases, Member, Member-append_left, Member-append_right, ==_refl, arith,
}
use mathlib.Core.Path.{subst}
use huawei_proxy.Cache.All.{CachedRegister}
use huawei_proxy.Config.{RegisterGroup, is_empty}
use huawei_proxy.Web.{PageGroup, UnitRegisters, active, ungrouped, unit_entry, units}
use huawei_proxy.Web.Shown.{filter, standing, stands_in, stands_nowhere, shown_groups, shown_units}
use huawei_proxy.Web.Complete.{first_within_bounds}
use huawei_proxy.Web.Grouping.{units_lem}

Member-filter :
    {A : Type 0} (test : A → Bool) (x : A) (xs : List A)
    → test x ≡ true
    → Member x xs
    → Member x (filter test xs)
unfolding filter
Member-filter test x [] t m = elim m [ ]
Member-filter test x (y ∷ ys) t m = elim m [
  | inl same ↦ let t' : test y ≡ true = subst (λ z. test z ≡ true) same t in rw t' (inl same)
  | inr later ↦ elim (Bool-cases (test y)) [
    | inl u ↦ rw u (inr (Member-filter test x ys t later))
    | inr u ↦ rw u (Member-filter test x ys t later)
  ]
]

module _ (reg : CachedRegister) where
  -- One of the groups shows the register.
  abbrev pub Shows : List PageGroup → Type 0
  Shows groups = (g : PageGroup) × Member g groups × Member reg g.registers

  active-Shows : (groups : List PageGroup) → Shows groups → Shows (active groups)
  unfolding active is_empty
  active-Shows [] (g, m, n) = elim m [ ]
  active-Shows (h ∷ groups) (g, m, n) = elim (Bool-cases (is_empty h.registers)) [
    | inl e ↦ elim m [
      | inl same ↦
          absurd
            (not_empty h.registers e (subst (λ (x : PageGroup). Member reg x.registers) same n))
      | inr later ↦ rw e (active-Shows groups (g, later, n))
    ]
    | inr e ↦ elim m [
      | inl same ↦ rw e (g, inl same, n)
      | inr later ↦ let (g', m', n') = active-Shows groups (g, later, n) in rw e (g', inr m', n')
    ]
  ]
    where
      not_empty : (regs : List CachedRegister) → is_empty regs ≡ true → Member reg regs → ⊥
      not_empty [] e m = elim m [ ]
      not_empty (r ∷ regs) e m = cc

  ungrouped-Shows : (regs : List CachedRegister) → Member reg regs → Shows (ungrouped regs)
  unfolding ungrouped
  ungrouped-Shows [] m = elim m [ ]
  ungrouped-Shows (r ∷ regs) m = (_, inl refl, m)

  Shows-append_left : (xs ys : List PageGroup) → Shows xs → Shows (xs ++ ys)
  Shows-append_left xs ys (g, m, n) = (g, Member-append_left g xs ys m, n)

  Shows-append_right : (xs ys : List PageGroup) → Shows ys → Shows (xs ++ ys)
  Shows-append_right xs ys (g, m, n) = (g, Member-append_right g xs ys m, n)

  unit_entry-Shows :
      (uid : ℕ) (groups : List PageGroup)
      → Shows groups
      → Member {A = UnitRegisters}
          (record { unit_id = uid; groups = groups })
          (unit_entry uid groups)
  unfolding unit_entry
  unit_entry-Shows uid [] (g, m, n) = elim m [ ]
  unit_entry-Shows uid (h ∷ groups) s = inl refl

  module _ (gs : List RegisterGroup) (regs : List CachedRegister) (m : Member reg regs) where
    shown_groups-Shows :
        (i base : ℕ) (hs : List RegisterGroup)
        → standing gs reg ≡ some (base + i)
        → i < length hs
        → Shows (shown_groups gs reg.unit_id regs base hs)
    unfolding shown_groups stands_in
    shown_groups-Shows i base [] e h = absurd (omega arith)
    shown_groups-Shows zero base (x ∷ hs) e h =
        let start : base + 0 ≡ base = omega arith in
        let stands : stands_in gs reg.unit_id base reg ≡ true =
          rw (==_refl reg.unit_id, e, start) (==_refl base) in
        (_, inl refl, Member-filter (stands_in gs reg.unit_id base) reg regs stands m)
    shown_groups-Shows (suc i) base (x ∷ hs) e h =
        let (g, k, n) =
          shown_groups-Shows i (base + 1) hs (e ∙ ap some (omega arith)) (omega arith) in
        (g, inr k, n)

    -- The unit's entry shows the register, in the group that holds it or among those of no group.
    entry-Shows : Shows (
        active (shown_groups gs reg.unit_id regs 0 gs)
        ++ ungrouped (filter (stands_nowhere gs reg.unit_id) regs))
    unfolding stands_nowhere
    entry-Shows = elim (Option-cases (standing gs reg)) [
      | inl none_holds ↦
          let stands : stands_nowhere gs reg.unit_id reg ≡ true =
            rw (==_refl reg.unit_id, none_holds) refl in
          Shows-append_right (active (shown_groups gs reg.unit_id regs 0 gs)) _
            (ungrouped-Shows _ (Member-filter (stands_nowhere gs reg.unit_id) reg regs stands m))
      | inr (i, e) ↦ Shows-append_left _ (ungrouped (filter (stands_nowhere gs reg.unit_id) regs)) (
          active-Shows _ (
            shown_groups-Shows i 0 gs (e ∙ ap some (omega arith))
              (omega (arith, first_within_bounds 0 gs reg.address i e))))
    ]

    shown_units-Shows :
        (uids : List ℕ)
        → Member reg.unit_id uids
        → (u : UnitRegisters) × Member u (shown_units gs uids regs)
          × (u.unit_id ≡ reg.unit_id)
          × Shows u.groups
    unfolding shown_units
    shown_units-Shows [] k = elim k [ ]
    shown_units-Shows (uid ∷ uids) k = elim k [
      | inl same ↦ rw (← same) (
        _,
        Member-append_left _ _ (shown_units gs uids regs)
            (unit_entry-Shows reg.unit_id _ entry-Shows),
        refl,
        entry-Shows,
      )
      | inr later ↦
          let (u, n, of_unit, s) = shown_units-Shows uids later in
          (u, Member-append_right u _ _ n, of_unit, s)
    ]

    -- Every register of a configured unit that is on the cache's list is shown under that unit.
    pub units-Shows :
        (uids : List ℕ)
        → Member reg.unit_id uids
        → (u : UnitRegisters) × Member u (units gs uids regs)
          × (u.unit_id ≡ reg.unit_id)
          × Shows u.groups
    units-Shows uids k = rw (units_lem gs uids regs) (shown_units-Shows uids k)
