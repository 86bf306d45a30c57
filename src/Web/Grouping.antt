-- ===== src/Web/Grouping.antt =====
-- The loops of `handleIndex` compute the page by its meaning.
use mathlib.Core.Option
use mathlib.Core.List.{append_assoc, append-nil}
use huawei_proxy.Prelude.{
  ℕ, ◌≡◌, ◌≢◌, refl, sym, ap, ◌∙◌, inl, inr, true, false, List, [], ◌∷◌, ◌++◌, Option, none, some,
  Bool-cases, Option-cases, ==_refl, ◌==◌, arith,
}
use huawei_proxy.Config.{RegisterGroup, is_empty}
use huawei_proxy.Cache.All.{CachedRegister}
use huawei_proxy.Web.{
  PageGroup, fresh_groups, Sorted, put, append_at, init_units, assign, assign_all, active,
  list_units, units,
}
use huawei_proxy.Web.Shown.{
  filter, filter-append_true, filter-append_false, find_range_lem, standing, stands_in,
  stands_nowhere, shown_groups, shown_units, shown_groups-nil, shown_groups-skip, stands_in-other,
  append_at-shown_groups,
}

module _ (gs : List RegisterGroup) where
  -- What the maps hold when the registers `done` have been assigned.
  record Holds (done : List CachedRegister) (s : Sorted) : Type 0 where
    groups :
        (uid : ℕ) → Option.get_or (s.unit_map uid) (fresh_groups gs) ≡ shown_groups gs uid done 0 gs
    rest : (uid : ℕ) → s.unit_ungrouped uid ≡ filter (stands_nowhere gs uid) done

  Holds-put :
      (done : List CachedRegister) (reg : CachedRegister) (s : Sorted) (new : List PageGroup)
      → Holds done s
      → new ≡ shown_groups gs reg.unit_id (done ++ reg ∷ []) 0 gs
      → (uid : ℕ)
      → Option.get_or (put reg.unit_id (some new) s.unit_map uid) (fresh_groups gs)
        ≡ shown_groups gs uid (done ++ reg ∷ []) 0 gs
  unfolding put
  Holds-put done reg s new h e uid = elim (Bool-cases (uid == reg.unit_id)) [
    | inl t ↦ let same : uid ≡ reg.unit_id = ground arith in rw (t, same) e
    | inr f ↦
        let ne : uid ≢ reg.unit_id = ground arith in
        rw f (
          h.groups uid
          ∙ sym (shown_groups-skip gs uid done reg 0 gs (λ i l. stands_in-other gs uid i reg ne)))
  ]

  Holds-rest_put :
      (done : List CachedRegister) (reg : CachedRegister) (s : Sorted)
      → Holds done s
      → standing gs reg ≡ none
      → (uid : ℕ)
      → put reg.unit_id (s.unit_ungrouped reg.unit_id ++ reg ∷ []) s.unit_ungrouped uid
        ≡ filter (stands_nowhere gs uid) (done ++ reg ∷ [])
  unfolding put stands_nowhere
  Holds-rest_put done reg s h n uid = elim (Bool-cases (uid == reg.unit_id)) [
    | inl t ↦
        let same : uid ≡ reg.unit_id = ground arith in
        let here : stands_nowhere gs reg.unit_id reg ≡ true = rw (==_refl reg.unit_id, n) refl in
        rw (t, same)
          (ap (λ x. x ++ reg ∷ []) (h.rest reg.unit_id)
            ∙ sym (filter-append_true (stands_nowhere gs reg.unit_id) done reg here))
    | inr f ↦
        let e : (reg.unit_id == uid) ≡ false = ground arith in
        let away : stands_nowhere gs uid reg ≡ false = rw e refl in
        rw f (h.rest uid ∙ sym (filter-append_false (stands_nowhere gs uid) done reg away))
  ]

  -- a register that stands in a group is in no unit's rest
  stands_nowhere-some :
      (uid i : ℕ) (reg : CachedRegister)
      → standing gs reg ≡ some i
      → stands_nowhere gs uid reg ≡ false
  unfolding stands_nowhere
  stands_nowhere-some uid i reg e = rw e (ground arith)

  stands_in-none :
      (uid i : ℕ) (reg : CachedRegister) → standing gs reg ≡ none → stands_in gs uid i reg ≡ false
  unfolding stands_in
  stands_in-none uid i reg e = rw e (ground arith)

  assign-Holds :
      (done : List CachedRegister) (reg : CachedRegister) (s : Sorted)
      → Holds done s
      → Holds (done ++ reg ∷ []) (assign gs reg s)
  unfolding assign
  assign-Holds done reg s h = elim (Option-cases (standing gs reg)) [
    | inl n ↦
        rw (find_range_lem 0 gs reg.address, n, assign)
          (record {
            groups = Holds-put done reg s _ h (
                h.groups reg.unit_id
                ∙ sym (
                    shown_groups-skip gs reg.unit_id done reg 0 gs
                      (λ i l. stands_in-none reg.unit_id i reg n)));
            rest = Holds-rest_put done reg s h n;
          })
    | inr (i, e) ↦
        rw (find_range_lem 0 gs reg.address, e, assign)
          (record {
            groups = Holds-put done reg s _ h (
                ap (append_at i reg) (h.groups reg.unit_id)
                ∙ append_at-shown_groups gs i reg done 0 gs (e ∙ ap some (omega arith)));
            rest = λ uid.
                h.rest uid
                ∙ sym (
                    filter-append_false (stands_nowhere gs uid) done reg
                      (stands_nowhere-some uid i reg e));
          })
  ]

  assign_all-Holds :
      (done regs : List CachedRegister) (s : Sorted)
      → Holds done s
      → Holds (done ++ regs) (assign_all gs regs s)
  unfolding assign_all
  assign_all-Holds done [] s h = rw (append-nil done) h
  assign_all-Holds done (reg ∷ regs) s h =
      rw (← append_assoc done (reg ∷ []) regs)
        (assign_all-Holds (done ++ reg ∷ []) regs (assign gs reg s) (assign-Holds done reg s h))

  init_units-Holds : (uids : List ℕ) (s : Sorted) → Holds [] s → Holds [] (init_units gs uids s)
  unfolding init_units put
  init_units-Holds [] s h = h
  init_units-Holds (uid ∷ uids) s h = init_units-Holds uids _ (record {
    groups = λ u. elim (Bool-cases (u == uid)) [
      | inl t ↦ rw t (sym (shown_groups-nil gs u 0 gs))
      | inr f ↦ rw f (h.groups u)
    ];
    rest = h.rest;
  })

  active-fresh_groups : (hs : List RegisterGroup) → active (fresh_groups hs) ≡ []
  unfolding active fresh_groups is_empty
  active-fresh_groups [] = refl
  active-fresh_groups (h ∷ hs) = active-fresh_groups hs

  active-get_or :
      (m : Option (List PageGroup))
      → active (Option.get_or m []) ≡ active (Option.get_or m (fresh_groups gs))
  unfolding active
  active-get_or none = sym (active-fresh_groups gs)
  active-get_or (some x) = refl

  list_units-Holds :
      (uids : List ℕ) (regs : List CachedRegister) (s : Sorted)
      → Holds regs s
      → list_units uids s ≡ shown_units gs uids regs
  unfolding list_units shown_units
  list_units-Holds [] regs s h = refl
  list_units-Holds (uid ∷ uids) regs s h =
      rw (active-get_or (s.unit_map uid), h.groups uid, h.rest uid, list_units-Holds uids regs s h)
        refl

-- The list of units on the page: each configured unit that has cached registers, in the configured
-- order, with each group that has some, in the configured order, and at the end the registers that
-- stand in no group. A register stands in the first group with `address ≤ addr` and `addr` less than
-- the 16-bit sum `address + count`, which wraps to a smaller number for a group up to the last address,
-- so that no register stands in that one. The registers of a group keep the order of the cache's list.
pub units_lem :
    (gs : List RegisterGroup) (unit_ids : List ℕ) (all_regs : List CachedRegister)
    → units gs unit_ids all_regs ≡ shown_units gs unit_ids all_regs
unfolding units filter
units_lem gs unit_ids all_regs =
    let empty : Sorted = record { unit_map = λ u. none; unit_ungrouped = λ u. [] } in
    list_units-Holds gs unit_ids all_regs _ (
      assign_all-Holds gs [] all_regs _ (
        init_units-Holds gs unit_ids empty
          (record { groups = λ u. sym (shown_groups-nil gs u 0 gs); rest = λ u. refl })))
