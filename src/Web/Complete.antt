-- ===== src/Web/Complete.antt =====
-- How many registers the status page shows.
use huawei_proxy.Prelude.{
  ℕ, ◌+◌, ◌≤◌, ◌<◌, ◌≡◌, refl, ap, ◌∙◌, inl, inr, Bool, true, false, List, [], ◌∷◌, ◌++◌, some,
  Bool-cases, Option-cases, ◌==◌, if◌then◌else◌, length, All, All-append, arith,
}
use huawei_proxy.Config.{RegisterGroup, is_empty}
use huawei_proxy.Cache.All.{CachedRegister}
use huawei_proxy.Web.{PageGroup, UnitRegisters, active, ungrouped, unit_entry, units}
use huawei_proxy.Web.Shown.{
  is_within, first_within, filter, standing, stands_in, stands_nowhere, shown_groups, shown_units,
}
use huawei_proxy.Web.Grouping.{units_lem}

-- how many registers the groups show
unfoldable pub total : List PageGroup → ℕ
total [] = 0
total (g ∷ gs) = length g.registers + total gs

abbrev one_if : Bool → ℕ
one_if b = if b then 1 else 0

-- whether a register is of the unit
abbrev pub of_unit : ℕ → CachedRegister → Bool
of_unit uid reg = reg.unit_id == uid

-- The page shows as many registers of the unit as the list has.
abbrev pub IsComplete : List CachedRegister → UnitRegisters → Type 0
IsComplete regs u = total u.groups ≡ length (filter (of_unit u.unit_id) regs)

total-append : (xs ys : List PageGroup) → total (xs ++ ys) ≡ total xs + total ys
unfolding total
total-append [] ys = omega arith
total-append (x ∷ xs) ys = omega (arith, total-append xs ys)

length-is_empty : (regs : List CachedRegister) → is_empty regs ≡ true → length regs ≡ 0
unfolding is_empty
length-is_empty [] e = refl
length-is_empty (r ∷ regs) e = absurd (cc e)

total-active : (xs : List PageGroup) → total (active xs) ≡ total xs
unfolding total active is_empty
total-active [] = refl
total-active (x ∷ xs) = elim (Bool-cases (is_empty x.registers)) [
  | inl t ↦ rw t (omega (arith, total-active xs, length-is_empty x.registers t))
  | inr f ↦ rw f (omega (arith, total-active xs))
]

total-ungrouped : (regs : List CachedRegister) → total (ungrouped regs) ≡ length regs
unfolding total ungrouped
total-ungrouped [] = refl
total-ungrouped (r ∷ regs) = omega arith

length-filter_cons {ℓ} :
    {A : Type ℓ} (test : A → Bool) (x : A) (xs : List A)
    → length (filter test (x ∷ xs)) ≡ one_if (test x) + length (filter test xs)
unfolding filter
length-filter_cons test x xs = elim (Bool-cases (test x)) [
  | inl t ↦ rw t (omega arith)
  | inr f ↦ rw f (omega arith)
]

pub first_within_bounds :
    (base : ℕ) (gs : List RegisterGroup) (addr j : ℕ)
    → first_within base gs addr ≡ some j
    → (base ≤ j) × (j < base + length gs)
unfolding first_within
first_within_bounds base [] addr j e = absurd (cc e)
first_within_bounds base (g ∷ gs) addr j e = elim (Bool-cases (is_within g addr)) [
  | inl t ↦ let same : some base ≡ some j = rw t at e in ground (arith, same)
  | inr f ↦ let rest = first_within_bounds (base + 1) gs addr j (rw f at e) in omega (arith, rest)
]

module _ (gs : List RegisterGroup) (uid : ℕ) where
  -- in how many of the groups a register stands
  hits : CachedRegister → ℕ → List RegisterGroup → ℕ
  hits reg base [] = 0
  hits reg base (h ∷ hs) = one_if (stands_in gs uid base reg) + hits reg (base + 1) hs

  total-shown_groups_cons :
      (reg : CachedRegister) (regs : List CachedRegister) (base : ℕ) (hs : List RegisterGroup)
      → total (shown_groups gs uid (reg ∷ regs) base hs)
        ≡ hits reg base hs + total (shown_groups gs uid regs base hs)
  unfolding total shown_groups hits
  total-shown_groups_cons reg regs base [] = refl
  total-shown_groups_cons reg regs base (h ∷ hs) = omega (
    arith,
    length-filter_cons (stands_in gs uid base) reg regs,
    total-shown_groups_cons reg regs (base + 1) hs,
  )

  hits-none :
      (reg : CachedRegister) (base : ℕ) (hs : List RegisterGroup)
      → ((i : ℕ) → base ≤ i → stands_in gs uid i reg ≡ false)
      → hits reg base hs ≡ 0
  unfolding hits
  hits-none reg base [] h = refl
  hits-none reg base (g ∷ hs) h =
      rw (h base (omega arith), hits-none reg (base + 1) hs (λ i l. h i (omega arith))) refl

  stands_in-at :
      (reg : CachedRegister) (i j : ℕ)
      → reg.unit_id ≡ uid
      → standing gs reg ≡ some j
      → stands_in gs uid i reg ≡ (j == i)
  unfolding stands_in
  stands_in-at reg i j u e =
      let same : (reg.unit_id == uid) ≡ true = ground arith in rw (same, e) refl

  hits-standing :
      (reg : CachedRegister) (j : ℕ)
      → reg.unit_id ≡ uid
      → standing gs reg ≡ some j
      → (base : ℕ) (hs : List RegisterGroup) → base ≤ j
      → j < base + length hs
      → hits reg base hs ≡ 1
  unfolding hits
  hits-standing reg j u e base [] l b = absurd (omega arith)
  hits-standing reg j u e base (h ∷ hs) l b =
      let here = stands_in-at reg base j u e in
      elim (Bool-cases (j == base)) [
        | inl t ↦
            rw
              (
                here ∙ t,
                hits-none reg (base + 1) hs (λ i m. stands_in-at reg i j u e ∙ ground arith),
              )
              refl
        | inr f ↦
            rw (here ∙ f, hits-standing reg j u e (base + 1) hs (ground arith) (omega arith)) refl
      ]

  hits-rest :
      (reg : CachedRegister)
      → hits reg 0 gs + one_if (stands_nowhere gs uid reg) ≡ one_if (of_unit uid reg)
  unfolding stands_in stands_nowhere
  hits-rest reg = elim (Bool-cases (reg.unit_id == uid)) [
    | inr f ↦ rw (f, hits-none reg 0 gs (λ i m. rw f refl)) refl
    | inl t ↦ elim (Option-cases (standing gs reg)) [
      | inl n ↦ rw (t, n, hits-none reg 0 gs (λ i m. rw (t, n) refl)) refl
      | inr (j, e) ↦
          let b = first_within_bounds 0 gs reg.address j e in
          let once = hits-standing reg j (ground arith) e 0 gs (omega arith) (omega (arith, b)) in
          rw (t, e, once) refl
    ]
  ]

  total-shown_groups_nil :
      (base : ℕ) (hs : List RegisterGroup) → total (shown_groups gs uid [] base hs) ≡ 0
  unfolding total shown_groups filter
  total-shown_groups_nil base [] = refl
  total-shown_groups_nil base (h ∷ hs) = omega (arith, total-shown_groups_nil (base + 1) hs)

  total-shown_groups :
      (regs : List CachedRegister)
      → total (shown_groups gs uid regs 0 gs) + length (filter (stands_nowhere gs uid) regs)
        ≡ length (filter (of_unit uid) regs)
  unfolding filter
  total-shown_groups [] = omega (arith, total-shown_groups_nil 0 gs)
  total-shown_groups (reg ∷ regs) = omega (
    arith,
    total-shown_groups_cons reg regs 0 gs,
    length-filter_cons (stands_nowhere gs uid) reg regs,
    length-filter_cons (of_unit uid) reg regs,
    hits-rest reg,
    total-shown_groups regs,
  )

  unit_entry-IsComplete :
      (regs : List CachedRegister) (groups : List PageGroup)
      → total groups ≡ length (filter (of_unit uid) regs)
      → All (IsComplete regs) (unit_entry uid groups)
  unfolding unit_entry
  unit_entry-IsComplete regs [] e = tt
  unit_entry-IsComplete regs (g ∷ groups) e = (e, tt)

shown_units-IsComplete :
    (gs : List RegisterGroup) (unit_ids : List ℕ) (regs : List CachedRegister)
    → All (IsComplete regs) (shown_units gs unit_ids regs)
unfolding shown_units
shown_units-IsComplete gs [] regs = tt
shown_units-IsComplete gs (uid ∷ uids) regs =
    let groups = shown_groups gs uid regs 0 gs in
    let rest = filter (stands_nowhere gs uid) regs in
    All-append (IsComplete regs) _ _
      (unit_entry-IsComplete gs uid regs (active groups ++ ungrouped rest) (
        total-append (active groups) (ungrouped rest)
        ∙ ap (λ n. n + total (ungrouped rest)) (total-active groups)
        ∙ ap (λ n. total groups + n) (total-ungrouped rest)
        ∙ total-shown_groups gs uid regs))
      (shown_units-IsComplete gs uids regs)

-- For each unit that the page lists, its groups together show as many registers as the cache's list
-- has of that unit, also where configured groups overlap.
pub units-IsComplete :
    (gs : List RegisterGroup) (unit_ids : List ℕ) (all_regs : List CachedRegister)
    → All (IsComplete all_regs) (units gs unit_ids all_regs)
units-IsComplete gs unit_ids all_regs =
    rw (units_lem gs unit_ids all_regs) (shown_units-IsComplete gs unit_ids all_regs)
