-- ===== src/Web/Shown.antt =====
-- The page by its meaning: for each unit, its registers by configured group.
use huawei_proxy.Prelude.{
  ℕ, zero, suc, ◌+◌, ◌≤◌, ◌≡◌, ◌≢◌, refl, ap, ◌∙◌, inl, inr, Bool, true, false, ◌&&◌, List, [], ◌∷◌,
  ◌++◌, Option, none, some, Bool-cases, ==_refl, ◌==◌, if◌then◌else◌, leb, not, ◌%◌, arith,
}
use huawei_proxy.Config.{RegisterGroup}
use huawei_proxy.Cache.All.{CachedRegister}
use huawei_proxy.Web.{
  PageGroup, UnitRegisters, page_group, fresh_groups, addr_range, addr_ranges, in_range, find_range,
  append_at, active, ungrouped, unit_entry,
}

unfoldable pub filter {ℓ} : {A : Type ℓ} → (A → Bool) → List A → List A
filter test [] = []
filter test (x ∷ xs) = let rest = filter test xs in if test x then x ∷ rest else rest

pub filter-append_true {ℓ} :
    {A : Type ℓ} (test : A → Bool) (xs : List A) (x : A)
    → test x ≡ true
    → filter test (xs ++ x ∷ []) ≡ filter test xs ++ x ∷ []
unfolding filter
filter-append_true test [] x e = rw e refl
filter-append_true test (y ∷ xs) x e = elim (Bool-cases (test y)) [
  | inl t ↦ rw (t, filter-append_true test xs x e) refl
  | inr f ↦ rw (f, filter-append_true test xs x e) refl
]

pub filter-append_false {ℓ} :
    {A : Type ℓ} (test : A → Bool) (xs : List A) (x : A)
    → test x ≡ false
    → filter test (xs ++ x ∷ []) ≡ filter test xs
unfolding filter
filter-append_false test [] x e = rw e refl
filter-append_false test (y ∷ xs) x e = elim (Bool-cases (test y)) [
  | inl t ↦ rw (t, filter-append_false test xs x e) refl
  | inr f ↦ rw (f, filter-append_false test xs x e) refl
]

abbrev pub is_at : Option ℕ → ℕ → Bool
is_at none i = false
is_at (some j) i = j == i

abbrev pub is_out : Option ℕ → Bool
is_out none = true
is_out (some j) = false

-- The address lies in the group: not before its first register, and before its end, where the end is
-- the 16-bit sum of `Address` and `Count`, so that it is 0 for a group up to the last address.
unfoldable pub is_within : RegisterGroup → ℕ → Bool
is_within g addr = leb g.address addr && not (leb ((g.address + g.count) % 65536) addr)

-- the index of the first group within which the address lies, on the groups from the index `i` on
unfoldable pub first_within : ℕ → List RegisterGroup → ℕ → Option ℕ
first_within i [] addr = none
first_within i (g ∷ gs) addr =
    let rest = first_within (i + 1) gs addr in if is_within g addr then some i else rest

-- The ranges of `handleIndex` and the search in them find that group.
pub find_range_lem :
    (i : ℕ) (gs : List RegisterGroup) (addr : ℕ)
    → find_range (addr_ranges i gs) addr ≡ first_within i gs addr
unfolding find_range addr_ranges addr_range first_within is_within
find_range_lem i [] addr = refl
find_range_lem i (g ∷ gs) addr =
    let same : in_range (addr_range i g) addr ≡ is_within g addr = ground arith in
    rw (same, find_range_lem (i + 1) gs addr) refl

module _ (gs : List RegisterGroup) where
  -- the index of the first configured group within which the register lies
  abbrev pub standing : CachedRegister → Option ℕ
  standing reg = first_within 0 gs reg.address

  unfoldable pub stands_in : ℕ → ℕ → CachedRegister → Bool
  stands_in uid i reg = reg.unit_id == uid && is_at (standing reg) i

  unfoldable pub stands_nowhere : ℕ → CachedRegister → Bool
  stands_nowhere uid reg = reg.unit_id == uid && is_out (standing reg)

  -- The specification: the groups of a unit, each with its registers of the list.
  unfoldable pub shown_groups : ℕ → List CachedRegister → ℕ → List RegisterGroup → List PageGroup
  shown_groups uid regs i [] = []
  shown_groups uid regs i (h ∷ hs) =
      page_group h (filter (stands_in uid i) regs) ∷ shown_groups uid regs (i + 1) hs

  -- The specification of the page: the units in the configured order, each with those of its groups
  -- that have registers, and at the end those of its registers that stand in no group.
  unfoldable pub shown_units : List ℕ → List CachedRegister → List UnitRegisters
  shown_units [] regs = []
  shown_units (uid ∷ uids) regs =
      unit_entry uid
        (active (shown_groups uid regs 0 gs) ++ ungrouped (filter (stands_nowhere uid) regs))
      ++ shown_units uids regs

  pub shown_groups-nil :
      (uid i : ℕ) (hs : List RegisterGroup) → shown_groups uid [] i hs ≡ fresh_groups hs
  unfolding shown_groups fresh_groups filter
  shown_groups-nil uid i [] = refl
  shown_groups-nil uid i (h ∷ hs) = rw (shown_groups-nil uid (i + 1) hs) refl

  pub shown_groups-skip :
      (uid : ℕ) (regs : List CachedRegister) (reg : CachedRegister) (base : ℕ)
      (hs : List RegisterGroup)
      → ((i : ℕ) → base ≤ i → stands_in uid i reg ≡ false)
      → shown_groups uid (regs ++ reg ∷ []) base hs ≡ shown_groups uid regs base hs
  unfolding shown_groups
  shown_groups-skip uid regs reg base [] h = refl
  shown_groups-skip uid regs reg base (g ∷ hs) h =
      rw
        (
          filter-append_false (stands_in uid base) regs reg (h base (omega arith)),
          shown_groups-skip uid regs reg (base + 1) hs (λ i l. h i (omega arith)),
        )
        refl

  pub stands_in-other :
      (uid i : ℕ) (reg : CachedRegister) → uid ≢ reg.unit_id → stands_in uid i reg ≡ false
  unfolding stands_in
  stands_in-other uid i reg h = let e : (reg.unit_id == uid) ≡ false = ground arith in rw e refl

  pub stands_in-standing :
      (i j : ℕ) (reg : CachedRegister)
      → standing reg ≡ some j
      → stands_in reg.unit_id i reg ≡ (j == i)
  unfolding stands_in
  stands_in-standing i j reg e = rw (==_refl reg.unit_id, e) refl

  pub append_at-shown_groups :
      (i : ℕ) (reg : CachedRegister) (regs : List CachedRegister) (base : ℕ)
      (hs : List RegisterGroup)
      → standing reg ≡ some (base + i)
      → append_at i reg (shown_groups reg.unit_id regs base hs)
        ≡ shown_groups reg.unit_id (regs ++ reg ∷ []) base hs
  unfolding append_at shown_groups
  append_at-shown_groups i reg regs base [] e = refl
  append_at-shown_groups zero reg regs base (h ∷ hs) e =
      rw
        (
          filter-append_true (stands_in reg.unit_id base) regs reg
              (stands_in-standing base (base + 0) reg e ∙ ground arith),
          shown_groups-skip reg.unit_id regs reg (base + 1) hs
              (λ i l. stands_in-standing i (base + 0) reg e ∙ ground arith),
        )
        refl
  append_at-shown_groups (suc i) reg regs base (h ∷ hs) e =
      rw
        (
          filter-append_false (stands_in reg.unit_id base) regs reg
              (stands_in-standing base (base + suc i) reg e ∙ ground arith),
          append_at-shown_groups i reg regs (base + 1) hs (e ∙ ap some (omega arith)),
        )
        refl
