-- ===== src/Web/Wrapped.antt =====
-- The ranges of `handleIndex`: an address range that ends behind the last address wraps.
use huawei_proxy.Prelude.{
  some-injective, ℕ, zero, suc, ◌+◌, ◌≤◌, ◌<◌, ◌%◌, ◌≡◌, ◌≢◌, refl, sym, ◌∙◌, inl, inr, List, [],
  ◌∷◌, Option, some, Bool-cases, get_elem?, arith,
}
use huawei_proxy.Config.{RegisterGroup}
use huawei_proxy.Cache.All.{CachedRegister}
use huawei_proxy.Web.{in_range, addr_range, addr_ranges, find_range}

-- The address lies in the group, whose end is a sum of 16 bits.
abbrev pub IsWithin : RegisterGroup → ℕ → Type 0
IsWithin g addr = (g.address ≤ addr) × (addr < (g.address + g.count) % 65536)

find_range_sound :
    (base : ℕ) (gs : List RegisterGroup) (addr j : ℕ)
    → find_range (addr_ranges base gs) addr ≡ some j
    → (i : ℕ) × (j ≡ base + i) × (g : RegisterGroup) × (get_elem? gs i ≡ some g) × IsWithin g addr
unfolding find_range addr_ranges addr_range
find_range_sound base [] addr j e = absurd (cc e)
find_range_sound base (g ∷ gs) addr j e = elim (Bool-cases (in_range (addr_range base g) addr)) [
  | inl t ↦ (zero, some-injective (sym (rw t at e)) ∙ omega arith, g, refl, ground arith)
  | inr f ↦
      let (i, k, h, at, within) = find_range_sound (base + 1) gs addr j (rw f at e) in
      (suc i, k ∙ omega arith, h, at, within)
]

-- where the search of `handleIndex` puts a register
abbrev pub place : List RegisterGroup → CachedRegister → Option ℕ
place gs reg = find_range (addr_ranges 0 gs) reg.address

-- A register stands only in a group of the configuration within whose range its address lies.
pub place_sound :
    (gs : List RegisterGroup) (reg : CachedRegister) (i : ℕ)
    → place gs reg ≡ some i
    → (g : RegisterGroup) × (get_elem? gs i ≡ some g) × IsWithin g reg.address
place_sound gs reg i e =
    let (k, same, g, at, within) = find_range_sound 0 gs reg.address i e in
    let eq : i ≡ k = omega (arith, same) in (g, rw eq at, within)

-- No register stands in a configured group of at most 125 registers whose range reaches the last
-- address, 65535, or goes behind it.
pub place-wrapped :
    (gs : List RegisterGroup) (reg : CachedRegister) (i : ℕ) (g : RegisterGroup)
    → get_elem? gs i ≡ some g
    → g.address < 65536
    → g.count ≤ 125
    → 65536 ≤ g.address + g.count
    → place gs reg ≢ some i
place-wrapped gs reg i g at a c w = λ e.
    let (h, at', within) = place_sound gs reg i e in
    let same : h ≡ g = some-injective (sym at' ∙ at) in
    let inside : IsWithin g reg.address = rw (← same) within in absurd (omega (arith, inside))
