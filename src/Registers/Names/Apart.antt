-- ===== src/Registers/Names/Apart.antt =====
-- The entries of `registerDefs` overlap nowhere.
use huawei_proxy.Prelude.{
  ℕ, ◌+◌, ◌≤◌, ◌<◌, ◌≡◌, refl, sym, ap, ◌∙◌, inl, inr, Bool, true, ◌&&◌, List, [], ◌∷◌, leb, ltb,
  Member, arith,
}
use huawei_proxy.Text.{decimal}
use huawei_proxy.Registers.Defs.{RegisterDef, Entry}
use huawei_proxy.Registers.Init.{
  register_defs, literal_defs, define, define_all, define_strings, define_yields, define_pack,
  define_packs, define_temperatures,
}

-- Each entry ends before the next one begins, and is not empty.
is_apart : List Entry → Bool
is_apart [] = true
is_apart ((a, d) ∷ []) = ltb 0 d.length && ltb (a + d.length) 65536
is_apart ((a, d) ∷ (b, e) ∷ defs) =
    ltb 0 d.length && leb (a + d.length) b && is_apart ((b, e) ∷ defs)

register_defs-is_apart : is_apart register_defs ≡ true
unfolding is_apart register_defs literal_defs define define_all define_strings define_yields
    define_pack define_packs define_temperatures decimal
register_defs-is_apart = refl

-- The address is one of the entry's registers.
abbrev pub Covers : Entry → ℕ → Type 0
Covers (a, d) addr = (a ≤ addr) × (addr < a + d.length)

-- What `is_apart` says of the entries behind the first one.
is_apart-tail :
    (a : ℕ) (d : RegisterDef) (defs : List Entry)
    → is_apart ((a, d) ∷ defs) ≡ true
    → (0 < d.length)
      × (is_apart defs ≡ true)
      × (a + d.length < 65536)
      × ((b : ℕ) (e : RegisterDef) → Member (b, e) defs → a + d.length ≤ b)
unfolding is_apart
is_apart-tail a d [] h = (ground arith, refl, ground arith, λ b e m. absurd m)
is_apart-tail a d ((b, e) ∷ defs) h =
    let next : is_apart ((b, e) ∷ defs) ≡ true = ground arith in
    let (pos, _, low, above) = is_apart-tail b e defs next in
    let gap : a + d.length ≤ b = ground arith in
    (
      ground arith,
      next,
      omega (arith, low, gap),
      λ c f m. elim m [
        | inl same ↦ let start : c ≡ b = ap (λ (x : Entry). x.0) same in omega (arith, gap)
        | inr later ↦ omega (arith, above c f later, gap, pos)
      ],
    )

Member-bounds :
    (defs : List Entry) (a : ℕ) (d : RegisterDef)
    → is_apart defs ≡ true
    → Member (a, d) defs
    → (0 < d.length) × (a + d.length < 65536)
Member-bounds [] a d h m = elim m [ ]
Member-bounds ((b, e) ∷ defs) a d h (inl same) =
    let (pos, _, low, _) = is_apart-tail b e defs h in
    let at : a ≡ b = ap (λ (x : Entry). x.0) same in
    let size : d.length ≡ e.length = ap (λ (x : Entry). x.1.length) same in
    (omega (arith, pos), omega (arith, low))
Member-bounds ((b, e) ∷ defs) a d h (inr later) =
    Member-bounds defs a d (is_apart-tail b e defs h).1 later

-- No address is covered by two entries.
Covers_unique :
    (defs : List Entry) (a b addr : ℕ) (d e : RegisterDef)
    → is_apart defs ≡ true
    → Member (a, d) defs
    → Member (b, e) defs
    → Covers (a, d) addr
    → Covers (b, e) addr
    → ◌≡◌ {A = Entry} (a, d) (b, e)
Covers_unique [] a b addr d e h m n s t = elim m [ ]
Covers_unique ((c, f) ∷ defs) a b addr d e h (inl p) (inl q) s t = p ∙ sym q
Covers_unique ((c, f) ∷ defs) a b addr d e h (inl p) (inr q) s t =
    let start : a ≡ c = ap (λ (x : Entry). x.0) p in
    let size : d.length ≡ f.length = ap (λ (x : Entry). x.1.length) p in
    let behind = (is_apart-tail c f defs h).3 b e q in absurd (omega arith)
Covers_unique ((c, f) ∷ defs) a b addr d e h (inr p) (inl q) s t =
    let start : b ≡ c = ap (λ (x : Entry). x.0) q in
    let size : e.length ≡ f.length = ap (λ (x : Entry). x.1.length) q in
    let behind = (is_apart-tail c f defs h).3 a d p in absurd (omega arith)
Covers_unique ((c, f) ∷ defs) a b addr d e h (inr p) (inr q) s t =
    Covers_unique defs a b addr d e (is_apart-tail c f defs h).1 p q s t

pub register_defs-bounds :
    (a : ℕ) (d : RegisterDef)
    → Member (a, d) register_defs
    → (0 < d.length) × (a + d.length < 65536)
register_defs-bounds a d = Member-bounds register_defs a d register_defs-is_apart

-- No address belongs to two entries of `registerDefs`.
pub register_defs-Covers_unique :
    (a b addr : ℕ) (d e : RegisterDef)
    → Member (a, d) register_defs
    → Member (b, e) register_defs
    → Covers (a, d) addr
    → Covers (b, e) addr
    → ◌≡◌ {A = Entry} (a, d) (b, e)
register_defs-Covers_unique a b addr d e =
    Covers_unique register_defs a b addr d e register_defs-is_apart
