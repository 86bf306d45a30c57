-- ===== src/Cache/Order.antt =====
-- `BatchSet` of cache.go does not depend on the order in which the groups were read.
use mathlib.Core.List.{Perm, Permᴰ}
use mathlib.Core.Logic.{∥∥₁_elim}
use mathlib.Core.Path.{subst}
use huawei_proxy.Prelude.{
  ℕ, ◌<◌, Bool-cases, ◌+◌, ◌-◌, ◌≤◌, ◌≡◌, ◌≢◌, refl, sym, ap, ◌∙◌, ◌⊎◌, inl, inr, List, [], ◌∷◌,
  Option, none, some, Option-cases, All, length, leb, get_elem?, arith,
}
use huawei_proxy.Platform.Sqlite.{Sqlite, Cell, IsReliable}
use huawei_proxy.Cache.{PendingWrite, get, batch_set, set_registers}
use huawei_proxy.Cache.Atomic.{batch_set-Applied, set_registers-Applied}
use huawei_proxy.Cache.Get.{cached_values, get_complete}
use huawei_proxy.Cache.ReadBack.{get_elem?-none}
use huawei_proxy.Cache.Write.{value_at, latest, overlay}

-- The two writes are of different units, or of ranges that do not meet.
abbrev pub AreApart : PendingWrite → PendingWrite → Type 0
AreApart w v =
    (w.unit_id ≢ v.unit_id)
    ⊎ (w.address + length w.values ≤ v.address)
    ⊎ (v.address + length v.values ≤ w.address)

abbrev pub AllApart : List PendingWrite → Type 0
AllApart [] = Unit
AllApart (w ∷ ws) = All (AreApart w) ws × AllApart ws

AreApart-sym : (w v : PendingWrite) → AreApart w v → AreApart v w
AreApart-sym w v h = ground arith

-- a value of a write stands in its range, at its offset
pub value_at_inside :
    (unit start : ℕ) (vs : List ℕ) (u a x : ℕ)
    → value_at unit start vs u a ≡ some x
    → (u ≡ unit) × (start ≤ a) × (a < start + length vs) × (get_elem? vs (a - start) ≡ some x)
unfolding value_at
value_at_inside unit start vs u a x e = elim (Bool-cases (leb (start + length vs) a)) [
  | inl over ↦
      let gone : get_elem? vs (a - start) ≡ none = get_elem?-none vs (a - start) (ground arith) in
      absurd (ground (arith, gone))
  | inr within ↦ (ground arith, ground arith, ground arith, ground arith)
]

value_at_outside :
    (unit start : ℕ) (vs : List ℕ) (u a : ℕ)
    → (u ≢ unit) ⊎ (a < start) ⊎ (start + length vs ≤ a)
    → value_at unit start vs u a ≡ none
value_at_outside unit start vs u a out = elim (Option-cases (value_at unit start vs u a)) [
  | inl e ↦ e
  | inr (x, e) ↦
      let (same, low, high, there) = value_at_inside unit start vs u a x e in absurd (ground arith)
]

-- At most one of the two has a value for a register.
value_at-AreApart :
    (w v : PendingWrite) (u a : ℕ)
    → AreApart w v
    → (value_at w.unit_id w.address w.values u a ≡ none)
      ⊎ (value_at v.unit_id v.address v.values u a ≡ none)
value_at-AreApart w v u a h = elim (Option-cases (value_at w.unit_id w.address w.values u a)) [
  | inl e ↦ inl e
  | inr (x, e) ↦
      let (same, low, high, there) = value_at_inside w.unit_id w.address w.values u a x e in
      inr (value_at_outside v.unit_id v.address v.values u a (ground arith))
]

latest_swap :
    (w v : PendingWrite) (ws : List PendingWrite) (u a : ℕ)
    → AreApart w v
    → latest (w ∷ v ∷ ws) u a ≡ latest (v ∷ w ∷ ws) u a
unfolding latest
latest_swap w v ws u a h = ground (arith, value_at-AreApart w v u a h)

All-Permᴰ :
    (P : PendingWrite → Type 0) (ws vs : List PendingWrite) → Permᴰ ws vs → All P ws → All P vs
All-Permᴰ P _ _ Permᴰ.nil h = h
All-Permᴰ P _ _ (Permᴰ.cons {l₁ = ws} {l₂ = vs} e d) (h, hs) = (subst P e h, All-Permᴰ P ws vs d hs)
All-Permᴰ P _ _ (Permᴰ.swap e f) (h, (k, hs)) = (subst P f k, (subst P e h, hs))
All-Permᴰ P _ _ (Permᴰ.trans {l₂ = us} d e) h = All-Permᴰ P us _ e (All-Permᴰ P _ us d h)

latest-Permᴰ :
    (ws vs : List PendingWrite)
    → Permᴰ ws vs
    → AllApart ws
    → AllApart vs × ((u a : ℕ) → latest ws u a ≡ latest vs u a)
unfolding latest
latest-Permᴰ _ _ Permᴰ.nil h = (h, λ u a. refl)
latest-Permᴰ _ _ (Permᴰ.cons {a = w} {l₁ = ws} {l₂ = vs} e d) (h, hs) =
    let (apart, same) = latest-Permᴰ ws vs d hs in
    subst (λ v. AllApart (v ∷ vs) × ((u a : ℕ) → latest (w ∷ ws) u a ≡ latest (v ∷ vs) u a)) e
      ((All-Permᴰ (AreApart w) ws vs d h, apart), λ u a. rw (same u a) refl)
latest-Permᴰ _ _ (Permᴰ.swap {a = w} {b = v} {b' = last} {l = ws} e f) ((h, hs), (ks, rest)) =
    let Kept : PendingWrite → PendingWrite → Type 0 = λ x y.
      AllApart (x ∷ y ∷ ws) × ((u a : ℕ) → latest (w ∷ v ∷ ws) u a ≡ latest (x ∷ y ∷ ws) u a) in
    subst (λ x. Kept x last) f
      (subst (Kept v) e (((AreApart-sym w v h, ks), (hs, rest)), λ u a. latest_swap w v ws u a h))
latest-Permᴰ ws vs (Permᴰ.trans {l₂ = us} d e) h =
    let (apart, first) = latest-Permᴰ ws us d h in
    let (apart', second) = latest-Permᴰ us vs e apart in (apart', λ u a. first u a ∙ second u a)

get-batch_set :
    (sql : Sqlite) (fine : IsReliable sql) (now : List ℕ) (ws : List PendingWrite) (db : sql.Db)
    (unit address count : ℕ)
    → get sql unit address count (batch_set sql now ws db)
      ≡ cached_values (λ a. overlay now (latest ws unit a) (sql.committed db unit a)) address count
get-batch_set sql fine now ws db unit address count =
    let after = batch_set sql now ws db in
    get_complete sql unit address count after (fine.queries unit address count after)
    ∙ ap (λ (t : ℕ → Option Cell). cached_values t address count)
        (λ i a. batch_set-Applied sql now fine ws db unit a i)

-- a batch of one group does what `Set` of the group does
pub get-batch_set_one :
    (sql : Sqlite) (fine : IsReliable sql) (now : List ℕ) (w : PendingWrite) (db : sql.Db)
    (unit address count : ℕ)
    → get sql unit address count (batch_set sql now (w ∷ []) db)
      ≡ get sql unit address count (set_registers sql now w.unit_id w.address w.values db)
unfolding latest
get-batch_set_one sql fine now w db unit address count =
    let after = set_registers sql now w.unit_id w.address w.values db in
    get-batch_set sql fine now (w ∷ []) db unit address count
    ∙ sym (
        get_complete sql unit address count after (fine.queries unit address count after)
        ∙ ap (λ (t : ℕ → Option Cell). cached_values t address count)
            (λ i a. set_registers-Applied sql now fine w.unit_id w.address w.values db unit a i))

-- The groups of a batch may have been read in any order, where any two of them are of different units
-- or of ranges that do not meet: on an engine where nothing fails, `Get` answers every question the
-- same after either batch.
pub get-batch_set-Perm :
    (sql : Sqlite) (fine : IsReliable sql) (now : List ℕ) (ws vs : List PendingWrite) (db : sql.Db)
    → Perm ws vs
    → AllApart ws
    → (unit address count : ℕ)
    → get sql unit address count (batch_set sql now ws db)
      ≡ get sql unit address count (batch_set sql now vs db)
get-batch_set-Perm sql fine now ws vs db order apart unit address count =
    let among : (d : Permᴰ ws vs)
        → get sql unit address count (batch_set sql now ws db)
          ≡ get sql unit address count (batch_set sql now vs db) =
      λ d.
        get-batch_set sql fine now ws db unit address count
        ∙ ap (λ (t : ℕ → Option Cell). cached_values t address count)
            (λ i a. overlay now ((latest-Permᴰ ws vs d apart).1 unit a i) (sql.committed db unit a))
        ∙ sym (get-batch_set sql fine now vs db unit address count) in
    ∥∥₁_elim order (hlevel) among
