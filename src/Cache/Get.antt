-- ===== src/Cache/Get.antt =====
-- `Get` of cache.go is all or nothing.
use mathlib.Core.Option
use huawei_proxy.Prelude.{
  ℕ, zero, suc, ◌+◌, ◌-◌, ◌%◌, ◌<◌, ◌≡◌, refl, sym, ap, ◌∙◌, inl, inr, List, [], ◌∷◌, ◌++◌, map,
  Option, none, some, length, length-append, set, replicate, Option-cases, ltb, leb, false, arith,
}
use mathlib.Core.List.{append_assoc}
use huawei_proxy.Platform.Sqlite.{Sqlite, Cell, Delivers, select_range}
use huawei_proxy.Cache.{fill, get}

-- The specification: the values under `n` addresses from `lo`, if every one of them is cached.
unfoldable pub cached_values : (ℕ → Option Cell) → ℕ → ℕ → Option (List ℕ)
cached_values column lo zero = some []
cached_values column lo (suc n) = elim (column lo) [
  | none ↦ none
  | some c ↦ Option.map (λ vs. (c.value % 65536) ∷ vs) (cached_values column (lo + 1) n)
]

-- Where fewer rows are left than are missing, the count check fails.
fill-short :
    (column : ℕ → Option Cell) (address count n lo : ℕ) (got : List (Option (ℕ × ℕ))) (found : ℕ)
    (result : List ℕ)
    → found + n < count
    → Delivers got (select_range column lo n)
    → fill address count got result found ≡ none
unfolding fill select_range
fill-short column address count n lo [] found result h d = ground arith
fill-short column address count n lo (none ∷ got) found result h d = refl
fill-short column address count zero lo (some row ∷ got) found result h d = absurd d
fill-short column address count (suc n) lo (some row ∷ got) found result h d =
    elim (Option-cases (column lo)) [
      | inl e ↦
          fill-short column address count n (lo + 1) (some row ∷ got) found result (omega arith)
            (rw (e, select_range) at d)
      | inr (c, e) ↦
          fill-short column address count n (lo + 1) got _ _ (ground arith)
            (rw (e, select_range) at d).1
    ]

set-append_replicate :
    (pre : List ℕ) (n v : ℕ)
    → set (pre ++ replicate (suc n) 0) (length pre) v ≡ (pre ++ v ∷ []) ++ replicate n 0
set-append_replicate [] n v = refl
set-append_replicate (p ∷ pre) n v = ap (λ t. p ∷ t) (set-append_replicate pre n v)

-- A row that is delivered where it is wanted is stored, and counted.
fill_in_place :
    (address count val n : ℕ) (got : List (Option (ℕ × ℕ))) (pre : List ℕ)
    → length pre + suc n ≡ count
    → fill address count
        (some (address + length pre, val) ∷ got)
        (pre ++ replicate (suc n) 0)
        (length pre)
      ≡ fill address count got
          ((pre ++ (val % 65536) ∷ []) ++ replicate n 0)
          (length (pre ++ (val % 65536) ∷ []))
unfolding fill
fill_in_place address count val n got pre h =
    let idx : address + length pre - address ≡ length pre = omega arith in
    let a : ltb (address + length pre) address ≡ false = ground arith in
    let b : leb count (length pre) ≡ false = ground arith in
    let l : length (pre ++ (val % 65536) ∷ []) ≡ length pre + 1 =
      omega (arith, length-append pre ((val % 65536) ∷ [])) in
    rw (idx, a, b, l, set-append_replicate)

Delivers-map-some : (rows : List (ℕ × ℕ)) → Delivers (map some rows) rows
Delivers-map-some [] = tt
Delivers-map-some (row ∷ rows) = (refl, Delivers-map-some rows)

map_regroup :
    (pre : List ℕ) (v : ℕ) (o : Option (List ℕ))
    → Option.map (λ ws. (pre ++ v ∷ []) ++ ws) o
      ≡ Option.map (λ ws. pre ++ ws) (Option.map (λ ws. v ∷ ws) o)
map_regroup pre v none = refl
map_regroup pre v (some ws) = ap some (append_assoc pre (v ∷ []) ws)

map-id : (o : Option (List ℕ)) → Option.map (λ ws. [] ++ ws) o ≡ o
map-id none = refl
map-id (some ws) = refl

module _ (column : ℕ → Option Cell) (address count : ℕ) where
  -- What the loop returns after it has stored the values of the first addresses.
  fill_sound :
      (n : ℕ) (got : List (Option (ℕ × ℕ))) (pre vs : List ℕ)
      → length pre + n ≡ count
      → Delivers got (select_range column (address + length pre) n)
      → fill address count got (pre ++ replicate n 0) (length pre) ≡ some vs
      → (ws : List ℕ) × (cached_values column (address + length pre) n ≡ some ws) × (vs ≡ pre ++ ws)
  unfolding cached_values select_range
  fill_sound zero [] pre vs h d e = ([], refl, unfold fill in ground arith)
  fill_sound zero (none ∷ got) pre vs h d e = absurd d
  fill_sound zero (some row ∷ got) pre vs h d e = absurd d
  fill_sound (suc n) [] pre vs h d e = absurd (unfold fill in ground arith)
  fill_sound (suc n) (none ∷ got) pre vs h d e = absurd (unfold fill in cc)
  fill_sound (suc n) (some row ∷ got) pre vs h d e =
      elim (Option-cases (column (address + length pre))) [
        | inl p ↦ absurd (
            cc (
              fill-short column address count n (address + length pre + 1) (some row ∷ got)
                (length pre) (pre ++ replicate (suc n) 0) (omega arith)
                (rw (p, select_range) at d)))
        | inr (c, p) ↦
            let pre' : List ℕ = pre ++ (c.value % 65536) ∷ [] in
            let d' = rw (p, select_range) at d in
            let l : address + length pre' ≡ address + length pre + 1 =
              omega (arith, length-append pre ((c.value % 65536) ∷ [])) in
            let e' : fill address count got (pre' ++ replicate n 0) (length pre') ≡ some vs =
              sym (fill_in_place address count c.value n got pre h)
              ∙ ap
                  (λ (r : ℕ × ℕ).
                    fill address count (some r ∷ got) (pre ++ replicate (suc n) 0) (length pre))
                  (sym d'.0)
              ∙ e in
            let (ws, q, r) = fill_sound n got pre' vs (omega arith) (rw l d'.1) e' in
            ((c.value % 65536) ∷ ws, rw (p, cached_values, ← l, q), r ∙ append_assoc pre _ ws)
      ]

  -- With every row delivered, the loop finds all that is cached.
  fill_complete :
      (n : ℕ) (pre : List ℕ)
      → length pre + n ≡ count
      → fill address count
          (map some (select_range column (address + length pre) n))
          (pre ++ replicate n 0)
          (length pre)
        ≡ Option.map (λ ws. pre ++ ws) (cached_values column (address + length pre) n)
  unfolding cached_values select_range
  fill_complete zero pre h = unfold fill in ground arith
  fill_complete (suc n) pre h = elim (Option-cases (column (address + length pre))) [
    | inl p ↦
        rw (p, select_range, cached_values)
          (fill-short column address count n (address + length pre + 1) _ (length pre)
            (pre ++ replicate (suc n) 0) (omega arith)
            (Delivers-map-some (select_range column (address + length pre + 1) n)))
    | inr (c, p) ↦
        let pre' : List ℕ = pre ++ (c.value % 65536) ∷ [] in
        let l : address + length pre' ≡ address + length pre + 1 =
          omega (arith, length-append pre ((c.value % 65536) ∷ [])) in
        let ih = fill_complete n pre' (omega (arith, l)) in
        rw (p, select_range, cached_values)
          (fill_in_place address count c.value n _ pre h
            ∙ (rw l at ih)
            ∙ map_regroup pre (c.value % 65536) (cached_values column (address + length pre + 1) n))
  ]

module _ (sql : Sqlite) (unit address count : ℕ) (db : sql.Db) where
  -- Whatever the database's failures, cut iterations included: the values that `Get` returns are
  -- those of all `count` addresses from `address`, in order, and every one of them is cached.
  pub get_sound :
      (vs : List ℕ)
      → get sql unit address count db ≡ some vs
      → cached_values (sql.committed db unit) address count ≡ some vs
  unfolding get
  get_sound vs e = elim (Option-cases (sql.query_get unit address (address + count) db)) [
    | inl q ↦ absurd (cc (rw (q, get) at e))
    | inr (rows, q) ↦
        let column = sql.committed db unit in
        let d = sql.query_get_rows unit address count db rows q in
        let start : address + 0 ≡ address = omega arith in
        let (ws, c, r) =
          fill_sound column address count count rows [] vs (omega arith) (rw start d)
            (rw (q, get) at e) in
        rw start at (c ∙ ap some (sym r))
  ]

  -- If the query and every scan of a row succeed, `Get` returns the values of the range when all of
  -- them are cached, and nothing otherwise.
  pub get_complete :
      sql.query_get unit address (address + count) db
        ≡ some (map some (select_range (sql.committed db unit) address count))
      → get sql unit address count db ≡ cached_values (sql.committed db unit) address count
  unfolding get
  get_complete q =
      let column = sql.committed db unit in
      let start : address + 0 ≡ address = omega arith in
      rw (q, get)
        ((rw start at (fill_complete column address count count [] (omega arith)))
          ∙ map-id (cached_values column address count))
