-- ===== src/Registers/Names/Order.antt =====
-- `RegisterName` does not depend on the order in which its loop visits the map.
use huawei_proxy.Prelude.{
  some-injective, Member, ℕ, zero, suc, ◌+◌, ◌-◌, ◌%◌, ◌<◌, ◌≡◌, ◌≢◌, refl, sym, ap, ◌∙◌, inl, inr,
  true, List, [], ◌∷◌, ◌++◌, Option, none, some, ◌==◌, Bool-cases, Option-cases, arith,
}
use mathlib.Core.Option
use huawei_proxy.Text.{Text, codes, decimal}
use huawei_proxy.Registers.Defs.{RegisterDef, Entry}
use huawei_proxy.Registers.Init.{register_defs}
use huawei_proxy.Registers.Names.{
  find_def, continues, continuation_name, find_continued, register_name,
}
use huawei_proxy.Registers.Names.Apart.{Covers, register_defs-bounds, register_defs-Covers_unique}

-- The list visits the entries of `registerDefs`: all of them, and nothing else.
pub record IsVisit (order : List Entry) : Type 0 where
  pub sound : (e : Entry) → Member e order → Member e register_defs
  pub complete : (e : Entry) → Member e register_defs → Member e order

find_def_sound :
    (defs : List Entry) (addr : ℕ) (d : RegisterDef)
    → find_def defs addr ≡ some d
    → Member (addr, d) defs
unfolding find_def
find_def_sound [] addr d e = absurd (cc e)
find_def_sound ((a, x) ∷ defs) addr d e = elim (Bool-cases (a == addr)) [
  | inl t ↦
      let at : addr ≡ a = ground arith in
      let same : x ≡ d = some-injective (rw t at e) in
      inl (ap (λ n. (n, d)) at ∙ ap (λ z. (a, z)) (sym same))
  | inr f ↦ inr (find_def_sound defs addr d (rw f at e))
]

find_def_complete :
    (defs : List Entry) (addr : ℕ) (d : RegisterDef)
    → Member (addr, d) defs
    → (x : RegisterDef) × (find_def defs addr ≡ some x)
unfolding find_def
find_def_complete [] addr d m = elim m [ ]
find_def_complete ((a, x) ∷ defs) addr d m = elim (Bool-cases (a == addr)) [
  | inl t ↦ (x, rw t refl)
  | inr f ↦ elim m [
    | inl same ↦ let at : addr ≡ a = ap (λ (z : Entry). z.0) same in absurd (ground arith)
    | inr later ↦ let (y, e) = find_def_complete defs addr d later in (y, rw f e)
  ]
]

-- The entry that the loop returns for.
find_continued_sound :
    (order : List Entry) (addr : ℕ) (text : Text)
    → find_continued order addr ≡ some text
    → (e : Entry) × Member e order × (continues e addr ≡ true) × (text ≡ continuation_name e addr)
unfolding find_continued
find_continued_sound [] addr text h = absurd (cc h)
find_continued_sound (e ∷ order) addr text h = elim (Bool-cases (continues e addr)) [
  | inl t ↦ (e, inl refl, t, sym (some-injective (rw t at h)))
  | inr f ↦
      let (x, m, c, same) = find_continued_sound order addr text (rw f at h) in (x, inr m, c, same)
]

find_continued_complete :
    (order : List Entry) (addr : ℕ) (e : Entry)
    → Member e order
    → continues e addr ≡ true
    → find_continued order addr ≢ none
unfolding find_continued
find_continued_complete [] addr e m c = elim m [ ]
find_continued_complete (x ∷ order) addr e m c = elim (Bool-cases (continues x addr)) [
  | inl t ↦ rw t (λ h. cc)
  | inr f ↦ elim m [
    | inl same ↦ absurd (cc)
    | inr later ↦ rw f (find_continued_complete order addr e later c)
  ]
]

continues-Covers :
    (a addr : ℕ) (d : RegisterDef)
    → a + d.length < 65536
    → continues (a, d) addr ≡ true
    → Covers (a, d) addr × (a < addr)
continues-Covers a addr d b c =
    let top : (a + d.length) % 65536 ≡ a + d.length = omega arith in ground (arith, (rw top at c))

Covers-continues :
    (a k : ℕ) (d : RegisterDef)
    → a + d.length < 65536
    → suc k < d.length
    → continues (a, d) (a + suc k) ≡ true
Covers-continues a k d b h =
    let top : (a + d.length) % 65536 ≡ a + d.length = omega arith in rw top (ground arith)

-- the name of an address by the entry that covers it
abbrev pub covered_name : RegisterDef → ℕ → Text
covered_name d zero = d.name
covered_name d (suc k) = d.name ++ codes " +" ++ decimal (suc k)

module _ (order : List Entry) (v : IsVisit order) where
  register_name-start :
      (a : ℕ) (d : RegisterDef) → Member (a, d) register_defs → register_name order a ≡ d.name
  unfolding register_name
  register_name-start a d m =
      let (x, e) = find_def_complete register_defs a d m in
      let (pos, low) = register_defs-bounds a d m in
      let found = find_def_sound register_defs a x e in
      let (pos', low') = register_defs-bounds a x found in
      let same = register_defs-Covers_unique a a a x d found m (omega arith) (omega arith) in
      rw (e, register_name) (ap (λ (z : Entry). z.1.name) same)

  find_def-none :
      (a k : ℕ) (d : RegisterDef)
      → Member (a, d) register_defs
      → suc k < d.length
      → find_def register_defs (a + suc k) ≡ none
  find_def-none a k d m h = elim (Option-cases (find_def register_defs (a + suc k))) [
    | inl e ↦ e
    | inr (x, e) ↦
        let found = find_def_sound register_defs (a + suc k) x e in
        let (pos, low) = register_defs-bounds (a + suc k) x found in
        let same =
          register_defs-Covers_unique (a + suc k) a (a + suc k) x d found m (omega arith)
            (omega arith) in
        let at : a + suc k ≡ a = ap (λ (z : Entry). z.0) same in absurd (omega arith)
  ]

  register_name-behind :
      (a k : ℕ) (d : RegisterDef)
      → Member (a, d) register_defs
      → suc k < d.length
      → register_name order (a + suc k) ≡ covered_name d (suc k)
  unfolding register_name continuation_name
  register_name-behind a k d m h =
      let (pos, low) = register_defs-bounds a d m in
      let c = Covers-continues a k d low h in
      elim (Option-cases (find_continued order (a + suc k))) [
        | inl e ↦
            absurd (find_continued_complete order (a + suc k) (a, d) (v.complete (a, d) m) c e)
        | inr (text, e) ↦
            let ((b, x), found, t, named) = find_continued_sound order (a + suc k) text e in
            let here = v.sound (b, x) found in
            let (_, low') = register_defs-bounds b x here in
            let same =
              register_defs-Covers_unique b a (a + suc k) x d here m
                (continues-Covers b (a + suc k) x low' t).0 (omega arith) in
            let gap : a + suc k - a ≡ suc k = omega arith in
            rw (find_def-none a k d m h, register_name, e)
              (named
                ∙ ap (λ (z : Entry). continuation_name z (a + suc k)) same
                ∙ ap (λ n. d.name ++ codes " +" ++ decimal n) gap)
      ]

-- Each address of an entry is named by it: its first one by the entry's name, and a further one by the
-- name with the offset behind it, whatever the order in which the loop visits the map.
pub register_name_covered :
    (order : List Entry) (a k : ℕ) (d : RegisterDef)
    → IsVisit order
    → Member (a, d) register_defs
    → k < d.length
    → register_name order (a + k) ≡ covered_name d k
register_name_covered order a zero d v m h =
    let at : a + 0 ≡ a = omega arith in rw at (register_name-start order v a d m)
register_name_covered order a (suc k) d v m h = register_name-behind order v a k d m h

-- What one loop finds the other finds.
find_continued-transfer :
    (order order' : List Entry) (addr : ℕ) (text : Text)
    → IsVisit order
    → IsVisit order'
    → find_continued order addr ≡ some text
    → find_continued order' addr ≡ some text
unfolding continuation_name
find_continued-transfer order order' addr text v v' e =
    let ((a, d), found, t, named) = find_continued_sound order addr text e in
    let here = v.sound (a, d) found in
    let (_, low) = register_defs-bounds a d here in
    elim (Option-cases (find_continued order' addr)) [
      | inl n ↦ absurd (find_continued_complete order' addr (a, d) (v'.complete (a, d) here) t n)
      | inr (text', e') ↦
          let ((b, x), found', t', named') = find_continued_sound order' addr text' e' in
          let here' = v'.sound (b, x) found' in
          let (_, low') = register_defs-bounds b x here' in
          let same =
            register_defs-Covers_unique b a addr x d here' here
              (continues-Covers b addr x low' t').0 (continues-Covers a addr d low t).0 in
          e' ∙ ap some (named' ∙ ap (λ (z : Entry). continuation_name z addr) same ∙ sym named)
    ]

find_continued_agree :
    (order order' : List Entry) (addr : ℕ)
    → IsVisit order
    → IsVisit order'
    → find_continued order addr ≡ find_continued order' addr
find_continued_agree order order' addr v v' = elim (Option-cases (find_continued order addr)) [
  | inr (text, e) ↦ e ∙ sym (find_continued-transfer order order' addr text v v' e)
  | inl n ↦ elim (Option-cases (find_continued order' addr)) [
    | inl n' ↦ n ∙ sym n'
    | inr (text, e) ↦ find_continued-transfer order' order addr text v' v e ∙ sym e
  ]
]

-- Whatever the order in which Go's loop visits the map, `RegisterName` returns the same name.
pub register_name_agree :
    (order order' : List Entry) (addr : ℕ)
    → IsVisit order
    → IsVisit order'
    → register_name order addr ≡ register_name order' addr
unfolding register_name
register_name_agree order order' addr v v' = elim (Option-cases (find_def register_defs addr)) [
  | inr (d, e) ↦ rw (e, register_name) refl
  | inl n ↦
      rw (n, register_name)
        (ap (λ (o : Option Text). Option.get_or o []) (find_continued_agree order order' addr v v'))
]
