-- ===== src/Platform/Memory.antt =====
-- An engine on which the assumptions about the database hold: the table itself, and no failure. It
-- is the instance at which the theorems over an arbitrary engine are tried.
use huawei_proxy.Prelude.{
  ℕ, ◌+◌, ◌-◌, ◌≡◌, refl, sym, ap, List, map, Option, none, some, Bool, true, false, arith, ◌∷◌, [],
}
use huawei_proxy.Platform.Sqlite.{
  Sqlite, Table, IsReliable, Delivers, upsert, keep_fresh, select_range,
}

pub some-inj {ℓ} : {A : Type ℓ} {a b : A} → some a ≡ some b → a ≡ b
some-inj e = cc

Delivers-map-some : (rows : List (ℕ × ℕ)) → Delivers (map some rows) rows
Delivers-map-some [] = tt
Delivers-map-some (row ∷ rows) = (refl, Delivers-map-some rows)

pub true≢false : ◌≡◌ {A = Bool} true false → ⊥
true≢false e = cc

pub some≢none : ◌≡◌ {A = Option ℕ} (some 0) none → ⊥
some≢none e = cc

pub memory_rows :
    (u lo n : ℕ) (d : Table) (got : List (Option (ℕ × ℕ)))
    → ◌≡◌ {A = Option (List (Option (ℕ × ℕ)))}
        (some (map some (select_range (d u) lo (lo + n - lo))))
        (some got)
    → Delivers got (select_range (d u) lo n)
memory_rows u lo n d got e =
    let l : lo + n - lo ≡ n = omega arith in
    rw (← some-inj e, l) (Delivers-map-some (select_range (d u) lo n))

memory_queries :
    (u lo n : ℕ) (d : Table)
    → ◌≡◌ {A = Option (List (Option (ℕ × ℕ)))}
        (some (map some (select_range (d u) lo (lo + n - lo))))
        (some (map some (select_range (d u) lo n)))
memory_queries u lo n d = let l : lo + n - lo ≡ n = omega arith in rw l

abbrev pub memory : Sqlite
memory = record {
  Db = Table;
  Tx = Table × Table;
  committed = λ d. d;
  pending = λ t. t.1;
  base = λ t. t.0;
  begin = λ d. some (d, d);
  exec_upsert = λ u a v s t. some (t.0, upsert u a (record { value = v; updated_at = s }) t.1);
  commit = λ t. (true, t.1);
  rollback = λ t. t.0;
  query_get = λ u lo hi d. some (map some (select_range (d u) lo (hi - lo)));
  query_count = λ d. none;
  exec_delete_stale = λ cutoff d. (some 0, λ u a. keep_fresh cutoff (d u a));
  begin_pending = λ d t e. ap (λ (p : Table × Table). p.1) (sym (some-inj e));
  begin_base = λ d t e. ap (λ (p : Table × Table). p.0) (sym (some-inj e));
  upsert_pending = λ u a v s t t' e. ap (λ (p : Table × Table). p.1) (sym (some-inj e));
  upsert_base = λ u a v s t t' e. ap (λ (p : Table × Table). p.0) (sym (some-inj e));
  commit_done = λ t e. refl;
  commit_failed = λ t e. absurd (true≢false e);
  rollback_base = λ t. refl;
  query_get_rows = λ u lo n d got e. memory_rows u lo n d got e;
  delete_done = λ cutoff d n e u a. refl;
  delete_failed = λ cutoff d e. absurd (some≢none e);
}

pub memory-IsReliable : IsReliable memory
memory-IsReliable = record {
  begins = λ d. ((d, d), refl);
  upserts = λ u a v s t. (_, refl);
  commits = λ t. refl;
  queries = memory_queries;
}
