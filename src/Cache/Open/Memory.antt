-- ===== src/Cache/Open/Memory.antt =====
-- A database file on which the assumptions about its opening hold: the columns and rows of its table
-- in memory, and no failure.
use mathlib.Core.Option
use huawei_proxy.Prelude.{◌≡◌, refl, Bool, true, false, List, [], map, Option, none, some}
use huawei_proxy.Text.{Text}
use huawei_proxy.Platform.Sqlite.{Table}
use huawei_proxy.Platform.Memory.{memory, true≢false}
use huawei_proxy.Cache.Open.{
  Opener, Statement, journal_mode_wal, synchronous_normal, busy_timeout, drop_registers,
  create_registers, upsert_register, get_range, count_rows, all_rows, delete_stale_rows, has_column,
  columns, no_rows, IsPragma,
}

abbrev pub SmallFile : Type 0
SmallFile = Option (List Text) × Table

abbrev pub create : SmallFile → SmallFile
create (none, t) = (some columns, no_rows)
create (some names, t) = (some names, t)

abbrev pub perform : Statement → SmallFile → Bool × SmallFile
perform drop_registers f = (true, (none, no_rows))
perform create_registers f = (true, create f)
perform s f = (true, f)

abbrev pub is_prepared : Statement → Option (List Text) → Bool
is_prepared upsert_register none = false
is_prepared upsert_register (some names) = has_column names
is_prepared s names = true

pub file_pragma :
    (s : Statement) (f : SmallFile)
    → IsPragma s
    → ((perform s f).1.0 ≡ f.0) × ((perform s f).1.1 ≡ f.1)
file_pragma journal_mode_wal f i = (refl, refl)
file_pragma synchronous_normal f i = (refl, refl)
file_pragma busy_timeout f i = (refl, refl)
file_pragma drop_registers f i = absurd i
file_pragma create_registers f i = absurd i
file_pragma upsert_register f i = absurd i
file_pragma get_range f i = absurd i
file_pragma count_rows f i = absurd i
file_pragma all_rows f i = absurd i
file_pragma delete_stale_rows f i = absurd i

pub file_new :
    (f : SmallFile) → f.0 ≡ none → ((create f).0 ≡ some columns) × ((create f).1 ≡ no_rows)
file_new (none, t) e = (refl, refl)
file_new (some names, t) e = absurd (cc)

pub file_old :
    (f : SmallFile) (names : List Text)
    → f.0 ≡ some names
    → ((create f).0 ≡ some names) × ((create f).1 ≡ f.1)
file_old (none, t) names e = absurd (cc)
file_old (some found, t) names e = (e, refl)

pub file_prepared :
    (f : SmallFile)
    → is_prepared upsert_register f.0 ≡ true
    → (names : List Text) × (f.0 ≡ some names) × (has_column names ≡ true)
file_prepared (none, t) e = absurd (cc)
file_prepared (some names, t) e = (names, refl, e)

-- the small file at every path
abbrev pub small_file : SmallFile → Opener memory
small_file f = record {
  Handle = SmallFile;
  open_db = λ path. some f;
  exec = perform;
  table_info = λ g. some (map some (Option.get_or g.0 []));
  prepare = λ s g. (is_prepared s g.0, g);
  close = λ g. g;
  ready = λ g. g.1;
  schema = λ g. g.0;
  rows = λ g. g.1;
  ready_rows = λ g. refl;
  pragma_schema = file_pragma;
  drop_done = λ g e. (refl, refl);
  drop_failed = λ g e. absurd (true≢false e);
  create_new = λ g e n. file_new g n;
  create_old = λ g names e n. file_old g names n;
  prepare_same = λ s g. (refl, refl);
  prepare_upsert = file_prepared;
}
