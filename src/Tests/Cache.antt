-- ===== src/Tests/Cache.antt =====
-- The cache in memory.

use huawei_proxy.Prelude.{ℕ, inl, inr, ◌≡◌, ◌⊎◌, refl, List, [], ◌∷◌, none, some, arith}
use huawei_proxy.Platform.Sqlite.{Table, upsert, select_range, text_lt, keep_fresh}
use huawei_proxy.Platform.Memory.{memory, memory-IsReliable}
use huawei_proxy.Cache.{
  PendingWrite, fill, get, get_bytes, set_registers, set_from_bytes, batch_set, exec_values,
  exec_writes, finish, delete_stale,
}
use huawei_proxy.Cache.Get.{cached_values, get_sound}
use huawei_proxy.Cache.Write.{latest}
use mathlib.Core.List.{Permᴰ}
use huawei_proxy.Cache.Order.{get-batch_set-Perm}
use huawei_proxy.Cache.Atomic.{Applied, batch_set_all_or_nothing}
use huawei_proxy.Cache.ReadBack.{get_bytes-set_from_bytes}
use huawei_proxy.Cache.Store.{
  CacheOp, set_op, batch_op, purge_op, Follows, run_ops, run_ops_refines,
}

abbrev empty : Table
empty = λ u a. none

-- two registers of unit 1 from address 100
abbrev two : Table
two =
    upsert 1 101 (record { value = 8; updated_at = 5 ∷ [] })
      (upsert 1 100 (record { value = 7; updated_at = 5 ∷ [] }) empty)

cached : Unit {0}
unfolding get fill select_range upsert set_registers batch_set exec_values exec_writes finish
    delete_stale keep_fresh text_lt
cached = tt

get-two : get memory 1 100 2 two ≡ some (7 ∷ 8 ∷ [])
unfolding cached
get-two = refl

get_gap : get memory 1 100 3 two ≡ none
unfolding cached
get_gap = refl

get_sound_example : cached_values (two 1) 100 2 ≡ some (7 ∷ 8 ∷ [])
get_sound_example = get_sound memory 1 100 2 two (7 ∷ 8 ∷ []) get-two

abbrev groups : List PendingWrite
groups =
    record { unit_id = 1; address = 100; values = 1 ∷ 2 ∷ [] }
    ∷ record { unit_id = 1; address = 101; values = 3 ∷ [] }
    ∷ []

get_groups : get memory 1 100 2 (batch_set memory (9 ∷ []) groups two) ≡ some (1 ∷ 3 ∷ [])
unfolding cached
get_groups = refl

batch_set_all_or_nothing_example :
    (batch_set memory (9 ∷ []) groups two ≡ two)
    ⊎ Applied memory (9 ∷ []) (latest groups) two (batch_set memory (9 ∷ []) groups two)
batch_set_all_or_nothing_example = batch_set_all_or_nothing memory (9 ∷ []) groups two

get_bytes-set_from_bytes_example :
    get_bytes memory 1 7 2 (set_from_bytes memory (9 ∷ []) 1 7 (1 ∷ 2 ∷ 3 ∷ 4 ∷ []) two)
    ≡ some (1 ∷ 2 ∷ 3 ∷ 4 ∷ [])
get_bytes-set_from_bytes_example =
    get_bytes-set_from_bytes memory memory-IsReliable (9 ∷ []) 1 7 2 (1 ∷ 2 ∷ 3 ∷ 4 ∷ []) two
      (omega arith) (omega arith)

get_fresh : get memory 1 100 2 (delete_stale memory (5 ∷ []) two).1 ≡ some (7 ∷ 8 ∷ [])
unfolding cached
get_fresh = refl

get_stale : get memory 1 100 2 (delete_stale memory (6 ∷ []) two).1 ≡ none
unfolding cached
get_stale = refl

-- two groups that are apart
abbrev apart : List PendingWrite
apart =
    record { unit_id = 1; address = 100; values = 1 ∷ 2 ∷ [] }
    ∷ record { unit_id = 1; address = 102; values = 3 ∷ [] }
    ∷ []

abbrev turned : List PendingWrite
turned =
    record { unit_id = 1; address = 102; values = 3 ∷ [] }
    ∷ record { unit_id = 1; address = 100; values = 1 ∷ 2 ∷ [] }
    ∷ []

get-batch_set-Perm_example :
    get memory 1 100 3 (batch_set memory (9 ∷ []) apart two)
    ≡ get memory 1 100 3 (batch_set memory (9 ∷ []) turned two)
get-batch_set-Perm_example =
    get-batch_set-Perm memory memory-IsReliable (9 ∷ []) apart turned two ∣ Permᴰ.swap refl refl ∣₁
      ((inr (inl (omega arith)), tt), (tt, tt)) 1 100 3

-- one call of each kind
abbrev calls : List CacheOp
calls = set_op (5 ∷ []) 1 100 (7 ∷ 8 ∷ []) ∷ batch_op (9 ∷ []) groups ∷ purge_op (6 ∷ []) ∷ []

run_ops_refines_example :
    (store : Table) × Follows calls empty store
    × ((unit address count : ℕ) (vs : List ℕ)
        → get memory unit address count (run_ops memory calls empty) ≡ some vs
        → cached_values (store unit) address count ≡ some vs)
run_ops_refines_example = run_ops_refines memory calls empty
