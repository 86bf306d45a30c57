-- ===== src/Reader/Cycle/Purge.antt =====
-- How old the registers are that `Run` of reader.go deletes with `DeleteStale(CacheTTL())`, where the
-- times in the table are texts of RFC3339Nano.
use huawei_proxy.Prelude.{
  ℕ, ◌+◌, ◌-◌, ◌*◌, ◌≤◌, ◌<◌, ◌≡◌, ◌⊎◌, refl, ap, ◌∙◌, inl, inr, true, false, Bool-cases, List, [],
  ◌∷◌, none, some, leb, arith,
}
use huawei_proxy.Prelude.Int.{ℤ, pos, negsuc, pos_part, neg_part}
use huawei_proxy.Platform.{Platform}
use huawei_proxy.Platform.Sqlite.{Cell, text_lt, keep_fresh}
use huawei_proxy.Cache.{delete_stale}
use huawei_proxy.Cache.Stale.{delete_stale-keep}
use huawei_proxy.Client.{World}
use huawei_proxy.Config.{Config}
use huawei_proxy.Config.Durations.{duration, negated, second, hour, cache_ttl}
use huawei_proxy.Config.Durations.Exact.{duration-pos, duration-negsuc, duration_wraps, negated-neg}
use huawei_proxy.Reader.{Reader, new_reader}
use huawei_proxy.Reader.Cycle.{cutoff, purge}

-- the start of the year 10000, whose texts are longer
abbrev pub year_10000 : ℕ
year_10000 = 253402300800000000000

-- What the texts of RFC3339Nano keep of the order of times: two times that are a second apart or more
-- have texts in their order. Within a second the texts may stand in another order.
abbrev pub KeepsOrder : Platform → Type 0
KeepsOrder p =
    (t t' : ℕ) → t + second ≤ t' → t' < year_10000 → text_lt (p.format t) (p.format t') ≡ true

text_lt-text_lt : (as' bs : List ℕ) → text_lt as' bs ≡ true → text_lt bs as' ≡ false
unfolding text_lt
text_lt-text_lt [] [] h = refl
text_lt-text_lt [] (b ∷ bs) h = refl
text_lt-text_lt (a ∷ as') [] h = absurd (cc)
text_lt-text_lt (a ∷ as') (b ∷ bs) h = ground (arith, text_lt-text_lt as' bs)

module _ (p : Platform) (r : Reader) (w : World p) (unit address : ℕ) (x : Cell) where
  purge-kept :
      p.sql.committed w.db unit address ≡ some x
      → text_lt x.updated_at (cutoff p r w) ≡ false
      → p.sql.committed (purge p r w).db unit address ≡ some x
  unfolding purge keep_fresh
  purge-kept e h = delete_stale-keep p.sql (cutoff p r w) w.db unit address x e (rw h refl)

  pub purge-gone :
      (n : ℕ)
      → p.sql.committed w.db unit address ≡ some x
      → (p.sql.exec_delete_stale (cutoff p r w) w.db).0 ≡ some n
      → text_lt x.updated_at (cutoff p r w) ≡ true
      → p.sql.committed (purge p r w).db unit address ≡ none
  unfolding purge delete_stale keep_fresh
  purge-gone n e done h =
      p.sql.delete_done (cutoff p r w) w.db n done unit address
      ∙ ap (keep_fresh (cutoff p r w)) e
      ∙ rw h refl

-- the time that the cutoff is the text of
abbrev pub edge : {p : Platform} → Config → World p → ℕ
edge cfg w = w.clock + pos_part (negated (cache_ttl cfg)) - neg_part (negated (cache_ttl cfg))

pub edge-ttl :
    {p : Platform} (cfg : Config) (h : ℕ) (w : World p)
    → cfg.cache_ttl_h ≡ pos h
    → h ≤ 2562047
    → edge cfg w ≡ w.clock - h * hour
unfolding cache_ttl
edge-ttl cfg h w e low =
    let d : duration cfg.cache_ttl_h hour ≡ pos (h * hour) =
      ap (λ z. duration z hour) e ∙ duration-pos h hour (omega arith) in
    rw d (
      let (zero_part, ttl) = negated-neg (pos (h * hour)) (omega arith) in
      rw (zero_part, ttl) (omega arith))

-- A time to live of at most 2562047 hours, which is 292 years, is kept to the second. A register that
-- was written `t` ns after the epoch is still in the table after the purge, with its value and its
-- time, unless it is older than the time to live less a second; and it is no more there, unless it is
-- younger than the time to live and a second. The statement succeeds, the clock stands before the year
-- 10000 and past the epoch by the time to live, and texts of times that are a second apart have the
-- order of the times.
pub purge-ttl :
    (p : Platform) (cfg : Config) (h : ℕ) (w : World p) (unit address value t n : ℕ)
    → KeepsOrder p
    → cfg.cache_ttl_h ≡ pos h
    → h ≤ 2562047
    → t ≤ w.clock
    → h * hour ≤ w.clock
    → w.clock < year_10000
    → p.sql.committed w.db unit address ≡ some (record { value = value; updated_at = p.format t })
    → (p.sql.exec_delete_stale (cutoff p (new_reader cfg) w) w.db).0 ≡ some n
    → let left = p.sql.committed (purge p (new_reader cfg) w).db unit address in
      ((left ≡ some (record { value = value; updated_at = p.format t }))
        ⊎ (t + h * hour < w.clock + second))
      × ((left ≡ none) ⊎ (w.clock < t + h * hour + second))
unfolding new_reader
purge-ttl p cfg h w unit address value t n order e low past long before row done =
    let x : Cell = record { value = value; updated_at = p.format t } in
    let at : cutoff p (new_reader cfg) w ≡ p.format (w.clock - h * hour) =
      ap p.format (edge-ttl cfg h w e low) in
    (
      elim (Bool-cases (leb (w.clock + second) (t + h * hour))) [
        | inl young ↦ inl (
            purge-kept p (new_reader cfg) w unit address x row (
              text_lt-text_lt (cutoff p (new_reader cfg) w) (p.format t)
                (rw at (order (w.clock - h * hour) t (ground arith) (omega arith)))))
        | inr old ↦ inr (ground arith)
      ],
      elim (Bool-cases (leb (t + h * hour + second) w.clock)) [
        | inl old ↦ inl (
            purge-gone p (new_reader cfg) w unit address x n row done
              (rw at (order t (w.clock - h * hour) (ground arith) (omega arith))))
        | inr young ↦ inr (ground arith)
      ],
    )

-- Times to live for which the `int64` of nanoseconds is negative by a second or more: from -2562047 to
-- -1 hours, and from 2562048 to 5124095 hours, where the product wraps once.
abbrev pub IsBackward : ℤ → Type 0
IsBackward (pos h) = (2562048 ≤ h) × (h ≤ 5124095)
IsBackward (negsuc h) = h < 2562047

duration-IsBackward :
    (z : ℤ)
    → IsBackward z
    → (pos_part (duration z hour) ≡ 0)
      × (second ≤ neg_part (duration z hour))
      × (neg_part (duration z hour) < 9223372036854775808)
duration-IsBackward (pos h) (low, high) =
    let (p, n) = duration_wraps h hour (omega arith) (omega arith) in
    (p, omega (arith, n), omega (arith, n))
duration-IsBackward (negsuc h) low =
    let (p, n) = duration-negsuc h hour (omega arith) (omega arith) in
    (p, omega (arith, n), omega (arith, n))

edge-IsBackward :
    {p : Platform} (cfg : Config) (w : World p)
    → IsBackward cfg.cache_ttl_h
    → (w.clock + second ≤ edge cfg w) × (edge cfg w ≤ w.clock + 9223372036854775808)
unfolding cache_ttl
edge-IsBackward cfg w b =
    let (none_left, low, high) = duration-IsBackward cfg.cache_ttl_h b in
    let (forward, back) = negated-neg (duration cfg.cache_ttl_h hour) high in
    (omega (arith, forward, back, none_left, low), omega (arith, forward, back, none_left, high))

-- With a time to live from -2562047 to -1 hours, or from 2562048 to 5124095 hours, whose `int64` of
-- nanoseconds wraps to a negative number, `DeleteStale` leaves no register, however fresh: where the statement
-- succeeds, one that was written `t` ns after the epoch is no more in the table, for any `t` up to
-- now. The clock stands before the year 9700, and texts of times that are a second apart have the
-- order of the times.
pub purge-IsBackward :
    (p : Platform) (cfg : Config) (w : World p) (unit address value t n : ℕ)
    → KeepsOrder p
    → IsBackward cfg.cache_ttl_h
    → t ≤ w.clock
    → w.clock + 9223372036854775808 < year_10000
    → p.sql.committed w.db unit address ≡ some (record { value = value; updated_at = p.format t })
    → (p.sql.exec_delete_stale (cutoff p (new_reader cfg) w) w.db).0 ≡ some n
    → p.sql.committed (purge p (new_reader cfg) w).db unit address ≡ none
unfolding new_reader
purge-IsBackward p cfg w unit address value t n order b past before row done =
    let (low, high) = edge-IsBackward cfg w b in
    purge-gone p (new_reader cfg) w unit address (record { value = value; updated_at = p.format t })
      n row done (order t (edge cfg w) (ground arith) (omega arith))
