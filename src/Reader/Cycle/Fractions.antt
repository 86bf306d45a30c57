-- ===== src/Reader/Cycle/Fractions.antt =====
-- The purge of reader.go within one second: `DeleteStale` of cache.go compares texts of RFC3339Nano,
-- which leaves out the zeros at the end of a second's fraction, so that the order of the texts is not
-- the order of the times: 07:00:00.51Z is before 07:00:00.5Z, and 07:00:00.5Z before 07:00:00Z.
use huawei_proxy.Prelude.{ℕ, ◌+◌, ◌*◌, ◌-◌, ◌≤◌, ◌<◌, ◌≡◌, ◌∙◌, ap, ◌++◌, none, some, arith}
use huawei_proxy.Prelude.Int.{pos}
use huawei_proxy.Text.{Text}
use huawei_proxy.Text.Fraction.{tens, fraction, text_lt-append, text_lt-fraction}
use huawei_proxy.Platform.{Platform}
use huawei_proxy.Client.{World}
use huawei_proxy.Config.{Config}
use huawei_proxy.Config.Durations.{second, hour}
use huawei_proxy.Reader.{new_reader}
use huawei_proxy.Reader.Cycle.{cutoff, purge}
use huawei_proxy.Reader.Cycle.Purge.{year_10000, edge-ttl, purge-gone}

-- The texts of RFC3339Nano in UTC: `f` nanoseconds past a second have the text of the second up to its
-- fraction, then the digits of the fraction without the zeros at their end, if one is left behind a
-- point, and `Z`.
pub record DropsZeros (p : Platform) : Type 0 where
  pub stem : ℕ → Text
  pub written :
      (s f : ℕ)
      → f < second
      → s * second + f < year_10000
      → p.format (s * second + f) ≡ stem s ++ fraction f

-- The purge deletes registers that are younger than the time to live. The time to live before now is
-- `q` times 10 to the power `k` nanoseconds past a second, so that the last `k` of the nine digits of
-- its fraction are zeros; a register that was written later than that, by fewer nanoseconds than 10
-- to the power `k`, is no more in the table. With `k = 9`, that is the rest of a whole second. The time
-- to live is at most 2562047 hours, the statement succeeds, the register was written in the same
-- second, before the year 10000, and the texts of times are those of RFC3339Nano.
pub purge-younger :
    (p : Platform) (cfg : Config) (h s k q r : ℕ) (w : World p) (unit address value n : ℕ)
    → DropsZeros p
    → cfg.cache_ttl_h ≡ pos h
    → h ≤ 2562047
    → w.clock ≡ s * second + q * tens k + h * hour
    → k ≤ 9
    → 1 ≤ r
    → r < tens k
    → q * tens k + r < second
    → s * second + (q * tens k + r) < year_10000
    → p.sql.committed w.db unit address
      ≡ some (record { value = value; updated_at = p.format (s * second + (q * tens k + r)) })
    → (p.sql.exec_delete_stale (cutoff p (new_reader cfg) w) w.db).0 ≡ some n
    → p.sql.committed (purge p (new_reader cfg) w).db unit address ≡ none
unfolding new_reader
purge-younger p cfg h s k q r w unit address value n texts e low now nine positive less fits before
      row done =
    let time = s * second + (q * tens k + r) in
    let at : cutoff p (new_reader cfg) w ≡ texts.stem s ++ fraction (q * tens k) =
      ap p.format (edge-ttl cfg h w e low ∙ omega (arith, now))
      ∙ texts.written s (q * tens k) (omega (arith, fits)) (omega (arith, before)) in
    let at_row = texts.written s (q * tens k + r) fits before in
    purge-gone p (new_reader cfg) w unit address
      (record { value = value; updated_at = p.format time }) n row done
      (rw (at, at_row)
        (text_lt-append (texts.stem s) (fraction (q * tens k + r)) (fraction (q * tens k))
          (text_lt-fraction (9 - k) k q r (omega (arith, nine)) positive less)))
