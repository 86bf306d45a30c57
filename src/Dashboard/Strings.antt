-- ===== src/Dashboard/Strings.antt =====
-- The text fields of the dashboard: text that a device stores, padded with null bytes, is shown as it is.
use huawei_proxy.Prelude.{
  ℕ, ◌*◌, ◌≡◌, ◌≢◌, refl, ap, ◌∙◌, false, List, [], ◌∷◌, ◌++◌, some, length, replicate, All, ◌==◌,
  arith,
}
use huawei_proxy.Bytes.{AreBytes, bytes_to_uint16, uint16_to_bytes}
use huawei_proxy.Bytes.RoundTrip.{
  uint16_to_bytes-bytes_to_uint16, length-bytes_to_uint16, bytes_to_uint16-AreWords,
}
use huawei_proxy.Text.{Text}
use huawei_proxy.Prelude.Int.{ℤ}
use huawei_proxy.Platform.Sqlite.{Sqlite, IsReliable}
use huawei_proxy.Cache.{set_from_bytes}
use huawei_proxy.Cache.ReadBack.{get-set_self}
use huawei_proxy.Dashboard.{
  reg_str, DashboardField, before_null, trim_right, decode_registers, decode_dashboard_field,
}

-- The text does not end with a space.
abbrev pub IsTrimmed : Text → Type 0
IsTrimmed [] = Unit
IsTrimmed (c ∷ []) = c ≢ b' '
IsTrimmed (c ∷ d ∷ cs) = IsTrimmed (d ∷ cs)

before_null-padded : (s : Text) (k : ℕ) → All (λ c. c ≢ 0) s → before_null (s ++ replicate k 0) ≡ s
unfolding before_null
before_null-padded [] ℕ.zero h = refl
before_null-padded [] (ℕ.suc k) h = refl
before_null-padded (c ∷ cs) k (h, hs) =
    let e : (c == 0) ≡ false = ground arith in rw (e, before_null-padded cs k hs) refl

trim_right-trimmed : (s : Text) → IsTrimmed s → trim_right s ≡ s
unfolding trim_right
trim_right-trimmed [] h = refl
trim_right-trimmed (c ∷ []) h = let e : (c == b' ') ≡ false = ground arith in rw e refl
trim_right-trimmed (c ∷ d ∷ cs) h = rw (trim_right-trimmed (d ∷ cs) h) refl

-- Text without null bytes that does not end with a space, padded with null bytes to the length of a
-- text field and stored as the cache stores an answer, is what the dashboard shows.
pub decode_dashboard_field-set_from_bytes :
    (two_places : ℤ → ℕ → Text) (sql : Sqlite) (fine : IsReliable sql) (now : List ℕ) (db : sql.Db)
    (unit : ℕ) (f : DashboardField) (s : Text) (k : ℕ)
    → f.reg_type ≡ reg_str
    → All (λ c. c ≢ 0) s
    → IsTrimmed s
    → AreBytes (s ++ replicate k 0)
    → length (s ++ replicate k 0) ≡ 2 * f.length
    → decode_dashboard_field two_places sql f
        (set_from_bytes sql now unit f.address (s ++ replicate k 0) db)
        unit
      ≡ some s
unfolding decode_dashboard_field set_from_bytes decode_registers
decode_dashboard_field-set_from_bytes two_places sql fine now db unit f s k t z h b l =
    let bs = s ++ replicate k 0 in
    let n = length-bytes_to_uint16 f.length bs l in
    let stored = rw n at (
      get-set_self sql fine now unit f.address (bytes_to_uint16 bs) db
        (bytes_to_uint16-AreWords bs b)) in
    let back = uint16_to_bytes-bytes_to_uint16 f.length bs b l in
    let shown : trim_right (before_null (uint16_to_bytes (bytes_to_uint16 bs))) ≡ s =
      ap (λ x. trim_right (before_null x)) back
      ∙ ap trim_right (before_null-padded s k z)
      ∙ trim_right-trimmed s h in
    rw (decode_dashboard_field, set_from_bytes, stored, t, decode_registers) (ap some shown)
