-- ===== src/Tests/Registers.antt =====
-- Names of registers.
use huawei_proxy.Prelude.{Member, ◌+◌, ◌≡◌, refl, ◌⊎◌, inl, inr, List, [], ◌∷◌, arith}
use huawei_proxy.Text.{codes, decimal}
use huawei_proxy.Registers.Defs.{Entry}
use huawei_proxy.Registers.Init.{
  register_defs, literal_defs, define, define_all, define_strings, define_yields, define_pack,
  define_packs, define_temperatures,
}
use huawei_proxy.Registers.Names.{
  find_def, continuation_name, find_continued, register_name, is_cont_reg,
}
use huawei_proxy.Registers.Names.Order.{IsVisit, register_name_covered, register_name_agree}

defined : Unit {0}
unfolding register_defs literal_defs define define_all define_strings define_yields define_pack
    define_packs define_temperatures decimal find_def continuation_name find_continued register_name
    is_cont_reg
defined = tt

-- the entries from the last to the first, before `acc`
backwards : List Entry → List Entry → List Entry
backwards [] acc = acc
backwards (e ∷ es) acc = backwards es (e ∷ acc)

backwards_sound :
    (es acc : List Entry) (e : Entry) → Member e (backwards es acc) → Member e es ⊎ Member e acc
unfolding backwards
backwards_sound [] acc e m = inr m
backwards_sound (x ∷ es) acc e m = elim (backwards_sound es (x ∷ acc) e m) [
  | inl here ↦ inl (inr here)
  | inr (inl same) ↦ inl (inl same)
  | inr (inr later) ↦ inr later
]

backwards_complete :
    (es acc : List Entry) (e : Entry) → Member e es ⊎ Member e acc → Member e (backwards es acc)
unfolding backwards
backwards_complete [] acc e (inl m) = elim m [ ]
backwards_complete [] acc e (inr m) = m
backwards_complete (x ∷ es) acc e (inl (inl same)) =
    backwards_complete es (x ∷ acc) e (inr (inl same))
backwards_complete (x ∷ es) acc e (inl (inr m)) = backwards_complete es (x ∷ acc) e (inl m)
backwards_complete (x ∷ es) acc e (inr m) = backwards_complete es (x ∷ acc) e (inr (inr m))

forwards-IsVisit : IsVisit register_defs
forwards-IsVisit = record { sound = λ e m. m; complete = λ e m. m }

backwards-IsVisit : IsVisit (backwards register_defs [])
backwards-IsVisit = record {
  sound = λ e m. elim (backwards_sound register_defs [] e m) [ inl h ↦ h | inr h ↦ elim h [ ] ];
  complete = λ e m. backwards_complete register_defs [] e (inl m);
}

second_word : register_name register_defs 32081 ≡ codes "active_power +1"
unfolding defined
second_word = refl

last_pack :
    register_name (backwards register_defs []) 38420
    ≡ codes "storage_unit_2_battery_pack_3_firmware_version"
unfolding defined backwards
last_pack = refl

unnamed : register_name register_defs 39000 ≡ []
unfolding defined
unnamed = refl

register_name_covered_example :
    register_name (backwards register_defs []) (30000 + 3) ≡ codes "model_name +3"
unfolding defined
register_name_covered_example =
    register_name_covered (backwards register_defs []) 30000 3
      (record { name = codes "model_name"; length = 15 }) backwards-IsVisit (inl refl) (omega arith)

register_name_agree_example :
    register_name register_defs 38230 ≡ register_name (backwards register_defs []) 38230
register_name_agree_example =
    register_name_agree register_defs (backwards register_defs []) 38230 forwards-IsVisit
      backwards-IsVisit
