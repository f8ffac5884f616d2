-- ===== src/SunspecDetector/Tests.antt =====
-- sunspec_detector.cpp and sunspec_tools.cpp at concrete inputs: the theorems of the other files
-- applied, and runs.
use dbus_fronius.Base.{◌+◌, ◌%◌, ◌≡◌, refl, true, false, List, [], ◌∷◌, ◌++◌, map, replicate, arith}
use dbus_fronius.SunspecTools.{
  pos, negsuc, scaled, not_a_number, get_scaled_value, get_scale, raw_value, scale_value, is_finite,
  absent_value, get_string,
}
use dbus_fronius.SunspecDetector.{
  DeviceInfo, reads, device_found, finished, is_inverter_model, suns_text,
}
use dbus_fronius.SunspecDetector.Events.{start, answered, handle, run}
use dbus_fronius.SunspecDetector.Walk.{
  Model, header, span, at_header, requests, run-inverter_model_offset, run-endless,
}

abbrev named : DeviceInfo
named = record ((start 126).di) { product_name = 65 ∷ 66 ∷ 66 ∷ 32 ∷ 50 ∷ [] }

abbrev before : List Model
before = record { id = 11; size = 13 } ∷ []

abbrev inverter : Model
inverter = record { id = 103; size = 50 }

abbrev after : List Model
after = record { id = 122; size = 44 } ∷ []

not_inverter : is_inverter_model 122 ≡ false
unfolding is_inverter_model
not_inverter = refl

a_inverter : is_inverter_model 103 ≡ true
unfolding is_inverter_model
a_inverter = refl

run-inverter_model_offset_example :
    (found : DeviceInfo) × ((handle
        (answered (0xffff ∷ 0 ∷ []))
        (run (map header (before ++ inverter ∷ after)) (at_header 40069 named []))).log
      ≡ ([] ++ requests 126 40069 (before ++ inverter ∷ after))
        ++ device_found found ∷ finished ∷ [])
    × (found.inverter_model_offset ≡ 40069 + span before)
    × (found.phase_count ≡ 103 % 10)
    × (found.network_id ≡ 126)
    × (found.product_name ≡ 65 ∷ 66 ∷ 66 ∷ 32 ∷ 50 ∷ [])
unfolding start
run-inverter_model_offset_example =
    run-inverter_model_offset before inverter after 40069 named []
      ((refl, refl, refl), ((refl, refl, refl), ((refl, refl, refl), tt))) (omega arith) a_inverter
      (not_inverter, tt) refl (omega arith)

run-endless_example :
    run (replicate 3 (answered (122 ∷ 65534 ∷ []))) (at_header 40069 named [])
    ≡ at_header 40069 named ([] ++ replicate 3 (reads 126 40069 2))
unfolding start
run-endless_example = run-endless 3 122 40069 named [] (refl, refl, refl) not_inverter (omega arith)

-- 5000 with the exponent -2, and the value that stands for none.
scaled_test :
    (get_scaled_value (5000 ∷ 0xfffe ∷ []) 0 1 1 false ≡ scaled (pos 5000) (negsuc 1))
    × (get_scaled_value (0xffff ∷ 0 ∷ []) 0 1 1 false ≡ not_a_number)
    × (get_scaled_value (0xfff6 ∷ 0 ∷ []) 0 1 1 true ≡ scaled (negsuc 9) (pos 0))
unfolding get_scaled_value get_scale raw_value scale_value is_finite absent_value
scaled_test = (refl, refl, refl)

suns_test : get_string (0x5375 ∷ 0x6e53 ∷ []) 0 2 ≡ suns_text
unfolding get_string
suns_test = refl
