-- ===== src/SmaDetector/Tests.antt =====
-- sma_detector.cpp at concrete inputs: the theorems of the other files applied, and runs.
use dbus_fronius.Base.{ℕ, ◌≡◌, refl, false, some, List, [], ◌∷◌, map, arith}
use dbus_fronius.SmaDetector.{reads, device_found, finished, model_name, letter, release_type}
use dbus_fronius.SmaDetector.Runs.{start, Event, connected, disconnected, answered, run}
use dbus_fronius.SmaDetector.Devices.{announcements, Heard, run-Heard}
use dbus_fronius.SmaDetector.Course.{
  Inverter, answers_of, IsInverter, device_of, run-live, run-device_found,
}

abbrev sunny_boy : Inverter
sunny_boy = record {
  model = 9075;
  serial_number = 2110123456;
  major = 2;
  minor = 5;
  build = 36;
  release = 4;
  max_power = 4000;
  power_limit = 4000;
}

sunny_boy-IsInverter : IsInverter sunny_boy
sunny_boy-IsInverter = record {
  major_fits = omega arith;
  minor_fits = omega arith;
  build_fits = omega arith;
  release_fits = omega arith;
}

-- The release 4 is the letter R.
release_type_test : release_type 4 ≡ letter 82
unfolding release_type
release_type_test = refl

sunny_boy_name : model_name 9075 ≡ some "SMA SunnyBoy 4000TL-21"
unfolding model_name
sunny_boy_name = refl

run-device_found_example :
    (run (connected ∷ map answered (answers_of sunny_boy)) (start 3)).log
    ≡ reads 3 30051 2
      ∷ reads 3 30053 2
      ∷ reads 3 30057 2
      ∷ reads 3 30059 2
      ∷ reads 3 30231 2
      ∷ reads 3 30837 2
      ∷ device_found (device_of 3 "SMA SunnyBoy 4000TL-21" sunny_boy)
      ∷ finished
      ∷ []
run-device_found_example =
    run-device_found 3 "SMA SunnyBoy 4000TL-21" sunny_boy sunny_boy-IsInverter sunny_boy_name

abbrev cut_off : List Event
cut_off = connected ∷ answered (0 ∷ 8001 ∷ []) ∷ answered [] ∷ disconnected ∷ []

run-Heard_example : let d = run cut_off (start 3) in Heard d.live (announcements d.log)
run-Heard_example = run-Heard cut_off 3

abbrev six_answers : List (List ℕ)
six_answers =
    (0 ∷ 8001 ∷ []) ∷ (0 ∷ 9076 ∷ []) ∷ (1 ∷ 2 ∷ []) ∷ [] ∷ (0 ∷ 1 ∷ []) ∷ (0 ∷ 1 ∷ []) ∷ []

run-live_example : (run (connected ∷ map answered six_answers) (start 3)).live ≡ false
run-live_example = run-live six_answers 3 refl
