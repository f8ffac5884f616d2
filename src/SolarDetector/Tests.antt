-- ===== src/SolarDetector/Tests.antt =====
-- solar_api_detector.cpp at concrete inputs: the theorem of the other files applied, and a run.
use Prim.Native.String.{String}
use dbus_fronius.Base.{
  ℕ, ◌≡◌, refl, true, false, not, ◌&&◌, some, List, [], ◌∷◌, lookup, if◌then◌else◌, length,
}
use dbus_fronius.SolarApi.{
  Json, same_text, process_converter_info, inverters_of, get_by_path, find_key, process_reply,
}
use dbus_fronius.Defines.{new_device_info}
use dbus_fronius.SolarDetector.{Environment, is_pending}
use dbus_fronius.SolarDetector.Events.{Event, starts, done, sunspec, handle, run, new_detector}
use dbus_fronius.SolarDetector.Ended.{is_ended, is_orderly}
use dbus_fronius.SolarDetector.Course.{is_listed}
use dbus_fronius.SolarDetector.Finish.{run-is_orderly}

-- An answer with two inverters, and their parts.
data Document : Type 0 where
  nothing answer head status code body devices first second : Document
  number : ℕ → Document

abbrev entries : Document → List (String × Document)
entries answer = ("Body", body) ∷ ("Head", head) ∷ []
entries head = ("Status", status) ∷ []
entries status = ("Code", number 0) ∷ []
entries body = ("Data", devices) ∷ []
entries devices = ("1", first) ∷ ("2", second) ∷ []
entries first = ("DT", number 123) ∷ []
entries second = ("DT", number 255) ∷ []
entries nothing = []
entries code = []
entries (number n) = []

abbrev number_of : Document → ℕ
number_of (number n) = n
number_of _ = 0

abbrev json : Json Document ℕ
json = record {
  invalid = nothing;
  to_map = entries;
  to_int = number_of;
  to_string = λ d. "A 1";
  to_double = number_of;
  key_to_int = λ s. if same_text s "1" then 1 else 2;
  parse = λ s. answer;
}

abbrev environment : Environment ℕ
environment = record {
  to_latin1 = λ c. c;
  is_letter_or_number = λ c. true;
  of_number = λ n. "7";
  zero_double = 0;
  nan = 0;
  fronius = 41282;
  lower_bound = λ table type. 0;
}

abbrev history : List (Event json environment)
history =
    starts "192.168.1.9"
    ∷ done 0 false "" "answer"
    ∷ done 0 false "" "answer"
    ∷ sunspec 0 (some (new_device_info 0))
    ∷ []

run-is_orderly_example :
    let d = run json environment history (new_detector 80) in
    (is_orderly 0 d.signals ≡ true)
    × (is_ended 0 d.signals
        ≡ (is_listed (lookup 0 d.replies) && not (is_pending 0 d.detector_reply_to_inverter)))
run-is_orderly_example = run-is_orderly json environment 80 0 history

-- The device of type 255 is left out, and the reply has one device before its end.
two_signals : length (run json environment history (new_detector 80)).signals ≡ 2
unfolding run handle process_converter_info inverters_of get_by_path find_key process_reply
two_signals = refl
