-- ===== src/SolarApi/Tests.antt =====
-- froniussolar_api.cpp and solar_api_updater.cpp at concrete inputs: the theorems of the other files
-- applied, and runs.
use Prim.Native.String.{String}
use dbus_fronius.Base.{ℕ, ◌≡◌, refl, true, false, some, List, [], ◌∷◌, ◌+◌, ◌/◌, ◌%◌, if◌then◌else◌}
use dbus_fronius.SolarApi.{
  Json, no_error, network_error, api_error, same_text, process_common_data, answer_reply,
  get_by_path, find_key, process_reply,
}
use dbus_fronius.SolarApi.Client.{get_common_data}
use dbus_fronius.SolarApi.Updater.{
  SolarApiUpdater, Event, done, timeout, retrieval_timer, settings_timer, connection_data_changed,
  new_updater, handle, run,
}
use dbus_fronius.SolarApi.Pending.{IsPolling}
use dbus_fronius.SolarApi.Polling.{run-IsPolling}
use dbus_fronius.SolarApi.Resume.{Asks, timeout-Asks}
use dbus_fronius.SolarApi.Failures.{losses, run_failing, run_failing-losses}

-- The parts of an answer, whose status code is a number.
data Document : Type 0 where
  nothing : Document
  answer head status : ℕ → Document
  number : ℕ → Document
  device : Document

abbrev entries : Document → List (String × Document)
entries nothing = []
entries (answer n) = ("Head", head n) ∷ ("Body", nothing) ∷ []
entries (head n) = ("Status", status n) ∷ []
entries (status n) = ("Code", number n) ∷ ("Reason", nothing) ∷ []
entries (number n) = []
entries device = []

abbrev number_of : Document → ℕ
number_of (number n) = n
number_of _ = 0

abbrev json : Json Document ℕ
json = record {
  invalid = nothing;
  to_map = entries;
  to_int = number_of;
  to_string = λ d. "text";
  to_double = number_of;
  key_to_int = λ s. 1;
  parse =
      λ s. if same_text s "good" then answer 0 else if same_text s "bad" then answer 8 else nothing;
}

-- The error of three answers: a good one, one with an error code, one that is no Solar API.
good_answer : (process_common_data json "" "good").reply.error ≡ no_error
unfolding process_common_data process_reply answer_reply get_by_path find_key
good_answer = refl

bad_answer : (process_common_data json "" "bad").reply.error ≡ api_error
unfolding process_common_data process_reply answer_reply get_by_path find_key
bad_answer = refl

other_answer : (process_common_data json "" "page").reply.error ≡ network_error
unfolding process_common_data process_reply answer_reply get_by_path find_key
other_answer = refl

abbrev history : List (Event json)
history =
    done false "" "good"
    ∷ timeout "Request aborted"
    ∷ connection_data_changed "Request aborted" "fronius.local" 8080
    ∷ retrieval_timer
    ∷ settings_timer
    ∷ done false "" "bad"
    ∷ []

run-IsPolling_example : IsPolling (run json history (new_updater "192.168.1.9" 80 1 3))
run-IsPolling_example = run-IsPolling json "192.168.1.9" 80 1 3 history

timeout-Asks_example :
    let u = run json history (new_updater "192.168.1.9" 80 1 3) in
    let late = handle json (timeout "Request aborted") u in
    Asks late (handle json retrieval_timer late)
timeout-Asks_example = timeout-Asks json "192.168.1.9" "Request aborted" 80 1 3 history refl

abbrev seven : List String
seven = "a" ∷ "b" ∷ "c" ∷ "d" ∷ "e" ∷ "f" ∷ "g" ∷ []

abbrev asking : SolarApiUpdater ℕ
asking = record {
  network_id = 1;
  phase_count = 1;
  solar_api = record {
    host_name = "192.168.1.9";
    port = 80;
    request_type = some get_common_data;
    timer_running = true;
    calls = [];
  };
  initialized = true;
  retry_count = 0;
  retrievals = 0;
  log = [];
}

run_failing-losses_example :
    (losses (run_failing json seven asking) ≡ 0 + 7 / 5)
    × ((run_failing json seven asking).retry_count ≡ 7 % 5)
run_failing-losses_example =
    run_failing-losses json seven asking (refl, (refl, (refl, (refl, (refl, (refl, (refl, tt)))))))
      refl refl refl
