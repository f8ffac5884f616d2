-- ===== src/SolarDetector/Events.antt =====
-- solar_api_detector.cpp: what happens to the detector. The SunSpec detector says that it has found a
-- device, if it has, directly before it is done.
use Prim.Native.String.{String}
use dbus_fronius.Base.{ℕ, Bool, Option, none, some, List, [], ◌∷◌, lookup, insert, if◌then◌else◌}
use dbus_fronius.SolarApi.{Json}
use dbus_fronius.SolarApi.Client.{
  FroniusSolarApi, Signal, converter_info_found, common_data_found, three_phases_data_found,
  device_info_found, on_done, abort,
}
use dbus_fronius.Defines.{DeviceInfo}
use dbus_fronius.SolarDetector.{
  Environment, Reply, SolarApiDetector, start, on_device_info_found, on_converter_info_found,
  on_sunspec_device_found, on_sunspec_done,
}

module _ {V D : Type 0} (q : Json V D) (v : Environment D) where
  -- The slots that `start` connects to the signals of the reply's api.
  abbrev pub on_signal : ℕ → String → Option (Signal D) → SolarApiDetector D → SolarApiDetector D
  on_signal r host none d = d
  on_signal r host (some (device_info_found info)) d = on_device_info_found r info.serial_info d
  on_signal r host (some (converter_info_found info)) d =
      on_converter_info_found r host info.inverters d
  on_signal r host (some (common_data_found info)) d = d
  on_signal r host (some (three_phases_data_found info)) d = d

  -- The state of a reply's api after a call, and the signal that it has emitted.
  abbrev pub with_api :
      ℕ → Reply → FroniusSolarApi × Option (Signal D) → SolarApiDetector D → SolarApiDetector D
  with_api r reply (a, s) d =
      on_signal r a.host_name s
        (record d { replies = insert r (record reply { api = a }) d.replies })

  pub data Event : Type 0 where
    starts : String → Event
    done : ℕ → Bool → String → String → Event
    timeout : ℕ → String → Event
    sunspec : ℕ → Option (DeviceInfo D) → Event

  abbrev pub done_for :
      ℕ → Bool → String → String → Option Reply → SolarApiDetector D → SolarApiDetector D
  done_for r e text result none d = d
  done_for r e text result (some reply) d = with_api r reply (on_done q e text result reply.api) d

  abbrev pub timeout_for : ℕ → String → Option Reply → SolarApiDetector D → SolarApiDetector D
  timeout_for r text none d = d
  timeout_for r text (some reply) d =
      if reply.api.timer_running then with_api r reply (abort q text reply.api) d else d

  unfoldable pub handle : Event → SolarApiDetector D → SolarApiDetector D
  unfolding start on_device_info_found on_converter_info_found on_sunspec_device_found
      on_sunspec_done on_done abort lookup insert
  handle (starts host) d = start host d
  handle (done r e text result) d = done_for r e text result (lookup r d.replies) d
  handle (timeout r text) d = timeout_for r text (lookup r d.replies) d
  handle (sunspec k none) d = on_sunspec_done v k d
  handle (sunspec k (some info)) d = on_sunspec_done v k (on_sunspec_device_found v k info d)

  unfoldable pub run : List Event → SolarApiDetector D → SolarApiDetector D
  unfolding handle
  run [] d = d
  run (e ∷ events) d = run events (handle e d)

-- The constructor.
abbrev pub new_detector : {D : Type 0} → ℕ → SolarApiDetector D
new_detector port = record {
  port_number = port;
  invalid_devices = [];
  replies = [];
  created = 0;
  detector_reply_to_inverter = [];
  sunspec_created = 0;
  sunspec_starts = [];
  signals = [];
}
