-- ===== src/Mediator/Tests.antt =====
-- inverter_mediator.cpp at concrete inputs: the theorems of the other files applied, and runs.
use dbus_fronius.Base.{ℕ, ◌≡◌, refl, true, some, List, [], ◌∷◌}
use dbus_fronius.Defines.{fronius_solar_api, sunspec_int_sf, DeviceInfo, new_device_info}
use dbus_fronius.Inverter.{validate_sunspec_monitor_frame, fronius_null_frame}
use dbus_fronius.Mediator.{
  Services, InverterSettings, class_of, create_inverter_id, replace_others, process_new_inverter,
  on_connection_lost, starts_detection,
}
use dbus_fronius.Mediator.Events.{
  Event, finds, settings_initialized, loses_connection, position_changes, inverter_is_named,
  new_mediator, run,
}
use dbus_fronius.Mediator.Kept.{IsKept}
use dbus_fronius.Mediator.Course.{run-IsKept}
use dbus_fronius.Mediator.Creation.{
  validate_sunspec_monitor_frame-class_of, IsFor, process_new_inverter-on_connection_lost,
}

abbrev services : Services
services = record { number = λ n. "7"; get_device_instance = λ s. some 20; sma_product = 41284 }

abbrev settings : InverterSettings
settings = record { phase = 1; position = 2; custom_name = "Roof"; is_active = true }

abbrev symo : DeviceInfo ℕ
symo = record (new_device_info 0) {
  host_name = "192.168.1.9";
  unique_id = "123_456-7";
  network_id = 1;
  port = 80;
  device_type = 123;
  retrieval_mode = sunspec_int_sf;
}

abbrev moved : DeviceInfo ℕ
moved = record symo { host_name = "192.168.1.10"; retrieval_mode = fronius_solar_api }

settings_id : create_inverter_id "123_456-7" ≡ "I123_456_7"
unfolding create_inverter_id replace_others
settings_id = refl

abbrev history : List (Event ℕ)
history =
    finds symo
    ∷ settings_initialized
    ∷ position_changes 1
    ∷ inverter_is_named "Barn"
    ∷ finds moved
    ∷ loses_connection
    ∷ finds symo
    ∷ []

run-IsKept_example : IsKept (run services history (new_mediator symo settings))
run-IsKept_example = run-IsKept services symo settings history

process_new_inverter-on_connection_lost_example :
    let lost = on_connection_lost (new_mediator symo settings) in
    (lost.log ≡ starts_detection ∷ [])
    × IsFor services moved 20 (process_new_inverter services moved lost).1.mediated
process_new_inverter-on_connection_lost_example =
    process_new_inverter-on_connection_lost services moved 20 (new_mediator symo settings) refl refl
      refl

validate_sunspec_monitor_frame-class_of_example :
    validate_sunspec_monitor_frame (class_of services symo) symo (1 ∷ 2 ∷ fronius_null_frame) ≡ true
validate_sunspec_monitor_frame-class_of_example =
    validate_sunspec_monitor_frame-class_of services symo (1 ∷ 2 ∷ fronius_null_frame)
