-- ===== src/DbusFronius/Tests.antt =====
-- dbus_fronius.cpp at concrete inputs: the theorems of the other files applied.
use Prim.Native.String.{String}
use dbus_fronius.Base.{ℕ, ◌≡◌, refl, true, false, some, List, [], ◌∷◌, ◌++◌, map, ltb}
use dbus_fronius.Defines.{DeviceInfo, new_device_info}
use dbus_fronius.Inverter.{solar_api_updater, fronius_inverter}
use dbus_fronius.Gateway.{not_scanning}
use dbus_fronius.Mediator.{Services, InverterSettings, InverterMediator, process_new_inverter}
use dbus_fronius.Mediator.Events.{loses_connection, new_mediator}
use dbus_fronius.DbusFronius.{Doubles, DbusFronius, offer}
use dbus_fronius.DbusFronius.Found.{closed, offer-append}
use dbus_fronius.DbusFronius.Distinct.{
  ids, AreDistinct, ServiceEvent, device_is_found, at_mediator, run_service,
  run_service-AreDistinct,
}

abbrev services : Services
services = record { number = λ n. "7"; get_device_instance = λ s. some 20; sma_product = 41284 }

abbrev doubles : Doubles ℕ
doubles = record { is_finite = λ d. true; is_positive = λ d. ltb 0 d }

abbrev settings : InverterSettings
settings = record { phase = 1; position = 2; custom_name = "Roof"; is_active = true }

abbrev device : String → String → DeviceInfo ℕ
device id host = record (new_device_info 0) {
  host_name = host;
  unique_id = id;
  network_id = 1;
  port = 80;
  device_type = 123;
}

-- A mediator with an inverter at its host.
abbrev running : String → String → InverterMediator ℕ
running id host = record (new_mediator (device id host) settings) {
  mediated = some (record {
    device_info = device id host;
    inverter_class = fronius_inverter;
    device_instance = 20;
    position = some 2;
    custom_name = some "Roof";
    connection = "";
    host_changes = 0;
    port_changes = 0;
    updater = some solar_api_updater;
  });
  connected = true;
}

-- The inverter b is found at the address of a and of c: a gives up its inverter, c does not.
offer-append_example :
    offer services settings
      (device "b" "h1")
      ((running "a" "h1" ∷ []) ++ (running "b" "h2" ∷ (running "c" "h1" ∷ [])))
    ≡ map (closed (device "b" "h1")) (running "a" "h1" ∷ [])
      ++ (process_new_inverter services (device "b" "h1") (running "b" "h2")).1
        ∷ (running "c" "h1" ∷ [])
offer-append_example =
    offer-append services settings (device "b" "h1") (running "a" "h1" ∷ []) (running "b" "h2")
      (running "c" "h1" ∷ []) (refl, tt) refl

abbrev found_twice : List (ServiceEvent ℕ)
found_twice =
    device_is_found settings (device "b" "h1")
    ∷ device_is_found settings (device "d" "h4")
    ∷ at_mediator 1 loses_connection
    ∷ device_is_found settings (device "b" "h3")
    ∷ []

abbrev service : DbusFronius ℕ
service = record {
  gateway = record {
    settings = record { ip_addresses = []; known_ip_addresses = []; auto_scan = true };
    interfaces = [];
    detectors = 3;
    udp_found = [];
    udp_running = false;
    devices_found = [];
    active_hosts = [];
    created = 0;
    started = [];
    address_generator = record {
      priority_only = false;
      subnets = [];
      priority_addresses = [];
      net_mask_limit = 0xfffff000;
      priority_index = 0;
      subnet_index = 0;
    };
    auto_detect = false;
    tried_full = false;
    scan_type = not_scanning;
    signals = [];
  };
  mediators = running "a" "h1" ∷ running "c" "h1" ∷ [];
  auto_detect = 0;
  scan_progress_item = 100;
}

run_service-AreDistinct_example :
    AreDistinct (ids (run_service doubles services found_twice service).mediators)
run_service-AreDistinct_example =
    run_service-AreDistinct doubles services found_twice service ((refl, tt), (tt, tt))
