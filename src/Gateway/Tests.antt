-- ===== src/Gateway/Tests.antt =====
-- The gateway in a small network.
use dbus_fronius.Base.{
  ℕ, ◌∷◌, ◌++◌, ◌≤◌, ◌≡◌, refl, ◌⊎◌, true, false, List, [], arith, length, replicate,
}
use dbus_fronius.Lan.Generator.{Interface, first_of, last_of}
use dbus_fronius.Gateway.{ScanType, not_scanning, full, try_priority, Gateway, continue_scan}
use dbus_fronius.Gateway.Events.{
  no_hosts, starts, timer_fires, udp_times_out, udp_answers, detector_ends, device_found, run,
}
use dbus_fronius.Gateway.Limit.{run-IsLimited}
use dbus_fronius.Gateway.Fallback.{IsSpent, run-IsSpent}
use dbus_fronius.Gateway.Loop.{IsBusy, continue_scan-IsBusy}
use dbus_fronius.Gateway.Rescan.{udp_times_out-stalls}
use dbus_fronius.Gateway.FullScan.{full_scan_addresses, run-full_scan_addresses}

-- 192.168.1.2 with the mask 255.255.255.248.
abbrev lan : List Interface
lan =
    record {
      is_up = true;
      is_running = true;
      is_loop_back = false;
      address_entries = record { is_ipv4 = true; ip = 0xc0a80102; netmask = 0xfffffff8 } ∷ [];
    }
    ∷ []

-- A gateway with the given known addresses and type of scan, whose UDP detector waits for answers.
abbrev gateway_with : List ℕ → ScanType → Gateway
gateway_with known type = record {
  settings = record { ip_addresses = []; known_ip_addresses = known; auto_scan = true };
  interfaces = lan;
  detectors = 2;
  udp_found = [];
  udp_running = true;
  devices_found = [];
  active_hosts = [];
  created = 0;
  started = [];
  address_generator = record {
    priority_only = false;
    subnets = [];
    priority_addresses = [];
    net_mask_limit = 0xfffff000;
    priority_index = 0;
    subnet_index = 0;
  };
  auto_detect = false;
  tried_full = false;
  scan_type = type;
  signals = [];
}

run-IsLimited_example :
    length
      (run
        (starts
          ∷ udp_answers 0xc0a80105
          ∷ udp_times_out
          ∷ detector_ends 0
          ∷ device_found 1
          ∷ detector_ends 1
          ∷ [])
        (gateway_with (0xc0a80104 ∷ []) not_scanning)).active_hosts
    ≤ 64
run-IsLimited_example =
    run-IsLimited
      (starts
        ∷ udp_answers 0xc0a80105
        ∷ udp_times_out
        ∷ detector_ends 0
        ∷ device_found 1
        ∷ detector_ends 1
        ∷ [])
      (gateway_with (0xc0a80104 ∷ []) not_scanning) (omega arith)

-- The known address is not found, but the fallback has been used.
run-IsSpent_example : IsSpent (
    run
      (udp_times_out ∷ detector_ends 0 ∷ detector_ends 0 ∷ [])
      (record (gateway_with (0xc0a80104 ∷ []) try_priority) { tried_full = true }))
run-IsSpent_example =
    run-IsSpent (udp_times_out ∷ detector_ends 0 ∷ detector_ends 0 ∷ [])
      (record (gateway_with (0xc0a80104 ∷ []) try_priority) { tried_full = true })
      (refl, (refl, (refl, tt))) (refl, refl)

udp_times_out-stalls_example :
    let d = run (udp_times_out ∷ replicate 60 timer_fires) (gateway_with [] try_priority) in
    (d.started ≡ [])
    × (d.active_hosts ≡ [])
    × (d.scan_type ≡ try_priority)
    × (d.udp_running ≡ false)
udp_times_out-stalls_example = udp_times_out-stalls 60 (gateway_with [] try_priority) refl refl refl

run-full_scan_addresses_example :
    let g = gateway_with (0xc0a80104 ∷ []) full in
    let d = run (detector_ends 0 ∷ device_found 1 ∷ []) (continue_scan g) in
    (rest : List ℕ) × (d.started ++ rest ≡ [] ++ full_scan_addresses g)
    × ((rest ≡ []) ⊎ (no_hosts d.active_hosts ≡ false))
unfolding first_of last_of
run-full_scan_addresses_example =
    run-full_scan_addresses (detector_ends 0 ∷ device_found 1 ∷ [])
      (gateway_with (0xc0a80104 ∷ []) full) (refl, (refl, tt))
      (((omega arith, omega arith), tt), tt) refl

continue_scan-IsBusy_example : IsBusy (continue_scan (gateway_with (0xc0a80104 ∷ []) full))
continue_scan-IsBusy_example = continue_scan-IsBusy (gateway_with (0xc0a80104 ∷ []) full) refl
