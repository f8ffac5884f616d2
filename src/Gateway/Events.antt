-- ===== src/Gateway/Events.antt =====
-- software/src/inverter_gateway.cpp: the slots of InverterGateway and HostScan, and histories of
-- their calls.
use dbus_fronius.Base.{
  ℕ, ◌-◌, Bool, true, false, not, ◌&&◌, ◌||◌, none, some, List, [], ◌∷◌, ◌++◌, ltb, ◌==◌,
  if◌then◌else◌, lookup, erase,
}
use dbus_fronius.Lan.{contains}
use dbus_fronius.Lan.Generator.{has_next}
use dbus_fronius.Gateway.{
  not_scanning, full, priority, try_priority, is_scanning, is_try_priority, HostScan,
  inverter_found, scan_progress_changed, Gateway, emit, set_auto_detect, scan_next, continue_scan,
  scan,
}

unfoldable pub start_detection : Gateway → Gateway
start_detection = scan try_priority

unfoldable pub full_scan : Gateway → Gateway
full_scan = scan full

unfoldable pub on_port_number_changed : Gateway → Gateway
on_port_number_changed = scan try_priority

unfoldable pub on_ip_addresses_changed : Gateway → Gateway
on_ip_addresses_changed = scan priority

unfoldable pub on_timer : Gateway → Gateway
on_timer g = if is_scanning g.scan_type then g else scan try_priority g

abbrev pub insert_new : ℕ → List ℕ → List ℕ
insert_new a l = if contains l a then l else l ++ a ∷ []

unfoldable pub on_inverter_found : ℕ → Gateway → Gateway
on_inverter_found addr g = emit (inverter_found addr) (record g {
  devices_found = insert_new addr g.devices_found;
  settings =
      if contains g.settings.ip_addresses addr
      then g.settings
      else record g.settings { known_ip_addresses = insert_new addr g.settings.known_ip_addresses };
})

-- Some known address is not among the devices found.
abbrev pub is_missing_one : List ℕ → List ℕ → Bool
is_missing_one [] found = false
is_missing_one (a ∷ known) found = not (contains found a) || is_missing_one known found

-- The end of onDetectionDone, when no host is active.
unfoldable pub complete_scan : Gateway → Gateway
complete_scan g =
    if is_try_priority g.scan_type
      && (g.settings.auto_scan
          && (is_missing_one g.settings.known_ip_addresses g.devices_found && not g.tried_full))
    then continue_scan (set_auto_detect true (record g { scan_type = full; tried_full = true }))
    else set_auto_detect false (record g { scan_type = not_scanning })

abbrev pub no_hosts : List (ℕ × HostScan) → Bool
no_hosts [] = true
no_hosts (h ∷ hs) = false

-- onDetectionDone for the host with the given number.
unfoldable pub on_detection_done : ℕ → Gateway → Gateway
on_detection_done number g =
    let g' = emit scan_progress_changed (record g { active_hosts = erase number g.active_hosts }) in
    if is_scanning g'.scan_type && has_next g'.address_generator
    then scan_next g'
    else if no_hosts g'.active_hosts
    then complete_scan g'
    else g'

abbrev pub set_detectors : ℕ → ℕ → List (ℕ × HostScan) → List (ℕ × HostScan)
set_detectors number n [] = []
set_detectors number n ((k, h) ∷ hs) =
    (k, if k == number then record h { detectors = n } else h) ∷ set_detectors number n hs

-- HostScan::continueScan: the next detector, or the end.
unfoldable pub continue_host : ℕ → HostScan → Gateway → Gateway
continue_host number h g =
    if ltb 0 h.detectors
    then record g { active_hosts = set_detectors number (h.detectors - 1) g.active_hosts }
    else on_detection_done number g

-- HostScan::onDeviceFound: no further detector is tried.
unfoldable pub on_device_found : ℕ → HostScan → Gateway → Gateway
on_device_found number h g =
    on_inverter_found h.host_name
      (record g { active_hosts = set_detectors number 0 g.active_hosts })

-- What happens to a gateway. The events of a detector concern an active host, by its number.
pub data Event : Type 0 where
  starts asks_full_scan port_changes timer_fires udp_times_out : Event
  addresses_change : List ℕ → Event
  udp_answers detector_ends device_found : ℕ → Event

unfoldable pub on_host : (ℕ → HostScan → Gateway → Gateway) → ℕ → Gateway → Gateway
on_host f number g = elim (lookup number g.active_hosts) [ none ↦ g | some h ↦ f number h g ]

unfoldable pub handle : Event → Gateway → Gateway
handle starts g = start_detection g
handle asks_full_scan g = full_scan g
handle port_changes g = on_port_number_changed g
handle timer_fires g = on_timer g
handle udp_times_out g =
    if g.udp_running then continue_scan (record g { udp_running = false }) else g
handle (addresses_change l) g =
    on_ip_addresses_changed (record g { settings = record g.settings { ip_addresses = l } })
handle (udp_answers a) g = record g { udp_found = insert_new a g.udp_found }
handle (detector_ends number) g = on_host continue_host number g
handle (device_found number) g = on_host on_device_found number g

unfoldable pub run : List Event → Gateway → Gateway
run [] g = g
run (e ∷ es) g = run es (handle e g)
