-- ===== src/Gateway/Limit.antt =====
-- The number of hosts that inverter_gateway.cpp scans at the same time.
use dbus_fronius.Base.{
  ℕ, zero, suc, ◌+◌, ◌-◌, ◌≤◌, ◌<◌, ◌≡◌, refl, Bool, true, false, ◌&&◌, some, List, [], ◌∷◌, arith,
  length, length-append, ltb, ◌==◌, if_both, Bool-cases, Option-cases, inl, inr, lookup, erase,
}
use dbus_fronius.Lan.Generator.{has_next}
use dbus_fronius.Gateway.{
  ScanType, full, priority, try_priority, is_scanning, is_full, is_priority, is_empty,
  first_addresses, HostScan, Gateway, emit, scan_progress_changed, set_auto_detect, scan_host,
  scan_next, fill, start_generator, continue_scan, scan, max_simultaneous_requests,
}
use dbus_fronius.Gateway.Events.{
  start_detection, full_scan, on_port_number_changed, on_ip_addresses_changed, on_timer, no_hosts,
  on_inverter_found, complete_scan, on_detection_done, set_detectors, continue_host,
  on_device_found, Event, starts, asks_full_scan, port_changes, timer_fires, udp_times_out,
  addresses_change, udp_answers, detector_ends, device_found, on_host, handle, run,
}

abbrev pub IsLimited : Gateway → Type 0
IsLimited g = length g.active_hosts ≤ 64

pub scan_next-length : (g : Gateway) → length (scan_next g).active_hosts ≡ length g.active_hosts + 1
unfolding scan_next scan_host
scan_next-length g = length-append g.active_hosts _

fill-IsLimited : (fuel : ℕ) (g : Gateway) → IsLimited g → IsLimited (fill fuel g)
unfolding fill
fill-IsLimited zero g v = v
fill-IsLimited (suc fuel) g v =
    elim (Bool-cases
      (ltb (length g.active_hosts) max_simultaneous_requests && has_next g.address_generator)) [
        | inl e ↦ rw (e) (fill-IsLimited fuel (scan_next g) (ground (arith, e, scan_next-length g)))
        | inr e ↦ rw (e) v
      ]

continue_scan-IsLimited : (g : Gateway) → IsLimited g → IsLimited (continue_scan g)
unfolding continue_scan start_generator
continue_scan-IsLimited g v =
    if_both IsLimited (is_priority g.scan_type && is_empty (first_addresses g)) v
      (fill-IsLimited 64 (start_generator g) v)

set_auto_detect-IsLimited : (b : Bool) (g : Gateway) → IsLimited g → IsLimited (set_auto_detect b g)
unfolding set_auto_detect
set_auto_detect-IsLimited b g v = if_both IsLimited _ v v

scan-IsLimited : (type : ScanType) (g : Gateway) → IsLimited g → IsLimited (scan type g)
unfolding scan
scan-IsLimited type g v =
    let w =
      set_auto_detect-IsLimited (is_full type) (record g { scan_type = type; devices_found = [] })
        v in
    if_both IsLimited _ w (continue_scan-IsLimited _ w)

complete_scan-IsLimited : (g : Gateway) → IsLimited g → IsLimited (complete_scan g)
unfolding complete_scan
complete_scan-IsLimited g v =
    if_both IsLimited _ (continue_scan-IsLimited _ (set_auto_detect-IsLimited true _ v))
      (set_auto_detect-IsLimited false _ v)

length-erase : (k : ℕ) (hs : List (ℕ × HostScan)) → length (erase k hs) ≤ length hs
unfolding erase
length-erase k [] = omega arith
length-erase k ((j, h) ∷ hs) = ground (arith, length-erase k hs)

-- An active host that is removed makes room for another.
length-erase_active :
    (k : ℕ) (h : HostScan) (hs : List (ℕ × HostScan))
    → lookup k hs ≡ some h
    → length (erase k hs) < length hs
unfolding erase lookup
length-erase_active k h [] e = cc
length-erase_active k h ((j, i) ∷ hs) e = elim (Bool-cases (j == k)) [
  | inl same ↦ rw (same) (omega (arith, length-erase k hs))
  | inr other ↦ rw (other) (omega (arith, length-erase_active k h hs (ground (arith, e, other))))
]

length-set_detectors :
    (k n : ℕ) (hs : List (ℕ × HostScan)) → length (set_detectors k n hs) ≡ length hs
length-set_detectors k n [] = refl
length-set_detectors k n ((j, h) ∷ hs) = omega (arith, length-set_detectors k n hs)

on_detection_done-IsLimited :
    (number : ℕ) (h : HostScan) (g : Gateway)
    → lookup number g.active_hosts ≡ some h
    → IsLimited g
    → IsLimited (on_detection_done number g)
unfolding on_detection_done
on_detection_done-IsLimited number h g e v =
    let less = length-erase_active number h g.active_hosts e in
    let g' = emit scan_progress_changed (record g { active_hosts = erase number g.active_hosts }) in
    let room : IsLimited (scan_next g') = omega (arith, less, v, scan_next-length g') in
    let now : IsLimited g' = omega (arith, less, v) in
    if_both IsLimited (is_scanning g.scan_type && has_next g.address_generator) room
      (if_both IsLimited (no_hosts g'.active_hosts) (complete_scan-IsLimited g' now) now)

handle-IsLimited : (e : Event) (g : Gateway) → IsLimited g → IsLimited (handle e g)
unfolding handle start_detection full_scan on_port_number_changed on_ip_addresses_changed on_timer
    on_host continue_host on_device_found on_inverter_found
handle-IsLimited starts g v = scan-IsLimited try_priority g v
handle-IsLimited asks_full_scan g v = scan-IsLimited full g v
handle-IsLimited port_changes g v = scan-IsLimited try_priority g v
handle-IsLimited timer_fires g v = if_both IsLimited _ v (scan-IsLimited try_priority g v)
handle-IsLimited udp_times_out g v =
    if_both IsLimited g.udp_running (continue_scan-IsLimited (record g { udp_running = false }) v) v
handle-IsLimited (addresses_change l) g v = scan-IsLimited priority _ v
handle-IsLimited (udp_answers a) g v = v
handle-IsLimited (detector_ends number) g v = elim (Option-cases (lookup number g.active_hosts)) [
  | inl e ↦ rw (e, on_host) v
  | inr (h, e) ↦
      rw (e, on_host)
        (if_both IsLimited (ltb 0 h.detectors)
          (omega (arith, v, length-set_detectors number (h.detectors - 1) g.active_hosts))
          (on_detection_done-IsLimited number h g e v))
]
handle-IsLimited (device_found number) g v = elim (Option-cases (lookup number g.active_hosts)) [
  | inl e ↦ rw (e, on_host) v
  | inr (h, e) ↦ rw (e, on_host) (omega (arith, v, length-set_detectors number 0 g.active_hosts))
]

-- A gateway with at most 64 active hosts has at most 64 after every history: of scans started for
-- whatever reason, UDP answers, and detectors that end or find an inverter.
pub run-IsLimited : (es : List Event) (g : Gateway) → IsLimited g → IsLimited (run es g)
unfolding run
run-IsLimited [] g v = v
run-IsLimited (e ∷ es) g v = run-IsLimited es (handle e g) (handle-IsLimited e g v)
