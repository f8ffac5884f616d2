-- ===== src/Gateway/Fallback.antt =====
-- The change of inverter_gateway.cpp from a scan of known addresses to a full one.
use dbus_fronius.Base.{
  ℕ, zero, suc, ◌≡◌, refl, Bool, true, false, not, ◌&&◌, List, [], ◌∷◌, arith, All, ltb, if_both,
  Option-cases, inl, inr, lookup, erase,
}
use dbus_fronius.Lan.Generator.{has_next}
use dbus_fronius.Gateway.{
  ScanType, not_scanning, priority, try_priority, is_scanning, is_full, is_try_priority, Gateway,
  emit, scan_progress_changed, set_auto_detect, scan_host, scan_next, fill, start_generator,
  continue_scan, scan,
}
use dbus_fronius.Gateway.Events.{
  start_detection, on_port_number_changed, on_ip_addresses_changed, on_timer, no_hosts,
  on_inverter_found, is_missing_one, complete_scan, on_detection_done, continue_host,
  on_device_found, Event, starts, asks_full_scan, port_changes, timer_fires, udp_times_out,
  addresses_change, udp_answers, detector_ends, device_found, on_host, handle, run,
}

-- The fallback has been used, and no full scan runs.
abbrev pub IsSpent : Gateway → Type 0
IsSpent g = (g.tried_full ≡ true) × (is_full g.scan_type ≡ false)

fill-IsSpent : (fuel : ℕ) (g : Gateway) → IsSpent g → IsSpent (fill fuel g)
unfolding fill scan_next scan_host
fill-IsSpent zero g v = v
fill-IsSpent (suc fuel) g v = if_both IsSpent _ (fill-IsSpent fuel (scan_next g) v) v

continue_scan-IsSpent : (g : Gateway) → IsSpent g → IsSpent (continue_scan g)
unfolding continue_scan start_generator
continue_scan-IsSpent g v = if_both IsSpent _ v (fill-IsSpent 64 (start_generator g) v)

set_auto_detect-IsSpent : (b : Bool) (g : Gateway) → IsSpent g → IsSpent (set_auto_detect b g)
unfolding set_auto_detect
set_auto_detect-IsSpent b g v = if_both IsSpent _ v v

scan-IsSpent :
    (type : ScanType) (g : Gateway) → is_full type ≡ false → IsSpent g → IsSpent (scan type g)
unfolding scan
scan-IsSpent type g e v =
    let w =
      set_auto_detect-IsSpent (is_full type) (record g { scan_type = type; devices_found = [] })
        (v.0, e) in
    if_both IsSpent _ w (continue_scan-IsSpent _ w)

complete_scan-IsSpent : (g : Gateway) → IsSpent g → IsSpent (complete_scan g)
unfolding complete_scan
complete_scan-IsSpent g v =
    let ended = set_auto_detect-IsSpent false (record g { scan_type = not_scanning }) (v.0, refl) in
    let spent : (is_try_priority g.scan_type
          && (g.settings.auto_scan
              && (is_missing_one g.settings.known_ip_addresses g.devices_found
                  && not g.tried_full)))
        ≡ false =
      ground (arith, v.0) in
    rw (spent) ended

on_detection_done-IsSpent :
    (number : ℕ) (g : Gateway) → IsSpent g → IsSpent (on_detection_done number g)
unfolding on_detection_done scan_next scan_host
on_detection_done-IsSpent number g v =
    let g' = emit scan_progress_changed (record g { active_hosts = erase number g.active_hosts }) in
    let next : IsSpent (scan_next g') = v in
    let now : IsSpent g' = v in
    if_both IsSpent (is_scanning g.scan_type && has_next g.address_generator) next
      (if_both IsSpent (no_hosts g'.active_hosts) (complete_scan-IsSpent g' now) now)

-- The user asks for no full scan.
abbrev pub is_asked : Event → Bool
is_asked asks_full_scan = true
is_asked _ = false

handle-IsSpent : (e : Event) (g : Gateway) → is_asked e ≡ false → IsSpent g → IsSpent (handle e g)
unfolding handle start_detection on_port_number_changed on_ip_addresses_changed on_timer on_host
    continue_host on_device_found on_inverter_found
handle-IsSpent starts g q v = scan-IsSpent try_priority g refl v
handle-IsSpent asks_full_scan g q v = cc
handle-IsSpent port_changes g q v = scan-IsSpent try_priority g refl v
handle-IsSpent timer_fires g q v = if_both IsSpent _ v (scan-IsSpent try_priority g refl v)
handle-IsSpent udp_times_out g q v =
    if_both IsSpent g.udp_running (continue_scan-IsSpent (record g { udp_running = false }) v) v
handle-IsSpent (addresses_change l) g q v = scan-IsSpent priority _ refl v
handle-IsSpent (udp_answers a) g q v = v
handle-IsSpent (detector_ends number) g q v = elim (Option-cases (lookup number g.active_hosts)) [
  | inl e ↦ rw (e, on_host) v
  | inr (h, e) ↦
      rw (e, on_host) (if_both IsSpent (ltb 0 h.detectors) v (on_detection_done-IsSpent number g v))
]
handle-IsSpent (device_found number) g q v = elim (Option-cases (lookup number g.active_hosts)) [
  | inl e ↦ rw (e, on_host) v
  | inr (h, e) ↦ rw (e, on_host) v
]

-- Once the fallback to a full scan has been tried and no full scan runs, none is started again by
-- any history in which it is not asked for, whatever known addresses are missed by later scans.
pub run-IsSpent :
    (es : List Event) (g : Gateway)
    → All (λ e. is_asked e ≡ false) es
    → IsSpent g
    → IsSpent (run es g)
unfolding run
run-IsSpent [] g q v = v
run-IsSpent (e ∷ es) g q v = run-IsSpent es (handle e g) q.1 (handle-IsSpent e g q.0 v)
