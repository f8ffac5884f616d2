-- ===== src/Gateway/Sweep.antt =====
-- What the hosts of a scan of inverter_gateway.cpp do to its way through the addresses.
use dbus_fronius.Base.{
  ℕ, ◌-◌, ◌≡◌, refl, sym, ap, ◌∙◌, inl, inr, Bool, true, false, not, ◌&&◌, List, [], ◌∷◌, arith,
  All, ltb, if_both, Bool-cases, Option-cases, lookup, erase,
}
use dbus_fronius.Lan.Generator.{has_next}
use dbus_fronius.Lan.Enumerate.{remaining, has_next-remaining}
use dbus_fronius.Gateway.{
  not_scanning, is_scanning, is_try_priority, HostScan, Gateway, emit, scan_progress_changed,
  auto_detect_changed, same, set_auto_detect, scan_next,
}
use dbus_fronius.Gateway.Events.{
  no_hosts, is_missing_one, complete_scan, on_detection_done, continue_host, on_device_found,
  on_inverter_found, set_detectors, Event, starts, asks_full_scan, port_changes, timer_fires,
  udp_times_out, addresses_change, udp_answers, detector_ends, device_found, on_host, handle, run,
}
use dbus_fronius.Gateway.Track.{
  IsOnTrack, scan_next-IsOnTrack, scan_next-active, both_tests, not_both,
}

-- Nothing is left when no host is active or the scan is over.
pub record IsSweep (total : List ℕ) (g : Gateway) : Type 0 where
  pub on_track : IsOnTrack total g
  pub ended : no_hosts g.active_hosts ≡ true → remaining g.address_generator ≡ []
  pub over : is_scanning g.scan_type ≡ false → remaining g.address_generator ≡ []

set_auto_detect-IsOnTrack :
    (total : List ℕ) (b : Bool) (g : Gateway)
    → IsOnTrack total g
    → IsOnTrack total (set_auto_detect b g)
unfolding set_auto_detect
set_auto_detect-IsOnTrack total b g v =
    let changed : IsOnTrack total (emit auto_detect_changed (record g { auto_detect = b })) =
      record { settled = v.settled; visited = v.visited; no_fallback = v.no_fallback } in
    if_both (IsOnTrack total) (same g.auto_detect b) v changed

set_auto_detect-generator :
    (b : Bool) (g : Gateway) → (set_auto_detect b g).address_generator ≡ g.address_generator
unfolding set_auto_detect
set_auto_detect-generator b g =
    if_both {X = Gateway} (λ d. d.address_generator ≡ g.address_generator) _ refl refl

-- The end of a scan that leaves nothing.
complete_scan-IsSweep :
    (total : List ℕ) (g : Gateway)
    → IsOnTrack total g
    → remaining g.address_generator ≡ []
    → IsSweep total (complete_scan g)
unfolding complete_scan
complete_scan-IsSweep total g v e =
    let stopped = record g { scan_type = not_scanning } in
    let still : IsOnTrack total stopped = record {
      settled = v.settled;
      visited = v.visited;
      no_fallback = refl;
    } in
    let nothing = ap remaining (set_auto_detect-generator false stopped) ∙ e in
    let no_full : (is_try_priority g.scan_type
          && (g.settings.auto_scan
              && (is_missing_one g.settings.known_ip_addresses g.devices_found
                  && not g.tried_full)))
        ≡ false =
      ground (arith, v.no_fallback) in
    rw (no_full) (record {
      on_track = set_auto_detect-IsOnTrack total false stopped still;
      ended = λ h. nothing;
      over = λ h. nothing;
    })

nothing_left :
    (total : List ℕ) (g : Gateway)
    → IsSweep total g
    → (is_scanning g.scan_type && has_next g.address_generator) ≡ false
    → remaining g.address_generator ≡ []
nothing_left total g v e = elim (Bool-cases (is_scanning g.scan_type)) [
  | inl scanning ↦ has_next-remaining g.address_generator (ground (arith, e, scanning))
  | inr not_any ↦ v.over not_any
]

on_detection_done-IsSweep :
    (total : List ℕ) (number : ℕ) (g : Gateway)
    → IsSweep total g
    → IsSweep total (on_detection_done number g)
unfolding on_detection_done scan_next
on_detection_done-IsSweep total number g v =
    let g' = emit scan_progress_changed (record g { active_hosts = erase number g.active_hosts }) in
    let t = v.on_track in
    let track : IsOnTrack total g' = record {
      settled = t.settled;
      visited = t.visited;
      no_fallback = t.no_fallback;
    } in
    elim (Bool-cases (is_scanning g.scan_type && has_next g.address_generator)) [
      | inl e ↦
          let scanning : is_scanning g.scan_type ≡ true = ground (arith, e) in
          rw (e) (record {
            on_track =
                scan_next-IsOnTrack total g' (both_tests (is_scanning g.scan_type) _ e) track;
            ended = λ idle. absurd (not_both (sym idle ∙ scan_next-active g'));
            over = λ h. absurd (not_both (sym scanning ∙ h));
          })
      | inr e ↦
          let nothing = nothing_left total g v e in
          rw (e) (
            if_both (IsSweep total) (no_hosts (erase number g.active_hosts))
              (complete_scan-IsSweep total g' track nothing)
              (record { on_track = track; ended = λ h. nothing; over = λ h. nothing }))
    ]

no_hosts-set_detectors :
    (number n : ℕ) (hs : List (ℕ × HostScan)) → no_hosts (set_detectors number n hs) ≡ no_hosts hs
no_hosts-set_detectors number n [] = refl
no_hosts-set_detectors number n (h ∷ hs) = refl

set_detectors-IsSweep :
    (total : List ℕ) (number n : ℕ) (g : Gateway)
    → IsSweep total g
    → IsSweep total (record g { active_hosts = set_detectors number n g.active_hosts })
set_detectors-IsSweep total number n g v =
    let t = v.on_track in
    record {
      on_track = record { settled = t.settled; visited = t.visited; no_fallback = t.no_fallback };
      ended = λ h. v.ended (sym (no_hosts-set_detectors number n g.active_hosts) ∙ h);
      over = v.over;
    }

on_inverter_found-IsSweep :
    (total : List ℕ) (a : ℕ) (g : Gateway) → IsSweep total g → IsSweep total (on_inverter_found a g)
unfolding on_inverter_found
on_inverter_found-IsSweep total a g v =
    let t = v.on_track in
    record {
      on_track = record { settled = t.settled; visited = t.visited; no_fallback = t.no_fallback };
      ended = v.ended;
      over = v.over;
    }

-- The events of the hosts that are scanned.
abbrev pub is_host_event : Event → Bool
is_host_event (detector_ends number) = true
is_host_event (device_found number) = true
is_host_event _ = false

handle-IsSweep :
    (total : List ℕ) (e : Event) (g : Gateway)
    → is_host_event e ≡ true
    → IsSweep total g
    → IsSweep total (handle e g)
unfolding handle on_host continue_host on_device_found
handle-IsSweep total (detector_ends number) g q v =
    elim (Option-cases (lookup number g.active_hosts)) [
      | inl e ↦ rw (e, on_host) v
      | inr (h, e) ↦
          rw (e, on_host)
            (if_both (IsSweep total) (ltb 0 h.detectors)
              (set_detectors-IsSweep total number (h.detectors - 1) g v)
              (on_detection_done-IsSweep total number g v))
    ]
handle-IsSweep total (device_found number) g q v =
    elim (Option-cases (lookup number g.active_hosts)) [
      | inl e ↦ rw (e, on_host) v
      | inr (h, e) ↦
          rw (e, on_host)
            (on_inverter_found-IsSweep total h.host_name _
              (set_detectors-IsSweep total number 0 g v))
    ]
handle-IsSweep total starts g q v = cc
handle-IsSweep total asks_full_scan g q v = cc
handle-IsSweep total port_changes g q v = cc
handle-IsSweep total timer_fires g q v = cc
handle-IsSweep total udp_times_out g q v = cc
handle-IsSweep total (addresses_change l) g q v = cc
handle-IsSweep total (udp_answers a) g q v = cc

pub run-IsSweep :
    (total : List ℕ) (es : List Event) (g : Gateway)
    → All (λ e. is_host_event e ≡ true) es
    → IsSweep total g
    → IsSweep total (run es g)
unfolding run
run-IsSweep total [] g q v = v
run-IsSweep total (e ∷ es) g q v =
    run-IsSweep total es (handle e g) q.1 (handle-IsSweep total e g q.0 v)
