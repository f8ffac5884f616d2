-- ===== src/Gateway/FullScan.antt =====
-- A full scan of inverter_gateway.cpp visits every address.
use dbus_fronius.Base.{
  ℕ, ◌≡◌, refl, sym, ap, subst, ◌∙◌, ◌⊎◌, inl, inr, Bool, true, false, not, ◌&&◌, List, [], ◌∷◌,
  ◌++◌, All,
}
use dbus_fronius.Lan.Generator.{reset, set_priority_only, set_priority_addresses}
use dbus_fronius.Lan.Enumerate.{remaining, AreSettled}
use dbus_fronius.Lan.Scan.{IsBounded, interface_hosts, reset-Holds}
use dbus_fronius.Gateway.{
  full, is_scanning, is_full, is_priority, is_try_priority, is_empty, first_addresses, HostScan,
  Gateway, start_generator, continue_scan,
}
use dbus_fronius.Gateway.Events.{no_hosts, Event, run}
use dbus_fronius.Gateway.Track.{IsOnTrack, fill-type, fill-IsOnTrack, fill-ended, not_both}
use dbus_fronius.Gateway.Sweep.{IsSweep, run-IsSweep, is_host_event}

-- The addresses of a full scan: those that are tried first, and those of the local networks.
abbrev pub full_scan_addresses : Gateway → List ℕ
full_scan_addresses g =
    first_addresses g
    ++ interface_hosts (first_addresses g) g.address_generator.net_mask_limit g.interfaces

abbrev pub AreBounded : Gateway → Type 0
AreBounded g =
    All (λ i. All (IsBounded g.address_generator.net_mask_limit) i.address_entries) g.interfaces

-- What the generator has left after it is reset for a full scan or another one.
abbrev Prepared : Gateway → Bool → Type 0
Prepared g only =
    let a = reset g.interfaces (
      set_priority_only only g.interfaces
        (set_priority_addresses (first_addresses g) g.address_generator)) in
    AreSettled a × (remaining a ≡ full_scan_addresses g)

full-Prepared : (g : Gateway) → AreBounded g → Prepared g false
unfolding reset set_priority_only set_priority_addresses
full-Prepared g b =
    let a =
      set_priority_only false g.interfaces
        (set_priority_addresses (first_addresses g) g.address_generator) in
    let r = reset-Holds g.interfaces a b in (r.1, ap (λ l. first_addresses g ++ l) r.0)

start_generator-IsOnTrack :
    (g : Gateway)
    → AreBounded g
    → g.scan_type ≡ full
    → IsOnTrack (g.started ++ full_scan_addresses g) (start_generator g)
unfolding start_generator
start_generator-IsOnTrack g b f =
    let r = subst (Prepared g) (sym (ap (λ t. not (is_full t)) f)) (full-Prepared g b) in
    record {
      settled = r.0;
      visited = ap (λ l. g.started ++ l) r.1;
      no_fallback = ap is_try_priority f;
    }

continue_scan-IsSweep :
    (g : Gateway)
    → AreBounded g
    → g.scan_type ≡ full
    → IsSweep (g.started ++ full_scan_addresses g) (continue_scan g)
unfolding continue_scan start_generator
continue_scan-IsSweep g b f =
    let s = start_generator g in
    let addresses : (is_priority g.scan_type && is_empty (first_addresses g)) ≡ false =
      ap (λ t. is_priority t && is_empty (first_addresses g)) f in
    let scanning = ap is_scanning (fill-type 64 s ∙ f) in
    rw (addresses) (record {
      on_track = fill-IsOnTrack _ 64 s (start_generator-IsOnTrack g b f);
      ended = fill-ended 63 s;
      over = λ h. absurd (not_both (sym scanning ∙ h));
    })

all_or_active :
    (hs : List (ℕ × HostScan)) (rest : List ℕ)
    → (no_hosts hs ≡ true → rest ≡ [])
    → (rest ≡ []) ⊎ (no_hosts hs ≡ false)
all_or_active [] rest h = inl (h refl)
all_or_active (i ∷ hs) rest h = inr refl

-- A full scan that begins with the addresses of the UDP detector and the settings goes through
-- these and then the addresses of the local networks: after every history of its hosts' detectors,
-- the hosts scanned since are a beginning of that list, in its order, and either they are the whole
-- list or a host is still active. No bound of a subnet may be 255.255.255.255.
pub run-full_scan_addresses :
    (es : List Event) (g : Gateway)
    → All (λ e. is_host_event e ≡ true) es
    → AreBounded g
    → g.scan_type ≡ full
    → let d = run es (continue_scan g) in
      (rest : List ℕ) × (d.started ++ rest ≡ g.started ++ full_scan_addresses g)
      × ((rest ≡ []) ⊎ (no_hosts d.active_hosts ≡ false))
run-full_scan_addresses es g q b f =
    let v = run-IsSweep _ es (continue_scan g) q (continue_scan-IsSweep g b f) in
    (
      remaining (run es (continue_scan g)).address_generator,
      v.on_track.visited,
      all_or_active (run es (continue_scan g)).active_hosts _ v.ended,
    )
