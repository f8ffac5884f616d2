-- ===== src/Gateway/Rescan.antt =====
-- The periodic scan of inverter_gateway.cpp when no address is known.
use dbus_fronius.Base.{
  ℕ, zero, suc, ◌≡◌, refl, sym, ap, subst, ◌∙◌, if_both, Bool, true, false, not, ◌&&◌, List, [],
  ◌∷◌, arith, length, replicate, ltb, if◌then◌else◌,
}
use dbus_fronius.Lan.{Subnet}
use dbus_fronius.Lan.Generator.{
  interface_subnets, exceptions, Interface, Generator, has_next, has_next_from, reset,
  set_priority_only, set_priority_addresses,
}
use dbus_fronius.Gateway.{
  try_priority, is_scanning, is_priority, is_full, is_empty, first_addresses, Gateway, fill,
  start_generator, continue_scan, max_simultaneous_requests,
}
use dbus_fronius.Gateway.Events.{on_timer, timer_fires, udp_times_out, handle, run}

no_address :
    (addresses : List ℕ) (only : Bool) (subnets : List Subnet)
    → addresses ≡ []
    → only ≡ true
    → (if ltb 0 (length addresses) then true else has_next_from 0 (if only then [] else subnets))
      ≡ false
unfolding has_next_from
no_address addresses only subnets p q = rw (p, q) refl

reset-exhausted :
    (interfaces : List Interface) (a : Generator)
    → a.priority_addresses ≡ []
    → a.priority_only ≡ true
    → has_next (reset interfaces a) ≡ false
unfolding has_next reset
reset-exhausted interfaces a p q =
    no_address a.priority_addresses a.priority_only
      (interface_subnets (exceptions a) a.net_mask_limit interfaces) p q

-- Only priority addresses are asked for, and there is none.
abbrev IsBare : Generator → Type 0
IsBare a = (a.priority_addresses ≡ []) × (a.priority_only ≡ true)

if-IsBare :
    (b : Bool) (x y : Generator) → (b ≡ true → IsBare x) → IsBare y → IsBare (if b then x else y)
if-IsBare true x y p q = p refl
if-IsBare false x y p q = q

set_priority_only-IsBare :
    (interfaces : List Interface) (a : Generator)
    → a.priority_addresses ≡ []
    → IsBare (set_priority_only true interfaces a)
unfolding set_priority_only reset
set_priority_only-IsBare interfaces a p =
    if-IsBare a.priority_only a (reset interfaces (record a { priority_only = true })) (λ e. (p, e))
      (p, refl)

start_generator-exhausted :
    (g : Gateway)
    → first_addresses g ≡ []
    → not (is_full g.scan_type) ≡ true
    → has_next (start_generator g).address_generator ≡ false
unfolding start_generator set_priority_addresses
start_generator-exhausted g p q =
    let a = set_priority_addresses (first_addresses g) g.address_generator in
    let bare = set_priority_only-IsBare g.interfaces a p in
    subst (λ b. has_next (reset g.interfaces (set_priority_only b g.interfaces a)) ≡ false) (sym q)
      (reset-exhausted g.interfaces (set_priority_only true g.interfaces a) bare.0 bare.1)

-- What a scan without addresses leaves as it was.
record IsUnmoved (g d : Gateway) : Type 0 where
  pub same_started : d.started ≡ g.started
  pub same_active : d.active_hosts ≡ g.active_hosts
  pub same_type : d.scan_type ≡ g.scan_type
  pub same_udp : d.udp_running ≡ g.udp_running

fill-exhausted :
    (fuel : ℕ) (g : Gateway) → has_next g.address_generator ≡ false → IsUnmoved g (fill fuel g)
unfolding fill
fill-exhausted zero g e = record {
  same_started = refl;
  same_active = refl;
  same_type = refl;
  same_udp = refl;
}
fill-exhausted (suc fuel) g e =
    let full_or_over : (ltb (length g.active_hosts) max_simultaneous_requests
          && has_next g.address_generator)
        ≡ false =
      ground (arith, e) in
    rw (full_or_over)
      (record { same_started = refl; same_active = refl; same_type = refl; same_udp = refl })

continue_scan-exhausted :
    (g : Gateway)
    → first_addresses g ≡ []
    → not (is_full g.scan_type) ≡ true
    → IsUnmoved g (continue_scan g)
unfolding continue_scan start_generator
continue_scan-exhausted g p q =
    let stopped = fill-exhausted 64 (start_generator g) (start_generator-exhausted g p q) in
    if_both (IsUnmoved g) (is_priority g.scan_type && is_empty (first_addresses g))
      (record { same_started = refl; same_active = refl; same_type = refl; same_udp = refl })
      (record {
        same_started = stopped.same_started;
        same_active = stopped.same_active;
        same_type = stopped.same_type;
        same_udp = stopped.same_udp;
      })

if-true : (b : Bool) (x y : Gateway) → b ≡ true → (if b then x else y) ≡ x
if-true b x y e = rw (e) refl

timers-run :
    (n : ℕ) (g : Gateway) → is_scanning g.scan_type ≡ true → run (replicate n timer_fires) g ≡ g
unfolding run handle on_timer
timers-run zero g e = refl
timers-run (suc n) g e =
    ap (run (replicate n timer_fires)) (if-true (is_scanning g.scan_type) g _ e) ∙ timers-run n g e

-- When the UDP detector's time is over in a periodic scan, and neither it nor the settings know any
-- address, no host is scanned and the scan is never over: through any number of timer events the
-- gateway counts as scanning, so that no further periodic scan starts, though no host is active
-- that was not and the UDP detector has ended.
pub udp_times_out-stalls :
    (n : ℕ) (g : Gateway)
    → g.udp_running ≡ true
    → g.scan_type ≡ try_priority
    → first_addresses g ≡ []
    → let d = run (udp_times_out ∷ replicate n timer_fires) g in
      (d.started ≡ g.started)
      × (d.active_hosts ≡ g.active_hosts)
      × (d.scan_type ≡ try_priority)
      × (d.udp_running ≡ false)
unfolding run handle
udp_times_out-stalls n g up type none_known =
    let g' = record g { udp_running = false } in
    let still = continue_scan-exhausted g' none_known (ap (λ t. not (is_full t)) type) in
    let scanning = ap is_scanning (still.same_type ∙ type) in
    let waited = timers-run n (continue_scan g') scanning in
    let after_udp : run (udp_times_out ∷ replicate n timer_fires) g ≡ continue_scan g' =
      ap (run (replicate n timer_fires)) (if-true g.udp_running (continue_scan g') g up) ∙ waited in
    rw (after_udp) (still.same_started, still.same_active, still.same_type ∙ type, still.same_udp)
