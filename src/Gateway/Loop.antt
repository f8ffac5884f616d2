-- ===== src/Gateway/Loop.antt =====
-- The loop of continueScan of inverter_gateway.cpp comes to its end.
use dbus_fronius.Base.{
  ℕ, zero, suc, ◌+◌, ◌≤◌, ◌≡◌, ◌⊎◌, inl, inr, false, ◌&&◌, arith, length, ltb, Bool-cases,
}
use dbus_fronius.Lan.Generator.{has_next}
use dbus_fronius.Gateway.{
  is_priority, is_empty, first_addresses, Gateway, scan_next, fill, start_generator, continue_scan,
  max_simultaneous_requests,
}
use dbus_fronius.Gateway.Limit.{scan_next-length}

-- As many hosts are active as may be, or there is no further address.
abbrev pub IsBusy : Gateway → Type 0
IsBusy g = (64 ≤ length g.active_hosts) ⊎ (has_next g.address_generator ≡ false)

fill-IsBusy : (fuel : ℕ) (g : Gateway) → 64 ≤ length g.active_hosts + fuel → IsBusy (fill fuel g)
unfolding fill
fill-IsBusy zero g h = inl (omega (arith, h))
fill-IsBusy (suc fuel) g h =
    elim (Bool-cases (ltb (length g.active_hosts) max_simultaneous_requests)) [
      | inl room ↦ elim (Bool-cases (has_next g.address_generator)) [
        | inl more ↦
            rw (room, more) (fill-IsBusy fuel (scan_next g) (omega (arith, h, scan_next-length g)))
        | inr none_left ↦ rw (room, none_left) (inr none_left)
      ]
      | inr crowded ↦ rw (crowded) (inl (ground (arith, crowded)))
    ]

-- When a scan starts and is not one of known addresses without any, the loop that starts the first
-- hosts comes to its end: 64 hosts are active, or every address has been taken from the generator.
pub continue_scan-IsBusy :
    (g : Gateway)
    → (is_priority g.scan_type && is_empty (first_addresses g)) ≡ false
    → IsBusy (continue_scan g)
unfolding continue_scan start_generator
continue_scan-IsBusy g e = rw (e) (fill-IsBusy 64 (start_generator g) (omega arith))
