-- ===== src/Lan/Tests.antt =====
-- The address generator in a small network.
use dbus_fronius.Base.{ℕ, ◌≤◌, ◌≡◌, refl, true, false, List, [], ◌∷◌, arith}
use dbus_fronius.Lan.{next_address, new_subnet, skip}
use dbus_fronius.Lan.Generator.{
  Interface, Generator, next_from, next, has_next_from, has_next, first_of, last_of, entry_subnets,
  interface_subnets, reset, progress,
}
use dbus_fronius.Lan.Enumerate.{drain}
use dbus_fronius.Lan.Scan.{scanned, drain-reset}
use dbus_fronius.Lan.Progress.{after, progress-after}

-- One interface with the given address and mask.
abbrev network : ℕ → ℕ → List Interface
network ip netmask =
    record {
      is_up = true;
      is_running = true;
      is_loop_back = false;
      address_entries = record { is_ipv4 = true; ip = ip; netmask = netmask } ∷ [];
    }
    ∷ []

-- The generator of the gateway, with one priority address.
abbrev generator : ℕ → Generator
generator priority = record {
  priority_only = false;
  subnets = [];
  priority_addresses = priority ∷ [];
  net_mask_limit = 0xfffff000;
  priority_index = 0;
  subnet_index = 0;
}

-- 192.168.1.2 with the mask 255.255.255.248, and the priority address 192.168.1.4.
abbrev lan : List Interface
lan = network 0xc0a80102 0xfffffff8

lan-bounds :
    (first_of 0xfffff000 (record { is_ipv4 = true; ip = 0xc0a80102; netmask = 0xfffffff8 })
      ≡ 0xc0a80100)
    × (last_of 0xfffff000 (record { is_ipv4 = true; ip = 0xc0a80102; netmask = 0xfffffff8 })
        ≡ 0xc0a80106)
unfolding first_of last_of
lan-bounds = (refl, refl)

drain-lan :
    drain 9 (reset lan (generator 0xc0a80104))
    ≡ 0xc0a80104 ∷ 0xc0a80101 ∷ 0xc0a80103 ∷ 0xc0a80105 ∷ 0xc0a80106 ∷ []
unfolding drain has_next next has_next_from next_from next_address skip reset interface_subnets
    entry_subnets new_subnet first_of last_of
drain-lan = refl

drain-reset_example :
    drain 5 (reset lan (generator 0xc0a80104)) ≡ scanned lan (generator 0xc0a80104)
unfolding first_of last_of
drain-reset_example =
    drain-reset 5 lan (generator 0xc0a80104) (((omega arith, omega arith), tt), tt) (omega arith)

progress-after_example : progress 1 (after 3 (reset lan (generator 0xc0a80104))) ≤ 100
unfolding first_of last_of
progress-after_example =
    progress-after 3 1 lan (generator 0xc0a80104) (((omega arith, omega arith), tt), tt)

-- An address with the mask 255.255.255.255 has a subnet of size 0 at position 1.
progress_host :
    progress 0 (after 1 (reset (network 0x0a000001 0xffffffff) (generator 0x0a000002))) ≡ 200
unfolding after progress next reset interface_subnets entry_subnets new_subnet next_address skip
    first_of last_of
progress_host = refl
