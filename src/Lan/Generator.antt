-- ===== src/Lan/Generator.antt =====
-- The class LocalIpAddressGenerator of software/src/local_ip_address_generator.cpp.
use dbus_fronius.Base.{
  ℕ, zero, suc, ◌+◌, ◌-◌, ◌*◌, ◌/◌, ◌%◌, Bool, true, false, not, ◌&&◌, List, [], ◌∷◌, ◌++◌, length,
  get_or, ltb, leb, ◌==◌, if◌then◌else◌, bit_and, bit_or,
}
use dbus_fronius.Lan.{Subnet, has_address, next_address, new_subnet, size, position}

-- A QNetworkAddressEntry; `is_ipv4` is false for every address that is not an IPv4 address.
pub record AddressEntry : Type 0 where
  pub is_ipv4 : Bool
  pub ip : ℕ
  pub netmask : ℕ

-- A QNetworkInterface.
pub record Interface : Type 0 where
  pub is_up : Bool
  pub is_running : Bool
  pub is_loop_back : Bool
  pub address_entries : List AddressEntry

pub record Generator : Type 0 where
  pub priority_only : Bool
  pub subnets : List Subnet
  pub priority_addresses : List ℕ
  pub net_mask_limit : ℕ
  pub priority_index : ℕ
  pub subnet_index : ℕ

abbrev pub exceptions : Generator → List ℕ
exceptions g = g.priority_addresses

-- The loop of `next` over the subnets from an index on: the address, the subnets and the index
-- after it. At the end of the list the address is 0.
unfoldable pub next_from : List ℕ → ℕ → List Subnet → ℕ × List Subnet × ℕ
unfolding next_address
next_from ex index [] = (0, [], index)
next_from ex (suc index) (s ∷ ss) =
    let (a, subnets, stop) = next_from ex index ss in (a, s ∷ subnets, suc stop)
next_from ex zero (s ∷ ss) =
    let (a, subnets, stop) = next_from ex zero ss in
    if has_address s
    then (let (b, t) = next_address ex s in (b, t ∷ ss, 0))
    else (a, s ∷ subnets, suc stop)

unfoldable pub next : Generator → ℕ × Generator
unfolding next_from
next g =
    if ltb g.priority_index (length g.priority_addresses)
    then (
      get_or g.priority_addresses g.priority_index 0,
      record g { priority_index = g.priority_index + 1 },
    )
    else (let (a, subnets, stop) = next_from (exceptions g) g.subnet_index g.subnets in
        (a, record g { subnets = subnets; subnet_index = stop }))

unfoldable pub has_next_from : ℕ → List Subnet → Bool
has_next_from index [] = false
has_next_from (suc index) (s ∷ ss) = has_next_from index ss
has_next_from zero (s ∷ ss) =
    let rest = has_next_from zero ss in if has_address s then true else rest

unfoldable pub has_next : Generator → Bool
unfolding has_next_from
has_next g =
    if ltb g.priority_index (length g.priority_addresses)
    then true
    else has_next_from g.subnet_index g.subnets

-- The conditions on an interface and on an address. An IPv4 address is none of the IPv6 ones that
-- the source excludes; 127.0.0.1, the broadcast address and 0.0.0.0 are left.
abbrev pub is_scanned : Interface → Bool
is_scanned i = i.is_up && (i.is_running && not i.is_loop_back)

abbrev pub is_usable : AddressEntry → Bool
is_usable e =
    not (e.ip == 0x7f000001) && (not (e.ip == 0xffffffff) && (not (e.ip == 0) && e.is_ipv4))

-- The bounds of the subnet of an entry; for a link-local address only 169.254.0.180 is scanned.
abbrev pub is_link_local : AddressEntry → Bool
is_link_local e = bit_and e.ip 0xffff0000 == 0xa9fe0000

unfoldable pub first_of : ℕ → AddressEntry → ℕ
first_of limit e = if is_link_local e then 0xa9fe00b3 else bit_and e.ip (bit_or e.netmask limit)

unfoldable pub last_of : ℕ → AddressEntry → ℕ
unfolding first_of
last_of limit e =
    if is_link_local e
    then 0xa9fe00b4
    else (bit_or (first_of limit e) (0xffffffff - bit_or e.netmask limit) + 0xffffffff)
      % 0x100000000

-- The two loops of `reset`.
unfoldable pub entry_subnets : List ℕ → ℕ → List AddressEntry → List Subnet
unfolding new_subnet first_of last_of
entry_subnets ex limit [] = []
entry_subnets ex limit (e ∷ es) =
    let rest = entry_subnets ex limit es in
    if is_usable e then new_subnet ex (first_of limit e) (last_of limit e) e.ip ∷ rest else rest

unfoldable pub interface_subnets : List ℕ → ℕ → List Interface → List Subnet
unfolding entry_subnets
interface_subnets ex limit [] = []
interface_subnets ex limit (i ∷ is) =
    let rest = interface_subnets ex limit is in
    if is_scanned i then entry_subnets ex limit i.address_entries ++ rest else rest

unfoldable pub reset : List Interface → Generator → Generator
unfolding interface_subnets
reset interfaces g = record g {
  priority_index = 0;
  subnet_index = 0;
  subnets =
      if g.priority_only then [] else interface_subnets (exceptions g) g.net_mask_limit interfaces;
}

unfoldable pub set_priority_only : Bool → List Interface → Generator → Generator
unfolding reset
set_priority_only true interfaces g =
    if g.priority_only then g else reset interfaces (record g { priority_only = true })
set_priority_only false interfaces g = record g { priority_only = false }

unfoldable pub set_priority_addresses : List ℕ → Generator → Generator
set_priority_addresses addresses g =
    let at_end = ltb 0 g.priority_index && leb (length g.priority_addresses) g.priority_index in
    record g {
      priority_addresses = addresses;
      priority_index = if at_end then length addresses else 0;
    }

abbrev pub set_net_mask_limit : ℕ → Generator → Generator
set_net_mask_limit limit g = record g { net_mask_limit = limit }

-- The sums of `progress` over the subnets.
abbrev pub sizes : List Subnet → ℕ
sizes [] = 0
sizes (s ∷ ss) = size s + sizes ss

abbrev pub positions : List Subnet → ℕ
positions [] = 0
positions (s ∷ ss) = position s + positions ss

-- The source computes this in `int`, which it leaves only when 100 times the sum of the positions
-- passes 2^31, that is for more than five thousand subnets of the 4096 addresses that the gateway's
-- mask limit 0xFFFFF000 allows.
unfoldable pub progress : ℕ → Generator → ℕ
progress active_count g =
    let total = length g.priority_addresses + (if g.priority_only then 0 else sizes g.subnets) in
    let done = g.priority_index + (if g.priority_only then 0 else positions g.subnets) in
    if total == 0 then 0 else 100 * (done - active_count) / total
