-- ===== src/Gateway.antt =====
-- software/src/inverter_gateway.h and inverter_gateway.cpp: when hosts are scanned, and what is
-- done with the inverters found. An address stands for its host name. What other objects hold is
-- part of the state: the settings, the network's interfaces, and the answers of the UDP detector
-- with whether its time is running. At least one detector has been added before the first scan.
pub mod Events
pub mod Limit
pub mod Loop
pub mod Fallback
pub mod Rescan
pub mod Track
pub mod Sweep
pub mod FullScan
mod Tests
use dbus_fronius.Base.{
  ℕ, zero, suc, ◌+◌, ◌-◌, Bool, true, false, not, ◌&&◌, ◌||◌, List, [], ◌∷◌, ◌++◌, length, ltb,
  ◌==◌, if◌then◌else◌,
}
use dbus_fronius.Lan.{contains}
use dbus_fronius.Lan.Generator.{
  Interface, Generator, next, has_next, reset, set_priority_only, set_priority_addresses, progress,
}

abbrev pub max_simultaneous_requests : ℕ
max_simultaneous_requests = 64

-- ScanType; `not_scanning` is None.
pub data ScanType : Type 0 where
  not_scanning full priority try_priority : ScanType

abbrev pub is_full : ScanType → Bool
is_full full = true
is_full _ = false

abbrev pub is_scanning : ScanType → Bool
is_scanning not_scanning = false
is_scanning _ = true

pub record Settings : Type 0 where
  pub ip_addresses : List ℕ
  pub known_ip_addresses : List ℕ
  pub auto_scan : Bool

-- A HostScan with the number of detectors that it has not tried.
pub record HostScan : Type 0 where
  pub host_name : ℕ
  pub detectors : ℕ

pub data Signal : Type 0 where
  inverter_found : ℕ → Signal
  auto_detect_changed scan_progress_changed : Signal

-- `active_hosts` are numbered in the order of their creation; `started` are the hosts of all scans,
-- the newest last.
pub record Gateway : Type 0 where
  pub settings : Settings
  pub interfaces : List Interface
  pub detectors : ℕ
  pub udp_found : List ℕ
  pub udp_running : Bool
  pub devices_found : List ℕ
  pub active_hosts : List (ℕ × HostScan)
  pub created : ℕ
  pub started : List ℕ
  pub address_generator : Generator
  pub auto_detect : Bool
  pub tried_full : Bool
  pub scan_type : ScanType
  pub signals : List Signal

unfoldable pub add_detector : Gateway → Gateway
add_detector g = record g { detectors = suc g.detectors }

abbrev pub emit : Signal → Gateway → Gateway
emit s g = record g { signals = g.signals ++ s ∷ [] }

abbrev pub same : Bool → Bool → Bool
same true b = b
same false b = not b

unfoldable pub set_auto_detect : Bool → Gateway → Gateway
set_auto_detect b g =
    if same g.auto_detect b then g else emit auto_detect_changed (record g { auto_detect = b })

unfoldable pub scan_progress : Gateway → ℕ
scan_progress g =
    if g.auto_detect then progress (length g.active_hosts) g.address_generator else 100

-- scanHost, with the first detector started at once.
unfoldable pub scan_host : ℕ → Gateway → Gateway
scan_host host g = record g {
  active_hosts =
      g.active_hosts ++ (g.created, record { host_name = host; detectors = g.detectors - 1 }) ∷ [];
  created = suc g.created;
  started = g.started ++ host ∷ [];
}

-- The next address of the generator is scanned.
unfoldable pub scan_next : Gateway → Gateway
unfolding scan_host
scan_next g =
    let (host, generator) = next g.address_generator in
    scan_host host (record g { address_generator = generator })

-- The loop of continueScan. It ends when 64 hosts are active, so 64 is enough fuel.
unfoldable pub fill : ℕ → Gateway → Gateway
fill zero g = g
fill (suc fuel) g =
    let rest = fill fuel (scan_next g) in
    if ltb (length g.active_hosts) max_simultaneous_requests && has_next g.address_generator
    then rest
    else g

-- The `foreach` that adds the addresses of the settings.
abbrev pub append_new : List ℕ → List ℕ → List ℕ
append_new addresses [] = addresses
append_new addresses (a ∷ more) =
    if contains addresses a
    then append_new addresses more
    else append_new (addresses ++ a ∷ []) more

abbrev pub is_empty : List ℕ → Bool
is_empty [] = true
is_empty (a ∷ l) = false

abbrev pub is_priority : ScanType → Bool
is_priority priority = true
is_priority _ = false

-- The addresses that continueScan starts with.
abbrev pub first_addresses : Gateway → List ℕ
first_addresses g =
    append_new g.udp_found (g.settings.ip_addresses ++ g.settings.known_ip_addresses)

unfoldable pub start_generator : Gateway → Gateway
start_generator g = record g {
  address_generator = reset g.interfaces (
      set_priority_only (not (is_full g.scan_type)) g.interfaces
        (set_priority_addresses (first_addresses g) g.address_generator));
}

unfoldable pub continue_scan : Gateway → Gateway
continue_scan g =
    if is_priority g.scan_type && is_empty (first_addresses g)
    then g
    else fill max_simultaneous_requests (start_generator g)

abbrev pub is_try_priority : ScanType → Bool
is_try_priority try_priority = true
is_try_priority _ = false

unfoldable pub scan : ScanType → Gateway → Gateway
scan type g =
    let g' =
      record (set_auto_detect (is_full type) (record g { scan_type = type; devices_found = [] })) {
        udp_found = [];
      } in
    if is_full type || (is_try_priority type && g'.settings.auto_scan)
    then record g' { udp_running = true }
    else continue_scan g'
