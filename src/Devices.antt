-- ===== src/Devices.antt =====
-- software/src/fronius_device_info.h and fronius_device_info.cpp: how an inverter's type is found
-- in the table of the known ones. A type is an int; the table and the types that are looked up are
-- not negative.
pub mod Table
pub mod Search
mod Tests
use dbus_fronius.Base.{ℕ, Option, none, some, List, get_elem?, ◌==◌, if◌then◌else◌}
pub use Table.{FroniusDeviceInfo, devices}

-- The end of the table, or an entry of another type, is not found.
abbrev pub found : ℕ → Option FroniusDeviceInfo → Option FroniusDeviceInfo
found device_type none = none
found device_type (some it) = if it.device_type == device_type then some it else none

-- FroniusDeviceInfo::find; `lower_bound` is std::lower_bound with the comparison by device type,
-- and gives a position instead of an iterator.
unfoldable pub find : (List FroniusDeviceInfo → ℕ → ℕ) → ℕ → Option FroniusDeviceInfo
find lower_bound device_type =
    found device_type (get_elem? devices (lower_bound devices device_type))
