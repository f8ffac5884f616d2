-- ===== src/Devices/Search.antt =====
-- FroniusDeviceInfo::find of software/src/fronius_device_info.cpp finds what is in the table.
use dbus_fronius.Base.{
  ℕ, zero, suc, ◌≤◌, ◌<◌, ◌≡◌, refl, Bool, true, ◌&&◌, Option, none, some, List, [], ◌∷◌, arith,
  get_elem?, ltb, ◌==◌, if◌then◌else◌,
}
use dbus_fronius.Devices.{FroniusDeviceInfo, devices, found, find}

-- The position that std::lower_bound gives in a sorted list: of the first entry that is not less,
-- or the end.
abbrev pub IsLowerBound : List FroniusDeviceInfo → ℕ → ℕ → Type 0
IsLowerBound [] t i = i ≡ 0
IsLowerBound (d ∷ ds) t zero = t ≤ d.device_type
IsLowerBound (d ∷ ds) t (suc i) = (d.device_type < t) × IsLowerBound ds t i

-- The types grow along a list, and the first is above `low`.
abbrev grows : ℕ → List FroniusDeviceInfo → Bool
grows low [] = true
grows low (d ∷ ds) = ltb low d.device_type && grows d.device_type ds

abbrev pub is_sorted : List FroniusDeviceInfo → Bool
is_sorted [] = true
is_sorted (d ∷ ds) = grows d.device_type ds

-- The first entry with a type, by going through the list.
abbrev pub first_with : ℕ → List FroniusDeviceInfo → Option FroniusDeviceInfo
first_with t [] = none
first_with t (d ∷ ds) = if d.device_type == t then some d else first_with t ds

first_with-grows :
    (low t : ℕ) (ds : List FroniusDeviceInfo)
    → t ≤ low
    → grows low ds ≡ true
    → first_with t ds ≡ none
first_with-grows low t [] h g = refl
first_with-grows low t (d ∷ ds) h g = ground (arith, first_with-grows d.device_type t ds)

grows-is_sorted :
    (low : ℕ) (ds : List FroniusDeviceInfo) → grows low ds ≡ true → is_sorted ds ≡ true
grows-is_sorted low [] g = refl
grows-is_sorted low (d ∷ ds) g = ground arith

found-first_with :
    (ds : List FroniusDeviceInfo) (t i : ℕ)
    → is_sorted ds ≡ true
    → IsLowerBound ds t i
    → found t (get_elem? ds i) ≡ first_with t ds
found-first_with [] t i s h = refl
found-first_with (d ∷ ds) t zero s h = ground (arith, first_with-grows d.device_type t ds)
found-first_with (d ∷ ds) t (suc i) s h =
    ground (arith, found-first_with ds t i (grows-is_sorted d.device_type ds s) h.1)

devices-sorted : is_sorted devices ≡ true
devices-sorted = refl

-- If std::lower_bound gives the position of the first entry that is not less, or the end, in each
-- sorted list, then `find` gives for each type the entry that a walk through the table finds first,
-- and nothing if there is none.
pub find-first_with :
    (lower_bound : List FroniusDeviceInfo → ℕ → ℕ) (t : ℕ)
    → ((ds : List FroniusDeviceInfo) (t : ℕ)
        → is_sorted ds ≡ true
        → IsLowerBound ds t (lower_bound ds t))
    → find lower_bound t ≡ first_with t devices
unfolding find
find-first_with lower_bound t h =
    found-first_with devices t (lower_bound devices t) devices-sorted (h devices t devices-sorted)
