-- ===== src/Devices/Tests.antt =====
-- The search at concrete types.
use dbus_fronius.Base.{
  ℕ, suc, ◌≡◌, refl, none, List, [], ◌∷◌, arith, ltb, if◌then◌else◌, Bool-cases, inl, inr,
}
use dbus_fronius.Devices.{FroniusDeviceInfo, devices, find}
use dbus_fronius.Devices.Search.{IsLowerBound, first_with, find-first_with}

-- How many entries at the front are less.
abbrev count_less : List FroniusDeviceInfo → ℕ → ℕ
count_less [] t = 0
count_less (d ∷ ds) t = if ltb d.device_type t then suc (count_less ds t) else 0

count_less-IsLowerBound :
    (ds : List FroniusDeviceInfo) (t : ℕ) → IsLowerBound ds t (count_less ds t)
count_less-IsLowerBound [] t = refl
count_less-IsLowerBound (d ∷ ds) t = elim (Bool-cases (ltb d.device_type t)) [
  | inl e ↦ rw (e) (ground arith, count_less-IsLowerBound ds t)
  | inr e ↦ rw (e) (ground arith)
]

find-first_with_example : find count_less 123 ≡ first_with 123 devices
find-first_with_example = find-first_with count_less 123 λ ds t s. count_less-IsLowerBound ds t

-- There is no type 20.
find_gap : find count_less 20 ≡ none
unfolding find
find_gap = refl
