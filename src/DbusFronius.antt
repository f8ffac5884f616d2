-- ===== src/DbusFronius.antt =====
-- software/src/dbus_fronius.h and dbus_fronius.cpp: the service, with its gateway and the mediators
-- of the inverters that were found. The texts of the items are left out.
pub mod Found
pub mod Distinct
mod Tests
use Prim.Native.String.{String}
use dbus_fronius.Base.{ℕ, Bool, true, false, ◌&&◌, List, [], ◌∷◌, ◌++◌, if◌then◌else◌}
use dbus_fronius.Defines.{DeviceInfo}
use dbus_fronius.Gateway.{Gateway, add_detector, set_auto_detect, scan_progress}
use dbus_fronius.Gateway.Events.{start_detection, full_scan}
use dbus_fronius.Mediator.{Services, InverterSettings, InverterMediator, process_new_inverter}
use dbus_fronius.Mediator.Events.{new_mediator}

-- The values of mAutoDetect and mScanProgress.
pub record DbusFronius (D : Type 0) : Type 0 where
  pub gateway : Gateway
  pub mediators : List (InverterMediator D)
  pub auto_detect : ℕ
  pub scan_progress_item : ℕ

-- Whether a double is finite and above 0: qIsFinite and the comparison.
pub record Doubles (D : Type 0) : Type 0 where
  pub is_finite : D → Bool
  pub is_positive : D → Bool

module _ {D : Type 0} where
  unfoldable pub on_scan_progress_changed : DbusFronius D → DbusFronius D
  unfolding scan_progress
  on_scan_progress_changed s = record s { scan_progress_item = scan_progress s.gateway }

  unfoldable pub on_auto_detect_changed : DbusFronius D → DbusFronius D
  on_auto_detect_changed s = record s { auto_detect = if s.gateway.auto_detect then 1 else 0 }

  unfoldable pub start_service_detection : DbusFronius D → DbusFronius D
  unfolding start_detection
  start_service_detection s = record s { gateway = start_detection s.gateway }

  -- handleSetValue for /AutoDetect.
  unfoldable pub set_auto_detect_item : Bool → DbusFronius D → DbusFronius D
  unfolding full_scan
  set_auto_detect_item value s = if value then record s { gateway = full_scan s.gateway } else s

  -- onSettingsInitialized; initializeSettings only connects signals.
  unfoldable pub on_service_settings_initialized : DbusFronius D → DbusFronius D
  unfolding add_detector on_scan_progress_changed on_auto_detect_changed start_service_detection
  on_service_settings_initialized s =
      let s' = record s { gateway = add_detector (add_detector (add_detector s.gateway)) } in
      start_service_detection (on_auto_detect_changed (on_scan_progress_changed s'))

module _ {D : Type 0} (v : Services) where
  -- The loop over the mediators, and the new mediator if none takes the device; `settings` are the
  -- values of its settings.
  unfoldable pub offer :
      InverterSettings → DeviceInfo D → List (InverterMediator D) → List (InverterMediator D)
  unfolding process_new_inverter
  offer settings d [] = new_mediator d settings ∷ []
  offer settings d (m ∷ mediators) =
      let rest = offer settings d mediators in
      let (taken, m') = process_new_inverter v d m in m' ∷ (if taken then mediators else rest)

module _ {D : Type 0} (n : Doubles D) (v : Services) where
  abbrev pub has_storage : DeviceInfo D → Bool
  has_storage d = n.is_finite d.storage_capacity && n.is_positive d.storage_capacity

  -- onInverterFound.
  unfoldable pub on_device_found : InverterSettings → DeviceInfo D → DbusFronius D → DbusFronius D
  unfolding offer
  on_device_found settings d s =
      if has_storage d then s else record s { mediators = offer v settings d s.mediators }
