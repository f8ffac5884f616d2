-- ===== src/Mediator/Events.antt =====
-- inverter_mediator.cpp: what happens to a mediator, from its construction on.
use Prim.Native.String.{String}
use dbus_fronius.Base.{ℕ, Bool, false, none, List, [], ◌∷◌, if◌then◌else◌}
use dbus_fronius.Defines.{DeviceInfo}
use dbus_fronius.Mediator.{
  Services, InverterSettings, InverterMediator, has_inverter, name_for, on_position_changed,
  on_settings_custom_name_changed, on_inverter_custom_name_changed, on_is_activated_changed,
  on_connection_lost, on_inverter_model_changed, process_new_inverter, on_settings_initialized,
}

-- The constructor, with the values that the settings have then.
abbrev pub new_mediator : {D : Type 0} → DeviceInfo D → InverterSettings → InverterMediator D
new_mediator device_info settings = record {
  device_info = device_info;
  mediated = none;
  abandoned = [];
  settings = settings;
  connected = false;
  log = [];
}

-- A device is found, all settings have their values, a setting gets another value, the updater of the
-- inverter tells that the connection is lost or the model changed, and the inverter gets a name over
-- the D-Bus.
pub data Event (D : Type 0) : Type 0 where
  finds : DeviceInfo D → Event D
  settings_initialized loses_connection model_changes : Event D
  position_changes phase_changes : ℕ → Event D
  is_active_changes : Bool → Event D
  custom_name_changes inverter_is_named : String → Event D

module _ {D : Type 0} (v : Services) where
  -- Settings are initialized once, and without an inverter there is no updater.
  unfoldable pub handle : Event D → InverterMediator D → InverterMediator D
  unfolding process_new_inverter on_settings_initialized on_position_changed
      on_settings_custom_name_changed on_inverter_custom_name_changed on_is_activated_changed
      on_connection_lost on_inverter_model_changed
  handle (finds d) m = (process_new_inverter v d m).1
  handle settings_initialized m = if m.connected then m else on_settings_initialized v m
  handle loses_connection m = if has_inverter m.mediated then on_connection_lost m else m
  handle model_changes m = if has_inverter m.mediated then on_inverter_model_changed m else m
  handle (position_changes p) m =
      let m' = record m { settings = record (m.settings) { position = p } } in
      if m.connected then on_position_changed m' else m'
  handle (phase_changes p) m = record m { settings = record (m.settings) { phase = p } }
  handle (is_active_changes b) m =
      let m' = record m { settings = record (m.settings) { is_active = b } } in
      if m.connected then on_is_activated_changed m' else m'
  handle (custom_name_changes n) m =
      let m' = record m { settings = record (m.settings) { custom_name = n } } in
      if m.connected then on_settings_custom_name_changed m' else m'
  handle (inverter_is_named n) m = name_for n m.mediated m

  unfoldable pub run : List (Event D) → InverterMediator D → InverterMediator D
  unfolding handle
  run [] m = m
  run (e ∷ events) m = run events (handle e m)
