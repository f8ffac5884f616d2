-- ===== src/Mediator.antt =====
-- software/src/inverter_mediator.h and inverter_mediator.cpp, with inverter_settings.cpp as far as the
-- mediator uses it: whether there is an inverter for a device that was found, and which. The values of
-- the settings' items are part of the state; the other things that a mediator asks of other objects
-- are logged, the newest last. An `int` is its 32-bit pattern.
pub mod Events
pub mod Kept
pub mod Served
pub mod Course
pub mod Creation
mod Tests
use Prim.Native.String.{String, [] as empty, ◌∷◌ as ◌∷ₛ◌}
use Prim.Native.Char.{Char, char, code}
use dbus_fronius.Base.{
  ℕ, zero, suc, Bool, true, false, not, ◌&&◌, ◌||◌, ltb, leb, ◌==◌, Option, none, some, List, [],
  ◌∷◌, ◌++◌, if◌then◌else◌,
}
use dbus_fronius.SolarApi.{same_text, is_empty}
use dbus_fronius.Defines.{
  ProtocolType, fronius_solar_api, sunspec_float, sunspec_int_sf, sma, same_protocol, DeviceInfo,
}
use dbus_fronius.Inverter.{
  InverterClass, inverter, fronius_inverter, sma_inverter, UpdaterClass, solar_api_updater,
  sma_updater, sunspec_updater, Inverter, new_inverter, set_host_name, set_port, set_position,
  set_custom_name, text_of,
}

-- The text of an `int`, the instance that the settings service gives for a setting's name (none
-- for a negative one), and VE_PROD_ID_PV_INVERTER_SMA.
pub record Services : Type 0 where
  pub number : ℕ → String
  pub get_device_instance : String → Option ℕ
  pub sma_product : ℕ

-- The values that the mediator reads, where an item that has none yet is read as 0, empty or false.
pub record InverterSettings : Type 0 where
  pub phase : ℕ
  pub position : ℕ
  pub custom_name : String
  pub is_active : Bool

-- What a mediator does outside itself: it registers a name, starts a detection, or writes a setting.
pub data Action : Type 0 where
  registers : String → Action
  starts_detection : Action
  sets_phase sets_phase_count : ℕ → Action
  sets_serial_number sets_custom_name : String → Action

-- `abandoned` are inverters that still live, with their updaters, but that the mediator does not
-- know any more; `connected` says that the settings are initialized and their signals connected.
pub record InverterMediator (D : Type 0) : Type 0 where
  pub device_info : DeviceInfo D
  pub mediated : Option (Inverter D)
  pub abandoned : List (Inverter D)
  pub settings : InverterSettings
  pub connected : Bool
  pub log : List Action

-- The characters that a D-Bus path may have.
abbrev pub is_allowed : Char → Bool
is_allowed c =
    let n = code c in
    (leb 65 n && leb n 90) || ((leb 97 n && leb n 122) || ((leb 48 n && leb n 57) || n == 95))

-- The replacement of the regular expression.
unfoldable pub replace_others : String → String
replace_others empty = ""
replace_others (c ∷ₛ s) = (if is_allowed c then c else char 95 tt) ∷ₛ replace_others s

abbrev pub letter_i : Char
letter_i = char 73 tt

-- Settings::createInverterId.
unfoldable pub create_inverter_id : String → String
unfolding replace_others
create_inverter_id device_serial = replace_others (letter_i ∷ₛ device_serial)

-- Which class is created for a device.
unfoldable pub class_of : {D : Type 0} → Services → DeviceInfo D → InverterClass
class_of v d =
    if same_protocol d.retrieval_mode fronius_solar_api && not (d.device_type == 0)
    then fronius_inverter
    else if same_protocol d.retrieval_mode sma && d.product_id == v.sma_product
    then sma_inverter
    else inverter

-- The updater of startAcquisition.
abbrev pub updater_of : ProtocolType → UpdaterClass
updater_of fronius_solar_api = solar_api_updater
updater_of sma = sma_updater
updater_of sunspec_float = sunspec_updater
updater_of sunspec_int_sf = sunspec_updater

module _ {D : Type 0} where
  abbrev pub act : Action → InverterMediator D → InverterMediator D
  act a m = record m { log = m.log ++ a ∷ [] }

  -- The destruction of the inverter.
  abbrev pub forget : InverterMediator D → InverterMediator D
  forget m = record m { mediated = none }

  abbrev pub position_for : Option (Inverter D) → InverterMediator D → InverterMediator D
  position_for none m = m
  position_for (some i) m = record m { mediated = some (set_position m.settings.position i) }

  unfoldable pub on_position_changed : InverterMediator D → InverterMediator D
  unfolding set_position
  on_position_changed m = position_for m.mediated m

  -- onInverterCustomNameChanged, with setCustomName of the settings.
  abbrev pub store_name_for : Option (Inverter D) → InverterMediator D → InverterMediator D
  store_name_for none m = m
  store_name_for (some i) m =
      let name = text_of i.custom_name in
      if same_text m.settings.custom_name name then m else act (sets_custom_name name) m

  unfoldable pub on_inverter_custom_name_changed : InverterMediator D → InverterMediator D
  on_inverter_custom_name_changed m = store_name_for m.mediated m

  -- The inverter gets a name, and tells the mediator if it is another one.
  abbrev pub name_for : String → Option (Inverter D) → InverterMediator D → InverterMediator D
  name_for name none m = m
  name_for name (some i) m =
      let (changed, i') = set_custom_name name i in
      let m' = record m { mediated = some i' } in
      if changed then on_inverter_custom_name_changed m' else m'

  unfoldable pub on_settings_custom_name_changed : InverterMediator D → InverterMediator D
  unfolding set_custom_name on_inverter_custom_name_changed
  on_settings_custom_name_changed m = name_for m.settings.custom_name m.mediated m

  abbrev pub acquire_for : Option (Inverter D) → InverterMediator D → InverterMediator D
  acquire_for none m = m
  acquire_for (some i) m = record m {
    mediated = some (record (set_position m.settings.position i) {
      updater = some (updater_of m.device_info.retrieval_mode);
    });
  }

  unfoldable pub start_acquisition : InverterMediator D → InverterMediator D
  unfolding set_position
  start_acquisition m = acquire_for m.mediated m

  unfoldable pub on_connection_lost : InverterMediator D → InverterMediator D
  on_connection_lost m = forget (act starts_detection m)

  unfoldable pub on_inverter_model_changed : InverterMediator D → InverterMediator D
  on_inverter_model_changed m = forget (act starts_detection m)

  unfoldable pub on_is_activated_changed : InverterMediator D → InverterMediator D
  on_is_activated_changed m = if m.settings.is_active then act starts_detection m else forget m

  -- An inverter that is there already is not deleted.
  abbrev pub keep_old : Option (Inverter D) → List (Inverter D) → List (Inverter D)
  keep_old none l = l
  keep_old (some i) l = i ∷ l

  abbrev pub at_address : DeviceInfo D → Option (Inverter D) → Bool
  at_address d none = false
  at_address d (some i) =
      same_text i.device_info.host_name d.host_name && i.device_info.network_id == d.network_id

  abbrev pub has_inverter : Option (Inverter D) → Bool
  has_inverter none = false
  has_inverter (some i) = true

  abbrev pub serial_of : DeviceInfo D → String
  serial_of d = if is_empty d.serial_number then d.unique_id else d.serial_number

  -- The phase, its count and the serial number are written to the settings.
  abbrev pub persist : InverterMediator D → InverterMediator D
  persist m =
      let d = m.device_info in
      let m' =
        if ltb 1 d.phase_count && not (m.settings.phase == 0) then act (sets_phase 0) m else m in
      act (sets_serial_number (serial_of d)) (act (sets_phase_count d.phase_count) m')

  -- What is done with the result of createInverter.
  abbrev pub begin_with : Option (Inverter D) × InverterMediator D → InverterMediator D
  begin_with (none, m) = forget (record m { abandoned = keep_old m.mediated m.abandoned })
  begin_with (some i, m) = on_settings_custom_name_changed (
      start_acquisition
        (record m { mediated = some i; abandoned = keep_old m.mediated m.abandoned }))

module _ {D : Type 0} (v : Services) where
  abbrev pub create_with : Option ℕ → InverterMediator D → Option (Inverter D) × InverterMediator D
  create_with none m = (none, m)
  create_with (some device_instance) m = (
    some (new_inverter v.number (class_of v m.device_info) m.device_info device_instance),
    on_settings_custom_name_changed (on_position_changed m),
  )

  -- createInverter.
  unfoldable pub create_inverter : InverterMediator D → Option (Inverter D) × InverterMediator D
  unfolding create_inverter_id class_of new_inverter on_position_changed
      on_settings_custom_name_changed
  create_inverter m =
      let id = create_inverter_id m.device_info.unique_id in
      create_with (v.get_device_instance id) (act (registers id) m)

  -- The inverter is created, and its data are asked for.
  unfoldable pub begin : InverterMediator D → InverterMediator D
  unfolding create_inverter start_acquisition on_settings_custom_name_changed
  begin m = begin_with (create_inverter m)

  -- The inverter that is known gets a new address, or there is none and it is created.
  abbrev pub renew_for :
      Option (Inverter D) → DeviceInfo D → InverterMediator D → InverterMediator D
  renew_for none d m = if m.settings.is_active then begin m else m
  renew_for (some i) d m = record m {
    mediated = some (set_port v.number d.port (set_host_name v.number d.host_name i));
  }

  abbrev pub renew : DeviceInfo D → InverterMediator D → InverterMediator D
  renew d m = renew_for m.mediated d m

  -- processNewInverter.
  unfoldable pub process_new_inverter :
      DeviceInfo D → InverterMediator D → Bool × InverterMediator D
  unfolding begin set_port set_host_name
  process_new_inverter d m =
      if same_text m.device_info.unique_id d.unique_id
      then (
        true,
        renew d
            (record (if has_inverter m.mediated
                && not (same_protocol m.device_info.retrieval_mode d.retrieval_mode)
              then forget m
              else m) { device_info = d }),
      )
      else (false, if at_address d m.mediated then forget m else m)

  -- onSettingsInitialized.
  unfoldable pub on_settings_initialized : InverterMediator D → InverterMediator D
  unfolding begin
  on_settings_initialized m =
      let m' = record m { connected = true } in
      if m.settings.is_active then begin (persist m') else forget m'
