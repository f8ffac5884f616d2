-- ===== src/Inverter.antt =====
-- software/src/inverter.h and inverter.cpp, fronius_inverter.h and fronius_inverter.cpp: what the
-- mediator and the updaters ask of an inverter. Items without a valid value are none, and the text of
-- an `int` is a parameter.
use Prim.Native.String.{String, ◌++◌}
use dbus_fronius.Base.{
  ℕ, zero, suc, Bool, true, false, not, ◌&&◌, ◌==◌, Option, none, some, List, [], ◌∷◌, drop,
  if◌then◌else◌,
}
use dbus_fronius.SolarApi.{same_text}
use dbus_fronius.Defines.{
  ProtocolType, fronius_solar_api, sunspec_float, sunspec_int_sf, sma, same_protocol, DeviceInfo,
}

-- The class of an inverter object, and that of the updater that belongs to it.
pub data InverterClass : Type 0 where
  inverter fronius_inverter sma_inverter : InverterClass

pub data UpdaterClass : Type 0 where
  solar_api_updater sma_updater sunspec_updater : UpdaterClass

-- `host_changes` and `port_changes` count the signals to the updater, `custom_name` and `position`
-- are items, and `connection` is the text of Mgmt/Connection.
pub record Inverter (D : Type 0) : Type 0 where
  pub device_info : DeviceInfo D
  pub inverter_class : InverterClass
  pub device_instance : ℕ
  pub position : Option ℕ
  pub custom_name : Option String
  pub connection : String
  pub host_changes : ℕ
  pub port_changes : ℕ
  pub updater : Option UpdaterClass

abbrev pub api_text : ProtocolType → String
api_text fronius_solar_api = "solarapi"
api_text sunspec_float = "sunspec-f"
api_text sunspec_int_sf = "solarapi"
api_text sma = "sma-pv"

abbrev pub has_name : String → Option String → Bool
has_name name none = false
has_name name (some n) = same_text n name

-- customName: the text of an invalid value is empty.
abbrev pub text_of : Option String → String
text_of none = ""
text_of (some n) = n

module _ {D : Type 0} (number : ℕ → String) where
  unfoldable pub update_connection_item : Inverter D → Inverter D
  update_connection_item i =
      let d = i.device_info in
      record i {
        connection =
            d.host_name
            ++ (" - " ++ (number d.network_id ++ (" (" ++ (api_text d.retrieval_mode ++ ")"))));
      }

  -- The constructors.
  unfoldable pub new_inverter : InverterClass → DeviceInfo D → ℕ → Inverter D
  unfolding update_connection_item
  new_inverter inverter_class device_info device_instance = update_connection_item (record {
    device_info = device_info;
    inverter_class = inverter_class;
    device_instance = device_instance;
    position = none;
    custom_name = none;
    connection = "";
    host_changes = 0;
    port_changes = 0;
    updater = none;
  })

  unfoldable pub set_host_name : String → Inverter D → Inverter D
  unfolding update_connection_item
  set_host_name h i =
      if same_text i.device_info.host_name h
      then i
      else let i' =
          update_connection_item
            (record i { device_info = record (i.device_info) { host_name = h } }) in
        record i' { host_changes = suc i'.host_changes }

  unfoldable pub set_port : ℕ → Inverter D → Inverter D
  set_port p i = if i.device_info.port == p then i else record i {
    device_info = record (i.device_info) { port = p };
    port_changes = suc i.port_changes;
  }

module _ {D : Type 0} where
  unfoldable pub set_position : ℕ → Inverter D → Inverter D
  set_position p i = record i { position = some p }

  -- setCustomName, and whether customNameChanged is emitted.
  unfoldable pub set_custom_name : String → Inverter D → Bool × Inverter D
  set_custom_name name i =
      if has_name name i.custom_name
      then (false, i)
      else (true, record i { custom_name = some name })

abbrev zeros : ℕ → List ℕ → List ℕ
zeros zero l = l
zeros (suc n) l = 0 ∷ zeros n l

-- FroniusNullFrame.
abbrev pub fronius_null_frame : List ℕ
fronius_null_frame = zeros 36 (7 ∷ 10 ∷ [])

-- Whether the first part of the frame is this list: the comparison with `mid`.
unfoldable pub starts_with : List ℕ → List ℕ → Bool
starts_with [] frame = true
starts_with (w ∷ ws) [] = false
starts_with (w ∷ ws) (r ∷ frame) = (w == r) && starts_with ws frame

-- validateSunspecMonitorFrame of each class.
unfoldable pub validate_sunspec_monitor_frame :
    {D : Type 0} → InverterClass → DeviceInfo D → List ℕ → Bool
unfolding starts_with
validate_sunspec_monitor_frame inverter d frame = true
validate_sunspec_monitor_frame sma_inverter d frame = true
validate_sunspec_monitor_frame fronius_inverter d frame =
    not (
      same_protocol d.retrieval_mode sunspec_int_sf
      && starts_with fronius_null_frame (drop 2 frame))
