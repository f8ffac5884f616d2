-- ===== src/Defines.antt =====
-- software/src/defines.h: what the detectors tell of a device. An `int` is its 32-bit pattern, and the
-- type of doubles is a parameter.
use Prim.Native.String.{String}
use dbus_fronius.Base.{ℕ, Bool, true, false}

-- InverterPhase.
pub data InverterPhase : Type 0 where
  multi_phase phase_l1 phase_l2 phase_l3 : InverterPhase

-- InverterPosition.
pub data InverterPosition : Type 0 where
  input1 output input2 : InverterPosition

-- ProtocolType.
pub data ProtocolType : Type 0 where
  fronius_solar_api sunspec_float sunspec_int_sf sma : ProtocolType

abbrev pub same_protocol : ProtocolType → ProtocolType → Bool
same_protocol fronius_solar_api fronius_solar_api = true
same_protocol sunspec_float sunspec_float = true
same_protocol sunspec_int_sf sunspec_int_sf = true
same_protocol sma sma = true
same_protocol _ _ = false

pub record DeviceInfo (D : Type 0) : Type 0 where
  pub host_name : String
  pub unique_id : String
  pub product_name : String
  pub data_manager_version : String
  pub firmware_version : String
  pub serial_number : String
  pub network_id : ℕ
  pub port : ℕ
  pub device_type : ℕ
  pub phase_count : ℕ
  pub product_id : ℕ
  pub retrieval_mode : ProtocolType
  pub inverter_model_offset : ℕ
  pub name_plate_model_offset : ℕ
  pub immediate_control_offset : ℕ
  pub power_limit_scale : D
  pub max_power : D
  pub storage_capacity : D

-- The constructor, for the double 0.
abbrev pub new_device_info : {D : Type 0} → D → DeviceInfo D
new_device_info zero = record {
  host_name = "";
  unique_id = "";
  product_name = "";
  data_manager_version = "";
  firmware_version = "";
  serial_number = "";
  network_id = 0;
  port = 0;
  device_type = 0;
  phase_count = 0;
  product_id = 0;
  retrieval_mode = fronius_solar_api;
  inverter_model_offset = 0;
  name_plate_model_offset = 0;
  immediate_control_offset = 0;
  power_limit_scale = zero;
  max_power = zero;
  storage_capacity = zero;
}
