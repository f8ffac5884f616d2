-- ===== src/SmaDetector.antt =====
-- software/src/sma_detector.cpp and sma_detector.h: the detection of an SMA inverter behind one
-- host. `Detection` is the Reply of a host with its entry in mClientToReply, and what the detector
-- asks and announces is logged, the newest last. Numbers that the source turns into text are kept as
-- numbers. The cast of a serial number to `unsigned long` is that of the 32-bit target.
pub mod Runs
pub mod Devices
pub mod Course
mod Tests
use Prim.Native.String.{String}
use dbus_fronius.Base.{
  ℕ, ◌+◌, ◌-◌, ◌*◌, ◌/◌, ◌%◌, Bool, true, false, Option, none, some, List, [], ◌∷◌, ◌++◌, length,
  get_or, ltb, ◌==◌, ◌||◌, if◌then◌else◌,
}

-- SMADetector::Reply::State.
pub data State : Type 0 where
  read_device_class read_device_type read_serial_number read_software_version : State
  read_max_power read_power_limit : State

-- The parts of a version text; a letter is its code.
pub data Part : Type 0 where
  number letter : ℕ → Part

-- The fields of DeviceInfo that the detector sets. `device_type` is `none` for -1, and
-- `is_pv_inverter` says that productId is VE_PROD_ID_PV_INVERTER_SMA, and not 0.
pub record DeviceInfo : Type 0 where
  pub network_id : ℕ
  pub device_type : Option ℕ
  pub product_name : String
  pub phase_count : ℕ
  pub over_sma : Bool
  pub is_pv_inverter : Bool
  pub serial_number : ℕ
  pub firmware_version : List Part
  pub storage_capacity : ℕ
  pub max_power : ℕ
  pub power_limit_scale : ℕ

pub data Action : Type 0 where
  reads : (unit start count : ℕ) → Action
  device_found : DeviceInfo → Action
  finished : Action

-- `outstanding` counts the requests in mModbusReplyToReply, and `live` says that the client is in
-- mClientToReply.
pub record Detection : Type 0 where
  pub di : DeviceInfo
  pub state : State
  pub current_register : ℕ
  pub outstanding : ℕ
  pub live : Bool
  pub log : List Action

unfoldable pub bcd_to_byte : ℕ → ℕ
bcd_to_byte bcd = (bcd % 16 + bcd / 16 * 10) % 256

unfoldable pub start_next_read_request : ℕ → Detection → Detection
start_next_read_request count d = record d {
  outstanding = d.outstanding + 1;
  log = d.log ++ reads d.di.network_id d.current_register count ∷ [];
}

unfoldable pub set_done : Detection → Detection
set_done d = if d.live then record d { live = false; log = d.log ++ finished ∷ [] } else d

unfoldable pub set_result : Detection → Detection
set_result d = record d { log = d.log ++ device_found d.di ∷ [] }

-- The end of a case that goes on: the next register and the next state.
unfoldable pub go_on : ℕ → State → Detection → Detection
unfolding start_next_read_request
go_on register state d =
    start_next_read_request 2 (record d { current_register = register; state = state })

-- `(values[0] << 16) | values[1]`, the bits being apart.
abbrev pub uint32_of : List ℕ → ℕ
uint32_of values = get_or values 0 0 * 65536 + get_or values 1 0

unfoldable pub device_class_case : List ℕ → Detection → Detection
unfolding set_done go_on
device_class_case values d =
    if uint32_of values == 8001 then go_on 30053 read_device_type d else set_done d

-- The texts of the switch over the models, none for its default.
unfoldable pub model_name : ℕ → Option String
model_name model =
    if model == 9074
    then some "SMA SunnyBoy 3000TL-21"
    else if model == 9075
    then some "SMA SunnyBoy 4000TL-21"
    else if model == 9076
    then some "SMA SunnyBoy 5000TL-21"
    else if model == 9165
    then some "SMA SunnyBoy 3600TL-21"
    else none

unfoldable pub name_device : ℕ → Option String → Detection → Detection
unfolding set_done go_on
name_device model (some name) d = go_on 30057 read_serial_number (record d {
  di = record (d.di) {
    device_type = some model;
    phase_count = 1;
    over_sma = true;
    is_pv_inverter = true;
    product_name = name;
  };
})
name_device model none d = set_done (record d {
  di = record (d.di) {
    device_type = none;
    phase_count = 0;
    over_sma = true;
    is_pv_inverter = false;
  };
})

unfoldable pub device_type_case : List ℕ → Detection → Detection
unfolding name_device model_name
device_type_case values d = name_device (uint32_of values) (model_name (uint32_of values)) d

unfoldable pub serial_number_case : List ℕ → Detection → Detection
unfolding go_on
serial_number_case values d = go_on 30059 read_software_version (record d {
  di = record (d.di) {
    serial_number = uint32_of values;
    firmware_version = number 1 ∷ number 0 ∷ number 4 ∷ [];
    storage_capacity = 0;
  };
})

-- The letters N, E, A, B, R, S by their index.
unfoldable pub release_type : ℕ → Part
release_type extra =
    if ltb extra 6 then letter (get_or (78 ∷ 69 ∷ 65 ∷ 66 ∷ 82 ∷ 83 ∷ []) extra 0) else number extra

unfoldable pub software_version_case : List ℕ → Detection → Detection
unfolding go_on bcd_to_byte release_type
software_version_case values d = go_on 30231 read_max_power (record d {
  di = record (d.di) {
    firmware_version =
        number (bcd_to_byte (get_or values 0 0 / 256 % 256))
        ∷ number (bcd_to_byte (get_or values 0 0 % 256))
        ∷ number (bcd_to_byte (get_or values 1 0 / 256 % 256))
        ∷ release_type (bcd_to_byte (get_or values 1 0 % 256))
        ∷ [];
  };
})

unfoldable pub max_power_case : List ℕ → Detection → Detection
unfolding go_on
max_power_case values d =
    go_on 30837 read_power_limit (record d { di = record (d.di) { max_power = get_or values 1 0 } })

unfoldable pub power_limit_case : List ℕ → Detection → Detection
unfolding set_done set_result
power_limit_case values d =
    set_done
      (set_result (record d { di = record (d.di) { power_limit_scale = get_or values 1 0 } }))

-- The switch of onFinished on at least two registers.
unfoldable pub on_values : State → List ℕ → Detection → Detection
unfolding device_class_case device_type_case serial_number_case software_version_case max_power_case
    power_limit_case
on_values read_device_class = device_class_case
on_values read_device_type = device_type_case
on_values read_serial_number = serial_number_case
on_values read_software_version = software_version_case
on_values read_max_power = max_power_case
on_values read_power_limit = power_limit_case
