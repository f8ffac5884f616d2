-- ===== src/Sma.antt =====
-- software/src/sma_inverter.cpp and the state of software/src/sma_updater.cpp: what is known of an
-- SMA inverter, and the requests that the updater makes. Measured values are kept in the unit of
-- their register (mA, 1/100 V, 1/100 Hz, 1/10 degree, W, Wh), which the source divides into a
-- double; the mean DC voltage is in 1/200 V. A limit is any double, as the D-Bus delivers it.
use dbus_fronius.Base.{
  ℕ, ◌%◌, Bool, true, false, ◌&&◌, ◌||◌, Option, some, none, List, [], ◌∷◌, ◌++◌, ltb, ◌==◌,
  if◌then◌else◌,
}
pub mod Cases
pub mod Handlers
pub mod ReportOnly
pub mod Faults
pub mod Limit
pub mod Words
pub mod Cycle
mod Tests

-- OperatingState_t, OperatingCondition_t, OperatingMode_t and StatusCode_t. The inverter's
-- registers are cast to these types, so any other number may stand there too.
abbrev pub os_mpp : ℕ
os_mpp = 295

abbrev pub os_fault : ℕ
os_fault = 1392

abbrev pub oc_fault : ℕ
oc_fault = 35

abbrev pub oc_ok : ℕ
oc_ok = 307

abbrev pub oc_warn : ℕ
oc_warn = 455

abbrev pub om_watt : ℕ
om_watt = 1077

abbrev pub sc_standby : ℕ
sc_standby = 8

abbrev pub sc_error : ℕ
sc_error = 10

abbrev pub sc_mppt : ℕ
sc_mppt = 11

abbrev pub sc_throttled : ℕ
sc_throttled = 12

pub record PvInfo : Type 0 where
  pub current : ℕ
  pub voltage : ℕ
  pub power : ℕ

-- `status` and `error` are the cached mStatus and mError; `status_code` and `error_code` are what
-- the D-Bus shows.
pub record SmaInverter : Type 0 where
  pub grid_code : ℕ
  pub status : ℕ
  pub error : ℕ
  pub status_code : ℕ
  pub error_code : ℕ
  pub op_mode : ℕ
  pub op_condition : ℕ
  pub op_state : ℕ
  pub logged_in : Bool
  pub frequency : ℕ
  pub temperature : ℕ
  pub power_limit : ℕ
  pub pv_info1 : PvInfo
  pub pv_info2 : PvInfo

unfoldable pub set_status_code : ℕ → SmaInverter → SmaInverter
set_status_code code v = record v { status_code = code }

unfoldable pub set_error_code : ℕ → SmaInverter → SmaInverter
set_error_code code v = record v { error_code = code }

-- The D-Bus is written only if the cached value changes.
unfoldable pub set_status : ℕ → SmaInverter → SmaInverter
unfolding set_status_code
set_status code v =
    if v.status == code then v else set_status_code code (record v { status = code })

unfoldable pub set_error : ℕ → SmaInverter → SmaInverter
unfolding set_error_code
set_error code v = if v.error == code then v else set_error_code code (record v { error = code })

-- For these the cached value and the one on the D-Bus are one field.
unfoldable pub set_logged_on : Bool → SmaInverter → SmaInverter
set_logged_on status v = record v { logged_in = status }

unfoldable pub set_operating_state : ℕ → SmaInverter → SmaInverter
set_operating_state state v = record v { op_state = state }

unfoldable pub set_operating_condition : ℕ → SmaInverter → SmaInverter
set_operating_condition condition v = record v { op_condition = condition }

unfoldable pub set_operating_mode : ℕ → SmaInverter → SmaInverter
set_operating_mode mode v = record v { op_mode = mode }

-- ModbusState.
pub data ModbusState : Type 0 where
  check_condition check_state check_login do_login check_op_mode set_op_mode : ModbusState
  read_power_yield read_ac_frequency read_ac_current read_ac_power_and_voltage : ModbusState
  read_temperature read_pv_data1 read_pv_data2 read_power_limit write_power_limit : ModbusState
  error idle : ModbusState

-- The fields of CommonInverterData that the updater fills.
pub record InverterData : Type 0 where
  pub ac_frequency : ℕ
  pub ac_current : ℕ
  pub ac_power : ℕ
  pub ac_voltage : ℕ
  pub dc_current : ℕ
  pub dc_voltage : ℕ
  pub day_energy : ℕ
  pub total_energy : ℕ

-- A double: the sign, the whole part and the part below one, the latter in units of the smallest
-- double, or one of the values that are not finite. The sign of a zero stands too.
pub data Double : Type 0 where
  positive negative : (whole part : ℕ) → Double
  infinity minus_infinity nan : Double

-- `>` and `==` of a double and a whole number. A comparison with NaN is false.
abbrev pub exceeds : Double → ℕ → Bool
exceeds (positive whole part) n = ltb n whole || whole == n && ltb 0 part
exceeds infinity n = true
exceeds _ n = false

abbrev pub equals : Double → ℕ → Bool
equals (positive whole part) n = whole == n && part == 0
equals (negative whole part) n = whole == 0 && part == 0 && n == 0
equals _ n = false

-- The cast of a double to `quint16`: a double whose whole part fits is cut off to it. For any other
-- double C++ leaves the result open, so it is the value of an arbitrary function.
abbrev pub to_quint16 : (Double → ℕ) → Double → ℕ
to_quint16 undefined (positive whole part) =
    if ltb whole 65536 then whole else undefined (positive whole part) % 65536
to_quint16 undefined (negative whole part) =
    if whole == 0 then 0 else undefined (negative whole part) % 65536
to_quint16 undefined d = undefined d % 65536

-- What the updater does outside itself, oldest first.
pub data Action : Type 0 where
  reads : (start count : ℕ) → Action
  writes : (start : ℕ) → List ℕ → Action
  processes : InverterData → Action
  connection_lost reconnects : Action

-- `timer` is the interval of the running mTimer. `undefined_cast`, which no operation changes, is
-- what the compiled program makes of a cast that C++ leaves open.
pub record Updater : Type 0 where
  pub max_power : ℕ
  pub undefined_cast : Double → ℕ
  pub inverter : SmaInverter
  pub inverter_data : InverterData
  pub current_state : ModbusState
  pub power_limit_watt : Double
  pub retry_count : ℕ
  pub write_count : ℕ
  pub write_power_limit_requested : Bool
  pub timer : Option ℕ
  pub log : List Action
