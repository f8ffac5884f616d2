-- ===== src/SolarApi.antt =====
-- software/src/froniussolar_api.h and froniussolar_api.cpp: the Fronius Solar API, with JSON over
-- HTTP, as its answers are read. QVariant and the JSON parser are parameters. A path is the list of
-- its parts between the slashes, and an `int` is its 32-bit pattern.
pub mod Client
pub mod Updater
pub mod Pending
pub mod Polling
pub mod Resume
pub mod Losses
pub mod Failures
mod Tests
use Prim.Native.String.{String}
use text.Mathlib.Text.{is_eq}
use Prim.Native.String.{compare}
use dbus_fronius.Base.{
  ℕ, zero, suc, Bool, true, false, ◌||◌, Option, none, some, List, [], ◌∷◌, insert, if◌then◌else◌,
}

abbrev pub same_text : String → String → Bool
same_text s t = is_eq (compare s t)

abbrev pub is_empty : String → Bool
is_empty s = same_text s ""

-- What the code asks of QVariant (a QVariantMap is the list of its entries, in the order of the
-- keys), of QString and of the JSON parser. `to_int` of the invalid variant is 0.
pub record Json (V D : Type 0) : Type 0 where
  pub invalid : V
  pub to_map : V → List (String × V)
  pub to_int : V → ℕ
  pub to_string : V → String
  pub to_double : V → D
  pub key_to_int : String → ℕ
  pub parse : String → V

-- SolarApiReply::Error.
pub data Error : Type 0 where
  no_error network_error api_error : Error

pub record SolarApiReply : Type 0 where
  pub error : Error
  pub error_message : String

pub record InverterInfo : Type 0 where
  pub id : ℕ
  pub unique_id : String
  pub custom_name : String
  pub device_type : ℕ
  pub error_code : ℕ
  pub status_code : ℕ

pub record InverterListData : Type 0 where
  pub reply : SolarApiReply
  pub inverters : List InverterInfo

pub record CommonInverterData (D : Type 0) : Type 0 where
  pub reply : SolarApiReply
  pub device_id : String
  pub ac_power : D
  pub ac_current : D
  pub ac_voltage : D
  pub ac_frequency : D
  pub dc_current : D
  pub dc_voltage : D
  pub day_energy : D
  pub year_energy : D
  pub total_energy : D
  pub status_code : ℕ
  pub error_code : ℕ

pub record ThreePhasesInverterData (D : Type 0) : Type 0 where
  pub reply : SolarApiReply
  pub device_id : String
  pub ac_current_phase1 : D
  pub ac_voltage_phase1 : D
  pub ac_current_phase2 : D
  pub ac_voltage_phase2 : D
  pub ac_current_phase3 : D
  pub ac_voltage_phase3 : D

pub record DeviceInfoData : Type 0 where
  pub reply : SolarApiReply
  pub serial_info : List (ℕ × String)

-- `value` of a QMap, with what it holds under a key.
unfoldable pub find_key {ℓ} : {V : Type ℓ} → String → List (String × V) → Option V
find_key k [] = none
find_key k ((j, v) ∷ m) = if same_text j k then some v else find_key k m

abbrev pub or_else {ℓ} : {V : Type ℓ} → V → Option V → V
or_else d none = d
or_else d (some v) = v

abbrev pub no_reason : String
no_reason =
    "Reply message has no status (we're probably talking to a device that does not support the Fronius Solar API)"

module _ {V D : Type 0} (q : Json V D) where
  -- `m[k]` of a QVariantMap.
  abbrev pub at_key : String → List (String × V) → V
  at_key k m = or_else q.invalid (find_key k m)

  unfoldable pub get_by_path : V → List String → V
  get_by_path m [] = m
  get_by_path m (k ∷ path) = get_by_path (at_key k (q.to_map m)) path

  -- `map`, which stays empty if there is no text.
  abbrev pub parsed : String → V
  parsed result = if is_empty result then q.invalid else q.parse result

  abbrev pub status_reply : List (String × V) → ℕ → SolarApiReply
  status_reply status zero = record { error = no_error; error_message = "" }
  status_reply status (suc code) = record {
    error = api_error;
    error_message = q.to_string (at_key "Reason" status);
  }

  abbrev pub code_reply : List (String × V) → Option V → SolarApiReply
  code_reply status none = record { error = network_error; error_message = no_reason }
  code_reply status (some code) = status_reply status (q.to_int code)

  -- What processReply puts in `apiReply`, of an answer without network error.
  unfoldable pub answer_reply : V → SolarApiReply
  answer_reply map =
      let status = q.to_map (get_by_path map ("Head" ∷ "Status" ∷ [])) in
      code_reply status (find_key "Code" status)

  -- processReply: `apiReply` and `map`, for the texts of the network error and of the answer.
  unfoldable pub process_reply : String → String → SolarApiReply × V
  process_reply failure result =
      if is_empty failure
      then (answer_reply (parsed result), parsed result)
      else (record { error = Error.network_error; error_message = failure }, q.invalid)

  abbrev pub inverter_of : String × V → InverterInfo
  inverter_of (key, value) =
      let di = q.to_map value in
      record {
        id = q.key_to_int key;
        unique_id = q.to_string (at_key "UniqueID" di);
        custom_name = q.to_string (at_key "CustomName" di);
        device_type = q.to_int (at_key "DT" di);
        error_code = q.to_int (at_key "ErrorCode" di);
        status_code = q.to_int (at_key "StatusCode" di);
      }

  abbrev pub body : V → V
  body map = get_by_path map ("Body" ∷ "Data" ∷ [])

  unfoldable pub inverters_of : List (String × V) → List InverterInfo
  inverters_of [] = []
  inverters_of (e ∷ devices) = inverter_of e ∷ inverters_of devices

  unfoldable pub process_converter_info : String → String → InverterListData
  process_converter_info failure result =
      let (reply, map) = process_reply failure result in
      record { reply = reply; inverters = inverters_of (q.to_map (body map)) }

  -- The number under a name of the answer, and its code under a name of the device's status.
  abbrev pub value_of : V → String → D
  value_of d name = q.to_double (get_by_path d (name ∷ "Value" ∷ []))

  abbrev pub status_of : V → String → ℕ
  status_of d name = q.to_int (get_by_path d ("DeviceStatus" ∷ name ∷ []))

  abbrev pub device_of : V → String
  device_of map = q.to_string (get_by_path map ("Head" ∷ "RequestArguments" ∷ "DeviceId" ∷ []))

  unfoldable pub process_common_data : String → String → CommonInverterData D
  process_common_data failure result =
      let (reply, map) = process_reply failure result in
      let d = body map in
      record {
        reply = reply;
        device_id = device_of map;
        ac_power = value_of d "PAC";
        ac_current = value_of d "IAC";
        ac_voltage = value_of d "UAC";
        ac_frequency = value_of d "FAC";
        dc_current = value_of d "IDC";
        dc_voltage = value_of d "UDC";
        day_energy = value_of d "DAY_ENERGY";
        year_energy = value_of d "YEAR_ENERGY";
        total_energy = value_of d "TOTAL_ENERGY";
        status_code = status_of d "StatusCode";
        error_code = status_of d "ErrorCode";
      }

  unfoldable pub process_three_phases_data : String → String → ThreePhasesInverterData D
  process_three_phases_data failure result =
      let (reply, map) = process_reply failure result in
      let d = body map in
      record {
        reply = reply;
        device_id = device_of map;
        ac_current_phase1 = value_of d "IAC_L1";
        ac_voltage_phase1 = value_of d "UAC_L1";
        ac_current_phase2 = value_of d "IAC_L2";
        ac_voltage_phase2 = value_of d "UAC_L2";
        ac_current_phase3 = value_of d "IAC_L3";
        ac_voltage_phase3 = value_of d "UAC_L3";
      }

  -- The loop that fills serialInfo.
  unfoldable pub serials_of : List (String × V) → List (ℕ × String) → List (ℕ × String)
  unfolding insert
  serials_of [] serials = serials
  serials_of ((key, value) ∷ devices) serials =
      serials_of devices
        (insert (q.key_to_int key) (q.to_string (at_key "Serial" (q.to_map value))) serials)

  unfoldable pub process_device_info : String → String → DeviceInfoData
  process_device_info failure result =
      let (reply, map) = process_reply failure result in
      record { reply = reply; serial_info = serials_of (q.to_map (body map)) [] }
