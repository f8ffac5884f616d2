-- ===== src/SolarApi/Client.antt =====
-- froniussolar_api.cpp: one request at a time over the HTTP client. The client is not part of the
-- state: what it is asked is logged, the newest last. Its signal done is an event, and abort, as the
-- destruction of a client does, emits it with an error if a request is pending. Q_ASSERT is taken as
-- in a release build, where it does nothing.
use Prim.Native.String.{String}
use dbus_fronius.Base.{
  ℕ, Bool, true, false, ◌==◌, Option, none, some, List, [], ◌∷◌, ◌++◌, if◌then◌else◌,
}
use dbus_fronius.SolarApi.{
  Json, InverterListData, CommonInverterData, ThreePhasesInverterData, DeviceInfoData,
  process_converter_info, process_common_data, process_three_phases_data, process_device_info,
  same_text, is_empty,
}

-- The texts of mRequestType.
pub data RequestType : Type 0 where
  get_inverter_info get_common_data get_three_phases_inverter_data get_device_info : RequestType

-- Calls of the HTTP client: a request with the device in its address, the end of the connection and
-- a new client.
pub data Call : Type 0 where
  gets : RequestType → Option ℕ → Call
  closes : Call
  connects : String → ℕ → Call

-- `request_type` is none for an empty text.
pub record FroniusSolarApi : Type 0 where
  pub host_name : String
  pub port : ℕ
  pub request_type : Option RequestType
  pub timer_running : Bool
  pub calls : List Call

pub data Signal (D : Type 0) : Type 0 where
  converter_info_found : InverterListData → Signal D
  common_data_found : CommonInverterData D → Signal D
  three_phases_data_found : ThreePhasesInverterData D → Signal D
  device_info_found : DeviceInfoData → Signal D

abbrev pub call : Call → FroniusSolarApi → FroniusSolarApi
call c a = record a { calls = a.calls ++ c ∷ [] }

unfoldable pub new_api : String → ℕ → FroniusSolarApi
new_api host port = record {
  host_name = host;
  port = port;
  request_type = none;
  timer_running = false;
  calls = connects host port ∷ [];
}

unfoldable pub send_get_request : RequestType → Option ℕ → FroniusSolarApi → FroniusSolarApi
send_get_request id device a = record (call (gets id device) a) {
  request_type = some id;
  timer_running = true;
}

unfoldable pub get_converter_info_async : FroniusSolarApi → FroniusSolarApi
unfolding send_get_request
get_converter_info_async a = send_get_request get_inverter_info none a

unfoldable pub get_common_data_async : ℕ → FroniusSolarApi → FroniusSolarApi
unfolding send_get_request
get_common_data_async device a = send_get_request get_common_data (some device) a

unfoldable pub get_three_phases_inverter_data_async : ℕ → FroniusSolarApi → FroniusSolarApi
unfolding send_get_request
get_three_phases_inverter_data_async device a =
    send_get_request get_three_phases_inverter_data (some device) a

unfoldable pub get_device_info_async : FroniusSolarApi → FroniusSolarApi
unfolding send_get_request
get_device_info_async a = send_get_request get_device_info none a

-- What processReply does to the client.
unfoldable pub end_request : String → FroniusSolarApi → FroniusSolarApi
end_request network_error a =
    let a' = record a { request_type = none; timer_running = false } in
    if is_empty network_error then call closes a' else a'

module _ {V D : Type 0} (q : Json V D) where
  abbrev pub signal_of : RequestType → String → String → Signal D
  signal_of get_inverter_info e r = converter_info_found (process_converter_info q e r)
  signal_of get_common_data e r = common_data_found (process_common_data q e r)
  signal_of get_three_phases_inverter_data e r =
      three_phases_data_found (process_three_phases_data q e r)
  signal_of get_device_info e r = device_info_found (process_device_info q e r)

  abbrev pub process_request_for :
      Option RequestType → String → String → FroniusSolarApi → FroniusSolarApi × Option (Signal D)
  process_request_for none e r a = (a, none)
  process_request_for (some type) e r a = (end_request e a, some (signal_of type e r))

  -- processRequest, with the signal that is emitted.
  unfoldable pub process_request :
      String → String → FroniusSolarApi → FroniusSolarApi × Option (Signal D)
  process_request network_error result a = process_request_for a.request_type network_error result a

  -- onDone, for the client's error text and for the answer's.
  unfoldable pub on_done :
      Bool → String → String → FroniusSolarApi → FroniusSolarApi × Option (Signal D)
  unfolding process_request
  on_done error error_string result a =
      process_request (if error then error_string else "") result a

  -- onTimeout, and the destruction of a client. With no request, the signal done has no effect.
  unfoldable pub abort : String → FroniusSolarApi → FroniusSolarApi × Option (Signal D)
  unfolding on_done
  abort error_string a = on_done true error_string "" a

  -- updateHttpClient.
  unfoldable pub update_http_client : String → FroniusSolarApi → FroniusSolarApi × Option (Signal D)
  unfolding abort
  update_http_client error_string a =
      let (a', s) = abort error_string a in (call (connects a.host_name a.port) a', s)

  unfoldable pub set_host_name :
      String → String → FroniusSolarApi → FroniusSolarApi × Option (Signal D)
  unfolding update_http_client
  set_host_name error_string h a =
      if same_text a.host_name h
      then (a, none)
      else update_http_client error_string (record a { host_name = h })

  unfoldable pub set_port : String → ℕ → FroniusSolarApi → FroniusSolarApi × Option (Signal D)
  unfolding update_http_client
  set_port error_string p a =
      if a.port == p then (a, none) else update_http_client error_string (record a { port = p })
