-- ===== src/SunspecDetector/Events.antt =====
-- sunspec_detector.cpp: the contents of a model, the slots, and histories of their calls.
use dbus_fronius.Base.{
  ℕ, true, false, none, some, List, [], ◌∷◌, ◌++◌, length, get_or, ltb, ◌==◌, if◌then◌else◌,
}
use dbus_fronius.SunspecTools.{get_scale, get_scaled_value, get_string, scaled, pos}
use dbus_fronius.SunspecDetector.{
  State, sunspec_header, module_header, module_content, Product, no_product, fronius, sma, abb,
  sunspec, DeviceInfo, Detection, start_next_request, set_done, next_header, same_text,
  fronius_text, sma_text, abb_text, sunspec_header_case, module_header_case,
}

abbrev product_of : List ℕ → Product
product_of manufacturer =
    if same_text manufacturer fronius_text
    then fronius
    else if same_text manufacturer abb_text
    then abb
    else sunspec

-- The common model of another manufacturer than SMA. Fronius uses the options for the version of
-- its data manager.
unfoldable pub identify : List ℕ → DeviceInfo → DeviceInfo
unfolding get_string
identify values di =
    let manufacturer = get_string values 2 16 in
    record di {
      product_id = product_of manufacturer;
      product_name = manufacturer ++ 32 ∷ get_string values 18 16;
      data_manager_version =
          if same_text manufacturer fronius_text
          then get_string values 34 8
          else di.data_manager_version;
      firmware_version = get_string values 42 8;
      serial_number = get_string values 50 16;
    }

-- The register after the first one is read if there is only one, too: such an answer gives 0 here.
abbrev size_of : List ℕ → ℕ
size_of values = get_or values 1 0

unfoldable pub common_model_case : List ℕ → Detection → Detection
unfolding identify get_string next_header set_done
common_model_case values d =
    if length values == 66
    then if same_text (get_string values 2 16) sma_text
      then set_done (record d { di = record (d.di) { product_id = sma } })
      else next_header (size_of values) (record d { di = identify values d.di })
    else next_header (size_of values) d

unfoldable pub nameplate_case : List ℕ → DeviceInfo → DeviceInfo
unfolding get_scaled_value
nameplate_case values di = record di {
  max_power = if ltb 4 (length values) then get_scaled_value values 3 1 4 false else di.max_power;
  storage_capacity =
      if ltb 22 (length values) then get_scaled_value values 21 1 22 false else di.storage_capacity;
}

unfoldable pub controls_case : List ℕ → DeviceInfo → DeviceInfo
unfolding get_scale
controls_case values di = record di {
  power_limit_exponent =
      if ltb 23 (length values) then some (get_scale values 23) else di.power_limit_exponent;
}

-- The case ModuleContent.
unfoldable pub module_content_case : List ℕ → Detection → Detection
unfolding common_model_case nameplate_case controls_case next_header set_done
module_content_case values d =
    if ltb (length values) 1
    then set_done d
    else if get_or values 0 0 == 1
    then common_model_case values (record d { state = module_header })
    else if get_or values 0 0 == 120
    then next_header (size_of values) (record d { di = nameplate_case values d.di })
    else if get_or values 0 0 == 123
    then next_header (size_of values) (record d { di = controls_case values d.di })
    else next_header (size_of values) d

unfoldable pub dispatch : State → List ℕ → Detection → Detection
unfolding sunspec_header_case module_header_case module_content_case
dispatch sunspec_header = sunspec_header_case
dispatch module_header = module_header_case
dispatch module_content = module_content_case

-- `values` are the registers of the reply, none after an error.
unfoldable pub on_finished : List ℕ → Detection → Detection
unfolding dispatch
on_finished values d = dispatch d.state values d

-- `start` with the unit number that was set.
unfoldable pub start : ℕ → Detection
start unit = record {
  di = record {
    network_id = unit;
    over_float = false;
    over_int = false;
    phase_count = 0;
    inverter_model_offset = 0;
    name_plate_model_offset = 0;
    immediate_control_offset = 0;
    product_id = no_product;
    product_name = [];
    data_manager_version = [];
    firmware_version = [];
    serial_number = [];
    max_power = scaled (pos 0) (pos 0);
    storage_capacity = scaled (pos 0) (pos 0);
    power_limit_exponent = none;
  };
  state = sunspec_header;
  current_register = 0;
  live = true;
  log = [];
}

unfoldable pub on_connected : Detection → Detection
unfolding start_next_request
on_connected d =
    start_next_request 2 (record d { state = sunspec_header; current_register = 40000 })

unfoldable pub on_disconnected : Detection → Detection
unfolding set_done
on_disconnected d = if d.live then set_done d else d

-- The client and its replies are deleted when the detection is done. As the client connects once
-- and each answer leads to one request at most, every answer is one that was asked for.
pub data Event : Type 0 where
  connected disconnected : Event
  answered : List ℕ → Event

unfoldable pub handle : Event → Detection → Detection
unfolding on_connected on_disconnected on_finished
handle connected d = if d.live then on_connected d else d
handle disconnected d = on_disconnected d
handle (answered values) d = if d.live then on_finished values d else d

unfoldable pub run : List Event → Detection → Detection
unfolding handle
run [] d = d
run (e ∷ es) d = run es (handle e d)
