-- ===== src/SmaDetector/Runs.antt =====
-- sma_detector.cpp: the slots of the detector, and histories of their calls.
use dbus_fronius.Base.{ℕ, ◌-◌, true, false, some, List, [], ◌∷◌, length, ltb, ◌&&◌, if◌then◌else◌}
use dbus_fronius.SmaDetector.{
  read_device_class, Detection, start_next_read_request, set_done, on_values,
}

-- `start` with the unit number of the settings.
unfoldable pub start : ℕ → Detection
start unit = record {
  di = record {
    network_id = unit;
    device_type = some 0;
    product_name = "";
    phase_count = 0;
    over_sma = false;
    is_pv_inverter = false;
    serial_number = 0;
    firmware_version = [];
    storage_capacity = 0;
    max_power = 0;
    power_limit_scale = 0;
  };
  state = read_device_class;
  current_register = 0;
  outstanding = 0;
  live = true;
  log = [];
}

-- The client is deleted when the detection is done, and announces its connection before.
unfoldable pub on_connected : Detection → Detection
unfolding start_next_read_request
on_connected d =
    if d.live
    then start_next_read_request 2
        (record d { state = read_device_class; current_register = 30051 })
    else d

unfoldable pub on_disconnected : Detection → Detection
unfolding set_done
on_disconnected d = if d.live then set_done d else d

-- `values` are the registers of the reply, none after an error. All cases begin with the test of
-- their number.
unfoldable pub on_finished : List ℕ → Detection → Detection
unfolding on_values set_done
on_finished values d =
    let d' = record d { outstanding = d.outstanding - 1 } in
    if ltb (length values) 2 then set_done d' else on_values d.state values d'

-- A reply finishes only if it was requested. It is a child of the client, which is deleted with it
-- when the detection is done.
pub data Event : Type 0 where
  connected disconnected : Event
  answered : List ℕ → Event

unfoldable pub handle : Event → Detection → Detection
unfolding on_connected on_disconnected on_finished
handle connected d = on_connected d
handle disconnected d = on_disconnected d
handle (answered values) d = if d.live && ltb 0 d.outstanding then on_finished values d else d

unfoldable pub run : List Event → Detection → Detection
unfolding handle
run [] d = d
run (e ∷ es) d = run es (handle e d)
