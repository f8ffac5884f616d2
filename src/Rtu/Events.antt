-- ===== src/Rtu/Events.antt =====
-- modbus_rtu_client.cpp: the requests, the timer and the constructor's state, and histories of what
-- happens to the client.
use dbus_fronius.Base.{
  ℕ, suc, true, false, Option, none, some, List, [], ◌∷◌, ◌++◌, ◌==◌, if◌then◌else◌,
}
use dbus_fronius.Crc.{reset}
use dbus_fronius.Tcp.{
  no_exception, timeout_error, read_holding, read_input, write_single, write_multiple,
}
use dbus_fronius.Rtu.{
  Reply, set_error, idle, is_idle, serial_error, Client, reset_state_engine, send, process_pending,
  resolve,
}
use dbus_fronius.Rtu.Reading.{on_ready_read}

-- The constructor of the client, where `heap` is the memory in which replies will be made.
unfoldable pub new_client : (ℕ → Reply) → Client
new_client heap = record {
  active_reply = none;
  pending_commands = [];
  state = idle;
  function = 0;
  count = 0;
  unit_id = 0;
  start_address = 0;
  crc = 0;
  crc_builder = reset;
  add_to_crc = true;
  bytes = [];
  timer = false;
  interval = 1000;
  heap = heap;
  allocated = 0;
  sent = [];
  announced = [];
  events = [];
}

abbrev pub new_reply : ℕ → ℕ → ℕ → ℕ → List ℕ → Reply
new_reply function unit reg count values = record {
  function = function;
  slave_address = unit;
  reg = reg;
  count = count;
  values = values;
  finished = false;
  registers = [];
  error = no_exception;
}

-- A new reply and its `send`.
unfoldable pub submit : Reply → Client → Client
unfolding send
submit r c =
    let p = c.allocated in
    send p (record c { heap = λ q. if q == p then r else c.heap q; allocated = suc p })

unfoldable pub read_registers : ℕ → ℕ → ℕ → ℕ → Client → Client
unfolding submit
read_registers function unit start count = submit (new_reply function unit start count [])

unfoldable pub read_holding_registers : ℕ → ℕ → ℕ → Client → Client
unfolding read_registers
read_holding_registers = read_registers read_holding

unfoldable pub read_input_registers : ℕ → ℕ → ℕ → Client → Client
unfolding read_registers
read_input_registers = read_registers read_input

unfoldable pub write_single_holding_register : ℕ → ℕ → ℕ → Client → Client
unfolding submit
write_single_holding_register unit reg value =
    submit (new_reply write_single unit reg 0 (value ∷ []))

unfoldable pub write_multiple_holding_registers : ℕ → ℕ → List ℕ → Client → Client
unfolding submit
write_multiple_holding_registers unit start values =
    submit (new_reply write_multiple unit start 0 values)

unfoldable pub time_out : Option ℕ → Client → Client
time_out none c = c
time_out (some p) c =
    process_pending (reset_state_engine true (resolve (λ r. set_error r timeout_error) p c))

-- The timer is a single shot: it does not run any more when its slot is called.
unfoldable pub on_timeout : Client → Client
unfolding time_out
on_timeout c =
    let c' = record c { timer = false } in
    if is_idle c.state then c' else time_out c.active_reply c'

unfoldable pub on_error : Client → Client
on_error c = record c { events = c.events ++ serial_error ∷ [] }

unfoldable pub set_timeout : ℕ → Client → Client
set_timeout t c = record c { interval = t }

-- What happens to a client: a caller's requests and settings, the timer, and the serial line.
pub data Event : Type 0 where
  holding_wanted input_wanted single_wanted : (unit reg value : ℕ) → Event
  multiple_wanted : (unit start : ℕ) → List ℕ → Event
  timed_out failed : Event
  timeout_set : ℕ → Event
  ready : List (Option (List ℕ)) → Event

unfoldable pub handle : Event → Client → Client
handle (holding_wanted unit reg value) = read_holding_registers unit reg value
handle (input_wanted unit reg value) = read_input_registers unit reg value
handle (single_wanted unit reg value) = write_single_holding_register unit reg value
handle (multiple_wanted unit start values) = write_multiple_holding_registers unit start values
handle timed_out = on_timeout
handle failed = on_error
handle (timeout_set t) = set_timeout t
handle (ready reads) = on_ready_read reads

unfoldable pub run : List Event → Client → Client
run [] c = c
run (e ∷ es) c = run es (handle e c)
