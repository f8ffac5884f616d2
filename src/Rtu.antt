-- ===== src/Rtu.antt =====
-- software/src/modbus_tcp_client/modbus_rtu_client.cpp: the asynchronous client of Modbus RTU over a
-- serial line, and `setResult` of modbus_reply.cpp as it acts on its replies. A `Reply *` is a
-- number into the heap of replies; the frames that are put on the line, the replies that announced
-- their result and the serial events are logged, the newest last. Q_ASSERT is taken as in a release
-- build, where it does nothing. A request that a slot of `finished` makes is one made right after:
-- it finds the client busy, and is queued behind all others before the next one is sent.
pub mod Reading
pub mod Events
pub mod Core
pub mod Bytes
pub mod Numbers
pub mod Steps
pub mod Queue
pub mod Progress
pub mod Packets
pub mod Answers
pub mod Noise
pub mod Frames
mod Tests
use dbus_fronius.Base.{
  ℕ, suc, ◌+◌, ◌*◌, Bool, true, false, Option, none, some, List, [], ◌∷◌, ◌++◌, length, get_or,
  ◌==◌, ◌||◌, if◌then◌else◌,
}
use dbus_fronius.Crc.{Crc16, reset, msb, lsb, crc_of_bytes}
use dbus_fronius.Tcp.{no_exception, read_holding, read_input, write_single}

-- ModbusRtuClient::Reply. `values` are those to write.
pub record Reply : Type 0 where
  pub function : ℕ
  pub slave_address : ℕ
  pub reg : ℕ
  pub count : ℕ
  pub values : List ℕ
  pub finished : Bool
  pub registers : List ℕ
  pub error : ℕ

unfoldable pub set_registers : Reply → List ℕ → Reply
set_registers r values =
    if r.finished then r else record r { registers = values; error = no_exception; finished = true }

unfoldable pub set_error : Reply → ℕ → Reply
set_error r e = if r.finished then r else record r { error = e; finished = true }

pub data ReadState : Type 0 where
  idle address function_code byte_count start_address_msb start_address_lsb payload : ReadState
  crc_msb crc_lsb : ReadState

abbrev pub is_idle : ReadState → Bool
is_idle idle = true
is_idle _ = false

-- The messages of serialEvent.
pub data SerialEvent : Type 0 where
  read_failure read_nothing serial_error : SerialEvent

-- `timer` says that mTimer runs, `interval` is its interval; `bytes` is mData.
pub record Client : Type 0 where
  pub active_reply : Option ℕ
  pub pending_commands : List ℕ
  pub state : ReadState
  pub function : ℕ
  pub count : ℕ
  pub unit_id : ℕ
  pub start_address : ℕ
  pub crc : ℕ
  pub crc_builder : Crc16
  pub add_to_crc : Bool
  pub bytes : List ℕ
  pub timer : Bool
  pub interval : ℕ
  pub heap : ℕ → Reply
  pub allocated : ℕ
  pub sent : List (List ℕ)
  pub announced : List ℕ
  pub events : List SerialEvent

unfoldable pub reset_state_engine : Bool → Client → Client
reset_state_engine to_idle c = record c {
  state = if to_idle then idle else address;
  crc_builder = reset;
  add_to_crc = true;
  bytes = [];
  timer = if to_idle then false else c.timer;
}

abbrev word : ℕ → List ℕ
word d = msb d ∷ lsb d ∷ []

-- The switch of `send`. The functions of the replies are four, and the last is the write of several
-- registers.
unfoldable pub request_bytes : Reply → List ℕ
request_bytes r =
    let n = length r.values in
    r.slave_address ∷ r.function ∷ word r.reg
    ++ (if r.function == read_holding || r.function == read_input
        then word r.count
        else if r.function == write_single
        then word (get_or r.values 0 0)
        else word n ++ word (2 * n))

-- The frame with its CRC.
unfoldable pub request_frame : Reply → List ℕ
unfolding request_bytes
request_frame r = request_bytes r ++ word (crc_of_bytes (request_bytes r))

unfoldable pub send : ℕ → Client → Client
send p c =
    if is_idle c.state
    then record c {
      active_reply = some p;
      sent = c.sent ++ request_frame (c.heap p) ∷ [];
      timer = true;
      state = address;
    }
    else record c { pending_commands = c.pending_commands ++ p ∷ [] }

-- The first of the queue, if there is one, becomes the active reply.
unfoldable pub send_first : List ℕ → Client → Client
unfolding send
send_first [] c = record c { active_reply = none }
send_first (p ∷ ps) c = send p (record c { pending_commands = ps })

unfoldable pub process_pending : Client → Client
unfolding send_first
process_pending c = send_first c.pending_commands c

-- setResult through a `Reply *`; a result that arrives first emits `finished`.
unfoldable pub resolve : (Reply → Reply) → ℕ → Client → Client
resolve f p c = record c {
  heap = λ q. if q == p then f (c.heap p) else c.heap q;
  announced = if (c.heap p).finished then c.announced else c.announced ++ p ∷ [];
}
