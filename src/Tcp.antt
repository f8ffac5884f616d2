-- ===== src/Tcp.antt =====
-- software/src/modbus_tcp_client/modbus_tcp_client.cpp and modbus_reply.cpp: the asynchronous
-- Modbus TCP client. A `Reply *` is a number into the heap of replies; what the client writes to
-- the socket and the signals that it emits are logged, the newest last.
pub mod Requests
pub mod Replies
pub mod Preservation
pub mod History
pub mod Exchange
pub mod Pending
pub mod Acknowledgement
pub mod Frames
pub mod Stream
pub mod Chunks
pub mod Loop
mod Tests
use dbus_fronius.Base.{
  ℕ, zero, suc, ◌+◌, Bool, false, not, ◌&&◌, ◌||◌, none, some, List, [], ◌∷◌, ◌++◌, length, get_or,
  drop, ltb, ◌==◌, if◌then◌else◌, lookup, erase,
}
use dbus_fronius.Crc.{to_uint16}

-- ModbusReply::ExceptionCode; an exception answer may carry any byte.
abbrev pub no_exception : ℕ
no_exception = 0

abbrev pub parse_error : ℕ
parse_error = 253

abbrev pub timeout_error : ℕ
timeout_error = 254

abbrev pub tcp_error : ℕ
tcp_error = 255

-- FunctionCode, the codes that the client uses.
abbrev pub read_holding : ℕ
read_holding = 3

abbrev pub read_input : ℕ
read_input = 4

abbrev pub write_single : ℕ
write_single = 6

abbrev pub write_multiple : ℕ
write_multiple = 16

-- `timer` says that mTimerId is not 0.
pub record Reply : Type 0 where
  pub transaction_id : ℕ
  pub timer : Bool
  pub registers : List ℕ
  pub error : ℕ

abbrev pub is_finished : Reply → Bool
is_finished r = not r.timer

-- ModbusReply::setResult, both overloads; `onFinished` kills the timer.
unfoldable pub set_registers : Reply → List ℕ → Reply
set_registers r values =
    if is_finished r
    then r
    else record r { registers = values; error = no_exception; timer = false }

unfoldable pub set_error : Reply → ℕ → Reply
set_error r e = if is_finished r then r else record r { error = e; timer = false }

pub data Signal : Type 0 where
  connected disconnected : Signal
  finished : ℕ → Signal

pub record Client : Type 0 where
  pub next_transaction : ℕ
  pub timeout : ℕ
  pub connect_timer : Bool
  pub buffer : List ℕ
  pub pending : List (ℕ × ℕ)
  pub heap : ℕ → Reply
  pub allocated : ℕ
  pub sent : List (List ℕ)
  pub signals : List Signal

-- Writing through a `Reply *`; a result that arrives first emits `finished`.
unfoldable pub resolve : (Reply → Reply) → ℕ → Client → Client
resolve f p c = record c {
  heap = λ q. if q == p then f (c.heap p) else c.heap q;
  signals = if is_finished (c.heap p) then c.signals else c.signals ++ finished p ∷ [];
}

-- popReply followed by setResult.
unfoldable pub set_finished : ℕ → (Reply → Reply) → Client → Client
set_finished tid f c = elim (lookup tid c.pending) [
  | none ↦ c
  | some p ↦ resolve f p (record c { pending = erase tid c.pending })
]

-- The loop over the payload: a register for each two bytes from the ninth on. A read behind the end
-- of the buffer gives 0.
unfoldable pub payload_values : ℕ → List ℕ → List ℕ
payload_values zero bytes = []
payload_values (suc zero) bytes = to_uint16 (get_or bytes 0 0) (get_or bytes 1 0) ∷ []
payload_values (suc (suc n)) bytes =
    to_uint16 (get_or bytes 0 0) (get_or bytes 1 0) ∷ payload_values n (drop 2 bytes)

abbrev pub byte_at : List ℕ → ℕ → ℕ
byte_at b i = get_or b i 0

abbrev pub uint16_at : List ℕ → ℕ → ℕ
uint16_at b i = to_uint16 (get_or b i 0) (get_or b (suc i) 0)

-- The length of the first frame of a buffer: its header's length field and the six bytes before.
abbrev pub frame_length : List ℕ → ℕ
frame_length b = uint16_at b 4 + 6

-- The cases of the switch. Each test is on the size of the whole buffer, as in the source.
unfoldable pub handle_read : List ℕ → Client → Client
unfolding payload_values
handle_read b =
    if ltb 8 (length b) && (9 + byte_at b 8 == frame_length b)
    then set_finished (uint16_at b 0)
        (λ r. set_registers r (payload_values (byte_at b 8) (drop 9 b)))
    else set_finished (uint16_at b 0) (λ r. set_error r parse_error)

unfoldable pub handle_write_single : List ℕ → Client → Client
handle_write_single b =
    if ltb 11 (length b)
    then set_finished (uint16_at b 0) (λ r. set_registers r (uint16_at b 10 ∷ []))
    else set_finished (uint16_at b 0) (λ r. set_error r parse_error)

unfoldable pub handle_write_multiple : List ℕ → Client → Client
handle_write_multiple b =
    if length b == 12
    then set_finished (uint16_at b 0) (λ r. set_registers r [])
    else set_finished (uint16_at b 0) (λ r. set_error r parse_error)

unfoldable pub handle_exception : List ℕ → Client → Client
handle_exception b =
    if ltb 8 (length b)
    then set_finished (uint16_at b 0) (λ r. set_error r (byte_at b 8))
    else set_finished (uint16_at b 0) (λ r. set_error r parse_error)

-- The body of the loop of onReadyRead on the first frame of the buffer. `fc & 0x80` is 0 for the
-- bytes below 128; a function code that is not in the switch leaves the replies alone.
unfoldable pub handle_frame : List ℕ → Client → Client
unfolding handle_read handle_write_single handle_write_multiple handle_exception
handle_frame b c =
    if ltb (byte_at b 7) 128
    then if byte_at b 7 == read_holding || byte_at b 7 == read_input
      then handle_read b c
      else if byte_at b 7 == write_single
      then handle_write_single b c
      else if byte_at b 7 == write_multiple
      then handle_write_multiple b c
      else c
    else handle_exception b c

-- The loop. Each round takes at least six bytes off, so the size of the buffer is enough fuel.
unfoldable pub process_buffer : ℕ → Client → Client
process_buffer zero c = c
process_buffer (suc fuel) c =
    let rest =
      process_buffer fuel
        (record (handle_frame c.buffer c) { buffer = drop (frame_length c.buffer) c.buffer }) in
    if ltb (length c.buffer) 6
    then c
    else if ltb (length c.buffer) (frame_length c.buffer)
    then c
    else rest

unfoldable pub on_ready_read : List ℕ → Client → Client
on_ready_read chunk c =
    let b = c.buffer ++ chunk in process_buffer (length b) (record c { buffer = b })
