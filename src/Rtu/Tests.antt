-- ===== src/Rtu/Tests.antt =====
-- modbus_rtu_client.cpp at concrete inputs: the theorems of the other files applied, and runs.
use dbus_fronius.Base.{
  ℕ, suc, ◌<◌, ◌≡◌, ◌≢◌, refl, true, false, none, some, List, [], ◌∷◌, length, arith, if◌then◌else◌,
}
use dbus_fronius.Crc.{crc_of_bytes, add_bytes, add}
use dbus_fronius.Crc.Table.{lo_entry, hi_entry}
use dbus_fronius.Tcp.{read_holding, write_single, payload_values}
use dbus_fronius.Rtu.{
  Reply, Client, reset_state_engine, is_idle, send, request_frame, request_bytes, resolve,
  process_pending, send_first, set_registers,
}
use dbus_fronius.Rtu.Reading.{
  on_ready_read, read_loop, handle_bytes, handle_byte_read, on_byte, on_function, on_byte_count,
  on_payload, on_packet, process_packet, process_packet_for, packet_result, set_packet_result,
  conclude,
}
use dbus_fronius.Rtu.Events.{
  new_client, new_reply, submit, read_holding_registers, read_registers,
  write_single_holding_register, holding_wanted, single_wanted, timed_out, ready, Event, handle,
  run,
}
use dbus_fronius.Rtu.Numbers.{upto, frames}
use dbus_fronius.Rtu.Queue.{IsValid, Serves, fifo, handle-Serves, new_client-IsValid}
use dbus_fronius.Rtu.Progress.{timeouts, run-IsOne, run-finished}
use dbus_fronius.Rtu.Packets.{Answer, registers_read, exception, register_written, IsAnswer}
use dbus_fronius.Rtu.Answers.{answer_frame, result_of, IsAnswered, answer_frame-IsAnswered}
use dbus_fronius.Rtu.Noise.{noise-refused}

abbrev no_reply : ℕ → Reply
no_reply p = new_reply read_holding 0 0 0 []

abbrev fresh : Client
fresh = new_client no_reply

abbrev asked : Client
asked = run (holding_wanted 126 40000 2 ∷ single_wanted 126 40100 7 ∷ []) fresh

abbrev right : Answer
right = registers_read 126 true (0x5375 ∷ 0x6e53 ∷ [])

abbrev written : Answer
written = register_written 126 40100 7

asked-IsValid : IsValid asked
unfolding run
asked-IsValid =
    (handle-Serves (single_wanted 126 40100 7) (handle (holding_wanted 126 40000 2) fresh)
      (handle-Serves (holding_wanted 126 40000 2) fresh (new_client-IsValid no_reply)).0).0

handle-Serves_example :
    IsValid (handle timed_out asked) × Serves timed_out (fifo asked) (fifo (handle timed_out asked))
handle-Serves_example = handle-Serves timed_out asked asked-IsValid

-- Two requests, the first of which is answered in two pieces.
abbrev pieces : List Event
pieces =
    holding_wanted 126 40000 2
    ∷ single_wanted 126 40100 7
    ∷ ready (some (126 ∷ 3 ∷ 4 ∷ 0x53 ∷ []) ∷ [])
    ∷ ready (some (0x75 ∷ 0x6e ∷ 0x53 ∷ 0x18 ∷ 0x37 ∷ []) ∷ [])
    ∷ []

run-IsOne_example :
    let c = run pieces fresh in
    let answered = length c.announced in
    (c.announced ≡ upto answered)
    × (c.sent ≡ frames c.heap (if is_idle c.state then answered else suc answered))
    × (is_idle c.state ≡ false → c.timer ≡ true)
run-IsOne_example = run-IsOne pieces no_reply

-- The first reply has its registers, and the second request is on the line.
pieces_test :
    let c = run pieces fresh in
    (c.announced ≡ 0 ∷ [])
    × ((c.heap 0).registers ≡ 0x5375 ∷ 0x6e53 ∷ [])
    × (c.active_reply ≡ some 1)
    × (length c.sent ≡ 2)
unfolding run handle read_holding_registers read_registers write_single_holding_register submit send
    request_frame request_bytes on_ready_read read_loop handle_bytes handle_byte_read on_byte
    on_function on_byte_count on_payload on_packet process_packet process_packet_for packet_result
    set_packet_result conclude resolve process_pending send_first reset_state_engine set_registers
    payload_values crc_of_bytes add_bytes add lo_entry hi_entry new_client
pieces_test = (refl, refl, refl, refl)

-- Noise and timeouts until nothing is left.
abbrev ending : List Event
ending = ready (some (1 ∷ 2 ∷ 3 ∷ []) ∷ []) ∷ timed_out ∷ ready (none ∷ []) ∷ timed_out ∷ []

run-finished_example :
    let d = run ending asked in
    (is_idle d.state ≡ true)
    × (d.allocated ≡ asked.allocated)
    × ((p : ℕ) → p < asked.allocated → (d.heap p).finished ≡ true)
unfolding run handle read_holding_registers read_registers write_single_holding_register submit send
    timeouts new_client
run-finished_example =
    run-finished ending asked asked-IsValid (tt, (tt, (tt, (tt, tt)))) (omega arith)

abbrev waiting_client : Client
waiting_client = record fresh {
  active_reply = some 0;
  heap = λ p. new_reply read_holding 126 40000 2 [];
  allocated = 1;
}

right-IsAnswer : IsAnswer right
right-IsAnswer = (omega arith, omega arith, (omega arith, (omega arith, tt)))

answer_frame-IsAnswered_example :
    IsAnswered 0
      (result_of right)
      waiting_client
      (handle_bytes (answer_frame right) (reset_state_engine false waiting_client))
unfolding new_client
answer_frame-IsAnswered_example =
    answer_frame-IsAnswered right 0 waiting_client right-IsAnswer refl refl (refl, refl)

abbrev other : Answer
other = exception 125 3 2

noise_crc : crc_of_bytes (85 ∷ []) ≢ 0xffff
unfolding crc_of_bytes add_bytes add lo_entry hi_entry
noise_crc e = absurd (omega (arith, e))

abbrev wanted : Reply
wanted = new_reply write_single 126 40100 0 (7 ∷ [])

noise-refused_example :
    let quiet = submit wanted (reset_state_engine true fresh) in
    let noisy = submit wanted (handle_bytes (85 ∷ []) (reset_state_engine true fresh)) in
    let d = handle_bytes (answer_frame written) noisy in
    IsAnswered 0 (result_of written) quiet (handle_bytes (answer_frame written) quiet)
    × (d.heap 0 ≡ wanted)
    × (d.active_reply ≡ some 0)
    × (d.announced ≡ [])
unfolding new_client
noise-refused_example =
    noise-refused (85 ∷ []) written wanted fresh (omega arith, tt) noise_crc
      (omega arith, omega arith, omega arith) refl (refl, refl)
