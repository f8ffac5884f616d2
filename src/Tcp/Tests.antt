-- ===== src/Tcp/Tests.antt =====
-- The client at concrete requests and answers.
use dbus_fronius.Base.{
  ℕ, ◌<◌, ◌≡◌, refl, true, false, none, some, List, [], ◌∷◌, ◌++◌, arith, lookup,
}
use dbus_fronius.Tcp.{Client, finished, is_finished, on_ready_read, no_exception, parse_error}
use dbus_fronius.Tcp.Requests.{
  read_registers, read_holding_registers, write_multiple_holding_registers, create_frame,
  send_frame,
}
use dbus_fronius.Tcp.Replies.{IsValid, Good, announced}
use dbus_fronius.Tcp.History.{asks_holding, times_out, breaks, run, handle, run-Good}
use dbus_fronius.Tcp.Stream.{Response, registers_read, exception, encode}
use dbus_fronius.Tcp.Chunks.{complete_all, feed, feed-encode_all}
use dbus_fronius.Tcp.Loop.{IsIncomplete, on_ready_read-IsIncomplete}
use dbus_fronius.Tcp.Exchange.{read-answered}
use dbus_fronius.Tcp.Acknowledgement.{acknowledgement, acknowledgement-coalesced}
use dbus_fronius.Tcp.Frames.{parse_write, write_multiple-parse_write}

-- The client as its constructor leaves it.
abbrev new_client : Client
new_client = record {
  next_transaction = 0;
  timeout = 1000;
  connect_timer = false;
  buffer = [];
  pending = [];
  heap = λ p. record { transaction_id = 0; timer = false; registers = []; error = 0 };
  allocated = 0;
  sent = [];
  signals = [];
}

new_client-IsValid : IsValid new_client
unfolding announced
new_client-IsValid = record { pending_allocated = tt; once = λ p. ground arith }

-- A client that waits for one answer, to transaction 7.
abbrev waiting : Client
waiting = record {
  next_transaction = 7;
  timeout = 1000;
  connect_timer = false;
  buffer = [];
  pending = (7, 0) ∷ [];
  heap = λ p. record { transaction_id = 7; timer = true; registers = []; error = 0 };
  allocated = 1;
  sent = [];
  signals = [];
}

waiting-IsValid : IsValid waiting
unfolding announced
waiting-IsValid = record { pending_allocated = (omega arith, tt); once = λ p. ground arith }

abbrev answers : List Response
answers = registers_read 1 126 true (230 ∷ 65535 ∷ []) ∷ exception 2 126 3 2 ∷ []

feed-encode_all_example :
    feed
      ((0 ∷ 1 ∷ 0 ∷ 0 ∷ 0 ∷ [])
        ∷ (7 ∷ 126 ∷ 3 ∷ 4 ∷ 0 ∷ 230 ∷ 255 ∷ 255 ∷ 0 ∷ 2 ∷ [])
        ∷ (0 ∷ 0 ∷ 0 ∷ 3 ∷ 126 ∷ 131 ∷ 2 ∷ [])
        ∷ [])
      new_client
    ≡ record (complete_all answers new_client) { buffer = [] }
feed-encode_all_example =
    feed-encode_all
      ((0 ∷ 1 ∷ 0 ∷ 0 ∷ 0 ∷ [])
        ∷ (7 ∷ 126 ∷ 3 ∷ 4 ∷ 0 ∷ 230 ∷ 255 ∷ 255 ∷ 0 ∷ 2 ∷ [])
        ∷ (0 ∷ 0 ∷ 0 ∷ 3 ∷ 126 ∷ 131 ∷ 2 ∷ [])
        ∷ [])
      answers new_client
      ((omega arith, omega arith, (omega arith, (omega arith, tt))), (omega arith, tt)) refl refl

abbrev answer : List ℕ
answer = encode (registers_read 1 126 true (230 ∷ []))

read-answered_example :
    let asked = read_holding_registers 126 40001 1 new_client in
    let d = feed (answer ∷ []) asked.0 in
    ((d.heap asked.1).registers ≡ 230 ∷ [])
    × ((d.heap asked.1).error ≡ no_exception)
    × (is_finished (d.heap asked.1) ≡ true)
    × (d.signals ≡ [] ++ finished asked.1 ∷ [])
    × (lookup asked.0.next_transaction d.pending ≡ none)
    × (d.buffer ≡ [])
unfolding read_holding_registers read_registers create_frame send_frame
read-answered_example =
    read-answered 126 40001 1 (230 ∷ []) (answer ∷ []) new_client refl (omega arith)
      (omega arith, tt) refl

acknowledgement-coalesced_example :
    let alone = on_ready_read (acknowledgement 7 126 40236 2) waiting in
    let more = on_ready_read (acknowledgement 7 126 40236 2 ++ 0 ∷ []) waiting in
    ((alone.heap 0).registers ≡ [])
    × ((alone.heap 0).error ≡ no_exception)
    × (is_finished (alone.heap 0) ≡ true)
    × (alone.signals ≡ [] ++ finished 0 ∷ [])
    × (lookup 7 alone.pending ≡ none)
    × (alone.buffer ≡ [])
    × ((more.heap 0).error ≡ parse_error)
    × (is_finished (more.heap 0) ≡ true)
    × (announced 0 more.signals ≡ 1)
    × (lookup 7 more.pending ≡ none)
unfolding lookup
acknowledgement-coalesced_example =
    acknowledgement-coalesced 7 126 40236 2 0 0 [] waiting (omega arith) waiting-IsValid refl refl
      refl

asked-exists : 0 < (handle (asks_holding 126 40001 1) new_client).allocated
unfolding handle read_holding_registers read_registers create_frame send_frame
asked-exists = omega arith

-- A request runs out of time, and only then the connection breaks.
run-Good_example :
    Good new_client (run (asks_holding 126 40001 1 ∷ times_out 0 ∷ breaks ∷ []) new_client)
run-Good_example =
    run-Good (asks_holding 126 40001 1 ∷ times_out 0 ∷ breaks ∷ []) new_client
      (tt, (asked-exists, (tt, tt))) new_client-IsValid

write_multiple-parse_write_example :
    let d = (write_multiple_holding_registers 3 40212 (0 ∷ 5000 ∷ []) new_client).0 in
    (frame : List ℕ) × (d.sent ≡ [] ++ frame ∷ [])
    × (parse_write frame
        ≡ some (record {
          tid = d.next_transaction;
          unit = 3;
          start = 40212;
          count = 2;
          values = 0 ∷ 5000 ∷ [];
        }))
write_multiple-parse_write_example =
    write_multiple-parse_write 3 40212 (0 ∷ 5000 ∷ []) new_client (omega arith) (omega arith)
      (omega arith, (omega arith, tt))

-- A frame without a body, and the beginning of another.
on_ready_read-IsIncomplete_example :
    IsIncomplete (on_ready_read (0 ∷ 1 ∷ 0 ∷ 0 ∷ 0 ∷ 0 ∷ 0 ∷ 2 ∷ []) waiting).buffer
on_ready_read-IsIncomplete_example =
    on_ready_read-IsIncomplete (0 ∷ 1 ∷ 0 ∷ 0 ∷ 0 ∷ 0 ∷ 0 ∷ 2 ∷ []) waiting
