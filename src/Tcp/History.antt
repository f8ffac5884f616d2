-- ===== src/Tcp/History.antt =====
-- All events that the client of modbus_tcp_client.cpp handles, in any order.
use dbus_fronius.Base.{ℕ, ◌<◌, refl, Bool, true, false, List, [], ◌∷◌, ◌++◌, if_both, arith, length}
use dbus_fronius.Tcp.{Client, on_ready_read, timeout_error, connected, disconnected}
use dbus_fronius.Tcp.Requests.{
  create_frame, send_frame, read_registers, read_holding_registers, read_input_registers,
  write_single_holding_register, write_multiple_holding_registers, on_reply_timeout,
  on_reply_destroyed, fail_all, on_socket_error, on_connected, on_connect_timeout,
  connect_to_server, set_timeout,
}
use dbus_fronius.Tcp.Replies.{
  announced, announced-append, IsValid, Good, refl-Keeps, set_error-IsResult,
}
use dbus_fronius.Tcp.Preservation.{
  trans-Good, resolve-Good, erase-IsValid, with_buffer-Good, process_buffer-Good, signals-Good,
  fail_all-Good, send_frame-Good,
}

-- What happens to a client. A reply's timer and its destruction name a reply that exists.
pub data Event : Type 0 where
  reads : List ℕ → Event
  asks_holding asks_input : (unit start count : ℕ) → Event
  writes_one : (unit reg value : ℕ) → Event
  writes_many : (unit start : ℕ) → List ℕ → Event
  times_out destroyed : ℕ → Event
  breaks connects gives_up dials : Event
  sets_timeout : ℕ → Event

unfoldable pub handle : Event → Client → Client
handle (reads chunk) c = on_ready_read chunk c
handle (asks_holding unit start count) c = (read_holding_registers unit start count c).0
handle (asks_input unit start count) c = (read_input_registers unit start count c).0
handle (writes_one unit reg value) c = (write_single_holding_register unit reg value c).0
handle (writes_many unit start values) c = (write_multiple_holding_registers unit start values c).0
handle (times_out p) c = on_reply_timeout p c
handle (destroyed p) c = on_reply_destroyed p c
handle breaks c = on_socket_error c
handle connects c = on_connected c
handle gives_up c = on_connect_timeout c
handle dials c = connect_to_server c
handle (sets_timeout t) c = set_timeout t c

abbrev pub IsPossible : Event → Client → Type 0
IsPossible (times_out p) c = p < c.allocated
IsPossible _ c = Unit

-- A history of possible events, and the client at its end.
abbrev pub ArePossible : List Event → Client → Type 0
ArePossible [] c = Unit
ArePossible (e ∷ es) c = IsPossible e c × ArePossible es (handle e c)

unfoldable pub run : List Event → Client → Client
run [] c = c
run (e ∷ es) c = run es (handle e c)

next_transaction-IsValid :
    (t : ℕ) (c : Client) → IsValid c → IsValid (record c { next_transaction = t })
next_transaction-IsValid t c v = record { pending_allocated = v.pending_allocated; once = v.once }

request-Good :
    (frame : List ℕ) (t : ℕ) (c : Client)
    → IsValid c
    → Good c (send_frame frame (record c { next_transaction = t })).0
request-Good frame t c v =
    let g =
      send_frame-Good frame (record c { next_transaction = t }) (next_transaction-IsValid t c v) in
    (g.0, record { grows = g.1.grows; kept = g.1.kept })

timeout-Good : (t : ℕ) (c : Client) → IsValid c → Good c (record c { timeout = t })
timeout-Good t c v = (
  record { pending_allocated = v.pending_allocated; once = v.once },
  record { grows = omega arith; kept = λ p lt h. refl },
)

timer-Good : (t : Bool) (c : Client) → IsValid c → Good c (record c { connect_timer = t })
timer-Good t c v = (
  record { pending_allocated = v.pending_allocated; once = v.once },
  record { grows = omega arith; kept = λ p lt h. refl },
)

breaks-Good :
    (c d : Client)
    → Good c d
    → Good c (record d { pending = []; signals = d.signals ++ disconnected ∷ [] })
unfolding announced
breaks-Good c d g = (
  record {
    pending_allocated = tt;
    once = λ p. omega (arith, announced-append p d.signals (disconnected ∷ []), g.0.once p);
  },
  record { grows = g.1.grows; kept = g.1.kept },
)

handle-Good : (e : Event) (c : Client) → IsPossible e c → IsValid c → Good c (handle e c)
unfolding handle on_ready_read read_holding_registers read_input_registers read_registers
    create_frame write_single_holding_register write_multiple_holding_registers on_reply_timeout
    on_reply_destroyed on_socket_error on_connected on_connect_timeout connect_to_server set_timeout
    announced
handle-Good (reads chunk) c h v =
    let b = c.buffer ++ chunk in
    trans-Good c (record c { buffer = b }) _ (with_buffer-Good b c c (v, refl-Keeps c))
      (process_buffer-Good (length b) (record c { buffer = b }))
handle-Good (asks_holding unit start count) c h v = request-Good _ _ c v
handle-Good (asks_input unit start count) c h v = request-Good _ _ c v
handle-Good (writes_one unit reg value) c h v = request-Good _ _ c v
handle-Good (writes_many unit start values) c h v = request-Good _ _ c v
handle-Good (times_out p) c h v = resolve-Good _ p c (set_error-IsResult timeout_error) h v
handle-Good (destroyed p) c h v = (
  erase-IsValid (c.heap p).transaction_id c v,
  record { grows = omega arith; kept = λ q lt e. refl },
)
handle-Good breaks c h v =
    breaks-Good c (fail_all c.pending c) (fail_all-Good c.pending c v.pending_allocated v)
handle-Good connects c h v = signals-Good c false (connected ∷ []) (λ p. refl) v
handle-Good gives_up c h v =
    if_both (Good c) c.connect_timer (signals-Good c false (disconnected ∷ []) (λ p. refl) v)
      (v, refl-Keeps c)
handle-Good dials c h v = timer-Good true c v
handle-Good (sets_timeout t) c h v = timeout-Good t c v

-- From a client whose replies are in order, after every history of possible events they are in
-- order again: a reply has announced its result exactly once if it is finished and never if it is
-- not. And a reply that was finished at the start still has the result that it had.
pub run-Good : (es : List Event) (c : Client) → ArePossible es c → IsValid c → Good c (run es c)
unfolding run
run-Good [] c h v = (v, refl-Keeps c)
run-Good (e ∷ es) c h v =
    trans-Good c (handle e c) _ (handle-Good e c h.0 v) (run-Good es (handle e c) h.1)
