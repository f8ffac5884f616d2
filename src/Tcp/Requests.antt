-- ===== src/Tcp/Requests.antt =====
-- software/src/modbus_tcp_client/modbus_tcp_client.cpp: the requests that the client sends, and the
-- other events that it handles (timers, the socket's signals, replies that are destroyed).
use dbus_fronius.Base.{
  ℕ, suc, ◌+◌, ◌*◌, ◌%◌, true, false, List, [], ◌∷◌, ◌++◌, length, ◌==◌, if◌then◌else◌, erase,
  insert,
}
use dbus_fronius.Crc.{msb, lsb}
use dbus_fronius.Tcp.{
  Reply, connected, disconnected, Client, resolve, set_error, read_holding, read_input,
  write_single, write_multiple, no_exception, timeout_error, tcp_error,
}

-- createFrame; `count` is a quint8, and `count + 2` is cut to a byte once more.
unfoldable pub create_frame : ℕ → ℕ → ℕ → Client → Client × List ℕ
create_frame function unit count c =
    let tid = (c.next_transaction + 1) % 65536 in
    (
      record c { next_transaction = tid },
      msb tid ∷ lsb tid ∷ 0 ∷ 0 ∷ 0 ∷ (count % 256 + 2) % 256 ∷ unit ∷ function ∷ [],
    )

abbrev new_reply : ℕ → Reply
new_reply tid = record { transaction_id = tid; timer = true; registers = []; error = no_exception }

-- sendFrame: the new reply is pending under the current transaction, whoever was there before.
unfoldable pub send_frame : List ℕ → Client → Client × ℕ
send_frame frame c =
    let p = c.allocated in
    (
      record c {
        heap = λ q. if q == p then new_reply c.next_transaction else c.heap q;
        allocated = suc p;
        pending = insert c.next_transaction p c.pending;
        sent = c.sent ++ frame ∷ [];
      },
      p,
    )

abbrev word : ℕ → List ℕ
word d = msb d ∷ lsb d ∷ []

unfoldable pub read_registers : ℕ → ℕ → ℕ → ℕ → Client → Client × ℕ
unfolding create_frame send_frame
read_registers function unit start count c =
    let (c', frame) = create_frame function unit 4 c in
    send_frame (frame ++ word start ++ word count) c'

unfoldable pub read_input_registers : ℕ → ℕ → ℕ → Client → Client × ℕ
unfolding read_registers
read_input_registers = read_registers read_input

unfoldable pub read_holding_registers : ℕ → ℕ → ℕ → Client → Client × ℕ
unfolding read_registers
read_holding_registers = read_registers read_holding

unfoldable pub write_single_holding_register : ℕ → ℕ → ℕ → Client → Client × ℕ
unfolding create_frame send_frame
write_single_holding_register unit reg value c =
    let (c', frame) = create_frame write_single unit 4 c in
    send_frame (frame ++ word reg ++ word value) c'

-- The `foreach` over the values.
unfoldable pub words : List ℕ → List ℕ
words [] = []
words (v ∷ vs) = msb v ∷ lsb v ∷ words vs

unfoldable pub write_multiple_holding_registers : ℕ → ℕ → List ℕ → Client → Client × ℕ
unfolding create_frame send_frame words
write_multiple_holding_registers unit start values c =
    let n = length values in
    let (c', frame) = create_frame write_multiple unit (5 + 2 * n) c in
    send_frame (frame ++ word start ++ word n ++ (n * 2 % 256) ∷ words values) c'

-- Reply::timerEvent. The reply stays in the table of pending ones.
unfoldable pub on_reply_timeout : ℕ → Client → Client
unfolding resolve
on_reply_timeout p = resolve (λ r. set_error r timeout_error) p

-- onReplyDestroyed.
unfoldable pub on_reply_destroyed : ℕ → Client → Client
on_reply_destroyed p c = record c { pending = erase (c.heap p).transaction_id c.pending }

-- The `foreach` of onSocketErrorReceived.
unfoldable pub fail_all : List (ℕ × ℕ) → Client → Client
unfolding resolve
fail_all [] c = c
fail_all ((tid, p) ∷ m) c = fail_all m (resolve (λ r. set_error r tcp_error) p c)

unfoldable pub on_socket_error : Client → Client
unfolding fail_all
on_socket_error c =
    let c' = fail_all c.pending c in
    record c' { pending = []; signals = c'.signals ++ disconnected ∷ [] }

unfoldable pub on_connected : Client → Client
on_connected c = record c { connect_timer = false; signals = c.signals ++ connected ∷ [] }

-- timerEvent of the client: the connection was not made in time.
unfoldable pub on_connect_timeout : Client → Client
on_connect_timeout c =
    if c.connect_timer
    then record c { connect_timer = false; signals = c.signals ++ disconnected ∷ [] }
    else c

unfoldable pub connect_to_server : Client → Client
connect_to_server c = record c { connect_timer = true }

unfoldable pub set_timeout : ℕ → Client → Client
set_timeout t c = record c { timeout = t }
