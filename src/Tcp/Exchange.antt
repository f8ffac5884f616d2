-- ===== src/Tcp/Exchange.antt =====
-- A request of modbus_tcp_client.cpp and the answer to it.
use dbus_fronius.Base.{
  ℕ, ◌+◌, ◌%◌, ◌≤◌, ◌<◌, ◌≡◌, refl, sym, ap, ◌∙◌, true, some, none, List, [], ◌∷◌, ◌++◌, arith,
  length, All, lookup, lookup-insert, lookup-erase, ==_refl, append-nil,
}
use dbus_fronius.Tcp.{
  Client, finished, is_finished, set_registers, resolve, set_finished, no_exception,
}
use dbus_fronius.Tcp.Requests.{create_frame, send_frame, read_registers, read_holding_registers}
use dbus_fronius.Tcp.Stream.{registers_read, encode, complete}
use dbus_fronius.Tcp.Chunks.{feed, concat, complete_all, feed-encode_all}

abbrev asked : ℕ → ℕ → ℕ → Client → Client
asked unit start count c = (read_holding_registers unit start count c).0

abbrev asked_reply : ℕ → ℕ → ℕ → Client → ℕ
asked_reply unit start count c = (read_holding_registers unit start count c).1

asked-fields :
    (unit start count : ℕ) (c : Client)
    → let d = asked unit start count c in
      let p = asked_reply unit start count c in
      (d.buffer ≡ c.buffer)
      × (d.next_transaction < 65536)
      × (lookup d.next_transaction d.pending ≡ some p)
      × ((d.heap p).timer ≡ true)
      × (d.signals ≡ c.signals)
unfolding read_holding_registers read_registers create_frame send_frame
asked-fields unit start count c = (
  refl,
  omega arith,
  lookup-insert _ _ c.allocated c.pending ∙ rw (==_refl ((c.next_transaction + 1) % 65536)),
  rw (==_refl c.allocated),
  refl,
)

-- What a first result does to the reply that is pending under its transaction.
pub set_finished-registers :
    (tid p : ℕ) (values : List ℕ) (c : Client)
    → lookup tid c.pending ≡ some p
    → (c.heap p).timer ≡ true
    → let d = set_finished tid (λ r. set_registers r values) c in
      ((d.heap p).registers ≡ values)
      × ((d.heap p).error ≡ no_exception)
      × (is_finished (d.heap p) ≡ true)
      × (d.signals ≡ c.signals ++ finished p ∷ [])
      × (lookup tid d.pending ≡ none)
unfolding set_finished resolve set_registers
set_finished-registers tid p values c e live =
    rw (e, set_finished)
      (
        ground arith,
        ground arith,
        ground arith,
        ground arith,
        lookup-erase tid tid c.pending ∙ rw (==_refl tid),
      )

-- A client with an empty buffer that asks for holding registers, and then receives in any pieces
-- the answer of up to 127 registers to that request and nothing else, has those registers and no
-- error in the reply that the request returned. The reply is finished and has announced so once, it
-- is no longer pending, and the buffer is empty.
pub read-answered :
    (unit start count : ℕ) (values : List ℕ) (chunks : List (List ℕ)) (c : Client)
    → c.buffer ≡ []
    → length values ≤ 127
    → All (λ v. v < 65536) values
    → concat chunks
      ≡ encode (registers_read (asked unit start count c).next_transaction unit true values)
    → let p = asked_reply unit start count c in
      let d = feed chunks (asked unit start count c) in
      ((d.heap p).registers ≡ values)
      × ((d.heap p).error ≡ no_exception)
      × (is_finished (d.heap p) ≡ true)
      × (d.signals ≡ c.signals ++ finished p ∷ [])
      × (lookup (asked unit start count c).next_transaction d.pending ≡ none)
      × (d.buffer ≡ [])
unfolding complete_all complete
read-answered unit start count values chunks c empty few words e =
    let a = asked unit start count c in
    let p = asked_reply unit start count c in
    let f = asked-fields unit start count c in
    let answer = registers_read a.next_transaction unit true values in
    let run =
      feed-encode_all chunks (answer ∷ []) a ((f.1, few, words), tt) (f.0 ∙ empty)
        (e ∙ sym (append-nil (encode answer))) in
    let r = set_finished-registers a.next_transaction p values a f.2 f.3 in
    rw run (r.0, r.1, r.2, r.3 ∙ ap (λ s. s ++ finished p ∷ []) f.4, r.4, refl)
