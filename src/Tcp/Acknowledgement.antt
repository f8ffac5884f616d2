-- ===== src/Tcp/Acknowledgement.antt =====
-- The acknowledgement of a write in modbus_tcp_client.cpp, alone and together with other bytes.
use dbus_fronius.Base.{
  ℕ, zero, suc, ◌<◌, ◌≡◌, refl, ap, ◌∙◌, true, false, le→ltb, some, none, List, [], ◌∷◌, ◌++◌,
  arith, length, ◌==◌, ltb, lookup, AllValues-lookup, drop, lookup-erase, ==_refl,
}
use dbus_fronius.Crc.{msb, lsb}
use dbus_fronius.Crc.Laws.{word_halves}
use dbus_fronius.Tcp.{
  Reply, Client, finished, is_finished, set_registers, set_error, resolve, set_finished,
  handle_frame, handle_write_multiple, process_buffer, on_ready_read, parse_error, no_exception,
}
use dbus_fronius.Tcp.Replies.{IsValid, announced, set_error-IsResult}
use dbus_fronius.Tcp.Preservation.{process_buffer-Good, set_finished-Good, with_buffer-IsValid}
use dbus_fronius.Tcp.Pending.{process_buffer-none}
use dbus_fronius.Tcp.Exchange.{set_finished-registers}

set_finished-error :
    (tid p code : ℕ) (c : Client)
    → lookup tid c.pending ≡ some p
    → (c.heap p).timer ≡ true
    → let d = set_finished tid (λ r. set_error r code) c in
      ((d.heap p).error ≡ code) × (is_finished (d.heap p) ≡ true) × (lookup tid d.pending ≡ none)
unfolding set_finished resolve set_error
set_finished-error tid p code c e live =
    rw (e, set_finished)
      (ground arith, ground arith, lookup-erase tid tid c.pending ∙ rw (==_refl tid))

-- The acknowledgement of a write of several registers.
abbrev pub acknowledgement : (tid unit start count : ℕ) → List ℕ
acknowledgement tid unit start count =
    msb tid
    ∷ lsb tid
    ∷ 0
    ∷ 0
    ∷ 0
    ∷ 6
    ∷ unit
    ∷ 16
    ∷ msb start
    ∷ lsb start
    ∷ msb count
    ∷ lsb count
    ∷ []

handle_frame-acknowledgement :
    (tid unit start count : ℕ) (c : Client)
    → tid < 65536
    → handle_frame (acknowledgement tid unit start count) c
      ≡ set_finished tid (λ r. set_registers r []) c
unfolding handle_frame handle_write_multiple
handle_frame-acknowledgement tid unit start count c small = rw (word_halves tid small)

handle_frame-acknowledgement_followed :
    (tid unit start count x : ℕ) (rest : List ℕ) (c : Client)
    → tid < 65536
    → handle_frame (acknowledgement tid unit start count ++ x ∷ rest) c
      ≡ set_finished tid (λ r. set_error r parse_error) c
unfolding handle_frame handle_write_multiple
handle_frame-acknowledgement_followed tid unit start count x rest c small =
    let frame = acknowledgement tid unit start count ++ x ∷ rest in
    let longer : (length frame == 12) ≡ false = ground arith in rw (longer, word_halves tid small)

-- The first round of the loop on a buffer that begins with an acknowledgement.
process_buffer-acknowledgement :
    (fuel tid unit start count : ℕ) (rest : List ℕ) (c : Client)
    → let b = acknowledgement tid unit start count ++ rest in
      process_buffer (suc fuel) (record c { buffer = b })
      ≡ process_buffer fuel (record (handle_frame b (record c { buffer = b })) { buffer = rest })
unfolding process_buffer
process_buffer-acknowledgement fuel tid unit start count rest c =
    let b = acknowledgement tid unit start count ++ rest in
    rw (le→ltb (length b) 6 (omega arith), le→ltb (length b) 12 (omega arith))

on_ready_read-acknowledgement :
    (tid unit start count : ℕ) (rest : List ℕ) (c : Client)
    → c.buffer ≡ []
    → let b = acknowledgement tid unit start count ++ rest in
      on_ready_read b c
      ≡ process_buffer
          (length (drop 1 b))
          (record (handle_frame b (record c { buffer = b })) { buffer = rest })
unfolding on_ready_read
on_ready_read-acknowledgement tid unit start count rest c empty =
    rw empty (process_buffer-acknowledgement _ tid unit start count rest c)

process_buffer-empty : (fuel : ℕ) (c : Client) → c.buffer ≡ [] → process_buffer fuel c ≡ c
unfolding process_buffer
process_buffer-empty zero c e = refl
process_buffer-empty (suc fuel) c e =
    let short : ltb (length c.buffer) 6 ≡ true = rw e refl in rw short refl

-- What a reply got from the first frame is still there after the rest of the buffer, and has been
-- announced once.
result-process_buffer :
    (fuel p : ℕ) (rest : List ℕ) (d : Client)
    → IsValid d
    → p < d.allocated
    → is_finished (d.heap p) ≡ true
    → let c = process_buffer fuel (record d { buffer = rest }) in
      (c.heap p ≡ d.heap p) × (announced p c.signals ≡ 1)
result-process_buffer fuel p rest d v lt done =
    let later =
      process_buffer-Good fuel (record d { buffer = rest }) (with_buffer-IsValid rest d v) in
    let kept = later.1.kept p lt done in
    let c = process_buffer fuel (record d { buffer = rest }) in
    let inside : ltb p c.allocated ≡ true = ground (arith, later.1.grows) in
    (kept, later.0.once p ∙ rw (inside, ap is_finished kept ∙ done))

-- The acknowledgement alone: one result, and nothing is left in the buffer.
on_ready_read-alone :
    (tid unit start count : ℕ) (c : Client)
    → tid < 65536
    → c.buffer ≡ []
    → let ack = acknowledgement tid unit start count in
      on_ready_read ack c
      ≡ record (set_finished tid (λ r. set_registers r []) (record c { buffer = ack })) {
        buffer = [];
      }
on_ready_read-alone tid unit start count c small empty =
    let ack = acknowledgement tid unit start count in
    on_ready_read-acknowledgement tid unit start count [] c empty
    ∙ (process_buffer-empty (length (drop 1 ack))
          (record (handle_frame ack (record c { buffer = ack })) { buffer = [] }) refl
        ∙ ap (λ (d : Client). record d { buffer = [] })
            (handle_frame-acknowledgement tid unit start count (record c { buffer = ack }) small))

-- With more behind it: an error, and then the rest of the buffer.
on_ready_read-followed :
    (tid unit start count x : ℕ) (rest : List ℕ) (c : Client)
    → tid < 65536
    → c.buffer ≡ []
    → let b = acknowledgement tid unit start count ++ x ∷ rest in
      on_ready_read b c
      ≡ process_buffer
          (length (drop 1 b))
          (record (set_finished tid (λ r. set_error r parse_error) (record c { buffer = b })) {
            buffer = x ∷ rest;
          })
on_ready_read-followed tid unit start count x rest c small empty =
    let b = acknowledgement tid unit start count ++ x ∷ rest in
    on_ready_read-acknowledgement tid unit start count (x ∷ rest) c empty
    ∙ ap (λ (d : Client). process_buffer (length (drop 1 b)) (record d { buffer = x ∷ rest }))
        (handle_frame-acknowledgement_followed tid unit start count x rest (record c { buffer = b })
          small)

-- Let a request be pending and unfinished in a client with an empty buffer whose replies are in
-- order. If the acknowledgement of its write of several registers is all that a read of the socket
-- delivers, the request is finished with no registers and no error, the only new signal announces
-- this, the request is no longer pending, and the buffer is empty. If any further byte is
-- delivered with the acknowledgement, the request is finished with a parse error, which is
-- announced once, and it is no longer pending.
pub acknowledgement-coalesced :
    (tid unit start count p x : ℕ) (rest : List ℕ) (c : Client)
    → tid < 65536
    → IsValid c
    → c.buffer ≡ []
    → lookup tid c.pending ≡ some p
    → (c.heap p).timer ≡ true
    → let ack = acknowledgement tid unit start count in
      let alone = on_ready_read ack c in
      let more = on_ready_read (ack ++ x ∷ rest) c in
      ((alone.heap p).registers ≡ [])
      × ((alone.heap p).error ≡ no_exception)
      × (is_finished (alone.heap p) ≡ true)
      × (alone.signals ≡ c.signals ++ finished p ∷ [])
      × (lookup tid alone.pending ≡ none)
      × (alone.buffer ≡ [])
      × ((more.heap p).error ≡ parse_error)
      × (is_finished (more.heap p) ≡ true)
      × (announced p more.signals ≡ 1)
      × (lookup tid more.pending ≡ none)
acknowledgement-coalesced tid unit start count p x rest c small v empty e live =
    let ack = acknowledgement tid unit start count in
    let b = ack ++ x ∷ rest in
    let d = set_finished tid (λ r. set_error r parse_error) (record c { buffer = b }) in
    let g =
      set_finished-Good tid (λ r. set_error r parse_error) (record c { buffer = b })
        (set_error-IsResult parse_error) (with_buffer-IsValid b c v) in
    let lt = AllValues-lookup (λ q. q < c.allocated) tid c.pending p v.pending_allocated e in
    let r = set_finished-registers tid p [] (record c { buffer = ack }) e live in
    let q = set_finished-error tid p parse_error (record c { buffer = b }) e live in
    let fuel = length (drop 1 b) in
    let k = result-process_buffer fuel p (x ∷ rest) d g.0 (omega (arith, g.1.grows)) q.1 in
    rw
      (
        on_ready_read-alone tid unit start count c small empty,
        on_ready_read-followed tid unit start count x rest c small empty,
      )
      (
        r.0,
        r.1,
        r.2,
        r.3,
        r.4,
        refl,
        ap (λ (s : Reply). s.error) k.0 ∙ q.0,
        ap is_finished k.0 ∙ q.1,
        k.1,
        process_buffer-none fuel tid (record d { buffer = x ∷ rest }) q.2,
      )
