-- ===== src/Rtu/Answers.antt =====
-- modbus_rtu_client.cpp: a client that waits for an answer, and gets the right one or another.
use dbus_fronius.Base.{
  ℕ, ◌+◌, ◌*◌, ◌%◌, ◌<◌, ◌≡◌, ◌≢◌, ◌⊎◌, inl, inr, refl, sym, ap, subst, ◌∙◌, true, false, not, some,
  List, [], ◌∷◌, ◌++◌, append-nil, arith, length, All, le→ltb, ◌==◌, ==_refl, if◌then◌else◌,
}
use dbus_fronius.Crc.{Crc16, reset, crc_of_bytes, msb, lsb}
use dbus_fronius.Crc.Laws.{word_halves}
use dbus_fronius.Tcp.{payload_values}
use dbus_fronius.Tcp.Stream.{value_bytes, length-value_bytes, payload_values-value_bytes}
use dbus_fronius.Rtu.{
  Reply, set_registers, set_error, Client, reset_state_engine, process_pending, resolve,
}
use dbus_fronius.Rtu.Reading.{
  packet_result, mismatches, set_packet_result, process_packet_for, process_packet, conclude,
  on_packet, handle_byte_read, handle_bytes,
}
use dbus_fronius.Rtu.Core.{Core, core, settle_next, process_pending-core}
use dbus_fronius.Rtu.Queue.{active_first, fifo}
use dbus_fronius.Rtu.Packets.{
  crc_halves, Answer, registers_read, register_written, exception, unit_of, function_of,
  answer_bytes, IsAnswer, packet, handle_bytes-answer,
}

-- The answer on the wire, with its CRC.
abbrev pub answer_frame : Answer → List ℕ
answer_frame a =
    answer_bytes a ++ msb (crc_of_bytes (answer_bytes a)) ∷ lsb (crc_of_bytes (answer_bytes a)) ∷ []

-- What an answer means for the request.
abbrev pub result_of : Answer → Reply → Reply
result_of (registers_read unit holding values) r = set_registers r values
result_of (register_written unit register value) r = set_registers r (value ∷ [])
result_of (exception unit function code) r = set_error r code

-- The answer comes from the device that was asked, and has the function of the request.
abbrev pub Fits : Answer → Reply → Type 0
Fits a r = (unit_of a ≡ r.slave_address) × (function_of a % 128 ≡ r.function)

payload_read :
    (values : List ℕ)
    → All (λ v. v < 65536) values
    → payload_values (length (value_bytes values)) (value_bytes values) ≡ values
payload_read values h =
    ap (payload_values (length (value_bytes values))) (sym (append-nil (value_bytes values)))
    ∙ payload_values-value_bytes values [] (length (value_bytes values)) (length-value_bytes values)
        h

packet_result-answer :
    (a : Answer) (x y : ℕ) (k : Crc16) (c : Client)
    → IsAnswer a
    → packet_result (packet a x y k c) ≡ some (result_of a)
unfolding packet_result
packet_result-answer (registers_read unit true values) x y k c h =
    ap (λ l. some (λ r. set_registers r l)) (payload_read values h.2)
packet_result-answer (registers_read unit false values) x y k c h =
    ap (λ l. some (λ r. set_registers r l)) (payload_read values h.2)
packet_result-answer (register_written unit register value) x y k c h =
    ap (λ v. some (λ r. set_registers r (v ∷ []))) (word_halves value h.2)
packet_result-answer (exception unit function code) x y k c h =
    rw (le→ltb (128 + function) 128 (omega arith)) refl

pub on_packet_fits :
    (p : ℕ) (f : Reply → Reply) (c : Client)
    → c.active_reply ≡ some p
    → mismatches p c ≡ false
    → packet_result c ≡ some f
    → on_packet c ≡ process_pending (reset_state_engine true (resolve f p c))
unfolding on_packet process_packet process_packet_for set_packet_result conclude
on_packet_fits p f c e m r =
    ap (λ a. conclude (process_packet_for a c)) e
    ∙ ap (λ b. conclude (if b then (c, false) else set_packet_result p (packet_result c) c)) m
    ∙ ap (λ o. conclude (set_packet_result p o c)) r

pub on_packet-mismatch :
    (p : ℕ) (c : Client)
    → c.active_reply ≡ some p
    → mismatches p c ≡ true
    → on_packet c ≡ reset_state_engine false c
unfolding on_packet process_packet process_packet_for set_packet_result conclude
on_packet-mismatch p c e m =
    ap (λ a. conclude (process_packet_for a c)) e
    ∙ ap (λ b. conclude (if b then (c, false) else set_packet_result p (packet_result c) c)) m

passes : (a b : ℕ) → a ≡ b → not (a == b) ≡ false
passes a b e = ground arith

packet-Fits :
    (a : Answer) (p x y : ℕ) (c : Client)
    → x * 256 + y ≡ crc_of_bytes (answer_bytes a)
    → Fits a (c.heap p)
    → mismatches p (packet a x y reset c) ≡ false
unfolding crc_of_bytes
packet-Fits a p x y c e f = rw (passes _ _ e, passes _ _ f.0, passes _ _ f.1) refl

settled_next :
    (f : Reply → Reply) (p : ℕ) (q : List ℕ) (k : Core)
    → k.queued ≡ q
    → (k.heap p).finished ≡ false
    → let d = settle_next f p q k in
      (d.heap p ≡ f (k.heap p)) × (d.announced ≡ k.announced ++ p ∷ [])
settled_next f p [] k e l = (rw (==_refl p) refl, rw l refl)
settled_next f p (n ∷ ns) k e l = (rw (==_refl p) refl, rw l refl)

settled_waiting :
    (f : Reply → Reply) (p : ℕ) (q : List ℕ) (k : Core)
    → k.queued ≡ q
    → let d = settle_next f p q k in active_first d.active d.queued ≡ q
settled_waiting f p [] k e = e
settled_waiting f p (n ∷ ns) k e = refl

-- The reply `p` is answered by `f`, and the rest of the queue waits on.
pub record IsAnswered (p : ℕ) (f : Reply → Reply) (c d : Client) : Type 0 where
  pub resolved : d.heap p ≡ f (c.heap p)
  pub announces : d.announced ≡ c.announced ++ p ∷ []
  pub next : (fifo d).waiting ≡ c.pending_commands

process_pending-IsAnswered :
    (p : ℕ) (f : Reply → Reply) (c : Client)
    → (c.heap p).finished ≡ false
    → IsAnswered p f c (process_pending (reset_state_engine true (resolve f p c)))
process_pending-IsAnswered p f c live =
    let e = process_pending-core f p c in
    let after = settled_next f p c.pending_commands (core c) refl live in
    record {
      resolved = ap (λ k. k.heap p) e ∙ after.0;
      announces = ap (λ k. k.announced) e ∙ after.1;
      next =
          ap (λ (k : Core). active_first k.active k.queued) e
          ∙ settled_waiting f p c.pending_commands (core c) refl;
    }

of_packet :
    (a : Answer) (p x y : ℕ) (f : Reply → Reply) (c d : Client)
    → IsAnswered p f (packet a x y reset c) d
    → IsAnswered p f c d
of_packet a p x y f c d i = record { resolved = i.resolved; announces = i.announces; next = i.next }

-- A client that begins to listen for the answer to request `p`, gets the frame of a right answer
-- byte by byte: the reply has its registers, or the exception, is finished and has announced so
-- once, and the next of the waiting requests is the first now.
pub answer_frame-IsAnswered :
    (a : Answer) (p : ℕ) (c : Client)
    → IsAnswer a
    → c.active_reply ≡ some p
    → (c.heap p).finished ≡ false
    → Fits a (c.heap p)
    → IsAnswered p (result_of a) c (handle_bytes (answer_frame a) (reset_state_engine false c))
unfolding reset_state_engine
answer_frame-IsAnswered a p c h e live f =
    let bytes = answer_bytes a in
    let x = msb (crc_of_bytes bytes) in
    let y = lsb (crc_of_bytes bytes) in
    let d = packet a x y reset c in
    let run = handle_bytes-answer a x y reset c h in
    let ends =
      on_packet_fits p (result_of a) d e (packet-Fits a p x y c (crc_halves a h) f)
        (packet_result-answer a x y reset c h) in
    subst (IsAnswered p (result_of a) c) (sym (run ∙ ends))
      (of_packet a p x y (result_of a) c _ (process_pending-IsAnswered p (result_of a) d live))

handle_bytes-append :
    (bs more : List ℕ) (c : Client)
    → handle_bytes (bs ++ more) c ≡ handle_bytes more (handle_bytes bs c)
unfolding handle_bytes
handle_bytes-append [] more c = refl
handle_bytes-append (b ∷ bs) more c = handle_bytes-append bs more (handle_byte_read b c)

-- An answer with another CRC, from another device or with another function.
abbrev pub IsForeign : Answer → ℕ → ℕ → Reply → Type 0
IsForeign a x y r =
    (x * 256 + y ≢ crc_of_bytes (answer_bytes a))
    ⊎ ((unit_of a ≢ r.slave_address) ⊎ (function_of a % 128 ≢ r.function))

pub fails : (a b : ℕ) → a ≢ b → not (a == b) ≡ true
fails a b e = ground arith

packet-IsForeign :
    (a : Answer) (p x y : ℕ) (c : Client)
    → IsForeign a x y (c.heap p)
    → mismatches p (packet a x y reset c) ≡ true
unfolding crc_of_bytes
packet-IsForeign a p x y c (inl e) = rw (fails _ _ e) refl
packet-IsForeign a p x y c (inr (inl e)) = ground (arith, fails _ _ e)
packet-IsForeign a p x y c (inr (inr e)) = ground (arith, fails _ _ e)

-- A client that listens for the answer to request `p` first gets a whole answer that has a wrong
-- CRC, comes from another device or has another function, and then the frame of the right answer.
-- The first changes nothing of the reply, and the second answers it as if it had come alone.
pub foreign_answer-skipped :
    (wrong right : Answer) (x y p : ℕ) (c : Client)
    → IsAnswer wrong
    → IsForeign wrong x y (c.heap p)
    → IsAnswer right
    → c.active_reply ≡ some p
    → (c.heap p).finished ≡ false
    → Fits right (c.heap p)
    → let d = handle_bytes (answer_bytes wrong ++ x ∷ y ∷ []) (reset_state_engine false c) in
      (d.heap p ≡ c.heap p) × IsAnswered p (result_of right) c (handle_bytes (answer_frame right) d)
unfolding reset_state_engine
foreign_answer-skipped wrong right x y p c hw foreign hr e live f =
    let back = packet wrong x y reset c in
    let run =
      handle_bytes-answer wrong x y reset c hw
      ∙ on_packet-mismatch p back e (packet-IsForeign wrong p x y c foreign) in
    (
      ap (λ d. d.heap p) run,
      subst (λ d. IsAnswered p (result_of right) c (handle_bytes (answer_frame right) d)) (sym run)
          (of_packet wrong p x y (result_of right) c _
            (answer_frame-IsAnswered right p back hr e live f)),
    )
