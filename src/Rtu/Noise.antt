-- ===== src/Rtu/Noise.antt =====
-- modbus_rtu_client.cpp: bytes that arrive while the client is idle. handleByteRead adds them to
-- the CRC before it looks at the state, and `send` does not start the CRC again.
use dbus_fronius.Base.{
  ℕ, ◌≡◌, ◌≢◌, refl, sym, ap, subst, ◌∙◌, true, false, some, List, [], ◌∷◌, arith, AreBytes,
  AreBytes-append, ==_refl,
}
use dbus_fronius.Crc.{Crc16, reset, add, add_bytes, get_value, crc_of_bytes, msb, lsb}
use dbus_fronius.Crc.Laws.{
  IsByteState, add_bytes-IsByteState, add_bytes-injective, get_value-injective,
  crc_of_bytes-append_self,
}
use dbus_fronius.Rtu.{Reply, Client, idle, reset_state_engine, send}
use dbus_fronius.Rtu.Reading.{mismatches, on_byte, handle_byte_read, handle_bytes}
use dbus_fronius.Rtu.Events.{submit}
use dbus_fronius.Rtu.Packets.{
  Answer, answer_bytes, IsAnswer, listening, packet, handle_bytes-answer, answer_bytes-AreBytes,
  crc_halves,
}
use dbus_fronius.Rtu.Answers.{
  answer_frame, result_of, Fits, IsAnswered, answer_frame-IsAnswered, on_packet-mismatch, fails,
}

abbrev resting : Crc16 → Client → Client
resting k c = record c {
  state = idle;
  crc_builder = k;
  add_to_crc = true;
  bytes = [];
  timer = false;
}

handle_bytes-resting :
    (noise : List ℕ) (k : Crc16) (c : Client)
    → handle_bytes noise (resting k c) ≡ resting (add_bytes k noise) c
unfolding handle_bytes handle_byte_read on_byte add_bytes
handle_bytes-resting [] k c = refl
handle_bytes-resting (b ∷ noise) k c = handle_bytes-resting noise (add k b) c

-- The client that has sent the request.
asking : Reply → Crc16 → Client → Client
asking r k c = submit r (resting k c)

-- From another start, the CRC of the same bytes is another.
other_crc :
    (noise bytes : List ℕ)
    → AreBytes noise
    → AreBytes bytes
    → crc_of_bytes noise ≢ 0xffff
    → crc_of_bytes bytes ≢ get_value (add_bytes (add_bytes reset noise) bytes)
unfolding crc_of_bytes
other_crc noise bytes hn hb ne e =
    let k = add_bytes reset noise in
    let start : IsByteState reset = omega arith in
    let s = add_bytes-IsByteState reset noise start hn in
    let same =
      get_value-injective (add_bytes reset bytes) (add_bytes k bytes)
        (add_bytes-IsByteState reset bytes start hb) (add_bytes-IsByteState k bytes s hb) e in
    ne (ap get_value (sym (add_bytes-injective reset k bytes start s hb same)))

asking-listening : (r : Reply) (k : Crc16) (c : Client) → asking r k c ≡ listening k (asking r k c)
unfolding asking submit send
asking-listening r k c = refl

asking-heap : (r : Reply) (k : Crc16) (c : Client) → (asking r k c).heap c.allocated ≡ r
unfolding asking submit send
asking-heap r k c = rw (==_refl c.allocated) refl

asking-fields :
    (r : Reply) (k : Crc16) (c : Client)
    → ((asking r k c).active_reply ≡ some c.allocated) × ((asking r k c).announced ≡ c.announced)
unfolding asking submit send
asking-fields r k c = (refl, refl)

wrong_crc : (p : ℕ) (c : Client) → c.crc ≢ get_value c.crc_builder → mismatches p c ≡ true
wrong_crc p c e = rw (fails _ _ e) refl

-- The answer after a CRC that is started wrong.
refused :
    (noise : List ℕ) (a : Answer) (r : Reply) (c : Client)
    → AreBytes noise
    → crc_of_bytes noise ≢ 0xffff
    → IsAnswer a
    → let asks = asking r (add_bytes reset noise) c in
      let bytes = answer_bytes a in
      handle_bytes (answer_frame a) asks
      ≡ reset_state_engine false (
          packet a
            (msb (crc_of_bytes bytes))
            (lsb (crc_of_bytes bytes))
            (add_bytes reset noise)
            asks)
refused noise a r c hn ne h =
    let k = add_bytes reset noise in
    let asks = asking r k c in
    let bytes = answer_bytes a in
    let x = msb (crc_of_bytes bytes) in
    let y = lsb (crc_of_bytes bytes) in
    let d = packet a x y k asks in
    let differs = other_crc noise bytes hn (answer_bytes-AreBytes a h) ne in
    let wrong = wrong_crc c.allocated d (λ e. differs (sym (crc_halves a h) ∙ e)) in
    ap (handle_bytes (answer_frame a)) (asking-listening r k c)
    ∙ handle_bytes-answer a x y k asks h
    ∙ on_packet-mismatch c.allocated d (asking-fields r k c).0 wrong

-- A client is idle, its state engine reset, when it receives bytes `noise` whose CRC is not 0xFFFF,
-- the value that the CRC starts from. Then a request `r` is made, and the frame of a right answer to
-- it arrives. Without the noise the request is answered. With it the answer is refused: the reply is
-- as it was made, it is still the active one, and nothing was announced.
pub noise-refused :
    (noise : List ℕ) (a : Answer) (r : Reply) (c : Client)
    → AreBytes noise
    → crc_of_bytes noise ≢ 0xffff
    → IsAnswer a
    → r.finished ≡ false
    → Fits a r
    → let p = c.allocated in
      let quiet = submit r (reset_state_engine true c) in
      let noisy = submit r (handle_bytes noise (reset_state_engine true c)) in
      let d = handle_bytes (answer_frame a) noisy in
      IsAnswered p (result_of a) quiet (handle_bytes (answer_frame a) quiet)
      × (d.heap p ≡ r)
      × (d.active_reply ≡ some p)
      × (d.announced ≡ c.announced)
unfolding reset_state_engine asking
noise-refused noise a r c hn ne h live f =
    let k = add_bytes reset noise in
    let quiet = asking r reset c in
    let same = asking-heap r reset c in
    let run =
      ap (λ d. handle_bytes (answer_frame a) (submit r d)) (handle_bytes-resting noise reset c)
      ∙ refused noise a r c hn ne h in
    (
      subst (λ d. IsAnswered c.allocated (result_of a) quiet (handle_bytes (answer_frame a) d))
          (sym (asking-listening r reset c))
          (answer_frame-IsAnswered a c.allocated quiet h (asking-fields r reset c).0
            (ap (λ (q : Reply). q.finished) same ∙ live) (subst (Fits a) (sym same) f)),
      ap (λ d. d.heap c.allocated) run ∙ asking-heap r k c,
      ap (λ d. d.active_reply) run ∙ (asking-fields r k c).0,
      ap (λ d. d.announced) run ∙ (asking-fields r k c).1,
    )

answer_frame-AreBytes : (a : Answer) → IsAnswer a → AreBytes (answer_frame a)
answer_frame-AreBytes a h =
    AreBytes-append (answer_bytes a) _ (answer_bytes-AreBytes a h) (omega arith, (omega arith, tt))

-- A request `late` is given up, nothing else waits, and the frame of the right answer to it arrives
-- then, at an idle client. This makes the client refuse the frame of the right answer to its next
-- request `r`: the reply is as it was made, it is still the active one, and nothing was announced.
pub late_answer-refused :
    (late a : Answer) (r : Reply) (c : Client)
    → IsAnswer late
    → IsAnswer a
    → r.finished ≡ false
    → Fits a r
    → let p = c.allocated in
      let noisy = submit r (handle_bytes (answer_frame late) (reset_state_engine true c)) in
      let d = handle_bytes (answer_frame a) noisy in
      (d.heap p ≡ r) × (d.active_reply ≡ some p) × (d.announced ≡ c.announced)
late_answer-refused late a r c hl h live f =
    let zero_crc = crc_of_bytes-append_self (answer_bytes late) (answer_bytes-AreBytes late hl) in
    let both =
      noise-refused (answer_frame late) a r c (answer_frame-AreBytes late hl)
        (λ e. omega (arith, zero_crc, e)) h live f in
    (both.1, both.2, both.3)
