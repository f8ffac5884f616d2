-- ===== src/Rtu/Packets.antt =====
-- modbus_rtu_client.cpp: how handleByteRead takes an answer of the line apart, byte by byte.
use dbus_fronius.Base.{
  AreBytes, ℕ, suc, ◌+◌, ◌-◌, ◌*◌, ◌≤◌, ◌<◌, ◌≡◌, refl, ap, ◌∙◌, Bool, true, false, List, [], ◌∷◌,
  ◌++◌, append_assoc, arith, length, All, lt→ltb, le→ltb, ◌==◌,
}
use dbus_fronius.Crc.Laws.{word_halves, crc_of_bytes-lt}
use dbus_fronius.Crc.{crc_of_bytes, Crc16, add, add_bytes, msb, lsb}
use dbus_fronius.Tcp.{read_holding, read_input, write_single}
use dbus_fronius.Tcp.Stream.{value_bytes, read_function, length-value_bytes}
use dbus_fronius.Rtu.{Client, address, byte_count, payload, crc_msb, crc_lsb}
use dbus_fronius.Rtu.Reading.{
  on_function, on_byte_count, on_payload, on_packet, on_byte, handle_byte_read, handle_bytes,
}

-- The answers that a device of the Modbus protocol gives, but for the acknowledgement of a write of
-- several registers.
pub data Answer : Type 0 where
  registers_read : (unit : ℕ) → Bool → List ℕ → Answer
  register_written : (unit register value : ℕ) → Answer
  exception : (unit function code : ℕ) → Answer

abbrev pub unit_of : Answer → ℕ
unit_of (registers_read unit holding values) = unit
unit_of (register_written unit register value) = unit
unit_of (exception unit function code) = unit

abbrev pub function_of : Answer → ℕ
function_of (registers_read unit holding values) = read_function holding
function_of (register_written unit register value) = write_single
function_of (exception unit function code) = 128 + function

abbrev pub payload_of : Answer → List ℕ
payload_of (registers_read unit holding values) = value_bytes values
payload_of (register_written unit register value) = msb value ∷ lsb value ∷ []
payload_of (exception unit function code) = code ∷ []

-- What stands between the function code and the payload.
abbrev pub prelude_of : Answer → List ℕ
prelude_of (registers_read unit holding values) = 2 * length values ∷ []
prelude_of (register_written unit register value) = msb register ∷ lsb register ∷ []
prelude_of (exception unit function code) = []

-- The answer on the wire, without its CRC.
abbrev pub answer_bytes : Answer → List ℕ
answer_bytes a = unit_of a ∷ function_of a ∷ prelude_of a ++ payload_of a

-- What fits its field; a byte counts the payload of a read.
abbrev pub IsAnswer : Answer → Type 0
IsAnswer (registers_read unit holding values) =
    (unit < 256) × (length values ≤ 127) × All (λ v. v < 65536) values
IsAnswer (register_written unit register value) =
    (unit < 256) × (register < 65536) × (value < 65536)
IsAnswer (exception unit function code) = (unit < 256) × (function < 128) × (code < 256)

value_bytes-AreBytes : (vs : List ℕ) → AreBytes (value_bytes vs)
value_bytes-AreBytes [] = tt
value_bytes-AreBytes (v ∷ vs) = (omega arith, (omega arith, value_bytes-AreBytes vs))

pub answer_bytes-AreBytes : (a : Answer) → IsAnswer a → AreBytes (answer_bytes a)
answer_bytes-AreBytes (registers_read unit true values) h =
    (h.0, (omega arith, (omega (arith, h.1), value_bytes-AreBytes values)))
answer_bytes-AreBytes (registers_read unit false values) h =
    (h.0, (omega arith, (omega (arith, h.1), value_bytes-AreBytes values)))
answer_bytes-AreBytes (register_written unit register value) h =
    (h.0, (omega arith, (omega arith, (omega arith, (omega arith, (omega arith, tt))))))
answer_bytes-AreBytes (exception unit function code) h = (h.0, (omega (arith, h.1), (h.2, tt)))

pub crc_halves :
    (a : Answer)
    → IsAnswer a
    → msb (crc_of_bytes (answer_bytes a)) * 256 + lsb (crc_of_bytes (answer_bytes a))
      ≡ crc_of_bytes (answer_bytes a)
crc_halves a h = word_halves _ (crc_of_bytes-lt (answer_bytes a) (answer_bytes-AreBytes a h))

-- A client that waits for the first byte, with the CRC of what it has read already.
abbrev pub listening : Crc16 → Client → Client
listening k c = record c { state = address; crc_builder = k; add_to_crc = true; bytes = [] }

-- The payload, when `count` says how many bytes are missing.
reading : ℕ → List ℕ → Crc16 → Client → Client
reading n bytes k c = record c {
  state = payload;
  count = n;
  bytes = bytes;
  crc_builder = k;
  add_to_crc = true;
}

pub received : List ℕ → Crc16 → Client → Client
received bytes k c = record c {
  state = crc_msb;
  count = 0;
  bytes = bytes;
  crc_builder = k;
  add_to_crc = false;
}

on_payload-more :
    (b n : ℕ) (acc : List ℕ) (k : Crc16) (c : Client)
    → on_payload b (reading (suc (suc n)) acc k c) ≡ reading (suc n) (acc ++ b ∷ []) k c
unfolding on_payload reading
on_payload-more b n acc k c =
    let left : suc (suc n) - 1 ≡ suc n = omega arith in
    let more : (suc n == 0) ≡ false = ground arith in
    rw (left, more, lt→ltb 0 (suc (suc n)) (omega arith)) refl

handle_bytes-payload :
    (b : ℕ) (bs rest acc : List ℕ) (k : Crc16) (c : Client)
    → handle_bytes (b ∷ bs ++ rest) (reading (suc (length bs)) acc k c)
      ≡ handle_bytes rest (received (acc ++ b ∷ bs) (add_bytes k (b ∷ bs)) c)
unfolding handle_bytes handle_byte_read on_byte on_payload reading received add_bytes
handle_bytes-payload b [] rest acc k c = refl
handle_bytes-payload b (b' ∷ bs) rest acc k c =
    ap (λ d. handle_bytes (b' ∷ bs ++ rest) d) (on_payload-more b (length bs) acc (add k b) c)
    ∙ handle_bytes-payload b' bs rest (acc ++ b ∷ []) (add k b) c
    ∙ ap (λ l. handle_bytes rest (received l (add_bytes (add k b) (b' ∷ bs)) c))
        (append_assoc acc (b ∷ []) (b' ∷ bs))

-- The client when the packet of an answer is complete: `x` and `y` are its CRC, and `k` the CRC of
-- what was read before it.
abbrev pub start_of : Answer → Client → ℕ
start_of (register_written unit register value) c = msb register * 256 + lsb register
start_of _ c = c.start_address

abbrev pub packet : Answer → ℕ → ℕ → Crc16 → Client → Client
packet a x y k c = record c {
  state = crc_lsb;
  function = function_of a;
  count = 0;
  unit_id = unit_of a;
  start_address = start_of a c;
  crc = x * 256 + y;
  crc_builder = add_bytes k (answer_bytes a);
  add_to_crc = false;
  bytes = payload_of a;
}

on_byte_count-more :
    (b n : ℕ) (c : Client)
    → b ≡ suc n
    → on_byte_count b c ≡ record c { count = suc n; state = payload }
unfolding on_byte_count
on_byte_count-more b n c e = let more : (suc n == 0) ≡ false = ground arith in rw (e, more) refl

-- The byte count of an answer with registers, and what follows it.
handle_bytes-registers :
    (v : ℕ) (vs : List ℕ) (x y : ℕ) (k : Crc16) (c : Client)
    → let bytes = value_bytes (v ∷ vs) in
      let n = 2 * length (v ∷ vs) in
      handle_bytes
        (n ∷ bytes ++ x ∷ y ∷ [])
        (record c { state = byte_count; crc_builder = k; add_to_crc = true; bytes = [] })
      ≡ on_packet (record c {
        state = crc_lsb;
        count = 0;
        crc = x * 256 + y;
        crc_builder = add_bytes k (n ∷ bytes);
        add_to_crc = false;
        bytes = bytes;
      })
unfolding handle_bytes handle_byte_read on_byte reading received add_bytes
handle_bytes-registers v vs x y k c =
    let bytes = value_bytes (v ∷ vs) in
    let n = 2 * length (v ∷ vs) in
    let tail = lsb v ∷ value_bytes vs in
    let d = record c { state = byte_count; crc_builder = add k n; add_to_crc = true; bytes = [] } in
    ap (handle_bytes (bytes ++ x ∷ y ∷ []))
      (on_byte_count-more n (length tail) d (omega (arith, length-value_bytes vs)))
    ∙ handle_bytes-payload (msb v) tail (x ∷ y ∷ []) [] (add k n) c

-- An answer leads a client that listens to its packet, whatever CRC follows it.
pub handle_bytes-answer :
    (a : Answer) (x y : ℕ) (k : Crc16) (c : Client)
    → IsAnswer a
    → handle_bytes (answer_bytes a ++ x ∷ y ∷ []) (listening k c) ≡ on_packet (packet a x y k c)
unfolding handle_bytes handle_byte_read on_byte on_function on_byte_count reading received add_bytes
handle_bytes-answer (registers_read unit true []) x y k c h = refl
handle_bytes-answer (registers_read unit true (v ∷ vs)) x y k c h =
    handle_bytes-registers v vs x y (add (add k unit) read_holding)
      (record c { function = read_holding; unit_id = unit })
handle_bytes-answer (registers_read unit false []) x y k c h = refl
handle_bytes-answer (registers_read unit false (v ∷ vs)) x y k c h =
    handle_bytes-registers v vs x y (add (add k unit) read_input)
      (record c { function = read_input; unit_id = unit })
handle_bytes-answer (register_written unit register value) x y k c h = refl
handle_bytes-answer (exception unit function code) x y k c h =
    rw (le→ltb (128 + function) 128 (omega arith)) refl
