-- ===== src/Tcp/Frames.antt =====
-- The frames that modbus_tcp_client.cpp sends, read by a server that follows the Modbus standard.
use dbus_fronius.Base.{
  ℕ, ◌+◌, ◌*◌, ◌%◌, ◌≤◌, ◌<◌, ◌≡◌, refl, true, ◌&&◌, Option, none, some, List, [], ◌∷◌, ◌++◌, arith,
  length, All, ◌==◌, if◌then◌else◌,
}
use dbus_fronius.Crc.{to_uint16, msb, lsb}
use dbus_fronius.Crc.Laws.{word_halves}
use dbus_fronius.Tcp.{Client}
use dbus_fronius.Tcp.Requests.{
  create_frame, send_frame, read_registers, read_holding_registers, words,
  write_multiple_holding_registers,
}

pub record Request : Type 0 where
  pub tid : ℕ
  pub unit : ℕ
  pub start : ℕ
  pub count : ℕ
  pub values : List ℕ

abbrev registers_of : List ℕ → List ℕ
registers_of [] = []
registers_of (b ∷ []) = []
registers_of (m ∷ l ∷ bytes) = to_uint16 m l ∷ registers_of bytes

-- A read of holding registers: the length field counts the six bytes from the unit on.
abbrev pub parse_read : List ℕ → Option Request
parse_read (t1 ∷ t0 ∷ p1 ∷ p0 ∷ l1 ∷ l0 ∷ unit ∷ f ∷ s1 ∷ s0 ∷ n1 ∷ n0 ∷ []) =
    if to_uint16 p1 p0 == 0 && (to_uint16 l1 l0 == 6) && (f == 3)
    then some (record {
      tid = to_uint16 t1 t0;
      unit = unit;
      start = to_uint16 s1 s0;
      count = to_uint16 n1 n0;
      values = [];
    })
    else none
parse_read _ = none

-- A write of several registers: length field, byte count and register count must agree with what
-- follows.
abbrev pub parse_write : List ℕ → Option Request
parse_write (t1 ∷ t0 ∷ p1 ∷ p0 ∷ l1 ∷ l0 ∷ unit ∷ f ∷ s1 ∷ s0 ∷ n1 ∷ n0 ∷ k ∷ payload) =
    if to_uint16 p1 p0 == 0
      && (f == 16)
      && ((to_uint16 l1 l0 == 7 + length payload)
          && ((k == length payload) && (2 * to_uint16 n1 n0 == k)))
    then some (record {
      tid = to_uint16 t1 t0;
      unit = unit;
      start = to_uint16 s1 s0;
      count = to_uint16 n1 n0;
      values = registers_of payload;
    })
    else none
parse_write _ = none

length-words : (vs : List ℕ) → length (words vs) ≡ 2 * length vs
unfolding words
length-words [] = refl
length-words (v ∷ vs) = omega (arith, length-words vs)

registers_of-words : (vs : List ℕ) → All (λ v. v < 65536) vs → registers_of (words vs) ≡ vs
unfolding words
registers_of-words [] h = refl
registers_of-words (v ∷ vs) h = ground (arith, registers_of-words vs h.1)

-- The numbers in a write of `n` registers agree with its length.
write_sizes :
    (n : ℕ)
    → n ≤ 124
    → ((to_uint16 0 ((((5 + 2 * n) % 256 + 2) % 256)) == 7 + 2 * n)
        && ((n * 2 % 256 == 2 * n) && (2 * to_uint16 (msb n) (lsb n) == n * 2 % 256)))
      ≡ true
write_sizes n h = ground arith

-- A read of holding registers appends one frame to what the client has sent, and a server reads
-- from it the transaction under which the reply is pending, the unit, the first register and the
-- number of registers.
pub read_holding_registers-parse_read :
    (unit start count : ℕ) (c : Client)
    → start < 65536
    → count < 65536
    → let d = (read_holding_registers unit start count c).0 in
      (frame : List ℕ) × (d.sent ≡ c.sent ++ frame ∷ [])
      × (parse_read frame
          ≡ some (record {
            tid = d.next_transaction;
            unit = unit;
            start = start;
            count = count;
            values = [];
          }))
unfolding read_holding_registers read_registers create_frame send_frame
read_holding_registers-parse_read unit start count c s n = (_, refl, ground arith)

-- A write of at most 124 registers appends one frame to what the client has sent, and a server that
-- checks its length, byte and register counts reads from it the transaction, the unit, the first
-- register and exactly the values.
pub write_multiple-parse_write :
    (unit start : ℕ) (values : List ℕ) (c : Client)
    → start < 65536
    → length values ≤ 124
    → All (λ v. v < 65536) values
    → let d = (write_multiple_holding_registers unit start values c).0 in
      (frame : List ℕ) × (d.sent ≡ c.sent ++ frame ∷ [])
      × (parse_write frame
          ≡ some (record {
            tid = d.next_transaction;
            unit = unit;
            start = start;
            count = length values;
            values = values;
          }))
unfolding write_multiple_holding_registers create_frame send_frame
write_multiple-parse_write unit start values c s n ok = (
  _,
  refl,
  rw (
    length-words values,
    write_sizes (length values) n,
    registers_of-words values ok,
    word_halves start s,
    word_halves (length values) (omega arith),
    word_halves ((c.next_transaction + 1) % 65536) (omega arith),
  ),
)
