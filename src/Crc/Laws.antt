-- ===== src/Crc/Laws.antt =====
-- What the table-driven CRC of crc16.cpp computes, and which damage to a frame it detects.
use dbus_fronius.Base.{
  ℕ, ◌+◌, ◌*◌, ◌<◌, ◌≡◌, ◌≢◌, refl, sym, ap, ◌∙◌, List, [], ◌∷◌, ◌++◌, arith, bit_xor,
  bit_xor_bytes, bit_xor_low_byte, AreBytes,
}
use dbus_fronius.Crc.{Crc16, reset, add, add_bytes, crc_of_bytes, get_value, to_uint16, msb, lsb}
use dbus_fronius.Crc.Table.{hi_entry, lo_entry}
use dbus_fronius.Crc.Reference.{
  shift_byte, shift_bytes, shift_bits-table, table-bytes, lo_entry-injective,
}

abbrev pub IsByteState : Crc16 → Type 0
IsByteState c = (c.crc_lo < 256) × (c.crc_hi < 256)

pub word_halves : (d : ℕ) → d < 65536 → to_uint16 (msb d) (lsb d) ≡ d
word_halves d h = omega arith

-- The register of the standard holds the byte that is sent first at its low end.
abbrev pub register : Crc16 → ℕ
register c = c.crc_lo * 256 + c.crc_hi

add-IsByteState : (c : Crc16) (b : ℕ) → IsByteState c → b < 256 → IsByteState (add c b)
unfolding add
add-IsByteState c b s h =
    let index = bit_xor_bytes c.crc_hi b s.1 h in
    let row = table-bytes (bit_xor c.crc_hi b) index.0 in
    (row.0, (bit_xor_bytes c.crc_lo (hi_entry (bit_xor c.crc_hi b)) s.0 row.1).0)

register-add :
    (c : Crc16) (b : ℕ) → IsByteState c → b < 256 → register (add c b) ≡ shift_byte (register c) b
unfolding add shift_byte
register-add c b s h =
    rw (bit_xor_low_byte c.crc_lo c.crc_hi b s.1 h)
      (sym (shift_bits-table c.crc_lo (bit_xor c.crc_hi b) s.0 (bit_xor_bytes c.crc_hi b s.1 h).0))

register-add_bytes :
    (c : Crc16) (bs : List ℕ)
    → IsByteState c
    → AreBytes bs
    → register (add_bytes c bs) ≡ shift_bytes (register c) bs
unfolding add_bytes shift_bytes
register-add_bytes c [] s h = refl
register-add_bytes c (b ∷ bs) s h =
    register-add_bytes (add c b) bs (add-IsByteState c b s h.0) h.1
    ∙ ap (λ r. shift_bytes r bs) (register-add c b s h.0)

pub add_bytes-IsByteState :
    (c : Crc16) (bs : List ℕ) → IsByteState c → AreBytes bs → IsByteState (add_bytes c bs)
unfolding add_bytes
add_bytes-IsByteState c [] s h = s
add_bytes-IsByteState c (b ∷ bs) s h =
    add_bytes-IsByteState (add c b) bs (add-IsByteState c b s h.0) h.1

pub add_bytes-append :
    (c : Crc16) (xs ys : List ℕ) → add_bytes c (xs ++ ys) ≡ add_bytes (add_bytes c xs) ys
unfolding add_bytes
add_bytes-append c [] ys = refl
add_bytes-append c (x ∷ xs) ys = add_bytes-append (add c x) xs ys

-- For every list of bytes, the value that the two tables compute is the value of the standard's
-- bit-serial shift register, started at 0xFFFF, with its two bytes exchanged.
pub crc_of_bytes-shift_bytes :
    (bs : List ℕ)
    → AreBytes bs
    → crc_of_bytes bs ≡ to_uint16 (lsb (shift_bytes 0xffff bs)) (msb (shift_bytes 0xffff bs))
unfolding crc_of_bytes
crc_of_bytes-shift_bytes bs h = omega (
  arith,
  register-add_bytes reset bs (omega arith) h,
  add_bytes-IsByteState reset bs (omega arith) h,
)

pub crc_of_bytes-lt : (bs : List ℕ) → AreBytes bs → crc_of_bytes bs < 65536
unfolding crc_of_bytes
crc_of_bytes-lt bs h = omega (arith, add_bytes-IsByteState reset bs (omega arith) h)

entry_zero : (hi_entry 0 ≡ 0) × (lo_entry 0 ≡ 0)
unfolding hi_entry lo_entry
entry_zero = (refl, refl)

-- The byte that the register holds for sending shifts the other one up.
add_self :
    (c : Crc16) (b : ℕ)
    → IsByteState c
    → b ≡ c.crc_hi
    → add c b ≡ record { crc_lo = 0; crc_hi = c.crc_lo }
unfolding add
add_self c b s e = ground (
  arith,
  entry_zero,
  bit_xor_bytes c.crc_hi c.crc_hi s.1 s.1,
  bit_xor_bytes c.crc_lo c.crc_lo s.0 s.0,
  bit_xor_bytes c.crc_lo 0 s.0,
  bit_xor_bytes 0 c.crc_lo,
)

-- The state before a byte comes back from the state after it.
add-injective :
    (c d : Crc16) (b : ℕ) → IsByteState c → IsByteState d → b < 256 → add c b ≡ add d b → c ≡ d
unfolding add
add-injective c d b s t h e =
    let i = bit_xor_bytes c.crc_hi b s.1 h in
    let j = bit_xor_bytes d.crc_hi b t.1 h in
    ground (
      arith,
      i,
      j,
      lo_entry-injective (bit_xor c.crc_hi b) (bit_xor d.crc_hi b) i.0 j.0,
      bit_xor_bytes c.crc_lo (hi_entry (bit_xor c.crc_hi b)) s.0 (table-bytes _ i.0).1,
      bit_xor_bytes d.crc_lo (hi_entry (bit_xor d.crc_hi b)) t.0 (table-bytes _ j.0).1,
    )

-- Two bytes that lead from one state to the same state are the same.
add-injective_byte :
    (c : Crc16) (x y : ℕ) → IsByteState c → x < 256 → y < 256 → add c x ≡ add c y → x ≡ y
unfolding add
add-injective_byte c x y s p q e =
    let i = bit_xor_bytes c.crc_hi x s.1 p in
    let j = bit_xor_bytes c.crc_hi y s.1 q in
    let same = lo_entry-injective _ _ i.0 j.0 (ap (λ d. d.crc_lo) e) in
    sym i.2 ∙ ap (bit_xor c.crc_hi) same ∙ j.2

pub add_bytes-injective :
    (c d : Crc16) (bs : List ℕ)
    → IsByteState c
    → IsByteState d
    → AreBytes bs
    → add_bytes c bs ≡ add_bytes d bs
    → c ≡ d
unfolding add_bytes
add_bytes-injective c d [] s t h e = e
add_bytes-injective c d (b ∷ bs) s t h e = add-injective c d b s t h.0 (
    add_bytes-injective (add c b) (add d b) bs (add-IsByteState c b s h.0)
      (add-IsByteState d b t h.0) h.1 e)

pub get_value-injective :
    (c d : Crc16) → IsByteState c → IsByteState d → get_value c ≡ get_value d → c ≡ d
get_value-injective c d s t e = ground arith

-- A list of bytes followed by its own CRC, high byte first as it is sent, has the CRC 0: so a
-- receiver finds an undamaged frame whole by this test too.
pub crc_of_bytes-append_self :
    (bs : List ℕ)
    → AreBytes bs
    → crc_of_bytes (bs ++ msb (crc_of_bytes bs) ∷ lsb (crc_of_bytes bs) ∷ []) ≡ 0
unfolding crc_of_bytes add_bytes
crc_of_bytes-append_self bs h =
    let c = add_bytes reset bs in
    let s = add_bytes-IsByteState reset bs (omega arith) h in
    let first = add_self c (msb (crc_of_bytes bs)) s (omega (arith, s)) in
    let second =
      add_self (record { crc_lo = 0; crc_hi = c.crc_lo }) (lsb (crc_of_bytes bs)) (omega (arith, s))
        (omega (arith, s)) in
    rw (add_bytes-append reset bs _, first, second)

-- Two frames of bytes that differ in exactly one place have different CRCs.
pub crc_of_bytes-one_byte :
    (before after : List ℕ) (x y : ℕ)
    → AreBytes before
    → AreBytes after
    → x < 256
    → y < 256
    → x ≢ y
    → crc_of_bytes (before ++ x ∷ after) ≢ crc_of_bytes (before ++ y ∷ after)
unfolding crc_of_bytes add_bytes
crc_of_bytes-one_byte before after x y hb ha hx hy ne e =
    let c = add_bytes reset before in
    let s = add_bytes-IsByteState reset before (omega arith) hb in
    let sx = add-IsByteState c x s hx in
    let sy = add-IsByteState c y s hy in
    let same =
      get_value-injective (add_bytes (add c x) after) (add_bytes (add c y) after)
        (add_bytes-IsByteState (add c x) after sx ha) (add_bytes-IsByteState (add c y) after sy ha)
        (rw (add_bytes-append reset before (x ∷ after), add_bytes-append reset before (y ∷ after))
          at e) in
    ne (
      add-injective_byte c x y s hx hy
        (add_bytes-injective (add c x) (add c y) after sx sy ha same))
