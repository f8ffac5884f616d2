-- ===== src/Crc.antt =====
-- software/src/modbus_tcp_client/crc16.h and crc16.cpp: the byte helpers and the table-driven CRC.
-- A byte is a number below 256 and a quint16 a number below 65536.
pub mod Table
pub mod Reference
pub mod Laws
mod Tests
use dbus_fronius.Base.{ℕ, ◌+◌, ◌*◌, ◌/◌, ◌%◌, ◌≡◌, refl, List, [], ◌∷◌, bit_xor}
use Table.{hi_entry, lo_entry}

-- `(uint8_t)(d >> 8)` and `d & 0xFF`.
abbrev pub msb : ℕ → ℕ
msb d = d / 256 % 256

abbrev pub lsb : ℕ → ℕ
lsb d = d % 256

-- `(msb << 8) | lsb`, a sum since the low byte is free.
abbrev pub to_uint16 : ℕ → ℕ → ℕ
to_uint16 m l = m * 256 + l

pub record Crc16 : Type 0 where
  pub crc_lo : ℕ
  pub crc_hi : ℕ

abbrev pub reset : Crc16
reset = record { crc_lo = 0xff; crc_hi = 0xff }

unfoldable pub add : Crc16 → ℕ → Crc16
add c byte =
    let index = bit_xor c.crc_hi byte in
    record { crc_lo = lo_entry index; crc_hi = bit_xor c.crc_lo (hi_entry index) }

unfoldable pub add_bytes : Crc16 → List ℕ → Crc16
add_bytes c [] = c
add_bytes c (b ∷ bs) = add_bytes (add c b) bs

abbrev pub get_value : Crc16 → ℕ
get_value c = to_uint16 c.crc_hi c.crc_lo

unfoldable pub crc_of_bytes : List ℕ → ℕ
crc_of_bytes bytes = get_value (add_bytes reset bytes)
