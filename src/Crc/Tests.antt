-- ===== src/Crc/Tests.antt =====
-- The laws of the CRC at concrete frames.
use dbus_fronius.Base.{ℕ, ◌≡◌, refl, List, [], ◌∷◌, arith, AreBytes}
use dbus_fronius.Crc.{msb, lsb, to_uint16, crc_of_bytes, add, add_bytes}
use dbus_fronius.Crc.Table.{hi_entry, lo_entry}
use dbus_fronius.Crc.Reference.{shift_bytes}
use dbus_fronius.Crc.Laws.{crc_of_bytes-shift_bytes}

-- Read holding register 0x006b, 3 registers, of unit 17: CRC 0x7687 on the wire.
crc_known : crc_of_bytes (0x11 ∷ 0x03 ∷ 0x00 ∷ 0x6b ∷ 0x00 ∷ 0x03 ∷ []) ≡ 0x7687
unfolding crc_of_bytes add_bytes add hi_entry lo_entry
crc_known = refl

-- Read input register 1 of unit 17.
abbrev frame : List ℕ
frame = 17 ∷ 4 ∷ 0 ∷ 1 ∷ []

frame-AreBytes : AreBytes frame
frame-AreBytes = (omega arith, (omega arith, (omega arith, (omega arith, tt))))

crc_of_bytes-shift_bytes_example :
    crc_of_bytes frame ≡ to_uint16 (lsb (shift_bytes 0xffff frame)) (msb (shift_bytes 0xffff frame))
crc_of_bytes-shift_bytes_example = crc_of_bytes-shift_bytes frame frame-AreBytes
