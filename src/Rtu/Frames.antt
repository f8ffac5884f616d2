-- ===== src/Rtu/Frames.antt =====
-- The frames that modbus_rtu_client.cpp sends, read by a device that follows the Modbus standard.
use dbus_fronius.Base.{
  ℕ, ◌+◌, ◌*◌, ◌<◌, ◌≡◌, refl, Bool, true, false, ◌&&◌, ◌||◌, List, [], ◌∷◌, ◌++◌, arith, length,
  get_or, AreBytes, ◌==◌, ==_iff, if◌then◌else◌,
}
use dbus_fronius.Crc.{to_uint16, msb, lsb, crc_of_bytes}
use dbus_fronius.Crc.Laws.{crc_of_bytes-append_self}
use dbus_fronius.Tcp.{read_holding, read_input, write_single, write_multiple}
use dbus_fronius.Rtu.{request_bytes, request_frame}
use dbus_fronius.Rtu.Events.{new_reply}

-- A device takes a frame if its length is that which the standard has for the function, the byte
-- count of a write of several registers (the seventh byte, which the values follow) is twice their
-- number, and the CRC is right.
abbrev pub takes : List ℕ → Bool
takes frame =
    let f = get_or frame 1 0 in
    let counted = get_or frame 6 0 in
    (if f == write_multiple
      then (length frame == 9 + counted)
        && (counted == 2 * to_uint16 (get_or frame 4 0) (get_or frame 5 0))
      else (f == read_holding || f == read_input || f == write_single) && (length frame == 8))
    && (crc_of_bytes frame == 0)

has_crc :
    (bytes : List ℕ)
    → AreBytes bytes
    → let crc = crc_of_bytes bytes in (crc_of_bytes (bytes ++ msb crc ∷ lsb crc ∷ []) == 0) ≡ true
has_crc bytes h = (==_iff _ 0).1 (crc_of_bytes-append_self bytes h)

takes_eight :
    (unit reg value : ℕ) (function : ℕ)
    → unit < 256
    → function < 256
    → let bytes = unit ∷ function ∷ msb reg ∷ lsb reg ∷ msb value ∷ lsb value ∷ [] in
      let crc = crc_of_bytes bytes in (crc_of_bytes (bytes ++ msb crc ∷ lsb crc ∷ []) == 0) ≡ true
takes_eight unit reg value function u f =
    has_crc (unit ∷ function ∷ msb reg ∷ lsb reg ∷ msb value ∷ lsb value ∷ [])
      (u, (f, (omega arith, (omega arith, (omega arith, (omega arith, tt))))))

not_counted :
    (n : ℕ) → ((10 == 9 + msb (2 * n)) && (msb (2 * n) == 2 * to_uint16 (msb n) (lsb n))) ≡ false
not_counted n = ground arith

-- A device that follows the standard takes the frames that the client sends to read registers of
-- either kind and to write one register. It never takes the frame of a write of several registers,
-- however many there are: the client sends a byte count of two bytes, and no values.
pub request_frame-takes :
    (unit reg count value : ℕ) (values : List ℕ)
    → unit < 256
    → (takes (request_frame (new_reply read_holding unit reg count [])) ≡ true)
      × (takes (request_frame (new_reply read_input unit reg count [])) ≡ true)
      × (takes (request_frame (new_reply write_single unit reg 0 (value ∷ []))) ≡ true)
      × (takes (request_frame (new_reply write_multiple unit reg 0 values)) ≡ false)
unfolding request_frame request_bytes
request_frame-takes unit reg count value values u = (
  takes_eight unit reg count read_holding u (omega arith),
  takes_eight unit reg count read_input u (omega arith),
  takes_eight unit reg value write_single u (omega arith),
  rw (not_counted (length values)) refl,
)
