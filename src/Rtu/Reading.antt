-- ===== src/Rtu/Reading.antt =====
-- modbus_rtu_client.cpp: what the client does with the bytes of the serial line.
use dbus_fronius.Base.{
  ℕ, ◌+◌, ◌-◌, ◌*◌, ◌%◌, Bool, true, false, not, Option, none, some, List, [], ◌∷◌, ◌++◌, length,
  get_or, ltb, ◌==◌, ◌||◌, ◌&&◌, if◌then◌else◌,
}
use dbus_fronius.Crc.{to_uint16, get_value, add}
use dbus_fronius.Tcp.{
  no_exception, read_holding, read_input, write_single, write_multiple, payload_values,
}
use dbus_fronius.Rtu.{
  Reply, set_registers, set_error, ReadState, idle, address, function_code, byte_count,
  start_address_msb, start_address_lsb, payload, crc_msb, crc_lsb, read_failure, read_nothing,
  Client, reset_state_engine, process_pending, resolve,
}

-- The result that processPacket sets: the exception, or the case of the switch for the function.
unfoldable pub packet_result : Client → Option (Reply → Reply)
unfolding payload_values
packet_result c =
    if not (ltb c.function 128)
    then some (λ r. set_error r (get_or c.bytes 0 0))
    else if c.function == read_holding || c.function == read_input
    then some (λ r. set_registers r (payload_values (length c.bytes) c.bytes))
    else if c.function == write_single
    then some (λ r. set_registers r (to_uint16 (get_or c.bytes 0 0) (get_or c.bytes 1 0) ∷ []))
    else if c.function == write_multiple
    then some (λ r. set_error r no_exception)
    else none

-- The client and the value that is returned.
unfoldable pub set_packet_result : ℕ → Option (Reply → Reply) → Client → Client × Bool
set_packet_result p none c = (c, false)
set_packet_result p (some f) c = (resolve f p c, true)

-- The first three tests of processPacket after the one for an active reply.
abbrev pub mismatches : ℕ → Client → Bool
mismatches p c =
    not (c.crc == get_value c.crc_builder)
    || not (c.unit_id == (c.heap p).slave_address)
    || not (c.function % 128 == (c.heap p).function)

unfoldable pub process_packet_for : Option ℕ → Client → Client × Bool
unfolding packet_result set_packet_result
process_packet_for none c = (c, true)
process_packet_for (some p) c =
    if mismatches p c then (c, false) else set_packet_result p (packet_result c) c

unfoldable pub process_packet : Client → Client × Bool
unfolding process_packet_for
process_packet c = process_packet_for c.active_reply c

-- The byte after the function code belongs to this state.
unfoldable pub on_function : Client → Client
on_function c =
    if not (ltb c.function 128)
    then record c { count = 1; state = payload }
    else if c.function == read_holding || c.function == read_input
    then record c { state = byte_count }
    else if c.function == write_single || c.function == write_multiple
    then record c { state = start_address_msb }
    else reset_state_engine false c

unfoldable pub on_byte_count : ℕ → Client → Client
on_byte_count b c =
    if b == 0
    then record c { count = b; state = crc_msb; add_to_crc = false }
    else record c { count = b; state = payload }

unfoldable pub on_payload : ℕ → Client → Client
on_payload b c =
    let left = c.count - 1 in
    let bytes = if ltb 0 c.count then c.bytes ++ b ∷ [] else c.bytes in
    if left == 0
    then record c { bytes = bytes; count = left; state = crc_msb; add_to_crc = false }
    else record c { bytes = bytes; count = left }

-- The end of the case CrcLsb.
unfoldable pub conclude : Client × Bool → Client
conclude (c, done) =
    if done then process_pending (reset_state_engine true c) else reset_state_engine false c

unfoldable pub on_packet : Client → Client
unfolding process_packet conclude
on_packet c = conclude (process_packet c)

unfoldable pub on_byte : ReadState → ℕ → Client → Client
unfolding on_function on_byte_count on_payload on_packet
on_byte idle b c = c
on_byte address b c = record c { state = function_code; unit_id = b }
on_byte function_code b c = on_function (record c { function = b })
on_byte byte_count b c = on_byte_count b c
on_byte start_address_msb b c = record c { start_address = b * 256; state = start_address_lsb }
on_byte start_address_lsb b c = record c {
  start_address = c.start_address + b;
  count = 2;
  state = payload;
}
on_byte payload b c = on_payload b c
on_byte crc_msb b c = record c { crc = b * 256; state = crc_lsb }
on_byte crc_lsb b c = on_packet (record c { crc = c.crc + b })

unfoldable pub handle_byte_read : ℕ → Client → Client
unfolding on_byte
handle_byte_read b c =
    on_byte c.state b (if c.add_to_crc then record c { crc_builder = add c.crc_builder b } else c)

unfoldable pub handle_bytes : List ℕ → Client → Client
unfolding handle_byte_read
handle_bytes [] c = c
handle_bytes (b ∷ bs) c = handle_bytes bs (handle_byte_read b c)

-- The loop of onReadyRead on what the calls of `read` give, `none` for a failure. It asks again
-- only after a read that filled the buffer of 64 bytes.
unfoldable pub read_loop : Bool → List (Option (List ℕ)) → Client → Client
unfolding handle_bytes
read_loop first [] c = c
read_loop first (none ∷ reads) c = record c { events = c.events ++ read_failure ∷ [] }
read_loop first (some chunk ∷ reads) c =
    let c' = handle_bytes chunk c in
    let rest = read_loop false reads c' in
    if first && (length chunk == 0)
    then record c { events = c.events ++ read_nothing ∷ [] }
    else if ltb (length chunk) 64
    then c'
    else rest

unfoldable pub on_ready_read : List (Option (List ℕ)) → Client → Client
unfolding read_loop
on_ready_read = read_loop true
