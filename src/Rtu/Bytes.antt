-- ===== src/Rtu/Bytes.antt =====
-- modbus_rtu_client.cpp: what a byte of the serial line does to the requests.
use dbus_fronius.Base.{
  ℕ, ◌+◌, ◌-◌, ◌≡◌, refl, sym, ap, subst, ◌⊎◌, inl, inr, true, false, not, ◌||◌, Option, none, some,
  [], ◌∷◌, ◌++◌, ◌==◌, ltb, if◌then◌else◌, if_both,
}
use dbus_fronius.Crc.{add}
use dbus_fronius.Tcp.{read_holding, read_input, write_single, write_multiple}
use dbus_fronius.Rtu.{
  Reply, ReadState, idle, address, function_code, byte_count, start_address_msb, start_address_lsb,
  payload, crc_msb, crc_lsb, is_idle, Client, reset_state_engine,
}
use dbus_fronius.Rtu.Reading.{
  packet_result, mismatches, set_packet_result, process_packet_for, process_packet, conclude,
  on_function, on_byte_count, on_payload, on_packet, on_byte, handle_byte_read,
}
use dbus_fronius.Rtu.Core.{
  core, IsResult, set_registers-IsResult, set_error-IsResult, settle, process_pending-core,
}

-- The client goes on reading.
abbrev pub Goes : Client → Client → Type 0
Goes c d = core d ≡ core c

abbrev pub Settles : ℕ → Client → Client → Type 0
Settles p c d = (f : Reply → Reply) × IsResult f × (core d ≡ settle f p (core c))

-- What a byte can mean for the requests, when the reply `p` is the active one.
abbrev pub Proceeds : ℕ → Client → Client → Type 0
Proceeds p c d = Goes c d ⊎ Settles p c d

data AreResults : Option (Reply → Reply) → Type 0 where
  absent : AreResults none
  present : (f : Reply → Reply) → IsResult f → AreResults (some f)

packet_result-AreResults : (c : Client) → AreResults (packet_result c)
unfolding packet_result
packet_result-AreResults c =
    if_both AreResults (not (ltb c.function 128)) (present _ (set_error-IsResult _)) (
      if_both AreResults (c.function == read_holding || c.function == read_input)
        (present _ (set_registers-IsResult _))
        (if_both AreResults (c.function == write_single) (present _ (set_registers-IsResult _)) (
          if_both AreResults (c.function == write_multiple) (present _ (set_error-IsResult _))
            absent)))

awake : (c : Client) → is_idle c.state ≡ false → record (core c) { at_rest = false } ≡ core c
awake c n = ap (λ i. record (core c) { at_rest = i }) (sym n)

-- The client listens on where it was waiting.
reset-Goes : (c : Client) → is_idle c.state ≡ false → Goes c (reset_state_engine false c)
unfolding reset_state_engine
reset-Goes c n = awake c n

set_packet_result-Proceeds :
    (p : ℕ) (o : Option (Reply → Reply)) (c : Client)
    → is_idle c.state ≡ false
    → AreResults o
    → Proceeds p c (conclude (set_packet_result p o c))
unfolding conclude set_packet_result
set_packet_result-Proceeds p none c n absent = inl (reset-Goes c n)
set_packet_result-Proceeds p (some f) c n (present _ h) = inr (f, h, process_pending-core f p c)

on_packet-Proceeds :
    (p : ℕ) (c : Client)
    → is_idle c.state ≡ false
    → c.active_reply ≡ some p
    → Proceeds p c (on_packet c)
unfolding on_packet process_packet process_packet_for conclude
on_packet-Proceeds p c n e =
    subst (λ a. Proceeds p c (conclude (process_packet_for a c))) (sym e)
      (if_both (λ r. Proceeds p c (conclude r)) (mismatches p c) {yes = (c, false)}
        {no = set_packet_result p (packet_result c) c} (inl (reset-Goes c n))
        (set_packet_result-Proceeds p (packet_result c) c n (packet_result-AreResults c)))

on_function-Goes : (c : Client) → is_idle c.state ≡ false → Goes c (on_function c)
unfolding on_function reset_state_engine
on_function-Goes c n =
    let listens = reset_state_engine false c in
    let writes = record c { state = start_address_msb } in
    let write = c.function == write_single || c.function == write_multiple in
    let known = if write then writes else listens in
    let reads = record c { state = byte_count } in
    let read = c.function == read_holding || c.function == read_input in
    if_both (Goes c) (not (ltb c.function 128)) {yes = record c { count = 1; state = payload }}
      {no = if read then reads else known} (awake c n)
      (if_both (Goes c) read {yes = reads} {no = known} (awake c n)
        (if_both (Goes c) write {yes = writes} {no = listens} (awake c n) (awake c n)))

on_byte_count-Goes : (b : ℕ) (c : Client) → is_idle c.state ≡ false → Goes c (on_byte_count b c)
unfolding on_byte_count
on_byte_count-Goes b c n =
    if_both (Goes c) (b == 0) {yes = record c { count = b; state = crc_msb; add_to_crc = false }}
      {no = record c { count = b; state = payload }} (awake c n) (awake c n)

on_payload-Goes : (b : ℕ) (c : Client) → is_idle c.state ≡ false → Goes c (on_payload b c)
unfolding on_payload
on_payload-Goes b c n =
    let bytes = if ltb 0 c.count then c.bytes ++ b ∷ [] else c.bytes in
    if_both (Goes c) (c.count - 1 == 0)
      {yes = record c { bytes = bytes; count = c.count - 1; state = crc_msb; add_to_crc = false }}
      {no = record c { bytes = bytes; count = c.count - 1 }} (awake c n) refl

on_byte-Proceeds :
    (p b : ℕ) (s : ReadState) (c : Client)
    → is_idle s ≡ false
    → is_idle c.state ≡ false
    → c.active_reply ≡ some p
    → Proceeds p c (on_byte s b c)
unfolding on_byte
on_byte-Proceeds p b idle c r n e = cc
on_byte-Proceeds p b address c r n e = inl (awake c n)
on_byte-Proceeds p b function_code c r n e = inl (on_function-Goes (record c { function = b }) n)
on_byte-Proceeds p b byte_count c r n e = inl (on_byte_count-Goes b c n)
on_byte-Proceeds p b start_address_msb c r n e = inl (awake c n)
on_byte-Proceeds p b start_address_lsb c r n e = inl (awake c n)
on_byte-Proceeds p b payload c r n e = inl (on_payload-Goes b c n)
on_byte-Proceeds p b crc_msb c r n e = inl (awake c n)
on_byte-Proceeds p b crc_lsb c r n e = on_packet-Proceeds p (record c { crc = c.crc + b }) n e

-- A byte that comes while a request waits for its answer changes nothing of the requests, or ends
-- the active one.
pub handle_byte_read-Proceeds :
    (p b : ℕ) (c : Client)
    → is_idle c.state ≡ false
    → c.active_reply ≡ some p
    → Proceeds p c (handle_byte_read b c)
unfolding handle_byte_read
handle_byte_read-Proceeds p b c n e =
    if_both (λ d. Proceeds p c (on_byte c.state b d)) c.add_to_crc
      (on_byte-Proceeds p b c.state (record c { crc_builder = add c.crc_builder b }) n n e)
      (on_byte-Proceeds p b c.state c n n e)

on_byte-idle : (b : ℕ) (s : ReadState) (c : Client) → is_idle s ≡ true → on_byte s b c ≡ c
unfolding on_byte
on_byte-idle b idle c e = refl
on_byte-idle b address c e = cc
on_byte-idle b function_code c e = cc
on_byte-idle b byte_count c e = cc
on_byte-idle b start_address_msb c e = cc
on_byte-idle b start_address_lsb c e = cc
on_byte-idle b payload c e = cc
on_byte-idle b crc_msb c e = cc
on_byte-idle b crc_lsb c e = cc

pub handle_byte_read-idle :
    (b : ℕ) (c : Client) → is_idle c.state ≡ true → Goes c (handle_byte_read b c)
unfolding handle_byte_read
handle_byte_read-idle b c e =
    if_both (λ d. Goes c (on_byte c.state b d)) c.add_to_crc
      (ap core (on_byte-idle b c.state (record c { crc_builder = add c.crc_builder b }) e))
      (ap core (on_byte-idle b c.state c e))
