-- ===== src/Tcp/Stream.antt =====
-- How onReadyRead of modbus_tcp_client.cpp puts answers together again from the pieces in which
-- TCP delivers them.
use dbus_fronius.Base.{
  ℕ, zero, suc, ◌+◌, ◌*◌, ◌≤◌, ◌<◌, ◌≡◌, refl, Bool, true, false, List, [], ◌∷◌, ◌++◌, arith,
  length, All, ◌==◌, ltb, lt→ltb,
}
use dbus_fronius.Crc.{msb, lsb, to_uint16}
use dbus_fronius.Crc.Laws.{word_halves}
use dbus_fronius.Tcp.{
  Client, set_registers, set_error, set_finished, payload_values, frame_length, handle_frame,
  handle_read, handle_exception, read_holding, read_input, write_single,
}

-- The answers that a server of the Modbus protocol gives, but for the acknowledgement of a write of
-- several registers.
pub data Response : Type 0 where
  registers_read : (tid unit : ℕ) → Bool → List ℕ → Response
  register_written : (tid unit register value : ℕ) → Response
  exception : (tid unit function code : ℕ) → Response

abbrev pub value_bytes : List ℕ → List ℕ
value_bytes [] = []
value_bytes (v ∷ vs) = msb v ∷ lsb v ∷ value_bytes vs

abbrev header : ℕ → ℕ → ℕ → ℕ → List ℕ → List ℕ
header tid size unit function body =
    msb tid ∷ lsb tid ∷ 0 ∷ 0 ∷ msb size ∷ lsb size ∷ unit ∷ function ∷ body

abbrev pub read_function : Bool → ℕ
read_function true = read_holding
read_function false = read_input

-- The answer on the wire.
abbrev pub encode : Response → List ℕ
encode (registers_read tid unit holding values) =
    header tid (3 + 2 * length values) unit (read_function holding)
      (2 * length values ∷ value_bytes values)
encode (register_written tid unit register value) =
    header tid 6 unit write_single (msb register ∷ lsb register ∷ msb value ∷ lsb value ∷ [])
encode (exception tid unit function code) = header tid 3 unit (128 + function) (code ∷ [])

-- What fits its field; a byte counts the payload of a read.
abbrev pub IsResponse : Response → Type 0
IsResponse (registers_read tid unit holding values) =
    (tid < 65536) × (length values ≤ 127) × All (λ v. v < 65536) values
IsResponse (register_written tid unit register value) = (tid < 65536) × (value < 65536)
IsResponse (exception tid unit function code) = tid < 65536

-- What an answer means for the request that it belongs to.
unfoldable pub complete : Response → Client → Client
complete (registers_read tid unit holding values) = set_finished tid (λ r. set_registers r values)
complete (register_written tid unit register value) =
    set_finished tid (λ r. set_registers r (value ∷ []))
complete (exception tid unit function code) = set_finished tid (λ r. set_error r code)

pub length-value_bytes : (vs : List ℕ) → length (value_bytes vs) ≡ 2 * length vs
length-value_bytes [] = refl
length-value_bytes (v ∷ vs) = omega (arith, length-value_bytes vs)

-- The loop over the payload reads the registers back, whatever stands behind them.
pub payload_values-value_bytes :
    (vs rest : List ℕ) (n : ℕ)
    → n ≡ 2 * length vs
    → All (λ v. v < 65536) vs
    → payload_values n (value_bytes vs ++ rest) ≡ vs
unfolding payload_values
payload_values-value_bytes [] rest zero e h = refl
payload_values-value_bytes [] rest (suc n) e h = absurd (omega arith)
payload_values-value_bytes (v ∷ vs) rest zero e h = absurd (omega arith)
payload_values-value_bytes (v ∷ vs) rest (suc zero) e h = absurd (omega arith)
payload_values-value_bytes (v ∷ vs) rest (suc (suc n)) e h =
    ground (arith, payload_values-value_bytes vs rest n)

pub frame_length-encode :
    (r : Response) (rest : List ℕ)
    → IsResponse r
    → frame_length (encode r ++ rest) ≡ length (encode r)
frame_length-encode (registers_read tid unit holding values) rest h =
    omega (arith, length-value_bytes values)
frame_length-encode (register_written tid unit register value) rest h = refl
frame_length-encode (exception tid unit function code) rest h = refl

handle_read-encode :
    (tid unit function : ℕ) (values rest : List ℕ) (c : Client)
    → (tid < 65536) × (length values ≤ 127) × All (λ v. v < 65536) values
    → handle_read
        (header tid
          (3 + 2 * length values)
          unit
          function
          (2 * length values ∷ value_bytes values ++ rest))
        c
      ≡ set_finished tid (λ r. set_registers r values) c
unfolding handle_read
handle_read-encode tid unit function values rest c h =
    let whole : (9 + 2 * length values
          == to_uint16 (msb (3 + 2 * length values)) (lsb (3 + 2 * length values)) + 6)
        ≡ true =
      ground arith in
    let frame =
      header tid (3 + 2 * length values) unit function
        (2 * length values ∷ value_bytes values ++ rest) in
    let long : ltb 8 (length frame) ≡ true = lt→ltb 8 (length frame) (omega arith) in
    rw (
      long,
      whole,
      word_halves tid h.0,
      payload_values-value_bytes values rest (2 * length values) refl h.2,
    )

-- The loop's body does to the first frame of the buffer what the answer means.
pub handle_frame-encode :
    (r : Response) (rest : List ℕ) (c : Client)
    → IsResponse r
    → handle_frame (encode r ++ rest) c ≡ complete r c
unfolding handle_frame complete
handle_frame-encode (registers_read tid unit true values) rest c h =
    handle_read-encode tid unit read_holding values rest c h
handle_frame-encode (registers_read tid unit false values) rest c h =
    handle_read-encode tid unit read_input values rest c h
handle_frame-encode (register_written tid unit register value) rest c h =
    let frame = encode (register_written tid unit register value) ++ rest in
    let long : ltb 11 (length frame) ≡ true = lt→ltb 11 (length frame) (omega arith) in
    rw (long, word_halves tid h.0, word_halves value h.1)
handle_frame-encode (exception tid unit function code) rest c h =
    let high : ltb (128 + function) 128 ≡ false = ground arith in
    let frame = encode (exception tid unit function code) ++ rest in
    let long : ltb 8 (length frame) ≡ true = lt→ltb 8 (length frame) (omega arith) in
    rw (high, handle_exception, long, word_halves tid h)
