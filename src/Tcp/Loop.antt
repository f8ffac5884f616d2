-- ===== src/Tcp/Loop.antt =====
-- The loop of onReadyRead of modbus_tcp_client.cpp comes to its end.
use dbus_fronius.Base.{
  ℕ, zero, suc, ◌≤◌, ◌<◌, ◌⊎◌, inl, inr, List, ◌++◌, arith, length, length-drop, drop, ltb,
  Bool-cases, ltb→lt,
}
use dbus_fronius.Tcp.{Client, frame_length, handle_frame, process_buffer, on_ready_read}

-- The buffer holds no whole frame.
abbrev pub IsIncomplete : List ℕ → Type 0
IsIncomplete b = (length b < 6) ⊎ (length b < frame_length b)

process_buffer-IsIncomplete :
    (fuel : ℕ) (c : Client) → length c.buffer ≤ fuel → IsIncomplete (process_buffer fuel c).buffer
unfolding process_buffer
process_buffer-IsIncomplete zero c h = inl (omega (arith, h))
process_buffer-IsIncomplete (suc fuel) c h = elim (Bool-cases (ltb (length c.buffer) 6)) [
  | inl short ↦ rw (short) (inl (ltb→lt (length c.buffer) 6 short))
  | inr e ↦ elim (Bool-cases (ltb (length c.buffer) (frame_length c.buffer))) [
    | inl partial ↦ rw (e, partial) (inr (ltb→lt (length c.buffer) (frame_length c.buffer) partial))
    | inr whole ↦
        let d = record (handle_frame c.buffer c) {
          buffer = drop (frame_length c.buffer) c.buffer;
        } in
        let shorter : length d.buffer ≤ fuel =
          ground (arith, length-drop (frame_length c.buffer) c.buffer, h, e) in
        rw (e, whole) (process_buffer-IsIncomplete fuel d shorter)
  ]
]

-- After every read of the socket, whatever the buffer holds and the bytes are, the loop over the
-- frames has come to its end: fewer than six bytes are left, or fewer than their header announces.
pub on_ready_read-IsIncomplete :
    (chunk : List ℕ) (c : Client) → IsIncomplete (on_ready_read chunk c).buffer
unfolding on_ready_read
on_ready_read-IsIncomplete chunk c =
    process_buffer-IsIncomplete (length (c.buffer ++ chunk))
      (record c { buffer = c.buffer ++ chunk }) (omega arith)
