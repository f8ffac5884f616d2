-- ===== src/Tcp/Pending.antt =====
-- The loop of modbus_tcp_client.cpp adds no pending replies.
use dbus_fronius.Base.{
  ℕ, zero, suc, ◌≡◌, ◌∙◌, Bool, none, List, arith, length, ◌==◌, ◌||◌, if◌then◌else◌, ltb, if_both,
  lookup, drop, lookup-erase, Option-cases, inl, inr,
}
use dbus_fronius.Tcp.{
  Reply, Client, resolve, set_finished, frame_length, byte_at, handle_frame, handle_read,
  handle_write_single, handle_exception, handle_write_multiple, process_buffer, read_holding,
  read_input, write_single, write_multiple,
}

-- The loop only calls `set_finished`, so it keeps what that keeps.
module _ (Q : Client → Type 0)
    (finishing : (tid : ℕ) (f : Reply → Reply) (c : Client) → Q c → Q (set_finished tid f c))
    (buffered : (b : List ℕ) (c : Client) → Q c → Q (record c { buffer = b })) where
  either_finishes :
      (t : Bool) (tid : ℕ) (f g : Reply → Reply) (c : Client)
      → Q c
      → Q ((if t then set_finished tid f else set_finished tid g) c)
  either_finishes t tid f g c q =
      if_both {X = Client → Client} (λ h. Q (h c)) t (finishing tid f c q) (finishing tid g c q)

  handle_frame-keeps : (b : List ℕ) (c : Client) → Q c → Q (handle_frame b c)
  unfolding handle_frame handle_read handle_write_single handle_write_multiple handle_exception
  handle_frame-keeps b c q =
      if_both Q (ltb (byte_at b 7) 128)
        (if_both Q (byte_at b 7 == read_holding || byte_at b 7 == read_input)
          (either_finishes _ _ _ _ c q)
          (if_both Q (byte_at b 7 == write_single) (either_finishes _ _ _ _ c q)
            (if_both Q (byte_at b 7 == write_multiple) (either_finishes _ _ _ _ c q) q)))
        (either_finishes _ _ _ _ c q)

  process_buffer-keeps : (fuel : ℕ) (c : Client) → Q c → Q (process_buffer fuel c)
  unfolding process_buffer
  process_buffer-keeps zero c q = q
  process_buffer-keeps (suc fuel) c q =
      let d = record (handle_frame c.buffer c) { buffer = drop (frame_length c.buffer) c.buffer } in
      if_both Q (ltb (length c.buffer) 6) q (
        if_both Q (ltb (length c.buffer) (frame_length c.buffer)) q
          (process_buffer-keeps fuel d (buffered _ _ (handle_frame-keeps c.buffer c q))))

-- A transaction that is not pending does not become so.
set_finished-none :
    (tid other : ℕ) (f : Reply → Reply) (c : Client)
    → lookup tid c.pending ≡ none
    → lookup tid (set_finished other f c).pending ≡ none
unfolding set_finished resolve
set_finished-none tid other f c e = elim (Option-cases (lookup other c.pending)) [
  | inl n ↦ rw (n, set_finished) e
  | inr (p, n) ↦ rw (n, set_finished) (lookup-erase other tid c.pending ∙ ground arith)
]

pub process_buffer-none :
    (fuel tid : ℕ) (c : Client)
    → lookup tid c.pending ≡ none
    → lookup tid (process_buffer fuel c).pending ≡ none
process_buffer-none fuel tid c =
    process_buffer-keeps (λ d. lookup tid d.pending ≡ none) (set_finished-none tid) (λ b d e. e)
      fuel c
