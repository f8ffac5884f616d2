-- ===== src/Tcp/Preservation.antt =====
-- Each operation of modbus_tcp_client.cpp keeps the replies in order and the results that there
-- are.
use dbus_fronius.Base.{
  ℕ, zero, suc, ◌<◌, ◌≡◌, refl, Bool, List, [], ◌∷◌, ◌++◌, ◌||◌, inl, inr, if_both, arith, ltb,
  ◌==◌, if◌then◌else◌, Option-cases, AllValues, AllValues-lookup, AllValues-erase, AllValues-mono,
  lookup, erase, insert, length, drop,
}
use dbus_fronius.Tcp.{
  Reply, Client, set_registers, set_error, resolve, set_finished, handle_read, handle_write_single,
  handle_write_multiple, handle_exception, handle_frame, process_buffer, frame_length, byte_at,
  parse_error, tcp_error, read_holding, read_input, write_single, write_multiple, Signal,
}
use dbus_fronius.Tcp.Requests.{send_frame, fail_all}
use dbus_fronius.Tcp.Replies.{
  announced, announced-append, IsValid, Good, refl-Keeps, trans-Keeps, IsResult,
  set_registers-IsResult, set_error-IsResult, resolve-Keeps, resolve-IsValid,
}

pub trans-Good : (c d e : Client) → Good c d → (IsValid d → Good d e) → Good c e
trans-Good c d e g next = let n = next g.0 in (n.0, trans-Keeps c d e g.1 n.1)

pub resolve-Good :
    (f : Reply → Reply) (p : ℕ) (c : Client)
    → IsResult f
    → p < c.allocated
    → IsValid c
    → Good c (resolve f p c)
resolve-Good f p c i lt v = (resolve-IsValid f p c i lt v, resolve-Keeps f p c i)

pub erase-IsValid :
    (tid : ℕ) (c : Client) → IsValid c → IsValid (record c { pending = erase tid c.pending })
erase-IsValid tid c v = record {
  pending_allocated = AllValues-erase (λ p. p < c.allocated) tid c.pending v.pending_allocated;
  once = v.once;
}

pub set_finished-Good :
    (tid : ℕ) (f : Reply → Reply) (c : Client)
    → IsResult f
    → IsValid c
    → Good c (set_finished tid f c)
unfolding set_finished
set_finished-Good tid f c i v = elim (Option-cases (lookup tid c.pending)) [
  | inl e ↦ rw (e, set_finished) (v, refl-Keeps c)
  | inr (p, e) ↦
      rw (e, set_finished)
        (trans-Good c (record c { pending = erase tid c.pending }) _
          (erase-IsValid tid c v, record { grows = omega arith; kept = λ q lt h. refl })
          (resolve-Good f p (record c { pending = erase tid c.pending }) i
            (AllValues-lookup (λ q. q < c.allocated) tid c.pending p v.pending_allocated e)))
]

-- Either branch of a case of the switch ends in one call of setFinished.
registers_or_error :
    (t : Bool) (tid : ℕ) (values : List ℕ) (e : ℕ) (c : Client)
    → IsValid c
    → Good c (
        (if t
            then set_finished tid (λ r. set_registers r values)
            else set_finished tid (λ r. set_error r e))
          c)
registers_or_error t tid values e c v =
    if_both {X = Client → Client} (λ h. Good c (h c)) t
      (set_finished-Good tid _ c (set_registers-IsResult values) v)
      (set_finished-Good tid _ c (set_error-IsResult e) v)

handle_exception-Good : (b : List ℕ) (c : Client) → IsValid c → Good c (handle_exception b c)
unfolding handle_exception
handle_exception-Good b c v =
    if_both {X = Client → Client} (λ h. Good c (h c)) (ltb 8 (length b))
      (set_finished-Good _ _ c (set_error-IsResult (byte_at b 8)) v)
      (set_finished-Good _ _ c (set_error-IsResult parse_error) v)

handle_frame-Good : (b : List ℕ) (c : Client) → IsValid c → Good c (handle_frame b c)
unfolding handle_frame handle_read handle_write_single handle_write_multiple
handle_frame-Good b c v =
    if_both (Good c) (ltb (byte_at b 7) 128)
      (if_both (Good c) (byte_at b 7 == read_holding || byte_at b 7 == read_input)
        (registers_or_error _ _ _ parse_error c v)
        (if_both (Good c) (byte_at b 7 == write_single) (registers_or_error _ _ _ parse_error c v) (
          if_both (Good c) (byte_at b 7 == write_multiple)
            (registers_or_error _ _ [] parse_error c v) (v, refl-Keeps c))))
      (handle_exception-Good b c v)

pub with_buffer-IsValid : (b : List ℕ) (c : Client) → IsValid c → IsValid (record c { buffer = b })
with_buffer-IsValid b c v = record { pending_allocated = v.pending_allocated; once = v.once }

pub with_buffer-Good : (b : List ℕ) (c d : Client) → Good c d → Good c (record d { buffer = b })
with_buffer-Good b c d g =
    (with_buffer-IsValid b d g.0, record { grows = g.1.grows; kept = g.1.kept })

pub process_buffer-Good : (fuel : ℕ) (c : Client) → IsValid c → Good c (process_buffer fuel c)
unfolding process_buffer
process_buffer-Good zero c v = (v, refl-Keeps c)
process_buffer-Good (suc fuel) c v =
    let d = record (handle_frame c.buffer c) { buffer = drop (frame_length c.buffer) c.buffer } in
    let stay : Good c c = (v, refl-Keeps c) in
    if_both (Good c) (ltb (length c.buffer) 6) stay (
      if_both (Good c) (ltb (length c.buffer) (frame_length c.buffer)) stay (
        trans-Good c d _ (with_buffer-Good _ c _ (handle_frame-Good c.buffer c v))
          (process_buffer-Good fuel d)))

-- Signals that concern the connection announce no result.
pub signals-Good :
    (c : Client) (t : Bool) (s : List Signal)
    → ((p : ℕ) → announced p s ≡ 0)
    → IsValid c
    → Good c (record c { connect_timer = t; signals = c.signals ++ s })
signals-Good c t s quiet v = (
  record {
    pending_allocated = v.pending_allocated;
    once = λ p. omega (arith, announced-append p c.signals s, quiet p, v.once p);
  },
  record { grows = omega arith; kept = λ p lt h. refl },
)

resolve_inside :
    (p : ℕ) (c : Client) (m : List (ℕ × ℕ))
    → AllValues (λ q. q < c.allocated) m
    → AllValues (λ q. q < (resolve (λ r. set_error r tcp_error) p c).allocated) m
unfolding resolve
resolve_inside p c m h = h

pub fail_all-Good :
    (m : List (ℕ × ℕ)) (c : Client)
    → AllValues (λ p. p < c.allocated) m
    → IsValid c
    → Good c (fail_all m c)
unfolding fail_all
fail_all-Good [] c inside v = (v, refl-Keeps c)
fail_all-Good ((tid, p) ∷ m) c inside v =
    trans-Good c (resolve (λ r. set_error r tcp_error) p c) _
      (resolve-Good _ p c (set_error-IsResult tcp_error) inside.0 v)
      (fail_all-Good m (resolve (λ r. set_error r tcp_error) p c) (resolve_inside p c m inside.1))

pub send_frame-Good : (frame : List ℕ) (c : Client) → IsValid c → Good c (send_frame frame c).0
unfolding send_frame insert
send_frame-Good frame c v = (
  record {
    pending_allocated = (
      omega arith,
      AllValues-erase (λ p. p < suc c.allocated) c.next_transaction c.pending
          (AllValues-mono (λ p. p < c.allocated) (λ p. p < suc c.allocated) c.pending
            (λ p h. omega arith) v.pending_allocated),
    );
    once = λ p. ground (arith, v.once p);
  },
  record { grows = omega arith; kept = λ p lt h. ground arith },
)
