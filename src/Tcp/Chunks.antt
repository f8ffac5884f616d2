-- ===== src/Tcp/Chunks.antt =====
-- How onReadyRead of modbus_tcp_client.cpp puts answers together again from the pieces in which
-- TCP delivers them: the loop over the buffer, and a history of reads.
use dbus_fronius.Base.{
  ℕ, zero, suc, ◌≤◌, ◌<◌, ◌≡◌, refl, sym, ap, subst, ◌∙◌, inl, inr, List, [], ◌∷◌, ◌++◌,
  append_assoc, arith, length, length-append, drop-append, get_or-append, split_longer, All,
  Option-cases, lookup, le→ltb,
}
use native.Mathlib.Decide.{dec_lt}
use dbus_fronius.Tcp.{
  Reply, Client, resolve, set_finished, frame_length, process_buffer, on_ready_read,
}
use dbus_fronius.Tcp.Stream.{
  Response, registers_read, register_written, exception, encode, IsResponse, complete,
  frame_length-encode, handle_frame-encode,
}

-- The bytes of a row of answers, and what the row means for the client.
abbrev pub encode_all : List Response → List ℕ
encode_all [] = []
encode_all (r ∷ rs) = encode r ++ encode_all rs

unfoldable pub complete_all : List Response → Client → Client
complete_all [] c = c
complete_all (r ∷ rs) c = complete_all rs (complete r c)

-- The client after a row of reads, each of the bytes that have arrived by then.
unfoldable pub feed : List (List ℕ) → Client → Client
feed [] c = c
feed (chunk ∷ chunks) c = feed chunks (on_ready_read chunk c)

abbrev pub concat : List (List ℕ) → List ℕ
concat [] = []
concat (b ∷ bs) = b ++ concat bs

abbrev with_buffer : List ℕ → Client → Client
with_buffer b c = record c { buffer = b }

set_finished-with_buffer :
    (tid : ℕ) (f : Reply → Reply) (b : List ℕ) (c : Client)
    → set_finished tid f (with_buffer b c) ≡ with_buffer b (set_finished tid f c)
unfolding set_finished resolve
set_finished-with_buffer tid f b c = elim (Option-cases (lookup tid c.pending)) [
  | inl e ↦ rw (e, set_finished)
  | inr (p, e) ↦ rw (e, set_finished)
]

complete-with_buffer :
    (r : Response) (b : List ℕ) (c : Client)
    → complete r (with_buffer b c) ≡ with_buffer b (complete r c)
unfolding complete
complete-with_buffer (registers_read tid unit holding values) b c =
    set_finished-with_buffer tid _ b c
complete-with_buffer (register_written tid unit register value) b c =
    set_finished-with_buffer tid _ b c
complete-with_buffer (exception tid unit function code) b c = set_finished-with_buffer tid _ b c

complete_all-with_buffer :
    (rs : List Response) (b : List ℕ) (c : Client)
    → complete_all rs (with_buffer b c) ≡ with_buffer b (complete_all rs c)
unfolding complete_all
complete_all-with_buffer [] b c = refl
complete_all-with_buffer (r ∷ rs) b c =
    ap (complete_all rs) (complete-with_buffer r b c) ∙ complete_all-with_buffer rs b (complete r c)

-- The buffer holds less than the first answer that is still to come.
abbrev IsShort : List ℕ → List Response → Type 0
IsShort b [] = b ≡ []
IsShort b (r ∷ rs) = length b < length (encode r)

-- What a run of the loop on buffer `b`, with `s` still to arrive, leaves of the answers `rs`.
abbrev Settles : ℕ → List ℕ → List ℕ → List Response → Client → Type 0
Settles fuel b s rs c =
    (now : List Response) × (later : List Response) × (b' : List ℕ) × (now ++ later ≡ rs)
    × (process_buffer fuel (with_buffer b c) ≡ with_buffer b' (complete_all now c))
    × (b' ++ s ≡ encode_all later)
    × IsShort b' later
    × All IsResponse later

nil_of_append : (b s : List ℕ) → b ++ s ≡ [] → b ≡ []
nil_of_append [] s e = refl
nil_of_append (x ∷ b) s e = cc

-- A buffer that holds a part of an answer only is left for the next read.
process_buffer-short :
    (fuel : ℕ) (b s : List ℕ) (r : Response) (rs : List Response) (c : Client)
    → IsResponse r
    → b ++ s ≡ encode r ++ encode_all rs
    → length b < length (encode r)
    → process_buffer fuel (with_buffer b c) ≡ with_buffer b c
unfolding process_buffer
process_buffer-short zero b s r rs c h e short = refl
process_buffer-short (suc fuel) b s r rs c h e short = ground (
  arith,
  frame_length-encode r (encode_all rs) h,
  ap frame_length e,
  get_or-append b s 4 0,
  get_or-append b s 5 0,
)

length-encode : (r : Response) → 6 ≤ length (encode r)
length-encode (registers_read tid unit holding values) = omega arith
length-encode (register_written tid unit register value) = omega arith
length-encode (exception tid unit function code) = omega arith

-- A whole answer at the front of the buffer is dealt with and taken off.
process_buffer-encode :
    (fuel : ℕ) (r : Response) (b : List ℕ) (c : Client)
    → IsResponse r
    → process_buffer (suc fuel) (with_buffer (encode r ++ b) c)
      ≡ process_buffer fuel (with_buffer b (complete r c))
unfolding process_buffer
process_buffer-encode fuel r b c h = rw (
  le→ltb (length (encode r ++ b)) 6 (omega (arith, length-append (encode r) b, length-encode r)),
  frame_length-encode r b h,
  le→ltb (length (encode r ++ b)) (length (encode r)) (omega (arith, length-append (encode r) b)),
  drop-append (encode r) b,
  handle_frame-encode r b (with_buffer (encode r ++ b) c) h,
  complete-with_buffer r (encode r ++ b) c,
)

process_buffer-nil :
    (fuel : ℕ) (c : Client) → process_buffer fuel (with_buffer [] c) ≡ with_buffer [] c
unfolding process_buffer
process_buffer-nil zero c = refl
process_buffer-nil (suc fuel) c = refl

process_buffer-taken :
    (r : Response) (rs : List Response) (fuel : ℕ) (b b' s : List ℕ) (c : Client)
    → IsResponse r
    → b ≡ encode r ++ b'
    → Settles fuel b' s rs (complete r c)
    → Settles (suc fuel) b s (r ∷ rs) c
unfolding complete_all
process_buffer-taken r rs fuel b b' s c h e (now, later, rest, eq, run, left, short, ok) = (
  r ∷ now,
  later,
  rest,
  ap (λ l. r ∷ l) eq,
  rw e (process_buffer-encode fuel r b' c h ∙ run),
  left,
  short,
  ok,
)

-- The loop takes every answer that the buffer holds whole, in order, and leaves the rest.
process_buffer-Settles :
    (rs : List Response) (fuel : ℕ) (b s : List ℕ) (c : Client)
    → All IsResponse rs
    → b ++ s ≡ encode_all rs
    → length b ≤ fuel
    → Settles fuel b s rs c
unfolding process_buffer complete_all
process_buffer-Settles [] fuel b s c h e enough =
    let empty = nil_of_append b s e in
    ([], [], b, refl, rw empty (process_buffer-nil fuel c), e, empty, h)
process_buffer-Settles (r ∷ rs) zero b s c h e enough =
    ([], r ∷ rs, b, refl, refl, e, omega (arith, length-encode r), h)
process_buffer-Settles (r ∷ rs) (suc fuel) b s c h e enough =
    elim (dec_lt (length b) (length (encode r))) [
      | yes short ↦
          ([], r ∷ rs, b, refl, process_buffer-short (suc fuel) b s r rs c h.0 e short, e, short, h)
      | no long ↦
          let (b', p, q) = split_longer b s (encode r) (encode_all rs) e (omega arith) in
          process_buffer-taken r rs fuel b b' s c h.0 p (
            process_buffer-Settles rs fuel b' s (complete r c) h.1 q
              (omega (arith, length-encode r, ap length p, length-append (encode r) b')))
    ]

complete_all-append :
    (xs ys : List Response) (c : Client)
    → complete_all (xs ++ ys) c ≡ complete_all ys (complete_all xs c)
unfolding complete_all
complete_all-append [] ys c = refl
complete_all-append (x ∷ xs) ys c = complete_all-append xs ys (complete x c)

feed-Settles :
    (chunks : List (List ℕ)) (rs : List Response) (c : Client)
    → All IsResponse rs
    → c.buffer ++ concat chunks ≡ encode_all rs
    → IsShort c.buffer rs
    → feed chunks c ≡ with_buffer [] (complete_all rs c)
unfolding feed on_ready_read complete_all
feed-Settles [] [] c h e short = λ i. record c { buffer = short i }
feed-Settles [] (r ∷ rs) c h e short = absurd (
    omega (arith, ap length e, length-append c.buffer [], length-append (encode r) (encode_all rs)))
feed-Settles (chunk ∷ chunks) rs c h e short =
    let b = c.buffer ++ chunk in
    let (now, later, b', eq, run, left, short', ok) =
      process_buffer-Settles rs (length b) b (concat chunks) c h
        (append_assoc c.buffer chunk (concat chunks) ∙ e) (omega arith) in
    ap (feed chunks) run
    ∙ feed-Settles chunks later (with_buffer b' (complete_all now c)) ok left short'
    ∙ ap (with_buffer []) (complete_all-with_buffer later b' (complete_all now c))
    ∙ ap (with_buffer []) (sym (complete_all-append now later c) ∙ ap (λ l. complete_all l c) eq)

nil-IsShort : (rs : List Response) → IsShort [] rs
nil-IsShort [] = refl
nil-IsShort (r ∷ rs) = omega (arith, length-encode r)

-- However the bytes of a row of well-formed answers to reads and single writes and of exceptions
-- are cut into reads of the socket, a client with an empty buffer ends with an empty buffer again
-- and with each answer delivered to its request, in order.
pub feed-encode_all :
    (chunks : List (List ℕ)) (rs : List Response) (c : Client)
    → All IsResponse rs
    → c.buffer ≡ []
    → concat chunks ≡ encode_all rs
    → feed chunks c ≡ record (complete_all rs c) { buffer = [] }
feed-encode_all chunks rs c h empty e =
    feed-Settles chunks rs c h (rw empty e) (subst (λ b. IsShort b rs) (sym empty) (nil-IsShort rs))
