-- ===== src/Rtu/Steps.antt =====
-- modbus_rtu_client.cpp: how the events of the client move its requests, by their numbers.
use dbus_fronius.Base.{
  ℕ, zero, suc, ◌+◌, ◌≤◌, ◌≡◌, refl, sym, subst, ◌∙◌, inl, inr, Bool, true, false, Option, none,
  some, List, length, ltb, ◌==◌, ◌&&◌, [], ◌∷◌, ◌++◌, arith, if◌then◌else◌, if_both,
}
use dbus_fronius.Tcp.{timeout_error}
use dbus_fronius.Rtu.{Reply, Client, read_nothing, set_error}
use dbus_fronius.Rtu.Reading.{on_ready_read, handle_byte_read, handle_bytes, read_loop}
use dbus_fronius.Rtu.Events.{
  read_registers, read_holding_registers, read_input_registers, write_single_holding_register,
  write_multiple_holding_registers, on_error, set_timeout, Event, holding_wanted, input_wanted,
  single_wanted, multiple_wanted, timed_out, failed, timeout_set, ready, handle, time_out,
  on_timeout,
}
use dbus_fronius.Rtu.Core.{Core, core, set_error-IsResult, settle_next, process_pending-core}
use dbus_fronius.Rtu.Bytes.{handle_byte_read-Proceeds, handle_byte_read-idle}
use dbus_fronius.Rtu.Numbers.{submit-IsAt, IsResting, IsBusy, IsAt, settle-IsAt}

-- The client later, with as many requests made and no fewer answered.
abbrev pub Later : ℕ → ℕ → Client → Type 0
Later n w c = (m : ℕ) × (v : ℕ) × (m + v ≡ n + w) × (n ≤ m) × IsAt m v (core c)

pub Later-refl : (n w : ℕ) (c : Client) → IsAt n w (core c) → Later n w c
Later-refl n w c i = (n, w, refl, omega arith, i)

pub Later-trans :
    (n w : ℕ) (c d : Client)
    → ((m v : ℕ) → IsAt m v (core c) → Later m v d)
    → Later n w c
    → Later n w d
Later-trans n w c d step (m, v, e, l, i) =
    let (m', v', e', l', i') = step m v i in (m', v', omega arith, omega arith, i')

handle_byte_read-Later :
    (b n w : ℕ) (c : Client) → IsAt n w (core c) → Later n w (handle_byte_read b c)
handle_byte_read-Later b n zero c i =
    Later-refl n zero (handle_byte_read b c)
      (subst (IsResting n) (sym (handle_byte_read-idle b c i.resting)) i)
handle_byte_read-Later b n (suc w) c i =
    let d = handle_byte_read b c in
    elim (handle_byte_read-Proceeds n b c i.reading i.activated) [
      | inl same ↦ Later-refl n (suc w) d (subst (IsBusy n w) (sym same) i)
      | inr (f, h, e) ↦ (
        suc n,
        w,
        omega arith,
        omega arith,
        subst (IsAt (suc n) w) (sym e) (settle-IsAt f n w (core c) h i),
      )
    ]

handle_bytes-Later :
    (bytes : List ℕ) (n w : ℕ) (c : Client) → IsAt n w (core c) → Later n w (handle_bytes bytes c)
unfolding handle_bytes
handle_bytes-Later [] n w c i = Later-refl n w c i
handle_bytes-Later (b ∷ bytes) n w c i =
    let d = handle_byte_read b c in
    Later-trans n w d (handle_bytes bytes d) (λ m v. handle_bytes-Later bytes m v d)
      (handle_byte_read-Later b n w c i)

pub read_loop-Later :
    (first : Bool) (reads : List (Option (List ℕ))) (n w : ℕ) (c : Client)
    → IsAt n w (core c)
    → Later n w (read_loop first reads c)
unfolding read_loop
read_loop-Later first [] n w c i = Later-refl n w c i
read_loop-Later first (none ∷ reads) n w c i = (n, w, refl, omega arith, i)
read_loop-Later first (some chunk ∷ reads) n w c i =
    let d = handle_bytes chunk c in
    let rest = read_loop false reads d in
    let now = handle_bytes-Later chunk n w c i in
    if_both (Later n w) (first && (length chunk == 0))
      {yes = record c { events = c.events ++ read_nothing ∷ [] }}
      {no = if ltb (length chunk) 64 then d else rest} (n, w, refl, omega arith, i)
      (if_both (Later n w) (ltb (length chunk) 64) {yes = d} {no = rest} now
        (Later-trans n w d rest (λ m v. read_loop-Later false reads m v d) now))

settle_next-timed :
    (f : Reply → Reply) (p : ℕ) (q : List ℕ) (k : Core)
    → settle_next f p q (record k { timed = false }) ≡ settle_next f p q k
settle_next-timed f p [] k = refl
settle_next-timed f p (n ∷ ns) k = refl

time_out-IsBusy :
    (n w : ℕ) (c : Client)
    → IsBusy n w (core c)
    → IsAt (suc n) w (core (time_out c.active_reply (record c { timer = false })))
unfolding time_out
time_out-IsBusy n w c i =
    let fail = λ (r : Reply). set_error r timeout_error in
    let c' = record c { timer = false } in
    let done = settle-IsAt fail n w (core c) (set_error-IsResult timeout_error) i in
    subst (λ a. IsAt (suc n) w (core (time_out a c'))) (sym i.activated)
      (subst (IsAt (suc n) w)
        (sym
          (process_pending-core fail n c' ∙ settle_next-timed fail n c.pending_commands (core c)))
        done)

pub on_timeout-resting : (n : ℕ) (c : Client) → IsAt n 0 (core c) → IsAt n 0 (core (on_timeout c))
unfolding on_timeout
on_timeout-resting n c i =
    let c' = record c { timer = false } in
    subst (λ b. IsAt n 0 (core (if b then c' else time_out c.active_reply c'))) (sym i.resting)
      (record {
        inactive = i.inactive;
        unqueued = i.unqueued;
        resting = i.resting;
        all_made = i.all_made;
        log = record {
          answered = i.log.answered;
          finished = i.log.finished;
          on_line = i.log.on_line;
        };
      })

pub on_timeout-busy :
    (n w : ℕ) (c : Client) → IsAt n (suc w) (core c) → IsAt (suc n) w (core (on_timeout c))
unfolding on_timeout
on_timeout-busy n w c i =
    let c' = record c { timer = false } in
    subst (λ b. IsAt (suc n) w (core (if b then c' else time_out c.active_reply c')))
      (sym i.reading) (time_out-IsBusy n w c i)

-- What an event makes of `n` answered requests and `w` that wait.
abbrev pub After : Event → ℕ → ℕ → Client → Type 0
After timed_out n zero d = IsAt n 0 (core d)
After timed_out n (suc w) d = IsAt (suc n) w (core d)
After failed n w d = IsAt n w (core d)
After (timeout_set t) n w d = IsAt n w (core d)
After (ready reads) n w d = Later n w d
After _ n w d = IsAt n (suc w) (core d)

same_core : (n w : ℕ) (c d : Client) → core d ≡ core c → IsAt n w (core c) → IsAt n w (core d)
same_core n w c d e i = subst (IsAt n w) (sym e) i

pub handle-After : (e : Event) (n w : ℕ) (c : Client) → IsAt n w (core c) → After e n w (handle e c)
unfolding handle read_holding_registers read_input_registers read_registers
    write_single_holding_register write_multiple_holding_registers on_error set_timeout
    on_ready_read
handle-After (holding_wanted unit reg value) n w c i = submit-IsAt _ n w c refl i
handle-After (input_wanted unit reg value) n w c i = submit-IsAt _ n w c refl i
handle-After (single_wanted unit reg value) n w c i = submit-IsAt _ n w c refl i
handle-After (multiple_wanted unit start values) n w c i = submit-IsAt _ n w c refl i
handle-After timed_out n zero c i = on_timeout-resting n c i
handle-After timed_out n (suc w) c i = on_timeout-busy n w c i
handle-After failed n w c i = same_core n w c (on_error c) refl i
handle-After (timeout_set t) n w c i = same_core n w c (set_timeout t c) refl i
handle-After (ready reads) n w c i = read_loop-Later true reads n w c i
