-- ===== src/Rtu/Core.antt =====
-- modbus_rtu_client.cpp: the part of the client's state that its queue of requests depends on.
use dbus_fronius.Base.{
  ℕ, ◌≡◌, refl, Bool, true, false, Option, none, some, List, [], ◌∷◌, ◌++◌, ◌==◌, if◌then◌else◌,
  if_both, arith,
}
use dbus_fronius.Rtu.{
  Reply, set_registers, set_error, is_idle, Client, reset_state_engine, request_bytes,
  request_frame, send, send_first, process_pending, resolve,
}

pub record Core : Type 0 where
  pub active : Option ℕ
  pub queued : List ℕ
  pub at_rest : Bool
  pub timed : Bool
  pub heap : ℕ → Reply
  pub allocated : ℕ
  pub sent : List (List ℕ)
  pub announced : List ℕ

abbrev pub core : Client → Core
core c = record {
  active = c.active_reply;
  queued = c.pending_commands;
  at_rest = is_idle c.state;
  timed = c.timer;
  heap = c.heap;
  allocated = c.allocated;
  sent = c.sent;
  announced = c.announced;
}

-- A result finishes a reply that is not finished, and leaves the request as it is.
pub record IsResult (f : Reply → Reply) : Type 0 where
  pub finishes : (r : Reply) → (f r).finished ≡ true
  pub frame : (r : Reply) → request_frame (f r) ≡ request_frame r

pub set_registers-IsResult : (values : List ℕ) → IsResult (λ r. set_registers r values)
unfolding set_registers request_frame request_bytes
set_registers-IsResult values = record {
  finishes = λ r. ground arith;
  frame = λ r. if_both (λ s. request_frame s ≡ request_frame r) r.finished refl refl;
}

pub set_error-IsResult : (e : ℕ) → IsResult (λ r. set_error r e)
unfolding set_error request_frame request_bytes
set_error-IsResult code = record {
  finishes = λ r. ground arith;
  frame = λ r. if_both (λ s. request_frame s ≡ request_frame r) r.finished refl refl;
}

-- The end of a request: its result, and the next one of the queue.
abbrev pub heap_with : (Reply → Reply) → ℕ → Core → ℕ → Reply
heap_with f p k q = if q == p then f (k.heap p) else k.heap q

abbrev pub announced_with : ℕ → Core → List ℕ
announced_with p k = if (k.heap p).finished then k.announced else k.announced ++ p ∷ []

abbrev pub settle_next : (Reply → Reply) → ℕ → List ℕ → Core → Core
settle_next f p [] k = record {
  active = none;
  queued = k.queued;
  at_rest = true;
  timed = false;
  heap = heap_with f p k;
  allocated = k.allocated;
  sent = k.sent;
  announced = announced_with p k;
}
settle_next f p (n ∷ ns) k = record {
  active = some n;
  queued = ns;
  at_rest = false;
  timed = true;
  heap = heap_with f p k;
  allocated = k.allocated;
  sent = k.sent ++ request_frame (heap_with f p k n) ∷ [];
  announced = announced_with p k;
}

abbrev pub settle : (Reply → Reply) → ℕ → Core → Core
settle f p k = settle_next f p k.queued k

send_first-core :
    (f : Reply → Reply) (p : ℕ) (ps : List ℕ) (c : Client)
    → core (send_first ps (reset_state_engine true (resolve f p c))) ≡ settle_next f p ps (core c)
unfolding send_first send reset_state_engine resolve
send_first-core f p [] c = refl
send_first-core f p (n ∷ ns) c = refl

pub process_pending-core :
    (f : Reply → Reply) (p : ℕ) (c : Client)
    → core (process_pending (reset_state_engine true (resolve f p c))) ≡ settle f p (core c)
unfolding process_pending reset_state_engine resolve
process_pending-core f p c = send_first-core f p c.pending_commands c
