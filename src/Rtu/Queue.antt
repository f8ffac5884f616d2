-- ===== src/Rtu/Queue.antt =====
-- modbus_rtu_client.cpp against its specification, a queue of requests that are answered in turn.
use dbus_fronius.Base.{
  ℕ, zero, suc, ◌+◌, ◌-◌, ◌≡◌, refl, sym, ap, ap₂, ◌∙◌, Option, none, some, List, [], ◌∷◌, ◌++◌,
  arith,
}
use dbus_fronius.Rtu.{Reply, Client}
use dbus_fronius.Rtu.Events.{
  new_client, Event, holding_wanted, input_wanted, single_wanted, multiple_wanted, timed_out,
  failed, timeout_set, ready, handle, run,
}
use dbus_fronius.Rtu.Core.{core}
use dbus_fronius.Rtu.Numbers.{upto, from, from-snoc, frames, IsAt}
use dbus_fronius.Rtu.Steps.{Later, After, handle-After}

-- The specification: the requests that wait, the one on the line first, those that are answered,
-- and how many were made.
pub record Fifo : Type 0 where
  pub waiting : List ℕ
  pub answered : List ℕ
  pub issued : ℕ

unfoldable pub enqueue : Fifo → Fifo
enqueue q = record {
  waiting = q.waiting ++ q.issued ∷ [];
  answered = q.answered;
  issued = suc q.issued;
}

unfoldable pub dequeue : Fifo → Fifo
dequeue q = elim q.waiting [
  | [] ↦ q
  | p ∷ ps ↦ record q { waiting = ps; answered = q.answered ++ p ∷ [] }
]

unfoldable pub dequeues : ℕ → Fifo → Fifo
unfolding dequeue
dequeues zero q = q
dequeues (suc n) q = dequeues n (dequeue q)

-- What an event does to the queue.
unfoldable pub Serves : Event → Fifo → Fifo → Type 0
unfolding enqueue dequeue dequeues
Serves (holding_wanted unit reg value) q q' = q' ≡ enqueue q
Serves (input_wanted unit reg value) q q' = q' ≡ enqueue q
Serves (single_wanted unit reg value) q q' = q' ≡ enqueue q
Serves (multiple_wanted unit start values) q q' = q' ≡ enqueue q
Serves timed_out q q' = q' ≡ dequeue q
Serves failed q q' = q' ≡ q
Serves (timeout_set t) q q' = q' ≡ q
Serves (ready reads) q q' = (n : ℕ) × (q' ≡ dequeues n q)

abbrev pub active_first : Option ℕ → List ℕ → List ℕ
active_first none ps = ps
active_first (some p) ps = p ∷ ps

abbrev pub fifo : Client → Fifo
fifo c = record {
  waiting = active_first c.active_reply c.pending_commands;
  answered = c.announced;
  issued = c.allocated;
}

-- The queue when `n` requests are answered and `w` wait.
abbrev pub fifo_at : ℕ → ℕ → Fifo
fifo_at n w = record { waiting = from n w; answered = upto n; issued = n + w }

triple :
    (a a' b b' : List ℕ) (i i' : ℕ)
    → a ≡ a'
    → b ≡ b'
    → i ≡ i'
    → Path Fifo
        (record { waiting = a; answered = b; issued = i })
        (record { waiting = a'; answered = b'; issued = i' })
triple a a' b b' i i' p q r = cc

pub fifo-IsAt : (n w : ℕ) (c : Client) → IsAt n w (core c) → fifo c ≡ fifo_at n w
unfolding from
fifo-IsAt n zero c i =
    triple _ _ _ _ _ _ (ap₂ active_first i.inactive i.unqueued) i.log.answered
      (omega (arith, i.all_made))
fifo-IsAt n (suc w) c i =
    triple _ _ _ _ _ _ (ap₂ active_first i.activated i.queue) i.log.answered i.made

enqueue-fifo_at : (n w : ℕ) → fifo_at n (suc w) ≡ enqueue (fifo_at n w)
unfolding enqueue
enqueue-fifo_at n w = triple _ _ _ _ _ _ (sym (from-snoc n w)) refl (omega arith)

dequeue-fifo_at : (n w : ℕ) → fifo_at (suc n) w ≡ dequeue (fifo_at n (suc w))
unfolding dequeue upto from
dequeue-fifo_at n w = triple _ _ _ _ _ _ refl refl (omega arith)

dequeues-fifo_at : (k n w m v : ℕ) → m ≡ n + k → w ≡ k + v → fifo_at m v ≡ dequeues k (fifo_at n w)
unfolding dequeues
dequeues-fifo_at zero n w m v e g = ap₂ fifo_at (omega arith) (omega arith)
dequeues-fifo_at (suc k) n zero m v e g = absurd (omega arith)
dequeues-fifo_at (suc k) n (suc w) m v e g =
    dequeues-fifo_at k (suc n) w m v (omega arith) (omega arith)
    ∙ ap (dequeues k) (dequeue-fifo_at n w)

-- Some number of the requests is answered and the others wait.
pub record IsValid (c : Client) : Type 0 where
  pub done : ℕ
  pub waits : ℕ
  pub is_at : IsAt done waits (core c)

enqueued :
    (n w : ℕ) (c d : Client)
    → IsAt n w (core c)
    → IsAt n (suc w) (core d)
    → fifo d ≡ enqueue (fifo c)
enqueued n w c d i j =
    fifo-IsAt n (suc w) d j ∙ enqueue-fifo_at n w ∙ ap enqueue (sym (fifo-IsAt n w c i))

dequeued :
    (n w : ℕ) (c d : Client) → IsAt n w (core c) → After timed_out n w d → fifo d ≡ dequeue (fifo c)
unfolding dequeue from
dequeued n zero c d i j = fifo-IsAt n 0 d j ∙ ap dequeue (sym (fifo-IsAt n 0 c i))
dequeued n (suc w) c d i j =
    fifo-IsAt (suc n) w d j ∙ dequeue-fifo_at n w ∙ ap dequeue (sym (fifo-IsAt n (suc w) c i))

unmoved : (n w : ℕ) (c d : Client) → IsAt n w (core c) → IsAt n w (core d) → fifo d ≡ fifo c
unmoved n w c d i j = fifo-IsAt n w d j ∙ sym (fifo-IsAt n w c i)

answered_some :
    (n w : ℕ) (c d : Client)
    → IsAt n w (core c)
    → Later n w d
    → (k : ℕ) × (fifo d ≡ dequeues k (fifo c))
answered_some n w c d i (m, v, e, l, j) = (
  m - n,
  fifo-IsAt m v d j
      ∙ dequeues-fifo_at (m - n) n w m v (omega arith) (omega arith)
      ∙ ap (dequeues (m - n)) (sym (fifo-IsAt n w c i)),
)

After-Serves :
    (e : Event) (n w : ℕ) (c d : Client)
    → IsAt n w (core c)
    → After e n w d
    → Serves e (fifo c) (fifo d)
unfolding Serves
After-Serves (holding_wanted unit reg value) n w c d i j = enqueued n w c d i j
After-Serves (input_wanted unit reg value) n w c d i j = enqueued n w c d i j
After-Serves (single_wanted unit reg value) n w c d i j = enqueued n w c d i j
After-Serves (multiple_wanted unit start values) n w c d i j = enqueued n w c d i j
After-Serves timed_out n w c d i j = dequeued n w c d i j
After-Serves failed n w c d i j = unmoved n w c d i j
After-Serves (timeout_set t) n w c d i j = unmoved n w c d i j
After-Serves (ready reads) n w c d i j = answered_some n w c d i j

After-IsValid : (e : Event) (n w : ℕ) (d : Client) → After e n w d → IsValid d
After-IsValid (holding_wanted unit reg value) n w d j = record {
  done = n;
  waits = suc w;
  is_at = j;
}
After-IsValid (input_wanted unit reg value) n w d j = record { done = n; waits = suc w; is_at = j }
After-IsValid (single_wanted unit reg value) n w d j = record { done = n; waits = suc w; is_at = j }
After-IsValid (multiple_wanted unit start values) n w d j = record {
  done = n;
  waits = suc w;
  is_at = j;
}
After-IsValid timed_out n zero d j = record { done = n; waits = 0; is_at = j }
After-IsValid timed_out n (suc w) d j = record { done = suc n; waits = w; is_at = j }
After-IsValid failed n w d j = record { done = n; waits = w; is_at = j }
After-IsValid (timeout_set t) n w d j = record { done = n; waits = w; is_at = j }
After-IsValid (ready reads) n w d (m, v, e, l, j) = record { done = m; waits = v; is_at = j }

-- Each event keeps a client valid, and does to its requests what the specification says of a queue:
-- a request is put at its end, a timeout takes away the one that has waited longest (if there is
-- one), the bytes that arrive take away some number of the longest waiting ones, in their order,
-- and nothing else changes it.
pub handle-Serves :
    (e : Event) (c : Client)
    → IsValid c
    → IsValid (handle e c) × Serves e (fifo c) (fifo (handle e c))
handle-Serves e c v =
    let after = handle-After e v.done v.waits c v.is_at in
    (
      After-IsValid e v.done v.waits (handle e c) after,
      After-Serves e v.done v.waits c (handle e c) v.is_at after,
    )

new_client-IsAt : (heap : ℕ → Reply) → IsAt 0 0 (core (new_client heap))
unfolding new_client upto frames
new_client-IsAt heap = record {
  inactive = refl;
  unqueued = refl;
  resting = refl;
  all_made = refl;
  log = record { answered = refl; finished = λ p l. absurd (omega arith); on_line = refl };
}

pub new_client-IsValid : (heap : ℕ → Reply) → IsValid (new_client heap)
new_client-IsValid heap = record { done = 0; waits = 0; is_at = new_client-IsAt heap }

pub run-IsValid : (es : List Event) (c : Client) → IsValid c → IsValid (run es c)
unfolding run
run-IsValid [] c v = v
run-IsValid (e ∷ es) c v = run-IsValid es (handle e c) (handle-Serves e c v).0
