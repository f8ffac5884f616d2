-- ===== src/Rtu/Progress.antt =====
-- modbus_rtu_client.cpp: what is on the serial line over the life of the client, and that every
-- request comes to its end.
use dbus_fronius.Base.{
  ℕ, zero, suc, ◌+◌, ◌-◌, ◌≤◌, ◌<◌, ◌≡◌, refl, sym, ap, subst, ◌∙◌, Bool, true, false, List, [],
  ◌∷◌, All, arith, length, length-append, lt→ltb, if◌then◌else◌,
}
use dbus_fronius.Rtu.{Reply, Client, is_idle}
use dbus_fronius.Rtu.Events.{
  new_client, Event, holding_wanted, input_wanted, single_wanted, multiple_wanted, timed_out,
  failed, timeout_set, ready, handle, run,
}
use dbus_fronius.Rtu.Core.{core}
use dbus_fronius.Rtu.Numbers.{upto, frames, IsAt}
use dbus_fronius.Rtu.Steps.{handle-After}
use dbus_fronius.Rtu.Queue.{IsValid, run-IsValid, new_client-IsValid}

abbrev on_line_count : ℕ → ℕ → ℕ
on_line_count n zero = n
on_line_count n (suc w) = suc n

pub length-upto : (n : ℕ) → length (upto n) ≡ n
unfolding upto
length-upto zero = refl
length-upto (suc n) = omega (arith, length-append (upto n) (n ∷ []), length-upto n)

answered_count : (n w : ℕ) (c : Client) → IsAt n w (core c) → length c.announced ≡ n
answered_count n zero c i = ap length i.log.answered ∙ length-upto n
answered_count n (suc w) c i = ap length i.log.answered ∙ length-upto n

made_count : (n w : ℕ) (c : Client) → IsAt n w (core c) → c.allocated ≡ n + w
made_count n zero c i = omega (arith, i.all_made)
made_count n (suc w) c i = i.made

-- One request is on the line, or none.
IsOne : ℕ → Bool → Client → Type 0
IsOne n idle c =
    (c.announced ≡ upto n)
    × (c.sent ≡ frames c.heap (if idle then n else suc n))
    × (idle ≡ false → c.timer ≡ true)

IsAt-IsOne :
    (n w : ℕ) (c : Client) → IsAt n w (core c) → IsOne (length c.announced) (is_idle c.state) c
unfolding IsOne
IsAt-IsOne n zero c i =
    subst (λ m. IsOne m (is_idle c.state) c) (sym (answered_count n 0 c i))
      (subst (λ b. IsOne n b c) (sym i.resting) (i.log.answered, i.log.on_line, λ h. cc))
IsAt-IsOne n (suc w) c i =
    subst (λ m. IsOne m (is_idle c.state) c) (sym (answered_count n (suc w) c i))
      (subst (λ b. IsOne n b c) (sym i.reading) (i.log.answered, i.log.on_line, λ h. i.watched))

-- After any history of a new client, the replies have announced their results in the order in which
-- the requests were made, each at most once. The frames on the line are those of the answered
-- requests in that order, followed, unless the client is idle, by one more, that of the next
-- request: never is a request sent before the one before it is answered or given up. As long as the
-- client is not idle, its timer runs.
pub run-IsOne :
    (es : List Event) (heap : ℕ → Reply)
    → let c = run es (new_client heap) in
      let answered = length c.announced in
      (c.announced ≡ upto answered)
      × (c.sent ≡ frames c.heap (if is_idle c.state then answered else suc answered))
      × (is_idle c.state ≡ false → c.timer ≡ true)
unfolding IsOne
run-IsOne es heap =
    let v = run-IsValid es (new_client heap) (new_client-IsValid heap) in
    IsAt-IsOne v.done v.waits (run es (new_client heap)) v.is_at

-- A history in which nothing more is asked, and how often the timer fires in it.
abbrev pub IsQuiet : Event → Type 0
IsQuiet timed_out = Unit
IsQuiet failed = Unit
IsQuiet (timeout_set t) = Unit
IsQuiet (ready reads) = Unit
IsQuiet _ = ⊥

unfoldable pub timeouts : List Event → ℕ
timeouts [] = 0
timeouts (timed_out ∷ es) = suc (timeouts es)
timeouts (_ ∷ es) = timeouts es

-- `n` answered and `w` waiting become as many in all, with at least `t` of those that wait gone.
abbrev Drained : ℕ → ℕ → ℕ → Client → Type 0
Drained t n w c = (m : ℕ) × (v : ℕ) × (m + v ≡ n + w) × (v ≤ w - t) × IsAt m v (core c)

run-Drained :
    (es : List Event) (n w : ℕ) (c : Client)
    → All IsQuiet es
    → IsAt n w (core c)
    → Drained (timeouts es) n w (run es c)
unfolding run timeouts
run-Drained [] n w c q i = (n, w, refl, omega arith, i)
run-Drained (holding_wanted unit reg value ∷ es) n w c q i = absurd q.0
run-Drained (input_wanted unit reg value ∷ es) n w c q i = absurd q.0
run-Drained (single_wanted unit reg value ∷ es) n w c q i = absurd q.0
run-Drained (multiple_wanted unit start values ∷ es) n w c q i = absurd q.0
run-Drained (timed_out ∷ es) n zero c q i =
    let (m, v, e, l, j) =
      run-Drained es n 0 (handle timed_out c) q.1 (handle-After timed_out n 0 c i) in
    (m, v, e, omega arith, j)
run-Drained (timed_out ∷ es) n (suc w) c q i =
    let (m, v, e, l, j) =
      run-Drained es (suc n) w (handle timed_out c) q.1 (handle-After timed_out n (suc w) c i) in
    (m, v, omega arith, omega arith, j)
run-Drained (failed ∷ es) n w c q i =
    run-Drained es n w (handle failed c) q.1 (handle-After failed n w c i)
run-Drained (timeout_set t ∷ es) n w c q i =
    run-Drained es n w (handle (timeout_set t) c) q.1 (handle-After (timeout_set t) n w c i)
run-Drained (ready reads ∷ es) n w c q i =
    let (m, v, e, l, j) = handle-After (ready reads) n w c i in
    let (m', v', e', l', j') = run-Drained es m v (handle (ready reads) c) q.1 j in
    (m', v', omega arith, omega arith, j')

-- If a valid client is asked nothing more, then, whatever arrives on the line and in whatever
-- order, once its timer has fired as often as requests were waiting, each request that was ever
-- made is finished, and the client is idle.
pub run-finished :
    (es : List Event) (c : Client) (v : IsValid c)
    → All IsQuiet es
    → c.allocated ≤ length c.announced + timeouts es
    → let d = run es c in
      (is_idle d.state ≡ true)
      × (d.allocated ≡ c.allocated)
      × ((p : ℕ) → p < c.allocated → (d.heap p).finished ≡ true)
run-finished es c v q h =
    let (m, w, e, l, j) = run-Drained es v.done v.waits c q v.is_at in
    let none_left : w ≡ 0 =
      omega (arith, answered_count v.done v.waits c v.is_at, made_count v.done v.waits c v.is_at) in
    let rest = subst (λ w. IsAt m w (core (run es c))) none_left j in
    let same : m ≡ c.allocated = omega (arith, made_count v.done v.waits c v.is_at) in
    (
      rest.resting,
      rest.all_made ∙ same,
      λ p lt. rest.log.finished p (omega (arith, rest.all_made)) ∙ lt→ltb p m (omega arith),
    )
