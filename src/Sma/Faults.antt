-- ===== src/Sma/Faults.antt =====
-- How sma_updater.cpp deals with errors: lost connections, answers of the wrong size, the
-- inverter's fault code and the count of logins.
use dbus_fronius.Base.{
  ℕ, suc, ◌+◌, ◌*◌, ◌/◌, ◌%◌, ◌≤◌, ◌≡◌, ◌≢◌, refl, ◌∙◌, true, none, some, map, Option, List, [],
  ◌∷◌, ◌++◌, arith, length,
}
use dbus_fronius.Sma.{
  ModbusState, check_condition, check_state, check_login, check_op_mode, read_power_yield,
  read_ac_frequency, read_ac_current, read_ac_power_and_voltage, read_temperature, read_pv_data1,
  read_pv_data2, read_power_limit, error, Action, reads, writes, processes, connection_lost,
  reconnects, Updater, sc_standby, set_operating_condition, set_status, set_error, set_error_code,
  set_logged_on, Double,
}
use dbus_fronius.Sma.Cases.{
  perform, start_next_action, start_idle_timer, handle_error, check_condition_case,
  check_login_case, sized,
}
use dbus_fronius.Sma.Handlers.{
  dispatch_read, on_read_completed, on_power_limit_requested, Event, read_completed,
  power_limit_requested, handle, run,
}

-- How often the loss of the connection was announced.
pub losses : List Action → ℕ
losses [] = 0
losses (connection_lost ∷ l) = suc (losses l)
losses (_ ∷ l) = losses l

losses-append_lost : (l : List Action) → losses (l ++ connection_lost ∷ []) ≡ suc (losses l)
unfolding losses
losses-append_lost [] = refl
losses-append_lost (connection_lost ∷ l) = ground (arith, losses-append_lost l)
losses-append_lost (reads a b ∷ l) = losses-append_lost l
losses-append_lost (writes a b ∷ l) = losses-append_lost l
losses-append_lost (processes d ∷ l) = losses-append_lost l
losses-append_lost (reconnects ∷ l) = losses-append_lost l

failure-losses :
    (code : ℕ) (values : List ℕ) (u : Updater)
    → u.retry_count ≤ 5
    → let d = handle (read_completed (suc code) values) u in
      (losses d.log * 6 + d.retry_count ≡ losses u.log * 6 + u.retry_count + 1)
      × (d.retry_count ≤ 5)
      × (d.timer ≢ none)
unfolding handle on_read_completed handle_error start_idle_timer
failure-losses code values u h = ground (arith, losses-append_lost u.log)

-- `n` requests in a row that fail, with whatever error codes and values.
abbrev pub failures : List (ℕ × List ℕ) → List Event
failures [] = []
failures ((code, values) ∷ fs) = read_completed (suc code) values ∷ failures fs

-- A row of failed requests announces the loss of the connection once for each six failures, counted
-- on from those that the updater has seen already; the rest is kept in the count of retries.
pub failures-losses :
    (fs : List (ℕ × List ℕ)) (u : Updater)
    → u.retry_count ≤ 5
    → let d = run (failures fs) u in
      (losses d.log ≡ losses u.log + (u.retry_count + length fs) / 6)
      × (d.retry_count ≡ (u.retry_count + length fs) % 6)
unfolding run
failures-losses [] u h = omega arith
failures-losses ((code, values) ∷ fs) u h =
    let f = failure-losses code values u h in
    let rest = failures-losses fs (handle (read_completed (suc code) values) u) f.1 in
    omega (arith, f, rest)

-- The number of registers that each state asks for, for the states that read.
abbrev expected_size : ModbusState → Option ℕ
expected_size check_condition = some 2
expected_size check_state = some 2
expected_size check_login = some 2
expected_size check_op_mode = some 2
expected_size read_power_yield = some 8
expected_size read_ac_frequency = some 2
expected_size read_ac_current = some 2
expected_size read_ac_power_and_voltage = some 10
expected_size read_temperature = some 2
expected_size read_pv_data1 = some 6
expected_size read_pv_data2 = some 6
expected_size read_power_limit = some 2
expected_size _ = none

dispatch_read-wrong_size :
    (s : ModbusState) (n : ℕ) (values : List ℕ) (u : Updater)
    → expected_size s ≡ some n
    → length values ≢ n
    → dispatch_read s values u ≡ (u, error)
unfolding dispatch_read sized
dispatch_read-wrong_size check_condition n values u e ne = ground arith
dispatch_read-wrong_size _ n values u e ne = ground arith

limits-run :
    (limits : List Double) (u : Updater)
    → let d = run (map power_limit_requested limits) u in
      (d.log ≡ u.log) × (d.timer ≡ u.timer) × (d.current_state ≡ u.current_state)
unfolding run handle on_power_limit_requested
limits-run [] u = (refl, refl, refl)
limits-run (l ∷ limits) u = limits-run limits (handle (power_limit_requested l) u)

-- An answer without an error but with another number of registers than the updater's state expects,
-- received while no timer runs, brings the updater into its error state with nothing sent and no
-- timer started, and so it stays through any requests for a limit: without another request or timer
-- there is no answer or timeout that could move it on.
pub wrong_size-stalls :
    (n : ℕ) (values : List ℕ) (limits : List Double) (u : Updater)
    → expected_size u.current_state ≡ some n
    → length values ≢ n
    → u.timer ≡ none
    → let d = run (read_completed 0 values ∷ map power_limit_requested limits) u in
      (d.log ≡ u.log) × (d.timer ≡ none) × (d.current_state ≡ error)
unfolding run handle on_read_completed start_next_action perform
wrong_size-stalls n values limits u e ne off =
    let answer =
      dispatch_read-wrong_size u.current_state n values (record u { retry_count = 0 }) e ne in
    let l = limits-run limits (start_next_action error (record u { retry_count = 0 })) in
    rw (answer, run) (l.0, l.1 ∙ off, l.2)

-- After an answer to the check of the condition, the D-Bus shows the error code 0 whatever the
-- condition is, also one that is neither in order nor a warning.
pub check_condition-error_code :
    (a condition : ℕ) (u : Updater)
    → u.current_state ≡ check_condition
    → let d = handle (read_completed 0 (a ∷ condition ∷ [])) u in d.inverter.error_code ≡ 0
unfolding handle on_read_completed dispatch_read sized check_condition_case start_next_action
    perform start_idle_timer set_status set_error set_error_code set_operating_condition
check_condition-error_code a condition u e = ground arith

-- After the third attempt to log in, an answer that says that the updater is logged in is recorded,
-- but the updater goes on to the reports and shows standby, as after a failed login, and does not
-- check the operating mode.
pub third_login-unused :
    (a : ℕ) (u : Updater)
    → u.current_state ≡ check_login
    → u.write_count ≡ 3
    → let d = handle (read_completed 0 (a ∷ 1 ∷ [])) u in
      (d.inverter.logged_in ≡ true)
      × (d.current_state ≡ read_power_yield)
      × (d.inverter.status ≡ sc_standby)
unfolding handle on_read_completed dispatch_read sized check_login_case start_next_action perform
    set_logged_on set_status
third_login-unused a u e three = ground arith
