-- ===== src/Sma/ReportOnly.antt =====
-- sma_updater.cpp without a grid code: the updater reports and never writes to the inverter.
use dbus_fronius.Base.{
  ℕ, ◌+◌, ◌≡◌, refl, Bool, true, false, none, List, [], ◌∷◌, ◌++◌, arith, All, ltb, ◌==◌, if_both,
  length,
}
use dbus_fronius.Sma.{
  ModbusState, check_condition, check_state, check_login, do_login, check_op_mode, set_op_mode,
  read_power_yield, read_ac_frequency, read_ac_current, read_ac_power_and_voltage, read_temperature,
  read_pv_data1, read_pv_data2, read_power_limit, write_power_limit, error, idle, Action, reads,
  writes, processes, connection_lost, reconnects, Updater,
}
use dbus_fronius.Sma.Cases.{
  emit, is_idle, get_double_ulong, start_next_action, start_idle_timer, handle_error,
  check_condition_case, check_state_case, read_power_yield_case, read_ac_frequency_case,
  read_ac_current_case, read_ac_power_and_voltage_case, read_temperature_case, read_pv_data1_case,
  read_pv_data2_case, read_power_limit_case, sized,
}
use dbus_fronius.Sma.Handlers.{
  dispatch_read, on_read_completed, on_write_completed, after_write, on_power_limit_requested,
  on_connected, on_disconnected, on_timer, Event, read_completed, write_completed, connected,
  disconnected, power_limit_requested, timer_fired, handle, run,
}

-- The states in which the updater logs in or controls the inverter.
abbrev pub is_control : ModbusState → Bool
is_control check_login = true
is_control do_login = true
is_control check_op_mode = true
is_control set_op_mode = true
is_control write_power_limit = true
is_control _ = false

abbrev pub is_write : Action → Bool
is_write (writes start values) = true
is_write _ = false

abbrev pub AreReads : List Action → Type 0
AreReads = All λ a. is_write a ≡ false

pub record IsReportOnly (u : Updater) : Type 0 where
  pub no_code : u.inverter.grid_code ≡ 0
  pub logged_out : u.inverter.logged_in ≡ false
  pub calm : is_control u.current_state ≡ false
  pub log_reads : AreReads u.log

AreReads-append :
    (l : List Action) (a : Action) → AreReads l → is_write a ≡ false → AreReads (l ++ a ∷ [])
AreReads-append [] a h e = (e, tt)
AreReads-append (x ∷ l) a h e = (h.0, AreReads-append l a h.1 e)

-- What a case of the read handler must leave behind.
abbrev Calm : Updater × ModbusState → Type 0
Calm r =
    (r.0.inverter.grid_code ≡ 0)
    × (r.0.inverter.logged_in ≡ false)
    × (is_control r.1 ≡ false)
    × AreReads r.0.log

abbrev Silent : Updater → Type 0
Silent u = (u.inverter.grid_code ≡ 0) × (u.inverter.logged_in ≡ false) × AreReads u.log

check_condition-Calm :
    (values : List ℕ) (u : Updater) → Silent u → Calm (check_condition_case values u)
unfolding check_condition_case
check_condition-Calm values u s = ground arith

check_state-Calm : (values : List ℕ) (u : Updater) → Silent u → Calm (check_state_case values u)
unfolding check_state_case
check_state-Calm values u s = ground arith

read_power_yield-Calm :
    (values : List ℕ) (u : Updater) → Silent u → Calm (read_power_yield_case values u)
unfolding read_power_yield_case
read_power_yield-Calm values u s =
    let d = record u.inverter_data {
      total_energy = get_double_ulong values 0;
      day_energy = get_double_ulong values 4;
    } in
    ground (arith, AreReads-append u.log (processes d) s.2 refl)

read_power_limit-Calm :
    (values : List ℕ) (u : Updater) → Silent u → Calm (read_power_limit_case values u)
unfolding read_power_limit_case
read_power_limit-Calm values u s =
    ground (arith, AreReads-append u.log (processes u.inverter_data) s.2 refl)

sized-Calm :
    (n : ℕ) (case : List ℕ → Updater → Updater × ModbusState) (values : List ℕ) (u : Updater)
    → Silent u
    → Calm (case values u)
    → Calm (sized n case values u)
unfolding sized
sized-Calm n case values u s h = if_both Calm (length values == n) h (s.0, s.1, refl, s.2)

dispatch_read-Calm :
    (state : ModbusState) (values : List ℕ) (u : Updater)
    → Silent u
    → is_control state ≡ false
    → Calm (dispatch_read state values u)
unfolding dispatch_read read_ac_frequency_case read_ac_current_case read_ac_power_and_voltage_case
    read_temperature_case read_pv_data1_case read_pv_data2_case
dispatch_read-Calm check_condition values u s h =
    sized-Calm 2 check_condition_case values u s (check_condition-Calm values u s)
dispatch_read-Calm check_state values u s h =
    sized-Calm 2 check_state_case values u s (check_state-Calm values u s)
dispatch_read-Calm read_power_yield values u s h =
    sized-Calm 8 read_power_yield_case values u s (read_power_yield-Calm values u s)
dispatch_read-Calm read_power_limit values u s h =
    sized-Calm 2 read_power_limit_case values u s (read_power_limit-Calm values u s)
dispatch_read-Calm read_ac_frequency values u s h =
    sized-Calm 2 read_ac_frequency_case values u s (s.0, s.1, refl, s.2)
dispatch_read-Calm read_ac_current values u s h =
    sized-Calm 2 read_ac_current_case values u s (s.0, s.1, refl, s.2)
dispatch_read-Calm read_ac_power_and_voltage values u s h =
    sized-Calm 10 read_ac_power_and_voltage_case values u s (s.0, s.1, refl, s.2)
dispatch_read-Calm read_temperature values u s h =
    sized-Calm 2 read_temperature_case values u s (s.0, s.1, refl, s.2)
dispatch_read-Calm read_pv_data1 values u s h =
    sized-Calm 6 read_pv_data1_case values u s (s.0, s.1, refl, s.2)
dispatch_read-Calm read_pv_data2 values u s h =
    sized-Calm 6 read_pv_data2_case values u s (s.0, s.1, refl, s.2)
dispatch_read-Calm idle values u s h = (s.0, s.1, refl, s.2)
dispatch_read-Calm error values u s h = (s.0, s.1, refl, s.2)
dispatch_read-Calm check_login values u s h = cc
dispatch_read-Calm do_login values u s h = cc
dispatch_read-Calm check_op_mode values u s h = cc
dispatch_read-Calm set_op_mode values u s h = cc
dispatch_read-Calm write_power_limit values u s h = cc

reads-IsReportOnly :
    (state : ModbusState) (start count : ℕ) (u : Updater)
    → Silent u
    → is_control state ≡ false
    → IsReportOnly (emit (reads start count) (record u { current_state = state }))
reads-IsReportOnly state start count u s h = record {
  no_code = s.0;
  logged_out = s.1;
  calm = h;
  log_reads = AreReads-append u.log (reads start count) s.2 refl;
}

start_next_action-IsReportOnly :
    (state : ModbusState) (u : Updater)
    → Silent u
    → is_control state ≡ false
    → IsReportOnly (start_next_action state u)
unfolding start_next_action
start_next_action-IsReportOnly do_login u s h = cc
start_next_action-IsReportOnly set_op_mode u s h = cc
start_next_action-IsReportOnly write_power_limit u s h = cc
start_next_action-IsReportOnly idle u s h = record {
  no_code = s.0;
  logged_out = s.1;
  calm = refl;
  log_reads = s.2;
}
start_next_action-IsReportOnly error u s h = record {
  no_code = ground arith;
  logged_out = ground arith;
  calm = refl;
  log_reads = s.2;
}
start_next_action-IsReportOnly _ u s h = reads-IsReportOnly _ _ _ u s h

handle_error-IsReportOnly : (u : Updater) → IsReportOnly u → IsReportOnly (handle_error u)
unfolding handle_error
handle_error-IsReportOnly u v =
    if_both {X = Updater} (λ w. IsReportOnly (start_idle_timer w)) (ltb 5 (u.retry_count + 1))
      (record {
        no_code = v.no_code;
        logged_out = v.logged_out;
        calm = v.calm;
        log_reads = AreReads-append u.log connection_lost v.log_reads refl;
      })
      (record {
        no_code = v.no_code;
        logged_out = v.logged_out;
        calm = v.calm;
        log_reads = v.log_reads;
      })

silent : (u : Updater) → IsReportOnly u → Silent u
silent u v = (v.no_code, v.logged_out, v.log_reads)

after_write-calm :
    (state : ModbusState) → is_control state ≡ false → is_control (after_write state) ≡ false
after_write-calm do_login h = cc
after_write-calm set_op_mode h = cc
after_write-calm write_power_limit h = cc
after_write-calm _ h = refl

handle-IsReportOnly : (e : Event) (u : Updater) → IsReportOnly u → IsReportOnly (handle e u)
unfolding handle on_read_completed on_write_completed on_power_limit_requested on_connected
    on_disconnected on_timer
handle-IsReportOnly (read_completed failure values) u v =
    let r =
      dispatch_read-Calm u.current_state values (record u { retry_count = 0 }) (silent u v)
        v.calm in
    if_both IsReportOnly (failure == 0) (start_next_action-IsReportOnly _ _ (r.0, r.1, r.3) r.2)
      (handle_error-IsReportOnly u v)
handle-IsReportOnly write_completed u v =
    start_next_action-IsReportOnly (after_write u.current_state) _ (silent u v)
      (after_write-calm u.current_state v.calm)
handle-IsReportOnly connected u v =
    start_next_action-IsReportOnly check_condition u (silent u v) refl
handle-IsReportOnly disconnected u v =
    handle_error-IsReportOnly (record u { current_state = check_condition })
      (record {
        no_code = v.no_code;
        logged_out = v.logged_out;
        calm = refl;
        log_reads = v.log_reads;
      })
handle-IsReportOnly (power_limit_requested value) u v = record {
  no_code = v.no_code;
  logged_out = v.logged_out;
  calm = v.calm;
  log_reads = v.log_reads;
}
handle-IsReportOnly (timer_fired up) u v =
    if_both IsReportOnly up
      (start_next_action-IsReportOnly _ (record u { timer = none }) (silent u v)
        (if_both (λ s. is_control s ≡ false) (is_idle u.current_state) refl v.calm))
      (record {
        no_code = v.no_code;
        logged_out = v.logged_out;
        calm = v.calm;
        log_reads = AreReads-append u.log reconnects v.log_reads refl;
      })

-- An updater whose inverter has no grid code and is logged out, that is in none of the states for
-- logging in or controlling and has so far written nothing, is so again after every history of
-- answers, failures, timers, connections and requests for a limit: it never writes to the inverter.
pub run-IsReportOnly : (es : List Event) (u : Updater) → IsReportOnly u → IsReportOnly (run es u)
unfolding run
run-IsReportOnly [] u v = v
run-IsReportOnly (e ∷ es) u v = run-IsReportOnly es (handle e u) (handle-IsReportOnly e u v)
