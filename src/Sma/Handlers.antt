-- ===== src/Sma/Handlers.antt =====
-- software/src/sma_updater.cpp: the slots of SMAUpdater, and histories of their calls. Q_ASSERT is
-- taken as in a release build, where it does nothing.
use dbus_fronius.Base.{ℕ, Bool, false, none, List, [], ◌∷◌, ◌==◌, if◌then◌else◌}
use dbus_fronius.Sma.{
  ModbusState, check_condition, check_state, check_login, do_login, check_op_mode, set_op_mode,
  read_power_yield, read_ac_frequency, read_ac_current, read_ac_power_and_voltage, read_temperature,
  read_pv_data1, read_pv_data2, read_power_limit, write_power_limit, idle, reconnects, Updater,
  Double, positive, exceeds,
}
use dbus_fronius.Sma.Cases.{
  emit, is_idle, start_next_action, handle_error, check_condition_case, check_state_case,
  check_login_case, check_op_mode_case, read_power_yield_case, read_ac_frequency_case,
  read_ac_current_case, read_ac_power_and_voltage_case, read_temperature_case, read_pv_data1_case,
  read_pv_data2_case, read_power_limit_case, sized,
}

-- The switch of onReadCompleted: the updater and the next state.
unfoldable pub dispatch_read : ModbusState → List ℕ → Updater → Updater × ModbusState
unfolding sized
dispatch_read check_condition = sized 2 check_condition_case
dispatch_read check_state = sized 2 check_state_case
dispatch_read check_login = sized 2 check_login_case
dispatch_read check_op_mode = sized 2 check_op_mode_case
dispatch_read read_power_yield = sized 8 read_power_yield_case
dispatch_read read_ac_frequency = sized 2 read_ac_frequency_case
dispatch_read read_ac_current = sized 2 read_ac_current_case
dispatch_read read_ac_power_and_voltage = sized 10 read_ac_power_and_voltage_case
dispatch_read read_temperature = sized 2 read_temperature_case
dispatch_read read_pv_data1 = sized 6 read_pv_data1_case
dispatch_read read_pv_data2 = sized 6 read_pv_data2_case
dispatch_read read_power_limit = sized 2 read_power_limit_case
dispatch_read _ = λ values u. (u, check_condition)

-- `failure` is the error code of the reply, 0 for none.
unfoldable pub on_read_completed : ℕ → List ℕ → Updater → Updater
unfolding dispatch_read
on_read_completed failure values u =
    if failure == 0
    then (let (u', next) = dispatch_read u.current_state values (record u { retry_count = 0 }) in
        start_next_action next u')
    else handle_error u

abbrev pub after_write : ModbusState → ModbusState
after_write do_login = check_login
after_write set_op_mode = check_op_mode
after_write write_power_limit = idle
after_write _ = check_condition

unfoldable pub on_write_completed : Updater → Updater
on_write_completed u =
    start_next_action (after_write u.current_state)
      (record u { write_power_limit_requested = false })

unfoldable pub on_power_limit_requested : Double → Updater → Updater
on_power_limit_requested value u = record u {
  power_limit_watt = if exceeds value u.max_power then positive u.max_power 0 else value;
}

unfoldable pub on_connected : Updater → Updater
on_connected = start_next_action check_condition

unfoldable pub on_disconnected : Updater → Updater
on_disconnected u = handle_error (record u { current_state = check_condition })

-- The timer fires once; the argument is mModbusClient->isConnected().
unfoldable pub on_timer : Bool → Updater → Updater
on_timer connected u =
    let u' = record u { timer = none } in
    if connected
    then start_next_action (if is_idle u.current_state then check_condition else u.current_state) u'
    else emit reconnects u'

pub data Event : Type 0 where
  read_completed : ℕ → List ℕ → Event
  write_completed connected disconnected : Event
  power_limit_requested : Double → Event
  timer_fired : Bool → Event

unfoldable pub handle : Event → Updater → Updater
handle (read_completed failure values) = on_read_completed failure values
handle write_completed = on_write_completed
handle connected = on_connected
handle disconnected = on_disconnected
handle (power_limit_requested value) = on_power_limit_requested value
handle (timer_fired up) = on_timer up

unfoldable pub run : List Event → Updater → Updater
run [] u = u
run (e ∷ es) u = run es (handle e u)
