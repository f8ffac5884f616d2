-- ===== src/Sma/Cases.antt =====
-- software/src/sma_updater.cpp: the actions of SMAUpdater, and the cases of its read handler.
-- A maximal power is a whole number of watts, as the detector reads it from a register.
use dbus_fronius.Base.{
  ℕ, suc, ◌+◌, ◌*◌, ◌/◌, ◌%◌, Bool, true, false, not, ◌&&◌, some, List, [], ◌∷◌, ◌++◌, length,
  get_or, ltb, leb, ◌==◌, if◌then◌else◌,
}
use dbus_fronius.Sma.{
  os_mpp, os_fault, oc_fault, oc_ok, oc_warn, om_watt, sc_standby, sc_error, sc_mppt, sc_throttled,
  SmaInverter, set_status_code, set_error_code, set_status, set_error, set_logged_on,
  set_operating_state, set_operating_condition, set_operating_mode, ModbusState, check_condition,
  check_state, check_login, do_login, check_op_mode, set_op_mode, read_power_yield,
  read_ac_frequency, read_ac_current, read_ac_power_and_voltage, read_temperature, read_pv_data1,
  read_pv_data2, read_power_limit, write_power_limit, error, idle, Action, reads, writes, processes,
  connection_lost, Updater, equals, to_quint16,
}

abbrev pub emit : Action → Updater → Updater
emit a u = record u { log = u.log ++ a ∷ [] }

abbrev pub on_inverter : (SmaInverter → SmaInverter) → Updater → Updater
on_inverter f u = record u { inverter = f u.inverter }

abbrev pub is_idle : ModbusState → Bool
is_idle idle = true
is_idle _ = false

unfoldable pub start_idle_timer : Updater → Updater
start_idle_timer u = record u { timer = some (if is_idle u.current_state then 1000 else 5000) }

-- The switch of startNextAction.
unfoldable pub perform : ModbusState → Updater → Updater
unfolding start_idle_timer set_status set_operating_condition set_operating_state
perform check_condition = emit (reads 30201 2)
perform check_state = emit (reads 40029 2)
perform check_login = emit (reads 43090 2)
perform do_login = λ u.
    emit (writes 43090 (u.inverter.grid_code / 65536 % 65536 ∷ u.inverter.grid_code % 65536 ∷ [])) u
perform check_op_mode = emit (reads 40210 2)
perform set_op_mode = emit (writes 40210 (0 ∷ om_watt ∷ []))
perform read_power_limit = emit (reads 40212 2)
perform write_power_limit =
    λ u. emit (writes 40212 (0 ∷ to_quint16 u.undefined_cast u.power_limit_watt ∷ [])) u
perform read_power_yield = emit (reads 30513 8)
perform read_ac_frequency = emit (reads 40135 2)
perform read_ac_current = emit (reads 30795 2)
perform read_ac_power_and_voltage = emit (reads 30775 10)
perform read_temperature = emit (reads 34113 2)
perform read_pv_data1 = emit (reads 30769 6)
perform read_pv_data2 = emit (reads 30957 6)
perform idle = start_idle_timer
perform error =
    on_inverter
      λ v. set_operating_state os_fault (set_operating_condition oc_fault (set_status sc_error v))

unfoldable pub start_next_action : ModbusState → Updater → Updater
unfolding perform
start_next_action state u = perform state (record u { current_state = state })

unfoldable pub handle_error : Updater → Updater
unfolding start_idle_timer
handle_error u = start_idle_timer (
    if ltb 5 (u.retry_count + 1)
    then record u { retry_count = 0; log = u.log ++ connection_lost ∷ [] }
    else record u { retry_count = u.retry_count + 1 })

-- getULong and getDoubleULong.
abbrev pub get_ulong : List ℕ → ℕ → ℕ
get_ulong values i = get_or values i 0 * 65536 + get_or values (suc i) 0

abbrev pub get_double_ulong : List ℕ → ℕ → ℕ
get_double_ulong values i = get_ulong values i * 4294967296 + get_ulong values (i + 2)

-- The cases of onReadCompleted for an answer of the expected size, each with the state that it
-- chooses next.
unfoldable pub check_condition_case : List ℕ → Updater → Updater × ModbusState
unfolding set_operating_condition set_status set_error set_error_code
check_condition_case values u =
    let condition = get_or values 1 0 in
    let u' = record u {
      inverter_data = record u.inverter_data {
        ac_frequency = 0;
        ac_current = 0;
        ac_power = 0;
        ac_voltage = 0;
      };
      inverter = set_operating_condition condition u.inverter;
    } in
    if not (condition == oc_ok) && not (condition == oc_warn)
    then (
      on_inverter (λ v. set_error_code 0 (set_error condition (set_status sc_error v))) u',
      idle,
    )
    else (on_inverter (set_error_code 0) u', check_state)

unfoldable pub check_state_case : List ℕ → Updater → Updater × ModbusState
unfolding set_operating_state set_status set_status_code
check_state_case values u =
    let u1 = record u {
      inverter = set_operating_state (get_or values 1 0) u.inverter;
      write_count = 0;
    } in
    let no_code = u1.inverter.grid_code == 0 in
    let u2 = if no_code then on_inverter (set_status_code sc_standby) u1 else u1 in
    if not (u1.inverter.op_state == os_mpp)
    then (on_inverter (set_status sc_standby) u2, read_power_yield)
    else (u2, if no_code then read_power_yield else check_login)

unfoldable pub check_login_case : List ℕ → Updater → Updater × ModbusState
unfolding set_logged_on set_status
check_login_case values u =
    let u1 = on_inverter (set_logged_on (get_or values 1 0 == 1)) u in
    if not u1.inverter.logged_in && ltb u1.write_count 3
    then (record u1 { write_count = u1.write_count + 1 }, do_login)
    else if leb 3 u1.write_count
    then (on_inverter (set_status sc_standby) u1, read_power_yield)
    else (record u1 { write_count = 0 }, check_op_mode)

unfoldable pub check_op_mode_case : List ℕ → Updater → Updater × ModbusState
unfolding set_operating_mode set_status
check_op_mode_case values u =
    let u1 = on_inverter (set_operating_mode (get_or values 1 0)) u in
    if not (u1.inverter.op_mode == om_watt) && ltb u1.write_count 3
    then (record u1 { write_count = u1.write_count + 1 }, set_op_mode)
    else if equals u1.power_limit_watt u1.max_power
    then (on_inverter (set_status sc_mppt) u1, read_power_yield)
    else (on_inverter (set_status sc_throttled) u1, read_power_yield)

unfoldable pub read_power_yield_case : List ℕ → Updater → Updater × ModbusState
unfolding set_status
read_power_yield_case values u =
    let d = record u.inverter_data {
      total_energy = get_double_ulong values 0;
      day_energy = get_double_ulong values 4;
    } in
    let u1 = record u { inverter_data = d } in
    if not (u1.inverter.op_state == os_mpp)
    then (emit (processes d) (on_inverter (set_status sc_standby) u1), idle)
    else (u1, read_ac_frequency)

unfoldable pub read_ac_frequency_case : List ℕ → Updater → Updater × ModbusState
read_ac_frequency_case values u = (
  record u {
    inverter_data = record u.inverter_data { ac_frequency = get_ulong values 0 };
    inverter = record u.inverter { frequency = get_ulong values 0 };
  },
  read_ac_current,
)

unfoldable pub read_ac_current_case : List ℕ → Updater → Updater × ModbusState
read_ac_current_case values u = (
  record u { inverter_data = record u.inverter_data { ac_current = get_ulong values 0 } },
  read_ac_power_and_voltage,
)

unfoldable pub read_ac_power_and_voltage_case : List ℕ → Updater → Updater × ModbusState
read_ac_power_and_voltage_case values u = (
  record u {
    inverter_data = record u.inverter_data {
      ac_power = get_ulong values 0;
      ac_voltage = get_ulong values 8;
    };
  },
  read_temperature,
)

unfoldable pub read_temperature_case : List ℕ → Updater → Updater × ModbusState
read_temperature_case values u =
    (on_inverter (λ v. record v { temperature = get_ulong values 0 }) u, read_pv_data1)

unfoldable pub read_pv_data1_case : List ℕ → Updater → Updater × ModbusState
read_pv_data1_case values u =
    let current = get_ulong values 0 in
    let voltage = get_ulong values 2 in
    (
      record u {
        inverter_data = record u.inverter_data { dc_current = current; dc_voltage = 2 * voltage };
        inverter = record u.inverter {
          pv_info1 = record { current = current; voltage = voltage; power = get_ulong values 4 };
        };
      },
      read_pv_data2,
    )

unfoldable pub read_pv_data2_case : List ℕ → Updater → Updater × ModbusState
read_pv_data2_case values u =
    let current = get_ulong values 0 in
    let voltage = get_ulong values 2 in
    let d = u.inverter_data in
    (
      record u {
        inverter_data = record d {
          dc_current = d.dc_current + current;
          dc_voltage = (d.dc_voltage + 2 * voltage) / 2;
        };
        inverter = record u.inverter {
          pv_info2 = record { current = current; voltage = voltage; power = get_ulong values 4 };
        };
      },
      read_power_limit,
    )

unfoldable pub read_power_limit_case : List ℕ → Updater → Updater × ModbusState
read_power_limit_case values u =
    let u1 =
      emit (processes u.inverter_data)
        (on_inverter (λ v. record v { power_limit = get_or values 1 0 }) u) in
    (
      u1,
      if u1.inverter.logged_in && (u1.inverter.op_mode == om_watt) then write_power_limit else idle,
    )

-- An answer of another size than expected leads to the error state.
unfoldable pub sized :
    ℕ → (List ℕ → Updater → Updater × ModbusState) → List ℕ → Updater → Updater × ModbusState
sized n case values u = if length values == n then case values u else (u, error)
