-- ===== src/SunspecUpdater/Actions.antt =====
-- sunspec_updater.cpp: the requests of the updater and what it makes of the answers.
use dbus_fronius.Base.{
  ℕ, suc, ◌+◌, ◌*◌, ◌%◌, Bool, true, false, not, ◌||◌, none, some, List, [], ◌∷◌, ◌++◌, length,
  get_or, ltb, ◌==◌, if◌then◌else◌,
}
use dbus_fronius.SunspecTools.{get_scaled_value}
use dbus_fronius.SunspecUpdater.{
  Doubles, ModbusState, read_power_limit, read_power_and_voltage, write_power_limit, idle, Device,
  CommonData, PhasesData, Action, reads, writes, processes, processes_phases, splits_phase,
  connection_lost, model_changed, Updater,
}

abbrev pub is_idle : ModbusState → Bool
is_idle idle = true
is_idle _ = false

module _ {D : Type 0} where
  unfoldable pub emit : Action D → Updater D → Updater D
  emit a u = record u { log = u.log ++ a ∷ [] }

  unfoldable pub start_idle_timer : Updater D → Updater D
  start_idle_timer u = record u { timer = some (if is_idle u.current_state then 1000 else 5000) }

  -- mRetryCount > 5.
  unfoldable pub handle_error : Updater D → Updater D
  unfolding emit start_idle_timer
  handle_error u =
      if ltb 5 (u.retry_count + 1)
      then start_idle_timer (emit connection_lost (record u { retry_count = 0 }))
      else start_idle_timer (record u { retry_count = u.retry_count + 1 })

  unfoldable pub get_init_state : Updater D → ModbusState
  get_init_state u = if u.device.is_limitable then read_power_limit else read_power_and_voltage

  unfoldable pub set_inverter_state : ℕ → Updater D → Updater D
  set_inverter_state state u = record u {
    status_code =
        if state == 1
        then some 0
        else if (state == 2 || state == 6) || state == 8
        then some 8
        else if state == 3
        then some 3
        else if state == 4
        then some 11
        else if state == 5
        then some 12
        else if state == 7
        then some 10
        else none;
  }

module _ {D : Type 0} (n : Doubles D) where
  -- The registers that are written for the limit: 120 seconds, and 1 to enable it.
  unfoldable pub limit_write : Updater D → Action D
  limit_write u =
      if n.less u.power_limit_pct (n.of_number 100)
      then writes ((u.device.immediate_control_offset + 5) % 65536) (
          n.round_to_uint16 (n.times u.power_limit_pct u.device.power_limit_scale)
          ∷ 0
          ∷ 120
          ∷ 0
          ∷ 1
          ∷ [])
      else writes ((u.device.immediate_control_offset + 9) % 65536) (0 ∷ [])

  unfoldable pub perform : ModbusState → Updater D → Updater D
  unfolding emit start_idle_timer limit_write
  perform read_power_limit u = emit (reads ((u.device.immediate_control_offset + 5) % 65536) 5) u
  perform read_power_and_voltage u =
      emit (reads u.device.inverter_model_offset (if u.device.over_float then 62 else 52)) u
  perform write_power_limit u = emit (limit_write u) u
  perform idle u = start_idle_timer u

  unfoldable pub start_next_action : ModbusState → Updater D → Updater D
  unfolding perform
  start_next_action state u = perform state (record u { current_state = state })

  -- getFloat.
  abbrev float_at : List ℕ → ℕ → D
  float_at values i = n.of_bits (get_or values i 0 * 65536 + get_or values (suc i) 0)

  abbrev scaled_at : List ℕ → ℕ → ℕ → ℕ → Bool → D
  scaled_at values i size scale signed = n.of_value (get_scaled_value values i size scale signed)

  unfoldable pub float_common : List ℕ → CommonData D
  float_common values = record {
    ac_current = float_at values 2;
    ac_power = float_at values 22;
    ac_voltage = float_at values 16;
    total_energy = float_at values 32;
  }

  unfoldable pub float_phases : List ℕ → PhasesData D
  float_phases values = record {
    current1 = float_at values 4;
    current2 = float_at values 6;
    current3 = float_at values 8;
    voltage1 = float_at values 16;
    voltage2 = float_at values 18;
    voltage3 = float_at values 20;
  }

  unfoldable pub scaled_common : List ℕ → CommonData D
  scaled_common values = record {
    ac_current = scaled_at values 2 1 6 false;
    ac_power = scaled_at values 14 1 15 true;
    ac_voltage = scaled_at values 10 1 13 false;
    total_energy = scaled_at values 24 2 26 false;
  }

  unfoldable pub scaled_phases : List ℕ → PhasesData D
  scaled_phases values = record {
    current1 = scaled_at values 3 1 6 false;
    current2 = scaled_at values 4 1 6 false;
    current3 = scaled_at values 5 1 6 false;
    voltage1 = scaled_at values 10 1 13 false;
    voltage2 = scaled_at values 11 1 13 false;
    voltage3 = scaled_at values 12 1 13 false;
  }

  -- The body under qIsFinite(power), with updateSplitPhase.
  unfoldable pub process_data : CommonData D → PhasesData D → Updater D → Updater D
  unfolding emit
  process_data common phases u =
      let u' = emit (processes common) u in
      if not (n.finite common.ac_power)
      then u
      else if ltb 1 u.device.phase_count
      then emit (processes_phases phases) u'
      else if u.multi_phase
      then emit
          (splits_phase (n.over common.ac_power (n.of_number 2))
            (n.over common.total_energy (n.of_number 2)))
          u'
      else u'

  -- The end of the case ReadPowerAndVoltage.
  abbrev after_read : Updater D → ModbusState
  after_read u = if u.write_power_limit_requested then write_power_limit else idle

  -- The case ReadPowerAndVoltage: the updater and the next state.
  unfoldable pub power_case : List ℕ → Updater D → Updater D × ModbusState
  unfolding process_data set_inverter_state float_common float_phases scaled_common scaled_phases
      emit
  power_case values u =
      let model = get_or values 0 0 in
      let by_float =
        set_inverter_state (get_or values 48 0)
          (process_data (float_common values) (float_phases values) u) in
      let by_scale =
        set_inverter_state (get_or values 38 0)
          (process_data (scaled_common values) (scaled_phases values) u) in
      if (length values == 0) || not (u.device.valid_frame values)
      then (u, read_power_and_voltage)
      else if not (model % 10 == u.device.phase_count)
          || (if u.device.over_float then not (ltb 103 model) else ltb 103 model)
      then (emit model_changed u, idle)
      else if u.device.over_float
      then if length values == 62 then (by_float, after_read u) else (u, read_power_and_voltage)
      else if length values == 52
      then (by_scale, after_read u)
      else (u, read_power_and_voltage)

  -- The limit that five registers tell; a limit of all ones is none.
  unfoldable pub limit_read : List ℕ → Device D → D
  limit_read values device =
      if not (n.at_least device.power_limit_scale (n.of_number 100))
      then n.nan
      else if not (get_or values 4 0 == 1)
      then device.max_power
      else if get_or values 0 0 == 0xffff
      then n.nan
      else n.over (n.times (n.of_number (get_or values 0 0)) device.max_power)
          device.power_limit_scale

  unfoldable pub limit_case : List ℕ → Updater D → Updater D × ModbusState
  unfolding limit_read
  limit_case values u =
      if length values == 5
      then (record u { power_limit = limit_read values u.device }, read_power_and_voltage)
      else (u, read_power_limit)

  -- The switch of onReadCompleted.
  unfoldable pub dispatch_read : ModbusState → List ℕ → Updater D → Updater D × ModbusState
  unfolding power_case limit_case get_init_state
  dispatch_read read_power_and_voltage values u = power_case values u
  dispatch_read read_power_limit values u = limit_case values u
  dispatch_read _ values u = (u, get_init_state u)
