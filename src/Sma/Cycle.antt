-- ===== src/Sma/Cycle.antt =====
-- A whole round of the reports of sma_updater.cpp.
use dbus_fronius.Base.{ℕ, ◌+◌, ◌*◌, ◌/◌, ◌≡◌, refl, ap, false, some, List, [], ◌∷◌, arith}
use dbus_fronius.Sma.{
  os_mpp, InverterData, check_condition, idle, Action, reads, processes, Updater, oc_ok, PvInfo,
}
use dbus_fronius.Sma.Cases.{
  start_next_action, check_condition_case, check_state_case, read_power_yield_case,
  read_ac_frequency_case, read_ac_current_case, read_ac_power_and_voltage_case,
  read_temperature_case, read_pv_data1_case, read_pv_data2_case, read_power_limit_case,
}
use dbus_fronius.Sma.Handlers.{dispatch_read, on_read_completed, Event, read_completed, handle, run}

-- The registers of the answers of one round, as the inverter sends them, high word first.
pub record Registers : Type 0 where
  pub total_energy : ℕ × ℕ × ℕ × ℕ
  pub day_energy : ℕ × ℕ × ℕ × ℕ
  pub frequency : ℕ × ℕ
  pub current : ℕ × ℕ
  pub power : ℕ × ℕ
  pub unused : ℕ × ℕ × ℕ × ℕ × ℕ × ℕ
  pub voltage : ℕ × ℕ
  pub temperature : ℕ × ℕ
  pub current1 : ℕ × ℕ
  pub voltage1 : ℕ × ℕ
  pub power1 : ℕ × ℕ
  pub current2 : ℕ × ℕ
  pub voltage2 : ℕ × ℕ
  pub power2 : ℕ × ℕ
  pub limit : ℕ × ℕ

abbrev pub long : ℕ × ℕ → ℕ
long w = w.0 * 65536 + w.1

abbrev double_long : ℕ × ℕ × ℕ × ℕ → ℕ
double_long w = (w.0 * 65536 + w.1) * 4294967296 + (w.2 * 65536 + w.3)

-- The answers of a round in which the inverter is in order and produces.
abbrev pub answers : Registers → List Event
answers r =
    read_completed 0 (0 ∷ oc_ok ∷ [])
    ∷ read_completed 0 (0 ∷ os_mpp ∷ [])
    ∷ read_completed 0 (
        r.total_energy.0 ∷ r.total_energy.1 ∷ r.total_energy.2 ∷ r.total_energy.3 ∷ r.day_energy.0
        ∷ r.day_energy.1 ∷ r.day_energy.2 ∷ r.day_energy.3 ∷ [])
    ∷ read_completed 0 (r.frequency.0 ∷ r.frequency.1 ∷ [])
    ∷ read_completed 0 (r.current.0 ∷ r.current.1 ∷ [])
    ∷ read_completed 0 (
        r.power.0 ∷ r.power.1 ∷ r.unused.0 ∷ r.unused.1 ∷ r.unused.2 ∷ r.unused.3 ∷ r.unused.4
        ∷ r.unused.5 ∷ r.voltage.0 ∷ r.voltage.1 ∷ [])
    ∷ read_completed 0 (r.temperature.0 ∷ r.temperature.1 ∷ [])
    ∷ read_completed 0
        (r.current1.0 ∷ r.current1.1 ∷ r.voltage1.0 ∷ r.voltage1.1 ∷ r.power1.0 ∷ r.power1.1 ∷ [])
    ∷ read_completed 0
        (r.current2.0 ∷ r.current2.1 ∷ r.voltage2.0 ∷ r.voltage2.1 ∷ r.power2.0 ∷ r.power2.1 ∷ [])
    ∷ read_completed 0 (r.limit.0 ∷ r.limit.1 ∷ [])
    ∷ []

-- What the data processor gets. The mean DC voltage is in 1/200 V.
abbrev pub measured : Registers → InverterData
measured r = record {
  ac_frequency = long r.frequency;
  ac_current = long r.current;
  ac_power = long r.power;
  ac_voltage = long r.voltage;
  dc_current = long r.current1 + long r.current2;
  dc_voltage = long r.voltage1 + long r.voltage2;
  day_energy = double_long r.day_energy;
  total_energy = double_long r.total_energy;
}

-- What the inverter shows of a DC input.
abbrev pub input : ℕ × ℕ → ℕ × ℕ → ℕ × ℕ → PvInfo
input current voltage power = record {
  current = long current;
  voltage = long voltage;
  power = long power;
}

-- An updater in report-only mode that waits for the condition and has logged nothing so far.
abbrev pub reporting : Updater → Updater
reporting u = record u {
  inverter = record u.inverter { grid_code = 0; logged_in = false };
  current_state = check_condition;
  log = [];
}

-- What such an updater does in a round, given what it passes on.
abbrev pub round : InverterData → List Action
round d =
    reads 40029 2
    ∷ reads 30513 8
    ∷ reads 40135 2
    ∷ reads 30795 2
    ∷ reads 30775 10
    ∷ reads 34113 2
    ∷ reads 30769 6
    ∷ reads 30957 6
    ∷ reads 40212 2
    ∷ processes d
    ∷ []

-- When an updater without a grid code that is not logged in has asked for the condition, has logged
-- nothing else, and gets the answers of a round in which the inverter is in order and produces, it
-- sends the further requests of the round in turn, passes on the data of the round once, that is
-- the energies and the AC values of the registers, the sum of the DC currents and the mean of the DC
-- voltages, and waits one second in its idle state with no failure counted. The inverter then has
-- the frequency, the temperature and, for each of the two DC inputs, the current, the voltage and
-- the power of the registers, and as power limit the low word of the last answer.
pub run-answers :
    (r : Registers) (u : Updater)
    → let d = run (answers r) (reporting u) in
      (d.log ≡ round (measured r))
      × (d.current_state ≡ idle)
      × (d.timer ≡ some 1000)
      × (d.retry_count ≡ 0)
      × (d.inverter.frequency ≡ long r.frequency)
      × (d.inverter.temperature ≡ long r.temperature)
      × (d.inverter.pv_info1 ≡ input r.current1 r.voltage1 r.power1)
      × (d.inverter.pv_info2 ≡ input r.current2 r.voltage2 r.power2)
      × (d.inverter.power_limit ≡ r.limit.1)
unfolding run handle on_read_completed dispatch_read start_next_action check_condition_case
    check_state_case read_power_yield_case read_ac_frequency_case read_ac_current_case
    read_ac_power_and_voltage_case read_temperature_case read_pv_data1_case read_pv_data2_case
    read_power_limit_case
run-answers r u =
    let a = long r.voltage1 in
    let b = long r.voltage2 in
    let mean : (2 * a + 2 * b) / 2 ≡ a + b = omega arith in
    (
      ap (λ v. round (record (measured r) { dc_voltage = v })) mean,
      refl,
      refl,
      refl,
      refl,
      refl,
      refl,
      refl,
      refl,
    )
