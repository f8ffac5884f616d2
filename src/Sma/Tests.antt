-- ===== src/Sma/Tests.antt =====
-- The updater at concrete answers.
use dbus_fronius.Base.{ℕ, ◌≡◌, refl, true, false, none, some, [], ◌∷◌, ◌++◌, arith, map}
use dbus_fronius.Sma.{
  idle, os_mpp, om_watt, oc_ok, Updater, check_condition, check_login, error, positive, negative,
  read_power_limit, write_power_limit, processes, writes,
}
use dbus_fronius.Sma.Handlers.{
  read_completed, power_limit_requested, write_completed, timer_fired, run,
}
use dbus_fronius.Sma.Cycle.{
  Registers, answers, measured, reporting, round, long, input, run-answers,
}
use dbus_fronius.Sma.ReportOnly.{IsReportOnly, run-IsReportOnly}
use dbus_fronius.Sma.Limit.{IsSafe, run-IsSafe}
use dbus_fronius.Sma.Faults.{wrong_size-stalls}
use dbus_fronius.Sma.Words.{word_of, run-word_of}

-- An updater at its start, for an inverter of 5 kW with the given grid code.
abbrev started : ℕ → Updater
started code = record {
  max_power = 5000;
  undefined_cast = λ d. 65531;
  inverter = record {
    grid_code = code;
    status = 0;
    error = 0;
    status_code = 0;
    error_code = 0;
    op_mode = 0;
    op_condition = 0;
    op_state = 0;
    logged_in = false;
    frequency = 0;
    temperature = 0;
    power_limit = 0;
    pv_info1 = record { current = 0; voltage = 0; power = 0 };
    pv_info2 = record { current = 0; voltage = 0; power = 0 };
  };
  inverter_data = record {
    ac_frequency = 0;
    ac_current = 0;
    ac_power = 0;
    ac_voltage = 0;
    dc_current = 0;
    dc_voltage = 0;
    day_energy = 0;
    total_energy = 0;
  };
  current_state = check_condition;
  power_limit_watt = positive 5000 0;
  retry_count = 0;
  write_count = 0;
  write_power_limit_requested = false;
  timer = none;
  log = [];
}

-- The same after three attempts to log in.
abbrev third : Updater
third = record (started 305419896) { current_state = check_login; write_count = 3 }

run-IsReportOnly_example : IsReportOnly (
    run
      (read_completed 0 (0 ∷ oc_ok ∷ [])
        ∷ read_completed 0 (0 ∷ os_mpp ∷ [])
        ∷ power_limit_requested (negative 5 0)
        ∷ [])
      (started 0))
run-IsReportOnly_example =
    run-IsReportOnly
      (read_completed 0 (0 ∷ oc_ok ∷ [])
        ∷ read_completed 0 (0 ∷ os_mpp ∷ [])
        ∷ power_limit_requested (negative 5 0)
        ∷ [])
      (started 0) (record { no_code = refl; logged_out = refl; calm = refl; log_reads = tt })

run-IsSafe_example : IsSafe 305419896 5000 (
    run
      (power_limit_requested (positive 9000 0)
        ∷ read_completed 0 (0 ∷ 0 ∷ [])
        ∷ write_completed
        ∷ read_completed 0 (0 ∷ 1 ∷ [])
        ∷ read_completed 0 (0 ∷ om_watt ∷ [])
        ∷ timer_fired true
        ∷ [])
      (record third { write_count = 0 }))
run-IsSafe_example =
    run-IsSafe 305419896 5000
      (power_limit_requested (positive 9000 0)
        ∷ read_completed 0 (0 ∷ 0 ∷ [])
        ∷ write_completed
        ∷ read_completed 0 (0 ∷ 1 ∷ [])
        ∷ read_completed 0 (0 ∷ om_watt ∷ [])
        ∷ timer_fired true
        ∷ [])
      (record third { write_count = 0 }) (omega arith) (refl, (tt, (tt, (tt, (tt, (tt, tt))))))
      (record { steady = (refl, refl, (refl, refl), omega arith, tt); ready = λ e. ground arith })

-- An updater that is about to write a limit; a cast that C++ leaves open wraps here.
abbrev reading : Updater
reading =
    let u = started 305419896 in
    record u {
      inverter = record u.inverter { logged_in = true; op_mode = om_watt };
      current_state = read_power_limit;
    }

-- A request for -5 watts.
run-word_of_example :
    let d =
      run (power_limit_requested (negative 5 0) ∷ read_completed 0 (0 ∷ 5000 ∷ []) ∷ []) reading in
    (d.log
      ≡ (reading.log ++ processes reading.inverter_data ∷ [])
        ++ writes 40212 (0 ∷ word_of reading.undefined_cast 5000 (negative 5 0) ∷ []) ∷ [])
    × (d.current_state ≡ write_power_limit)
run-word_of_example = run-word_of (negative 5 0) 0 5000 reading (omega arith) refl refl refl

wrong_size-stalls_example :
    let d =
      run
        (read_completed 0 (7 ∷ []) ∷ map power_limit_requested (positive 1000 0 ∷ []))
        (started 0) in
    (d.log ≡ []) × (d.timer ≡ none) × (d.current_state ≡ error)
wrong_size-stalls_example =
    wrong_size-stalls 2 (7 ∷ []) (positive 1000 0 ∷ []) (started 0) refl (omega arith) refl

-- 230.00 V, 4.348 A, 1000 W, 50.00 Hz.
abbrev registers : Registers
registers = record {
  total_energy = (0, 0, 15, 16960);
  day_energy = (0, 0, 0, 4200);
  frequency = (0, 5000);
  current = (0, 4348);
  power = (0, 1000);
  unused = (0, 0, 0, 0, 0, 0);
  voltage = (0, 23000);
  temperature = (0, 412);
  current1 = (0, 2100);
  voltage1 = (0, 25000);
  power1 = (0, 525);
  current2 = (0, 2050);
  voltage2 = (0, 25100);
  power2 = (0, 514);
  limit = (0, 5000);
}

run-answers_example :
    let d = run (answers registers) (reporting (started 0)) in
    (d.log ≡ round (measured registers))
    × (d.current_state ≡ idle)
    × (d.timer ≡ some 1000)
    × (d.retry_count ≡ 0)
    × (d.inverter.frequency ≡ long registers.frequency)
    × (d.inverter.temperature ≡ long registers.temperature)
    × (d.inverter.pv_info1 ≡ input registers.current1 registers.voltage1 registers.power1)
    × (d.inverter.pv_info2 ≡ input registers.current2 registers.voltage2 registers.power2)
    × (d.inverter.power_limit ≡ registers.limit.1)
run-answers_example = run-answers registers (started 0)
