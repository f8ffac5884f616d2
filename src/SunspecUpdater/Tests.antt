-- ===== src/SunspecUpdater/Tests.antt =====
-- sunspec_updater.cpp at concrete inputs: the theorems of the other files applied, and runs. Whole
-- numbers stand for doubles.
use dbus_fronius.Base.{ℕ, ◌*◌, ◌/◌, ◌%◌, ◌≡◌, refl, true, false, not, none, [], ◌∷◌, ltb}
use dbus_fronius.SunspecUpdater.{
  Doubles, read_power_limit, write_power_limit, idle, reads, writes, Updater,
}
use dbus_fronius.SunspecUpdater.Actions.{limit_write}
use dbus_fronius.SunspecUpdater.Slots.{on_write_completed, bound, on_power_limit_requested}
use dbus_fronius.SunspecUpdater.Requests.{
  writing, waiting, on_write_completed-on_power_limit_requested,
}

abbrev numbers : Doubles ℕ
numbers = record {
  less = ltb;
  at_least = λ a b. not (ltb a b);
  times = λ a b. a * b;
  over = λ a b. a / b;
  of_number = λ a. a;
  nan = 0;
  finite = λ a. true;
  round_to_uint16 = λ a. a % 65536;
  of_value = λ v. 0;
  of_bits = λ b. b;
}

abbrev symo : Updater ℕ
symo = record {
  device = record {
    over_float = true;
    phase_count = 3;
    inverter_model_offset = 40069;
    immediate_control_offset = 40227;
    is_limitable = true;
    power_limit_scale = 10000;
    max_power = 5000;
    valid_frame = λ values. true;
  };
  multi_phase = false;
  current_state = idle;
  power_limit_pct = 100;
  retry_count = 0;
  write_power_limit_requested = false;
  timer = none;
  power_limit = 5000;
  status_code = none;
  log = [];
}

on_write_completed-on_power_limit_requested_example :
    let limit = bound numbers 0 (5000 / 5000) 100 in
    let now = on_power_limit_requested numbers 5000 (waiting numbers symo) in
    let later =
      on_write_completed numbers (on_power_limit_requested numbers 5000 (writing numbers symo)) in
    (now.log ≡ limit_write numbers (record symo { power_limit_pct = limit }) ∷ [])
    × (now.current_state ≡ write_power_limit)
    × (now.timer ≡ none)
    × (later.power_limit_pct ≡ limit)
    × (later.write_power_limit_requested ≡ false)
    × (later.current_state ≡ read_power_limit)
    × (later.log ≡ reads 40232 5 ∷ [])
on_write_completed-on_power_limit_requested_example =
    on_write_completed-on_power_limit_requested numbers 5000 symo refl refl refl

-- Twice the maximal power is written as 200 per cent.
double_test :
    limit_write numbers (record symo { power_limit_pct = bound numbers 0 (10000 / 5000) 100 })
    ≡ writes 40232 (20000 ∷ 0 ∷ 120 ∷ 0 ∷ 1 ∷ [])
unfolding limit_write bound
double_test = refl
