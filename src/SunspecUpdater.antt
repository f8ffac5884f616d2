-- ===== src/SunspecUpdater.antt =====
-- software/src/sunspec_updater.cpp and sunspec_updater.h: the state machine that polls a SunSpec
-- inverter and writes its power limit. What the code does with a `double` is a parameter, and what
-- the updater asks of other objects is logged, the newest last. Q_ASSERT is taken as in a release
-- build, where it does nothing.
pub mod Actions
pub mod Slots
pub mod Requests
mod Tests
use dbus_fronius.Base.{ℕ, Bool, Option, List}
use dbus_fronius.SunspecTools.{Value}

-- What the updater does with doubles: `<`, `>=` (both false for NaN), products, quotients, whole numbers, NaN, qIsFinite, a
-- rounded number cast to quint16, a scaled value and the float with these bits.
pub record Doubles (D : Type 0) : Type 0 where
  pub less : D → D → Bool
  pub at_least : D → D → Bool
  pub times : D → D → D
  pub over : D → D → D
  pub of_number : ℕ → D
  pub nan : D
  pub finite : D → Bool
  pub round_to_uint16 : D → ℕ
  pub of_value : Value → D
  pub of_bits : ℕ → D

-- ModbusState.
pub data ModbusState : Type 0 where
  read_power_limit read_power_and_voltage write_power_limit idle : ModbusState

-- The fields of DeviceInfo that the updater reads. `over_float` says that retrievalMode is
-- ProtocolSunSpecFloat and not ProtocolSunSpecIntSf, `is_limitable` that productId is that of
-- Fronius or ABB, and `valid_frame` is validateSunspecMonitorFrame of the inverter.
pub record Device (D : Type 0) : Type 0 where
  pub over_float : Bool
  pub phase_count : ℕ
  pub inverter_model_offset : ℕ
  pub immediate_control_offset : ℕ
  pub is_limitable : Bool
  pub power_limit_scale : D
  pub max_power : D
  pub valid_frame : List ℕ → Bool

pub record CommonData (D : Type 0) : Type 0 where
  pub ac_current : D
  pub ac_power : D
  pub ac_voltage : D
  pub total_energy : D

pub record PhasesData (D : Type 0) : Type 0 where
  pub current1 : D
  pub current2 : D
  pub current3 : D
  pub voltage1 : D
  pub voltage2 : D
  pub voltage3 : D

-- What the updater does outside itself.
pub data Action (D : Type 0) : Type 0 where
  reads : (start count : ℕ) → Action D
  writes : (start : ℕ) → List ℕ → Action D
  processes : CommonData D → Action D
  processes_phases : PhasesData D → Action D
  splits_phase : (power energy : D) → Action D
  connection_lost model_changed reconnects resets_phases : Action D

-- `timer` is the interval of the running mTimer, `multi_phase` says that the phase of the settings
-- is MultiPhase; `power_limit` and `status_code` are those of the inverter, none for an invalid one.
pub record Updater (D : Type 0) : Type 0 where
  pub device : Device D
  pub multi_phase : Bool
  pub current_state : ModbusState
  pub power_limit_pct : D
  pub retry_count : ℕ
  pub write_power_limit_requested : Bool
  pub timer : Option ℕ
  pub power_limit : D
  pub status_code : Option ℕ
  pub log : List (Action D)
