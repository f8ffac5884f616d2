-- ===== src/DataProcessor.antt =====
-- software/src/data_processor.h and data_processor.cpp, with the values of power_info.cpp and the
-- energies of inverter_settings.cpp: how measured values become those of the phases. What is done with
-- doubles is a parameter. The phase of the settings is one of the four of InverterPhase.
pub mod Phases
use dbus_fronius.Base.{ℕ, Bool, true, false, ltb, if◌then◌else◌}
use dbus_fronius.Defines.{InverterPhase, multi_phase, phase_l1, phase_l2, phase_l3}
use dbus_fronius.SolarApi.{CommonInverterData, ThreePhasesInverterData}

-- The operations on doubles, `<`, whole numbers and -1, qIsFinite, std::isnormal and NaN.
pub record Doubles (D : Type 0) : Type 0 where
  pub plus : D → D → D
  pub minus : D → D → D
  pub times : D → D → D
  pub over : D → D → D
  pub less : D → D → Bool
  pub of_number : ℕ → D
  pub minus_one : D
  pub is_finite : D → Bool
  pub is_normal : D → Bool
  pub nan : D

-- The items of BasicPowerInfo and PowerInfo, as they are read.
pub record BasicPowerInfo (D : Type 0) : Type 0 where
  pub power : D
  pub total_energy : D

pub record PowerInfo (D : Type 0) : Type 0 where
  pub current : D
  pub voltage : D
  pub power : D
  pub total_energy : D

-- `energy1` and so on are the energies of the settings.
pub record DataProcessor (D : Type 0) : Type 0 where
  pub phase_count : ℕ
  pub phase : InverterPhase
  pub mean : BasicPowerInfo D
  pub l1 : PowerInfo D
  pub l2 : PowerInfo D
  pub l3 : PowerInfo D
  pub energy1 : D
  pub energy2 : D
  pub energy3 : D
  pub previous_total_energy : D

module _ {D : Type 0} where
  -- getPowerInfo, but for MultiPhase, with the energy of the settings.
  abbrev pub change_phase :
      InverterPhase → (PowerInfo D → PowerInfo D) → DataProcessor D → DataProcessor D
  change_phase multi_phase f p = p
  change_phase phase_l1 f p = record p { l1 = f p.l1 }
  change_phase phase_l2 f p = record p { l2 = f p.l2 }
  change_phase phase_l3 f p = record p { l3 = f p.l3 }

  abbrev pub get_phase : DataProcessor D → InverterPhase
  get_phase p = if ltb 1 p.phase_count then multi_phase else p.phase

module _ {D : Type 0} (n : Doubles D) where
  -- The constructor: there has been no total energy.
  abbrev pub new_processor : DataProcessor D → DataProcessor D
  new_processor p = record p { previous_total_energy = n.minus_one }

  -- What getDouble gives after produceDouble.
  abbrev pub stored : D → D
  stored x = if n.is_finite x then x else n.nan

  abbrev pub zero : D
  zero = n.of_number 0

  abbrev pub normal_or : D → D → D
  normal_or e setting = if n.is_normal e then e else setting

  abbrev pub get_energy_value : InverterPhase → DataProcessor D → D
  get_energy_value multi_phase p = zero
  get_energy_value phase_l1 p = normal_or p.l1.total_energy p.energy1
  get_energy_value phase_l2 p = normal_or p.l2.total_energy p.energy2
  get_energy_value phase_l3 p = normal_or p.l3.total_energy p.energy3

  unfoldable pub process_common : CommonInverterData D → DataProcessor D → DataProcessor D
  process_common d p =
      let mean : BasicPowerInfo D = record {
        power = stored d.ac_power;
        total_energy = stored (n.over d.total_energy (n.of_number 1000));
      } in
      change_phase (get_phase p)
        (λ l. record {
          current = stored d.ac_current;
          voltage = stored d.ac_voltage;
          power = stored mean.power;
          total_energy = stored mean.total_energy;
        })
        (record p { mean = mean })

  -- The energy of a phase, from its share of the accumulated one and its part of the growth.
  abbrev pub phase_energy : InverterPhase → D → D → DataProcessor D → D
  phase_energy phase accumulated delta p =
      n.plus
        (if n.less zero accumulated
          then n.over (n.times p.previous_total_energy (get_energy_value phase p)) accumulated
          else n.over p.previous_total_energy (n.of_number p.phase_count))
        delta

  unfoldable pub update_energy_value : InverterPhase → D → D → DataProcessor D → DataProcessor D
  update_energy_value phase accumulated delta p =
      if n.less p.previous_total_energy zero
      then p
      else change_phase phase
          (λ l. record l { total_energy = stored (phase_energy phase accumulated delta p) }) p

  -- The current, the voltage and the power of a phase, and then its energy.
  abbrev pub process_phase :
      InverterPhase
      → (current voltage power accumulated delta : D) → DataProcessor D
      → DataProcessor D
  process_phase phase current voltage power accumulated delta p =
      update_energy_value phase accumulated delta (
        change_phase phase
          (λ l. record l {
            current = stored current;
            voltage = stored voltage;
            power = stored power;
          })
          p)

  abbrev pub growth : DataProcessor D → D
  growth p =
      let delta = n.minus p.mean.total_energy p.previous_total_energy in
      if n.less delta zero then zero else delta

  abbrev pub has_third : DataProcessor D → Bool
  has_third p = ltb 2 p.phase_count

  abbrev pub accumulated : DataProcessor D → D
  accumulated p =
      let two = n.plus (get_energy_value phase_l1 p) (get_energy_value phase_l2 p) in
      if has_third p then n.plus two (get_energy_value phase_l3 p) else two

  abbrev pub weight1 : ThreePhasesInverterData D → D
  weight1 d = n.times d.ac_voltage_phase1 d.ac_current_phase1

  abbrev pub weight2 : ThreePhasesInverterData D → D
  weight2 d = n.times d.ac_voltage_phase2 d.ac_current_phase2

  abbrev pub weight3 : ThreePhasesInverterData D → D
  weight3 d = n.times d.ac_voltage_phase3 d.ac_current_phase3

  abbrev pub total_weight : ThreePhasesInverterData D → DataProcessor D → D
  total_weight d p =
      let two = n.plus (weight1 d) (weight2 d) in
      if has_third p then n.plus two (weight3 d) else two

  -- What a unit of weight is worth, of a total.
  abbrev pub correction : D → D → D
  correction total weight = if n.less zero weight then n.over total weight else zero

  unfoldable pub process_three_phases :
      ThreePhasesInverterData D → DataProcessor D → DataProcessor D
  unfolding update_energy_value
  process_three_phases d p =
      let power = correction p.mean.power (total_weight d p) in
      let energy = correction (growth p) (total_weight d p) in
      let acc = accumulated p in
      let p1 =
        process_phase phase_l1 d.ac_current_phase1 d.ac_voltage_phase1 (n.times (weight1 d) power)
          acc (n.times (weight1 d) energy) p in
      let p2 =
        process_phase phase_l2 d.ac_current_phase2 d.ac_voltage_phase2 (n.times (weight2 d) power)
          acc (n.times (weight2 d) energy) p1 in
      let p3 =
        process_phase phase_l3 d.ac_current_phase3 d.ac_voltage_phase3 (n.times (weight3 d) power)
          acc (n.times (weight3 d) energy) p2 in
      record (if has_third p then p3 else p2) { previous_total_energy = p.mean.total_energy }

  -- updateEnergySettings.
  abbrev pub energy_setting : D → D → D
  energy_setting e setting = if n.is_normal e then e else setting

  unfoldable pub update_energy_settings : DataProcessor D → DataProcessor D
  update_energy_settings p = record p {
    energy1 = energy_setting p.l1.total_energy p.energy1;
    energy2 = energy_setting p.l2.total_energy p.energy2;
    energy3 = energy_setting p.l3.total_energy p.energy3;
  }
