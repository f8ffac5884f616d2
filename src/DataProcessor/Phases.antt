-- ===== src/DataProcessor/Phases.antt =====
-- data_processor.cpp: which phases a total reaches, whatever the doubles are.
use dbus_fronius.Base.{
  ◌≡◌, refl, sym, ap, subst, ◌∙◌, Bool, true, false, ltb, if◌then◌else◌, if_both,
}
use dbus_fronius.Defines.{InverterPhase, phase_l1, phase_l2, phase_l3}
use dbus_fronius.SolarApi.{ThreePhasesInverterData}
use dbus_fronius.DataProcessor.{
  Doubles, DataProcessor, change_phase, stored, correction, growth, accumulated, total_weight,
  weight1, weight2, weight3, process_phase, update_energy_value, process_three_phases,
}

module _ {D : Type 0} (n : Doubles D) where
  -- Before there has been a total energy, a phase gets its other values only.
  abbrev other_values :
      InverterPhase → (current voltage power : D) → DataProcessor D → DataProcessor D
  other_values phase c v w =
      change_phase phase
        (λ l. record l { current = stored n c; voltage = stored n v; power = stored n w })

  process_phase-first :
      (phase : InverterPhase) (c v w acc delta : D) (p : DataProcessor D)
      → n.less (other_values phase c v w p).previous_total_energy (n.of_number 0) ≡ true
      → process_phase n phase c v w acc delta p ≡ other_values phase c v w p
  unfolding update_energy_value
  process_phase-first phase c v w acc delta p first = rw first refl

  -- Before there has been a total energy, the phases keep their energies, and the third phase of an
  -- inverter with at most two phases keeps all its values. The total energy is then remembered.
  pub process_three_phases-first :
      (d : ThreePhasesInverterData D) (p : DataProcessor D)
      → n.less p.previous_total_energy (n.of_number 0) ≡ true
      → let p' = process_three_phases n d p in
        (p'.l1.total_energy ≡ p.l1.total_energy)
        × (p'.l2.total_energy ≡ p.l2.total_energy)
        × (p'.l3.total_energy ≡ p.l3.total_energy)
        × (ltb 2 p.phase_count ≡ false → p'.l3 ≡ p.l3)
        × (p'.previous_total_energy ≡ p.mean.total_energy)
  unfolding process_three_phases update_energy_value
  process_three_phases-first d p first =
      let power = correction n p.mean.power (total_weight n d p) in
      let energy = correction n (growth n p) (total_weight n d p) in
      let acc = accumulated n p in
      let step2 =
        process_phase n phase_l2 d.ac_current_phase2 d.ac_voltage_phase2
          (n.times (weight2 n d) power) acc (n.times (weight2 n d) energy) in
      let step3 =
        process_phase n phase_l3 d.ac_current_phase3 d.ac_voltage_phase3
          (n.times (weight3 n d) power) acc (n.times (weight3 n d) energy) in
      let q1 =
        other_values phase_l1 d.ac_current_phase1 d.ac_voltage_phase1 (n.times (weight1 n d) power)
          p in
      let q2 =
        other_values phase_l2 d.ac_current_phase2 d.ac_voltage_phase2 (n.times (weight2 n d) power)
          q1 in
      let q3 =
        other_values phase_l3 d.ac_current_phase3 d.ac_voltage_phase3 (n.times (weight3 n d) power)
          q2 in
      let e1 =
        process_phase-first phase_l1 d.ac_current_phase1 d.ac_voltage_phase1
          (n.times (weight1 n d) power) acc (n.times (weight1 n d) energy) p first in
      let e2 =
        ap step2 e1
        ∙ process_phase-first phase_l2 d.ac_current_phase2 d.ac_voltage_phase2
            (n.times (weight2 n d) power) acc (n.times (weight2 n d) energy) q1 first in
      let e3 =
        ap step3 e2
        ∙ process_phase-first phase_l3 d.ac_current_phase3 d.ac_voltage_phase3
            (n.times (weight3 n d) power) acc (n.times (weight3 n d) energy) q2 first in
      let third = ltb 2 p.phase_count in
      subst
        (λ (q : DataProcessor D × DataProcessor D).
          let p' = if third then q.1 else q.0 in
          (p'.l1.total_energy ≡ p.l1.total_energy)
          × (p'.l2.total_energy ≡ p.l2.total_energy)
          × (p'.l3.total_energy ≡ p.l3.total_energy)
          × (third ≡ false → p'.l3 ≡ p.l3)
          × (p.mean.total_energy ≡ p.mean.total_energy))
        (sym (λ i. (e2 i, e3 i)))
        (
          if_both (λ (q : DataProcessor D). q.l1.total_energy ≡ p.l1.total_energy) third refl refl,
          if_both (λ (q : DataProcessor D). q.l2.total_energy ≡ p.l2.total_energy) third refl refl,
          if_both (λ (q : DataProcessor D). q.l3.total_energy ≡ p.l3.total_energy) third refl refl,
          λ no. ap (λ (b : Bool). (if b then q3 else q2).l3) no,
          refl,
        )
