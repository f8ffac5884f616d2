-- ===== src/SunspecUpdater/Requests.antt =====
-- sunspec_updater.cpp: power limits that are requested at different times.
use dbus_fronius.Base.{◌+◌, ◌%◌, ◌≡◌, refl, true, false, none, some, [], ◌∷◌, ◌++◌}
use dbus_fronius.SunspecUpdater.{Doubles, read_power_limit, write_power_limit, idle, reads, Updater}
use dbus_fronius.SunspecUpdater.Actions.{
  emit, get_init_state, limit_write, perform, start_next_action,
}
use dbus_fronius.SunspecUpdater.Slots.{
  on_write_completed, bound, apply_limit, on_power_limit_requested,
}

module _ {D : Type 0} (n : Doubles D) where
  -- The updater that waits for the answer to a write, or for its next round.
  abbrev pub writing : Updater D → Updater D
  writing u = record u { current_state = write_power_limit; timer = none }

  abbrev pub waiting : Updater D → Updater D
  waiting u = record u { current_state = idle; timer = some 1000 }

  -- A power limit is requested of an inverter that can be limited. If the updater waits for its next
  -- round, it writes the limit at once, and waits for the answer. If it waits for the answer to an
  -- earlier write, the new limit is lost: when the answer comes, the updater keeps the new limit, but
  -- no longer that it has to be written, and goes on to read.
  pub on_write_completed-on_power_limit_requested :
      (value : D) (u : Updater D)
      → n.less u.device.power_limit_scale (n.of_number 100) ≡ false
      → n.finite u.power_limit ≡ true
      → u.device.is_limitable ≡ true
      → let limit = bound n (n.of_number 0) (n.over value u.device.max_power) (n.of_number 100) in
        let now = on_power_limit_requested n value (waiting u) in
        let later = on_write_completed n (on_power_limit_requested n value (writing u)) in
        (now.log ≡ u.log ++ limit_write n (record u { power_limit_pct = limit }) ∷ [])
        × (now.current_state ≡ write_power_limit)
        × (now.timer ≡ none)
        × (later.power_limit_pct ≡ limit)
        × (later.write_power_limit_requested ≡ false)
        × (later.current_state ≡ read_power_limit)
        × (later.log ≡ u.log ++ reads ((u.device.immediate_control_offset + 5) % 65536) 5 ∷ [])
  unfolding on_write_completed on_power_limit_requested apply_limit start_next_action perform emit
      get_init_state limit_write
  on_write_completed-on_power_limit_requested value u scaled finite able =
      rw (scaled, finite, able) (refl, refl, refl, refl, refl, refl, refl)
