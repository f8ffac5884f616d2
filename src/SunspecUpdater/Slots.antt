-- ===== src/SunspecUpdater/Slots.antt =====
-- sunspec_updater.cpp: the slots of the updater.
use dbus_fronius.Base.{
  ℕ, Bool, true, false, not, ◌||◌, Option, none, some, List, ltb, ◌==◌, if◌then◌else◌,
}
use dbus_fronius.SunspecUpdater.{Doubles, write_power_limit, reconnects, resets_phases, Updater}
use dbus_fronius.SunspecUpdater.Actions.{
  emit, is_idle, handle_error, get_init_state, start_next_action, dispatch_read,
}

module _ {D : Type 0} (n : Doubles D) where
  -- `failure` is the error code of the reply, 0 for none.
  unfoldable pub on_read_completed : ℕ → List ℕ → Updater D → Updater D
  unfolding dispatch_read start_next_action handle_error
  on_read_completed failure values u =
      if failure == 0
      then (let (u', next) =
            dispatch_read n u.current_state values (record u { retry_count = 0 }) in
          start_next_action n next u')
      else handle_error u

  -- The slot does not look at the error of the reply.
  unfoldable pub on_write_completed : Updater D → Updater D
  unfolding start_next_action get_init_state
  on_write_completed u =
      start_next_action n (get_init_state u) (record u { write_power_limit_requested = false })

  -- qBound.
  unfoldable pub bound : D → D → D → D
  bound low value high =
      let least = if n.less high value then high else value in
      if n.less low least then least else low

  abbrev with_limit : D → Updater D → Updater D
  with_limit value u = record u {
    power_limit_pct = bound (n.of_number 0) (n.over value u.device.max_power) (n.of_number 100);
  }

  -- What is done with the timer: the write at once, or the action that was to be tried again.
  unfoldable pub apply_limit : Option ℕ → Updater D → Updater D
  unfolding start_next_action
  apply_limit none u = record u { write_power_limit_requested = true }
  apply_limit (some t) u =
      let u' = record u { timer = none } in
      if is_idle u.current_state
      then start_next_action n write_power_limit u'
      else record (start_next_action n u.current_state u') { write_power_limit_requested = true }

  unfoldable pub on_power_limit_requested : D → Updater D → Updater D
  unfolding bound apply_limit
  on_power_limit_requested value u =
      if n.less u.device.power_limit_scale (n.of_number 100) || not (n.finite u.power_limit)
      then u
      else apply_limit u.timer (with_limit value u)

  unfoldable pub on_connected : Updater D → Updater D
  unfolding start_next_action get_init_state
  on_connected u = start_next_action n (get_init_state u) u

  unfoldable pub on_disconnected : Updater D → Updater D
  unfolding handle_error get_init_state
  on_disconnected u = handle_error (record u { current_state = get_init_state u })

  -- The timer fires once; `up` is mModbusClient->isConnected().
  unfoldable pub on_timer : Bool → Updater D → Updater D
  unfolding start_next_action get_init_state emit
  on_timer up u =
      let u' = record u { timer = none } in
      if up
      then start_next_action n
          (if is_idle u.current_state then get_init_state u else u.current_state) u'
      else emit reconnects u'

  unfoldable pub on_phase_changed : Updater D → Updater D
  unfolding emit
  on_phase_changed u = if ltb 1 u.device.phase_count then u else emit resets_phases u
