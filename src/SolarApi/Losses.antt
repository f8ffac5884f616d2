-- ===== src/SolarApi/Losses.antt =====
-- solar_api_updater.cpp: when the updater says that it is initialized and that the connection is
-- lost.
use Prim.Native.String.{String}
use dbus_fronius.Base.{
  ℕ, suc, ◌+◌, ◌<◌, ◌++◌, ◌≡◌, refl, ap, Bool, true, false, ltb, ◌==◌, Option, some, none, List, [],
  ◌∷◌, if◌then◌else◌, if_both, arith,
}
use dbus_fronius.SolarApi.{
  Json, Error, no_error, network_error, api_error, CommonInverterData, ThreePhasesInverterData,
}
use dbus_fronius.SolarApi.Client.{
  FroniusSolarApi, Signal, converter_info_found, common_data_found, three_phases_data_found,
  device_info_found, set_host_name, set_port,
}
use dbus_fronius.SolarApi.Updater.{
  Action, processes, processes_phases, sets_status_code, sets_error_code, emits_initialized,
  emits_connection_lost, updates_energy_settings, resets_phases, act, SolarApiUpdater, Event, done,
  timeout, retrieval_timer, settings_timer, phase_changed, connection_data_changed,
  on_start_retrieval, new_updater, schedule_retrieval, set_initialized, handle_error, go_on,
  on_common_data_for, on_common_data_found, on_three_phases_data_for, on_three_phases_data_found,
  on_phase_changed, on_settings_timer, on_signal, with_api, on_connection_data_changed, handle, run,
}

abbrev pub once : Bool → ℕ
once b = if b then 1 else 0

module _ {D : Type 0} where
  -- How often actions of one kind are in a log.
  abbrev pub occurrences : (Action D → Bool) → List (Action D) → ℕ
  occurrences kind [] = 0
  occurrences kind (a ∷ log) = once (kind a) + occurrences kind log

  abbrev pub is_initialized : Action D → Bool
  is_initialized emits_initialized = true
  is_initialized _ = false

  abbrev pub is_loss : Action D → Bool
  is_loss emits_connection_lost = true
  is_loss _ = false

  pub occurrences-act :
      (kind : Action D → Bool) (log : List (Action D)) (a : Action D)
      → occurrences kind (log ++ a ∷ []) ≡ occurrences kind log + once (kind a)
  occurrences-act kind [] a = omega arith
  occurrences-act kind (b ∷ log) a = omega (arith, occurrences-act kind log a)

  -- The signal initialized has been emitted once if the flag is set, and else never, and there are
  -- less than five failures in a row that have not led to a lost connection.
  abbrev pub IsSound : SolarApiUpdater D → Type 0
  IsSound u = (occurrences is_initialized u.log ≡ once u.initialized) × (u.retry_count < 5)

  -- Other actions do not change this.
  act-IsSound :
      (a : Action D) (u : SolarApiUpdater D)
      → once (is_initialized a) ≡ 0
      → IsSound u
      → IsSound (act a u)
  act-IsSound a u e p = (omega (arith, occurrences-act is_initialized u.log a, e, p.0), p.1)

  initialized_if-IsSound :
      (b : Bool) (u : SolarApiUpdater D)
      → u.initialized ≡ b
      → IsSound u
      → IsSound (if b then u else act emits_initialized (record u { initialized = true }))
  initialized_if-IsSound true u e p = p
  initialized_if-IsSound false u e p =
      let none_yet : once u.initialized ≡ 0 = ap once e in
      (omega (arith, occurrences-act is_initialized u.log emits_initialized, none_yet, p.0), p.1)

  set_initialized-IsSound : (u : SolarApiUpdater D) → IsSound u → IsSound (set_initialized u)
  unfolding set_initialized
  set_initialized-IsSound u p = initialized_if-IsSound u.initialized u refl p

  lost_if-IsSound :
      (b : Bool) (u : SolarApiUpdater D)
      → (suc u.retry_count == 5) ≡ b
      → IsSound u
      → IsSound (
          if b
          then act emits_connection_lost (record u { retry_count = 0 })
          else record u { retry_count = suc u.retry_count })
  lost_if-IsSound true u e p =
      act-IsSound emits_connection_lost (record u { retry_count = 0 }) refl (p.0, omega arith)
  lost_if-IsSound false u e p = (p.0, ground (arith, p.1, e))

  handle_error-IsSound : (u : SolarApiUpdater D) → IsSound u → IsSound (handle_error u)
  unfolding handle_error
  handle_error-IsSound u p = lost_if-IsSound (suc u.retry_count == 5) u refl p

  go_on-IsSound : (u : SolarApiUpdater D) → IsSound u → IsSound (go_on u)
  unfolding go_on schedule_retrieval
  go_on-IsSound u p = if_both IsSound (ltb 1 u.phase_count) p (set_initialized-IsSound u p)

  on_common_data_for-IsSound :
      (e : Error) (d : CommonInverterData D) (u : SolarApiUpdater D)
      → IsSound u
      → IsSound (on_common_data_for e d u)
  unfolding schedule_retrieval
  on_common_data_for-IsSound no_error d u p =
      let processed = record (act (processes d) u) { retry_count = 0 } in
      let sound : IsSound processed = ((act-IsSound (processes d) u refl p).0, omega arith) in
      act-IsSound (sets_error_code d.error_code)
        (act (sets_status_code d.status_code) (go_on processed)) refl
        (act-IsSound (sets_status_code d.status_code) (go_on processed) refl
          (go_on-IsSound processed sound))
  on_common_data_for-IsSound network_error d u p = handle_error-IsSound u p
  on_common_data_for-IsSound api_error d u p = handle_error-IsSound u p

  on_three_phases_data_for-IsSound :
      (e : Error) (d : ThreePhasesInverterData D) (u : SolarApiUpdater D)
      → IsSound u
      → IsSound (on_three_phases_data_for e d u)
  on_three_phases_data_for-IsSound no_error d u p =
      set_initialized-IsSound (record (act (processes_phases d) u) { retry_count = 0 })
        ((act-IsSound (processes_phases d) u refl p).0, omega arith)
  on_three_phases_data_for-IsSound network_error d u p = handle_error-IsSound u p
  on_three_phases_data_for-IsSound api_error d u p = handle_error-IsSound u p

  on_signal-IsSound :
      (s : Option (Signal D)) (u : SolarApiUpdater D) → IsSound u → IsSound (on_signal s u)
  unfolding on_signal on_common_data_found on_three_phases_data_found schedule_retrieval
  on_signal-IsSound none u p = p
  on_signal-IsSound (some (converter_info_found d)) u p = p
  on_signal-IsSound (some (common_data_found d)) u p =
      on_common_data_for-IsSound d.reply.error d u p
  on_signal-IsSound (some (three_phases_data_found d)) u p =
      on_three_phases_data_for-IsSound d.reply.error d u p
  on_signal-IsSound (some (device_info_found d)) u p = p

  with_api-IsSound :
      (r : FroniusSolarApi × Option (Signal D)) (u : SolarApiUpdater D)
      → IsSound u
      → IsSound (with_api r u)
  with_api-IsSound (a, s) u p = on_signal-IsSound s (record u { solar_api = a }) p

module _ {V D : Type 0} (q : Json V D) where
  handle-IsSound : (e : Event q) (u : SolarApiUpdater D) → IsSound u → IsSound (handle q e u)
  unfolding handle on_settings_timer on_phase_changed on_connection_data_changed on_start_retrieval
  handle-IsSound (done e text result) u p = with_api-IsSound _ u p
  handle-IsSound (timeout text) u p =
      if_both IsSound u.solar_api.timer_running (with_api-IsSound _ u p) p
  handle-IsSound retrieval_timer u p = if_both IsSound (u.retrievals == 0) p p
  handle-IsSound settings_timer u p = act-IsSound updates_energy_settings u refl p
  handle-IsSound phase_changed u p =
      if_both IsSound (ltb 1 u.phase_count) p (act-IsSound resets_phases u refl p)
  handle-IsSound (connection_data_changed text host port) u p =
      let host_set = with_api (set_host_name q text host u.solar_api) u in
      with_api-IsSound (set_port q text port host_set.solar_api) host_set
        (with_api-IsSound (set_host_name q text host u.solar_api) u p)

  run-preserved :
      (events : List (Event q)) (u : SolarApiUpdater D) → IsSound u → IsSound (run q events u)
  unfolding run
  run-preserved [] u p = p
  run-preserved (e ∷ events) u p = run-preserved events (handle q e u) (handle-IsSound e u p)

  -- Whatever happens to an updater from its construction on, the signal initialized has been emitted
  -- once if its flag is set, and else not at all, and it has counted less than five failures.
  pub run-IsSound :
      (host : String) (port network_id phase_count : ℕ) (events : List (Event q))
      → IsSound (run q events (new_updater host port network_id phase_count))
  unfolding new_updater on_start_retrieval
  run-IsSound host port network_id phase_count events = run-preserved events _ (refl, omega arith)
