-- ===== src/SolarApi/Updater.antt =====
-- software/src/solar_api_updater.h and solar_api_updater.cpp: the polling of one inverter over the
-- Solar API. What the updater asks of other objects is logged, the newest last. The inverter's
-- network id and number of phases do not change.
use Prim.Native.String.{String}
use dbus_fronius.Base.{
  ℕ, suc, ◌-◌, Bool, true, false, ltb, ◌==◌, Option, none, some, List, [], ◌∷◌, ◌++◌, if◌then◌else◌,
}
use dbus_fronius.SolarApi.{
  Json, Error, no_error, network_error, api_error, CommonInverterData, ThreePhasesInverterData,
}
use dbus_fronius.SolarApi.Client.{
  FroniusSolarApi, Signal, converter_info_found, common_data_found, three_phases_data_found,
  device_info_found, new_api, get_common_data_async, get_three_phases_inverter_data_async, on_done,
  abort, set_host_name, set_port,
}

-- What the updater does outside itself; `emits_initialized` and `emits_connection_lost` are its
-- signals.
pub data Action (D : Type 0) : Type 0 where
  processes : CommonInverterData D → Action D
  processes_phases : ThreePhasesInverterData D → Action D
  sets_status_code : ℕ → Action D
  sets_error_code : ℕ → Action D
  emits_initialized emits_connection_lost updates_energy_settings resets_phases : Action D

-- `retrievals` counts the single shots of scheduleRetrieval that have not come yet.
pub record SolarApiUpdater (D : Type 0) : Type 0 where
  pub network_id : ℕ
  pub phase_count : ℕ
  pub solar_api : FroniusSolarApi
  pub initialized : Bool
  pub retry_count : ℕ
  pub retrievals : ℕ
  pub log : List (Action D)

module _ {D : Type 0} where
  abbrev pub act : Action D → SolarApiUpdater D → SolarApiUpdater D
  act a u = record u { log = u.log ++ a ∷ [] }

  unfoldable pub on_start_retrieval : SolarApiUpdater D → SolarApiUpdater D
  unfolding get_common_data_async
  on_start_retrieval u = record u { solar_api = get_common_data_async u.network_id u.solar_api }

  -- The constructor.
  unfoldable pub new_updater : String → ℕ → ℕ → ℕ → SolarApiUpdater D
  unfolding new_api on_start_retrieval
  new_updater host port network_id phase_count = on_start_retrieval (record {
    network_id = network_id;
    phase_count = phase_count;
    solar_api = new_api host port;
    initialized = false;
    retry_count = 0;
    retrievals = 0;
    log = [];
  })

  unfoldable pub schedule_retrieval : SolarApiUpdater D → SolarApiUpdater D
  schedule_retrieval u = record u { retrievals = suc u.retrievals }

  unfoldable pub set_initialized : SolarApiUpdater D → SolarApiUpdater D
  set_initialized u =
      if u.initialized then u else act emits_initialized (record u { initialized = true })

  unfoldable pub handle_error : SolarApiUpdater D → SolarApiUpdater D
  handle_error u =
      if suc u.retry_count == 5
      then act emits_connection_lost (record u { retry_count = 0 })
      else record u { retry_count = suc u.retry_count }

  -- What comes between the processing of the data and the inverter's codes.
  unfoldable pub go_on : SolarApiUpdater D → SolarApiUpdater D
  unfolding get_three_phases_inverter_data_async set_initialized schedule_retrieval
  go_on u =
      if ltb 1 u.phase_count
      then record u { solar_api = get_three_phases_inverter_data_async u.network_id u.solar_api }
      else schedule_retrieval (set_initialized u)

  abbrev pub on_common_data_for :
      Error → CommonInverterData D → SolarApiUpdater D → SolarApiUpdater D
  on_common_data_for no_error d u = act (sets_error_code d.error_code) (
      act (sets_status_code d.status_code)
        (go_on (record (act (processes d) u) { retry_count = 0 })))
  on_common_data_for network_error d u = schedule_retrieval (handle_error u)
  on_common_data_for api_error d u = schedule_retrieval (handle_error u)

  unfoldable pub on_common_data_found : CommonInverterData D → SolarApiUpdater D → SolarApiUpdater D
  unfolding go_on schedule_retrieval handle_error
  on_common_data_found d u = on_common_data_for d.reply.error d u

  abbrev pub on_three_phases_data_for :
      Error → ThreePhasesInverterData D → SolarApiUpdater D → SolarApiUpdater D
  on_three_phases_data_for no_error d u =
      set_initialized (record (act (processes_phases d) u) { retry_count = 0 })
  on_three_phases_data_for network_error d u = handle_error u
  on_three_phases_data_for api_error d u = handle_error u

  unfoldable pub on_three_phases_data_found :
      ThreePhasesInverterData D → SolarApiUpdater D → SolarApiUpdater D
  unfolding set_initialized schedule_retrieval handle_error
  on_three_phases_data_found d u = schedule_retrieval (on_three_phases_data_for d.reply.error d u)

  unfoldable pub on_phase_changed : SolarApiUpdater D → SolarApiUpdater D
  on_phase_changed u = if ltb 1 u.phase_count then u else act resets_phases u

  unfoldable pub on_settings_timer : SolarApiUpdater D → SolarApiUpdater D
  on_settings_timer u = act updates_energy_settings u

  -- The slots that the constructor connects to the signals of mSolarApi.
  unfoldable pub on_signal : Option (Signal D) → SolarApiUpdater D → SolarApiUpdater D
  unfolding on_common_data_found on_three_phases_data_found
  on_signal none u = u
  on_signal (some (converter_info_found d)) u = u
  on_signal (some (common_data_found d)) u = on_common_data_found d u
  on_signal (some (three_phases_data_found d)) u = on_three_phases_data_found d u
  on_signal (some (device_info_found d)) u = u

  -- The state of mSolarApi after a call, and the signal that it has emitted.
  abbrev pub with_api : FroniusSolarApi × Option (Signal D) → SolarApiUpdater D → SolarApiUpdater D
  with_api (a, s) u = on_signal s (record u { solar_api = a })

module _ {V D : Type 0} (q : Json V D) where
  -- onConnectionDataChanged. While mHttp is replaced, the signal comes before the new client.
  unfoldable pub on_connection_data_changed :
      String → String → ℕ → SolarApiUpdater D → SolarApiUpdater D
  unfolding on_signal set_host_name set_port
  on_connection_data_changed error_string host port u =
      let u' = with_api (set_host_name q error_string host u.solar_api) u in
      with_api (set_port q error_string port u'.solar_api) u'

  -- What happens to the updater: the HTTP client is done (with an error or not, its error text and
  -- the answer), the timeout of the request, a single shot, and changes elsewhere.
  pub data Event : Type 0 where
    done : Bool → String → String → Event
    timeout : String → Event
    retrieval_timer settings_timer phase_changed : Event
    connection_data_changed : String → String → ℕ → Event

  -- A timer that does not run has no timeout.
  unfoldable pub handle : Event → SolarApiUpdater D → SolarApiUpdater D
  unfolding on_signal on_done abort on_start_retrieval on_settings_timer on_phase_changed
      on_connection_data_changed
  handle (done e text result) u = with_api (on_done q e text result u.solar_api) u
  handle (timeout text) u =
      if u.solar_api.timer_running then with_api (abort q text u.solar_api) u else u
  handle retrieval_timer u =
      if u.retrievals == 0
      then u
      else on_start_retrieval (record u { retrievals = u.retrievals - 1 })
  handle settings_timer u = on_settings_timer u
  handle phase_changed u = on_phase_changed u
  handle (connection_data_changed text host port) u = on_connection_data_changed text host port u

  unfoldable pub run : List Event → SolarApiUpdater D → SolarApiUpdater D
  unfolding handle
  run [] u = u
  run (e ∷ events) u = run events (handle e u)
