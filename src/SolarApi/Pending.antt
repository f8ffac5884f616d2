-- ===== src/SolarApi/Pending.antt =====
-- solar_api_updater.cpp: what is due after the data of an answer have been handled.
use dbus_fronius.Base.{suc, ◌≡◌, refl, ap, true, false, ltb, ◌==◌, none, some, List, if_both}
use dbus_fronius.SolarApi.{
  Error, no_error, network_error, api_error, CommonInverterData, ThreePhasesInverterData,
}
use dbus_fronius.SolarApi.Client.{
  get_common_data, get_three_phases_inverter_data, send_get_request, get_common_data_async,
  get_three_phases_inverter_data_async,
}
use dbus_fronius.SolarApi.Updater.{
  SolarApiUpdater, on_start_retrieval, schedule_retrieval, set_initialized, handle_error, go_on,
  on_common_data_for, on_three_phases_data_for,
}

-- Neither a request nor a retrieval is due.
pub data IsFree {D : Type 0} (u : SolarApiUpdater D) : Type 0 where
  free :
      u.solar_api.request_type ≡ none
      → u.solar_api.timer_running ≡ false
      → u.retrievals ≡ 0
      → IsFree u

-- Either one retrieval is due and there is no request, or one request for the inverter's data is
-- made, its timeout runs, and no retrieval is due.
pub data IsPolling {D : Type 0} (u : SolarApiUpdater D) : Type 0 where
  waits :
      u.solar_api.request_type ≡ none
      → u.solar_api.timer_running ≡ false
      → u.retrievals ≡ 1
      → IsPolling u
  asks :
      u.solar_api.request_type ≡ some get_common_data
      → u.solar_api.timer_running ≡ true
      → u.retrievals ≡ 0
      → IsPolling u
  asks_phases :
      u.solar_api.request_type ≡ some get_three_phases_inverter_data
      → u.solar_api.timer_running ≡ true
      → u.retrievals ≡ 0
      → IsPolling u

module _ {D : Type 0} where
  pub schedule_retrieval-IsPolling :
      (u : SolarApiUpdater D) → IsFree u → IsPolling (schedule_retrieval u)
  unfolding schedule_retrieval
  schedule_retrieval-IsPolling u (free r t n) = waits r t (ap suc n)

  pub set_initialized-IsFree : (u : SolarApiUpdater D) → IsFree u → IsFree (set_initialized u)
  unfolding set_initialized
  set_initialized-IsFree u (free r t n) = if_both IsFree u.initialized (free r t n) (free r t n)

  pub handle_error-IsFree : (u : SolarApiUpdater D) → IsFree u → IsFree (handle_error u)
  unfolding handle_error
  handle_error-IsFree u (free r t n) =
      if_both IsFree (suc u.retry_count == 5) (free r t n) (free r t n)

  pub go_on-IsPolling : (u : SolarApiUpdater D) → IsFree u → IsPolling (go_on u)
  unfolding go_on get_three_phases_inverter_data_async send_get_request
  go_on-IsPolling u (free r t n) =
      if_both IsPolling (ltb 1 u.phase_count) (asks_phases refl refl n)
        (schedule_retrieval-IsPolling (set_initialized u) (set_initialized-IsFree u (free r t n)))

  -- The log does not matter.
  pub logged-IsPolling :
      (u : SolarApiUpdater D) (log : List _) → IsPolling u → IsPolling (record u { log = log })
  logged-IsPolling u log (waits r t n) = waits r t n
  logged-IsPolling u log (asks r t n) = asks r t n
  logged-IsPolling u log (asks_phases r t n) = asks_phases r t n

  pub on_common_data_for-IsPolling :
      (e : Error) (d : CommonInverterData D) (u : SolarApiUpdater D)
      → IsFree u
      → IsPolling (on_common_data_for e d u)
  on_common_data_for-IsPolling no_error d u (free r t n) =
      logged-IsPolling _ _ (go_on-IsPolling _ (free r t n))
  on_common_data_for-IsPolling network_error d u f =
      schedule_retrieval-IsPolling (handle_error u) (handle_error-IsFree u f)
  on_common_data_for-IsPolling api_error d u f =
      schedule_retrieval-IsPolling (handle_error u) (handle_error-IsFree u f)

  pub on_three_phases_data_for-IsFree :
      (e : Error) (d : ThreePhasesInverterData D) (u : SolarApiUpdater D)
      → IsFree u
      → IsFree (on_three_phases_data_for e d u)
  on_three_phases_data_for-IsFree no_error d u (free r t n) = set_initialized-IsFree _ (free r t n)
  on_three_phases_data_for-IsFree network_error d u f = handle_error-IsFree u f
  on_three_phases_data_for-IsFree api_error d u f = handle_error-IsFree u f

  pub on_start_retrieval-IsPolling :
      (u : SolarApiUpdater D) → u.retrievals ≡ 0 → IsPolling (on_start_retrieval u)
  unfolding on_start_retrieval get_common_data_async send_get_request
  on_start_retrieval-IsPolling u n = asks refl refl n
