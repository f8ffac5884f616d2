-- ===== src/SolarApi/Polling.antt =====
-- solar_api_updater.cpp: the updater never stops to poll, and has one request at a time.
use Prim.Native.String.{String}
use dbus_fronius.Base.{
  ℕ, ◌-◌, ◌++◌, ◌≡◌, refl, sym, subst, false, ltb, ◌==◌, Option, List, [], ◌∷◌, if◌then◌else◌,
  if_both, arith,
}
use dbus_fronius.SolarApi.{Json, is_empty, same_text}
use dbus_fronius.SolarApi.Client.{
  RequestType, FroniusSolarApi, Signal, Call, connects, end_request, process_request_for,
  process_request, on_done, abort, update_http_client, set_host_name, set_port, new_api,
}
use dbus_fronius.SolarApi.Updater.{
  SolarApiUpdater, Event, done, timeout, retrieval_timer, settings_timer, phase_changed,
  connection_data_changed, new_updater, on_common_data_found, on_three_phases_data_found,
  on_phase_changed, on_settings_timer, on_signal, with_api, on_connection_data_changed, handle, run,
}
use dbus_fronius.SolarApi.Pending.{
  IsFree, free, IsPolling, waits, asks, asks_phases, schedule_retrieval-IsPolling, logged-IsPolling,
  on_common_data_for-IsPolling, on_three_phases_data_for-IsFree, on_start_retrieval-IsPolling,
}

module _ {V D : Type 0} (q : Json V D) where
  -- The end of a request, whatever the HTTP client is asked then.
  abbrev pub then_calls : (List Call → List Call) → String → FroniusSolarApi → FroniusSolarApi
  then_calls f failure a = let a' = end_request failure a in record a' { calls = f a'.calls }

  pub then_calls-IsFree :
      (f : List Call → List Call) (failure : String) (a : FroniusSolarApi) (u : SolarApiUpdater D)
      → u.retrievals ≡ 0
      → IsFree (record u { solar_api = then_calls f failure a })
  unfolding end_request
  then_calls-IsFree f failure a u n =
      if_both
        (λ (e : FroniusSolarApi). IsFree (record u { solar_api = record e { calls = f e.calls } }))
        (is_empty failure) (free refl refl n) (free refl refl n)

  -- What the updater does with the end of a request of this type.
  abbrev ended :
      (List Call → List Call)
      → String
      → String
      → FroniusSolarApi
      → SolarApiUpdater D
      → Option RequestType
      → SolarApiUpdater D
  ended f failure result a u type =
      let (a', s) = process_request_for q type failure result a in
      with_api (record a' { calls = f a'.calls }, s) u

  -- However a request ends, there is a next step; without a request, the signal does nothing.
  ended-IsPolling :
      (f : List Call → List Call) (failure result : String) (a : FroniusSolarApi)
      (u : SolarApiUpdater D)
      → IsPolling (record u { solar_api = a })
      → IsPolling (ended f failure result a u a.request_type)
  unfolding on_signal on_common_data_found on_three_phases_data_found
  ended-IsPolling f failure result a u (waits r t n) =
      subst (λ (o : Option RequestType). IsPolling (ended f failure result a u o)) (sym r)
        (waits r t n)
  ended-IsPolling f failure result a u (asks r t n) =
      subst (λ (o : Option RequestType). IsPolling (ended f failure result a u o)) (sym r)
        (on_common_data_for-IsPolling _ _ _ (then_calls-IsFree f failure a u n))
  ended-IsPolling f failure result a u (asks_phases r t n) =
      subst (λ (o : Option RequestType). IsPolling (ended f failure result a u o)) (sym r)
        (schedule_retrieval-IsPolling _
          (on_three_phases_data_for-IsFree _ _ _ (then_calls-IsFree f failure a u n)))

  -- The HTTP client is replaced.
  replaced-IsPolling :
      (text : String) (a : FroniusSolarApi) (u : SolarApiUpdater D)
      → IsPolling (record u { solar_api = a })
      → IsPolling (with_api (update_http_client q text a) u)
  unfolding update_http_client abort on_done process_request
  replaced-IsPolling text a u p =
      ended-IsPolling (λ calls. calls ++ connects a.host_name a.port ∷ []) text "" a u p

  -- The fields of the client that do not matter.
  moved-IsPolling :
      (a : FroniusSolarApi) (host : String) (port : ℕ) (u : SolarApiUpdater D)
      → IsPolling (record u { solar_api = a })
      → IsPolling (record u { solar_api = record a { host_name = host; port = port } })
  moved-IsPolling a host port u (waits r t n) = waits r t n
  moved-IsPolling a host port u (asks r t n) = asks r t n
  moved-IsPolling a host port u (asks_phases r t n) = asks_phases r t n

  set_host_name-IsPolling :
      (text h : String) (u : SolarApiUpdater D)
      → IsPolling u
      → IsPolling (with_api (set_host_name q text h u.solar_api) u)
  unfolding set_host_name on_signal
  set_host_name-IsPolling text h u p =
      let a = u.solar_api in
      if_both (λ (r : FroniusSolarApi × Option (Signal D)). IsPolling (with_api r u))
        (same_text a.host_name h) p
        (replaced-IsPolling text (record a { host_name = h }) u (moved-IsPolling a h a.port u p))

  set_port-IsPolling :
      (text : String) (port : ℕ) (u : SolarApiUpdater D)
      → IsPolling u
      → IsPolling (with_api (set_port q text port u.solar_api) u)
  unfolding set_port on_signal
  set_port-IsPolling text port u p =
      let a = u.solar_api in
      if_both (λ (r : FroniusSolarApi × Option (Signal D)). IsPolling (with_api r u))
        (a.port == port) p
        (replaced-IsPolling text (record a { port = port }) u
          (moved-IsPolling a a.host_name port u p))

  at_most_one : (u : SolarApiUpdater D) → IsPolling u → u.retrievals - 1 ≡ 0
  at_most_one u (waits r t n) = omega (arith, n)
  at_most_one u (asks r t n) = omega (arith, n)
  at_most_one u (asks_phases r t n) = omega (arith, n)

  retrieval_timer-IsPolling :
      (u : SolarApiUpdater D) → IsPolling u → IsPolling (handle q retrieval_timer u)
  unfolding handle
  retrieval_timer-IsPolling u p =
      if_both IsPolling (u.retrievals == 0) p (
        on_start_retrieval-IsPolling (record u { retrievals = u.retrievals - 1 }) (at_most_one u p))

  handle-IsPolling : (e : Event q) (u : SolarApiUpdater D) → IsPolling u → IsPolling (handle q e u)
  unfolding handle on_done process_request abort on_settings_timer on_phase_changed
      on_connection_data_changed
  handle-IsPolling (done e text result) u p =
      ended-IsPolling (λ calls. calls) (if e then text else "") result u.solar_api u p
  handle-IsPolling (timeout text) u p =
      if_both IsPolling u.solar_api.timer_running
        (ended-IsPolling (λ calls. calls) text "" u.solar_api u p) p
  handle-IsPolling retrieval_timer u p = retrieval_timer-IsPolling u p
  handle-IsPolling settings_timer u p = logged-IsPolling u _ p
  handle-IsPolling phase_changed u p =
      if_both IsPolling (ltb 1 u.phase_count) p (logged-IsPolling u _ p)
  handle-IsPolling (connection_data_changed text host port) u p =
      set_port-IsPolling text port _ (set_host_name-IsPolling text host u p)

  run-preserved :
      (events : List (Event q)) (u : SolarApiUpdater D) → IsPolling u → IsPolling (run q events u)
  unfolding run
  run-preserved [] u p = p
  run-preserved (e ∷ events) u p = run-preserved events (handle q e u) (handle-IsPolling e u p)

  -- Whatever happens to an updater, from its construction on, and with every answer or failure of
  -- its requests and every change of the host, it goes on to poll, and only once: either it
  -- waits for the next retrieval, the only one that is due, or it has one request for data of the
  -- inverter, with a timeout that runs, and no retrieval is due.
  pub run-IsPolling :
      (host : String) (port network_id phase_count : ℕ) (events : List (Event q))
      → IsPolling (run q events (new_updater host port network_id phase_count))
  unfolding new_updater new_api
  run-IsPolling host port network_id phase_count events = run-preserved events _ (
      on_start_retrieval-IsPolling
        (record {
          network_id = network_id;
          phase_count = phase_count;
          solar_api = new_api host port;
          initialized = false;
          retry_count = 0;
          retrievals = 0;
          log = [];
        })
        refl)
