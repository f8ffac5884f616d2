-- ===== src/SolarApi/Resume.antt =====
-- solar_api_updater.cpp: after a request that is never answered, the updater makes the next one.
use Prim.Native.String.{String}
use dbus_fronius.Base.{
  ℕ, suc, ◌-◌, ◌++◌, ◌≡◌, refl, sym, ap, subst, Bool, true, false, ◌==◌, Option, some, none, List,
  [], ◌∷◌, if◌then◌else◌,
}
use dbus_fronius.SolarApi.{
  Json, Error, network_error, CommonInverterData, is_empty, process_reply, process_common_data,
}
use dbus_fronius.SolarApi.Client.{
  RequestType, get_common_data, gets, process_request_for, process_request, on_done, abort,
  get_common_data_async, send_get_request,
}
use dbus_fronius.SolarApi.Updater.{
  SolarApiUpdater, Event, timeout, retrieval_timer, new_updater, on_start_retrieval,
  schedule_retrieval, handle_error, on_common_data_for, on_common_data_found,
  on_three_phases_data_found, on_signal, with_api, handle, run,
}
use dbus_fronius.SolarApi.Pending.{
  IsFree, free, IsPolling, waits, asks, asks_phases, handle_error-IsFree,
  on_three_phases_data_for-IsFree,
}
use dbus_fronius.SolarApi.Polling.{then_calls-IsFree, run-IsPolling}

-- A retrieval is due, and there is no request.
data IsWaiting {D : Type 0} (u : SolarApiUpdater D) : Type 0 where
  waiting : u.solar_api.request_type ≡ none → u.retrievals ≡ 1 → IsWaiting u

module _ {D : Type 0} where
  schedule_retrieval-IsWaiting :
      (u : SolarApiUpdater D) → IsFree u → IsWaiting (schedule_retrieval u)
  unfolding schedule_retrieval
  schedule_retrieval-IsWaiting u (free r t n) = waiting r (ap suc n)

  on_common_data_found-IsWaiting :
      (d : CommonInverterData D) (u : SolarApiUpdater D)
      → d.reply.error ≡ network_error
      → IsFree u
      → IsWaiting (on_common_data_found d u)
  unfolding on_common_data_found
  on_common_data_found-IsWaiting d u e f =
      subst (λ (x : Error). IsWaiting (on_common_data_for x d u)) (sym e)
        (schedule_retrieval-IsWaiting (handle_error u) (handle_error-IsFree u f))

  -- A request for the common data is made of this updater, and its timeout runs.
  pub record Asks (u u' : SolarApiUpdater D) : Type 0 where
    pub request : u'.solar_api.request_type ≡ some get_common_data
    pub running : u'.solar_api.timer_running ≡ true
    pub sent :
        u'.solar_api.calls ≡ u.solar_api.calls ++ gets get_common_data (some u.network_id) ∷ []
    pub none_due : u'.retrievals ≡ 0

module _ {V D : Type 0} (q : Json V D) where
  pub failure-error :
      (text : String)
      → is_empty text ≡ false
      → (process_common_data q text "").reply.error ≡ network_error
  unfolding process_common_data process_reply
  failure-error text filled = rw filled refl

  -- The timeout of a request of this type, if the timer is running.
  abbrev timed_out : String → SolarApiUpdater D → Bool → Option RequestType → SolarApiUpdater D
  timed_out text u running type =
      if running then with_api (process_request_for q type text "" u.solar_api) u else u

  timed_out-IsWaiting :
      (text : String) (u : SolarApiUpdater D)
      → is_empty text ≡ false
      → IsPolling u
      → IsWaiting (timed_out text u u.solar_api.timer_running u.solar_api.request_type)
  unfolding on_signal on_three_phases_data_found
  timed_out-IsWaiting text u filled (waits r t n) =
      subst (λ (b : Bool). IsWaiting (timed_out text u b u.solar_api.request_type)) (sym t)
        (waiting r n)
  timed_out-IsWaiting text u filled (asks r t n) =
      subst (λ (b : Bool). IsWaiting (timed_out text u b u.solar_api.request_type)) (sym t)
        (subst (λ (o : Option RequestType). IsWaiting (timed_out text u true o)) (sym r)
          (on_common_data_found-IsWaiting _ _ (failure-error text filled)
            (then_calls-IsFree q (λ calls. calls) text u.solar_api u n)))
  timed_out-IsWaiting text u filled (asks_phases r t n) =
      subst (λ (b : Bool). IsWaiting (timed_out text u b u.solar_api.request_type)) (sym t)
        (subst (λ (o : Option RequestType). IsWaiting (timed_out text u true o)) (sym r)
          (schedule_retrieval-IsWaiting _ (
            on_three_phases_data_for-IsFree _ _ _
              (then_calls-IsFree q (λ calls. calls) text u.solar_api u n))))

  retrieval_timer-Asks : (u : SolarApiUpdater D) → IsWaiting u → Asks u (handle q retrieval_timer u)
  unfolding handle on_start_retrieval get_common_data_async send_get_request
  retrieval_timer-Asks u (waiting r n) =
      subst
        (λ (k : ℕ).
          Asks u (if k == 0 then u else on_start_retrieval (record u { retrievals = k - 1 })))
        (sym n) (record { request = refl; running = refl; sent = refl; none_due = refl })

  -- In each state that the updater comes to, with a timeout of the request (where none runs,
  -- nothing happens) and the timer of the retrieval, it asks for the common data again: polling
  -- does not depend on answers. The HTTP client has a text for the request that is aborted.
  pub timeout-Asks :
      (host text : String) (port network_id phase_count : ℕ) (events : List (Event q))
      → is_empty text ≡ false
      → let u = run q events (new_updater host port network_id phase_count) in
        let late = handle q (timeout text) u in Asks late (handle q retrieval_timer late)
  unfolding handle abort on_done process_request
  timeout-Asks host text port network_id phase_count events filled =
      let u = run q events (new_updater host port network_id phase_count) in
      retrieval_timer-Asks (handle q (timeout text) u) (
        timed_out-IsWaiting text u filled (run-IsPolling q host port network_id phase_count events))
