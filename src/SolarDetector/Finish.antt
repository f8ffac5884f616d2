-- ===== src/SolarDetector/Finish.antt =====
-- solar_api_detector.cpp: each reply ends once, after all of its devices.
use Prim.Native.String.{String}
use dbus_fronius.Base.{
  ℕ, ◌≡◌, refl, sym, ap, subst, ◌∙◌, Bool, true, not, ◌&&◌, ◌==◌, inl, inr, Bool-cases, Option,
  none, some, List, [], ◌∷◌, lookup, insert, lookup-insert, if◌then◌else◌, if_both, arith,
}
use dbus_fronius.SolarApi.{Json, is_empty, process_converter_info, process_device_info}
use dbus_fronius.SolarApi.Client.{
  RequestType, get_inverter_info, get_common_data, get_three_phases_inverter_data, get_device_info,
  FroniusSolarApi, end_request, process_request_for, process_request, on_done, abort, new_api,
  get_device_info_async, get_converter_info_async, send_get_request,
}
use dbus_fronius.SolarDetector.{
  Environment, Reply, SolarApiDetector, is_pending, start, change_found, on_device_info_found,
}
use dbus_fronius.SolarDetector.Events.{
  Event, starts, done, timeout, sunspec, with_api, done_for, timeout_for, handle, run, new_detector,
}
use dbus_fronius.SolarDetector.Ended.{is_ended, is_orderly}
use dbus_fronius.SolarDetector.Course.{
  no_request, is_listed, is_stage, stage_of, IsKept, on_sunspec_done-IsKept, sunspec_found-IsKept,
}
use dbus_fronius.SolarDetector.Replies.{moved_core, replaced-IsKept, on_converter_info_found-IsKept}

end_request-request_type :
    (failure : String) (a : FroniusSolarApi)
    → no_request (end_request failure a).request_type ≡ true
unfolding end_request
end_request-request_type failure a =
    if_both (λ (x : FroniusSolarApi). no_request x.request_type ≡ true) (is_empty failure) refl refl

replaced_twice :
    (r s : ℕ) (new first : Reply) (replies : List (ℕ × Reply))
    → lookup r (insert s new (insert s first replies))
      ≡ (if s == r then some new else lookup r replies)
replaced_twice r s new first replies =
    ground (arith, lookup-insert s r new (insert s first replies), lookup-insert s r first replies)

looked_self :
    (s : ℕ) (new : Reply) (replies : List (ℕ × Reply)) → lookup s (insert s new replies) ≡ some new
looked_self s new replies = ground (arith, lookup-insert s s new replies)

module _ {D : Type 0} where
  start-IsKept :
      (r : ℕ) (host : String) (d : SolarApiDetector D) → IsKept r d → IsKept r (start host d)
  unfolding start new_api get_device_info_async send_get_request
  start-IsKept r host d c =
      let d' = start host d in
      let new : Reply = record {
        api = get_device_info_async (new_api host d.port_number);
        serial_info = [];
      } in
      let looked = lookup-insert d.created r new d.replies in
      elim (Bool-cases (d.created == r)) [
        | inl e ↦
            let before : lookup r d.replies ≡ none = elim (c.fresh) [
              | inl n ↦ n
              | inr l ↦ absurd (ground (arith, e, l))
            ] in
            let after : lookup r d'.replies ≡ some new = rw e at looked in
            record {
              core =
                  moved_core r (is_listed (lookup r d.replies)) (is_listed (lookup r d'.replies)) d
                    d' (ap is_listed after ∙ sym (ap is_listed before)) refl refl c.core;
              stage = ap stage_of after;
              fresh = inr (ground (arith, e));
            }
        | inr e ↦
            let same : lookup r d'.replies ≡ lookup r d.replies = rw e at looked in
            record {
              core =
                  moved_core r (is_listed (lookup r d.replies)) (is_listed (lookup r d'.replies)) d
                    d' (ap is_listed same) refl refl c.core;
              stage = ap stage_of same ∙ c.stage;
              fresh = elim (c.fresh) [ inl n ↦ inl (same ∙ n) | inr l ↦ inr (omega (arith, l)) ];
            }
      ]

module _ {V D : Type 0} (q : Json V D) (v : Environment D) where
  -- A request of the api of `s` ends, with whatever answer.
  ended-IsKept :
      (r s : ℕ) (failure result : String) (reply : Reply) (d : SolarApiDetector D)
      (o : Option RequestType)
      → reply.api.request_type ≡ o
      → lookup s d.replies ≡ some reply
      → ((x : ℕ) → IsKept x d)
      → IsKept r (with_api q v s reply (process_request_for q o failure result reply.api) d)
  unfolding on_device_info_found get_converter_info_async send_get_request
  ended-IsKept r s failure result reply d none e h all =
      replaced-IsKept r s reply reply d _ h refl (ap is_stage e)
        (record {
          same_entries = refl;
          same_signals = refl;
          same_created = refl;
          looked_up = lookup-insert s r reply d.replies;
        })
        (all r)
  ended-IsKept r s failure result reply d (some get_device_info) e h all =
      let first = record reply { api = end_request failure reply.api } in
      let serials = (process_device_info q failure result).serial_info in
      let change : Reply → Reply =
        λ (x : Reply). record { api = get_converter_info_async x.api; serial_info = serials } in
      let d1 = record d { replies = insert s first d.replies } in
      subst (λ (x : Option Reply). IsKept r (change_found change s x d1))
        (sym (looked_self s first d.replies))
        (replaced-IsKept r s reply (change first) d _ h (sym (ap no_request e)) refl
          (record {
            same_entries = refl;
            same_signals = refl;
            same_created = refl;
            looked_up = replaced_twice r s (change first) first d.replies;
          })
          (all r))
  ended-IsKept r s failure result reply d (some get_inverter_info) e h all =
      on_converter_info_found-IsKept r s _ (process_converter_info q failure result).inverters reply
        (record reply { api = end_request failure reply.api }) d h (ap no_request e)
        (end_request-request_type failure reply.api) (all r)
  ended-IsKept r s failure result reply d (some get_common_data) e h all =
      cc (sym (ap is_stage e) ∙ (sym (ap stage_of h) ∙ (all s).stage))
  ended-IsKept r s failure result reply d (some get_three_phases_inverter_data) e h all =
      cc (sym (ap is_stage e) ∙ (sym (ap stage_of h) ∙ (all s).stage))

  answered-IsKept :
      (r s : ℕ) (failure result : String) (found : Option Reply) (d : SolarApiDetector D)
      → lookup s d.replies ≡ found
      → ((x : ℕ) → IsKept x d)
      → (e : Bool) (text : String) → IsKept r (done_for q v s e text result found d)
  unfolding on_done process_request
  answered-IsKept r s failure result none d h all e text = all r
  answered-IsKept r s failure result (some reply) d h all e text =
      ended-IsKept r s (if e then text else "") result reply d reply.api.request_type refl h all

  timed_out-IsKept :
      (r s : ℕ) (text : String) (found : Option Reply) (d : SolarApiDetector D)
      → lookup s d.replies ≡ found
      → ((x : ℕ) → IsKept x d)
      → IsKept r (timeout_for q v s text found d)
  unfolding abort on_done process_request
  timed_out-IsKept r s text none d h all = all r
  timed_out-IsKept r s text (some reply) d h all =
      if_both (IsKept r) reply.api.timer_running
        (ended-IsKept r s text "" reply d reply.api.request_type refl h all) (all r)

  handle-IsKept :
      (r : ℕ) (e : Event q v) (d : SolarApiDetector D)
      → ((x : ℕ) → IsKept x d)
      → IsKept r (handle q v e d)
  unfolding handle
  handle-IsKept r (starts host) d all = start-IsKept r host d (all r)
  handle-IsKept r (done s e text result) d all =
      answered-IsKept r s text result (lookup s d.replies) d refl all e text
  handle-IsKept r (timeout s text) d all = timed_out-IsKept r s text (lookup s d.replies) d refl all
  handle-IsKept r (sunspec k none) d all = on_sunspec_done-IsKept v r k d (all r)
  handle-IsKept r (sunspec k (some info)) d all = sunspec_found-IsKept v r k info d (all r)

  run-preserved :
      (events : List (Event q v)) (d : SolarApiDetector D)
      → ((x : ℕ) → IsKept x d)
      → (r : ℕ) → IsKept r (run q v events d)
  unfolding run
  run-preserved [] d all r = all r
  run-preserved (e ∷ events) d all r =
      run-preserved events (handle q v e d) (λ x. handle-IsKept x e d all) r

  -- Whatever happens to a new detector, for each of its replies: after the end of a reply there is no
  -- signal of it, neither a device nor a second end; and it has ended exactly if its api has read the
  -- list of the inverters and no detection of one of them is left. The SunSpec detector tells of a
  -- device directly before the end of its own reply.
  pub run-is_orderly :
      (port r : ℕ) (events : List (Event q v))
      → let d = run q v events (new_detector port) in
        (is_orderly r d.signals ≡ true)
        × (is_ended r d.signals
            ≡ (is_listed (lookup r d.replies) && not (is_pending r d.detector_reply_to_inverter)))
  unfolding is_orderly is_ended is_pending lookup
  run-is_orderly port r events =
      let new : (x : ℕ) → IsKept {D = D} x (new_detector port) = λ x. record {
        core = record { are_new = tt; orderly = refl; ended = refl; unlisted = refl };
        stage = refl;
        fresh = inl refl;
      } in
      let kept = run-preserved events (new_detector port) new r in
      (kept.core.orderly, kept.core.ended)
