-- ===== src/SolarDetector/Course.antt =====
-- solar_api_detector.cpp: what is kept true of a reply while detections end.
use dbus_fronius.Base.{
  ℕ, ◌<◌, ◌≡◌, refl, sym, subst, Bool, true, false, ◌⊎◌, inl, inr, Option-cases, Option, none, some,
  List, lookup, if◌then◌else◌,
}
use dbus_fronius.SolarApi.Client.{
  RequestType, get_inverter_info, get_common_data, get_three_phases_inverter_data, get_device_info,
}
use dbus_fronius.Defines.{DeviceInfo}
use dbus_fronius.SolarDetector.{
  Environment, Reply, ReplyToInverter, found, finished, SolarApiDetector, entry, without, mark,
  is_pending, emit, sunspec_device, found_with, on_sunspec_device_found, check_finished,
  solar_device, done_with, on_sunspec_done,
}
use dbus_fronius.SolarDetector.Table.{entry-AreNew, entry-mark, without-mark, without-none}
use dbus_fronius.SolarDetector.Core.{IsCore, ended_entry}

-- The list of the reply's inverters has been read: its api makes no further request.
abbrev pub no_request : Option RequestType → Bool
no_request none = true
no_request (some type) = false

abbrev pub is_listed : Option Reply → Bool
is_listed none = false
is_listed (some reply) = no_request reply.api.request_type

-- The requests that the detector makes.
abbrev pub is_stage : Option RequestType → Bool
is_stage none = true
is_stage (some get_device_info) = true
is_stage (some get_inverter_info) = true
is_stage (some get_common_data) = false
is_stage (some get_three_phases_inverter_data) = false

abbrev pub stage_of : Option Reply → Bool
stage_of none = true
stage_of (some reply) = is_stage reply.api.request_type

module _ {D : Type 0} where
  -- What is kept true of the reply `r`.
  pub record IsKept (r : ℕ) (d : SolarApiDetector D) : Type 0 where
    pub core : IsCore r (is_listed (lookup r d.replies)) d.detector_reply_to_inverter d.signals
    pub stage : stage_of (lookup r d.replies) ≡ true
    pub fresh : (lookup r d.replies ≡ none) ⊎ (r < d.created)

  checked-IsKept :
      (r k : ℕ) (e : ReplyToInverter) (info : DeviceInfo D) (d : SolarApiDetector D) (b : Bool)
      → entry k d.detector_reply_to_inverter ≡ some e
      → is_pending e.reply (without k d.detector_reply_to_inverter) ≡ b
      → IsKept r d
      → let d' =
          emit
            (found e.reply info)
            (record d { detector_reply_to_inverter = without k d.detector_reply_to_inverter }) in
        IsKept r (if b then d' else emit (finished e.reply) d')
  checked-IsKept r k e info d true h p c = record {
    core = ended_entry r k _ d.detector_reply_to_inverter d.signals e info h c.core true p;
    stage = c.stage;
    fresh = c.fresh;
  }
  checked-IsKept r k e info d false h p c = record {
    core = ended_entry r k _ d.detector_reply_to_inverter d.signals e info h c.core false p;
    stage = c.stage;
    fresh = c.fresh;
  }

module _ {D : Type 0} (v : Environment D) where
  -- A detection ends without a device.
  pub on_sunspec_done-IsKept :
      (r k : ℕ) (d : SolarApiDetector D) → IsKept r d → IsKept r (on_sunspec_done v k d)
  unfolding on_sunspec_done check_finished
  on_sunspec_done-IsKept r k d c =
      let table = d.detector_reply_to_inverter in
      let d' = record d { detector_reply_to_inverter = without k table } in
      elim (Option-cases (entry k table)) [
        | inl h ↦
            subst (λ (o : Option ReplyToInverter). IsKept r (done_with v o d')) (sym h)
              (subst
                (λ (t : List (ℕ × ReplyToInverter)).
                  IsKept r (record d { detector_reply_to_inverter = t }))
                (sym (without-none k table h)) c)
        | inr (e, h) ↦
            let info = solar_device v (lookup e.reply d.replies) e.inverter in
            subst (λ (o : Option ReplyToInverter). IsKept r (done_with v o d')) (sym h)
              (subst
                (λ (b : Bool).
                  IsKept r
                    (check_finished e.reply (if b then d' else emit (found e.reply info) d')))
                (sym (entry-AreNew k table e c.core.are_new h))
                (checked-IsKept r k e info d (is_pending e.reply (without k table)) h refl c))
      ]

  found_entry-IsKept :
      (r k : ℕ) (info : DeviceInfo D) (d : SolarApiDetector D) (e : ReplyToInverter)
      → entry k d.detector_reply_to_inverter ≡ some e
      → IsKept r d
      → IsKept r (on_sunspec_done v k (found_with v k info (some e) d))
  unfolding on_sunspec_done check_finished
  found_entry-IsKept r k info d e h c =
      let table = d.detector_reply_to_inverter in
      let device = sunspec_device v info e in
      let after = λ (t : List (ℕ × ReplyToInverter)).
        emit (found e.reply device) (record d { detector_reply_to_inverter = t }) in
      subst
        (λ (o : Option ReplyToInverter).
          IsKept r (done_with v o (after (without k (mark k table)))))
        (sym (entry-mark k table e h))
        (subst (λ (t : List (ℕ × ReplyToInverter)). IsKept r (check_finished e.reply (after t)))
          (sym (without-mark k table))
          (checked-IsKept r k e device d (is_pending e.reply (without k table)) h refl c))

  -- The device of a detection is found, and it is done.
  pub sunspec_found-IsKept :
      (r k : ℕ) (info : DeviceInfo D) (d : SolarApiDetector D)
      → IsKept r d
      → IsKept r (on_sunspec_done v k (on_sunspec_device_found v k info d))
  unfolding on_sunspec_device_found
  sunspec_found-IsKept r k info d c =
      let table = d.detector_reply_to_inverter in
      elim (Option-cases (entry k table)) [
        | inl h ↦
            subst
              (λ (o : Option ReplyToInverter).
                IsKept r (on_sunspec_done v k (found_with v k info o d)))
              (sym h) (on_sunspec_done-IsKept r k d c)
        | inr (e, h) ↦
            subst
              (λ (o : Option ReplyToInverter).
                IsKept r (on_sunspec_done v k (found_with v k info o d)))
              (sym h) (found_entry-IsKept r k info d e h c)
      ]
