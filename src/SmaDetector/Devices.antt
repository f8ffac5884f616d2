-- ===== src/SmaDetector/Devices.antt =====
-- sma_detector.cpp: what a detection announces, and that it comes to an end.
use Prim.Native.String.{String}
use dbus_fronius.Base.{
  ℕ, ◌-◌, ◌≡◌, ◌⊎◌, inl, inr, refl, sym, ap, subst, ◌∙◌, Bool, true, false, Option, none, some,
  List, [], ◌∷◌, ◌++◌, length, ltb, ◌==◌, ◌&&◌, if◌then◌else◌, if_both,
}
use dbus_fronius.SmaDetector.{
  State, read_device_class, read_device_type, read_serial_number, read_software_version,
  read_max_power, read_power_limit, DeviceInfo, Action, reads, device_found, finished, Detection,
  start_next_read_request, set_done, set_result, go_on, uint32_of, device_class_case, model_name,
  name_device, device_type_case, serial_number_case, software_version_case, max_power_case,
  power_limit_case, on_values,
}
use dbus_fronius.SmaDetector.Runs.{
  start, on_connected, on_disconnected, on_finished, Event, connected, disconnected, answered,
  handle, run,
}

-- What a caller hears of a detection.
unfoldable pub announcements : List Action → List Action
announcements [] = []
announcements (reads unit start count ∷ log) = announcements log
announcements (device_found di ∷ log) = device_found di ∷ announcements log
announcements (finished ∷ log) = finished ∷ announcements log

announcements-append :
    (l m : List Action) → announcements (l ++ m) ≡ announcements l ++ announcements m
unfolding announcements
announcements-append [] m = refl
announcements-append (reads unit start count ∷ l) m = announcements-append l m
announcements-append (device_found di ∷ l) m =
    ap (λ r. device_found di ∷ r) (announcements-append l m)
announcements-append (finished ∷ l) m = ap (λ r. finished ∷ r) (announcements-append l m)

-- A device of one of the models that the detector knows, under the name of the model.
pub record IsKnown (di : DeviceInfo) : Type 0 where
  pub model : ℕ
  pub typed : di.device_type ≡ some model
  pub named : model_name model ≡ some di.product_name
  pub one_phase : di.phase_count ≡ 1
  pub inverter : di.is_pv_inverter ≡ true
  pub by_sma : di.over_sma ≡ true

-- From the serial number on, the model is known.
abbrev IsNamed : State → DeviceInfo → Type 0
IsNamed read_device_class di = Unit
IsNamed read_device_type di = Unit
IsNamed _ di = IsKnown di

-- What may have been announced when a detection is done.
abbrev pub IsOutcome : List Action → Type 0
IsOutcome heard =
    (heard ≡ finished ∷ [])
    ⊎ ((di : DeviceInfo) × IsKnown di × (heard ≡ device_found di ∷ finished ∷ []))

data IsSettled : Detection → Type 0 where
  running :
      (d : Detection)
      → d.live ≡ true
      → announcements d.log ≡ []
      → IsNamed d.state d.di
      → IsSettled d
  over : (d : Detection) → d.live ≡ false → IsOutcome (announcements d.log) → IsSettled d

-- The end of a detection that has announced nothing, or a device.
set_done-IsSettled :
    (d : Detection) → d.live ≡ true → announcements d.log ≡ [] → IsSettled (set_done d)
unfolding set_done announcements
set_done-IsSettled d l e =
    subst
      (λ b. IsSettled (if b then record d { live = false; log = d.log ++ finished ∷ [] } else d))
      (sym l)
      (over (record d { live = false; log = d.log ++ finished ∷ [] }) refl
        (inl (announcements-append d.log (finished ∷ []) ∙ ap (λ h. h ++ finished ∷ []) e)))

found-IsSettled :
    (d : Detection)
    → d.live ≡ true
    → announcements d.log ≡ []
    → IsKnown d.di
    → IsSettled (set_done (set_result d))
unfolding set_done set_result announcements
found-IsSettled d l e k =
    let found = d.log ++ device_found d.di ∷ [] in
    let heard =
      announcements-append found (finished ∷ [])
      ∙ ap (λ h. h ++ finished ∷ [])
          (announcements-append d.log (device_found d.di ∷ [])
            ∙ ap (λ h. h ++ device_found d.di ∷ []) e) in
    subst
      (λ b. IsSettled (
        if b
        then record d { live = false; log = found ++ finished ∷ [] }
        else record d { log = found }))
      (sym l)
      (over (record d { live = false; log = found ++ finished ∷ [] }) refl (inr (d.di, k, heard)))

go_on-IsSettled :
    (register : ℕ) (state : State) (di : DeviceInfo) (d : Detection)
    → d.live ≡ true
    → announcements d.log ≡ []
    → IsNamed state di
    → IsSettled (go_on register state (record d { di = di }))
unfolding go_on start_next_read_request announcements
go_on-IsSettled register state di d l e k =
    running _ l
      (announcements-append d.log (reads di.network_id register 2 ∷ []) ∙ ap (λ h. h ++ []) e) k

name_device-IsSettled :
    (model : ℕ) (o : Option String) (d : Detection)
    → model_name model ≡ o
    → d.live ≡ true
    → announcements d.log ≡ []
    → IsSettled (name_device model o d)
unfolding name_device
name_device-IsSettled model none d m l e = set_done-IsSettled _ l e
name_device-IsSettled model (some name) d m l e =
    go_on-IsSettled 30057 read_serial_number _ d l e (record {
      model = model;
      typed = refl;
      named = m;
      one_phase = refl;
      inverter = refl;
      by_sma = refl;
    })

kept :
    (di di' : DeviceInfo)
    → IsKnown di
    → di'.device_type ≡ di.device_type
    → di'.product_name ≡ di.product_name
    → di'.phase_count ≡ di.phase_count
    → di'.is_pv_inverter ≡ di.is_pv_inverter
    → di'.over_sma ≡ di.over_sma
    → IsKnown di'
kept di di' k a b c e f = record {
  model = k.model;
  typed = a ∙ k.typed;
  named = k.named ∙ ap some (sym b);
  one_phase = c ∙ k.one_phase;
  inverter = e ∙ k.inverter;
  by_sma = f ∙ k.by_sma;
}

on_values-IsSettled :
    (s : State) (values : List ℕ) (d : Detection)
    → d.live ≡ true
    → announcements d.log ≡ []
    → IsNamed s d.di
    → IsSettled (on_values s values d)
unfolding on_values device_class_case device_type_case serial_number_case software_version_case
    max_power_case power_limit_case
on_values-IsSettled read_device_class values d l e k =
    if_both IsSettled (uint32_of values == 8001)
      (go_on-IsSettled 30053 read_device_type d.di d l e tt) (set_done-IsSettled d l e)
on_values-IsSettled read_device_type values d l e k =
    name_device-IsSettled (uint32_of values) (model_name (uint32_of values)) d refl l e
on_values-IsSettled read_serial_number values d l e k =
    go_on-IsSettled 30059 read_software_version _ d l e (kept d.di _ k refl refl refl refl refl)
on_values-IsSettled read_software_version values d l e k =
    go_on-IsSettled 30231 read_max_power _ d l e (kept d.di _ k refl refl refl refl refl)
on_values-IsSettled read_max_power values d l e k =
    go_on-IsSettled 30837 read_power_limit _ d l e (kept d.di _ k refl refl refl refl refl)
on_values-IsSettled read_power_limit values d l e k =
    found-IsSettled _ l e (kept d.di _ k refl refl refl refl refl)

skips : (b : Bool) (d d' : Detection) → b ≡ false → (if b then d' else d) ≡ d
skips b d d' e = rw e refl

-- Nothing happens to a detection that is done.
pub handle-over : (e : Event) (d : Detection) → d.live ≡ false → handle e d ≡ d
unfolding handle on_connected on_disconnected
handle-over connected d l = skips d.live d _ l
handle-over disconnected d l = skips d.live d _ l
handle-over (answered values) d l =
    skips (d.live && ltb 0 d.outstanding) d _ (ap (λ b. b && ltb 0 d.outstanding) l)

handle-IsSettled : (e : Event) (d : Detection) → IsSettled d → IsSettled (handle e d)
unfolding handle on_connected on_disconnected on_finished start_next_read_request announcements
handle-IsSettled connected d (running _ l e k) =
    if_both IsSettled d.live
      (running _ l
        (announcements-append d.log (reads d.di.network_id 30051 2 ∷ []) ∙ ap (λ h. h ++ []) e) tt)
      (running d l e k)
handle-IsSettled disconnected d (running _ l e k) =
    if_both IsSettled d.live (set_done-IsSettled d l e) (running d l e k)
handle-IsSettled (answered values) d (running _ l e k) =
    let d' = record d { outstanding = d.outstanding - 1 } in
    if_both IsSettled (d.live && ltb 0 d.outstanding)
      (if_both IsSettled (ltb (length values) 2) (set_done-IsSettled d' l e)
        (on_values-IsSettled d.state values d' l e k))
      (running d l e k)
handle-IsSettled e d (over _ l o) = subst IsSettled (sym (handle-over e d l)) (over d l o)

run-IsSettled : (es : List Event) (d : Detection) → IsSettled d → IsSettled (run es d)
unfolding run
run-IsSettled [] d v = v
run-IsSettled (e ∷ es) d v = run-IsSettled es (handle e d) (handle-IsSettled e d v)

-- What may have been heard of a detection, by whether it is done.
abbrev pub Heard : Bool → List Action → Type 0
Heard true heard = heard ≡ []
Heard false heard = IsOutcome heard

IsSettled-Heard : (d : Detection) → IsSettled d → Heard d.live (announcements d.log)
IsSettled-Heard d (running _ l e k) = subst (λ b. Heard b (announcements d.log)) (sym l) e
IsSettled-Heard d (over _ l o) = subst (λ b. Heard b (announcements d.log)) (sym l) o

-- Whatever happens to a detection from its start on, it has announced nothing as long as it runs,
-- and when it is done, it has announced its end once and as the last, and before that at most one
-- device. Such a device is a single-phase SMA inverter of one of the four models, under its name.
pub run-Heard :
    (es : List Event) (unit : ℕ) → let d = run es (start unit) in Heard d.live (announcements d.log)
unfolding start announcements
run-Heard es unit =
    IsSettled-Heard _ (run-IsSettled es (start unit) (running (start unit) refl refl tt))
