-- ===== src/SunspecDetector/Walk.antt =====
-- sunspec_detector.cpp: the walk over the headers of the models.
use dbus_fronius.Base.{
  ℕ, zero, suc, ◌+◌, ◌%◌, ◌<◌, ◌≡◌, inl, inr, refl, sym, ap, ap₂, subst, ◌∙◌, true, false, not,
  List, [], ◌∷◌, ◌++◌, append_assoc, append-nil, map, All, arith, replicate, ltb, lt→ltb, ◌==◌,
  if◌then◌else◌, if_both, Bool-cases,
}
use dbus_fronius.SunspecDetector.{
  module_header, DeviceInfo, Action, reads, device_found, finished, Detection, start_next_request,
  set_done, set_result, next_header, is_inverter_model, is_empty, end_of_models, on_header,
  module_header_case,
}
use dbus_fronius.SunspecDetector.Events.{dispatch, on_finished, Event, answered, handle, run}

-- A model's number and the registers behind its header.
pub record Model : Type 0 where
  pub id : ℕ
  pub size : ℕ

abbrev pub header : Model → Event
header m = answered (m.id ∷ m.size ∷ [])

-- Not one of the models whose contents are read, nor the end.
abbrev pub IsPlain : Model → Type 0
IsPlain m = ((m.id == 120) ≡ false) × ((m.id == 123) ≡ false) × ((m.id == 0xffff) ≡ false)

-- The registers that the models take.
abbrev pub span : List Model → ℕ
span [] = 0
span (m ∷ ms) = 2 + m.size + span ms

-- A detection that waits for the header at register `r`.
abbrev pub at_header : ℕ → DeviceInfo → List Action → Detection
at_header r di log = record {
  di = di;
  state = module_header;
  current_register = r;
  live = true;
  log = log;
}

-- The requests for the headers behind those of the models.
abbrev pub requests : ℕ → ℕ → List Model → List Action
requests unit r [] = []
requests unit r (m ∷ ms) = reads unit (r + (2 + m.size)) 2 ∷ requests unit (r + (2 + m.size)) ms

abbrev with_model : ℕ → ℕ → DeviceInfo → DeviceInfo
with_model id r di =
    if is_inverter_model id
    then record di {
      over_float = ltb 103 id;
      over_int = not (ltb 103 id);
      phase_count = id % 10;
      inverter_model_offset = r;
    }
    else di

abbrev located : ℕ → List Model → DeviceInfo → DeviceInfo
located r [] di = di
located r (m ∷ ms) di = located (r + (2 + m.size)) ms (with_model m.id r di)

header_step :
    (m : Model) (r : ℕ) (di : DeviceInfo) (log : List Action)
    → IsPlain m
    → r + (2 + m.size) < 65536
    → handle (header m) (at_header r di log)
      ≡ at_header
          (r + (2 + m.size))
          (with_model m.id r di)
          (log ++ reads di.network_id (r + (2 + m.size)) 2 ∷ [])
unfolding handle on_finished dispatch module_header_case on_header next_header start_next_request
header_step m r di log p l =
    let low : (r + (2 + m.size)) % 65536 ≡ r + (2 + m.size) = omega arith in
    elim (Bool-cases (is_inverter_model m.id)) [
      | inl e ↦ rw (e, low) refl
      | inr e ↦ rw (e, p.0, p.1, p.2, low) refl
    ]

with_model-network_id :
    (id r : ℕ) (di : DeviceInfo) → (with_model id r di).network_id ≡ di.network_id
with_model-network_id id r di =
    if_both (λ (e : DeviceInfo). e.network_id ≡ di.network_id) (is_inverter_model id) refl refl

with_model-product_name :
    (id r : ℕ) (di : DeviceInfo) → (with_model id r di).product_name ≡ di.product_name
with_model-product_name id r di =
    if_both (λ (e : DeviceInfo). e.product_name ≡ di.product_name) (is_inverter_model id) refl refl

-- The walk over plain models.
run-headers :
    (ms : List Model) (r : ℕ) (di : DeviceInfo) (log : List Action)
    → All IsPlain ms
    → r + span ms < 65536
    → run (map header ms) (at_header r di log)
      ≡ at_header (r + span ms) (located r ms di) (log ++ requests di.network_id r ms)
unfolding run
run-headers [] r di log p l = ap₂ (λ a b. at_header a di b) (omega arith) (sym (append-nil log))
run-headers (m ∷ ms) r di log p l =
    let r' = r + (2 + m.size) in
    let di' = with_model m.id r di in
    let asked = reads di.network_id r' 2 in
    ap (run (map header ms)) (header_step m r di log p.0 (omega (arith, l)))
    ∙ run-headers ms r' di' (log ++ asked ∷ []) p.1 (omega (arith, l))
    ∙ ap₂ (λ a b. at_header a (located r' ms di') b) (omega arith)
        (ap (λ u. (log ++ asked ∷ []) ++ requests u r' ms) (with_model-network_id m.id r di)
          ∙ append_assoc log (asked ∷ []) (requests di.network_id r' ms))

-- Models that are no inverter leave the device as it is.
located-plain :
    (ms : List Model) (r : ℕ) (di : DeviceInfo)
    → All (λ m. is_inverter_model m.id ≡ false) ms
    → located r ms di ≡ di
located-plain [] r di h = refl
located-plain (m ∷ ms) r di h = rw h.0 (located-plain ms (r + (2 + m.size)) di h.1)

record IsLocated (r phases : ℕ) (di di' : DeviceInfo) : Type 0 where
  offset : di'.inverter_model_offset ≡ r
  phased : di'.phase_count ≡ phases
  unit : di'.network_id ≡ di.network_id
  name : di'.product_name ≡ di.product_name

located-append :
    (before : List Model) (m : Model) (after : List Model) (r : ℕ) (di : DeviceInfo)
    → is_inverter_model m.id ≡ true
    → All (λ m. is_inverter_model m.id ≡ false) after
    → IsLocated (r + span before) (m.id % 10) di (located r (before ++ m ∷ after) di)
located-append [] m after r di i h =
    subst (IsLocated (r + 0) (m.id % 10) di)
      (sym (located-plain after (r + (2 + m.size)) (with_model m.id r di) h))
      (subst
        (λ b. IsLocated (r + 0) (m.id % 10) di (
          if b
          then record di {
            over_float = ltb 103 m.id;
            over_int = not (ltb 103 m.id);
            phase_count = m.id % 10;
            inverter_model_offset = r;
          }
          else di))
        (sym i) (record { offset = omega arith; phased = refl; unit = refl; name = refl }))
located-append (b ∷ before) m after r di i h =
    let later = located-append before m after (r + (2 + b.size)) (with_model b.id r di) i h in
    record {
      offset = later.offset ∙ omega arith;
      phased = later.phased;
      unit = later.unit ∙ with_model-network_id b.id r di;
      name = later.name ∙ with_model-product_name b.id r di;
    }

end_found :
    (r : ℕ) (di : DeviceInfo) (log : List Action)
    → is_empty di.product_name ≡ false
    → 0 < di.phase_count
    → 0 < di.network_id
    → (handle (answered (0xffff ∷ 0 ∷ [])) (at_header r di log)).log
      ≡ log ++ device_found di ∷ finished ∷ []
unfolding handle on_finished dispatch module_header_case on_header is_inverter_model end_of_models
    set_done set_result
end_found r di log e p u =
    rw (e, lt→ltb 0 di.phase_count p, lt→ltb 0 di.network_id u)
      (append_assoc log (device_found di ∷ []) (finished ∷ []))

phased-inverter : (id : ℕ) → is_inverter_model id ≡ true → 0 < id % 10
unfolding is_inverter_model
phased-inverter id h = ground arith

-- A detection whose device has a name and a unit number walks over the headers of models that lie
-- one behind the other below register 65536, and then over the end. None of them has its contents
-- read, `m` is a model of an inverter, and after it comes none. The detector asks for each header at
-- its register, and for the one behind the models, and announces the device and the end. The device
-- has the number of phases that the model of the inverter stands for, and the register at which that
-- model begins; the name and the unit number are those from before.
pub run-inverter_model_offset :
    (before : List Model) (m : Model) (after : List Model) (r : ℕ) (di : DeviceInfo)
    (log : List Action)
    → let models = before ++ m ∷ after in
      All IsPlain models
      → r + span models < 65536
      → is_inverter_model m.id ≡ true
      → All (λ n. is_inverter_model n.id ≡ false) after
      → is_empty di.product_name ≡ false
      → 0 < di.network_id
      → (found : DeviceInfo) × ((handle
            (answered (0xffff ∷ 0 ∷ []))
            (run (map header models) (at_header r di log))).log
          ≡ (log ++ requests di.network_id r models) ++ device_found found ∷ finished ∷ [])
        × (found.inverter_model_offset ≡ r + span before)
        × (found.phase_count ≡ m.id % 10)
        × (found.network_id ≡ di.network_id)
        × (found.product_name ≡ di.product_name)
run-inverter_model_offset before m after r di log plain low i h named unit =
    let models = before ++ m ∷ after in
    let found = located r models di in
    let at = located-append before m after r di i h in
    let asked = log ++ requests di.network_id r models in
    (
      found,
      ap (λ d. (handle (answered (0xffff ∷ 0 ∷ [])) d).log) (run-headers models r di log plain low)
          ∙ end_found (r + span models) found asked (ap is_empty at.name ∙ named)
              (omega (arith, at.phased, phased-inverter m.id i)) (omega (arith, at.unit)),
      at.offset,
      at.phased,
      at.unit,
      at.name,
    )

endless_step :
    (id r : ℕ) (di : DeviceInfo) (log : List Action)
    → IsPlain (record { id = id; size = 65534 })
    → is_inverter_model id ≡ false
    → r < 65536
    → handle (answered (id ∷ 65534 ∷ [])) (at_header r di log)
      ≡ at_header r di (log ++ reads di.network_id r 2 ∷ [])
unfolding handle on_finished dispatch module_header_case on_header next_header start_next_request
endless_step id r di log p e low =
    let wraps : (r + (2 + 65534)) % 65536 ≡ r = omega arith in rw (e, p.0, p.1, p.2, wraps) refl

-- A device that gives 65534 as the size of a model whose contents are not read, and that is none of
-- an inverter, makes the sum of the register wrap around: the detector asks for the same header
-- again after each answer, however often it is given, and never ends.
pub run-endless :
    (n id r : ℕ) (di : DeviceInfo) (log : List Action)
    → IsPlain (record { id = id; size = 65534 })
    → is_inverter_model id ≡ false
    → r < 65536
    → run (replicate n (answered (id ∷ 65534 ∷ []))) (at_header r di log)
      ≡ at_header r di (log ++ replicate n (reads di.network_id r 2))
unfolding run
run-endless zero id r di log p e low = ap (at_header r di) (sym (append-nil log))
run-endless (suc n) id r di log p e low =
    let asked = reads di.network_id r 2 in
    ap (run (replicate n (answered (id ∷ 65534 ∷ [])))) (endless_step id r di log p e low)
    ∙ run-endless n id r di (log ++ asked ∷ []) p e low
    ∙ ap (at_header r di) (append_assoc log (asked ∷ []) (replicate n asked))
