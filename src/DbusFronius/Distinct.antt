-- ===== src/DbusFronius/Distinct.antt =====
-- dbus_fronius.cpp: there is one mediator for each device.
use Prim.Native.String.{String}
use text.Mathlib.TextEquality.{eq_iff}
use dbus_fronius.Base.{
  ℕ, zero, suc, ◌≡◌, refl, sym, ap, ap₂, subst, ◌∙◌, Bool, true, false, inl, inr, Bool-cases, List,
  [], ◌∷◌, ◌++◌, if◌then◌else◌, if_both, All, not, ◌&&◌, Option, none, some, ltb, ◌==◌,
}
use dbus_fronius.SolarApi.{same_text}
use dbus_fronius.Defines.{DeviceInfo, same_protocol}
use dbus_fronius.Mediator.{
  Services, InverterSettings, InverterMediator, act, sets_phase, forget, begin, renew_for, persist,
  has_inverter, at_address, process_new_inverter, on_settings_initialized, on_position_changed,
  position_for, on_is_activated_changed, on_connection_lost, on_inverter_model_changed,
}
use dbus_fronius.Mediator.Events.{
  Event, finds, settings_initialized, loses_connection, model_changes, position_changes,
  phase_changes, is_active_changes, custom_name_changes, inverter_is_named, handle,
}
use dbus_fronius.Mediator.Kept.{
  begin-Agrees, name_for-Agrees, on_settings_custom_name_changed-Agrees,
}
use dbus_fronius.DbusFronius.{Doubles, DbusFronius, offer, has_storage, on_device_found}

module _ {D : Type 0} where
  abbrev pub id_of : InverterMediator D → String
  id_of m = m.device_info.unique_id

  abbrev Keeps : InverterMediator D → InverterMediator D → Type 0
  Keeps m m' = id_of m' ≡ id_of m

  abbrev pub ids : List (InverterMediator D) → List String
  ids [] = []
  ids (m ∷ mediators) = id_of m ∷ ids mediators

module _ {D : Type 0} (v : Services) where
  begin-id_of : (m : InverterMediator D) → Keeps m (begin v m)
  begin-id_of m = ap (λ (d : DeviceInfo D). d.unique_id) (begin-Agrees v m).same_device

  renew_for-id_of :
      (o : Option _) (d : DeviceInfo D) (m : InverterMediator D) → Keeps m (renew_for v o d m)
  renew_for-id_of none d m = if_both (Keeps m) m.settings.is_active (begin-id_of m) refl
  renew_for-id_of (some i) d m = refl

  process_new_inverter-id_of :
      (d : DeviceInfo D) (m : InverterMediator D) → Keeps m (process_new_inverter v d m).1
  unfolding process_new_inverter
  process_new_inverter-id_of d m =
      elim (Bool-cases (same_text m.device_info.unique_id d.unique_id)) [
        | inl e ↦
            let kept =
              if has_inverter m.mediated
                && not (same_protocol m.device_info.retrieval_mode d.retrieval_mode)
              then forget m
              else m in
            rw e (
              renew_for-id_of kept.mediated d (record kept { device_info = d })
              ∙ sym ((eq_iff m.device_info.unique_id d.unique_id).0 e))
        | inr e ↦ rw e (if_both (Keeps m) (at_address d m.mediated) refl refl)
      ]

  process_new_inverter-same_text :
      (d : DeviceInfo D) (m : InverterMediator D)
      → (process_new_inverter v d m).0 ≡ same_text (id_of m) d.unique_id
  unfolding process_new_inverter
  process_new_inverter-same_text d m =
      elim (Bool-cases (same_text m.device_info.unique_id d.unique_id)) [
        | inl e ↦ rw e refl
        | inr e ↦ rw e refl
      ]

  position_for-id_of : (o : Option _) (m : InverterMediator D) → Keeps m (position_for o m)
  position_for-id_of none m = refl
  position_for-id_of (some i) m = refl

  initialized-id_of : (m : InverterMediator D) → Keeps m (on_settings_initialized v m)
  unfolding on_settings_initialized
  initialized-id_of m =
      let m' = record m { connected = true } in
      if_both (Keeps m) m.settings.is_active
        (begin-id_of (persist m')
          ∙ if_both (Keeps m) (ltb 1 m.device_info.phase_count && not (m.settings.phase == 0))
              {yes = act (sets_phase 0) m'} {no = m'} refl refl)
        refl

  pub handle-id_of : (e : Event D) (m : InverterMediator D) → Keeps m (handle v e m)
  unfolding handle on_connection_lost on_inverter_model_changed on_position_changed
      on_is_activated_changed
  handle-id_of (finds d) m = process_new_inverter-id_of d m
  handle-id_of settings_initialized m = if_both (Keeps m) m.connected refl (initialized-id_of m)
  handle-id_of loses_connection m = if_both (Keeps m) (has_inverter m.mediated) refl refl
  handle-id_of model_changes m = if_both (Keeps m) (has_inverter m.mediated) refl refl
  handle-id_of (position_changes p) m =
      if_both (Keeps m) m.connected (position_for-id_of m.mediated _) refl
  handle-id_of (phase_changes p) m = refl
  handle-id_of (is_active_changes b) m =
      if_both (Keeps m) m.connected (if_both (Keeps m) b refl refl) refl
  handle-id_of (custom_name_changes n) m =
      let m' = record m { settings = record (m.settings) { custom_name = n } } in
      if_both (Keeps m) m.connected
        (ap (λ (d : DeviceInfo D). d.unique_id)
          (on_settings_custom_name_changed-Agrees m').same_device)
        refl
  handle-id_of (inverter_is_named n) m =
      ap (λ (d : DeviceInfo D). d.unique_id) (name_for-Agrees n m.mediated m).same_device

abbrev pub DiffersFrom : List String → String → Type 0
DiffersFrom l s = All (λ t. same_text t s ≡ false) l

-- No text is twice in the list.
abbrev pub AreDistinct : List String → Type 0
AreDistinct [] = Unit
AreDistinct (s ∷ l) = All (λ t. same_text s t ≡ false) l × AreDistinct l

All-snoc :
    (P : String → Type 0) (l : List String) (s : String) → All P l → P s → All P (l ++ s ∷ [])
All-snoc P [] s h p = (p, tt)
All-snoc P (t ∷ l) s h p = (h.0, All-snoc P l s h.1 p)

AreDistinct-snoc :
    (l : List String) (s : String) → AreDistinct l → DiffersFrom l s → AreDistinct (l ++ s ∷ [])
AreDistinct-snoc [] s h d = (tt, tt)
AreDistinct-snoc (t ∷ l) s h d =
    (All-snoc (λ x. same_text t x ≡ false) l s h.0 d.0, AreDistinct-snoc l s h.1 d.1)

-- The ids do not change, or one is added that was not there.
data IsGrown (s : String) (l l' : List String) : Type 0 where
  same : l' ≡ l → IsGrown s l l'
  grown : DiffersFrom l s → l' ≡ l ++ s ∷ [] → IsGrown s l l'

grow_rest :
    (s t t' : String) (l l' : List String)
    → same_text t s ≡ false
    → t' ≡ t
    → IsGrown s l l'
    → IsGrown s (t ∷ l) (t' ∷ l')
grow_rest s t t' l l' e k (same f) = same (ap₂ (λ (x : String) (r : List String). x ∷ r) k f)
grow_rest s t t' l l' e k (grown d f) =
    grown (e, d) (ap₂ (λ (x : String) (r : List String). x ∷ r) k f)

grow :
    {D : Type 0} (s t t' : String) (taken : Bool) (mediators rest : List (InverterMediator D))
    → taken ≡ same_text t s
    → t' ≡ t
    → IsGrown s (ids mediators) (ids rest)
    → IsGrown s (t ∷ ids mediators) (t' ∷ ids (if taken then mediators else rest))
grow s t t' true mediators rest e k g = same (ap (λ (x : String). x ∷ ids mediators) k)
grow s t t' false mediators rest e k g = grow_rest s t t' (ids mediators) (ids rest) (sym e) k g

-- What happens to the service: a device is found, with the settings of the mediator that it may get,
-- and something happens to the mediator at a position of the list.
pub data ServiceEvent (D : Type 0) : Type 0 where
  device_is_found : InverterSettings → DeviceInfo D → ServiceEvent D
  at_mediator : ℕ → Event D → ServiceEvent D

module _ {D : Type 0} (n : Doubles D) (v : Services) where
  abbrev pub change_at : ℕ → Event D → List (InverterMediator D) → List (InverterMediator D)
  change_at k e [] = []
  change_at zero e (m ∷ mediators) = handle v e m ∷ mediators
  change_at (suc k) e (m ∷ mediators) = m ∷ change_at k e mediators

  abbrev pub handle_service : ServiceEvent D → DbusFronius D → DbusFronius D
  handle_service (device_is_found settings d) s = on_device_found n v settings d s
  handle_service (at_mediator k e) s = record s { mediators = change_at k e s.mediators }

  abbrev pub run_service : List (ServiceEvent D) → DbusFronius D → DbusFronius D
  run_service [] s = s
  run_service (e ∷ events) s = run_service events (handle_service e s)

  change_at-ids :
      (k : ℕ) (e : Event D) (mediators : List (InverterMediator D))
      → ids (change_at k e mediators) ≡ ids mediators
  change_at-ids zero e [] = refl
  change_at-ids (suc k) e [] = refl
  change_at-ids zero e (m ∷ mediators) = ap (λ (s : String). s ∷ ids mediators) (handle-id_of v e m)
  change_at-ids (suc k) e (m ∷ mediators) =
      ap (λ (l : List String). id_of m ∷ l) (change_at-ids k e mediators)

  offer-ids :
      (settings : InverterSettings) (d : DeviceInfo D) (mediators : List (InverterMediator D))
      → IsGrown d.unique_id (ids mediators) (ids (offer v settings d mediators))
  unfolding offer
  offer-ids settings d [] = grown tt refl
  offer-ids settings d (m ∷ mediators) =
      let (taken, m') = process_new_inverter v d m in
      grow d.unique_id (id_of m) (id_of m') taken mediators (offer v settings d mediators)
        (process_new_inverter-same_text v d m) (process_new_inverter-id_of v d m)
        (offer-ids settings d mediators)

  grown-AreDistinct :
      (s : String) (l l' : List String) → IsGrown s l l' → AreDistinct l → AreDistinct l'
  grown-AreDistinct s l l' (same e) h = subst AreDistinct (sym e) h
  grown-AreDistinct s l l' (grown f e) h = subst AreDistinct (sym e) (AreDistinct-snoc l s h f)

  handle_service-AreDistinct :
      (e : ServiceEvent D) (s : DbusFronius D)
      → AreDistinct (ids s.mediators)
      → AreDistinct (ids (handle_service e s).mediators)
  unfolding on_device_found
  handle_service-AreDistinct (device_is_found settings d) s h =
      if_both (λ (x : DbusFronius D). AreDistinct (ids x.mediators)) (has_storage n v d) h
        (grown-AreDistinct d.unique_id (ids s.mediators) _ (offer-ids settings d s.mediators) h)
  handle_service-AreDistinct (at_mediator k e) s h =
      subst AreDistinct (sym (change_at-ids k e s.mediators)) h

  -- Whatever the service finds, and whatever happens to its mediators: if no two mediators are for the
  -- same unique id to begin with (there are none when the service starts), then no two ever are.
  pub run_service-AreDistinct :
      (events : List (ServiceEvent D)) (s : DbusFronius D)
      → AreDistinct (ids s.mediators)
      → AreDistinct (ids (run_service events s).mediators)
  run_service-AreDistinct [] s h = h
  run_service-AreDistinct (e ∷ events) s h =
      run_service-AreDistinct events (handle_service e s) (handle_service-AreDistinct e s h)
