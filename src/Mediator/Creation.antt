-- ===== src/Mediator/Creation.antt =====
-- inverter_mediator.cpp: the inverters that are created, and the names of their settings.
use Prim.Native.String.{String, [] as empty, ◌∷◌ as ◌∷ₛ◌}
use Prim.Native.Char.{Char, char}
use dbus_fronius.Base.{
  ℕ, ◌≡◌, refl, ap, Bool, true, false, not, ◌&&◌, ◌==◌, inl, inr, Bool-cases, Option, some, List,
  [], ◌∷◌, ◌++◌, if◌then◌else◌, if_both,
}
use dbus_fronius.SolarApi.{same_text}
use dbus_fronius.Defines.{
  ProtocolType, fronius_solar_api, sunspec_float, sunspec_int_sf, sma, same_protocol, DeviceInfo,
}
use dbus_fronius.Inverter.{
  inverter, fronius_inverter, sma_inverter, Inverter, new_inverter, set_position, set_custom_name,
  validate_sunspec_monitor_frame, update_connection_item,
}
use dbus_fronius.Mediator.{
  Services, InverterMediator, is_allowed, letter_i, replace_others, create_inverter_id, class_of,
  updater_of, begin, create_inverter, start_acquisition, on_position_changed,
  on_settings_custom_name_changed, on_inverter_custom_name_changed, starts_detection,
  process_new_inverter, on_connection_lost,
}

-- Every character may stand in a D-Bus path.
abbrev pub AreAllowed : String → Type 0
AreAllowed empty = Unit
AreAllowed (c ∷ₛ s) = (is_allowed c ≡ true) × AreAllowed s

replaced-is_allowed : (c : Char) → is_allowed (if is_allowed c then c else char 95 tt) ≡ true
replaced-is_allowed c = elim (Bool-cases (is_allowed c)) [ inl e ↦ rw e e | inr e ↦ rw e refl ]

-- Text that may stand in a path is left as it is.
replace_others-AreAllowed : (s : String) → AreAllowed (replace_others s)
unfolding replace_others
replace_others-AreAllowed empty = tt
replace_others-AreAllowed (c ∷ₛ s) = (replaced-is_allowed c, replace_others-AreAllowed s)

replace_others-same : (s : String) → AreAllowed s → replace_others s ≡ s
unfolding replace_others
replace_others-same empty h = refl
replace_others-same (c ∷ₛ s) h = rw (h.0) (ap (λ (t : String). c ∷ₛ t) (replace_others-same s h.1))

-- The name of an inverter's settings has only characters that a D-Bus path may have; and a serial
-- number that has no others is kept in it as it is.
pub create_inverter_id-AreAllowed :
    (serial : String)
    → AreAllowed (create_inverter_id serial)
      × (AreAllowed serial → create_inverter_id serial ≡ letter_i ∷ₛ serial)
unfolding create_inverter_id
create_inverter_id-AreAllowed serial = (
  replace_others-AreAllowed (letter_i ∷ₛ serial),
  λ h. replace_others-same (letter_i ∷ₛ serial) (refl, h),
)

module _ {D : Type 0} (v : Services) where
  frames :
      (p : ProtocolType) (typed known : Bool) (d : DeviceInfo D) (frame : List ℕ)
      → validate_sunspec_monitor_frame
          (if same_protocol p fronius_solar_api && typed
            then fronius_inverter
            else if same_protocol p sma && known
            then sma_inverter
            else inverter)
          (record d { retrieval_mode = p })
          frame
        ≡ true
  unfolding validate_sunspec_monitor_frame
  frames fronius_solar_api true known d frame = refl
  frames fronius_solar_api false known d frame = refl
  frames sunspec_float typed known d frame = refl
  frames sunspec_int_sf typed known d frame = refl
  frames sma typed true d frame = refl
  frames sma typed false d frame = refl

  -- Whatever device an inverter is created for, it takes every frame, also the one that a Fronius data
  -- manager sends after a communication timeout: the class that refuses this frame is created only for
  -- the Solar API, and it refuses the frame only over SunSpec.
  pub validate_sunspec_monitor_frame-class_of :
      (d : DeviceInfo D) (frame : List ℕ)
      → validate_sunspec_monitor_frame (class_of v d) d frame ≡ true
  unfolding class_of
  validate_sunspec_monitor_frame-class_of d frame =
      frames d.retrieval_mode (not (d.device_type == 0)) (d.product_id == v.sma_product) d frame

  -- This inverter is the one of the device, with the instance, and its data are asked for.
  pub record IsFor (d : DeviceInfo D) (device_instance : ℕ) (o : Option (Inverter D)) : Type 0 where
    pub created : Inverter D
    pub mediates : o ≡ some created
    pub same_device : created.device_info ≡ d
    pub same_class : created.inverter_class ≡ class_of v d
    pub same_instance : created.device_instance ≡ device_instance
    pub updates : created.updater ≡ some (updater_of d.retrieval_mode)

  -- The connection to an inverter is lost, and then a device with its id is found again, perhaps with
  -- another address or protocol. If the settings say that it is active and have a device instance for
  -- it, a detection has been started, and there is a new inverter for the device that was found.
  pub process_new_inverter-on_connection_lost :
      (d : DeviceInfo D) (n : ℕ) (m : InverterMediator D)
      → same_text m.device_info.unique_id d.unique_id ≡ true
      → m.settings.is_active ≡ true
      → v.get_device_instance (create_inverter_id d.unique_id) ≡ some n
      → let lost = on_connection_lost m in
        (lost.log ≡ m.log ++ starts_detection ∷ [])
        × IsFor d n (process_new_inverter v d lost).1.mediated
  unfolding process_new_inverter on_connection_lost begin create_inverter start_acquisition
      on_settings_custom_name_changed on_position_changed on_inverter_custom_name_changed
      set_position set_custom_name new_inverter update_connection_item
  process_new_inverter-on_connection_lost d n m same active given =
      let name = m.settings.custom_name in
      let after = λ (x : InverterMediator D). IsFor d n x.mediated in
      (
        refl,
        rw (same, active, given)
            (if_both after (same_text name name)
              (record {
                created = _;
                mediates = refl;
                same_device = refl;
                same_class = refl;
                same_instance = refl;
                updates = refl;
              })
              (record {
                created = _;
                mediates = refl;
                same_device = refl;
                same_class = refl;
                same_instance = refl;
                updates = refl;
              })),
      )
