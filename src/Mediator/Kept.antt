-- ===== src/Mediator/Kept.antt =====
-- inverter_mediator.cpp: what the calls in the course of an operation leave as it is.
use Prim.Native.String.{String}
use dbus_fronius.Base.{
  ℕ, ◌≡◌, refl, sym, ap, ◌∙◌, Bool, true, Option, none, some, if◌then◌else◌, if_both,
}
use dbus_fronius.SolarApi.{same_text}
use dbus_fronius.Defines.{DeviceInfo}
use dbus_fronius.Inverter.{
  Inverter, new_inverter, update_connection_item, set_position, set_custom_name, has_name, text_of,
}
use dbus_fronius.Mediator.{
  Services, InverterSettings, InverterMediator, act, position_for, on_position_changed,
  store_name_for, on_inverter_custom_name_changed, name_for, on_settings_custom_name_changed,
  start_acquisition, class_of, updater_of, create_with, create_inverter, create_inverter_id,
  begin_with, begin, keep_old, registers, sets_custom_name,
}

-- What an inverter has in common with its mediator: the identity, the address and the protocol of the
-- device, the updater for it, and, once the settings are initialized, the position; and then the
-- settings say that it is active.
pub record Serves {D : Type 0} (info : DeviceInfo D) (settings : InverterSettings)
    (connected : Bool) (i : Inverter D) : Type 0 where
  pub unique_id : i.device_info.unique_id ≡ info.unique_id
  pub host_name : i.device_info.host_name ≡ info.host_name
  pub port : i.device_info.port ≡ info.port
  pub retrieval_mode : i.device_info.retrieval_mode ≡ info.retrieval_mode
  pub updater : i.updater ≡ some (updater_of info.retrieval_mode)
  pub position : connected ≡ true → i.position ≡ some settings.position
  pub is_active : connected ≡ true → settings.is_active ≡ true

module _ {D : Type 0} where
  abbrev pub ServesAll : DeviceInfo D → InverterSettings → Bool → Option (Inverter D) → Type 0
  ServesAll info settings connected none = Unit
  ServesAll info settings connected (some i) = Serves info settings connected i

  -- The inverter of a mediator, if there is one, serves it.
  abbrev pub IsKept : InverterMediator D → Type 0
  IsKept m = ServesAll m.device_info m.settings m.connected m.mediated

  -- Two mediators agree on everything but their inverters and logs.
  pub record Agrees (m m' : InverterMediator D) : Type 0 where
    pub same_device : m'.device_info ≡ m.device_info
    pub same_settings : m'.settings ≡ m.settings
    pub same_connected : m'.connected ≡ m.connected

  store_name_for-both :
      (o : Option (Inverter D)) (m : InverterMediator D) (P : InverterMediator D → Type 0)
      → P m
      → ((name : String) → P (act (sets_custom_name name) m))
      → P (store_name_for o m)
  store_name_for-both none m P a b = a
  store_name_for-both (some i) m P a b =
      if_both P (same_text m.settings.custom_name (text_of i.custom_name)) a
        (b (text_of i.custom_name))

  -- What holds with the same inverter and with a renamed one, whatever is logged, holds after a name
  -- is given.
  name_for-both :
      (name : String) (i : Inverter D) (m : InverterMediator D) (P : InverterMediator D → Type 0)
      → P (record m { mediated = some i })
      → ((log : _)
          → P (record m { mediated = some (record i { custom_name = some name }); log = log }))
      → P (name_for name (some i) m)
  unfolding set_custom_name on_inverter_custom_name_changed
  name_for-both name i m P a b =
      if_both
        (λ (r : Bool × Inverter D). P (
          let m' = record m { mediated = some r.1 } in
          if r.0 then on_inverter_custom_name_changed m' else m'))
        (has_name name i.custom_name) a
        (store_name_for-both (some (record i { custom_name = some name }))
          (record m { mediated = some (record i { custom_name = some name }) }) P (b m.log)
          (λ n. b _))

  pub name_for-Agrees :
      (name : String) (o : Option (Inverter D)) (m : InverterMediator D)
      → Agrees m (name_for name o m)
  name_for-Agrees name none m = record {
    same_device = refl;
    same_settings = refl;
    same_connected = refl;
  }
  name_for-Agrees name (some i) m =
      name_for-both name i m (Agrees m)
        (record { same_device = refl; same_settings = refl; same_connected = refl })
        (λ log. record { same_device = refl; same_settings = refl; same_connected = refl })

  pub name_for-IsKept :
      (name : String) (o : Option (Inverter D)) (m : InverterMediator D)
      → ServesAll m.device_info m.settings m.connected o
      → IsKept m
      → IsKept (name_for name o m)
  name_for-IsKept name none m s k = k
  name_for-IsKept name (some i) m s k = name_for-both name i m IsKept s (λ log. record {
    unique_id = s.unique_id;
    host_name = s.host_name;
    port = s.port;
    retrieval_mode = s.retrieval_mode;
    updater = s.updater;
    position = s.position;
    is_active = s.is_active;
  })

  pub on_settings_custom_name_changed-Agrees :
      (m : InverterMediator D) → Agrees m (on_settings_custom_name_changed m)
  unfolding on_settings_custom_name_changed
  on_settings_custom_name_changed-Agrees m = name_for-Agrees m.settings.custom_name m.mediated m

  pub on_settings_custom_name_changed-IsKept :
      (m : InverterMediator D) → IsKept m → IsKept (on_settings_custom_name_changed m)
  unfolding on_settings_custom_name_changed
  on_settings_custom_name_changed-IsKept m k =
      name_for-IsKept m.settings.custom_name m.mediated m k k

  position_for-Agrees :
      (o : Option (Inverter D)) (m : InverterMediator D) → Agrees m (position_for o m)
  position_for-Agrees none m = record {
    same_device = refl;
    same_settings = refl;
    same_connected = refl;
  }
  position_for-Agrees (some i) m = record {
    same_device = refl;
    same_settings = refl;
    same_connected = refl;
  }

  Agrees-trans : (m n o : InverterMediator D) → Agrees m n → Agrees n o → Agrees m o
  Agrees-trans m n o a b = record {
    same_device = b.same_device ∙ a.same_device;
    same_settings = b.same_settings ∙ a.same_settings;
    same_connected = b.same_connected ∙ a.same_connected;
  }

  -- A new inverter of the mediator's device serves the mediator.
  started-IsKept :
      (i : Inverter D) (m : InverterMediator D)
      → i.device_info ≡ m.device_info
      → (m.connected ≡ true → m.settings.is_active ≡ true)
      → IsKept (begin_with (some i, m))
  unfolding start_acquisition set_position
  started-IsKept i m e active =
      let serves : Serves m.device_info m.settings m.connected
          (record (set_position m.settings.position i) {
            updater = some (updater_of m.device_info.retrieval_mode);
          }) =
        record {
          unique_id = ap (λ (d : DeviceInfo D). d.unique_id) e;
          host_name = ap (λ (d : DeviceInfo D). d.host_name) e;
          port = ap (λ (d : DeviceInfo D). d.port) e;
          retrieval_mode = ap (λ (d : DeviceInfo D). d.retrieval_mode) e;
          updater = refl;
          position = λ c. refl;
          is_active = active;
        } in
      on_settings_custom_name_changed-IsKept
        (start_acquisition
          (record m { mediated = some i; abandoned = keep_old m.mediated m.abandoned }))
        serves

  started-Agrees : (i : Inverter D) (m : InverterMediator D) → Agrees m (begin_with (some i, m))
  unfolding start_acquisition
  started-Agrees i m =
      Agrees-trans m _ _
        (record { same_device = refl; same_settings = refl; same_connected = refl })
        (on_settings_custom_name_changed-Agrees (
          start_acquisition
            (record m { mediated = some i; abandoned = keep_old m.mediated m.abandoned })))

  prepared-Agrees :
      (m : InverterMediator D) → Agrees m (on_settings_custom_name_changed (on_position_changed m))
  unfolding on_position_changed
  prepared-Agrees m =
      Agrees-trans m (on_position_changed m) _ (position_for-Agrees m.mediated m)
        (on_settings_custom_name_changed-Agrees (on_position_changed m))

module _ {D : Type 0} (v : Services) where
  created-IsKept :
      (instance_ : Option ℕ) (m : InverterMediator D)
      → (m.connected ≡ true → m.settings.is_active ≡ true)
      → IsKept (begin_with (create_with v instance_ m))
  unfolding new_inverter update_connection_item
  created-IsKept none m active = tt
  created-IsKept (some n) m active =
      let a = prepared-Agrees m in
      started-IsKept (new_inverter v.number (class_of v m.device_info) m.device_info n)
        (on_settings_custom_name_changed (on_position_changed m)) (sym a.same_device)
        (λ c.
          ap (λ (s : InverterSettings). s.is_active) a.same_settings
          ∙ active (sym a.same_connected ∙ c))

  created-Agrees :
      (instance_ : Option ℕ) (m : InverterMediator D)
      → Agrees m (begin_with (create_with v instance_ m))
  created-Agrees none m = record { same_device = refl; same_settings = refl; same_connected = refl }
  created-Agrees (some n) m =
      Agrees-trans m (on_settings_custom_name_changed (on_position_changed m)) _ (prepared-Agrees m)
        (started-Agrees (new_inverter v.number (class_of v m.device_info) m.device_info n)
          (on_settings_custom_name_changed (on_position_changed m)))

  pub begin-IsKept :
      (m : InverterMediator D)
      → (m.connected ≡ true → m.settings.is_active ≡ true)
      → IsKept (begin v m)
  unfolding begin create_inverter
  begin-IsKept m active =
      let id = create_inverter_id m.device_info.unique_id in
      created-IsKept (v.get_device_instance id) (act (registers id) m) active

  pub begin-Agrees : (m : InverterMediator D) → Agrees m (begin v m)
  unfolding begin create_inverter
  begin-Agrees m =
      let id = create_inverter_id m.device_info.unique_id in
      let a = created-Agrees (v.get_device_instance id) (act (registers id) m) in
      record {
        same_device = a.same_device;
        same_settings = a.same_settings;
        same_connected = a.same_connected;
      }
