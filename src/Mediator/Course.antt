-- ===== src/Mediator/Course.antt =====
-- inverter_mediator.cpp: the inverter of a mediator fits to the device that was found last.
use dbus_fronius.Base.{
  ℕ, ◌≡◌, refl, Bool, true, false, not, ◌&&◌, ◌==◌, ltb, Option, none, some, List, [], ◌∷◌,
  if◌then◌else◌, if_both,
}
use dbus_fronius.Defines.{DeviceInfo}
use dbus_fronius.Inverter.{Inverter, set_position}
use dbus_fronius.Mediator.{
  Services, InverterSettings, InverterMediator, act, forget, sets_phase, persist, has_inverter,
  begin, on_settings_initialized, on_position_changed, on_is_activated_changed, on_connection_lost,
  on_inverter_model_changed,
}
use dbus_fronius.Mediator.Events.{
  new_mediator, Event, finds, settings_initialized, loses_connection, model_changes,
  position_changes, phase_changes, is_active_changes, custom_name_changes, inverter_is_named,
  handle, run,
}
use dbus_fronius.Mediator.Kept.{
  ServesAll, IsKept, begin-IsKept, name_for-IsKept, on_settings_custom_name_changed-IsKept,
}
use dbus_fronius.Mediator.Served.{process_new_inverter-IsKept}

module _ {D : Type 0} (v : Services) where
  -- Other values of the settings that an inverter does not depend on.
  other_settings :
      (m : InverterMediator D) (settings : InverterSettings)
      → settings.position ≡ m.settings.position
      → settings.is_active ≡ m.settings.is_active
      → (o : Option (Inverter D)) → ServesAll m.device_info m.settings m.connected o
      → ServesAll m.device_info settings m.connected o
  other_settings m settings p a none s = tt
  other_settings m settings p a (some i) s = record {
    unique_id = s.unique_id;
    host_name = s.host_name;
    port = s.port;
    retrieval_mode = s.retrieval_mode;
    updater = s.updater;
    position = λ c. cc (s.position c);
    is_active = λ c. cc (s.is_active c);
  }

  persist-is_active :
      (m : InverterMediator D) → m.settings.is_active ≡ true → (persist m).settings.is_active ≡ true
  persist-is_active m e =
      if_both (λ (x : InverterMediator D). x.settings.is_active ≡ true)
        (ltb 1 m.device_info.phase_count && not (m.settings.phase == 0))
        {yes = act (sets_phase 0) m} {no = m} e e

  initialized-IsKept :
      (b : Bool) (m : InverterMediator D)
      → m.settings.is_active ≡ b
      → let m' = record m { connected = true } in
        IsKept (if b then begin v (persist m') else forget m')
  initialized-IsKept true m e =
      let m' = record m { connected = true } in
      begin-IsKept v (persist m') (λ c. persist-is_active m' e)
  initialized-IsKept false m e = tt

  position-IsKept :
      (c : Bool) (o : Option (Inverter D)) (p : ℕ) (m : InverterMediator D)
      → ServesAll m.device_info m.settings c o
      → let m' = record m {
        settings = record (m.settings) { position = p };
        connected = c;
        mediated = o;
      } in
        IsKept (if c then on_position_changed m' else m')
  unfolding on_position_changed set_position
  position-IsKept true none p m s = tt
  position-IsKept false none p m s = tt
  position-IsKept true (some i) p m s = record {
    unique_id = s.unique_id;
    host_name = s.host_name;
    port = s.port;
    retrieval_mode = s.retrieval_mode;
    updater = s.updater;
    position = λ c. refl;
    is_active = s.is_active;
  }
  position-IsKept false (some i) p m s = record {
    unique_id = s.unique_id;
    host_name = s.host_name;
    port = s.port;
    retrieval_mode = s.retrieval_mode;
    updater = s.updater;
    position = λ c. cc;
    is_active = λ c. cc;
  }

  is_active-IsKept :
      (b c : Bool) (o : Option (Inverter D)) (m : InverterMediator D)
      → ServesAll m.device_info m.settings c o
      → let m' = record m {
        settings = record (m.settings) { is_active = b };
        connected = c;
        mediated = o;
      } in
        IsKept (if c then on_is_activated_changed m' else m')
  unfolding on_is_activated_changed
  is_active-IsKept true true none m s = tt
  is_active-IsKept false true none m s = tt
  is_active-IsKept b false none m s = tt
  is_active-IsKept false true (some i) m s = tt
  is_active-IsKept true true (some i) m s = record {
    unique_id = s.unique_id;
    host_name = s.host_name;
    port = s.port;
    retrieval_mode = s.retrieval_mode;
    updater = s.updater;
    position = s.position;
    is_active = λ c. refl;
  }
  is_active-IsKept b false (some i) m s = record {
    unique_id = s.unique_id;
    host_name = s.host_name;
    port = s.port;
    retrieval_mode = s.retrieval_mode;
    updater = s.updater;
    position = λ c. cc;
    is_active = λ c. cc;
  }

  handle-IsKept : (e : Event D) (m : InverterMediator D) → IsKept m → IsKept (handle v e m)
  unfolding handle on_settings_initialized on_connection_lost on_inverter_model_changed
  handle-IsKept (finds d) m k = process_new_inverter-IsKept v d m k
  handle-IsKept settings_initialized m k =
      if_both IsKept m.connected k (initialized-IsKept m.settings.is_active m refl)
  handle-IsKept loses_connection m k = if_both IsKept (has_inverter m.mediated) tt k
  handle-IsKept model_changes m k = if_both IsKept (has_inverter m.mediated) tt k
  handle-IsKept (position_changes p) m k = position-IsKept m.connected m.mediated p m k
  handle-IsKept (phase_changes p) m k =
      other_settings m (record (m.settings) { phase = p }) refl refl m.mediated k
  handle-IsKept (is_active_changes b) m k = is_active-IsKept b m.connected m.mediated m k
  handle-IsKept (custom_name_changes n) m k =
      let m' = record m { settings = record (m.settings) { custom_name = n } } in
      let k' : IsKept m' = other_settings m (m'.settings) refl refl m.mediated k in
      if_both IsKept m.connected (on_settings_custom_name_changed-IsKept m' k') k'
  handle-IsKept (inverter_is_named n) m k = name_for-IsKept n m.mediated m k k

  run-preserved :
      (events : List (Event D)) (m : InverterMediator D) → IsKept m → IsKept (run v events m)
  unfolding run
  run-preserved [] m k = k
  run-preserved (e ∷ events) m k = run-preserved events (handle v e m) (handle-IsKept e m k)

  -- Whatever happens to a mediator: if it has an inverter, this has the unique id, the protocol, the
  -- host and the port of the device of its id that was found last, and the updater of the protocol; once
  -- the settings are initialized, it has the position of the settings, and these say that the
  -- inverter is active.
  pub run-IsKept :
      (info : DeviceInfo D) (settings : InverterSettings) (events : List (Event D))
      → IsKept (run v events (new_mediator info settings))
  run-IsKept info settings events = run-preserved events (new_mediator info settings) tt
