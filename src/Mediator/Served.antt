-- ===== src/Mediator/Served.antt =====
-- inverter_mediator.cpp: the inverter of a mediator after a device has been found.
use Prim.Native.String.{String}
use text.Mathlib.TextEquality.{eq_iff}
use dbus_fronius.Base.{
  ℕ, ◌≡◌, refl, ap, ◌∙◌, Bool, true, false, not, ◌&&◌, ◌==◌, ==_iff, inl, inr, Bool-cases, Option,
  none, some, if◌then◌else◌, if_both,
}
use dbus_fronius.SolarApi.{same_text}
use dbus_fronius.Defines.{
  ProtocolType, fronius_solar_api, sunspec_float, sunspec_int_sf, sma, same_protocol, DeviceInfo,
}
use dbus_fronius.Inverter.{Inverter, update_connection_item, set_host_name, set_port}
use dbus_fronius.Mediator.{
  Services, InverterSettings, InverterMediator, forget, updater_of, has_inverter, at_address, begin,
  renew, process_new_inverter,
}
use dbus_fronius.Mediator.Kept.{Serves, ServesAll, IsKept, begin-IsKept}

same_protocol-path : (a b : ProtocolType) → same_protocol a b ≡ true → a ≡ b
same_protocol-path fronius_solar_api fronius_solar_api e = refl
same_protocol-path sunspec_float sunspec_float e = refl
same_protocol-path sunspec_int_sf sunspec_int_sf e = refl
same_protocol-path sma sma e = refl
same_protocol-path fronius_solar_api sunspec_float e = cc
same_protocol-path fronius_solar_api sunspec_int_sf e = cc
same_protocol-path fronius_solar_api sma e = cc
same_protocol-path sunspec_float fronius_solar_api e = cc
same_protocol-path sunspec_float sunspec_int_sf e = cc
same_protocol-path sunspec_float sma e = cc
same_protocol-path sunspec_int_sf fronius_solar_api e = cc
same_protocol-path sunspec_int_sf sunspec_float e = cc
same_protocol-path sunspec_int_sf sma e = cc
same_protocol-path sma fronius_solar_api e = cc
same_protocol-path sma sunspec_float e = cc
same_protocol-path sma sunspec_int_sf e = cc

module _ {D : Type 0} where
  -- An inverter is told its host or port: it is known of the result what was not told.
  record Keeps (i i' : Inverter D) : Type 0 where
    unique_id : i'.device_info.unique_id ≡ i.device_info.unique_id
    retrieval_mode : i'.device_info.retrieval_mode ≡ i.device_info.retrieval_mode
    updater : i'.updater ≡ i.updater
    position : i'.position ≡ i.position

  set_host_name-Keeps :
      (number : ℕ → String) (h : String) (i : Inverter D) → Keeps i (set_host_name number h i)
  unfolding set_host_name update_connection_item
  set_host_name-Keeps number h i =
      if_both (Keeps i) (same_text i.device_info.host_name h)
        (record { unique_id = refl; retrieval_mode = refl; updater = refl; position = refl })
        (record { unique_id = refl; retrieval_mode = refl; updater = refl; position = refl })

  set_port-Keeps : (number : ℕ → String) (p : ℕ) (i : Inverter D) → Keeps i (set_port number p i)
  unfolding set_port
  set_port-Keeps number p i =
      if_both (Keeps i) (i.device_info.port == p)
        (record { unique_id = refl; retrieval_mode = refl; updater = refl; position = refl })
        (record { unique_id = refl; retrieval_mode = refl; updater = refl; position = refl })

  set_host_name-host_name :
      (number : ℕ → String) (h : String) (i : Inverter D)
      → (set_host_name number h i).device_info.host_name ≡ h
  unfolding set_host_name update_connection_item
  set_host_name-host_name number h i = elim (Bool-cases (same_text i.device_info.host_name h)) [
    | inl e ↦ rw e ((eq_iff i.device_info.host_name h).0 e)
    | inr e ↦ rw e refl
  ]

  set_port-host_name :
      (number : ℕ → String) (p : ℕ) (i : Inverter D)
      → (set_port number p i).device_info.host_name ≡ i.device_info.host_name
  unfolding set_port
  set_port-host_name number p i =
      if_both (λ (x : Inverter D). x.device_info.host_name ≡ i.device_info.host_name)
        (i.device_info.port == p) refl refl

  set_port-port :
      (number : ℕ → String) (p : ℕ) (i : Inverter D) → (set_port number p i).device_info.port ≡ p
  unfolding set_port
  set_port-port number p i = elim (Bool-cases (i.device_info.port == p)) [
    | inl e ↦ rw e ((==_iff i.device_info.port p).0 e)
    | inr e ↦ rw e refl
  ]

  -- The inverter of the device that is found again, with the address of this time.
  renewed-Serves :
      (number : ℕ → String) (old d : DeviceInfo D) (settings : InverterSettings) (connected : Bool)
      (i : Inverter D)
      → old.unique_id ≡ d.unique_id
      → old.retrieval_mode ≡ d.retrieval_mode
      → Serves old settings connected i
      → Serves d settings connected (set_port number d.port (set_host_name number d.host_name i))
  renewed-Serves number old d settings connected i u r s =
      let i' = set_host_name number d.host_name i in
      let a = set_host_name-Keeps number d.host_name i in
      let b = set_port-Keeps number d.port i' in
      record {
        unique_id = b.unique_id ∙ (a.unique_id ∙ (s.unique_id ∙ u));
        host_name =
            set_port-host_name number d.port i' ∙ set_host_name-host_name number d.host_name i;
        port = set_port-port number d.port i';
        retrieval_mode = b.retrieval_mode ∙ (a.retrieval_mode ∙ (s.retrieval_mode ∙ r));
        updater =
            b.updater
            ∙ (a.updater ∙ (s.updater ∙ ap (λ (p : ProtocolType). some (updater_of p)) r));
        position = λ c. b.position ∙ (a.position ∙ s.position c);
        is_active = s.is_active;
      }

module _ {D : Type 0} (v : Services) where
  active-IsKept :
      (b : Bool) (m : InverterMediator D)
      → m.settings.is_active ≡ b
      → IsKept (if b then begin v (record m { mediated = none }) else record m { mediated = none })
  active-IsKept true m e = begin-IsKept v (record m { mediated = none }) (λ c. e)
  active-IsKept false m e = tt

  found_again-IsKept :
      (o : Option (Inverter D)) (d : DeviceInfo D) (m : InverterMediator D) (changed : Bool)
      → not (same_protocol m.device_info.retrieval_mode d.retrieval_mode) ≡ changed
      → m.device_info.unique_id ≡ d.unique_id
      → ServesAll m.device_info m.settings m.connected o
      → let m' = record m { mediated = o } in
        IsKept (
          renew v d
            (record (if has_inverter o && changed then forget m' else m') { device_info = d }))
  unfolding set_port set_host_name
  found_again-IsKept none d m changed e u s =
      active-IsKept m.settings.is_active (record m { device_info = d }) refl
  found_again-IsKept (some i) d m true e u s =
      active-IsKept m.settings.is_active (record m { device_info = d }) refl
  found_again-IsKept (some i) d m false e u s =
      renewed-Serves v.number m.device_info d m.settings m.connected i u
        (same_protocol-path m.device_info.retrieval_mode d.retrieval_mode (not_not _ e)) s
    where
      not_not : (b : Bool) → not b ≡ false → b ≡ true
      not_not true f = refl
      not_not false f = cc

  pub process_new_inverter-IsKept :
      (d : DeviceInfo D) (m : InverterMediator D) → IsKept m → IsKept (process_new_inverter v d m).1
  unfolding process_new_inverter
  process_new_inverter-IsKept d m k =
      elim (Bool-cases (same_text m.device_info.unique_id d.unique_id)) [
        | inl e ↦ rw e (
            found_again-IsKept m.mediated d m
              (not (same_protocol m.device_info.retrieval_mode d.retrieval_mode)) refl
              ((eq_iff m.device_info.unique_id d.unique_id).0 e) k)
        | inr e ↦ rw e (if_both IsKept (at_address d m.mediated) tt k)
      ]
