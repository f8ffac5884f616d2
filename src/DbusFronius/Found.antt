-- ===== src/DbusFronius/Found.antt =====
-- dbus_fronius.cpp: what a device that is found does to the mediators.
use dbus_fronius.Base.{
  ◌≡◌, refl, ap, ◌∙◌, true, false, List, [], ◌∷◌, ◌++◌, map, if◌then◌else◌, All,
}
use dbus_fronius.SolarApi.{same_text}
use dbus_fronius.Defines.{DeviceInfo}
use dbus_fronius.Mediator.{
  Services, InverterSettings, InverterMediator, at_address, forget, process_new_inverter,
}
use dbus_fronius.Mediator.Events.{new_mediator}
use dbus_fronius.DbusFronius.{offer}

module _ {D : Type 0} where
  -- A mediator for another device: its inverter is given up if the device that was found is at the
  -- address of this inverter.
  abbrev pub closed : DeviceInfo D → InverterMediator D → InverterMediator D
  closed d m = if at_address d m.mediated then forget m else m

  abbrev pub AreOthers : DeviceInfo D → List (InverterMediator D) → Type 0
  AreOthers d mediators = All (λ m. same_text m.device_info.unique_id d.unique_id ≡ false) mediators

module _ {D : Type 0} (v : Services) where
  others :
      (settings : InverterSettings) (d : DeviceInfo D) (m : InverterMediator D)
      (mediators : List (InverterMediator D))
      → same_text m.device_info.unique_id d.unique_id ≡ false
      → offer v settings d (m ∷ mediators) ≡ closed d m ∷ offer v settings d mediators
  unfolding offer process_new_inverter
  others settings d m mediators e = rw e refl

  -- A device is found for which there is a mediator. This one goes on with it. Those before it give up
  -- their inverters at the address of the device; those behind it do not change, even if they have an
  -- inverter at this address.
  pub offer-append :
      (settings : InverterSettings) (d : DeviceInfo D) (before : List (InverterMediator D))
      (m : InverterMediator D) (behind : List (InverterMediator D))
      → AreOthers d before
      → same_text m.device_info.unique_id d.unique_id ≡ true
      → offer v settings d (before ++ m ∷ behind)
        ≡ map (closed d) before ++ (process_new_inverter v d m).1 ∷ behind
  unfolding offer process_new_inverter
  offer-append settings d [] m behind h e = rw e refl
  offer-append settings d (other ∷ before) m behind h e =
      others settings d other (before ++ m ∷ behind) h.0
      ∙ ap (λ (l : List (InverterMediator D)). closed d other ∷ l)
          (offer-append settings d before m behind h.1 e)

  -- A device is found for which there is no mediator: it gets a new one, at the end, and every mediator
  -- gives up its inverter at the address of the device.
  pub offer-new_mediator :
      (settings : InverterSettings) (d : DeviceInfo D) (mediators : List (InverterMediator D))
      → AreOthers d mediators
      → offer v settings d mediators ≡ map (closed d) mediators ++ new_mediator d settings ∷ []
  unfolding offer
  offer-new_mediator settings d [] h = refl
  offer-new_mediator settings d (m ∷ mediators) h =
      others settings d m mediators h.0
      ∙ ap (λ (l : List (InverterMediator D)). closed d m ∷ l)
          (offer-new_mediator settings d mediators h.1)
