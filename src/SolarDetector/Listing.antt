-- ===== src/SolarDetector/Listing.antt =====
-- solar_api_detector.cpp: the loop of onConverterInfoFound over the inverters.
use Prim.Native.String.{String}
use dbus_fronius.Base.{
  ℕ, ◌≡◌, refl, ◌∙◌, Bool, true, false, not, ◌&&◌, ◌||◌, ◌==◌, inl, inr, Bool-cases, List, [], ◌∷◌,
  if◌then◌else◌, arith,
}
use dbus_fronius.SolarApi.{InverterInfo}
use dbus_fronius.SolarDetector.{
  SolarApiDetector, is_pending, note_invalid, contains_text, start_sunspec, list_inverters,
}
use dbus_fronius.SolarDetector.Table.{AreNew}

-- Some inverter has a known type.
abbrev pub any_known : List InverterInfo → Bool
any_known [] = false
any_known (i ∷ inverters) = not (i.device_type == 255) || any_known inverters

module _ {D : Type 0} where
  -- What the loop changes: a detection is started for a reply if it lists a known inverter.
  pub record Lists (s : ℕ) (known : Bool) (set_finished : Bool) (d : SolarApiDetector D)
      (result : Bool × SolarApiDetector D) : Type 0 where
    pub signals : result.1.signals ≡ d.signals
    pub replies : result.1.replies ≡ d.replies
    pub created : result.1.created ≡ d.created
    pub are_new : AreNew d.detector_reply_to_inverter → AreNew result.1.detector_reply_to_inverter
    pub pending :
        (r : ℕ)
        → is_pending r result.1.detector_reply_to_inverter
          ≡ (is_pending r d.detector_reply_to_inverter || (s == r && known))
    pub flag : result.0 ≡ (set_finished && not known)

  note_invalid-Lists :
      (s : ℕ) (id : String) (d : SolarApiDetector D) (fin : Bool)
      → Lists s false fin d (fin, note_invalid id d)
  note_invalid-Lists s id d fin = elim (Bool-cases (contains_text d.invalid_devices id)) [
    | inl e ↦ rw e (record {
      signals = refl;
      replies = refl;
      created = refl;
      are_new = λ n. n;
      pending = λ r. ground arith;
      flag = ground arith;
    })
    | inr e ↦ rw e (record {
      signals = refl;
      replies = refl;
      created = refl;
      are_new = λ n. n;
      pending = λ r. ground arith;
      flag = ground arith;
    })
  ]

  start_sunspec-Lists :
      (s : ℕ) (host : String) (i : InverterInfo) (d : SolarApiDetector D) (fin : Bool)
      → Lists s true fin d (false, start_sunspec s host i d)
  unfolding is_pending
  start_sunspec-Lists s host i d fin = record {
    signals = refl;
    replies = refl;
    created = refl;
    are_new = λ n. (refl, n);
    pending = λ r. ground arith;
    flag = ground arith;
  }

  then-Lists :
      (s : ℕ) (known known' fin : Bool) (d : SolarApiDetector D)
      (first second : Bool × SolarApiDetector D)
      → Lists s known fin d first
      → Lists s known' first.0 first.1 second
      → Lists s (known || known') fin d second
  then-Lists s known known' fin d first second a b = record {
    signals = b.signals ∙ a.signals;
    replies = b.replies ∙ a.replies;
    created = b.created ∙ a.created;
    are_new = λ n. b.are_new (a.are_new n);
    pending = λ r. ground (arith, a.pending r, b.pending r);
    flag = ground (arith, a.flag, b.flag);
  }

  first-Lists :
      (s : ℕ) (host : String) (i : InverterInfo) (d : SolarApiDetector D) (fin unknown : Bool)
      → Lists s (not unknown) fin d (
        if unknown then fin else false,
        if unknown then note_invalid i.unique_id d else start_sunspec s host i d,
      )
  first-Lists s host i d fin true = note_invalid-Lists s i.unique_id d fin
  first-Lists s host i d fin false = start_sunspec-Lists s host i d fin

  pub list_inverters-Lists :
      (s : ℕ) (host : String) (inverters : List InverterInfo) (fin : Bool) (d : SolarApiDetector D)
      → Lists s (any_known inverters) fin d (list_inverters s host inverters fin d)
  unfolding list_inverters
  list_inverters-Lists s host [] fin d = record {
    signals = refl;
    replies = refl;
    created = refl;
    are_new = λ n. n;
    pending = λ r. ground arith;
    flag = ground arith;
  }
  list_inverters-Lists s host (i ∷ inverters) fin d =
      let unknown = i.device_type == 255 in
      let first = first-Lists s host i d fin unknown in
      then-Lists s (not unknown) (any_known inverters) fin d _ _ first (
        list_inverters-Lists s host inverters (if unknown then fin else false)
          (if unknown then note_invalid i.unique_id d else start_sunspec s host i d))
