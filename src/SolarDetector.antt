-- ===== src/SolarDetector.antt =====
-- software/src/solar_api_detector.h and solar_api_detector.cpp: which inverters a host has, over the
-- Solar API, and for each of them the SunSpec detector. Replies, and the replies of the SunSpec
-- detector, are numbered in the order of their creation; a reply is kept after its end, and its
-- owner does not delete it before. Characters, doubles, texts of numbers and the product id of
-- Fronius are parameters.
pub mod Events
pub mod Table
pub mod Ended
pub mod Core
pub mod Listing
pub mod Course
pub mod Replies
pub mod Finish
mod Tests
use Prim.Native.String.{String, [] as empty, ◌∷◌ as ◌∷ₛ◌, ◌++◌ as ◌++ₛ◌}
use Prim.Native.Char.{Char, char}
use dbus_fronius.Base.{
  ℕ, zero, suc, Bool, true, false, not, ◌&&◌, ◌||◌, ◌==◌, Option, none, some, List, [], ◌∷◌, ◌++◌,
  lookup, insert, if◌then◌else◌,
}
use dbus_fronius.SolarApi.{InverterInfo, same_text, or_else}
use dbus_fronius.SolarApi.Client.{
  FroniusSolarApi, new_api, get_device_info_async, get_converter_info_async,
}
use dbus_fronius.Devices.{FroniusDeviceInfo, find}
use dbus_fronius.Defines.{DeviceInfo, new_device_info}

-- QChar::toLatin1 (as a character) and isLetterOrNumber, the text of an `int`, the doubles 0 and NaN,
-- VE_PROD_ID_PV_INVERTER_FRONIUS and std::lower_bound over the table of inverters.
pub record Environment (D : Type 0) : Type 0 where
  pub to_latin1 : Char → Char
  pub is_letter_or_number : Char → Bool
  pub of_number : ℕ → String
  pub zero_double : D
  pub nan : D
  pub fronius : ℕ
  pub lower_bound : List FroniusDeviceInfo → ℕ → ℕ

-- SolarApiDetector::Reply.
pub record Reply : Type 0 where
  pub api : FroniusSolarApi
  pub serial_info : List (ℕ × String)

pub record ReplyToInverter : Type 0 where
  pub reply : ℕ
  pub inverter : InverterInfo
  pub device_found : Bool

-- The signals of the replies.
pub data Signal (D : Type 0) : Type 0 where
  found : ℕ → DeviceInfo D → Signal D
  finished : ℕ → Signal D

-- `port_number` is that of the settings; `sunspec_starts` are the unit and the host of the SunSpec
-- detections, the newest last. A new detection is a new key of the hash.
pub record SolarApiDetector (D : Type 0) : Type 0 where
  pub port_number : ℕ
  pub invalid_devices : List String
  pub replies : List (ℕ × Reply)
  pub created : ℕ
  pub detector_reply_to_inverter : List (ℕ × ReplyToInverter)
  pub sunspec_created : ℕ
  pub sunspec_starts : List (ℕ × String)
  pub signals : List (Signal D)

-- `take` of the hash: the entry, and what is left.
unfoldable pub entry : ℕ → List (ℕ × ReplyToInverter) → Option ReplyToInverter
entry k [] = none
entry k ((j, e) ∷ table) = if j == k then some e else entry k table

unfoldable pub without : ℕ → List (ℕ × ReplyToInverter) → List (ℕ × ReplyToInverter)
without k [] = []
without k ((j, e) ∷ table) = if j == k then table else (j, e) ∷ without k table

-- An entry of the hash is marked as found.
unfoldable pub mark : ℕ → List (ℕ × ReplyToInverter) → List (ℕ × ReplyToInverter)
mark k [] = []
mark k ((j, e) ∷ table) =
    if j == k then (j, record e { device_found = true }) ∷ table else (j, e) ∷ mark k table

-- Whether an entry of the reply waits for its device.
unfoldable pub is_pending : ℕ → List (ℕ × ReplyToInverter) → Bool
is_pending r [] = false
is_pending r ((j, e) ∷ table) = (e.reply == r && not e.device_found) || is_pending r table

abbrev pub contains_text : List String → String → Bool
contains_text [] s = false
contains_text (t ∷ texts) s = same_text t s || contains_text texts s

abbrev underscore : Char
underscore = char 95 tt

module _ {D : Type 0} where
  abbrev pub emit : Signal D → SolarApiDetector D → SolarApiDetector D
  emit s d = record d { signals = d.signals ++ s ∷ [] }

  -- A member of the reply changes.
  abbrev pub change_found :
      (Reply → Reply) → ℕ → Option Reply → SolarApiDetector D → SolarApiDetector D
  change_found f r none d = d
  change_found f r (some reply) d = record d { replies = insert r (f reply) d.replies }

  abbrev pub change_reply : (Reply → Reply) → ℕ → SolarApiDetector D → SolarApiDetector D
  change_reply f r d = change_found f r (lookup r d.replies) d

  unfoldable pub start : String → SolarApiDetector D → SolarApiDetector D
  unfolding new_api get_device_info_async insert
  start host d = record d {
    replies =
        insert d.created
          (record { api = get_device_info_async (new_api host d.port_number); serial_info = [] })
          d.replies;
    created = suc d.created;
  }

  unfoldable pub on_device_info_found :
      ℕ → List (ℕ × String) → SolarApiDetector D → SolarApiDetector D
  unfolding get_converter_info_async lookup insert
  on_device_info_found r serials d =
      change_reply
        (λ reply. record { api = get_converter_info_async reply.api; serial_info = serials }) r d

  abbrev pub note_invalid : String → SolarApiDetector D → SolarApiDetector D
  note_invalid id d =
      if contains_text d.invalid_devices id
      then d
      else record d { invalid_devices = d.invalid_devices ++ id ∷ [] }

  -- One round of the loop for an inverter with a type.
  abbrev pub start_sunspec : ℕ → String → InverterInfo → SolarApiDetector D → SolarApiDetector D
  start_sunspec r host i d = record d {
    detector_reply_to_inverter =
        (d.sunspec_created, record { reply = r; inverter = i; device_found = false })
        ∷ d.detector_reply_to_inverter;
    sunspec_created = suc d.sunspec_created;
    sunspec_starts = d.sunspec_starts ++ (i.id, host) ∷ [];
  }

  -- The loop over the inverters, with setFinished.
  unfoldable pub list_inverters :
      ℕ → String → List InverterInfo → Bool → SolarApiDetector D → Bool × SolarApiDetector D
  list_inverters r host [] set_finished d = (set_finished, d)
  list_inverters r host (i ∷ inverters) set_finished d =
      let unknown = i.device_type == 255 in
      list_inverters r host inverters (if unknown then set_finished else false)
        (if unknown then note_invalid i.unique_id d else start_sunspec r host i d)

  unfoldable pub on_converter_info_found :
      ℕ → String → List InverterInfo → SolarApiDetector D → SolarApiDetector D
  unfolding list_inverters
  on_converter_info_found r host inverters d =
      let (set_finished, d') = list_inverters r host inverters true d in
      if set_finished then emit (finished r) d' else d'

  unfoldable pub check_finished : ℕ → SolarApiDetector D → SolarApiDetector D
  unfolding is_pending
  check_finished r d = if is_pending r d.detector_reply_to_inverter then d else emit (finished r) d

module _ {D : Type 0} (v : Environment D) where
  -- The loop of fixUniqueId: the text, and isOk.
  unfoldable pub fix_characters : String → String × Bool
  fix_characters empty = ("", false)
  fix_characters (c ∷ₛ s) =
      let (result, is_ok) = fix_characters s in
      if v.is_letter_or_number (v.to_latin1 c)
      then (v.to_latin1 c ∷ₛ result, true)
      else (underscore ∷ₛ result, is_ok)

  unfoldable pub fix_unique_id : InverterInfo → String
  fix_unique_id i =
      let (text, is_ok) = fix_characters i.unique_id in
      let result = if is_ok then text else "T" ++ₛ v.of_number i.id in
      v.of_number i.device_type ++ₛ ("_" ++ₛ result)

  abbrev pub sunspec_device : DeviceInfo D → ReplyToInverter → DeviceInfo D
  sunspec_device info device = record info {
    unique_id = fix_unique_id device.inverter;
    device_type = device.inverter.device_type;
  }

  abbrev pub found_with :
      ℕ → DeviceInfo D → Option ReplyToInverter → SolarApiDetector D → SolarApiDetector D
  found_with k info none d = d
  found_with k info (some device) d =
      emit (found device.reply (sunspec_device info device))
        (record d { detector_reply_to_inverter = mark k d.detector_reply_to_inverter })

  unfoldable pub on_sunspec_device_found :
      ℕ → DeviceInfo D → SolarApiDetector D → SolarApiDetector D
  unfolding entry mark fix_unique_id
  on_sunspec_device_found k info d = found_with k info (entry k d.detector_reply_to_inverter) d

  abbrev pub name_device : Option FroniusDeviceInfo → DeviceInfo D → DeviceInfo D
  name_device none info = record info { product_name = "Unknown PV Inverter"; phase_count = 1 }
  name_device (some d) info = record info { product_name = d.name; phase_count = d.phase_count }

  -- The device of the Solar API.
  abbrev pub solar_device : Option Reply → InverterInfo → DeviceInfo D
  solar_device none i = new_device_info v.zero_double
  solar_device (some reply) i =
      name_device (find v.lower_bound i.device_type) (record (new_device_info v.zero_double) {
        network_id = i.id;
        unique_id = fix_unique_id i;
        host_name = reply.api.host_name;
        port = reply.api.port;
        device_type = i.device_type;
        product_id = v.fronius;
        max_power = v.nan;
        serial_number = or_else "" (lookup i.id reply.serial_info);
      })

  abbrev pub done_with : Option ReplyToInverter → SolarApiDetector D → SolarApiDetector D
  done_with none d = d
  done_with (some device) d = check_finished device.reply (
      if device.device_found
      then d
      else emit (found device.reply (solar_device (lookup device.reply d.replies) device.inverter))
          d)

  unfoldable pub on_sunspec_done : ℕ → SolarApiDetector D → SolarApiDetector D
  unfolding entry without lookup find fix_unique_id check_finished
  on_sunspec_done k d =
      done_with (entry k d.detector_reply_to_inverter)
        (record d { detector_reply_to_inverter = without k d.detector_reply_to_inverter })
