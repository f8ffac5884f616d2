-- ===== src/SmaDetector/Course.antt =====
-- sma_detector.cpp: every detection comes to an end, and the device that a supported inverter is
-- found to be.
use Prim.Native.String.{String}
use dbus_fronius.Base.{
  ℕ, zero, suc, ◌+◌, ◌-◌, ◌*◌, ◌/◌, ◌%◌, ◌≤◌, ◌<◌, ◌≡◌, refl, sym, ap, subst, ◌∙◌, Bool, true,
  false, Option, none, some, List, [], ◌∷◌, map, arith, length, get_or, ltb, ◌==◌, ◌&&◌,
  if◌then◌else◌, if_both, lt→ltb,
}
use dbus_fronius.SmaDetector.{
  State, read_device_class, read_device_type, read_serial_number, read_software_version,
  read_max_power, read_power_limit, DeviceInfo, Detection, start_next_read_request, set_done,
  set_result, go_on, uint32_of, device_class_case, model_name, name_device, device_type_case,
  serial_number_case, software_version_case, max_power_case, power_limit_case, on_values,
  bcd_to_byte, release_type, number, reads, device_found, finished,
}
use dbus_fronius.SmaDetector.Runs.{
  start, on_connected, on_finished, connected, answered, handle, run,
}
use dbus_fronius.SmaDetector.Devices.{handle-over}

-- How many answers a detection needs at most.
steps : State → ℕ
steps read_device_class = 6
steps read_device_type = 5
steps read_serial_number = 4
steps read_software_version = 3
steps read_max_power = 2
steps read_power_limit = 1

-- The detection is done after `n` more answers, and waits for one till then.
data IsDue (n : ℕ) : Detection → Type 0 where
  over : (d : Detection) → d.live ≡ false → IsDue n d
  due : (d : Detection) → d.live ≡ true → 0 < d.outstanding → steps d.state ≤ n → IsDue n d

steps_positive : (s : State) → 0 < steps s
unfolding steps
steps_positive read_device_class = omega arith
steps_positive read_device_type = omega arith
steps_positive read_serial_number = omega arith
steps_positive read_software_version = omega arith
steps_positive read_max_power = omega arith
steps_positive read_power_limit = omega arith

set_done-live : (d : Detection) → (set_done d).live ≡ false
unfolding set_done
set_done-live d = ground arith

ends-IsDue : (n : ℕ) (d : Detection) → IsDue n (set_done d)
ends-IsDue n d = over (set_done d) (set_done-live d)

go_on-IsDue :
    (n register : ℕ) (state : State) (di : DeviceInfo) (d : Detection)
    → d.live ≡ true
    → steps state ≤ n
    → IsDue n (go_on register state (record d { di = di }))
unfolding go_on start_next_read_request
go_on-IsDue n register state di d l h = due _ l (omega arith) h

name_device-IsDue :
    (n model : ℕ) (o : Option String) (d : Detection)
    → d.live ≡ true
    → 4 ≤ n
    → IsDue n (name_device model o d)
unfolding name_device steps
name_device-IsDue n model none d l h = ends-IsDue n (record d {
  di = record (d.di) {
    device_type = none;
    phase_count = 0;
    over_sma = true;
    is_pv_inverter = false;
  };
})
name_device-IsDue n model (some name) d l h = go_on-IsDue n 30057 read_serial_number _ d l h

on_values-IsDue :
    (n : ℕ) (s : State) (values : List ℕ) (d : Detection)
    → d.live ≡ true
    → steps s ≤ suc n
    → IsDue n (on_values s values d)
unfolding on_values device_class_case device_type_case serial_number_case software_version_case
    max_power_case power_limit_case steps
on_values-IsDue n read_device_class values d l h =
    if_both (IsDue n) (uint32_of values == 8001)
      (go_on-IsDue n 30053 read_device_type d.di d l (omega arith)) (ends-IsDue n d)
on_values-IsDue n read_device_type values d l h =
    name_device-IsDue n (uint32_of values) (model_name (uint32_of values)) d l (omega arith)
on_values-IsDue n read_serial_number values d l h =
    go_on-IsDue n 30059 read_software_version _ d l (omega arith)
on_values-IsDue n read_software_version values d l h =
    go_on-IsDue n 30231 read_max_power _ d l (omega arith)
on_values-IsDue n read_max_power values d l h =
    go_on-IsDue n 30837 read_power_limit _ d l (omega arith)
on_values-IsDue n read_power_limit values d l h =
    ends-IsDue n
      (set_result (record d { di = record (d.di) { power_limit_scale = get_or values 1 0 } }))

takes : (b : Bool) (d d' : Detection) → b ≡ true → (if b then d' else d) ≡ d'
takes b d d' e = rw e refl

both_true : (a b : Bool) → a ≡ true → b ≡ true → (a && b) ≡ true
both_true a b p q = cc

answered-IsDue :
    (n : ℕ) (values : List ℕ) (d : Detection)
    → IsDue (suc n) d
    → IsDue n (handle (answered values) d)
unfolding handle on_finished
answered-IsDue n values d (over _ l) =
    over (handle (answered values) d)
      (ap (λ (e : Detection). e.live) (handle-over (answered values) d l) ∙ l)
answered-IsDue n values d (due _ l o h) =
    let d' = record d { outstanding = d.outstanding - 1 } in
    subst (IsDue n)
      (sym (
        takes (d.live && ltb 0 d.outstanding) d (on_finished values d)
          (both_true d.live (ltb 0 d.outstanding) l (lt→ltb 0 d.outstanding o))))
      (if_both (IsDue n) (ltb (length values) 2) (ends-IsDue n d')
        (on_values-IsDue n d.state values d' l h))

run-IsDue :
    (n : ℕ) (answers : List (List ℕ)) (d : Detection)
    → n ≡ length answers
    → IsDue n d
    → (run (map answered answers) d).live ≡ false
unfolding run steps
run-IsDue zero [] d e (over _ l) = l
run-IsDue zero [] d e (due _ l o h) = absurd (omega (arith, steps_positive d.state))
run-IsDue (suc n) [] d e h = absurd (omega arith)
run-IsDue zero (values ∷ answers) d e h = absurd (omega arith)
run-IsDue (suc n) (values ∷ answers) d e h =
    run-IsDue n answers (handle (answered values) d) (omega arith) (answered-IsDue n values d h)

-- Once the connection is made, a detection is done after six answers, whatever they contain, and
-- also if some of them are errors.
pub run-live :
    (answers : List (List ℕ)) (unit : ℕ)
    → length answers ≡ 6
    → (run (connected ∷ map answered answers) (start unit)).live ≡ false
unfolding run handle on_connected start start_next_read_request steps
run-live answers unit e =
    run-IsDue 6 answers (handle connected (start unit)) (sym e)
      (due _ refl (omega arith) (omega arith))

-- What an inverter of a known model says of itself, and its answers.
pub record Inverter : Type 0 where
  pub model : ℕ
  pub serial_number : ℕ
  pub major : ℕ
  pub minor : ℕ
  pub build : ℕ
  pub release : ℕ
  pub max_power : ℕ
  pub power_limit : ℕ

abbrev bcd : ℕ → ℕ
bcd n = n / 10 * 16 + n % 10

abbrev pub answers_of : Inverter → List (List ℕ)
answers_of v =
    (0 ∷ 8001 ∷ [])
    ∷ (0 ∷ v.model ∷ [])
    ∷ ((v.serial_number / 65536) ∷ (v.serial_number % 65536) ∷ [])
    ∷ ((bcd v.major * 256 + bcd v.minor) ∷ (bcd v.build * 256 + bcd v.release) ∷ [])
    ∷ (0 ∷ v.max_power ∷ [])
    ∷ (0 ∷ v.power_limit ∷ [])
    ∷ []

-- Two decimal digits in a byte each.
pub record IsInverter (v : Inverter) : Type 0 where
  pub major_fits : v.major < 100
  pub minor_fits : v.minor < 100
  pub build_fits : v.build < 100
  pub release_fits : v.release < 100

bcd_high : (m n : ℕ) → m < 100 → n < 100 → bcd_to_byte ((bcd m * 256 + bcd n) / 256 % 256) ≡ m
unfolding bcd_to_byte
bcd_high m n h k = omega arith

bcd_low : (m n : ℕ) → m < 100 → n < 100 → bcd_to_byte ((bcd m * 256 + bcd n) % 256) ≡ n
unfolding bcd_to_byte
bcd_low m n h k = omega arith

abbrev pub device_of : ℕ → String → Inverter → DeviceInfo
device_of unit name v = record {
  network_id = unit;
  device_type = some v.model;
  product_name = name;
  phase_count = 1;
  over_sma = true;
  is_pv_inverter = true;
  serial_number = v.serial_number;
  firmware_version = number v.major ∷ number v.minor ∷ number v.build ∷ release_type v.release ∷ [];
  storage_capacity = 0;
  max_power = v.max_power;
  power_limit_scale = v.power_limit;
}

-- An inverter of one of the known models answers the six requests of the detector: these are the
-- requests for two registers each at the addresses of the source, in its order, and the detection
-- ends with the device that the inverter described, its software version read back from the
-- decimal digits.
pub run-device_found :
    (unit : ℕ) (name : String) (v : Inverter)
    → IsInverter v
    → model_name v.model ≡ some name
    → (run (connected ∷ map answered (answers_of v)) (start unit)).log
      ≡ reads unit 30051 2
        ∷ reads unit 30053 2
        ∷ reads unit 30057 2
        ∷ reads unit 30059 2
        ∷ reads unit 30231 2
        ∷ reads unit 30837 2
        ∷ device_found (device_of unit name v)
        ∷ finished
        ∷ []
unfolding run handle on_connected on_finished start start_next_read_request set_done set_result
    go_on on_values device_class_case name_device device_type_case serial_number_case
    software_version_case max_power_case power_limit_case
run-device_found unit name v h m =
    let high : 0 * 65536 + v.model ≡ v.model = omega arith in
    let serial : v.serial_number / 65536 * 65536 + v.serial_number % 65536 ≡ v.serial_number =
      omega arith in
    rw
      (
        high,
        m,
        serial,
        bcd_high v.major v.minor h.major_fits h.minor_fits,
        bcd_low v.major v.minor h.major_fits h.minor_fits,
        bcd_high v.build v.release h.build_fits h.release_fits,
        bcd_low v.build v.release h.build_fits h.release_fits,
      )
      refl
