-- ===== src/SunspecDetector.antt =====
-- software/src/sunspec_detector.cpp and sunspec_detector.h: the walk over the models of a SunSpec
-- device behind one host. `Detection` is the Reply of a host with its entry in mClientToReply, and
-- what the detector asks and announces is logged, the newest last. A text is a list of the codes of
-- its characters; the manufacturer's is taken to have no place marker of QString::arg in it.
pub mod Events
pub mod Walk
mod Tests
use dbus_fronius.Base.{
  ℕ, zero, suc, ◌+◌, ◌-◌, ◌*◌, ◌/◌, ◌%◌, Bool, true, false, Option, none, some, List, [], ◌∷◌, ◌++◌,
  length, get_or, ltb, ◌==◌, ◌&&◌, ◌||◌, not, if◌then◌else◌,
}
use dbus_fronius.SunspecTools.{ℤ, Value, get_scale, get_scaled_value, get_string, scaled, pos}

pub data State : Type 0 where
  sunspec_header module_header module_content : State

-- What productId says; no_product is 0.
pub data Product : Type 0 where
  no_product fronius sma abb sunspec : Product

-- The fields of DeviceInfo that the detector sets. `over_float` and `over_int` say that
-- retrievalMode is ProtocolSunSpecFloat or ProtocolSunSpecIntSf; `power_limit_exponent` is the
-- exponent by whose power of ten 100 is divided to powerLimitScale, if it was set.
pub record DeviceInfo : Type 0 where
  pub network_id : ℕ
  pub over_float : Bool
  pub over_int : Bool
  pub phase_count : ℕ
  pub inverter_model_offset : ℕ
  pub name_plate_model_offset : ℕ
  pub immediate_control_offset : ℕ
  pub product_id : Product
  pub product_name : List ℕ
  pub data_manager_version : List ℕ
  pub firmware_version : List ℕ
  pub serial_number : List ℕ
  pub max_power : Value
  pub storage_capacity : Value
  pub power_limit_exponent : Option (Option ℤ)

pub data Action : Type 0 where
  reads : (unit start count : ℕ) → Action
  device_found : DeviceInfo → Action
  finished : Action

pub record Detection : Type 0 where
  pub di : DeviceInfo
  pub state : State
  pub current_register : ℕ
  pub live : Bool
  pub log : List Action

-- The number of registers is cast to 16 bits.
unfoldable pub start_next_request : ℕ → Detection → Detection
start_next_request count d = record d {
  log = d.log ++ reads d.di.network_id d.current_register (count % 65536) ∷ [];
}

unfoldable pub set_done : Detection → Detection
set_done d = if d.live then record d { live = false; log = d.log ++ finished ∷ [] } else d

unfoldable pub set_result : Detection → Detection
set_result d = record d { log = d.log ++ device_found d.di ∷ [] }

-- `currentRegister += 2 + size`, and the next header.
unfoldable pub next_header : ℕ → Detection → Detection
unfolding start_next_request
next_header size d = start_next_request 2 (record d {
  state = module_header;
  current_register = (d.current_register + (2 + size)) % 65536;
})

abbrev pub same_text : List ℕ → List ℕ → Bool
same_text [] [] = true
same_text (a ∷ x) (b ∷ y) = (a == b) && same_text x y
same_text _ _ = false

-- "SunS", "Fronius", "SMA" and "ABB".
abbrev pub suns_text : List ℕ
suns_text = 83 ∷ 117 ∷ 110 ∷ 83 ∷ []

abbrev pub fronius_text : List ℕ
fronius_text = 70 ∷ 114 ∷ 111 ∷ 110 ∷ 105 ∷ 117 ∷ 115 ∷ []

abbrev pub sma_text : List ℕ
sma_text = 83 ∷ 77 ∷ 65 ∷ []

abbrev pub abb_text : List ℕ
abb_text = 65 ∷ 66 ∷ 66 ∷ []

unfoldable pub sunspec_header_case : List ℕ → Detection → Detection
unfolding get_string set_done start_next_request
sunspec_header_case values d =
    if (length values == 2) && same_text (get_string values 0 2) suns_text
    then start_next_request 66
        (record d { current_register = (d.current_register + 2) % 65536; state = module_content })
    else set_done d

-- The models 101 to 103 and 111 to 113.
unfoldable pub is_inverter_model : ℕ → Bool
is_inverter_model id = (ltb 100 id && ltb id 104) || (ltb 110 id && ltb id 114)

abbrev pub is_empty : List ℕ → Bool
is_empty [] = true
is_empty (c ∷ text) = false

unfoldable pub end_of_models : Detection → Detection
unfolding set_done set_result
end_of_models d =
    if not (is_empty d.di.product_name) && ltb 0 d.di.phase_count && ltb 0 d.di.network_id
    then set_done (set_result d)
    else set_done d

-- The case ModuleHeader on at least two registers.
unfoldable pub on_header : (id size : ℕ) → Detection → Detection
unfolding next_header start_next_request is_inverter_model end_of_models
on_header id size d =
    if is_inverter_model id
    then next_header size (record d {
      di = record (d.di) {
        over_float = ltb 103 id;
        over_int = not (ltb 103 id);
        phase_count = id % 10;
        inverter_model_offset = d.current_register;
      };
    })
    else if id == 120
    then start_next_request (size + 2) (record d {
      state = module_content;
      di = record (d.di) { name_plate_model_offset = d.current_register };
    })
    else if id == 123
    then start_next_request (size + 2) (record d {
      state = module_content;
      di = record (d.di) { immediate_control_offset = d.current_register };
    })
    else if id == 0xffff
    then end_of_models d
    else next_header size d

unfoldable pub module_header_case : List ℕ → Detection → Detection
unfolding on_header set_done
module_header_case values d =
    if ltb (length values) 2
    then set_done d
    else on_header (get_or values 0 0) (get_or values 1 0) d
