-- ===== src/Sma/Words.antt =====
-- The word that sma_updater.cpp writes for a limit requested.
use dbus_fronius.Base.{
  ℕ, ◌%◌, ◌<◌, ◌≡◌, refl, ap, ◌∙◌, Bool, true, if◌then◌else◌, leb, ◌==◌, [], ◌∷◌, ◌++◌, arith, ◌&&◌,
}
use dbus_fronius.Sma.{
  om_watt, idle, read_power_limit, write_power_limit, processes, writes, Updater, Double, positive,
  negative, infinity, minus_infinity, nan, exceeds, to_quint16,
}
use dbus_fronius.Sma.Cases.{start_next_action, read_power_limit_case, sized}
use dbus_fronius.Sma.Handlers.{
  dispatch_read, on_read_completed, on_power_limit_requested, read_completed, power_limit_requested,
  handle, run,
}

-- What is to be written for a request at a maximal power of `most`: the whole part, at most
-- `most`, 0 between -1 and 0, and the open result of a cast for all that is below, and for NaN.
abbrev pub word_of : (Double → ℕ) → ℕ → Double → ℕ
word_of undefined most (positive whole part) = if leb whole most then whole else most
word_of undefined most (negative whole part) =
    if whole == 0 then 0 else undefined (negative whole part) % 65536
word_of undefined most infinity = most
word_of undefined most value = undefined value % 65536

to_quint16-word_of :
    (undefined : Double → ℕ) (most : ℕ) (value : Double)
    → most < 65536
    → to_quint16 undefined (if exceeds value most then positive most 0 else value)
      ≡ word_of undefined most value
to_quint16-word_of undefined most (positive whole part) small = ground arith
to_quint16-word_of undefined most (negative whole part) small = refl
to_quint16-word_of undefined most infinity small = ground arith
to_quint16-word_of undefined most minus_infinity small = refl
to_quint16-word_of undefined most nan small = refl

-- When an updater that is logged in and in watt mode, with a maximal power below 65536 watts, has
-- asked for the power limit, a limit is requested, and the two registers arrive: it passes on the
-- data and writes one word for the limit. The word is the whole part of a request between 0 and
-- the maximal power, the maximal power for one above, also for infinity, and 0 for one between -1
-- and 0. No request is refused: for -1 or less, for minus infinity and for NaN it is the word that
-- the compiled program makes of a cast that C++ leaves open.
pub run-word_of :
    (value : Double) (high low : ℕ) (u : Updater)
    → u.max_power < 65536
    → u.inverter.logged_in ≡ true
    → u.inverter.op_mode ≡ om_watt
    → u.current_state ≡ read_power_limit
    → let d = run (power_limit_requested value ∷ read_completed 0 (high ∷ low ∷ []) ∷ []) u in
      (d.log
        ≡ (u.log ++ processes u.inverter_data ∷ [])
          ++ writes 40212 (0 ∷ word_of u.undefined_cast u.max_power value ∷ []) ∷ [])
      × (d.current_state ≡ write_power_limit)
unfolding run handle on_read_completed dispatch_read sized read_power_limit_case
    on_power_limit_requested start_next_action
run-word_of value high low u small logged mode e =
    let limit = if exceeds value u.max_power then positive u.max_power 0 else value in
    let u1 = record u {
      inverter = record u.inverter { power_limit = low };
      power_limit_watt = limit;
      retry_count = 0;
      log = u.log ++ processes u.inverter_data ∷ [];
    } in
    let watt : u.inverter.logged_in && (u.inverter.op_mode == om_watt) ≡ true = ground arith in
    let next =
      ap (λ (b : Bool). start_next_action (if b then write_power_limit else idle) u1) watt in
    rw e (
      ap (λ (d : Updater). d.log) next
          ∙ ap (λ (w : ℕ). u1.log ++ writes 40212 (0 ∷ w ∷ []) ∷ [])
              (to_quint16-word_of u.undefined_cast u.max_power value small),
      ap (λ (d : Updater). d.current_state) next,
    )
