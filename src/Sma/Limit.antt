-- ===== src/Sma/Limit.antt =====
-- What sma_updater.cpp writes to the inverter, over any history.
use dbus_fronius.Base.{
  ℕ, ◌+◌, ◌/◌, ◌%◌, ◌≤◌, ◌<◌, ◌≡◌, ◌⊎◌, refl, true, false, none, List, [], ◌∷◌, ◌++◌, arith, All,
  ltb, ◌==◌, if_both, Bool, subst, if◌then◌else◌, length, inl, inr,
}
use dbus_fronius.Sma.{
  om_watt, ModbusState, check_condition, check_state, check_login, do_login, check_op_mode,
  set_op_mode, read_power_yield, read_ac_frequency, read_ac_current, read_ac_power_and_voltage,
  read_temperature, read_pv_data1, read_pv_data2, read_power_limit, write_power_limit, error, idle,
  Action, writes, processes, connection_lost, reconnects, Updater, Double, positive, negative,
  infinity, minus_infinity, nan, exceeds, to_quint16,
}
use dbus_fronius.Sma.Cases.{
  emit, is_idle, get_double_ulong, start_next_action, start_idle_timer, handle_error,
  check_condition_case, check_state_case, check_login_case, check_op_mode_case,
  read_power_yield_case, read_ac_frequency_case, read_ac_current_case,
  read_ac_power_and_voltage_case, read_temperature_case, read_pv_data1_case, read_pv_data2_case,
  read_power_limit_case, sized,
}
use dbus_fronius.Sma.Handlers.{
  dispatch_read, on_read_completed, on_write_completed, after_write, on_power_limit_requested,
  on_connected, on_disconnected, on_timer, Event, read_completed, write_completed, connected,
  disconnected, power_limit_requested, timer_fired, handle, run,
}

-- A double that is more than -1, so that its cast to `quint16` is defined or the bound replaces it.
abbrev pub is_watts : Double → Bool
is_watts (positive whole part) = true
is_watts (negative whole part) = whole == 0
is_watts infinity = true
is_watts _ = false

-- A request for a limit asks for such a double.
abbrev pub AsksWatts : Event → Type 0
AsksWatts (power_limit_requested value) = is_watts value ≡ true
AsksWatts _ = Unit

-- A write logs in with the grid code, chooses the mode in which a limit in watts is obeyed, or sets
-- a limit of at most `most` watts.
abbrev pub IsAllowed : ℕ → ℕ → Action → Type 0
IsAllowed code most (writes start values) =
    ((start ≡ 43090) × (values ≡ code / 65536 % 65536 ∷ code % 65536 ∷ []))
    ⊎ ((start ≡ 40210) × (values ≡ 0 ∷ 1077 ∷ []))
    ⊎ ((start ≡ 40212) × ((watt : ℕ) × (values ≡ 0 ∷ watt ∷ []) × (watt ≤ most)))
IsAllowed code most _ = Unit

-- `Steady` is what the handlers keep in every state. In the state that writes a limit the updater
-- is logged in, and the inverter is in the mode in which it obeys a limit in watts.
abbrev pub Steady : ℕ → ℕ → Updater → Type 0
Steady code most u =
    (u.inverter.grid_code ≡ code)
    × (u.max_power ≡ most)
    × ((is_watts u.power_limit_watt ≡ true) × (exceeds u.power_limit_watt most ≡ false))
    × (u.write_count ≤ 3)
    × All (IsAllowed code most) u.log

abbrev pub Ready : ModbusState → Updater → Type 0
Ready s u = s ≡ write_power_limit → (u.inverter.logged_in ≡ true) × (u.inverter.op_mode ≡ om_watt)

pub record IsSafe (code most : ℕ) (u : Updater) : Type 0 where
  pub steady : Steady code most u
  pub ready : Ready u.current_state u

-- The cast of a limit that the bound lets pass.
to_quint16-bound :
    (undefined : Double → ℕ) (limit : Double) (most : ℕ)
    → most < 65536
    → is_watts limit ≡ true
    → exceeds limit most ≡ false
    → to_quint16 undefined limit ≤ most
to_quint16-bound undefined (positive whole part) most small w e = ground arith
to_quint16-bound undefined (negative whole part) most small w e = ground arith
to_quint16-bound undefined infinity most small w e = cc
to_quint16-bound undefined minus_infinity most small w e = cc
to_quint16-bound undefined nan most small w e = cc

-- The limit that a request leaves behind.
bounded :
    (value : Double) (most : ℕ)
    → is_watts value ≡ true
    → let limit = if exceeds value most then positive most 0 else value in
      (is_watts limit ≡ true) × (exceeds limit most ≡ false)
bounded value most w = ground arith

module _ (code most : ℕ) where
  abbrev Keeps : Updater × ModbusState → Type 0
  Keeps r = Steady code most r.0 × Ready r.1 r.0

  All-append :
      (l : List Action) (a : Action)
      → All (IsAllowed code most) l
      → IsAllowed code most a
      → All (IsAllowed code most) (l ++ a ∷ [])
  All-append [] a h e = (e, tt)
  All-append (x ∷ l) a h e = (h.0, All-append l a h.1 e)

  sized-Keeps :
      (n : ℕ) (case : List ℕ → Updater → Updater × ModbusState) (values : List ℕ) (u : Updater)
      → Steady code most u
      → Keeps (case values u)
      → Keeps (sized n case values u)
  unfolding sized
  sized-Keeps n case values u s h = if_both Keeps (length values == n) h (s, λ e. cc)

  check_condition-Keeps :
      (values : List ℕ) (u : Updater) → Steady code most u → Keeps (check_condition_case values u)
  unfolding check_condition_case
  check_condition-Keeps values u s = ground arith

  check_state-Keeps :
      (values : List ℕ) (u : Updater) → Steady code most u → Keeps (check_state_case values u)
  unfolding check_state_case
  check_state-Keeps values u s = ground arith

  check_login-Keeps :
      (values : List ℕ) (u : Updater) → Steady code most u → Keeps (check_login_case values u)
  unfolding check_login_case
  check_login-Keeps values u s = ground arith

  check_op_mode-Keeps :
      (values : List ℕ) (u : Updater) → Steady code most u → Keeps (check_op_mode_case values u)
  unfolding check_op_mode_case
  check_op_mode-Keeps values u s = ground arith

  read_power_yield-Keeps :
      (values : List ℕ) (u : Updater) → Steady code most u → Keeps (read_power_yield_case values u)
  unfolding read_power_yield_case
  read_power_yield-Keeps values u s =
      let d = record u.inverter_data {
        total_energy = get_double_ulong values 0;
        day_energy = get_double_ulong values 4;
      } in
      let logged = All-append u.log (processes d) s.4 tt in ground arith

  read_power_limit-Keeps :
      (values : List ℕ) (u : Updater) → Steady code most u → Keeps (read_power_limit_case values u)
  unfolding read_power_limit_case
  read_power_limit-Keeps values u s =
      let logged = All-append u.log (processes u.inverter_data) s.4 tt in ground arith

  dispatch_read-Keeps :
      (state : ModbusState) (values : List ℕ) (u : Updater)
      → Steady code most u
      → Keeps (dispatch_read state values u)
  unfolding dispatch_read read_ac_frequency_case read_ac_current_case read_ac_power_and_voltage_case
      read_temperature_case read_pv_data1_case read_pv_data2_case
  dispatch_read-Keeps check_condition values u s =
      sized-Keeps 2 check_condition_case values u s (check_condition-Keeps values u s)
  dispatch_read-Keeps check_state values u s =
      sized-Keeps 2 check_state_case values u s (check_state-Keeps values u s)
  dispatch_read-Keeps check_login values u s =
      sized-Keeps 2 check_login_case values u s (check_login-Keeps values u s)
  dispatch_read-Keeps check_op_mode values u s =
      sized-Keeps 2 check_op_mode_case values u s (check_op_mode-Keeps values u s)
  dispatch_read-Keeps read_power_yield values u s =
      sized-Keeps 8 read_power_yield_case values u s (read_power_yield-Keeps values u s)
  dispatch_read-Keeps read_power_limit values u s =
      sized-Keeps 2 read_power_limit_case values u s (read_power_limit-Keeps values u s)
  dispatch_read-Keeps read_ac_frequency values u s =
      sized-Keeps 2 read_ac_frequency_case values u s (s, λ e. cc)
  dispatch_read-Keeps read_ac_current values u s =
      sized-Keeps 2 read_ac_current_case values u s (s, λ e. cc)
  dispatch_read-Keeps read_ac_power_and_voltage values u s =
      sized-Keeps 10 read_ac_power_and_voltage_case values u s (s, λ e. cc)
  dispatch_read-Keeps read_temperature values u s =
      sized-Keeps 2 read_temperature_case values u s (s, λ e. cc)
  dispatch_read-Keeps read_pv_data1 values u s =
      sized-Keeps 6 read_pv_data1_case values u s (s, λ e. cc)
  dispatch_read-Keeps read_pv_data2 values u s =
      sized-Keeps 6 read_pv_data2_case values u s (s, λ e. cc)
  dispatch_read-Keeps _ values u s = (s, λ e. cc)

  -- An action that the protocol allows, on entering a state that is ready for it.
  emit-IsSafe :
      (state : ModbusState) (a : Action) (u : Updater)
      → Steady code most u
      → Ready state u
      → IsAllowed code most a
      → IsSafe code most (emit a (record u { current_state = state }))
  emit-IsSafe state a u s r ok = record {
    steady = (s.0, s.1, s.2, s.3, All-append u.log a s.4 ok);
    ready = r;
  }

  start_next_action-IsSafe :
      (state : ModbusState) (u : Updater)
      → most < 65536
      → Steady code most u
      → Ready state u
      → IsSafe code most (start_next_action state u)
  unfolding start_next_action
  start_next_action-IsSafe do_login u small s r = emit-IsSafe do_login _ u s r (inl (refl, rw s.0))
  start_next_action-IsSafe set_op_mode u small s r =
      emit-IsSafe set_op_mode _ u s r (inr (inl (refl, refl)))
  start_next_action-IsSafe write_power_limit u small s r = emit-IsSafe write_power_limit _ u s r (
      inr (
        inr (
          refl,
          (
            to_quint16 u.undefined_cast u.power_limit_watt,
            refl,
            to_quint16-bound u.undefined_cast u.power_limit_watt most small s.2.0 s.2.1,
          ),
        )))
  start_next_action-IsSafe idle u small s r = record { steady = s; ready = λ e. cc }
  start_next_action-IsSafe error u small s r = record {
    steady = (ground arith, s.1, s.2, s.3, s.4);
    ready = λ e. cc;
  }
  start_next_action-IsSafe _ u small s r = emit-IsSafe _ _ u s r tt

  handle_error-IsSafe : (u : Updater) → IsSafe code most u → IsSafe code most (handle_error u)
  unfolding handle_error
  handle_error-IsSafe u v =
      let s = v.steady in
      if_both {X = Updater} (λ w. IsSafe code most (start_idle_timer w)) (ltb 5 (u.retry_count + 1))
        (record {
          steady = (s.0, s.1, s.2, s.3, All-append u.log connection_lost s.4 tt);
          ready = v.ready;
        })
        (record { steady = s; ready = v.ready })

  after_write-Ready : (s : ModbusState) (u : Updater) → Ready (after_write s) u
  after_write-Ready do_login u = λ e. cc
  after_write-Ready _ u = λ e. cc

  handle-IsSafe :
      (e : Event) (u : Updater)
      → most < 65536
      → AsksWatts e
      → IsSafe code most u
      → IsSafe code most (handle e u)
  unfolding handle on_read_completed on_write_completed on_power_limit_requested on_connected
      on_disconnected on_timer
  handle-IsSafe (read_completed failure values) u small asks v =
      let r = dispatch_read-Keeps u.current_state values (record u { retry_count = 0 }) v.steady in
      if_both (IsSafe code most) (failure == 0) (start_next_action-IsSafe _ _ small r.0 r.1)
        (handle_error-IsSafe u v)
  handle-IsSafe write_completed u small asks v =
      start_next_action-IsSafe _ (record u { write_power_limit_requested = false }) small v.steady
        (after_write-Ready u.current_state u)
  handle-IsSafe connected u small asks v =
      start_next_action-IsSafe check_condition u small v.steady (λ e. cc)
  handle-IsSafe disconnected u small asks v =
      handle_error-IsSafe (record u { current_state = check_condition })
        (record { steady = v.steady; ready = λ e. cc })
  handle-IsSafe (power_limit_requested value) u small asks v =
      let s = v.steady in
      let b = bounded value u.max_power asks in
      record {
        steady = (
          s.0,
          s.1,
          (
            b.0,
            subst
                (λ m.
                  exceeds (if exceeds value u.max_power then positive u.max_power 0 else value) m
                  ≡ false)
                s.1 b.1,
          ),
          s.3,
          s.4,
        );
        ready = v.ready;
      }
  handle-IsSafe (timer_fired up) u small asks v =
      if_both (IsSafe code most) up
        (start_next_action-IsSafe _ (record u { timer = none }) small v.steady
          (if_both (λ s. Ready s u) (is_idle u.current_state) (λ e. cc) v.ready))
        (let s = v.steady in
          record {
            steady = (s.0, s.1, s.2, s.3, All-append u.log reconnects s.4 tt);
            ready = v.ready;
          })

  -- Let the grid code be `code` and the maximal power be `most` < 65536 watts at the start, the
  -- limit to write more than -1 and at most `most`, at most three attempts be counted, every write
  -- so far be allowed, and the updater be logged in and in watt mode if it is about to write a
  -- limit. All of this holds again after every history in which each limit requested is a double
  -- of more than -1, so not NaN: each write logs in with the grid code, chooses the watt
  -- mode, or sets a limit of at most `most` watts, and the state that writes the limit is entered
  -- only when the inverter has last reported the login and the watt mode.
  pub run-IsSafe :
      (es : List Event) (u : Updater)
      → most < 65536
      → All AsksWatts es
      → IsSafe code most u
      → IsSafe code most (run es u)
  unfolding run
  run-IsSafe [] u small asks v = v
  run-IsSafe (e ∷ es) u small asks v =
      run-IsSafe es (handle e u) small asks.1 (handle-IsSafe e u small asks.0 v)
