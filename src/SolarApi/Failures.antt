-- ===== src/SolarApi/Failures.antt =====
-- solar_api_updater.cpp: how many failures in a row are a lost connection.
use Prim.Native.String.{String}
use dbus_fronius.Base.{
  ℕ, suc, ◌+◌, ◌-◌, ◌*◌, ◌/◌, ◌%◌, ◌<◌, ◌≡◌, refl, sym, ap, subst, Bool, true, false, ◌==◌, Option,
  some, List, [], ◌∷◌, if◌then◌else◌, arith, length, All,
}
use dbus_fronius.SolarApi.{Json, Error, network_error, CommonInverterData, is_empty}
use dbus_fronius.SolarApi.Client.{
  RequestType, get_common_data, process_request_for, process_request, on_done,
  get_common_data_async, send_get_request,
}
use dbus_fronius.SolarApi.Updater.{
  emits_connection_lost, act, SolarApiUpdater, done, retrieval_timer, on_start_retrieval,
  schedule_retrieval, handle_error, on_common_data_for, on_common_data_found, on_signal, with_api,
  handle,
}
use dbus_fronius.SolarApi.Losses.{occurrences, occurrences-act, is_loss}
use dbus_fronius.SolarApi.Resume.{failure-error}

module _ {D : Type 0} where
  abbrev pub losses : SolarApiUpdater D → ℕ
  losses u = occurrences is_loss u.log

  -- `n` failures are counted, five for each lost connection and those since, and so many retrievals
  -- are due.
  data IsCounted (n due : ℕ) (u : SolarApiUpdater D) : Type 0 where
    counted :
        5 * losses u + u.retry_count ≡ n
        → u.retry_count < 5
        → u.retrievals ≡ due
        → IsCounted n due u

  lost_if-IsCounted :
      (n due : ℕ) (b : Bool) (u : SolarApiUpdater D)
      → (suc u.retry_count == 5) ≡ b
      → IsCounted n due u
      → IsCounted (suc n) due (
          if b
          then act emits_connection_lost (record u { retry_count = 0 })
          else record u { retry_count = suc u.retry_count })
  lost_if-IsCounted n due true u e (counted p r z) =
      let five : suc u.retry_count ≡ 5 = ground (arith, e) in
      counted (omega (arith, p, five, occurrences-act is_loss u.log emits_connection_lost))
        (omega arith) z
  lost_if-IsCounted n due false u e (counted p r z) =
      counted (omega (arith, p)) (ground (arith, r, e)) z

  schedule_retrieval-IsCounted :
      (n due : ℕ) (u : SolarApiUpdater D)
      → IsCounted n due u
      → IsCounted n (suc due) (schedule_retrieval u)
  unfolding schedule_retrieval
  schedule_retrieval-IsCounted n due u (counted p r z) = counted p r (ap suc z)

  on_common_data_found-IsCounted :
      (n due : ℕ) (d : CommonInverterData D) (u : SolarApiUpdater D)
      → d.reply.error ≡ network_error
      → IsCounted n due u
      → IsCounted (suc n) (suc due) (on_common_data_found d u)
  unfolding on_common_data_found schedule_retrieval handle_error
  on_common_data_found-IsCounted n due d u e p =
      subst (λ (x : Error). IsCounted (suc n) (suc due) (on_common_data_for x d u)) (sym e)
        (schedule_retrieval-IsCounted (suc n) due (handle_error u)
          (lost_if-IsCounted n due (suc u.retry_count == 5) u refl p))

  -- So many failures are counted, and a request for the common data is made.
  data IsAsking (n : ℕ) (u : SolarApiUpdater D) : Type 0 where
    asking : u.solar_api.request_type ≡ some get_common_data → IsCounted n 0 u → IsAsking n u

  counts :
      (before n : ℕ) (u : SolarApiUpdater D)
      → IsAsking (5 * before + n) u
      → (losses u ≡ before + n / 5) × (u.retry_count ≡ n % 5)
  counts before n u (asking a (counted s r z)) = (omega (arith, s, r), omega (arith, s, r))

module _ {V D : Type 0} (q : Json V D) where
  -- The request fails, and the time of the next one comes.
  abbrev pub failing : String → SolarApiUpdater D → SolarApiUpdater D
  failing text u = handle q retrieval_timer (handle q (done true text "") u)

  retrieval_timer-IsAsking :
      (n : ℕ) (u : SolarApiUpdater D) → IsCounted n 1 u → IsAsking n (handle q retrieval_timer u)
  unfolding handle on_start_retrieval get_common_data_async send_get_request
  retrieval_timer-IsAsking n u (counted s r z) =
      subst
        (λ (k : ℕ).
          IsAsking n (if k == 0 then u else on_start_retrieval (record u { retrievals = k - 1 })))
        (sym z) (asking refl (counted s r refl))

  done-IsCounted :
      (n : ℕ) (text : String) (u : SolarApiUpdater D)
      → is_empty text ≡ false
      → IsAsking n u
      → IsCounted (suc n) 1 (handle q (done true text "") u)
  unfolding handle on_done process_request on_signal
  done-IsCounted n text u filled (asking a (counted s r z)) =
      subst
        (λ (o : Option RequestType).
          IsCounted (suc n) 1 (with_api (process_request_for q o text "" u.solar_api) u))
        (sym a)
        (on_common_data_found-IsCounted n 0 _ _ (failure-error q text filled) (counted s r z))

  abbrev pub run_failing : List String → SolarApiUpdater D → SolarApiUpdater D
  run_failing [] u = u
  run_failing (text ∷ texts) u = run_failing texts (failing text u)

  run_failing-IsAsking :
      (texts : List String) (n : ℕ) (u : SolarApiUpdater D)
      → All (λ text. is_empty text ≡ false) texts
      → IsAsking n u
      → IsAsking (n + length texts) (run_failing texts u)
  run_failing-IsAsking [] n u h a = subst (λ k. IsAsking k u) (omega arith) a
  run_failing-IsAsking (text ∷ texts) n u h a =
      subst (λ k. IsAsking k (run_failing texts (failing text u))) (omega arith)
        (run_failing-IsAsking texts (suc n) (failing text u) h.1
          (retrieval_timer-IsAsking (suc n) _ (done-IsCounted n text u h.0 a)))

  -- An updater has asked for the common data and counts no failure. Then requests in a row fail, each
  -- followed by the time of the next one: each fifth failure, and no other, is a lost connection, and
  -- those since the last one stay counted.
  pub run_failing-losses :
      (texts : List String) (u : SolarApiUpdater D)
      → All (λ text. is_empty text ≡ false) texts
      → u.solar_api.request_type ≡ some get_common_data
      → u.retrievals ≡ 0
      → u.retry_count ≡ 0
      → (losses (run_failing texts u) ≡ losses u + length texts / 5)
        × ((run_failing texts u).retry_count ≡ length texts % 5)
  run_failing-losses texts u h a z r = counts (losses u) (length texts) (run_failing texts u) (
      run_failing-IsAsking texts (5 * losses u) u h
        (asking a (counted (omega (arith, r)) (omega (arith, r)) z)))
