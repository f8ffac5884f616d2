-- ===== src/SolarDetector/Ended.antt =====
-- solar_api_detector.cpp: the signals of one reply, in their order.
use dbus_fronius.Base.{
  ℕ, ◌≡◌, Bool, true, false, not, ◌&&◌, ◌||◌, ◌==◌, inl, inr, Bool-cases, List, [], ◌∷◌, ◌++◌,
  if◌then◌else◌, arith,
}
use dbus_fronius.SolarDetector.{Signal, found, finished}

module _ {D : Type 0} where
  -- A signal of the reply, and its end.
  abbrev pub is_of : ℕ → Signal D → Bool
  is_of r (found s info) = s == r
  is_of r (finished s) = s == r

  abbrev pub is_end : ℕ → Signal D → Bool
  is_end r (found s info) = false
  is_end r (finished s) = s == r

  unfoldable pub any_of : ℕ → List (Signal D) → Bool
  any_of r [] = false
  any_of r (s ∷ signals) = is_of r s || any_of r signals

  unfoldable pub is_ended : ℕ → List (Signal D) → Bool
  is_ended r [] = false
  is_ended r (s ∷ signals) = is_end r s || is_ended r signals

  -- After the end of the reply there is no signal of it, thus no second end.
  unfoldable pub is_orderly : ℕ → List (Signal D) → Bool
  unfolding any_of
  is_orderly r [] = true
  is_orderly r (s ∷ signals) = if is_end r s then not (any_of r signals) else is_orderly r signals

  any_of-append :
      (r : ℕ) (signals : List (Signal D)) (s : Signal D)
      → any_of r (signals ++ s ∷ []) ≡ (any_of r signals || is_of r s)
  unfolding any_of
  any_of-append r [] s = ground arith
  any_of-append r (t ∷ signals) s = ground (arith, any_of-append r signals s)

  pub is_ended-append :
      (r : ℕ) (signals : List (Signal D)) (s : Signal D)
      → is_ended r (signals ++ s ∷ []) ≡ (is_ended r signals || is_end r s)
  unfolding is_ended
  is_ended-append r [] s = ground arith
  is_ended-append r (t ∷ signals) s = ground (arith, is_ended-append r signals s)

  pub is_orderly-append :
      (r : ℕ) (signals : List (Signal D)) (s : Signal D)
      → is_orderly r signals ≡ true
      → (is_ended r signals && is_of r s) ≡ false
      → is_orderly r (signals ++ s ∷ []) ≡ true
  unfolding is_orderly is_ended any_of
  is_orderly-append r [] s o h = ground arith
  is_orderly-append r (t ∷ signals) s o h = elim (Bool-cases (is_end r t)) [
    | inl e ↦ ground (arith, any_of-append r signals s, e, o, h)
    | inr e ↦ rw e (is_orderly-append r signals s (rw e at o) (rw e at h))
  ]
