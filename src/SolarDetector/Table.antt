-- ===== src/SolarDetector/Table.antt =====
-- solar_api_detector.cpp: the hash of the SunSpec detections, as a detection ends.
use dbus_fronius.Base.{
  ℕ, ◌≡◌, refl, sym, ◌∙◌, ap, true, false, not, ◌&&◌, ◌||◌, ◌==◌, inl, inr, Bool-cases, none, some,
  List, [], ◌∷◌, if_both, AllValues, arith,
}
use dbus_fronius.SolarDetector.{ReplyToInverter, entry, without, mark, is_pending}

-- No entry has its device yet.
abbrev pub AreNew : List (ℕ × ReplyToInverter) → Type 0
AreNew table = AllValues (λ e. e.device_found ≡ false) table

pub entry-AreNew :
    (k : ℕ) (table : List (ℕ × ReplyToInverter)) (e : ReplyToInverter)
    → AreNew table
    → entry k table ≡ some e
    → e.device_found ≡ false
unfolding entry
entry-AreNew k [] e n h = cc
entry-AreNew k ((j, f) ∷ table) e n h = elim (Bool-cases (j == k)) [
  | inl t ↦
      let same : f ≡ e = cc (rw t at h) in
      ap (λ (x : ReplyToInverter). x.device_found) (sym same) ∙ n.0
  | inr t ↦ entry-AreNew k table e n.1 (rw t at h)
]

pub without-AreNew :
    (k : ℕ) (table : List (ℕ × ReplyToInverter)) → AreNew table → AreNew (without k table)
unfolding without
without-AreNew k [] n = n
without-AreNew k ((j, f) ∷ table) n = if_both AreNew (j == k) n.1 (n.0, without-AreNew k table n.1)

pub is_pending-without :
    (k r : ℕ) (table : List (ℕ × ReplyToInverter)) (e : ReplyToInverter)
    → entry k table ≡ some e
    → is_pending r table ≡ ((e.reply == r && not e.device_found) || is_pending r (without k table))
unfolding entry without is_pending
is_pending-without k r [] e h = cc
is_pending-without k r ((j, f) ∷ table) e h = elim (Bool-cases (j == k)) [
  | inl t ↦
      let same : f ≡ e = cc (rw t at h) in
      rw t (
        ap (λ (x : ReplyToInverter). (x.reply == r && not x.device_found) || is_pending r table)
          same)
  | inr t ↦ let rest = is_pending-without k r table e (rw t at h) in rw (t, rest) (ground arith)
]

pub entry-mark :
    (k : ℕ) (table : List (ℕ × ReplyToInverter)) (e : ReplyToInverter)
    → entry k table ≡ some e
    → entry k (mark k table) ≡ some (record e { device_found = true })
unfolding entry mark
entry-mark k [] e h = cc
entry-mark k ((j, f) ∷ table) e h = elim (Bool-cases (j == k)) [
  | inl t ↦
      let same : f ≡ e = cc (rw t at h) in
      rw (t, t) (ap (λ (x : ReplyToInverter). some (record x { device_found = true })) same)
  | inr t ↦ rw (t, t) (entry-mark k table e (rw t at h))
]

pub without-mark :
    (k : ℕ) (table : List (ℕ × ReplyToInverter)) → without k (mark k table) ≡ without k table
unfolding without mark
without-mark k [] = refl
without-mark k ((j, f) ∷ table) = elim (Bool-cases (j == k)) [
  | inl t ↦ rw (t, t) refl
  | inr t ↦ rw (t, t) (ap (λ m. (j, f) ∷ m) (without-mark k table))
]

pub without-none :
    (k : ℕ) (table : List (ℕ × ReplyToInverter)) → entry k table ≡ none → without k table ≡ table
unfolding entry without
without-none k [] h = refl
without-none k ((j, f) ∷ table) h = elim (Bool-cases (j == k)) [
  | inl t ↦ cc (rw t at h)
  | inr t ↦ rw t (ap (λ m. (j, f) ∷ m) (without-none k table (rw t at h)))
]
