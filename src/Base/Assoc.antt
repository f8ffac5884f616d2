-- ===== src/Base/Assoc.antt =====
-- A QHash with number keys, as an association list in which a key stands once.
use mathlib.Core.Path.{◌≡◌, subst}
use mathlib.Core.Logic.{inl, inr}
use mathlib.Core.Option.{Option, none, some}
use mathlib.Core.List.{List, [], ◌∷◌}
use Prim.Native.Nat.{ℕ}
use native.Mathlib.Omega.{arith}
use dbus_fronius.Base.Tests.{◌==◌, if◌then◌else◌, if_both, Bool-cases}

module _ {ℓ} {V : Type ℓ} where
  unfoldable pub lookup : ℕ → List (ℕ × V) → Option V
  lookup k [] = none
  lookup k ((j, v) ∷ m) = if j == k then some v else lookup k m

  unfoldable pub erase : ℕ → List (ℕ × V) → List (ℕ × V)
  erase k [] = []
  erase k ((j, v) ∷ m) = if j == k then erase k m else (j, v) ∷ erase k m

  unfoldable pub insert : ℕ → V → List (ℕ × V) → List (ℕ × V)
  unfolding erase
  insert k v m = (k, v) ∷ erase k m

  pub lookup-erase :
      (k j : ℕ) (m : List (ℕ × V)) → lookup j (erase k m) ≡ (if k == j then none else lookup j m)
  unfolding lookup erase
  lookup-erase k j [] = ground arith
  lookup-erase k j ((i, v) ∷ m) = ground (arith, lookup-erase k j m)

  pub lookup-insert :
      (key other : ℕ) (new : V) (table : List (ℕ × V))
      → lookup other (insert key new table)
        ≡ (if key == other then some new else lookup other table)
  unfolding lookup insert
  lookup-insert key other new table = ground (arith, lookup-erase key other table)

-- Every value of the table satisfies `P`.
abbrev pub AllValues {ℓ κ} : {V : Type ℓ} → (V → Type κ) → List (ℕ × V) → Type κ
AllValues P [] = Unit
AllValues P (e ∷ m) = P e.1 × AllValues P m

module _ {ℓ κ} {V : Type ℓ} (P : V → Type κ) where
  pub AllValues-lookup :
      (k : ℕ) (m : List (ℕ × V)) (v : V) → AllValues P m → lookup k m ≡ some v → P v
  unfolding lookup
  AllValues-lookup k [] v h e = cc
  AllValues-lookup k ((j, w) ∷ m) v h e = elim (Bool-cases (j == k)) [
    | inl t ↦ let same : w ≡ v = cc (rw t at e) in subst P same h.0
    | inr f ↦ AllValues-lookup k m v h.1 (rw f at e)
  ]

  pub AllValues-erase : (k : ℕ) (m : List (ℕ × V)) → AllValues P m → AllValues P (erase k m)
  unfolding erase
  AllValues-erase k [] h = h
  AllValues-erase k ((j, w) ∷ m) h =
      if_both (AllValues P) (j == k) (AllValues-erase k m h.1) (h.0, AllValues-erase k m h.1)

pub AllValues-mono {ℓ κ} :
    {V : Type ℓ} (P Q : V → Type κ) (m : List (ℕ × V))
    → ((v : V) → P v → Q v)
    → AllValues P m
    → AllValues Q m
AllValues-mono P Q [] f h = h
AllValues-mono P Q (e ∷ m) f h = (f e.1 h.0, AllValues-mono P Q m f h.1)
