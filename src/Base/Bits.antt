-- ===== src/Base/Bits.antt =====
-- Laws of the exclusive or: over bytes by evaluation, and for a byte in the low end of a word.
use Prim.Native.Nat.{differ, digits, bit_xor-bitwise}
use native.Mathlib.Nat.{pow-suc}
use Prim.Native.Nat.{ℕ, zero, suc, ◌+◌, ◌*◌, ◌/◌, ◌%◌, ◌^◌, ◌≤◌, ◌<◌, bit_xor}
use mathlib.Core.Path.{◌≡◌, refl, ap}
use mathlib.Core.Bool.{Bool, true, ◌&&◌}
use native.Mathlib.Omega.{arith}
use dbus_fronius.Base.Tests.{ltb, ◌==◌, all_below, all_below_sound}

xor_row : ℕ → ℕ → Bool
xor_row a b =
    ltb (bit_xor a b) 256
    && (bit_xor (bit_xor a b) b == a)
    && (bit_xor a (bit_xor a b) == b)
    && (bit_xor b b == 0)
    && (bit_xor 0 b == b)
    && (bit_xor b 0 == b)

xor_rows : all_below 256 (λ a. all_below 256 (xor_row a)) ≡ true
unfolding all_below xor_row
xor_rows = refl

xor_row_holds : (a b : ℕ) → a < 256 → b < 256 → xor_row a b ≡ true
xor_row_holds a b p q =
    all_below_sound 256 (xor_row a) b
      (all_below_sound 256 (λ a. all_below 256 (xor_row a)) a xor_rows p) q

-- The exclusive or of two bytes is a byte, and either byte comes back from it by the other.
pub bit_xor_bytes :
    (a b : ℕ)
    → a < 256
    → b < 256
    → (bit_xor a b < 256)
      × (bit_xor (bit_xor a b) b ≡ a)
      × (bit_xor a (bit_xor a b) ≡ b)
      × (bit_xor b b ≡ 0)
      × (bit_xor 0 b ≡ b)
      × (bit_xor b 0 ≡ b)
unfolding xor_row
bit_xor_bytes a b p q = ground (arith, xor_row_holds a b p q)

abbrev xor_digits : ℕ → ℕ → ℕ → ℕ
xor_digits n a b = digits (λ y. y) differ n a b

xor_digits_fuel : (n m a b : ℕ) → a ≤ n → a ≤ m → xor_digits n a b ≡ xor_digits m a b
xor_digits_fuel zero zero a b p q = refl
xor_digits_fuel zero (suc m) zero b p q = refl
xor_digits_fuel zero (suc m) (suc a) b p q = absurd (omega arith)
xor_digits_fuel (suc n) zero zero b p q = refl
xor_digits_fuel (suc n) zero (suc a) b p q = absurd (omega arith)
xor_digits_fuel (suc n) (suc m) zero b p q = refl
xor_digits_fuel (suc n) (suc m) (suc a) b p q =
    rw (xor_digits_fuel n m (suc a / 2) (b / 2) (omega arith) (omega arith))

zero-bit_xor : (b : ℕ) → bit_xor 0 b ≡ b
zero-bit_xor b = bit_xor-bitwise 0 b

differ-zero : (a : ℕ) → differ 0 a ≡ a
differ-zero a = refl

zero-differ : (a : ℕ) → differ a 0 ≡ a
zero-differ zero = refl
zero-differ (suc a) = refl

-- The digit recursion without its fuel.
bit_xor_step : (a b : ℕ) → bit_xor a b ≡ bit_xor (a / 2) (b / 2) * 2 + differ (a % 2) (b % 2)
bit_xor_step zero b = omega (arith, zero-bit_xor b, zero-bit_xor (b / 2))
bit_xor_step (suc a) b = omega (
  arith,
  bit_xor-bitwise (suc a) b,
  bit_xor-bitwise (suc a / 2) (b / 2),
  xor_digits_fuel a (suc a / 2) (suc a / 2) (b / 2) (omega arith) (omega arith),
)

bit_xor-zero : (k q : ℕ) → q ≤ k → bit_xor q 0 ≡ q
bit_xor-zero k zero h = refl
bit_xor-zero zero (suc q) h = absurd (omega arith)
bit_xor-zero (suc k) (suc q) h = omega (
  arith,
  bit_xor_step (suc q) 0,
  bit_xor-zero k (suc q / 2) (omega arith),
  zero-differ (suc q % 2),
)

halved : (q k : ℕ) → q * 2 ^ suc k ≡ 2 * (q * 2 ^ k)
halved q k = omega (arith, ap (λ (t : ℕ). q * t) (pow-suc 2 k))

-- What stands above the low `k` bits stays when these are combined.
bit_xor_fields :
    (k q r b : ℕ) → r < 2 ^ k → b < 2 ^ k → bit_xor (q * 2 ^ k + r) b ≡ q * 2 ^ k + bit_xor r b
bit_xor_fields zero q r b p h = ground (arith, bit_xor-zero q q (omega arith))
bit_xor_fields (suc k) q r b p h = ground (
  arith,
  pow-suc 2 k,
  halved q k,
  bit_xor_step (q * 2 ^ suc k + r) b,
  bit_xor_step r b,
  bit_xor_fields k q (r / 2) (b / 2) (omega arith) (omega arith),
)

pub bit_xor_low_byte :
    (q r b : ℕ) → r < 256 → b < 256 → bit_xor (q * 256 + r) b ≡ q * 256 + bit_xor r b
bit_xor_low_byte q r b p h = bit_xor_fields 8 q r b p h
