-- ===== src/Crc/Reference.antt =====
-- The CRC-16 of the Modbus standard, a bit at a time: the independent description of crc16.cpp.
use dbus_fronius.Base.{
  ℕ, zero, suc, ◌+◌, ◌*◌, ◌/◌, ◌%◌, ◌<◌, ◌≡◌, refl, sym, ap, ◌∙◌, ltb, List, [], ◌∷◌, Bool, true,
  ◌&&◌, arith, bit_xor, ◌==◌, ==_iff, if◌then◌else◌, all_below, all_below_sound,
}
use dbus_fronius.Crc.Table.{crc_lo_table, hi_entry, lo_entry}

-- One step of the shift register, with the reflected polynomial 0xA001.
unfoldable pub shift_bit : ℕ → ℕ
shift_bit r = if r % 2 == 1 then bit_xor (r / 2) 0xa001 else r / 2

unfoldable pub shift_bits : ℕ → ℕ → ℕ
unfolding shift_bit
shift_bits zero r = r
shift_bits (suc n) r = shift_bits n (shift_bit r)

-- The register after a byte.
unfoldable pub shift_byte : ℕ → ℕ → ℕ
shift_byte r b = shift_bits 8 (bit_xor r b)

-- The register after a list of bytes.
unfoldable pub shift_bytes : ℕ → List ℕ → ℕ
shift_bytes r [] = r
shift_bytes r (b ∷ bs) = shift_bytes (shift_byte r b) bs

table_row : ℕ → ℕ → Bool
table_row lo i = shift_bits 8 (lo * 256 + i) == lo_entry i * 256 + bit_xor lo (hi_entry i)

table_rows : all_below 256 (λ lo. all_below 256 (table_row lo)) ≡ true
unfolding all_below table_row shift_bits hi_entry lo_entry
table_rows = refl

-- A row of the two tables is eight steps of the register, whatever stands in its other byte.
pub shift_bits-table :
    (lo i : ℕ)
    → lo < 256
    → i < 256
    → shift_bits 8 (lo * 256 + i) ≡ lo_entry i * 256 + bit_xor lo (hi_entry i)
unfolding table_row
shift_bits-table lo i p q = (==_iff _ _).0 (
    all_below_sound 256 (table_row lo) i
      (all_below_sound 256 (λ lo. all_below 256 (table_row lo)) lo table_rows p) q)

-- The place of a value in a table.
find_index : ℕ → List ℕ → ℕ
find_index v [] = 0
find_index v (x ∷ xs) = if x == v then 0 else suc (find_index v xs)

entry_test : ℕ → Bool
entry_test i =
    ltb (lo_entry i) 256 && ltb (hi_entry i) 256 && (find_index (lo_entry i) crc_lo_table == i)

entry_tests : all_below 256 entry_test ≡ true
unfolding all_below entry_test find_index hi_entry lo_entry
entry_tests = refl

entry_holds : (i : ℕ) → i < 256 → entry_test i ≡ true
entry_holds i p = all_below_sound 256 entry_test i entry_tests p

pub table-bytes : (i : ℕ) → i < 256 → (lo_entry i < 256) × (hi_entry i < 256)
unfolding entry_test
table-bytes i p = ground (arith, entry_holds i p)

place : (i : ℕ) → i < 256 → find_index (lo_entry i) crc_lo_table ≡ i
unfolding entry_test
place i p = ground (arith, entry_holds i p)

-- The low table has no value twice.
pub lo_entry-injective : (i j : ℕ) → i < 256 → j < 256 → lo_entry i ≡ lo_entry j → i ≡ j
lo_entry-injective i j p q e = sym (place i p) ∙ ap (λ v. find_index v crc_lo_table) e ∙ place j q
