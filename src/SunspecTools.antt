-- ===== src/SunspecTools.antt =====
-- software/src/sunspec_tools.cpp: the values in the registers of SunSpec. A double that is computed
-- from a register and a power of ten is kept as these two, before it is rounded.
use dbus_fronius.Base.{
  ℕ, zero, suc, ◌+◌, ◌-◌, ◌*◌, ◌/◌, ◌%◌, ◌^◌, Bool, true, Option, none, some, List, [], ◌∷◌, get_or,
  ltb, ◌==◌, ◌||◌, not, if◌then◌else◌,
}

pub data ℤ : Type 0 where
  pos negsuc : ℕ → ℤ

-- The cast of a `w`-bit number to a signed one.
abbrev pub to_signed : ℕ → ℕ → ℤ
to_signed w v = if ltb v (2 ^ (w - 1)) then pos v else negsuc (2 ^ w - 1 - v)

-- `scaled m e` stands for m * 10^e.
pub data Value : Type 0 where
  not_a_number : Value
  scaled : ℤ → ℤ → Value

-- The exponent, none for NaN. The registers that are read are there.
unfoldable pub get_scale : List ℕ → ℕ → Option ℤ
get_scale values offset =
    let v = get_or values offset 0 in if v == 0x8000 then none else some (to_signed 16 v)

-- qIsFinite of a power of ten: the greatest one of a double is 10^308.
unfoldable pub is_finite : ℤ → Bool
is_finite (pos e) = ltb e 309
is_finite (negsuc e) = true

-- The number before it is converted, of one register or of two, and the value that stands for none.
unfoldable pub raw_value : List ℕ → ℕ → ℕ → ℕ
raw_value values offset size =
    if size == 1
    then get_or values offset 0
    else get_or values offset 0 * 65536 + get_or values (offset + 1) 0

unfoldable pub absent_value : ℕ → Bool → ℕ
absent_value size signed = if signed then 2 ^ (16 * size - 1) else 2 ^ (16 * size) - 1

unfoldable pub scale_value : ℕ → ℕ → Bool → Option ℤ → Value
unfolding is_finite absent_value
scale_value v size signed none = not_a_number
scale_value v size signed (some e) =
    if not (is_finite e) || (v == absent_value size signed)
    then not_a_number
    else scaled (if signed then to_signed (16 * size) v else pos v) e

unfoldable pub get_scaled_value : List ℕ → ℕ → ℕ → ℕ → Bool → Value
unfolding get_scale raw_value scale_value
get_scaled_value values offset size scale_offset signed =
    scale_value (raw_value values offset size) size signed (get_scale values scale_offset)

-- A text without its zeros, as the codes of its characters.
abbrev add_char : ℕ → List ℕ → List ℕ
add_char c text = if c == 0 then text else c ∷ text

unfoldable pub get_string : List ℕ → ℕ → ℕ → List ℕ
get_string values offset zero = []
get_string values offset (suc size) =
    let v = get_or values offset 0 in
    add_char (v / 256) (add_char (v % 256) (get_string values (suc offset) size))
