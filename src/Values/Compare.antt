-- ===== src/Values/Compare.antt =====
-- common/common.h: the comparisons of `Value`. A `float` and its two tests are parameters; a date and
-- time is its 64 bits as an unsigned number, as its order compares it.
use cscc_db.Base.{
  ℕ, ◌≡◌, refl, ◌≢◌, ◌⊎◌, Bool, true, false, List, [], ◌∷◌, ltb, ◌==◌, if◌then◌else◌, arith, ℤ, pos,
  negsuc, ◌==ℤ◌, ltb_ℤ,
}
use cscc_db.Values.{ColType, type_int, type_bigint, type_float, type_string, type_datetime}

-- `std::string`'s `==` and `<`.
unfoldable pub string_equal : List ℕ → List ℕ → Bool
string_equal [] [] = true
string_equal [] (d ∷ ds) = false
string_equal (c ∷ cs) [] = false
string_equal (c ∷ cs) (d ∷ ds) = let rest = string_equal cs ds in if c == d then rest else false

unfoldable pub string_less : List ℕ → List ℕ → Bool
string_less [] [] = false
string_less [] (d ∷ ds) = true
string_less (c ∷ cs) [] = false
string_less (c ∷ cs) (d ∷ ds) = let rest = string_less cs ds in if c == d then rest else ltb c d

pub data Value (F : Type 0) : Type 0 where
  int_val : ℤ → Value F
  bigint_val : ℤ → Value F
  float_val : F → Value F
  str_val : List ℕ → Value F
  datetime_val : ℕ → Value F

module _ {F : Type 0} (float_equal float_less : F → F → Bool) where
  -- `operator==`: false on two types.
  unfoldable pub value_equal : Value F → Value F → Bool
  value_equal (int_val a) (int_val b) = a ==ℤ b
  value_equal (bigint_val a) (bigint_val b) = a ==ℤ b
  value_equal (float_val a) (float_val b) = float_equal a b
  value_equal (str_val a) (str_val b) = string_equal a b
  value_equal (datetime_val a) (datetime_val b) = a == b
  value_equal _ _ = false

  -- `operator<`: false on two types.
  unfoldable pub value_less : Value F → Value F → Bool
  value_less (int_val a) (int_val b) = ltb_ℤ a b
  value_less (bigint_val a) (bigint_val b) = ltb_ℤ a b
  value_less (float_val a) (float_val b) = float_less a b
  value_less (str_val a) (str_val b) = string_less a b
  value_less (datetime_val a) (datetime_val b) = ltb a b
  value_less _ _ = false

  -- `operator>`: false on two types.
  unfoldable pub value_greater : Value F → Value F → Bool
  value_greater (int_val a) (int_val b) = ltb_ℤ b a
  value_greater (bigint_val a) (bigint_val b) = ltb_ℤ b a
  value_greater (float_val a) (float_val b) = float_less b a
  value_greater (str_val a) (str_val b) = string_less b a
  value_greater (datetime_val a) (datetime_val b) = ltb b a
  value_greater _ _ = false

-- Exactly one of three tests holds.
abbrev pub OneOf : Bool → Bool → Bool → Type 0
OneOf a b c =
    ((a ≡ true) × (b ≡ false) × (c ≡ false))
    ⊎ ((a ≡ false) × (b ≡ true) × (c ≡ false))
    ⊎ ((a ≡ false) × (b ≡ false) × (c ≡ true))

number_OneOf : (a b : ℕ) → OneOf (ltb a b) (a == b) (ltb b a)
number_OneOf a b = ground arith

integer_OneOf : (a b : ℤ) → OneOf (ltb_ℤ a b) (a ==ℤ b) (ltb_ℤ b a)
unfolding ltb_ℤ ◌==ℤ◌
integer_OneOf (pos a) (pos b) = ground arith
integer_OneOf (pos a) (negsuc b) = ground arith
integer_OneOf (negsuc a) (pos b) = ground arith
integer_OneOf (negsuc a) (negsuc b) = ground arith

string_OneOf : (a b : List ℕ) → OneOf (string_less a b) (string_equal a b) (string_less b a)
unfolding string_less string_equal
string_OneOf [] [] = ground arith
string_OneOf [] (d ∷ ds) = ground arith
string_OneOf (c ∷ cs) [] = ground arith
string_OneOf (c ∷ cs) (d ∷ ds) = ground (arith, string_OneOf cs ds)

abbrev pub type_of : {F : Type 0} → Value F → ColType
type_of (int_val a) = type_int
type_of (bigint_val a) = type_bigint
type_of (float_val a) = type_float
type_of (str_val a) = type_string
type_of (datetime_val a) = type_datetime

-- Of two values of one type other than FLOAT, exactly one of `<`, `==` and `>` holds.
pub Value_OneOf :
    {F : Type 0} (float_equal float_less : F → F → Bool) (x y : Value F)
    → type_of x ≢ type_float
    → type_of x ≡ type_of y
    → OneOf
        (value_less float_equal float_less x y)
        (value_equal float_equal float_less x y)
        (value_greater float_equal float_less x y)
unfolding value_less value_equal value_greater
Value_OneOf fe fl (int_val a) (int_val b) h e = integer_OneOf a b
Value_OneOf fe fl (int_val a) (bigint_val b) h e = ground arith
Value_OneOf fe fl (int_val a) (float_val b) h e = ground arith
Value_OneOf fe fl (int_val a) (str_val b) h e = ground arith
Value_OneOf fe fl (int_val a) (datetime_val b) h e = ground arith
Value_OneOf fe fl (bigint_val a) (int_val b) h e = ground arith
Value_OneOf fe fl (bigint_val a) (bigint_val b) h e = integer_OneOf a b
Value_OneOf fe fl (bigint_val a) (float_val b) h e = ground arith
Value_OneOf fe fl (bigint_val a) (str_val b) h e = ground arith
Value_OneOf fe fl (bigint_val a) (datetime_val b) h e = ground arith
Value_OneOf fe fl (float_val a) (int_val b) h e = ground arith
Value_OneOf fe fl (float_val a) (bigint_val b) h e = ground arith
Value_OneOf fe fl (float_val a) (float_val b) h e = absurd (h refl)
Value_OneOf fe fl (float_val a) (str_val b) h e = ground arith
Value_OneOf fe fl (float_val a) (datetime_val b) h e = ground arith
Value_OneOf fe fl (str_val a) (int_val b) h e = ground arith
Value_OneOf fe fl (str_val a) (bigint_val b) h e = ground arith
Value_OneOf fe fl (str_val a) (float_val b) h e = ground arith
Value_OneOf fe fl (str_val a) (str_val b) h e = string_OneOf a b
Value_OneOf fe fl (str_val a) (datetime_val b) h e = ground arith
Value_OneOf fe fl (datetime_val a) (int_val b) h e = ground arith
Value_OneOf fe fl (datetime_val a) (bigint_val b) h e = ground arith
Value_OneOf fe fl (datetime_val a) (float_val b) h e = ground arith
Value_OneOf fe fl (datetime_val a) (str_val b) h e = ground arith
Value_OneOf fe fl (datetime_val a) (datetime_val b) h e = number_OneOf a b
