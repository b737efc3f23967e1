-- ===== src/Values.antt =====
-- common/common.h: the comparison of integer literals, the comparison of values and the conditions on
-- them, and calendar days. A string is the list of its characters' codes.
pub mod Laws
pub mod Compare
pub mod Tests
use cscc_db.Base.{
  ℕ, ◌%◌, Bool, true, false, not, ◌&&◌, ◌||◌, List, [], ◌∷◌, ltb, leb, ◌==◌, if◌then◌else◌, length,
  ℤ, ◌==ℤ◌, ltb_ℤ, Option, none, some,
}
use cscc_db.Index.{Sign, less, equal, greater, flip}

-- The loop over two strings of one length.
pub compare_digits : List ℕ → List ℕ → Sign
compare_digits [] ys = equal
compare_digits (x ∷ xs) [] = equal
compare_digits (x ∷ xs) (y ∷ ys) =
    let rest = compare_digits xs ys in if ltb y x then greater else (if ltb x y then less else rest)

pub compare_pos_int_string : List ℕ → List ℕ → Sign
compare_pos_int_string val1 val2 =
    if ltb (length val2) (length val1)
    then greater
    else (if ltb (length val1) (length val2) then less else compare_digits val1 val2)

-- The codes of '-' and '+'.
abbrev pub minus_code : ℕ
minus_code = 45

abbrev pub plus_code : ℕ
plus_code = 43

-- `val[0] == '+' ? val.substr(1) : val`.
abbrev pub drop_plus : ℕ → List ℕ → List ℕ
drop_plus c cs = if c == plus_code then cs else c ∷ cs

-- `none` is the failed assertion that neither string is empty.
pub compare_int_string : List ℕ → List ℕ → Option Sign
compare_int_string [] val2 = none
compare_int_string (c ∷ cs) [] = none
compare_int_string (c ∷ cs) (d ∷ ds) = some (
    if d == minus_code && not (c == minus_code)
    then greater
    else (if c == minus_code && not (d == minus_code)
        then less
        else (if c == minus_code && d == minus_code
            then flip (compare_pos_int_string cs ds)
            else compare_pos_int_string (drop_plus c cs) (drop_plus d ds))))

-- `Value::IsDayValid`.
pub is_day_valid : ℕ → ℕ → ℕ → Bool
is_day_valid year month day =
    if month == 4 || month == 6 || month == 9 || month == 11
    then leb day 30
    else (if month == 2
        then (if (year % 4 == 0 && not (year % 100 == 0)) || year % 400 == 0
            then leb day 29
            else leb day 28)
        else (if month == 1
              || month == 3
              || month == 5
              || month == 7
              || month == 8
              || month == 10
              || month == 12
            then leb day 31
            else false))

-- `enum ColType`.
pub data ColType : Type 0 where
  type_int type_float type_bigint type_string type_datetime : ColType

abbrev is_number : ColType → Bool
is_number type_int = true
is_number type_float = true
is_number type_bigint = true
is_number _ = false

pub type_compatible : ColType → ColType → Bool
type_compatible type1 type2 =
    if is_number type1 && is_number type2
    then true
    else not (is_number type1) && not (is_number type2)
