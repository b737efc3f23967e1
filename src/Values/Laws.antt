-- ===== src/Values/Laws.antt =====
-- common/common.h: laws of the comparisons and of calendar days.
use cscc_db.Base.{
  ℕ, ◌+◌, ◌-◌, ◌%◌, ◌≤◌, ◌≡◌, ◌↔◌, refl, Bool, true, not, ◌&&◌, ◌||◌, List, [], ◌∷◌, ltb, ◌==◌,
  if◌then◌else◌, length, arith, some,
}
use cscc_db.Index.{Sign, less, equal, greater, flip}
use cscc_db.Values.{
  compare_digits, compare_pos_int_string, compare_int_string, drop_plus, is_day_valid,
}

flip-flip : (a : Sign) → flip (flip a) ≡ a
flip-flip less = refl
flip-flip equal = refl
flip-flip greater = refl

compare_digits-flip :
    (a b : List ℕ) → length a ≡ length b → compare_digits b a ≡ flip (compare_digits a b)
unfolding compare_digits
compare_digits-flip [] [] e = refl
compare_digits-flip [] (y ∷ ys) e = ground arith
compare_digits-flip (x ∷ xs) [] e = ground arith
compare_digits-flip (x ∷ xs) (y ∷ ys) e = ground (arith, compare_digits-flip xs ys)

compare_pos_int_string-flip :
    (a b : List ℕ) → compare_pos_int_string b a ≡ flip (compare_pos_int_string a b)
unfolding compare_pos_int_string
compare_pos_int_string-flip a b = ground (arith, compare_digits-flip a b)

-- The comparison of two integer literals, neither of them empty, turns around when they change places.
pub compare_int_string-flip :
    (c : ℕ) (cs : List ℕ) (d : ℕ) (ds : List ℕ) (r : Sign)
    → compare_int_string (c ∷ cs) (d ∷ ds) ≡ some r
    → compare_int_string (d ∷ ds) (c ∷ cs) ≡ some (flip r)
unfolding compare_int_string
compare_int_string-flip c cs d ds r e = ground (
  arith,
  e,
  compare_pos_int_string-flip cs ds,
  compare_pos_int_string-flip (drop_plus c cs) (drop_plus d ds),
)

-- The calendar: the number of days of each month, by its number, and none beyond December.
abbrev pub is_leap : ℕ → Bool
is_leap year = year % 400 == 0 || (year % 4 == 0 && not (year % 100 == 0))

abbrev pub days_in : ℕ → ℕ → ℕ
days_in year month =
    if month == 2
    then (if is_leap year then 29 else 28)
    else (if ltb month 8 then 30 + month % 2 else 31 - month % 2)

-- For the months 1 to 12, a day is valid exactly if it is at most the number of days that the month
-- has in the Gregorian calendar.
pub is_day_valid_iff :
    (year month day : ℕ)
    → 1 ≤ month
    → month ≤ 12
    → (is_day_valid year month day ≡ true) ↔ (day ≤ days_in year month)
unfolding is_day_valid
is_day_valid_iff year month day h k = ground arith
