-- ===== src/Values/Tests.antt =====
-- Literals and days: the theorems at inputs that meet their hypotheses.
use cscc_db.Base.{ℕ, ◌≤◌, ◌≡◌, ◌↔◌, refl, true, false, Bool, [], ◌∷◌, arith, some}
use cscc_db.Index.{less, greater}
use cscc_db.Values.{compare_digits, compare_pos_int_string, compare_int_string, is_day_valid}
use cscc_db.Values.Compare.{str_val, value_less, value_equal, value_greater, OneOf, Value_OneOf}
use cscc_db.Values.Laws.{compare_int_string-flip, is_day_valid_iff, days_in}

-- "-12" and "+7".
compare_int_string-flip_test : compare_int_string (43 ∷ 55 ∷ []) (45 ∷ 49 ∷ 50 ∷ []) ≡ some greater
unfolding compare_int_string compare_pos_int_string compare_digits
compare_int_string-flip_test = compare_int_string-flip 45 (49 ∷ 50 ∷ []) 43 (55 ∷ []) less refl

is_day_valid_iff_example : (is_day_valid 2024 2 29 ≡ true) ↔ (29 ≤ days_in 2024 2)
is_day_valid_iff_example = is_day_valid_iff 2024 2 29 (omega arith) (omega arith)

-- Two tests in the place of those of `float`.
abbrev never : ℕ → ℕ → Bool
never a b = false

-- "ab" and "b".
Value_OneOf_example :
    OneOf
      (value_less never never (str_val (97 ∷ 98 ∷ [])) (str_val (98 ∷ [])))
      (value_equal never never (str_val (97 ∷ 98 ∷ [])) (str_val (98 ∷ [])))
      (value_greater never never (str_val (97 ∷ 98 ∷ [])) (str_val (98 ∷ [])))
Value_OneOf_example =
    Value_OneOf never never (str_val (97 ∷ 98 ∷ [])) (str_val (98 ∷ [])) (λ e. cc) refl
