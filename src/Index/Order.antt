-- ===== src/Index/Order.antt =====
-- `ix_compare` on columns of type INT and STRING: it does not throw, and it is an order.
use cscc_db.Base.{
  ℕ, zero, suc, ◌+◌, ◌≡◌, refl, Bool, some, List, [], ◌∷◌, ltb, arith, ℤ, pos, negsuc, ltb_ℤ,
}
use cscc_db.Log.Memory.{Memory}
use cscc_db.Index.{
  Sign, less, equal, flip, sign_by, first_sign, memcmp, int_at, compare_ints, key_int, key_float,
  key_string, key_bigint, key_datetime, Column, compare_column, compare_columns, ix_compare,
}

-- The laws of an order.
pub record IsOrder {A : Type 0} (sign : A → A → Sign) : Type 0 where
  pub compare_flip : (a b : A) → sign a b ≡ flip (sign b a)
  pub less_trans : (a b c : A) → sign a b ≡ less → sign b c ≡ less → sign a c ≡ less
  pub equal_compare : (a b c : A) → sign a b ≡ equal → sign a c ≡ sign b c

-- Every column is an INT or a STRING.
abbrev pub Supported : List Column → Type 0
Supported [] = Unit {0}
Supported ((key_int, len) ∷ cols) = Supported cols
Supported ((key_string, len) ∷ cols) = Supported cols
Supported (_ ∷ cols) = ⊥

-- How two keys compare: by the first column that they differ in.
unfoldable pub column_sign : Column → ℕ → Memory → Memory → Sign
column_sign (key_int, len) at a b = compare_ints (int_at a at) (int_at b at)
column_sign (key_string, len) at a b = memcmp len at a b
column_sign (_, len) at a b = equal

unfoldable pub sign_from : List Column → ℕ → Memory → Memory → Sign
sign_from [] at a b = equal
sign_from (col ∷ cols) at a b =
    first_sign (column_sign col at a b) (sign_from cols (at + col.1) a b)

abbrev pub sign_of : List Column → Memory → Memory → Sign
sign_of cols a b = sign_from cols 0 a b

compare_columns_lem :
    (float_less : ℕ → ℕ → Bool) (cols : List Column) (at : ℕ) (a b : Memory)
    → Supported cols
    → compare_columns float_less cols at a b ≡ some (sign_from cols at a b)
unfolding compare_columns compare_column sign_from column_sign
compare_columns_lem fl [] at a b ok_types = refl
compare_columns_lem fl ((key_int, len) ∷ cols) at a b ok_types =
    ground (arith, compare_columns_lem fl cols (at + len) a b ok_types)
compare_columns_lem fl ((key_string, len) ∷ cols) at a b ok_types =
    ground (arith, compare_columns_lem fl cols (at + len) a b ok_types)
compare_columns_lem fl ((key_float, len) ∷ cols) at a b ok_types = absurd ok_types
compare_columns_lem fl ((key_bigint, len) ∷ cols) at a b ok_types = absurd ok_types
compare_columns_lem fl ((key_datetime, len) ∷ cols) at a b ok_types = absurd ok_types

-- On such columns `ix_compare` returns the sign.
pub ix_compare_lem :
    (float_less : ℕ → ℕ → Bool) (cols : List Column) (a b : Memory)
    → Supported cols
    → ix_compare float_less cols a b ≡ some (sign_of cols a b)
ix_compare_lem fl cols a b ok_types = compare_columns_lem fl cols 0 a b ok_types

numbers-IsOrder : IsOrder (λ (a b : ℕ). sign_by (ltb a b) (ltb b a))
numbers-IsOrder = record {
  compare_flip = λ a b. ground arith;
  less_trans = λ a b c e f. ground arith;
  equal_compare = λ a b c e. ground arith;
}

ints_flip : (a b : ℤ) → compare_ints a b ≡ flip (compare_ints b a)
unfolding ltb_ℤ
ints_flip (pos a) (pos b) = ground arith
ints_flip (pos a) (negsuc b) = ground arith
ints_flip (negsuc a) (pos b) = ground arith
ints_flip (negsuc a) (negsuc b) = ground arith

ints_trans :
    (a b c : ℤ) → compare_ints a b ≡ less → compare_ints b c ≡ less → compare_ints a c ≡ less
unfolding ltb_ℤ
ints_trans (pos a) (pos b) (pos c) e f = ground arith
ints_trans (pos a) (pos b) (negsuc c) e f = ground arith
ints_trans (pos a) (negsuc b) c e f = ground arith
ints_trans (negsuc a) (pos b) (pos c) e f = ground arith
ints_trans (negsuc a) (pos b) (negsuc c) e f = ground arith
ints_trans (negsuc a) (negsuc b) (pos c) e f = ground arith
ints_trans (negsuc a) (negsuc b) (negsuc c) e f = ground arith

ints_equal : (a b c : ℤ) → compare_ints a b ≡ equal → compare_ints a c ≡ compare_ints b c
unfolding ltb_ℤ
ints_equal (pos a) (pos b) (pos c) e = ground arith
ints_equal (pos a) (pos b) (negsuc c) e = ground arith
ints_equal (pos a) (negsuc b) c e = ground arith
ints_equal (negsuc a) (pos b) c e = ground arith
ints_equal (negsuc a) (negsuc b) (pos c) e = ground arith
ints_equal (negsuc a) (negsuc b) (negsuc c) e = ground arith

ints-IsOrder : IsOrder compare_ints
ints-IsOrder = record {
  compare_flip = ints_flip;
  less_trans = ints_trans;
  equal_compare = ints_equal;
}

always-IsOrder : {A : Type 0} → IsOrder (λ (a b : A). equal)
always-IsOrder = record {
  compare_flip = λ a b. refl;
  less_trans = λ a b c e f. e;
  equal_compare = λ a b c e. refl;
}

-- An order on what keys hold is one on keys.
on-IsOrder :
    {A B : Type 0} (sign : A → A → Sign) (f : B → A)
    → IsOrder sign
    → IsOrder (λ (a b : B). sign (f a) (f b))
on-IsOrder sign f o = record {
  compare_flip = λ a b. o.compare_flip (f a) (f b);
  less_trans = λ a b c. o.less_trans (f a) (f b) (f c);
  equal_compare = λ a b c. o.equal_compare (f a) (f b) (f c);
}

-- By one order, and by another where the first does not tell keys apart.
then-IsOrder :
    {A : Type 0} (s t : A → A → Sign)
    → IsOrder s
    → IsOrder t
    → IsOrder (λ (a b : A). first_sign (s a b) (t a b))
then-IsOrder s t o p = record {
  compare_flip = λ a b. ground (arith, o.compare_flip a b, p.compare_flip a b);
  less_trans = λ a b c e f. ground (
    arith,
    e,
    f,
    o.less_trans a b c,
    p.less_trans a b c,
    o.equal_compare a b c,
    o.equal_compare c b a,
    o.compare_flip c b,
    o.compare_flip c a,
    o.compare_flip b a,
  );
  equal_compare = λ a b c e. ground (arith, e, o.equal_compare a b c, p.equal_compare a b c);
}

memcmp-IsOrder : (n at : ℕ) → IsOrder (memcmp n at)
unfolding memcmp
memcmp-IsOrder zero at = always-IsOrder
memcmp-IsOrder (suc n) at =
    then-IsOrder _ _ (on-IsOrder _ (λ (m : Memory). m at) numbers-IsOrder)
      (memcmp-IsOrder n (at + 1))

column-IsOrder : (col : Column) (at : ℕ) → IsOrder (column_sign col at)
unfolding column_sign
column-IsOrder (key_int, len) at =
    on-IsOrder compare_ints (λ (m : Memory). int_at m at) ints-IsOrder
column-IsOrder (key_string, len) at = memcmp-IsOrder len at
column-IsOrder (key_float, len) at = always-IsOrder
column-IsOrder (key_bigint, len) at = always-IsOrder
column-IsOrder (key_datetime, len) at = always-IsOrder

sign_from-IsOrder : (cols : List Column) (at : ℕ) → IsOrder (sign_from cols at)
unfolding sign_from
sign_from-IsOrder [] at = always-IsOrder
sign_from-IsOrder (col ∷ cols) at =
    then-IsOrder _ _ (column-IsOrder col at) (sign_from-IsOrder cols (at + col.1))

pub sign_of-IsOrder : (cols : List Column) → IsOrder (sign_of cols)
sign_of-IsOrder cols = sign_from-IsOrder cols 0
