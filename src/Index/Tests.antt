-- ===== src/Index/Tests.antt =====
-- A leaf of an index on an INT and a STRING column, with the keys (10, b), (20, a) and (20, c): tests,
-- and the theorems at inputs that meet their hypotheses.
use cscc_db.Base.{
  ℕ, zero, suc, ◌≡◌, ◌≢◌, refl, ◌<◌, ◌≤◌, ◌⊎◌, Bool, true, false, ◌==◌, if◌then◌else◌, arith, pos,
  some, none, ok, throws, List, [], ◌∷◌, ltb_ℤ,
}
use cscc_db.Transaction.{Rid}
use cscc_db.Log.Memory.{Memory, from_bytes, bytes_at}
use cscc_db.Index.{
  less, equal, greater, key_int, key_string, key_bigint, memcmp, Column, Node, compare_column,
  compare_columns, ix_compare, bisect, bound, lower_bound, upper_bound, leaf_lookup,
  internal_lookup, shift_up, shift_down, insert_pair, insert_at, insert, index_entry_not_unique,
  unexpected_data_type, erase_pair, remove_from, remove,
}
use cscc_db.Index.Pairs.{IsSorted, lower_bound_result, upper_bound_result, insert_result}

program : Unit {0}
unfolding bisect bound lower_bound upper_bound leaf_lookup internal_lookup shift_up shift_down
    insert_pair insert_at insert erase_pair remove_from remove compare_column compare_columns memcmp
    ltb_ℤ from_bytes bytes_at
program = tt

no_floats : ℕ → ℕ → Bool
no_floats a b = false

abbrev cols : List Column
cols = (key_int, 4) ∷ (key_string, 1) ∷ []

-- An INT below 256 and a letter.
abbrev key_of : ℕ → ℕ → Memory
key_of n letter at = if at == 0 then n else (if at == 4 then letter else 0)

abbrev rid : ℕ → Rid
rid n = record { page_no = pos 1; slot_no = pos n }

abbrev leaf : Node
leaf = record {
  num_key = 3;
  is_leaf = true;
  keys = λ i. if i == 0 then key_of 10 98 else (if i == 1 then key_of 20 97 else key_of 20 99);
  rids = rid;
}

leaf-IsSorted : IsSorted no_floats cols tt leaf
unfolding program
leaf-IsSorted zero (suc zero) l m = refl
leaf-IsSorted zero (suc (suc zero)) l m = refl
leaf-IsSorted (suc zero) (suc (suc zero)) l m = refl
leaf-IsSorted zero zero l m = ground arith
leaf-IsSorted (suc i) zero l m = ground arith
leaf-IsSorted (suc i) (suc zero) l m = ground arith
leaf-IsSorted (suc (suc i)) (suc (suc zero)) l m = ground arith
leaf-IsSorted i (suc (suc (suc j))) l m = ground arith

finds :
    (lower_bound no_floats cols leaf (key_of 20 97) ≡ ok 1)
    × (upper_bound no_floats cols leaf (key_of 20 97) ≡ ok 2)
    × (leaf_lookup no_floats cols leaf (key_of 20 99) ≡ ok (some (rid 2)))
    × (leaf_lookup no_floats cols leaf (key_of 20 98) ≡ ok none)
    × (internal_lookup no_floats cols leaf (key_of 15 97) ≡ ok (pos 1))
unfolding program
finds = (refl, refl, refl, refl, refl)

-- `ix_compare` throws on a BIGINT column, and so does the search.
bigint_throws :
    lower_bound no_floats ((key_bigint, 8) ∷ []) leaf (key_of 20 97)
    ≡ throws unexpected_data_type leaf
unfolding program
bigint_throws = refl

removes : (n : Node) × (remove no_floats cols leaf (key_of 20 97) ≡ ok (2, n)) × (n.keys 1 4 ≡ 99)
unfolding program
removes = (_, refl, refl)

lower_bound_result_example :
    (k : ℕ) × (lower_bound no_floats cols leaf (key_of 20 97) ≡ ok k)
    × (k ≤ 3)
    × ((i : ℕ) → i < k → ix_compare no_floats cols (leaf.keys i) (key_of 20 97) ≡ some less)
    × ((i : ℕ) → k ≤ i → i < 3 → ix_compare no_floats cols (leaf.keys i) (key_of 20 97) ≢ some less)
lower_bound_result_example = lower_bound_result no_floats cols tt leaf (key_of 20 97) leaf-IsSorted

insert_result_example :
    (pos : ℕ) × (lower_bound no_floats cols leaf (key_of 20 98) ≡ ok pos)
    × (((insert no_floats cols leaf (key_of 20 98) (rid 9) ≡ throws index_entry_not_unique leaf)
          × (pos < 3)
          × (ix_compare no_floats cols (leaf.keys pos) (key_of 20 98) ≡ some equal))
        ⊎ ((n' : Node) × (insert no_floats cols leaf (key_of 20 98) (rid 9) ≡ ok ((pos, 4), n'))
            × IsSorted no_floats cols tt n'
            × (n'.num_key ≡ 4)
            × (n'.keys pos ≡ key_of 20 98)
            × (n'.rids pos ≡ rid 9)
            × ((i : ℕ) → i < pos → (n'.keys i ≡ leaf.keys i) × (n'.rids i ≡ leaf.rids i))
            × ((i : ℕ)
                → pos ≤ i
                → i < 3
                → (n'.keys (suc i) ≡ leaf.keys i) × (n'.rids (suc i) ≡ leaf.rids i))))
insert_result_example =
    insert_result no_floats cols tt leaf (key_of 20 98) (rid 9) refl leaf-IsSorted

upper_bound_result_test :
    (k : ℕ) × (upper_bound no_floats cols leaf (key_of 20 97) ≡ ok k)
    × (k ≤ 3)
    × ((i : ℕ) → i < k → ix_compare no_floats cols (leaf.keys i) (key_of 20 97) ≢ some greater)
    × ((i : ℕ)
        → k ≤ i
        → i < 3
        → ix_compare no_floats cols (leaf.keys i) (key_of 20 97) ≡ some greater)
upper_bound_result_test = upper_bound_result no_floats cols tt leaf (key_of 20 97) leaf-IsSorted
