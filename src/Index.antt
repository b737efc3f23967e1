-- ===== src/Index.antt =====
-- index/ix_index_handle.h and ix_index_handle.cpp: `ix_compare` and the class `IxNodeHandle`, a node of
-- the B+ tree. A key is memory from its address on. A node's arrays are functions from the index, of
-- which the first `num_key` keys are in use; the page's bytes and its latch are not modelled.
pub mod Order
pub mod Search
pub mod Shift
pub mod Pairs
pub mod Tests
use cscc_db.Base.{
  ℕ, zero, suc, ◌+◌, ◌-◌, ◌/◌, Bool, true, false, not, ◌&&◌, ltb, leb, ◌==◌, if◌then◌else◌, update,
  Outcome, ok, throws, aborted, ◌>>=◌, ◌>>◌, assert_that, Option, none, some, List, [], ◌∷◌, ℤ, pos,
  negsuc, ltb_ℤ,
}
use cscc_db.Transaction.{Rid}
use cscc_db.Log.Memory.{Memory, read_word}

-- The sign of what `ix_compare` returns.
pub data Sign : Type 0 where
  less equal greater : Sign

abbrev pub flip : Sign → Sign
flip less = greater
flip equal = equal
flip greater = less

abbrev pub is_less : Sign → Bool
is_less less = true
is_less _ = false

abbrev pub is_equal : Sign → Bool
is_equal equal = true
is_equal _ = false

abbrev pub is_greater : Sign → Bool
is_greater greater = true
is_greater _ = false

-- `(x < y) ? -1 : ((x > y) ? 1 : 0)`, by the results of the two tests.
abbrev pub sign_by : Bool → Bool → Sign
sign_by lt gt = if lt then less else (if gt then greater else equal)

-- The first sign that is not 0.
abbrev pub first_sign : Sign → Sign → Sign
first_sign less s = less
first_sign equal s = s
first_sign greater s = greater

-- `memcmp`.
unfoldable pub memcmp : ℕ → ℕ → Memory → Memory → Sign
memcmp zero at a b = equal
memcmp (suc n) at a b =
    first_sign (sign_by (ltb (a at) (b at)) (ltb (b at) (a at))) (memcmp n (at + 1) a b)

-- `*(int *)` at an address.
abbrev pub int_at : Memory → ℕ → ℤ
int_at m at =
    let w = read_word 4 m at in if ltb w 2147483648 then pos w else negsuc (4294967295 - w)

abbrev pub compare_ints : ℤ → ℤ → Sign
compare_ints x y = sign_by (ltb_ℤ x y) (ltb_ℤ y x)

-- The type of a column (`ColType`) and its length.
pub data KeyType : Type 0 where
  key_int key_float key_string key_bigint key_datetime : KeyType

abbrev pub Column : Type 0
Column = KeyType × ℕ

-- `float_less` is `<` on the `float`s of two words.
module _ (float_less : ℕ → ℕ → Bool) where
  -- `ix_compare` of one column; `none` is `InternalError`.
  unfoldable pub compare_column : Column → ℕ → Memory → Memory → Option Sign
  compare_column (key_int, len) at a b = some (compare_ints (int_at a at) (int_at b at))
  compare_column (key_float, len) at a b = some (
      sign_by (float_less (read_word 4 a at) (read_word 4 b at))
        (float_less (read_word 4 b at) (read_word 4 a at)))
  compare_column (key_string, len) at a b = some (memcmp len at a b)
  compare_column (_, len) at a b = none

  -- `ix_compare` of the columns given, all of the index's or the first `pre`, from an offset on.
  unfoldable pub compare_columns : List Column → ℕ → Memory → Memory → Option Sign
  compare_columns [] at a b = some equal
  compare_columns (col ∷ cols) at a b = elim (compare_column col at a b) [
    | none ↦ none
    | some less ↦ some less
    | some greater ↦ some greater
    | some equal ↦ compare_columns cols (at + col.1) a b
  ]

  abbrev pub ix_compare : List Column → Memory → Memory → Option Sign
  ix_compare cols a b = compare_columns cols 0 a b

-- The page's arrays and the fields of its header that these methods use.
pub record Node : Type 0 where
  pub num_key : ℕ
  pub is_leaf : Bool
  pub keys : ℕ → Memory
  pub rids : ℕ → Rid

-- `IndexEntryNotUniqueError`, and the `InternalError` of `ix_compare`.
pub data IndexError : Type 0 where
  index_entry_not_unique unexpected_data_type : IndexError

abbrev pub Result : Type 0 → Type 0
Result A = Outcome IndexError Node A

-- A test of what `ix_compare` returns.
abbrev pub tested : Node → (Sign → Bool) → Option Sign → Result Bool
tested n test none = throws unexpected_data_type n
tested n test (some s) = ok (test s)

-- The loop `while (l < r)` of the three searches, on the test that sends it to the right; `fuel` turns
-- at most.
unfoldable pub bisect : (ℕ → Result Bool) → ℕ → ℕ → ℕ → Result ℕ
bisect goes_right zero l r = ok r
bisect goes_right (suc fuel) l r = elim (ltb l r) [
  | false ↦ ok r
  | true ↦ goes_right ((l + r) / 2) >>= λ right.
      bisect goes_right fuel (if right then (l + r) / 2 + 1 else l)
        (if right then r else (l + r) / 2)
]

-- What `lower_bound` and `upper_bound` share; `num_key` turns are enough, since each one narrows the
-- range.
unfoldable pub bound : (ℕ → Result Bool) → ℕ → Result ℕ
bound goes_right num_key = elim (num_key == 0) [
  | true ↦ ok 0
  | false ↦ bisect goes_right num_key 0 (num_key - 1) >>= λ r.
      goes_right r >>= λ right. ok (if right then num_key else r)
]

-- The loop of `insert_pair` on one array, from `i` down to the place.
pub shift_up : {A : Type 0} → ℕ → ℕ → (ℕ → A) → ℕ → A
shift_up zero place f = f
shift_up (suc i) place f =
    let rest = shift_up i place (update f (suc i) (f i)) in if ltb place (suc i) then rest else f

-- The loop of `erase_pair` on one array: `n` turns from `i` on.
pub shift_down : {A : Type 0} → ℕ → ℕ → (ℕ → A) → ℕ → A
shift_down zero i f = f
shift_down (suc n) i f = shift_down n (i + 1) (update f i (f (i + 1)))

-- `cols` are the columns of the index, or the first `pre` of them.
module _ (float_less : ℕ → ℕ → Bool) (cols : List Column) where
  -- Whether key `i` of a node compares with a key as the test asks.
  abbrev pub key_is : Node → (Sign → Bool) → Memory → ℕ → Result Bool
  key_is n test key i = tested n test (ix_compare float_less cols (n.keys i) key)

  unfoldable pub lower_bound : Node → Memory → Result ℕ
  lower_bound n target = bound (key_is n is_less target) n.num_key

  unfoldable pub upper_bound : Node → Memory → Result ℕ
  upper_bound n target = bound (key_is n (λ s. not (is_greater s)) target) n.num_key

  -- On a node without keys the source reads the key at -1, which has no defined result: `aborted`.
  unfoldable pub leaf_lookup : Node → Memory → Result (Option Rid)
  leaf_lookup n key = do
    assert_that (ltb 0 n.num_key)
    r ← bisect (key_is n is_less key) n.num_key 0 (n.num_key - 1)
    same ← key_is n is_equal key r
    ok (if same then some (n.rids r) else none)

  unfoldable pub internal_lookup : Node → Memory → Result ℤ
  internal_lookup n key = do i ← upper_bound n key; ok (n.rids i).page_no

  -- `assert(pos <= num_key)` stands before the loop.
  unfoldable pub insert_pair : Node → ℕ → Memory → Rid → Result Node
  insert_pair n place key rid = do
    assert_that (leb place n.num_key)
    ok (record n {
      num_key = n.num_key + 1;
      keys = update (shift_up n.num_key place n.keys) place key;
      rids = update (shift_up n.num_key place n.rids) place rid;
    })

  -- The two branches of `insert`, by whether the key is not there yet.
  unfoldable pub insert_at : Bool → Node → ℕ → Memory → Rid → Result ((ℕ × ℕ) × Node)
  insert_at true n key_idx key value = do
    n' ← insert_pair n key_idx key value
    ok ((key_idx, n'.num_key), n')
  insert_at false n key_idx key value = do
    assert_that (ltb key_idx n.num_key)
    throws index_entry_not_unique n

  -- `key_idx == num_key || ix_compare(get_key(key_idx), key, …) > 0`.
  abbrev pub is_unique : Node → Memory → ℕ → Result Bool
  is_unique n key key_idx = elim (key_idx == n.num_key) [
    | true ↦ ok true
    | false ↦ key_is n is_greater key key_idx
  ]

  unfoldable pub insert : Node → Memory → Rid → Result ((ℕ × ℕ) × Node)
  insert n key value = do
    assert_that n.is_leaf
    key_idx ← lower_bound n key
    unique ← is_unique n key key_idx
    insert_at unique n key_idx key value

  unfoldable pub erase_pair : Node → ℕ → Result Node
  erase_pair n place = do
    assert_that (ltb place n.num_key)
    assert_that n.is_leaf
    ok (record n {
      num_key = n.num_key - 1;
      keys = shift_down (n.num_key - 1 - place) place n.keys;
      rids = shift_down (n.num_key - 1 - place) place n.rids;
    })

  -- The loop of `remove`; each turn takes a key out.
  unfoldable pub remove_from : ℕ → ℕ → Node → Memory → Result (ℕ × Node)
  remove_from zero key_idx n key = ok (n.num_key, n)
  remove_from (suc fuel) key_idx n key = elim (ltb key_idx n.num_key) [
    | false ↦ ok (n.num_key, n)
    | true ↦ key_is n is_equal key key_idx >>= λ same. elim same [
      | false ↦ ok (n.num_key, n)
      | true ↦ erase_pair n key_idx >>= λ n'. remove_from fuel (key_idx + 1) n' key
    ]
  ]

  unfoldable pub remove : Node → Memory → Result (ℕ × Node)
  remove n key = do
    assert_that n.is_leaf
    key_idx ← lower_bound n key
    remove_from (n.num_key + 1) key_idx n key
