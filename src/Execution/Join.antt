-- ===== src/Execution/Join.antt =====
-- execution/executor_nestedloop_join.h: the class `NestedLoopJoinExecutor`, a join by blocks over two
-- executors. `left_index_` and `right_index_` are held as what is left of the two vectors from the
-- index on. A call whose loop does not end in the turns given is `out_of_fuel`.
pub mod Blocks
pub mod Turns
pub mod Rows
pub mod Again
pub mod Pairs
use cscc_db.Base.{
  ℕ, zero, suc, ◌+◌, ◌*◌, Bool, true, false, Option, none, some, List, [], ◌∷◌, ◌++◌, length,
  if◌then◌else◌, drop, take,
}
use cscc_db.Execution.{Executor, load}

-- The bytes of a record.
abbrev pub Row : Type 0
Row = List ℕ

-- `Next`: the record of the two, with `tupleLen` bytes of each.
abbrev pub joined_row : ℕ → ℕ → Row → Row → Row
joined_row left_len right_len l r = take left_len l ++ take right_len r

-- How a call ends.
pub data Run (A : Type 0) : Type 0 where
  done : A → Run A
  failed : Run A
  out_of_fuel : Run A

infixl 5 ◌>>=◌
abbrev pub ◌>>=◌ : {A B : Type 0} → Run A → (A → Run B) → Run B
failed >>= f = failed
out_of_fuel >>= f = out_of_fuel
done a >>= f = f a

-- A call of a child.
abbrev pub run : {A : Type 0} → Option A → Run A
run none = failed
run (some a) = done a

module _ (L R : Executor Row) where
  pub record Join : Type 0 where
    pub left : L.State
    pub right : R.State
    pub left_save : List Row
    pub left_rest : List Row
    pub right_save : List Row
    pub right_rest : List Row
    pub is_end : Bool

-- `left_len` and `right_len` are the two executors' `tupleLen`, and `test` is whether all conditions of
-- the join hold of two rows; the sizes are OUTER_BUFFER_SIZE and INNER_BUFFER_SIZE.
module _ (left_len right_len : ℕ) (test : Row → Row → Bool) where
  -- The inner loop for one left row.
  unfoldable pub search_right : Row → List Row → Option (List Row)
  search_right l [] = none
  search_right l (x ∷ xs) = let rest = search_right l xs in if test l x then some (x ∷ xs) else rest

  -- Both loops, from the two indices on, up to the first pair that the conditions hold of.
  unfoldable pub search : List Row → List Row → List Row → Option (List Row × List Row)
  search [] save rest = none
  search (l ∷ ls) save rest = elim (search_right l rest) [
    | some found ↦ some (l ∷ ls, found)
    | none ↦ search ls save save
  ]

  module _ (outer inner : ℕ) (L R : Executor Row) where
    abbrev pub refilled : Join L R → L.State → List Row → List Row × R.State → Join L R
    refilled j left ls (rs, right) = record j {
      left = left;
      right = right;
      left_save = ls;
      left_rest = ls;
      right_save = rs;
      right_rest = rs;
    }

    -- A turn of the `while (true)` loop also says whether it returns. The right executor begins again
    -- for the next block of the left one, which is given.
    unfoldable pub restart_with : Join L R → List Row × L.State → Run (Bool × Join L R)
    restart_with j ([], left) =
        done (true, record j { left = left; left_save = []; left_rest = []; is_end = true })
    restart_with j (l ∷ ls, left) = do
      begun ← run (R.begin_tuple j.right)
      x ← run (load R inner begun)
      done (false, refilled j left (l ∷ ls) x)

    -- Both loops have passed over all pairs: the next block of the right executor, which is given.
    abbrev pub moved : Join L R → List Row → R.State → Join L R
    moved j rs right = record j {
      right = right;
      right_save = rs;
      right_rest = rs;
      left_rest = j.left_save;
    }

    unfoldable pub next_with : Join L R → List Row × R.State → Run (Bool × Join L R)
    next_with j ([], right) = run (load L outer j.left) >>= restart_with (moved j [] right)
    next_with j (r ∷ rs, right) = done (false, moved j (r ∷ rs) right)

    abbrev pub next_block : Join L R → Run (Bool × Join L R)
    next_block j = run (load R inner j.right) >>= next_with j

    -- The `while (true)` loop.
    unfoldable pub settle : ℕ → Join L R → Run (Join L R)
    settle zero j = out_of_fuel
    settle (suc n) j = elim (search j.left_rest j.right_save j.right_rest) [
      | some (ls, rs) ↦ done (record j { left_rest = ls; right_rest = rs })
      | none ↦ next_block j >>= λ (returns, k). elim returns [ true ↦ done k | false ↦ settle n k ]
    ]

    -- `beginTuple`, with the first block of each side, and before. The source leaves `is_end_` as it
    -- is when both sides have a row.
    unfoldable pub begin_right :
        ℕ → Join L R → List Row → L.State → List Row × R.State → Run (Join L R)
    begin_right fuel j ls left ([], right) =
        done (record (refilled j left ls ([], right)) { is_end = true })
    begin_right fuel j ls left (r ∷ rs, right) = settle fuel (refilled j left ls (r ∷ rs, right))

    unfoldable pub begin_left : ℕ → Join L R → List Row × L.State → Run (Join L R)
    begin_left fuel j ([], left) =
        done (record j { left = left; left_save = []; left_rest = []; is_end = true })
    begin_left fuel j (l ∷ ls, left) = do
      begun ← run (R.begin_tuple j.right)
      x ← run (load R inner begun)
      begin_right fuel j (l ∷ ls) left x

    unfoldable pub begin_tuple : ℕ → Join L R → Run (Join L R)
    begin_tuple fuel j = do
      begun ← run (L.begin_tuple j.left)
      x ← run (load L outer begun)
      begin_left fuel j x

    unfoldable pub next_tuple : ℕ → Join L R → Run (Join L R)
    next_tuple fuel j = settle fuel (record j { right_rest = drop 1 j.right_rest })

    -- `Next`: the rows at the two indices.
    unfoldable pub current : Join L R → Option Row
    current j = elim j.left_rest [
      | [] ↦ none
      | l ∷ ls ↦ elim j.right_rest [ [] ↦ none | r ∷ rs ↦ some (joined_row left_len right_len l r) ]
    ]
