-- ===== src/Execution/Tests.antt =====
-- Executors over lists, a join of them, and the theorems at inputs that meet their
-- hypotheses.
use mathlib.Core.List.{Perm}
use cscc_db.Base.{
  ℕ, ◌≡◌, refl, ◌⊎◌, Bool, true, false, Option, none, some, List, [], ◌∷◌, drop, arith, ltb,
}
use cscc_db.Execution.{Executor, load, drain_from, drain}
use cscc_db.Execution.Join.{
  Join, Run, done, failed, search_right, search, restart_with, next_with, settle, begin_right,
  begin_left, begin_tuple, next_tuple, current,
}
use cscc_db.Execution.Join.Blocks.{blocks, chunks, matches_with, matches, with_blocks, join_blocks}
use cscc_db.Execution.Join.Rows.{Stands, begin_tuple_lem, join_executor}
use cscc_db.Execution.Join.Again.{begin_tuple_again}
use cscc_db.Execution.Join.Pairs.{drain-join_executor}

abbrev pub at_end : {Row : Type 0} → List Row → Bool
at_end [] = true
at_end (x ∷ xs) = false

abbrev pub first_of : {Row : Type 0} → List Row → Option Row
first_of [] = none
first_of (x ∷ xs) = some x

-- An executor that gives the elements of a list.
abbrev pub listed : {Row : Type 0} → List Row → Executor Row
listed xs = record {
  State = List _;
  begin_tuple = λ s. some xs;
  next_tuple = λ s. some (drop 1 s);
  is_end = at_end;
  current = first_of;
  rows = xs;
  IsReady = λ s. Unit {0};
  Yields = λ s ys. s ≡ ys;
  begun = λ s t ready e. ground (arith, e);
  ended = λ s e. ground (arith, e);
  going = λ s y ys e. (ground (arith, e), ground (arith, e), λ t f. ground (arith, e, f));
}

program : Unit {0}
unfolding load drain_from drain search_right search restart_with next_with settle begin_right
    begin_left begin_tuple next_tuple current blocks chunks matches_with matches with_blocks
    join_blocks
program = tt

-- Rows of one byte; pairs with a smaller left byte, by blocks of two left and two right rows.
abbrev less_first : List ℕ → List ℕ → Bool
less_first (a ∷ s) (b ∷ t) = ltb a b
less_first _ _ = false

abbrev left : Executor (List ℕ)
left = listed ((1 ∷ []) ∷ (5 ∷ []) ∷ (3 ∷ []) ∷ [])

abbrev right : Executor (List ℕ)
right = listed ((4 ∷ []) ∷ (2 ∷ []) ∷ (6 ∷ []) ∷ [])

-- What the join gives.
abbrev pairs : List (List ℕ)
pairs = (1 ∷ 4 ∷ []) ∷ (1 ∷ 2 ∷ []) ∷ (1 ∷ 6 ∷ []) ∷ (5 ∷ 6 ∷ []) ∷ (3 ∷ 4 ∷ []) ∷ (3 ∷ 6 ∷ []) ∷ []

abbrev start : Join left right
start = record {
  left = [];
  right = [];
  left_save = [];
  left_rest = [];
  right_save = [];
  right_rest = [];
  is_end = false;
}

abbrev state : Run (Join left right) → Join left right
state (done j) = j
state _ = start

abbrev begun : Join left right
begun = state (begin_tuple 1 1 less_first 2 2 left right 20 start)

runs :
    drain
      (join_executor 1 1 less_first 2 2 left right
        (ground arith)
        (ground arith)
        (λ s e. tt)
        20
        (ground arith))
      9
      start
    ≡ some (some pairs)
unfolding program
runs = refl

begin_tuple_lem_example :
    (begin_tuple 1 1 less_first 2 2 left right 20 start ≡ failed)
    ⊎ ((k : Join left right) × (begin_tuple 1 1 less_first 2 2 left right 20 start ≡ done k)
        × Stands 1 1 less_first 2 2 left right (ground arith) (ground arith) (λ s e. tt) 20 k pairs)
unfolding program
begin_tuple_lem_example =
    begin_tuple_lem 1 1 less_first 2 2 left right (ground arith) (ground arith) (λ s e. tt) 20 start
      (ground arith) tt tt refl

drain-join_executor_example :
    (rows : List (List ℕ)) × (some pairs ≡ some rows)
    × Perm rows (matches 1 1 less_first left.rows right.rows)
unfolding program
drain-join_executor_example =
    drain-join_executor 1 1 less_first 2 2 left right (ground arith) (ground arith) (λ s e. tt) 20 9
      (ground arith) start (some pairs) tt tt refl (ground arith) refl

abbrev over : Join left right
over = record begun { is_end = true }

begin_tuple_again_example :
    (state (begin_tuple 1 1 less_first 2 2 left right 20 over)).is_end ≡ true
unfolding program
begin_tuple_again_example =
    begin_tuple_again 1 1 less_first 2 2 left right 20 over
      (state (begin_tuple 1 1 less_first 2 2 left right 20 over)) refl refl
