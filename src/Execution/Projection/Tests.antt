-- ===== src/Execution/Projection/Tests.antt =====
-- A projection of rows of two columns, and the theorem at that input.
use cscc_db.Base.{ℕ, ◌≡◌, refl, some, List, [], ◌∷◌, get_or, map, arith}
use cscc_db.Log.Memory.{Memory, memcpy, bytes_at}
use cscc_db.Execution.{Executor, drain, drain_from}
use cscc_db.Execution.Tests.{listed}
use cscc_db.Execution.Projection.{
  ColMeta, TabCol, Selected, same_text, get_col, select_cols, copy_cols, Projection, fill,
  begin_tuple, next_tuple, current,
}
use cscc_db.Execution.Projection.Fields.{text_discrete, column_of, project}
use cscc_db.Execution.Projection.Rows.{drain-projection_executor}

program : Unit {0}
unfolding memcpy bytes_at drain drain_from same_text get_col select_cols copy_cols fill begin_tuple
    next_tuple current text_discrete column_of project
program = tt

abbrev data_of : List ℕ → Memory
data_of bytes i = get_or bytes i 0

-- Tables `t` and `u`, each with a column `a`, of two bytes and one; the query names `u.a`, then `t.a`.
abbrev columns : List ColMeta
columns =
    record { tab_name = 116 ∷ []; name = 97 ∷ []; len = 2; offset = 0 }
    ∷ record { tab_name = 117 ∷ []; name = 97 ∷ []; len = 1; offset = 2 }
    ∷ []

abbrev targets : List TabCol
targets =
    record { tab_name = 117 ∷ []; col_name = 97 ∷ [] }
    ∷ record { tab_name = 116 ∷ []; col_name = 97 ∷ [] }
    ∷ []

abbrev selected : Selected
selected = record {
  sel_idxs = 1 ∷ 0 ∷ [];
  cols =
      record { tab_name = 117 ∷ []; name = 97 ∷ []; len = 1; offset = 0 }
      ∷ record { tab_name = 116 ∷ []; name = 97 ∷ []; len = 2; offset = 1 }
      ∷ [];
  len = 3;
}

abbrev child : Executor (List ℕ)
child = listed ((1 ∷ 2 ∷ 3 ∷ []) ∷ (4 ∷ 5 ∷ 6 ∷ []) ∷ [])

abbrev start : Projection data_of child columns selected
start = record { child = []; rec = λ i. 0 }

drain-projection_executor_example :
    some ((3 ∷ 1 ∷ 2 ∷ []) ∷ (6 ∷ 4 ∷ 5 ∷ []) ∷ [])
    ≡ some (map (λ row. project columns targets (data_of row)) child.rows)
unfolding program
drain-projection_executor_example =
    drain-projection_executor data_of child columns targets selected refl 3 start
      (some ((3 ∷ 1 ∷ 2 ∷ []) ∷ (6 ∷ 4 ∷ 5 ∷ []) ∷ [])) tt (ground arith) refl
