-- ===== src/Execution/Projection.antt =====
-- execution/executor_projection.h: the class `ProjectionExecutor`, which copies some fields of each row
-- of another executor. A record's `data` is memory from its address on. What `ColMeta` and `TabCol`
-- (system/sm_meta.h, common/common.h) hold beside the fields here is not read. `none` is an exception.
pub mod Fields
pub mod Rows
pub mod Tests
use cscc_db.Base.{
  ℕ, zero, suc, ◌+◌, Bool, true, false, Option, none, some, List, [], ◌∷◌, ◌==◌, ◌&&◌, get_elem?,
  if◌then◌else◌,
}
use cscc_db.Log.Memory.{Memory, memcpy, bytes_at}
use cscc_db.Execution.{Executor, ◌>>=◌}

pub record ColMeta : Type 0 where
  pub tab_name : List ℕ
  pub name : List ℕ
  pub len : ℕ
  pub offset : ℕ

pub record TabCol : Type 0 where
  pub tab_name : List ℕ
  pub col_name : List ℕ

-- `==` of `std::string`.
unfoldable pub same_text : List ℕ → List ℕ → Bool
same_text [] [] = true
same_text [] (b ∷ t) = false
same_text (a ∷ s) [] = false
same_text (a ∷ s) (b ∷ t) = a == b && same_text s t

abbrev pub is_named : TabCol → ColMeta → Bool
is_named target col = same_text col.tab_name target.tab_name && same_text col.name target.col_name

abbrev after_one : Option (ℕ × ColMeta) → Option (ℕ × ColMeta)
after_one none = none
after_one (some (i, col)) = some (suc i, col)

-- `get_col`: the first column of the name, with its index.
unfoldable pub get_col : List ColMeta → TabCol → Option (ℕ × ColMeta)
get_col [] target = none
get_col (col ∷ cols) target =
    let rest = get_col cols target in if is_named target col then some (0, col) else after_one rest

-- `sel_idxs_`, `cols_` and `len_`.
pub record Selected : Type 0 where
  pub sel_idxs : List ℕ
  pub cols : List ColMeta
  pub len : ℕ

abbrev pub add_col : ℕ → ℕ → ColMeta → Selected → Selected
add_col i at col rest = record {
  sel_idxs = i ∷ rest.sel_idxs;
  cols = record col { offset = at } ∷ rest.cols;
  len = rest.len;
}

-- The constructor's loop, with `curr_offset`.
unfoldable pub select_cols : List ColMeta → ℕ → List TabCol → Option Selected
select_cols prev at [] = some (record { sel_idxs = []; cols = []; len = at })
select_cols prev at (target ∷ targets) = get_col prev target >>= λ (i, col).
    select_cols prev (at + col.len) targets >>= λ rest. some (add_col i at col rest)

-- The loop over the selected columns: `memcpy` from the row's data to `rec_.data`.
unfoldable pub copy_cols : List ColMeta → Memory → Memory → List ℕ → List ColMeta → Option Memory
copy_cols prev row rec [] cols = some rec
copy_cols prev row rec (i ∷ idxs) [] = none
copy_cols prev row rec (i ∷ idxs) (this ∷ cols) = get_elem? prev i >>= λ col.
    copy_cols prev row (memcpy rec this.offset (bytes_at row col.offset col.len)) idxs cols

-- `data_of` is the data of a row of the executor `P`, whose columns are `prev`.
module _ {Row : Type 0} (data_of : Row → Memory) (P : Executor Row) (prev : List ColMeta)
    (sel : Selected) where
  pub record Projection : Type 0 where
    pub child : P.State
    pub rec : Memory

  abbrev copied : P.State → Option Memory → Option Projection
  copied t none = none
  copied t (some rec) = some (record { child = t; rec = rec })

  -- What both calls do after the call of the child.
  unfoldable pub fill : Memory → P.State → Option Projection
  fill rec t = elim (P.is_end t) [
    | true ↦ some (record { child = t; rec = rec })
    | false ↦
        P.current t >>= λ row. copied t (copy_cols prev (data_of row) rec sel.sel_idxs sel.cols)
  ]

  unfoldable pub begin_tuple : Projection → Option Projection
  begin_tuple s = P.begin_tuple s.child >>= fill s.rec

  unfoldable pub next_tuple : Projection → Option Projection
  next_tuple s = P.next_tuple s.child >>= fill s.rec

  abbrev pub is_end : Projection → Bool
  is_end s = P.is_end s.child

  -- `Next`: a copy of `rec_`.
  unfoldable pub current : Projection → Option (List ℕ)
  current s = some (bytes_at s.rec 0 sel.len)
