-- ===== src/Execution/Projection/Fields.antt =====
-- The fields that a projection copies stand one after the other.
use mathlib.Core.Logic.{ite}
use mathlib.Core.List.{List-discrete}
use native.Mathlib.Decide.{ℕ_discrete}
use cscc_db.Base.{
  true, ◌↔◌, ℕ, suc, ◌+◌, ◌-◌, ◌≤◌, ◌≡◌, refl, inl, inr, none, some, List, [], ◌∷◌, ◌++◌, length,
  get_elem?, arith, ap, ◌∙◌, sym, Bool-cases, Option-cases, subst, Option,
}
use cscc_db.Log.Memory.{
  Memory, memcpy, bytes_at, bytes_at-memcpy_other, bytes_at-memcpy_same, length-bytes_at,
  bytes_at-+,
}
use cscc_db.Execution.{◌>>=◌, >>=-eq-some}
use cscc_db.Execution.Projection.{
  ColMeta, TabCol, same_text, get_col, is_named, Selected, add_col, select_cols, copy_cols,
}

unfoldable pub text_discrete : Discrete (List ℕ)
text_discrete = List-discrete ℕ_discrete

-- The column of a table and a name: the first of those with both names.
unfoldable pub column_of : List ColMeta → List ℕ → List ℕ → Option ColMeta
column_of [] table name = none
column_of (col ∷ cols) table name =
    let rest = column_of cols table name in
    ite (text_discrete col.tab_name table) (ite (text_discrete col.name name) (some col) rest) rest

-- The fields of a row that the columns of those names have.
unfoldable pub project : List ColMeta → List TabCol → Memory → List ℕ
project prev [] row = []
project prev (target ∷ targets) row =
    let rest = project prev targets row in
    elim (column_of prev target.tab_name target.col_name) [
      | none ↦ []
      | some col ↦ bytes_at row col.offset col.len ++ rest
    ]

same_text_iff : (s t : List ℕ) → same_text s t ≡ true ↔ (s ≡ t)
unfolding same_text
same_text_iff [] [] = ((λ e. refl), (λ e. refl))
same_text_iff [] (b ∷ t) = ((λ e. cc), (λ e. cc))
same_text_iff (a ∷ s) [] = ((λ e. cc), (λ e. cc))
same_text_iff (a ∷ s) (b ∷ t) = ground (arith, same_text_iff s t)

is_named_iff :
    (target : TabCol) (c : ColMeta)
    → is_named target c ≡ true ↔ ((c.tab_name ≡ target.tab_name) × (c.name ≡ target.col_name))
is_named_iff target c =
    ground (arith, same_text_iff c.tab_name target.tab_name, same_text_iff c.name target.col_name)

-- `get_col` finds that column.
get_col-column_of :
    (prev : List ColMeta) (target : TabCol) (i : ℕ) (col : ColMeta)
    → get_col prev target ≡ some (i, col)
    → column_of prev target.tab_name target.col_name ≡ some col
unfolding get_col column_of
get_col-column_of [] target i col e = cc
get_col-column_of (c ∷ cols) target i col e =
    let same = is_named_iff target c in
    elim (Option-cases (get_col cols target)) [
      | inl absent ↦ ground (arith, e, same, absent)
      | inr ((j, d), there) ↦
          ground (arith, e, same, there, get_col-column_of cols target j d there)
    ]

-- The index that `get_col` finds is that of the column.
get_elem?-get_col :
    (prev : List ColMeta) (target : TabCol) (i : ℕ) (col : ColMeta)
    → get_col prev target ≡ some (i, col)
    → get_elem? prev i ≡ some col
unfolding get_col
get_elem?-get_col [] target i col e = cc
get_elem?-get_col (c ∷ cols) target i col e = elim (Bool-cases (is_named target c)) [
  | inl here ↦ ground (arith, e, here)
  | inr other ↦ elim (Option-cases (get_col cols target)) [
    | inl absent ↦ ground (arith, e, other, absent)
    | inr ((j, d), there) ↦
        let index : suc j ≡ i = ground (arith, e, other, there) in
        let column : d ≡ col = ground (arith, e, other, there) in
        subst (λ i. get_elem? (c ∷ cols) i ≡ some col) index
          (get_elem?-get_col cols target j d there ∙ ap some column)
  ]
]

project_found :
    (prev : List ColMeta) (target : TabCol) (targets : List TabCol) (row : Memory) (i : ℕ)
    (col : ColMeta)
    → get_col prev target ≡ some (i, col)
    → bytes_at row col.offset col.len ++ project prev targets row
      ≡ project prev (target ∷ targets) row
unfolding project
project_found prev target targets row i col e =
    rw (get_col-column_of prev target i col e, project) refl

copy_cols_found :
    (prev : List ColMeta) (row rec : Memory) (i : ℕ) (idxs : List ℕ) (this col : ColMeta)
    (cols : List ColMeta)
    → get_elem? prev i ≡ some col
    → copy_cols prev row rec (i ∷ idxs) (this ∷ cols)
      ≡ copy_cols prev row (memcpy rec this.offset (bytes_at row col.offset col.len)) idxs cols
unfolding copy_cols
copy_cols_found prev row rec i idxs this col cols e = rw e refl

nothing_at : (m : Memory) (at : ℕ) → bytes_at m at 0 ≡ []
unfolding bytes_at
nothing_at m at = refl

-- The loop returns; the fields come from `at` on, and nothing before it is written.
abbrev pub Copied : List ColMeta → Memory → Memory → ℕ → List TabCol → Selected → Type 0
Copied prev row rec at targets sel =
    (at ≤ sel.len)
    × (m : Memory) × (copy_cols prev row rec sel.sel_idxs sel.cols ≡ some m)
    × (bytes_at m at (sel.len - at) ≡ project prev targets row)
    × ((b n : ℕ) → b + n ≤ at → bytes_at m b n ≡ bytes_at rec b n)

pub copy_cols_lem :
    (prev : List ColMeta) (row rec : Memory) (at : ℕ) (targets : List TabCol) (sel : Selected)
    → select_cols prev at targets ≡ some sel
    → Copied prev row rec at targets sel
unfolding select_cols copy_cols project
copy_cols_lem prev row rec at [] sel e =
    let shape : record { sel_idxs = []; cols = []; len = at } ≡ sel = ground (arith, e) in
    let over : at - at ≡ 0 = omega arith in
    subst (Copied prev row rec at []) shape
      (omega arith, rec, refl, ap (bytes_at rec at) over ∙ nothing_at rec at, λ b n le. refl)
copy_cols_lem prev row rec at (target ∷ targets) sel e =
    let ((i, col), found, rest) =
      >>=-eq-some (get_col prev target)
        (λ (i, col).
          select_cols prev (at + col.len) targets >>= λ rest. some (add_col i at col rest))
        e in
    let (later, selected, last) =
      >>=-eq-some (select_cols prev (at + col.len) targets) (λ rest. some (add_col i at col rest))
        rest in
    let field = bytes_at row col.offset col.len in
    let width : length field ≡ col.len = length-bytes_at row col.offset col.len in
    let (le, m, copied, fields, below) =
      copy_cols_lem prev row (memcpy rec at field) (at + col.len) targets later selected in
    let first : bytes_at m at col.len ≡ field =
      below at col.len (omega arith)
      ∙ ap (bytes_at (memcpy rec at field) at) (sym width)
      ∙ bytes_at-memcpy_same rec at field in
    let shape : add_col i at col later ≡ sel = ground (arith, last) in
    let parts : later.len - at ≡ col.len + (later.len - (at + col.len)) = omega (arith, le) in
    subst (Copied prev row rec at (target ∷ targets)) shape (
      omega (arith, le),
      m,
      copy_cols_found prev row rec i later.sel_idxs (record col { offset = at }) col later.cols
            (get_elem?-get_col prev target i col found)
          ∙ copied,
      ap (bytes_at m at) parts
          ∙ bytes_at-+ m at col.len (later.len - (at + col.len))
          ∙ ap (λ bs. bs ++ bytes_at m (at + col.len) (later.len - (at + col.len))) first
          ∙ ap (λ bs. field ++ bs) fields
          ∙ project_found prev target targets row i col found,
      λ b n low. below b n (omega (arith, low)) ∙ bytes_at-memcpy_other rec at field b n (inr low),
    )
