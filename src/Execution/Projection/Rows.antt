-- ===== src/Execution/Projection/Rows.antt =====
-- A projection as an executor: it gives the selected fields of each row.
use cscc_db.Base.{
  ℕ, ◌-◌, ◌<◌, ◌≡◌, refl, true, false, Option, some, List, [], ◌∷◌, length, map, arith, ap, ◌∙◌,
  subst,
}
use cscc_db.Log.Memory.{Memory, bytes_at}
use cscc_db.Execution.{Executor, >>=-eq-some, drain, drain_lem}
use cscc_db.Execution.Projection.{
  ColMeta, TabCol, Selected, select_cols, Projection, fill, begin_tuple, next_tuple, is_end,
  current,
}
use cscc_db.Execution.Projection.Fields.{project, copy_cols_lem}

module _ {Row : Type 0} (data_of : Row → Memory) (P : Executor Row) (prev : List ColMeta)
    (targets : List TabCol) (sel : Selected)
    (selected : select_cols prev 0 targets ≡ some sel) where
  -- The selected fields of the rows of the child.
  abbrev pub fields_of : Row → List ℕ
  fields_of row = project prev targets (data_of row)

  -- `rec_` holds the fields of the row that the child stands at.
  pub Yields : Projection data_of P prev sel → List (List ℕ) → Type 0
  Yields s ys =
      (xs : List Row) × P.Yields s.child xs
      × (ys ≡ map fields_of xs)
      × ((x : Row) (rest : List Row) → xs ≡ x ∷ rest → bytes_at s.rec 0 sel.len ≡ fields_of x)

  fill_rows :
      (rec : Memory) (t : P.State) (u : Projection data_of P prev sel) (xs : List Row)
      → P.Yields t xs
      → fill data_of P prev sel rec t ≡ some u
      → Yields u (map fields_of xs)
  unfolding fill Yields
  fill_rows rec t u [] y e =
      let child : t ≡ u.child = ground (arith, e, P.ended t y) in
      ([], subst (λ t. P.Yields t []) child y, refl, λ x rest nothing. cc)
  fill_rows rec t u (x ∷ xs) y e =
      let (more, at, step) = P.going t x xs y in
      let (le, m, copied, fields, below) =
        copy_cols_lem prev (data_of x) rec 0 targets sel selected in
      let child : t ≡ u.child = ground (arith, e, more, at, copied) in
      let filled : m ≡ u.rec = ground (arith, e, more, at, copied) in
      let all : sel.len - 0 ≡ sel.len = omega arith in
      let here : bytes_at m 0 sel.len ≡ fields_of x =
        subst (λ n. bytes_at m 0 n ≡ fields_of x) all fields in
      (
        x ∷ xs,
        subst (λ t. P.Yields t (x ∷ xs)) child y,
        refl,
        λ z rest same.
            subst (λ (m : Memory). bytes_at m 0 sel.len ≡ fields_of x) filled here
            ∙ ap fields_of (ground (arith, same)),
      )

  pub begin_tuple_rows :
      (s u : Projection data_of P prev sel)
      → P.IsReady s.child
      → begin_tuple data_of P prev sel s ≡ some u
      → Yields u (map fields_of P.rows)
  unfolding begin_tuple
  begin_tuple_rows s u ready e =
      let (t, begun, rest) =
        >>=-eq-some (P.begin_tuple s.child) (fill data_of P prev sel s.rec) e in
      fill_rows s.rec t u P.rows (P.begun s.child t ready begun) rest

  pub projection_ended :
      (s : Projection data_of P prev sel) → Yields s [] → is_end data_of P prev sel s ≡ true
  unfolding Yields
  projection_ended s ([], y, list, first) = P.ended s.child y
  projection_ended s (x ∷ xs, y, list, first) = cc

  pub projection_going :
      (s : Projection data_of P prev sel) (y : List ℕ) (ys : List (List ℕ))
      → Yields s (y ∷ ys)
      → (is_end data_of P prev sel s ≡ false)
        × (current data_of P prev sel s ≡ some y)
        × ((u : Projection data_of P prev sel)
            → next_tuple data_of P prev sel s ≡ some u
            → Yields u ys)
  unfolding Yields current next_tuple
  projection_going s y ys ([], at, list, first) = cc
  projection_going s y ys (x ∷ xs, at, list, first) =
      let (more, _, step) = P.going s.child x xs at in
      let here : fields_of x ≡ y = ground (arith, list) in
      let rest : map fields_of xs ≡ ys = ground (arith, list) in
      (
        more,
        ap some (first x xs refl ∙ here),
        λ u e.
            let (t, stepped, last) =
              >>=-eq-some (P.next_tuple s.child) (fill data_of P prev sel s.rec) e in
            subst (Yields u) rest (fill_rows s.rec t u xs (step t stepped) last),
      )

  -- The projection of an executor as an executor.
  abbrev pub projection_executor : Executor (List ℕ)
  projection_executor = record {
    State = Projection data_of P prev sel;
    begin_tuple = begin_tuple data_of P prev sel;
    next_tuple = next_tuple data_of P prev sel;
    is_end = is_end data_of P prev sel;
    current = current data_of P prev sel;
    rows = map fields_of P.rows;
    IsReady = λ s. P.IsReady s.child;
    Yields = Yields;
    begun = begin_tuple_rows;
    ended = projection_ended;
    going = projection_going;
  }

  -- The loop that runs a query over a projection, with more fuel than there are rows: if no call of
  -- the child throws, it comes to its end, and has given for each row of the child, in their order,
  -- the selected fields one after the other, each found by its table's and its own name.
  pub drain-projection_executor :
      (fuel : ℕ) (s : Projection data_of P prev sel) (found : Option (List (List ℕ)))
      → P.IsReady s.child
      → length (map fields_of P.rows) < fuel
      → drain projection_executor fuel s ≡ some found
      → found ≡ some (map fields_of P.rows)
  drain-projection_executor fuel s found ready lt =
      drain_lem projection_executor fuel s found ready lt
