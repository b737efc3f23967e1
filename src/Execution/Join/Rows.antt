-- ===== src/Execution/Join/Rows.antt =====
-- The join as an executor: what its calls give, and that its loop ends.
use native.Mathlib.Nat.{mul-le-mul_right}
use cscc_db.Base.{
  ℕ, zero, suc, ◌+◌, ◌*◌, ◌≤◌, ◌<◌, ◌≡◌, refl, ◌≢◌, ◌⊎◌, inl, inr, Bool, true, false, Option, none,
  some, List, [], ◌∷◌, ◌++◌, length, take, drop, arith, ap, ◌∙◌, sym, Option-cases, subst,
}
use cscc_db.Execution.{Executor, Restarts, load, load_lem}
use cscc_db.Execution.Join.{
  Join, Run, done, failed, out_of_fuel, ◌>>=◌, run, refilled, restart_with, moved, next_with,
  next_block, settle, begin_right, begin_left, begin_tuple, next_tuple, current, Row,
}
use cscc_db.Execution.Join.Blocks.{blocks, chunks, join_blocks, with_blocks, length-drop}
use cscc_db.Execution.Join.Turns.{
  first_blocks, take_all, search_lem, later, Pending, measure, Advanced, next_block_lem,
}

Run-cases : {A : Type 0} (r : Run A) → (r ≡ failed) ⊎ (r ≡ out_of_fuel) ⊎ ((a : A) × (r ≡ done a))
Run-cases failed = inl refl
Run-cases out_of_fuel = inr (inl refl)
Run-cases (done a) = inr (inr (a, refl))

run_ends :
    {A B : Type 0} (o : Option A) (f : A → Run B)
    → ((a : A) → f a ≢ out_of_fuel)
    → (run o >>= f) ≢ out_of_fuel
run_ends none f ends e = cc
run_ends (some a) f ends e = ends a e

module _ (left_len right_len : ℕ) (test : Row → Row → Bool) (outer inner : ℕ) (L R : Executor Row)
    (outer_pos : 0 < outer) (inner_pos : 0 < inner) (again : Restarts R) where
  restart_with_ends :
      (j : Join L R) (x : List Row × L.State)
      → restart_with left_len right_len test outer inner L R j x ≢ out_of_fuel
  unfolding restart_with
  restart_with_ends j ([], left) e = cc
  restart_with_ends j (l ∷ ls, left) e =
      run_ends (R.begin_tuple j.right) _ (λ s. run_ends (load R inner s) _ (λ x e. cc)) e

  next_with_ends :
      (j : Join L R) (x : List Row × R.State)
      → next_with left_len right_len test outer inner L R j x ≢ out_of_fuel
  unfolding next_with
  next_with_ends j ([], right) e =
      run_ends (load L outer j.left) _
        (restart_with_ends (moved left_len right_len test outer inner L R j [] right)) e
  next_with_ends j (r ∷ rs, right) e = cc

  next_block_ends :
      (j : Join L R) → next_block left_len right_len test outer inner L R j ≢ out_of_fuel
  next_block_ends j =
      run_ends (load R inner j.right) (next_with left_len right_len test outer inner L R j)
        (λ x. next_with_ends j x)

  -- A pair is at the two indices, or the join has come to its end; `ys` is what it gives from there,
  -- and `fuel` turns are enough for every call.
  pub Stands : ℕ → Join L R → List Row → Type 0
  Stands fuel k ys =
      ((k.is_end ≡ true) × (ys ≡ []))
      ⊎ ((l : Row) × (ls : List Row) × (x : Row) × (xs : List Row) × (lrem : List Row)
          × (rrem : List Row) × (zs : List Row) × (k.is_end ≡ false)
          × (k.left_rest ≡ l ∷ ls)
          × (k.right_rest ≡ x ∷ xs)
          × (ys ≡ (take left_len l ++ take right_len x) ∷ zs)
          × Pending left_len right_len test outer inner L R (record k { right_rest = xs }) lrem rrem
              zs
          × (measure left_len right_len test outer inner L R lrem rrem < fuel))

  -- With more turns than the measure, the loop ends: with the next pair, or at the end.
  pub settle_lem :
      (n fuel : ℕ) (j : Join L R) (lrem rrem ys : List Row)
      → Pending left_len right_len test outer inner L R j lrem rrem ys
      → measure left_len right_len test outer inner L R lrem rrem < n
      → n ≤ fuel
      → (settle left_len right_len test outer inner L R n j ≡ failed)
        ⊎ ((k : Join L R) × (settle left_len right_len test outer inner L R n j ≡ done k)
            × Stands fuel k ys)
  unfolding settle Stands Advanced
  settle_lem zero fuel j lrem rrem ys p lt le = ground arith
  settle_lem (suc n) fuel j lrem rrem ys p lt le =
      elim (search_lem left_len right_len test j.left_rest j.right_save j.right_rest) [
        | inr (l, more, x, xs, found, list) ↦ inr (
          record j { left_rest = l ∷ more; right_rest = x ∷ xs },
          ground (arith, found),
          inr (
            l,
            more,
            x,
            xs,
            lrem,
            rrem,
            _,
            p.running,
            refl,
            refl,
            p.list
                ∙ ap
                    (λ rows.
                      rows ++ later left_len right_len test outer inner L R j.left_save lrem rrem)
                    list,
            record {
              left = p.left;
              right = p.right;
              running = p.running;
              enough = p.enough;
              list = refl;
            },
            omega (arith, lt, le),
          ),
        )
        | inl (nothing, empty) ↦
            elim (Run-cases (next_block left_len right_len test outer inner L R j)) [
              | inl failing ↦ inl (ground (arith, nothing, failing))
              | inr (inl endless) ↦ absurd (next_block_ends j endless)
              | inr (inr ((true, k), stepped)) ↦
                  let (over, none_left) =
                    next_block_lem left_len right_len test outer inner L R outer_pos inner_pos again
                      j lrem rrem ys (true, k) p empty stepped in
                  inr (k, ground (arith, nothing, stepped), inl (over, none_left))
              | inr (inr ((false, k), stepped)) ↦
                  let (lrem', rrem', q, less) =
                    next_block_lem left_len right_len test outer inner L R outer_pos inner_pos again
                      j lrem rrem ys (false, k) p empty stepped in
                  elim (settle_lem n fuel k lrem' rrem' ys q (omega (arith, less, lt))
                    (omega (arith, le))) [
                      | inl failing ↦ inl (ground (arith, nothing, stepped, failing))
                      | inr (m, ends, stands) ↦
                          inr (m, ground (arith, nothing, stepped, ends), stands)
                    ]
            ]
      ]

  -- What the whole join gives.
  abbrev pub joined : List Row
  joined = join_blocks left_len right_len test (blocks outer L.rows) (blocks inner R.rows)

  abbrev pub Enough : ℕ → Type 0
  Enough fuel = length L.rows * suc (length R.rows) + length R.rows < fuel

  join_blocks-nil : (lss : List (List Row)) → join_blocks left_len right_len test lss [] ≡ []
  unfolding join_blocks with_blocks
  join_blocks-nil [] = refl
  join_blocks-nil (ls ∷ lss) = join_blocks-nil lss

  no_right : R.rows ≡ [] → joined ≡ []
  unfolding blocks chunks
  no_right e = rw e (join_blocks-nil (blocks outer L.rows))

  begin_right_lem :
      (fuel : ℕ) (j : Join L R) (l : Row) (ls : List Row) (left : L.State) (x : List Row × R.State)
      → Enough fuel
      → j.is_end ≡ false
      → l ∷ ls ≡ take outer L.rows
      → L.Yields left (drop outer L.rows)
      → x.0 ≡ take inner R.rows
      → R.Yields x.1 (drop inner R.rows)
      → (begin_right left_len right_len test outer inner L R fuel j (l ∷ ls) left x ≡ failed)
        ⊎ ((k : Join L R) × (begin_right left_len right_len test outer inner L R fuel j
                (l ∷ ls)
                left
                x
              ≡ done k)
            × Stands fuel k joined)
  unfolding begin_right Stands
  begin_right_lem fuel j l ls left ([], right) enough going first lmore second rmore = inr (
    record (refilled left_len right_len test outer inner L R j left (l ∷ ls) ([], right)) {
      is_end = true;
    },
    refl,
    inl (
      refl,
      no_right (
          take_all left_len right_len test outer inner L R outer_pos inner_pos again inner R.rows
            inner_pos second),
    ),
  )
  begin_right_lem fuel j l ls left (r ∷ rs, right) enough going first lmore second rmore =
      settle_lem fuel fuel
        (refilled left_len right_len test outer inner L R j left (l ∷ ls) (r ∷ rs, right))
        (drop outer L.rows) (drop inner R.rows) joined
        (record {
          left = lmore;
          right = rmore;
          running = going;
          enough = omega (arith, length-drop inner R.rows);
          list =
              first_blocks left_len right_len test outer inner L R outer_pos inner_pos again L.rows
                l ls (r ∷ rs) first second;
        })
        (omega (
          arith,
          enough,
          length-drop inner R.rows,
          mul-le-mul_right {m = length (drop outer L.rows)} {n = length L.rows}
              (suc (length R.rows)) (omega (arith, length-drop outer L.rows)),
        ))
        (omega arith)

  begin_left_lem :
      (fuel : ℕ) (j : Join L R) (x : List Row × L.State)
      → Enough fuel
      → j.is_end ≡ false
      → R.IsReady j.right
      → x.0 ≡ take outer L.rows
      → L.Yields x.1 (drop outer L.rows)
      → (begin_left left_len right_len test outer inner L R fuel j x ≡ failed)
        ⊎ ((k : Join L R) × (begin_left left_len right_len test outer inner L R fuel j x ≡ done k)
            × Stands fuel k joined)
  unfolding begin_left Stands join_blocks blocks chunks
  begin_left_lem fuel j ([], left) enough going ready first lmore = inr (
    _,
    refl,
    inl (
      refl,
      rw
          (take_all left_len right_len test outer inner L R outer_pos inner_pos again outer L.rows
            outer_pos first)
          refl,
    ),
  )
  begin_left_lem fuel j (l ∷ ls, left) enough going ready first lmore =
      elim (Option-cases (R.begin_tuple j.right)) [
        | inl thrown ↦ inl (ground (arith, thrown))
        | inr (begun, b) ↦ elim (Option-cases (load R inner begun)) [
          | inl thrown ↦ inl (ground (arith, b, thrown))
          | inr (x, loaded) ↦
              let (second, rmore) =
                load_lem R inner begun x.1 R.rows x.0 (R.begun j.right begun ready b) loaded in
              rw (b, loaded)
                (begin_right_lem fuel j l ls left x enough going first lmore second rmore)
        ]
      ]

  -- If no call of the two executors throws, `beginTuple` of a join that has not come to its end
  -- ends, with at most (n + 1) * (m + 1) turns of its loop for n left and m right rows; the join then
  -- stands at the first of its rows, or has come to its end if there is none.
  pub begin_tuple_lem :
      (fuel : ℕ) (j : Join L R)
      → Enough fuel
      → L.IsReady j.left
      → R.IsReady j.right
      → j.is_end ≡ false
      → (begin_tuple left_len right_len test outer inner L R fuel j ≡ failed)
        ⊎ ((k : Join L R) × (begin_tuple left_len right_len test outer inner L R fuel j ≡ done k)
            × Stands fuel k joined)
  unfolding begin_tuple
  begin_tuple_lem fuel j enough lready rready going = elim (Option-cases (L.begin_tuple j.left)) [
    | inl thrown ↦ inl (ground (arith, thrown))
    | inr (begun, b) ↦ elim (Option-cases (load L outer begun)) [
      | inl thrown ↦ inl (ground (arith, b, thrown))
      | inr (x, loaded) ↦
          let (first, lmore) =
            load_lem L outer begun x.1 L.rows x.0 (L.begun j.left begun lready b) loaded in
          rw (b, loaded) (begin_left_lem fuel j x enough going rready first lmore)
    ]
  ]

  -- If no call of the two executors throws, `nextTuple` ends, and the join stands at the next of its
  -- rows, or has come to its end if there is none.
  pub next_tuple_lem :
      (fuel : ℕ) (j : Join L R) (row : Row) (rows : List Row)
      → Stands fuel j (row ∷ rows)
      → (current left_len right_len test outer inner L R j ≡ some row)
        × (j.is_end ≡ false)
        × ((next_tuple left_len right_len test outer inner L R fuel j ≡ failed)
            ⊎ ((k : Join L R) × (next_tuple left_len right_len test outer inner L R fuel j ≡ done k)
                × Stands fuel k rows))
  unfolding next_tuple Stands current
  next_tuple_lem fuel j row rows (inl (over, nothing)) = cc
  next_tuple_lem fuel j row rows
        (inr (l, ls, x, xs, lrem, rrem, zs, going, left, right, list, p, less)) =
      let same : record j { right_rest = xs } ≡ record j { right_rest = drop 1 j.right_rest } =
        ap (λ rs. record j { right_rest = drop 1 rs }) (sym right) in
      let rest : zs ≡ rows = ground (arith, list) in
      (
        ground (arith, left, right, list),
        going,
        subst
            (λ (i : Join L R).
              (settle left_len right_len test outer inner L R fuel i ≡ failed)
              ⊎ ((k : Join L R) × (settle left_len right_len test outer inner L R fuel i ≡ done k)
                  × Stands fuel k rows))
            same
            (subst
              (λ (ys : List Row).
                (settle left_len right_len test outer inner L R fuel (record j { right_rest = xs })
                  ≡ failed)
                ⊎ ((k : Join L R) × (settle left_len right_len test outer inner L R fuel
                        (record j { right_rest = xs })
                      ≡ done k)
                    × Stands fuel k ys))
              rest
              (settle_lem fuel fuel (record j { right_rest = xs }) lrem rrem zs p less
                (omega arith))),
      )

  abbrev to_option : {A : Type 0} → Run A → Option A
  to_option failed = none
  to_option out_of_fuel = none
  to_option (done a) = some a

  pub Stands-nil : (fuel : ℕ) (j : Join L R) → Stands fuel j [] → j.is_end ≡ true
  unfolding Stands
  Stands-nil fuel j (inl (over, nothing)) = over
  Stands-nil fuel j (inr (l, ls, x, xs, lrem, rrem, zs, going, left, right, list, p, less)) = cc

  pub ended_well :
      {A : Type 0} (P : A → Type 0) (r : Run A) (a : A)
      → (r ≡ failed) ⊎ ((k : A) × (r ≡ done k) × P k)
      → to_option r ≡ some a
      → P a
  ended_well P r a (inl thrown) e = ground (arith, e, thrown)
  ended_well P r a (inr (k, ends, holds)) e = subst P (ground (arith, e, ends)) holds

  -- The join is an executor, over executors.
  abbrev pub join_executor : (fuel : ℕ) → Enough fuel → Executor Row
  join_executor fuel enough = record {
    State = Join L R;
    begin_tuple = λ j. to_option (begin_tuple left_len right_len test outer inner L R fuel j);
    next_tuple = λ j. to_option (next_tuple left_len right_len test outer inner L R fuel j);
    is_end = λ j. j.is_end;
    current = current left_len right_len test outer inner L R;
    rows = joined;
    IsReady = λ j. L.IsReady j.left × R.IsReady j.right × (j.is_end ≡ false);
    Yields = Stands fuel;
    begun = λ j k ready e.
        ended_well (λ k. Stands fuel k joined) _ k
          (begin_tuple_lem fuel j enough ready.0 ready.1 ready.2) e;
    ended = Stands-nil fuel;
    going = λ j x xs stands.
        let (row, going, step) = next_tuple_lem fuel j x xs stands in
        (going, row, λ k e. ended_well (λ k. Stands fuel k xs) _ k step e);
  }
