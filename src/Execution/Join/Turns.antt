-- ===== src/Execution/Join/Turns.antt =====
-- One turn of the join's loop: the search, and the step to the next block.
use native.Mathlib.Nat.{mul-le-mul_right}
use mathlib.Core.List.{append_assoc}
use cscc_db.Base.{
  ℕ, zero, suc, ◌+◌, ◌*◌, ◌≤◌, ◌<◌, ◌≡◌, refl, ◌⊎◌, inl, inr, Bool, true, false, Option, none, some,
  List, [], ◌∷◌, ◌++◌, length, take, drop, arith, ap, ◌∙◌, sym, Bool-cases, subst, ◌≢◌,
}
use cscc_db.Execution.{Executor, Restarts, load, load_lem}
use cscc_db.Execution.Join.{
  Join, Run, done, ◌>>=◌, run, search_right, search, refilled, restart_with, moved, next_with,
  next_block, Row,
}
use cscc_db.Execution.Join.Blocks.{
  blocks, chunks, blocks-cons, length-drop, matches_with, matches, with_blocks, join_blocks,
}

take-nil : {A : Type 0} (n : ℕ) → take {A = A} n [] ≡ []
take-nil zero = refl
take-nil (suc n) = refl

drop-nil : {A : Type 0} (n : ℕ) → drop {A = A} n [] ≡ []
drop-nil zero = refl
drop-nil (suc n) = refl

pub run_then :
    {A B : Type 0} (o : Option A) (f : A → Run B) {b : B}
    → (run o >>= f) ≡ done b
    → (a : A) × (o ≡ some a) × (f a ≡ done b)
run_then none f e = cc
run_then (some a) f e = (a, refl, e)

module _ (left_len right_len : ℕ) (test : Row → Row → Bool) where
  -- The pairs from the two indices on, in the blocks at hand.
  unfoldable pub remaining : List Row → List Row → List Row → List Row
  remaining [] save rest = []
  remaining (l ∷ ls) save rest =
      matches_with left_len right_len test l rest ++ matches left_len right_len test ls save

  search_right_lem :
      (l : Row) (rs : List Row)
      → ((search_right left_len right_len test l rs ≡ none)
          × (matches_with left_len right_len test l rs ≡ []))
        ⊎ ((x : Row) × (xs : List Row) × (search_right left_len right_len test l rs ≡ some (x ∷ xs))
            × (matches_with left_len right_len test l rs
                ≡ (take left_len l ++ take right_len x)
                  ∷ matches_with left_len right_len test l xs))
  unfolding search_right matches_with
  search_right_lem l [] = inl (refl, refl)
  search_right_lem l (x ∷ xs) = elim (Bool-cases (test l x)) [
    | inl e ↦ rw e (inr (x, xs, refl, refl))
    | inr e ↦ rw e (search_right_lem l xs)
  ]

  remaining-start :
      (ls save : List Row) → remaining ls save save ≡ matches left_len right_len test ls save
  unfolding remaining matches
  remaining-start [] save = refl
  remaining-start (l ∷ ls) save = refl

  -- The search finds the first of the remaining pairs, or there is none.
  pub search_lem :
      (ls save rest : List Row)
      → ((search left_len right_len test ls save rest ≡ none) × (remaining ls save rest ≡ []))
        ⊎ ((l : Row) × (more : List Row) × (x : Row) × (xs : List Row) × (search left_len right_len
                test ls save rest
              ≡ some (l ∷ more, x ∷ xs))
            × (remaining ls save rest
                ≡ (take left_len l ++ take right_len x) ∷ remaining (l ∷ more) save xs))
  unfolding search remaining matches
  search_lem [] save rest = inl (refl, refl)
  search_lem (l ∷ ls) save rest = elim (search_right_lem l rest) [
    | inr (x, xs, found, list) ↦ inr (
      l,
      ls,
      x,
      xs,
      ground (arith, found),
      ap (λ rows. rows ++ matches left_len right_len test ls save) list,
    )
    | inl (nothing, list) ↦
        let same : remaining (l ∷ ls) save rest ≡ remaining ls save save =
          ap (λ rows. rows ++ matches left_len right_len test ls save) list
          ∙ sym (remaining-start ls save) in
        elim (search_lem ls save save) [
          | inl (none_left, empty) ↦ inl (ground (arith, nothing, none_left), same ∙ empty)
          | inr (m, more, x, xs, found, rows) ↦
              inr (m, more, x, xs, ground (arith, nothing, found), same ∙ rows)
        ]
  ]

module _ (left_len right_len : ℕ) (test : Row → Row → Bool) (outer inner : ℕ)
    (L R : Executor Row) where
  -- What is to come after the blocks at hand, if `lrem` and `rrem` are left of the two sides.
  abbrev pub later : List Row → List Row → List Row → List Row
  later ls lrem rrem =
      with_blocks left_len right_len test ls (blocks inner rrem)
      ++ join_blocks left_len right_len test (blocks outer lrem) (blocks inner R.rows)

  -- Before a search: `ys` is to come.
  pub record Pending (j : Join L R) (lrem rrem ys : List Row) : Type 0 where
    pub left : L.Yields j.left lrem
    pub right : R.Yields j.right rrem
    pub running : j.is_end ≡ false
    pub enough : length rrem ≤ length R.rows
    pub list :
        ys
        ≡ remaining left_len right_len test j.left_rest j.right_save j.right_rest
          ++ later j.left_save lrem rrem

  -- How many turns there may be.
  abbrev pub measure : List Row → List Row → ℕ
  measure lrem rrem = length lrem * suc (length R.rows) + length rrem

  -- The loop returns at the join's end, or goes on to a turn that is nearer to it.
  unfoldable pub Advanced : Bool × Join L R → ℕ → List Row → Type 0
  Advanced (true, k) n ys = (k.is_end ≡ true) × (ys ≡ [])
  Advanced (false, k) n ys =
      (lrem : List Row) × (rrem : List Row) × Pending k lrem rrem ys × (measure lrem rrem < n)

  module _ (outer_pos : 0 < outer) (inner_pos : 0 < inner) (again : Restarts R) where
    fewer : (a b n r : ℕ) → a < b → r < suc n → a * suc n + r < b * suc n
    fewer a b n r lt small = omega (arith, mul-le-mul_right {m = suc a} {n = b} (suc n) lt, small)

    matches-nil : (ls : List Row) → matches left_len right_len test ls [] ≡ []
    unfolding matches matches_with
    matches-nil [] = refl
    matches-nil (l ∷ ls) = matches-nil ls

    take_some : (n : ℕ) (x : Row) (xs : List Row) → 0 < n → take n (x ∷ xs) ≢ []
    take_some zero x xs pos_n e = ground arith
    take_some (suc n) x xs pos_n e = cc

    -- The first right block and the others.
    with_blocks_step :
        (ls rrem : List Row)
        → with_blocks left_len right_len test ls (blocks inner rrem)
          ≡ matches left_len right_len test ls (take inner rrem)
            ++ with_blocks left_len right_len test ls (blocks inner (drop inner rrem))
    unfolding with_blocks
    with_blocks_step ls [] =
        rw (take-nil {A = Row} inner, drop-nil {A = Row} inner)
          (sym (
            ap (λ rows. rows ++ with_blocks left_len right_len test ls (blocks inner []))
              (matches-nil ls)))
    with_blocks_step ls (x ∷ rrem) = rw (blocks-cons inner x rrem inner_pos) refl

    join_blocks_step :
        (m : Row) (lrem : List Row)
        → join_blocks left_len right_len test (blocks outer (m ∷ lrem)) (blocks inner R.rows)
          ≡ remaining left_len right_len test
              (take outer (m ∷ lrem))
              (take inner R.rows)
              (take inner R.rows)
            ++ later (take outer (m ∷ lrem)) (drop outer (m ∷ lrem)) (drop inner R.rows)
    unfolding join_blocks
    join_blocks_step m lrem =
        let ls = take outer (m ∷ lrem) in
        rw (blocks-cons outer m lrem outer_pos) (
          ap
            (λ rows.
              rows
              ++ join_blocks left_len right_len test (blocks outer (drop outer (m ∷ lrem)))
                  (blocks inner R.rows))
            (with_blocks_step ls R.rows
              ∙ ap
                  (λ rows.
                    rows
                    ++ with_blocks left_len right_len test ls (blocks inner (drop inner R.rows)))
                  (sym (remaining-start left_len right_len test ls (take inner R.rows))))
          ∙ append_assoc
              (remaining left_len right_len test ls (take inner R.rows) (take inner R.rows))
              (with_blocks left_len right_len test ls (blocks inner (drop inner R.rows)))
              (join_blocks left_len right_len test (blocks outer (drop outer (m ∷ lrem)))
                (blocks inner R.rows)))

    -- All rows, when the first blocks are at hand.
    pub first_blocks :
        (xs : List Row) (l : Row) (ls rs : List Row)
        → l ∷ ls ≡ take outer xs
        → rs ≡ take inner R.rows
        → join_blocks left_len right_len test (blocks outer xs) (blocks inner R.rows)
          ≡ remaining left_len right_len test (l ∷ ls) rs rs
            ++ later (l ∷ ls) (drop outer xs) (drop inner R.rows)
    first_blocks [] l ls rs first second = ground (arith, first, take-nil {A = Row} outer)
    first_blocks (m ∷ xs) l ls rs first second = rw (first, second) (join_blocks_step m xs)

    pub take_all : (n : ℕ) (xs : List Row) → 0 < n → [] ≡ take n xs → xs ≡ []
    take_all n [] pos_n e = refl
    take_all n (x ∷ xs) pos_n e = absurd (take_some n x xs pos_n (sym e))

    -- The right executor begins again for the next left block.
    restart_with_lem :
        (j : Join L R) (lrem ls ys : List Row) (left : L.State) (k : Bool × Join L R)
        → j.is_end ≡ false
        → R.IsReady j.right
        → L.Yields left (drop outer lrem)
        → ls ≡ take outer lrem
        → ys ≡ join_blocks left_len right_len test (blocks outer lrem) (blocks inner R.rows)
        → restart_with left_len right_len test outer inner L R j (ls, left) ≡ done k
        → Advanced k (length lrem * suc (length R.rows)) ys
    unfolding restart_with Advanced join_blocks blocks chunks
    restart_with_lem j [] [] ys left k going ready yields same list e =
        let same_k : (true, record j { left = left; left_save = []; left_rest = []; is_end = true })
            ≡ k =
          ground (arith, e) in
        subst (λ k. Advanced k (length {A = Row} [] * suc (length R.rows)) ys) same_k (refl, list)
    restart_with_lem j (m ∷ lrem) [] ys left k going ready yields same list e =
        absurd (take_some outer m lrem outer_pos (sym same))
    restart_with_lem j [] (l ∷ ls) ys left k going ready yields same list e =
        ground (arith, same, take-nil {A = Row} outer)
    restart_with_lem j (m ∷ lrem) (l ∷ ls) ys left k going ready yields same list e =
        let (begun, b, rest) =
          run_then (R.begin_tuple j.right)
            (λ s. run (load R inner s) >>= λ x.
              done (false, refilled left_len right_len test outer inner L R j left (l ∷ ls) x))
            e in
        let ((rs, right), loaded, last) =
          run_then (load R inner begun)
            (λ x. done (false, refilled left_len right_len test outer inner L R j left (l ∷ ls) x))
            rest in
        let (first, more) =
          load_lem R inner begun right R.rows rs (R.begun j.right begun ready b) loaded in
        let same_k : (
          false,
          refilled left_len right_len test outer inner L R j left (l ∷ ls) (rs, right),
        )
            ≡ k =
          ground (arith, last) in
        subst (λ k. Advanced k (length (m ∷ lrem) * suc (length R.rows)) ys) same_k
          (
            drop outer (m ∷ lrem),
            drop inner R.rows,
            (record {
              left = yields;
              right = more;
              running = going;
              enough = omega (arith, length-drop inner R.rows);
              list = rw (first, same) (list ∙ join_blocks_step m lrem);
            }),
            fewer (length (drop outer (m ∷ lrem))) (length (m ∷ lrem)) (length R.rows)
                (length (drop inner R.rows))
                (omega (arith, length-drop outer (m ∷ lrem), outer_pos))
                (omega (arith, length-drop inner R.rows)),
          )

    later-nil :
        (ls lrem : List Row)
        → later ls lrem []
          ≡ join_blocks left_len right_len test (blocks outer lrem) (blocks inner R.rows)
    unfolding with_blocks blocks chunks
    later-nil ls lrem = refl

    later_step :
        (ls lrem rrem : List Row)
        → later ls lrem rrem
          ≡ remaining left_len right_len test ls (take inner rrem) (take inner rrem)
            ++ later ls lrem (drop inner rrem)
    later_step ls lrem rrem =
        let rest = join_blocks left_len right_len test (blocks outer lrem) (blocks inner R.rows) in
        let rs = take inner rrem in
        ap (λ rows. rows ++ rest)
          (with_blocks_step ls rrem
            ∙ ap
                (λ rows.
                  rows ++ with_blocks left_len right_len test ls (blocks inner (drop inner rrem)))
                (sym (remaining-start left_len right_len test ls rs)))
        ∙ append_assoc (remaining left_len right_len test ls rs rs)
            (with_blocks left_len right_len test ls (blocks inner (drop inner rrem))) rest

    -- The next right block is given.
    next_with_lem :
        (j : Join L R) (lrem rrem rs ys : List Row) (right : R.State) (k : Bool × Join L R)
        → Pending j lrem rrem ys
        → ys ≡ later j.left_save lrem rrem
        → R.Yields right (drop inner rrem)
        → rs ≡ take inner rrem
        → next_with left_len right_len test outer inner L R j (rs, right) ≡ done k
        → Advanced k (measure lrem rrem) ys
    unfolding next_with Advanced
    next_with_lem j lrem [] [] ys right k p list yields same e =
        let ready = again right (subst (R.Yields right) (drop-nil inner) yields) in
        let ((ls, left), loaded, rest) =
          run_then (load L outer j.left)
            (restart_with left_len right_len test outer inner L R
              (moved left_len right_len test outer inner L R j [] right))
            e in
        let (first, more) = load_lem L outer j.left left lrem ls p.left loaded in
        subst (λ n. Advanced k n ys) (omega arith)
          (restart_with_lem (moved left_len right_len test outer inner L R j [] right) lrem ls ys
            left k p.running ready more first (list ∙ later-nil j.left_save lrem) rest)
    next_with_lem j lrem (x ∷ rrem) [] ys right k p list yields same e =
        absurd (take_some inner x rrem inner_pos (sym same))
    next_with_lem j lrem [] (r ∷ rs) ys right k p list yields same e =
        ground (arith, same, take-nil {A = Row} inner)
    next_with_lem j lrem (x ∷ rrem) (r ∷ rs) ys right k p list yields same e =
        let same_k : (false, moved left_len right_len test outer inner L R j (r ∷ rs) right) ≡ k =
          ground (arith, e) in
        subst (λ k. Advanced k (measure lrem (x ∷ rrem)) ys) same_k
          (
            lrem,
            drop inner (x ∷ rrem),
            (record {
              left = p.left;
              right = yields;
              running = p.running;
              enough = omega (arith, length-drop inner (x ∷ rrem), p.enough);
              list =
                  subst
                    (λ rs.
                      ys
                      ≡ remaining left_len right_len test j.left_save rs rs
                        ++ later j.left_save lrem (drop inner (x ∷ rrem)))
                    (sym same) (list ∙ later_step j.left_save lrem (x ∷ rrem));
            }),
            omega (arith, length-drop inner (x ∷ rrem), inner_pos),
          )

    -- A turn of the loop that finds no pair.
    pub next_block_lem :
        (j : Join L R) (lrem rrem ys : List Row) (k : Bool × Join L R)
        → Pending j lrem rrem ys
        → remaining left_len right_len test j.left_rest j.right_save j.right_rest ≡ []
        → next_block left_len right_len test outer inner L R j ≡ done k
        → Advanced k (measure lrem rrem) ys
    next_block_lem j lrem rrem ys k p nothing e =
        let ((rs, right), loaded, rest) =
          run_then (load R inner j.right) (next_with left_len right_len test outer inner L R j) e in
        let (first, more) = load_lem R inner j.right right rrem rs p.right loaded in
        next_with_lem j lrem rrem rs ys right k p
          (p.list ∙ ap (λ rows. rows ++ later j.left_save lrem rrem) nothing) more first rest
