-- ===== src/Execution/Join/Pairs.antt =====
-- The rows of a join by blocks are those of the two plain loops, in another order.
use mathlib.Core.List.Perm
use mathlib.Core.List.{Perm, perm_middle, append_assoc, append-nil}
use cscc_db.Base.{
  ℕ, zero, suc, ◌≤◌, ◌<◌, ◌≡◌, refl, Bool, false, Option, some, List, [], ◌∷◌, ◌++◌, length, take,
  drop, arith, ap, ◌∙◌, sym, subst,
}
use cscc_db.Execution.{Executor, Restarts, drain, drain_lem}
use cscc_db.Execution.Join.{Join, Row}
use cscc_db.Execution.Join.Blocks.{
  blocks, chunks, length-drop, matches_with, matches, with_blocks, join_blocks,
}
use cscc_db.Execution.Join.Rows.{join_executor, Enough, joined}

module _ {A : Type 0} where
  unfoldable pub concat : List (List A) → List A
  concat [] = []
  concat (xs ∷ xss) = xs ++ concat xss

  take-drop : (n : ℕ) (xs : List A) → take n xs ++ drop n xs ≡ xs
  take-drop zero xs = refl
  take-drop (suc n) [] = refl
  take-drop (suc n) (x ∷ xs) = ap (λ l. x ∷ l) (take-drop n xs)

  concat-chunks : (f n : ℕ) (xs : List A) → 0 < n → length xs ≤ f → concat (chunks f n xs) ≡ xs
  unfolding concat chunks
  concat-chunks zero n [] pos_n le = refl
  concat-chunks zero n (x ∷ xs) pos_n le = ground arith
  concat-chunks (suc f) n [] pos_n le = refl
  concat-chunks (suc f) n (x ∷ xs) pos_n le =
      ap (λ l. take n (x ∷ xs) ++ l)
        (concat-chunks f n (drop n (x ∷ xs)) pos_n
          (omega (arith, length-drop n (x ∷ xs), le, pos_n)))
      ∙ take-drop n (x ∷ xs)

  concat-blocks : (n : ℕ) (xs : List A) → 0 < n → concat (blocks n xs) ≡ xs
  unfolding blocks
  concat-blocks n xs pos_n = concat-chunks (length xs) n xs pos_n (omega arith)

  append_swap : (xs ys : List A) → Perm (xs ++ ys) (ys ++ xs)
  append_swap [] ys = subst (λ l. Perm ys l) (sym (append-nil ys)) (Perm.refl ys)
  append_swap (x ∷ xs) ys =
      Perm.trans (Perm.cons x (append_swap xs ys)) (Perm.symm (perm_middle ys xs))

  -- Two pairs of lists in the other order.
  interchange : (a b c d : List A) → Perm ((a ++ b) ++ (c ++ d)) ((a ++ c) ++ (b ++ d))
  interchange a b c d =
      subst (λ l. Perm ((a ++ b) ++ (c ++ d)) l) (sym (append_assoc a c (b ++ d)))
        (subst (λ l. Perm l (a ++ (c ++ (b ++ d)))) (sym (append_assoc a b (c ++ d)))
          (Perm.append_left a (
            subst (λ l. Perm (b ++ (c ++ d)) l) (append_assoc c b d)
              (subst (λ l. Perm l ((c ++ b) ++ d)) (append_assoc b c d)
                (Perm.append_right d (append_swap b c))))))

module _ (left_len right_len : ℕ) (test : Row → Row → Bool) where
  matches_with-append :
      (l : Row) (rs more : List Row)
      → matches_with left_len right_len test l (rs ++ more)
        ≡ matches_with left_len right_len test l rs ++ matches_with left_len right_len test l more
  unfolding matches_with
  matches_with-append l [] more = refl
  matches_with-append l (r ∷ rs) more = ground (arith, matches_with-append l rs more)

  matches-append_right :
      (ls rs more : List Row)
      → Perm
          (matches left_len right_len test ls (rs ++ more))
          (matches left_len right_len test ls rs ++ matches left_len right_len test ls more)
  unfolding matches
  matches-append_right [] rs more = Perm.nil
  matches-append_right (l ∷ ls) rs more =
      Perm.trans
        (Perm.append
          (subst (λ w. Perm (matches_with left_len right_len test l (rs ++ more)) w)
            (matches_with-append l rs more)
            (Perm.refl (matches_with left_len right_len test l (rs ++ more))))
          (matches-append_right ls rs more))
        (interchange (matches_with left_len right_len test l rs)
          (matches_with left_len right_len test l more) (matches left_len right_len test ls rs)
          (matches left_len right_len test ls more))

  matches-append :
      (ls more rs : List Row)
      → matches left_len right_len test (ls ++ more) rs
        ≡ matches left_len right_len test ls rs ++ matches left_len right_len test more rs
  unfolding matches
  matches-append [] more rs = refl
  matches-append (l ∷ ls) more rs =
      ap (λ rows. matches_with left_len right_len test l rs ++ rows) (matches-append ls more rs)
      ∙ sym (
          append_assoc (matches_with left_len right_len test l rs)
            (matches left_len right_len test ls rs) (matches left_len right_len test more rs))

  matches-none : (ls : List Row) → matches left_len right_len test ls [] ≡ []
  unfolding matches matches_with
  matches-none [] = refl
  matches-none (l ∷ ls) = matches-none ls

  with_blocks-concat :
      (ls : List Row) (rss : List (List Row))
      → Perm
          (with_blocks left_len right_len test ls rss)
          (matches left_len right_len test ls (concat rss))
  unfolding with_blocks concat
  with_blocks-concat ls [] = subst (λ rows. Perm [] rows) (sym (matches-none ls)) Perm.nil
  with_blocks-concat ls (rs ∷ rss) =
      Perm.trans
        (Perm.append_left (matches left_len right_len test ls rs) (with_blocks-concat ls rss))
        (Perm.symm (matches-append_right ls rs (concat rss)))

  join_blocks-concat :
      (lss rss : List (List Row))
      → Perm
          (join_blocks left_len right_len test lss rss)
          (matches left_len right_len test (concat lss) (concat rss))
  unfolding join_blocks concat matches
  join_blocks-concat [] rss = Perm.nil
  join_blocks-concat (ls ∷ lss) rss =
      subst (λ rows. Perm (join_blocks left_len right_len test (ls ∷ lss) rss) rows)
        (sym (matches-append ls (concat lss) (concat rss)))
        (Perm.append (with_blocks-concat ls rss) (join_blocks-concat lss rss))

  -- A query whose root is a join, run with more turns than there are rows, gives each pair of a left
  -- and a right row that the conditions hold of, as often as the two plain loops do, whatever the
  -- sizes of the blocks; the right executor must be able to begin again when it has come to its end.
  pub drain-join_executor :
      (outer inner : ℕ) (L R : Executor Row) (outer_pos : 0 < outer) (inner_pos : 0 < inner)
      (again : Restarts R) (fuel turns : ℕ)
      (enough : Enough left_len right_len test outer inner L R outer_pos inner_pos again fuel)
      (j : Join L R) (found : Option (List Row))
      → L.IsReady j.left
      → R.IsReady j.right
      → j.is_end ≡ false
      → length (joined left_len right_len test outer inner L R outer_pos inner_pos again) < turns
      → drain
          (join_executor left_len right_len test outer inner L R outer_pos inner_pos again fuel
            enough)
          turns
          j
        ≡ some found
      → (rows : List Row) × (found ≡ some rows)
        × Perm rows (matches left_len right_len test L.rows R.rows)
  drain-join_executor outer inner L R outer_pos inner_pos again fuel turns enough j found lready
        rready going lt e =
      let X =
        join_executor left_len right_len test outer inner L R outer_pos inner_pos again fuel
          enough in
      (
        joined left_len right_len test outer inner L R outer_pos inner_pos again,
        drain_lem X turns j found (lready, rready, going) lt e,
        subst
            (λ ls.
              Perm (joined left_len right_len test outer inner L R outer_pos inner_pos again)
                (matches left_len right_len test ls R.rows))
            (concat-blocks outer L.rows outer_pos)
            (subst
              (λ rs.
                Perm (joined left_len right_len test outer inner L R outer_pos inner_pos again)
                  (matches left_len right_len test (concat (blocks outer L.rows)) rs))
              (concat-blocks inner R.rows inner_pos)
              (join_blocks-concat (blocks outer L.rows) (blocks inner R.rows))),
      )
