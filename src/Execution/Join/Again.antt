-- ===== src/Execution/Join/Again.antt =====
-- A join that begins again: `beginTuple` does not reset `is_end_`.
use cscc_db.Base.{
  ℕ, zero, suc, ◌≡◌, refl, Bool, true, false, List, [], ◌∷◌, arith, Option-cases, Bool-cases, inl,
  inr,
}
use cscc_db.Execution.{Executor, load}
use cscc_db.Execution.Join.{
  Join, Run, done, failed, out_of_fuel, ◌>>=◌, run, search, refilled, restart_with, moved,
  next_with, next_block, settle, begin_right, begin_left, begin_tuple, Row,
}
use cscc_db.Execution.Join.Turns.{run_then}

run_done :
    {A B : Type 0} (r : Run A) (f : A → Run B) {b : B}
    → (r >>= f) ≡ done b
    → (a : A) × (r ≡ done a) × (f a ≡ done b)
run_done failed f e = cc
run_done out_of_fuel f e = cc
run_done (done a) f e = (a, refl, e)

module _ (left_len right_len : ℕ) (test : Row → Row → Bool) (outer inner : ℕ)
    (L R : Executor Row) where
  restart_with_stays :
      (j : Join L R) (k : Bool × Join L R) (x : List Row × L.State)
      → j.is_end ≡ true
      → restart_with left_len right_len test outer inner L R j x ≡ done k
      → (k.1).is_end ≡ true
  unfolding restart_with
  restart_with_stays j k ([], left) over e = ground (arith, e)
  restart_with_stays j k (l ∷ ls, left) over e =
      let (begun, _, rest) =
        run_then (R.begin_tuple j.right)
          (λ s. run (load R inner s) >>= λ x.
            done (false, refilled left_len right_len test outer inner L R j left (l ∷ ls) x))
          e in
      let (x, _, last) =
        run_then (load R inner begun)
          (λ x. done (false, refilled left_len right_len test outer inner L R j left (l ∷ ls) x))
          rest in
      ground (arith, last, over)

  next_with_stays :
      (j : Join L R) (k : Bool × Join L R) (x : List Row × R.State)
      → j.is_end ≡ true
      → next_with left_len right_len test outer inner L R j x ≡ done k
      → (k.1).is_end ≡ true
  unfolding next_with
  next_with_stays j k ([], right) over e =
      let (x, _, rest) =
        run_then (load L outer j.left)
          (restart_with left_len right_len test outer inner L R
            (moved left_len right_len test outer inner L R j [] right))
          e in
      restart_with_stays (moved left_len right_len test outer inner L R j [] right) k x over rest
  next_with_stays j k (r ∷ rs, right) over e = ground (arith, e, over)

  settle_stays :
      (n : ℕ) (j k : Join L R)
      → j.is_end ≡ true
      → settle left_len right_len test outer inner L R n j ≡ done k
      → k.is_end ≡ true
  unfolding settle
  settle_stays zero j k over e = cc
  settle_stays (suc n) j k over e =
      elim (Option-cases (search left_len right_len test j.left_rest j.right_save j.right_rest)) [
        | inr (found, there) ↦ ground (arith, e, there, over)
        | inl nothing ↦
            let step : Bool × Join L R → Run (Join L R) = λ (returns, k). elim returns [
              | true ↦ done k
              | false ↦ settle left_len right_len test outer inner L R n k
            ] in
            let body : (next_block left_len right_len test outer inner L R j >>= step) ≡ done k =
              ground (arith, e, nothing) in
            let ((returns, m), stepped, rest) =
              run_done (next_block left_len right_len test outer inner L R j) step body in
            let (x, _, last) =
              run_then (load R inner j.right) (next_with left_len right_len test outer inner L R j)
                stepped in
            let ended = next_with_stays j (returns, m) x over last in
            elim (Bool-cases returns) [
              | inl stop ↦ ground (arith, rest, stop, ended)
              | inr go ↦ settle_stays n m k ended (ground (arith, rest, go))
            ]
      ]

  begin_right_stays :
      (fuel : ℕ) (j k : Join L R) (ls : List Row) (left : L.State) (x : List Row × R.State)
      → j.is_end ≡ true
      → begin_right left_len right_len test outer inner L R fuel j ls left x ≡ done k
      → k.is_end ≡ true
  unfolding begin_right
  begin_right_stays fuel j k ls left ([], right) over e = ground (arith, e)
  begin_right_stays fuel j k ls left (r ∷ rs, right) over e =
      settle_stays fuel (refilled left_len right_len test outer inner L R j left ls (r ∷ rs, right))
        k over e

  begin_left_stays :
      (fuel : ℕ) (j k : Join L R) (x : List Row × L.State)
      → j.is_end ≡ true
      → begin_left left_len right_len test outer inner L R fuel j x ≡ done k
      → k.is_end ≡ true
  unfolding begin_left
  begin_left_stays fuel j k ([], left) over e = ground (arith, e)
  begin_left_stays fuel j k (l ∷ ls, left) over e =
      let (begun, _, rest) =
        run_then (R.begin_tuple j.right)
          (λ s.
            run (load R inner s)
            >>= begin_right left_len right_len test outer inner L R fuel j (l ∷ ls) left)
          e in
      let (x, _, last) =
        run_then (load R inner begun)
          (begin_right left_len right_len test outer inner L R fuel j (l ∷ ls) left) rest in
      begin_right_stays fuel j k (l ∷ ls) left x over last

  -- A join that has come to its end stays at its end when it begins again, whatever rows there are.
  pub begin_tuple_again :
      (fuel : ℕ) (j k : Join L R)
      → j.is_end ≡ true
      → begin_tuple left_len right_len test outer inner L R fuel j ≡ done k
      → k.is_end ≡ true
  unfolding begin_tuple
  begin_tuple_again fuel j k over e =
      let (begun, _, rest) =
        run_then (L.begin_tuple j.left)
          (λ s. run (load L outer s) >>= begin_left left_len right_len test outer inner L R fuel j)
          e in
      let (x, _, last) =
        run_then (load L outer begun) (begin_left left_len right_len test outer inner L R fuel j)
          rest in
      begin_left_stays fuel j k x over last
