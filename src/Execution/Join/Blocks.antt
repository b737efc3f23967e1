-- ===== src/Execution/Join/Blocks.antt =====
-- What a join by blocks gives, independently of its loops: for each block of left rows and each block
-- of right rows, the pairs that the conditions hold of.
use cscc_db.Execution.Join.{Row}
use cscc_db.Base.{
  ℕ, zero, suc, ◌-◌, ◌≤◌, ◌<◌, ◌≡◌, refl, Bool, List, [], ◌∷◌, ◌++◌, length, if◌then◌else◌, take,
  drop, arith, ap,
}

module _ {A : Type 0} where
  -- Blocks of `n` elements, the last one maybe shorter; the fuel is the list's length.
  unfoldable pub chunks : ℕ → ℕ → List A → List (List A)
  chunks zero n xs = []
  chunks (suc f) n [] = []
  chunks (suc f) n (x ∷ xs) = take n (x ∷ xs) ∷ chunks f n (drop n (x ∷ xs))

  unfoldable pub blocks : ℕ → List A → List (List A)
  blocks n xs = chunks (length xs) n xs

  pub length-drop : (n : ℕ) (xs : List A) → length (drop n xs) ≡ length xs - n
  length-drop zero xs = omega arith
  length-drop (suc n) [] = omega arith
  length-drop (suc n) (x ∷ xs) = omega (arith, length-drop n xs)

  chunks_enough :
      (f g n : ℕ) (xs : List A)
      → 0 < n
      → length xs ≤ f
      → length xs ≤ g
      → chunks f n xs ≡ chunks g n xs
  unfolding chunks
  chunks_enough zero zero n xs pos_n a b = refl
  chunks_enough zero (suc g) n [] pos_n a b = refl
  chunks_enough zero (suc g) n (x ∷ xs) pos_n a b = ground arith
  chunks_enough (suc f) zero n [] pos_n a b = refl
  chunks_enough (suc f) zero n (x ∷ xs) pos_n a b = ground arith
  chunks_enough (suc f) (suc g) n [] pos_n a b = refl
  chunks_enough (suc f) (suc g) n (x ∷ xs) pos_n a b =
      let shorter = length-drop n (x ∷ xs) in
      ap (λ bs. take n (x ∷ xs) ∷ bs)
        (chunks_enough f g n (drop n (x ∷ xs)) pos_n (omega (arith, shorter, a, pos_n))
          (omega (arith, shorter, b, pos_n)))

  -- The first block, and the blocks of what is left.
  pub blocks-cons :
      (n : ℕ) (x : A) (xs : List A)
      → 0 < n
      → blocks n (x ∷ xs) ≡ take n (x ∷ xs) ∷ blocks n (drop n (x ∷ xs))
  unfolding blocks chunks
  blocks-cons n x xs pos_n =
      ap (λ bs. take n (x ∷ xs) ∷ bs)
        (chunks_enough (length xs) (length (drop n (x ∷ xs))) n (drop n (x ∷ xs)) pos_n
          (omega (arith, length-drop n (x ∷ xs), pos_n)) (omega arith))

module _ (left_len right_len : ℕ) (test : Row → Row → Bool) where
  -- The pairs with one left row.
  unfoldable pub matches_with : Row → List Row → List Row
  matches_with l [] = []
  matches_with l (x ∷ xs) =
      let rest = matches_with l xs in
      if test l x then (take left_len l ++ take right_len x) ∷ rest else rest

  unfoldable pub matches : List Row → List Row → List Row
  matches [] rs = []
  matches (l ∷ ls) rs = matches_with l rs ++ matches ls rs

  -- One block of left rows with the blocks of right rows.
  unfoldable pub with_blocks : List Row → List (List Row) → List Row
  with_blocks ls [] = []
  with_blocks ls (rs ∷ rest) = matches ls rs ++ with_blocks ls rest

  unfoldable pub join_blocks : List (List Row) → List (List Row) → List Row
  join_blocks [] rss = []
  join_blocks (ls ∷ lss) rss = with_blocks ls rss ++ join_blocks lss rss
