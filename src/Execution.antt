-- ===== src/Execution.antt =====
-- execution/executor_abstract.h: the abstract class `AbstractExecutor`, as operations and laws; and
-- the loop that runs a query (execution/execution_manager.cpp). `none` is a call that does not
-- return: an exception leaves the query.
pub mod Join
pub mod Projection
pub mod SeqScan
pub mod Tests
use cscc_db.Base.{
  ℕ, zero, suc, ◌<◌, ◌≤◌, ◌≡◌, refl, Bool, true, false, Option, none, some, List, [], ◌∷◌, length,
  arith, ◌∙◌, sym, ap, subst, take, drop,
}

infixl 5 ◌>>=◌
abbrev pub ◌>>=◌ {ℓ κ} : {A : Type ℓ} {B : Type κ} → Option A → (A → Option B) → Option B
none >>= f = none
some a >>= f = f a

-- Calls that all return.
pub >>=-eq-some {ℓ κ} :
    {A : Type ℓ} {B : Type κ} (o : Option A) (f : A → Option B) {b : B}
    → (o >>= f) ≡ some b
    → (a : A) × (o ≡ some a) × (f a ≡ some b)
>>=-eq-some none f e = cc
>>=-eq-some (some a) f e = (a, refl, e)

-- `beginTuple`, `nextTuple`, `is_end` and `Next`. `Yields s xs` says that state `s` is about to give
-- the rows `xs`; `rows` are those that it gives from a begin on.
pub record Executor (Row : Type 0) : Type 1 where
  pub State : Type 0
  pub begin_tuple : State → Option State
  pub next_tuple : State → Option State
  pub is_end : State → Bool
  pub current : State → Option Row
  pub rows : List Row
  pub IsReady : State → Type 0
  pub Yields : State → List Row → Type 0
  pub begun : (s t : State) → IsReady s → begin_tuple s ≡ some t → Yields t rows
  pub ended : (s : State) → Yields s [] → is_end s ≡ true
  pub going :
      (s : State) (x : Row) (xs : List Row)
      → Yields s (x ∷ xs)
      → (is_end s ≡ false)
        × (current s ≡ some x)
        × ((t : State) → next_tuple s ≡ some t → Yields t xs)

abbrev put_first : {Row : Type 0} → Row → Option (List Row) → Option (List Row)
put_first x none = none
put_first x (some xs) = some (x ∷ xs)

module _ {Row : Type 0} (X : Executor Row) where
  -- An executor that may begin again when it has come to its end.
  abbrev pub Restarts : Type 0
  Restarts = (s : X.State) → X.Yields s [] → X.IsReady s

  abbrev keep_row : Row → List Row × X.State → Option (List Row × X.State)
  keep_row x (xs, u) = some (x ∷ xs, u)

  -- `while (save.size() < n && !is_end()) { save.emplace_back(Next()); nextTuple(); }`
  unfoldable pub load : ℕ → X.State → Option (List Row × X.State)
  load zero s = some ([], s)
  load (suc n) s = elim (X.is_end s) [
    | true ↦ some ([], s)
    | false ↦ X.current s >>= λ x. X.next_tuple s >>= λ t. load n t >>= keep_row x
  ]

  -- What `load` returns are the next rows, `n` of them or all that are left.
  pub load_lem :
      (n : ℕ) (s t : X.State) (xs ys : List Row)
      → X.Yields s xs
      → load n s ≡ some (ys, t)
      → (ys ≡ take n xs) × X.Yields t (drop n xs)
  unfolding load
  load_lem zero s t xs ys y e =
      (ground (arith, e), subst (λ u. X.Yields u xs) (ground (arith, e)) y)
  load_lem (suc n) s t [] ys y e =
      let over = X.ended s y in
      (ground (arith, e, over), subst (λ u. X.Yields u []) (ground (arith, e, over)) y)
  load_lem (suc n) s t (x ∷ xs) ys y e =
      let (more, at, step) = X.going s x xs y in
      let body : (X.next_tuple s >>= λ t. load n t >>= keep_row x) ≡ some (ys, t) =
        ground (arith, e, more, at) in
      let (u, stepped, rest) = >>=-eq-some (X.next_tuple s) (λ t. load n t >>= keep_row x) body in
      let ((zs, v), loaded, last) = >>=-eq-some (load n u) (keep_row x) rest in
      let (found, left) = load_lem n u v xs zs (step u stepped) loaded in
      (ground (arith, last, found), subst (λ w. X.Yields w (drop n xs)) (ground (arith, last)) left)

  -- `for (beginTuple(); !is_end(); nextTuple()) { … Next() … }`, from the first test on; `none` in
  -- the result when the fuel is used up.
  unfoldable pub drain_from : ℕ → X.State → Option (Option (List Row))
  drain_from zero s = some none
  drain_from (suc n) s = elim (X.is_end s) [
    | true ↦ some (some [])
    | false ↦
        X.current s >>= λ x. X.next_tuple s >>= λ t. drain_from n t >>= λ r. some (put_first x r)
  ]

  unfoldable pub drain : ℕ → X.State → Option (Option (List Row))
  drain fuel s = X.begin_tuple s >>= drain_from fuel

  drain_from_lem :
      (fuel : ℕ) (s : X.State) (xs : List Row) (found : Option (List Row))
      → X.Yields s xs
      → length xs < fuel
      → drain_from fuel s ≡ some found
      → found ≡ some xs
  unfolding drain_from
  drain_from_lem zero s xs found y lt e = ground arith
  drain_from_lem (suc n) s [] found y lt e = ground (arith, e, X.ended s y)
  drain_from_lem (suc n) s (x ∷ xs) found y lt e =
      let (more, at, step) = X.going s x xs y in
      let body : (X.next_tuple s >>= λ t. drain_from n t >>= λ r. some (put_first x r))
          ≡ some found =
        ground (arith, e, more, at) in
      let (u, stepped, rest) =
        >>=-eq-some (X.next_tuple s) (λ t. drain_from n t >>= λ r. some (put_first x r)) body in
      let (r, drained, last) = >>=-eq-some (drain_from n u) (λ r. some (put_first x r)) rest in
      let all = drain_from_lem n u xs r (step u stepped) (omega (arith, lt)) drained in
      ground (arith, last, all)

  -- The loop that runs a query, with more fuel than there are rows, gives the rows of the executor;
  -- if no call throws, it comes to its end.
  pub drain_lem :
      (fuel : ℕ) (s : X.State) (found : Option (List Row))
      → X.IsReady s
      → length X.rows < fuel
      → drain fuel s ≡ some found
      → found ≡ some X.rows
  unfolding drain
  drain_lem fuel s found ready lt e =
      let (t, begun, rest) = >>=-eq-some (X.begin_tuple s) (drain_from fuel) e in
      drain_from_lem fuel t X.rows found (X.begun s t ready begun) lt rest
