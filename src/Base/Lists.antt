-- ===== src/Base/Lists.antt =====
-- Lists measured and indexed by native numbers, under the library's names; arrays and hash maps as
-- functions.
use Prim.Native.Nat.{ℕ, zero, suc, ◌+◌}
use mathlib.Core.Path.{◌≡◌, refl, ap, fun_ext}
use mathlib.Core.Bool.{Bool, false, ◌||◌}
use mathlib.Core.List.{List, [], ◌∷◌, ◌++◌}
use mathlib.Core.Option.{Option, none, some}
use native.Mathlib.Omega.{arith}
use cscc_db.Base.Tests.{◌==◌, if◌then◌else◌}

module _ {ℓ} {A : Type ℓ} where
  abbrev pub length : List A → ℕ
  length [] = 0
  length (x ∷ xs) = suc (length xs)

  abbrev pub get_elem? : List A → ℕ → Option A
  get_elem? [] i = none
  get_elem? (x ∷ xs) zero = some x
  get_elem? (x ∷ xs) (suc i) = get_elem? xs i

  -- A write out of bounds changes nothing.
  abbrev pub set : List A → ℕ → A → List A
  set [] i v = []
  set (x ∷ xs) zero v = v ∷ xs
  set (x ∷ xs) (suc i) v = x ∷ set xs i v

  abbrev pub get_or : List A → ℕ → A → A
  get_or [] i d = d
  get_or (x ∷ xs) zero d = x
  get_or (x ∷ xs) (suc i) d = get_or xs i d

  abbrev pub take : ℕ → List A → List A
  take zero xs = []
  take (suc n) [] = []
  take (suc n) (x ∷ xs) = x ∷ take n xs

  abbrev pub drop : ℕ → List A → List A
  drop zero xs = xs
  drop (suc n) [] = []
  drop (suc n) (x ∷ xs) = drop n xs

  unfoldable pub replicate : ℕ → A → List A
  replicate zero a = []
  replicate (suc n) a = a ∷ replicate n a

  pub length-append : (xs ys : List A) → length (xs ++ ys) ≡ length xs + length ys
  length-append [] ys = omega arith
  length-append (x ∷ xs) ys = omega (arith, length-append xs ys)

  pub length-set : (xs : List A) (i : ℕ) (v : A) → length (set xs i v) ≡ length xs
  length-set [] i v = refl
  length-set (x ∷ xs) zero v = refl
  length-set (x ∷ xs) (suc i) v = ap suc (length-set xs i v)

  pub length-replicate : (n : ℕ) (a : A) → length (replicate n a) ≡ n
  unfolding replicate
  length-replicate zero a = refl
  length-replicate (suc n) a = ap suc (length-replicate n a)

  -- An array, or a hash map from numbers: a write at one index.
  abbrev pub update : (ℕ → A) → ℕ → A → ℕ → A
  update f k v i = if i == k then v else f i

module _ {ℓ} {A : Type ℓ} (f : ℕ → A) (k : ℕ) where
  pub update-update : (u v w : A) → v ≡ w → update (update f k u) k v ≡ update f k w
  update-update u v w e = fun_ext (λ i. ground arith)

  pub update_same : (v : A) → f k ≡ v → update f k v ≡ f
  update_same v e = fun_ext (λ i. ground arith)

-- Membership in a list of numbers, as a test.
abbrev pub contains : ℕ → List ℕ → Bool
contains a [] = false
contains a (x ∷ xs) = a == x || contains a xs

-- No number twice.
abbrev pub IsDistinct : List ℕ → Type 0
IsDistinct [] = Unit {0}
IsDistinct (x ∷ xs) = (contains x xs ≡ false) × IsDistinct xs

-- `std::list::remove` of one element, the first occurrence.
unfoldable pub remove : ℕ → List ℕ → List ℕ
remove a [] = []
remove a (x ∷ xs) = if x == a then xs else x ∷ remove a xs

pub contains-append :
    (a : ℕ) (xs ys : List ℕ) → contains a (xs ++ ys) ≡ (contains a xs || contains a ys)
contains-append a [] ys = refl
contains-append a (x ∷ xs) ys = ground (arith, contains-append a xs ys)

pub contains-remove :
    (a b : ℕ) (xs : List ℕ)
    → IsDistinct xs
    → contains a (remove b xs) ≡ (if a == b then false else contains a xs)
unfolding remove
contains-remove a b [] d = ground arith
contains-remove a b (x ∷ xs) d = ground (arith, contains-remove a b xs d.1)

pub remove-IsDistinct : (b : ℕ) (xs : List ℕ) → IsDistinct xs → IsDistinct (remove b xs)
unfolding remove
remove-IsDistinct b [] d = tt
remove-IsDistinct b (x ∷ xs) d =
    ground (arith, contains-remove x b xs d.1, remove-IsDistinct b xs d.1)

pub IsDistinct-append_one :
    (xs : List ℕ) (a : ℕ) → IsDistinct xs → contains a xs ≡ false → IsDistinct (xs ++ a ∷ [])
IsDistinct-append_one [] a d h = (refl, tt)
IsDistinct-append_one (x ∷ xs) a d h =
    ground (arith, contains-append x xs (a ∷ []), IsDistinct-append_one xs a d.1)

pub remove-absent : (b : ℕ) (xs : List ℕ) → contains b xs ≡ false → remove b xs ≡ xs
unfolding remove
remove-absent b [] h = refl
remove-absent b (x ∷ xs) h = ground (arith, remove-absent b xs)
