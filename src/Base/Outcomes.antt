-- ===== src/Base/Outcomes.antt =====
-- How a call ends: with a result, by an exception that leaves the state as it then is, or by a
-- failed `assert`.
use mathlib.Core.Bool.{Bool, true, false}
use mathlib.Core.Path.{◌≡◌, refl}

pub data Outcome (E S A : Type 0) : Type 0 where
  ok : A → Outcome E S A
  throws : E → S → Outcome E S A
  aborted : Outcome E S A

-- What follows a call that returns; an exception and a failed `assert` end the chain.
infixl 5 ◌>>=◌
abbrev pub ◌>>=◌ : {E S X Y : Type 0} → Outcome E S X → (X → Outcome E S Y) → Outcome E S Y
aborted >>= next = aborted
throws why state >>= next = throws why state
ok x >>= next = next x

-- `assert(b)`.
abbrev pub assert_that : {E S : Type 0} → Bool → Outcome E S (Unit {0})
assert_that false = aborted
assert_that true = ok tt

infixl 5 ◌>>◌
abbrev pub ◌>>◌ : {E S Y : Type 0} → Outcome E S (Unit {0}) → Outcome E S Y → Outcome E S Y
first >> last = first >>= λ _. last

-- A chain that ends well has passed through the first call's result.
pub >>=-eq-ok :
    {E S X Y : Type 0} (call : Outcome E S X) (next : X → Outcome E S Y) {y : Y}
    → (call >>= next) ≡ ok y
    → (x : X) × (call ≡ ok x) × (next x ≡ ok y)
>>=-eq-ok aborted next e = cc
>>=-eq-ok (throws why state) next e = cc
>>=-eq-ok (ok x) next e = (x, refl, e)
