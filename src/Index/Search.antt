-- ===== src/Index/Search.antt =====
-- The binary searches of `IxNodeHandle` on keys whose comparison does not throw.
use cscc_db.Base.{
  ok, ℕ, ◌==◌, zero, suc, ◌+◌, ◌-◌, ◌/◌, ◌≤◌, ◌<◌, ◌≡◌, refl, ◌⊎◌, inl, inr, Bool, true, false, ltb,
  if◌then◌else◌, arith, Bool-cases,
}
use cscc_db.Index.{Result, bisect, bound}

-- Where the searches end on a test that does not throw.
unfoldable pub bisect_of : (ℕ → Bool) → ℕ → ℕ → ℕ → ℕ
bisect_of p zero l r = r
bisect_of p (suc fuel) l r =
    let rest =
      bisect_of p fuel (if p ((l + r) / 2) then (l + r) / 2 + 1 else l)
        (if p ((l + r) / 2) then r else (l + r) / 2) in
    if ltb l r then rest else r

unfoldable pub bound_of : (ℕ → Bool) → ℕ → ℕ
bound_of p num_key =
    let r = bisect_of p num_key 0 (num_key - 1) in
    if num_key == 0 then 0 else (if p r then num_key else r)

module _ (t : ℕ → Result Bool) (p : ℕ → Bool) (told : (i : ℕ) → t i ≡ ok (p i)) where
  pub bisect-bisect_of : (fuel l r : ℕ) → bisect t fuel l r ≡ ok (bisect_of p fuel l r)
  unfolding bisect bisect_of
  bisect-bisect_of zero l r = refl
  bisect-bisect_of (suc fuel) l r = elim (Bool-cases (ltb l r)) [
    | inr e ↦ rw (bisect, e) refl
    | inl e ↦
        rw (bisect, e, told ((l + r) / 2))
          (bisect-bisect_of fuel (if p ((l + r) / 2) then (l + r) / 2 + 1 else l)
            (if p ((l + r) / 2) then r else (l + r) / 2))
  ]

  pub bound-bound_of : (num_key : ℕ) → bound t num_key ≡ ok (bound_of p num_key)
  unfolding bound bound_of
  bound-bound_of num_key = elim (Bool-cases (num_key == 0)) [
    | inl e ↦ rw (bound, e) refl
    | inr e ↦
        rw
          (
            bound,
            e,
            bisect-bisect_of num_key 0 (num_key - 1),
            told (bisect_of p num_key 0 (num_key - 1)),
          )
          refl
  ]

-- The result of `bound_of` splits the keys in use by the test.
abbrev pub Splits : (ℕ → Bool) → ℕ → Type 0
Splits p num_key =
    (bound_of p num_key ≤ num_key)
    × ((i : ℕ) → i < bound_of p num_key → p i ≡ true)
    × ((i : ℕ) → bound_of p num_key ≤ i → i < num_key → p i ≡ false)

module _ (p : ℕ → Bool) (last : ℕ)
    (falls : (i j : ℕ) → i ≤ j → j ≤ last → p j ≡ true → p i ≡ true) where
  later : (i j : ℕ) → i ≤ j → j ≤ last → p i ≡ false → p j ≡ false
  later i j l m e = elim (Bool-cases (p j)) [
    | inl t ↦ ground (arith, falls i j l m t, e)
    | inr f ↦ f
  ]

  -- What the loop keeps: the positions before `l` send it to the right, those after `r` do not, and
  -- neither does `r`, unless it is the last one.
  abbrev Between : ℕ → ℕ → Type 0
  Between l r = (l ≤ r) × (r ≤ last) × ((i : ℕ) → i < l → p i ≡ true) × ((r ≡ last) ⊎ (p r ≡ false))

  pub bisect_lem :
      (fuel l r : ℕ)
      → r ≤ fuel + l
      → Between l r
      → Between (bisect_of p fuel l r) (bisect_of p fuel l r)
  unfolding bisect_of
  bisect_lem zero l r f (lr, rl, before, after) =
      (omega arith, rl, λ i h. before i (omega (arith, h, f)), after)
  bisect_lem (suc fuel) l r f (lr, rl, before, after) =
      let mid = (l + r) / 2 in
      elim (Bool-cases (ltb l r)) [
        | inr e ↦ rw e (omega arith, rl, λ i h. before i (ground (arith, e, h, lr)), after)
        | inl e ↦
            let wide : l < r = ground (arith, e) in
            elim (Bool-cases (p mid)) [
              | inl t ↦
                  rw (e, t)
                    (bisect_lem fuel (mid + 1) r (omega (arith, f, wide)) (
                      omega (arith, wide),
                      rl,
                      λ i h. falls i mid (omega (arith, h)) (omega (arith, wide, rl)) t,
                      after,
                    ))
              | inr t ↦
                  rw (e, t)
                    (bisect_lem fuel l mid (omega (arith, f, wide))
                      (omega (arith, wide), omega (arith, wide, rl), before, inr t))
            ]
      ]

  bound-suc :
      bound_of p (suc last)
      ≡ (if p (bisect_of p (suc last) 0 last) then suc last else bisect_of p (suc last) 0 last)
  unfolding bound_of
  bound-suc = let e : suc last - 1 ≡ last = omega arith in rw e (ground arith)

  bound_lem_suc : Splits p (suc last)
  bound_lem_suc =
      let r = bisect_of p (suc last) 0 last in
      let (_, inside, before, after) =
        bisect_lem (suc last) 0 last (omega arith)
          (omega arith, omega arith, λ i h. ground arith, inl refl) in
      elim (Bool-cases (p r)) [
        | inl t ↦
            rw (bound-suc, t)
              (
                omega arith,
                λ i h. elim after [ inl e ↦ falls i r (omega (arith, h, e)) inside t | inr f ↦ cc ],
                λ i h k. ground (arith, h, k),
              )
        | inr f ↦
            rw (bound-suc, f)
              (omega (arith, inside), before, λ i h k. later r i h (omega (arith, k)) f)
      ]

-- If the test falls from true to false along the keys in use, the search returns where it does.
pub bound_lem :
    (p : ℕ → Bool) (num_key : ℕ)
    → ((i j : ℕ) → i ≤ j → j < num_key → p j ≡ true → p i ≡ true)
    → Splits p num_key
unfolding bound_of
bound_lem p zero falls = (omega arith, λ i h. ground arith, λ i h k. ground arith)
bound_lem p (suc n) falls = bound_lem_suc p n (λ i j l m. falls i j l (omega (arith, m)))
