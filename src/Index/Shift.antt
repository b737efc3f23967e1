-- ===== src/Index/Shift.antt =====
-- The array that `insert_pair` leaves: where each element comes from.
use native.Mathlib.Decide.{ℕ_discrete}
use cscc_db.Base.{
  ℕ, zero, suc, ◌+◌, ◌-◌, ◌≤◌, ◌<◌, ◌≡◌, refl, ◌⊎◌, inl, inr, true, ◌&&◌, ltb, leb, if◌then◌else◌,
  arith, Bool-cases, ap, update,
}
use cscc_db.Index.{shift_up}

-- Every element from `pos + 1` to `n` is its left neighbour's.
shift_up_lem :
    {A : Type 0} (n pos i : ℕ) (f : ℕ → A)
    → shift_up n pos f i ≡ (if ltb pos i && leb i n then f (i - 1) else f i)
unfolding shift_up
shift_up_lem zero pos i f = ground arith
shift_up_lem (suc n) pos i f =
    let rest = shift_up_lem n pos i (update f (suc n) (f n)) in
    elim (ℕ_discrete i (suc n)) [
      | yes e ↦ let back : i - 1 ≡ n = omega (arith, e) in ground (arith, rest, e, back, ap f back)
      | no ne ↦ ground (arith, rest, ne)
    ]

-- An array after the shift and the write at `pos`.
module _ {A : Type 0} (n pos : ℕ) (f : ℕ → A) (v : A) (h : pos ≤ n) where
  pub shifted_before : (i : ℕ) → i < pos → update (shift_up n pos f) pos v i ≡ f i
  shifted_before i l = ground (arith, shift_up_lem n pos i f)

  pub shifted_at : update (shift_up n pos f) pos v pos ≡ v
  shifted_at = ground arith

  pub shifted_after : (i : ℕ) → pos ≤ i → i < n → update (shift_up n pos f) pos v (suc i) ≡ f i
  shifted_after i l m =
      let back : suc i - 1 ≡ i = omega arith in
      ground (arith, shift_up_lem n pos (suc i) f, back, ap f back)

  -- Where an element of that array comes from.
  pub place :
      (i : ℕ)
      → i < n + 1
      → ((i < pos) × (update (shift_up n pos f) pos v i ≡ f i))
        ⊎ ((i ≡ pos) × (update (shift_up n pos f) pos v i ≡ v))
        ⊎ ((i0 : ℕ) × (i ≡ suc i0)
            × (pos ≤ i0)
            × (i0 < n)
            × (update (shift_up n pos f) pos v i ≡ f i0))
  place zero m = elim (ℕ_discrete zero pos) [
    | yes e ↦ inr (inl (e, ground arith))
    | no ne ↦ inl (omega (arith, ne), shifted_before zero (omega (arith, ne)))
  ]
  place (suc i) m = elim (ℕ_discrete (suc i) pos) [
    | yes e ↦ inr (inl (e, ground arith))
    | no ne ↦ elim (Bool-cases (ltb (suc i) pos)) [
      | inl t ↦ let l : suc i < pos = ground (arith, t) in inl (l, shifted_before (suc i) l)
      | inr t ↦
          let l : pos ≤ i = ground (arith, t, ne) in
          inr (inr (i, refl, l, omega (arith, m), shifted_after i l (omega (arith, m))))
    ]
  ]

pub within : (a b : ℕ) → a ≤ b → leb a b ≡ true
within a b l = ground arith

pub inside_of : (a b : ℕ) → a < b → ltb a b ≡ true
inside_of a b l = ground arith
