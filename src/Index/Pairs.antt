-- ===== src/Index/Pairs.antt =====
-- The methods of `IxNodeHandle` on a node whose keys rise, for an index whose columns are INT or
-- STRING: where the searches stop, and what an insertion leaves.
use native.Mathlib.Decide.{ℕ_discrete}
use cscc_db.Base.{
  ℕ, suc, ◌+◌, ◌≤◌, ◌<◌, ◌≡◌, ◌≢◌, refl, ◌⊎◌, inl, inr, Bool, true, false, not, ◌==◌, arith,
  Bool-cases, subst, sym, ◌∙◌, ap, update, ok, throws, some, List,
}
use cscc_db.Transaction.{Rid}
use cscc_db.Log.Memory.{Memory}
use cscc_db.Index.{
  Sign, less, equal, greater, is_less, is_greater, Column, ix_compare, Node, tested, key_is,
  lower_bound, upper_bound, shift_up, insert_pair, insert_at, is_unique, insert,
  index_entry_not_unique,
}
use cscc_db.Index.Order.{Supported, sign_of, ix_compare_lem, sign_of-IsOrder}
use cscc_db.Index.Search.{bound_of, bound-bound_of, bound_lem}
use cscc_db.Index.Shift.{shifted_before, shifted_at, shifted_after, place, within, inside_of}

-- Keys that rise, by the order of the columns.
module _ (cols : List Column) where
  abbrev pub Rises : Node → Type 0
  Rises n = (i j : ℕ) → i < j → j < n.num_key → sign_of cols (n.keys i) (n.keys j) ≡ less

  less_falls :
      (n : Node) (target : Memory)
      → Rises n
      → (i j : ℕ) → i ≤ j
      → j < n.num_key
      → is_less (sign_of cols (n.keys j) target) ≡ true
      → is_less (sign_of cols (n.keys i) target) ≡ true
  less_falls n target s i j l m e = elim (ℕ_discrete i j) [
    | yes p ↦ subst (λ k. is_less (sign_of cols (n.keys k) target) ≡ true) (sym p) e
    | no ne ↦ ap is_less (
        (sign_of-IsOrder cols).less_trans (n.keys i) (n.keys j) target
          (s i j (omega (arith, l, ne)) m) (ground (arith, e)))
  ]

  at_most_falls :
      (n : Node) (target : Memory)
      → Rises n
      → (i j : ℕ) → i ≤ j
      → j < n.num_key
      → not (is_greater (sign_of cols (n.keys j) target)) ≡ true
      → not (is_greater (sign_of cols (n.keys i) target)) ≡ true
  at_most_falls n target s i j l m e = elim (ℕ_discrete i j) [
    | yes p ↦ subst (λ k. not (is_greater (sign_of cols (n.keys k) target)) ≡ true) (sym p) e
    | no ne ↦ ground (
      arith,
      s i j (omega (arith, l, ne)) m,
      (sign_of-IsOrder cols).less_trans (n.keys i) (n.keys j) target,
      (sign_of-IsOrder cols).compare_flip (n.keys i) target,
      (sign_of-IsOrder cols).compare_flip (n.keys i) (n.keys j),
      (sign_of-IsOrder cols).equal_compare (n.keys j) target (n.keys i),
    )
  ]

  -- The node that `insert` leaves.
  abbrev pub inserted : Node → ℕ → Memory → Rid → Node
  inserted n pos key rid = record n {
    num_key = n.num_key + 1;
    keys = update (shift_up n.num_key pos n.keys) pos key;
    rids = update (shift_up n.num_key pos n.rids) pos rid;
  }

  inserted-Rises :
      (n : Node) (pos : ℕ) (key : Memory) (rid : Rid)
      → Rises n
      → pos ≤ n.num_key
      → ((i : ℕ) → i < pos → sign_of cols (n.keys i) key ≡ less)
      → ((i : ℕ) → pos ≤ i → i < n.num_key → sign_of cols key (n.keys i) ≡ less)
      → Rises (inserted n pos key rid)
  inserted-Rises n pos key rid s h before after i j l m =
      elim (place n.num_key pos n.keys key h i (omega (arith, l, m))) [
        | inl (a, e) ↦ elim (place n.num_key pos n.keys key h j (omega (arith, m))) [
          | inl (b, e') ↦ rw (e, e') (s i j l (omega (arith, b, h)))
          | inr (inl (b, e')) ↦ rw (e, e') (before i a)
          | inr (inr (j0, b, c, d, e')) ↦ rw (e, e') (s i j0 (omega (arith, a, c)) d)
        ]
        | inr (inl (a, e)) ↦ elim (place n.num_key pos n.keys key h j (omega (arith, m))) [
          | inl (b, e') ↦ ground (arith, a, b, l)
          | inr (inl (b, e')) ↦ ground (arith, a, b, l)
          | inr (inr (j0, b, c, d, e')) ↦ rw (e, e') (after j0 c d)
        ]
        | inr (inr (i0, a, a', a'', e)) ↦
            elim (place n.num_key pos n.keys key h j (omega (arith, m))) [
              | inl (b, e') ↦ ground (arith, a, a', b, l)
              | inr (inl (b, e')) ↦ ground (arith, a, a', b, l)
              | inr (inr (j0, b, c, d, e')) ↦ rw (e, e') (s i0 j0 (omega (arith, a, b, l)) d)
            ]
      ]

  -- A new key is below those from its position on, if it is below the key there.
  above :
      (n : Node) (pos : ℕ) (key : Memory)
      → Rises n
      → pos ≤ n.num_key
      → (pos < n.num_key → sign_of cols (n.keys pos) key ≡ greater)
      → (i : ℕ) → pos ≤ i
      → i < n.num_key
      → sign_of cols key (n.keys i) ≡ less
  above n pos key s h e i l m =
      let first : sign_of cols key (n.keys pos) ≡ less =
        ground
          (arith, (sign_of-IsOrder cols).compare_flip key (n.keys pos), e (omega (arith, l, m))) in
      elim (ℕ_discrete pos i) [
        | yes p ↦ subst (λ k. sign_of cols key (n.keys k) ≡ less) p first
        | no ne ↦
            (sign_of-IsOrder cols).less_trans key (n.keys pos) (n.keys i) first
              (s pos i (omega (arith, l, ne)) m)
      ]

same_sign : (s t : Sign) → some s ≡ some t → s ≡ t
same_sign s t e = ground (arith, e)

module _ (float_less : ℕ → ℕ → Bool) (cols : List Column) (supported : Supported cols) where
  -- `ix_compare` returns this for two keys.
  to_sign :
      (a b : Memory) (s : Sign) → ix_compare float_less cols a b ≡ some s → sign_of cols a b ≡ s
  to_sign a b s e = same_sign _ _ (sym (ix_compare_lem float_less cols a b supported) ∙ e)

  of_sign :
      (a b : Memory) (s : Sign) → sign_of cols a b ≡ s → ix_compare float_less cols a b ≡ some s
  of_sign a b s e = ix_compare_lem float_less cols a b supported ∙ ap some e

  key_is_lem :
      (n : Node) (test : Sign → Bool) (key : Memory) (i : ℕ)
      → key_is float_less cols n test key i ≡ ok (test (sign_of cols (n.keys i) key))
  key_is_lem n test key i =
      ap (tested n test) (ix_compare_lem float_less cols (n.keys i) key supported)

  -- The keys in use rise.
  abbrev pub IsSorted : Node → Type 0
  IsSorted n =
      (i j : ℕ)
      → i < j
      → j < n.num_key
      → ix_compare float_less cols (n.keys i) (n.keys j) ≡ some less

  IsSorted-Rises : (n : Node) → IsSorted n → Rises cols n
  IsSorted-Rises n s i j l m = to_sign _ _ less (s i j l m)

  -- The position where `lower_bound` stops.
  abbrev first_at_least : Node → Memory → ℕ
  first_at_least n target = bound_of (λ i. is_less (sign_of cols (n.keys i) target)) n.num_key

  first_at_least_lem :
      (n : Node) (target : Memory)
      → IsSorted n
      → (lower_bound float_less cols n target ≡ ok (first_at_least n target))
        × (first_at_least n target ≤ n.num_key)
        × ((i : ℕ) → i < first_at_least n target → sign_of cols (n.keys i) target ≡ less)
        × ((i : ℕ)
            → first_at_least n target ≤ i
            → i < n.num_key
            → sign_of cols (n.keys i) target ≢ less)
  unfolding lower_bound
  first_at_least_lem n target s =
      let (inside, before, after) =
        bound_lem (λ i. is_less (sign_of cols (n.keys i) target)) n.num_key
          (less_falls cols n target (IsSorted-Rises n s)) in
      (
        bound-bound_of (key_is float_less cols n is_less target) _ (key_is_lem n is_less target)
            n.num_key,
        inside,
        λ i h. ground (arith, before i h),
        λ i h k e. ground (arith, after i h k, e),
      )

  -- On a node whose keys rise, of an index whose columns are INT or STRING, `lower_bound` returns
  -- without an error the number of keys below the target: the keys before that position are below it
  -- by `ix_compare`, and those from there on are not.
  pub lower_bound_result :
      (n : Node) (target : Memory)
      → IsSorted n
      → (k : ℕ) × (lower_bound float_less cols n target ≡ ok k)
        × (k ≤ n.num_key)
        × ((i : ℕ) → i < k → ix_compare float_less cols (n.keys i) target ≡ some less)
        × ((i : ℕ)
            → k ≤ i
            → i < n.num_key
            → ix_compare float_less cols (n.keys i) target ≢ some less)
  lower_bound_result n target s =
      let (returns, inside, before, after) = first_at_least_lem n target s in
      (
        _,
        returns,
        inside,
        λ i h. of_sign _ _ less (before i h),
        λ i h k e. after i h k (to_sign _ _ less e),
      )

  -- On a node whose keys rise, `upper_bound` returns the number of keys that are not above the
  -- target: the keys before that position are not above it, and those from there on are.
  pub upper_bound_result :
      (n : Node) (target : Memory)
      → IsSorted n
      → (k : ℕ) × (upper_bound float_less cols n target ≡ ok k)
        × (k ≤ n.num_key)
        × ((i : ℕ) → i < k → ix_compare float_less cols (n.keys i) target ≢ some greater)
        × ((i : ℕ)
            → k ≤ i
            → i < n.num_key
            → ix_compare float_less cols (n.keys i) target ≡ some greater)
  unfolding upper_bound
  upper_bound_result n target s =
      let (inside, before, after) =
        bound_lem (λ i. not (is_greater (sign_of cols (n.keys i) target))) n.num_key
          (at_most_falls cols n target (IsSorted-Rises n s)) in
      (
        _,
        bound-bound_of (key_is float_less cols n (λ s. not (is_greater s)) target) _
            (key_is_lem n (λ s. not (is_greater s)) target) n.num_key,
        inside,
        λ i h e. ground (arith, before i h, to_sign _ _ greater e),
        λ i h k. of_sign _ _ greater (ground (arith, after i h k)),
      )

  -- The test of `insert` at a position of the table: above the new key, or equal to it.
  unique_cases :
      (n : Node) (key : Memory) (pos : ℕ)
      → pos ≤ n.num_key
      → (pos < n.num_key → sign_of cols (n.keys pos) key ≢ less)
      → ((is_unique float_less cols n key pos ≡ ok true)
          × (pos < n.num_key → sign_of cols (n.keys pos) key ≡ greater))
        ⊎ ((is_unique float_less cols n key pos ≡ ok false)
            × (pos < n.num_key)
            × (sign_of cols (n.keys pos) key ≡ equal))
  unique_cases n key pos h up = elim (Bool-cases (pos == n.num_key)) [
    | inl e ↦ inl (rw (is_unique, e) refl, λ l. ground (arith, e, l))
    | inr e ↦
        let here : pos < n.num_key = ground (arith, e, h) in
        elim (Bool-cases (is_greater (sign_of cols (n.keys pos) key))) [
          | inl g ↦
              inl
                (rw (is_unique, e, key_is_lem n is_greater key pos, g) refl, λ l. ground (arith, g))
          | inr g ↦ inr (
            rw (is_unique, e, key_is_lem n is_greater key pos, g) refl,
            here,
            ground (arith, g, up here),
          )
        ]
  ]

  -- On a leaf whose keys rise, of an index whose columns are INT or STRING, `insert` takes the
  -- position that `lower_bound` returns. Either the key there is equal to the new one by `ix_compare`
  -- and it throws `IndexEntryNotUniqueError`, leaving the node as it is; or it returns that position
  -- and the new number of keys, and leaves a node whose keys rise, with the new pair at that position,
  -- the pairs before it unmoved and the others one place on.
  pub insert_result :
      (n : Node) (key : Memory) (value : Rid)
      → n.is_leaf ≡ true
      → IsSorted n
      → (pos : ℕ) × (lower_bound float_less cols n key ≡ ok pos)
        × (((insert float_less cols n key value ≡ throws index_entry_not_unique n)
              × (pos < n.num_key)
              × (ix_compare float_less cols (n.keys pos) key ≡ some equal))
            ⊎ ((n' : Node) × (insert float_less cols n key value ≡ ok ((pos, n.num_key + 1), n'))
                × IsSorted n'
                × (n'.num_key ≡ n.num_key + 1)
                × (n'.keys pos ≡ key)
                × (n'.rids pos ≡ value)
                × ((i : ℕ) → i < pos → (n'.keys i ≡ n.keys i) × (n'.rids i ≡ n.rids i))
                × ((i : ℕ)
                    → pos ≤ i
                    → i < n.num_key
                    → (n'.keys (suc i) ≡ n.keys i) × (n'.rids (suc i) ≡ n.rids i))))
  unfolding insert insert_at insert_pair
  insert_result n key value leaf s =
      let pos = first_at_least n key in
      let (returns, h, before, after) = first_at_least_lem n key s in
      let rises = IsSorted-Rises n s in
      (
        pos,
        returns,
        elim (unique_cases n key pos h (after pos (omega arith))) [
          | inl (unique, up) ↦ inr (
            inserted cols n pos key value,
            rw (returns, unique, within pos n.num_key h, leaf) refl,
            λ i j l m. of_sign _ _ less (
                inserted-Rises cols n pos key value rises h before (above cols n pos key rises h up)
                  i j l m),
            refl,
            shifted_at n.num_key pos n.keys key h,
            shifted_at n.num_key pos n.rids value h,
            λ i l. (
              shifted_before n.num_key pos n.keys key h i l,
              shifted_before n.num_key pos n.rids value h i l,
            ),
            λ i l m. (
              shifted_after n.num_key pos n.keys key h i l m,
              shifted_after n.num_key pos n.rids value h i l m,
            ),
          )
          | inr (unique, there, e) ↦ inl (
            rw (returns, unique, inside_of pos n.num_key there, leaf) refl,
            there,
            of_sign _ _ equal e,
          )
        ],
      )
