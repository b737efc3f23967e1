-- ===== src/Storage/Pool/Claim.antt =====
-- `find_victim_page`: what it hands out is a frame that nobody uses.
use cscc_db.Base.{
  ℕ, ◌≡◌, refl, ◌<◌, ◌⊎◌, inl, inr, true, false, none, some, List, [], ◌∷◌, ◌==◌, if◌then◌else◌,
  contains, IsDistinct, arith, Option-cases, ◌≢◌, subst,
}
use cscc_db.Replacer.{Replacer}
use cscc_db.Storage.{is_invalid, Disk}
use cscc_db.Storage.Pool.{Pool, find_victim_page}
use cscc_db.Storage.Pool.Invariant.{Inv}

module _ (R : Replacer) (D : Disk) where
  -- Frame `f` has been taken from the free list or the replacer, which are now `fs` and `r`.
  pub record Claimed (p : Pool R D) (fs : List ℕ) (r : R.State) (f : ℕ) : Type 0 where
    pub in_range : f < p.pool_size
    pub unpinned : (p.pages f).pin_count ≡ 0
    pub tracked : R.IsValid r
    pub distinct : IsDistinct fs
    pub free : (g : ℕ) → contains g fs ≡ (if g == f then false else contains g p.free_list)
    pub idle : (g : ℕ) → R.evictable r g ≡ (if g == f then false else R.evictable p.replacer g)
    -- It holds an unpinned page, or none and nothing to write.
    pub held :
        (p.page_table (p.pages f).id ≡ some f)
        ⊎ ((is_invalid (p.pages f).id ≡ true) × ((p.pages f).is_dirty ≡ false))

  module _ (p : Pool R D) (v : Inv R D p) where
    from_free : (f : ℕ) (fs : List ℕ) → p.free_list ≡ f ∷ fs → Claimed p fs p.replacer f
    from_free f fs e =
        let d : IsDistinct (f ∷ fs) = subst IsDistinct e v.distinct in
        let free = v.free f (rw e (ground arith)) in
        record {
          in_range = free.in_range;
          unpinned = free.unpinned;
          tracked = v.tracked;
          distinct = d.1;
          free = λ g. ground arith;
          idle = λ g. ground (arith, free.untracked);
          held = inr (free.unnamed, free.clean);
        }

    from_replacer :
        (f : ℕ) (r : R.State)
        → p.free_list ≡ []
        → R.victim p.replacer ≡ some (f, r)
        → Claimed p [] r f
    from_replacer f r e found =
        let (tracked, was, rest) = R.victim_some p.replacer r f v.tracked found in
        let idle = v.idle f was in
        record {
          in_range = idle.in_range;
          unpinned = idle.unpinned;
          tracked = tracked;
          distinct = tt;
          free = λ g. ground arith;
          idle = rest;
          held = inl idle.mapped;
        }

    -- A frame is claimed if there is one.
    pub find_victim_page_cases :
        ((find_victim_page R D p ≡ none) × ((f : ℕ) → f < p.pool_size → (p.pages f).pin_count ≢ 0))
        ⊎ ((f : ℕ) × (fs : List ℕ) × (r : R.State) × (find_victim_page R D p
              ≡ some (f, record p { free_list = fs; replacer = r }))
            × Claimed p fs r f)
    unfolding find_victim_page
    find_victim_page_cases = go p.free_list refl
      where
        go :
            (l : List ℕ)
            → p.free_list ≡ l
            → ((find_victim_page R D p ≡ none)
                × ((f : ℕ) → f < p.pool_size → (p.pages f).pin_count ≢ 0))
              ⊎ ((f : ℕ) × (fs : List ℕ) × (r : R.State) × (find_victim_page R D p
                    ≡ some (f, record p { free_list = fs; replacer = r }))
                  × Claimed p fs r f)
        go (f ∷ fs) e = inr (f, fs, p.replacer, ground arith, from_free f fs e)
        go [] e = elim (Option-cases (R.victim p.replacer)) [
          | inl full ↦ inl (
            rw (e, find_victim_page, full),
            λ f lt unpinned. elim (v.complete f lt unpinned) [
              | inl free ↦ cc
              | inr idle ↦ cc (R.victim_none p.replacer v.tracked full f)
            ],
          )
          | inr ((f, r), found) ↦ inr (f, [], r, ground arith, from_replacer f r e found)
        ]
