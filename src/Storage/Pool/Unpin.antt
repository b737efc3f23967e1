-- ===== src/Storage/Pool/Unpin.antt =====
-- `unpin_page`.
use cscc_db.Base.{
  ℕ, ◌≡◌, refl, ◌⊎◌, inl, inr, Bool, true, false, none, some, ◌==◌, if◌then◌else◌, arith,
  Option-cases, ◌≢◌, Bool-cases, ◌+◌,
}
use cscc_db.Replacer.{Replacer}
use cscc_db.Storage.{PageId, Disk}
use cscc_db.Storage.Pool.{Pool, unpin_page, release, view}
use cscc_db.Storage.Pool.Invariant.{Inv}

module _ (R : Replacer) (D : Disk) where
  -- What a client owes that unpins a page as clean: if it is the last to hold the page and the page
  -- is not dirty, the bytes are those of the disk.
  abbrev pub Honest : Pool R D → PageId → Bool → Type 0
  Honest p id is_dirty =
      (f : ℕ)
      → p.page_table id ≡ some f
      → (p.pages f).pin_count ≡ 1
      → is_dirty ≡ false
      → (p.pages f).is_dirty ≡ false
      → D.read_page p.store id ≡ some (p.pages f).content

  release-Inv :
      (p : Pool R D) (id : PageId) (f : ℕ) (is_dirty : Bool)
      → Inv R D p
      → p.page_table id ≡ some f
      → (p.pages f).pin_count ≢ 0
      → Honest p id is_dirty
      → Inv R D (release R D p f is_dirty)
  unfolding release
  release-Inv p id f is_dirty v e held honest =
      let (tracked, rest) = R.unpin_laws p.replacer f v.tracked in
      let at = v.mapped id f e in
      record {
        tracked = ground arith;
        distinct = v.distinct;
        mapped = λ j g there. ground (arith, v.mapped j g there);
        free = λ g there. ground (arith, v.free g, at.not_free, rest g);
        idle = λ g there. ground (arith, v.idle g, rest g, at.identity, at.in_range);
        complete = λ g lt unpinned. ground (arith, v.complete g lt, rest g);
        held = λ g lt pinned. ground (arith, v.held g lt, at.identity);
        synced = λ g there unpinned clean. ground (arith, v.synced g, at.identity, honest f e);
      }

  -- Unpinning keeps the invariant, if the last client to hold a page does not unpin as clean a page
  -- that nobody has marked dirty and whose bytes are not those of the disk.
  pub unpin_page-Inv :
      (p : Pool R D) (id : PageId) (is_dirty : Bool)
      → Inv R D p
      → Honest p id is_dirty
      → Inv R D (unpin_page R D p id is_dirty).1
  unfolding unpin_page
  unpin_page-Inv p id is_dirty v honest = elim (Option-cases (p.page_table id)) [
    | inl absent ↦ rw (absent, unpin_page) v
    | inr (f, e) ↦ elim (Bool-cases ((p.pages f).pin_count == 0)) [
      | inl zero_pins ↦ rw (e, unpin_page, zero_pins) v
      | inr held ↦ rw (e, unpin_page, held) (release-Inv p id f is_dirty v e (ground arith) honest)
    ]
  ]

  -- Unpinning fails exactly if the page is in no frame or not pinned, and then changes nothing; else
  -- it takes one pin away, marks the page dirty if asked to and never clean, and makes the frame a
  -- candidate for eviction exactly if that was the last pin or it was one already. What a reader
  -- sees does not change.
  pub unpin_page_result :
      (p : Pool R D) (id j : PageId) (is_dirty : Bool)
      → Inv R D p
      → let q = (unpin_page R D p id is_dirty).1 in
        (view R D q j ≡ view R D p j)
        × (((unpin_page R D p id is_dirty).0 ≡ false)
              × (q ≡ p)
              × ((p.page_table id ≡ none)
                  ⊎ ((f : ℕ) × (p.page_table id ≡ some f) × ((p.pages f).pin_count ≡ 0)))
            ⊎ ((unpin_page R D p id is_dirty).0 ≡ true)
              × ((f : ℕ) × (p.page_table id ≡ some f)
                  × ((q.pages f).pin_count + 1 ≡ (p.pages f).pin_count)
                  × ((q.pages f).is_dirty ≡ (if is_dirty then true else (p.pages f).is_dirty))
                  × (R.evictable q.replacer f ≡ ((q.pages f).pin_count == 0))))
  unfolding unpin_page release view
  unpin_page_result p id j is_dirty v = elim (Option-cases (p.page_table id)) [
    | inl absent ↦ rw (absent, unpin_page) (refl, inl (refl, refl, inl refl))
    | inr (f, e) ↦ elim (Bool-cases ((p.pages f).pin_count == 0)) [
      | inl zero_pins ↦
          rw (e, unpin_page, zero_pins) (refl, inl (refl, refl, inr (f, refl, ground arith)))
      | inr held ↦
          let tracked = (R.unpin_laws p.replacer f v.tracked).1 f in
          rw (e, unpin_page, held)
            (
              ground arith,
              inr (refl, (f, refl, ground arith, ground arith, ground (arith, v.idle f, tracked))),
            )
    ]
  ]
