-- ===== src/Storage/Pool/Load.antt =====
-- A claimed frame is written back and taken over by another page: the common part of `fetch_page`
-- and `new_page`.
use cscc_db.Base.{
  ℕ, ◌≡◌, refl, ◌⊎◌, inl, inr, true, false, none, some, List, arith, Option-cases, ◌≢◌, update,
  Bool-cases, ok, throws, ap, update_same, update-update, ℤ, Option,
}
use cscc_db.Replacer.{Replacer}
use cscc_db.Storage.{PageId, is_invalid, Disk, is_file}
use cscc_db.Storage.Pool.{Pool, put, view, write_back, load, create, internal_error, set_page}
use cscc_db.Storage.Pool.Invariant.{Inv, IsMapped}
use cscc_db.Storage.Pool.Claim.{Claimed}

module _ (R : Replacer) (D : Disk) where
  -- On disk `s` the page of frame `f` is as in the frame if that was dirty, and all else is as
  -- before.
  pub record Saved (p : Pool R D) (f : ℕ) (s : D.Store) : Type 0 where
    pub kept :
        (j : PageId) (d : D.Data)
        → j ≢ (p.pages f).id
        → D.read_page p.store j ≡ some d
        → D.read_page s j ≡ some d
    pub flushed :
        (p.pages f).is_dirty ≡ true → D.read_page s (p.pages f).id ≡ some (p.pages f).content
    pub untouched :
        (j : PageId) (d : D.Data)
        → (p.pages f).is_dirty ≡ false
        → D.read_page p.store j ≡ some d
        → D.read_page s j ≡ some d

  abbrev pub cleaned : Pool R D → ℕ → D.Store → Pool R D
  cleaned p f s = record (set_page R D p f (record (p.pages f) { is_dirty = false })) { store = s }

  module _ (p : Pool R D) (f : ℕ) where
    Saved-dirty :
        (s : D.Store)
        → (p.pages f).is_dirty ≡ true
        → D.write_page p.store (p.pages f).id (p.pages f).content ≡ some s
        → Saved p f s
    Saved-dirty s dirty e = record {
      kept = λ j d ne had. D.read_other p.store s (p.pages f).id j (p.pages f).content d e ne had;
      flushed = λ _. D.read_written p.store s (p.pages f).id (p.pages f).content e;
      untouched = λ j d clean. ground arith;
    }

    Saved-clean : (p.pages f).is_dirty ≡ false → Saved p f p.store
    Saved-clean clean = record {
      kept = λ j d ne had. had;
      flushed = λ dirty. ground arith;
      untouched = λ j d _ had. had;
    }

    cleaned-clean : (p.pages f).is_dirty ≡ false → cleaned p f p.store ≡ p
    cleaned-clean clean =
        ap (λ pages. record p { pages = pages })
          (update_same p.pages f (record (p.pages f) { is_dirty = false }) (ground arith))

    -- `write_back` fails, or leaves the frame clean and the disk up to date.
    pub write_back_cases :
        (write_back R D p f ≡ throws internal_error p)
        ⊎ ((s : D.Store) × (write_back R D p f ≡ ok (cleaned p f s)) × Saved p f s)
    unfolding write_back
    write_back_cases = elim (Bool-cases (p.pages f).is_dirty) [
      | inr clean ↦ inr (p.store, ground (arith, cleaned-clean clean), Saved-clean clean)
      | inl dirty ↦ elim (Option-cases (D.write_page p.store (p.pages f).id (p.pages f).content)) [
        | inl failed ↦ inl (ground arith)
        | inr (s, e) ↦ inr (s, ground arith, Saved-dirty s dirty e)
      ]
    ]

  module _ (p : Pool R D) (fs : List ℕ) (r : R.State) (f : ℕ) (id : PageId) (c : D.Data)
      (s : D.Store) where
    -- The frame's page is `id`, pinned once and clean, and the old page is out of the table.
    abbrev pub occupied : Pool R D
    occupied = record p {
      pages = update p.pages f (record { id = id; content = c; is_dirty = false; pin_count = 1 });
      page_table = put (put p.page_table (p.pages f).id none) id (some f);
      free_list = fs;
      replacer = r;
      store = s;
    }

    module _ (v : Inv R D p) (claim : Claimed R D p fs r f) (absent : p.page_table id ≡ none)
        (named : is_invalid id ≡ false) (saved : Saved p f s) where
      -- Another frame's page is not the one that leaves.
      pub other_page : (j : PageId) (g : ℕ) → p.page_table j ≡ some g → g ≢ f → j ≢ (p.pages f).id
      other_page j g e ne same = ground (arith, claim.held, v.mapped j g e)

      occupied-IsMapped :
          (j : PageId) (g : ℕ) → occupied.page_table j ≡ some g → IsMapped R D occupied j g
      occupied-IsMapped j g e = ground (arith, v.mapped j g, claim.free g, claim.in_range)

      pub occupied-Inv : Inv R D occupied
      occupied-Inv = record {
        tracked = claim.tracked;
        distinct = claim.distinct;
        mapped = occupied-IsMapped;
        free = λ g e. ground (arith, v.free g, claim.free g, claim.idle g);
        idle = λ g e.
            ground (arith, v.idle g, claim.free g, claim.idle g, other_page (p.pages g).id g);
        complete = λ g lt e. ground (arith, v.complete g lt, claim.free g, claim.idle g);
        held = λ g lt pinned. ground (arith, v.held g lt, other_page (p.pages g).id g);
        synced = λ g e unpinned clean. ground (
          arith,
          v.synced g,
          saved.kept (p.pages g).id (p.pages g).content,
          other_page (p.pages g).id g,
        );
      }

      -- The page that enters is not the one that leaves.
      pub new_page_differs : id ≢ (p.pages f).id
      new_page_differs same = ground (arith, claim.held)

      -- Every other page reads as before.
      pub occupied-view :
          (j : PageId) (d : D.Data) → j ≢ id → view R D p j ≡ some d → view R D occupied j ≡ some d
      unfolding view
      occupied-view j d ne e = elim (Option-cases (p.page_table j)) [
        | inr (g, there) ↦ ground (
          arith,
          v.mapped j g there,
          saved.flushed,
          v.synced f,
          claim.unpinned,
          saved.untouched j (p.pages f).content,
        )
        | inl absent_j ↦ ground (arith, claim.held, saved.kept j d, saved.untouched j d)
      ]

  -- What `load` does with a claimed frame.
  module _ (p : Pool R D) (fs : List ℕ) (r : R.State) (f : ℕ) (id : PageId) where
    pub load_cases :
        ((q : Pool R D) × (load R D (record p { free_list = fs; replacer = r }) f id
            ≡ throws internal_error q))
        ⊎ ((c : D.Data) × (s : D.Store) × (load R D (record p { free_list = fs; replacer = r }) f id
              ≡ ok (some f, occupied p fs r f id c s))
            × (D.read_page s id ≡ some c)
            × Saved p f s)
    unfolding load
    load_cases =
        let table = put (put p.page_table (p.pages f).id none) id (some f) in
        let p1 = record p { page_table = table; free_list = fs; replacer = r } in
        elim (write_back_cases p1 f) [
          | inl e ↦ inl (p1, rw e)
          | inr (s, e, saved) ↦
              let mine : Saved p f s = record {
                kept = saved.kept;
                flushed = saved.flushed;
                untouched = saved.untouched;
              } in
              elim (Option-cases (D.read_page s id)) [
                | inl short ↦
                    let q = cleaned p1 f s in
                    let blank = record (q.pages f) { pin_count = 1; id = id; content = D.zeros } in
                    inl (set_page R D q f blank, rw (e, short))
                | inr (c, read) ↦ inr (
                  c,
                  s,
                  rw (e, read)
                      (ap (λ pages. ok (some f, record p1 { pages = pages; store = s }))
                        (update-update p.pages f _ _ _ (ground arith))),
                  read,
                  mine,
                )
              ]
        ]

  -- The identity that `new_page` gives to a page.
  abbrev pub new_id : Pool R D → ℤ → PageId
  new_id p fd = record { fd = fd; page_no = (D.allocate_page p.store fd).0 }

  pub create_cases :
      (p : Pool R D) (fs : List ℕ) (r : R.State) (f : ℕ) (fd : ℤ)
      → ((y : Option (ℕ × PageId) × Pool R D)
          → create R D (record p { free_list = fs; replacer = r }) f fd ≢ ok y)
        ⊎ ((s : D.Store) × (create R D (record p { free_list = fs; replacer = r }) f fd
              ≡ ok (some (f, new_id p fd), occupied p fs r f (new_id p fd) D.zeros s))
            × Saved p f s)
  unfolding create
  create_cases p fs r f fd =
      let table = put p.page_table (p.pages f).id none in
      let s0 = (D.allocate_page p.store fd).1 in
      let p1 = record p { page_table = table; free_list = fs; replacer = r; store = s0 } in
      elim (Bool-cases (is_file fd)) [
        | inr bad ↦ inl (λ y e. ground (arith, bad, e))
        | inl good ↦ elim (write_back_cases p1 f) [
          | inl e ↦ inl (rw (good, e) (λ y h. cc))
          | inr (s, e, saved) ↦
              let table = put table (new_id p fd) (some f) in
              inr (
                s,
                rw (good, e)
                    (ap
                      (λ pages. ok (
                        some (f, new_id p fd),
                        record p1 { pages = pages; store = s; page_table = table },
                      ))
                      (update-update p.pages f _ _ _ refl)),
                record {
                  kept = λ j d ne e. saved.kept j d ne (rw (D.read_allocated p.store fd j) e);
                  flushed = saved.flushed;
                  untouched =
                      λ j d c e. saved.untouched j d c (rw (D.read_allocated p.store fd j) e);
                },
              )
        ]
      ]
