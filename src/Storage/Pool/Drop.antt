-- ===== src/Storage/Pool/Drop.antt =====
-- `delete_page`: a frame goes back to the free list.
use cscc_db.Base.{
  ℕ, ◌≡◌, refl, ◌⊎◌, inl, inr, Bool, true, false, none, some, [], ◌∷◌, ◌++◌, ◌==◌, arith,
  Option-cases, ◌≢◌, subst, sym, update, Bool-cases, ok, ap, ◌∙◌, ◌==ℤ◌, minus_one, contains-append,
  IsDistinct-append_one, update-update,
}
use cscc_db.Replacer.{Replacer}
use cscc_db.Storage.{PageId, is_invalid, Disk}
use cscc_db.Storage.Pool.{Pool, put, delete_page, drop_frame, set_page, view}
use cscc_db.Storage.Pool.Invariant.{Inv}
use cscc_db.Storage.Pool.Load.{Saved, cleaned, write_back_cases}

module _ (R : Replacer) (D : Disk) where
  -- Frame `f`, which held page `id`, is free; its page has no valid number.
  abbrev pub emptied : Pool R D → ℕ → PageId → PageId → D.Data → D.Store → Pool R D
  emptied p f id gone c s = record p {
    pages = update p.pages f (record (p.pages f) { id = gone; content = c; is_dirty = false });
    replacer = R.pin f p.replacer;
    page_table = put p.page_table id none;
    free_list = p.free_list ++ f ∷ [];
    store = s;
  }

  module _ (p : Pool R D) (f : ℕ) (id gone : PageId) (c : D.Data) (s : D.Store) (v : Inv R D p)
      (there : p.page_table id ≡ some f) (unpinned : (p.pages f).pin_count ≡ 0)
      (unnamed : is_invalid gone ≡ true) (saved : Saved R D p f s) where
    pub emptied-Inv : Inv R D (emptied p f id gone c s)
    emptied-Inv =
        let (tracked, rest) = R.pin_laws p.replacer f v.tracked in
        let at = v.mapped id f there in
        record {
          tracked = tracked;
          distinct = IsDistinct-append_one p.free_list f v.distinct at.not_free;
          mapped = λ j g e.
              ground (arith, v.mapped j g, contains-append g p.free_list (f ∷ []), at.identity);
          free = λ g e.
              ground (arith, v.free g, contains-append g p.free_list (f ∷ []), rest g, at.in_range);
          idle = λ g e. ground (arith, v.idle g, rest g, at.identity);
          complete = λ g lt e.
              ground (arith, v.complete g lt, rest g, contains-append g p.free_list (f ∷ []));
          held = λ g lt pinned. ground (arith, v.held g lt, at.identity);
          synced = λ g e idle clean. ground (
            arith,
            v.synced g,
            v.mapped gone g,
            at.identity,
            saved.kept (p.pages g).id (p.pages g).content,
          );
        }

    pub emptied-view :
        (j : PageId) (d : D.Data)
        → view R D p j ≡ some d
        → view R D (emptied p f id gone c s) j ≡ some d
    unfolding view
    emptied-view j d had =
        let at = v.mapped id f there in
        ground (
          arith,
          at.identity,
          unpinned,
          v.mapped j f,
          v.synced f,
          saved.flushed,
          saved.kept j d,
          saved.untouched j d,
          Option-cases (p.page_table j),
        )

  drop_frame_cases :
      (p q : Pool R D) (f : ℕ) (id : PageId) (b : Bool)
      → Inv R D p
      → p.page_table id ≡ some f
      → (p.pages f).pin_count ≡ 0
      → drop_frame R D p f id ≡ ok (b, q)
      → (s : D.Store) × Saved R D p f s
        × (b ≡ true)
        × (q ≡ emptied p f id (record { fd = minus_one; page_no = minus_one }) D.zeros s)
  unfolding drop_frame
  drop_frame_cases p q f id b v there unpinned e =
      let p1 = record p {
        replacer = R.pin f p.replacer;
        page_table = put p.page_table id none;
        free_list = p.free_list ++ f ∷ [];
      } in
      elim (write_back_cases R D p1 f) [
        | inl thrown ↦ absurd (ground arith)
        | inr (s, written, saved) ↦
            let c = cleaned R D p1 f s in
            let gone : PageId = record { fd = minus_one; page_no = minus_one } in
            let last = record (c.pages f) { content = D.zeros; id = gone } in
            let same : set_page R D c f last ≡ emptied p f id gone D.zeros s =
              ap (λ pages. record p1 { pages = pages; store = s })
                (update-update p.pages f _ last _ (ground arith)) in
            (
              s,
              record { kept = saved.kept; flushed = saved.flushed; untouched = saved.untouched },
              ground arith,
              ground (arith, same),
            )
      ]

  abbrev nowhere : PageId
  nowhere = record { fd = minus_one; page_no = minus_one }

  nowhere-invalid : is_invalid nowhere ≡ true
  unfolding ◌==ℤ◌
  nowhere-invalid = refl

  delete_page_cases :
      (p q : Pool R D) (id : PageId) (b : Bool)
      → Inv R D p
      → delete_page R D p id ≡ ok (b, q)
      → ((b ≡ true) × (p.page_table id ≡ none) × (q ≡ p))
        ⊎ ((b ≡ false)
            × (q ≡ p)
            × ((f : ℕ) × (p.page_table id ≡ some f) × ((p.pages f).pin_count ≢ 0)))
        ⊎ ((f : ℕ) × (s : D.Store) × (p.page_table id ≡ some f)
            × ((p.pages f).pin_count ≡ 0)
            × Saved R D p f s
            × (b ≡ true)
            × (q ≡ emptied p f id nowhere D.zeros s))
  unfolding delete_page
  delete_page_cases p q id b v e = elim (Option-cases (p.page_table id)) [
    | inl absent ↦ inl (ground arith, absent, ground arith)
    | inr (f, there) ↦ elim (Bool-cases ((p.pages f).pin_count == 0)) [
      | inl unpinned ↦
          let zero_pins : (p.pages f).pin_count ≡ 0 = ground arith in
          let drops : drop_frame R D p f id ≡ ok (b, q) = ground arith in
          let (s, saved, done, same) = drop_frame_cases p q f id b v there zero_pins drops in
          inr (inr (f, s, there, zero_pins, saved, done, same))
      | inr pinned ↦ inr (inl (ground arith, ground arith, (f, there, ground arith)))
    ]
  ]

  -- A deletion that ends well keeps the invariant.
  pub delete_page-Inv :
      (p q : Pool R D) (id : PageId) (b : Bool)
      → Inv R D p
      → delete_page R D p id ≡ ok (b, q)
      → Inv R D q
  delete_page-Inv p q id b v e = elim (delete_page_cases p q id b v e) [
    | inl (_, _, same) ↦ subst (Inv R D) (sym same) v
    | inr (inl (_, same, _)) ↦ subst (Inv R D) (sym same) v
    | inr (inr (f, s, there, unpinned, saved, _, same)) ↦
        subst (Inv R D) (sym same)
          (emptied-Inv p f id nowhere D.zeros s v there unpinned nowhere-invalid saved)
  ]

  -- A deletion that ends well has one of three results: the page is in no frame, and it succeeds and
  -- changes nothing; or the page is in a frame and pinned, and it fails and changes nothing; or the
  -- page is in a frame that is not pinned, and it succeeds, the page is in no frame and its frame is at
  -- the end of the free list. No page that a reader can see changes, for the deleted page stays on the
  -- disk.
  pub delete_page_result :
      (p q : Pool R D) (id j : PageId) (b : Bool) (d : D.Data)
      → Inv R D p
      → delete_page R D p id ≡ ok (b, q)
      → view R D p j ≡ some d
      → (view R D q j ≡ some d)
        × (((b ≡ true) × (p.page_table id ≡ none) × (q ≡ p))
            ⊎ ((b ≡ false)
                × (q ≡ p)
                × ((f : ℕ) × (p.page_table id ≡ some f) × ((p.pages f).pin_count ≢ 0)))
            ⊎ ((f : ℕ) × (b ≡ true)
                × (p.page_table id ≡ some f)
                × ((p.pages f).pin_count ≡ 0)
                × (q.page_table id ≡ none)
                × (q.free_list ≡ p.free_list ++ f ∷ [])))
  delete_page_result p q id j b d v e had = elim (delete_page_cases p q id b v e) [
    | inl (done, absent, same) ↦ (rw same had, inl (done, absent, same))
    | inr (inl (failed, same, pinned)) ↦ (rw same had, inr (inl (failed, same, pinned)))
    | inr (inr (f, s, there, unpinned, saved, done, same)) ↦ (
      rw same
          (emptied-view p f id nowhere D.zeros s v there unpinned nowhere-invalid saved j d had),
      inr (
          inr (
            f,
            done,
            there,
            unpinned,
            ap (λ t. t.page_table id) same ∙ ground arith,
            ap (λ t. t.free_list) same,
          )),
    )
  ]
