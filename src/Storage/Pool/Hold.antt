-- ===== src/Storage/Pool/Hold.antt =====
-- A page that is fetched from a pool in which nothing is pinned, changed through the pointer and
-- unpinned: what the record manager relies on of the pool.
use cscc_db.Base.{
  ℕ, ◌≡◌, refl, inl, inr, Bool, true, false, Option, none, some, arith, ◌≢◌, ◌<◌, ok, ℤ, ◌∙◌,
  update-update, ap,
}
use cscc_db.Replacer.{Replacer}
use cscc_db.Storage.{PageId, is_invalid, Disk}
use cscc_db.Storage.Buffer.{Buffer}
use cscc_db.Storage.Pool.{
  Pool, DiskError, unpin_page, release, fetch_page, new_page, set_page, view,
}
use cscc_db.Storage.Pool.Invariant.{Inv}
use cscc_db.Storage.Pool.Load.{new_id}
use cscc_db.Storage.Pool.Fetch.{
  fetch_page_cases, fetch_page_result, fetch_page-Inv, view-fetch_page, content-fetch_page,
  new_page_cases, new_page-Inv, view-new_page,
}
use cscc_db.Storage.Pool.Unpin.{unpin_page-Inv, unpin_page_result}

module _ (R : Replacer) (D : Disk) where
  -- A client's write to the bytes of a page, through the pointer to it.
  abbrev pub write_frame : Pool R D → ℕ → D.Data → Pool R D
  write_frame p f c = set_page R D p f (record (p.pages f) { content = c })

  pub record IsQuiet (p : Pool R D) : Type 0 where
    pub valid : Inv R D p
    pub sized : 0 < p.pool_size
    pub unpinned : (f : ℕ) → f < p.pool_size → (p.pages f).pin_count ≡ 0

  -- Page `id` is in frame `f`, pinned once, and no other page is pinned.
  record IsHeld (p : Pool R D) (id : PageId) (f : ℕ) : Type 0 where
    valid : Inv R D p
    sized : 0 < p.pool_size
    mapped : p.page_table id ≡ some f
    once : (p.pages f).pin_count ≡ 1
    others : (g : ℕ) → g < p.pool_size → g ≢ f → (p.pages g).pin_count ≡ 0

  unpin_page-IsQuiet :
      (p : Pool R D) (id : PageId) (f : ℕ) (is_dirty : Bool)
      → IsHeld p id f
      → (is_dirty ≡ false
          → (p.pages f).is_dirty ≡ false
          → D.read_page p.store id ≡ some (p.pages f).content)
      → IsQuiet (unpin_page R D p id is_dirty).1
  unfolding unpin_page release
  unpin_page-IsQuiet p id f is_dirty h truth = record {
    valid =
        unpin_page-Inv R D p id is_dirty h.valid
          (λ g there last e clean. ground (arith, h.mapped, truth e));
    sized = ground (arith, h.sized, h.mapped);
    unpinned = λ g lt. ground (arith, h.mapped, h.once, h.others g);
  }

  write_frame-IsHeld :
      (p : Pool R D) (id : PageId) (f : ℕ) (c : D.Data)
      → IsHeld p id f
      → IsHeld (write_frame p f c) id f
  write_frame-IsHeld p id f c h =
      let v = h.valid in
      record {
        valid = record {
          tracked = v.tracked;
          distinct = v.distinct;
          mapped = λ j g e. ground (arith, v.mapped j g e);
          free = λ g e. ground (arith, v.free g e);
          idle = λ g e. ground (arith, v.idle g e);
          complete = λ g lt e. ground (arith, v.complete g lt);
          held = λ g lt e. ground (arith, v.held g lt);
          synced = λ g e unpinned clean. ground (arith, v.synced g, h.once);
        };
        sized = h.sized;
        mapped = h.mapped;
        once = ground (arith, h.once);
        others = λ g lt ne. ground (arith, h.others g lt ne);
      }

  write_frame-view :
      (p : Pool R D) (id j : PageId) (f : ℕ) (c : D.Data)
      → IsHeld p id f
      → (view R D (write_frame p f c) id ≡ some c)
        × (j ≢ id → view R D (write_frame p f c) j ≡ view R D p j)
  unfolding view
  write_frame-view p id j f c h = (
    ground (arith, h.mapped),
    λ ne. ground (arith, h.valid.mapped id f h.mapped, h.valid.mapped j f),
  )

  fetch_page-IsHeld :
      (p q : Pool R D) (id : PageId) (x : Option ℕ)
      → IsQuiet p
      → is_invalid id ≡ false
      → fetch_page R D p id ≡ ok (x, q)
      → (f : ℕ) × (x ≡ some f)
        × IsHeld q id f
        × ((q.pages f).id ≡ id)
        × ((q.pages f).is_dirty ≡ false → D.read_page q.store id ≡ some (q.pages f).content)
  fetch_page-IsHeld p q id x s named e = elim (fetch_page_cases R D p id s.valid) [
    | inl (_, thrown) ↦ cc
    | inr (inl (_, all, full)) ↦ ground (arith, all 0 s.sized, s.unpinned 0 s.sized)
    | inr (inr (inl (f, there, hit))) ↦
        let at = s.valid.mapped id f there in
        (
          f,
          cc,
          record {
            valid = fetch_page-Inv R D p q id x s.valid named e;
            sized = ground (arith, s.sized);
            mapped = ground arith;
            once = ground (arith, s.unpinned f at.in_range);
            others = λ g lt ne. ground (arith, s.unpinned g);
          },
          ground (arith, at.identity),
          λ clean. ground (arith, s.valid.synced f, at.identity, s.unpinned f at.in_range),
        )
    | inr (inr (inr (f, fs, r, c, store, absent, claim, read, saved, loaded))) ↦ (
      f,
      cc,
      record {
        valid = fetch_page-Inv R D p q id x s.valid named e;
        sized = ground (arith, s.sized);
        mapped = ground arith;
        once = ground arith;
        others = λ g lt ne. ground (arith, s.unpinned g);
      },
      ground arith,
      λ clean. ground (arith, read),
    )
  ]

  new_page-IsHeld :
      (p q : Pool R D) (fd : ℤ) (x : Option (ℕ × PageId))
      → IsQuiet p
      → p.page_table (new_id R D p fd) ≡ none
      → is_invalid (new_id R D p fd) ≡ false
      → new_page R D p fd ≡ ok (x, q)
      → (f : ℕ) × (x ≡ some (f, new_id R D p fd))
        × IsHeld q (new_id R D p fd) f
        × ((q.pages f).content ≡ D.zeros)
        × ((q.pages f).id ≡ new_id R D p fd)
  new_page-IsHeld p q fd x s fresh named e = elim (new_page_cases R D p fd s.valid) [
    | inl never ↦ absurd (never (x, q) e)
    | inr (inl (all, full)) ↦ ground (arith, all 0 s.sized, s.unpinned 0 s.sized)
    | inr (inr (f, fs, r, store, claim, saved, made)) ↦ (
      f,
      cc,
      record {
        valid = new_page-Inv R D p q fd x s.valid fresh named e;
        sized = ground (arith, s.sized);
        mapped = ground arith;
        once = ground arith;
        others = λ g lt ne. ground (arith, s.unpinned g);
      },
      ground arith,
      ground arith,
    )
  ]

  -- A held page is changed and unpinned as dirty.
  edited :
      (p : Pool R D) (id : PageId) (f : ℕ) (c : D.Data)
      → IsHeld p id f
      → IsQuiet (unpin_page R D (write_frame p f c) id true).1
        × (view R D (unpin_page R D (write_frame p f c) id true).1 id ≡ some c)
        × ((j : PageId) (e : D.Data)
            → j ≢ id
            → view R D p j ≡ some e
            → view R D (unpin_page R D (write_frame p f c) id true).1 j ≡ some e)
  edited p id f c h =
      let w = write_frame-IsHeld p id f c h in
      (
        unpin_page-IsQuiet (write_frame p f c) id f true w (λ e. cc),
        (unpin_page_result R D (write_frame p f c) id id true w.valid).0
            ∙ (write_frame-view p id id f c h).0,
        λ j e ne had.
            (unpin_page_result R D (write_frame p f c) id j true w.valid).0
            ∙ (write_frame-view p id j f c h).1 ne
            ∙ had,
      )

  fetched :
      (p q : Pool R D) (id : PageId) (f : ℕ)
      → Inv R D p
      → is_invalid id ≡ false
      → fetch_page R D p id ≡ ok (some f, q)
      → ((q.pages f).id ≡ id) × Inv R D q
  fetched p q id f v named e = elim (fetch_page_result R D p q id (some f) v named e) [
    | inl (missing, _, _, _) ↦ cc
    | inr (g, same, _, _, at, _) ↦ (ground (arith, at), fetch_page-Inv R D p q id _ v named e)
  ]

  -- The buffer pool keeps what the record manager relies on.
  pub pool_buffer : Buffer D.Data
  pool_buffer = record {
    Error = DiskError;
    State = Pool R D;
    zeros = D.zeros;
    frame = λ p f. p.pages f;
    write_frame = write_frame;
    fetch_page = fetch_page R D;
    new_page = new_page R D;
    unpin_page = unpin_page R D;
    view = view R D;
    IsValid = Inv R D;
    IsQuiet = IsQuiet;
    quiet_valid = λ p quiet. quiet.valid;
    frame-write_frame = λ p f c. ground arith;
    write_frame-write_frame = λ p f b c.
        ap (λ pages. record p { pages = pages }) (update-update p.pages f _ _ _ (ground arith));
    fetched = λ p q id f v named e. fetched p q id f v named e;
    next_id = new_id R D;
    IsFresh =
        λ p fd. (p.page_table (new_id R D p fd) ≡ none) × (is_invalid (new_id R D p fd) ≡ false);
    fetch_laws = λ s t id d x quiet named had e.
        let (f, same, h, at, truth) = fetch_page-IsHeld s t id x quiet named e in
        (
          f,
          same,
          content-fetch_page R D s t id f d quiet.valid named (cc) had,
          at,
          unpin_page-IsQuiet t id f false h (λ _ clean. truth clean),
          λ j c there.
              (unpin_page_result R D t id j false h.valid).0
              ∙ view-fetch_page R D s t id x j c quiet.valid named e there,
          λ c.
              let (calm, hit, rest) = edited t id f c h in
              (
                calm,
                hit,
                λ j b ne there.
                    rest j b ne (view-fetch_page R D s t id x j b quiet.valid named e there),
              ),
        );
    new_laws = λ s t fd x quiet fresh e.
        let (f, same, h, blank, at) = new_page-IsHeld s t fd x quiet fresh.0 fresh.1 e in
        (
          f,
          same,
          blank,
          at,
          refl,
          λ c.
              let (calm, hit, rest) = edited t (new_id R D s fd) f c h in
              (
                calm,
                hit,
                λ j d ne there.
                    rest j d ne
                      (view-new_page R D s t fd x j d quiet.valid fresh.0 fresh.1 e ne there),
              ),
        );
  }
