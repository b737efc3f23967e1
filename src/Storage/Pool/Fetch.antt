-- ===== src/Storage/Pool/Fetch.antt =====
-- `fetch_page` and `new_page`: they keep the invariant, and no page that a reader can see changes.
use cscc_db.Base.{
  ℕ, ◌≡◌, ◌<◌, ◌⊎◌, inl, inr, false, Option, none, some, List, arith, Option-cases, ◌≢◌, subst, sym,
  ok, throws, ℤ, ◌+◌, ◌∙◌,
}
use cscc_db.Replacer.{Replacer}
use cscc_db.Storage.{PageId, PageId-discrete, is_invalid, Disk}
use cscc_db.Storage.Pool.{Pool, fetch_page, new_page, set_page, view, internal_error}
use cscc_db.Storage.Pool.Invariant.{Inv}
use cscc_db.Storage.Pool.Claim.{Claimed, find_victim_page_cases}
use cscc_db.Storage.Pool.Load.{
  Saved, occupied, occupied-Inv, occupied-view, new_page_differs, load_cases, create_cases, new_id,
}

module _ (R : Replacer) (D : Disk) where
  -- A page that is in frame `f` is pinned once more.
  abbrev pinned_again : Pool R D → ℕ → Pool R D
  pinned_again p f =
      record (set_page R D p f (record (p.pages f) { pin_count = (p.pages f).pin_count + 1 })) {
        replacer = R.pin f p.replacer;
      }

  pinned_again-Inv :
      (p : Pool R D) (id : PageId) (f : ℕ)
      → Inv R D p
      → p.page_table id ≡ some f
      → Inv R D (pinned_again p f)
  pinned_again-Inv p id f v e =
      let (tracked, rest) = R.pin_laws p.replacer f v.tracked in
      let at = v.mapped id f e in
      record {
        tracked = tracked;
        distinct = v.distinct;
        mapped = λ j g there. ground (arith, v.mapped j g there);
        free = λ g there. ground (arith, v.free g, at.not_free, rest g);
        idle = λ g there. ground (arith, v.idle g, rest g);
        complete = λ g lt unpinned. ground (arith, v.complete g lt, rest g);
        held = λ g lt pinned. ground (arith, v.held g lt, at.identity);
        synced = λ g there unpinned clean. ground (arith, v.synced g);
      }

  pinned_again-view :
      (p : Pool R D) (f : ℕ) (j : PageId) → view R D (pinned_again p f) j ≡ view R D p j
  unfolding view
  pinned_again-view p f j = ground arith

  -- No frame can be had.
  abbrev pub AllPinned : Pool R D → Type 0
  AllPinned p = (f : ℕ) → f < p.pool_size → (p.pages f).pin_count ≢ 0

  -- How `fetch_page` ends.
  pub fetch_page_cases :
      (p : Pool R D) (id : PageId)
      → Inv R D p
      → ((q : Pool R D) × (fetch_page R D p id ≡ throws internal_error q))
        ⊎ ((p.page_table id ≡ none) × AllPinned p × (fetch_page R D p id ≡ ok (none, p)))
        ⊎ ((f : ℕ) × (p.page_table id ≡ some f)
            × (fetch_page R D p id ≡ ok (some f, pinned_again p f)))
        ⊎ ((f : ℕ) × (fs : List ℕ) × (r : R.State) × (c : D.Data) × (s : D.Store) × (p.page_table id
              ≡ none)
            × Claimed R D p fs r f
            × (D.read_page s id ≡ some c)
            × Saved R D p f s
            × (fetch_page R D p id ≡ ok (some f, occupied R D p fs r f id c s)))
  unfolding fetch_page
  fetch_page_cases p id v = elim (Option-cases (p.page_table id)) [
    | inr (f, e) ↦ inr (inr (inl (f, e, ground arith)))
    | inl e ↦ elim (find_victim_page_cases R D p v) [
      | inl (full, all) ↦ inr (inl (e, all, ground arith))
      | inr (f, fs, r, found, claim) ↦ elim (load_cases R D p fs r f id) [
        | inl (q, thrown) ↦ inl (q, ground arith)
        | inr (c, s, loaded, read, saved) ↦
            inr (inr (inr (f, fs, r, c, s, e, claim, read, saved, ground arith)))
      ]
    ]
  ]

  -- A fetch that ends well keeps the invariant.
  pub fetch_page-Inv :
      (p q : Pool R D) (id : PageId) (x : Option ℕ)
      → Inv R D p
      → is_invalid id ≡ false
      → fetch_page R D p id ≡ ok (x, q)
      → Inv R D q
  fetch_page-Inv p q id x v named e = elim (fetch_page_cases p id v) [
    | inl (_, thrown) ↦ cc
    | inr (inl (_, _, full)) ↦ subst (Inv R D) (cc) v
    | inr (inr (inl (f, there, hit))) ↦ subst (Inv R D) (cc) (pinned_again-Inv p id f v there)
    | inr (inr (inr (f, fs, r, c, s, absent, claim, _, saved, loaded))) ↦
        subst (Inv R D) (cc) (occupied-Inv R D p fs r f id c s v claim absent named saved)
  ]

  view-absent :
      (p : Pool R D) (id : PageId) → p.page_table id ≡ none → view R D p id ≡ D.read_page p.store id
  unfolding view
  view-absent p id e = ground arith

  view-entered :
      (p : Pool R D) (fs : List ℕ) (r : R.State) (f : ℕ) (id : PageId) (c : D.Data) (s : D.Store)
      → view R D (occupied R D p fs r f id c s) id ≡ some c
  unfolding view
  view-entered p fs r f id c s = ground arith

  -- A fetch that ends well changes no page that a reader can see, whatever it evicts.
  pub view-fetch_page :
      (p q : Pool R D) (id : PageId) (x : Option ℕ) (j : PageId) (d : D.Data)
      → Inv R D p
      → is_invalid id ≡ false
      → fetch_page R D p id ≡ ok (x, q)
      → view R D p j ≡ some d
      → view R D q j ≡ some d
  view-fetch_page p q id x j d v named e had = elim (fetch_page_cases p id v) [
    | inl (_, thrown) ↦ cc
    | inr (inl (_, _, full)) ↦ subst (λ t. view R D t j ≡ some d) (cc) had
    | inr (inr (inl (f, there, hit))) ↦
        subst (λ t. view R D t j ≡ some d) (cc) (pinned_again-view p f j ∙ had)
    | inr (inr (inr (f, fs, r, c, s, absent, claim, read, saved, loaded))) ↦
        subst (λ t. view R D t j ≡ some d) (cc)
          (elim (PageId-discrete j id) [
            | no ne ↦ occupied-view R D p fs r f id c s v claim absent named saved j d ne had
            | yes same ↦
                let old : D.read_page p.store id ≡ some d =
                  sym (view-absent p id absent) ∙ subst (λ k. view R D p k ≡ some d) same had in
                let differs = new_page_differs R D p fs r f id c s v claim absent named saved in
                subst (λ k. view R D (occupied R D p fs r f id c s) k ≡ some d) (sym same)
                  (view-entered p fs r f id c s ∙ sym read ∙ saved.kept id d differs old)
          ])
  ]

  -- A fetch that ends well hands out a frame that holds the page, pinned; or a null pointer, and
  -- then the page is in no frame, every frame is pinned, and nothing has changed.
  pub fetch_page_result :
      (p q : Pool R D) (id : PageId) (x : Option ℕ)
      → Inv R D p
      → is_invalid id ≡ false
      → fetch_page R D p id ≡ ok (x, q)
      → ((x ≡ none) × (q ≡ p) × (p.page_table id ≡ none) × AllPinned p)
        ⊎ ((f : ℕ) × (x ≡ some f)
            × (f < p.pool_size)
            × (q.page_table id ≡ some f)
            × ((q.pages f).id ≡ id)
            × (0 < (q.pages f).pin_count))
  fetch_page_result p q id x v named e = elim (fetch_page_cases p id v) [
    | inl (_, thrown) ↦ cc
    | inr (inl (absent, all, full)) ↦ inl (cc, cc, absent, all)
    | inr (inr (inl (f, there, hit))) ↦
        let at = v.mapped id f there in
        inr (f, cc, at.in_range, ground arith, ground (arith, at.identity), ground arith)
    | inr (inr (inr (f, fs, r, c, s, absent, claim, read, saved, loaded))) ↦
        inr (f, cc, claim.in_range, ground arith, ground arith, ground arith)
  ]

  -- The frame that a fetch hands out holds the bytes that a reader of the page saw before: those of
  -- its frame if it was in one, else those of the disk.
  pub content-fetch_page :
      (p q : Pool R D) (id : PageId) (f : ℕ) (d : D.Data)
      → Inv R D p
      → is_invalid id ≡ false
      → fetch_page R D p id ≡ ok (some f, q)
      → view R D p id ≡ some d
      → (q.pages f).content ≡ d
  unfolding view
  content-fetch_page p q id f d v named e had = elim (fetch_page_result p q id (some f) v named e) [
    | inl (missing, _, _, _) ↦ cc
    | inr (g, same, _, there, _, _) ↦
        ground (arith, view-fetch_page p q id (some f) id d v named e had)
  ]

  -- How `new_page` ends.
  pub new_page_cases :
      (p : Pool R D) (fd : ℤ)
      → Inv R D p
      → ((y : Option (ℕ × PageId) × Pool R D) → new_page R D p fd ≢ ok y)
        ⊎ (AllPinned p × (new_page R D p fd ≡ ok (none, p)))
        ⊎ ((f : ℕ) × (fs : List ℕ) × (r : R.State) × (s : D.Store) × Claimed R D p fs r f
            × Saved R D p f s
            × (new_page R D p fd
                ≡ ok
                    (some (f, new_id R D p fd), occupied R D p fs r f (new_id R D p fd) D.zeros s)))
  unfolding new_page
  new_page_cases p fd v = elim (find_victim_page_cases R D p v) [
    | inl (full, all) ↦ inr (inl (all, ground arith))
    | inr (f, fs, r, found, claim) ↦ elim (create_cases R D p fs r f fd) [
      | inl never ↦ inl (λ y e. never y (ground (arith, e, found)))
      | inr (s, made, saved) ↦ inr (inr (f, fs, r, s, claim, saved, ground arith))
    ]
  ]

  -- A new page, under an identity that no frame holds, keeps the invariant.
  pub new_page-Inv :
      (p q : Pool R D) (fd : ℤ) (x : Option (ℕ × PageId))
      → Inv R D p
      → p.page_table (new_id R D p fd) ≡ none
      → is_invalid (new_id R D p fd) ≡ false
      → new_page R D p fd ≡ ok (x, q)
      → Inv R D q
  new_page-Inv p q fd x v fresh named e = elim (new_page_cases p fd v) [
    | inl never ↦ absurd (never (x, q) e)
    | inr (inl (_, full)) ↦ subst (Inv R D) (cc) v
    | inr (inr (f, fs, r, s, claim, saved, made)) ↦
        subst (Inv R D) (cc)
          (occupied-Inv R D p fs r f (new_id R D p fd) D.zeros s v claim fresh named saved)
  ]

  -- A new page that ends well, under a valid identity that no frame holds, changes no other page that
  -- a reader can see, whatever it evicts.
  pub view-new_page :
      (p q : Pool R D) (fd : ℤ) (x : Option (ℕ × PageId)) (j : PageId) (d : D.Data)
      → Inv R D p
      → p.page_table (new_id R D p fd) ≡ none
      → is_invalid (new_id R D p fd) ≡ false
      → new_page R D p fd ≡ ok (x, q)
      → j ≢ new_id R D p fd
      → view R D p j ≡ some d
      → view R D q j ≡ some d
  view-new_page p q fd x j d v fresh named e ne had = elim (new_page_cases p fd v) [
    | inl never ↦ absurd (never (x, q) e)
    | inr (inl (_, full)) ↦ subst (λ t. view R D t j ≡ some d) (cc) had
    | inr (inr (f, fs, r, s, claim, saved, made)) ↦
        subst (λ t. view R D t j ≡ some d) (cc)
          (occupied-view R D p fs r f (new_id R D p fd) D.zeros s v claim fresh named saved j d ne
            had)
  ]
