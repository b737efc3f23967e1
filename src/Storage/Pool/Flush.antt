-- ===== src/Storage/Pool/Flush.antt =====
-- `flush_page` and `flush_all_pages`: what is in the frames reaches the disk.
use cscc_db.Base.{
  ℕ, zero, suc, ◌≡◌, refl, ◌<◌, ◌≤◌, ◌⊎◌, inl, inr, Bool, true, false, none, some, ◌==◌,
  if◌then◌else◌, arith, Option-cases, ◌≢◌, subst, sym, Bool-cases, ok, throws, aborted, ℤ, ◌+◌, ◌∙◌,
  ◌>>=◌, >>=-eq-ok,
}
use cscc_db.Replacer.{Replacer}
use cscc_db.Storage.{PageId, PageId-discrete, is_invalid, Disk}
use cscc_db.Storage.Pool.{
  Pool, Result, flush_page, flush_frame, flush_from, flush_all_pages, is_of, set_page, view,
}
use cscc_db.Storage.Pool.Invariant.{Inv, mapped_of_named}

module _ (R : Replacer) (D : Disk) where
  -- The pool after frame `f` has been written to the disk, which then is `s`.
  abbrev flushed : Pool R D → ℕ → D.Store → Pool R D
  flushed p f s = record (set_page R D p f (record (p.pages f) { is_dirty = false })) { store = s }

  flush_frame_cases :
      (p q : Pool R D) (f : ℕ)
      → flush_frame R D p f ≡ ok q
      → (s : D.Store) × (q ≡ flushed p f s)
        × (D.write_page p.store (p.pages f).id (p.pages f).content ≡ some s)
  unfolding flush_frame
  flush_frame_cases p q f e =
      elim (Option-cases (D.write_page p.store (p.pages f).id (p.pages f).content)) [
        | inl failed ↦ absurd (ground arith)
        | inr (s, written) ↦ (s, ground arith, written)
      ]

  module _ (p : Pool R D) (f : ℕ) (s : D.Store) (v : Inv R D p)
      (mapped : p.page_table (p.pages f).id ≡ some f)
      (written : D.write_page p.store (p.pages f).id (p.pages f).content ≡ some s) where
    kept :
        (j : PageId) (d : D.Data)
        → j ≢ (p.pages f).id
        → D.read_page p.store j ≡ some d
        → D.read_page s j ≡ some d
    kept j d ne had = D.read_other p.store s (p.pages f).id j (p.pages f).content d written ne had

    flushed-Inv : Inv R D (flushed p f s)
    flushed-Inv = record {
      tracked = v.tracked;
      distinct = v.distinct;
      mapped = λ j g there. ground (arith, v.mapped j g there);
      free = λ g there. ground (arith, v.free g);
      idle = λ g there. ground (arith, v.idle g);
      complete = λ g lt unpinned. ground (arith, v.complete g lt);
      held = λ g lt pinned. ground (arith, v.held g lt);
      synced = λ g there unpinned clean. ground (
        arith,
        v.synced g,
        kept (p.pages g).id (p.pages g).content,
        D.read_written p.store s (p.pages f).id (p.pages f).content written,
      );
    }

    flushed-view :
        (j : PageId) (d : D.Data) → view R D p j ≡ some d → view R D (flushed p f s) j ≡ some d
    unfolding view
    flushed-view j d had = ground (arith, kept j d)

    flushed-durable :
        (j : PageId) (d : D.Data)
        → view R D p j ≡ some d
        → D.read_page p.store j ≡ some d
        → D.read_page s j ≡ some d
    unfolding view
    flushed-durable j d had disk = ground (
      arith,
      kept j d,
      D.read_written p.store s (p.pages f).id (p.pages f).content written,
      PageId-discrete j (p.pages f).id,
    )

  -- What a sequence of writes to the disk keeps.
  record Kept (p q : Pool R D) : Type 0 where
    inv : Inv R D q
    size : q.pool_size ≡ p.pool_size
    table : q.page_table ≡ p.page_table
    ids : (f : ℕ) → (q.pages f).id ≡ (p.pages f).id
    same_view : (j : PageId) (d : D.Data) → view R D p j ≡ some d → view R D q j ≡ some d
    durable :
        (j : PageId) (d : D.Data)
        → view R D p j ≡ some d
        → D.read_page p.store j ≡ some d
        → D.read_page q.store j ≡ some d

  Kept-refl : (p : Pool R D) → Inv R D p → Kept p p
  Kept-refl p v = record {
    inv = v;
    size = refl;
    table = refl;
    ids = λ f. refl;
    same_view = λ j d had. had;
    durable = λ j d had disk. disk;
  }

  Kept-trans : (p q r : Pool R D) → Kept p q → Kept q r → Kept p r
  Kept-trans p q r k l = record {
    inv = l.inv;
    size = l.size ∙ k.size;
    table = l.table ∙ k.table;
    ids = λ f. l.ids f ∙ k.ids f;
    same_view = λ j d had. l.same_view j d (k.same_view j d had);
    durable = λ j d had disk. l.durable j d (k.same_view j d had) (k.durable j d had disk);
  }

  flush_frame-Kept :
      (p q : Pool R D) (f : ℕ)
      → Inv R D p
      → p.page_table (p.pages f).id ≡ some f
      → flush_frame R D p f ≡ ok q
      → Kept p q × (D.read_page q.store (p.pages f).id ≡ some (p.pages f).content)
  flush_frame-Kept p q f v mapped e =
      let (s, same, written) = flush_frame_cases p q f e in
      subst (λ t. Kept p t × (D.read_page t.store (p.pages f).id ≡ some (p.pages f).content))
        (sym same)
        (
          record {
            inv = flushed-Inv p f s v mapped written;
            size = refl;
            table = refl;
            ids = λ g. ground arith;
            same_view = flushed-view p f s v mapped written;
            durable = flushed-durable p f s v mapped written;
          },
          D.read_written p.store s (p.pages f).id (p.pages f).content written,
        )

  abbrev report : Pool R D → Result R D (Bool × Pool R D)
  report r = ok (true, r)

  report_lem :
      (m : Result R D (Pool R D)) (q : Pool R D) (b : Bool)
      → (m >>= report) ≡ ok (b, q)
      → (m ≡ ok q) × (b ≡ true)
  report_lem (ok r) q b e = ground arith
  report_lem (throws x r) q b e = cc
  report_lem aborted q b e = cc

  flush_page_cases :
      (p q : Pool R D) (id : PageId) (b : Bool)
      → Inv R D p
      → flush_page R D p id ≡ ok (b, q)
      → Kept p q
        × (((b ≡ false) × (p.page_table id ≡ none) × (q ≡ p))
            ⊎ ((b ≡ true) × (D.read_page q.store id ≡ view R D p id)))
  unfolding flush_page view
  flush_page_cases p q id b v e = elim (Option-cases (p.page_table id)) [
    | inl absent ↦
        let same : q ≡ p = ground arith in
        (subst (Kept p) (sym same) (Kept-refl p v), inl (ground arith, absent, same))
    | inr (f, there) ↦
        let at = v.mapped id f there in
        let chain : (flush_frame R D p f >>= report) ≡ ok (b, q) = ground arith in
        let (flushes, done) = report_lem (flush_frame R D p f) q b chain in
        let (k, disk) = flush_frame-Kept p q f v (ground (arith, at.identity)) flushes in
        (k, inr (done, ground (arith, at.identity)))
  ]

  -- Flushing a page keeps the invariant.
  pub flush_page-Inv :
      (p q : Pool R D) (id : PageId) (b : Bool)
      → Inv R D p
      → flush_page R D p id ≡ ok (b, q)
      → Inv R D q
  flush_page-Inv p q id b v e = (flush_page_cases p q id b v e).0.inv

  -- If `flush_page` succeeds, the disk holds what a reader saw of the page, and no page that a
  -- reader can see has changed. If it fails, the page is in no frame and nothing has changed.
  pub flush_page_result :
      (p q : Pool R D) (id j : PageId) (b : Bool) (d : D.Data)
      → Inv R D p
      → flush_page R D p id ≡ ok (b, q)
      → view R D p j ≡ some d
      → (view R D q j ≡ some d)
        × (((b ≡ false) × (p.page_table id ≡ none) × (q ≡ p))
            ⊎ ((b ≡ true) × (D.read_page q.store id ≡ view R D p id)))
  flush_page_result p q id j b d v e had =
      let (k, rest) = flush_page_cases p q id b v e in (k.same_view j d had, rest)

  flush_step-Kept :
      (p q : Pool R D) (i : ℕ) (fd : ℤ)
      → Inv R D p
      → i < p.pool_size
      → (if is_of R D p i fd then flush_frame R D p i else ok p) ≡ ok q
      → Kept p q
        × ((is_of R D p i fd ≡ false)
            ⊎ (D.read_page q.store (p.pages i).id ≡ some (p.pages i).content))
  flush_step-Kept p q i fd v lt e = elim (Bool-cases (is_of R D p i fd)) [
    | inl mine ↦
        let named : is_invalid (p.pages i).id ≡ false = ground arith in
        let (k, disk) =
          flush_frame-Kept p q i v (mapped_of_named R D p i v lt named) (rw mine at e) in
        (k, inr disk)
    | inr other ↦
        let same : p ≡ q = ground arith in (subst (Kept p) same (Kept-refl p v), inl other)
  ]

  flush_from-Kept :
      (n i : ℕ) (fd : ℤ) (p q : Pool R D)
      → Inv R D p
      → i + n ≤ p.pool_size
      → flush_from R D n i fd p ≡ ok q
      → Kept p q
  unfolding flush_from
  flush_from-Kept zero i fd p q v le e =
      let same : p ≡ q = ground arith in subst (Kept p) same (Kept-refl p v)
  flush_from-Kept (suc n) i fd p q v le e =
      let (r, first, rest) = >>=-eq-ok _ (λ r. flush_from R D n (i + 1) fd r) e in
      let (k, _) = flush_step-Kept p r i fd v (omega arith) first in
      Kept-trans p r q k (flush_from-Kept n (i + 1) fd r q k.inv (omega (arith, k.size)) rest)

  flush_from-disk :
      (n i : ℕ) (fd : ℤ) (p q : Pool R D) (f : ℕ)
      → Inv R D p
      → i + n ≤ p.pool_size
      → flush_from R D n i fd p ≡ ok q
      → i ≤ f
      → f < i + n
      → is_of R D p f fd ≡ true
      → D.read_page q.store (p.pages f).id ≡ view R D p (p.pages f).id
  unfolding flush_from view
  flush_from-disk zero i fd p q f v le e lo hi mine = absurd (omega arith)
  flush_from-disk (suc n) i fd p q f v le e lo hi mine =
      let (r, first, rest) = >>=-eq-ok _ (λ r. flush_from R D n (i + 1) fd r) e in
      let (k, done) = flush_step-Kept p r i fd v (omega arith) first in
      let fits : i + 1 + n ≤ r.pool_size = omega (arith, k.size) in
      let later = flush_from-Kept n (i + 1) fd r q k.inv fits rest in
      let named : is_invalid (p.pages f).id ≡ false = ground arith in
      let there = mapped_of_named R D p f v (omega arith) named in
      let had : view R D p (p.pages f).id ≡ some (p.pages f).content = ground arith in
      elim (Bool-cases (i == f)) [
        | inl now ↦ later.durable _ _ (k.same_view _ _ had) (ground arith) ∙ sym had
        | inr after ↦
            let same = k.ids f in
            subst (λ id. D.read_page q.store id ≡ view R D p (p.pages f).id) same
              (flush_from-disk n (i + 1) fd r q f k.inv fits rest (ground arith) (omega arith)
                  (ground (arith, same))
                ∙ subst (λ id. view R D r id ≡ some (p.pages f).content) (sym same)
                    (k.same_view _ _ had)
                ∙ sym had)
      ]

  -- When `flush_all_pages` ends well, the disk holds, for every page of the file that is in a frame,
  -- what a reader saw of that page before; and no page that a reader can see has changed.
  pub flush_all_pages_result :
      (p q : Pool R D) (fd : ℤ) (f : ℕ) (j : PageId) (d : D.Data)
      → Inv R D p
      → flush_all_pages R D p fd ≡ ok q
      → f < p.pool_size
      → is_of R D p f fd ≡ true
      → view R D p j ≡ some d
      → (D.read_page q.store (p.pages f).id ≡ view R D p (p.pages f).id) × (view R D q j ≡ some d)
  unfolding flush_all_pages
  flush_all_pages_result p q fd f j d v e lt mine had = (
    flush_from-disk p.pool_size 0 fd p q f v (omega arith) e (omega arith) (omega arith) mine,
    (flush_from-Kept p.pool_size 0 fd p q v (omega arith) e).same_view j d had,
  )

  -- `flush_all_pages` keeps the invariant.
  pub flush_all_pages-Inv :
      (p q : Pool R D) (fd : ℤ) → Inv R D p → flush_all_pages R D p fd ≡ ok q → Inv R D q
  unfolding flush_all_pages
  flush_all_pages-Inv p q fd v e = (flush_from-Kept p.pool_size 0 fd p q v (omega arith) e).inv
