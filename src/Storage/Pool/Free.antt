-- ===== src/Storage/Pool/Free.antt =====
-- `free_page` and `free_all_pages`: frames with clean, unpinned pages go back to the free list.
use cscc_db.Base.{
  ℕ, zero, suc, ◌≡◌, refl, ◌<◌, ◌≤◌, ◌⊎◌, inl, inr, false, none, some, ◌==◌, if◌then◌else◌, arith,
  Option-cases, subst, sym, Bool-cases, ok, ℤ, ◌+◌, ◌∙◌, >>=-eq-ok, ◌==ℤ◌, minus_one, ==ℤ_iff,
}
use cscc_db.Replacer.{Replacer}
use cscc_db.Storage.{PageId, is_invalid, Disk}
use cscc_db.Storage.Pool.{Pool, give_back, free_page, free_from, free_all_pages, is_of, view}
use cscc_db.Storage.Pool.Invariant.{Inv, mapped_of_named}
use cscc_db.Storage.Pool.Drop.{emptied, emptied-Inv, emptied-view}
use cscc_db.Storage.Pool.Load.{Saved}

module _ (R : Replacer) (D : Disk) where
  give_back_cases :
      (p q : Pool R D) (f : ℕ) (id : PageId)
      → give_back R D p f id ≡ ok q
      → ((p.pages f).pin_count ≡ 0)
        × ((p.pages f).is_dirty ≡ false)
        × (q
            ≡ emptied R D p f id
                (record (p.pages f).id { page_no = minus_one })
                (p.pages f).content
                p.store)
  unfolding give_back
  give_back_cases p q f id e = elim (Bool-cases ((p.pages f).pin_count == 0)) [
    | inr pinned ↦ absurd (ground arith)
    | inl unpinned ↦ elim (Bool-cases (p.pages f).is_dirty) [
      | inl dirty ↦ absurd (ground arith)
      | inr clean ↦ (ground arith, clean, ground arith)
    ]
  ]

  -- What freeing keeps; the frames that are of another file stay as they are.
  record Released (p q : Pool R D) : Type 0 where
    inv : Inv R D q
    size : q.pool_size ≡ p.pool_size
    same_view : (j : PageId) (d : D.Data) → view R D p j ≡ some d → view R D q j ≡ some d
    none_new : (g : ℕ) (fd : ℤ) → is_of R D p g fd ≡ false → is_of R D q g fd ≡ false

  Released-refl : (p : Pool R D) → Inv R D p → Released p p
  Released-refl p v = record {
    inv = v;
    size = refl;
    same_view = λ j d had. had;
    none_new = λ g fd other. other;
  }

  give_back-Released :
      (p q : Pool R D) (f : ℕ) (id : PageId)
      → Inv R D p
      → p.page_table id ≡ some f
      → give_back R D p f id ≡ ok q
      → Released p q × ((fd : ℤ) → is_of R D q f fd ≡ false) × (q.page_table id ≡ none)
  unfolding ◌==ℤ◌
  give_back-Released p q f id v there e =
      let (unpinned, clean, same) = give_back_cases p q f id e in
      let gone = record (p.pages f).id { page_no = minus_one } in
      let saved : Saved R D p f p.store = record {
        kept = λ j d ne had. had;
        flushed = λ dirty. ground arith;
        untouched = λ j d _ had. had;
      } in
      let c = (p.pages f).content in
      subst (λ t. Released p t × ((fd : ℤ) → is_of R D t f fd ≡ false) × (t.page_table id ≡ none))
        (sym same)
        (
          record {
            inv = emptied-Inv R D p f id gone c p.store v there unpinned refl saved;
            size = refl;
            same_view = emptied-view R D p f id gone c p.store v there unpinned refl saved;
            none_new = λ g fd other. ground arith;
          },
          λ fd. ground arith,
          ground arith,
        )

  -- `free_page` takes the page out of its frame; the invariant is kept, and no page that a reader
  -- can see changes. It ends well only if the page is in no frame, or unpinned and clean.
  pub free_page_result :
      (p q : Pool R D) (id j : PageId) (d : D.Data)
      → Inv R D p
      → free_page R D p id ≡ ok q
      → view R D p j ≡ some d
      → Inv R D q
        × (view R D q j ≡ some d)
        × (q.page_table id ≡ none)
        × ((p.page_table id ≡ none)
            ⊎ ((f : ℕ) × (p.page_table id ≡ some f)
                × ((p.pages f).pin_count ≡ 0)
                × ((p.pages f).is_dirty ≡ false)))
  unfolding free_page
  free_page_result p q id j d v e had = elim (Option-cases (p.page_table id)) [
    | inl absent ↦
        let same : p ≡ q = ground arith in
        (
          subst (Inv R D) same v,
          subst (λ t. view R D t j ≡ some d) same had,
          subst (λ t. t.page_table id ≡ none) same absent,
          inl absent,
        )
    | inr (f, there) ↦
        let gives : give_back R D p f id ≡ ok q = ground arith in
        let (r, _, gone) = give_back-Released p q f id v there gives in
        let (unpinned, clean, _) = give_back_cases p q f id gives in
        (r.inv, r.same_view j d had, gone, inr (f, there, unpinned, clean))
  ]

  free_step-Released :
      (p q : Pool R D) (i : ℕ) (fd : ℤ)
      → Inv R D p
      → i < p.pool_size
      → (if is_of R D p i fd then give_back R D p i (p.pages i).id else ok p) ≡ ok q
      → Released p q × (is_of R D q i fd ≡ false)
  free_step-Released p q i fd v lt e = elim (Bool-cases (is_of R D p i fd)) [
    | inl mine ↦
        let named : is_invalid (p.pages i).id ≡ false = ground arith in
        let there = mapped_of_named R D p i v lt named in
        let (r, gone, _) = give_back-Released p q i (p.pages i).id v there (rw mine at e) in
        (r, gone fd)
    | inr other ↦
        let same : p ≡ q = ground arith in
        subst (λ t. Released p t × (is_of R D t i fd ≡ false)) same (Released-refl p v, other)
  ]

  free_from-Released :
      (n i : ℕ) (fd : ℤ) (p q : Pool R D)
      → Inv R D p
      → i + n ≤ p.pool_size
      → free_from R D n i fd p ≡ ok q
      → Released p q × ((g : ℕ) → i ≤ g → g < i + n → is_of R D q g fd ≡ false)
  unfolding free_from
  free_from-Released zero i fd p q v le e =
      let same : p ≡ q = ground arith in
      (subst (Released p) same (Released-refl p v), λ g lo hi. absurd (omega arith))
  free_from-Released (suc n) i fd p q v le e =
      let (r, first, rest) = >>=-eq-ok _ (λ r. free_from R D n (i + 1) fd r) e in
      let (k, gone) = free_step-Released p r i fd v (omega arith) first in
      let (l, later) = free_from-Released n (i + 1) fd r q k.inv (omega (arith, k.size)) rest in
      (
        record {
          inv = l.inv;
          size = l.size ∙ k.size;
          same_view = λ j d had. l.same_view j d (k.same_view j d had);
          none_new = λ g fd other. l.none_new g fd (k.none_new g fd other);
        },
        λ g lo hi. elim (Bool-cases (i == g)) [
          | inl now ↦ subst (λ t. is_of R D q t fd ≡ false) (ground arith) (l.none_new i fd gone)
          | inr after ↦ later g (ground arith) (omega arith)
        ],
      )

  -- When `free_all_pages` ends well, no frame holds a page of the file and the table names none; the
  -- invariant is kept, and no page that a reader can see has changed.
  pub free_all_pages_result :
      (p q : Pool R D) (id j : PageId) (d : D.Data)
      → Inv R D p
      → free_all_pages R D p id.fd ≡ ok q
      → view R D p j ≡ some d
      → Inv R D q × (view R D q j ≡ some d) × (q.page_table id ≡ none)
  unfolding free_all_pages
  free_all_pages_result p q id j d v e had =
      let (r, gone) = free_from-Released p.pool_size 0 id.fd p q v (omega arith) e in
      (
        r.inv,
        r.same_view j d had,
        elim (Option-cases (q.page_table id)) [
          | inl absent ↦ absent
          | inr (f, there) ↦
              let at = r.inv.mapped id f there in
              absurd (
                ground (
                  arith,
                  at.in_range,
                  at.identity,
                  at.named,
                  gone f (omega arith) (omega (arith, at.in_range, r.size)),
                  (==ℤ_iff id.fd id.fd).1 refl,
                ))
        ],
      )
