-- ===== src/Record/File/Shows.antt =====
-- What the calls of `RmFileHandle` do, seen through the buffer pool.
use cscc_db.Base.{
  ℕ, ◌+◌, ◌≤◌, ◌<◌, ◌≡◌, refl, true, false, Option, none, some, ◌==◌, update, arith, ℤ, pos, ◌==ℤ◌,
  ap, inl, inr, Outcome, ok, throws, aborted, ◌≢◌, subst, ==_iff, ==_refl, sym, ◌∙◌, Bool-cases,
}
use cscc_db.Storage.{PageId}
use cscc_db.Storage.Buffer.{Buffer}
use cscc_db.Record.File.Grow.{grown}
use cscc_db.Record.File.{
  RmPage, RmFile, fetch_page_handle, create_new_page, write_page, id_of, blank, handle_of,
  new_handle_of,
}

-- The identity of page `k` of a file.
abbrev pub page_id : ℤ → ℕ → PageId
page_id fd k = record { fd = fd; page_no = pos k }

module _ (B : Buffer RmPage) where
  -- No page is pinned, and the pages 1, 2, …, below `num`, of a file read as `pages`.
  pub record Shows (fd : ℤ) (num : ℕ) (s : B.State) (pages : ℕ → RmPage) : Type 0 where
    pub quiet : B.IsQuiet s
    pub reads : (k : ℕ) → 1 ≤ k → k < num → B.view s (page_id fd k) ≡ some (pages k)

  pub handle_of_cases :
      (file q : RmFile B) (f : ℕ) (call : Outcome B.Error B.State (Option ℕ × B.State))
      → handle_of B file call ≡ ok (f, q)
      → (t : B.State) × (q ≡ record file { buffer = t }) × (call ≡ ok (some f, t))
  handle_of_cases file q f aborted e = cc
  handle_of_cases file q f (throws why s) e = cc
  handle_of_cases file q f (ok (none, s)) e = cc
  handle_of_cases file q f (ok (some g, s)) e = (s, cc, cc)

  new_handle_of_cases :
      (file q : RmFile B) (f : ℕ) (call : Outcome B.Error B.State (Option (ℕ × PageId) × B.State))
      → new_handle_of B file call ≡ ok (f, q)
      → (t : B.State) × (id : PageId) × (call ≡ ok (some (f, id), t))
        × (q
            ≡ record (write_page B (record file { buffer = t }) f (blank B (B.frame t f).content)) {
              hdr = record file.hdr {
                num_pages = file.hdr.num_pages + 1;
                first_free_page_no = id.page_no;
              };
            })
  new_handle_of_cases file q f aborted e = cc
  new_handle_of_cases file q f (throws why s) e = cc
  new_handle_of_cases file q f (ok (none, s)) e = cc
  new_handle_of_cases file q f (ok (some (g, id), s)) e = (s, id, cc, cc)

  -- A page that is fetched: the handle shows it; and it may be changed, or not, and unpinned.
  pub record IsOpen (fd : ℤ) (num : ℕ) (s : B.State) (pages : ℕ → RmPage) (k f : ℕ) : Type 0 where
    pub content : (B.frame s f).content ≡ pages k
    pub identity : (B.frame s f).id ≡ page_id fd k
    pub changed :
        (page : RmPage)
        → let t = B.write_frame s f page in
          Shows fd num (B.unpin_page t (B.frame t f).id true).1 (update pages k page)

  other_id : (fd : ℤ) (j k : ℕ) → (j == k) ≡ false → page_id fd j ≢ page_id fd k
  other_id fd j k ne e = ground arith

  -- On `r` page `id` is `page`, and the others are as before.
  abbrev IsEdited : B.State → PageId → RmPage → B.State → Type 0
  IsEdited before id page r =
      B.IsQuiet r
      × (B.view r id ≡ some page)
      × ((j : PageId) (e : RmPage) → j ≢ id → B.view before j ≡ some e → B.view r j ≡ some e)

  -- The pages after page `k` has been changed to `page` and unpinned.
  edited_shows :
      (fd : ℤ) (num : ℕ) (t : B.State) (pages : ℕ → RmPage) (k f : ℕ) (page : RmPage)
      (before : B.State)
      → ((j : ℕ)
          → 1 ≤ j
          → j < num
          → (j == k) ≡ false
          → B.view before (page_id fd j) ≡ some (pages j))
      → (B.frame t f).id ≡ page_id fd k
      → IsEdited before
          (page_id fd k)
          page
          (B.unpin_page (B.write_frame t f page) (page_id fd k) true).1
      → let u = B.write_frame t f page in
        Shows fd num (B.unpin_page u (B.frame u f).id true).1 (update pages k page)
  edited_shows fd num t pages k f page before reads at (calm, hit, rest) =
      rw (ap (λ p. p.id) (B.frame-write_frame t f page) ∙ at) (record {
        quiet = calm;
        reads = λ j a b. elim (Bool-cases (j == k)) [
          | inl e ↦ rw e (
              subst
                (λ i.
                  B.view (B.unpin_page (B.write_frame t f page) (page_id fd k) true).1
                    (page_id fd i)
                  ≡ some page)
                (sym ((==_iff j k).0 e)) hit)
          | inr ne ↦ rw ne (rest (page_id fd j) (pages j) (other_id fd j k ne) (reads j a b ne))
        ];
      })

  -- A fetch of a page of the file that ends well.
  pub fetch_page_handle_lem :
      (file q : RmFile B) (num k f : ℕ) (pages : ℕ → RmPage)
      → Shows file.fd num file.buffer pages
      → 1 ≤ k
      → k < num
      → fetch_page_handle B file (pos k) ≡ ok (f, q)
      → (t : B.State) × (q ≡ record file { buffer = t })
        × IsOpen file.fd num t pages k f
        × Shows file.fd num (B.unpin_page t (B.frame t f).id false).1 pages
  unfolding fetch_page_handle ◌==ℤ◌
  fetch_page_handle_lem file q num k f pages h lo hi e =
      let (t, shape, call) = handle_of_cases file q f _ e in
      let id = id_of B file (pos k) in
      let (g, same, content, at, quiet, kept, edit) =
        B.fetch_laws file.buffer t id (pages k) (some f) h.quiet refl (h.reads k lo hi) call in
      let same_frame : g ≡ f = ground (arith, same) in
      (
        t,
        shape,
        subst (IsOpen file.fd num t pages k) same_frame (record {
          content = content;
          identity = at;
          changed = λ page.
              edited_shows file.fd num t pages k g page file.buffer (λ j a b _. h.reads j a b) at
                (edit page);
        }),
        subst (λ g. Shows file.fd num (B.unpin_page t (B.frame t g).id false).1 pages) same_frame
            (rw at (record { quiet = quiet; reads = λ j a b. kept _ _ (h.reads j a b) })),
      )

  opened_blank :
      (fd : ℤ) (n : ℕ) (t : B.State) (f : ℕ) (pages : ℕ → RmPage) (before : B.State)
      → ((j : ℕ) → 1 ≤ j → j < n → B.view before (page_id fd j) ≡ some (pages j))
      → (B.frame t f).content ≡ B.zeros
      → (B.frame t f).id ≡ page_id fd n
      → ((c : RmPage)
          → IsEdited before
              (page_id fd n)
              c
              (B.unpin_page (B.write_frame t f c) (page_id fd n) true).1)
      → IsOpen fd
          (n + 1)
          (B.write_frame t f (blank B (B.frame t f).content))
          (update pages n (blank B B.zeros))
          n
          f
  opened_blank fd n t f pages before reads zero_page at edit =
      let new = blank B (B.frame t f).content in
      let law = B.frame-write_frame t f new in
      let at_new : (B.frame (B.write_frame t f new) f).id ≡ page_id fd n =
        ap (λ p. p.id) law ∙ at in
      record {
        content = ap (λ p. p.content) law ∙ rw (zero_page, ==_refl n) refl;
        identity = at_new;
        changed = λ page.
            edited_shows fd (n + 1) (B.write_frame t f new) (update pages n (blank B B.zeros)) n f
              page before (λ j a b ne. rw ne (reads j a (ground arith))) at_new
              (rw (B.write_frame-write_frame t f new page) (edit page));
      }

  -- A page that is appended.
  pub create_new_page_lem :
      (file q : RmFile B) (f : ℕ) (pages : ℕ → RmPage)
      → Shows file.fd file.hdr.num_pages file.buffer pages
      → B.IsFresh file.buffer file.fd
      → B.next_id file.buffer file.fd ≡ page_id file.fd file.hdr.num_pages
      → create_new_page B file ≡ ok (f, q)
      → let n = file.hdr.num_pages in
        (t : B.State) × (q ≡ record file { buffer = t; hdr = grown file.hdr })
        × IsOpen file.fd (n + 1) t (update pages n (blank B B.zeros)) n f
  unfolding create_new_page
  create_new_page_lem file q f pages h fresh next e =
      let n = file.hdr.num_pages in
      let (t, id, call, shape) = new_handle_of_cases file q f _ e in
      let (g, same, zero_page, at, _, edit) =
        B.new_laws file.buffer t file.fd (some (f, id)) h.quiet fresh call in
      let same_frame : g ≡ f = ground (arith, same) in
      let same_id : id ≡ page_id file.fd n = ground (arith, same, next) in
      (
        B.write_frame t f (blank B (B.frame t f).content),
        rw shape (
            ap
              (λ (i : PageId). record file {
                hdr = record file.hdr { num_pages = n + 1; first_free_page_no = i.page_no };
                buffer = B.write_frame t f (blank B (B.frame t f).content);
              })
              same_id),
        opened_blank file.fd n t f pages file.buffer h.reads
            (subst (λ g. (B.frame t g).content ≡ B.zeros) same_frame zero_page)
            (subst (λ g. (B.frame t g).id ≡ page_id file.fd n) same_frame (at ∙ next))
            (subst
              (λ (i : PageId).
                (c : RmPage)
                → IsEdited file.buffer i c (B.unpin_page (B.write_frame t f c) i true).1)
              next
              (subst
                (λ (i : ℕ).
                  (c : RmPage)
                  → IsEdited file.buffer (B.next_id file.buffer file.fd) c
                      (B.unpin_page (B.write_frame t i c) (B.next_id file.buffer file.fd) true).1)
                same_frame edit)),
      )
