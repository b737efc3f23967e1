-- ===== src/Record/File/Insert.antt =====
-- `insert_record`: a table gains one record.
use cscc_db.Base.{
  ℕ, zero, suc, ◌≤◌, ◌<◌, ◌≡◌, refl, false, Option, none, some, List, [], ◌∷◌, ◌==◌, ◌&&◌, ltb,
  if◌then◌else◌, update, arith, ℤ, pos, ◌==ℤ◌, inl, inr, ok, subst, sym, ap, ◌∙◌, Bool-cases, take,
  >>=-eq-ok, ltb→lt, Bool,
}
use cscc_db.Storage.Buffer.{Buffer}
use cscc_db.Record.Bitmap.{init, is_set, first_bit, next_bit_result}
use cscc_db.Record.Layout.{RmFileHdr}
use cscc_db.Record.File.{
  RmPage, RmFile, Context, fetch_free_page_handle, insert_record, insert_into, insert_first,
  place_record, log_insertion, blank, stamp_if, fill_slot, after_fill, page_at,
}
use cscc_db.Record.File.Pages.{record_at, record_at_unset, IsHeap}
use cscc_db.Record.File.Slots.{IsStamped, fill_slot-IsHeap, record_at-fill_slot}
use cscc_db.Record.File.Grow.{grown, free-cases, free_head, grown-IsHeap, record_at-grown}
use cscc_db.Record.File.Shows.{Shows, IsOpen, page_id, fetch_page_handle_lem, create_new_page_lem}

pub take-take : {A : Type 0} (n : ℕ) (xs : List A) → take n (take n xs) ≡ take n xs
take-take zero xs = refl
take-take (suc n) [] = refl
take-take (suc n) (x ∷ xs) = ap (λ ys. x ∷ ys) (take-take n xs)

first_bit_unset :
    (bm : List ℕ) (n : ℕ) → first_bit false bm n < n → is_set bm (first_bit false bm n) ≡ false
unfolding first_bit
first_bit_unset bm n lt =
    let (_, _, found, _) = next_bit_result false bm n 0 (omega arith) in ground (arith, found, lt)

module _ (B : Buffer RmPage) where
  -- The file's pages are `pages`, with the invariant, and nothing is pinned.
  pub record IsTable (file : RmFile B) (pages : ℕ → RmPage) : Type 0 where
    pub shows : Shows B file.fd file.hdr.num_pages file.buffer pages
    pub heap : IsHeap file.hdr pages

  -- The disk manager's next page of the file is the one after the last; a page of zeros has an empty
  -- bitmap; and the file has its header page.
  pub record CanGrow (file : RmFile B) : Type 0 where
    pub fresh : B.IsFresh file.buffer file.fd
    pub next : B.next_id file.buffer file.fd ≡ page_id file.fd file.hdr.num_pages
    pub empty : B.zeros.bitmap ≡ init file.hdr.bitmap_size
    pub header : 1 ≤ file.hdr.num_pages

  -- A page with a free slot is open in frame `f`, and the table is as before.
  record HasRoom (file q : RmFile B) (pages : ℕ → RmPage) (f k : ℕ) (ks : List ℕ)
      (after : ℕ → RmPage) : Type 0 where
    same_fd : q.fd ≡ file.fd
    size : q.hdr.record_size ≡ file.hdr.record_size
    opened : IsOpen B q.fd q.hdr.num_pages q.buffer after k f
    heap : IsHeap q.hdr after
    head : heap.free ≡ k ∷ ks
    lo : 1 ≤ k
    hi : k < q.hdr.num_pages
    records : (j m : ℕ) → record_at q.hdr after j m ≡ record_at file.hdr pages j m

  fetch_free_page_handle_lem :
      (file q : RmFile B) (pages : ℕ → RmPage) (f : ℕ)
      → IsTable file pages
      → CanGrow file
      → fetch_free_page_handle B file ≡ ok (f, q)
      → (k : ℕ) × (ks : List ℕ) × (after : ℕ → RmPage) × HasRoom file q pages f k ks after
  unfolding fetch_free_page_handle ◌==ℤ◌
  fetch_free_page_handle_lem file q pages f table grow e =
      elim (free-cases file.hdr pages table.heap.free table.heap.linked) [
        | inl (_, full) ↦
            let (t, shape, opened) =
              create_new_page_lem B file q f pages table.shows grow.fresh grow.next
                (ground (arith, e, full)) in
            let heap =
              grown-IsHeap file.hdr pages (blank B B.zeros) table.heap full grow.header grow.empty
                refl refl in
            let after = update pages file.hdr.num_pages (blank B B.zeros) in
            let (ks, head) =
              free_head (grown file.hdr) after heap.free file.hdr.num_pages heap.linked refl in
            (
              file.hdr.num_pages,
              ks,
              after,
              subst (λ (x : RmFile B). HasRoom file x pages f file.hdr.num_pages ks after)
                  (sym shape)
                  (record {
                    same_fd = refl;
                    size = refl;
                    opened = opened;
                    heap = heap;
                    head = head;
                    lo = grow.header;
                    hi = omega arith;
                    records = λ j m.
                        record_at-grown file.hdr pages (blank B B.zeros) table.heap full grow.header
                          grow.empty j m;
                  }),
            )
        | inr (k, ks, head, at, lo, hi) ↦
            let (t, shape, opened, _) =
              fetch_page_handle_lem B file q file.hdr.num_pages k f pages table.shows lo hi
                (ground (arith, e, at)) in
            (
              k,
              ks,
              pages,
              subst (λ (x : RmFile B). HasRoom file x pages f k ks pages) (sym shape)
                  (record {
                    same_fd = refl;
                    size = refl;
                    opened = opened;
                    heap = table.heap;
                    head = head;
                    lo = lo;
                    hi = hi;
                    records = λ j m. refl;
                  }),
            )
      ]

  IsStamped-stamp_if :
      (c : Option Context) (dirty : Bool) (page : RmPage) → IsStamped (stamp_if c dirty page) page
  IsStamped-stamp_if none dirty page = (refl, refl, refl, refl)
  IsStamped-stamp_if (some c) dirty page = (refl, refl, refl, refl)

  pub IsStamped-eq :
      (c : Option Context) (dirty : Bool) (page old : RmPage)
      → page ≡ old
      → IsStamped (stamp_if c dirty page) old
  IsStamped-eq c dirty page old e =
      subst (λ p. IsStamped (stamp_if c dirty page) p) e (IsStamped-stamp_if c dirty page)

  -- What has become of the table after an insertion of `buf` at `(page_no, i)`.
  pub record IsInserted (file r : RmFile B) (pages after : ℕ → RmPage) (buf : List ℕ) (page_no : ℤ)
      (i k : ℕ) : Type 0 where
    pub place : page_no ≡ pos k
    pub vacant : record_at file.hdr pages k i ≡ none
    pub records :
        (j m : ℕ)
        → record_at r.hdr after j m ≡ (
            if j == k && m == i
            then some (take file.hdr.record_size buf)
            else record_at file.hdr pages j m)
    pub table : IsTable r after

  after_fill_num :
      (hdr : RmFileHdr) (page : RmPage) → hdr.num_pages ≡ (after_fill hdr page).num_pages
  after_fill_num hdr page = ground arith

  insert_into_lem :
      (file q r : RmFile B) (pages : ℕ → RmPage) (f i k : ℕ) (ks : List ℕ) (after : ℕ → RmPage)
      (buf : List ℕ) (ctx ctx' : Option Context) (address : ℕ) (page_no : ℤ)
      → HasRoom file q pages f k ks after
      → i < q.hdr.num_records_per_page
      → is_set (page_at B q f).bitmap i ≡ false
      → insert_into B q f i buf ctx address ≡ ok ((page_no, i), ctx', r)
      → (last : ℕ → RmPage) × IsInserted file r pages last buf page_no i k
  insert_into_lem file q r pages f i k ks after buf ctx ctx' address page_no room lt unset e =
      let (c, logged, done) =
        >>=-eq-ok (log_insertion B q ctx _) (λ c. ok (place_record B q f i buf c)) e in
      let page = stamp_if c (B.frame q.buffer f).is_dirty (page_at B q f) in
      let content = room.opened.content in
      let stamped =
        IsStamped-eq c (B.frame q.buffer f).is_dirty (page_at B q f) (after k) content in
      let heap = room.heap in
      let last = update after k (fill_slot q.hdr i buf page) in
      let unset_page : is_set page.bitmap i ≡ false = ground (arith, stamped, content, unset) in
      let unset_k : is_set (after k).bitmap i ≡ false = ground (arith, content, unset) in
      let fin = (place_record B q f i buf c).2 in
      let same : fin ≡ r = ground (arith, done) in
      (
        last,
        subst (λ r. IsInserted file r pages last buf page_no i k) same
            (record {
              place = ground (arith, done, room.opened.identity);
              vacant = sym (room.records k i) ∙ record_at_unset q.hdr after k i unset_k;
              records = λ j m.
                  record_at-fill_slot q.hdr after k i page heap room.lo room.hi lt stamped buf j m
                  ∙ ground (arith, take-take q.hdr.record_size buf, room.size, room.records j m);
              table = record {
                shows =
                    subst (λ n. Shows B q.fd n fin.buffer last) (after_fill_num q.hdr page)
                      (room.opened.changed (fill_slot q.hdr i buf page));
                heap =
                    fill_slot-IsHeap q.hdr after k i page heap room.lo room.hi lt stamped buf ks
                      unset_page room.head;
              };
            }),
      )

  insert_first_lem :
      (file q r : RmFile B) (pages : ℕ → RmPage) (f first i k : ℕ) (ks : List ℕ)
      (after : ℕ → RmPage) (buf : List ℕ) (ctx ctx' : Option Context) (address : ℕ) (page_no : ℤ)
      → HasRoom file q pages f k ks after
      → (first < q.hdr.num_records_per_page → is_set (page_at B q f).bitmap first ≡ false)
      → insert_first B q f first buf ctx address ≡ ok ((page_no, i), ctx', r)
      → (last : ℕ → RmPage) × IsInserted file r pages last buf page_no i k
  insert_first_lem file q r pages f first i k ks after buf ctx ctx' address page_no room unset e =
      elim (Bool-cases (ltb first q.hdr.num_records_per_page)) [
        | inr none_free ↦ ground (arith, e, none_free)
        | inl found ↦
            let lt = ltb→lt first q.hdr.num_records_per_page found in
            let inserted : insert_into B q f first buf ctx address ≡ ok ((page_no, i), ctx', r) =
              ground (arith, e, found) in
            let (_, _, placed) =
              >>=-eq-ok (log_insertion B q ctx _) (λ c. ok (place_record B q f first buf c))
                inserted in
            let slot : first ≡ i = ground (arith, placed) in
            insert_into_lem file q r pages f i k ks after buf ctx ctx' address page_no room
              (subst (λ j. j < q.hdr.num_records_per_page) slot lt)
              (subst (λ j. is_set (page_at B q f).bitmap j ≡ false) slot (unset lt))
              (subst (λ j. insert_into B q f j buf ctx address ≡ ok ((page_no, i), ctx', r)) slot
                inserted)
      ]

  -- An insertion into a table that ends well returns a place that held no record; the table then has
  -- the first `record_size` bytes of the buffer there as a record and the same records as before
  -- elsewhere; every page still counts its records, the free list still holds just the pages that
  -- are not full, and no page is pinned. The table may grow by a page, whose number is then the
  -- disk's next one.
  pub insert_record_result :
      (file r : RmFile B) (pages : ℕ → RmPage) (buf : List ℕ) (ctx ctx' : Option Context)
      (address i : ℕ) (page_no : ℤ)
      → IsTable file pages
      → CanGrow file
      → insert_record B file buf ctx address ≡ ok ((page_no, i), ctx', r)
      → (k : ℕ) × (after : ℕ → RmPage) × IsInserted file r pages after buf page_no i k
  unfolding insert_record
  insert_record_result file r pages buf ctx ctx' address i page_no table grow e =
      let ((f, q), fetched, rest) =
        >>=-eq-ok (fetch_free_page_handle B file)
          (λ (x : ℕ × RmFile B).
            insert_first B x.1 x.0
              (first_bit false (page_at B x.1 x.0).bitmap x.1.hdr.num_records_per_page) buf ctx
              address)
          e in
      let (k, ks, after, room) = fetch_free_page_handle_lem file q pages f table grow fetched in
      let n = q.hdr.num_records_per_page in
      let bm = (page_at B q f).bitmap in
      let (last, done) =
        insert_first_lem file q r pages f (first_bit false bm n) i k ks after buf ctx ctx' address
          page_no room (first_bit_unset bm n) rest in
      (k, last, done)
