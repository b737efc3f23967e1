-- ===== src/Record/File/Change.antt =====
-- `get_record`, `is_record`, `delete_record` and `update_record`: a table read, and with one record
-- less or another record at its place.
use cscc_db.Base.{
  ℕ, ◌≤◌, ◌<◌, ◌≡◌, true, false, Option, none, some, List, ◌==◌, ◌&&◌, if◌then◌else◌, update, arith,
  ℤ, pos, ◌↔◌, ◌⊎◌, inl, inr, ok, aborted, subst, ◌∙◌, Bool-cases, take, >>=-eq-ok, Bool, ◌≢◌,
}
use cscc_db.Storage.Buffer.{Buffer}
use cscc_db.Record.Bitmap.{is_set}
use cscc_db.Record.Layout.{RmFileHdr}
use cscc_db.Record.File.{
  RmPage, RmFile, Context, fetch_page_handle, get_record, is_record, delete_record,
  delete_record_at, delete_from, update_record, update_in, clear_slot, after_clear, write_slot,
  stamp, unpin, page_at, write_page,
}
use cscc_db.Record.File.Pages.{record_at}
use cscc_db.Record.File.Slots.{
  IsStamped, clear_slot-IsHeap, record_at-clear_slot, write_slot-IsHeap, record_at-write_slot,
}
use cscc_db.Record.File.Shows.{Shows, IsOpen, fetch_page_handle_lem}
use cscc_db.Record.File.Insert.{IsTable, take-take, IsStamped-eq}

module _ (B : Buffer RmPage) where
  after_clear_num :
      (hdr : RmFileHdr) (page_no : ℤ) (page : RmPage)
      → hdr.num_pages ≡ (after_clear hdr page_no page).num_pages
  after_clear_num hdr page_no page = ground arith

  -- A place in the table.
  pub record IsPlace (file : RmFile B) (k i : ℕ) : Type 0 where
    pub lo : 1 ≤ k
    pub hi : k < file.hdr.num_pages
    pub slot : i < file.hdr.num_records_per_page

  -- The table has lost the record at a place where there was one.
  pub record IsDeleted (file r : RmFile B) (pages after : ℕ → RmPage) (k i : ℕ) : Type 0 where
    pub present : record_at file.hdr pages k i ≢ none
    pub records :
        (j m : ℕ)
        → record_at r.hdr after j m
          ≡ (if j == k && m == i then none else record_at file.hdr pages j m)
    pub table : IsTable B r after

  -- The table has another record at a place where there was one.
  pub record IsUpdated (file r : RmFile B) (pages after : ℕ → RmPage) (buf : List ℕ) (k i : ℕ)
      : Type 0 where
    pub present : record_at file.hdr pages k i ≢ none
    pub records :
        (j m : ℕ)
        → record_at r.hdr after j m ≡ (
            if j == k && m == i
            then some (take file.hdr.record_size buf)
            else record_at file.hdr pages j m)
    pub table : IsTable B r after

  record_at_set :
      (hdr : RmFileHdr) (pages : ℕ → RmPage) (k i : ℕ)
      → 1 ≤ k
      → k < hdr.num_pages
      → is_set (pages k).bitmap i ≡ true
      → record_at hdr pages k i ≢ none
  unfolding record_at
  record_at_set hdr pages k i lo hi e absent = ground arith

  module _ (file : RmFile B) (pages : ℕ → RmPage) (k i f : ℕ) (place : IsPlace file k i)
      (table : IsTable B file pages) (t : B.State)
      (opened : IsOpen B file.fd file.hdr.num_pages t pages k f) where
    abbrev q : RmFile B
    q = record file { buffer = t }

    delete_from_lem :
        (page : RmPage) (r : RmFile B)
        → IsStamped page (pages k)
        → delete_from B q f (pos k) i page ≡ ok r
        → (after : ℕ → RmPage) × IsDeleted file r pages after k i
    unfolding delete_from
    delete_from_lem page r stamped e = elim (Bool-cases (is_set page.bitmap i)) [
      | inr unset ↦ ground (arith, e, unset)
      | inl there ↦
          let new = clear_slot file.hdr i page in
          let last = update pages k new in
          let fin =
            unpin B (record (write_page B q f new) { hdr = after_clear file.hdr (pos k) page }) f
              true in
          let same : fin ≡ r = ground (arith, e, there) in
          (
            last,
            subst (λ r. IsDeleted file r pages last k i) same
                (record {
                  present =
                      record_at_set file.hdr pages k i place.lo place.hi
                        (ground (arith, there, stamped));
                  records = λ j m.
                      record_at-clear_slot file.hdr pages k i page table.heap place.lo place.hi
                        place.slot stamped j m;
                  table = record {
                    shows =
                        subst (λ n. Shows B file.fd n fin.buffer last)
                          (after_clear_num file.hdr (pos k) page) (opened.changed new);
                    heap =
                        clear_slot-IsHeap file.hdr pages k i page table.heap place.lo place.hi
                          place.slot stamped there;
                  };
                }),
          )
    ]

    update_in_lem :
        (page : RmPage) (r : RmFile B) (buf : List ℕ)
        → IsStamped page (pages k)
        → is_set page.bitmap i ≡ true
        → unpin B (write_page B q f (write_slot file.hdr i buf page)) f true ≡ r
        → (after : ℕ → RmPage) × IsUpdated file r pages after buf k i
    update_in_lem page r buf stamped there e =
        let new = write_slot file.hdr i buf page in
        let last = update pages k new in
        (
          last,
          subst (λ r. IsUpdated file r pages last buf k i) e
              (record {
                present =
                    record_at_set file.hdr pages k i place.lo place.hi
                      (ground (arith, there, stamped));
                records = λ j m.
                    record_at-write_slot file.hdr pages k i page table.heap place.lo place.hi
                      place.slot stamped buf j m there
                    ∙ ground (arith, take-take file.hdr.record_size buf);
                table = record {
                  shows = opened.changed new;
                  heap =
                      write_slot-IsHeap file.hdr pages k i page table.heap place.lo place.hi
                        place.slot stamped buf;
                };
              }),
        )

  -- A deletion that ends well takes away a record that was there, and no other; every page still
  -- counts its records, the free list still holds just the pages that are not full, and no page is
  -- pinned. So does the deletion for recovery.
  pub delete_record_result :
      (file r : RmFile B) (pages : ℕ → RmPage) (k i : ℕ) (ctx : Option Context)
      → IsTable B file pages
      → IsPlace file k i
      → (delete_record B file (pos k) i ctx ≡ ok r) ⊎ (delete_record_at B file (pos k) i ≡ ok r)
      → (after : ℕ → RmPage) × IsDeleted file r pages after k i
  unfolding delete_record delete_record_at
  delete_record_result file r pages k i none table place (inl e) =
      let (x, _, rest) = >>=-eq-ok (fetch_page_handle B file (pos k)) (λ _. aborted) e in cc
  delete_record_result file r pages k i (some c) table place (inl e) =
      let ((f, q), fetched, rest) =
        >>=-eq-ok (fetch_page_handle B file (pos k))
          (λ (x : ℕ × RmFile B).
            delete_from B x.1 x.0 (pos k) i
              (stamp c (B.frame x.1.buffer x.0).is_dirty (page_at B x.1 x.0)))
          e in
      let (t, shape, opened, _) =
        fetch_page_handle_lem B file q file.hdr.num_pages k f pages table.shows place.lo place.hi
          fetched in
      delete_from_lem file pages k i f place table t opened
        (stamp c (B.frame t f).is_dirty (B.frame t f).content) r
        (IsStamped-eq B (some c) (B.frame t f).is_dirty (B.frame t f).content (pages k)
          opened.content)
        (subst
          (λ (x : RmFile B).
            delete_from B x f (pos k) i (stamp c (B.frame x.buffer f).is_dirty (page_at B x f))
            ≡ ok r)
          shape rest)
  delete_record_result file r pages k i ctx table place (inr e) =
      let ((f, q), fetched, rest) =
        >>=-eq-ok (fetch_page_handle B file (pos k))
          (λ (x : ℕ × RmFile B). delete_from B x.1 x.0 (pos k) i (page_at B x.1 x.0)) e in
      let (t, shape, opened, _) =
        fetch_page_handle_lem B file q file.hdr.num_pages k f pages table.shows place.lo place.hi
          fetched in
      delete_from_lem file pages k i f place table t opened (B.frame t f).content r
        (IsStamped-eq B none false (B.frame t f).content (pages k) opened.content)
        (subst (λ (x : RmFile B). delete_from B x f (pos k) i (page_at B x f) ≡ ok r) shape rest)

  -- An update that ends well puts the first `record_size` bytes of the buffer in place of a record
  -- that was there, and changes no other; the invariant is kept, and no page is pinned.
  pub update_record_result :
      (file r : RmFile B) (pages : ℕ → RmPage) (k i : ℕ) (buf : List ℕ) (ctx : Option Context)
      → IsTable B file pages
      → IsPlace file k i
      → update_record B file (pos k) i buf ctx ≡ ok r
      → (after : ℕ → RmPage) × IsUpdated file r pages after buf k i
  unfolding update_record
  update_record_result file r pages k i buf none table place e =
      let (x, _, rest) = >>=-eq-ok (fetch_page_handle B file (pos k)) (λ _. aborted) e in cc
  update_record_result file r pages k i buf (some c) table place e =
      let ((f, q), fetched, rest) =
        >>=-eq-ok (fetch_page_handle B file (pos k))
          (λ (x : ℕ × RmFile B). update_in B x.1 x.0 i buf c) e in
      let (t, shape, opened, _) =
        fetch_page_handle_lem B file q file.hdr.num_pages k f pages table.shows place.lo place.hi
          fetched in
      let page = stamp c (B.frame t f).is_dirty (B.frame t f).content in
      let done : update_in B (record file { buffer = t }) f i buf c ≡ ok r =
        subst (λ (x : RmFile B). update_in B x f i buf c ≡ ok r) shape rest in
      elim (Bool-cases (is_set page.bitmap i)) [
        | inr unset ↦ ground (arith, done, unset)
        | inl there ↦
            update_in_lem file pages k i f place table t opened page r buf
              (IsStamped-eq B (some c) (B.frame t f).is_dirty (B.frame t f).content (pages k)
                opened.content)
              there (ground (arith, done, there))
      ]

  record_at_place :
      (file : RmFile B) (pages : ℕ → RmPage) (k i : ℕ)
      → IsPlace file k i
      → record_at file.hdr pages k i ≡ (
          if is_set (pages k).bitmap i
          then some (take file.hdr.record_size ((pages k).slots i))
          else none)
  unfolding record_at
  record_at_place file pages k i place = ground (arith, place.lo, place.hi)

  -- At every place of a table, `is_record` tells whether there is a record, and `get_record` returns
  -- the record if there is one; if they end well, the table is as before and no page is pinned.
  pub get_record_result :
      (file : RmFile B) (pages : ℕ → RmPage) (k i : ℕ)
      → IsTable B file pages
      → IsPlace file k i
      → ((q : RmFile B) (there : Bool)
          → is_record B file (pos k) i ≡ ok (there, q)
          → ((there ≡ true) ↔ (record_at file.hdr pages k i ≢ none)) × IsTable B q pages)
        × ((q : RmFile B) (value found : List ℕ)
            → get_record B file (pos k) i ≡ ok (value, q)
            → record_at file.hdr pages k i ≡ some found
            → (value ≡ found) × IsTable B q pages)
  unfolding get_record is_record
  get_record_result file pages k i table place = (
    λ r there e.
        let ((f, q), fetched, rest) =
          >>=-eq-ok (fetch_page_handle B file (pos k))
            (λ (x : ℕ × RmFile B). ok (is_set (page_at B x.1 x.0).bitmap i, unpin B x.1 x.0 false))
            e in
        let (t, shape, opened, closed) =
          fetch_page_handle_lem B file q file.hdr.num_pages k f pages table.shows place.lo place.hi
            fetched in
        let same : record file { buffer = (B.unpin_page t (B.frame t f).id false).1 } ≡ r =
          ground (arith, shape, rest) in
        (
          ground (arith, record_at_place file pages k i place, shape, rest, opened.content),
          subst (λ (x : RmFile B). IsTable B x pages) same
              (record { shows = closed; heap = table.heap }),
        ),
    λ r value found e there.
        let ((f, q), fetched, rest) =
          >>=-eq-ok (fetch_page_handle B file (pos k))
            (λ (x : ℕ × RmFile B).
              ok (take x.1.hdr.record_size ((page_at B x.1 x.0).slots i), unpin B x.1 x.0 false))
            e in
        let (t, shape, opened, closed) =
          fetch_page_handle_lem B file q file.hdr.num_pages k f pages table.shows place.lo place.hi
            fetched in
        let same : record file { buffer = (B.unpin_page t (B.frame t f).id false).1 } ≡ r =
          ground (arith, shape, rest) in
        (
          ground (arith, record_at_place file pages k i place, shape, rest, opened.content, there),
          subst (λ (x : RmFile B). IsTable B x pages) same
              (record { shows = closed; heap = table.heap }),
        ),
  )
