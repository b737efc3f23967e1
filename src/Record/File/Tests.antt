-- ===== src/Record/File/Tests.antt =====
-- A pool for tests of record files, in which every page has its own frame.
pub mod Runs
use native.Mathlib.Decide.{ℕ_discrete}
use cscc_db.Base.{
  ℕ, zero, suc, ◌+◌, ◌≤◌, ◌<◌, ◌≡◌, refl, ◌≢◌, Bool, true, false, Option, none, some, List, [], ◌∷◌,
  ltb, ◌&&◌, if◌then◌else◌, update, arith, ℤ, pos, negsuc, minus_one, ◌==ℤ◌, Outcome, ok, throws,
  aborted, subst, Option-cases, Bool-cases, inl, inr, ◌==◌, ap, update-update, replicate, ltb_ℤ,
  length, contains, ◌↔◌, ◌⊎◌,
}
use cscc_db.Storage.{PageId, Page, is_invalid}
use cscc_db.Storage.Buffer.{Buffer}
use cscc_db.Transaction.{TransactionState, growing}
use cscc_db.Log.Manager.{LogManager}
use cscc_db.Record.Bitmap.{
  init, set, reset, is_set, get_bucket, get_bit, scan_bits, next_bit, first_bit,
}
use cscc_db.Record.Layout.{RmFileHdr}
use cscc_db.Record.File.{
  RmPage, RmFile, Context, Result, fetch_page_handle, create_new_page, fetch_free_page_handle,
  is_record, get_record, insert_record, delete_from, delete_record, delete_record_at, update_record,
  seek_page, insert_at, insert_record_at,
}
use cscc_db.Record.File.Pages.{record_at, Linked, IsHeap, count}
use cscc_db.Record.File.Shows.{page_id}
use cscc_db.Record.File.Insert.{IsTable, CanGrow, IsInserted, insert_record_result}
use cscc_db.Record.File.Change.{
  IsPlace, IsDeleted, IsUpdated, delete_record_result, update_record_result, get_record_result,
}
use cscc_db.Record.File.Seek.{insert_record_at_never}
use cscc_db.Record.File.Scan.{
  RmScan, is_end, scan_from, start_scan, next, scan_loop, scan_all, slots_from, rid_at, places_from,
}
use cscc_db.Record.File.Scan.Order.{scan_all_result}

-- A pool whose frame numbers are the page numbers of file 3.
pub record Toy : Type 0 where
  pub pages : ℕ → RmPage
  pub num : ℕ

pub zero_page : RmPage
zero_page = record {
  page_lsn = pos 0;
  rec_lsn = pos 0;
  next_free_page_no = pos 0;
  num_records = 0;
  bitmap = init 1;
  slots = λ i. [];
}

-- The frame of a page of file 3.
unfoldable pub frame_of : Toy → PageId → Option ℕ
frame_of s id = elim id.page_no [
  | pos k ↦ if id.fd ==ℤ pos 3 && ltb k s.num then some k else none
  | negsuc k ↦ none
]

unfoldable pub toy_view : Toy → PageId → Option RmPage
toy_view s id = elim (frame_of s id) [ none ↦ none | some f ↦ some (s.pages f) ]

unfoldable pub toy_fetch : Toy → PageId → Outcome (Unit {0}) Toy (Option ℕ × Toy)
toy_fetch s id = elim (frame_of s id) [ none ↦ throws tt s | some f ↦ ok (some f, s) ]

pub toy_new : Toy → ℤ → Outcome (Unit {0}) Toy (Option (ℕ × PageId) × Toy)
toy_new s fd = ok (
  some (s.num, record { fd = fd; page_no = pos s.num }),
  record s { num = s.num + 1; pages = update s.pages s.num zero_page },
)

pub toy_write : Toy → ℕ → RmPage → Toy
toy_write s f c = record s { pages = update s.pages f c }

unfoldable pub toy_frame : Toy → ℕ → Page RmPage
toy_frame s f = record {
  id = record { fd = pos 3; page_no = pos f };
  content = s.pages f;
  is_dirty = false;
  pin_count = 0;
}

frame_of-eq : (s : Toy) (id : PageId) (f : ℕ) → frame_of s id ≡ some f → id ≡ (toy_frame s f).id
unfolding frame_of toy_frame ◌==ℤ◌
frame_of-eq s id f e = ground arith

toy_view-write :
    (s : Toy) (id : PageId) (f : ℕ) (c : RmPage)
    → frame_of s id ≡ some f
    → (toy_view (toy_write s f c) id ≡ some c)
      × ((j : PageId) (e : RmPage)
          → j ≢ id
          → toy_view s j ≡ some e
          → toy_view (toy_write s f c) j ≡ some e)
unfolding toy_view toy_write toy_frame frame_of ◌==ℤ◌
toy_view-write s id f c e = (
  ground (arith, e),
  λ j b ne had. elim (Option-cases (frame_of s j)) [
    | inl absent ↦ ground (arith, had, absent)
    | inr (g, there) ↦ elim (Bool-cases (g == f)) [
      | inl same ↦ ground (arith, frame_of-eq s j g there, frame_of-eq s id f e, ne, same)
      | inr other ↦ ground (arith, had, there, other)
    ]
  ],
)

toy_fetch_cases :
    (s t : Toy) (id : PageId) (x : Option ℕ)
    → toy_fetch s id ≡ ok (x, t)
    → (f : ℕ) × (frame_of s id ≡ some f) × (x ≡ some f) × (s ≡ t)
unfolding toy_fetch
toy_fetch_cases s t id x e = elim (Option-cases (frame_of s id)) [
  | inl absent ↦ ground (arith, e, absent)
  | inr (f, there) ↦ (f, there, ground (arith, e, there), ground (arith, e, there))
]

-- The laws of a fetch, from the state that it leaves as it is.
pub toy_fetch_laws :
    (s t : Toy) (id : PageId) (d : RmPage) (x : Option ℕ)
    → toy_view s id ≡ some d
    → toy_fetch s id ≡ ok (x, t)
    → (f : ℕ) × (x ≡ some f)
      × ((toy_frame t f).content ≡ d)
      × ((toy_frame t f).id ≡ id)
      × Unit {0}
      × ((j : PageId) (e : RmPage) → toy_view s j ≡ some e → toy_view t j ≡ some e)
      × ((c : RmPage)
          → Unit {0}
            × (toy_view (toy_write t f c) id ≡ some c)
            × ((j : PageId) (e : RmPage)
                → j ≢ id
                → toy_view s j ≡ some e
                → toy_view (toy_write t f c) j ≡ some e))
unfolding toy_view toy_frame
toy_fetch_laws s t id d x had e =
    let (f, there, same, stays) = toy_fetch_cases s t id x e in
    (
      f,
      same,
      ground (arith, had, there, stays),
      ground (arith, frame_of-eq s id f there),
      tt,
      λ j c seen. subst (λ u. toy_view u j ≡ some c) stays seen,
      λ c.
          let (hit, rest) = toy_view-write s id f c there in
          (
            tt,
            subst (λ u. toy_view (toy_write u f c) id ≡ some c) stays hit,
            λ j b ne seen.
                subst (λ u. toy_view (toy_write u f c) j ≡ some b) stays (rest j b ne seen),
          ),
    )

abbrev pub toy_next : Toy → ℤ → PageId
toy_next s fd = record { fd = fd; page_no = pos s.num }

pub toy_new_laws :
    (s t : Toy) (fd : ℤ) (x : Option (ℕ × PageId))
    → fd ≡ pos 3
    → toy_new s fd ≡ ok (x, t)
    → (f : ℕ) × (x ≡ some (f, toy_next s fd))
      × ((toy_frame t f).content ≡ zero_page)
      × ((toy_frame t f).id ≡ toy_next s fd)
      × (fd ≡ fd)
      × ((c : RmPage)
          → Unit {0}
            × (toy_view (toy_write t f c) (toy_next s fd) ≡ some c)
            × ((j : PageId) (e : RmPage)
                → j ≢ toy_next s fd
                → toy_view s j ≡ some e
                → toy_view (toy_write t f c) j ≡ some e))
unfolding toy_new toy_frame toy_view toy_write frame_of ◌==ℤ◌
toy_new_laws s t fd x three e = (
  s.num,
  ground (arith, e),
  ground (arith, e),
  ground (arith, e, three),
  refl,
  λ c. (
    tt,
    ground (arith, e, three),
    λ j b ne had. elim (Option-cases (frame_of s j)) [
      | inl absent ↦ ground (arith, had, absent)
      | inr (g, there) ↦ ground (arith, e, had, there, frame_of-eq s j g there, ne, three)
    ],
  ),
)

pub toy_write-toy_write :
    (s : Toy) (f : ℕ) (b c : RmPage) → toy_write (toy_write s f b) f c ≡ toy_write s f c
unfolding toy_write
toy_write-toy_write s f b c =
    ap (λ pages. record s { pages = pages }) (update-update s.pages f b c c refl)

pub toy_frame-toy_write :
    (s : Toy) (f : ℕ) (c : RmPage)
    → toy_frame (toy_write s f c) f ≡ record (toy_frame s f) { content = c }
unfolding toy_frame toy_write
toy_frame-toy_write s f c = ground arith

pub toy_fetched :
    (s t : Toy) (id : PageId) (f : ℕ)
    → toy_fetch s id ≡ ok (some f, t)
    → ((toy_frame t f).id ≡ id) × Unit {0}
unfolding toy_frame
toy_fetched s t id f e =
    let (g, there, same, stays) = toy_fetch_cases s t id (some f) e in
    (ground (arith, frame_of-eq s id g there, same), tt)

abbrev pub toy : Buffer RmPage
toy = record {
  Error = Unit {0};
  State = Toy;
  zeros = zero_page;
  frame = toy_frame;
  write_frame = toy_write;
  fetch_page = toy_fetch;
  new_page = toy_new;
  unpin_page = λ s id dirty. (true, s);
  view = toy_view;
  IsValid = λ s. Unit {0};
  IsQuiet = λ s. Unit {0};
  next_id = λ s fd. record { fd = fd; page_no = pos s.num };
  IsFresh = λ s fd. fd ≡ pos 3;
  quiet_valid = λ s q. tt;
  frame-write_frame = toy_frame-toy_write;
  write_frame-write_frame = toy_write-toy_write;
  fetched = λ s t id f v named e. toy_fetched s t id f e;
  fetch_laws = λ s t id d x quiet named had e. toy_fetch_laws s t id d x had e;
  new_laws = λ s t fd x quiet fresh e. toy_new_laws s t fd x fresh e;
}
