-- ===== src/Record/File/Tests/Runs.antt =====
-- Tests of record files, and the theorems at inputs that meet their hypotheses.
use cscc_db.Base.{
  ℕ, zero, suc, ◌≤◌, ◌<◌, ◌≡◌, refl, ◌≢◌, Bool, true, false, Option, none, some, List, [], ◌∷◌, ltb,
  arith, ℤ, pos, minus_one, ◌==ℤ◌, ok, throws, aborted, inl, replicate, ltb_ℤ, length, contains,
  ◌↔◌,
}
use cscc_db.Transaction.{growing}
use cscc_db.Log.Manager.{LogManager}
use cscc_db.Record.Bitmap.{
  init, set, reset, is_set, get_bucket, get_bit, scan_bits, next_bit, first_bit,
}
use cscc_db.Record.File.{
  RmPage, RmFile, Context, Result, fetch_page_handle, create_new_page, fetch_free_page_handle,
  is_record, get_record, insert_record, delete_from, delete_record, delete_record_at, update_record,
  seek_page, insert_at, insert_record_at,
}
use cscc_db.Record.File.Pages.{record_at, Linked, count}
use cscc_db.Record.File.Shows.{page_id}
use cscc_db.Record.File.Insert.{IsTable, CanGrow, IsInserted, insert_record_result}
use cscc_db.Record.File.Change.{
  IsPlace, IsDeleted, IsUpdated, delete_record_result, update_record_result, get_record_result,
}
use cscc_db.Record.File.Seek.{insert_record_at_never}
use cscc_db.Record.File.Scan.{
  is_end, scan_from, start_scan, next, scan_loop, scan_all, slots_from, rid_at, places_from,
}
use cscc_db.Record.File.Scan.Order.{scan_all_result}
use cscc_db.Record.File.Tests.{
  toy, zero_page, frame_of, toy_view, toy_fetch, toy_new, toy_write, toy_frame,
}

program : Unit {0}
unfolding frame_of toy_view toy_fetch toy_new toy_write toy_frame zero_page init set reset is_set
    get_bucket get_bit scan_bits next_bit first_bit replicate ◌==ℤ◌ ltb_ℤ fetch_page_handle
    create_new_page fetch_free_page_handle is_record get_record insert_record delete_from
    delete_record delete_record_at update_record seek_page insert_at insert_record_at scan_from
    start_scan next scan_loop scan_all is_end slots_from places_from record_at
program = tt

-- A file of records of two bytes, two to a page, without a page.
start : RmFile toy
start = record {
  fd = pos 3;
  table_name = [];
  hdr = record {
    record_size = 2;
    num_pages = 1;
    num_records_per_page = 2;
    first_free_page_no = minus_one;
    bitmap_size = 1;
  };
  buffer = record { pages = λ k. zero_page; num = 1 };
}

abbrev state : {A : Type 0} → Result toy (A × RmFile toy) → RmFile toy
state (ok r) = r.1
state (throws e file) = file
state aborted = start

abbrev inserted : Result toy ((ℤ × ℕ) × Option Context × RmFile toy) → RmFile toy
inserted (ok r) = r.2
inserted (throws e file) = file
inserted aborted = start

-- Three insertions: two on page 1, one on page 2.
abbrev one : RmFile toy
one = inserted (insert_record toy start (7 ∷ 8 ∷ []) none 0)

abbrev two : RmFile toy
two = inserted (insert_record toy one (5 ∷ 6 ∷ []) none 0)

abbrev three : RmFile toy
three = inserted (insert_record toy two (1 ∷ 2 ∷ []) none 0)

start-IsTable : IsTable toy start (λ k. zero_page)
unfolding program start Linked
start-IsTable = record {
  shows = record { quiet = tt; reads = λ k lo hi. ground (arith, lo, hi) };
  heap = record {
    sized = ground arith;
    roomy = ground arith;
    widths = λ k lo hi. ground (arith, lo, hi);
    counted = λ k lo hi. ground (arith, lo, hi);
    free = [];
    distinct = tt;
    linked = refl;
    listed = λ k lo hi. ground (arith, lo, hi);
  };
}

start-CanGrow : CanGrow toy start
unfolding program start
start-CanGrow = record { fresh = refl; next = refl; empty = refl; header = ground arith }

insert_record_result_example :
    (k : ℕ) × (after : ℕ → RmPage) × IsInserted toy start one
      (λ k. zero_page)
      after
      (7 ∷ 8 ∷ [])
      (pos 1)
      0
      k
unfolding program start
insert_record_result_example =
    insert_record_result toy start one (λ k. zero_page) (7 ∷ 8 ∷ []) none none 0 0 (pos 1)
      start-IsTable start-CanGrow refl

-- The pages after the insertions, as the theorem names them.
one-inserted :
    (k : ℕ) × (after : ℕ → RmPage) × IsInserted toy start one
      (λ k. zero_page)
      after
      (7 ∷ 8 ∷ [])
      (pos 1)
      0
      k
unfolding program start
one-inserted =
    insert_record_result toy start one (λ k. zero_page) (7 ∷ 8 ∷ []) none none 0 0 (pos 1)
      start-IsTable start-CanGrow refl

two-inserted :
    (k : ℕ) × (after : ℕ → RmPage) × IsInserted toy one two one-inserted.1 after
      (5 ∷ 6 ∷ [])
      (pos 1)
      1
      k
unfolding program start
two-inserted =
    insert_record_result toy one two one-inserted.1 (5 ∷ 6 ∷ []) none none 0 1 (pos 1)
      one-inserted.2.table
      (record { fresh = refl; next = refl; empty = refl; header = ground arith }) refl

three-inserted :
    (k : ℕ) × (after : ℕ → RmPage) × IsInserted toy two three two-inserted.1 after
      (1 ∷ 2 ∷ [])
      (pos 2)
      0
      k
unfolding program start
three-inserted =
    insert_record_result toy two three two-inserted.1 (1 ∷ 2 ∷ []) none none 0 0 (pos 2)
      two-inserted.2.table
      (record { fresh = refl; next = refl; empty = refl; header = ground arith }) refl

abbrev three_pages : ℕ → RmPage
three_pages = three-inserted.1

three-IsTable : IsTable toy three three_pages
three-IsTable = three-inserted.2.table

only : Result toy (RmFile toy) → RmFile toy
only (ok file) = file
only (throws e file) = file
only aborted = start

abbrev log_manager : LogManager
log_manager = record {
  os = record { write = λ file bytes. some (length bytes); fsync = λ file. true };
  global_lsn = 4;
  buffer = λ i. 0;
  offset = 0;
  buffer_lsn = 0;
  persist_lsn = 0;
  latched = false;
  log_file = [];
  lsn_prevlsn_table = λ i. none;
  write_rec_to_lsn_table = λ i. none;
}

abbrev context : Context
context = record {
  txn = record { txn_id = 1; so_far_lsn = 3 };
  state = growing;
  write_set = [];
  log = log_manager;
}

-- The first record goes: page 1, which was full, is the first page with a free slot again.
abbrev fewer : RmFile toy
fewer = only (delete_record toy three (pos 1) 0 (some context))

abbrev changed : RmFile toy
changed = only (update_record toy three (pos 1) 1 (9 ∷ 9 ∷ []) (some context))

runs :
    (three.hdr.num_pages ≡ 3)
    × (three.hdr.first_free_page_no ≡ pos 2)
    × (fewer.hdr.first_free_page_no ≡ pos 1)
    × ((fewer.buffer.pages 1).next_free_page_no ≡ pos 2)
    × (get_record toy changed (pos 1) 1 ≡ ok (9 ∷ 9 ∷ [], changed))
    × (delete_record toy three (pos 1) 0 none ≡ aborted)
unfolding program start only
runs = (refl, refl, refl, refl, refl, refl)

place : (k i : ℕ) → 1 ≤ k → k < 3 → i < 2 → IsPlace toy three k i
unfolding program start
place k i lo hi lt = record { lo = lo; hi = hi; slot = lt }

delete_record_result_example :
    (after : ℕ → RmPage) × IsDeleted toy three fewer three_pages after 1 0
unfolding program start only
delete_record_result_example =
    delete_record_result toy three fewer three_pages 1 0 (some context) three-IsTable
      (place 1 0 (ground arith) (ground arith) (ground arith)) (inl refl)

update_record_result_example :
    (after : ℕ → RmPage) × IsUpdated toy three changed three_pages after (9 ∷ 9 ∷ []) 1 1
unfolding program start only
update_record_result_example =
    update_record_result toy three changed three_pages 1 1 (9 ∷ 9 ∷ []) (some context) three-IsTable
      (place 1 1 (ground arith) (ground arith) (ground arith)) refl

get_record_result_example :
    ((q : RmFile toy) (there : Bool)
      → is_record toy three (pos 1) 1 ≡ ok (there, q)
      → ((there ≡ true) ↔ (record_at three.hdr three_pages 1 1 ≢ none)) × IsTable toy q three_pages)
    × ((q : RmFile toy) (value found : List ℕ)
        → get_record toy three (pos 1) 1 ≡ ok (value, q)
        → record_at three.hdr three_pages 1 1 ≡ some found
        → (value ≡ found) × IsTable toy q three_pages)
get_record_result_example =
    get_record_result toy three three_pages 1 1 three-IsTable
      (place 1 1 (ground arith) (ground arith) (ground arith))

-- Page 1 has a free slot, and the wanted place is on page 2.
insert_record_at_never_example :
    insert_record_at toy 100 fewer (pos 2) 0 (1 ∷ 2 ∷ []) ≢ ok (some three)
unfolding program start only
insert_record_at_never_example =
    insert_record_at_never toy fewer three 1 2 0 100 (1 ∷ 2 ∷ []) tt refl (ground arith)

-- The same three pages, named by the pool.
both : (P : ℕ → Type 0) → P 1 → P 2 → (k : ℕ) → 1 ≤ k → k < 3 → P k
both P one two zero lo hi = ground arith
both P one two (suc zero) lo hi = one
both P one two (suc (suc zero)) lo hi = two
both P one two (suc (suc (suc k))) lo hi = ground arith

shown : ℕ → RmPage
shown = three.buffer.pages

shown-IsTable : IsTable toy three shown
unfolding program start Linked count shown
shown-IsTable = record {
  shows = record {
    quiet = tt;
    reads = both (λ k. toy_view three.buffer (page_id (pos 3) k) ≡ some (shown k)) refl refl;
  };
  heap = record {
    sized = ground arith;
    roomy = ground arith;
    widths = both (λ k. length (shown k).bitmap ≡ 1) refl refl;
    counted = both (λ k. (shown k).num_records ≡ count 2 (shown k).bitmap) refl refl;
    free = 2 ∷ [];
    distinct = (refl, tt);
    linked = (refl, ground arith, ground arith, refl);
    listed = both (λ k. contains k (2 ∷ []) ≡ ltb (shown k).num_records 2) refl refl;
  };
}

scan_all_result_example :
    (some (rid_at 1 0 ∷ rid_at 1 1 ∷ rid_at 2 0 ∷ []) ≡ some (places_from 2 2 shown 1 0))
    × IsTable toy three shown
unfolding program start shown
scan_all_result_example =
    scan_all_result toy 4 three three shown (some (rid_at 1 0 ∷ rid_at 1 1 ∷ rid_at 2 0 ∷ []))
      shown-IsTable (ground arith) (ground arith) refl
