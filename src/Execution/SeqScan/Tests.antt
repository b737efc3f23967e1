-- ===== src/Execution/SeqScan/Tests.antt =====
-- A scan of a file of two pages, and the theorem at that input.
use cscc_db.Base.{
  ℕ, zero, suc, ◌≤◌, ◌<◌, ◌≡◌, refl, Bool, false, none, some, List, [], ◌∷◌, ltb, arith, pos,
  minus_one, ◌==ℤ◌, length, contains,
}
use cscc_db.Transaction.{default, LockDataId-discrete}
use cscc_db.Transaction.Locks.{insert, push_request, enter, refused, lock_on_table}
use cscc_db.Record.Bitmap.{is_set, get_bucket, get_bit}
use cscc_db.Record.File.{RmPage, RmFile, fetch_page_handle}
use cscc_db.Record.File.Pages.{Linked, count, record_at}
use cscc_db.Record.File.Shows.{page_id}
use cscc_db.Record.File.Insert.{IsTable}
use cscc_db.Record.File.Scan.{slots_from, rid_at}
use cscc_db.Record.File.Tests.{toy, frame_of, toy_view, toy_fetch, toy_frame}
use cscc_db.Execution.{drain, drain_from}
use cscc_db.Execution.SeqScan.{
  Row, SeqScan, collect, select, scan_pages, filled, begin_locked, shared_lock, begin_tuple,
  advance, current,
}
use cscc_db.Execution.SeqScan.Rows.{records_from, keep, rows_from, table_rows, drain-scan_executor}

program : Unit {0}
unfolding LockDataId-discrete insert push_request enter refused lock_on_table is_set get_bucket
    get_bit ◌==ℤ◌ fetch_page_handle slots_from count Linked frame_of toy_view toy_fetch toy_frame
    drain drain_from collect select scan_pages filled begin_locked shared_lock begin_tuple advance
    current records_from keep record_at rows_from table_rows
program = tt

-- Records of two bytes, two to a page: two on page 1, one on page 2, where a slot is free.
abbrev bytes : List ℕ → List ℕ → ℕ → List ℕ
bytes a b zero = a
bytes a b (suc j) = b

abbrev page : ℕ → ℕ → (ℕ → List ℕ) → RmPage
page n byte slots = record {
  page_lsn = minus_one;
  rec_lsn = minus_one;
  next_free_page_no = minus_one;
  num_records = n;
  bitmap = byte ∷ [];
  slots = slots;
}

abbrev pages : ℕ → RmPage
pages zero = page 0 0 (bytes [] [])
pages (suc zero) = page 2 192 (bytes (7 ∷ 8 ∷ []) (5 ∷ 6 ∷ []))
pages (suc (suc k)) = page 1 128 (bytes (1 ∷ 2 ∷ []) [])

abbrev file : RmFile toy
file = record {
  fd = pos 3;
  table_name = [];
  hdr = record {
    record_size = 2;
    num_pages = 3;
    num_records_per_page = 2;
    first_free_page_no = pos 2;
    bitmap_size = 1;
  };
  buffer = record { pages = pages; num = 3 };
}

both : (P : ℕ → Type 0) → P 1 → P 2 → (k : ℕ) → 1 ≤ k → k < 3 → P k
both P one two zero lo hi = ground arith
both P one two (suc zero) lo hi = one
both P one two (suc (suc zero)) lo hi = two
both P one two (suc (suc (suc k))) lo hi = ground arith

file-IsTable : IsTable toy file pages
unfolding program
file-IsTable = record {
  shows = record {
    quiet = tt;
    reads = both (λ k. toy_view file.buffer (page_id (pos 3) k) ≡ some (pages k)) refl refl;
  };
  heap = record {
    sized = ground arith;
    roomy = ground arith;
    widths = both (λ k. length (pages k).bitmap ≡ 1) refl refl;
    counted = both (λ k. (pages k).num_records ≡ count 2 (pages k).bitmap) refl refl;
    free = 2 ∷ [];
    distinct = (refl, tt);
    linked = (refl, ground arith, ground arith, refl);
    listed = both (λ k. contains k (2 ∷ []) ≡ ltb (pages k).num_records 2) refl refl;
  };
}

-- The records that begin with a small number.
abbrev small : List ℕ → Bool
small [] = false
small (b ∷ bs) = ltb b 6

abbrev scan : SeqScan small toy
scan = record {
  file = file;
  locks = record {
    lock_table = λ j. none;
    txn = record { txn_id = 1; state = default; lock_set = [] };
  };
  tuple_buffer = [];
  curr_page_in_buffer = 0;
  is_end = false;
}

abbrev small_rows : List Row
small_rows = (rid_at 1 1, 5 ∷ 6 ∷ []) ∷ (rid_at 2 0, 1 ∷ 2 ∷ []) ∷ []

drain-scan_executor_example : some small_rows ≡ some (table_rows small file.hdr pages)
unfolding program
drain-scan_executor_example =
    drain-scan_executor small toy file.hdr pages 3 scan (some small_rows) file-IsTable refl
      (ground arith) (ground arith) refl
