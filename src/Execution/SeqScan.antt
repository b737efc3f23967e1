-- ===== src/Execution/SeqScan.antt =====
-- execution/executor_seq_scan.h: the class `SeqScanExecutor`, which reads a record file page by page
-- under a shared lock on its table. A call that does not return is `none`.
pub mod Slots
pub mod Rows
pub mod Tests
use cscc_db.Base.{
  ℕ, zero, suc, ◌+◌, ◌-◌, Bool, true, false, Option, none, some, List, [], ◌∷◌, if◌then◌else◌, take,
  pos, Outcome, ok, throws, aborted, ◌>>=◌,
}
use cscc_db.Storage.Buffer.{Buffer}
use cscc_db.Transaction.Locks.{Locks, lock_shared_on_table}
use cscc_db.Record.Bitmap.{is_set}
use cscc_db.Record.Layout.{RmFileHdr}
use cscc_db.Record.File.{RmPage, RmFile, Stop, fetch_page_handle, page_at, unpin}
use cscc_db.Record.File.Scan.{RmScan, rid_at}

-- A `Rid` and the record there: what `rid` and `Next` return.
abbrev pub Row : Type 0
Row = RmScan × List ℕ

-- The slots of a page that hold a record, from slot `j` on, `t` slots in all; the loop ends when it
-- has found `m` of them.
unfoldable pub collect : ℕ → ℕ → List ℕ → ℕ → List ℕ
collect zero m bm j = []
collect (suc t) zero bm j = []
collect (suc t) (suc m) bm j = elim (is_set bm j) [
  | true ↦ j ∷ collect t m bm (j + 1)
  | false ↦ collect t (suc m) bm (j + 1)
]

-- `test` is whether all conditions of the scan hold of a record.
module _ (test : List ℕ → Bool) where
  -- The records in the slots of page `k` that the conditions hold of.
  unfoldable pub select : RmFileHdr → ℕ → RmPage → List ℕ → List Row
  select hdr k page [] = []
  select hdr k page (j ∷ js) =
      let rest = select hdr k page js in
      let found = take hdr.record_size (page.slots j) in
      if test found then (rid_at k j, found) ∷ rest else rest

  abbrev pub select_page : RmFileHdr → ℕ → RmPage → List Row
  select_page hdr k page =
      select hdr k page (collect hdr.num_records_per_page page.num_records page.bitmap 0)

  module _ (B : Buffer RmPage) where
    -- The vectors of records and of their places are held as what is left from `buffer_idx` on.
    pub record SeqScan : Type 0 where
      pub file : RmFile B
      pub locks : Locks
      pub tuple_buffer : List Row
      pub curr_page_in_buffer : ℕ
      pub is_end : Bool

    -- The loop over the pages from `k` on, up to the first that gives a row.
    unfoldable pub scan_pages :
        ℕ → RmFile B → ℕ → Outcome (Stop B.Error) (RmFile B) (Option (ℕ × List Row) × RmFile B)
    scan_pages zero file k = ok (none, file)
    scan_pages (suc t) file k = do
      (f, q) ← fetch_page_handle B file (pos k)
      (elim (select_page q.hdr k (page_at B q f)) [
        | [] ↦ scan_pages t (unpin B q f false) (suc k)
        | x ∷ xs ↦ ok (some (k, x ∷ xs), unpin B q f false)
      ])

    -- How both calls end after the loop.
    unfoldable pub filled :
        SeqScan
        → Outcome (Stop B.Error) (RmFile B) (Option (ℕ × List Row) × RmFile B)
        → Option SeqScan
    filled s aborted = none
    filled s (throws why file) = none
    filled s (ok (none, q)) = some (record s { file = q; tuple_buffer = []; is_end = true })
    filled s (ok (some (k, rows), q)) =
        some (record s { file = q; tuple_buffer = rows; curr_page_in_buffer = k })

    unfoldable pub begin_locked : SeqScan → Option Locks → Option SeqScan
    begin_locked s none = none
    begin_locked s (some l) =
        filled (record s { locks = l; is_end = false })
          (scan_pages (s.file.hdr.num_pages - 1) s.file 1)

    -- The lock, or none where the call throws.
    unfoldable pub shared_lock : SeqScan → Option Locks
    shared_lock s = elim (lock_shared_on_table s.locks s.file.fd) [
      | aborted ↦ none
      | throws why l ↦ none
      | ok granted ↦ if granted.0 then some (granted.1) else none
    ]

    unfoldable pub begin_tuple : SeqScan → Option SeqScan
    begin_tuple s = begin_locked s (shared_lock s)

    unfoldable pub advance : SeqScan → List Row → Option SeqScan
    advance s [] = some s
    advance s (x ∷ []) =
        let k = s.curr_page_in_buffer + 1 in
        filled s (scan_pages (s.file.hdr.num_pages - k) s.file k)
    advance s (x ∷ y ∷ rows) = some (record s { tuple_buffer = y ∷ rows })

    abbrev pub next_tuple : SeqScan → Option SeqScan
    next_tuple s = advance s s.tuple_buffer

    -- `Next` and `rid`.
    unfoldable pub current : SeqScan → Option Row
    current s = elim s.tuple_buffer [ [] ↦ none | x ∷ xs ↦ some x ]
