-- ===== src/Record/File/Scan.antt =====
-- record/rm_scan.h and rm_scan.cpp: the class `RmScan`, and the loop that its clients run over it.
pub mod Order
use cscc_db.Base.{
  ℕ, zero, suc, ◌+◌, ◌-◌, ◌<◌, ◌≤◌, ◌≡◌, refl, true, false, Bool, Option, none, some, List, [], ◌∷◌,
  ◌++◌, map, ltb, ◌&&◌, if◌then◌else◌, arith, ℤ, pos, negsuc, minus_one, ◌==ℤ◌, Outcome, ok, ◌>>=◌,
}
use cscc_db.Storage.Buffer.{Buffer}
use cscc_db.Record.Bitmap.{is_set, next_bit}
use cscc_db.Record.File.{RmPage, RmFile, Result, fetch_page_handle, page_at, unpin}

-- `rid_`.
pub record RmScan : Type 0 where
  pub page_no : ℤ
  pub slot_no : ℤ

abbrev pub end_rid : RmScan
end_rid = record { page_no = minus_one; slot_no = minus_one }

unfoldable pub is_end : RmScan → Bool
is_end s = s.page_no ==ℤ minus_one && s.slot_no ==ℤ minus_one

-- `i + 1`.
abbrev pub succ_ℤ : ℤ → ℤ
succ_ℤ (pos k) = pos (suc k)
succ_ℤ (negsuc zero) = pos 0
succ_ℤ (negsuc (suc k)) = negsuc k

-- How many numbers there are from `i` to below `num`.
abbrev pub turns : ℕ → ℤ → ℕ
turns num (pos k) = num - k
turns num (negsuc k) = num + suc k

-- `rid_.slot_no + 1`, of a slot number that is at least -1.
abbrev pub slot_after : ℤ → ℕ
slot_after (pos j) = j + 1
slot_after (negsuc j) = 0

module _ (B : Buffer RmPage) where
  -- The loop over pages, from page `i` on, where slots before `start` are left out. The loop over
  -- slots is that of `Bitmap::next_bit`.
  unfoldable pub scan_from : ℕ → RmFile B → ℤ → ℕ → Result B (RmScan × RmFile B)
  scan_from zero file i start = ok (end_rid, file)
  scan_from (suc n) file i start = do
    (f, q) ← fetch_page_handle B file i
    let j = next_bit true (page_at B q f).bitmap q.hdr.num_records_per_page start
    (elim (ltb j q.hdr.num_records_per_page) [
      | true ↦ ok (record { page_no = i; slot_no = pos j }, unpin B q f false)
      | false ↦ scan_from n (unpin B q f false) (succ_ℤ i) 0
    ])

  -- The constructor.
  unfoldable pub start_scan : RmFile B → Result B (RmScan × RmFile B)
  start_scan file = scan_from (file.hdr.num_pages - 1) file (pos 1) 0

  unfoldable pub next : RmScan → RmFile B → Result B (RmScan × RmFile B)
  next s file = scan_from (turns file.hdr.num_pages s.page_no) file s.page_no (slot_after s.slot_no)

  -- `for (RmScan scan(file_handle); !scan.is_end(); scan.next())`, and the places that `rid()` names;
  -- `none` when the fuel is used up.
  unfoldable pub scan_loop : ℕ → RmScan → RmFile B → Result B (Option (List RmScan) × RmFile B)
  scan_loop zero s file = ok (none, file)
  scan_loop (suc n) s file = elim (is_end s) [
    | true ↦ ok (some [], file)
    | false ↦ do
      (t, q) ← next s file
      (found, r) ← scan_loop n t q
      ok (elim found [ none ↦ none | some rids ↦ some (s ∷ rids) ], r)
  ]

  unfoldable pub scan_all : ℕ → RmFile B → Result B (Option (List RmScan) × RmFile B)
  scan_all fuel file = do (s, q) ← start_scan file; scan_loop fuel s q

-- The slots of a page, from slot `i` on, `n` of them, that hold a record.
unfoldable pub slots_from : ℕ → List ℕ → ℕ → List ℕ
slots_from zero bm i = []
slots_from (suc n) bm i =
    let rest = slots_from n bm (i + 1) in if is_set bm i then i ∷ rest else rest

abbrev pub rid_at : ℕ → ℕ → RmScan
rid_at k i = record { page_no = pos k; slot_no = pos i }

-- The places with a record, in the order of pages and slots: of page `k` from slot `i` on, and of the
-- pages after it, `t` pages of `n` slots in all.
unfoldable pub places_from : ℕ → ℕ → (ℕ → RmPage) → ℕ → ℕ → List RmScan
places_from n zero pages k i = []
places_from n (suc t) pages k i =
    map (rid_at k) (slots_from (n - i) (pages k).bitmap i) ++ places_from n t pages (suc k) 0
