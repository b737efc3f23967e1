-- ===== src/Record/Layout.antt =====
-- record/rm_manager.h and rm_file_handle.h: how `create_file` divides a page between the page header,
-- the bitmap and the slots, and where `RmPageHandle` finds them.
use native.Mathlib.Nat.{le-div_iff_mul-le, div-mul-le_self, mul-le-mul_right}
use cscc_db.Base.{
  ℕ, suc, ◌+◌, ◌-◌, ◌*◌, ◌/◌, ◌≤◌, ◌<◌, ◌≡◌, subst, ◌||◌, ltb, if◌then◌else◌, arith, Option, none,
  some, ℤ, minus_one,
}

-- PAGE_SIZE, sizeof(RmFileHdr) and sizeof(RmPageHdr).
abbrev pub page_size : ℕ
page_size = 4096

abbrev pub file_hdr_size : ℕ
file_hdr_size = 20

abbrev pub page_hdr_size : ℕ
page_hdr_size = 16

-- `struct RmFileHdr`.
pub record RmFileHdr : Type 0 where
  pub record_size : ℕ
  pub num_pages : ℕ
  pub num_records_per_page : ℕ
  pub first_free_page_no : ℤ
  pub bitmap_size : ℕ

unfoldable pub records_per_page : ℕ → ℕ
records_per_page record_size = (8 * (page_size - 1 - file_hdr_size) + 1) / (1 + record_size * 8)

-- The header that `create_file` writes; `none` is `InvalidRecordSizeError`.
unfoldable pub create_file_hdr : ℕ → Option RmFileHdr
create_file_hdr record_size =
    if ltb record_size 1 || ltb 2048 record_size
    then none
    else some (record {
      record_size = record_size;
      num_pages = 1;
      first_free_page_no = minus_one;
      num_records_per_page = records_per_page record_size;
      bitmap_size = (records_per_page record_size + 8 - 1) / 8;
    })

-- The offset in the page of the bitmap, of the slots and of one slot.
unfoldable pub bitmap_offset : ℕ
bitmap_offset = page_hdr_size

unfoldable pub slots_offset : RmFileHdr → ℕ
slots_offset hdr = bitmap_offset + hdr.bitmap_size

unfoldable pub get_slot : RmFileHdr → ℕ → ℕ
get_slot hdr slot_no = slots_offset hdr + slot_no * hdr.record_size

records_per_page_bounds :
    (rs i : ℕ)
    → rs ≤ 2048
    → (1 ≤ records_per_page rs)
      × (records_per_page rs + 8 * (records_per_page rs * rs) ≤ 32601)
      × (i < records_per_page rs → i * rs + rs ≤ records_per_page rs * rs)
unfolding records_per_page
records_per_page_bounds rs i h = (
  (le-div_iff_mul-le {k = 1 + rs * 8} {x = 1} {y = 32601} (omega arith)).1 (omega (arith, h)),
  omega (arith, div-mul-le_self 32601 (1 + rs * 8)),
  λ l. omega (arith, mul-le-mul_right {m = suc i} {n = 32601 / (1 + rs * 8)} rs l),
)

accepted :
    (rs : ℕ) (hdr : RmFileHdr)
    → create_file_hdr rs ≡ some hdr
    → (rs ≤ 2048)
      × (hdr.record_size ≡ rs)
      × (hdr.num_records_per_page ≡ records_per_page rs)
      × (hdr.bitmap_size ≡ (records_per_page rs + 7) / 8)
unfolding create_file_hdr
accepted rs hdr e = ground arith

-- For every record size that `create_file` accepts, a page holds at least one record, the bitmap has
-- a bit for each slot, the slots begin where the bitmap ends, each slot ends where the next begins,
-- and the last one ends within the page.
pub layout :
    (record_size : ℕ) (hdr : RmFileHdr)
    → create_file_hdr record_size ≡ some hdr
    → (0 < hdr.num_records_per_page)
      × (hdr.num_records_per_page ≤ 8 * hdr.bitmap_size)
      × (get_slot hdr 0 ≡ bitmap_offset + hdr.bitmap_size)
      × ((i : ℕ) → get_slot hdr (suc i) ≡ get_slot hdr i + hdr.record_size)
      × ((i : ℕ) → i < hdr.num_records_per_page → get_slot hdr i + record_size ≤ page_size)
unfolding create_file_hdr get_slot slots_offset bitmap_offset
layout rs hdr e =
    let (small, size, count, bytes) = accepted rs hdr e in
    let bounds = λ (i : ℕ). records_per_page_bounds rs i small in
    (
      omega (arith, count, (bounds 0).0),
      omega (arith, count, bytes),
      omega arith,
      λ i. omega arith,
      λ i l.
          rw (size, bytes) (omega (arith, (bounds i).1, (bounds i).2 (subst (λ n. i < n) count l))),
    )
