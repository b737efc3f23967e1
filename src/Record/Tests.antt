-- ===== src/Record/Tests.antt =====
-- Bitmaps and page layouts: tests, and the theorems at inputs that meet their hypotheses.
use cscc_db.Base.{
  replicate, ℕ, ◌+◌, ◌*◌, ◌≡◌, refl, ◌<◌, ◌≤◌, ◌⊎◌, true, false, arith, length, List, [], ◌∷◌, suc,
  minus_one,
}
use cscc_db.Record.Bitmap.{
  get_bucket, get_bit, init, set, reset, is_set, scan_bits, next_bit, first_bit, is_set-set,
  next_bit_result,
}
use cscc_db.Record.Layout.{
  RmFileHdr, create_file_hdr, records_per_page, bitmap_offset, slots_offset, get_slot, layout,
  page_size,
}

program : Unit {0}
unfolding replicate get_bucket get_bit init set reset is_set scan_bits next_bit first_bit
    create_file_hdr records_per_page bitmap_offset slots_offset get_slot
program = tt

abbrev bits : List ℕ
bits = set (set (init 2) 0) 9

bytes : bits ≡ 128 ∷ 64 ∷ []
unfolding program
bytes = refl

searches :
    (first_bit true bits 16 ≡ 0)
    × (next_bit true bits 16 1 ≡ 9)
    × (next_bit true bits 16 10 ≡ 16)
    × (first_bit false bits 16 ≡ 1)
unfolding program
searches = (refl, refl, refl, refl)

is_set-set_example :
    (is_set (set bits 3) 9 ≡ true)
    × (is_set (reset bits 3) 9 ≡ true)
    × (length (set bits 3) ≡ 2)
    × (length (reset bits 3) ≡ 2)
unfolding program
is_set-set_example = is_set-set bits 3 9 (omega arith)

next_bit_result_test :
    (1 ≤ 9)
    × (9 ≤ 16)
    × ((◌≡◌ {A = ℕ} 9 16) ⊎ (is_set bits 9 ≡ true))
    × ((j : ℕ) → 1 ≤ j → j < 9 → is_set bits j ≡ false)
unfolding program
next_bit_result_test = next_bit_result true bits 16 1 (omega arith)

abbrev hdr : RmFileHdr
hdr = record {
  record_size = 100;
  num_pages = 1;
  num_records_per_page = 40;
  first_free_page_no = minus_one;
  bitmap_size = 5;
}

layout_example :
    (0 < 40)
    × (40 ≤ 8 * 5)
    × (get_slot hdr 0 ≡ bitmap_offset + 5)
    × ((i : ℕ) → get_slot hdr (suc i) ≡ get_slot hdr i + 100)
    × ((i : ℕ) → i < 40 → get_slot hdr i + 100 ≤ page_size)
unfolding program
layout_example = layout 100 hdr refl
