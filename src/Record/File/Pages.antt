-- ===== src/Record/File/Pages.antt =====
-- The pages of a record file, apart from the buffer pool: the map from places to records that a table
-- is, and the invariant of the counts, the bitmaps and the list of pages with free slots.
use cscc_db.Base.{
  ℕ, zero, suc, ◌+◌, ◌*◌, ◌≤◌, ◌<◌, ◌≡◌, refl, true, false, Option, none, some, List, [], ◌∷◌, ◌==◌,
  ◌&&◌, ltb, leb, if◌then◌else◌, take, arith, ℤ, pos, minus_one, length, contains, IsDistinct,
  subst, Bool-cases, inl, inr,
}
use cscc_db.Record.Bitmap.{set, reset, is_set, is_set-set, init, is_set-init, Fits}
use cscc_db.Record.Layout.{RmFileHdr}
use cscc_db.Record.File.{RmPage}

-- The record at a place: what a table is to its users.
unfoldable pub record_at : RmFileHdr → (ℕ → RmPage) → ℕ → ℕ → Option (List ℕ)
record_at hdr pages k i =
    if leb 1 k && ltb k hdr.num_pages && is_set (pages k).bitmap i
    then some (take hdr.record_size ((pages k).slots i))
    else none

pub record_at_unset :
    (hdr : RmFileHdr) (pages : ℕ → RmPage) (k i : ℕ)
    → is_set (pages k).bitmap i ≡ false
    → record_at hdr pages k i ≡ none
unfolding record_at
record_at_unset hdr pages k i e = ground (arith, e)

-- How many of the first `n` bits are set.
unfoldable pub count : ℕ → List ℕ → ℕ
count zero bm = 0
count (suc n) bm = count n bm + (if is_set bm n then 1 else 0)

-- The free list from page number `z` on.
unfoldable pub Linked : ℕ → (ℕ → RmPage) → ℤ → List ℕ → Type 0
Linked num pages z [] = z ≡ minus_one
Linked num pages z (k ∷ ks) =
    (z ≡ pos k) × (1 ≤ k) × (k < num) × Linked num pages (pages k).next_free_page_no ks

-- Every page counts its records, and the free list holds just the pages that are not full, each
-- once.
pub record IsHeap (hdr : RmFileHdr) (pages : ℕ → RmPage) : Type 0 where
  pub sized : hdr.num_records_per_page ≤ 8 * hdr.bitmap_size
  pub roomy : 0 < hdr.num_records_per_page
  pub widths : (k : ℕ) → 1 ≤ k → k < hdr.num_pages → length (pages k).bitmap ≡ hdr.bitmap_size
  pub counted :
      (k : ℕ)
      → 1 ≤ k
      → k < hdr.num_pages
      → (pages k).num_records ≡ count hdr.num_records_per_page (pages k).bitmap
  pub free : List ℕ
  pub distinct : IsDistinct free
  pub linked : Linked hdr.num_pages pages hdr.first_free_page_no free
  pub listed :
      (k : ℕ)
      → 1 ≤ k
      → k < hdr.num_pages
      → contains k free ≡ ltb (pages k).num_records hdr.num_records_per_page

pub count-set_above :
    (n i : ℕ) (bm : List ℕ)
    → Fits bm i
    → n ≤ i
    → (count n (set bm i) ≡ count n bm) × (count n (reset bm i) ≡ count n bm)
unfolding count
count-set_above zero i bm fits le = (refl, refl)
count-set_above (suc n) i bm fits le =
    ground (arith, count-set_above n i bm fits, is_set-set bm i n fits)

-- One bit more, or one less.
pub count-set :
    (n i : ℕ) (bm : List ℕ)
    → Fits bm i
    → i < n
    → (is_set bm i ≡ false → count n (set bm i) ≡ suc (count n bm))
      × (is_set bm i ≡ true → suc (count n (reset bm i)) ≡ count n bm)
unfolding count
count-set zero i bm fits lt = ground arith
count-set (suc n) i bm fits lt = elim (Bool-cases (i == n)) [
  | inl same ↦ ground (arith, count-set_above n i bm fits, is_set-set bm i n fits)
  | inr other ↦ ground (arith, count-set n i bm fits, is_set-set bm i n fits)
]

pub count-init : (n size : ℕ) → count n (init size) ≡ 0
unfolding count
count-init zero size = refl
count-init (suc n) size = ground (arith, count-init n size, is_set-init size n)

pub count_le : (n : ℕ) (bm : List ℕ) → count n bm ≤ n
unfolding count
count_le zero bm = ground arith
count_le (suc n) bm = ground (arith, count_le n bm)

-- The list depends on the links of its own pages only.
pub Linked_kept :
    (num more : ℕ) (pages other : ℕ → RmPage) (z : ℤ) (ks : List ℕ)
    → num ≤ more
    → ((j : ℕ) → contains j ks ≡ true → (other j).next_free_page_no ≡ (pages j).next_free_page_no)
    → Linked num pages z ks
    → Linked more other z ks
unfolding Linked
Linked_kept num more pages other z [] le same h = h
Linked_kept num more pages other z (k ∷ ks) le same (at, lo, hi, rest) = (
  at,
  lo,
  ground arith,
  rw (same k (ground arith))
      (Linked_kept num more pages other _ ks le (λ j e. same j (ground arith)) rest),
)

pub Linked_eq :
    (pages : ℕ → RmPage) {num more : ℕ} {y z : ℤ} {js ks : List ℕ}
    → Linked num pages y js
    → num ≡ more
    → y ≡ z
    → js ≡ ks
    → Linked more pages z ks
Linked_eq pages {more = more} {y = y} {z = z} {js = js} h a b c =
    subst (λ ks. Linked more pages z ks) c
      (subst (λ x. Linked more pages x js) b (subst (λ n. Linked n pages y js) a h))
