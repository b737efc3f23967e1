-- ===== src/Record/File/Grow.antt =====
-- A page that is appended to a record file when no page has a free slot.
use cscc_db.Base.{
  ℕ, ◌+◌, ◌≤◌, ◌<◌, ◌≡◌, refl, List, [], ◌∷◌, update, arith, pos, minus_one, length, ◌⊎◌, inl, inr,
  length-replicate,
}
use cscc_db.Record.Bitmap.{init, is_set-init}
use cscc_db.Record.Layout.{RmFileHdr}
use cscc_db.Record.File.{RmPage}
use cscc_db.Record.File.Pages.{record_at, count-init, Linked, IsHeap}

abbrev pub grown : RmFileHdr → RmFileHdr
grown hdr = record hdr { num_pages = hdr.num_pages + 1; first_free_page_no = pos hdr.num_pages }

-- The free list of a heap is empty, or its first page is the header's.
pub free-cases :
    (hdr : RmFileHdr) (pages : ℕ → RmPage) (free : List ℕ)
    → Linked hdr.num_pages pages hdr.first_free_page_no free
    → ((free ≡ []) × (hdr.first_free_page_no ≡ minus_one))
      ⊎ ((k : ℕ) × (ks : List ℕ) × (free ≡ k ∷ ks)
          × (hdr.first_free_page_no ≡ pos k)
          × (1 ≤ k)
          × (k < hdr.num_pages))
unfolding Linked
free-cases hdr pages [] h = inl (refl, h)
free-cases hdr pages (k ∷ ks) (at, lo, hi, rest) = inr (k, ks, refl, at, lo, hi)

pub free_head :
    (hdr : RmFileHdr) (pages : ℕ → RmPage) (free : List ℕ) (n : ℕ)
    → Linked hdr.num_pages pages hdr.first_free_page_no free
    → hdr.first_free_page_no ≡ pos n
    → (ks : List ℕ) × (free ≡ n ∷ ks)
free_head hdr pages free n h e = elim (free-cases hdr pages free h) [
  | inl (_, full) ↦ cc
  | inr (k, ks, head, at, _, _) ↦ (ks, ground (arith, head, at, e))
]

module _ (hdr : RmFileHdr) (pages : ℕ → RmPage) (page : RmPage) (h : IsHeap hdr pages)
    (full : hdr.first_free_page_no ≡ minus_one) (some_page : 1 ≤ hdr.num_pages)
    (empty : page.bitmap ≡ init hdr.bitmap_size) where
  length-init : (n : ℕ) → length (init n) ≡ n
  unfolding init
  length-init n = length-replicate n 0

  pub grown-IsHeap :
      page.num_records ≡ 0
      → page.next_free_page_no ≡ minus_one
      → IsHeap (grown hdr) (update pages hdr.num_pages page)
  unfolding Linked
  grown-IsHeap none_yet last = elim (free-cases hdr pages h.free h.linked) [
    | inr (k, ks, _, at, _, _) ↦ cc
    | inl (nothing, _) ↦ record {
      sized = h.sized;
      roomy = h.roomy;
      widths = λ j a b. ground (arith, h.widths j, empty, length-init hdr.bitmap_size);
      counted = λ j a b. ground (
        arith,
        h.counted j,
        empty,
        none_yet,
        count-init hdr.num_records_per_page hdr.bitmap_size,
      );
      free = hdr.num_pages ∷ [];
      distinct = (refl, tt);
      linked = (refl, some_page, omega arith, ground (arith, last));
      listed = λ j a b. ground (arith, h.listed j, h.roomy, nothing, none_yet);
    }
  ]

  pub record_at-grown :
      (j m : ℕ)
      → record_at (grown hdr) (update pages hdr.num_pages page) j m ≡ record_at hdr pages j m
  unfolding record_at
  record_at-grown j m = ground (arith, empty, is_set-init hdr.bitmap_size m)
