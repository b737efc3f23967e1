-- ===== src/Record/File/Slots.antt =====
-- What filling, clearing and rewriting a slot do to the pages of a record file.
use cscc_db.Base.{
  ℕ, ◌+◌, ◌≤◌, ◌<◌, ◌≡◌, refl, true, false, none, some, List, ◌∷◌, ◌==◌, ◌&&◌, if◌then◌else◌,
  update, take, arith, ℤ, pos, contains, IsDistinct, Bool-cases, inl, inr, subst,
}
use cscc_db.Record.Bitmap.{is_set, is_set-set, Fits}
use cscc_db.Record.Layout.{RmFileHdr}
use cscc_db.Record.File.{RmPage, write_slot, fill_slot, after_fill, clear_slot, after_clear}
use cscc_db.Record.File.Pages.{
  record_at, Linked, IsHeap, count-set, count_le, Linked_kept, Linked_eq,
}

-- Two pages that differ in their log sequence numbers only.
abbrev pub IsStamped : RmPage → RmPage → Type 0
IsStamped page old =
    (page.bitmap ≡ old.bitmap)
    × (page.num_records ≡ old.num_records)
    × (page.next_free_page_no ≡ old.next_free_page_no)
    × (page.slots ≡ old.slots)

module _ (hdr : RmFileHdr) (pages : ℕ → RmPage) (k i : ℕ) (page : RmPage) where
  module _ (h : IsHeap hdr pages) (lo : 1 ≤ k) (hi : k < hdr.num_pages)
      (lt : i < hdr.num_records_per_page) (same : IsStamped page (pages k)) where
    fits : Fits page.bitmap i
    fits = ground (arith, h.widths k lo hi, h.sized, lt, same.0)

    -- A list without page `k` is linked as before after a change of that page.
    elsewhere :
        (z : ℤ) (ks : List ℕ) (new : RmPage)
        → contains k ks ≡ false
        → Linked hdr.num_pages pages z ks
        → Linked hdr.num_pages (update pages k new) z ks
    elsewhere z ks new absent links =
        Linked_kept hdr.num_pages hdr.num_pages pages (update pages k new) z ks (omega arith)
          (λ j e. ground arith) links

    -- A list with page `k` too, if the page's link does not change.
    everywhere :
        (z : ℤ) (ks : List ℕ) (new : RmPage)
        → new.next_free_page_no ≡ (pages k).next_free_page_no
        → Linked hdr.num_pages pages z ks
        → Linked hdr.num_pages (update pages k new) z ks
    everywhere z ks new e links =
        Linked_kept hdr.num_pages hdr.num_pages pages (update pages k new) z ks (omega arith)
          (λ j _. ground arith) links

    pub fill_slot-IsHeap :
        (buf : List ℕ) (ks : List ℕ)
        → is_set page.bitmap i ≡ false
        → h.free ≡ k ∷ ks
        → IsHeap (after_fill hdr page) (update pages k (fill_slot hdr i buf page))
    unfolding Linked
    fill_slot-IsHeap buf ks unset head =
        let new = fill_slot hdr i buf page in
        let changed = update pages k new in
        let width = (is_set-set page.bitmap i i fits).2 in
        let more = (count-set hdr.num_records_per_page i page.bitmap fits lt).0 unset in
        let links = subst (Linked hdr.num_pages pages hdr.first_free_page_no) head h.linked in
        let once = subst IsDistinct head h.distinct in
        let full = page.num_records + 1 == hdr.num_records_per_page in
        let (_, _, _, rest) = links in
        let tail : Linked hdr.num_pages changed (pages k).next_free_page_no ks =
          elsewhere (pages k).next_free_page_no ks new once.0 rest in
        let all : Linked hdr.num_pages changed hdr.first_free_page_no (k ∷ ks) =
          everywhere hdr.first_free_page_no (k ∷ ks) new same.2 links in
        record {
          sized = ground (arith, h.sized);
          roomy = ground (arith, h.roomy);
          widths = λ j a b. ground (arith, h.widths j, width);
          counted = λ j a b. ground (arith, h.counted j, more);
          free = if full then ks else k ∷ ks;
          distinct = ground (arith, once);
          linked = elim (Bool-cases full) [
            | inl last ↦
                Linked_eq changed {num = hdr.num_pages} {y = (pages k).next_free_page_no} {js = ks}
                  tail (ground arith) (ground (arith, last, same.2)) (ground (arith, last))
            | inr others ↦
                Linked_eq changed {num = hdr.num_pages} {y = hdr.first_free_page_no} {js = k ∷ ks}
                  all (ground arith) (ground (arith, others)) (ground (arith, others))
          ];
          listed = λ j a b. ground (arith, h.listed j, head, once);
        }

    pub clear_slot-IsHeap :
        is_set page.bitmap i ≡ true
        → IsHeap (after_clear hdr (pos k) page) (update pages k (clear_slot hdr i page))
    unfolding Linked
    clear_slot-IsHeap there =
        let new = clear_slot hdr i page in
        let changed = update pages k new in
        let width = (is_set-set page.bitmap i i fits).3 in
        let less = (count-set hdr.num_records_per_page i page.bitmap fits lt).1 there in
        let full = page.num_records == hdr.num_records_per_page in
        let counts = h.counted k lo hi in
        let most = count_le hdr.num_records_per_page page.bitmap in
        record {
          sized = ground (arith, h.sized);
          roomy = ground (arith, h.roomy);
          widths = λ j a b. ground (arith, h.widths j, width);
          counted = λ j a b. ground (arith, h.counted j, less, counts);
          free = if full then k ∷ h.free else h.free;
          distinct = ground (arith, h.distinct, h.listed k lo hi);
          linked = elim (Bool-cases full) [
            | inl last ↦
                Linked_eq changed {y = pos k} {js = k ∷ h.free}
                  (
                    refl,
                    lo,
                    hi,
                    Linked_eq changed
                        (elsewhere hdr.first_free_page_no h.free new
                          (ground (arith, last, h.listed k lo hi, same)) h.linked)
                        refl (ground (arith, last)) refl,
                  )
                  (ground arith) (ground (arith, last)) (ground (arith, last))
            | inr others ↦
                Linked_eq changed
                  (everywhere hdr.first_free_page_no h.free new (ground (arith, others, same))
                    h.linked)
                  (ground arith) (ground (arith, others)) (ground (arith, others))
          ];
          listed = λ j a b. ground (arith, h.listed j, most, less, counts);
        }

    -- A rewritten slot.
    pub write_slot-IsHeap : (buf : List ℕ) → IsHeap hdr (update pages k (write_slot hdr i buf page))
    write_slot-IsHeap buf = record {
      sized = h.sized;
      roomy = h.roomy;
      widths = λ j a b. ground (arith, h.widths j);
      counted = λ j a b. ground (arith, h.counted j);
      free = h.free;
      distinct = h.distinct;
      linked =
          everywhere hdr.first_free_page_no h.free (write_slot hdr i buf page) (ground arith)
            h.linked;
      listed = λ j a b. ground (arith, h.listed j);
    }

    -- The records of the table.
    pub record_at-fill_slot :
        (buf : List ℕ) (j m : ℕ)
        → record_at (after_fill hdr page) (update pages k (fill_slot hdr i buf page)) j m ≡ (
            if j == k && m == i
            then some (take hdr.record_size (take hdr.record_size buf))
            else record_at hdr pages j m)
    unfolding record_at
    record_at-fill_slot buf j m = ground (arith, is_set-set page.bitmap i m fits)

    pub record_at-clear_slot :
        (j m : ℕ)
        → record_at (after_clear hdr (pos k) page) (update pages k (clear_slot hdr i page)) j m
          ≡ (if j == k && m == i then none else record_at hdr pages j m)
    unfolding record_at
    record_at-clear_slot j m = ground (arith, is_set-set page.bitmap i m fits)

    pub record_at-write_slot :
        (buf : List ℕ) (j m : ℕ)
        → is_set page.bitmap i ≡ true
        → record_at hdr (update pages k (write_slot hdr i buf page)) j m ≡ (
            if j == k && m == i
            then some (take hdr.record_size (take hdr.record_size buf))
            else record_at hdr pages j m)
    unfolding record_at
    record_at-write_slot buf j m there = ground arith
