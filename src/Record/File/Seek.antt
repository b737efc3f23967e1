-- ===== src/Record/File/Seek.antt =====
-- `insert_record` at a given place, for recovery and abort: its loop fetches the first free page
-- again and again.
use cscc_db.Base.{
  ℕ, zero, suc, ◌<◌, ◌≡◌, ◌≢◌, refl, true, some, List, arith, pos, ◌==ℤ◌, ltb_ℤ, ok, >>=-eq-ok,
  ◌>>=◌, Option-cases, inl, inr, ◌∙◌, ap, subst, sym,
}
use cscc_db.Storage.Buffer.{Buffer}
use cscc_db.Record.File.{
  RmPage, RmFile, fetch_page_handle, fetch_free_page_handle, seek_page, insert_record_at,
  insert_found,
}
use cscc_db.Record.File.Shows.{page_id, handle_of_cases}

module _ (B : Buffer RmPage) where
  -- The frame holds the file's first free page, `k`.
  record IsAtFirst (q : RmFile B) (f k : ℕ) : Type 0 where
    valid : B.IsValid q.buffer
    first : q.hdr.first_free_page_no ≡ pos k
    at : (B.frame q.buffer f).id ≡ page_id q.fd k

  fetch_first :
      (file q : RmFile B) (f k : ℕ)
      → B.IsValid file.buffer
      → file.hdr.first_free_page_no ≡ pos k
      → fetch_free_page_handle B file ≡ ok (f, q)
      → IsAtFirst q f k
  unfolding fetch_free_page_handle fetch_page_handle ◌==ℤ◌
  fetch_first file q f k valid first e =
      let fetched : fetch_page_handle B file (pos k) ≡ ok (f, q) = ground (arith, e, first) in
      let (t, shape, call) = handle_of_cases B file q f _ fetched in
      let (at, valid_t) = B.fetched file.buffer t (page_id file.fd k) f valid refl call in
      subst (λ (x : RmFile B). IsAtFirst x f k) (sym shape)
        (record { valid = valid_t; first = first; at = at })

  -- While the first free page is below the wanted one, the loop goes on.
  seek_page_never :
      (fuel : ℕ) (q r : RmFile B) (f k p : ℕ)
      → IsAtFirst q f k
      → k < p
      → seek_page B fuel q f (pos p) ≢ ok (some r)
  unfolding seek_page ltb_ℤ
  seek_page_never zero q r f k p at lt e = cc
  seek_page_never (suc n) q r f k p at lt e =
      let below : ltb_ℤ (B.frame q.buffer f).id.page_no (pos p) ≡ true =
        ground (arith, at.at, lt) in
      let again : (fetch_free_page_handle B q >>= λ (x : ℕ × RmFile B).
      seek_page B n x.1 x.0 (pos p))
          ≡ ok (some r) =
        ground (arith, e, below) in
      let ((g, s), fetched, rest) =
        >>=-eq-ok (fetch_free_page_handle B q) (λ (x : ℕ × RmFile B). seek_page B n x.1 x.0 (pos p))
          again in
      seek_page_never n s r g k p (fetch_first q s g k at.valid at.first fetched) lt rest

  -- If the first page with free slots has a lower number than the wanted page, the insertion at a
  -- given place never returns: no number of turns of its loop is enough. Recovery and abort put a
  -- deleted or updated record back by this call.
  pub insert_record_at_never :
      (file r : RmFile B) (k p slot_no fuel : ℕ) (buf : List ℕ)
      → B.IsValid file.buffer
      → file.hdr.first_free_page_no ≡ pos k
      → k < p
      → insert_record_at B fuel file (pos p) slot_no buf ≢ ok (some r)
  unfolding insert_record_at
  insert_record_at_never file r k p slot_no fuel buf valid first lt e =
      let ((f, q), fetched, rest) =
        >>=-eq-ok (fetch_free_page_handle B file)
          (λ (x : ℕ × RmFile B).
            seek_page B fuel x.1 x.0 (pos p) >>= insert_found B (pos p) slot_no buf)
          e in
      let (found, sought, last) =
        >>=-eq-ok (seek_page B fuel q f (pos p)) (insert_found B (pos p) slot_no buf) rest in
      let never = λ (s : RmFile B).
        seek_page_never fuel q s f k p (fetch_first file q f k valid first fetched) lt in
      elim (Option-cases found) [
        | inl nothing ↦ ground (arith, last, nothing)
        | inr (s, there) ↦ never s (sought ∙ ap ok there)
      ]
