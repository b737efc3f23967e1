-- ===== src/Execution/SeqScan/Rows.antt =====
-- A sequential scan as an executor: it gives the records of the table that the conditions hold of.
use cscc_db.Base.{
  ℕ, zero, suc, ◌+◌, ◌-◌, ◌≤◌, ◌<◌, ◌≡◌, refl, ◌⊎◌, inl, inr, Bool, true, false, Option, none, some,
  List, [], ◌∷◌, ◌++◌, length, arith, pos, ap, sym, ◌∙◌, subst, Outcome, ok, throws, aborted,
  >>=-eq-ok, Option-cases, Bool-cases, take, if◌then◌else◌,
}
use cscc_db.Storage.Buffer.{Buffer}
use cscc_db.Record.Layout.{RmFileHdr}
use cscc_db.Record.File.{RmPage, RmFile, Stop, fetch_page_handle, page_at, unpin}
use cscc_db.Record.Bitmap.{is_set}
use cscc_db.Record.File.Pages.{count, record_at}
use cscc_db.Record.File.Shows.{fetch_page_handle_lem}
use cscc_db.Record.File.Insert.{IsTable}
use cscc_db.Record.File.Scan.{slots_from, rid_at}
use cscc_db.Execution.{Executor, Restarts, drain, drain_lem}
use cscc_db.Execution.SeqScan.{
  Row, select, select_page, SeqScan, scan_pages, filled, begin_locked, shared_lock, begin_tuple,
  advance, next_tuple, current,
}
use cscc_db.Execution.SeqScan.Slots.{length-slots_from, collect-slots_from}

-- The records of a table at the slots of page `k` from `j` on, `t` slots in all, with their places.
unfoldable pub records_from : RmFileHdr → (ℕ → RmPage) → ℕ → ℕ → ℕ → List Row
records_from hdr pages k zero j = []
records_from hdr pages k (suc t) j =
    let rest = records_from hdr pages k t (j + 1) in
    elim (record_at hdr pages k j) [ none ↦ rest | some bytes ↦ (rid_at k j, bytes) ∷ rest ]

module _ (test : List ℕ → Bool) where
  -- The rows that the conditions hold of.
  unfoldable pub keep : List Row → List Row
  keep [] = []
  keep ((rid, bytes) ∷ rows) =
      let rest = keep rows in if test bytes then (rid, bytes) ∷ rest else rest

  abbrev pub rows_of_page : RmFileHdr → (ℕ → RmPage) → ℕ → List Row
  rows_of_page hdr pages k = keep (records_from hdr pages k hdr.num_records_per_page 0)

  -- Those of `t` pages from `k` on.
  unfoldable pub rows_from : RmFileHdr → (ℕ → RmPage) → ℕ → ℕ → List Row
  rows_from hdr pages zero k = []
  rows_from hdr pages (suc t) k = rows_of_page hdr pages k ++ rows_from hdr pages t (suc k)

  -- The records of the table that the conditions hold of, in the order of pages and slots.
  unfoldable pub table_rows : RmFileHdr → (ℕ → RmPage) → List Row
  table_rows hdr pages = rows_from hdr pages (hdr.num_pages - 1) 1

  select-keep :
      (hdr : RmFileHdr) (pages : ℕ → RmPage) (k t j : ℕ)
      → 1 ≤ k
      → k < hdr.num_pages
      → select test hdr k (pages k) (slots_from t (pages k).bitmap j)
        ≡ keep (records_from hdr pages k t j)
  unfolding select slots_from records_from keep record_at
  select-keep hdr pages k zero j lo hi = refl
  select-keep hdr pages k (suc t) j lo hi =
      let rest = select-keep hdr pages k t (j + 1) lo hi in
      elim (Bool-cases (is_set (pages k).bitmap j)) [
        | inl there ↦ elim (Bool-cases (test (take hdr.record_size ((pages k).slots j)))) [
          | inl holds ↦ ground (arith, there, holds, rest)
          | inr fails ↦ ground (arith, there, fails, rest)
        ]
        | inr absent ↦ ground (arith, absent, rest)
      ]

  module _ (B : Buffer RmPage) (hdr : RmFileHdr) (pages : ℕ → RmPage) where
    -- The file is as it was.
    record IsSame (file : RmFile B) : Type 0 where
      table : IsTable B file pages
      same : file.hdr ≡ hdr

    select_all :
        (file : RmFile B) (k : ℕ)
        → IsSame file
        → 1 ≤ k
        → k < hdr.num_pages
        → select_page test hdr k (pages k) ≡ rows_of_page hdr pages k
    select_all file k h lo hi =
        let all : (pages k).num_records ≡ count hdr.num_records_per_page (pages k).bitmap =
          subst
            (λ (h : RmFileHdr).
              (pages k).num_records ≡ count h.num_records_per_page (pages k).bitmap)
            h.same
            (h.table.heap.counted k lo
              (subst (λ (h : RmFileHdr). k < h.num_pages) (sym h.same) hi)) in
        ap (select test hdr k (pages k)) (
          collect-slots_from hdr.num_records_per_page (pages k).num_records 0 (pages k).bitmap
            (omega (arith, all, length-slots_from hdr.num_records_per_page (pages k).bitmap)))
        ∙ select-keep hdr pages k hdr.num_records_per_page 0 lo hi

    -- What the loop over pages returns, if it is to give `xs`.
    unfoldable Found : Option (ℕ × List Row) → List Row → Type 0
    Found none xs = xs ≡ []
    Found (some (i, rows)) xs =
        (x : Row) × (more : List Row) × (rows ≡ x ∷ more)
        × (1 ≤ i)
        × (i < hdr.num_pages)
        × (xs ≡ rows ++ rows_from hdr pages (hdr.num_pages - (i + 1)) (i + 1))

    -- What the loop does with page `k`, in a frame.
    abbrev scan_page :
        ℕ → ℕ → ℕ × RmFile B → Outcome (Stop B.Error) (RmFile B) (Option (ℕ × List Row) × RmFile B)
    scan_page t k (f, q) = elim (select_page test q.hdr k (page_at B q f)) [
      | [] ↦ scan_pages test B t (unpin B q f false) (suc k)
      | x ∷ xs ↦ ok (some (k, x ∷ xs), unpin B q f false)
    ]

    List-cases : (xs : List Row) → (xs ≡ []) ⊎ ((y : Row) × (ys : List Row) × (xs ≡ y ∷ ys))
    List-cases [] = inl refl
    List-cases (y ∷ ys) = inr (y, ys, refl)

    scan_pages_lem :
        (t k : ℕ) (file q : RmFile B) (found : Option (ℕ × List Row))
        → IsSame file
        → 1 ≤ k
        → t + k ≡ hdr.num_pages
        → scan_pages test B t file k ≡ ok (found, q)
        → IsSame q × Found found (rows_from hdr pages t k)
    unfolding scan_pages rows_from Found
    scan_pages_lem zero k file q found h lo sum e =
        let same : file ≡ q = ground (arith, e) in
        let nothing : none ≡ found = ground (arith, e) in
        (subst IsSame same h, subst (λ r. Found r []) nothing refl)
    scan_pages_lem (suc t) k file q found h lo sum e =
        let hi : k < hdr.num_pages = omega (arith, sum) in
        let ((f, p), fetched, rest) =
          >>=-eq-ok (fetch_page_handle B file (pos k)) (scan_page t k) e in
        let (u, shape, opened, closed) =
          fetch_page_handle_lem B file p file.hdr.num_pages k f pages h.table.shows lo
            (subst (λ (h : RmFileHdr). k < h.num_pages) (sym h.same) hi) fetched in
        let w = record file { buffer = (B.unpin_page u (B.frame u f).id false).1 } in
        let same_w : IsSame w = record {
          table = record { shows = closed; heap = h.table.heap };
          same = h.same;
        } in
        let body : scan_page t k (f, record file { buffer = u }) ≡ ok (found, q) =
          subst (λ (x : RmFile B). scan_page t k (f, x) ≡ ok (found, q)) shape rest in
        let read : select_page test file.hdr k (B.frame u f).content ≡ rows_of_page hdr pages k =
          ap (λ (p : RmPage). select_page test file.hdr k p) opened.content
          ∙ ap (λ (h : RmFileHdr). select_page test h k (pages k)) h.same
          ∙ select_all file k h lo hi in
        let later = rows_from hdr pages t (suc k) in
        elim (List-cases (rows_of_page hdr pages k)) [
          | inl empty ↦
              let recur : scan_pages test B t w (suc k) ≡ ok (found, q) =
                ground (arith, body, read, empty) in
              let (last, there) =
                scan_pages_lem t (suc k) w q found same_w (omega arith) (omega (arith, sum))
                  recur in
              (last, rw empty there)
          | inr (x, more, list) ↦
              let same : w ≡ q = ground (arith, body, read, list) in
              let this : some (k, x ∷ more) ≡ found = ground (arith, body, read, list) in
              let left : t ≡ hdr.num_pages - (k + 1) = omega (arith, sum) in
              let next : suc k ≡ k + 1 = omega arith in
              (
                subst IsSame same same_w,
                subst (λ r. Found r (rows_of_page hdr pages k ++ later)) this
                    (
                      x,
                      more,
                      refl,
                      lo,
                      hi,
                      rw list (
                          ap (λ rows. x ∷ more ++ rows)
                            (ap (λ n. rows_from hdr pages n (suc k)) left
                              ∙ ap (rows_from hdr pages (hdr.num_pages - (k + 1))) next)),
                    ),
              )
        ]

    -- Before a begin.
    pub record IsReady (s : SeqScan test B) : Type 0 where
      pub table : IsTable B s.file pages
      pub same : s.file.hdr ≡ hdr
      pub header : 1 ≤ hdr.num_pages

    -- The scan stands at the first of `xs`, or has come to its end.
    pub Yields : SeqScan test B → List Row → Type 0
    Yields s xs =
        IsReady s
        × (((s.is_end ≡ true) × (xs ≡ []))
            ⊎ ((s.is_end ≡ false)
                × (1 ≤ s.curr_page_in_buffer)
                × (s.curr_page_in_buffer < hdr.num_pages)
                × ((x : Row) × (more : List Row) × (s.tuple_buffer ≡ x ∷ more))
                × (xs
                    ≡ s.tuple_buffer
                      ++ rows_from hdr pages (hdr.num_pages - (s.curr_page_in_buffer + 1))
                          (s.curr_page_in_buffer + 1))))

    -- How a call ends after the loop over the `t` pages from `k` on.
    abbrev Filled : ℕ → ℕ → SeqScan test B → Type 0
    Filled t k s =
        (call : Outcome (Stop B.Error) (RmFile B) (Option (ℕ × List Row) × RmFile B))
        (u : SeqScan test B)
        → scan_pages test B t s.file k ≡ call
        → filled test B s call ≡ some u
        → Yields u (rows_from hdr pages t k)

    filled_lem :
        (t k : ℕ) (s : SeqScan test B)
        → IsReady s
        → s.is_end ≡ false
        → 1 ≤ k
        → t + k ≡ hdr.num_pages
        → Filled t k s
    unfolding Yields filled Found
    filled_lem t k s h going lo sum aborted u at e = cc
    filled_lem t k s h going lo sum (throws why file) u at e = cc
    filled_lem t k s h going lo sum (ok (none, q)) u at e =
        let (last, nothing) =
          scan_pages_lem t k s.file q none (record { table = h.table; same = h.same }) lo sum at in
        let shape : record s { file = q; tuple_buffer = []; is_end = true } ≡ u =
          ground (arith, e) in
        subst (λ (u : SeqScan test B). Yields u (rows_from hdr pages t k)) shape
          (record { table = last.table; same = last.same; header = h.header }, inl (refl, nothing))
    filled_lem t k s h going lo sum (ok (some (i, rows), q)) u at e =
        let (last, there) =
          scan_pages_lem t k s.file q (some (i, rows)) (record { table = h.table; same = h.same })
            lo sum at in
        let (x, more, list, low, high, all) = there in
        let shape : record s { file = q; tuple_buffer = rows; curr_page_in_buffer = i } ≡ u =
          ground (arith, e) in
        subst (λ (u : SeqScan test B). Yields u (rows_from hdr pages t k)) shape
          (
            record { table = last.table; same = last.same; header = h.header },
            inr (going, low, high, (x, more, list), all),
          )

    num_same : (s : SeqScan test B) → IsReady s → s.file.hdr.num_pages ≡ hdr.num_pages
    num_same s h = ap (λ (h : RmFileHdr). h.num_pages) h.same

    pub begin_tuple_rows :
        (s u : SeqScan test B)
        → IsReady s
        → begin_tuple test B s ≡ some u
        → Yields u (table_rows hdr pages)
    unfolding begin_tuple begin_locked table_rows
    begin_tuple_rows s u h e = elim (Option-cases (shared_lock test B s)) [
      | inl refused ↦ ground (arith, e, refused)
      | inr (l, locked) ↦
          let num = num_same s h in
          let begun : SeqScan test B = record s { locks = l; is_end = false } in
          let body : filled test B begun (scan_pages test B (hdr.num_pages - 1) s.file 1) ≡ some u =
            ground (arith, e, locked, num) in
          filled_lem (hdr.num_pages - 1) 1 begun
            (record { table = h.table; same = h.same; header = h.header }) refl (omega arith)
            (omega (arith, h.header)) _ u refl body
    ]

    next_tuple_rows :
        (s u : SeqScan test B) (x : Row) (xs : List Row)
        → IsReady s
        → s.is_end ≡ false
        → 1 ≤ s.curr_page_in_buffer
        → s.curr_page_in_buffer < hdr.num_pages
        → (more : List Row) → s.tuple_buffer ≡ x ∷ more
        → xs
          ≡ more
            ++ rows_from hdr pages
                (hdr.num_pages - (s.curr_page_in_buffer + 1))
                (s.curr_page_in_buffer + 1)
        → next_tuple test B s ≡ some u
        → Yields u xs
    unfolding advance Yields
    next_tuple_rows s u x xs h going lo hi [] buffer list e =
        let k = s.curr_page_in_buffer + 1 in
        let num = num_same s h in
        let body : filled test B s (scan_pages test B (hdr.num_pages - k) s.file k) ≡ some u =
          ground (arith, e, buffer, num) in
        subst (Yields u) (sym list) (
          filled_lem (hdr.num_pages - k) k s h going (omega arith) (omega (arith, hi)) _ u refl
            body)
    next_tuple_rows s u x xs h going lo hi (y ∷ more) buffer list e =
        let shape : record s { tuple_buffer = y ∷ more } ≡ u = ground (arith, e, buffer) in
        subst (λ (u : SeqScan test B). Yields u xs) shape
          (
            record { table = h.table; same = h.same; header = h.header },
            inr (going, lo, hi, (y, more, refl), list),
          )

    pub scan_ended : (s : SeqScan test B) → Yields s [] → s.is_end ≡ true
    unfolding Yields
    scan_ended s (h, inl (over, _)) = over
    scan_ended s (h, inr (going, lo, hi, (x, more, buffer), list)) = ground (arith, list, buffer)

    pub scan_going :
        (s : SeqScan test B) (x : Row) (xs : List Row)
        → Yields s (x ∷ xs)
        → (s.is_end ≡ false)
          × (current test B s ≡ some x)
          × ((u : SeqScan test B) → next_tuple test B s ≡ some u → Yields u xs)
    unfolding Yields current
    scan_going s x xs (h, inl (over, empty)) = cc
    scan_going s x xs (h, inr (going, lo, hi, (y, more, buffer), list)) =
        let first : y ≡ x = ground (arith, list, buffer) in
        let rest : xs
            ≡ more
              ++ rows_from hdr pages (hdr.num_pages - (s.curr_page_in_buffer + 1))
                  (s.curr_page_in_buffer + 1) =
          ground (arith, list, buffer) in
        (
          going,
          ground (arith, buffer, first),
          λ u e. next_tuple_rows s u y xs h going lo hi more buffer rest e,
        )

    -- The scan of a table as an executor.
    abbrev pub scan_executor : Executor Row
    scan_executor = record {
      State = SeqScan test B;
      begin_tuple = begin_tuple test B;
      next_tuple = next_tuple test B;
      is_end = λ s. s.is_end;
      current = current test B;
      rows = table_rows hdr pages;
      IsReady = IsReady;
      Yields = Yields;
      begun = begin_tuple_rows;
      ended = scan_ended;
      going = scan_going;
    }

    pub scan-Restarts : Restarts scan_executor
    unfolding Yields
    scan-Restarts s (h, _) = h

    -- The loop that runs a query over a scan of a table, with more fuel than there are rows: if no
    -- call throws and the shared lock on the table is granted, it comes to its end, and has given the
    -- records that the conditions hold of, with their places, in the order of pages and slots.
    pub drain-scan_executor :
        (fuel : ℕ) (s : SeqScan test B) (found : Option (List Row))
        → IsTable B s.file pages
        → s.file.hdr ≡ hdr
        → 1 ≤ hdr.num_pages
        → length (table_rows hdr pages) < fuel
        → drain scan_executor fuel s ≡ some found
        → found ≡ some (table_rows hdr pages)
    drain-scan_executor fuel s found table same header lt =
        drain_lem scan_executor fuel s found
          (record { table = table; same = same; header = header }) lt
