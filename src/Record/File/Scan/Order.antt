-- ===== src/Record/File/Scan/Order.antt =====
-- A scan visits the records of a table, each once, in the order of pages and slots.
use cscc_db.Base.{
  ℕ, zero, suc, ◌+◌, ◌-◌, ◌<◌, ◌≤◌, ◌≡◌, refl, true, false, Option, none, some, List, [], ◌∷◌, ltb,
  leb, arith, pos, ◌==ℤ◌, Outcome, ok, ◌>>=◌, >>=-eq-ok, ◌⊎◌, inl, inr, Bool-cases, length, ap,
  subst, sym, ◌∙◌,
}
use cscc_db.Storage.Buffer.{Buffer}
use cscc_db.Record.Bitmap.{is_set, next_bit, scan_bits}
use cscc_db.Record.Layout.{RmFileHdr}
use cscc_db.Record.File.{RmPage, RmFile, Stop, fetch_page_handle, page_at, unpin}
use cscc_db.Record.File.Shows.{fetch_page_handle_lem}
use cscc_db.Record.File.Insert.{IsTable}
use cscc_db.Record.File.Scan.{
  RmScan, end_rid, is_end, scan_from, start_scan, next, scan_loop, scan_all, slots_from, rid_at,
  places_from,
}

-- What the slots from a place on are, if bit `j` is the first of them that is set.
abbrev FirstIs : ℕ → ℕ → List ℕ → ℕ → List ℕ → Type 0
FirstIs j b bm n slots =
    ((j ≡ b) × (slots ≡ [])) ⊎ ((j < b) × (slots ≡ j ∷ slots_from (b - (j + 1)) bm (j + 1)))

scan_bits-slots_from :
    (t i b : ℕ) (bm : List ℕ)
    → t + i ≡ b
    → FirstIs (scan_bits t true bm i) b bm t (slots_from t bm i)
unfolding scan_bits slots_from
scan_bits-slots_from zero i b bm e = inl (omega (arith, e), refl)
scan_bits-slots_from (suc t) i b bm e = elim (Bool-cases (is_set bm i)) [
  | inl there ↦
      rw there (inr (omega (arith, e), ap (λ n. i ∷ slots_from n bm (i + 1)) (omega (arith, e))))
  | inr absent ↦ rw absent (scan_bits-slots_from t (i + 1) b bm (omega (arith, e)))
]

next_bit-slots_from :
    (n i : ℕ) (bm : List ℕ)
    → i ≤ n
    → FirstIs (next_bit true bm n i) n bm i (slots_from (n - i) bm i)
unfolding next_bit
next_bit-slots_from n i bm le =
    let within : leb i n ≡ true = ground (arith, le) in
    rw within (scan_bits-slots_from (n - i) i n bm (omega (arith, le)))

-- The scan stands at a place of the list, or at the end.
StandsAt : ℕ → ℕ → (ℕ → RmPage) → RmScan → List RmScan → Type 0
StandsAt n num pages s places =
    ((s ≡ end_rid) × (places ≡ []))
    ⊎ ((k : ℕ) × (j : ℕ) × (s ≡ rid_at k j)
        × (1 ≤ k)
        × (k < num)
        × (j < n)
        × (places ≡ rid_at k j ∷ places_from n (num - k) pages k (j + 1)))

module _ (B : Buffer RmPage) where
  -- The file after pages have been fetched and unpinned.
  record IsRead (file q : RmFile B) (pages : ℕ → RmPage) : Type 0 where
    same : q ≡ record file { buffer = q.buffer }
    table : IsTable B q pages

  -- What the loop does with page `k`, in a frame.
  abbrev scan_page :
      ℕ → ℕ → ℕ → ℕ × RmFile B → Outcome (Stop B.Error) (RmFile B) (RmScan × RmFile B)
  scan_page t k start (f, q) =
      let j = next_bit true (page_at B q f).bitmap q.hdr.num_records_per_page start in
      elim (ltb j q.hdr.num_records_per_page) [
        | true ↦ ok (rid_at k j, unpin B q f false)
        | false ↦ scan_from B t (unpin B q f false) (pos (suc k)) 0
      ]

  scan_from_lem :
      (t k start : ℕ) (file q : RmFile B) (pages : ℕ → RmPage) (s : RmScan)
      → IsTable B file pages
      → 1 ≤ k
      → t + k ≡ file.hdr.num_pages
      → start ≤ file.hdr.num_records_per_page
      → scan_from B t file (pos k) start ≡ ok (s, q)
      → IsRead file q pages
        × StandsAt file.hdr.num_records_per_page file.hdr.num_pages pages s
            (places_from file.hdr.num_records_per_page t pages k start)
  unfolding scan_from places_from StandsAt
  scan_from_lem zero k start file q pages s table lo sum le e =
      let same : file ≡ q = ground (arith, e) in
      (
        subst (λ (x : RmFile B). IsRead file x pages) same (record { same = refl; table = table }),
        inl (ground (arith, e), refl),
      )
  scan_from_lem (suc t) k start file q pages s table lo sum le e =
      let n = file.hdr.num_records_per_page in
      let ((f, p), fetched, rest) =
        >>=-eq-ok (fetch_page_handle B file (pos k)) (scan_page t k start) e in
      let (u, shape, opened, closed) =
        fetch_page_handle_lem B file p file.hdr.num_pages k f pages table.shows lo
          (omega (arith, sum)) fetched in
      let w = record file { buffer = (B.unpin_page u (B.frame u f).id false).1 } in
      let table_w : IsTable B w pages = record { shows = closed; heap = table.heap } in
      let done : scan_page t k start (f, record file { buffer = u }) ≡ ok (s, q) =
        subst (λ (x : RmFile B). scan_page t k start (f, x) ≡ ok (s, q)) shape rest in
      let j = next_bit true (pages k).bitmap n start in
      let found : next_bit true (B.frame u f).content.bitmap n start ≡ j =
        ap (λ (p : RmPage). next_bit true p.bitmap n start) opened.content in
      elim (next_bit-slots_from n start (pages k).bitmap le) [
        | inl (last, slots) ↦
            let recur : scan_from B t w (pos (suc k)) 0 ≡ ok (s, q) =
              ground (arith, done, found, last) in
            let (read, stands) =
              scan_from_lem t (suc k) 0 w q pages s table_w (omega arith) (omega (arith, sum))
                (omega arith) recur in
            (record { same = read.same; table = read.table }, rw slots stands)
        | inr (lt, slots) ↦
            let here : rid_at k j ≡ s = ground (arith, done, found, lt) in
            let same : w ≡ q = ground (arith, done, found, lt) in
            let pages_left : suc t ≡ file.hdr.num_pages - k = omega (arith, sum) in
            (
              subst (λ (x : RmFile B). IsRead file x pages) same
                  (record { same = refl; table = table_w }),
              inr (
                k,
                j,
                sym here,
                lo,
                omega (arith, sum),
                lt,
                rw slots (ap (λ m. rid_at k j ∷ places_from n m pages k (j + 1)) pages_left),
              ),
            )
      ]

  IsRead-hdr : (file q : RmFile B) (pages : ℕ → RmPage) → IsRead file q pages → file.hdr ≡ q.hdr
  IsRead-hdr file q pages read = ap (λ (x : RmFile B). x.hdr) (sym read.same)

  IsRead-then :
      (file p q : RmFile B) (pages : ℕ → RmPage)
      → IsRead file p pages
      → IsRead p q pages
      → IsRead file q pages
  IsRead-then file p q pages a b = record {
    same = b.same ∙ ap (λ (x : RmFile B). record x { buffer = q.buffer }) a.same;
    table = b.table;
  }

  -- What is left of a client's loop after `next`.
  abbrev last_part :
      RmScan
      → Option (List RmScan) × RmFile B
      → Outcome (Stop B.Error) (RmFile B) (Option (List RmScan) × RmFile B)
  last_part s (found, r) = ok (elim found [ none ↦ none | some rids ↦ some (s ∷ rids) ], r)

  abbrev loop_part :
      ℕ
      → RmScan
      → RmScan × RmFile B
      → Outcome (Stop B.Error) (RmFile B) (Option (List RmScan) × RmFile B)
  loop_part n s (t, q) = scan_loop B n t q >>= last_part s

  -- The rest of a client's loop, if the fuel is more than the number of places that are left.
  scan_loop_lem :
      (fuel : ℕ) (file q : RmFile B) (pages : ℕ → RmPage) (s : RmScan) (left : List RmScan)
      (found : Option (List RmScan))
      → IsTable B file pages
      → StandsAt file.hdr.num_records_per_page file.hdr.num_pages pages s left
      → length left < fuel
      → scan_loop B fuel s file ≡ ok (found, q)
      → (found ≡ some left) × IsRead file q pages
  unfolding scan_loop StandsAt is_end ◌==ℤ◌ next
  scan_loop_lem zero file q pages s left found table stands lt e = ground arith
  scan_loop_lem (suc n) file q pages s left found table (inl (last, empty)) lt e =
      let ended : is_end s ≡ true = ground (arith, last) in
      let same : file ≡ q = ground (arith, e, ended) in
      (
        ground (arith, e, ended, empty),
        subst (λ (x : RmFile B). IsRead file x pages) same (record { same = refl; table = table }),
      )
  scan_loop_lem (suc n) file q pages s left found table (inr (k, j, at, lo, hi, slot, list)) lt e =
      let going : is_end s ≡ false = ground (arith, at) in
      let body : (next B s file >>= loop_part n s) ≡ ok (found, q) = ground (arith, e, going) in
      let ((t, p), stepped, rest) = >>=-eq-ok (next B s file) (loop_part n s) body in
      let ((some_found, r), looped, finish) = >>=-eq-ok (scan_loop B n t p) (last_part s) rest in
      let num = file.hdr.num_pages in
      let from : scan_from B (num - k) file (pos k) (j + 1) ≡ ok (t, p) =
        subst (λ (x : RmScan). next B x file ≡ ok (t, p)) at stepped in
      let (read, stands) =
        scan_from_lem (num - k) k (j + 1) file p pages t table lo (omega (arith, hi))
          (omega (arith, slot)) from in
      let (rest_found, last) =
        scan_loop_lem n p r pages t _ some_found read.table
          (subst
            (λ (h : RmFileHdr).
              StandsAt h.num_records_per_page h.num_pages pages t
                (places_from file.hdr.num_records_per_page (num - k) pages k (j + 1)))
            (IsRead-hdr file p pages read) stands)
          (ground (arith, lt, list)) looped in
      let same : r ≡ q = ground (arith, finish) in
      (
        ground (arith, finish, rest_found, list, at),
        subst (λ (x : RmFile B). IsRead file x pages) same (IsRead-then file p r pages read last),
      )

  -- The loop of a client over a scan of a table, with more fuel than there are records, names the
  -- places of the records in the order of pages and slots, each once; if the pool does not fail, it
  -- comes to its end, and the table is as before.
  pub scan_all_result :
      (fuel : ℕ) (file q : RmFile B) (pages : ℕ → RmPage) (found : Option (List RmScan))
      → IsTable B file pages
      → 1 ≤ file.hdr.num_pages
      → let places = places_from file.hdr.num_records_per_page (file.hdr.num_pages - 1) pages 1 0 in
        length places < fuel
        → scan_all B fuel file ≡ ok (found, q)
        → (found ≡ some places) × IsTable B q pages
  unfolding scan_all start_scan
  scan_all_result fuel file q pages found table header lt e =
      let ((s, p), started, rest) =
        >>=-eq-ok (start_scan B file) (λ (x : RmScan × RmFile B). scan_loop B fuel x.0 x.1) e in
      let (read, stands) =
        scan_from_lem (file.hdr.num_pages - 1) 1 0 file p pages s table (omega arith)
          (omega (arith, header)) (omega arith) started in
      let (all, last) =
        scan_loop_lem fuel p q pages s _ found read.table
          (subst
            (λ (h : RmFileHdr).
              StandsAt h.num_records_per_page h.num_pages pages s
                (places_from file.hdr.num_records_per_page (file.hdr.num_pages - 1) pages 1 0))
            (IsRead-hdr file p pages read) stands)
          lt rest in
      (all, last.table)
