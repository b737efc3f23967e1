-- ===== src/Record/File.antt =====
-- record/rm_file_handle.h and rm_file_handle.cpp: the class `RmFileHandle`, over a buffer pool and the
-- log manager. A page is what `RmPageHandle` points at: the page header's fields, the bitmap's bytes and
-- the slots, each a thing of its own. That their places in the page's bytes do not overlap is a matter
-- of Record/Layout. A call is one step: `hdr_latch_` is not modelled. A `Rid` is its two fields, the
-- slot number not negative. A null pointer that is dereferenced ends the process, as a failed `assert`
-- does.
pub mod Pages
pub mod Slots
pub mod Grow
pub mod Shows
pub mod Insert
pub mod Change
pub mod Seek
pub mod Scan
pub mod Tests
use cscc_db.Base.{
  ℕ, ◌+◌, ◌-◌, Bool, true, false, not, Option, none, some, List, [], ◌∷◌, ◌++◌, ◌==◌, ltb,
  if◌then◌else◌, update, take, Outcome, ok, throws, aborted, ◌>>=◌, ℤ, pos, negsuc, minus_one,
  ◌==ℤ◌, ltb_ℤ,
}
use cscc_db.Storage.{PageId}
use cscc_db.Storage.Buffer.{Buffer}
use cscc_db.Transaction.{TransactionState, default, growing}
use cscc_db.Log.Manager.{
  LogManager, LogTxn, WriteRecord, insert_tuple, gen_log_from_write_set, LogStop, Call,
}
use cscc_db.Record.Bitmap.{set, reset, is_set, first_bit}
use cscc_db.Record.Layout.{RmFileHdr}

-- `struct RmPageHdr`, the bitmap and the slots of a page. A page holds as many records as its header
-- says; the source's number is an `int`, which would fall below 0 where this stays 0.
pub record RmPage : Type 0 where
  pub page_lsn : ℤ
  pub rec_lsn : ℤ
  pub next_free_page_no : ℤ
  pub num_records : ℕ
  pub bitmap : List ℕ
  pub slots : ℕ → List ℕ

-- `class RmFileHandle`; the table name is what `get_file_name` of the disk manager says of the file.
pub record RmFile (B : Buffer RmPage) : Type 0 where
  pub fd : ℤ
  pub table_name : List ℕ
  pub hdr : RmFileHdr
  pub buffer : B.State

-- `class Context`: the transaction and the log manager.
pub record Context : Type 0 where
  pub txn : LogTxn
  pub state : TransactionState
  pub write_set : List WriteRecord
  pub log : LogManager

-- Why a call does not return: the buffer pool's exception, or the log manager's call does not.
pub data Stop (E : Type 0) : Type 0 where
  buffer_error : E → Stop E
  log_error : LogStop → Stop E

-- A word of the log as an `int`, and back.
abbrev pub signed : ℕ → ℤ
signed w = if ltb w 2147483648 then pos w else negsuc (4294967295 - w)

abbrev pub word_of : ℤ → ℕ
word_of (pos n) = n
word_of (negsuc n) = 4294967295 - n

abbrev pub get_so_far_lsn : Context → ℤ
get_so_far_lsn ctx = signed ctx.txn.so_far_lsn

-- DEFAULT or GROWING.
abbrev pub may_write : TransactionState → Bool
may_write default = true
may_write growing = true
may_write _ = false

-- The log record of a write, and the write set.
unfoldable pub log_write : Context → WriteRecord → Call Context
log_write ctx w = do
  (lsn, log, txn) ← gen_log_from_write_set ctx.log ctx.txn w
  ok (record ctx { log = log; txn = txn; write_set = ctx.write_set ++ w ∷ [] })

-- The `WriteRecord` of an insertion, which is at `address`.
abbrev pub insertion : ℕ → List ℕ → ℤ → ℕ → List ℕ → WriteRecord
insertion address table_name page_no slot_no value = record {
  address = address;
  wtype = insert_tuple;
  tab_name = table_name;
  rid = record { page_no = word_of page_no; slot_no = slot_no };
  old_record = value;
  new_record = [];
}

-- The page and recovery numbers of a page that a transaction changes.
abbrev pub stamp : Context → Bool → RmPage → RmPage
stamp ctx is_dirty page =
    let lsn = get_so_far_lsn ctx in
    record page {
      page_lsn = if ltb_ℤ lsn page.page_lsn then page.page_lsn else lsn;
      rec_lsn = if is_dirty then page.rec_lsn else lsn;
    }

abbrev pub stamp_if : Option Context → Bool → RmPage → RmPage
stamp_if none is_dirty page = page
stamp_if (some ctx) is_dirty page = stamp ctx is_dirty page

-- `memcpy(get_slot(slot_no), buf, record_size)`.
abbrev pub write_slot : RmFileHdr → ℕ → List ℕ → RmPage → RmPage
write_slot hdr slot_no buf page = record page {
  slots = update page.slots slot_no (take hdr.record_size buf);
}

-- A record comes into a free slot: the slot, the bit, the count; and the page leaves the free list if
-- that was its last free slot.
abbrev pub fill_slot : RmFileHdr → ℕ → List ℕ → RmPage → RmPage
fill_slot hdr slot_no buf page = record (write_slot hdr slot_no buf page) {
  bitmap = set page.bitmap slot_no;
  num_records = page.num_records + 1;
}

abbrev pub after_fill : RmFileHdr → RmPage → RmFileHdr
after_fill hdr page =
    if page.num_records + 1 == hdr.num_records_per_page
    then record hdr { first_free_page_no = page.next_free_page_no }
    else hdr

-- A record goes: the bit, the count; and a page that was full becomes the first of the free list. The
-- source tests that the count after the call is one less than the number of slots.
abbrev pub clear_slot : RmFileHdr → ℕ → RmPage → RmPage
clear_slot hdr slot_no page =
    let full = page.num_records == hdr.num_records_per_page in
    record page {
      bitmap = reset page.bitmap slot_no;
      num_records = page.num_records - 1;
      next_free_page_no = if full then hdr.first_free_page_no else page.next_free_page_no;
    }

abbrev pub after_clear : RmFileHdr → ℤ → RmPage → RmFileHdr
after_clear hdr page_no page =
    if page.num_records == hdr.num_records_per_page
    then record hdr { first_free_page_no = page_no }
    else hdr

module _ (B : Buffer RmPage) where
  abbrev pub Result : Type 0 → Type 0
  Result A = Outcome (Stop B.Error) (RmFile B) A

  abbrev pub id_of : RmFile B → ℤ → PageId
  id_of file page_no = record { fd = file.fd; page_no = page_no }

  -- What the page handle on frame `f` shows, and a write through it.
  abbrev pub page_at : RmFile B → ℕ → RmPage
  page_at file f = (B.frame file.buffer f).content

  abbrev pub write_page : RmFile B → ℕ → RmPage → RmFile B
  write_page file f page = record file { buffer = B.write_frame file.buffer f page }

  -- `buffer_pool_manager_->unpin_page(page->get_page_id(), is_dirty)`.
  abbrev pub unpin : RmFile B → ℕ → Bool → RmFile B
  unpin file f is_dirty = record file {
    buffer = (B.unpin_page file.buffer (B.frame file.buffer f).id is_dirty).1;
  }

  -- `RmPageHandle(&file_hdr_, page)` on what the pool returns.
  abbrev pub handle_of :
      RmFile B → Outcome B.Error B.State (Option ℕ × B.State) → Result (ℕ × RmFile B)
  handle_of file aborted = aborted
  handle_of file (throws e s) = throws (buffer_error e) (record file { buffer = s })
  handle_of file (ok (none, s)) = aborted
  handle_of file (ok (some f, s)) = ok (f, record file { buffer = s })

  unfoldable pub fetch_page_handle : RmFile B → ℤ → Result (ℕ × RmFile B)
  fetch_page_handle file page_no = handle_of file (B.fetch_page file.buffer (id_of file page_no))

  -- The header of a new page.
  abbrev pub blank : RmPage → RmPage
  blank page = record page {
    next_free_page_no = minus_one;
    num_records = 0;
    page_lsn = minus_one;
    rec_lsn = minus_one;
  }

  abbrev pub new_handle_of :
      RmFile B → Outcome B.Error B.State (Option (ℕ × PageId) × B.State) → Result (ℕ × RmFile B)
  new_handle_of file aborted = aborted
  new_handle_of file (throws e s) = throws (buffer_error e) (record file { buffer = s })
  new_handle_of file (ok (none, s)) = aborted
  new_handle_of file (ok (some (f, id), s)) = ok (
    f,
    record (write_page (record file { buffer = s }) f (blank (B.frame s f).content)) {
      hdr = record file.hdr { num_pages = file.hdr.num_pages + 1; first_free_page_no = id.page_no };
    },
  )

  pub create_new_page : RmFile B → Result (ℕ × RmFile B)
  create_new_page file = new_handle_of file (B.new_page file.buffer file.fd)

  pub fetch_free_page_handle : RmFile B → Result (ℕ × RmFile B)
  fetch_free_page_handle file =
      if file.hdr.first_free_page_no ==ℤ minus_one
      then create_new_page file
      else fetch_page_handle file file.hdr.first_free_page_no

  pub is_record : RmFile B → ℤ → ℕ → Result (Bool × RmFile B)
  is_record file page_no slot_no = do
    (f, q) ← fetch_page_handle file page_no
    ok (is_set (page_at q f).bitmap slot_no, unpin q f false)

  pub get_record : RmFile B → ℤ → ℕ → Result (List ℕ × RmFile B)
  get_record file page_no slot_no = do
    (f, q) ← fetch_page_handle file page_no
    ok (take q.hdr.record_size ((page_at q f).slots slot_no), unpin q f false)

  -- What `insert_record` does with a transaction: its log record and its write set.
  abbrev pub log_insertion : RmFile B → Option Context → WriteRecord → Result (Option Context)
  log_insertion file none w = ok none
  log_insertion file (some ctx) w =
      if may_write ctx.state
      then (elim (log_write ctx w) [
        | aborted ↦ aborted
        | throws why log ↦ throws (log_error why) file
        | ok c ↦ ok (some c)
      ])
      else aborted

  -- The record goes into slot `i` of the page in frame `f`, which is unpinned.
  abbrev pub place_record :
      RmFile B → ℕ → ℕ → List ℕ → Option Context → (ℤ × ℕ) × Option Context × RmFile B
  place_record q f i buf ctx =
      let page_no = (B.frame q.buffer f).id.page_no in
      let page = stamp_if ctx (B.frame q.buffer f).is_dirty (page_at q f) in
      let filled = write_page q f (fill_slot q.hdr i buf page) in
      ((page_no, i), ctx, unpin (record filled { hdr = after_fill q.hdr page }) f true)

  abbrev pub insert_into :
      RmFile B → ℕ → ℕ → List ℕ → Option Context → ℕ → Result ((ℤ × ℕ) × Option Context × RmFile B)
  insert_into q f i buf ctx address = do
    let page_no = (B.frame q.buffer f).id.page_no
    let value = take q.hdr.record_size buf
    c ← log_insertion q ctx (insertion address q.table_name page_no i value)
    ok (place_record q f i buf c)

  -- `i` is the first free slot, or there is none.
  abbrev pub insert_first :
      RmFile B → ℕ → ℕ → List ℕ → Option Context → ℕ → Result ((ℤ × ℕ) × Option Context × RmFile B)
  insert_first q f i buf ctx address =
      if ltb i q.hdr.num_records_per_page then insert_into q f i buf ctx address else aborted

  -- The `WriteRecord` of the insertion is at `address`. The loop is that of `Bitmap::first_bit`.
  pub insert_record :
      RmFile B → List ℕ → Option Context → ℕ → Result ((ℤ × ℕ) × Option Context × RmFile B)
  insert_record file buf ctx address = do
    (f, q) ← fetch_free_page_handle file
    insert_first q f (first_bit false (page_at q f).bitmap q.hdr.num_records_per_page) buf ctx
        address

  -- The bit is set, or the assertion fails.
  pub delete_from : RmFile B → ℕ → ℤ → ℕ → RmPage → Result (RmFile B)
  delete_from q f page_no slot_no page =
      if is_set page.bitmap slot_no
      then ok (
          unpin
            (record (write_page q f (clear_slot q.hdr slot_no page)) {
              hdr = after_clear q.hdr page_no page;
            })
            f true)
      else aborted

  -- The transaction is read before the test whether there is one.
  pub delete_record : RmFile B → ℤ → ℕ → Option Context → Result (RmFile B)
  delete_record file page_no slot_no ctx = do
    (f, q) ← fetch_page_handle file page_no
    (elim ctx [
      | none ↦ aborted
      | some c ↦
          delete_from q f page_no slot_no (stamp c (B.frame q.buffer f).is_dirty (page_at q f))
    ])

  -- `delete_record` without a context, for recovery and abort.
  pub delete_record_at : RmFile B → ℤ → ℕ → Result (RmFile B)
  delete_record_at file page_no slot_no = do
    (f, q) ← fetch_page_handle file page_no
    delete_from q f page_no slot_no (page_at q f)

  abbrev pub update_in : RmFile B → ℕ → ℕ → List ℕ → Context → Result (RmFile B)
  update_in q f slot_no buf c =
      let page = stamp c (B.frame q.buffer f).is_dirty (page_at q f) in
      if is_set page.bitmap slot_no
      then ok (unpin (write_page q f (write_slot q.hdr slot_no buf page)) f true)
      else aborted

  pub update_record : RmFile B → ℤ → ℕ → List ℕ → Option Context → Result (RmFile B)
  update_record file page_no slot_no buf ctx = do
    (f, q) ← fetch_page_handle file page_no
    (elim ctx [ none ↦ aborted | some c ↦ update_in q f slot_no buf c ])

  -- The loop of `insert_record` at a given place: the first free page is fetched again until its
  -- number is not below the place's. `none` when the fuel is used up.
  pub seek_page : ℕ → RmFile B → ℕ → ℤ → Result (Option (RmFile B))
  seek_page ℕ.zero q f page_no = ok none
  seek_page (ℕ.suc n) q f page_no =
      if ltb_ℤ (B.frame q.buffer f).id.page_no page_no
      then (do (g, r) ← fetch_free_page_handle q; seek_page n r g page_no)
      else ok (some q)

  -- What `insert_record` at a given place does with its page, in frame `f`.
  pub insert_at : RmFile B → ℕ → ℕ → List ℕ → RmFile B
  insert_at q f slot_no buf =
      let page = page_at q f in
      unpin
        (if is_set page.bitmap slot_no
          then write_page q f (write_slot q.hdr slot_no buf page)
          else record (write_page q f (fill_slot q.hdr slot_no buf page)) {
            hdr = after_fill q.hdr page;
          })
        f true

  abbrev pub insert_found : ℤ → ℕ → List ℕ → Option (RmFile B) → Result (Option (RmFile B))
  insert_found page_no slot_no buf none = ok none
  insert_found page_no slot_no buf (some q) = do
    (f, r) ← fetch_page_handle q page_no
    ok (some (insert_at r f slot_no buf))

  pub insert_record_at : ℕ → RmFile B → ℤ → ℕ → List ℕ → Result (Option (RmFile B))
  insert_record_at fuel file page_no slot_no buf = do
    (f, q) ← fetch_free_page_handle file
    found ← seek_page fuel q f page_no
    insert_found page_no slot_no buf found
