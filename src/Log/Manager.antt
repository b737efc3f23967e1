-- ===== src/Log/Manager.antt =====
-- recovery/log_manager.h and log_manager.cpp: the class `LogManager`, and `write_log` of
-- storage/disk_manager.cpp. `latch_` is a mutex that a thread must not lock twice: `blocked` is a call
-- that waits for the latch that it holds itself, or that another holds. The log file is the list of
-- its bytes; it is open.
use cscc_db.Base.{
  ℕ, ◌+◌, ◌≤◌, ◌<◌, ◌≡◌, refl, Bool, true, false, Option, none, some, List, ◌++◌, ltb,
  if◌then◌else◌, update as put_at, arith, Outcome, ok, throws, ◌>>=◌, take, length, ◌==◌, ◌&&◌, [],
}
use cscc_db.Log.Memory.{Memory, bytes_at}
use cscc_db.Log.Records.{
  LogType, LogRecord, RidWords, TupleLogRecord, UpdateLogRecord, plain_log_record,
  insert_log_record, delete_log_record, update_log_record, serialize_header, serialize_tuple,
  serialize_update,
}

-- LOG_BUFFER_SIZE.
abbrev pub log_buffer_size : ℕ
log_buffer_size = 4194304

-- A log record of any class.
pub data Log : Type 0 where
  plain : LogRecord → Log
  tuple : TupleLogRecord → Log
  updates : UpdateLogRecord → Log

abbrev pub header_of : Log → LogRecord
header_of (plain r) = r
header_of (tuple r) = r.header
header_of (updates r) = r.header

abbrev pub with_header : Log → LogRecord → Log
with_header (plain r) h = plain h
with_header (tuple r) h = tuple (record r { header = h })
with_header (updates r) h = updates (record r { header = h })

-- The virtual method `serialize`.
abbrev pub serialize : Memory → ℕ → Log → Memory
serialize m at (plain r) = serialize_header m at r
serialize m at (tuple r) = serialize_tuple m at r
serialize m at (updates r) = serialize_update m at r

-- `setCLR` on a new record of the three types: the compensation of a deletion is an insertion.
abbrev pub clr_of : LogType → Option LogType
clr_of LogType.update = some LogType.clr_update
clr_of LogType.delete = some LogType.clr_insert
clr_of LogType.insert = some LogType.clr_delete
clr_of _ = none

-- What the operating system does with the log file and bytes to be appended: the number of bytes that
-- `write` returns, `none` for -1, and whether `fsync` of the file then succeeds.
pub record LogOs : Type 0 where
  pub write : List ℕ → List ℕ → Option ℕ
  pub fsync : List ℕ → Bool

pub record LogManager : Type 0 where
  pub os : LogOs
  pub global_lsn : ℕ
  pub buffer : Memory
  pub offset : ℕ
  pub buffer_lsn : ℕ
  pub persist_lsn : ℕ
  pub latched : Bool
  pub log_file : List ℕ
  pub lsn_prevlsn_table : ℕ → Option ℕ
  pub write_rec_to_lsn_table : ℕ → Option ℕ

-- What the log manager reads and writes of a `Transaction`.
pub record LogTxn : Type 0 where
  pub txn_id : ℕ
  pub so_far_lsn : ℕ

pub data WType : Type 0 where
  insert_tuple delete_tuple update_tuple : WType

-- `class WriteRecord`, with its address.
pub record WriteRecord : Type 0 where
  pub address : ℕ
  pub wtype : WType
  pub tab_name : List ℕ
  pub rid : RidWords
  pub old_record : List ℕ
  pub new_record : List ℕ

-- `LogBuffer::is_full`.
abbrev pub is_full : LogManager → ℕ → Bool
is_full l append_size = ltb log_buffer_size (l.offset + append_size)

-- Why a call does not return: it waits for the latch, or `write_log` throws.
pub data LogStop : Type 0 where
  blocked write_error : LogStop

abbrev pub Call : Type 0 → Type 0
Call A = Outcome LogStop LogManager A

abbrev pub appended : Option ℕ → List ℕ → List ℕ
appended none bytes = []
appended (some n) bytes = take n bytes

abbrev pub is_whole : Option ℕ → List ℕ → Bool
is_whole none bytes = false
is_whole (some n) bytes = n == length bytes

-- The file then, and whether the call returns; the exceptions for `fsync` and for a short write are
-- not told apart.
unfoldable pub write_log : LogOs → List ℕ → List ℕ → List ℕ × Bool
write_log os file bytes =
    let wrote = os.write file bytes in
    let file' = file ++ appended wrote bytes in (file', os.fsync file' && is_whole wrote bytes)

abbrev pub flush_done : LogManager → List ℕ × Bool → Call LogManager
flush_done l (file, true) =
    ok (record l { log_file = file; persist_lsn = l.buffer_lsn; offset = 0 })
flush_done l (file, false) = throws write_error (record l { log_file = file })

unfoldable pub flush_log_to_disk : LogManager → Call LogManager
flush_log_to_disk l =
    let done = flush_done l (write_log l.os l.log_file (bytes_at l.buffer 0 l.offset)) in
    if l.latched then throws blocked l else done

abbrev append_log : LogManager → Log → LogManager
append_log l log = record l {
  buffer = serialize l.buffer l.offset log;
  offset = l.offset + (header_of log).log_tot_len;
  buffer_lsn = (header_of log).lsn;
}

unfoldable pub add_log_to_buffer : LogManager → Log → Call LogManager
add_log_to_buffer l log =
    if is_full l (header_of log).log_tot_len
    then (do l' ← flush_log_to_disk l; ok (append_log l' log))
    else ok (append_log l log)

-- `latch_.lock(); log->lsn_ = alloc_lsn(); …; add_log_to_buffer(log); latch_.unlock();`
unfoldable pub log_latched : LogManager → Log → Call (ℕ × LogManager)
log_latched l log =
    let lsn = l.global_lsn in
    let locked = record l { latched = true; global_lsn = lsn + 1 } in
    let added = add_log_to_buffer locked (with_header log (record (header_of log) { lsn = lsn })) in
    if l.latched
    then throws blocked l
    else (added >>= λ l'. ok (lsn, record l' { latched = false }))

abbrev pub log_by_type : WType → LogTxn → WriteRecord → Log
log_by_type insert_tuple txn w = tuple (insert_log_record txn.txn_id w.old_record w.rid w.tab_name)
log_by_type delete_tuple txn w = tuple (delete_log_record txn.txn_id w.old_record w.rid w.tab_name)
log_by_type update_tuple txn w =
    updates (update_log_record txn.txn_id w.old_record w.new_record w.rid w.tab_name)

abbrev pub log_of : LogTxn → WriteRecord → Log
log_of txn w = log_by_type w.wtype txn w

-- The two tables are filled under the latch, before the record is added; `insert` keeps an entry that
-- is there.
abbrev insert_key : (ℕ → Option ℕ) → ℕ → ℕ → ℕ → Option ℕ
insert_key table k v = elim (table k) [ none ↦ put_at table k (some v) | some old ↦ table ]

abbrev pub linked : LogTxn → WriteRecord → Log
linked txn w =
    let log = log_of txn w in with_header log (record (header_of log) { prev_lsn = txn.so_far_lsn })

abbrev pub noted : LogManager → LogTxn → WriteRecord → LogManager
noted l txn w = record l {
  lsn_prevlsn_table = insert_key l.lsn_prevlsn_table l.global_lsn txn.so_far_lsn;
  write_rec_to_lsn_table = insert_key l.write_rec_to_lsn_table w.address l.global_lsn;
}

-- The record is in the buffer: its number is the transaction's last.
abbrev pub told : LogTxn → ℕ × LogManager → Call (ℕ × LogManager × LogTxn)
told txn (lsn, l) = ok (lsn, l, record txn { so_far_lsn = lsn })

unfoldable pub gen_log_from_write_set :
    LogManager → LogTxn → WriteRecord → Call (ℕ × LogManager × LogTxn)
gen_log_from_write_set l txn w = log_latched (noted l txn w) (linked txn w) >>= told txn

-- `gen_log_bein`, `gen_log_commit` and `gen_log_abort`, by the type of the record.
unfoldable pub gen_log_plain : LogType → LogManager → LogTxn → Call (ℕ × LogManager × LogTxn)
gen_log_plain type l txn =
    log_latched l (plain (plain_log_record type l.global_lsn txn.so_far_lsn txn.txn_id))
    >>= told txn

abbrev pub gen_log_begin : LogManager → LogTxn → Call (ℕ × LogManager × LogTxn)
gen_log_begin = gen_log_plain LogType.begin

abbrev pub gen_log_commit : LogManager → LogTxn → Call (ℕ × LogManager × LogTxn)
gen_log_commit = gen_log_plain LogType.commit

abbrev pub gen_log_abort : LogManager → LogTxn → Call (ℕ × LogManager × LogTxn)
gen_log_abort = gen_log_plain LogType.abort

room : (n : ℕ) → n ≤ log_buffer_size → ltb log_buffer_size n ≡ false
room n h = ground arith

no_room : (n : ℕ) → log_buffer_size < n → ltb log_buffer_size n ≡ true
no_room n h = ground arith

-- A record that the buffer has room for takes the next number, and its bytes follow what the buffer
-- holds.
pub log_latched_room :
    (l : LogManager) (log : Log)
    → l.latched ≡ false
    → l.offset + (header_of log).log_tot_len ≤ log_buffer_size
    → log_latched l log
      ≡ ok (
        l.global_lsn,
        record l {
          global_lsn = l.global_lsn + 1;
          buffer =
              serialize l.buffer l.offset
                (with_header log (record (header_of log) { lsn = l.global_lsn }));
          offset = l.offset + (header_of log).log_tot_len;
          buffer_lsn = l.global_lsn;
          latched = false;
        },
      )
unfolding log_latched add_log_to_buffer
log_latched_room l (plain r) free h = rw (free, room (l.offset + r.log_tot_len) h)
log_latched_room l (tuple r) free h = rw (free, room (l.offset + r.header.log_tot_len) h)
log_latched_room l (updates r) free h = rw (free, room (l.offset + r.header.log_tot_len) h)

-- A call that waits for the latch, in some state.
abbrev pub Blocks : {A : Type 0} → Call A → Type 0
Blocks call = (l : LogManager) × (call ≡ throws blocked l)

abbrev locked_for : LogManager → LogManager
locked_for l = record l { latched = true; global_lsn = l.global_lsn + 1 }

log_latched_waits :
    (l : LogManager) (log : Log)
    → l.latched ≡ false
    → log_buffer_size < l.offset + (header_of log).log_tot_len
    → log_latched l log ≡ throws blocked (locked_for l)
unfolding log_latched add_log_to_buffer flush_log_to_disk
log_latched_waits l (plain r) free h = rw (free, no_room (l.offset + r.log_tot_len) h) refl
log_latched_waits l (tuple r) free h = rw (free, no_room (l.offset + r.header.log_tot_len) h) refl
log_latched_waits l (updates r) free h = rw (free, no_room (l.offset + r.header.log_tot_len) h) refl

pub log_latched_full :
    (l : LogManager) (log : Log)
    → l.latched ≡ false
    → log_buffer_size < l.offset + (header_of log).log_tot_len
    → Blocks (log_latched l log)
log_latched_full l log free h = (locked_for l, log_latched_waits l log free h)

pub header_of-with_header : (log : Log) (h : LogRecord) → header_of (with_header log h) ≡ h
header_of-with_header (plain r) h = refl
header_of-with_header (tuple r) h = refl
header_of-with_header (updates r) h = refl
