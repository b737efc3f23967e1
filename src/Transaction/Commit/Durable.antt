-- ===== src/Transaction/Commit/Durable.antt =====
-- A commit gives the locks up and brings the log to the disk.
use cscc_db.Base.{ℕ, ◌+◌, ◌≡◌, false, List, [], ◌++◌, take, Bool, true, length, some}
use cscc_db.Transaction.{LockDataId, committed}
use cscc_db.Transaction.Locks.{queue, set_state, release_locks}
use cscc_db.Transaction.Locks.Grants.{TableInv}
use cscc_db.Transaction.Locks.Release.{holds}
use cscc_db.Log.Memory.{Memory, bytes_at, joined_bytes}
use cscc_db.Log.Records.{
  LogType, LogRecord, log_header_size, plain_log_record, header_fields, serialize_header,
}
use cscc_db.Log.Manager.{LogManager, LogOs}
use cscc_db.Transaction.Commit.{Session, commit}

-- The words of a record's header, one after the other.
unfoldable pub header_bytes : LogRecord → List ℕ
header_bytes r = joined_bytes (header_fields r)

abbrev pub commit_record : Session → LogRecord
commit_record r = plain_log_record LogType.commit r.log.global_lsn r.so_far_lsn r.locks.txn.txn_id

-- The log manager with the commit record in its buffer.
abbrev logged : Session → LogManager
logged r = record r.log {
  global_lsn = r.log.global_lsn + 1;
  buffer = serialize_header r.log.buffer r.log.offset (commit_record r);
  offset = r.log.offset + log_header_size;
  buffer_lsn = r.log.global_lsn;
  latched = false;
}

abbrev released : Session → Session
released r = record r { locks = release_locks (set_state r.locks committed); write_set = [] }

-- What the buffer holds with the commit record: what it held, and the record.
abbrev pub to_write : Session → List ℕ
to_write r = bytes_at r.log.buffer 0 r.log.offset ++ header_bytes (commit_record r)

abbrev ready : Session → Session
ready r = record (released r) { so_far_lsn = r.log.global_lsn }

-- What the operating system must do for `write_log` to return: write all bytes, and bring them to the
-- disk.
abbrev pub IsKept : LogOs → List ℕ → List ℕ → Type 0
IsKept os file bytes =
    (os.write file bytes ≡ some (length bytes)) × (os.fsync (file ++ bytes) ≡ true)

-- What a commit has done with the locks and the sets, whether or not it returns.
pub record IsReleased (r q : Session) (j : LockDataId) : Type 0 where
  pub gone : holds r.locks.txn.txn_id (queue q.locks.lock_table j) ≡ false
  pub lock_set : q.locks.txn.lock_set ≡ []
  pub sound : TableInv q.locks.lock_table
  pub write_set : q.write_set ≡ []
  pub so_far_lsn : q.so_far_lsn ≡ r.log.global_lsn
  pub latched : q.log.latched ≡ false

-- What it leaves of the log when it returns.
pub record IsDurable (r q : Session) : Type 0 where
  pub log_file : q.log.log_file ≡ r.log.log_file ++ to_write r
  pub offset : q.log.offset ≡ 0
  pub persist_lsn : q.log.persist_lsn ≡ r.log.global_lsn

-- And when `write_log` throws: the file has grown by the first `n` bytes, for some `n`.
pub record IsUnwritten (r q : Session) : Type 0 where
  pub log_file : (n : ℕ) × (q.log.log_file ≡ r.log.log_file ++ take n (to_write r))
  pub offset : q.log.offset ≡ r.log.offset + log_header_size
  pub persist_lsn : q.log.persist_lsn ≡ r.log.persist_lsn

abbrev left_log : Session → List ℕ × Bool → LogManager
left_log r (file, true) = record (logged r) {
  log_file = file;
  persist_lsn = r.log.global_lsn;
  offset = 0;
}
left_log r (file, false) = record (logged r) { log_file = file }
