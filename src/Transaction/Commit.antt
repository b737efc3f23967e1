-- ===== src/Transaction/Commit.antt =====
-- transaction/transaction_manager.cpp: `commit`, of a running transaction. The page sets of the index,
-- which are emptied too, are not modelled.
pub mod Durable
pub mod Tests
use cscc_db.Base.{ℕ, Option, none, some, List, [], Outcome, ok, throws, aborted}
use cscc_db.Transaction.{committed}
use cscc_db.Transaction.Locks.{Locks, set_state, release_locks}
use cscc_db.Log.Manager.{
  LogManager, LogTxn, WriteRecord, gen_log_commit, flush_log_to_disk, LogStop, Call,
}

-- A running transaction, which is `locks.txn`, with the lock table and the log.
pub record Session : Type 0 where
  pub locks : Locks
  pub log : LogManager
  pub so_far_lsn : ℕ
  pub write_set : List WriteRecord

abbrev pub log_txn : Session → LogTxn
log_txn r = record { txn_id = r.locks.txn.txn_id; so_far_lsn = r.so_far_lsn }

-- Why a commit does not return: the log manager's call does not.
abbrev pub Result : Type 0 → Type 0
Result A = Outcome LogStop Session A

-- The end of a call of the log manager.
abbrev pub ended_with : Session → Call LogManager → Result Session
ended_with r aborted = aborted
ended_with r (throws why log) = throws why (record r { log = log })
ended_with r (ok log) = ok (record r { log = log })

-- After the locks are released and the sets are empty: the log.
abbrev pub flushed : Session → Call (ℕ × LogManager × LogTxn) → Result Session
flushed r aborted = aborted
flushed r (throws why log) = throws why (record r { log = log })
flushed r (ok (lsn, log, txn)) =
    ended_with (record r { so_far_lsn = txn.so_far_lsn }) (flush_log_to_disk log)

-- Releasing locks does not change the transaction's identity or its last log record.
unfoldable pub commit : Session → Result Session
commit r =
    let released = record r {
      locks = release_locks (set_state r.locks committed);
      write_set = [];
    } in
    flushed released (gen_log_commit r.log (log_txn r))
