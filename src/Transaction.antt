-- ===== src/Transaction.antt =====
-- transaction/txn_defs.h and transaction.h: what a transaction and a lock are named by, and the
-- part of `Transaction` that the lock manager reads and writes.
pub mod Locks
pub mod Commit
use native.Mathlib.Decide.{ℕ_discrete}
use cscc_db.Base.{ℕ, ◌≡◌, Bool, List, ℤ, minus_one}

-- `enum class TransactionState`.
pub data TransactionState : Type 0 where
  default growing shrinking committed aborted_state : TransactionState

-- `enum class LockDataType`.
pub data LockDataType : Type 0 where
  table record_type : LockDataType

-- `struct Rid`.
pub record Rid : Type 0 where
  pub page_no : ℤ
  pub slot_no : ℤ

-- `class LockDataId`.
pub record LockDataId : Type 0 where
  pub fd : ℤ
  pub rid : Rid
  pub type : LockDataType

ℤ-discrete : Discrete ℤ
ℤ-discrete = hlevel ℕ_discrete

LockDataType-discrete : Discrete LockDataType
LockDataType-discrete = hlevel

Rid-discrete : Discrete Rid
unfolding ℤ-discrete ℕ_discrete
Rid-discrete = hlevel ℤ-discrete

-- `LockDataId::operator==`.
unfoldable pub LockDataId-discrete : Discrete LockDataId
unfolding ℤ-discrete Rid-discrete LockDataType-discrete ℕ_discrete
LockDataId-discrete = hlevel (ℤ-discrete, Rid-discrete, LockDataType-discrete)

-- `LockDataId(fd, LockDataType::TABLE)`.
abbrev pub table_id : ℤ → LockDataId
table_id fd = record {
  fd = fd;
  rid = record { page_no = minus_one; slot_no = minus_one };
  type = table;
}

-- `LockDataId(fd, rid, LockDataType::RECORD)`.
abbrev pub record_id : ℤ → Rid → LockDataId
record_id fd rid = record { fd = fd; rid = rid; type = record_type }

-- `class Transaction`: its identity, its state and its lock set.
pub record Transaction : Type 0 where
  pub txn_id : ℕ
  pub state : TransactionState
  pub lock_set : List LockDataId

-- `enum class AbortReason`.
pub data AbortReason : Type 0 where
  lock_on_shrinking upgrade_conflict deadlock_prevention get_lock_failed : AbortReason

-- `class TransactionAbortException`.
pub record TransactionAbort : Type 0 where
  pub txn_id : ℕ
  pub reason : AbortReason
