-- ===== src/Transaction/Locks.antt =====
-- transaction/concurrency/lock_manager.h and lock_manager.cpp: the class `LockManager`, with no-wait
-- two-phase locking; and `release_locks` of transaction/transaction_manager.cpp. A call is one step:
-- `latch_` is not modelled. An exception is `TransactionAbortException`.
pub mod Grants
pub mod Steps
pub mod Release
pub mod Runs
pub mod Results
pub mod Tests
use mathlib.Core.Logic.{ite}
use cscc_db.Base.{
  ℕ, Bool, true, false, not, ◌&&◌, ◌||◌, Option, none, some, List, [], ◌∷◌, ◌++◌, ◌==◌,
  if◌then◌else◌, Outcome, ok, throws, ◌>>=◌, ◌>>◌, assert_that, ℤ,
}
use cscc_db.Transaction.{
  TransactionState, default, growing, shrinking, committed, aborted_state, LockDataId,
  LockDataId-discrete, Rid, table_id, record_id, Transaction, TransactionAbort, lock_on_shrinking,
}

-- `enum class LockMode`.
pub data LockMode : Type 0 where
  s x is ix six : LockMode

-- `class LockRequest`; `granted_` is never read.
pub record LockRequest : Type 0 where
  pub txn_id : ℕ
  pub lock_mode : LockMode

-- `lock_table_`: the request queue of each locked object.
abbrev pub LockTable : Type 0
LockTable = LockDataId → Option (List LockRequest)

-- The lock table and the calling transaction.
pub record Locks : Type 0 where
  pub lock_table : LockTable
  pub txn : Transaction

abbrev pub Result : Type 0 → Type 0
Result A = Outcome TransactionAbort Locks A

abbrev pub requests : Option (List LockRequest) → List LockRequest
requests none = []
requests (some q) = q

abbrev pub queue : LockTable → LockDataId → List LockRequest
queue t id = requests (t id)

abbrev pub put : LockTable → LockDataId → Option (List LockRequest) → LockTable
put t id q j = ite (LockDataId-discrete j id) q (t j)

-- `lock_table_[id]`, which makes an empty queue where there is none.
abbrev pub touch : Locks → LockDataId → Locks
touch l id = record l { lock_table = put l.lock_table id (some (queue l.lock_table id)) }

-- `std::unordered_set::insert`.
unfoldable pub insert : LockDataId → List LockDataId → List LockDataId
insert id [] = id ∷ []
insert id (j ∷ js) = ite (LockDataId-discrete id j) (j ∷ js) (j ∷ insert id js)

abbrev pub set_state : Locks → TransactionState → Locks
set_state l st = record l { txn = record l.txn { state = st } }

-- `request_queue_.push_back({txn_id, mode}); lock_set->insert(id)`.
unfoldable pub push_request : Locks → LockDataId → LockMode → Locks
push_request l id mode = record {
  lock_table =
      put l.lock_table id
        (some (queue l.lock_table id ++ record { txn_id = l.txn.txn_id; lock_mode = mode } ∷ []));
  txn = record l.txn { lock_set = insert id l.txn.lock_set };
}

-- How each call begins: no lock in the shrinking phase.
unfoldable pub enter : Locks → Result Locks
enter l = elim l.txn.state [
  | shrinking ↦
      throws (record { txn_id = l.txn.txn_id; reason = lock_on_shrinking })
        (set_state l aborted_state)
  | _ ↦ ok (set_state l growing)
]

-- The modes of another's request that refuse a request on a table.
abbrev pub refuses : LockMode → LockMode → Bool
refuses is x = true
refuses is _ = false
refuses ix s = true
refuses ix six = true
refuses ix x = true
refuses ix _ = false
refuses s ix = true
refuses s six = true
refuses s x = true
refuses s _ = false
refuses six ix = true
refuses six s = true
refuses six six = true
refuses six x = true
refuses six _ = false
refuses x _ = true

-- The loop over a table's queue: whether some request ends the call with `false`.
unfoldable pub refused : LockMode → ℕ → List LockRequest → Bool
refused mode t [] = false
refused mode t (lock ∷ q) =
    let rest = refused mode t q in
    if refuses mode lock.lock_mode && not (lock.txn_id == t) then true else rest

-- What the five calls on a table share.
unfoldable pub lock_on_table : LockMode → Locks → ℤ → Result (Bool × Locks)
lock_on_table mode l fd = do
  entered ← enter l
  let id = table_id fd
  let touched = touch entered id
  ok (
      if refused mode l.txn.txn_id (queue touched.lock_table id)
      then (false, touched)
      else (true, push_request touched id mode))

abbrev pub lock_shared_on_table : Locks → ℤ → Result (Bool × Locks)
lock_shared_on_table = lock_on_table s

abbrev pub lock_exclusive_on_table : Locks → ℤ → Result (Bool × Locks)
lock_exclusive_on_table = lock_on_table x

abbrev pub lock_is_on_table : Locks → ℤ → Result (Bool × Locks)
lock_is_on_table = lock_on_table is

abbrev pub lock_ix_on_table : Locks → ℤ → Result (Bool × Locks)
lock_ix_on_table = lock_on_table ix

abbrev pub lock_six_on_table : Locks → ℤ → Result (Bool × Locks)
lock_six_on_table = lock_on_table six

abbrev pub s_or_x : LockMode → Bool
s_or_x s = true
s_or_x x = true
s_or_x _ = false

abbrev pub is_x : LockMode → Bool
is_x x = true
is_x _ = false

-- The loops over a record's queue: `some b` where the loop ends the call with `b`.
pub scan_shared : ℕ → List LockRequest → Result (Option Bool)
scan_shared t [] = ok none
scan_shared t (lock ∷ q) =
    let rest = scan_shared t q in
    do
      assert_that (s_or_x lock.lock_mode)
      if is_x lock.lock_mode then ok (some (lock.txn_id == t)) else rest

pub scan_exclusive : ℕ → List LockRequest → Result (Option Bool)
scan_exclusive t [] = ok none
scan_exclusive t (lock ∷ q) =
    let rest = scan_exclusive t q in
    do assert_that (s_or_x lock.lock_mode); if lock.txn_id == t then rest else ok (some false)

-- The rest of the two calls on a record, by whether the table's intention lock was granted.
pub finish_shared : LockDataId → Bool → Locks → Result (Bool × Locks)
finish_shared id false l = ok (false, l)
finish_shared id true l = do
  verdict ← scan_shared l.txn.txn_id (queue l.lock_table id)
  ok (elim verdict [ none ↦ (true, push_request l id s) | some b ↦ (b, l) ])

pub finish_exclusive : LockDataId → Bool → Locks → Result (Bool × Locks)
finish_exclusive id false l = ok (false, l)
finish_exclusive id true l = do
  verdict ← scan_exclusive l.txn.txn_id (queue l.lock_table id)
  ok (elim verdict [ none ↦ (true, push_request l id x) | some b ↦ (b, l) ])

pub lock_shared_on_record : Locks → Rid → ℤ → Result (Bool × Locks)
lock_shared_on_record l rid fd = elim l.txn.state [
  | aborted_state ↦ ok (false, l)
  | _ ↦ do
    entered ← enter l
    let id = record_id fd rid
    (intended, l') ← lock_is_on_table (touch entered id) fd
    finish_shared id intended l'
]

pub lock_exclusive_on_record : Locks → Rid → ℤ → Result (Bool × Locks)
lock_exclusive_on_record l rid fd = do
  entered ← enter l
  let id = record_id fd rid
  (intended, l') ← lock_ix_on_table (touch entered id) fd
  finish_exclusive id intended l'

-- The loop of `unlock`.
pub erase_requests : ℕ → List LockRequest → List LockRequest
erase_requests t [] = []
erase_requests t (lock ∷ q) =
    let rest = erase_requests t q in if lock.txn_id == t then rest else lock ∷ rest

abbrev pub after_unlock : TransactionState → TransactionState
after_unlock growing = shrinking
after_unlock st = st

pub unlock : Locks → LockDataId → Bool × Locks
unlock l id =
    let rest = erase_requests l.txn.txn_id (queue l.lock_table id) in
    (
      true,
      record {
        lock_table = put l.lock_table id (elim rest [ [] ↦ none | lock ∷ q ↦ some (lock ∷ q) ]);
        txn = record l.txn { state = after_unlock l.txn.state };
      },
    )

-- The loop of `release_locks`, over the lock set.
pub unlock_all : Locks → List LockDataId → Locks
unlock_all l [] = l
unlock_all l (id ∷ ids) = unlock_all (unlock l id).1 ids

pub release_locks : Locks → Locks
release_locks l =
    let l' = unlock_all l l.txn.lock_set in record l' { txn = record l'.txn { lock_set = [] } }
