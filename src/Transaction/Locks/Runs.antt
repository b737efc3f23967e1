-- ===== src/Transaction/Locks/Runs.antt =====
-- Runs of the lock manager: the calls of several transactions, in any order.
use cscc_db.Base.{
  ℕ, ◌≡◌, refl, Bool, true, Option, none, some, List, [], ◌∷◌, arith, ok, throws, aborted, ℤ,
  update,
}
use cscc_db.Transaction.{TransactionState, LockDataId, Rid, Transaction}
use cscc_db.Transaction.Locks.{
  LockMode, LockTable, Locks, Result, set_state, lock_on_table, lock_shared_on_record,
  lock_exclusive_on_record, unlock, release_locks,
}
use cscc_db.Transaction.Locks.Steps.{
  Ends, Closed, lock_on_table-Ends, lock_shared_on_record-Ends, lock_exclusive_on_record-Ends,
  unlock_all-Ends,
}
use cscc_db.Transaction.Locks.Grants.{
  unlock-TableInv, TableInv, push_request-TableInv, touch-TableInv,
}

pub data Call : Type 0 where
  on_table : LockMode → ℤ → Call
  shared exclusive : Rid → ℤ → Call
  unlocks : LockDataId → Call
  -- The state that `commit` and `abort` set before they release the locks.
  ends : TransactionState → Call

unfoldable pub run_call : Call → Locks → Result (Bool × Locks)
run_call (on_table mode fd) l = lock_on_table mode l fd
run_call (shared rid fd) l = lock_shared_on_record l rid fd
run_call (exclusive rid fd) l = lock_exclusive_on_record l rid fd
run_call (unlocks id) l = ok (unlock l id)
run_call (ends st) l = ok (true, release_locks (set_state l st))

-- The lock table and all transactions, by their identities.
pub record World : Type 0 where
  pub table : LockTable
  pub txns : ℕ → Transaction

abbrev pub settle : World → ℕ → Locks → World
settle w t l = record { table = l.lock_table; txns = update w.txns t l.txn }

-- `none` where an assertion fails.
unfoldable pub step : World → ℕ × Call → Option World
step w (t, call) = elim (run_call call (record { lock_table = w.table; txn = w.txns t })) [
  | ok (b, l) ↦ some (settle w t l)
  | throws e l ↦ some (settle w t l)
  | aborted ↦ none
]

unfoldable pub run : World → List (ℕ × Call) → Option World
run w [] = some w
run w (c ∷ cs) = elim (step w c) [ none ↦ none | some w' ↦ run w' cs ]

abbrev Sound : Locks → Type 0
Sound l = TableInv l.lock_table

Sound-Closed : Closed Sound
Sound-Closed = record {
  record_modes = λ l v. v.record_modes;
  on_state = λ l st v. v;
  on_touch = touch-TableInv;
  on_push = push_request-TableInv;
  on_unlock = unlock-TableInv;
}

run_call-Ends : (c : Call) (l : Locks) → Sound l → Ends Sound (run_call c l)
unfolding run_call release_locks
run_call-Ends (on_table mode fd) l v = lock_on_table-Ends Sound Sound-Closed mode l fd v
run_call-Ends (shared rid fd) l v = lock_shared_on_record-Ends Sound Sound-Closed l rid fd v
run_call-Ends (exclusive rid fd) l v = lock_exclusive_on_record-Ends Sound Sound-Closed l rid fd v
run_call-Ends (unlocks id) l v = unlock-TableInv l id v
run_call-Ends (ends st) l v = unlock_all-Ends Sound Sound-Closed (set_state l st) l.txn.lock_set v

step-TableInv :
    (w : World) (c : ℕ × Call)
    → TableInv w.table
    → (w' : World) × (step w c ≡ some w') × TableInv w'.table
unfolding step
step-TableInv w (t, c) v =
    go _ (run_call-Ends c (record { lock_table = w.table; txn = w.txns t }) v) refl
  where
    go :
        (m : Result (Bool × Locks))
        → Ends Sound m
        → run_call c (record { lock_table = w.table; txn = w.txns t }) ≡ m
        → (w' : World) × (step w (t, c) ≡ some w') × TableInv w'.table
    go (ok (b, l)) i e = (settle w t l, rw (step, e), i)
    go (throws why l) i e = (settle w t l, rw (step, e), i)
    go aborted i e = ground arith

-- Whatever the transactions call, in any order, on a table whose requests are compatible and whose
-- record queues hold S and X requests only, no assertion of the lock manager fails, and the same
-- holds afterwards: no two requests of different transactions in one queue are incompatible.
pub run-TableInv :
    (w : World) (calls : List (ℕ × Call))
    → TableInv w.table
    → (w' : World) × (run w calls ≡ some w') × TableInv w'.table
unfolding run
run-TableInv w [] v = (w, refl, v)
run-TableInv w (c ∷ cs) v =
    let (w1, e1, v1) = step-TableInv w c v in
    let (w2, e2, v2) = run-TableInv w1 cs v1 in (w2, rw (run, e1, e2), v2)
