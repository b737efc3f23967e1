-- ===== src/Transaction/Locks/Tests.antt =====
-- Two transactions on one table and its records: tests, and the theorems at inputs that meet their
-- hypotheses.
use cscc_db.Base.{
  ℕ, ◌≡◌, refl, ◌≢◌, ◌⊎◌, true, false, not, Option, none, some, List, [], ◌∷◌, ◌++◌, ◌==◌,
  if◌then◌else◌, Outcome, ok, throws, aborted, pos, Bool, ℤ,
}
use cscc_db.Transaction.{
  default, committed, LockDataId, LockDataId-discrete, Rid, table_id, record_id, Transaction,
  TransactionAbort,
}
use cscc_db.Transaction.Locks.{
  s, x, is, ix, Locks, queue, insert, push_request, enter, refused, lock_on_table, scan_shared,
  scan_exclusive, finish_shared, finish_exclusive, lock_shared_on_record, lock_exclusive_on_record,
  erase_requests, unlock, unlock_all, release_locks,
}
use cscc_db.Transaction.Locks.Grants.{TableInv, request, blocked}
use cscc_db.Transaction.Locks.Steps.{Ends}
use cscc_db.Transaction.Locks.Runs.{
  Call, on_table, shared, exclusive, ends, run_call, World, step, run, run-TableInv,
}
use cscc_db.Transaction.Locks.Release.{
  Follows, Covered, holds, release_locks_result, run_call-Follows,
}
use cscc_db.Transaction.Locks.Results.{lock_on_table_result}

program : Unit {0}
unfolding LockDataId-discrete insert push_request enter refused lock_on_table scan_shared
    scan_exclusive finish_shared finish_exclusive lock_shared_on_record lock_exclusive_on_record
    erase_requests unlock unlock_all release_locks run_call step run
program = tt

abbrev pub rid : ℕ → Rid
rid n = record { page_no = pos 1; slot_no = pos n }

abbrev pub fd : ℤ
fd = pos 7

abbrev pub fresh : ℕ → Transaction
fresh t = record { txn_id = t; state = default; lock_set = [] }

abbrev pub idle : Locks
idle = record { lock_table = λ _. none; txn = fresh 1 }

idle-TableInv : TableInv idle.lock_table
idle-TableInv = record { compatible_queues = λ _. tt; record_modes = λ _ _. tt }

abbrev world : World
world = record { table = λ _. none; txns = fresh }

-- Both read record 0; 2 cannot write it, and writes record 1; 1 commits, and 2 takes the table.
abbrev calls : List (ℕ × Call)
calls =
    (1, shared (rid 0) fd)
    ∷ (2, shared (rid 0) fd)
    ∷ (2, exclusive (rid 0) fd)
    ∷ (2, exclusive (rid 1) fd)
    ∷ (1, ends committed)
    ∷ (2, on_table x fd)
    ∷ []

abbrev world_of : Option World → World
world_of none = world
world_of (some w) = w

abbrev finished : World
finished = world_of (run world calls)

grants :
    queue finished.table (table_id fd)
    ≡ request 2 is ∷ request 2 ix ∷ request 2 ix ∷ request 2 x ∷ []
unfolding program
grants = refl

record_grants : queue finished.table (record_id fd (rid 0)) ≡ request 2 s ∷ []
unfolding program
record_grants = refl

run-TableInv_example : (w' : World) × (run world calls ≡ some w') × TableInv w'.table
run-TableInv_example = run-TableInv world calls idle-TableInv

abbrev pub after : Outcome TransactionAbort Locks (Bool × Locks) → Locks
after (ok (b, l)) = l
after (throws e l) = l
after aborted = idle

-- 1 holds an exclusive lock on record 0.
abbrev pub holding : Locks
holding = after (lock_exclusive_on_record idle (rid 0) fd)

exclusive-Follows : Ends (Follows idle) (run_call (exclusive (rid 0) fd) idle)
unfolding program
exclusive-Follows = run_call-Follows (exclusive (rid 0) fd) idle idle-TableInv (λ j h. cc)

pub holding-TableInv : TableInv holding.lock_table
unfolding program
holding-TableInv = exclusive-Follows.sound

pub holding-Covered : Covered holding
unfolding program
holding-Covered = exclusive-Follows.covered

run_call-Follows_example : Ends (Follows idle) (run_call (exclusive (rid 0) fd) idle)
unfolding program
run_call-Follows_example = run_call-Follows (exclusive (rid 0) fd) idle idle-TableInv (λ j h. cc)

release_locks_result_example :
    (holds 1 (queue (release_locks holding).lock_table (record_id fd (rid 0)))
      ≡ (if 1 == 1 then false else true))
    × ((release_locks holding).txn.lock_set ≡ [])
    × TableInv (release_locks holding).lock_table
unfolding program
release_locks_result_example =
    release_locks_result holding 1 (record_id fd (rid 0)) exclusive-Follows.sound
      exclusive-Follows.covered

lock_on_table_result_example :
    (granted : Bool) × (l' : Locks) × (lock_on_table s holding fd ≡ ok (granted, l'))
    × (granted ≡ not (blocked (request 1 s) (queue holding.lock_table (table_id fd))))
    × ((j : LockDataId)
        → ((j ≡ table_id fd)
            × (granted ≡ true)
            × (queue l'.lock_table j ≡ queue holding.lock_table j ++ request 1 s ∷ []))
          ⊎ (((j ≢ table_id fd) ⊎ (granted ≡ false))
              × (queue l'.lock_table j ≡ queue holding.lock_table j)))
unfolding program
lock_on_table_result_example = lock_on_table_result s holding fd (λ e. cc)
