-- ===== src/Transaction/Locks/Release.antt =====
-- lock_manager.cpp and `release_locks` of transaction_manager.cpp: the lock set names every object
-- on which the transaction has a request, so that releasing it leaves none.
use mathlib.Core.Logic.{ite}
use cscc_db.Base.{
  ℕ, ◌≡◌, refl, ◌≢◌, ◌⊎◌, Bool, true, false, ◌||◌, List, [], ◌∷◌, ◌++◌, ◌==◌, if◌then◌else◌, ◌∙◌,
  arith,
}
use cscc_db.Transaction.{LockDataId, LockDataId-discrete, LockDataType}
use cscc_db.Transaction.Locks.{
  LockMode, LockRequest, Locks, queue, touch, set_state, insert, push_request, s_or_x,
  erase_requests, unlock, unlock_all, release_locks,
}
use cscc_db.Transaction.Locks.Grants.{
  TableInv, push_request-TableInv, touch-TableInv, unlock-TableInv, queue-unlock, request, blocked,
}
use cscc_db.Transaction.Locks.Steps.{
  Ends, Closed, lock_on_table-Ends, lock_shared_on_record-Ends, lock_exclusive_on_record-Ends,
  unlock_all-Ends,
}
use cscc_db.Transaction.Locks.Runs.{Call, on_table, shared, exclusive, unlocks, ends, run_call}

-- Whether a transaction has a request in a queue.
abbrev pub holds : ℕ → List LockRequest → Bool
holds t [] = false
holds t (r ∷ q) = r.txn_id == t || holds t q

abbrev pub member : LockDataId → List LockDataId → Bool
member id [] = false
member id (j ∷ js) = ite (LockDataId-discrete id j) true (member id js)

-- The lock set covers the transaction's requests.
abbrev pub Covered : Locks → Type 0
Covered l =
    (j : LockDataId)
    → holds l.txn.txn_id (queue l.lock_table j) ≡ true
    → member j l.txn.lock_set ≡ true

-- What a call of a transaction leaves to the others, and of its own lock set.
pub record Follows (l0 l : Locks) : Type 0 where
  pub sound : TableInv l.lock_table
  pub same_txn : l.txn.txn_id ≡ l0.txn.txn_id
  pub others :
      (u : ℕ) (j : LockDataId)
      → u ≢ l0.txn.txn_id
      → holds u (queue l.lock_table j) ≡ holds u (queue l0.lock_table j)
  pub covered : Covered l

holds-append_one :
    (t : ℕ) (r : LockRequest) (q : List LockRequest)
    → holds t (q ++ r ∷ []) ≡ (holds t q || r.txn_id == t)
holds-append_one t r [] = ground arith
holds-append_one t r (a ∷ q) = ground (arith, holds-append_one t r q)

holds-erase_requests :
    (t u : ℕ) (q : List LockRequest)
    → holds u (erase_requests t q) ≡ (if u == t then false else holds u q)
unfolding erase_requests
holds-erase_requests t u [] = ground arith
holds-erase_requests t u (a ∷ q) = ground (arith, holds-erase_requests t u q)

member-insert :
    (id j : LockDataId) (js : List LockDataId)
    → member j (insert id js) ≡ ite (LockDataId-discrete j id) true (member j js)
unfolding insert
member-insert id j [] = ground arith
member-insert id j (k ∷ js) = ground (arith, member-insert id j js)

push_request-Follows :
    (l0 l : Locks) (id : LockDataId) (mode : LockMode)
    → Follows l0 l
    → blocked (request l.txn.txn_id mode) (queue l.lock_table id) ≡ false
    → (s_or_x mode ≡ true) ⊎ (id.type ≢ LockDataType.record_type)
    → Follows l0 (push_request l id mode)
unfolding push_request
push_request-Follows l0 l id mode f b k = record {
  sound = push_request-TableInv l id mode f.sound b k;
  same_txn = f.same_txn;
  others = λ u j ne. ground (
    arith,
    f.same_txn,
    f.others u j ne,
    holds-append_one u (request l.txn.txn_id mode) (queue l.lock_table j),
  );
  covered = λ j h. ground (
    arith,
    f.covered j,
    member-insert id j l.txn.lock_set,
    holds-append_one l.txn.txn_id (request l.txn.txn_id mode) (queue l.lock_table j),
  );
}

touch-Follows : (l0 l : Locks) (id : LockDataId) → Follows l0 l → Follows l0 (touch l id)
touch-Follows l0 l id f = record {
  sound = touch-TableInv l id f.sound;
  same_txn = f.same_txn;
  others = λ u j ne. ground (arith, f.others u j ne);
  covered = λ j h. ground (arith, f.covered j);
}

unlock-txn :
    (l : Locks) (id : LockDataId)
    → ((unlock l id).1.txn.txn_id ≡ l.txn.txn_id) × ((unlock l id).1.txn.lock_set ≡ l.txn.lock_set)
unfolding unlock
unlock-txn l id = (refl, refl)

unlock-Follows : (l0 l : Locks) (id : LockDataId) → Follows l0 l → Follows l0 (unlock l id).1
unlock-Follows l0 l id f = record {
  sound = unlock-TableInv l id f.sound;
  same_txn = (unlock-txn l id).0 ∙ f.same_txn;
  others = λ u j ne. ground (
    arith,
    f.same_txn,
    f.others u j ne,
    queue-unlock l id j,
    holds-erase_requests l.txn.txn_id u (queue l.lock_table j),
  );
  covered = λ j h. ground (
    arith,
    f.covered j,
    queue-unlock l id j,
    unlock-txn l id,
    holds-erase_requests l.txn.txn_id l.txn.txn_id (queue l.lock_table j),
  );
}

Follows-Closed : (l0 : Locks) → Closed (Follows l0)
Follows-Closed l0 = record {
  record_modes = λ l f. f.sound.record_modes;
  on_state = λ l st f. record {
    sound = f.sound;
    same_txn = f.same_txn;
    others = f.others;
    covered = f.covered;
  };
  on_touch = touch-Follows l0;
  on_push = push_request-Follows l0;
  on_unlock = unlock-Follows l0;
}

start-Follows : (l : Locks) → TableInv l.lock_table → Covered l → Follows l l
start-Follows l v c = record { sound = v; same_txn = refl; others = λ u j ne. refl; covered = c }

-- What is left of a transaction's requests after the loop over a list of locks.
holds-unlock_all :
    (l : Locks) (ids : List LockDataId) (j : LockDataId)
    → holds l.txn.txn_id (queue (unlock_all l ids).lock_table j)
      ≡ (if member j ids then false else holds l.txn.txn_id (queue l.lock_table j))
unfolding unlock_all
holds-unlock_all l [] j = refl
holds-unlock_all l (id ∷ ids) j = ground (
  arith,
  holds-unlock_all (unlock l id).1 ids j,
  unlock-txn l id,
  queue-unlock l id j,
  holds-erase_requests l.txn.txn_id l.txn.txn_id (queue l.lock_table j),
)

-- If the requests in the queues are compatible and the lock set covers the transaction's requests,
-- then after `release_locks` the transaction has no request in any queue and its lock set is empty,
-- the other transactions have requests where they had them, and the requests are still compatible.
pub release_locks_result :
    (l : Locks) (u : ℕ) (j : LockDataId)
    → TableInv l.lock_table
    → Covered l
    → (holds u (queue (release_locks l).lock_table j)
        ≡ (if u == l.txn.txn_id then false else holds u (queue l.lock_table j)))
      × ((release_locks l).txn.lock_set ≡ [])
      × TableInv (release_locks l).lock_table
unfolding release_locks
release_locks_result l u j v c =
    let f = unlock_all-Ends (Follows l) (Follows-Closed l) l l.txn.lock_set (start-Follows l v c) in
    (ground (arith, f.others u j, holds-unlock_all l l.txn.lock_set j, c j), refl, f.sound)

release_locks-Follows :
    (l : Locks) → TableInv l.lock_table → Covered l → Follows l (release_locks l)
unfolding release_locks
release_locks-Follows l v c =
    let f = unlock_all-Ends (Follows l) (Follows-Closed l) l l.txn.lock_set (start-Follows l v c) in
    record {
      sound = f.sound;
      same_txn = f.same_txn;
      others = f.others;
      covered = λ j h. ground (arith, f.same_txn, h, holds-unlock_all l l.txn.lock_set j, c j);
    }

-- If the requests in the queues are compatible and the caller's lock set covers its requests, every
-- call ends without a failed assertion in such a state, and changes neither the caller's identity
-- nor whether another transaction has a request in a queue.
pub run_call-Follows :
    (c : Call) (l : Locks) → TableInv l.lock_table → Covered l → Ends (Follows l) (run_call c l)
unfolding run_call
run_call-Follows (on_table mode fd) l v h =
    lock_on_table-Ends (Follows l) (Follows-Closed l) mode l fd (start-Follows l v h)
run_call-Follows (shared rid fd) l v h =
    lock_shared_on_record-Ends (Follows l) (Follows-Closed l) l rid fd (start-Follows l v h)
run_call-Follows (exclusive rid fd) l v h =
    lock_exclusive_on_record-Ends (Follows l) (Follows-Closed l) l rid fd (start-Follows l v h)
run_call-Follows (unlocks id) l v h = unlock-Follows l l id (start-Follows l v h)
run_call-Follows (ends st) l v h =
    let f = release_locks-Follows (set_state l st) v h in
    record { sound = f.sound; same_txn = f.same_txn; others = f.others; covered = f.covered }
