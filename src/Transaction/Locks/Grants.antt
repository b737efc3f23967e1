-- ===== src/Transaction/Locks/Grants.antt =====
-- lock_manager.cpp: the compatibility of the requests in a queue, which every call keeps.
use cscc_db.Base.{
  ℕ, ◌≡◌, refl, ◌≢◌, ◌⊎◌, Bool, true, false, not, ◌&&◌, ◌||◌, List, [], ◌∷◌, ◌++◌, ◌==◌, arith, ok,
  throws, ℤ,
}
use cscc_db.Transaction.{
  TransactionState, shrinking, LockDataId, Rid, record_id, LockDataType, AbortReason,
}
use cscc_db.Transaction.Locks.{
  LockMode, s, x, is, ix, six, LockRequest, LockTable, Locks, queue, touch, set_state, push_request,
  enter, refuses, refused, s_or_x, erase_requests, unlock,
}

-- The compatibility matrix of multiple granularity locking.
abbrev pub compatible : LockMode → LockMode → Bool
compatible is x = false
compatible is _ = true
compatible ix is = true
compatible ix ix = true
compatible ix _ = false
compatible s is = true
compatible s s = true
compatible s _ = false
compatible six is = true
compatible six _ = false
compatible x _ = false

-- Two transactions' requests that must not both stand.
abbrev pub clash : LockRequest → LockRequest → Bool
clash r q = not (r.txn_id == q.txn_id) && not (compatible r.lock_mode q.lock_mode)

abbrev pub blocked : LockRequest → List LockRequest → Bool
blocked r [] = false
blocked r (q ∷ qs) = clash r q || blocked r qs

-- No two requests of the queue clash.
abbrev pub IsCompatible : List LockRequest → Type 0
IsCompatible [] = Unit {0}
IsCompatible (r ∷ q) = (blocked r q ≡ false) × IsCompatible q

-- What the assertions on a record's queue demand.
abbrev pub ForRecord : List LockRequest → Type 0
ForRecord [] = Unit {0}
ForRecord (r ∷ q) = (s_or_x r.lock_mode ≡ true) × ForRecord q

pub record TableInv (t : LockTable) : Type 0 where
  pub compatible_queues : (id : LockDataId) → IsCompatible (queue t id)
  pub record_modes : (fd : ℤ) (rid : Rid) → ForRecord (queue t (record_id fd rid))

abbrev pub request : ℕ → LockMode → LockRequest
request t mode = record { txn_id = t; lock_mode = mode }

compatible_comm : (m n : LockMode) → compatible m n ≡ compatible n m
compatible_comm s s = refl
compatible_comm s x = refl
compatible_comm s is = refl
compatible_comm s ix = refl
compatible_comm s six = refl
compatible_comm x s = refl
compatible_comm x x = refl
compatible_comm x is = refl
compatible_comm x ix = refl
compatible_comm x six = refl
compatible_comm is s = refl
compatible_comm is x = refl
compatible_comm is is = refl
compatible_comm is ix = refl
compatible_comm is six = refl
compatible_comm ix s = refl
compatible_comm ix x = refl
compatible_comm ix is = refl
compatible_comm ix ix = refl
compatible_comm ix six = refl
compatible_comm six s = refl
compatible_comm six x = refl
compatible_comm six is = refl
compatible_comm six ix = refl
compatible_comm six six = refl

refuses_lem : (m n : LockMode) → refuses m n ≡ not (compatible m n)
refuses_lem m n = ground arith

pub refused-blocked :
    (mode : LockMode) (t : ℕ) (q : List LockRequest) → refused mode t q ≡ blocked (request t mode) q
unfolding refused
refused-blocked mode t [] = refl
refused-blocked mode t (r ∷ q) =
    ground (arith, refuses_lem mode r.lock_mode, refused-blocked mode t q)

blocked-append_one :
    (a r : LockRequest) (q : List LockRequest)
    → blocked a (q ++ r ∷ []) ≡ (blocked a q || clash a r)
blocked-append_one a r [] = ground arith
blocked-append_one a r (b ∷ q) = ground (arith, blocked-append_one a r q)

IsCompatible-append_one :
    (r : LockRequest) (q : List LockRequest)
    → IsCompatible q
    → blocked r q ≡ false
    → IsCompatible (q ++ r ∷ [])
IsCompatible-append_one r [] c b = (refl, tt)
IsCompatible-append_one r (a ∷ q) c b = ground (
  arith,
  IsCompatible-append_one r q c.1,
  blocked-append_one a r q,
  compatible_comm a.lock_mode r.lock_mode,
)

ForRecord-append_one :
    (r : LockRequest) (q : List LockRequest)
    → ForRecord q
    → s_or_x r.lock_mode ≡ true
    → ForRecord (q ++ r ∷ [])
ForRecord-append_one r [] c b = (b, tt)
ForRecord-append_one r (a ∷ q) c b = (c.0, ForRecord-append_one r q c.1 b)

pub push_request-TableInv :
    (l : Locks) (id : LockDataId) (mode : LockMode)
    → TableInv l.lock_table
    → blocked (request l.txn.txn_id mode) (queue l.lock_table id) ≡ false
    → (s_or_x mode ≡ true) ⊎ (id.type ≢ LockDataType.record_type)
    → TableInv (push_request l id mode).lock_table
unfolding push_request
push_request-TableInv l id mode v b k = record {
  compatible_queues = λ j. ground (
    arith,
    v.compatible_queues j,
    IsCompatible-append_one (request l.txn.txn_id mode) (queue l.lock_table j),
  );
  record_modes = λ fd rid. ground (
    arith,
    v.record_modes fd rid,
    ForRecord-append_one (request l.txn.txn_id mode) (queue l.lock_table (record_id fd rid)),
  );
}

pub touch-TableInv :
    (l : Locks) (id : LockDataId) → TableInv l.lock_table → TableInv (touch l id).lock_table
touch-TableInv l id v = record {
  compatible_queues = λ j. ground (arith, v.compatible_queues j);
  record_modes = λ fd rid. ground (arith, v.record_modes fd rid);
}

-- `enter` refuses the shrinking phase alone.
pub enter-cases :
    (l : Locks)
    → ((l.txn.state ≡ shrinking)
        × (enter l
            ≡ throws
                (record { txn_id = l.txn.txn_id; reason = AbortReason.lock_on_shrinking })
                (set_state l TransactionState.aborted_state)))
      ⊎ ((l.txn.state ≢ shrinking) × (enter l ≡ ok (set_state l TransactionState.growing)))
unfolding enter
enter-cases l = ground arith

blocked-erase_requests :
    (r : LockRequest) (t : ℕ) (q : List LockRequest)
    → blocked r q ≡ false
    → blocked r (erase_requests t q) ≡ false
unfolding erase_requests
blocked-erase_requests r t [] b = refl
blocked-erase_requests r t (a ∷ q) b = ground (arith, blocked-erase_requests r t q)

erase_requests-IsCompatible :
    (t : ℕ) (q : List LockRequest) → IsCompatible q → IsCompatible (erase_requests t q)
unfolding erase_requests
erase_requests-IsCompatible t [] c = tt
erase_requests-IsCompatible t (a ∷ q) c =
    ground (arith, blocked-erase_requests a t q, erase_requests-IsCompatible t q)

erase_requests-ForRecord :
    (t : ℕ) (q : List LockRequest) → ForRecord q → ForRecord (erase_requests t q)
unfolding erase_requests
erase_requests-ForRecord t [] c = tt
erase_requests-ForRecord t (a ∷ q) c = ground (arith, erase_requests-ForRecord t q)

-- What `unlock` leaves in each queue.
pub queue-unlock :
    (l : Locks) (id j : LockDataId)
    → ((j ≡ id)
        × (queue (unlock l id).1.lock_table j ≡ erase_requests l.txn.txn_id (queue l.lock_table j)))
      ⊎ ((j ≢ id) × (queue (unlock l id).1.lock_table j ≡ queue l.lock_table j))
unfolding unlock
queue-unlock l id j = ground arith

pub unlock-TableInv :
    (l : Locks) (id : LockDataId) → TableInv l.lock_table → TableInv (unlock l id).1.lock_table
unlock-TableInv l id v = record {
  compatible_queues = λ j. ground (
    arith,
    queue-unlock l id j,
    v.compatible_queues j,
    erase_requests-IsCompatible l.txn.txn_id (queue l.lock_table j) (v.compatible_queues j),
  );
  record_modes = λ fd rid. ground (
    arith,
    queue-unlock l id (record_id fd rid),
    v.record_modes fd rid,
    erase_requests-ForRecord l.txn.txn_id (queue l.lock_table (record_id fd rid)),
  );
}
