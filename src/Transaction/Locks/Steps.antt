-- ===== src/Transaction/Locks/Steps.antt =====
-- lock_manager.cpp: what holds before a call, and after its changes of state, holds after it.
use cscc_db.Base.{
  ℕ, ◌≡◌, refl, ◌≢◌, ◌⊎◌, inl, inr, Bool, true, false, none, some, List, [], ◌∷◌, arith, ok, throws,
  aborted, ℤ, Bool-cases, sym, ◌∙◌, ◌>>=◌,
}
use cscc_db.Transaction.{TransactionState, LockDataId, Rid, table_id, record_id, LockDataType}
use cscc_db.Transaction.Locks.{
  LockMode, s, x, is, ix, LockRequest, Locks, Result, queue, touch, set_state, push_request,
  refused, lock_on_table, s_or_x, scan_shared, scan_exclusive, finish_shared, finish_exclusive,
  lock_shared_on_record, lock_exclusive_on_record, unlock, unlock_all, enter,
}
use cscc_db.Transaction.Locks.Grants.{refused-blocked, enter-cases, request, blocked, ForRecord}

-- The call ends, without a failed assertion, in a state that has the property.
abbrev pub Ends : (Locks → Type 0) → Result (Bool × Locks) → Type 0
Ends P (ok (b, l)) = P l
Ends P (throws e l) = P l
Ends P aborted = ⊥

-- A property that the single changes of state keep.
pub record Closed (P : Locks → Type 0) : Type 0 where
  pub record_modes :
      (l : Locks) → P l → (fd : ℤ) (rid : Rid) → ForRecord (queue l.lock_table (record_id fd rid))
  pub on_state : (l : Locks) (st : TransactionState) → P l → P (set_state l st)
  pub on_touch : (l : Locks) (id : LockDataId) → P l → P (touch l id)
  pub on_push :
      (l : Locks) (id : LockDataId) (mode : LockMode)
      → P l
      → blocked (request l.txn.txn_id mode) (queue l.lock_table id) ≡ false
      → (s_or_x mode ≡ true) ⊎ (id.type ≢ LockDataType.record_type)
      → P (push_request l id mode)
  pub on_unlock : (l : Locks) (id : LockDataId) → P l → P (unlock l id).1

scan_shared-cases :
    (t : ℕ) (q : List LockRequest)
    → ForRecord q
    → ((b : Bool) × (scan_shared t q ≡ ok (some b)))
      ⊎ ((scan_shared t q ≡ ok none) × (blocked (request t s) q ≡ false))
unfolding scan_shared
scan_shared-cases t [] f = inr (refl, refl)
scan_shared-cases t (r ∷ q) f = ground (arith, scan_shared-cases t q f.1)

scan_exclusive-cases :
    (t : ℕ) (q : List LockRequest)
    → ForRecord q
    → (scan_exclusive t q ≡ ok (some false))
      ⊎ ((scan_exclusive t q ≡ ok none) × (blocked (request t x) q ≡ false))
unfolding scan_exclusive
scan_exclusive-cases t [] f = inr (refl, refl)
scan_exclusive-cases t (r ∷ q) f = ground (arith, scan_exclusive-cases t q f.1)

-- A call that ends well hands its state on.
Ends->>= :
    (P : Locks → Type 0) (m : Result (Bool × Locks)) (f : Bool → Locks → Result (Bool × Locks))
    → Ends P m
    → ((b : Bool) (l : Locks) → P l → Ends P (f b l))
    → Ends P (m >>= λ r. f r.0 r.1)
Ends->>= P (ok (b, l)) f e g = g b l e
Ends->>= P (throws why l) f e g = e
Ends->>= P aborted f e g = e

module _ (P : Locks → Type 0) (c : Closed P) where
  pub lock_on_table-Ends :
      (mode : LockMode) (l : Locks) (fd : ℤ) → P l → Ends P (lock_on_table mode l fd)
  unfolding lock_on_table
  lock_on_table-Ends mode l fd v =
      let id = table_id fd in
      let entered = set_state l TransactionState.growing in
      let v' = c.on_touch entered id (c.on_state l TransactionState.growing v) in
      elim (enter-cases l) [
        | inl (_, e) ↦ rw e (c.on_state l TransactionState.aborted_state v)
        | inr (_, e) ↦
            elim (Bool-cases (refused mode l.txn.txn_id (queue (touch entered id).lock_table id))) [
              | inl r ↦ rw (e, r) v'
              | inr r ↦
                  rw (e, r)
                    (c.on_push (touch entered id) id mode v'
                      (sym (refused-blocked mode l.txn.txn_id _) ∙ r) (inr (λ t. cc)))
            ]
      ]

  finish_shared-Ends :
      (fd : ℤ) (rid : Rid) (b : Bool) (l : Locks)
      → P l
      → Ends P (finish_shared (record_id fd rid) b l)
  unfolding finish_shared
  finish_shared-Ends fd rid false l v = v
  finish_shared-Ends fd rid true l v =
      elim (scan_shared-cases l.txn.txn_id _ (c.record_modes l v fd rid)) [
        | inl (b, e) ↦ rw e v
        | inr (e, free) ↦ rw e (c.on_push l (record_id fd rid) s v free (inl refl))
      ]

  finish_exclusive-Ends :
      (fd : ℤ) (rid : Rid) (b : Bool) (l : Locks)
      → P l
      → Ends P (finish_exclusive (record_id fd rid) b l)
  unfolding finish_exclusive
  finish_exclusive-Ends fd rid false l v = v
  finish_exclusive-Ends fd rid true l v =
      elim (scan_exclusive-cases l.txn.txn_id _ (c.record_modes l v fd rid)) [
        | inl e ↦ rw e v
        | inr (e, free) ↦ rw e (c.on_push l (record_id fd rid) x v free (inl refl))
      ]

  pub lock_exclusive_on_record-Ends :
      (l : Locks) (rid : Rid) (fd : ℤ) → P l → Ends P (lock_exclusive_on_record l rid fd)
  unfolding lock_exclusive_on_record
  lock_exclusive_on_record-Ends l rid fd v =
      let id = record_id fd rid in
      let entered = set_state l TransactionState.growing in
      elim (enter-cases l) [
        | inl (_, e) ↦ rw e (c.on_state l TransactionState.aborted_state v)
        | inr (_, e) ↦ rw e (
            Ends->>= P (lock_on_table ix (touch entered id) fd) (finish_exclusive id)
              (lock_on_table-Ends ix (touch entered id) fd
                (c.on_touch entered id (c.on_state l TransactionState.growing v)))
              (finish_exclusive-Ends fd rid))
      ]

  shared_body-Ends :
      (l : Locks) (rid : Rid) (fd : ℤ)
      → P l
      → Ends P (
          enter l >>= λ entered. lock_on_table is (touch entered (record_id fd rid)) fd >>= λ r.
          finish_shared (record_id fd rid) r.0 r.1)
  shared_body-Ends l rid fd v =
      let id = record_id fd rid in
      let entered = set_state l TransactionState.growing in
      elim (enter-cases l) [
        | inl (_, e) ↦ rw e (c.on_state l TransactionState.aborted_state v)
        | inr (_, e) ↦ rw e (
            Ends->>= P (lock_on_table is (touch entered id) fd) (finish_shared id)
              (lock_on_table-Ends is (touch entered id) fd
                (c.on_touch entered id (c.on_state l TransactionState.growing v)))
              (finish_shared-Ends fd rid))
      ]

  pub lock_shared_on_record-Ends :
      (l : Locks) (rid : Rid) (fd : ℤ) → P l → Ends P (lock_shared_on_record l rid fd)
  unfolding lock_shared_on_record
  lock_shared_on_record-Ends l rid fd v = ground (arith, shared_body-Ends l rid fd v)

  pub unlock_all-Ends : (l : Locks) (ids : List LockDataId) → P l → P (unlock_all l ids)
  unfolding unlock_all
  unlock_all-Ends l [] v = v
  unlock_all-Ends l (id ∷ ids) v = unlock_all-Ends (unlock l id).1 ids (c.on_unlock l id v)
