-- ===== src/Transaction/Locks/Results.antt =====
-- lock_manager.cpp: what each call grants and refuses.
use cscc_db.Base.{
  ◌≡◌, refl, ◌≢◌, ◌⊎◌, inl, inr, Bool, true, false, not, [], ◌∷◌, ◌++◌, Bool-cases, ap, sym, ◌∙◌,
  arith, ok, ℤ,
}
use cscc_db.Transaction.{shrinking, growing, LockDataId, table_id}
use cscc_db.Transaction.Locks.{
  LockMode, Locks, queue, touch, set_state, push_request, refused, lock_on_table,
}
use cscc_db.Transaction.Locks.Grants.{enter-cases, request, blocked, refused-blocked}

queue-touch :
    (l : Locks) (id j : LockDataId) → queue (touch l id).lock_table j ≡ queue l.lock_table j
queue-touch l id j = ground arith

queue-push_request :
    (l : Locks) (id j : LockDataId) (mode : LockMode)
    → ((j ≡ id)
        × (queue (push_request (touch l id) id mode).lock_table j
            ≡ queue l.lock_table j ++ request l.txn.txn_id mode ∷ []))
      ⊎ ((j ≢ id) × (queue (push_request (touch l id) id mode).lock_table j ≡ queue l.lock_table j))
unfolding push_request
queue-push_request l id j mode = ground arith

-- Outside the shrinking phase a call on a table ends well: it grants the lock exactly if no other
-- transaction's request on the table is incompatible with it by the matrix, and then the request is
-- at the end of the table's queue; no other request of any queue changes.
pub lock_on_table_result :
    (mode : LockMode) (l : Locks) (fd : ℤ)
    → l.txn.state ≢ shrinking
    → (granted : Bool) × (l' : Locks) × (lock_on_table mode l fd ≡ ok (granted, l'))
      × (granted ≡ not (blocked (request l.txn.txn_id mode) (queue l.lock_table (table_id fd))))
      × ((j : LockDataId)
          → ((j ≡ table_id fd)
              × (granted ≡ true)
              × (queue l'.lock_table j ≡ queue l.lock_table j ++ request l.txn.txn_id mode ∷ []))
            ⊎ (((j ≢ table_id fd) ⊎ (granted ≡ false))
                × (queue l'.lock_table j ≡ queue l.lock_table j)))
unfolding lock_on_table push_request
lock_on_table_result mode l fd ns =
    let entered = set_state l growing in
    let touched = touch (set_state l growing) (table_id fd) in
    let verdict =
      λ (b : Bool) (r : refused mode l.txn.txn_id (queue touched.lock_table (table_id fd)) ≡ b).
        sym r
        ∙ refused-blocked mode l.txn.txn_id _
        ∙ ap (blocked (request l.txn.txn_id mode))
            (queue-touch entered (table_id fd) (table_id fd)) in
    elim (enter-cases l) [
      | inl (e, _) ↦ ground arith
      | inr (_, e) ↦
          elim (Bool-cases (refused mode l.txn.txn_id (queue touched.lock_table (table_id fd)))) [
            | inl r ↦ (
              false,
              touched,
              rw (e, r),
              ap not (verdict true r),
              λ j. inr (inr refl, queue-touch entered (table_id fd) j),
            )
            | inr r ↦ (
              true,
              push_request touched (table_id fd) mode,
              rw (e, r),
              ap not (verdict false r),
              λ j. elim (queue-push_request entered (table_id fd) j mode) [
                | inl (e', q) ↦ inl (e', refl, q)
                | inr (ne, q) ↦ inr (inl ne, q)
              ],
            )
          ]
    ]
