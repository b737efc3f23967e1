-- ===== src/Log/Appends.antt =====
-- recovery/log_manager.cpp: what the calls that generate log records return.
use cscc_db.Base.{ℕ, ◌+◌, ◌≤◌, ◌<◌, ◌≡◌, ◌≢◌, refl, false, arith, ap, sym, subst, ok, ◌>>=◌}
use cscc_db.Log.Records.{
  LogType, TupleLogRecord, deserialize_tuple, serialize_tuple, tuple_log_record, minus_one_word,
}
use cscc_db.Log.RoundTrip.{TupleFits, deserialize-serialize_tuple, serialize_tuple_below}
use cscc_db.Log.Manager.{
  LogManager, LogTxn, WriteRecord, WType, insert_tuple, delete_tuple, update_tuple, header_of,
  log_of, tuple, linked, noted, header_of-with_header, log_buffer_size, gen_log_from_write_set,
  log_latched_room, log_latched_full, Blocks, told,
}

-- The length of a record that is linked to its transaction's last one.
linked-log_tot_len :
    (txn : LogTxn) (w : WriteRecord)
    → (header_of (linked txn w)).log_tot_len ≡ (header_of (log_of txn w)).log_tot_len
linked-log_tot_len txn w =
    ap (λ h. h.log_tot_len)
      (header_of-with_header (log_of txn w)
        (record (header_of (log_of txn w)) { prev_lsn = txn.so_far_lsn }))

-- If the latch is free and the buffer has no room for the record of a write, generating it never
-- returns: the call waits for the latch that it holds.
pub gen_log_from_write_set_full :
    (l : LogManager) (txn : LogTxn) (w : WriteRecord)
    → l.latched ≡ false
    → log_buffer_size < l.offset + (header_of (log_of txn w)).log_tot_len
    → Blocks (gen_log_from_write_set l txn w)
unfolding gen_log_from_write_set
gen_log_from_write_set_full l txn w free h =
    let (locked, waits) =
      log_latched_full (noted l txn w) (linked txn w) free
        (subst (λ n. log_buffer_size < l.offset + n) (sym (linked-log_tot_len txn w)) h) in
    (locked, ap (λ call. call >>= told txn) waits)

abbrev pub type_of : WType → LogType
type_of insert_tuple = LogType.insert
type_of delete_tuple = LogType.delete
type_of update_tuple = LogType.update

-- The record of an insertion or deletion, as the log holds it, with its number.
abbrev pub logged : ℕ → LogTxn → WriteRecord → TupleLogRecord
logged lsn txn w =
    let r = tuple_log_record (type_of w.wtype) txn.txn_id w.old_record w.rid w.tab_name in
    record r { header = record r.header { lsn = lsn; prev_lsn = txn.so_far_lsn } }

linked_tuple :
    (txn : LogTxn) (w : WriteRecord)
    → w.wtype ≢ update_tuple
    → linked txn w ≡ tuple (logged minus_one_word txn w)
unfolding tuple_log_record
linked_tuple txn w ne = ground arith

-- If the latch is free, the write is an insertion or deletion whose record the buffer has room for,
-- and the words and sizes of the record fit, then generating it returns: the record takes the next
-- number, which becomes the transaction's last; at the old end of the buffer it is read back with
-- that number and the transaction's former last one; the bytes before it are as they were, the
-- buffer's end moves by its length, nothing is written to the file, and the latch is free.
pub gen_log_from_write_set_result :
    (l : LogManager) (txn : LogTxn) (w : WriteRecord)
    → l.latched ≡ false
    → w.wtype ≢ update_tuple
    → l.offset + (logged l.global_lsn txn w).header.log_tot_len ≤ log_buffer_size
    → TupleFits (logged l.global_lsn txn w)
    → (l' : LogManager) × (gen_log_from_write_set l txn w
        ≡ ok (l.global_lsn, l', record txn { so_far_lsn = l.global_lsn }))
      × (deserialize_tuple l'.buffer l.offset ≡ logged l.global_lsn txn w)
      × ((i : ℕ) → i < l.offset → l'.buffer i ≡ l.buffer i)
      × (l'.offset ≡ l.offset + (logged l.global_lsn txn w).header.log_tot_len)
      × (l'.log_file ≡ l.log_file)
      × (l'.global_lsn ≡ l.global_lsn + 1)
      × (l'.latched ≡ false)
unfolding tuple_log_record gen_log_from_write_set serialize_tuple
gen_log_from_write_set_result l txn w free kind room fits =
    let r = logged l.global_lsn txn w in
    let l' = record (noted l txn w) {
      global_lsn = l.global_lsn + 1;
      buffer = serialize_tuple l.buffer l.offset r;
      offset = l.offset + r.header.log_tot_len;
      buffer_lsn = l.global_lsn;
      latched = false;
    } in
    (
      l',
      rw (
        gen_log_from_write_set,
        linked_tuple txn w kind,
        log_latched_room (noted l txn w) (tuple (logged minus_one_word txn w)) free room,
      ),
      deserialize-serialize_tuple l.buffer l.offset r fits,
      λ i below. serialize_tuple_below l.buffer l.offset i r below,
      refl,
      refl,
      refl,
      refl,
    )
