-- ===== src/Log/Compensation.antt =====
-- recovery/log_manager.cpp: the compensation records of writes that are taken back.
use cscc_db.Base.{ℕ, ◌+◌, ◌≤◌, ◌≡◌, refl, false, none, some, List, ap, ok, aborted}
use cscc_db.Log.Records.{
  LogType, type_code, RidWords, TupleLogRecord, deserialize_tuple, serialize_tuple,
  tuple_log_record, UpdateLogRecord, update_log_record, minus_one_word,
}
use cscc_db.Log.RoundTrip.{TupleFits, deserialize-serialize_tuple}
use cscc_db.Log.Manager.{
  LogManager, tuple, updates, clr_of, log_buffer_size, log_latched, log_latched_room, Call,
}

-- The record, after `setCLR`.
abbrev pub clr_record : LogType → LogType → ℕ → List ℕ → RidWords → List ℕ → TupleLogRecord
clr_record type clr tid value rid name =
    let r = tuple_log_record type tid value rid name in
    record r { header = record r.header { log_type = type_code clr } }

-- `gen_log_insert_CLR` and `gen_log_delete_CLR`, by the type of the record. `undo_next` is stored in
-- the record after it is in the buffer, and the record is gone when the call returns.
unfoldable pub gen_log_tuple_clr :
    LogType → LogManager → ℕ → ℕ → List ℕ → RidWords → List ℕ → Call (ℕ × LogManager)
gen_log_tuple_clr type l tid undo_next value rid name = elim (clr_of type) [
  | none ↦ aborted
  | some clr ↦ log_latched l (tuple (clr_record type clr tid value rid name))
]

-- `gen_log_upadte_CLR`: the record with the two values exchanged.
abbrev pub clr_update_record : ℕ → List ℕ → List ℕ → RidWords → List ℕ → UpdateLogRecord
clr_update_record tid old_value new_value rid name =
    let r = update_log_record tid new_value old_value rid name in
    record r { header = record r.header { log_type = type_code LogType.clr_update } }

unfoldable pub gen_log_update_clr :
    LogManager → ℕ → ℕ → List ℕ → List ℕ → RidWords → List ℕ → Call (ℕ × LogManager)
gen_log_update_clr l tid undo_next old_value new_value rid name =
    log_latched l (updates (clr_update_record tid old_value new_value rid name))

-- The record as the log holds it, with its number.
abbrev pub logged_clr : ℕ → LogType → LogType → ℕ → List ℕ → RidWords → List ℕ → TupleLogRecord
logged_clr lsn type clr tid value rid name =
    let r = clr_record type clr tid value rid name in
    record r { header = record r.header { lsn = lsn } }

-- If the latch is free, the buffer has room for the record, and its words and sizes fit, then
-- generating the compensation of an insertion or deletion returns: the record takes the next number
-- and is read back from the old end of the buffer with the type of the compensation; but whatever
-- record the caller wants undone next, the log holds no number for it.
pub gen_log_tuple_clr_result :
    (type clr : LogType) (l : LogManager) (tid undo_next : ℕ) (value : List ℕ) (rid : RidWords)
    (name : List ℕ)
    → clr_of type ≡ some clr
    → l.latched ≡ false
    → l.offset + (logged_clr l.global_lsn type clr tid value rid name).header.log_tot_len
      ≤ log_buffer_size
    → TupleFits (logged_clr l.global_lsn type clr tid value rid name)
    → (l' : LogManager) × (gen_log_tuple_clr type l tid undo_next value rid name
        ≡ ok (l.global_lsn, l'))
      × (deserialize_tuple l'.buffer l.offset ≡ logged_clr l.global_lsn type clr tid value rid name)
      × ((deserialize_tuple l'.buffer l.offset).header.undo_next ≡ minus_one_word)
      × (l'.latched ≡ false)
unfolding gen_log_tuple_clr tuple_log_record
gen_log_tuple_clr_result type clr l tid undo_next value rid name kind free room fits =
    let r = logged_clr l.global_lsn type clr tid value rid name in
    let read = deserialize-serialize_tuple l.buffer l.offset r fits in
    (
      record l {
        global_lsn = l.global_lsn + 1;
        buffer = serialize_tuple l.buffer l.offset r;
        offset = l.offset + r.header.log_tot_len;
        buffer_lsn = l.global_lsn;
        latched = false;
      },
      rw (gen_log_tuple_clr, kind)
          (log_latched_room l (tuple (clr_record type clr tid value rid name)) free room),
      read,
      ap (λ (r : TupleLogRecord). r.header.undo_next) read,
      refl,
    )
