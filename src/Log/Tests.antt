-- ===== src/Log/Tests.antt =====
-- Log records of a small table: tests, and the theorems at inputs that meet their hypotheses.
use cscc_db.Base.{ℕ, ◌<◌, ◌+◌, ◌≡◌, refl, inl, false, none, some, [], ◌∷◌, arith, ok, length, true}
use cscc_db.Log.Memory.{Memory, memcpy, bytes_at, word_bytes, from_bytes, write_fields}
use cscc_db.Log.Records.{
  LogType, minus_one_word, RidWords, TupleLogRecord, UpdateLogRecord, tuple_log_record,
  insert_log_record, update_log_record, serialize_header, deserialize_header, serialize_tuple,
  deserialize_tuple, serialize_update, deserialize_update,
}
use cscc_db.Log.RoundTrip.{
  TupleFits, UpdateFits, deserialize-serialize_tuple, deserialize-serialize_update,
  serialize_tuple_outside,
}
use cscc_db.Log.Manager.{
  LogManager, LogTxn, WriteRecord, insert_tuple, gen_log_from_write_set, gen_log_plain, log_latched,
  add_log_to_buffer, flush_log_to_disk, Blocks, write_log,
}
use cscc_db.Log.Compensation.{logged_clr, gen_log_tuple_clr, gen_log_tuple_clr_result}
use cscc_db.Log.Appends.{logged, gen_log_from_write_set_result, gen_log_from_write_set_full}

program : Unit {0}
unfolding memcpy bytes_at word_bytes from_bytes write_fields tuple_log_record update_log_record
    serialize_header deserialize_header serialize_tuple deserialize_tuple serialize_update
    deserialize_update gen_log_from_write_set gen_log_plain log_latched add_log_to_buffer write_log
    flush_log_to_disk
program = tt

abbrev pub blank : Memory
blank _ = 0

abbrev rid : RidWords
rid = record { page_no = 1; slot_no = 2 }

abbrev inserted : TupleLogRecord
inserted = insert_log_record 7 (10 ∷ 20 ∷ 30 ∷ []) rid (116 ∷ 49 ∷ [])

written : bytes_at (serialize_tuple blank 100 inserted) 124 7 ≡ 3 ∷ 0 ∷ 0 ∷ 0 ∷ 10 ∷ 20 ∷ 30 ∷ []
unfolding program
written = refl

inserted-Fits : TupleFits inserted
unfolding program
inserted-Fits = record {
  header_fits = record {
    log_type = omega arith;
    lsn = omega arith;
    log_tot_len = omega arith;
    log_tid = omega arith;
    prev_lsn = omega arith;
    undo_next = omega arith;
  };
  value_fits = omega arith;
  page_fits = omega arith;
  slot_fits = omega arith;
  name_fits = omega arith;
}

deserialize-serialize_tuple_example :
    deserialize_tuple (serialize_tuple blank 100 inserted) 100 ≡ inserted
deserialize-serialize_tuple_example = deserialize-serialize_tuple blank 100 inserted inserted-Fits

abbrev updated : UpdateLogRecord
updated = update_log_record 7 (10 ∷ []) (11 ∷ []) rid (116 ∷ 49 ∷ [])

updated-Fits : UpdateFits updated
unfolding program
updated-Fits = record {
  header_fits = record {
    log_type = omega arith;
    lsn = omega arith;
    log_tot_len = omega arith;
    log_tid = omega arith;
    prev_lsn = omega arith;
    undo_next = omega arith;
  };
  old_fits = omega arith;
  same_size = refl;
  page_fits = omega arith;
  slot_fits = omega arith;
  name_fits = omega arith;
}

deserialize-serialize_update_example :
    deserialize_update (serialize_update blank 8 updated) 8 ≡ updated
deserialize-serialize_update_example = deserialize-serialize_update blank 8 updated updated-Fits

serialize_tuple_outside_test : serialize_tuple blank 100 inserted 99 ≡ 0
serialize_tuple_outside_test =
    serialize_tuple_outside blank 100 99 LogType.insert 7 (10 ∷ 20 ∷ 30 ∷ []) rid (116 ∷ 49 ∷ [])
      (inl (omega arith))

abbrev pub fresh : LogManager
fresh = record {
  os = record { write = λ file bytes. some (length bytes); fsync = λ file. true };
  global_lsn = 5;
  buffer = blank;
  offset = 24;
  buffer_lsn = 4;
  persist_lsn = 0;
  latched = false;
  log_file = [];
  lsn_prevlsn_table = λ _. none;
  write_rec_to_lsn_table = λ _. none;
}

abbrev txn : LogTxn
txn = record { txn_id = 7; so_far_lsn = 4 }

abbrev write : WriteRecord
write = record {
  address = 1000;
  wtype = insert_tuple;
  tab_name = 116 ∷ 49 ∷ [];
  rid = rid;
  old_record = 10 ∷ 20 ∷ 30 ∷ [];
  new_record = [];
}

logged-Fits : TupleFits (logged 5 txn write)
unfolding program
logged-Fits = record {
  header_fits = record {
    log_type = omega arith;
    lsn = omega arith;
    log_tot_len = omega arith;
    log_tid = omega arith;
    prev_lsn = omega arith;
    undo_next = omega arith;
  };
  value_fits = omega arith;
  page_fits = omega arith;
  slot_fits = omega arith;
  name_fits = omega arith;
}

-- The insertion of `write` is taken back.
clr-Fits :
    TupleFits (logged_clr 5 LogType.insert LogType.clr_delete 7 (10 ∷ 20 ∷ []) rid (116 ∷ []))
unfolding program
clr-Fits = record {
  header_fits = record {
    log_type = omega arith;
    lsn = omega arith;
    log_tot_len = omega arith;
    log_tid = omega arith;
    prev_lsn = omega arith;
    undo_next = omega arith;
  };
  value_fits = omega arith;
  page_fits = omega arith;
  slot_fits = omega arith;
  name_fits = omega arith;
}

gen_log_tuple_clr_result_example :
    (l' : LogManager) × (gen_log_tuple_clr LogType.insert fresh 7 4 (10 ∷ 20 ∷ []) rid (116 ∷ [])
      ≡ ok (5, l'))
    × (deserialize_tuple l'.buffer 24
        ≡ logged_clr 5 LogType.insert LogType.clr_delete 7 (10 ∷ 20 ∷ []) rid (116 ∷ []))
    × ((deserialize_tuple l'.buffer 24).header.undo_next ≡ minus_one_word)
    × (l'.latched ≡ false)
unfolding program
gen_log_tuple_clr_result_example =
    gen_log_tuple_clr_result LogType.insert LogType.clr_delete fresh 7 4 (10 ∷ 20 ∷ []) rid
      (116 ∷ []) refl refl (omega arith) clr-Fits

gen_log_from_write_set_result_example :
    (l' : LogManager) × (gen_log_from_write_set fresh txn write
      ≡ ok (5, l', record txn { so_far_lsn = 5 }))
    × (deserialize_tuple l'.buffer 24 ≡ logged 5 txn write)
    × ((i : ℕ) → i < 24 → l'.buffer i ≡ 0)
    × (l'.offset ≡ 24 + (logged 5 txn write).header.log_tot_len)
    × (l'.log_file ≡ [])
    × (l'.global_lsn ≡ 6)
    × (l'.latched ≡ false)
unfolding program
gen_log_from_write_set_result_example =
    gen_log_from_write_set_result fresh txn write refl (λ e. cc) (omega arith) logged-Fits

abbrev full : LogManager
full = record fresh { offset = 4194300 }

gen_log_from_write_set_full_example : Blocks (gen_log_from_write_set full txn write)
unfolding program
gen_log_from_write_set_full_example = gen_log_from_write_set_full full txn write refl (omega arith)

flushes_alone : (l : LogManager) × (flush_log_to_disk fresh ≡ ok l) × (l.offset ≡ 0)
unfolding program
flushes_alone = (_, refl, refl)
