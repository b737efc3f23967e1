-- ===== src/Log/Records.antt =====
-- recovery/log_defs.h and log_manager.h: the classes `LogRecord` (of which the begin, commit and abort
-- records are instances), `InsertLogRecord`, `DeleteLogRecord` and `UpdateLogRecord`. Words are their
-- bit patterns: an `int` is a number below 2^32, with 2^32 - 1 for -1.
use cscc_db.Base.{ℕ, ◌+◌, List, [], ◌∷◌, length, take}
use cscc_db.Log.Memory.{Memory, bytes_at, word_bytes, read_word, write_fields, whole}

-- `enum LogType : int`.
pub data LogType : Type 0 where
  update insert delete begin commit abort clr_update clr_insert clr_delete create_index : LogType

-- The numbers of `LogType`.
abbrev pub type_code : LogType → ℕ
type_code update = 0
type_code insert = 1
type_code delete = 2
type_code begin = 3
type_code commit = 4
type_code abort = 5
type_code clr_update = 6
type_code clr_insert = 7
type_code clr_delete = 8
type_code create_index = 9

-- -1 as a word: INVALID_LSN, INVALID_TXN_ID.
abbrev pub minus_one_word : ℕ
minus_one_word = 4294967295

-- OFFSET_LOG_DATA, LOG_HEADER_SIZE.
abbrev pub log_header_size : ℕ
log_header_size = 24

-- `class LogRecord`; `log_type` is the number of the type.
pub record LogRecord : Type 0 where
  pub log_type : ℕ
  pub lsn : ℕ
  pub log_tot_len : ℕ
  pub log_tid : ℕ
  pub prev_lsn : ℕ
  pub undo_next : ℕ

pub record RidWords : Type 0 where
  pub page_no : ℕ
  pub slot_no : ℕ

-- `class InsertLogRecord` and `class DeleteLogRecord`; sizes are those of the lists.
pub record TupleLogRecord : Type 0 where
  pub header : LogRecord
  pub value : List ℕ
  pub rid : RidWords
  pub table_name : List ℕ

-- `class UpdateLogRecord`.
pub record UpdateLogRecord : Type 0 where
  pub header : LogRecord
  pub old_value : List ℕ
  pub new_value : List ℕ
  pub rid : RidWords
  pub table_name : List ℕ

-- The default constructors.
abbrev pub new_header : LogType → LogRecord
new_header type = record {
  log_type = type_code type;
  lsn = minus_one_word;
  log_tot_len = log_header_size;
  log_tid = minus_one_word;
  prev_lsn = minus_one_word;
  undo_next = minus_one_word;
}

-- `BeginLogRecord`, `CommitLogRecord` and `AbortLogRecord` of (lsn, prev_lsn, txn_id).
abbrev pub plain_log_record : LogType → ℕ → ℕ → ℕ → LogRecord
plain_log_record type lsn prev_lsn txn_id = record (new_header type) {
  lsn = lsn;
  prev_lsn = prev_lsn;
  log_tid = txn_id;
}

unfoldable pub tuple_log_record : LogType → ℕ → List ℕ → RidWords → List ℕ → TupleLogRecord
tuple_log_record type txn_id value rid table_name = record {
  header = record (new_header type) {
    log_tid = txn_id;
    log_tot_len = log_header_size + 4 + length value + 8 + (8 + length table_name);
  };
  value = value;
  rid = rid;
  table_name = table_name;
}

abbrev pub insert_log_record : ℕ → List ℕ → RidWords → List ℕ → TupleLogRecord
insert_log_record = tuple_log_record insert

abbrev pub delete_log_record : ℕ → List ℕ → RidWords → List ℕ → TupleLogRecord
delete_log_record = tuple_log_record delete

unfoldable pub update_log_record : ℕ → List ℕ → List ℕ → RidWords → List ℕ → UpdateLogRecord
update_log_record txn_id old_value new_value rid table_name = record {
  header = record (new_header update) {
    log_tid = txn_id;
    log_tot_len =
        log_header_size + 4 + length old_value + 4 + length new_value + 8 + (8 + length table_name);
  };
  old_value = old_value;
  new_value = new_value;
  rid = rid;
  table_name = table_name;
}

abbrev pub int_field : ℕ → List ℕ × ℕ
int_field v = (word_bytes 4 v, 4)

abbrev pub header_fields : LogRecord → List (List ℕ × ℕ)
header_fields r =
    int_field r.log_type
    ∷ int_field r.lsn
    ∷ int_field r.log_tot_len
    ∷ int_field r.log_tid
    ∷ int_field r.prev_lsn
    ∷ int_field r.undo_next
    ∷ []

-- `LogRecord::serialize` to address `at`.
unfoldable pub serialize_header : Memory → ℕ → LogRecord → Memory
serialize_header m at r = write_fields m at (header_fields r)

-- `LogRecord::deserialize`.
unfoldable pub deserialize_header : Memory → ℕ → LogRecord
deserialize_header m at = record {
  log_type = read_word 4 m at;
  lsn = read_word 4 m (at + 4);
  log_tot_len = read_word 4 m (at + 8);
  log_tid = read_word 4 m (at + 12);
  prev_lsn = read_word 4 m (at + 16);
  undo_next = read_word 4 m (at + 20);
}

-- The end of each tuple record: the two words of `Rid`, the size of the name and the name.
abbrev pub tail_fields : RidWords → List ℕ → List (List ℕ × ℕ)
tail_fields rid table_name =
    int_field rid.page_no
    ∷ int_field rid.slot_no
    ∷ (word_bytes 8 (length table_name), 8)
    ∷ whole table_name
    ∷ []

abbrev pub tuple_fields : TupleLogRecord → List (List ℕ × ℕ)
tuple_fields r = int_field (length r.value) ∷ whole r.value ∷ tail_fields r.rid r.table_name

-- `InsertLogRecord::serialize` and `DeleteLogRecord::serialize`.
unfoldable pub serialize_tuple : Memory → ℕ → TupleLogRecord → Memory
serialize_tuple m at r =
    write_fields (serialize_header m at r.header) (at + log_header_size) (tuple_fields r)

-- `RmRecord::Deserialize`.
abbrev pub deserialize_value : Memory → ℕ → List ℕ
deserialize_value m at = bytes_at m (at + 4) (read_word 4 m at)

abbrev pub deserialize_rid : Memory → ℕ → RidWords
deserialize_rid m at = record { page_no = read_word 4 m at; slot_no = read_word 4 m (at + 4) }

unfoldable pub deserialize_tuple : Memory → ℕ → TupleLogRecord
deserialize_tuple m at =
    let value = deserialize_value m (at + log_header_size) in
    let offset = at + log_header_size + length value + 4 in
    record {
      header = deserialize_header m at;
      value = value;
      rid = deserialize_rid m offset;
      table_name = bytes_at m (offset + 8 + 8) (read_word 8 m (offset + 8));
    }

-- The bytes of the new value are counted by the size of the old one.
abbrev pub update_fields : UpdateLogRecord → List (List ℕ × ℕ)
update_fields r =
    int_field (length r.old_value)
    ∷ whole r.old_value
    ∷ int_field (length r.new_value)
    ∷ (take (length r.old_value) r.new_value, length r.new_value)
    ∷ tail_fields r.rid r.table_name

-- `UpdateLogRecord::serialize`; the bytes beyond a shorter new value are not modelled.
unfoldable pub serialize_update : Memory → ℕ → UpdateLogRecord → Memory
serialize_update m at r =
    write_fields (serialize_header m at r.header) (at + log_header_size) (update_fields r)

unfoldable pub deserialize_update : Memory → ℕ → UpdateLogRecord
deserialize_update m at =
    let old_value = deserialize_value m (at + log_header_size) in
    let second = at + log_header_size + 4 + length old_value in
    let new_value = deserialize_value m second in
    let offset = second + (4 + length new_value) in
    record {
      header = deserialize_header m at;
      old_value = old_value;
      new_value = new_value;
      rid = deserialize_rid m offset;
      table_name = bytes_at m (offset + 8 + 8) (read_word 8 m (offset + 8));
    }
