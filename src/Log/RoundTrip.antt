-- ===== src/Log/RoundTrip.antt =====
-- recovery/log_manager.h: a serialized log record is read back as it was, and takes the bytes that its
-- length says.
use cscc_db.Base.{
  ℕ, ◌+◌, ◌^◌, ◌≤◌, ◌<◌, ◌≡◌, refl, ◌⊎◌, List, [], ◌∷◌, length, take, ap, sym, ◌∙◌, subst, arith,
}
use cscc_db.Log.Memory.{
  Memory, memcpy, bytes_at, word_bytes, read_word, write_fields, Stands, length-word_bytes,
  read_word-Stands, write_fields-Stands, bytes_at-write_fields_below,
}
use cscc_db.Log.Records.{
  LogType, tuple_log_record, LogRecord, RidWords, TupleLogRecord, UpdateLogRecord, header_fields,
  tail_fields, tuple_fields, update_fields, serialize_header, deserialize_header, serialize_tuple,
  deserialize_tuple, serialize_update, deserialize_update, deserialize_rid, log_header_size,
}

-- A field read at the address where it stands.
field_word :
    (n v : ℕ) (m : Memory) (a b : ℕ)
    → v < 256 ^ n
    → bytes_at m a (length (word_bytes n v)) ≡ word_bytes n v
    → a ≡ b
    → read_word n m b ≡ v
field_word n v m a b h e p = ap (read_word n m) (sym p) ∙ read_word-Stands n v m a h e

field_bytes :
    (bytes : List ℕ) (m : Memory) (a b k : ℕ)
    → bytes_at m a (length bytes) ≡ bytes
    → a ≡ b
    → k ≡ length bytes
    → bytes_at m b k ≡ bytes
field_bytes bytes m a b k e p q = rw (q, sym p) e

-- Each word of the header fits in 32 bits.
pub record HeaderFits (r : LogRecord) : Type 0 where
  pub log_type : r.log_type < 256 ^ 4
  pub lsn : r.lsn < 256 ^ 4
  pub log_tot_len : r.log_tot_len < 256 ^ 4
  pub log_tid : r.log_tid < 256 ^ 4
  pub prev_lsn : r.prev_lsn < 256 ^ 4
  pub undo_next : r.undo_next < 256 ^ 4

header_read :
    (m : Memory) (at : ℕ) (r : LogRecord)
    → HeaderFits r
    → Stands m at (header_fields r)
    → deserialize_header m at ≡ r
unfolding deserialize_header
header_read m at r f (s0, (s1, (s2, (s3, (s4, (s5, _)))))) = rw (
  field_word 4 r.log_type m at at f.log_type s0 refl,
  field_word 4 r.lsn m _ (at + 4) f.lsn s1 (omega arith),
  field_word 4 r.log_tot_len m _ (at + 8) f.log_tot_len s2 (omega arith),
  field_word 4 r.log_tid m _ (at + 12) f.log_tid s3 (omega arith),
  field_word 4 r.prev_lsn m _ (at + 16) f.prev_lsn s4 (omega arith),
  field_word 4 r.undo_next m _ (at + 20) f.undo_next s5 (omega arith),
)

-- Each field ends at or below an address.
abbrev Ends : ℕ → List (List ℕ × ℕ) → ℕ → Type 0
Ends at [] below = Unit {0}
Ends at ((bytes, advance) ∷ fs) below = (at + length bytes ≤ below) × Ends (at + advance) fs below

Stands-write_fields_above :
    (m : Memory) (at below : ℕ) (fs gs : List (List ℕ × ℕ))
    → Ends at fs below
    → Stands m at fs
    → Stands (write_fields m below gs) at fs
Stands-write_fields_above m at below [] gs l s = tt
Stands-write_fields_above m at below ((bytes, advance) ∷ fs) gs (l, ls) (e, s) = (
  bytes_at-write_fields_below m below gs at (length bytes) l ∙ e,
  Stands-write_fields_above m (at + advance) below fs gs ls s,
)

serialize_header-Stands :
    (m : Memory) (at : ℕ) (r : LogRecord) (gs : List (List ℕ × ℕ))
    → Stands (write_fields (serialize_header m at r) (at + log_header_size) gs) at (header_fields r)
unfolding serialize_header word_bytes
serialize_header-Stands m at r gs =
    Stands-write_fields_above (write_fields m at (header_fields r)) at (at + 24) (header_fields r)
      gs
      (omega arith, (omega arith, (omega arith, (omega arith, (omega arith, (omega arith, tt))))))
      (write_fields-Stands m at (header_fields r)
        (refl, (refl, (refl, (refl, (refl, (refl, tt)))))))

tail_read :
    (m : Memory) (at offset : ℕ) (rid : RidWords) (table_name : List ℕ)
    → rid.page_no < 256 ^ 4
    → rid.slot_no < 256 ^ 4
    → length table_name < 256 ^ 8
    → Stands m at (tail_fields rid table_name)
    → at ≡ offset
    → (deserialize_rid m offset ≡ rid)
      × (bytes_at m (offset + 8 + 8) (read_word 8 m (offset + 8)) ≡ table_name)
tail_read m at offset rid table_name hp hs hn (s0, (s1, (s2, (s3, _)))) e =
    let size = field_word 8 (length table_name) m _ (offset + 8) hn s2 (omega (arith, e)) in
    (
      rw (
        field_word 4 rid.page_no m at offset hp s0 e,
        field_word 4 rid.slot_no m _ (offset + 4) hs s1 (omega (arith, e)),
      ),
      field_bytes table_name m _ (offset + 8 + 8) _ s3 (omega (arith, e)) size,
    )

take_all : (xs : List ℕ) → take (length xs) xs ≡ xs
take_all [] = refl
take_all (x ∷ xs) = ap (λ ys. x ∷ ys) (take_all xs)

-- The sizes and words of a record fit in the words that hold them.
pub record TupleFits (r : TupleLogRecord) : Type 0 where
  pub header_fits : HeaderFits r.header
  pub value_fits : length r.value < 256 ^ 4
  pub page_fits : r.rid.page_no < 256 ^ 4
  pub slot_fits : r.rid.slot_no < 256 ^ 4
  pub name_fits : length r.table_name < 256 ^ 8

-- Insert and delete records: if the words and sizes of a record fit in the words that hold them, then
-- what `serialize` writes at an address `deserialize` reads from that address as the same record.
pub deserialize-serialize_tuple :
    (m : Memory) (at : ℕ) (r : TupleLogRecord)
    → TupleFits r
    → deserialize_tuple (serialize_tuple m at r) at ≡ r
unfolding deserialize_tuple serialize_tuple
deserialize-serialize_tuple m at r f =
    let m' =
      write_fields (serialize_header m at r.header) (at + log_header_size) (tuple_fields r) in
    let header =
      header_read m' at r.header f.header_fits
        (serialize_header-Stands m at r.header (tuple_fields r)) in
    let (s0, (s1, tail)) =
      write_fields-Stands (serialize_header m at r.header) (at + log_header_size) (tuple_fields r) (
        sym (length-word_bytes 4 (length r.value)),
        (
          refl,
          (
            sym (length-word_bytes 4 _),
            (sym (length-word_bytes 4 _), (sym (length-word_bytes 8 _), (refl, tt))),
          ),
        ),
      ) in
    let size = field_word 4 (length r.value) m' _ (at + log_header_size) f.value_fits s0 refl in
    let value = field_bytes r.value m' _ (at + log_header_size + 4) _ s1 refl size in
    let (rid, name) =
      tail_read m' _ (at + log_header_size + length r.value + 4) r.rid r.table_name f.page_fits
        f.slot_fits f.name_fits tail (omega arith) in
    rw (header, value, rid, name)

pub record UpdateFits (r : UpdateLogRecord) : Type 0 where
  pub header_fits : HeaderFits r.header
  pub old_fits : length r.old_value < 256 ^ 4
  pub same_size : length r.old_value ≡ length r.new_value
  pub page_fits : r.rid.page_no < 256 ^ 4
  pub slot_fits : r.rid.slot_no < 256 ^ 4
  pub name_fits : length r.table_name < 256 ^ 8

-- Update records: if the old and the new value have the same size, and the words and sizes of the
-- record fit in the words that hold them, then what `serialize` writes at an address `deserialize`
-- reads from that address as the same record.
pub deserialize-serialize_update :
    (m : Memory) (at : ℕ) (r : UpdateLogRecord)
    → UpdateFits r
    → deserialize_update (serialize_update m at r) at ≡ r
unfolding deserialize_update serialize_update
deserialize-serialize_update m at r f =
    let m' =
      write_fields (serialize_header m at r.header) (at + log_header_size) (update_fields r) in
    let second = at + log_header_size + 4 + length r.old_value in
    let taken : take (length r.old_value) r.new_value ≡ r.new_value =
      ap (λ n. take n r.new_value) f.same_size ∙ take_all r.new_value in
    let header =
      header_read m' at r.header f.header_fits
        (serialize_header-Stands m at r.header (update_fields r)) in
    let (s0, (s1, (s2, (s3, tail)))) =
      write_fields-Stands (serialize_header m at r.header) (at + log_header_size) (update_fields r)
        (
          sym (length-word_bytes 4 (length r.old_value)),
          (
            refl,
            (
              sym (length-word_bytes 4 (length r.new_value)),
              (
                ap length (sym taken),
                (
                  sym (length-word_bytes 4 _),
                  (sym (length-word_bytes 4 _), (sym (length-word_bytes 8 _), (refl, tt))),
                ),
              ),
            ),
          ),
        ) in
    let old_size =
      field_word 4 (length r.old_value) m' _ (at + log_header_size) f.old_fits s0 refl in
    let old = field_bytes r.old_value m' _ (at + log_header_size + 4) _ s1 refl old_size in
    let new_size =
      field_word 4 (length r.new_value) m' _ second
        (subst (λ n. n < 256 ^ 4) f.same_size f.old_fits) s2 refl in
    let new =
      field_bytes r.new_value m' _ (second + 4) _
        (subst (λ v. bytes_at m' (second + 4) (length v) ≡ v) taken s3) refl new_size in
    let (rid, name) =
      tail_read m' _ (second + (4 + length r.new_value)) r.rid r.table_name f.page_fits f.slot_fits
        f.name_fits tail (omega arith) in
    rw (header, old, new, rid, name)

-- Fields change no byte below the first and none from the end of the last on.
write_fields_outside :
    (m : Memory) (at below : ℕ) (fs : List (List ℕ × ℕ)) (i : ℕ)
    → Ends at fs below
    → (i < at) ⊎ (below ≤ i)
    → write_fields m at fs i ≡ m i
unfolding write_fields memcpy
write_fields_outside m at below [] i e h = refl
write_fields_outside m at below ((bytes, advance) ∷ fs) i (e, es) h =
    ground (arith, write_fields_outside (memcpy m at bytes) (at + advance) below fs i es)

write_fields_below :
    (m : Memory) (at : ℕ) (fs : List (List ℕ × ℕ)) (i : ℕ) → i < at → write_fields m at fs i ≡ m i
unfolding write_fields memcpy
write_fields_below m at [] i h = refl
write_fields_below m at ((bytes, advance) ∷ fs) i h =
    ground (arith, write_fields_below (memcpy m at bytes) (at + advance) fs i)

-- An insert or delete record that its constructor made takes as many bytes as its length says: the
-- bytes outside that range are left as they are.
pub serialize_tuple_outside :
    (m : Memory) (at i : ℕ) (type : LogType) (txn_id : ℕ) (value : List ℕ) (rid : RidWords)
    (table_name : List ℕ)
    → let r = tuple_log_record type txn_id value rid table_name in
      (i < at) ⊎ (at + r.header.log_tot_len ≤ i) → serialize_tuple m at r i ≡ m i
unfolding serialize_tuple serialize_header tuple_log_record word_bytes
serialize_tuple_outside m at i type txn_id value rid table_name h =
    let r = tuple_log_record type txn_id value rid table_name in
    let below = at + r.header.log_tot_len in
    write_fields_outside _ (at + log_header_size) below (tuple_fields r) i
      (omega arith, (omega arith, (omega arith, (omega arith, (omega arith, (omega arith, tt))))))
      (omega (arith, h))
    ∙ write_fields_outside m at (at + log_header_size) (header_fields r.header) i
        (omega arith, (omega arith, (omega arith, (omega arith, (omega arith, (omega arith, tt))))))
        (omega (arith, h))

pub serialize_tuple_below :
    (m : Memory) (at i : ℕ) (r : TupleLogRecord) → i < at → serialize_tuple m at r i ≡ m i
unfolding serialize_tuple serialize_header
serialize_tuple_below m at i r h =
    write_fields_below _ (at + log_header_size) (tuple_fields r) i (omega (arith, h))
    ∙ write_fields_below m at (header_fields r.header) i h
