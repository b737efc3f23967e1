-- ===== src/Storage.antt =====
-- storage/page.h: page identities and frames; and what the buffer pool may rely on of
-- `DiskManager` (storage/disk_manager.h).
pub mod Pool
pub mod Buffer
use native.Mathlib.Decide.{ℕ_discrete}
use cscc_db.Base.{
  ℕ, ◌≡◌, Bool, Option, none, some, ◌≢◌, ℤ, minus_one, ◌==ℤ◌, pos, negsuc, ltb, false,
}

-- `struct PageId`.
pub record PageId : Type 0 where
  pub fd : ℤ
  pub page_no : ℤ

ℤ-discrete : Discrete ℤ
ℤ-discrete = hlevel ℕ_discrete

-- `operator==` on `PageId`.
unfoldable pub PageId-discrete : Discrete PageId
unfolding ℤ-discrete ℕ_discrete
PageId-discrete = hlevel ℤ-discrete

-- `class Page`, over the type of what `data_`, an array of PAGE_SIZE bytes, holds.
pub record Page (Data : Type 0) : Type 0 where
  pub id : PageId
  pub content : Data
  pub is_dirty : Bool
  pub pin_count : ℕ

-- `page_no != INVALID_PAGE_ID` does not hold.
abbrev pub is_invalid : PageId → Bool
is_invalid id = id.page_no ==ℤ minus_one

-- `assert(fd >= 0 && fd < MAX_FD)` of `allocate_page`.
abbrev pub is_file : ℤ → Bool
is_file (pos n) = ltb n 8192
is_file (negsuc n) = false

-- The calls of `DiskManager` that the pool makes. `none` is an exception, after a short read or write;
-- or a page number whose offset, `page_no * PAGE_SIZE`, is not an `int` (from 524288 on), for which the
-- source has no defined result. `allocate_page` is what follows its `assert`; `deallocate_page` has an
-- empty body.
pub record Disk : Type 1 where
  pub Data : Type 0
  pub zeros : Data
  pub Store : Type 0
  pub write_page : Store → PageId → Data → Option Store
  pub read_page : Store → PageId → Option Data
  pub allocate_page : Store → ℤ → ℤ × Store
  pub read_written :
      (s s' : Store) (id : PageId) (d : Data)
      → write_page s id d ≡ some s'
      → read_page s' id ≡ some d
  pub read_other :
      (s s' : Store) (id j : PageId) (d e : Data)
      → write_page s id d ≡ some s'
      → j ≢ id
      → read_page s j ≡ some e
      → read_page s' j ≡ some e
  pub read_allocated :
      (s : Store) (fd : ℤ) (j : PageId) → read_page (allocate_page s fd).1 j ≡ read_page s j
