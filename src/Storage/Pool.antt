-- ===== src/Storage/Pool.antt =====
-- storage/buffer_pool_manager.h and buffer_pool_manager.cpp: the class `BufferPoolManager`, over a
-- replacer and a disk. A call is one step: `latch_` and `page_latches_` are not modelled. A `Page *`
-- is the number of its frame. An exception is the disk's `InternalError`.
pub mod Invariant
pub mod Claim
pub mod Load
pub mod Fetch
pub mod Unpin
pub mod Flush
pub mod Drop
pub mod Free
pub mod Hold
pub mod Tests
use mathlib.Core.Logic.{ite}
use cscc_db.Base.{
  ℕ, zero, suc, ◌+◌, ◌-◌, Bool, true, false, not, ◌&&◌, Option, none, some, List, [], ◌∷◌, ◌++◌,
  ◌==◌, if◌then◌else◌, update, Outcome, ok, throws, ◌>>=◌, ◌>>◌, assert_that, ℤ, minus_one, ◌==ℤ◌,
  length,
}
use cscc_db.Replacer.{Replacer}
use cscc_db.Storage.{PageId, PageId-discrete, Page, is_invalid, Disk, is_file}

pub record Pool (R : Replacer) (D : Disk) : Type 0 where
  pub pool_size : ℕ
  pub pages : ℕ → Page D.Data
  pub page_table : PageId → Option ℕ
  pub free_list : List ℕ
  pub replacer : R.State
  pub store : D.Store

-- `InternalError`, of a read or write that is short.
pub data DiskError : Type 0 where
  internal_error : DiskError

-- `page_table_[id] = f`, and `page_table_.erase(id)` at `none`.
abbrev pub put : (PageId → Option ℕ) → PageId → Option ℕ → PageId → Option ℕ
put t id f j = ite (PageId-discrete j id) f (t j)

-- The list 0, 1, …, n - 1 and what follows, as the constructor fills `free_list_`.
abbrev upto : ℕ → List ℕ → List ℕ
upto zero fs = fs
upto (suc n) fs = upto n (n ∷ fs)

module _ (R : Replacer) (D : Disk) where
  abbrev pub Result : Type 0 → Type 0
  Result A = Outcome DiskError (Pool R D) A

  -- The constructor: every frame is free, and its `Page` is the default one, whose `fd` is not set.
  pub init : ℕ → ℤ → R.State → D.Store → Pool R D
  init pool_size unset replacer store = record {
    pool_size = pool_size;
    pages = λ _. record {
      id = record { fd = unset; page_no = minus_one };
      content = D.zeros;
      is_dirty = false;
      pin_count = 0;
    };
    page_table = λ _. none;
    free_list = upto pool_size [];
    replacer = replacer;
    store = store;
  }

  -- A frame of the free list, or the replacer's victim.
  pub find_victim_page : Pool R D → Option (ℕ × Pool R D)
  find_victim_page p = elim p.free_list [
    | [] ↦ elim (R.victim p.replacer) [
      | none ↦ none
      | some (f, r) ↦ some (f, record p { replacer = r })
    ]
    | f ∷ fs ↦ some (f, record p { free_list = fs })
  ]

  -- A change of one frame's `Page`.
  abbrev pub set_page : Pool R D → ℕ → Page D.Data → Pool R D
  set_page p f page = record p { pages = update p.pages f page }

  -- `if (page.is_dirty_) { write_page(page.id_, page.data_); page.is_dirty_ = false; }`
  pub write_back : Pool R D → ℕ → Result (Pool R D)
  write_back p f =
      let page = p.pages f in
      if page.is_dirty
      then (elim (D.write_page p.store page.id page.content) [
        | none ↦ throws internal_error p
        | some s ↦ ok (record (set_page p f (record page { is_dirty = false })) { store = s })
      ])
      else ok p

  -- Declared in the source and called nowhere.
  pub update_page : Pool R D → ℕ → PageId → ℕ → Result (Pool R D)
  update_page p f new_page_id new_frame_id = do
    q ← write_back p f
    let page = q.pages f
    let table = put (put q.page_table page.id none) new_page_id (some new_frame_id)
    ok (record (set_page q f (record page { content = D.zeros; id = new_page_id })) {
      page_table = table;
    })

  -- The second half of `fetch_page`: frame `f` is taken over by page `page_id`.
  pub load : Pool R D → ℕ → PageId → Result (Option ℕ × Pool R D)
  load p f page_id = do
    let table = put (put p.page_table (p.pages f).id none) page_id (some f)
    q ← write_back (record p { page_table = table }) f
    let blank = record (q.pages f) { pin_count = 1; id = page_id; content = D.zeros }
    (elim (D.read_page q.store page_id) [
      | none ↦ throws internal_error (set_page q f blank)
      | some d ↦ ok (some f, set_page q f (record blank { content = d }))
    ])

  -- A null pointer is `none`.
  pub fetch_page : Pool R D → PageId → Result (Option ℕ × Pool R D)
  fetch_page p page_id = elim (p.page_table page_id) [
    | some f ↦
        let page = p.pages f in
        ok (
          some f,
          record (set_page p f (record page { pin_count = page.pin_count + 1 })) {
            replacer = R.pin f p.replacer;
          },
        )
    | none ↦ elim (find_victim_page p) [ none ↦ ok (none, p) | some (f, q) ↦ load q f page_id ]
  ]

  -- A page that is in a frame and pinned.
  pub release : Pool R D → ℕ → Bool → Pool R D
  release p f is_dirty =
      let page = p.pages f in
      let count = page.pin_count - 1 in
      let dirty = if is_dirty then true else page.is_dirty in
      record (set_page p f (record page { pin_count = count; is_dirty = dirty })) {
        replacer = if count == 0 then R.unpin f p.replacer else p.replacer;
      }

  pub unpin_page : Pool R D → PageId → Bool → Bool × Pool R D
  unpin_page p page_id is_dirty = elim (p.page_table page_id) [
    | none ↦ (false, p)
    | some f ↦ if (p.pages f).pin_count == 0 then (false, p) else (true, release p f is_dirty)
  ]

  -- Writes the page to the disk, dirty or not.
  pub flush_frame : Pool R D → ℕ → Result (Pool R D)
  flush_frame p f =
      let page = p.pages f in
      let q = set_page p f (record page { is_dirty = false }) in
      elim (D.write_page p.store page.id page.content) [
        | none ↦ throws internal_error q
        | some s ↦ ok (record q { store = s })
      ]

  pub flush_page : Pool R D → PageId → Result (Bool × Pool R D)
  flush_page p page_id = elim (p.page_table page_id) [
    | none ↦ ok (false, p)
    | some f ↦ do q ← flush_frame p f; ok (true, q)
  ]

  -- The page identity is that which `allocate_page` gives; `none` is the null pointer.
  pub create : Pool R D → ℕ → ℤ → Result (Option (ℕ × PageId) × Pool R D)
  create p f fd = do
    let old = record p { page_table = put p.page_table (p.pages f).id none }
    assert_that (is_file fd)
    let (page_no, s) = D.allocate_page old.store fd
    let id : PageId = record { fd = fd; page_no = page_no }
    q ← write_back (record old { store = s }) f
    let page : Page D.Data = record { id = id; content = D.zeros; is_dirty = false; pin_count = 1 }
    ok (some (f, id), record (set_page q f page) { page_table = put q.page_table id (some f) })

  pub new_page : Pool R D → ℤ → Result (Option (ℕ × PageId) × Pool R D)
  new_page p fd = elim (find_victim_page p) [ none ↦ ok (none, p) | some (f, q) ↦ create q f fd ]

  -- `delete_page` on a page that is in frame `f` and not pinned.
  pub drop_frame : Pool R D → ℕ → PageId → Result (Bool × Pool R D)
  drop_frame p f page_id = do
    q ←
        write_back
          (record p {
            replacer = R.pin f p.replacer;
            page_table = put p.page_table page_id none;
            free_list = p.free_list ++ f ∷ [];
          })
          f
    let gone : PageId = record { fd = minus_one; page_no = minus_one }
    ok (true, set_page q f (record (q.pages f) { content = D.zeros; id = gone }))

  pub delete_page : Pool R D → PageId → Result (Bool × Pool R D)
  delete_page p page_id = elim (p.page_table page_id) [
    | none ↦ ok (true, p)
    | some f ↦ if (p.pages f).pin_count == 0 then drop_frame p f page_id else ok (false, p)
  ]

  abbrev is_of : Pool R D → ℕ → ℤ → Bool
  is_of p i fd = let id = (p.pages i).id in not (is_invalid id) && (id.fd ==ℤ fd)

  -- The frames from `i` on, `n` of them.
  pub flush_from : ℕ → ℕ → ℤ → Pool R D → Result (Pool R D)
  flush_from zero i fd p = ok p
  flush_from (suc n) i fd p = do
    q ← if is_of p i fd then flush_frame p i else ok p
    flush_from n (i + 1) fd q

  pub flush_all_pages : Pool R D → ℤ → Result (Pool R D)
  flush_all_pages p fd = flush_from p.pool_size 0 fd p

  -- Frame `f` goes back to the free list; its page is `page_id`.
  pub give_back : Pool R D → ℕ → PageId → Result (Pool R D)
  give_back p f page_id = do
    let page = p.pages f
    assert_that (page.pin_count == 0)
    assert_that (not page.is_dirty)
    let id = record page.id { page_no = minus_one }
    ok (record (set_page p f (record page { id = id })) {
      replacer = R.pin f p.replacer;
      page_table = put p.page_table page_id none;
      free_list = p.free_list ++ f ∷ [];
    })

  pub free_page : Pool R D → PageId → Result (Pool R D)
  free_page p page_id = elim (p.page_table page_id) [ none ↦ ok p | some f ↦ give_back p f page_id ]

  pub free_from : ℕ → ℕ → ℤ → Pool R D → Result (Pool R D)
  free_from zero i fd p = ok p
  free_from (suc n) i fd p = do
    q ← if is_of p i fd then give_back p i (p.pages i).id else ok p
    free_from n (i + 1) fd q

  pub free_all_pages : Pool R D → ℤ → Result (Pool R D)
  free_all_pages p fd = free_from p.pool_size 0 fd p

  -- What a reader of page `id` gets: the frame's bytes, or the disk's.
  pub view : Pool R D → PageId → Option D.Data
  view p id = elim (p.page_table id) [
    | some f ↦ some (p.pages f).content
    | none ↦ D.read_page p.store id
  ]
