-- ===== src/Storage/Buffer.antt =====
-- What the record manager relies on of `BufferPoolManager` (storage/buffer_pool_manager.h), over the
-- type of what a page holds: the calls that it makes, and what becomes of a page that is fetched,
-- changed and unpinned again before any other call.
use cscc_db.Base.{ℕ, ◌≡◌, ◌≢◌, Bool, true, false, Option, some, Outcome, ok, ℤ}
use cscc_db.Storage.{PageId, Page, is_invalid}

pub record Buffer (Data : Type 0) : Type 1 where
  pub Error : Type 0
  pub State : Type 0
  pub zeros : Data
  -- What a `Page *` points to, and a write through it to the page's bytes.
  pub frame : State → ℕ → Page Data
  pub write_frame : State → ℕ → Data → State
  pub fetch_page : State → PageId → Outcome Error State (Option ℕ × State)
  pub new_page : State → ℤ → Outcome Error State (Option (ℕ × PageId) × State)
  pub unpin_page : State → PageId → Bool → Bool × State
  -- What a reader of a page gets.
  pub view : State → PageId → Option Data
  pub IsValid : State → Type 0
  -- The state is valid, and no page is pinned.
  pub IsQuiet : State → Type 0
  -- The identity that `new_page` gives next, and that no page has it.
  pub next_id : State → ℤ → PageId
  pub IsFresh : State → ℤ → Type 0
  pub quiet_valid : (s : State) → IsQuiet s → IsValid s
  pub frame-write_frame :
      (s : State) (f : ℕ) (c : Data)
      → frame (write_frame s f c) f ≡ record (frame s f) { content = c }
  pub write_frame-write_frame :
      (s : State) (f : ℕ) (b c : Data) → write_frame (write_frame s f b) f c ≡ write_frame s f c
  -- The frame that a fetch hands out holds the page that was asked for.
  pub fetched :
      (s t : State) (id : PageId) (f : ℕ)
      → IsValid s
      → is_invalid id ≡ false
      → fetch_page s id ≡ ok (some f, t)
      → ((frame t f).id ≡ id) × IsValid t
  pub fetch_laws :
      (s t : State) (id : PageId) (d : Data) (x : Option ℕ)
      → IsQuiet s
      → is_invalid id ≡ false
      → view s id ≡ some d
      → fetch_page s id ≡ ok (x, t)
      → (f : ℕ) × (x ≡ some f)
        × ((frame t f).content ≡ d)
        × ((frame t f).id ≡ id)
        × IsQuiet (unpin_page t id false).1
        × ((j : PageId) (e : Data) → view s j ≡ some e → view (unpin_page t id false).1 j ≡ some e)
        × ((c : Data)
            → IsQuiet (unpin_page (write_frame t f c) id true).1
              × (view (unpin_page (write_frame t f c) id true).1 id ≡ some c)
              × ((j : PageId) (e : Data)
                  → j ≢ id
                  → view s j ≡ some e
                  → view (unpin_page (write_frame t f c) id true).1 j ≡ some e))
  pub new_laws :
      (s t : State) (fd : ℤ) (x : Option (ℕ × PageId))
      → IsQuiet s
      → IsFresh s fd
      → new_page s fd ≡ ok (x, t)
      → (f : ℕ) × (x ≡ some (f, next_id s fd))
        × ((frame t f).content ≡ zeros)
        × ((frame t f).id ≡ next_id s fd)
        × ((next_id s fd).fd ≡ fd)
        × ((c : Data)
            → IsQuiet (unpin_page (write_frame t f c) (next_id s fd) true).1
              × (view (unpin_page (write_frame t f c) (next_id s fd) true).1 (next_id s fd)
                  ≡ some c)
              × ((j : PageId) (e : Data)
                  → j ≢ next_id s fd
                  → view s j ≡ some e
                  → view (unpin_page (write_frame t f c) (next_id s fd) true).1 j ≡ some e))
