-- ===== src/Storage/Pool/Invariant.antt =====
-- The invariant of `BufferPoolManager`: every frame is in exactly one of three states. It is free;
-- or it holds an unpinned page, which the replacer may give away; or it holds a pinned page.
use cscc_db.Base.{
  ℕ, zero, suc, ◌≡◌, refl, ◌≢◌, ◌<◌, ◌≤◌, ◌⊎◌, inl, true, false, some, List, [], ◌∷◌, contains,
  IsDistinct, ltb, ◌||◌, arith, ℤ, ◌==ℤ◌,
}
use cscc_db.Replacer.{Replacer}
use cscc_db.Storage.{PageId, is_invalid, Disk}
use cscc_db.Storage.Pool.{Pool, upto, init}

module _ (R : Replacer) (D : Disk) where
  -- A page of the table is in the frame that the table names.
  pub record IsMapped (p : Pool R D) (id : PageId) (f : ℕ) : Type 0 where
    pub in_range : f < p.pool_size
    pub identity : (p.pages f).id ≡ id
    pub not_free : contains f p.free_list ≡ false
    pub named : is_invalid id ≡ false

  -- A free frame holds no page and nothing that has to be written.
  pub record IsFree (p : Pool R D) (f : ℕ) : Type 0 where
    pub in_range : f < p.pool_size
    pub unpinned : (p.pages f).pin_count ≡ 0
    pub clean : (p.pages f).is_dirty ≡ false
    pub unnamed : is_invalid (p.pages f).id ≡ true
    pub untracked : R.evictable p.replacer f ≡ false

  -- A frame that the replacer tracks holds an unpinned page.
  pub record IsIdle (p : Pool R D) (f : ℕ) : Type 0 where
    pub in_range : f < p.pool_size
    pub unpinned : (p.pages f).pin_count ≡ 0
    pub mapped : p.page_table (p.pages f).id ≡ some f

  pub record Inv (p : Pool R D) : Type 0 where
    pub tracked : R.IsValid p.replacer
    pub distinct : IsDistinct p.free_list
    pub mapped : (id : PageId) (f : ℕ) → p.page_table id ≡ some f → IsMapped p id f
    pub free : (f : ℕ) → contains f p.free_list ≡ true → IsFree p f
    pub idle : (f : ℕ) → R.evictable p.replacer f ≡ true → IsIdle p f
    -- No frame is lost.
    pub complete :
        (f : ℕ)
        → f < p.pool_size
        → (p.pages f).pin_count ≡ 0
        → (contains f p.free_list ≡ true) ⊎ (R.evictable p.replacer f ≡ true)
    -- A pinned page is in the table.
    pub held :
        (f : ℕ) → f < p.pool_size → (p.pages f).pin_count ≢ 0 → p.page_table (p.pages f).id ≡ some f
    -- A page that nobody has pinned and that is not dirty is as on the disk.
    pub synced :
        (f : ℕ)
        → p.page_table (p.pages f).id ≡ some f
        → (p.pages f).pin_count ≡ 0
        → (p.pages f).is_dirty ≡ false
        → D.read_page p.store (p.pages f).id ≡ some (p.pages f).content

contains-upto : (f n : ℕ) (fs : List ℕ) → contains f (upto n fs) ≡ (ltb f n || contains f fs)
contains-upto f zero fs = ground arith
contains-upto f (suc n) fs = ground (arith, contains-upto f n (n ∷ fs))

upto-IsDistinct :
    (n : ℕ) (fs : List ℕ)
    → IsDistinct fs
    → ((f : ℕ) → contains f fs ≡ true → n ≤ f)
    → IsDistinct (upto n fs)
upto-IsDistinct zero fs d h = d
upto-IsDistinct (suc n) fs d h =
    upto-IsDistinct n (n ∷ fs) (ground (arith, h n), d) (λ f e. ground (arith, h f))

module _ (R : Replacer) (D : Disk) where
  -- A new pool, on a replacer that tracks no frame, satisfies the invariant.
  pub init-Inv :
      (n : ℕ) (unset : ℤ) (r : R.State) (s : D.Store)
      → R.IsValid r
      → ((f : ℕ) → R.evictable r f ≡ false)
      → Inv R D (init R D n unset r s)
  unfolding init ◌==ℤ◌
  init-Inv n unset r s v empty = record {
    tracked = v;
    distinct = upto-IsDistinct n [] tt (λ f e. ground arith);
    mapped = λ id f e. cc;
    free = λ f e. record {
      in_range = ground (arith, contains-upto f n []);
      unpinned = refl;
      clean = refl;
      unnamed = refl;
      untracked = empty f;
    };
    idle = λ f e. absurd (ground (arith, empty f));
    complete = λ f lt _. inl (ground (arith, contains-upto f n []));
    held = λ f lt pinned. absurd (pinned refl);
    synced = λ f e. cc;
  }

  -- A frame with a valid page number is in the table.
  pub mapped_of_named :
      (p : Pool R D) (f : ℕ)
      → Inv R D p
      → f < p.pool_size
      → is_invalid (p.pages f).id ≡ false
      → p.page_table (p.pages f).id ≡ some f
  mapped_of_named p f v lt named = ground (arith, v.held f lt, v.complete f lt, v.free f, v.idle f)
