-- ===== src/Storage/Pool/Tests.antt =====
-- A pool of two frames over a disk of numbers, on the LRU replacer: tests, and the theorems at
-- inputs that meet their hypotheses.
use mathlib.Core.Logic.{ite}
use cscc_db.Base.{
  ℕ, ◌≡◌, refl, ◌<◌, ◌⊎◌, true, false, Option, none, some, ◌==◌, if◌then◌else◌, arith, Outcome, ok,
  throws, aborted, pos, ◌==ℤ◌, ◌+◌, ◌≢◌, contains, ◌++◌, ◌∷◌, [],
}
use cscc_db.Replacer.Lru.{init as lru_init, victim, pin, unpin, frames, back, pop_back, erase_node}
use cscc_db.Replacer.Lru.Laws.{init-IsValid}
use cscc_db.Replacer.Lru.Instance.{lru}
use cscc_db.Storage.{PageId, PageId-discrete, Disk}
use cscc_db.Storage.Pool.{
  Pool, DiskError, init, find_victim_page, write_back, load, fetch_page, release, unpin_page,
  flush_frame, flush_page, create, new_page, drop_frame, delete_page, flush_from, flush_all_pages,
  give_back, free_page, free_from, free_all_pages, view,
}
use cscc_db.Storage.Pool.Invariant.{Inv, init-Inv}
use cscc_db.Storage.Pool.Fetch.{
  fetch_page-Inv, view-fetch_page, fetch_page_result, content-fetch_page, new_page-Inv,
  view-new_page, AllPinned,
}
use cscc_db.Storage.Pool.Unpin.{unpin_page-Inv, unpin_page_result}
use cscc_db.Storage.Pool.Flush.{
  flush_page_result, flush_all_pages_result, flush_page-Inv, flush_all_pages-Inv,
}
use cscc_db.Storage.Pool.Drop.{delete_page-Inv, delete_page_result}
use cscc_db.Storage.Pool.Free.{free_page_result, free_all_pages_result}

program : Unit {0}
unfolding lru_init victim pin unpin frames back pop_back erase_node PageId-discrete init
    find_victim_page write_back load fetch_page release unpin_page flush_frame flush_page create
    new_page drop_frame delete_page flush_from flush_all_pages give_back free_page free_from
    free_all_pages view ◌==ℤ◌
program = tt

-- A disk whose pages are numbers; page numbers are given out in order.
record ToyStore : Type 0 where
  file : PageId → Option ℕ
  next : ℕ

toy_write : ToyStore → PageId → ℕ → Option ToyStore
toy_write s id d = some (record s { file = λ j. ite (PageId-discrete j id) (some d) (s.file j) })

toy-written :
    (s s' : ToyStore) (id : PageId) (d : ℕ) → toy_write s id d ≡ some s' → s'.file id ≡ some d
unfolding toy_write
toy-written s s' id d e = ground arith

toy-other :
    (s s' : ToyStore) (id j : PageId) (d e : ℕ)
    → toy_write s id d ≡ some s'
    → j ≢ id
    → s.file j ≡ some e
    → s'.file j ≡ some e
unfolding toy_write
toy-other s s' id j d e w ne had = ground arith

abbrev toy : Disk
toy = record {
  Data = ℕ;
  zeros = 0;
  Store = ToyStore;
  write_page = toy_write;
  read_page = λ s id. s.file id;
  allocate_page = λ s fd. (pos s.next, record s { next = s.next + 1 });
  read_written = toy-written;
  read_other = toy-other;
  read_allocated = λ s fd j. refl;
}

abbrev page : ℕ → PageId
page n = record { fd = pos 3; page_no = pos n }

abbrev blank : ToyStore
blank = record {
  file = λ j.
      ite (PageId-discrete j (page 0)) (some 70) (ite (PageId-discrete j (page 1)) (some 71) none);
  next = 2;
}

abbrev start : Pool lru toy
start = init lru toy 2 (pos 0) (lru_init 2) blank

start-Inv : Inv lru toy start
unfolding frames lru_init
start-Inv = init-Inv lru toy 2 (pos 0) (lru_init 2) blank (init-IsValid 2) (λ f. refl)

abbrev after : {A : Type 0} → Outcome DiskError (Pool lru toy) (A × Pool lru toy) → Pool lru toy
after (ok r) = r.1
after (throws e p) = p
after aborted = start

-- Page 0 goes to frame 0 and page 1 to frame 1; page 0 is released as dirty, and its frame goes to a
-- new page.
abbrev one : Pool lru toy
one = after (fetch_page lru toy start (page 0))

abbrev two : Pool lru toy
two = after (fetch_page lru toy one (page 1))

abbrev three : Pool lru toy
three = (unpin_page lru toy two (page 0) true).1

abbrev four : Pool lru toy
four = after (new_page lru toy three (pos 3))

abbrev flushed : Pool lru toy
flushed = after (flush_page lru toy three (page 0))

runs :
    (four.page_table (page 0) ≡ none)
    × (four.page_table (page 2) ≡ some 0)
    × (fetch_page lru toy two (page 2) ≡ ok (none, two))
    × ((unpin_page lru toy flushed (page 0) false).0 ≡ false)
unfolding program toy_write
runs = (refl, refl, refl, refl)

one-Inv : Inv lru toy one
unfolding program
one-Inv = fetch_page-Inv lru toy start one (page 0) (some 0) start-Inv refl refl

fetch_page-Inv_example : Inv lru toy one
unfolding program
fetch_page-Inv_example = fetch_page-Inv lru toy start one (page 0) (some 0) start-Inv refl refl

two-Inv : Inv lru toy two
unfolding program
two-Inv = fetch_page-Inv lru toy one two (page 1) (some 1) one-Inv refl refl

three-Inv : Inv lru toy three
unfolding program
three-Inv = unpin_page-Inv lru toy two (page 0) true two-Inv (λ f there e. cc)

unpin_page-Inv_example : Inv lru toy three
unfolding program
unpin_page-Inv_example = unpin_page-Inv lru toy two (page 0) true two-Inv (λ f there e. cc)

unpin_page_result_example :
    let q = three in
    (view lru toy q (page 1) ≡ view lru toy two (page 1))
    × (((unpin_page lru toy two (page 0) true).0 ≡ false)
          × (q ≡ two)
          × ((two.page_table (page 0) ≡ none)
              ⊎ ((f : ℕ) × (two.page_table (page 0) ≡ some f) × ((two.pages f).pin_count ≡ 0)))
        ⊎ ((unpin_page lru toy two (page 0) true).0 ≡ true)
          × ((f : ℕ) × (two.page_table (page 0) ≡ some f)
              × ((q.pages f).pin_count + 1 ≡ (two.pages f).pin_count)
              × ((q.pages f).is_dirty ≡ (if true then true else (two.pages f).is_dirty))
              × (contains f (frames q.replacer) ≡ ((q.pages f).pin_count == 0))))
unfolding program
unpin_page_result_example = unpin_page_result lru toy two (page 0) (page 1) true two-Inv

fetch_page_result_example :
    ((◌≡◌ {A = Option ℕ} (some 1) none)
      × (two ≡ one)
      × (one.page_table (page 1) ≡ none)
      × AllPinned lru toy one)
    ⊎ ((f : ℕ) × (◌≡◌ {A = Option ℕ} (some 1) (some f))
        × (f < 2)
        × (two.page_table (page 1) ≡ some f)
        × ((two.pages f).id ≡ page 1)
        × (0 < (two.pages f).pin_count))
unfolding program
fetch_page_result_example = fetch_page_result lru toy one two (page 1) (some 1) one-Inv refl refl

view-fetch_page_example : view lru toy two (page 0) ≡ some 70
unfolding program
view-fetch_page_example =
    view-fetch_page lru toy one two (page 1) (some 1) (page 0) 70 one-Inv refl refl refl

content-fetch_page_example : (two.pages 1).content ≡ 71
unfolding program
content-fetch_page_example = content-fetch_page lru toy one two (page 1) 1 71 one-Inv refl refl refl

new_page-Inv_example : Inv lru toy four
unfolding program toy_write
new_page-Inv_example =
    new_page-Inv lru toy three four (pos 3) (some (0, page 2)) three-Inv refl refl refl

view-new_page_example : view lru toy four (page 0) ≡ some 70
unfolding program toy_write
view-new_page_example =
    view-new_page lru toy three four (pos 3) (some (0, page 2)) (page 0) 70 three-Inv refl refl refl
      (ground arith) refl

flushed-Inv : Inv lru toy flushed
unfolding program toy_write
flushed-Inv = flush_page-Inv lru toy three flushed (page 0) true three-Inv refl

flush_page_result_example :
    (view lru toy flushed (page 1) ≡ some 71)
    × (((true ≡ false) × (three.page_table (page 0) ≡ none) × (flushed ≡ three))
        ⊎ ((true ≡ true) × (flushed.store.file (page 0) ≡ view lru toy three (page 0))))
unfolding program toy_write
flush_page_result_example =
    flush_page_result lru toy three flushed (page 0) (page 1) true 71 three-Inv refl refl

abbrev state : Outcome DiskError (Pool lru toy) (Pool lru toy) → Pool lru toy
state (ok p) = p
state (throws e p) = p
state aborted = start

abbrev all_flushed : Pool lru toy
all_flushed = state (flush_all_pages lru toy three (pos 3))

-- Both pages are released, page 0 as dirty; then all is flushed and freed, or page 1 deleted.
abbrev released : Pool lru toy
released = (unpin_page lru toy three (page 1) true).1

released-Inv : Inv lru toy released
unfolding program
released-Inv = unpin_page-Inv lru toy three (page 1) true three-Inv (λ f there e. cc)

abbrev stored : Pool lru toy
stored = state (flush_all_pages lru toy released (pos 3))

abbrev freed : Pool lru toy
freed = state (free_page lru toy stored (page 1))

abbrev all_freed : Pool lru toy
all_freed = state (free_all_pages lru toy stored (pos 3))

abbrev deleted : Pool lru toy
deleted = after (delete_page lru toy released (page 1))

stored-Inv : Inv lru toy stored
unfolding program toy_write
stored-Inv = flush_all_pages-Inv lru toy released stored (pos 3) released-Inv refl

flush_all_pages_result_example :
    (all_flushed.store.file (page 0) ≡ view lru toy three (page 0))
    × (view lru toy all_flushed (page 1) ≡ some 71)
unfolding program toy_write
flush_all_pages_result_example =
    flush_all_pages_result lru toy three all_flushed (pos 3) 0 (page 1) 71 three-Inv refl
      (omega arith) refl refl

deleted-Inv : Inv lru toy deleted
unfolding program toy_write
deleted-Inv = delete_page-Inv lru toy released deleted (page 1) true released-Inv refl

delete_page_result_example :
    (view lru toy deleted (page 0) ≡ some 70)
    × (((true ≡ true) × (released.page_table (page 1) ≡ none) × (deleted ≡ released))
        ⊎ ((true ≡ false)
            × (deleted ≡ released)
            × ((f : ℕ) × (released.page_table (page 1) ≡ some f)
                × ((released.pages f).pin_count ≢ 0)))
        ⊎ ((f : ℕ) × (true ≡ true)
            × (released.page_table (page 1) ≡ some f)
            × ((released.pages f).pin_count ≡ 0)
            × (deleted.page_table (page 1) ≡ none)
            × (deleted.free_list ≡ released.free_list ++ f ∷ [])))
unfolding program toy_write
delete_page_result_example =
    delete_page_result lru toy released deleted (page 1) (page 0) true 70 released-Inv refl refl

free_page_result_test :
    Inv lru toy freed
    × (view lru toy freed (page 0) ≡ some 70)
    × (freed.page_table (page 1) ≡ none)
    × ((stored.page_table (page 1) ≡ none)
        ⊎ ((f : ℕ) × (stored.page_table (page 1) ≡ some f)
            × ((stored.pages f).pin_count ≡ 0)
            × ((stored.pages f).is_dirty ≡ false)))
unfolding program toy_write
free_page_result_test =
    free_page_result lru toy stored freed (page 1) (page 0) 70 stored-Inv refl refl

free_all_pages_result_example :
    Inv lru toy all_freed
    × (view lru toy all_freed (page 0) ≡ some 70)
    × (all_freed.page_table (page 1) ≡ none)
unfolding program toy_write
free_all_pages_result_example =
    free_all_pages_result lru toy stored all_freed (page 1) (page 0) 70 stored-Inv refl refl
