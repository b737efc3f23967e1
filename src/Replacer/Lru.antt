-- ===== src/Replacer/Lru.antt =====
-- replacer/lru_replacer.h and lru_replacer.cpp: the class `LRUReplacer`. A call holds `latch_` from
-- beginning to end, so it is one step. A node of `std::list` has an identity, which an iterator
-- names; `LRUhash_` maps a frame to an iterator, so `erase(iter)` takes out one node and no search
-- by frame is made.
pub mod Laws
pub mod Order
pub mod Instance
pub mod Tests
use cscc_db.Base.{
  ℕ, suc, ◌+◌, Option, none, some, List, [], ◌∷◌, map, ◌==◌, if◌then◌else◌, length, update,
}

-- A node of `LRUlist_`.
pub record Node : Type 0 where
  pub id : ℕ
  pub frame : ℕ

-- `LRUlist_`, most recent first; `LRUhash_`, frame to iterator; `max_size_`. `next_node` is the
-- identity of the next node that `std::list` allocates.
pub record LruReplacer : Type 0 where
  pub lru_list : List Node
  pub lru_hash : ℕ → Option ℕ
  pub max_size : ℕ
  pub next_node : ℕ

unfoldable pub init : ℕ → LruReplacer
init num_pages = record { lru_list = []; lru_hash = λ _. none; max_size = num_pages; next_node = 0 }

-- `LRUlist_.back()` and `LRUlist_.pop_back()`.
unfoldable pub back : List Node → Option Node
back [] = none
back (n ∷ []) = some n
back (n ∷ m ∷ ns) = back (m ∷ ns)

unfoldable pub pop_back : List Node → List Node
pop_back [] = []
pop_back (n ∷ []) = []
pop_back (n ∷ m ∷ ns) = n ∷ pop_back (m ∷ ns)

-- `LRUlist_.erase(iter)`.
unfoldable pub erase_node : ℕ → List Node → List Node
erase_node i [] = []
erase_node i (n ∷ ns) = if n.id == i then ns else n ∷ erase_node i ns

-- The victim's frame, unless the list is empty.
unfoldable pub victim : LruReplacer → Option (ℕ × LruReplacer)
victim r = elim (back r.lru_list) [
  | none ↦ none
  | some n ↦ some (
    n.frame,
    record r { lru_list = pop_back r.lru_list; lru_hash = update r.lru_hash n.frame none },
  )
]

unfoldable pub pin : ℕ → LruReplacer → LruReplacer
pin frame_id r = elim (r.lru_hash frame_id) [
  | none ↦ r
  | some iter ↦ record r {
    lru_list = erase_node iter r.lru_list;
    lru_hash = update r.lru_hash frame_id none;
  }
]

unfoldable pub unpin : ℕ → LruReplacer → LruReplacer
unpin frame_id r = elim (r.lru_hash frame_id) [
  | none ↦ record r {
    lru_list = record { id = r.next_node; frame = frame_id } ∷ r.lru_list;
    lru_hash = update r.lru_hash frame_id (some r.next_node);
    next_node = r.next_node + 1;
  }
  | some iter ↦ r
]

-- `Size()`.
pub size : LruReplacer → ℕ
size r = length r.lru_list

-- The frames in the list, most recent first: the abstract state.
unfoldable pub frames : LruReplacer → List ℕ
frames r = map (λ n. n.frame) r.lru_list
