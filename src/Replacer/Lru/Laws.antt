-- ===== src/Replacer/Lru/Laws.antt =====
-- The invariant of `LRUReplacer`, and what a call does to the list of frames.
use cscc_db.Base.{
  ℕ, ◌≡◌, refl, ◌≤◌, ◌<◌, true, false, Option, none, some, List, [], ◌∷◌, map, arith, ◌==◌,
  if◌then◌else◌, contains, IsDistinct, remove, Option-cases, inl, inr, update, remove-IsDistinct,
  remove-absent, sym, ◌∙◌, ◌⊎◌, subst, ap,
}
use cscc_db.Replacer.Lru.{
  Node, LruReplacer, init, back, pop_back, erase_node, victim, pin, unpin, frames,
}

-- The identity of the first node that holds a frame.
unfoldable pub node_of : ℕ → List Node → Option ℕ
node_of f [] = none
node_of f (n ∷ ns) = if n.frame == f then some n.id else node_of f ns

abbrev list_frames : List Node → List ℕ
list_frames = map (λ n. n.frame)

-- Identities fall along the list and stay below the bound.
abbrev pub Below : ℕ → List Node → Type 0
Below b [] = Unit {0}
Below b (n ∷ ns) = (n.id < b) × Below n.id ns

-- `LRUhash_` names, for each frame, the node that holds it; no frame is held twice; no node is
-- shared.
pub record IsValid (r : LruReplacer) : Type 0 where
  pub hash_agrees : (f : ℕ) → r.lru_hash f ≡ node_of f r.lru_list
  pub distinct : IsDistinct (frames r)
  pub nodes : Below r.next_node r.lru_list

node_of-none : (f : ℕ) (ns : List Node) → node_of f ns ≡ none → contains f (list_frames ns) ≡ false
unfolding node_of
node_of-none f [] e = refl
node_of-none f (n ∷ ns) e = ground (arith, node_of-none f ns)

node_of-absent :
    (f : ℕ) (ns : List Node) → contains f (list_frames ns) ≡ false → node_of f ns ≡ none
unfolding node_of
node_of-absent f [] e = refl
node_of-absent f (n ∷ ns) e = ground (arith, node_of-absent f ns)

node_of-some :
    (f i : ℕ) (ns : List Node) → node_of f ns ≡ some i → contains f (list_frames ns) ≡ true
unfolding node_of
node_of-some f i [] e = ground arith
node_of-some f i (n ∷ ns) e = ground (arith, node_of-some f i ns)

node_of-lt : (f b i : ℕ) (ns : List Node) → Below b ns → node_of f ns ≡ some i → i < b
unfolding node_of
node_of-lt f b i [] h e = ground arith
node_of-lt f b i (n ∷ ns) h e = ground (arith, node_of-lt f n.id i ns h.1)

Below-mono : (b c : ℕ) (ns : List Node) → b ≤ c → Below b ns → Below c ns
Below-mono b c [] h l = tt
Below-mono b c (n ∷ ns) h l = (ground arith, l.1)

-- Taking out the node that the hash names removes the frame.
frames-erase_node :
    (f b i : ℕ) (ns : List Node)
    → Below b ns
    → node_of f ns ≡ some i
    → list_frames (erase_node i ns) ≡ remove f (list_frames ns)
unfolding node_of erase_node remove
frames-erase_node f b i [] h e = ground arith
frames-erase_node f b i (n ∷ ns) h e =
    ground (arith, node_of-lt f n.id i ns h.1, frames-erase_node f n.id i ns h.1)

node_of-erase_node :
    (f g b i : ℕ) (ns : List Node)
    → Below b ns
    → IsDistinct (list_frames ns)
    → node_of f ns ≡ some i
    → node_of g (erase_node i ns) ≡ (if g == f then none else node_of g ns)
unfolding node_of erase_node
node_of-erase_node f g b i [] h d e = ground arith
node_of-erase_node f g b i (n ∷ ns) h d e = ground (
  arith,
  node_of-lt f n.id i ns h.1,
  node_of-erase_node f g n.id i ns h.1 d.1,
  node_of-absent f ns,
)

erase_node-Below : (b i : ℕ) (ns : List Node) → Below b ns → Below b (erase_node i ns)
unfolding erase_node
erase_node-Below b i [] h = tt
erase_node-Below b i (n ∷ ns) h =
    ground (arith, erase_node-Below n.id i ns h.1, Below-mono n.id b ns)

-- `back` is the last node.
back-none : (ns : List Node) → back ns ≡ none → ns ≡ []
unfolding back
back-none [] e = refl
back-none (n ∷ []) e = ground arith
back-none (n ∷ m ∷ ns) e = ground (arith, back-none (m ∷ ns))

pop_back-Below : (b : ℕ) (ns : List Node) → Below b ns → Below b (pop_back ns)
unfolding pop_back
pop_back-Below b [] h = tt
pop_back-Below b (n ∷ []) h = tt
pop_back-Below b (n ∷ m ∷ ns) h = (h.0, pop_back-Below n.id (m ∷ ns) h.1)

pub contains-pop_back :
    (g : ℕ) (n : Node) (ns : List Node)
    → IsDistinct (list_frames ns)
    → back ns ≡ some n
    → (contains n.frame (list_frames ns) ≡ true)
      × (contains g (list_frames (pop_back ns))
          ≡ (if g == n.frame then false else contains g (list_frames ns)))
unfolding back pop_back
contains-pop_back g n [] d e = ground arith
contains-pop_back g n (k ∷ []) d e = ground arith
contains-pop_back g n (k ∷ m ∷ ns) d e = ground (arith, contains-pop_back g n (m ∷ ns) d.1)

pop_back-IsDistinct :
    (n : Node) (ns : List Node)
    → IsDistinct (list_frames ns)
    → back ns ≡ some n
    → IsDistinct (list_frames (pop_back ns))
unfolding back pop_back
pop_back-IsDistinct n [] d e = tt
pop_back-IsDistinct n (k ∷ []) d e = tt
pop_back-IsDistinct n (k ∷ m ∷ ns) d e =
    ground (arith, contains-pop_back k.frame n (m ∷ ns) d.1, pop_back-IsDistinct n (m ∷ ns) d.1)

node_of-pop_back :
    (g : ℕ) (n : Node) (ns : List Node)
    → IsDistinct (list_frames ns)
    → back ns ≡ some n
    → node_of g (pop_back ns) ≡ (if g == n.frame then none else node_of g ns)
unfolding back pop_back node_of
node_of-pop_back g n [] d e = ground arith
node_of-pop_back g n (k ∷ []) d e = ground arith
node_of-pop_back g n (k ∷ m ∷ ns) d e =
    ground (arith, contains-pop_back k.frame n (m ∷ ns) d.1, node_of-pop_back g n (m ∷ ns) d.1)

-- The abstract operations on the list of frames.
abbrev pub unpin_frames : ℕ → List ℕ → List ℕ
unpin_frames f fs = if contains f fs then fs else f ∷ fs

pub frames-init : (n : ℕ) → frames (init n) ≡ []
unfolding frames init
frames-init n = refl

pub init-IsValid : (n : ℕ) → IsValid (init n)
unfolding init frames node_of
init-IsValid n = record { hash_agrees = λ f. refl; distinct = tt; nodes = tt }

-- A frame is in the hash exactly if it is in the list.
held_cases :
    (f : ℕ) (r : LruReplacer)
    → IsValid r
    → ((r.lru_hash f ≡ none) × (contains f (frames r) ≡ false))
      ⊎ ((i : ℕ) × (r.lru_hash f ≡ some i)
          × (node_of f r.lru_list ≡ some i)
          × (contains f (frames r) ≡ true))
unfolding frames
held_cases f r v = elim (Option-cases (r.lru_hash f)) [
  | inl e ↦ inl (e, node_of-none f r.lru_list (sym (v.hash_agrees f) ∙ e))
  | inr (i, e) ↦
      let at = sym (v.hash_agrees f) ∙ e in inr (i, e, at, node_of-some f i r.lru_list at)
]

pub frames-pin : (f : ℕ) (r : LruReplacer) → IsValid r → frames (pin f r) ≡ remove f (frames r)
unfolding frames pin
frames-pin f r v = elim (held_cases f r v) [
  | inl (e, absent) ↦ rw (e, pin) (sym (remove-absent f _ absent))
  | inr (i, e, at, _) ↦ rw (e, pin) (frames-erase_node f r.next_node i r.lru_list v.nodes at)
]

pub frames-unpin :
    (f : ℕ) (r : LruReplacer) → IsValid r → frames (unpin f r) ≡ unpin_frames f (frames r)
unfolding frames unpin
frames-unpin f r v = elim (held_cases f r v) [
  | inl (e, absent) ↦ rw (e, unpin, absent)
  | inr (i, e, _, present) ↦ rw (e, unpin, present)
]

pub pin-IsValid : (f : ℕ) (r : LruReplacer) → IsValid r → IsValid (pin f r)
unfolding pin frames
pin-IsValid f r v = elim (held_cases f r v) [
  | inl (e, _) ↦ rw (e, pin) v
  | inr (i, e, at, _) ↦
      rw (e, pin)
        (record {
          hash_agrees = λ g. ground (
            arith,
            v.hash_agrees g,
            node_of-erase_node f g r.next_node i r.lru_list v.nodes v.distinct at,
          );
          distinct =
              subst IsDistinct (sym (frames-erase_node f r.next_node i r.lru_list v.nodes at))
                (remove-IsDistinct f (frames r) v.distinct);
          nodes = erase_node-Below r.next_node i r.lru_list v.nodes;
        })
]

pub unpin-IsValid : (f : ℕ) (r : LruReplacer) → IsValid r → IsValid (unpin f r)
unfolding unpin frames
unpin-IsValid f r v = elim (held_cases f r v) [
  | inl (e, absent) ↦
      rw (e, unpin)
        (record {
          hash_agrees = λ g. unfold node_of in ground (arith, v.hash_agrees g);
          distinct = (absent, v.distinct);
          nodes = (omega arith, v.nodes);
        })
  | inr (i, e, _, _) ↦ rw (e, unpin) v
]

-- What a victim is: the last frame, unless there is none.
pub victim_cases :
    (r : LruReplacer)
    → ((victim r ≡ none) × (frames r ≡ []))
      ⊎ ((n : Node) × (back r.lru_list ≡ some n)
          × (victim r
              ≡ some (
                n.frame,
                record r {
                  lru_list = pop_back r.lru_list;
                  lru_hash = update r.lru_hash n.frame none;
                },
              )))
unfolding victim frames
victim_cases r = elim (Option-cases (back r.lru_list)) [
  | inl e ↦ inl (rw (e, victim), ap list_frames (back-none r.lru_list e))
  | inr (n, e) ↦ inr (n, e, rw (e, victim))
]

pub victim-IsValid : (r r' : LruReplacer) (f : ℕ) → IsValid r → victim r ≡ some (f, r') → IsValid r'
unfolding frames
victim-IsValid r r' f v e = elim (victim_cases r) [
  | inl (none_left, _) ↦ cc
  | inr (n, last, found) ↦ subst IsValid (cc) (kept n last)
]
  where
    kept :
        (n : Node)
        → back r.lru_list ≡ some n
        → IsValid
            (record r { lru_list = pop_back r.lru_list; lru_hash = update r.lru_hash n.frame none })
    kept n last = record {
      hash_agrees =
          λ g. ground (arith, v.hash_agrees g, node_of-pop_back g n r.lru_list v.distinct last);
      distinct = pop_back-IsDistinct n r.lru_list v.distinct last;
      nodes = pop_back-Below r.next_node r.lru_list v.nodes;
    }
