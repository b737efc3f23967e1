-- ===== src/Replacer/Lru/Order.antt =====
-- The order of eviction: `LRUReplacer` against a queue of frames, oldest first, over any sequence
-- of calls.
use mathlib.Core.List.{reverse-cons, reverse-append, reverse-reverse, append-nil}
use mathlib.Core.Path.{ap₂}
use cscc_db.Base.{
  ℕ, ◌≡◌, refl, Option, none, some, List, [], ◌∷◌, ◌++◌, map, reverse, arith, if◌then◌else◌,
  contains, IsDistinct, remove, inl, inr, sym, ◌∙◌, ap, contains-append, ◌⊎◌, subst, update,
  Bool-cases, remove-absent, remove-IsDistinct, IsDistinct-append_one,
}
use cscc_db.Replacer.Lru.{Node, LruReplacer, init, back, pop_back, victim, pin, unpin, frames}
use cscc_db.Replacer.Lru.Laws.{
  IsValid, init-IsValid, pin-IsValid, unpin-IsValid, victim-IsValid, victim_cases, frames-init,
  frames-pin, frames-unpin, unpin_frames,
}

pub data Call : Type 0 where
  victims : Call
  pins unpins : ℕ → Call

-- A call's new state and the victim that it reports, if any.
unfoldable pub step : LruReplacer → Call → LruReplacer × Option ℕ
step r victims = elim (victim r) [ none ↦ (r, none) | some (f, r') ↦ (r', some f) ]
step r (pins f) = (pin f r, none)
step r (unpins f) = (unpin f r, none)

-- The reports of a sequence of calls.
unfoldable pub run : LruReplacer → List Call → List (Option ℕ)
run r [] = []
run r (c ∷ cs) = (step r c).1 ∷ run (step r c).0 cs

-- The queue: a frame joins at the end when it is first released, leaves when it is pinned, and the
-- head is the victim.
pub queue_step : List ℕ → Call → List ℕ × Option ℕ
queue_step [] victims = ([], none)
queue_step (f ∷ q) victims = (q, some f)
queue_step q (pins f) = (remove f q, none)
queue_step q (unpins f) = (if contains f q then q else q ++ f ∷ [], none)

pub queue_run : List ℕ → List Call → List (Option ℕ)
queue_run q [] = []
queue_run q (c ∷ cs) = (queue_step q c).1 ∷ queue_run (queue_step q c).0 cs

pub record Tracks (r : LruReplacer) (q : List ℕ) : Type 0 where
  pub valid : IsValid r
  pub order : frames r ≡ reverse q
  pub distinct : IsDistinct q

contains-reverse : (a : ℕ) (xs : List ℕ) → contains a (reverse xs) ≡ contains a xs
contains-reverse a [] = refl
contains-reverse a (x ∷ xs) =
    rw (reverse-cons x xs, contains-append a (reverse xs) (x ∷ []), contains-reverse a xs)
      (ground arith)

remove-append :
    (a : ℕ) (xs ys : List ℕ)
    → remove a (xs ++ ys) ≡ (if contains a xs then remove a xs ++ ys else xs ++ remove a ys)
unfolding remove
remove-append a [] ys = refl
remove-append a (x ∷ xs) ys = ground (arith, remove-append a xs ys)

remove-reverse :
    (a : ℕ) (xs : List ℕ) → IsDistinct xs → remove a (reverse xs) ≡ reverse (remove a xs)
unfolding remove
remove-reverse a [] d = refl
remove-reverse a (x ∷ xs) d =
    rw (reverse-cons x xs, remove-append a (reverse xs) (x ∷ []), contains-reverse a xs)
      (ground (
        arith,
        remove-reverse a xs d.1,
        remove-absent a xs,
        reverse-cons x (remove a xs),
        append-nil (reverse xs),
        reverse-cons x xs,
      ))

Tracks-pin : (r : LruReplacer) (q : List ℕ) (f : ℕ) → Tracks r q → Tracks (pin f r) (remove f q)
Tracks-pin r q f t = record {
  valid = pin-IsValid f r t.valid;
  order = frames-pin f r t.valid ∙ ap (remove f) t.order ∙ remove-reverse f q t.distinct;
  distinct = remove-IsDistinct f q t.distinct;
}

Tracks-unpin :
    (r : LruReplacer) (q : List ℕ) (f : ℕ)
    → Tracks r q
    → Tracks (unpin f r) (if contains f q then q else q ++ f ∷ [])
Tracks-unpin r q f t =
    let same : contains f (frames r) ≡ contains f q =
      ap (contains f) t.order ∙ contains-reverse f q in
    let after : frames (unpin f r) ≡ unpin_frames f (frames r) = frames-unpin f r t.valid in
    elim (Bool-cases (contains f q)) [
      | inl old ↦ rw old (record {
        valid = unpin-IsValid f r t.valid;
        order = after ∙ rw (same ∙ old) t.order;
        distinct = t.distinct;
      })
      | inr new ↦ rw new (record {
        valid = unpin-IsValid f r t.valid;
        order = after ∙ rw (same ∙ new) (rw (reverse-append q (f ∷ [])) (ap (◌∷◌ f) t.order));
        distinct = IsDistinct-append_one q f t.distinct new;
      })
    ]

list_frames-back :
    (ns : List Node) (n : Node)
    → back ns ≡ some n
    → map (λ m. m.frame) ns ≡ map (λ m. m.frame) (pop_back ns) ++ n.frame ∷ []
unfolding back pop_back
list_frames-back [] n e = ground arith
list_frames-back (k ∷ []) n e = ground arith
list_frames-back (k ∷ m ∷ ns) n e = ground (arith, list_frames-back (m ∷ ns) n)

-- A replacer that tracks a queue reports the queue's head.
Tracks-victim :
    (r : LruReplacer) (q : List ℕ)
    → Tracks r q
    → ((victim r ≡ none) × (q ≡ []))
      ⊎ ((f : ℕ) × (q' : List ℕ) × (r' : LruReplacer) × (victim r ≡ some (f, r'))
          × (q ≡ f ∷ q')
          × Tracks r' q')
unfolding frames
Tracks-victim r q t = elim (victim_cases r) [
  | inl (e, empty) ↦ inl (e, queue ∙ ap reverse empty)
  | inr (n, last, found) ↦
      let rest = record r {
        lru_list = pop_back r.lru_list;
        lru_hash = update r.lru_hash n.frame none;
      } in
      let split : q ≡ n.frame ∷ reverse (frames rest) =
        queue
        ∙ ap reverse (list_frames-back r.lru_list n last)
        ∙ reverse-append (frames rest) (n.frame ∷ []) in
      inr (
        n.frame,
        reverse (frames rest),
        rest,
        found,
        split,
        record {
          valid = victim-IsValid r rest n.frame t.valid found;
          order = sym (reverse-reverse (frames rest));
          distinct = (subst IsDistinct split t.distinct).1;
        },
      )
]
  where
    queue : q ≡ reverse (frames r)
    queue = sym (ap reverse t.order ∙ reverse-reverse q)

Tracks-step :
    (r : LruReplacer) (q : List ℕ) (c : Call)
    → Tracks r q
    → Tracks (step r c).0 (queue_step q c).0 × ((step r c).1 ≡ (queue_step q c).1)
unfolding step queue_step
Tracks-step r q victims t = elim (Tracks-victim r q t) [
  | inl (e, empty) ↦ rw (e, step, empty, queue_step) (rw empty at t, refl)
  | inr (f, q', r', found, split, t') ↦ rw (found, step, split, queue_step) (t', refl)
]
Tracks-step r (f ∷ q) (pins g) t = (Tracks-pin r (f ∷ q) g t, refl)
Tracks-step r [] (pins g) t = (Tracks-pin r [] g t, refl)
Tracks-step r (f ∷ q) (unpins g) t = (Tracks-unpin r (f ∷ q) g t, refl)
Tracks-step r [] (unpins g) t = (Tracks-unpin r [] g t, refl)

run-queue_run :
    (r : LruReplacer) (q : List ℕ) (cs : List Call) → Tracks r q → run r cs ≡ queue_run q cs
unfolding run queue_run
run-queue_run r q [] t = refl
run-queue_run r q (c ∷ cs) t =
    let (t', same) = Tracks-step r q c t in
    ap₂ ◌∷◌ same (run-queue_run (step r c).0 (queue_step q c).0 cs t')

-- A new replacer reports, for every sequence of calls of `victim`, `pin` and `unpin`, the victims
-- that the queue reports: always the frame that was released longest ago and not pinned since, and
-- none exactly when no frame is tracked.
pub run-init : (num_pages : ℕ) (cs : List Call) → run (init num_pages) cs ≡ queue_run [] cs
run-init num_pages cs =
    run-queue_run (init num_pages) [] cs
      (record { valid = init-IsValid num_pages; order = frames-init num_pages; distinct = tt })
