-- ===== src/Replacer/Lru/Instance.antt =====
-- `LRUReplacer` as a value of the interface that the buffer pool takes.
use cscc_db.Base.{
  ℕ, ◌≡◌, Bool, true, false, none, some, arith, ◌==◌, if◌then◌else◌, contains, inl, inr, ◌∙◌, ap,
  contains-remove,
}
use cscc_db.Replacer.{Replacer}
use cscc_db.Replacer.Lru.{LruReplacer, victim, pin, unpin, frames}
use cscc_db.Replacer.Lru.Laws.{
  IsValid, pin-IsValid, unpin-IsValid, victim-IsValid, victim_cases, frames-pin, frames-unpin,
  contains-pop_back,
}

abbrev pub evictable : LruReplacer → ℕ → Bool
evictable r f = contains f (frames r)

pub victim-none : (r : LruReplacer) → victim r ≡ none → (g : ℕ) → evictable r g ≡ false
victim-none r e g = elim (victim_cases r) [ inl (_, empty) ↦ rw empty | inr (n, _, found) ↦ cc ]

pub victim-evictable :
    (r r' : LruReplacer) (f : ℕ)
    → IsValid r
    → victim r ≡ some (f, r')
    → (evictable r f ≡ true)
      × ((g : ℕ) → evictable r' g ≡ (if g == f then false else evictable r g))
unfolding frames
victim-evictable r r' f v e = elim (victim_cases r) [
  | inl (missing, _) ↦ cc
  | inr (n, last, found) ↦ (
    ground (arith, contains-pop_back 0 n r.lru_list v.distinct last),
    λ g. ground (arith, contains-pop_back g n r.lru_list v.distinct last),
  )
]

pub pin-evictable :
    (r : LruReplacer) (f : ℕ)
    → IsValid r
    → (g : ℕ) → evictable (pin f r) g ≡ (if g == f then false else evictable r g)
pin-evictable r f v g =
    ap (contains g) (frames-pin f r v) ∙ contains-remove g f (frames r) v.distinct

pub unpin-evictable :
    (r : LruReplacer) (f : ℕ)
    → IsValid r
    → (g : ℕ) → evictable (unpin f r) g ≡ (if g == f then true else evictable r g)
unpin-evictable r f v g = ground (arith, ap (contains g) (frames-unpin f r v))

abbrev pub lru : Replacer
lru = record {
  State = LruReplacer;
  IsValid = IsValid;
  victim = victim;
  pin = pin;
  unpin = unpin;
  evictable = evictable;
  victim_none = λ r v e. victim-none r e;
  victim_some = λ r r' f v e.
      let (held, rest) = victim-evictable r r' f v e in (victim-IsValid r r' f v e, held, rest);
  pin_laws = λ r f v. (pin-IsValid f r v, pin-evictable r f v);
  unpin_laws = λ r f v. (unpin-IsValid f r v, unpin-evictable r f v);
}
