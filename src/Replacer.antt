-- ===== src/Replacer.antt =====
-- replacer/replacer.h, the abstract class `Replacer`: what the buffer pool may rely on. The child
-- `Lru` models replacer/lru_replacer.cpp and fills the interface.
pub mod Lru
use cscc_db.Base.{ℕ, ◌≡◌, Bool, true, false, Option, none, some, ◌==◌, if◌then◌else◌}

-- `evictable r f` says that frame `f` is tracked as a candidate for eviction.
pub record Replacer : Type 1 where
  pub State : Type 0
  pub IsValid : State → Type 0
  pub victim : State → Option (ℕ × State)
  pub pin : ℕ → State → State
  pub unpin : ℕ → State → State
  pub evictable : State → ℕ → Bool
  pub victim_none : (r : State) → IsValid r → victim r ≡ none → (g : ℕ) → evictable r g ≡ false
  pub victim_some :
      (r r' : State) (f : ℕ)
      → IsValid r
      → victim r ≡ some (f, r')
      → IsValid r'
        × (evictable r f ≡ true)
        × ((g : ℕ) → evictable r' g ≡ (if g == f then false else evictable r g))
  pub pin_laws :
      (r : State) (f : ℕ)
      → IsValid r
      → IsValid (pin f r)
        × ((g : ℕ) → evictable (pin f r) g ≡ (if g == f then false else evictable r g))
  pub unpin_laws :
      (r : State) (f : ℕ)
      → IsValid r
      → IsValid (unpin f r)
        × ((g : ℕ) → evictable (unpin f r) g ≡ (if g == f then true else evictable r g))
