-- ===== src/Log/Memory.antt =====
-- Memory as the log code uses it: `memcpy` to an address, little-endian words, and fields written one
-- after the other, each followed by `offset += …`.
use native.Mathlib.Nat.{div-lt_iff_lt-mul}
use cscc_db.Base.{
  ℕ, zero, suc, ◌+◌, ◌-◌, ◌*◌, ◌/◌, ◌%◌, ◌^◌, ◌≤◌, ◌<◌, ◌≡◌, refl, ◌⊎◌, inr, ◌&&◌, ltb, leb,
  if◌then◌else◌, arith, List, [], ◌∷◌, length, get_or, ap, sym, ◌∙◌, ◌++◌, subst, length-append,
}

-- The byte at each address.
abbrev pub Memory : Type 0
Memory = ℕ → ℕ

unfoldable pub memcpy : Memory → ℕ → List ℕ → Memory
memcpy m at bytes i = if leb at i && ltb i (at + length bytes) then get_or bytes (i - at) 0 else m i

unfoldable pub bytes_at : Memory → ℕ → ℕ → List ℕ
bytes_at m at zero = []
bytes_at m at (suc n) = m at ∷ bytes_at m (at + 1) n

-- A word of `n` bytes.
unfoldable pub word_bytes : ℕ → ℕ → List ℕ
word_bytes zero v = []
word_bytes (suc n) v = v % 256 ∷ word_bytes n (v / 256)

unfoldable pub from_bytes : List ℕ → ℕ
from_bytes [] = 0
from_bytes (b ∷ bs) = b + 256 * from_bytes bs

abbrev pub read_word : ℕ → Memory → ℕ → ℕ
read_word n m at = from_bytes (bytes_at m at n)

-- Fields written from an address on: the bytes of each, and by how much the offset then grows.
unfoldable pub write_fields : Memory → ℕ → List (List ℕ × ℕ) → Memory
write_fields m at [] = m
write_fields m at ((bytes, advance) ∷ fs) = write_fields (memcpy m at bytes) (at + advance) fs

abbrev pub whole : List ℕ → List ℕ × ℕ
whole bytes = (bytes, length bytes)

-- The fields stand one after the other, each written whole.
abbrev pub Stands : Memory → ℕ → List (List ℕ × ℕ) → Type 0
Stands m at [] = Unit {0}
Stands m at ((bytes, advance) ∷ fs) =
    (bytes_at m at (length bytes) ≡ bytes) × Stands m (at + advance) fs

abbrev pub AreWhole : List (List ℕ × ℕ) → Type 0
AreWhole [] = Unit {0}
AreWhole ((bytes, advance) ∷ fs) = (advance ≡ length bytes) × AreWhole fs

pub length-word_bytes : (n v : ℕ) → length (word_bytes n v) ≡ n
unfolding word_bytes
length-word_bytes zero v = refl
length-word_bytes (suc n) v = ap suc (length-word_bytes n (v / 256))

pub from_bytes-word_bytes : (n v : ℕ) → v < 256 ^ n → from_bytes (word_bytes n v) ≡ v
unfolding word_bytes from_bytes
from_bytes-word_bytes zero v h = omega (arith, h)
from_bytes-word_bytes (suc n) v h =
    let rest =
      from_bytes-word_bytes n (v / 256)
        ((div-lt_iff_lt-mul {k = 256} {x = v} {y = 256 ^ n} (omega arith)).1 (omega (arith, h))) in
    omega (arith, rest)

-- Bytes read from a range that is not written to.
pub bytes_at-memcpy_other :
    (m : Memory) (at : ℕ) (bytes : List ℕ) (b n : ℕ)
    → (at + length bytes ≤ b) ⊎ (b + n ≤ at)
    → bytes_at (memcpy m at bytes) b n ≡ bytes_at m b n
unfolding bytes_at memcpy
bytes_at-memcpy_other m at bytes b zero h = refl
bytes_at-memcpy_other m at bytes b (suc n) h =
    ground (arith, bytes_at-memcpy_other m at bytes (b + 1) n)

bytes_at_ext :
    (f g : Memory) (b n : ℕ) → ((i : ℕ) → b ≤ i → f i ≡ g i) → bytes_at f b n ≡ bytes_at g b n
unfolding bytes_at
bytes_at_ext f g b zero e = refl
bytes_at_ext f g b (suc n) e =
    ground (arith, e b, bytes_at_ext f g (b + 1) n (λ i l. e i (omega (arith, l))))

memcpy_cons :
    (m : Memory) (at x : ℕ) (xs : List ℕ) (i : ℕ)
    → at + 1 ≤ i
    → memcpy m at (x ∷ xs) i ≡ memcpy m (at + 1) xs i
unfolding memcpy
memcpy_cons m at x xs i l =
    let past : i - at ≡ suc (i - (at + 1)) = omega (arith, l) in rw past (ground arith)

memcpy_head : (m : Memory) (at x : ℕ) (xs : List ℕ) → memcpy m at (x ∷ xs) at ≡ x
unfolding memcpy
memcpy_head m at x xs = let start : at - at ≡ 0 = omega arith in rw start (ground arith)

pub bytes_at-memcpy_same :
    (m : Memory) (at : ℕ) (bytes : List ℕ) → bytes_at (memcpy m at bytes) at (length bytes) ≡ bytes
unfolding bytes_at
bytes_at-memcpy_same m at [] = refl
bytes_at-memcpy_same m at (x ∷ xs) = rw (
  memcpy_head m at x xs,
  bytes_at_ext (memcpy m at (x ∷ xs)) (memcpy m (at + 1) xs) (at + 1) (length xs)
      (memcpy_cons m at x xs),
  bytes_at-memcpy_same m (at + 1) xs,
)

-- Nothing below the first field is written.
pub bytes_at-write_fields_below :
    (m : Memory) (at : ℕ) (fs : List (List ℕ × ℕ)) (b n : ℕ)
    → b + n ≤ at
    → bytes_at (write_fields m at fs) b n ≡ bytes_at m b n
unfolding write_fields
bytes_at-write_fields_below m at [] b n h = refl
bytes_at-write_fields_below m at ((bytes, advance) ∷ fs) b n h =
    bytes_at-write_fields_below (memcpy m at bytes) (at + advance) fs b n (omega (arith, h))
    ∙ bytes_at-memcpy_other m at bytes b n (inr h)

-- Fields written whole stand in memory one after the other.
pub write_fields-Stands :
    (m : Memory) (at : ℕ) (fs : List (List ℕ × ℕ))
    → AreWhole fs
    → Stands (write_fields m at fs) at fs
unfolding write_fields
write_fields-Stands m at [] w = tt
write_fields-Stands m at ((bytes, advance) ∷ fs) (e, w) = (
  bytes_at-write_fields_below (memcpy m at bytes) (at + advance) fs at (length bytes)
        (omega (arith, e))
      ∙ bytes_at-memcpy_same m at bytes,
  write_fields-Stands (memcpy m at bytes) (at + advance) fs w,
)

pub read_word-Stands :
    (n v : ℕ) (m : Memory) (at : ℕ)
    → v < 256 ^ n
    → bytes_at m at (length (word_bytes n v)) ≡ word_bytes n v
    → read_word n m at ≡ v
read_word-Stands n v m at h e =
    ap (λ k. read_word k m at) (sym (length-word_bytes n v))
    ∙ ap from_bytes e
    ∙ from_bytes-word_bytes n v h

pub length-bytes_at : (m : Memory) (at n : ℕ) → length (bytes_at m at n) ≡ n
unfolding bytes_at
length-bytes_at m at zero = refl
length-bytes_at m at (suc n) = ap suc (length-bytes_at m (at + 1) n)

pub bytes_at-+ :
    (m : Memory) (at n k : ℕ) → bytes_at m at (n + k) ≡ bytes_at m at n ++ bytes_at m (at + n) k
unfolding bytes_at
bytes_at-+ m at zero k =
    let start : at + 0 ≡ at = omega arith in
    let none_first : 0 + k ≡ k = omega arith in rw (start, none_first) refl
bytes_at-+ m at (suc n) k =
    let count : suc n + k ≡ suc (n + k) = omega arith in
    let place : (at + 1) + n ≡ at + suc n = omega arith in
    rw count (
      ap (λ bs. m at ∷ bs)
        (bytes_at-+ m (at + 1) n k ∙ ap (λ a. bytes_at m (at + 1) n ++ bytes_at m a k) place))

-- The bytes of fields that are written whole.
abbrev pub joined_bytes : List (List ℕ × ℕ) → List ℕ
joined_bytes [] = []
joined_bytes ((bytes, advance) ∷ fs) = bytes ++ joined_bytes fs

pub joined_bytes-Stands :
    (m : Memory) (at : ℕ) (fs : List (List ℕ × ℕ))
    → AreWhole fs
    → Stands m at fs
    → bytes_at m at (length (joined_bytes fs)) ≡ joined_bytes fs
unfolding bytes_at
joined_bytes-Stands m at [] w s = refl
joined_bytes-Stands m at ((bytes, advance) ∷ fs) (e, w) (first, rest) =
    let later : bytes_at m (at + length bytes) (length (joined_bytes fs)) ≡ joined_bytes fs =
      subst (λ n. bytes_at m (at + n) (length (joined_bytes fs)) ≡ joined_bytes fs) e
        (joined_bytes-Stands m (at + advance) fs w rest) in
    ap (bytes_at m at) (length-append bytes (joined_bytes fs))
    ∙ bytes_at-+ m at (length bytes) (length (joined_bytes fs))
    ∙ ap (λ bs. bs ++ bytes_at m (at + length bytes) (length (joined_bytes fs))) first
    ∙ ap (λ bs. bytes ++ bs) later
