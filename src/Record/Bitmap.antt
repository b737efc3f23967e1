-- ===== src/Record/Bitmap.antt =====
-- record/bitmap.h: the class `Bitmap`, on a list of bytes. A `char` is its byte, 0 to 255; an access
-- beyond the end is undefined in the source, reads 0 here and writes nothing.
use native.Mathlib.Decide.{ℕ_discrete}
use cscc_db.Base.{
  ℕ, zero, suc, ◌+◌, ◌-◌, ◌*◌, ◌/◌, ◌%◌, ◌≤◌, ◌<◌, ◌≡◌, refl, ◌≢◌, ◌⊎◌, inl, inr, Bool, true, false,
  not, ◌==◌, if◌then◌else◌, arith, List, [], ◌∷◌, length, get_or, leb, Bool-cases, ==_refl, ap,
  set as set_byte, replicate, length-set,
}

-- BITMAP_WIDTH.
abbrev pub bitmap_width : ℕ
bitmap_width = 8

unfoldable pub get_bucket : ℕ → ℕ
get_bucket pos = pos / bitmap_width

-- `BITMAP_HIGHEST_BIT >> k` for k below 8.
abbrev pub shifted : ℕ → ℕ
shifted k = get_or (128 ∷ 64 ∷ 32 ∷ 16 ∷ 8 ∷ 4 ∷ 2 ∷ 1 ∷ []) k 0

unfoldable pub get_bit : ℕ → ℕ
get_bit pos = shifted (pos % bitmap_width)

-- `(byte & bit) != 0`, `byte | bit` and `byte & ~bit` for a power of two.
abbrev pub has : ℕ → ℕ → Bool
has byte bit = (byte / bit) % 2 == 1

abbrev pub with_bit : ℕ → ℕ → ℕ
with_bit byte bit = if has byte bit then byte else byte + bit

abbrev pub without_bit : ℕ → ℕ → ℕ
without_bit byte bit = if has byte bit then byte - bit else byte

unfoldable pub init : ℕ → List ℕ
init size = replicate size 0

unfoldable pub set : List ℕ → ℕ → List ℕ
set bm pos = set_byte bm (get_bucket pos) (with_bit (get_or bm (get_bucket pos) 0) (get_bit pos))

unfoldable pub reset : List ℕ → ℕ → List ℕ
reset bm pos =
    set_byte bm (get_bucket pos) (without_bit (get_or bm (get_bucket pos) 0) (get_bit pos))

unfoldable pub is_set : List ℕ → ℕ → Bool
is_set bm pos = has (get_or bm (get_bucket pos) 0) (get_bit pos)

-- The loop of `next_bit` from `i` on, with `n` turns to `max_n`.
unfoldable pub scan_bits : ℕ → Bool → List ℕ → ℕ → ℕ
scan_bits zero bit bm i = i
scan_bits (suc n) bit bm i =
    let rest = scan_bits n bit bm (i + 1) in
    if (if bit then is_set bm i else not (is_set bm i)) then i else rest

-- `start` is `curr + 1`, so that `first_bit` starts at 0.
unfoldable pub next_bit : Bool → List ℕ → ℕ → ℕ → ℕ
next_bit bit bm max_n start =
    if leb start max_n then scan_bits (max_n - start) bit bm start else max_n

unfoldable pub first_bit : Bool → List ℕ → ℕ → ℕ
first_bit bit bm max_n = next_bit bit bm max_n 0

-- The bits of a byte.
abbrev IsBit : ℕ → Type 0
IsBit p = (p ≡ 128) ⊎ (p ≡ 64) ⊎ (p ≡ 32) ⊎ (p ≡ 16) ⊎ (p ≡ 8) ⊎ (p ≡ 4) ⊎ (p ≡ 2) ⊎ (p ≡ 1)

has-with_bit :
    (b p q : ℕ) → IsBit p → IsBit q → has (with_bit b p) q ≡ (if p == q then true else has b q)
has-with_bit b p q hp hq = ground arith

has-without_bit :
    (b p q : ℕ) → IsBit p → IsBit q → has (without_bit b p) q ≡ (if p == q then false else has b q)
has-without_bit b p q hp hq = ground arith

IsPlace : ℕ → Type 0
IsPlace k = (k ≡ 0) ⊎ (k ≡ 1) ⊎ (k ≡ 2) ⊎ (k ≡ 3) ⊎ (k ≡ 4) ⊎ (k ≡ 5) ⊎ (k ≡ 6) ⊎ (k ≡ 7)

mod-IsPlace : (pos : ℕ) → IsPlace (pos % 8)
unfolding IsPlace
mod-IsPlace pos = ground arith

shifted-IsBit : (k : ℕ) → IsPlace k → IsBit (shifted k)
unfolding IsPlace
shifted-IsBit k h = ground arith

shifted-inj : (k m : ℕ) → IsPlace k → IsPlace m → (shifted k == shifted m) ≡ (k == m)
unfolding IsPlace
shifted-inj k m hk hm = ground arith

get_or-set :
    (bm : List ℕ) (k m v : ℕ)
    → k < length bm
    → get_or (set_byte bm k v) m 0 ≡ (if k == m then v else get_or bm m 0)
get_or-set [] k m v h = ground arith
get_or-set (b ∷ bm) zero zero v h = refl
get_or-set (b ∷ bm) zero (suc m) v h = ground arith
get_or-set (b ∷ bm) (suc k) zero v h = ground arith
get_or-set (b ∷ bm) (suc k) (suc m) v h = ground (arith, get_or-set bm k m v)

same_byte : (i j : ℕ) → i / 8 ≡ j / 8 → (i % 8 == j % 8) ≡ (i == j)
same_byte i j e = ground arith

other_byte : (i j : ℕ) → i / 8 ≢ j / 8 → (i == j) ≡ false
other_byte i j e = ground arith

unequal : (a b : ℕ) → a ≢ b → (a == b) ≡ false
unequal a b h = ground arith

-- A change of one byte, seen at the bits: `f` sets the bit `get_bit i` to `v`.
is_set-update :
    (bm : List ℕ) (i j byte : ℕ) (v : Bool)
    → i / 8 < length bm
    → ((q : ℕ)
        → IsBit q
        → has byte q ≡ (if shifted (i % 8) == q then v else has (get_or bm (i / 8) 0) q))
    → is_set (set_byte bm (i / 8) byte) j ≡ (if i == j then v else is_set bm j)
unfolding is_set get_bucket get_bit
is_set-update bm i j byte v inside f = elim (ℕ_discrete (i / 8) (j / 8)) [
  | yes e ↦
      rw
        (
          get_or-set bm (i / 8) (j / 8) byte inside,
          e,
          ==_refl (j / 8),
          f (shifted (j % 8)) (shifted-IsBit (j % 8) (mod-IsPlace j)),
          shifted-inj (i % 8) (j % 8) (mod-IsPlace i) (mod-IsPlace j),
          same_byte i j e,
        )
        (ap (λ k. if i == j then v else has (get_or bm k 0) (shifted (j % 8))) e)
  | no ne ↦
      rw (get_or-set bm (i / 8) (j / 8) byte inside, unequal (i / 8) (j / 8) ne, other_byte i j ne)
]

-- A position that has its byte in the bitmap.
abbrev pub Fits : List ℕ → ℕ → Type 0
Fits bm pos = pos < 8 * length bm

-- If position `i` lies in the bitmap, `set` makes `is_set` true there and `reset` makes it false;
-- neither changes it at any other position, nor the length of the bitmap.
pub is_set-set :
    (bm : List ℕ) (i j : ℕ)
    → Fits bm i
    → (is_set (set bm i) j ≡ (if i == j then true else is_set bm j))
      × (is_set (reset bm i) j ≡ (if i == j then false else is_set bm j))
      × (length (set bm i) ≡ length bm)
      × (length (reset bm i) ≡ length bm)
unfolding set reset get_bucket get_bit
is_set-set bm i j h =
    let bi = shifted-IsBit (i % 8) (mod-IsPlace i) in
    let b = get_or bm (i / 8) 0 in
    let inside : i / 8 < length bm = omega (arith, h) in
    (
      is_set-update bm i j _ true inside (λ q bq. has-with_bit b (shifted (i % 8)) q bi bq),
      is_set-update bm i j _ false inside (λ q bq. has-without_bit b (shifted (i % 8)) q bi bq),
      length-set bm (i / 8) _,
      length-set bm (i / 8) _,
    )

scan_bits-first :
    (n i : ℕ) (bit : Bool) (bm : List ℕ)
    → (i ≤ scan_bits n bit bm i)
      × (scan_bits n bit bm i ≤ n + i)
      × (scan_bits n bit bm i < n + i → is_set bm (scan_bits n bit bm i) ≡ bit)
      × ((j : ℕ) → i ≤ j → j < scan_bits n bit bm i → is_set bm j ≡ not bit)
unfolding scan_bits
scan_bits-first zero i bit bm = ground arith
scan_bits-first (suc n) i bit bm =
    let (lo, hi, hit, before) = scan_bits-first n (i + 1) bit bm in
    elim (Bool-cases (if bit then is_set bm i else not (is_set bm i))) [
      | inl e ↦ rw e (omega arith, omega arith, λ _. ground (arith, e), λ j a b. ground arith)
      | inr e ↦ rw e (
        omega (arith, lo),
        omega (arith, hi),
        λ l. hit (omega (arith, l)),
        λ j a b. ground (arith, e, before j),
      )
    ]

within : (a b : ℕ) → a ≤ b → leb a b ≡ true
within a b h = ground arith

-- If `curr + 1` is at most `max_n`, `next_bit` returns a position from there to `max_n`; below `max_n`
-- that position has the wanted bit, and no position passed over has it.
pub next_bit_result :
    (bit : Bool) (bm : List ℕ) (max_n start : ℕ)
    → start ≤ max_n
    → (start ≤ next_bit bit bm max_n start)
      × (next_bit bit bm max_n start ≤ max_n)
      × ((next_bit bit bm max_n start ≡ max_n) ⊎ (is_set bm (next_bit bit bm max_n start) ≡ bit))
      × ((j : ℕ) → start ≤ j → j < next_bit bit bm max_n start → is_set bm j ≡ not bit)
unfolding next_bit
next_bit_result bit bm max_n start h =
    let (lo, hi, hit, before) = scan_bits-first (max_n - start) start bit bm in
    rw (within start max_n h) (lo, omega (arith, hi, h), ground (arith, hit, hi, lo, h), before)

get_or-replicate : (n k : ℕ) → get_or {A = ℕ} (replicate n 0) k 0 ≡ zero
unfolding replicate
get_or-replicate zero k = refl
get_or-replicate (suc n) zero = refl
get_or-replicate (suc n) (suc k) = get_or-replicate n k

has-zero : (q : ℕ) → IsBit q → has 0 q ≡ false
has-zero q h = ground arith

pub is_set-init : (size i : ℕ) → is_set (init size) i ≡ false
unfolding init is_set get_bucket get_bit
is_set-init size i =
    rw (get_or-replicate size (i / 8))
      (has-zero (shifted (i % 8)) (shifted-IsBit (i % 8) (mod-IsPlace i)))
