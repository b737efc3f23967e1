-- ===== src/Execution/SeqScan/Slots.antt =====
-- The slots that the loop over a page finds: all that hold a record, since the page counts them.
use cscc_db.Base.{
  ℕ, zero, suc, ◌+◌, ◌≤◌, ◌≡◌, refl, List, [], ◌∷◌, length, if◌then◌else◌, arith, Bool-cases, inl,
  inr,
}
use cscc_db.Record.Bitmap.{is_set}
use cscc_db.Record.File.Pages.{count}
use cscc_db.Record.File.Scan.{slots_from}
use cscc_db.Execution.SeqScan.{collect}

-- One slot more.
slots_from_more :
    (t i : ℕ) (bm : List ℕ)
    → length (slots_from (suc t) bm i)
      ≡ length (slots_from t bm i) + (if is_set bm (i + t) then 1 else 0)
unfolding slots_from
slots_from_more zero i bm =
    let here : i + 0 ≡ i = omega arith in
    rw here (elim (Bool-cases (is_set bm i)) [ inl e ↦ rw e refl | inr e ↦ rw e refl ])
slots_from_more (suc t) i bm =
    let rest = slots_from_more t (i + 1) bm in
    let there : (i + 1) + t ≡ i + suc t = omega arith in
    elim (Bool-cases (is_set bm i)) [
      | inl e ↦ ground (arith, e, rest, there)
      | inr e ↦ ground (arith, e, rest, there)
    ]

pub length-slots_from : (n : ℕ) (bm : List ℕ) → length (slots_from n bm 0) ≡ count n bm
unfolding count slots_from
length-slots_from zero bm = refl
length-slots_from (suc n) bm =
    let start : 0 + n ≡ n = omega arith in
    ground (arith, slots_from_more n 0 bm, length-slots_from n bm, start)

empty_list : (xs : List ℕ) → length xs ≤ 0 → [] ≡ xs
empty_list [] le = refl
empty_list (x ∷ xs) le = ground (arith, le)

pub collect-slots_from :
    (t m j : ℕ) (bm : List ℕ)
    → length (slots_from t bm j) ≤ m
    → collect t m bm j ≡ slots_from t bm j
unfolding collect slots_from
collect-slots_from zero m j bm le = refl
collect-slots_from (suc t) zero j bm le = elim (Bool-cases (is_set bm j)) [
  | inl e ↦ ground (arith, e, le)
  | inr e ↦
      let none_left : length (slots_from t bm (j + 1)) ≤ 0 = ground (arith, e, le) in
      rw e (empty_list (slots_from t bm (j + 1)) none_left)
]
collect-slots_from (suc t) (suc m) j bm le = elim (Bool-cases (is_set bm j)) [
  | inl e ↦ ground (arith, e, collect-slots_from t m (j + 1) bm (ground (arith, e, le)))
  | inr e ↦ ground (arith, e, collect-slots_from t (suc m) (j + 1) bm (ground (arith, e, le)))
]
