-- ===== src/MergeSort/Merge.antt =====
-- `merge` of Assignment concurrency /q1/Q1.c writes the merge of two lists, and touches no other index.
use osn_assignments.Base.{
  ℕ, zero, suc, ◌+◌, ◌-◌, ◌<◌, ◌≤◌, ◌≡◌, refl, ◌∙◌, ap, ap₂, ◌⊎◌, inl, inr, if◌then◌else◌, List, [],
  ◌∷◌, length, tab, length-tab, update, update_self, update_ne, arith, Bool-cases,
}
use osn_assignments.Base.Int.{ℤ, le_int, ◌≤ℤ◌}
use osn_assignments.MergeSort.{Array, copy_rest, merge_loop, merge}
use osn_assignments.MergeSort.Counts.{count, occurs, occurs-split}

-- The merge of two lists; ties go to the first.
unfoldable pub merged : List ℤ → List ℤ → List ℤ
merged [] right = right
merged (x ∷ left) [] = x ∷ left
merged (x ∷ left) (y ∷ right) =
    let take_left = merged left (y ∷ right) in
    let take_right = merged (x ∷ left) right in if le_int x y then x ∷ take_left else y ∷ take_right

merge_loop-merged :
    (k : ℕ) (left right : List ℤ) (arr : Array)
    → merge_loop k left right arr ≡ copy_rest k (merged left right) arr
unfolding merge_loop merged
merge_loop-merged k [] right arr = refl
merge_loop-merged k (x ∷ left) [] arr = refl
merge_loop-merged k (x ∷ left) (y ∷ right) arr = elim (Bool-cases (le_int x y)) [
  | inl e ↦ rw e (merge_loop-merged (k + 1) left (y ∷ right) (update arr k x))
  | inr e ↦ rw e (merge_loop-merged (k + 1) (x ∷ left) right (update arr k y))
]

copy_rest-outside :
    (k a : ℕ) (xs : List ℤ) (arr : Array)
    → (a < k) ⊎ (k + length xs ≤ a)
    → copy_rest k xs arr a ≡ arr a
unfolding copy_rest
copy_rest-outside k a [] arr o = refl
copy_rest-outside k a (x ∷ xs) arr o =
    copy_rest-outside (k + 1) a xs (update arr k x) (omega arith)
    ∙ update_ne arr k a x (omega arith)

tab-copy_rest :
    (k n : ℕ) (xs : List ℤ) (arr : Array) → length xs ≡ n → tab (copy_rest k xs arr) k n ≡ xs
unfolding copy_rest
tab-copy_rest k zero [] arr e = refl
tab-copy_rest k zero (x ∷ xs) arr e = absurd (omega arith)
tab-copy_rest k (suc n) [] arr e = absurd (omega arith)
tab-copy_rest k (suc n) (x ∷ xs) arr e =
    ap₂ ◌∷◌ (copy_rest-outside (k + 1) k xs (update arr k x) (omega arith) ∙ update_self arr k x)
      (tab-copy_rest (k + 1) n xs (update arr k x) (omega arith))

length-merged : (left right : List ℤ) → length (merged left right) ≡ length left + length right
unfolding merged
length-merged [] right = omega arith
length-merged (x ∷ left) [] = omega arith
length-merged (x ∷ left) (y ∷ right) = elim (Bool-cases (le_int x y)) [
  | inl e ↦ rw e (omega (arith, length-merged left (y ∷ right)))
  | inr e ↦ rw e (omega (arith, length-merged (x ∷ left) right))
]

count-merged :
    (v : ℤ) (left right : List ℤ) → count v (merged left right) ≡ count v left + count v right
unfolding merged
count-merged v [] right = omega arith
count-merged v (x ∷ left) [] = omega arith
count-merged v (x ∷ left) (y ∷ right) = elim (Bool-cases (le_int x y)) [
  | inl e ↦ rw e (omega (arith, count-merged v left (y ∷ right)))
  | inr e ↦ rw e (omega (arith, count-merged v (x ∷ left) right))
]

-- Every item is at least `v`; each item is at most the later ones.
abbrev pub Above : ℤ → List ℤ → Type 0
Above v [] = Unit
Above v (x ∷ xs) = (v ≤ℤ x) × Above v xs

abbrev pub Ascending : List ℤ → Type 0
Ascending [] = Unit
Ascending (x ∷ xs) = Above x xs × Ascending xs

Above-le : (u v : ℤ) (xs : List ℤ) → u ≤ℤ v → Above v xs → Above u xs
Above-le u v [] h a = tt
Above-le u v (x ∷ xs) h a = (omega (arith, a.0), Above-le u v xs h a.1)

Above-merged :
    (v : ℤ) (left right : List ℤ) → Above v left → Above v right → Above v (merged left right)
unfolding merged
Above-merged v [] right a b = b
Above-merged v (x ∷ left) [] a b = a
Above-merged v (x ∷ left) (y ∷ right) a b = elim (Bool-cases (le_int x y)) [
  | inl e ↦ rw e (a.0, Above-merged v left (y ∷ right) a.1 b)
  | inr e ↦ rw e (b.0, Above-merged v (x ∷ left) right a b.1)
]

pub Ascending-merged :
    (left right : List ℤ) → Ascending left → Ascending right → Ascending (merged left right)
unfolding merged
Ascending-merged [] right a b = b
Ascending-merged (x ∷ left) [] a b = a
Ascending-merged (x ∷ left) (y ∷ right) a b = elim (Bool-cases (le_int x y)) [
  | inl e ↦
      let le : x ≤ℤ y = ground arith in
      rw e (
        Above-merged x left (y ∷ right) a.0 (le, Above-le x y right le b.0),
        Ascending-merged left (y ∷ right) a.1 b,
      )
  | inr e ↦
      let le : y ≤ℤ x = ground arith in
      rw e (
        Above-merged y (x ∷ left) right (le, Above-le y x left le a.0) b.0,
        Ascending-merged (x ∷ left) right a b.1,
      )
]

module _ (lo mid hi : ℕ) (arr : Array) (in_left : lo ≤ mid) (in_right : mid ≤ hi) where
  merged_list : List ℤ
  merged_list = merged (tab arr lo (mid - lo)) (tab arr mid (hi - mid))

  length-merged_list : length merged_list ≡ hi - lo
  unfolding merged_list
  length-merged_list =
      length-merged (tab arr lo (mid - lo)) (tab arr mid (hi - mid))
      ∙ omega (arith, length-tab arr lo (mid - lo), length-tab arr mid (hi - mid))

  merge-eq : merge lo mid hi arr ≡ copy_rest lo merged_list arr
  unfolding merge merged_list
  merge-eq = merge_loop-merged lo (tab arr lo (mid - lo)) (tab arr mid (hi - mid)) arr

  -- What stands in the range after the merge.
  pub tab-merge :
      tab (merge lo mid hi arr) lo (hi - lo)
      ≡ merged (tab arr lo (mid - lo)) (tab arr mid (hi - mid))
  unfolding merged_list
  tab-merge =
      ap (λ (a : Array). tab a lo (hi - lo)) merge-eq
      ∙ tab-copy_rest lo (hi - lo) merged_list arr length-merged_list

  pub merge-outside : (a : ℕ) → (a < lo) ⊎ (hi ≤ a) → merge lo mid hi arr a ≡ arr a
  merge-outside a o =
      ap (λ (f : Array). f a) merge-eq
      ∙ copy_rest-outside lo a merged_list arr (omega (arith, length-merged_list))

  pub occurs-merge : (v : ℤ) → occurs v (merge lo mid hi arr) lo hi ≡ occurs v arr lo hi
  occurs-merge v =
      ap (count v) tab-merge
      ∙ count-merged v (tab arr lo (mid - lo)) (tab arr mid (hi - mid))
      ∙ omega (arith, occurs-split v arr lo mid hi in_left in_right)
