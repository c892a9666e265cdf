-- ===== src/MergeSort/Sorted.antt =====
-- The merge sort of Assignment concurrency /q1/Q1.c sorts.
use osn_assignments.Base.{
  ℕ, zero, suc, ◌+◌, ◌-◌, ◌<◌, ◌≤◌, ◌≡◌, refl, ◌∙◌, ◌⊎◌, inl, inr, leb, true, false, tab, tab-ext,
  arith, Bool-cases,
}
use osn_assignments.Base.Int.{ℤ}
use osn_assignments.MergeSort.{Array, selection_sort, middle, sort_range, normal_merge_sort}
use osn_assignments.MergeSort.Counts.{occurs, occurs-split, occurs-ext}
use osn_assignments.MergeSort.Merge.{
  Ascending, Ascending-merged, tab-merge, merge-outside, occurs-merge,
}
use osn_assignments.MergeSort.Select.{
  selection_sort-outside, Ascending-selection_sort, occurs-selection_sort,
}

pub middle_lem : (lo hi : ℕ) → leb (lo + 5) hi ≡ true → (lo < middle lo hi) × (middle lo hi < hi)
middle_lem lo hi h = ground arith

-- A sort leaves every index outside its range alone.
pub sort_range-outside :
    (fuel lo hi t : ℕ) (arr : Array)
    → lo ≤ hi
    → (t < lo) ⊎ (hi ≤ t)
    → sort_range fuel lo hi arr t ≡ arr t
unfolding sort_range
sort_range-outside zero lo hi t arr h o = refl
sort_range-outside (suc fuel) lo hi t arr h o = elim (Bool-cases (leb (lo + 5) hi)) [
  | inr e ↦ rw e (selection_sort-outside (hi - lo) lo hi t arr (omega arith) o)
  | inl e ↦
      let m = middle_lem lo hi e in
      rw e (
        merge-outside lo (middle lo hi) hi
          (sort_range fuel (middle lo hi) hi (sort_range fuel lo (middle lo hi) arr))
          (omega (arith, m)) (omega (arith, m)) t o
        ∙ sort_range-outside fuel (middle lo hi) hi t (sort_range fuel lo (middle lo hi) arr)
            (omega (arith, m)) (omega (arith, m))
        ∙ sort_range-outside fuel lo (middle lo hi) t arr (omega (arith, m)) (omega (arith, m)))
]

pub occurs-sort_range :
    (v : ℤ) (fuel lo hi : ℕ) (arr : Array)
    → lo ≤ hi
    → occurs v (sort_range fuel lo hi arr) lo hi ≡ occurs v arr lo hi
unfolding sort_range
occurs-sort_range v zero lo hi arr h = refl
occurs-sort_range v (suc fuel) lo hi arr h = elim (Bool-cases (leb (lo + 5) hi)) [
  | inr e ↦ rw e (occurs-selection_sort v (hi - lo) lo lo hi arr (omega arith) (omega arith))
  | inl e ↦
      let m = middle_lem lo hi e in
      let mid = middle lo hi in
      let left = sort_range fuel lo mid arr in
      let both = sort_range fuel mid hi left in
      let keep : occurs v both lo mid ≡ occurs v left lo mid =
        occurs-ext v both left lo mid
          (λ j a b. sort_range-outside fuel mid hi j left (omega (arith, m)) (inl b)) in
      let keep' : occurs v left mid hi ≡ occurs v arr mid hi =
        occurs-ext v left arr mid hi
          (λ j a b. sort_range-outside fuel lo mid j arr (omega (arith, m)) (inr a)) in
      rw e (
        occurs-merge lo mid hi both (omega (arith, m)) (omega (arith, m)) v
        ∙ omega (
          arith,
          occurs-split v both lo mid hi (omega (arith, m)) (omega (arith, m)),
          occurs-split v arr lo mid hi (omega (arith, m)) (omega (arith, m)),
          keep,
          keep',
          occurs-sort_range v fuel mid hi left (omega (arith, m)),
          occurs-sort_range v fuel lo mid arr (omega (arith, m)),
        ))
]

Ascending-sort_range :
    (fuel lo hi : ℕ) (arr : Array)
    → hi - lo < fuel
    → Ascending (tab (sort_range fuel lo hi arr) lo (hi - lo))
unfolding sort_range
Ascending-sort_range zero lo hi arr h = absurd (omega arith)
Ascending-sort_range (suc fuel) lo hi arr h = elim (Bool-cases (leb (lo + 5) hi)) [
  | inr e ↦ rw e (short (Bool-cases (leb lo hi)))
  | inl e ↦
      let m = middle_lem lo hi e in
      let mid = middle lo hi in
      let left = sort_range fuel lo mid arr in
      let both = sort_range fuel mid hi left in
      let keep : tab both lo (mid - lo) ≡ tab left lo (mid - lo) =
        tab-ext both left lo (mid - lo) (λ j a b.
          sort_range-outside fuel mid hi j left (omega (arith, m)) (inl (omega (arith, m)))) in
      rw (e, tab-merge lo mid hi both (omega (arith, m)) (omega (arith, m)))
        (Ascending-merged (tab both lo (mid - lo)) (tab both mid (hi - mid))
          (rw keep (Ascending-sort_range fuel lo mid arr (omega (arith, m))))
          (Ascending-sort_range fuel mid hi left (omega (arith, m))))
]
  where
    short :
        (leb lo hi ≡ true) ⊎ (leb lo hi ≡ false)
        → Ascending (tab (selection_sort (hi - lo) lo hi arr) lo (hi - lo))
    short (inl q) = Ascending-selection_sort (hi - lo) lo hi arr (ground arith)
    short (inr q) = let z : hi - lo ≡ 0 = ground arith in rw z tt

-- normal_mergeSort puts the range in order, keeps how often each value stands in it, and touches no
-- index outside it.
pub normal_merge_sort_lem :
    (lo hi t : ℕ) (arr : Array) (v : ℤ)
    → lo ≤ hi
    → (t < lo) ⊎ (hi ≤ t)
    → Ascending (tab (normal_merge_sort lo hi arr) lo (hi - lo))
      × (occurs v (normal_merge_sort lo hi arr) lo hi ≡ occurs v arr lo hi)
      × (normal_merge_sort lo hi arr t ≡ arr t)
unfolding normal_merge_sort
normal_merge_sort_lem lo hi t arr v h o = (
  Ascending-sort_range (hi - lo + 1) lo hi arr (omega arith),
  occurs-sort_range v (hi - lo + 1) lo hi arr h,
  sort_range-outside (hi - lo + 1) lo hi t arr h o,
)
