-- ===== src/MergeSort/Select.antt =====
-- The selection sort of Assignment concurrency /q1/Q1.c.
use osn_assignments.Base.{
  ℕ, zero, suc, ◌+◌, ◌-◌, ◌<◌, ◌≤◌, ◌≡◌, refl, ◌∙◌, ap, ◌⊎◌, inl, inr, ◌==◌, if◌then◌else◌, tab,
  update, update_ne, arith, Bool-cases,
}
use osn_assignments.Base.Int.{ℤ, lt_int, ◌≤ℤ◌}
use osn_assignments.MergeSort.{Array, swap, scan_min, select_round, selection_sort}
use osn_assignments.MergeSort.Counts.{occurs, occurs-swap}
use osn_assignments.MergeSort.Merge.{Above, Ascending}

-- What the scan finds: an index of the range, or where it started, with a least value.
record IsLeast (arr : Array) (j n mini r : ℕ) : Type 0 where
  place : (r ≡ mini) ⊎ ((j ≤ r) × (r < j + n))
  start : arr r ≤ℤ arr mini
  least : (t : ℕ) → j ≤ t → t < j + n → arr r ≤ℤ arr t

scan_min-IsLeast :
    (n j mini : ℕ) (arr : Array) → IsLeast arr j n mini (scan_min n j mini (arr mini) arr)
unfolding scan_min
scan_min-IsLeast zero j mini arr = record {
  place = inl refl;
  start = omega arith;
  least = λ t a b. absurd (omega arith);
}
scan_min-IsLeast (suc n) j mini arr = elim (Bool-cases (lt_int (arr j) (arr mini))) [
  | inl e ↦
      let r = scan_min-IsLeast n (j + 1) j arr in
      let le : arr j ≤ℤ arr mini = ground arith in
      rw e record {
        place = inr (omega (arith, r.place), omega (arith, r.place));
        start = omega (arith, r.start, le);
        least = λ t a b. from_start t j n (scan_min n (j + 1) j (arr j) arr) r.start r.least a b;
      }
  | inr e ↦
      let r = scan_min-IsLeast n (j + 1) mini arr in
      let le : arr mini ≤ℤ arr j = ground arith in
      rw e record {
        place = omega (arith, r.place);
        start = r.start;
        least = λ t a b.
            from_start t j n (scan_min n (j + 1) mini (arr mini) arr) (omega (arith, r.start, le))
              r.least a b;
      }
]
  where
    from_start :
        (t j n m : ℕ)
        → arr m ≤ℤ arr j
        → ((t : ℕ) → j + 1 ≤ t → t < j + 1 + n → arr m ≤ℤ arr t)
        → j ≤ t
        → t < j + suc n
        → arr m ≤ℤ arr t
    from_start t j n m s l a b = elim (Bool-cases (j == t)) [
      | inl e ↦ let e' : t ≡ j = ground arith in rw e' s
      | inr e ↦ l t (ground arith) (omega arith)
    ]

swap_at :
    (a b t : ℕ) (arr : Array)
    → swap a b arr t ≡ (if b == t then arr a else if a == t then arr b else arr t)
swap_at a b t arr = refl

module _ (i hi : ℕ) (arr : Array) (lt : i < hi) where
  found : ℕ
  found = scan_min (hi - i) i i (arr i) arr

  found-IsLeast : IsLeast arr i (hi - i) i found
  unfolding found
  found-IsLeast = scan_min-IsLeast (hi - i) i i arr

  found_in : (i ≤ found) × (found < hi)
  found_in = omega (arith, found-IsLeast.place)

  pub scan_min_in :
      (i ≤ scan_min (hi - i) i i (arr i) arr) × (scan_min (hi - i) i i (arr i) arr < hi)
  unfolding found
  scan_min_in = found_in

  select_round-eq : select_round i hi arr ≡ swap i found arr
  unfolding select_round found
  select_round-eq = refl

  pub select_round-outside : (t : ℕ) → (t < i) ⊎ (hi ≤ t) → select_round i hi arr t ≡ arr t
  select_round-outside t o =
      ap (λ (f : Array). f t) select_round-eq
      ∙ update_ne (update arr i (arr found)) found t (arr i) (omega (arith, found_in))
      ∙ update_ne arr i t (arr found) (omega arith)

  select_round-least : (t : ℕ) → i ≤ t → t < hi → select_round i hi arr i ≤ℤ select_round i hi arr t
  select_round-least t a b =
      rw select_round-eq (least (arr t) (found-IsLeast.least t a (omega arith)) found-IsLeast.start)
    where
      least :
          (u : ℤ)
          → arr found ≤ℤ arr t
          → arr found ≤ℤ arr i
          → swap i found arr i ≤ℤ swap i found arr t
      least u p q = ground arith

  -- A lower bound of the range stays one.
  select_round-above :
      (v : ℤ)
      → ((t : ℕ) → i ≤ t → t < hi → v ≤ℤ arr t)
      → (t : ℕ) → i ≤ t
      → t < hi
      → v ≤ℤ select_round i hi arr t
  select_round-above v h t a b =
      rw select_round-eq (bound (h i (omega arith) lt) (h found found_in.0 found_in.1) (h t a b))
    where
      bound : v ≤ℤ arr i → v ≤ℤ arr found → v ≤ℤ arr t → v ≤ℤ swap i found arr t
      bound p q r = ground arith

  occurs-select_round :
      (v : ℤ) (lo : ℕ) → lo ≤ i → occurs v (select_round i hi arr) lo hi ≡ occurs v arr lo hi
  occurs-select_round v lo le =
      rw select_round-eq
        (occurs-swap v arr lo hi i found le lt (omega (arith, found_in)) found_in.1)

pub selection_sort-outside :
    (n i hi t : ℕ) (arr : Array)
    → i + n ≡ hi
    → (t < i) ⊎ (hi ≤ t)
    → selection_sort n i hi arr t ≡ arr t
unfolding selection_sort
selection_sort-outside zero i hi t arr e o = refl
selection_sort-outside (suc n) i hi t arr e o =
    selection_sort-outside n (i + 1) hi t (select_round i hi arr) (omega arith) (omega arith)
    ∙ select_round-outside i hi arr (omega arith) t o

selection_sort-above :
    (n i hi : ℕ) (arr : Array) (v : ℤ)
    → i + n ≡ hi
    → ((t : ℕ) → i ≤ t → t < hi → v ≤ℤ arr t)
    → (t : ℕ) → i ≤ t
    → t < hi
    → v ≤ℤ selection_sort n i hi arr t
unfolding selection_sort
selection_sort-above zero i hi arr v e h t a b = h t a b
selection_sort-above (suc n) i hi arr v e h t a b = elim (Bool-cases (i == t)) [
  | inl q ↦
      let q' : t ≡ i = ground arith in
      rw
        (
          q',
          selection_sort-outside n (i + 1) hi i (select_round i hi arr) (omega arith) (omega arith),
        )
        (select_round-above i hi arr (omega arith) v h i (omega arith) (omega arith))
  | inr q ↦
      selection_sort-above n (i + 1) hi (select_round i hi arr) v (omega arith)
        (λ u p r. select_round-above i hi arr (omega arith) v h u (omega arith) r) t (ground arith)
        b
]

Above-tab :
    (v : ℤ) (arr : Array) (k n : ℕ)
    → ((t : ℕ) → k ≤ t → t < k + n → v ≤ℤ arr t)
    → Above v (tab arr k n)
Above-tab v arr k zero h = tt
Above-tab v arr k (suc n) h = (
  h k (omega arith) (omega arith),
  Above-tab v arr (k + 1) n (λ t a b. h t (omega arith) (omega arith)),
)

-- The selection sort puts the range in order.
pub Ascending-selection_sort :
    (n i hi : ℕ) (arr : Array) → i + n ≡ hi → Ascending (tab (selection_sort n i hi arr) i n)
unfolding selection_sort
Ascending-selection_sort zero i hi arr e = tt
Ascending-selection_sort (suc n) i hi arr e = (
  rw (selection_sort-outside n (i + 1) hi i (select_round i hi arr) (omega arith) (omega arith)) (
      Above-tab (select_round i hi arr i) (selection_sort n (i + 1) hi (select_round i hi arr))
        (i + 1) n
        (λ t a b.
          selection_sort-above n (i + 1) hi (select_round i hi arr) (select_round i hi arr i)
            (omega arith) (λ u p r. select_round-least i hi arr (omega arith) u (omega arith) r) t
            (omega arith) (omega arith))),
  Ascending-selection_sort n (i + 1) hi (select_round i hi arr) (omega arith),
)

pub occurs-selection_sort :
    (v : ℤ) (n i lo hi : ℕ) (arr : Array)
    → i + n ≡ hi
    → lo ≤ i
    → occurs v (selection_sort n i hi arr) lo hi ≡ occurs v arr lo hi
unfolding selection_sort
occurs-selection_sort v zero i lo hi arr e le = refl
occurs-selection_sort v (suc n) i lo hi arr e le =
    occurs-selection_sort v n (i + 1) lo hi (select_round i hi arr) (omega arith) (omega arith)
    ∙ occurs-select_round i hi arr (omega arith) v lo le
