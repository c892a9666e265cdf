-- ===== src/MergeSort/Schedules.antt =====
-- The sorts of Assignment concurrency /q1/Q1.c that run their halves at once, by processes or by
-- threads, come out as the plain sort does in every schedule.
use osn_assignments.Base.{
  ℕ, zero, suc, ◌+◌, ◌-◌, ◌<◌, ◌≤◌, ◌≡◌, refl, ◌∙◌, sym, ap, ap₂, ◌⊎◌, inl, inr, ◌==◌, ltb,
  if◌then◌else◌, List, [], ◌∷◌, ◌++◌, tab, tab-ext, arith, All, Bool-cases,
}
use osn_assignments.Base.Int.{ℤ, lt_int}
use osn_assignments.MergeSort.{
  Array, swap, scan_min, select_round, selection_sort, merge, middle, sort_range, normal_merge_sort,
  Op, run, rounds, Interleave, none_left, first, second, Exec, alone, forks,
}
use osn_assignments.MergeSort.Merge.{merged, tab-merge, merge-outside}
use osn_assignments.MergeSort.Select.{scan_min_in, select_round-outside}
use osn_assignments.MergeSort.Sorted.{middle_lem, sort_range-outside}

abbrev Agree : ℕ → ℕ → Array → Array → Type 0
Agree lo hi f g = (t : ℕ) → lo ≤ t → t < hi → f t ≡ g t

-- The step leaves the range alone.
abbrev Keeps : ℕ → ℕ → Op → Type 0
Keeps lo hi op = (arr : Array) → Agree lo hi (op arr) arr

-- The step reads and writes the range only.
record Local (lo hi : ℕ) (op : Op) : Type 0 where
  frame : (arr : Array) (t : ℕ) → (t < lo) ⊎ (hi ≤ t) → op arr t ≡ arr t
  depends : (f g : Array) → Agree lo hi f g → Agree lo hi (op f) (op g)

scan_min-ext :
    (n j mini : ℕ) (mi : ℤ) (f g : Array)
    → Agree j (j + n) f g
    → scan_min n j mini mi f ≡ scan_min n j mini mi g
unfolding scan_min
scan_min-ext zero j mini mi f g h = refl
scan_min-ext (suc n) j mini mi f g h =
    let e : f j ≡ g j = h j (omega arith) (omega arith) in
    let rest : Agree (j + 1) (j + 1 + n) f g = λ t a b. h t (omega arith) (omega arith) in
    rw e (
      ap₂ (λ (x y : ℕ). if lt_int (g j) mi then x else y) (scan_min-ext n (j + 1) j (g j) f g rest)
        (scan_min-ext n (j + 1) mini mi f g rest))

module _ (lo i hi : ℕ) (le : lo ≤ i) (lt : i < hi) where
  select_round-Local : Local lo hi (select_round i hi)
  unfolding select_round
  select_round-Local = record {
    frame = λ arr t o. select_round-outside i hi arr lt t (omega arith);
    depends = λ f g h t a b.
        let e : f i ≡ g i = h i le lt in
        let same : scan_min (hi - i) i i (f i) f ≡ scan_min (hi - i) i i (g i) g =
          rw e (scan_min-ext (hi - i) i i (g i) f g (λ u p q. h u (omega arith) (omega arith))) in
        let m = scan_min_in i hi g lt in
        rw same (at f g h t a b (scan_min (hi - i) i i (g i) g) (omega (arith, m)) m.1);
  }
    where
      at :
          (f g : Array)
          → Agree lo hi f g
          → (t : ℕ) → lo ≤ t
          → t < hi
          → (m : ℕ) → lo ≤ m
          → m < hi
          → swap i m f t ≡ swap i m g t
      at f g h t a b m c d = ground (arith, h i, h m, h t)

-- What stands in two equal windows.
tab-agree : (f g : Array) (t n j : ℕ) → tab f t n ≡ tab g t n → t ≤ j → j < t + n → f j ≡ g j
tab-agree f g t zero j e a b = absurd (omega arith)
tab-agree f g t (suc n) j e a b = elim (Bool-cases (t == j)) [
  | inl q ↦ let q' : j ≡ t = ground arith in rw q' (cc)
  | inr q ↦ tab-agree f g (t + 1) n j (cc) (ground arith) (omega arith)
]

merge-Local : (lo mid hi : ℕ) → lo ≤ mid → mid ≤ hi → Local lo hi (merge lo mid hi)
merge-Local lo mid hi a b = record {
  frame = λ arr t o. merge-outside lo mid hi arr a b t o;
  depends = λ f g h t p q.
      tab-agree (merge lo mid hi f) (merge lo mid hi g) lo (hi - lo) t
        (tab-merge lo mid hi f a b
          ∙ ap₂ merged (tab-ext f g lo (mid - lo) (λ j u v. h j (omega arith) (omega arith)))
              (tab-ext f g mid (hi - mid) (λ j u v. h j (omega arith) (omega arith)))
          ∙ sym (tab-merge lo mid hi g a b))
        p (omega arith);
}

Local-widen :
    (lo hi lo' hi' : ℕ) (op : Op) → lo' ≤ lo → hi ≤ hi' → Local lo hi op → Local lo' hi' op
Local-widen lo hi lo' hi' op a b l = record {
  frame = λ arr t o. l.frame arr t (omega arith);
  depends = λ f g h t p q. elim (Bool-cases (ltb t lo)) [
    | inl e ↦ l.frame f t (inl (ground arith)) ∙ h t p q ∙ sym (l.frame g t (inl (ground arith)))
    | inr e ↦ elim (Bool-cases (ltb t hi)) [
      | inl e2 ↦
          l.depends f g (λ u c d. h u (omega arith) (omega arith)) t (ground arith) (ground arith)
      | inr e2 ↦ l.frame f t (inr (ground arith)) ∙ h t p q ∙ sym (l.frame g t (inr (ground arith)))
    ]
  ];
}

All-map : {P Q : Op → Type 0} (ops : List Op) → ((op : Op) → P op → Q op) → All P ops → All Q ops
All-map [] h a = tt
All-map (op ∷ ops) h a = (h op a.0, All-map ops h a.1)

Interleave-flip : {a b c : List Op} → Interleave a b c → Interleave b a c
Interleave-flip none_left = none_left
Interleave-flip (first i) = second (Interleave-flip i)
Interleave-flip (second i) = first (Interleave-flip i)

All-Interleave :
    (P : Op → Type 0) {a b c : List Op} → Interleave a b c → All P a → All P b → All P c
All-Interleave P none_left p q = tt
All-Interleave P (first i) p q = (p.0, All-Interleave P i p.1 q)
All-Interleave P (second i) p q = (q.0, All-Interleave P i p q.1)

-- On its own range, a process among others that keep off it does what it does alone.
Interleave-alone :
    {a b c : List Op} (lo hi : ℕ) (f g : Array)
    → Interleave a b c
    → All (Local lo hi) a
    → All (Keeps lo hi) b
    → Agree lo hi f g
    → Agree lo hi (run c f) (run a g)
unfolding run
Interleave-alone lo hi f g none_left p q h = h
Interleave-alone lo hi f g (first {op} i) p q h =
    Interleave-alone lo hi (op f) (op g) i p.1 q (p.0.depends f g h)
Interleave-alone lo hi f g (second {op} i) p q h =
    Interleave-alone lo hi (op f) g i p q.1 (λ t a b. q.0 f t a b ∙ h t a b)

run-frame :
    (lo hi t : ℕ) (ops : List Op) (arr : Array)
    → All (Local lo hi) ops
    → (t < lo) ⊎ (hi ≤ t)
    → run ops arr t ≡ arr t
unfolding run
run-frame lo hi t [] arr p o = refl
run-frame lo hi t (op ∷ ops) arr p o = run-frame lo hi t ops (op arr) p.1 o ∙ p.0.frame arr t o

run-append : (a b : List Op) (arr : Array) → run (a ++ b) arr ≡ run b (run a arr)
unfolding run
run-append [] b arr = refl
run-append (op ∷ a) b arr = run-append a b (op arr)

run-rounds : (n i hi : ℕ) (arr : Array) → run (rounds n i hi) arr ≡ selection_sort n i hi arr
unfolding run rounds selection_sort
run-rounds zero i hi arr = refl
run-rounds (suc n) i hi arr = run-rounds n (i + 1) hi (select_round i hi arr)

rounds-Local : (n i lo hi : ℕ) → lo ≤ i → i + n ≤ hi → All (Local lo hi) (rounds n i hi)
unfolding rounds
rounds-Local zero i lo hi a b = tt
rounds-Local (suc n) i lo hi a b = (
  select_round-Local lo i hi a (omega arith),
  rounds-Local n (i + 1) lo hi (omega arith) (omega arith),
)

All-append : (P : Op → Type 0) (a b : List Op) → All P a → All P b → All P (a ++ b)
All-append P [] b p q = q
All-append P (op ∷ a) b p q = (p.0, All-append P a b p.1 q)

Exec-Local : {lo hi : ℕ} {ops : List Op} → Exec lo hi ops → lo ≤ hi → All (Local lo hi) ops
Exec-Local (alone {lo} {hi} e q) h =
    rw q (rounds-Local (hi - lo) lo lo hi (omega arith) (omega arith))
Exec-Local (forks {lo} {hi} {left} {right} {both} e x y i q) h =
    let m = middle_lem lo hi e in
    let mid = middle lo hi in
    rw q (
      All-append (Local lo hi) both (merge lo mid hi ∷ [])
        (All-Interleave (Local lo hi) i
          (All-map left (λ op l. Local-widen lo mid lo hi op (omega arith) (omega (arith, m)) l)
            (Exec-Local x (omega (arith, m))))
          (All-map right (λ op l. Local-widen mid hi lo hi op (omega (arith, m)) (omega arith) l)
            (Exec-Local y (omega (arith, m)))))
        (merge-Local lo mid hi (omega (arith, m)) (omega (arith, m)), tt))

module _ (fuel lo mid hi : ℕ) (m : (lo < mid) × (mid < hi)) {left right both : List Op}
    (interleaved : Interleave left right both) (l : All (Local lo mid) left)
    (r : All (Local mid hi) right)
    (sorts_left : (f : Array) (u : ℕ) → run left f u ≡ sort_range fuel lo mid f u)
    (sorts_right : (f : Array) (u : ℕ) → run right f u ≡ sort_range fuel mid hi f u)
    (arr : Array) where
  left_sorted : Array
  left_sorted = sort_range fuel lo mid arr

  halves_sorted : Array
  halves_sorted = sort_range fuel mid hi left_sorted

  left_agrees : Agree lo mid (run both arr) halves_sorted
  unfolding halves_sorted left_sorted
  left_agrees t a b =
      Interleave-alone lo mid arr arr interleaved l
        (All-map right (λ op k f u p q. k.frame f u (inl q)) r) (λ u p q. refl) t a b
      ∙ sorts_left arr t
      ∙ sym (sort_range-outside fuel mid hi t left_sorted (omega (arith, m)) (inl b))

  right_agrees : Agree mid hi (run both arr) halves_sorted
  unfolding halves_sorted left_sorted
  right_agrees t a b =
      Interleave-alone mid hi arr left_sorted (Interleave-flip interleaved) r
        (All-map left (λ op k f u p q. k.frame f u (inr p)) l)
        (λ u p q. sym (sort_range-outside fuel lo mid u arr (omega (arith, m)) (inr p))) t a b
      ∙ sorts_right left_sorted t

  outside_agrees : (t : ℕ) → (t < lo) ⊎ (hi ≤ t) → run both arr t ≡ halves_sorted t
  unfolding halves_sorted left_sorted
  outside_agrees t o =
      run-frame lo hi t both arr
        (All-Interleave (Local lo hi) interleaved
          (All-map left (λ op k. Local-widen lo mid lo hi op (omega arith) (omega (arith, m)) k) l)
          (All-map right (λ op k. Local-widen mid hi lo hi op (omega (arith, m)) (omega arith) k)
            r))
        o
      ∙ sym (
          sort_range-outside fuel mid hi t left_sorted (omega (arith, m)) (omega (arith, m))
          ∙ sort_range-outside fuel lo mid t arr (omega (arith, m)) (omega (arith, m)))

  merges_alike :
      (t : ℕ)
      → merge lo mid hi (run both arr) t
        ≡ merge lo mid hi (sort_range fuel mid hi (sort_range fuel lo mid arr)) t
  unfolding halves_sorted left_sorted
  merges_alike t = elim (Bool-cases (ltb t lo)) [
    | inl e ↦ apart (inl (ground arith))
    | inr e ↦ elim (Bool-cases (ltb t hi)) [
      | inr e2 ↦ apart (inr (ground arith))
      | inl e2 ↦
          (merge-Local lo mid hi (omega (arith, m)) (omega (arith, m))).depends (run both arr)
            halves_sorted
            (λ u a b. elim (Bool-cases (ltb u mid)) [
              | inl c ↦ left_agrees u a (ground arith)
              | inr c ↦ right_agrees u (ground arith) b
            ])
            t (ground arith) (ground arith)
    ]
  ]
    where
      apart :
          (t < lo) ⊎ (hi ≤ t) → merge lo mid hi (run both arr) t ≡ merge lo mid hi halves_sorted t
      apart o =
          merge-outside lo mid hi (run both arr) (omega (arith, m)) (omega (arith, m)) t o
          ∙ outside_agrees t o
          ∙ sym (merge-outside lo mid hi halves_sorted (omega (arith, m)) (omega (arith, m)) t o)

Exec-sort_range :
    (fuel : ℕ) {lo hi : ℕ} {ops : List Op}
    → Exec lo hi ops
    → lo ≤ hi
    → hi - lo < fuel
    → (arr : Array) (t : ℕ) → run ops arr t ≡ sort_range fuel lo hi arr t
unfolding sort_range run
Exec-sort_range zero x h lt arr t = absurd (omega arith)
Exec-sort_range (suc fuel) (alone {lo} {hi} e q) h lt arr t =
    rw (e, q) (ap (λ (f : Array). f t) (run-rounds (hi - lo) lo hi arr))
Exec-sort_range (suc fuel) (forks {lo} {hi} {left} {right} {both} e x y i q) h lt arr t =
    let m = middle_lem lo hi e in
    rw (e, q, run-append both (merge lo (middle lo hi) hi ∷ []) arr)
      (merges_alike fuel lo (middle lo hi) hi m i (Exec-Local x (omega (arith, m)))
        (Exec-Local y (omega (arith, m)))
        (λ f u. Exec-sort_range fuel x (omega (arith, m)) (omega (arith, m)) f u)
        (λ f u. Exec-sort_range fuel y (omega (arith, m)) (omega (arith, m)) f u) arr t)

-- Every run of mergeSort or threaded_mergeSort on a range, in whatever order the steps of the halves
-- come, ends with the array that normal_mergeSort makes, at every index.
pub Exec-normal_merge_sort :
    {lo hi : ℕ} {ops : List Op}
    → Exec lo hi ops
    → lo ≤ hi
    → (arr : Array) (t : ℕ) → run ops arr t ≡ normal_merge_sort lo hi arr t
unfolding normal_merge_sort
Exec-normal_merge_sort {lo} {hi} x h arr t = Exec-sort_range (hi - lo + 1) x h (omega arith) arr t
