-- ===== src/MergeSort.antt =====
-- The three merge sorts of Assignment concurrency /q1/Q1.c. An array is a function from index to
-- value. A range `low..high` is given by `lo` = low and `hi` = high + 1, so that the empty range of
-- `high` = -1 is there. What fork, waitpid, pthread_create and pthread_join do is `Exec`: the two
-- halves run at once, step by step in any order, and the merge comes after both.
pub mod Counts
pub mod Merge
pub mod Select
pub mod Sorted
pub mod Schedules
use osn_assignments.Base.{
  ℕ, zero, suc, ◌+◌, ◌-◌, ◌/◌, ◌≡◌, leb, if◌then◌else◌, Bool, true, false, List, [], ◌∷◌, ◌++◌, tab,
  update,
}
use osn_assignments.Base.Int.{ℤ, lt_int, le_int}

abbrev pub Array : Type 0
Array = ℕ → ℤ

-- `swap(&arr[a], &arr[b])`
abbrev pub swap : ℕ → ℕ → Array → Array
swap a b arr = update (update arr a (arr b)) b (arr a)

-- The last two loops of `merge`.
unfoldable pub copy_rest : ℕ → List ℤ → Array → Array
copy_rest k [] arr = arr
copy_rest k (x ∷ xs) arr = copy_rest (k + 1) xs (update arr k x)

-- The loops of `merge` from `arr[k]` on, with what is left of `L` and `R`.
unfoldable pub merge_loop : ℕ → List ℤ → List ℤ → Array → Array
unfolding copy_rest
merge_loop k [] right arr = copy_rest k right arr
merge_loop k (x ∷ left) [] arr = copy_rest k (x ∷ left) arr
merge_loop k (x ∷ left) (y ∷ right) arr =
    let take_left = merge_loop (k + 1) left (y ∷ right) (update arr k x) in
    let take_right = merge_loop (k + 1) (x ∷ left) right (update arr k y) in
    if le_int x y then take_left else take_right

-- `merge(arr, l, m, r)` with `mid` = m + 1 and `hi` = r + 1.
unfoldable pub merge : ℕ → ℕ → ℕ → Array → Array
unfolding merge_loop
merge lo mid hi arr = merge_loop lo (tab arr lo (mid - lo)) (tab arr mid (hi - mid)) arr

-- The inner loop of the selection sort, with `n` indices left from `j` on: `mini`.
unfoldable pub scan_min : ℕ → ℕ → ℕ → ℤ → Array → ℕ
scan_min zero j mini mi arr = mini
scan_min (suc n) j mini mi arr =
    let less = scan_min n (j + 1) j (arr j) arr in
    let rest = scan_min n (j + 1) mini mi arr in if lt_int (arr j) mi then less else rest

-- One round of the selection sort.
unfoldable pub select_round : ℕ → ℕ → Array → Array
unfolding scan_min
select_round i hi arr = swap i (scan_min (hi - i) i i (arr i) arr) arr

-- The selection sort, with `n` rounds left from `i` on.
unfoldable pub selection_sort : ℕ → ℕ → ℕ → Array → Array
unfolding select_round
selection_sort zero i hi arr = arr
selection_sort (suc n) i hi arr = selection_sort n (i + 1) hi (select_round i hi arr)

-- `m` + 1, where `m=low+(high-low)/2`
abbrev pub middle : ℕ → ℕ → ℕ
middle lo hi = lo + (hi - 1 - lo) / 2 + 1

-- `normal_mergeSort` on fuel; a range gets shorter in each call.
unfoldable pub sort_range : ℕ → ℕ → ℕ → Array → Array
unfolding merge selection_sort
sort_range zero lo hi arr = arr
sort_range (suc fuel) lo hi arr =
    let halves = sort_range fuel (middle lo hi) hi (sort_range fuel lo (middle lo hi) arr) in
    if leb (lo + 5) hi
    then merge lo (middle lo hi) hi halves
    else selection_sort (hi - lo) lo hi arr

-- `normal_mergeSort`
unfoldable pub normal_merge_sort : ℕ → ℕ → Array → Array
unfolding sort_range
normal_merge_sort lo hi arr = sort_range (hi - lo + 1) lo hi arr

-- A step of a process or a thread: it reads and writes the array. A round of a selection sort and
-- a merge are one step each.
abbrev pub Op : Type 0
Op = Array → Array

-- The steps in order.
unfoldable pub run : List Op → Array → Array
run [] arr = arr
run (op ∷ ops) arr = run ops (op arr)

-- The rounds of a selection sort.
unfoldable pub rounds : ℕ → ℕ → ℕ → List Op
rounds zero i hi = []
rounds (suc n) i hi = select_round i hi ∷ rounds n (i + 1) hi

-- The steps of two processes in some order that keeps the order of each.
pub data Interleave : List Op → List Op → List Op → Type 0 where
  none_left : Interleave [] [] []
  first : {op : Op} {a b c : List Op} → Interleave a b c → Interleave (op ∷ a) b (op ∷ c)
  second : {op : Op} {a b c : List Op} → Interleave a b c → Interleave a (op ∷ b) (op ∷ c)

-- The runs of `mergeSort` and `threaded_mergeSort` on a range.
pub data Exec : ℕ → ℕ → List Op → Type 0 where
  alone :
      {lo hi : ℕ} {ops : List Op}
      → leb (lo + 5) hi ≡ false
      → ops ≡ rounds (hi - lo) lo hi
      → Exec lo hi ops
  forks :
      {lo hi : ℕ} {left right both ops : List Op}
      → leb (lo + 5) hi ≡ true
      → Exec lo (middle lo hi) left
      → Exec (middle lo hi) hi right
      → Interleave left right both
      → ops ≡ both ++ (merge lo (middle lo hi) hi ∷ [])
      → Exec lo hi ops
