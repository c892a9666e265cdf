-- ===== src/Tests/Sorts.antt =====
-- The merge sorts.
use osn_assignments.Base.{◌-◌, ◌≡◌, inr, refl, List, [], ◌∷◌, ◌++◌, tab, leb, if◌then◌else◌, arith}
use osn_assignments.Base.Int.{pos, negsuc}
use osn_assignments.MergeSort.{
  Array, merge, merge_loop, copy_rest, normal_merge_sort, sort_range, selection_sort, select_round,
  scan_min, Op, run, rounds, Interleave, none_left, first, second, Exec, alone, forks,
}
use osn_assignments.MergeSort.Counts.{occurs}
use osn_assignments.MergeSort.Merge.{Ascending}
use osn_assignments.MergeSort.Sorted.{normal_merge_sort_lem}
use osn_assignments.MergeSort.Schedules.{Exec-normal_merge_sort}

-- 5, 4, 3, -1, -1, ...
abbrev values : Array
values i = if leb 3 i then negsuc 0 else pos (5 - i)

normal_merge_sort_run :
    tab (normal_merge_sort 0 6 values) 0 6
    ≡ negsuc 0 ∷ (negsuc 0 ∷ (negsuc 0 ∷ (pos 3 ∷ (pos 4 ∷ (pos 5 ∷ [])))))
unfolding normal_merge_sort sort_range selection_sort select_round scan_min merge merge_loop
    copy_rest
normal_merge_sort_run = refl

normal_merge_sort_lem_example :
    Ascending (tab (normal_merge_sort 0 6 values) 0 6)
    × (occurs (pos 4) (normal_merge_sort 0 6 values) 0 6 ≡ occurs (pos 4) values 0 6)
    × (normal_merge_sort 0 6 values 7 ≡ values 7)
normal_merge_sort_lem_example =
    normal_merge_sort_lem 0 6 7 values (pos 4) (omega arith) (inr (omega arith))

-- Two processes whose rounds alternate.
abbrev steps : List Op
steps =
    select_round 0 3
    ∷ (select_round 3 6
        ∷ (select_round 1 3 ∷ (select_round 4 6 ∷ (select_round 2 3 ∷ (select_round 5 6 ∷ [])))))

alternates : Interleave (rounds 3 0 3) (rounds 3 3 6) steps
unfolding rounds
alternates = first (second (first (second (first (second none_left)))))

steps-Exec : Exec 0 6 (steps ++ (merge 0 3 6 ∷ []))
steps-Exec = forks refl (alone refl refl) (alone refl refl) alternates refl

Exec-normal_merge_sort_example :
    run (steps ++ (merge 0 3 6 ∷ [])) values 2 ≡ normal_merge_sort 0 6 values 2
Exec-normal_merge_sort_example = Exec-normal_merge_sort steps-Exec (omega arith) values 2
