-- ===== src/Tests/Queues.antt =====
-- push, pop and remove at a kernel with two queued processes.
use osn_assignments.Base.{
  ℕ, ◌<◌, ◌≡◌, refl, ◌==◌, if◌then◌else◌, true, some, [], ◌∷◌, ◌++◌, length, modify, arith,
}
use osn_assignments.Proc.Types.{Kernel}
use osn_assignments.Proc.Queue.{level, queued, push, pop, remove, any_from, scan_level}
use osn_assignments.Proc.Queue.Window.{contents, contains, erase}
use osn_assignments.Proc.Queue.Ring.{fifo_pop}
use osn_assignments.Proc.Queue.Push.{
  IsQueues, accepts, push-contents, push_stale, pop_lem, remove_lem,
}
use osn_assignments.Proc.Sched.{pop_first}
use osn_assignments.Proc.Sched.Levels.{waiting, pop_first_lem}
use osn_assignments.Proc.Sched.Aging.{AgeSpec, age_proc_lem}
use osn_assignments.Tests.Kernels.{
  kernel, queues, queues-IsQueues, aged_queues, aged_queues-IsQueues,
}

queued_run : queued queues 5 ≡ true
unfolding queued scan_level any_from level
queued_run = refl

push-contents_example : contents (level (push 0 7 kernel).queues 0) ≡ (
    if 0 == 0
    then if accepts 0 7 queues
      then contents (level queues 0) ++ (some 7 ∷ [])
      else contents (level queues 0)
    else contents (level queues 0))
push-contents_example = push-contents 0 7 0 kernel (omega arith) queues-IsQueues

push_stale_example : push 0 6 kernel ≡ kernel
unfolding level
push_stale_example = push_stale 0 6 0 kernel (omega arith) queues-IsQueues refl refl refl

pop_lem_example :
    let (p, k') = pop 0 kernel in
    (p ≡ (fifo_pop (contents (level queues 0))).0)
    × (contents (level k'.queues 0)
        ≡ (if 0 == 0 then (fifo_pop (contents (level queues 0))).1 else contents (level queues 0)))
    × (k'.procs ≡ kernel.procs)
    × IsQueues k'.queues
pop_lem_example = pop_lem 0 0 kernel (omega arith) queues-IsQueues

remove_lem_example :
    (contents (level (remove 0 5 kernel).queues 0) ≡ (
      if 0 == 0
      then (if length (contents (level queues 0)) == 1
          then []
          else if contains 5 (contents (level queues 0))
          then erase 5 (contents (level queues 0))
          else contents (level queues 0))
      else contents (level queues 0)))
    × ((remove 0 5 kernel).procs ≡ kernel.procs)
    × IsQueues (remove 0 5 kernel).queues
remove_lem_example = remove_lem 0 5 0 kernel (omega arith) queues-IsQueues

pop_first_lem_example :
    let (p, k') = pop_first 5 0 kernel in
    (p ≡ (fifo_pop (waiting 5 0 queues)).0)
    × (waiting 5 0 k'.queues ≡ (fifo_pop (waiting 5 0 queues)).1)
    × ((j : ℕ) → j < 0 → contents (level k'.queues j) ≡ contents (level queues j))
    × (k'.procs ≡ kernel.procs)
    × IsQueues k'.queues
pop_first_lem_example = pop_first_lem 5 0 kernel (omega arith) queues-IsQueues

-- Slot 4 is in level 1 and has waited for 20 ticks; slot 5 is in level 0.
abbrev aged : Kernel
aged = record kernel {
  procs = modify kernel.procs 4 (λ p. record p { qn = 1; waittime = 20 });
  queues = aged_queues;
}

age_proc_lem_example : AgeSpec 1 4 aged
unfolding level
age_proc_lem_example =
    age_proc_lem 1 4 aged (omega arith) (omega arith) aged_queues-IsQueues (omega arith) refl refl
