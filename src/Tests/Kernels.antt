-- ===== src/Tests/Kernels.antt =====
-- A process table, queues and a kernel for the runs of the process subsystem.
use osn_assignments.Base.{
  ℕ, zero, suc, ◌<◌, refl, none, some, List, [], ◌∷◌, ◌++◌, replicate, arith,
}
use osn_assignments.Base.Int.{pos}
use osn_assignments.Proc.Types.{
  sleeping, running, runnable, zombie, mlfq, proc_chan, Proc, zero_proc, Level, Levels, empty_level,
  Kernel,
}
use osn_assignments.Proc.Queue.{level}
use osn_assignments.Proc.Queue.Window.{IsLevel}
use osn_assignments.Proc.Queue.Push.{IsQueues}

-- init, asleep on itself.
abbrev init_slot : Proc
init_slot = record zero_proc {
  state = sleeping;
  pid = pos 1;
  chan = proc_chan 0;
  priority = pos 60;
}

-- A process that waits for its children.
abbrev waiting_slot : Proc
waiting_slot = record zero_proc {
  state = sleeping;
  pid = pos 2;
  parent = some 0;
  chan = proc_chan 1;
  priority = pos 60;
}

-- A running child of slot 1.
abbrev child_slot : Proc
child_slot = record zero_proc {
  state = running;
  pid = pos 3;
  parent = some 1;
  ctime = pos 2;
  priority = pos 60;
}

-- An exited child of slot 2.
abbrev dead_slot : Proc
dead_slot = record zero_proc { state = zombie; pid = pos 4; parent = some 2; priority = pos 60 }

-- Two runnable processes.
abbrev ready_slot : Proc
ready_slot = record zero_proc {
  state = runnable;
  pid = pos 5;
  parent = some 0;
  ctime = pos 7;
  priority = pos 40;
}

abbrev urgent_slot : Proc
urgent_slot = record zero_proc {
  state = runnable;
  pid = pos 6;
  parent = some 0;
  ctime = pos 9;
  priority = pos 20;
}

abbrev pub table : List Proc
table =
    init_slot
    ∷ (waiting_slot
        ∷ (child_slot ∷ (dead_slot ∷ (ready_slot ∷ (urgent_slot ∷ replicate 58 zero_proc)))))

-- Slots 4 and 5, and in the last word a pointer to slot 6 that was left there.
abbrev pub busy_level : Level
busy_level = record {
  face = some 0;
  back = some 1;
  size = 2;
  slots = some 4 ∷ (some 5 ∷ (replicate 61 none ++ (some 6 ∷ [])));
}

abbrev pub queues : Levels
queues = record {
  below = none;
  levels = busy_level ∷ (empty_level ∷ (empty_level ∷ (empty_level ∷ (empty_level ∷ []))));
}

abbrev pub kernel : Kernel
kernel = record {
  procs = table;
  queues = queues;
  next_pid = 7;
  ticks = 10;
  init_proc = some 0;
  policy = mlfq;
  past_end = 0;
}

busy_level-IsLevel : IsLevel busy_level
busy_level-IsLevel = record { full_array = refl; cursors = (omega arith, omega arith) }

empty_level-IsLevel : IsLevel empty_level
empty_level-IsLevel = record { full_array = refl; cursors = tt }

pub queues-IsQueues : IsQueues queues
unfolding level
queues-IsQueues = record { five = refl; each = λ i h. at i h }
  where
    at : (i : ℕ) → i < 5 → IsLevel (level queues i)
    at zero h = busy_level-IsLevel
    at (suc zero) h = empty_level-IsLevel
    at (suc (suc zero)) h = empty_level-IsLevel
    at (suc (suc (suc zero))) h = empty_level-IsLevel
    at (suc (suc (suc (suc zero)))) h = empty_level-IsLevel
    at (suc (suc (suc (suc (suc i))))) h = absurd (omega arith)

-- One process in each of the levels 0 and 1.
abbrev only : ℕ → Level
only p = record { face = some 0; back = some 0; size = 1; slots = some p ∷ replicate 63 none }

abbrev pub aged_queues : Levels
aged_queues = record {
  below = none;
  levels = only 5 ∷ (only 4 ∷ (empty_level ∷ (empty_level ∷ (empty_level ∷ []))));
}

only-IsLevel : (p : ℕ) → IsLevel (only p)
only-IsLevel p = record { full_array = refl; cursors = (omega arith, omega arith) }

pub aged_queues-IsQueues : IsQueues aged_queues
unfolding level
aged_queues-IsQueues = record { five = refl; each = λ i h. at i h }
  where
    at : (i : ℕ) → i < 5 → IsLevel (level aged_queues i)
    at zero h = only-IsLevel 5
    at (suc zero) h = only-IsLevel 4
    at (suc (suc zero)) h = empty_level-IsLevel
    at (suc (suc (suc zero))) h = empty_level-IsLevel
    at (suc (suc (suc (suc zero)))) h = empty_level-IsLevel
    at (suc (suc (suc (suc (suc i))))) h = absurd (omega arith)
