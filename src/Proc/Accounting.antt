-- ===== src/Proc/Accounting.antt =====
-- Priorities and tick accounting in xv6 modified/proc.c: set_priority, preempt, change_ticks, and
-- the listing of showps.
pub mod Ticks
use osn_assignments.Base.{
  ℕ, ◌+◌, ◌==◌, if◌then◌else◌, Bool, false, not, none, some, List, [], ◌∷◌, map, modify, find_index,
}
use osn_assignments.Base.Int.{ℤ, pos, negsuc, lt_int, le_int, eq_int}
use osn_assignments.Proc.Types.{
  ProcState, running, eq_state, Policy, is_mlfq, Proc, Kernel, proc_at, put_proc,
}
use osn_assignments.Proc.Lifecycle.{has_pid}

-- `set_priority`
unfoldable pub set_priority : ℤ → ℤ → Kernel → ℤ × Kernel
set_priority new_priority pid k = elim (find_index (has_pid pid) k.procs) [
  | none ↦ (negsuc 0, k)
  | some i ↦ ((proc_at k i).priority, put_proc k i (λ p. record p { priority = new_priority }))
]

-- Whether a process stands against the one of priority `prior`: equal priority counts if `ties`.
abbrev pub competes : Bool → ℤ → Proc → Bool
competes ties prior p =
    if (if ties then le_int p.priority prior else lt_int p.priority prior)
    then not (eq_int p.pid (pos 0))
    else false

-- The loop of preempt over the table.
unfoldable pub preempt_scan : Bool → ℤ → List Proc → ℕ → ℕ
preempt_scan ties prior [] f = f
preempt_scan ties prior (p ∷ ps) f =
    preempt_scan ties prior ps (if competes ties prior p then 1 else f)

-- `preempt`
unfoldable pub preempt : ℤ → ℕ → Kernel → ℕ
unfolding preempt_scan
preempt prior i k = preempt_scan (i == 1) prior k.procs 0

-- One round of change_ticks. `qn` is a level, so that `qnt[qn]` is there.
abbrev pub tick_proc : Policy → Proc → Proc
tick_proc policy p =
    if eq_state p.state running
    then if is_mlfq policy
      then record p {
        runtime = p.runtime + 1;
        curtime = p.curtime + 1;
        qnt = modify p.qnt p.qn (λ n. n + 1);
      }
      else record p { runtime = p.runtime + 1 }
    else record p { waittime = p.waittime + 1 }

-- `change_ticks`
unfoldable pub change_ticks : Kernel → Kernel
change_ticks k = record k { procs = map (tick_proc k.policy) k.procs }

-- A line of the listing of showps.
pub record Row : Type 0 where
  pub pid : ℤ
  pub priority : ℤ
  pub state : ProcState
  pub runtime : ℕ
  pub waittime : ℕ
  pub nrun : ℕ
  pub qn : ℕ
  pub qnt : List ℕ

abbrev pub row : Proc → Row
row p = record {
  pid = p.pid;
  priority = p.priority;
  state = p.state;
  runtime = p.runtime;
  waittime = p.waittime;
  nrun = p.nrun;
  qn = p.qn;
  qnt = p.qnt;
}

-- The lines that showps prints.
unfoldable pub showps : List Proc → List Row
showps [] = []
showps (p ∷ ps) = if eq_int p.pid (pos 0) then showps ps else row p ∷ showps ps
