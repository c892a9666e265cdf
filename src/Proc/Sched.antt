-- ===== src/Proc/Sched.antt =====
-- The four schedulers of xv6 modified/proc.c, one for each build. `run i` is what happens from the
-- switch to the process in slot `i` to the switch back: the process's own work, interrupts and
-- system calls, up to a call of sched. A round starts with ptable.lock acquired and ends with its
-- release.
pub mod Pick
pub mod Levels
pub mod Aging
use osn_assignments.Base.{
  ℕ, zero, suc, ◌+◌, ◌-◌, ◌==◌, ltb, leb, if◌then◌else◌, Bool, true, false, not, Option, none, some,
  List, get_or,
}
use osn_assignments.Base.Int.{lt_int}
use osn_assignments.Proc.Types.{
  nproc, age, runnable, running, eq_state, Proc, Kernel, proc_at, put_proc, inc_word, dec_word,
}
use osn_assignments.Proc.Queue.{up, is_empty, level, push, pop, remove}
use osn_assignments.Proc.Lifecycle.{for_slots}

abbrev pub is_runnable : Proc → Bool
is_runnable p = eq_state p.state runnable

-- `p->nrun++; p->state = RUNNING;`
abbrev pub dispatched : Proc → Proc
dispatched p = record p { nrun = p.nrun + 1; state = running }

-- The choice of FCFS: the loop's `pro`, after `n` more slots from `i`.
unfoldable pub fcfs_scan : ℕ → ℕ → Option ℕ → Kernel → Option ℕ
fcfs_scan zero i pro k = pro
fcfs_scan (suc n) i pro k =
    fcfs_scan n (i + 1)
      (if is_runnable (proc_at k i)
        then elim pro [
          | none ↦ some i
          | some j ↦ if lt_int (proc_at k i).ctime (proc_at k j).ctime then some i else some j
        ]
        else pro)
      k

-- The inner loops of PBS: `hp` after `n` more slots from `i`.
unfoldable pub pbs_scan : ℕ → ℕ → ℕ → Kernel → ℕ
pbs_scan zero i hp k = hp
pbs_scan (suc n) i hp k =
    pbs_scan n (i + 1)
      (if is_runnable (proc_at k i)
        then if lt_int (proc_at k i).priority (proc_at k hp).priority then i else hp
        else hp)
      k

-- `hp` for the loop's `p`: the slots after it, then those before it.
unfoldable pub pbs_pick : ℕ → Kernel → ℕ
unfolding pbs_scan
pbs_pick p k = pbs_scan p 0 (pbs_scan (nproc - (p + 1)) (p + 1) p k) k

-- Aging of one process that stands in level `i`.
unfoldable pub age_proc : ℕ → ℕ → Kernel → Kernel
age_proc i p k =
    if ltb age (proc_at k p).waittime
    then push (i - 1) p (put_proc (remove i p k) p (λ p. record p { qn = dec_word p.qn }))
    else k

-- The process that `queue[i][j]` names; a live cell is never null.
unfoldable pub age_cell : ℕ → ℕ → Kernel → Kernel
unfolding age_proc level
age_cell i j k = elim (get_or (level k.queues i).slots j none) [
  | none ↦ k
  | some p ↦ age_proc i p k
]

-- `for(; j <= back[i]; j++)`, the bound read anew in each round, for at most `n` rounds.
unfoldable pub age_upto : ℕ → ℕ → ℕ → Kernel → Kernel
unfolding age_cell
age_upto zero i j k = k
age_upto (suc n) i j k =
    let rest = age_upto n i (j + 1) (age_cell i j k) in
    if leb (j + 1) (up (level k.queues i).back) then rest else k

-- `for(; j < NPROC; j++)`, with `n` rounds left.
unfoldable pub age_to_end : ℕ → ℕ → ℕ → Kernel → Kernel
unfolding age_cell
age_to_end zero i j k = k
age_to_end (suc n) i j k = age_to_end n i (j + 1) (age_cell i j k)

-- The aging of level `i`. No index exceeds NPROC - 1, so NPROC rounds do.
unfoldable pub age_level : ℕ → Kernel → Kernel
unfolding age_upto age_to_end level
age_level i k = elim (level k.queues i).face [
  | none ↦ k
  | some f ↦
      if leb (f + 1) (up (level k.queues i).back)
      then age_upto nproc i f k
      else age_upto nproc i 0 (age_to_end (nproc - f) i f k)
]

-- The pop from the first level that is not empty.
unfoldable pub pop_first : ℕ → ℕ → Kernel → Option ℕ × Kernel
pop_first zero i k = (none, k)
pop_first (suc n) i k =
    let rest = pop_first n (i + 1) k in if is_empty (level k.queues i) then rest else pop i k

-- What MLFQ does with a process that comes back runnable.
unfoldable pub requeue : ℕ → Kernel → Kernel
requeue p k =
    let q = proc_at k p in
    let k1 =
      if q.flagq
      then put_proc k p (λ q. record q {
        flagq = false;
        curtime = 0;
        waittime = 0;
        qn = if q.qn == 4 then q.qn else inc_word q.qn;
      })
      else put_proc k p (λ q. record q { curtime = 0 }) in
    push (proc_at k1 p).qn p k1

module _ (run : ℕ → Kernel → Kernel) where
  -- One slot of the round-robin loop.
  unfoldable pub rr_slot : ℕ → Kernel → Kernel
  rr_slot i k = if is_runnable (proc_at k i) then run i (put_proc k i dispatched) else k

  -- One round of ROUND_ROBIN.
  unfoldable pub rr_round : Kernel → Kernel
  unfolding for_slots rr_slot
  rr_round k = for_slots nproc 0 rr_slot k

  -- One round of FCFS. `p->nrun++` stands behind the loop, where `p` is `&ptable.proc[NPROC]`.
  unfoldable pub fcfs_round : Kernel → Kernel
  unfolding fcfs_scan
  fcfs_round k = elim (fcfs_scan nproc 0 none k) [
    | none ↦ k
    | some i ↦ run i (
        put_proc (record k { past_end = inc_word k.past_end }) i
          (λ p. record p { state = running }))
  ]

  -- One round of the outer loop of PBS at `p`: the next `p` and the kernel.
  unfoldable pub pbs_slot : ℕ → Kernel → ℕ × Kernel
  unfolding pbs_pick
  pbs_slot p k =
      if is_runnable (proc_at k p)
      then (pbs_pick p k + 1, run (pbs_pick p k) (put_proc k (pbs_pick p k) dispatched))
      else (p + 1, k)

  -- One round of MLFQ.
  unfoldable pub mlfq_round : Kernel → Kernel
  unfolding age_level pop_first requeue
  mlfq_round k =
      let k1 = age_level 4 (age_level 3 (age_level 2 (age_level 1 k))) in
      let (p, k2) = pop_first 5 0 k1 in
      elim p [
        | none ↦ k2
        | some i ↦
            if is_runnable (proc_at k2 i)
            then (let k3 = run i (
                  put_proc k2 i (λ p. record p {
                    waittime = 0;
                    curtime = 0;
                    nrun = p.nrun + 1;
                    state = running;
                  })) in
                if is_runnable (proc_at k3 i) then requeue i k3 else k3)
            else k2
      ]
