-- ===== src/Proc/Lifecycle.antt =====
-- The life of a process in xv6 modified/proc.c: allocproc, fork, exit, wait, waitx, kill, sleep,
-- wakeup, yield. Each of them works on the table under ptable.lock, so each is one step here; what
-- sched does after one is the scheduler's part. Results of the page allocator and of the address
-- space functions (kalloc, copyuvm) are arguments, 0 for their null pointer.
pub mod Wake
pub mod Reap
pub mod Exit
use osn_assignments.Base.{
  ℕ, zero, suc, ◌+◌, ◌==◌, if◌then◌else◌, Bool, true, false, Option, none, some, List, [], ◌∷◌, map,
  replicate, take, find_index,
}
use osn_assignments.Base.Int.{ℤ, pos, negsuc, ◌-ℤ◌, neg, lt_int, eq_int, to_int}
use osn_assignments.Proc.Types.{
  nproc, unused, embryo, sleeping, runnable, zombie, eq_state, is_mlfq, Chan, no_chan, proc_chan,
  eq_chan, TrapFrame, Proc, Kernel, proc_at, put_proc, inc_word,
}
use osn_assignments.Proc.Queue.{is_ptr, push}

-- `for(p = ptable.proc; p < &ptable.proc[NPROC]; p++)`, from slot `i` with `n` slots left.
unfoldable pub for_slots : ℕ → ℕ → (ℕ → Kernel → Kernel) → Kernel → Kernel
for_slots zero i body k = k
for_slots (suc n) i body k = for_slots n (i + 1) body (body i k)

abbrev pub is_unused : Proc → Bool
is_unused p = eq_state p.state unused

-- The fields that allocproc sets when it has found a slot.
abbrev pub fresh : ℤ → ℕ → Proc → Proc
fresh pid ticks p = record p {
  state = embryo;
  pid = pid;
  ctime = to_int ticks;
  runtime = 0;
  etime = pos 0;
  waittime = 0;
  nrun = 0;
  curtime = 0;
  priority = pos 60;
  qn = 0;
  qnt = replicate 5 0;
  flagq = false;
}

-- `allocproc`: `stack` is the page that kalloc gives, `frame` what stands in it where the trap
-- frame goes.
unfoldable pub allocproc : ℕ → TrapFrame → Kernel → Option ℕ × Kernel
allocproc stack frame k = elim (find_index is_unused k.procs) [
  | none ↦ (none, k)
  | some i ↦
      let k1 =
        put_proc (record k { next_pid = inc_word k.next_pid }) i
          (fresh (to_int k.next_pid) k.ticks) in
      if stack == 0
      then (none, put_proc k1 i (λ p. record p { kstack = 0; state = unused }))
      else (some i, put_proc k1 i (λ p. record p { kstack = stack; tf = frame }))
]

-- The loop over `ofile` in fork; filedup gives back its argument.
abbrev pub copy_files : List (Option ℕ) → List (Option ℕ) → List (Option ℕ)
copy_files [] theirs = theirs
copy_files (f ∷ mine) [] = []
copy_files (none ∷ mine) (g ∷ theirs) = g ∷ copy_files mine theirs
copy_files (some f ∷ mine) (g ∷ theirs) = some f ∷ copy_files mine theirs

-- The child's fields that fork copies from the parent `cur`. A name is the string in its array of 16
-- bytes; safestrcpy copies 15 characters of it at most.
abbrev pub inherit : ℕ → Proc → ℕ → Proc → Proc
inherit cur parent pgdir p = record p {
  pgdir = pgdir;
  sz = parent.sz;
  parent = some cur;
  tf = record (parent.tf) { eax = 0 };
  ofile = copy_files parent.ofile p.ofile;
  cwd = parent.cwd;
  name = take 15 parent.name;
}

-- `push(q, p)` under `#ifdef MLFQ`.
unfoldable pub push_mlfq : ℕ → ℕ → Kernel → Kernel
push_mlfq q i k = if is_mlfq k.policy then push q i k else k

-- `np->state = RUNNABLE` and the push that follows it in fork.
abbrev pub make_runnable : ℕ → ℕ → Kernel → Kernel
make_runnable q i k = push_mlfq q i (put_proc k i (λ p. record p { state = runnable }))

-- `fork` by `cur`: `pgdir` is what copyuvm gives.
unfoldable pub fork : ℕ → ℕ → TrapFrame → ℕ → Kernel → ℤ × Kernel
unfolding allocproc
fork cur stack frame pgdir k =
    let (np, k1) = allocproc stack frame k in
    elim np [
      | none ↦ (negsuc 0, k1)
      | some i ↦
          if pgdir == 0
          then (negsuc 0, put_proc k1 i (λ p. record p { pgdir = 0; kstack = 0; state = unused }))
          else (
            (proc_at k1 i).pid,
            make_runnable 0 i (put_proc k1 i (inherit cur (proc_at k1 cur) pgdir)),
          )
    ]

-- Whether `wakeup1(chan)` wakes the process.
abbrev pub sleeps_on : Chan → Proc → Bool
sleeps_on chan p = if eq_state p.state sleeping then eq_chan p.chan chan else false

-- One round of wakeup1.
unfoldable pub wake_slot : Chan → ℕ → Kernel → Kernel
unfolding push_mlfq
wake_slot chan i k =
    if sleeps_on chan (proc_at k i)
    then if is_mlfq k.policy
      then push (proc_at k i).qn i (put_proc k i (λ p. record p { state = runnable; curtime = 0 }))
      else put_proc k i (λ p. record p { state = runnable })
    else k

-- `wakeup1`, and `wakeup`, which calls it under the lock.
unfoldable pub wakeup1 : Chan → Kernel → Kernel
unfolding for_slots wake_slot
wakeup1 chan k = for_slots nproc 0 (wake_slot chan) k

-- The address in a `struct proc *`.
abbrev pub ptr_chan : Option ℕ → Chan
ptr_chan none = no_chan
ptr_chan (some p) = proc_chan p

-- One round of the loop in exit that passes abandoned children to init.
unfoldable pub reparent_slot : ℕ → ℕ → Kernel → Kernel
unfolding wakeup1
reparent_slot cur i k =
    if is_ptr (proc_at k i).parent cur
    then (let k1 = put_proc k i (λ p. record p { parent = k.init_proc }) in
        if eq_state (proc_at k1 i).state zombie then wakeup1 (ptr_chan k.init_proc) k1 else k1)
    else k

-- `exit` of `cur` behind its test for init, up to its call of sched.
unfoldable pub exited : ℕ → Kernel → Kernel
exited cur k =
    let k1 = put_proc k cur (λ p. record p { ofile = map (λ f. none) p.ofile; cwd = none }) in
    let k2 = wakeup1 (ptr_chan (proc_at k1 cur).parent) k1 in
    let k3 = for_slots nproc 0 (reparent_slot cur) k2 in
    put_proc k3 cur (λ p. record p { etime = to_int k.ticks; state = zombie })

-- `exit`; `none` is the panic of init.
unfoldable pub exit : ℕ → Kernel → Option Kernel
exit cur k = if is_ptr k.init_proc cur then none else some (exited cur k)

abbrev pub is_child : ℕ → Proc → Bool
is_child cur p = is_ptr p.parent cur

abbrev pub is_dead_child : ℕ → Proc → Bool
is_dead_child cur p = if is_child cur p then eq_state p.state zombie else false

-- The fields that wait clears in the slot of an exited child.
abbrev pub reaped : Proc → Proc
reaped p = record p {
  kstack = 0;
  pid = pos 0;
  parent = none;
  name = [];
  killed = false;
  state = unused;
}

-- How one round of the endless loop of wait or waitx ends.
pub data Waited (A : Type 0) : Type 0 where
  returns : A → Kernel → Waited A
  sleeps : Kernel → Waited A

-- The start of `sleep(chan, lk)` by `cur`, up to its call of sched.
abbrev pub sleep : ℕ → Chan → Kernel → Kernel
sleep cur chan k = put_proc k cur (λ p. record p { chan = chan; state = sleeping })

-- What sleep does when it is scheduled again.
abbrev pub sleep_resume : ℕ → Kernel → Kernel
sleep_resume cur k = put_proc k cur (λ p. record p { chan = no_chan })

-- `wait`: one round; a woken caller makes another.
unfoldable pub wait : ℕ → Kernel → Waited ℤ
wait cur k = elim (find_index (is_dead_child cur) k.procs) [
  | some i ↦ returns (proc_at k i).pid (put_proc k i reaped)
  | none ↦ elim (find_index (is_child cur) k.procs) [
    | none ↦ returns (negsuc 0) k
    | some i ↦
        if (proc_at k cur).killed
        then returns (negsuc 0) k
        else sleeps (sleep cur (proc_chan cur) k)
  ]
]

-- What waitx gives back: the pid, `*wtime` and `*rtime`; the two are not written if it fails.
pub record Times : Type 0 where
  pub pid : ℤ
  pub wtime : Option ℤ
  pub rtime : Option ℕ

-- `*wtime` for a child reaped at time `now`.
abbrev pub wait_time : ℤ → Proc → ℤ
wait_time now p = let w = now -ℤ p.ctime -ℤ pos p.runtime in if lt_int w (pos 0) then neg w else w

-- `waitx`: one round.
unfoldable pub waitx : ℕ → Kernel → Waited Times
waitx cur k = elim (find_index (is_dead_child cur) k.procs) [
  | some i ↦
      let p = proc_at k i in
      returns
        (record {
          pid = p.pid;
          wtime = some (wait_time (to_int k.ticks) p);
          rtime = some p.runtime;
        })
        (put_proc k i (λ p. record (reaped p) { etime = to_int k.ticks }))
  | none ↦ elim (find_index (is_child cur) k.procs) [
    | none ↦ returns (record { pid = negsuc 0; wtime = none; rtime = none }) k
    | some i ↦
        if (proc_at k cur).killed
        then returns (record { pid = negsuc 0; wtime = none; rtime = none }) k
        else sleeps (sleep cur (proc_chan cur) k)
  ]
]

abbrev pub has_pid : ℤ → Proc → Bool
has_pid pid p = eq_int p.pid pid

-- `kill`
unfoldable pub kill : ℤ → Kernel → ℤ × Kernel
kill pid k = elim (find_index (has_pid pid) k.procs) [
  | none ↦ (negsuc 0, k)
  | some i ↦
      let k1 = put_proc k i (λ p. record p { killed = true }) in
      (
        pos 0,
        if eq_state (proc_at k1 i).state sleeping then make_runnable (proc_at k1 i).qn i k1 else k1,
      )
]

-- `yield` by `cur`, up to its call of sched.
unfoldable pub yield : ℕ → Kernel → Kernel
yield cur k =
    if is_mlfq k.policy
    then put_proc k cur (λ p. record p { curtime = 0; waittime = 0; state = runnable })
    else put_proc k cur (λ p. record p { state = runnable })
