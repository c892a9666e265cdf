-- ===== src/Proc/Types.antt =====
-- The data of xv6 modified/proc.h and param.h: processes, the five priority queues, the kernel's
-- globals. A `struct proc *` is the index of its slot in `ptable.proc`, and `none` the null
-- pointer. The queues' `face` and `back` are indices, and `none` stands for their value -1.
use osn_assignments.Base.{ℕ, ◌+◌, ◌^◌, ◌%◌, Option, none, List, [], Bool, true}
use osn_assignments.Base.{false, get_or, modify, replicate, ◌==◌}
use osn_assignments.Base.Int.{ℤ, pos}

-- `NPROC`
abbrev pub nproc : ℕ
nproc = 64

-- `age`: the wait above which a process moves up a queue.
abbrev pub age : ℕ
age = 18

-- `enum procstate`
pub data ProcState : Type 0 where
  unused embryo sleeping runnable running zombie : ProcState

abbrev pub eq_state : ProcState → ProcState → Bool
eq_state unused unused = true
eq_state embryo embryo = true
eq_state sleeping sleeping = true
eq_state runnable runnable = true
eq_state running running = true
eq_state zombie zombie = true
eq_state _ _ = false

-- The scheduler that the build selects (`-D ROUND_ROBIN` and its kin).
pub data Policy : Type 0 where
  round_robin fcfs mlfq pbs : Policy

abbrev pub is_mlfq : Policy → Bool
is_mlfq mlfq = true
is_mlfq _ = false

-- A sleep channel is an address: nothing, a `struct proc`, or some other object.
pub data Chan : Type 0 where
  no_chan : Chan
  proc_chan : ℕ → Chan
  object_chan : ℕ → Chan

abbrev pub eq_chan : Chan → Chan → Bool
eq_chan no_chan no_chan = true
eq_chan (proc_chan p) (proc_chan q) = p == q
eq_chan (object_chan p) (object_chan q) = p == q
eq_chan _ _ = false

-- The registers of `struct trapframe` that fork singles out, and the rest as one value.
pub record TrapFrame : Type 0 where
  pub eax : ℕ
  pub others : ℕ

-- `struct proc`. Counters that only grow by ticks and switches are natural numbers.
pub record Proc : Type 0 where
  pub sz : ℕ
  pub pgdir : ℕ
  pub kstack : ℕ
  pub state : ProcState
  pub pid : ℤ
  pub parent : Option ℕ
  pub tf : TrapFrame
  pub chan : Chan
  pub killed : Bool
  pub ofile : List (Option ℕ)
  pub cwd : Option ℕ
  pub name : List ℕ
  pub ctime : ℤ
  pub runtime : ℕ
  pub etime : ℤ
  pub waittime : ℕ
  pub nrun : ℕ
  pub curtime : ℕ
  pub priority : ℤ
  pub qn : ℕ
  pub qnt : List ℕ
  pub flagq : Bool

-- A slot as the loader leaves it: all zero.
abbrev pub zero_proc : Proc
zero_proc = record {
  sz = 0;
  pgdir = 0;
  kstack = 0;
  state = unused;
  pid = pos 0;
  parent = none;
  tf = record { eax = 0; others = 0 };
  chan = no_chan;
  killed = false;
  ofile = replicate 16 none;
  cwd = none;
  name = [];
  ctime = pos 0;
  runtime = 0;
  etime = pos 0;
  waittime = 0;
  nrun = 0;
  curtime = 0;
  priority = pos 0;
  qn = 0;
  qnt = replicate 5 0;
  flagq = false;
}

-- `face[i]`, `back[i]`, `sz[i]` and `queue[i]`. `sz` is an `int` as its 32-bit pattern.
pub record Level : Type 0 where
  pub face : Option ℕ
  pub back : Option ℕ
  pub size : ℕ
  pub slots : List (Option ℕ)

-- A level as `main` leaves it.
abbrev pub empty_level : Level
empty_level = record { face = none; back = none; size = 0; slots = replicate 64 none }

-- The five levels, and the word in memory just below `queue`, which `queue[0][-1]` names.
pub record Levels : Type 0 where
  pub below : Option ℕ
  pub levels : List Level

-- The globals of the process subsystem. `past_end` is the word at `ptable.proc[NPROC].nrun`.
pub record Kernel : Type 0 where
  pub procs : List Proc
  pub queues : Levels
  pub next_pid : ℕ
  pub ticks : ℕ
  pub init_proc : Option ℕ
  pub policy : Policy
  pub past_end : ℕ

abbrev pub proc_at : Kernel → ℕ → Proc
proc_at k i = get_or k.procs i zero_proc

-- A store through a pointer to slot `i`.
abbrev pub put_proc : Kernel → ℕ → (Proc → Proc) → Kernel
put_proc k i f = record k { procs = modify k.procs i f }

-- `n++` and `n--` on a 32-bit pattern.
abbrev pub inc_word : ℕ → ℕ
inc_word n = (n + 1) % 2 ^ 32

abbrev pub dec_word : ℕ → ℕ
dec_word n = (n + 4294967295) % 2 ^ 32
