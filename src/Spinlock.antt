-- ===== src/Spinlock.antt =====
-- Spinlocks of xv6 modified/spinlock.c, as steps of the processors: `pushcli` and `popcli`, and the
-- atomic exchange of `acquire`. A processor's flag IF says whether it takes interrupts.
pub mod Cli
pub mod Mutex
use osn_assignments.Base.{
  ℕ, zero, suc, ◌+◌, ◌-◌, ◌==◌, ◌≡◌, if◌then◌else◌, Bool, true, false, ◌&&◌, not, Option, none,
  some, update,
}

-- The fields of `struct cpu` that matter here, and the IF flag of its eflags register.
pub record Cpu : Type 0 where
  pub interrupts : Bool
  pub ncli : ℕ
  pub intena : Bool

-- `pushcli`
unfoldable pub pushcli : Cpu → Cpu
pushcli c = record {
  interrupts = false;
  ncli = c.ncli + 1;
  intena = if c.ncli == 0 then c.interrupts else c.intena;
}

-- `popcli`; `none` is either panic.
unfoldable pub popcli : Cpu → Option Cpu
popcli c =
    if c.interrupts
    then none
    else if c.ncli == 0
    then none
    else some (record c {
      ncli = c.ncli - 1;
      interrupts = if c.ncli - 1 == 0 then c.intena else c.interrupts;
    })

-- `struct spinlock`: `owner` is its `cpu` field. The name and the call stack are for debugging.
pub record Spinlock : Type 0 where
  pub locked : Bool
  pub owner : Option ℕ

-- `initlock`
abbrev pub initlock : Spinlock
initlock = record { locked = false; owner = none }

abbrev pub is_owner : Option ℕ → ℕ → Bool
is_owner none i = false
is_owner (some j) i = j == i

-- `holding` on processor `i`. Its pushcli and popcli cancel out: `Cli.popcli-pushcli`.
abbrev pub holding : ℕ → Spinlock → Bool
holding i l = if l.locked then is_owner l.owner i else false

-- Where a processor stands with the lock: outside; in the loop of `acquire`; behind its exchange;
-- behind `acquire`; and in `release`, with the owner cleared.
pub data Pc : Type 0 where
  outside spinning claimed inside leaving : Pc

-- The lock and the processors that use it.
pub record System : Type 0 where
  pub lock : Spinlock
  pub cpu : ℕ → Cpu
  pub pc : ℕ → Pc

-- One shared access of one processor. A panic is a step that is not there: `enter` wants that the
-- processor does not hold the lock, `drop` that it does, and `unlock` that popcli succeeds.
pub data Step (s : System) : System → Type 0 where
  -- `pushcli(); if(holding(lk)) panic("acquire");`
  enter :
      (i : ℕ)
      → s.pc i ≡ outside
      → holding i s.lock ≡ false
      → Step s (record s { cpu = update s.cpu i (pushcli (s.cpu i)); pc = update s.pc i spinning })
  -- `xchg(&lk->locked, 1) != 0`
  spin : (i : ℕ) → s.pc i ≡ spinning → s.lock.locked ≡ true → Step s s
  -- `xchg(&lk->locked, 1) == 0`
  exchange :
      (i : ℕ)
      → s.pc i ≡ spinning
      → s.lock.locked ≡ false
      → Step s (record s { lock = record (s.lock) { locked = true }; pc = update s.pc i claimed })
  -- `lk->cpu = mycpu();`
  claim :
      (i : ℕ)
      → s.pc i ≡ claimed
      → Step s (record s { lock = record (s.lock) { owner = some i }; pc = update s.pc i inside })
  -- `if(!holding(lk)) panic("release"); lk->cpu = 0;`
  drop :
      (i : ℕ)
      → s.pc i ≡ inside
      → holding i s.lock ≡ true
      → Step s (record s { lock = record (s.lock) { owner = none }; pc = update s.pc i leaving })
  -- `movl $0, lk->locked; popcli();`
  unlock :
      (i : ℕ) {c : Cpu}
      → s.pc i ≡ leaving
      → popcli (s.cpu i) ≡ some c
      → Step s (record {
        lock = record (s.lock) { locked = false };
        cpu = update s.cpu i c;
        pc = update s.pc i outside;
      })
  -- Anything else that a processor does while it is outside.
  elsewhere : (i : ℕ) (c : Cpu) → s.pc i ≡ outside → Step s (record s { cpu = update s.cpu i c })

-- The states that can come about from a fresh lock.
pub data Reach : System → Type 0 where
  start : (cpu : ℕ → Cpu) → Reach (record { lock = initlock; cpu = cpu; pc = λ i. outside })
  later : {s t : System} → Reach s → Step s t → Reach t
