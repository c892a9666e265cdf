-- ===== src/Proc/Timer/Slices.antt =====
-- The timer of xv6 modified/trap.c with the MLFQ scheduler of proc.c: which level a process comes to,
-- and that a tick wakes those who sleep for it.
use osn_assignments.Base.{
  ℕ, ◌+◌, ◌<◌, ◌≤◌, ◌≡◌, refl, ◌∙◌, ap, inl, inr, ◌==◌, leb, if◌then◌else◌, Bool, true, false,
  Bool-cases, some, [], ◌∷◌, ◌++◌, length, get_or, arith, length-modify, modify-rel,
}
use osn_assignments.Proc.Types.{
  Policy, mlfq, running, runnable, sleeping, eq_state, Proc, Kernel, proc_at, put_proc, zero_proc,
  inc_word,
}
use osn_assignments.Proc.Queue.{push, level}
use osn_assignments.Proc.Queue.Window.{contents}
use osn_assignments.Proc.Queue.Push.{IsQueues, push-eq, push-contents, accepts}
use osn_assignments.Proc.Lifecycle.{sleep, sleeps, sleeps_on, yield}
use osn_assignments.Proc.Lifecycle.Wake.{put_proc_self, wakeup1_lem}
use osn_assignments.Proc.Accounting.{change_ticks, tick_proc}
use osn_assignments.Proc.Accounting.Ticks.{change_ticks-eq, length-change_ticks}
use osn_assignments.Proc.Sched.{requeue}
use osn_assignments.Proc.Timer.{slices, ticks_chan, timer_tick, sys_sleep, gives_up, force_yield}

pub push-qn : (a b j : ℕ) (k : Kernel) → (proc_at (push a b k) j).qn ≡ (proc_at k j).qn
push-qn a b j k = elim (Bool-cases (accepts a b k.queues)) [
  | inr e ↦ rw (push-eq a b k, e)
  | inl e ↦
      rw (push-eq a b k, e)
        (modify-rel (λ p q. q.qn ≡ p.qn) (λ p. record p { curtime = 0; waittime = 0 }) (λ p. refl)
          (λ p. refl) k.procs b j zero_proc)
]

-- The level after one that used up its slice.
abbrev pub next_level : ℕ → ℕ
next_level n = if n == 4 then n else n + 1

next_level-inc_word : (n : ℕ) → n < 5 → (if n == 4 then n else inc_word n) ≡ next_level n
next_level-inc_word n h = ground (arith, h)

next_level-lt : (n : ℕ) → n < 5 → next_level n < 5
next_level-lt n h = ground (arith, h)

-- The process `p` has come to the end of level `a`, if push takes it; it has that level.
pub record Joined (a p : ℕ) (k k' : Kernel) : Type 0 where
  pub qn : (proc_at k' p).qn ≡ a
  pub queue :
      (i : ℕ)
      → contents (level k'.queues i) ≡ (
          if a == i
          then if accepts a p k.queues
            then contents (level k.queues i) ++ (some p ∷ [])
            else contents (level k.queues i)
          else contents (level k.queues i))

requeue-Joined :
    (p : ℕ) (k : Kernel)
    → p < length k.procs
    → IsQueues k.queues
    → (proc_at k p).flagq ≡ true
    → (proc_at k p).qn < 5
    → Joined (next_level (proc_at k p).qn) p k (requeue p k)
unfolding requeue
requeue-Joined p k lt v fl small =
    let q : (proc_at (put_proc k p lower) p).qn ≡ next_level (proc_at k p).qn =
      ap (λ q. q.qn) (put_proc_self k p lower lt) ∙ next_level-inc_word (proc_at k p).qn small in
    record {
      qn = rw fl (push-qn (proc_at (put_proc k p lower) p).qn p p (put_proc k p lower) ∙ q);
      queue = λ i.
          rw (fl, q)
            (push-contents (next_level (proc_at k p).qn) p i (put_proc k p lower)
              (next_level-lt (proc_at k p).qn small) v);
    }
  where
    lower : Proc → Proc
    lower q = record q {
      flagq = false;
      curtime = 0;
      waittime = 0;
      qn = if q.qn == 4 then q.qn else inc_word q.qn;
    }

flagged : Proc → Proc
flagged p = record p { flagq = true }

yielded : Proc → Proc
yielded p = record p { curtime = 0; waittime = 0; state = runnable }

is_used : ℕ → Kernel → Bool
is_used cur k = leb (get_or slices (proc_at k cur).qn 0) (proc_at k cur).curtime

force_yield-eq :
    (cur : ℕ) (k : Kernel)
    → k.policy ≡ mlfq
    → (proc_at k cur).state ≡ running
    → force_yield true cur k
      ≡ (if is_used cur k then put_proc (put_proc k cur flagged) cur yielded else k)
unfolding force_yield gives_up yield flagged yielded is_used
force_yield-eq cur k pol run =
    let r : eq_state (proc_at k cur).state running ≡ true = rw run refl in rw (r, pol, gives_up)

-- What a timer tick does to the running process `cur` under MLFQ.
pub data SliceSpec (cur : ℕ) (k : Kernel) : Type 0 where
  -- There is time left: nothing happens.
  keeps :
      (proc_at k cur).curtime < get_or slices (proc_at k cur).qn 0
      → force_yield true cur k ≡ k
      → SliceSpec cur k
  -- The slice is used up: the process is runnable, the queues are as before until it is queued again,
  -- and that is at the end of the next level.
  lowers :
      get_or slices (proc_at k cur).qn 0 ≤ (proc_at k cur).curtime
      → (proc_at (force_yield true cur k) cur).state ≡ runnable
      → Joined (next_level (proc_at k cur).qn) cur k (requeue cur (force_yield true cur k))
      → SliceSpec cur k

-- Under MLFQ with five valid levels: a timer tick leaves a running process with time left in its slice
-- alone. One whose slice is used up becomes runnable, and when the scheduler queues it again, it
-- has the next lower level (the last one stays), stands at the end of that level if push accepts it
-- there, and all else that the levels hold is as before the tick.
pub requeue-force_yield :
    (cur : ℕ) (k : Kernel)
    → cur < length k.procs
    → IsQueues k.queues
    → k.policy ≡ mlfq
    → (proc_at k cur).state ≡ running
    → (proc_at k cur).qn < 5
    → SliceSpec cur k
unfolding flagged yielded is_used
requeue-force_yield cur k lt v pol run small = elim (Bool-cases (is_used cur k)) [
  | inr e ↦ keeps (ground (arith, e)) (rw (force_yield-eq cur k pol run, e))
  | inl e ↦
      let at1 = put_proc_self k cur flagged lt in
      let at2 =
        put_proc_self (put_proc k cur flagged) cur yielded
          (omega (arith, length-modify k.procs cur flagged)) in
      let k1 = put_proc (put_proc k cur flagged) cur yielded in
      let p = at2 ∙ ap yielded at1 in
      let same : (proc_at k1 cur).qn ≡ (proc_at k cur).qn = ap (λ q. q.qn) p in
      let j =
        requeue-Joined cur k1
          (omega (
            arith,
            length-modify k.procs cur flagged,
            length-modify (put_proc k cur flagged).procs cur yielded,
          ))
          v (ap (λ q. q.flagq) p) (omega (arith, same)) in
      lowers (ground (arith, e)) (rw (force_yield-eq cur k pol run, e) (ap (λ q. q.state) p)) (
        rw (force_yield-eq cur k pol run, e)
          (record { qn = j.qn ∙ ap next_level same; queue = λ i. rw same at (j.queue i) }))
]

tick_proc-kept :
    (c : Policy) (p : Proc) → ((tick_proc c p).state ≡ p.state) × ((tick_proc c p).chan ≡ p.chan)
tick_proc-kept c p = ground arith

-- In a table of 64 slots, a process that sys_sleep puts to sleep is made runnable by the next timer
-- tick, so that it looks at the time again.
timer_tick-sys_sleep :
    (cur ticks0 n : ℕ) (k k1 : Kernel)
    → length k.procs ≡ 64
    → cur < 64
    → sys_sleep cur ticks0 n k ≡ sleeps k1
    → ((proc_at k1 cur).state ≡ sleeping) × ((proc_at (timer_tick k1) cur).state ≡ runnable)
unfolding timer_tick sys_sleep
timer_tick-sys_sleep cur ticks0 n k k1 full lt h =
    let e : k1 ≡ sleep cur ticks_chan k = ground arith in
    rw e (
      ap (λ p. p.state) asleep,
      (wakeup1_lem ticks_chan (change_ticks k2) cur
            (length-change_ticks k2 ∙ length-modify k.procs cur rest ∙ full) lt).state
          ∙ rw (change_ticks-eq k2 cur (omega (arith, length-modify k.procs cur rest)))
              (woken k2.policy),
    )
  where
    rest : Proc → Proc
    rest p = record p { chan = ticks_chan; state = sleeping }

    k2 : Kernel
    k2 = record (sleep cur ticks_chan k) { ticks = inc_word k.ticks }

    asleep : proc_at (sleep cur ticks_chan k) cur ≡ rest (proc_at k cur)
    asleep = put_proc_self k cur rest (omega arith)

    woken :
        (c : Policy)
        → (if sleeps_on ticks_chan (tick_proc c (proc_at k2 cur))
            then runnable
            else (tick_proc c (proc_at k2 cur)).state)
          ≡ runnable
    woken c =
        rw ((tick_proc-kept c (proc_at k2 cur)).0, (tick_proc-kept c (proc_at k2 cur)).1, asleep)
          refl
