-- ===== src/Proc/Timer.antt =====
-- The timer interrupt in xv6 modified/trap.c, and the waiting of sys_sleep in sysproc.c for it.
pub mod Slices
use osn_assignments.Base.{
  ℕ, zero, suc, ◌+◌, ◌-◌, ◌^◌, ◌%◌, ◌==◌, ltb, leb, if◌then◌else◌, Bool, true, false, not, List, [],
  ◌∷◌, get_or,
}
use osn_assignments.Base.Int.{ℤ, pos, negsuc, to_int}
use osn_assignments.Proc.Types.{
  running, eq_state, Policy, round_robin, fcfs, mlfq, pbs, Chan, object_chan, Kernel, proc_at,
  put_proc, inc_word,
}
use osn_assignments.Proc.Lifecycle.{wakeup1, yield, sleep, Waited, returns, sleeps}
use osn_assignments.Proc.Accounting.{preempt, change_ticks}

-- `slices`, as main sets it.
abbrev pub slices : List ℕ
slices = 1 ∷ (2 ∷ (4 ∷ (8 ∷ (16 ∷ []))))

-- The channel `&ticks`.
abbrev pub ticks_chan : Chan
ticks_chan = object_chan 0

-- The timer interrupt on processor 0, up to its lapiceoi.
unfoldable pub timer_tick : Kernel → Kernel
timer_tick k = wakeup1 ticks_chan (change_ticks (record k { ticks = inc_word k.ticks }))

-- Whether a trap makes the running process `cur` yield, by the scheduler; `timer` says whether the
-- trap is the timer's.
unfoldable pub gives_up : Policy → Bool → ℕ → Kernel → Bool
gives_up round_robin timer cur k = timer
gives_up fcfs timer cur k = false
gives_up mlfq timer cur k =
    if timer then leb (get_or slices (proc_at k cur).qn 0) (proc_at k cur).curtime else false
gives_up pbs timer cur k = not (preempt (proc_at k cur).priority (if timer then 1 else 0) k == 0)

abbrev pub set_flag : Policy → ℕ → Kernel → Kernel
set_flag mlfq cur k = put_proc k cur (λ p. record p { flagq = true })
set_flag _ cur k = k

-- The part of `trap` that makes a process give up the processor, up to the switch in yield.
unfoldable pub force_yield : Bool → ℕ → Kernel → Kernel
unfolding gives_up
force_yield timer cur k =
    if eq_state (proc_at k cur).state running
    then (if gives_up k.policy timer cur k then yield cur (set_flag k.policy cur k) else k)
    else k

-- The loop of `sys_sleep` by `cur` for `n` ticks from `ticks0` on: one round. The comparison is on
-- unsigned words.
unfoldable pub sys_sleep : ℕ → ℕ → ℕ → Kernel → Waited ℤ
sys_sleep cur ticks0 n k =
    if ltb ((k.ticks + 4294967296 - ticks0) % 2 ^ 32) n
    then (if (proc_at k cur).killed then returns (negsuc 0) k else sleeps (sleep cur ticks_chan k))
    else returns (pos 0) k
