-- ===== src/Tests/Processes.antt =====
-- The process operations at a table of six processes.
use osn_assignments.Base.{◌≡◌, refl, if◌then◌else◌, true, none, some, arith}
use osn_assignments.Base.Int.{pos}
use osn_assignments.Proc.Types.{runnable, sleeping, zombie, proc_chan, proc_at, TrapFrame}
use osn_assignments.Proc.Queue.{is_ptr}
use osn_assignments.Proc.Lifecycle.{wakeup1, exit, exited, wait}
use osn_assignments.Proc.Lifecycle.Wake.{Woken, wakeup1_lem}
use osn_assignments.Proc.Lifecycle.Exit.{exit_lem, exited-wakes_parent}
use osn_assignments.Proc.Lifecycle.Reap.{WaitSpec, wait-WaitSpec}
use osn_assignments.Proc.Sched.{fcfs_scan}
use osn_assignments.Proc.Timer.Slices.{SliceSpec, requeue-force_yield}
use osn_assignments.Sleeplock.{Sleeplock, acquiresleep, releasesleep, holdingsleep}
use osn_assignments.Sleeplock.Handover.{releasesleep-acquiresleep}
use osn_assignments.Tests.Kernels.{kernel, queues-IsQueues}

wakeup1_lem_example :
    Woken (proc_chan 1) (proc_at kernel 1) (proc_at (wakeup1 (proc_chan 1) kernel) 1)
wakeup1_lem_example = wakeup1_lem (proc_chan 1) kernel 1 refl (omega arith)

exit_lem_example :
    (exit 2 kernel ≡ some (exited 2 kernel))
    × ((proc_at (exited 2 kernel) 2).state ≡ zombie)
    × ((proc_at (exited 2 kernel) 3).parent
        ≡ (if is_ptr (proc_at kernel 3).parent 2 then some 0 else (proc_at kernel 3).parent))
exit_lem_example = exit_lem 2 3 kernel refl (omega arith) (omega arith) refl

exited-wakes_parent_example : (proc_at (exited 2 kernel) 1).state ≡ runnable
exited-wakes_parent_example =
    exited-wakes_parent 2 1 kernel refl (omega arith) (omega arith) (omega arith) refl refl

wait-WaitSpec_example : WaitSpec 2 kernel (wait 2 kernel)
wait-WaitSpec_example = wait-WaitSpec 2 kernel (omega arith)

abbrev frame : TrapFrame
frame = record { eax = 1; others = 2 }

fcfs_scan_run : fcfs_scan 64 0 none kernel ≡ some 4
unfolding fcfs_scan
fcfs_scan_run = refl

abbrev busy_lock : Sleeplock
busy_lock = record { locked = true; pid = pos 2 }

releasesleep-acquiresleep_example :
    let (got, k1) = acquiresleep 4096 2 busy_lock kernel in
    let (lk2, k2) = releasesleep 4096 k1 in
    let (again, k3) = acquiresleep 4096 2 lk2 k2 in
    (got ≡ none)
    × ((proc_at k1 2).state ≡ sleeping)
    × ((proc_at k2 2).state ≡ runnable)
    × ((lk3 : Sleeplock) × (again ≡ some lk3) × (holdingsleep 2 lk3 k3 ≡ true))
releasesleep-acquiresleep_example =
    releasesleep-acquiresleep 4096 2 busy_lock kernel refl (omega arith) refl

requeue-force_yield_example : SliceSpec 2 kernel
requeue-force_yield_example =
    requeue-force_yield 2 kernel (omega arith) queues-IsQueues refl refl (omega arith)
