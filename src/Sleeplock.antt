-- ===== src/Sleeplock.antt =====
-- Sleeping locks of xv6 modified/sleeplock.c, over the process table that sleep and wakeup change.
-- Each function is one step under the lock's spinlock. `addr` is the lock's address, the channel.
pub mod Handover
use osn_assignments.Base.{ℕ, if◌then◌else◌, Bool, true, false, Option, none, some}
use osn_assignments.Base.Int.{ℤ, pos, eq_int}
use osn_assignments.Proc.Types.{object_chan, Kernel, proc_at}
use osn_assignments.Proc.Lifecycle.{sleep, wakeup1}

-- `struct sleeplock`, but for its spinlock and its name.
pub record Sleeplock : Type 0 where
  pub locked : Bool
  pub pid : ℤ

-- `initsleeplock`
abbrev pub initsleeplock : Sleeplock
initsleeplock = record { locked = false; pid = pos 0 }

-- One round of `acquiresleep` by `cur`; `none` where it sleeps.
unfoldable pub acquiresleep : ℕ → ℕ → Sleeplock → Kernel → Option Sleeplock × Kernel
acquiresleep addr cur lk k =
    if lk.locked
    then (none, sleep cur (object_chan addr) k)
    else (some (record { locked = true; pid = (proc_at k cur).pid }), k)

-- `releasesleep`
unfoldable pub releasesleep : ℕ → Kernel → Sleeplock × Kernel
releasesleep addr k = (record { locked = false; pid = pos 0 }, wakeup1 (object_chan addr) k)

-- `holdingsleep` by `cur`
unfoldable pub holdingsleep : ℕ → Sleeplock → Kernel → Bool
holdingsleep cur lk k = if lk.locked then eq_int lk.pid (proc_at k cur).pid else false
