-- ===== src/Sleeplock/Handover.antt =====
-- A sleeping lock of xv6 modified/sleeplock.c is handed over without a lost wake-up.
use osn_assignments.Base.{
  ℕ, ◌<◌, ◌≡◌, refl, ◌∙◌, ap, true, none, some, length, arith, length-modify,
}
use osn_assignments.Base.Int.{eq_int_refl}
use osn_assignments.Proc.Types.{runnable, object_chan, Proc, sleeping, Kernel, proc_at}
use osn_assignments.Proc.Lifecycle.{sleep, wakeup1}
use osn_assignments.Proc.Lifecycle.Wake.{put_proc_self, wakeup1_lem}
use osn_assignments.Sleeplock.{Sleeplock, acquiresleep, releasesleep, holdingsleep}

-- In a table of 64 slots, a taken lock puts the caller of acquiresleep to sleep, and the next
-- releasesleep makes it runnable again and frees the lock, so that acquiresleep right after it
-- takes the lock and holdingsleep says so.
pub releasesleep-acquiresleep :
    (addr cur : ℕ) (lk : Sleeplock) (k : Kernel)
    → length k.procs ≡ 64
    → cur < 64
    → lk.locked ≡ true
    → let (got, k1) = acquiresleep addr cur lk k in
      let (lk2, k2) = releasesleep addr k1 in
      let (again, k3) = acquiresleep addr cur lk2 k2 in
      (got ≡ none)
      × ((proc_at k1 cur).state ≡ sleeping)
      × ((proc_at k2 cur).state ≡ runnable)
      × ((lk3 : Sleeplock) × (again ≡ some lk3) × (holdingsleep cur lk3 k3 ≡ true))
unfolding acquiresleep releasesleep holdingsleep
releasesleep-acquiresleep addr cur lk k full lt taken = rw taken (
  refl,
  ap (λ p. p.state) asleep,
  (wakeup1_lem (object_chan addr) k1 cur (length-modify k.procs cur rest ∙ full) lt).state
      ∙ rw (asleep) (ground arith),
  (
    record { locked = true; pid = (proc_at (wakeup1 (object_chan addr) k1) cur).pid },
    refl,
    eq_int_refl (proc_at (wakeup1 (object_chan addr) k1) cur).pid,
  ),
)
  where
    rest : Proc → Proc
    rest p = record p { chan = object_chan addr; state = sleeping }

    k1 : Kernel
    k1 = sleep cur (object_chan addr) k

    asleep : proc_at k1 cur ≡ rest (proc_at k cur)
    asleep = put_proc_self k cur rest (omega arith)
