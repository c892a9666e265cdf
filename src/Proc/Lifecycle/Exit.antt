-- ===== src/Proc/Lifecycle/Exit.antt =====
-- exit of xv6 modified/proc.c: its children go to init, and it stays behind as a zombie.
use osn_assignments.Base.{
  ℕ, zero, suc, ◌+◌, ◌<◌, ◌≤◌, ◌≡◌, ◌≢◌, refl, ◌∙◌, ◌⊎◌, inl, inr, ◌==◌, if◌then◌else◌, true, false,
  Bool-cases, Option, none, some, length, ap, arith, length-modify, map, modify-rel,
}
use osn_assignments.Base.Int.{to_int}
use osn_assignments.Proc.Types.{
  zombie, runnable, is_mlfq, eq_state, Chan, proc_chan, Proc, Kernel, proc_at, put_proc, zero_proc,
}
use osn_assignments.Proc.Queue.{is_ptr, push}
use osn_assignments.Proc.Queue.Push.{push-eq, accepts}
use osn_assignments.Proc.Lifecycle.{
  for_slots, wakeup1, ptr_chan, sleeps_on, wake_slot, reparent_slot, exited, exit,
}
use osn_assignments.Proc.Lifecycle.Wake.{
  Woken, put_proc_self, put_proc_ne, wakeup1_lem, length-wakeup1,
}

init_proc-push : (a b : ℕ) (k : Kernel) → (push a b k).init_proc ≡ k.init_proc
init_proc-push a b k = elim (Bool-cases (accepts a b k.queues)) [
  | inl e ↦ rw (push-eq a b k, e)
  | inr e ↦ rw (push-eq a b k, e)
]

init_proc-wake_slot :
    (chan : Chan) (i : ℕ) (k : Kernel) → (wake_slot chan i k).init_proc ≡ k.init_proc
unfolding wake_slot
init_proc-wake_slot chan i k = elim (Bool-cases (sleeps_on chan (proc_at k i))) [
  | inr e ↦ rw e
  | inl e ↦ elim (Bool-cases (is_mlfq k.policy)) [
    | inr m ↦ rw (e, m)
    | inl m ↦ rw (
      e,
      m,
      init_proc-push (proc_at k i).qn i
          (put_proc k i (λ p. record p { state = runnable; curtime = 0 })),
    )
  ]
]

init_proc-wake :
    (chan : Chan) (n i : ℕ) (k : Kernel)
    → (for_slots n i (wake_slot chan) k).init_proc ≡ k.init_proc
unfolding for_slots
init_proc-wake chan zero i k = refl
init_proc-wake chan (suc n) i k =
    init_proc-wake chan n (i + 1) (wake_slot chan i k) ∙ init_proc-wake_slot chan i k

init_proc-wakeup1 : (chan : Chan) (k : Kernel) → (wakeup1 chan k).init_proc ≡ k.init_proc
unfolding wakeup1
init_proc-wakeup1 chan k = init_proc-wake chan 64 0 k

-- A runnable process stays runnable.
stays_runnable :
    (chan : Chan) (p q : Proc) → Woken chan p q → p.state ≡ runnable → q.state ≡ runnable
stays_runnable chan p q w r = ground (arith, w.state)

Woken-sleeper :
    (chan : Chan) (p q : Proc) → Woken chan p q → sleeps_on chan p ≡ true → q.state ≡ runnable
Woken-sleeper chan p q w r = ground (arith, w.state)

-- What a reparenting round makes of a table: the slots stay 64, init stays, and the parent of slot
-- `j` is as the round leaves it.
record Reparented (cur i : ℕ) (k k' : Kernel) : Type 0 where
  full : length k'.procs ≡ 64
  init_kept : k'.init_proc ≡ k.init_proc
  here :
      i < 64
      → (proc_at k' i).parent
        ≡ (if is_ptr (proc_at k i).parent cur then k.init_proc else (proc_at k i).parent)
  elsewhere : (j : ℕ) → j < 64 → i ≢ j → (proc_at k' j).parent ≡ (proc_at k j).parent
  awake : (j : ℕ) → j < 64 → (proc_at k j).state ≡ runnable → (proc_at k' j).state ≡ runnable

reparent_slot-Reparented :
    (cur i : ℕ) (k : Kernel) → length k.procs ≡ 64 → Reparented cur i k (reparent_slot cur i k)
unfolding reparent_slot
reparent_slot-Reparented cur i k full = elim (Bool-cases (is_ptr (proc_at k i).parent cur)) [
  | inr e ↦ rw e record {
    full = full;
    init_kept = refl;
    here = λ h. rw e;
    elsewhere = λ j h ne. refl;
    awake = λ j h r. r;
  }
  | inl e ↦ elim (Bool-cases (eq_state (proc_at k1 i).state zombie)) [
    | inr z ↦
        rw (e, z)
          record {
            full = length-modify k.procs i adopt ∙ full;
            init_kept = refl;
            here = λ h. rw e (ap (λ p. p.parent) (put_proc_self k i adopt (omega arith)));
            elsewhere = λ j h ne. ap (λ p. p.parent) (put_proc_ne k i adopt j ne);
            awake = λ j h r. same_state j ∙ r;
          }
    | inl z ↦
        rw (e, z)
          record {
            full = length-wakeup1 chan k1 ∙ length-modify k.procs i adopt ∙ full;
            init_kept = init_proc-wakeup1 chan k1;
            here = λ h. rw e (
                (wakeup1_lem chan k1 i (length-modify k.procs i adopt ∙ full) h).parent
                ∙ ap (λ p. p.parent) (put_proc_self k i adopt (omega arith)));
            elsewhere = λ j h ne.
                (wakeup1_lem chan k1 j (length-modify k.procs i adopt ∙ full) h).parent
                ∙ ap (λ p. p.parent) (put_proc_ne k i adopt j ne);
            awake = λ j h r.
                stays_runnable chan (proc_at k1 j) (proc_at (wakeup1 chan k1) j)
                  (wakeup1_lem chan k1 j (length-modify k.procs i adopt ∙ full) h)
                  (same_state j ∙ r);
          }
  ]
]
  where
    adopt : Proc → Proc
    adopt p = record p { parent = k.init_proc }

    k1 : Kernel
    k1 = put_proc k i adopt

    chan : Chan
    chan = ptr_chan k.init_proc

    same_state : (j : ℕ) → (proc_at k1 j).state ≡ (proc_at k j).state
    same_state j =
        modify-rel (λ p q. q.state ≡ p.state) adopt (λ p. refl) (λ p. refl) k.procs i j zero_proc

record Orphaned (cur lo hi : ℕ) (k k' : Kernel) : Type 0 where
  full : length k'.procs ≡ 64
  inside :
      (j : ℕ)
      → lo ≤ j
      → j < hi
      → j < 64
      → (proc_at k' j).parent
        ≡ (if is_ptr (proc_at k j).parent cur then k.init_proc else (proc_at k j).parent)
  outside : (j : ℕ) → j < 64 → (j < lo) ⊎ (hi ≤ j) → (proc_at k' j).parent ≡ (proc_at k j).parent
  awake : (j : ℕ) → j < 64 → (proc_at k j).state ≡ runnable → (proc_at k' j).state ≡ runnable

Orphaned-next :
    (cur n i : ℕ) (k k1 k' : Kernel)
    → Reparented cur i k k1
    → Orphaned cur (i + 1) (i + 1 + n) k1 k'
    → Orphaned cur i (i + suc n) k k'
Orphaned-next cur n i k k1 k' one r = record {
  full = r.full;
  inside = λ j a b h. elim (Bool-cases (i == j)) [
    | inl e ↦
        let e' : i ≡ j = ground arith in
        rw (← e') (r.outside i (omega arith) (omega arith) ∙ one.here (omega arith))
    | inr e ↦
        let ne : i ≢ j = ground arith in
        r.inside j (omega arith) (omega arith) h ∙ rw (one.elsewhere j h ne, one.init_kept)
  ];
  outside = λ j h o. r.outside j h (omega arith) ∙ one.elsewhere j h (omega arith);
  awake = λ j h e. r.awake j h (one.awake j h e);
}

reparent_loop :
    (cur n i : ℕ) (k : Kernel)
    → length k.procs ≡ 64
    → Orphaned cur i (i + n) k (for_slots n i (reparent_slot cur) k)
unfolding for_slots
reparent_loop cur zero i k full = record {
  full = full;
  inside = λ j a b h. absurd (omega arith);
  outside = λ j h o. refl;
  awake = λ j h r. r;
}
reparent_loop cur (suc n) i k full =
    let one = reparent_slot-Reparented cur i k full in
    Orphaned-next cur n i k (reparent_slot cur i k)
      (for_slots n (i + 1) (reparent_slot cur) (reparent_slot cur i k)) one
      (reparent_loop cur n (i + 1) (reparent_slot cur i k) one.full)

exited_lem :
    (cur : ℕ) (k : Kernel)
    → length k.procs ≡ 64
    → cur < 64
    → ((proc_at (exited cur k) cur).state ≡ zombie)
      × ((j : ℕ)
          → j < 64
          → (proc_at (exited cur k) j).parent
            ≡ (if is_ptr (proc_at k j).parent cur then k.init_proc else (proc_at k j).parent))
unfolding exited
exited_lem cur k full lt = (
  ap (λ p. p.state) (put_proc_self k3 cur die (omega (arith, orphaned.full))),
  λ j h.
      same_parent k3 die (λ p. refl) j
      ∙ orphaned.inside j (omega arith) (omega arith) h
      ∙ adopted (proc_at k2 j).parent (proc_at k j).parent k2.init_proc
          ((wakeup1_lem chan k1 j full1 h).parent ∙ same_parent k close (λ p. refl) j)
          (init_proc-wakeup1 chan k1),
)
  where
    close : Proc → Proc
    close p = record p { ofile = map (λ f. none) p.ofile; cwd = none }

    die : Proc → Proc
    die p = record p { etime = to_int k.ticks; state = zombie }

    same_parent :
        (k : Kernel) (f : Proc → Proc)
        → ((p : Proc) → (f p).parent ≡ p.parent)
        → (j : ℕ) → (proc_at (put_proc k cur f) j).parent ≡ (proc_at k j).parent
    same_parent k f h j =
        modify-rel (λ p q. q.parent ≡ p.parent) f (λ p. refl) h k.procs cur j zero_proc

    k1 : Kernel
    k1 = put_proc k cur close

    chan : Chan
    chan = ptr_chan (proc_at k1 cur).parent

    full1 : length k1.procs ≡ 64
    full1 = length-modify k.procs cur close ∙ full

    k2 : Kernel
    k2 = wakeup1 chan k1

    k3 : Kernel
    k3 = for_slots 64 0 (reparent_slot cur) k2

    orphaned : Orphaned cur 0 (0 + 64) k2 k3
    orphaned = reparent_loop cur 64 0 k2 (length-wakeup1 chan k1 ∙ full1)

    adopted :
        (a b c : Option ℕ)
        → a ≡ b
        → c ≡ k.init_proc
        → (if is_ptr a cur then c else a) ≡ (if is_ptr b cur then k.init_proc else b)
    adopted a b c e f = rw (e, f)

-- In a table of 64 slots, exit of a process other than init does not panic; the process ends as a
-- zombie, and in every slot a child it had now has init for its parent, any other process the
-- parent it had.
pub exit_lem :
    (cur j : ℕ) (k : Kernel)
    → length k.procs ≡ 64
    → cur < 64
    → j < 64
    → is_ptr k.init_proc cur ≡ false
    → (exit cur k ≡ some (exited cur k))
      × ((proc_at (exited cur k) cur).state ≡ zombie)
      × ((proc_at (exited cur k) j).parent
          ≡ (if is_ptr (proc_at k j).parent cur then k.init_proc else (proc_at k j).parent))
unfolding exit
exit_lem cur j k full lt lt' e = let r = exited_lem cur k full lt in (rw e, r.0, r.1 j lt')

-- No wakeup is lost between wait and exit: when, in a table of 64 slots, a process sleeps on its
-- own address, as wait makes it, and another process whose parent it is exits, it comes out
-- runnable.
pub exited-wakes_parent :
    (cur parent : ℕ) (k : Kernel)
    → length k.procs ≡ 64
    → cur < 64
    → parent < 64
    → cur ≢ parent
    → (proc_at k cur).parent ≡ some parent
    → sleeps_on (proc_chan parent) (proc_at k parent) ≡ true
    → (proc_at (exited cur k) parent).state ≡ runnable
unfolding exited
exited-wakes_parent cur parent k full lt lt' ne e asleep =
    ap (λ p. p.state) (put_proc_ne k3 cur die parent ne)
    ∙ (reparent_loop cur 64 0 k2 (length-wakeup1 chan k1 ∙ full1)).awake parent lt' (
        Woken-sleeper chan (proc_at k1 parent) (proc_at k2 parent)
          (wakeup1_lem chan k1 parent full1 lt')
          (rw (named, put_proc_ne k cur close parent ne) asleep))
  where
    close : Proc → Proc
    close p = record p { ofile = map (λ f. none) p.ofile; cwd = none }

    die : Proc → Proc
    die p = record p { etime = to_int k.ticks; state = zombie }

    k1 : Kernel
    k1 = put_proc k cur close

    chan : Chan
    chan = ptr_chan (proc_at k1 cur).parent

    named : chan ≡ proc_chan parent
    named =
        ap (λ p. ptr_chan p.parent) (put_proc_self k cur close (omega (arith, full)))
        ∙ ap ptr_chan e

    full1 : length k1.procs ≡ 64
    full1 = length-modify k.procs cur close ∙ full

    k2 : Kernel
    k2 = wakeup1 chan k1

    k3 : Kernel
    k3 = for_slots 64 0 (reparent_slot cur) k2
