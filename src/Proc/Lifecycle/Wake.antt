-- ===== src/Proc/Lifecycle/Wake.antt =====
-- wakeup1 of xv6 modified/proc.c, over the whole table.
use osn_assignments.Base.{
  ℕ, zero, suc, ◌+◌, ◌<◌, ◌≤◌, ◌≡◌, ◌≢◌, refl, ◌∙◌, ◌⊎◌, inl, inr, ◌==◌, if◌then◌else◌, false,
  Bool-cases, length, arith, length-modify, get_or-modify_self, get_or-modify_ne, modify-rel,
}
use osn_assignments.Proc.Types.{runnable, is_mlfq, Chan, Proc, Kernel, proc_at, put_proc, zero_proc}
use osn_assignments.Proc.Queue.{push}
use osn_assignments.Proc.Queue.Push.{push-eq, accepts}
use osn_assignments.Proc.Lifecycle.{for_slots, sleeps_on, wake_slot, wakeup1}

module _ (k : Kernel) (i : ℕ) (f : Proc → Proc) where
  pub put_proc_self : i < length k.procs → proc_at (put_proc k i f) i ≡ f (proc_at k i)
  put_proc_self h = get_or-modify_self k.procs i f zero_proc h

  pub put_proc_ne : (j : ℕ) → i ≢ j → proc_at (put_proc k i f) j ≡ proc_at k j
  put_proc_ne j h = get_or-modify_ne k.procs i j f zero_proc h

-- What push leaves of a process: everything but the two clocks.
pub record SameProc (p p' : Proc) : Type 0 where
  pub state : p'.state ≡ p.state
  pub pid : p'.pid ≡ p.pid
  pub parent : p'.parent ≡ p.parent
  pub chan : p'.chan ≡ p.chan
  pub killed : p'.killed ≡ p.killed

SameProc-refl : (p : Proc) → SameProc p p
SameProc-refl p = record { state = refl; pid = refl; parent = refl; chan = refl; killed = refl }

pub push-SameProc : (a b j : ℕ) (k : Kernel) → SameProc (proc_at k j) (proc_at (push a b k) j)
push-SameProc a b j k = elim (Bool-cases (accepts a b k.queues)) [
  | inr e ↦ rw (push-eq a b k, e) (SameProc-refl (proc_at k j))
  | inl e ↦
      rw (push-eq a b k, e)
        (modify-rel SameProc (λ p. record p { curtime = 0; waittime = 0 }) SameProc-refl
          (λ p. record { state = refl; pid = refl; parent = refl; chan = refl; killed = refl })
          k.procs b j zero_proc)
]

pub length-push : (a b : ℕ) (k : Kernel) → length (push a b k).procs ≡ length k.procs
length-push a b k = elim (Bool-cases (accepts a b k.queues)) [
  | inl e ↦ rw (push-eq a b k, e) (length-modify k.procs b _)
  | inr e ↦ rw (push-eq a b k, e)
]

SameProc-trans : (p q r : Proc) → SameProc p q → SameProc q r → SameProc p r
SameProc-trans p q r a b = record {
  state = b.state ∙ a.state;
  pid = b.pid ∙ a.pid;
  parent = b.parent ∙ a.parent;
  chan = b.chan ∙ a.chan;
  killed = b.killed ∙ a.killed;
}

-- What wakeup1 makes of one process: a sleeper on the channel becomes runnable.
pub record Woken (chan : Chan) (p p' : Proc) : Type 0 where
  pub state : p'.state ≡ (if sleeps_on chan p then runnable else p.state)
  pub pid : p'.pid ≡ p.pid
  pub parent : p'.parent ≡ p.parent
  pub chan_kept : p'.chan ≡ p.chan
  pub killed : p'.killed ≡ p.killed

Woken-SameProc : (chan : Chan) (p q r : Proc) → Woken chan p q → SameProc q r → Woken chan p r
Woken-SameProc chan p q r w s = record {
  state = s.state ∙ w.state;
  pid = s.pid ∙ w.pid;
  parent = s.parent ∙ w.parent;
  chan_kept = s.chan ∙ w.chan_kept;
  killed = s.killed ∙ w.killed;
}

-- One round: slot `i` is woken if it sleeps on the channel, and every other slot stays.
module _ (chan : Chan) (i : ℕ) (k : Kernel) where
  wake_slot_self : i < length k.procs → Woken chan (proc_at k i) (proc_at (wake_slot chan i k) i)
  unfolding wake_slot
  wake_slot_self h = elim (Bool-cases (sleeps_on chan (proc_at k i))) [
    | inr e ↦
        rw e record { state = rw e; pid = refl; parent = refl; chan_kept = refl; killed = refl }
    | inl e ↦ elim (Bool-cases (is_mlfq k.policy)) [
      | inr m ↦
          rw (e, m, put_proc_self k i (λ p. record p { state = runnable }) h)
            record { state = rw e; pid = refl; parent = refl; chan_kept = refl; killed = refl }
      | inl m ↦
          let k1 = put_proc k i (λ p. record p { state = runnable; curtime = 0 }) in
          let at_i = put_proc_self k i (λ p. record p { state = runnable; curtime = 0 }) h in
          rw (e, m)
            (Woken-SameProc chan (proc_at k i) (proc_at k1 i)
              (proc_at (push (proc_at k i).qn i k1) i)
              (rw at_i
                record { state = rw e; pid = refl; parent = refl; chan_kept = refl; killed = refl })
              (push-SameProc (proc_at k i).qn i i k1))
    ]
  ]

  wake_slot_ne : (j : ℕ) → i ≢ j → SameProc (proc_at k j) (proc_at (wake_slot chan i k) j)
  unfolding wake_slot
  wake_slot_ne j ne = elim (Bool-cases (sleeps_on chan (proc_at k i))) [
    | inr e ↦ rw e (SameProc-refl (proc_at k j))
    | inl e ↦ elim (Bool-cases (is_mlfq k.policy)) [
      | inr m ↦
          rw (e, m, put_proc_ne k i (λ p. record p { state = runnable }) j ne)
            (SameProc-refl (proc_at k j))
      | inl m ↦
          let k1 = put_proc k i (λ p. record p { state = runnable; curtime = 0 }) in
          rw (e, m)
            (SameProc-trans (proc_at k j) (proc_at k1 j) (proc_at (push (proc_at k i).qn i k1) j)
              (rw (put_proc_ne k i (λ p. record p { state = runnable; curtime = 0 }) j ne)
                (SameProc-refl (proc_at k j)))
              (push-SameProc (proc_at k i).qn i j k1))
    ]
  ]

  length-wake_slot : length (wake_slot chan i k).procs ≡ length k.procs
  unfolding wake_slot
  length-wake_slot = elim (Bool-cases (sleeps_on chan (proc_at k i))) [
    | inr e ↦ rw e
    | inl e ↦ elim (Bool-cases (is_mlfq k.policy)) [
      | inr m ↦ rw (e, m) (length-modify k.procs i _)
      | inl m ↦
          rw
            (
              e,
              m,
              length-push (proc_at k i).qn i
                  (put_proc k i (λ p. record p { state = runnable; curtime = 0 })),
            )
            (length-modify k.procs i _)
    ]
  ]

wake_outside :
    (chan : Chan) (n i j : ℕ) (k : Kernel)
    → (j < i) ⊎ (i + n ≤ j)
    → SameProc (proc_at k j) (proc_at (for_slots n i (wake_slot chan) k) j)
unfolding for_slots
wake_outside chan zero i j k o = SameProc-refl (proc_at k j)
wake_outside chan (suc n) i j k o =
    SameProc-trans (proc_at k j) (proc_at (wake_slot chan i k) j)
      (proc_at (for_slots n (i + 1) (wake_slot chan) (wake_slot chan i k)) j)
      (wake_slot_ne chan i k j (omega arith))
      (wake_outside chan n (i + 1) j (wake_slot chan i k) (omega arith))

SameProc-Woken : (chan : Chan) (p q r : Proc) → SameProc p q → Woken chan q r → Woken chan p r
SameProc-Woken chan p q r s w = record {
  state = w.state ∙ rw (s.state, s.chan);
  pid = w.pid ∙ s.pid;
  parent = w.parent ∙ s.parent;
  chan_kept = w.chan_kept ∙ s.chan;
  killed = w.killed ∙ s.killed;
}

wake_inside :
    (chan : Chan) (n i j : ℕ) (k : Kernel)
    → i + n ≤ length k.procs
    → i ≤ j
    → j < i + n
    → Woken chan (proc_at k j) (proc_at (for_slots n i (wake_slot chan) k) j)
unfolding for_slots
wake_inside chan zero i j k h a b = absurd (omega arith)
wake_inside chan (suc n) i j k h a b = elim (Bool-cases (i == j)) [
  | inl e ↦
      let e' : i ≡ j = ground arith in
      rw (← e') (
        Woken-SameProc chan (proc_at k i) (proc_at (wake_slot chan i k) i)
          (proc_at (for_slots n (i + 1) (wake_slot chan) (wake_slot chan i k)) i)
          (wake_slot_self chan i k (omega arith))
          (wake_outside chan n (i + 1) i (wake_slot chan i k) (omega arith)))
  | inr e ↦
      let ne : i ≢ j = ground arith in
      SameProc-Woken chan (proc_at k j) (proc_at (wake_slot chan i k) j)
        (proc_at (for_slots n (i + 1) (wake_slot chan) (wake_slot chan i k)) j)
        (wake_slot_ne chan i k j ne)
        (wake_inside chan n (i + 1) j (wake_slot chan i k)
          (omega (arith, length-wake_slot chan i k)) (omega arith) (omega arith))
]

-- In a table of 64 slots, wakeup1 makes runnable exactly the processes that sleep on the channel;
-- state and channel of the others, and pid, parent, channel and kill mark of every process, stay.
pub wakeup1_lem :
    (chan : Chan) (k : Kernel) (j : ℕ)
    → length k.procs ≡ 64
    → j < 64
    → Woken chan (proc_at k j) (proc_at (wakeup1 chan k) j)
unfolding wakeup1
wakeup1_lem chan k j h lt = wake_inside chan 64 0 j k (omega arith) (omega arith) (omega arith)

length-wake :
    (chan : Chan) (n i : ℕ) (k : Kernel)
    → length (for_slots n i (wake_slot chan) k).procs ≡ length k.procs
unfolding for_slots
length-wake chan zero i k = refl
length-wake chan (suc n) i k =
    length-wake chan n (i + 1) (wake_slot chan i k) ∙ length-wake_slot chan i k

pub length-wakeup1 : (chan : Chan) (k : Kernel) → length (wakeup1 chan k).procs ≡ length k.procs
unfolding wakeup1
length-wakeup1 chan k = length-wake chan 64 0 k

-- No process sleeps on the channel after wakeup1: a sleeper is never missed.
wakeup1-none_left :
    (chan : Chan) (k : Kernel) (j : ℕ)
    → length k.procs ≡ 64
    → j < 64
    → sleeps_on chan (proc_at (wakeup1 chan k) j) ≡ false
wakeup1-none_left chan k j h lt =
    awake (proc_at k j) (proc_at (wakeup1 chan k) j) (wakeup1_lem chan k j h lt)
  where
    awake : (p q : Proc) → Woken chan p q → sleeps_on chan q ≡ false
    awake p q w = ground (arith, w.state, w.chan_kept)
