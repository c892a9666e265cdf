-- ===== src/Proc/Accounting/Ticks.antt =====
-- Properties of change_ticks, preempt and set_priority of xv6 modified/proc.c.
use osn_assignments.Base.{
  ℕ, zero, suc, ◌+◌, ◌<◌, ◌≡◌, ◌≢◌, ◌↔◌, refl, ap, inl, inr, ◌==◌, if◌then◌else◌, Bool, true, false,
  Bool-cases, List, [], ◌∷◌, map, length, get_or, arith, find_index-first, get_or-modify_self,
  get_or-modify_ne,
}
use osn_assignments.Base.Int.{ℤ, pos}
use osn_assignments.Proc.Types.{Policy, running, eq_state, Proc, Kernel, proc_at, zero_proc}
use osn_assignments.Proc.Lifecycle.{has_pid}
use osn_assignments.Proc.Accounting.{
  set_priority, competes, preempt_scan, preempt, tick_proc, change_ticks,
}

get_or-map :
    {A : Type 0} (f : A → A) (xs : List A) (j : ℕ) (d : A)
    → j < length xs
    → get_or (map f xs) j d ≡ f (get_or xs j d)
get_or-map f [] j d h = absurd (omega arith)
get_or-map f (x ∷ xs) zero d h = refl
get_or-map f (x ∷ xs) (suc j) d h = get_or-map f xs j d (omega arith)

tick_proc_lem :
    (c : Policy) (p : Proc)
    → ((tick_proc c p).runtime + (tick_proc c p).waittime ≡ p.runtime + p.waittime + 1)
      × ((tick_proc c p).runtime ≡ (if eq_state p.state running then p.runtime + 1 else p.runtime))
      × ((tick_proc c p).state ≡ p.state)
tick_proc_lem c p = ground arith

-- What a tick makes of a slot.
pub change_ticks-eq :
    (k : Kernel) (j : ℕ)
    → j < length k.procs
    → proc_at (change_ticks k) j ≡ tick_proc k.policy (proc_at k j)
unfolding change_ticks
change_ticks-eq k j h = get_or-map (tick_proc k.policy) k.procs j zero_proc h

length-map : {A : Type 0} (f : A → A) (xs : List A) → length (map f xs) ≡ length xs
length-map f [] = refl
length-map f (x ∷ xs) = ap suc (length-map f xs)

pub length-change_ticks : (k : Kernel) → length (change_ticks k).procs ≡ length k.procs
unfolding change_ticks
length-change_ticks k = length-map (tick_proc k.policy) k.procs

-- A tick adds one to exactly one of a process's run time and wait time: to the run time if the
-- process is running, else to the wait time; it changes no state. Under every scheduler.
change_ticks_lem :
    (k : Kernel) (j : ℕ)
    → j < length k.procs
    → let p = proc_at k j in
      let p' = proc_at (change_ticks k) j in
      (p'.runtime + p'.waittime ≡ p.runtime + p.waittime + 1)
      × (p'.runtime ≡ (if eq_state p.state running then p.runtime + 1 else p.runtime))
      × (p'.state ≡ p.state)
unfolding change_ticks
change_ticks_lem k j h =
    rw (get_or-map (tick_proc k.policy) k.procs j zero_proc h)
      (tick_proc_lem k.policy (proc_at k j))

preempt_scan_true : (t : Bool) (c : ℤ) (ps : List Proc) → preempt_scan t c ps 1 ≡ 1
unfolding preempt_scan
preempt_scan_true t c [] = refl
preempt_scan_true t c (p ∷ ps) = elim (Bool-cases (competes t c p)) [
  | inl e ↦ rw e (preempt_scan_true t c ps)
  | inr e ↦ rw e (preempt_scan_true t c ps)
]

preempt_scan-hit :
    (t : Bool) (c : ℤ) (ps : List Proc) (j f : ℕ)
    → j < length ps
    → competes t c (get_or ps j zero_proc) ≡ true
    → preempt_scan t c ps f ≡ 1
unfolding preempt_scan
preempt_scan-hit t c [] j f h e = absurd (omega arith)
preempt_scan-hit t c (p ∷ ps) zero f h e = rw e (preempt_scan_true t c ps)
preempt_scan-hit t c (p ∷ ps) (suc j) f h e =
    preempt_scan-hit t c ps j (if competes t c p then 1 else f) (omega arith) e

preempt_scan-found :
    (t : Bool) (c : ℤ) (ps : List Proc)
    → preempt_scan t c ps 0 ≡ 1
    → (j : ℕ) × (j < length ps) × (competes t c (get_or ps j zero_proc) ≡ true)
unfolding preempt_scan
preempt_scan-found t c [] h = absurd (omega arith)
preempt_scan-found t c (p ∷ ps) h = elim (Bool-cases (competes t c p)) [
  | inl e ↦ (0, omega arith, e)
  | inr e ↦ let r = preempt_scan-found t c ps (rw e at h) in (suc r.0, omega (arith, r.1), r.2)
]

-- `preempt` answers 1 exactly if some process of the table with a pid has a lower priority number,
-- or an equal one when asked at a timer tick.
preempt_iff :
    (prior : ℤ) (i : ℕ) (k : Kernel)
    → (preempt prior i k ≡ 1)
      ↔ ((j : ℕ) × (j < length k.procs) × (competes (i == 1) prior (proc_at k j) ≡ true))
unfolding preempt
preempt_iff prior i k = (
  λ h. preempt_scan-found (i == 1) prior k.procs h,
  λ w. preempt_scan-hit (i == 1) prior k.procs w.0 0 w.1 w.2,
)

-- At a timer tick every process in the table that has a pid is told to yield: it competes with
-- itself, whatever the others' priorities and states are.
preempt_self :
    (j : ℕ) (k : Kernel)
    → j < length k.procs
    → (proc_at k j).pid ≢ pos 0
    → preempt (proc_at k j).priority 1 k ≡ 1
preempt_self j k lt named =
    (preempt_iff (proc_at k j).priority 1 k).1 (j, lt, self (proc_at k j) named)
  where
    self : (p : Proc) → p.pid ≢ pos 0 → competes (◌==◌ 1 1) p.priority p ≡ true
    self p h = ground arith

-- `set_priority` with a pid that process `i` is the first to have gives its old priority and sets
-- the new one there; every other process `j` stays as it is.
set_priority_lem :
    (new pid : ℤ) (k : Kernel) (i j : ℕ)
    → i < length k.procs
    → has_pid pid (proc_at k i) ≡ true
    → ((m : ℕ) → m < i → has_pid pid (proc_at k m) ≡ false)
    → i ≢ j
    → let (r, k') = set_priority new pid k in
      (r ≡ (proc_at k i).priority)
      × (proc_at k' i ≡ record (proc_at k i) { priority = new })
      × (proc_at k' j ≡ proc_at k j)
unfolding set_priority
set_priority_lem new pid k i j lt e before ne =
    rw (find_index-first (has_pid pid) k.procs i zero_proc lt e before, set_priority)
      (
        refl,
        get_or-modify_self k.procs i (λ p. record p { priority = new }) zero_proc lt,
        get_or-modify_ne k.procs i j (λ p. record p { priority = new }) zero_proc ne,
      )
