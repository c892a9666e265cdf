-- ===== src/Proc/Lifecycle/Reap.antt =====
-- allocproc, fork, wait, waitx and kill of xv6 modified/proc.c: how slots are taken and given back.
use osn_assignments.Base.{
  ℕ, zero, suc, ◌<◌, ◌≡◌, ◌≢◌, refl, ◌∙◌, ap, inl, inr, ◌==◌, if◌then◌else◌, true, false,
  Bool-cases, none, some, Option-cases, List, [], ◌∷◌, map, length, modify, arith, find_index,
  find_index-some, find_index-none, find_index-modify, length-modify,
}
use osn_assignments.Base.Int.{ℤ, pos, negsuc, ◌-ℤ◌, abs, neg, lt_int, to_int}
use osn_assignments.Proc.Types.{
  unused, embryo, sleeping, eq_state, proc_chan, TrapFrame, Proc, Kernel, proc_at, put_proc,
  zero_proc, inc_word,
}
use osn_assignments.Proc.Lifecycle.{
  is_unused, fresh, allocproc, is_child, is_dead_child, reaped, Waited, returns, sleeps, sleep,
  wait, waitx, Times, wait_time, has_pid, kill,
}
use osn_assignments.Proc.Lifecycle.Wake.{put_proc_self, put_proc_ne}

allocproc-eq :
    (stack : ℕ) (frame : TrapFrame) (k : Kernel) (i : ℕ)
    → (stack == 0) ≡ false
    → find_index is_unused k.procs ≡ some i
    → allocproc stack frame k ≡ (
      some i,
      put_proc
          (put_proc
            (record k { next_pid = inc_word k.next_pid })
            i
            (fresh (to_int k.next_pid) k.ticks))
          i
          (λ p. record p { kstack = stack; tf = frame }),
    )
unfolding allocproc
allocproc-eq stack frame k i ne e = rw (e, allocproc, ne)

-- Two stores to one slot.
put_proc_twice :
    (k : Kernel) (i : ℕ) (f g : Proc → Proc)
    → i < length k.procs
    → (proc_at (put_proc (put_proc k i f) i g) i ≡ g (f (proc_at k i)))
      × ((j : ℕ) → i ≢ j → proc_at (put_proc (put_proc k i f) i g) j ≡ proc_at k j)
put_proc_twice k i f g lt = (
  put_proc_self (put_proc k i f) i g (omega (arith, length-modify k.procs i f))
      ∙ ap g (put_proc_self k i f lt),
  λ j ne. put_proc_ne (put_proc k i f) i g j ne ∙ put_proc_ne k i f j ne,
)

-- allocproc with a free slot and a page takes the first free slot, gives it the next pid, default
-- priority 60 and level 0, and leaves every other slot alone. The kill mark is what the slot had.
allocproc_lem :
    (stack : ℕ) (frame : TrapFrame) (k : Kernel) (i j : ℕ)
    → stack ≢ 0
    → find_index is_unused k.procs ≡ some i
    → i ≢ j
    → let (r, k') = allocproc stack frame k in
      let p = proc_at k' i in
      (r ≡ some i)
      × (p.state ≡ embryo)
      × (p.pid ≡ to_int k.next_pid)
      × (p.priority ≡ pos 60)
      × (p.qn ≡ 0)
      × (p.kstack ≡ stack)
      × (p.killed ≡ (proc_at k i).killed)
      × (k'.next_pid ≡ inc_word k.next_pid)
      × (proc_at k' j ≡ proc_at k j)
allocproc_lem stack frame k i j ne e other =
    let lt = (find_index-some is_unused k.procs i zero_proc e).0 in
    let k1 = record k { next_pid = inc_word k.next_pid } in
    let two =
      put_proc_twice k1 i (fresh (to_int k.next_pid) k.ticks)
        (λ p. record p { kstack = stack; tf = frame }) lt in
    rw (allocproc-eq stack frame k i (ground arith) e, two.0)
      (refl, refl, refl, refl, refl, refl, refl, refl, two.1 j other)

-- allocproc without a page gives null and leaves the slot that it took free, though a pid is spent.
allocproc_no_page :
    (frame : TrapFrame) (k : Kernel) (i : ℕ)
    → find_index is_unused k.procs ≡ some i
    → let (r, k') = allocproc 0 frame k in
      (r ≡ none) × ((proc_at k' i).state ≡ unused) × (k'.next_pid ≡ inc_word k.next_pid)
unfolding allocproc
allocproc_no_page frame k i e =
    let lt = (find_index-some is_unused k.procs i zero_proc e).0 in
    let k1 = record k { next_pid = inc_word k.next_pid } in
    let two =
      put_proc_twice k1 i (fresh (to_int k.next_pid) k.ticks)
        (λ p. record p { kstack = 0; state = unused }) lt in
    rw (e, allocproc) (refl, ap (λ p. p.state) two.0, refl)

-- The wait time that waitx reports is never negative: it is the distance of the child's life from
-- its run time.
wait_time_lem : (now : ℤ) (p : Proc) → wait_time now p ≡ pos (abs (now -ℤ p.ctime -ℤ pos p.runtime))
wait_time_lem now p = sign (now -ℤ p.ctime -ℤ pos p.runtime)
  where
    sign : (w : ℤ) → (if lt_int w (pos 0) then neg w else w) ≡ pos (abs w)
    sign w = ground arith

-- The kernel in which slot `i` is free, with nothing of the child left that wait is to clear, and all
-- else is as before.
pub record Reaped (i : ℕ) (k k' : Kernel) : Type 0 where
  pub state : (proc_at k' i).state ≡ unused
  pub pid : (proc_at k' i).pid ≡ pos 0
  pub parent : (proc_at k' i).parent ≡ none
  pub name : (proc_at k' i).name ≡ []
  pub killed : (proc_at k' i).killed ≡ false
  pub kstack : (proc_at k' i).kstack ≡ 0
  pub others : (j : ℕ) → i ≢ j → proc_at k' j ≡ proc_at k j
  pub rest : k' ≡ record k { procs = k'.procs }

-- The kernel in which `cur` sleeps on its own address, and all else is as before.
pub record SleepsOnSelf (cur : ℕ) (k k' : Kernel) : Type 0 where
  pub slot : proc_at k' cur ≡ record (proc_at k cur) { chan = proc_chan cur; state = sleeping }
  pub others : (j : ℕ) → cur ≢ j → proc_at k' j ≡ proc_at k j
  pub rest : k' ≡ record k { procs = k'.procs }

put_proc-Reaped : (i : ℕ) (k : Kernel) → i < length k.procs → Reaped i k (put_proc k i reaped)
put_proc-Reaped i k lt =
    let q = put_proc_self k i reaped lt in
    record {
      state = ap (λ p. p.state) q;
      pid = ap (λ p. p.pid) q;
      parent = ap (λ p. p.parent) q;
      name = ap (λ p. p.name) q;
      killed = ap (λ p. p.killed) q;
      kstack = ap (λ p. p.kstack) q;
      others = λ j ne. put_proc_ne k i reaped j ne;
      rest = refl;
    }

sleep-SleepsOnSelf :
    (cur : ℕ) (k : Kernel) → cur < length k.procs → SleepsOnSelf cur k (sleep cur (proc_chan cur) k)
sleep-SleepsOnSelf cur k lt = record {
  slot = put_proc_self k cur asleep lt;
  others = λ j ne. put_proc_ne k cur asleep j ne;
  rest = refl;
}
  where
    asleep : Proc → Proc
    asleep p = record p { chan = proc_chan cur; state = sleeping }

-- The ways for wait to end, by what is in the table.
pub data WaitSpec (cur : ℕ) (k : Kernel) : Waited ℤ → Type 0 where
  -- The first exited child is reaped.
  reaps :
      (i : ℕ)
      → i < length k.procs
      → is_dead_child cur (proc_at k i) ≡ true
      → ((j : ℕ) → j < i → is_dead_child cur (proc_at k j) ≡ false)
      → (k' : Kernel) → Reaped i k k'
      → WaitSpec cur k (returns (proc_at k i).pid k')
  -- There is no child.
  no_child :
      ((j : ℕ) → j < length k.procs → is_child cur (proc_at k j) ≡ false)
      → WaitSpec cur k (returns (negsuc 0) k)
  -- No child has exited, and the caller is killed.
  is_killed :
      ((j : ℕ) → j < length k.procs → is_dead_child cur (proc_at k j) ≡ false)
      → (proc_at k cur).killed ≡ true
      → WaitSpec cur k (returns (negsuc 0) k)
  -- A child lives, none has exited, and the caller is not killed.
  waits :
      (c : ℕ)
      → c < length k.procs
      → is_child cur (proc_at k c) ≡ true
      → ((j : ℕ) → j < length k.procs → is_dead_child cur (proc_at k j) ≡ false)
      → (proc_at k cur).killed ≡ false
      → (k' : Kernel) → SleepsOnSelf cur k k'
      → WaitSpec cur k (sleeps k')

-- For a caller in the table: wait returns the pid of the first exited child, whose slot is then
-- unused, with pid, parent, name, kill mark and stack cleared, and no other slot changed; it returns
-- -1 and changes nothing if there is no child, or none has exited and the caller is killed; else only
-- the caller's slot changes, and it sleeps on its own address.
pub wait-WaitSpec : (cur : ℕ) (k : Kernel) → cur < length k.procs → WaitSpec cur k (wait cur k)
unfolding wait
wait-WaitSpec cur k lt = elim (Option-cases (find_index (is_dead_child cur) k.procs)) [
  | inr (i, e) ↦
      let r = find_index-some (is_dead_child cur) k.procs i zero_proc e in
      rw (e, wait) (reaps i r.0 r.1 r.2 (put_proc k i reaped) (put_proc-Reaped i k r.0))
  | inl e ↦
      let none_dead = find_index-none (is_dead_child cur) k.procs zero_proc e in
      elim (Option-cases (find_index (is_child cur) k.procs)) [
        | inl e2 ↦ rw (e, wait, e2) (no_child (find_index-none (is_child cur) k.procs zero_proc e2))
        | inr (c, e2) ↦ elim (Bool-cases (proc_at k cur).killed) [
          | inl e3 ↦ rw (e, wait, e2, e3) (is_killed none_dead e3)
          | inr e3 ↦
              let r = find_index-some (is_child cur) k.procs c zero_proc e2 in
              rw (e, wait, e2, e3)
                (waits c r.0 r.1 none_dead e3 (sleep cur (proc_chan cur) k)
                  (sleep-SleepsOnSelf cur k lt))
        ]
      ]
]

-- A result of wait or waitx with the end times left out of the table, and the times out of the
-- answer.
abbrev pub no_etime : Proc → Proc
no_etime p = record p { etime = pos 0 }

abbrev pub forget_kernel : Kernel → Kernel
forget_kernel k = record k { procs = map no_etime k.procs }

abbrev pub forget_wait : Waited ℤ → Waited ℤ
forget_wait (returns p k) = returns p (forget_kernel k)
forget_wait (sleeps k) = sleeps (forget_kernel k)

abbrev pub forget_waitx : Waited Times → Waited ℤ
forget_waitx (returns t k) = returns t.pid (forget_kernel k)
forget_waitx (sleeps k) = sleeps (forget_kernel k)

map-modify :
    (g f f' : Proc → Proc) (ps : List Proc) (i : ℕ)
    → ((p : Proc) → g (f p) ≡ g (f' p))
    → map g (modify ps i f) ≡ map g (modify ps i f')
map-modify g f f' [] i h = refl
map-modify g f f' (p ∷ ps) zero h = ap (λ q. q ∷ map g ps) (h p)
map-modify g f f' (p ∷ ps) (suc i) h = ap (λ r. g p ∷ r) (map-modify g f f' ps i h)

-- waitx does what wait does: the same pid or the same sleep, and the same kernel but for end times.
waitx-wait : (cur : ℕ) (k : Kernel) → forget_waitx (waitx cur k) ≡ forget_wait (wait cur k)
unfolding wait waitx
waitx-wait cur k = elim (Option-cases (find_index (is_dead_child cur) k.procs)) [
  | inr (i, e) ↦
      rw (e, waitx, wait)
        (ap (λ ps. returns (proc_at k i).pid (record k { procs = ps }))
          (map-modify no_etime (λ p. record (reaped p) { etime = to_int k.ticks }) reaped k.procs i
            (λ p. refl)))
  | inl e ↦ elim (Option-cases (find_index (is_child cur) k.procs)) [
    | inl e2 ↦ rw (e, waitx, wait, e2)
    | inr (c, e2) ↦ elim (Bool-cases (proc_at k cur).killed) [
      | inl e3 ↦ rw (e, waitx, wait, e2, e3)
      | inr e3 ↦ rw (e, waitx, wait, e2, e3)
    ]
  ]
]

-- kill of the pid 0, which free slots have, succeeds on a free slot that is the first with that pid
-- and the first free one; the process that allocproc then puts there is marked killed.
kill_zero-allocproc :
    (stack : ℕ) (frame : TrapFrame) (k : Kernel) (i : ℕ)
    → stack ≢ 0
    → find_index (has_pid (pos 0)) k.procs ≡ some i
    → find_index is_unused k.procs ≡ some i
    → ((kill (pos 0) k).0 ≡ pos 0)
      × ((allocproc stack frame (kill (pos 0) k).1).0 ≡ some i)
      × ((proc_at (allocproc stack frame (kill (pos 0) k).1).1 i).killed ≡ true)
unfolding kill
kill_zero-allocproc stack frame k i ne e free =
    let got = find_index-some is_unused k.procs i zero_proc free in
    let mark : Proc → Proc = λ p. record p { killed = true } in
    let at_i = put_proc_self k i mark got.0 in
    let awake : eq_state (proc_at (put_proc k i mark) i).state sleeping ≡ false =
      rw at_i (not_asleep (proc_at k i) got.1) in
    let free' : find_index is_unused (put_proc k i mark).procs ≡ some i =
      find_index-modify is_unused mark k.procs i (λ p. refl) ∙ free in
    let killed_eq : kill (pos 0) k ≡ (pos 0, put_proc k i mark) = rw (e, kill, awake) in
    let made = allocproc_lem stack frame (put_proc k i mark) i (suc i) ne free' (omega arith) in
    rw killed_eq (refl, made.0, made.6 ∙ ap (λ p. p.killed) at_i)
  where
    not_asleep : (p : Proc) → is_unused p ≡ true → eq_state p.state sleeping ≡ false
    not_asleep p h = ground arith
