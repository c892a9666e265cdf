-- ===== src/Spinlock/Mutex.antt =====
-- Mutual exclusion of the spinlock of xv6 modified/spinlock.c, for any number of processors.
use osn_assignments.Base.{
  ℕ, ◌-◌, ◌<◌, ◌≡◌, refl, ◌==◌, if◌then◌else◌, Bool, true, false, some, arith,
}
use osn_assignments.Spinlock.{
  Cpu, pushcli, popcli, Spinlock, holding, Pc, outside, spinning, claimed, inside, leaving, System,
  Step, enter, spin, exchange, claim, drop, unlock, elsewhere, Reach, start, later,
}

-- From the exchange that won the lock to the store that frees it.
abbrev pub critical : Pc → Bool
critical outside = false
critical spinning = false
critical _ = true

-- What a processor's place says of its own flags and of the lock.
abbrev IsQuiet : Pc → Cpu → Type 0
IsQuiet outside c = Unit
IsQuiet _ c = (c.interrupts ≡ false) × (0 < c.ncli)

abbrev IsOwner : Pc → Spinlock → ℕ → Type 0
IsOwner inside l i = l.owner ≡ some i
IsOwner _ l i = Unit

pub record Inv (s : System) : Type 0 where
  pub held : (i : ℕ) → critical (s.pc i) ≡ true → s.lock.locked ≡ true
  pub unique : (i j : ℕ) → critical (s.pc i) ≡ true → critical (s.pc j) ≡ true → i ≡ j
  pub owner : (i : ℕ) → IsOwner (s.pc i) s.lock i
  pub quiet : (i : ℕ) → IsQuiet (s.pc i) (s.cpu i)

Step-held :
    {s t : System} → Step s t → Inv s → (j : ℕ) → critical (t.pc j) ≡ true → t.lock.locked ≡ true
Step-held (enter i p h) v j c = ground (arith, v.held j)
Step-held (spin i p l) v j c = v.held j c
Step-held (exchange i p l) v j c = refl
Step-held (claim i p) v j c = ground (arith, v.held j, v.held i)
Step-held (drop i p h) v j c = ground (arith, v.held j, v.held i)
Step-held (unlock i p h) v j c = absurd (ground (arith, v.unique i j))
Step-held (elsewhere i d p) v j c = v.held j c

Step-unique :
    {s t : System}
    → Step s t
    → Inv s
    → (a b : ℕ) → critical (t.pc a) ≡ true
    → critical (t.pc b) ≡ true
    → a ≡ b
Step-unique (enter i p h) v a b ca cb = ground (arith, v.unique a b)
Step-unique (spin i p l) v a b ca cb = v.unique a b ca cb
Step-unique (exchange i p l) v a b ca cb = ground (arith, v.held a, v.held b)
Step-unique (claim i p) v a b ca cb = ground (arith, v.unique a b, v.unique i a, v.unique i b)
Step-unique (drop i p h) v a b ca cb = ground (arith, v.unique a b, v.unique i a, v.unique i b)
Step-unique (unlock i p h) v a b ca cb = ground (arith, v.unique a b)
Step-unique (elsewhere i d p) v a b ca cb = v.unique a b ca cb

Step-IsOwner : {s t : System} → Step s t → Inv s → (j : ℕ) → IsOwner (t.pc j) t.lock j
Step-IsOwner (enter i p h) v j = ground (arith, v.owner j)
Step-IsOwner (spin i p l) v j = v.owner j
Step-IsOwner (exchange i p l) v j = ground (arith, v.owner j)
Step-IsOwner (claim i p) v j = ground (arith, v.owner j, v.unique i j)
Step-IsOwner (drop i p h) v j = ground (arith, v.owner j, v.unique i j)
Step-IsOwner (unlock i p h) v j = ground (arith, v.owner j)
Step-IsOwner (elsewhere i d p) v j = v.owner j

Step-IsQuiet : {s t : System} → Step s t → Inv s → (j : ℕ) → IsQuiet (t.pc j) (t.cpu j)
unfolding pushcli
Step-IsQuiet (enter i p h) v j = ground (arith, v.quiet j)
Step-IsQuiet (spin i p l) v j = v.quiet j
Step-IsQuiet (exchange i p l) v j = ground (arith, v.quiet j)
Step-IsQuiet (claim i p) v j = ground (arith, v.quiet j)
Step-IsQuiet (drop i p h) v j = ground (arith, v.quiet j)
Step-IsQuiet (unlock i p h) v j = ground (arith, v.quiet j)
Step-IsQuiet (elsewhere i d p) v j = ground (arith, v.quiet j)

Step-Inv : {s t : System} → Step s t → Inv s → Inv t
Step-Inv st v = record {
  held = Step-held st v;
  unique = Step-unique st v;
  owner = Step-IsOwner st v;
  quiet = Step-IsQuiet st v;
}

pub Reach-Inv : {s : System} → Reach s → Inv s
Reach-Inv (start cpu) = record {
  held = λ i h. absurd (ground arith);
  unique = λ i j h. absurd (ground arith);
  owner = λ i. tt;
  quiet = λ i. tt;
}
Reach-Inv (later r st) = Step-Inv st (Reach-Inv r)

-- In every reachable state at most one processor is between its winning exchange and its release,
-- and the lock is marked taken then, with interrupts off on that processor.
pub mutual_exclusion :
    {s : System} (i j : ℕ)
    → Reach s
    → critical (s.pc i) ≡ true
    → critical (s.pc j) ≡ true
    → (i ≡ j) × (s.lock.locked ≡ true) × ((s.cpu i).interrupts ≡ false)
mutual_exclusion {s} i j r h h' =
    let v = Reach-Inv r in
    (v.unique i j h h', v.held i h, quiet_of (s.pc i) (s.cpu i) (v.quiet i) h)
  where
    quiet_of : (p : Pc) (c : Cpu) → IsQuiet p c → critical p ≡ true → c.interrupts ≡ false
    quiet_of outside c q h = absurd (ground arith)
    quiet_of spinning c q h = q.0
    quiet_of claimed c q h = q.0
    quiet_of inside c q h = q.0
    quiet_of leaving c q h = q.0

-- release does not panic: a processor behind acquire is seen to hold the lock, and its popcli
-- succeeds.
release_safe :
    {s : System} (i : ℕ)
    → Reach s
    → s.pc i ≡ inside
    → (holding i s.lock ≡ true) × ((c : Cpu) × (popcli (s.cpu i) ≡ some c))
unfolding popcli
release_safe {s} i r e =
    let v = Reach-Inv r in
    let q : ((s.cpu i).interrupts ≡ false) × (0 < (s.cpu i).ncli) = ground (arith, v.quiet i) in
    let deep : ((s.cpu i).ncli == 0) ≡ false = ground arith in
    (
      ground (arith, v.owner i, v.held i),
      (
        record (s.cpu i) {
          ncli = (s.cpu i).ncli - 1;
          interrupts = if (s.cpu i).ncli - 1 == 0 then (s.cpu i).intena else (s.cpu i).interrupts;
        },
        rw (q.0, deep),
      ),
    )
