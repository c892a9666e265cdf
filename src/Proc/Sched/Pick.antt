-- ===== src/Proc/Sched/Pick.antt =====
-- What the FCFS and PBS schedulers of xv6 modified/proc.c choose, and what a round of FCFS counts.
use osn_assignments.Base.{
  ℕ, zero, suc, ◌+◌, ◌-◌, ◌<◌, ◌≤◌, ◌≡◌, refl, sym, ◌∙◌, ◌⊎◌, inl, inr, ◌==◌, if◌then◌else◌, true,
  false, Bool-cases, Option, Option-cases, modify-rel, none, some, arith,
}
use osn_assignments.Base.Int.{lt_int, ◌≤ℤ◌, ◌<ℤ◌}
use osn_assignments.Proc.Types.{running, zero_proc, Kernel, proc_at}
use osn_assignments.Proc.Sched.{is_runnable, fcfs_scan, fcfs_round, pbs_scan, pbs_pick}

-- Of the slots below `t`, the choice is a runnable one of least creation time, and the first such.
abbrev pub IsOldest : Kernel → ℕ → Option ℕ → Type 0
IsOldest k t none = (j : ℕ) → j < t → is_runnable (proc_at k j) ≡ false
IsOldest k t (some i) =
    (i < t)
    × (is_runnable (proc_at k i) ≡ true)
    × ((j : ℕ)
        → j < t
        → is_runnable (proc_at k j) ≡ true
        → ((proc_at k i).ctime ≤ℤ (proc_at k j).ctime)
          × (j < i → (proc_at k i).ctime <ℤ (proc_at k j).ctime))

fcfs_step : Kernel → ℕ → Option ℕ → Option ℕ
fcfs_step k i pro =
    if is_runnable (proc_at k i)
    then elim pro [
      | none ↦ some i
      | some j ↦ if lt_int (proc_at k i).ctime (proc_at k j).ctime then some i else some j
    ]
    else pro

below-suc : (j t : ℕ) → j < t + 1 → (j < t) ⊎ (j ≡ t)
below-suc j t h = omega arith

-- One more slot keeps the choice the oldest.
fcfs_step-IsOldest :
    (k : Kernel) (t : ℕ) (pro : Option ℕ)
    → IsOldest k t pro
    → IsOldest k (t + 1) (fcfs_step k t pro)
unfolding fcfs_step
fcfs_step-IsOldest k t none h = elim (Bool-cases (is_runnable (proc_at k t))) [
  | inl r ↦ rw r (
    omega arith,
    r,
    λ j lt rj. elim (below-suc j t lt) [
      | inl b ↦ ground (arith, h j b)
      | inr e ↦ rw e (omega arith)
    ],
  )
  | inr r ↦ rw r (λ j lt. elim (below-suc j t lt) [ inl b ↦ h j b | inr e ↦ rw e r ])
]
fcfs_step-IsOldest k t (some i) (below, ri, least) = elim (Bool-cases (is_runnable (proc_at k t))) [
  | inr r ↦ rw r (
    omega arith,
    ri,
    λ j lt rj. elim (below-suc j t lt) [ inl b ↦ least j b rj | inr e ↦ absurd (ground arith) ],
  )
  | inl r ↦ elim (Bool-cases (lt_int (proc_at k t).ctime (proc_at k i).ctime)) [
    | inl c ↦
        rw (r, c)
          (
            omega arith,
            r,
            λ j lt rj. elim (below-suc j t lt) [
              | inl b ↦ ground (arith, least j b rj)
              | inr e ↦ rw e (omega arith)
            ],
          )
    | inr c ↦
        rw (r, c)
          (
            omega arith,
            ri,
            λ j lt rj. elim (below-suc j t lt) [
              | inl b ↦ least j b rj
              | inr e ↦ rw e (ground arith)
            ],
          )
  ]
]

fcfs_scan-IsOldest :
    (k : Kernel) (n t u : ℕ) (pro : Option ℕ)
    → t + n ≡ u
    → IsOldest k t pro
    → IsOldest k u (fcfs_scan n t pro k)
unfolding fcfs_scan fcfs_step
fcfs_scan-IsOldest k zero t u pro e h = let e' : t ≡ u = omega arith in rw (← e') h
fcfs_scan-IsOldest k (suc n) t u pro e h =
    fcfs_scan-IsOldest k n (t + 1) u (fcfs_step k t pro) (omega arith)
      (fcfs_step-IsOldest k t pro h)

-- With a runnable process `j` in the table FCFS takes a runnable process whose creation time is not
-- above that of `j`, and is below it if `j` stands earlier in the table.
fcfs_scan_lem :
    (k : Kernel) (j : ℕ)
    → j < 64
    → is_runnable (proc_at k j) ≡ true
    → (i : ℕ) × (fcfs_scan 64 0 none k ≡ some i)
      × (i < 64)
      × (is_runnable (proc_at k i) ≡ true)
      × ((proc_at k i).ctime ≤ℤ (proc_at k j).ctime)
      × (j < i → (proc_at k i).ctime <ℤ (proc_at k j).ctime)
fcfs_scan_lem k j lt rj =
    take (fcfs_scan 64 0 none k) refl
      (fcfs_scan-IsOldest k 64 0 64 none refl (λ j lt. absurd (omega arith)))
  where
    take :
        (o : Option ℕ)
        → fcfs_scan 64 0 none k ≡ o
        → IsOldest k 64 o
        → (i : ℕ) × (fcfs_scan 64 0 none k ≡ some i)
          × (i < 64)
          × (is_runnable (proc_at k i) ≡ true)
          × ((proc_at k i).ctime ≤ℤ (proc_at k j).ctime)
          × (j < i → (proc_at k i).ctime <ℤ (proc_at k j).ctime)
    take none e h = absurd (clash (sym rj ∙ h j lt))
      where
        clash : true ≡ false → ⊥
        clash q = cc
    take (some i) e h = (i, e, h.0, h.1, (h.2 j lt rj).0, (h.2 j lt rj).1)

-- `h` is runnable, and of no runnable slot in [lo, hi) and of no slot `p` the priority is less.
record IsUrgent (k : Kernel) (p lo hi h : ℕ) : Type 0 where
  ready : is_runnable (proc_at k h) ≡ true
  origin : (h ≡ p) ⊎ ((lo ≤ h) × (h < hi))
  first : (proc_at k h).priority ≤ℤ (proc_at k p).priority
  least :
      (j : ℕ)
      → lo ≤ j
      → j < hi
      → is_runnable (proc_at k j) ≡ true
      → (proc_at k h).priority ≤ℤ (proc_at k j).priority

pbs_step : Kernel → ℕ → ℕ → ℕ
pbs_step k i hp =
    if is_runnable (proc_at k i)
    then if lt_int (proc_at k i).priority (proc_at k hp).priority then i else hp
    else hp

pbs_step-IsUrgent :
    (k : Kernel) (p lo t hp : ℕ)
    → lo ≤ t
    → IsUrgent k p lo t hp
    → IsUrgent k p lo (t + 1) (pbs_step k t hp)
unfolding pbs_step
pbs_step-IsUrgent k p lo t hp lo_le u = elim (Bool-cases (is_runnable (proc_at k t))) [
  | inr r ↦ rw r record {
    ready = u.ready;
    origin = omega (arith, u.origin);
    first = u.first;
    least = λ j a lt rj. elim (below-suc j t lt) [
      | inl b ↦ u.least j a b rj
      | inr e ↦ absurd (ground arith)
    ];
  }
  | inl r ↦ elim (Bool-cases (lt_int (proc_at k t).priority (proc_at k hp).priority)) [
    | inl c ↦
        rw (r, c)
          record {
            ready = r;
            origin = omega arith;
            first = ground (arith, u.first);
            least = λ j a lt rj. elim (below-suc j t lt) [
              | inl b ↦ ground (arith, u.least j a b rj)
              | inr e ↦ rw e (omega arith)
            ];
          }
    | inr c ↦
        rw (r, c)
          record {
            ready = u.ready;
            origin = omega (arith, u.origin);
            first = u.first;
            least = λ j a lt rj. elim (below-suc j t lt) [
              | inl b ↦ u.least j a b rj
              | inr e ↦ rw e (ground arith)
            ];
          }
  ]
]

pbs_scan-IsUrgent :
    (k : Kernel) (p lo n t v hp : ℕ)
    → t + n ≡ v
    → lo ≤ t
    → IsUrgent k p lo t hp
    → IsUrgent k p lo v (pbs_scan n t hp k)
unfolding pbs_scan pbs_step
pbs_scan-IsUrgent k p lo zero t v hp e a u = let e' : t ≡ v = omega arith in rw (← e') u
pbs_scan-IsUrgent k p lo (suc n) t v hp e a u =
    pbs_scan-IsUrgent k p lo n (t + 1) v (pbs_step k t hp) (omega arith) (omega arith)
      (pbs_step-IsUrgent k p lo t hp a u)

-- From any runnable `p`, PBS takes a runnable process of the table whose priority number is not
-- above that of any runnable process `j`.
pbs_pick_lem :
    (k : Kernel) (p j : ℕ)
    → p < 64
    → is_runnable (proc_at k p) ≡ true
    → j < 64
    → is_runnable (proc_at k j) ≡ true
    → (pbs_pick p k < 64)
      × (is_runnable (proc_at k (pbs_pick p k)) ≡ true)
      × ((proc_at k (pbs_pick p k)).priority ≤ℤ (proc_at k j).priority)
unfolding pbs_pick
pbs_pick_lem k p j lt rp lt' rj = (omega (arith, u2.origin, u1.origin), u2.ready, all j lt' rj)
  where
    h1 : ℕ
    h1 = pbs_scan (64 - (p + 1)) (p + 1) p k

    u1 : IsUrgent k p (p + 1) 64 h1
    u1 =
        pbs_scan-IsUrgent k p (p + 1) (64 - (p + 1)) (p + 1) 64 p (omega arith) (omega arith)
          record {
            ready = rp;
            origin = omega arith;
            first = omega arith;
            least = λ j a b rj. absurd (omega arith);
          }

    u2 : IsUrgent k h1 0 p (pbs_scan p 0 h1 k)
    u2 = pbs_scan-IsUrgent k h1 0 p 0 p h1 (omega arith) (omega arith) record {
      ready = u1.ready;
      origin = omega arith;
      first = omega arith;
      least = λ j a b rj. absurd (omega arith);
    }

    all :
        (j : ℕ)
        → j < 64
        → is_runnable (proc_at k j) ≡ true
        → (proc_at k (pbs_scan p 0 h1 k)).priority ≤ℤ (proc_at k j).priority
    all j b rj = elim (Bool-cases (j == p)) [
      | inl e ↦ let e' : j ≡ p = ground arith in rw e' (omega (arith, u2.first, u1.first))
      | inr e ↦ far j b rj (ground arith)
    ]
      where
        far :
            (j : ℕ)
            → j < 64
            → is_runnable (proc_at k j) ≡ true
            → (j < p) ⊎ (p + 1 ≤ j)
            → (proc_at k (pbs_scan p 0 h1 k)).priority ≤ℤ (proc_at k j).priority
        far j b rj (inl a) = u2.least j (omega arith) a rj
        far j b rj (inr a) = omega (arith, u2.first, u1.least j a b rj)

-- A round of FCFS counts no run in the table: with a process that does nothing while it runs, every
-- slot's count of runs is after the round what it was before.
fcfs_round-nrun :
    (k : Kernel) (j : ℕ) → (proc_at (fcfs_round (λ i k. k) k) j).nrun ≡ (proc_at k j).nrun
unfolding fcfs_round
fcfs_round-nrun k j = elim (Option-cases (fcfs_scan 64 0 none k)) [
  | inl e ↦ rw (e, fcfs_round)
  | inr (i, e) ↦
      rw (e, fcfs_round)
        (modify-rel (λ p q. q.nrun ≡ p.nrun) (λ p. record p { state = running }) (λ p. refl)
          (λ p. refl) k.procs i j zero_proc)
]
