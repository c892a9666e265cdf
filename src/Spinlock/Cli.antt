-- ===== src/Spinlock/Cli.antt =====
-- pushcli and popcli of xv6 modified/spinlock.c are matched.
use osn_assignments.Base.{
  ℕ, zero, suc, ◌+◌, ◌-◌, ◌<◌, ◌≡◌, refl, sym, ◌∙◌, inl, inr, ◌==◌, if◌then◌else◌, false,
  Bool-cases, Option, none, some, arith,
}
use osn_assignments.Spinlock.{Cpu, pushcli, popcli}

-- With pushcli pending, interrupts are off.
abbrev pub IsMatched : Cpu → Type 0
IsMatched c = 0 < c.ncli → c.interrupts ≡ false

abbrev pub pushes : ℕ → Cpu → Cpu
pushes zero c = c
pushes (suc n) c = pushes n (pushcli c)

abbrev pub pops : ℕ → Cpu → Option Cpu
pops zero c = some c
pops (suc n) c = elim (popcli c) [ none ↦ none | some c' ↦ pops n c' ]

-- `d` is `c` with `n` pushcli pending.
record Above (c : Cpu) (n : ℕ) (d : Cpu) : Type 0 where
  depth : d.ncli ≡ c.ncli + n
  off : 0 < n → d.interrupts ≡ false
  same : n ≡ 0 → d.interrupts ≡ c.interrupts
  saved : c.ncli ≡ 0 → 0 < n → d.intena ≡ c.interrupts

Above-pushcli : (c d : Cpu) (n : ℕ) → IsMatched c → Above c n d → Above c (n + 1) (pushcli d)
unfolding pushcli
Above-pushcli c d n m a = record {
  depth = omega (arith, a.depth);
  off = λ h. refl;
  same = λ h. absurd (omega arith);
  saved = λ z h. elim (Bool-cases (d.ncli == 0)) [
    | inl e ↦ rw e (a.same (ground (arith, a.depth)))
    | inr e ↦ rw e (a.saved z (ground (arith, a.depth)))
  ];
}

Above-pushes :
    (c d : Cpu) (m n u : ℕ) → m + n ≡ u → IsMatched c → Above c m d → Above c u (pushes n d)
Above-pushes c d m zero u e v a = let e' : m ≡ u = omega arith in rw (← e') a
Above-pushes c d m (suc n) u e v a =
    Above-pushes c (pushcli d) (m + 1) n u (omega arith) v (Above-pushcli c d m v a)

-- What popcli gives with a pushcli pending.
Above-popcli :
    (c d : Cpu) (n : ℕ)
    → IsMatched c
    → Above c (suc n) d
    → (d' : Cpu) × (popcli d ≡ some d') × Above c n d'
unfolding popcli
Above-popcli c d n m a =
    let off : d.interrupts ≡ false = a.off (omega arith) in
    let deep : (d.ncli == 0) ≡ false = ground (arith, a.depth) in
    (
      record d {
        ncli = d.ncli - 1;
        interrupts = if d.ncli - 1 == 0 then d.intena else d.interrupts;
      },
      rw (off, deep),
      record {
        depth = omega (arith, a.depth);
        off = λ h. ground (arith, a.depth);
        same = λ h. elim (Bool-cases (d.ncli - 1 == 0)) [
          | inl e ↦ rw e (a.saved (ground (arith, a.depth)) (omega arith))
          | inr e ↦ rw e (off ∙ sym (m (ground (arith, a.depth))))
        ];
        saved = λ z h. a.saved z (omega arith);
      },
    )

-- On a processor whose interrupts are off if a pushcli is pending: after n pushcli, n popcli do not
-- panic and bring the depth and the interrupt flag back.
pops-pushes :
    (n : ℕ) (c : Cpu)
    → IsMatched c
    → (d : Cpu) × (pops n (pushes n c) ≡ some d) × (d.ncli ≡ c.ncli) × (d.interrupts ≡ c.interrupts)
pops-pushes n c m = down n (pushes n c) above
  where
    above : Above c n (pushes n c)
    above = Above-pushes c c 0 n n (omega arith) m record {
      depth = omega arith;
      off = λ h. absurd (omega arith);
      same = λ h. refl;
      saved = λ z h. absurd (omega arith);
    }

    down :
        (n : ℕ) (d : Cpu)
        → Above c n d
        → (d' : Cpu) × (pops n d ≡ some d') × (d'.ncli ≡ c.ncli) × (d'.interrupts ≡ c.interrupts)
    down zero d a = (d, refl, omega (arith, a.depth), a.same refl)
    down (suc n) d a = let (d1, e, a1) = Above-popcli c d n m a in rw (e, pops) (down n d1 a1)
