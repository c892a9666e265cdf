-- ===== src/Sysfile/Transfer.antt =====
-- What sys_read, sys_write and sys_fstat of xv6 modified/sysfile.c hand on was checked.
use osn_assignments.Base.{
  ℕ, ◌+◌, ◌*◌, ◌%◌, ◌^◌, ◌<◌, ◌≤◌, ◌≡◌, sym, ◌∙◌, ap, inl, inr, Option, Option-cases, none, some,
  List, get_or, arith,
}
use osn_assignments.Syscall.{Caller, load_word, argint, argptr}
use osn_assignments.Syscall.Bounds.{fetchint_lem, argptr_lem}
use osn_assignments.Sysfile.{argfd, sys_transfer}
use osn_assignments.Sysfile.Slots.{argfd_lem}

-- The memory holds bytes.
abbrev pub IsBytes : Caller → Type 0
IsBytes c = (a : ℕ) → c.memory a < 256

argint-word : (c : Caller) (n i : ℕ) → c.sz ≤ 2 ^ 31 → IsBytes c → argint c n ≡ some i → i < 2 ^ 32
unfolding argint
argint-word c n i small b h =
    let a = (c.esp + 4 + 4 * n) % 2 ^ 32 in
    elim (fetchint_lem c a small (omega arith)) [
      | inl (le, e) ↦
          let q : some (load_word c.memory a) ≡ some i = sym e ∙ h in
          let r : load_word c.memory a ≡ i = cc in
          omega (arith, r, b a, b (a + 1), b (a + 2), b (a + 3))
      | inr (lt, e) ↦ absurd (clash (sym e ∙ h))
    ]
  where
    clash : none ≡ some i → ⊥
    clash q = cc

-- In a process of at most 2 ^ 31 bytes, the file that sys_read and sys_write pass on is that of an
-- open descriptor, the count is not negative, and the block of that count at the pointer lies in the
-- process.
pub sys_transfer_lem :
    (c : Caller) (ofile : List (Option ℕ)) (f p n : ℕ)
    → c.sz ≤ 2 ^ 31
    → IsBytes c
    → sys_transfer c ofile ≡ some (f, p, n)
    → ((fd : ℕ) × (get_or ofile fd none ≡ some f)) × (n < 2 ^ 31) × (p < c.sz) × (p + n ≤ c.sz)
unfolding sys_transfer argptr
sys_transfer_lem c ofile f p n small b h = elim (Option-cases (argfd c ofile 0)) [
  | inl e ↦ absurd (clash (rw (e, sys_transfer) at h))
  | inr ((fd, g), e) ↦ elim (Option-cases (argint c 2)) [
    | inl x ↦ absurd (clash (rw (e, sys_transfer, x) at h))
    | inr (m, x) ↦ elim (Option-cases (argint c 1)) [
      | inl y ↦ absurd (clash (rw (e, sys_transfer, x, argptr, y) at h))
      | inr (i, y) ↦ elim (argptr_lem c 1 m i small (argint-word c 1 i small b y) y) [
        | inr (why, z) ↦ absurd (clash (rw (e, sys_transfer, x, z) at h))
        | inl (s, lt, le, z) ↦
            let q : args g i m ≡ args f p n = rw (e, sys_transfer, x, z) at h in
            let qg : g ≡ f = cc in
            let qi : i ≡ p = cc in
            let qm : m ≡ n = cc in
            (
              (fd, argfd_lem c ofile 0 fd g e ∙ ap some qg),
              omega (arith, qm),
              omega (arith, qi),
              omega (arith, qi, qm),
            )
      ]
    ]
  ]
]
  where
    args : ℕ → ℕ → ℕ → Option (ℕ × ℕ × ℕ)
    args a d e = some (a, d, e)

    clash : none ≡ args f p n → ⊥
    clash q = cc
