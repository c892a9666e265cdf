-- ===== src/Syscall/Bounds.antt =====
-- The checks of xv6 modified/syscall.c let through only what lies in the caller's memory.
use osn_assignments.Base.{
  ℕ, zero, suc, ◌+◌, ◌-◌, ◌%◌, ◌^◌, ◌<◌, ◌≤◌, ◌≡◌, ◌≢◌, refl, ap, ◌⊎◌, inl, inr, ◌==◌, ltb, leb,
  Bool-cases, false, none, some, arith,
}
use osn_assignments.Syscall.{
  Caller, load_word, fetchint, scan_nul, fetchstr, argint, is_negative, argptr,
}

-- In a process of at most 2 ^ 31 bytes, fetchint gives the word at an address exactly if all its four
-- bytes lie in the process, and else fails.
pub fetchint_lem :
    (c : Caller) (addr : ℕ)
    → c.sz ≤ 2 ^ 31
    → addr < 2 ^ 32
    → ((addr + 4 ≤ c.sz) × (fetchint c addr ≡ some (load_word c.memory addr)))
      ⊎ ((c.sz < addr + 4) × (fetchint c addr ≡ none))
unfolding fetchint
fetchint_lem c addr small word = elim (Bool-cases (leb c.sz addr)) [
  | inl e ↦ inr (ground (arith, e), rw (e, fetchint) refl)
  | inr e ↦
      let le : addr < c.sz = ground (arith, e) in
      let m : (addr + 4) % 2 ^ 32 ≡ addr + 4 = omega arith in
      elim (Bool-cases (ltb c.sz (addr + 4))) [
        | inl f ↦ inr (ground (arith, f), rw (e, fetchint, m, f) refl)
        | inr f ↦ inl (ground (arith, f), rw (e, fetchint, m, f) refl)
      ]
]

-- In a process of at most 2 ^ 31 bytes, and of its words, argptr gives the argument exactly if it is
-- read, the size is not negative, and the block of that size lies in the process, whose end it does
-- not start at; else it fails.
pub argptr_lem :
    (c : Caller) (n size i : ℕ)
    → c.sz ≤ 2 ^ 31
    → i < 2 ^ 32
    → argint c n ≡ some i
    → ((size < 2 ^ 31) × (i < c.sz) × (i + size ≤ c.sz) × (argptr c n size ≡ some i))
      ⊎ (((2 ^ 31 ≤ size) ⊎ ((c.sz ≤ i) ⊎ (c.sz < i + size))) × (argptr c n size ≡ none))
unfolding argptr
argptr_lem c n size i small word h = elim (Bool-cases (is_negative size)) [
  | inl e ↦ inr (inl (ground (arith, e)), rw (h, argptr, e) refl)
  | inr e ↦ elim (Bool-cases (leb c.sz i)) [
    | inl f ↦ inr (inr (inl (ground (arith, f))), rw (h, argptr, e, f) refl)
    | inr f ↦
        let lt : i < c.sz = ground (arith, f) in
        let s : size < 2 ^ 31 = ground (arith, e) in
        let m : (i + size) % 2 ^ 32 ≡ i + size = omega arith in
        elim (Bool-cases (ltb c.sz (i + size))) [
          | inl g ↦ inr (inr (inr (ground (arith, g))), rw (h, argptr, e, f, m, g) refl)
          | inr g ↦ inl (s, lt, ground (arith, g), rw (h, argptr, e, f, m, g) refl)
        ]
  ]
]

-- Where the scan for the NUL ends.
scan_nul_lem :
    (n : ℕ) (memory : ℕ → ℕ) (addr len : ℕ)
    → ((r : ℕ) × (scan_nul n memory addr len ≡ some r)
        × (len ≤ r)
        × (r < len + n)
        × (memory (addr + r) ≡ 0)
        × ((j : ℕ) → len ≤ j → j < r → memory (addr + j) ≢ 0))
      ⊎ ((scan_nul n memory addr len ≡ none)
          × ((j : ℕ) → len ≤ j → j < len + n → memory (addr + j) ≢ 0))
unfolding scan_nul
scan_nul_lem zero memory addr len = inr (refl, λ j le lt. absurd (omega arith))
scan_nul_lem (suc n) memory addr len = elim (Bool-cases (memory (addr + len) == 0)) [
  | inl e ↦
      inl (
        len,
        rw e refl,
        omega arith,
        omega arith,
        ground (arith, e),
        λ j le lt. absurd (omega arith),
      )
  | inr e ↦ elim (scan_nul_lem n memory addr (len + 1)) [
    | inl (r, q, le, lt, z, f) ↦
        inl (r, rw e q, omega arith, omega arith, z, λ j lj jr. here j r lj jr e f)
    | inr (q, f) ↦
        inr (rw e q, λ j lj jl. here j (len + suc n) lj jl e (λ k a b. f k a (omega arith)))
  ]
]
  where
    here :
        (j r : ℕ)
        → len ≤ j
        → j < r
        → (memory (addr + len) == 0) ≡ false
        → ((k : ℕ) → len + 1 ≤ k → k < r → memory (addr + k) ≢ 0)
        → memory (addr + j) ≢ 0
    here j r lj jr e f = elim (Bool-cases (len == j)) [
      | inl q ↦
          let p : len ≡ j = ground (arith, q) in
          λ z. absurd (ground (arith, e, ap (λ k. memory (addr + k)) p, z))
      | inr q ↦ f j (ground (arith, q, lj)) jr
    ]

-- fetchstr gives the distance to the first zero byte from the address on, if there is one in the
-- process, and else fails; so the whole string with its NUL lies in the process.
pub fetchstr_lem :
    (c : Caller) (addr : ℕ)
    → ((len : ℕ) × (fetchstr c addr ≡ some len)
        × (addr + len < c.sz)
        × (c.memory (addr + len) ≡ 0)
        × ((j : ℕ) → j < len → c.memory (addr + j) ≢ 0))
      ⊎ ((fetchstr c addr ≡ none) × ((j : ℕ) → addr + j < c.sz → c.memory (addr + j) ≢ 0))
unfolding fetchstr
fetchstr_lem c addr = elim (Bool-cases (leb c.sz addr)) [
  | inl e ↦ inr (rw (e, fetchstr) refl, λ j lt. absurd (ground (arith, e, lt)))
  | inr e ↦ elim (scan_nul_lem (c.sz - addr) c.memory addr 0) [
    | inl (r, q, le, lt, z, f) ↦
        inl (r, rw (e, fetchstr) q, omega (arith, lt), z, λ j jr. f j (omega arith) jr)
    | inr (q, f) ↦ inr (rw (e, fetchstr) q, λ j lt. f j (omega arith) (omega (arith, lt)))
  ]
]
