-- ===== src/Syscall.antt =====
-- System call arguments in xv6 modified/syscall.c, read from the memory of the calling process, and
-- the dispatch. A `uint` is a number below 2 ^ 32, an `int` is the same bits; the result -1 of the
-- checks is `none`.
pub mod Bounds
use osn_assignments.Base.{
  ℕ, zero, suc, ◌+◌, ◌-◌, ◌*◌, ◌%◌, ◌^◌, ◌==◌, ltb, leb, if◌then◌else◌, Bool, true, false, not,
  Option, none, some,
}

-- The size of the caller's memory, its bytes, and the saved user %esp.
pub record Caller : Type 0 where
  pub sz : ℕ
  pub memory : ℕ → ℕ
  pub esp : ℕ

-- `uint` addition
abbrev pub add_word : ℕ → ℕ → ℕ
add_word a b = (a + b) % 2 ^ 32

-- `*(int*)(addr)`
abbrev pub load_word : (ℕ → ℕ) → ℕ → ℕ
load_word memory a =
    memory a + 256 * memory (a + 1) + 65536 * memory (a + 2) + 16777216 * memory (a + 3)

-- `fetchint`
unfoldable pub fetchint : Caller → ℕ → Option ℕ
fetchint c addr =
    if leb c.sz addr
    then none
    else if ltb c.sz (add_word addr 4)
    then none
    else some (load_word c.memory addr)

-- The loop of `fetchstr` with `n` bytes left below `ep`, `len` behind the string's start.
unfoldable pub scan_nul : ℕ → (ℕ → ℕ) → ℕ → ℕ → Option ℕ
scan_nul zero memory addr len = none
scan_nul (suc n) memory addr len =
    let rest = scan_nul n memory addr (len + 1) in
    if memory (addr + len) == 0 then some len else rest

-- `fetchstr`: the length.
unfoldable pub fetchstr : Caller → ℕ → Option ℕ
unfolding scan_nul
fetchstr c addr = if leb c.sz addr then none else scan_nul (c.sz - addr) c.memory addr 0

-- `argint`
unfoldable pub argint : Caller → ℕ → Option ℕ
unfolding fetchint
argint c n = fetchint c ((c.esp + 4 + 4 * n) % 2 ^ 32)

-- `size < 0` of an `int`
abbrev pub is_negative : ℕ → Bool
is_negative size = leb (2 ^ 31) size

-- `argptr`: the pointer.
unfoldable pub argptr : Caller → ℕ → ℕ → Option ℕ
unfolding argint
argptr c n size = elim (argint c n) [
  | none ↦ none
  | some i ↦
      if is_negative size
      then none
      else if leb c.sz i
      then none
      else if ltb c.sz (add_word i size)
      then none
      else some i
]

-- `argstr`: the pointer and the length.
unfoldable pub argstr : Caller → ℕ → Option (ℕ × ℕ)
unfolding argint fetchstr
argstr c n = elim (argint c n) [
  | none ↦ none
  | some addr ↦ elim (fetchstr c addr) [ none ↦ none | some len ↦ some (addr, len) ]
]

-- `syscall` of a kernel state `S`, with the table of `n` handlers: the number in %eax, as an `int`,
-- picks the one that runs; %eax gets its result, or -1.
unfoldable pub syscall {ℓ} : {S : Type ℓ} → (ℕ → Option (S → ℕ × S)) → ℕ → ℕ → S → ℕ × S
syscall syscalls n num s =
    if num == 0
    then (4294967295, s)
    else if is_negative num
    then (4294967295, s)
    else if ltb num n
    then elim (syscalls num) [ none ↦ (4294967295, s) | some f ↦ f s ]
    else (4294967295, s)
