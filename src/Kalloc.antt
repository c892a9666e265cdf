-- ===== src/Kalloc.antt =====
-- The page allocator of xv6 modified/kalloc.c. The free list is the list of its pages, newest
-- first; an address is a number. `end` (the first address behind the kernel, set by the linker) and
-- the mapping of `V2P` enter as the parameter `last`: the kernel addresses below `last` are those
-- whose physical address is below PHYSTOP.
pub mod Pages
use osn_assignments.Base.{
  ℕ, zero, suc, ◌+◌, ◌-◌, ◌*◌, ◌/◌, ◌%◌, ◌==◌, ltb, leb, if◌then◌else◌, Bool, true, false, Option,
  none, some, List, [], ◌∷◌, map, update,
}
use osn_assignments.Base.Int.{ℤ}

-- `PGSIZE`
abbrev pub page_size : ℕ
page_size = 4096

-- `kmem`, and the memory, by address. The first four bytes of a free page link it to the next one:
-- `freelist` stands for them, and `memory` says nothing there. The lock is taken or not; either way one step runs alone.
pub record Kmem : Type 0 where
  pub use_lock : Bool
  pub freelist : List ℕ
  pub memory : ℕ → ℕ

-- `memset(v, 1, PGSIZE)`
abbrev pub fill_junk : ℕ → (ℕ → ℕ) → ℕ → ℕ
fill_junk v m a = if leb v a then (if ltb a (v + page_size) then 1 else m a) else m a

-- `PGROUNDUP` on 32-bit addresses.
abbrev pub page_round_up : ℕ → ℕ
page_round_up a = (a + 4095) % 4294967296 / page_size * page_size

module _ (end last : ℕ) where
  -- The test of `kfree` that ends in a panic.
  abbrev pub is_bad : ℕ → Bool
  is_bad v = if v % page_size == 0 then (if ltb v end then true else leb last v) else true

  -- `kfree`; `none` is the panic.
  unfoldable pub kfree : ℕ → Kmem → Option Kmem
  kfree v k =
      if is_bad v
      then none
      else some (record k { freelist = v ∷ k.freelist; memory = fill_junk v k.memory })

  -- The loop of `freerange`, for at most `n` rounds.
  unfoldable pub free_pages : ℕ → ℕ → ℕ → Kmem → Option Kmem
  unfolding kfree
  free_pages zero p vend k = some k
  free_pages (suc n) p vend k =
      if leb (p + page_size) vend
      then elim (kfree p k) [ none ↦ none | some k' ↦ free_pages n (p + page_size) vend k' ]
      else some k

  -- `freerange`
  unfoldable pub freerange : ℕ → ℕ → Kmem → Option Kmem
  unfolding free_pages
  freerange vstart vend k = free_pages (vend / page_size) (page_round_up vstart) vend k

  -- `kinit1` and `kinit2`
  unfoldable pub kinit1 : ℕ → ℕ → Kmem → Option Kmem
  unfolding freerange
  kinit1 vstart vend k = freerange vstart vend (record k { use_lock = false })

  unfoldable pub kinit2 : ℕ → ℕ → Kmem → Option Kmem
  unfolding freerange
  kinit2 vstart vend k = elim (freerange vstart vend k) [
    | none ↦ none
    | some k' ↦ some (record k' { use_lock = true })
  ]

-- `kalloc`: 0 is its null pointer. A page's first word is what links it while it is free.
unfoldable pub kalloc : Kmem → ℕ × Kmem
kalloc k = elim k.freelist [ [] ↦ (0, k) | r ∷ rest ↦ (r, record k { freelist = rest }) ]
