-- ===== src/Kalloc/Pages.antt =====
-- Properties of the page allocator of xv6 modified/kalloc.c.
use osn_assignments.Base.{
  ℕ, ◌+◌, ◌<◌, ◌≤◌, ◌≡◌, ◌≢◌, refl, ◌⊎◌, inl, inr, ◌==◌, ltb, leb, if◌then◌else◌, Bool, true, false,
  some, List, [], ◌∷◌, All, arith,
}
use osn_assignments.Kalloc.{page_size, Kmem, fill_junk, is_bad, kfree, kalloc}

abbrev pub member : ℕ → List ℕ → Bool
member a [] = false
member a (x ∷ xs) = if x == a then true else member a xs

abbrev pub Distinct : List ℕ → Type 0
Distinct [] = Unit
Distinct (x ∷ xs) = (member x xs ≡ false) × Distinct xs

-- The free list holds whole pages in range, none twice.
pub record IsFreeList (end last : ℕ) (k : Kmem) : Type 0 where
  pub good : All (λ v. is_bad end last v ≡ false) k.freelist
  pub distinct : Distinct k.freelist

-- Freeing a page in range that is not free keeps the free list valid and puts the page first. Of
-- the bytes other than the page's first four, which link it, those of the page become 1, and the
-- others stay.
kfree_lem :
    (end last v a : ℕ) (k : Kmem)
    → IsFreeList end last k
    → is_bad end last v ≡ false
    → member v k.freelist ≡ false
    → (a < v) ⊎ (v + 4 ≤ a)
    → (k' : Kmem) × (kfree end last v k ≡ some k')
      × IsFreeList end last k'
      × (k'.freelist ≡ v ∷ k.freelist)
      × (k'.memory a
          ≡ (if leb v a then (if ltb a (v + page_size) then 1 else k.memory a) else k.memory a))
unfolding kfree
kfree_lem end last v a k f ok fresh away = (
  record k { freelist = v ∷ k.freelist; memory = fill_junk v k.memory },
  rw ok,
  record { good = (ok, f.good); distinct = (fresh, f.distinct) },
  refl,
  refl,
)

-- With the kernel's end above 0, kalloc from a valid free list gives null only if no page is free;
-- a page that it gives is whole and in range, and is no longer free, so that it is not given twice;
-- the list stays valid.
kalloc_lem :
    (end last : ℕ) (k : Kmem)
    → IsFreeList end last k
    → 0 < end
    → let (r, k') = kalloc k in
      IsFreeList end last k'
      × (member r k'.freelist ≡ false)
      × (((k.freelist ≡ []) × (r ≡ 0))
          ⊎ ((k.freelist ≡ r ∷ k'.freelist) × (is_bad end last r ≡ false) × (r ≢ 0)))
unfolding kalloc
kalloc_lem end last k f pos = go k.use_lock k.freelist k.memory f
  where
    go :
        (u : Bool) (fs : List ℕ) (m : ℕ → ℕ)
        → IsFreeList end last (record { use_lock = u; freelist = fs; memory = m })
        → let (r, k') = kalloc (record { use_lock = u; freelist = fs; memory = m }) in
          IsFreeList end last k'
          × (member r k'.freelist ≡ false)
          × (((fs ≡ []) × (r ≡ 0))
              ⊎ ((fs ≡ r ∷ k'.freelist) × (is_bad end last r ≡ false) × (r ≢ 0)))
    go u [] m f = (f, refl, inl (refl, refl))
    go u (x ∷ fs) m f = (
      record { good = f.good.1; distinct = f.distinct.1 },
      f.distinct.0,
      inr (refl, f.good.0, ground (arith, f.good.0)),
    )

-- A page freed and allocated next is the same page, and the free list is as before.
kalloc-kfree :
    (end last v : ℕ) (k k' : Kmem)
    → kfree end last v k ≡ some k'
    → ((kalloc k').0 ≡ v) × ((kalloc k').1.freelist ≡ k.freelist)
unfolding kalloc kfree
kalloc-kfree end last v k k' h = ground arith
