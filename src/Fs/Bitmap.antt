-- ===== src/Fs/Bitmap.antt =====
-- balloc and bfree of xv6 modified/fs.c against the free map that they keep: one bit for each block.
use osn_assignments.Base.{
  ℕ, ◌+◌, ◌*◌, ◌/◌, ◌%◌, ◌<◌, ◌≤◌, ◌≡◌, ◌≢◌, refl, sym, ◌∙◌, ap, ap₂, subst, ◌⊎◌, inl, inr, ◌==◌,
  if◌then◌else◌, Bool-cases, true, false, none, some, update_ne, arith,
}
use osn_assignments.Fs.{
  bpb, Superblock, bblock, Blocks, set_byte, bzero, bit, set_bit, clear_bit, Balloc, allocates,
  out_of_blocks, balloc, bfree,
}
use osn_assignments.Fs.Bits.{
  bit-set_bit_self, bit-set_bit_ne, bit-clear_bit_self, clear_bit-set_bit,
}
use osn_assignments.Fs.Scan.{used, Full, Allocated, full, first, balloc-Allocated}

-- The blocks of the map are in use.
abbrev pub IsMapped : Superblock → Blocks → Type 0
IsMapped sb blocks = (y : ℕ) → y < sb.size → used sb blocks (bblock y sb) ≢ 0

-- The map after one bit of it was written.
pub used-set_byte :
    (sb : Superblock) (blocks : Blocks) (x y v : ℕ)
    → ((j : ℕ) → x % 8 ≢ j → bit j v ≡ bit j (blocks (bblock x sb) (x % bpb / 8)))
    → used sb (set_byte blocks (bblock x sb) (x % bpb / 8) v) y
      ≡ (if x == y then bit (x % 8) v else used sb blocks y)
used-set_byte sb blocks x y v h = elim (Bool-cases (x == y)) [
  | inl e ↦
      let q : y ≡ x = ground arith in
      rw e (ap (used sb (set_byte blocks (bblock x sb) (x % bpb / 8) v)) q ∙ at)
  | inr e ↦ rw e (elim (Bool-cases (bblock x sb == bblock y sb)) [
    | inr p ↦ ap (bit (y % 8)) (ground (arith, p))
    | inl p ↦ elim (Bool-cases (x % bpb / 8 == y % bpb / 8)) [
      | inr q ↦ ap (bit (y % 8)) (ground (arith, p, q))
      | inl q ↦
          let d : bblock x sb ≡ bblock y sb = ground arith in
          let i : x % bpb / 8 ≡ y % bpb / 8 = ground arith in
          let ne : x % 8 ≢ y % 8 = λ z. ground (arith, d, i, e) in
          ap (bit (y % 8)) (ground (arith, p, q))
          ∙ h (y % 8) ne
          ∙ ap₂ (λ c k. bit (y % 8) (blocks c k)) d i
    ]
  ])
]
  where
    at : used sb (set_byte blocks (bblock x sb) (x % bpb / 8) v) x ≡ bit (x % 8) v
    at = ap (bit (x % 8)) (ground arith)

-- A free block is not one of the map's.
apart :
    (sb : Superblock) (blocks : Blocks) (x y : ℕ)
    → IsMapped sb blocks
    → used sb blocks x ≡ 0
    → y < sb.size
    → bblock y sb ≢ x
apart sb blocks x y w z lt q = w y lt (ap (used sb blocks) q ∙ z)

marked : Superblock → Blocks → ℕ → Blocks
marked sb blocks x =
    set_byte blocks (bblock x sb) (x % bpb / 8)
      (set_bit (x % 8) (blocks (bblock x sb) (x % bpb / 8)))

used-marked :
    (sb : Superblock) (blocks : Blocks) (x y : ℕ)
    → IsMapped sb blocks
    → used sb blocks x ≡ 0
    → y < sb.size
    → used sb (bzero (marked sb blocks x) x) y ≡ (if x == y then 1 else used sb blocks y)
unfolding marked
used-marked sb blocks x y w z lt =
    let ne : x ≢ bblock y sb = λ q. apart sb blocks x y w z lt (sym q) in
    let byte = blocks (bblock x sb) (x % bpb / 8) in
    let e : bzero (marked sb blocks x) x (bblock y sb) ≡ marked sb blocks x (bblock y sb) =
      update_ne (marked sb blocks x) x (bblock y sb) (λ i. 0) ne in
    let u : used sb (marked sb blocks x) y
        ≡ (if x == y then bit (x % 8) (set_bit (x % 8) byte) else used sb blocks y) =
      used-set_byte sb blocks x y (set_bit (x % 8) byte) (λ j n. bit-set_bit_ne (x % 8) j byte n) in
    ap (λ (f : ℕ → ℕ). bit (y % 8) (f (y % bpb / 8))) e
    ∙ u
    ∙ ap (λ b. if x == y then b else used sb blocks y) (bit-set_bit_self (x % 8) byte)

-- Block `x` was the first free block of the map and is taken now, all zero; nothing else has changed.
pub record Takes (sb : Superblock) (blocks : Blocks) (x : ℕ) (blocks' : Blocks) : Type 0 where
  pub in_range : x < sb.size
  pub was_free : used sb blocks x ≡ 0
  pub is_first : Full sb blocks 0 x
  pub maps : (y : ℕ) → y < sb.size → used sb blocks' y ≡ (if x == y then 1 else used sb blocks y)
  pub zeroed : (i : ℕ) → blocks' x i ≡ 0
  pub others : (c : ℕ) → c ≢ x → c ≢ bblock x sb → blocks' c ≡ blocks c

-- bfree of a block whose bit is set.
pub bfree-set :
    (sb : Superblock) (blocks : Blocks) (x : ℕ)
    → used sb blocks x ≡ 1
    → bfree sb blocks x
      ≡ some (
          set_byte blocks
            (bblock x sb)
            (x % bpb / 8)
            (clear_bit (x % 8) (blocks (bblock x sb) (x % bpb / 8))))
unfolding bfree
bfree-set sb blocks x h =
    let m : x % 4096 % 8 ≡ x % 8 = omega arith in
    let t : (bit (x % 8) (blocks (bblock x sb) (x % bpb / 8)) == 0) ≡ false = ground (arith, h) in
    rw (m, t) refl

bfree-marked :
    (sb : Superblock) (blocks : Blocks) (x : ℕ)
    → x ≢ bblock x sb
    → used sb blocks x ≡ 0
    → (blocks'' : Blocks) × (bfree sb (bzero (marked sb blocks x) x) x ≡ some blocks'')
      × ((c i : ℕ) → c ≢ x → blocks'' c i ≡ blocks c i)
unfolding marked
bfree-marked sb blocks x ne z =
    let byte = blocks (bblock x sb) (x % bpb / 8) in
    let new = bzero (marked sb blocks x) x in
    let e : new (bblock x sb) (x % bpb / 8) ≡ set_bit (x % 8) byte = ground (arith, ne) in
    let u : used sb new x ≡ 1 = ap (bit (x % 8)) e ∙ bit-set_bit_self (x % 8) byte in
    let back : clear_bit (x % 8) (new (bblock x sb) (x % bpb / 8)) ≡ byte =
      ap (clear_bit (x % 8)) e ∙ clear_bit-set_bit (x % 8) byte z in
    (
      set_byte new (bblock x sb) (x % bpb / 8)
          (clear_bit (x % 8) (new (bblock x sb) (x % bpb / 8))),
      bfree-set sb new x u,
      λ c i n. elim (Bool-cases (bblock x sb == c)) [
        | inr p ↦ ground (arith, p, n)
        | inl p ↦
            let q : c ≡ bblock x sb = ground arith in
            elim (Bool-cases (x % bpb / 8 == i)) [
              | inl r ↦
                  let v : i ≡ x % bpb / 8 = ground arith in
                  ground (arith, p, r, back, ap₂ blocks q v)
              | inr r ↦ ground (arith, p, r, n, q, ap (λ (k : ℕ). blocks k i) q)
            ]
      ],
    )

module _ (sb : Superblock) (blocks : Blocks) (w : IsMapped sb blocks) where
  -- Where the map's own blocks are in use, and with fuel for one round more than the map has blocks,
  -- balloc panics only if every block is in use, and else gives the first free one. In the map that
  -- block's bit is set then and no other bit has changed; the block is zeroed, and all blocks but it
  -- and its block of the map are as before.
  pub balloc_lem :
      (fuel : ℕ)
      → sb.size + 4096 ≤ 4096 * fuel
      → ((balloc fuel sb blocks ≡ out_of_blocks) × Full sb blocks 0 sb.size)
        ⊎ ((x : ℕ) × (blocks' : Blocks) × (balloc fuel sb blocks ≡ allocates x blocks')
            × Takes sb blocks x blocks')
  unfolding marked
  balloc_lem fuel enough = go (balloc fuel sb blocks) refl (balloc-Allocated fuel sb blocks enough)
    where
      go :
          (r : Balloc)
          → balloc fuel sb blocks ≡ r
          → Allocated sb blocks r
          → ((balloc fuel sb blocks ≡ out_of_blocks) × Full sb blocks 0 sb.size)
            ⊎ ((x : ℕ) × (blocks' : Blocks) × (balloc fuel sb blocks ≡ allocates x blocks')
                × Takes sb blocks x blocks')
      go _ e (full f) = inl (e, f)
      go _ e (first {x} {blocks'} s z f q) = inr (
        x,
        blocks',
        e,
        record {
          in_range = s;
          was_free = z;
          is_first = f;
          maps = λ y lt. ap (λ b. used sb b y) q ∙ used-marked sb blocks x y w z lt;
          zeroed = λ i. ap (λ (b : Blocks). b x i) q ∙ ground arith;
          others = λ c n m. ap (λ (b : Blocks). b c) q ∙ ground (arith, n, m);
        },
      )

  -- The block that balloc gave is freed again by bfree: it does not panic, and every byte of every
  -- other block, the map's among them, is as it was before the two calls.
  pub bfree-balloc :
      (fuel x : ℕ) (blocks' : Blocks)
      → sb.size + 4096 ≤ 4096 * fuel
      → balloc fuel sb blocks ≡ allocates x blocks'
      → (blocks'' : Blocks) × (bfree sb blocks' x ≡ some blocks'')
        × ((c i : ℕ) → c ≢ x → blocks'' c i ≡ blocks c i)
  unfolding marked
  bfree-balloc fuel x blocks' enough h =
      go (balloc fuel sb blocks) h (balloc-Allocated fuel sb blocks enough)
    where
      go :
          (r : Balloc)
          → r ≡ allocates x blocks'
          → Allocated sb blocks r
          → (blocks'' : Blocks) × (bfree sb blocks' x ≡ some blocks'')
            × ((c i : ℕ) → c ≢ x → blocks'' c i ≡ blocks c i)
      go _ e (full f) = cc
      go _ e (first {x = y} {blocks' = b} s z f q) =
          let ex : y ≡ x = cc in
          let eb : b ≡ blocks' = cc in
          let zx : used sb blocks x ≡ 0 = ap (used sb blocks) (sym ex) ∙ z in
          let ne : x ≢ bblock x sb =
            λ r. apart sb blocks x x w zx (subst (λ k. k < sb.size) ex s) (sym r) in
          let eq : blocks' ≡ bzero (marked sb blocks x) x =
            sym eb ∙ q ∙ ap (λ k. bzero (marked sb blocks k) k) ex in
          subst
            (λ (k : Blocks).
              (blocks'' : Blocks) × (bfree sb k x ≡ some blocks'')
              × ((c i : ℕ) → c ≢ x → blocks'' c i ≡ blocks c i))
            (sym eq) (bfree-marked sb blocks x ne zx)

-- A block that bfree has freed is free; freeing it once more is the panic.
pub bfree-bfree :
    (sb : Superblock) (blocks blocks' : Blocks) (x : ℕ)
    → bfree sb blocks x ≡ some blocks'
    → bfree sb blocks' x ≡ none
unfolding bfree
bfree-bfree sb blocks blocks' x h =
    let m : x % 4096 % 8 ≡ x % 8 = omega arith in
    let byte = blocks (bblock x sb) (x % bpb / 8) in
    elim (Bool-cases (bit (x % 8) byte == 0)) [
      | inl e ↦ absurd (clash (rw (m, e) at h))
      | inr e ↦
          let q : some (set_byte blocks (bblock x sb) (x % bpb / 8) (clear_bit (x % 8) byte))
              ≡ some blocks' =
            rw (m, e) at h in
          let r : set_byte blocks (bblock x sb) (x % bpb / 8) (clear_bit (x % 8) byte) ≡ blocks' =
            cc in
          let new : blocks' (bblock x sb) (x % bpb / 8) ≡ clear_bit (x % 8) byte =
            ap (λ (b : Blocks). b (bblock x sb) (x % bpb / 8)) (sym r) ∙ ground arith in
          let v : bit (x % 8) (blocks' (bblock x sb) (x % bpb / 8)) ≡ 0 =
            ap (bit (x % 8)) new ∙ bit-clear_bit_self (x % 8) byte in
          let t : (bit (x % 8) (blocks' (bblock x sb) (x % bpb / 8)) == 0) ≡ true =
            ground (arith, v) in
          rw (bfree, m, t) refl
    ]
  where
    clash : none ≡ some blocks' → ⊥
    clash q = cc
