-- ===== src/Fs/Scan.antt =====
-- The search loops of balloc of xv6 modified/fs.c find the first free block.
use osn_assignments.Base.{
  ℕ, zero, suc, ◌+◌, ◌*◌, ◌/◌, ◌%◌, ◌<◌, ◌≤◌, ◌≡◌, ◌≢◌, refl, ◌∙◌, ap, inl, inr, ◌==◌, ltb,
  Bool-cases, true, Option, none, some, arith,
}
use osn_assignments.Fs.{
  bpb, Superblock, bblock, Blocks, set_byte, bzero, bit, set_bit, scan_bits, Balloc, allocates,
  out_of_blocks, balloc_from, balloc,
}

-- The bit of a block in the map, 0 if it is free.
abbrev pub used : Superblock → Blocks → ℕ → ℕ
used sb blocks y = bit (y % 8) (blocks (bblock y sb) (y % bpb / 8))

used_at :
    (sb : Superblock) (blocks : Blocks) (b bi : ℕ)
    → b % 4096 ≡ 0
    → bi < 4096
    → used sb blocks (b + bi) ≡ bit (bi % 8) (blocks (bblock b sb) (bi / 8))
used_at sb blocks b bi m lt =
    let e : (b + bi) % 8 ≡ bi % 8 = omega arith in
    let f : (b + bi) / 4096 ≡ b / 4096 = omega arith in
    let g : (b + bi) % 4096 / 8 ≡ bi / 8 = omega arith in rw (e, f, g) refl

-- All blocks of the file system in a range are in use.
abbrev pub Full : Superblock → Blocks → ℕ → ℕ → Type 0
Full sb blocks lo hi = (y : ℕ) → lo ≤ y → y < hi → y < sb.size → used sb blocks y ≢ 0

-- The outcomes of the inner loop, from `bi` on.
data Scanned (sb : Superblock) (blocks : Blocks) (b bi : ℕ) : Option ℕ → Type 0 where
  none_free : Full sb blocks (b + bi) (b + 4096) → Scanned sb blocks b bi none
  free :
      {r : ℕ}
      → bi ≤ r
      → r < 4096
      → b + r < sb.size
      → used sb blocks (b + r) ≡ 0
      → Full sb blocks (b + bi) (b + r)
      → Scanned sb blocks b bi (some r)

Full-skip :
    (sb : Superblock) (blocks : Blocks) (lo hi : ℕ)
    → used sb blocks lo ≢ 0
    → Full sb blocks (lo + 1) hi
    → Full sb blocks lo hi
Full-skip sb blocks lo hi u f y le lt s = elim (Bool-cases (lo == y)) [
  | inl e ↦ let q : lo ≡ y = ground arith in λ z. u (ap (used sb blocks) q ∙ z)
  | inr e ↦ f y (ground arith) lt s
]

scan_bits-Scanned :
    (n : ℕ) (sb : Superblock) (blocks : Blocks) (b bi : ℕ)
    → b % 4096 ≡ 0
    → bi + n ≡ 4096
    → Scanned sb blocks b bi (scan_bits n sb blocks b bi)
unfolding scan_bits
scan_bits-Scanned zero sb blocks b bi m e = none_free (λ y le lt s. absurd (omega arith))
scan_bits-Scanned (suc n) sb blocks b bi m e = elim (Bool-cases (ltb (b + bi) sb.size)) [
  | inr l ↦ rw l (none_free (λ y le lt s. absurd (ground arith)))
  | inl l ↦
      let at = used_at sb blocks b bi m (omega arith) in
      elim (Bool-cases (bit (bi % 8) (blocks (bblock b sb) (bi / 8)) == 0)) [
        | inl z ↦
            rw (l, z)
              (free (omega arith) (omega arith) (ground arith) (ground (arith, at))
                (λ y le lt s. absurd (omega arith)))
        | inr z ↦
            let u : used sb blocks (b + bi) ≢ 0 = ground (arith, at) in
            rw (l, z) (step u (scan_bits-Scanned n sb blocks b (bi + 1) m (omega arith)))
      ]
]
  where
    step :
        {r : Option ℕ}
        → used sb blocks (b + bi) ≢ 0
        → Scanned sb blocks b (bi + 1) r
        → Scanned sb blocks b bi r
    step u (none_free f) =
        none_free (Full-skip sb blocks (b + bi) (b + 4096) u (λ y le. f y (omega arith)))
    step u (free {r} le lt s z f) =
        free (omega arith) lt s z
          (Full-skip sb blocks (b + bi) (b + r) u (λ y le'. f y (omega arith)))

-- The outcomes of balloc, where all blocks below `b` are in use.
pub data Allocated (sb : Superblock) (blocks : Blocks) : Balloc → Type 0 where
  full : Full sb blocks 0 sb.size → Allocated sb blocks out_of_blocks
  first :
      {x : ℕ} {blocks' : Blocks}
      → x < sb.size
      → used sb blocks x ≡ 0
      → Full sb blocks 0 x
      → blocks'
        ≡ bzero
            (set_byte blocks
              (bblock x sb)
              (x % bpb / 8)
              (set_bit (x % 8) (blocks (bblock x sb) (x % bpb / 8))))
            x
      → Allocated sb blocks (allocates x blocks')

Full-join :
    (sb : Superblock) (blocks : Blocks) (b c : ℕ)
    → Full sb blocks 0 b
    → Full sb blocks b c
    → Full sb blocks 0 c
Full-join sb blocks b c f g y le lt s = elim (Bool-cases (ltb y b)) [
  | inl e ↦ f y le (ground arith) s
  | inr e ↦ g y (ground arith) lt s
]

balloc_from-Allocated :
    (fuel : ℕ) (sb : Superblock) (blocks : Blocks) (b : ℕ)
    → b % 4096 ≡ 0
    → b < sb.size + 4096
    → sb.size + 4096 ≤ b + 4096 * fuel
    → Full sb blocks 0 b
    → Allocated sb blocks (balloc_from fuel sb blocks b)
unfolding balloc_from
balloc_from-Allocated zero sb blocks b m near lt f = absurd (omega arith)
balloc_from-Allocated (suc fuel) sb blocks b m near lt f = elim (Bool-cases (ltb b sb.size)) [
  | inr l ↦ rw (l, balloc_from) (full (λ y le ly s. f y le (ground arith) s))
  | inl l ↦
      go l (scan_bits bpb sb blocks b 0) refl (scan_bits-Scanned bpb sb blocks b 0 m refl)
        (balloc_from-Allocated fuel sb blocks (b + bpb) (omega arith) (ground arith) (omega arith))
]
  where
    go :
        ltb b sb.size ≡ true
        → (r : Option ℕ) → scan_bits bpb sb blocks b 0 ≡ r
        → Scanned sb blocks b 0 r
        → (Full sb blocks 0 (b + bpb) → Allocated sb blocks (balloc_from fuel sb blocks (b + bpb)))
        → Allocated sb blocks (balloc_from (suc fuel) sb blocks b)
    go l _ e (none_free g) ih =
        rw (l, balloc_from, e) (ih (Full-join sb blocks b (b + bpb) f (λ y le. g y (omega arith))))
    go l _ e (free {r} le lr s z g) ih =
        let u : (b + r) % 8 ≡ r % 8 = omega arith in
        let v : (b + r) / 4096 ≡ b / 4096 = omega arith in
        let w : (b + r) % 4096 / 8 ≡ r / 8 = omega arith in
        rw (l, balloc_from, e)
          (first s z (Full-join sb blocks b (b + r) f (λ y le. g y (omega arith)))
            (rw (u, v, w) refl))

pub balloc-Allocated :
    (fuel : ℕ) (sb : Superblock) (blocks : Blocks)
    → sb.size + 4096 ≤ 4096 * fuel
    → Allocated sb blocks (balloc fuel sb blocks)
unfolding balloc
balloc-Allocated fuel sb blocks h =
    balloc_from-Allocated fuel sb blocks 0 refl (omega arith) (omega arith)
      (λ y le lt s. absurd (omega arith))
