-- ===== src/Fs/Content/Reading.antt =====
-- readi of xv6 modified/fs.c gives the bytes of the file.
use osn_assignments.Base.{
  ℕ, zero, suc, ◌+◌, ◌-◌, ◌*◌, ◌/◌, ◌%◌, ◌^◌, ◌<◌, ◌≤◌, ◌≡◌, ◌≢◌, refl, sym, ◌∙◌, ap, ◌==◌, ltb,
  min, if◌then◌else◌, Bool-cases, inl, inr, ◌⊎◌, true, false, Option, some, List, ◌∷◌, ◌++◌, tab,
  arith,
}
use osn_assignments.Fs.{Superblock, Blocks}
use osn_assignments.Fs.Icache.{Dinode}
use osn_assignments.Fs.Content.{
  entry, addr, maps, with_block, bmap_indirect, bmap, readi_loop, readi, t_dev, refused, ends,
}

-- The block that holds block `k` of the file, 0 if there is none.
abbrev pub home : Dinode → Blocks → ℕ → ℕ
home ip blocks k =
    if ltb k 12
    then addr ip k
    else if addr ip 12 == 0
    then 0
    else entry (blocks (addr ip 12)) (k - 12)

-- Byte `o` of the file.
abbrev pub byte_at : Dinode → Blocks → ℕ → ℕ
byte_at ip blocks o = blocks (home ip blocks (o / 512)) (o % 512)

-- A block that is there is found, and nothing is changed.
pub bmap-home :
    (fuel : ℕ) (sb : Superblock) (ip : Dinode) (k : ℕ) (blocks : Blocks)
    → k < 140
    → home ip blocks k ≢ 0
    → bmap fuel sb ip k blocks ≡ maps (home ip blocks k) ip blocks
unfolding bmap with_block bmap_indirect
bmap-home fuel sb ip k blocks lt h = elim (Bool-cases (ltb k 12)) [
  | inl e ↦ let z : (addr ip k == 0) ≡ false = ground (arith, h, e) in rw (e, with_block, z) refl
  | inr e ↦
      let b : ltb (k - 12) 128 ≡ true = ground (arith, e) in
      let y : (addr ip 12 == 0) ≡ false = ground (arith, h, e) in
      let z : (entry (blocks (addr ip 12)) (k - 12) == 0) ≡ false = ground (arith, h, e, y) in
      rw (e, b, with_block, y, bmap_indirect, z) refl
]

tab-append : (f : ℕ → ℕ) (t m n : ℕ) → tab f t (m + n) ≡ tab f t m ++ tab f (t + m) n
tab-append f t zero n =
    let e : 0 + n ≡ n = omega arith in let g : t + 0 ≡ t = omega arith in rw (e, g) refl
tab-append f t (suc m) n =
    let e : suc m + n ≡ suc (m + n) = omega arith in
    let g : t + suc m ≡ t + 1 + m = omega arith in
    rw (e, g) (ap (λ l. f t ∷ l) (tab-append f (t + 1) m n))

pub tab-shift :
    (f g : ℕ → ℕ) (t u n : ℕ) → ((j : ℕ) → j < n → f (t + j) ≡ g (u + j)) → tab f t n ≡ tab g u n
tab-shift f g t u zero h = refl
tab-shift f g t u (suc n) h =
    let e : t + 0 ≡ t = omega arith in
    let d : u + 0 ≡ u = omega arith in
    let first : f t ≡ g u = rw (e, d) at (h 0 (omega arith)) in
    let rest : tab f (t + 1) n ≡ tab g (u + 1) n = tab-shift f g (t + 1) (u + 1) n (λ j lt.
      let a : t + suc j ≡ t + 1 + j = omega arith in
      let b : u + suc j ≡ u + 1 + j = omega arith in rw (a, b) at (h (suc j) (omega arith))) in
    ap (λ x. x ∷ tab f (t + 1) n) first ∙ ap (λ l. g u ∷ l) rest

-- The bytes of the file in one of its blocks.
in_block :
    (ip : Dinode) (blocks : Blocks) (off m : ℕ)
    → m + off % 512 ≤ 512
    → tab (blocks (home ip blocks (off / 512))) (off % 512) m ≡ tab (byte_at ip blocks) off m
in_block ip blocks off m h =
    tab-shift (blocks (home ip blocks (off / 512))) (byte_at ip blocks) (off % 512) off m (λ j lt.
      let a : (off + j) / 512 ≡ off / 512 = omega arith in
      let b : (off + j) % 512 ≡ off % 512 + j = omega arith in rw (a, b) refl)

-- Every block of the file that has a byte in the range is there.
abbrev pub IsThere : Dinode → Blocks → ℕ → ℕ → Type 0
IsThere ip blocks off end =
    (k : ℕ) → off < 512 * k + 512 → 512 * k < end → (k < 140) × (home ip blocks k ≢ 0)

pub readi_loop_lem :
    (rounds fuel : ℕ) (sb : Superblock) (ip : Dinode) (blocks : Blocks) (off left : ℕ)
    → left ≤ rounds
    → IsThere ip blocks off (off + left)
    → readi_loop rounds fuel sb ip blocks off left
      ≡ some (tab (byte_at ip blocks) off left, ip, blocks)
unfolding readi_loop
readi_loop_lem zero fuel sb ip blocks off left le h = let z : left ≡ 0 = omega arith in rw z refl
readi_loop_lem (suc rounds) fuel sb ip blocks off left le h = elim (Bool-cases (left == 0)) [
  | inl e ↦ let z : left ≡ 0 = ground (arith, e) in rw (z, readi_loop) refl
  | inr e ↦
      let m = min left (512 - off % 512) in
      let sizes : (m ≤ left) × (1 ≤ m) × (m + off % 512 ≤ 512) = ground (arith, e) in
      let there = h (off / 512) (omega arith) (ground (arith, e)) in
      let rest =
        readi_loop_lem rounds fuel sb ip blocks (off + m) (left - m) (omega (arith, sizes))
          (λ k a b. h k (omega (arith, sizes)) (omega (arith, sizes))) in
      let whole : left ≡ m + (left - m) = omega (arith, sizes) in
      let bytes : tab (byte_at ip blocks) off left
          ≡ tab (blocks (home ip blocks (off / 512))) (off % 512) m
            ++ tab (byte_at ip blocks) (off + m) (left - m) =
        ap (tab (byte_at ip blocks) off) whole
        ∙ tab-append (byte_at ip blocks) off m (left - m)
        ∙ ap (λ l. l ++ tab (byte_at ip blocks) (off + m) (left - m))
            (sym (in_block ip blocks off m sizes.2)) in
      rw (e, readi_loop, bmap-home fuel sb ip (off / 512) blocks there.0 there.1, rest)
        (ap (λ (l : List ℕ). result l) (sym bytes))
]
  where
    result : List ℕ → Option (List ℕ × Dinode × Blocks)
    result l = some (l, ip, blocks)

-- For an inode that is no device and whose blocks are all there: readi gives -1 exactly if it starts behind the end of the file or
-- the sum of offset and count wraps; else it gives the bytes of the file from the offset on, as many as
-- were asked for or as the file has, and changes neither inode nor blocks.
pub readi_lem :
    (fuel : ℕ) (sb : Superblock) (ip : Dinode) (blocks : Blocks) (off n : ℕ)
    → ip.kind ≢ t_dev
    → ip.size ≤ 71680
    → n < 2 ^ 32
    → IsThere ip blocks 0 ip.size
    → (((ip.size < off) ⊎ (2 ^ 32 ≤ off + n)) × (readi fuel sb ip blocks off n ≡ refused))
      ⊎ ((off ≤ ip.size)
          × (off + n < 2 ^ 32)
          × (readi fuel sb ip blocks off n
              ≡ ends (some (tab (byte_at ip blocks) off (min n (ip.size - off)), ip, blocks))))
unfolding readi
readi_lem fuel sb ip blocks off n file small word h =
    let kd : (ip.kind == 3) ≡ false = ground (arith, file) in
    elim (Bool-cases (ltb ip.size off)) [
      | inl e ↦ inl (inl (ground (arith, e)), rw (kd, readi, e) refl)
      | inr e ↦
          let le : off ≤ ip.size = ground (arith, e) in
          elim (Bool-cases (ltb ((off + n) % 2 ^ 32) off)) [
            | inl f ↦
                let lt : (off + n) % 2 ^ 32 < off = ground (arith, f) in
                inl (inr (omega arith), rw (kd, readi, e, f) refl)
            | inr f ↦
                let ge : off ≤ (off + n) % 2 ^ 32 = ground (arith, f) in
                let fits : off + n < 2 ^ 32 = omega arith in
                let m : (off + n) % 2 ^ 32 ≡ off + n = omega arith in
                let count : (if ltb ip.size (off + n) then ip.size - off else n)
                    ≡ min n (ip.size - off) =
                  ground (arith, le) in
                let k = min n (ip.size - off) in
                let fine : k ≤ ip.size - off = omega arith in
                inr (
                  le,
                  fits,
                  rw (kd, readi, e, f, m, count)
                      (ap ends (
                        readi_loop_lem k fuel sb ip blocks off k (omega arith)
                          (λ b x y. h b (omega arith) (omega (arith, fine))))),
                )
          ]
    ]
