-- ===== src/Fs/Content/Placing.antt =====
-- A direct block of a file that bmap of xv6 modified/fs.c gives, also where it allocates.
use osn_assignments.Base.{
  ℕ, ◌+◌, ◌-◌, ◌*◌, ◌<◌, ◌≤◌, ◌≡◌, ◌≢◌, refl, ◌∙◌, ap, ◌==◌, ltb, if◌then◌else◌, Bool-cases, inl,
  inr, true, set, length-set, get_or-set_self, get_or-set_ne, arith,
}
use osn_assignments.Fs.{Superblock, Blocks}
use osn_assignments.Fs.Bitmap.{Takes, balloc_lem}
use osn_assignments.Fs.Icache.{Dinode}
use osn_assignments.Fs.Content.{entry, addr, Bmap, maps, no_block, with_block}
use osn_assignments.Fs.Content.Reading.{home}
use osn_assignments.Fs.Content.Growing.{
  IsSafe, Takes-Marks, Takes-IsOwn, own_kept, not_zero, grown-IsSafe,
}

-- Block `b` is block `k` of the file now; the blocks that the file had are its blocks still and hold
-- what they held.
pub record Placed (sb : Superblock) (ip : Dinode) (blocks : Blocks) (k b : ℕ) (ip' : Dinode)
    (c : Blocks) : Type 0 where
  pub safe : IsSafe sb ip' c
  pub at : home ip' c k ≡ b
  pub there : b ≢ 0
  pub kept :
      (j : ℕ)
      → j < 140
      → home ip blocks j ≢ 0
      → (home ip' c j ≡ home ip blocks j) × (c (home ip blocks j) ≡ blocks (home ip blocks j))
  pub fields : ip' ≡ record ip { addrs = ip'.addrs }

-- Of a result of bmap.
unfoldable pub After : Superblock → Dinode → Blocks → ℕ → Bmap → Type 0
After sb ip blocks k no_block = Unit
After sb ip blocks k (maps b ip' c) = Placed sb ip blocks k b ip' c

-- The inode with the number `x` in place `i`.
abbrev pub placed : Dinode → ℕ → ℕ → Dinode
placed ip i x = record ip { addrs = set ip.addrs i x }

module _ (fuel : ℕ) (sb : Superblock) (enough : sb.size + 4096 ≤ 4096 * fuel) where
  pub direct-After :
      (ip : Dinode) (blocks : Blocks) (k : ℕ)
      → IsSafe sb ip blocks
      → k < 12
      → After sb ip blocks k (with_block fuel sb ip k blocks)
  unfolding After with_block
  direct-After ip blocks k s lt = elim (Bool-cases (addr ip k == 0)) [
    | inr e ↦
        let l : ltb k 12 ≡ true = ground (arith, lt) in
        rw (e, with_block)
          (record {
            safe = s;
            at = rw l refl;
            there = ground (arith, e);
            kept = λ j jl z. (refl, refl);
            fields = refl;
          })
    | inl e ↦ elim (balloc_lem sb blocks (λ y yl. (s.map y yl).1) fuel enough) [
      | inl (q, f) ↦ rw (e, with_block, q) tt
      | inr (x, c, q, t) ↦ rw (e, with_block, q) (takes e x c t)
    ]
  ]
    where
      takes :
          (addr ip k == 0) ≡ true
          → (x : ℕ) (c : Blocks) → Takes sb blocks x c
          → Placed sb ip blocks k x (placed ip k x) c
      takes e x c t =
          let l : ltb k 12 ≡ true = ground (arith, lt) in
          let empty : home ip blocks k ≡ 0 = rw l (ground (arith, e)) in
          let at : home (placed ip k x) c k ≡ x =
            rw l (get_or-set_self ip.addrs k x 0 (omega (arith, s.numbers))) in
          let tab : addr (placed ip k x) 12 ≡ addr ip 12 =
            get_or-set_ne ip.addrs k 12 x 0 (omega arith) in
          let same : (j : ℕ)
              → j < 140
              → home (placed ip k x) c j ≡ (if k == j then x else home ip blocks j) =
            λ j jl. elim (Bool-cases (k == j)) [
              | inl d ↦
                  let q : j ≡ k = ground (arith, d) in rw d (ap (home (placed ip k x) c) q ∙ at)
              | inr d ↦ elim (Bool-cases (ltb j 12)) [
                | inl m ↦ rw (d, m) (get_or-set_ne ip.addrs k j x 0 (ground (arith, d)))
                | inr m ↦ elim (Bool-cases (addr ip 12 == 0)) [
                  | inl z ↦ rw (d, m, tab, z) refl
                  | inr z ↦
                      rw (d, m, tab, z)
                        (ap (λ (f : ℕ → ℕ). entry f (j - 12))
                          (own_kept sb ip blocks s x (addr ip 12) c t
                            (s.table (ground (arith, z)))).1)
                ]
              ]
            ] in
          record {
            safe =
                grown-IsSafe sb ip blocks s (placed ip k x) c k x (omega arith)
                  (length-set ip.addrs k x ∙ s.numbers) (Takes-Marks sb ip blocks s x c t) same
                  (Takes-IsOwn sb ip blocks s x c t) t.was_free tab;
            at = at;
            there = not_zero sb ip blocks s x c t;
            kept = λ j jl z. elim (Bool-cases (k == j)) [
              | inl d ↦
                  let q : j ≡ k = ground (arith, d) in absurd (z (ap (home ip blocks) q ∙ empty))
              | inr d ↦ (
                rw d at (same j jl),
                (own_kept sb ip blocks s x (home ip blocks j) c t (s.homes j jl z)).1,
              )
            ];
            fields = refl;
          }
