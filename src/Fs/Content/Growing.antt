-- ===== src/Fs/Content/Growing.antt =====
-- bmap of xv6 modified/fs.c where it may allocate.
use osn_assignments.Base.{
  ℕ, ◌/◌, ◌%◌, ◌^◌, ◌<◌, ◌≤◌, ◌≡◌, ◌≢◌, sym, ◌∙◌, ap, subst, ◌==◌, if◌then◌else◌, Bool-cases, inl,
  inr, true, length, arith,
}
use osn_assignments.Fs.{bpb, Superblock, bblock, Blocks, bit}
use osn_assignments.Fs.Scan.{used}
use osn_assignments.Fs.Bitmap.{Takes}
use osn_assignments.Fs.Icache.{Dinode}
use osn_assignments.Fs.Content.{addr}
use osn_assignments.Fs.Content.Reading.{home}
use osn_assignments.Fs.Content.Writing.{IsApart}

-- A block of the file system that is in use and none of the map's own.
pub record IsOwn (sb : Superblock) (blocks : Blocks) (h : ℕ) : Type 0 where
  pub in_range : h < sb.size
  pub in_use : used sb blocks h ≢ 0
  pub no_map : (y : ℕ) → y < sb.size → bblock y sb ≢ h

-- An inode and the free map agree: the inode's blocks are marked in use, none stands twice, and the
-- map's own blocks and block 0 are marked in use.
pub record IsSafe (sb : Superblock) (ip : Dinode) (blocks : Blocks) : Type 0 where
  pub numbers : length ip.addrs ≡ 13
  pub apart : IsApart ip blocks
  pub homes : (k : ℕ) → k < 140 → home ip blocks k ≢ 0 → IsOwn sb blocks (home ip blocks k)
  pub table : addr ip 12 ≢ 0 → IsOwn sb blocks (addr ip 12)
  pub map : (y : ℕ) → y < sb.size → (bblock y sb < sb.size) × (used sb blocks (bblock y sb) ≢ 0)
  pub boot : used sb blocks 0 ≢ 0
  pub words : sb.size ≤ 2 ^ 32

-- No bit of the map has been cleared.
abbrev pub Marks : Superblock → Blocks → Blocks → Type 0
Marks sb blocks c =
    (used sb blocks 0 ≢ 0 → used sb c 0 ≢ 0)
    × ((y : ℕ) → y < sb.size → used sb blocks y ≢ 0 → used sb c y ≢ 0)

pub IsOwn-Marks :
    (sb : Superblock) (blocks c : Blocks) (h : ℕ)
    → Marks sb blocks c
    → IsOwn sb blocks h
    → IsOwn sb c h
IsOwn-Marks sb blocks c h m o = record {
  in_range = o.in_range;
  in_use = m.1 h o.in_range o.in_use;
  no_map = o.no_map;
}

pub used-same :
    (sb : Superblock) (blocks c : Blocks) (y : ℕ)
    → c (bblock y sb) ≡ blocks (bblock y sb)
    → used sb c y ≡ used sb blocks y
used-same sb blocks c y e = ap (λ (f : ℕ → ℕ). bit (y % 8) (f (y % bpb / 8))) e

module _ (sb : Superblock) (ip : Dinode) (blocks : Blocks) (s : IsSafe sb ip blocks) where
  pub Takes-Marks : (x : ℕ) (c : Blocks) → Takes sb blocks x c → Marks sb blocks c
  Takes-Marks x c t = (λ u. at 0 (omega (arith, t.in_range)) u, at)
    where
      at : (y : ℕ) → y < sb.size → used sb blocks y ≢ 0 → used sb c y ≢ 0
      at y lt u = elim (Bool-cases (x == y)) [
        | inl e ↦ let m : used sb c y ≡ 1 = rw e at (t.maps y lt) in omega (arith, m)
        | inr e ↦
            let m : used sb c y ≡ used sb blocks y = rw e at (t.maps y lt) in λ z. u (sym m ∙ z)
      ]

  pub Takes-IsOwn : (x : ℕ) (c : Blocks) → Takes sb blocks x c → IsOwn sb c x
  Takes-IsOwn x c t =
      let self : (x == x) ≡ true = ground arith in
      let m : used sb c x ≡ 1 = rw self at (t.maps x t.in_range) in
      record {
        in_range = t.in_range;
        in_use = omega (arith, m);
        no_map = λ y lt e. (s.map y lt).1 (ap (used sb blocks) e ∙ t.was_free);
      }

  -- A block in use is not the one that balloc took, and stays as it is.
  pub own_kept :
      (x h : ℕ) (c : Blocks) → Takes sb blocks x c → IsOwn sb blocks h → (h ≢ x) × (c h ≡ blocks h)
  own_kept x h c t o =
      let ne : h ≢ x = λ e. o.in_use (ap (used sb blocks) e ∙ t.was_free) in
      (ne, t.others h ne (λ e. o.no_map x t.in_range (sym e)))

  pub not_zero : (x : ℕ) (c : Blocks) → Takes sb blocks x c → x ≢ 0
  not_zero x c t e = s.boot (ap (used sb blocks) (sym e) ∙ t.was_free)

  -- The file gets block `x`, free before, as its block `k`.
  pub grown-IsSafe :
      (ip' : Dinode) (c : Blocks) (k x : ℕ)
      → k < 140
      → length ip'.addrs ≡ 13
      → Marks sb blocks c
      → ((j : ℕ) → j < 140 → home ip' c j ≡ (if k == j then x else home ip blocks j))
      → IsOwn sb c x
      → used sb blocks x ≡ 0
      → addr ip' 12 ≡ addr ip 12
      → IsSafe sb ip' c
  grown-IsSafe ip' c k x lt n m same own free tab = record {
    numbers = n;
    apart = record { once = once; no_table = no_table };
    homes = λ j jl z. elim (Bool-cases (k == j)) [
      | inl e ↦ let q : home ip' c j ≡ x = rw e at (same j jl) in subst (IsOwn sb c) (sym q) own
      | inr e ↦
          let q : home ip' c j ≡ home ip blocks j = rw e at (same j jl) in
          subst (IsOwn sb c) (sym q)
            (IsOwn-Marks sb blocks c (home ip blocks j) m (s.homes j jl (λ w. z (q ∙ w))))
    ];
    table = λ z.
        subst (IsOwn sb c) (sym tab)
          (IsOwn-Marks sb blocks c (addr ip 12) m (s.table (λ w. z (tab ∙ w))));
    map = λ y yl. let (a, b) = s.map y yl in (a, m.1 (bblock y sb) a b);
    boot = m.0 s.boot;
    words = s.words;
  }
    where
      old : (j : ℕ) → j < 140 → home ip blocks j ≢ 0 → home ip blocks j ≢ x
      old j jl z e = (s.homes j jl z).in_use (ap (used sb blocks) e ∙ free)

      once : (j l : ℕ) → j < 140 → l < 140 → home ip' c j ≢ 0 → home ip' c j ≡ home ip' c l → j ≡ l
      once j l jl ll z q = elim (Bool-cases (k == j)) [
        | inl e ↦ elim (Bool-cases (k == l)) [
          | inl d ↦ ground (arith, e, d)
          | inr d ↦
              let a : home ip' c j ≡ x = rw e at (same j jl) in
              let b : home ip' c l ≡ home ip blocks l = rw d at (same l ll) in
              absurd (old l ll (λ w. z (q ∙ b ∙ w)) (sym b ∙ sym q ∙ a))
        ]
        | inr e ↦ elim (Bool-cases (k == l)) [
          | inl d ↦
              let a : home ip' c j ≡ home ip blocks j = rw e at (same j jl) in
              let b : home ip' c l ≡ x = rw d at (same l ll) in
              absurd (old j jl (λ w. z (a ∙ w)) (sym a ∙ q ∙ b))
          | inr d ↦
              let a : home ip' c j ≡ home ip blocks j = rw e at (same j jl) in
              let b : home ip' c l ≡ home ip blocks l = rw d at (same l ll) in
              s.apart.once j l jl ll (λ w. z (a ∙ w)) (sym a ∙ q ∙ b)
        ]
      ]

      no_table : (j : ℕ) → j < 140 → home ip' c j ≢ 0 → home ip' c j ≢ addr ip' 12
      no_table j jl z q = elim (Bool-cases (k == j)) [
        | inl e ↦
            let a : home ip' c j ≡ x = rw e at (same j jl) in
            let t : x ≡ addr ip 12 = sym a ∙ q ∙ tab in
            let nz : addr ip 12 ≢ 0 = λ w. z (a ∙ t ∙ w) in
            (s.table nz).in_use (ap (used sb blocks) (sym t) ∙ free)
        | inr e ↦
            let a : home ip' c j ≡ home ip blocks j = rw e at (same j jl) in
            s.apart.no_table j jl (λ w. z (a ∙ w)) (sym a ∙ q ∙ tab)
      ]
