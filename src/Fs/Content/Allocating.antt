-- ===== src/Fs/Content/Allocating.antt =====
-- What bmap of xv6 modified/fs.c gives, also where it allocates.
use osn_assignments.Base.{
  ℕ, ◌+◌, ◌-◌, ◌*◌, ◌^◌, ◌<◌, ◌≤◌, ◌≡◌, ◌≢◌, refl, sym, ◌∙◌, ap, subst, ◌==◌, ltb, if◌then◌else◌,
  Bool-cases, inl, inr, Bool, true, false, length-set, get_or-set_self, get_or-set_ne, arith,
}
use osn_assignments.Fs.{Superblock, bblock, Blocks}
use osn_assignments.Fs.Scan.{used}
use osn_assignments.Fs.Bitmap.{Takes, balloc_lem}
use osn_assignments.Fs.Icache.{Dinode}
use osn_assignments.Fs.Content.{
  entry, set_entry, addr, Bmap, maps, no_block, with_block, bmap_indirect, bmap,
}
use osn_assignments.Fs.Content.Reading.{home}
use osn_assignments.Fs.Content.Entries.{entry-set_entry_self, entry-set_entry_ne, set_entry-other}
use osn_assignments.Fs.Content.Growing.{
  IsOwn, IsSafe, Marks, IsOwn-Marks, used-same, Takes-Marks, Takes-IsOwn, own_kept, not_zero,
  grown-IsSafe,
}
use osn_assignments.Fs.Content.Placing.{Placed, After, placed, direct-After}

-- The indirect block is `t`, and the file has the blocks that it had.
record Tabled (sb : Superblock) (ip : Dinode) (blocks : Blocks) (t : ℕ) (ip' : Dinode) (c : Blocks)
    : Type 0 where
  safe : IsSafe sb ip' c
  at : addr ip' 12 ≡ t
  there : t ≢ 0
  kept : (j : ℕ) → j < 140 → home ip' c j ≡ home ip blocks j
  held : (j : ℕ) → j < 140 → home ip blocks j ≢ 0 → c (home ip blocks j) ≡ blocks (home ip blocks j)
  fields : ip' ≡ record ip { addrs = ip'.addrs }

AfterTable : Superblock → Dinode → Blocks → Bmap → Type 0
AfterTable sb ip blocks no_block = Unit
AfterTable sb ip blocks (maps t ip' c) = Tabled sb ip blocks t ip' c

entry_zero : (f : ℕ → ℕ) (i : ℕ) → ((k : ℕ) → f k ≡ 0) → entry f i ≡ 0
entry_zero f i h = rw (h (4 * i), h (4 * i + 1), h (4 * i + 2), h (4 * i + 3)) refl

module _ (fuel : ℕ) (sb : Superblock) (enough : sb.size + 4096 ≤ 4096 * fuel) where
  -- The part behind the load of the indirect block.
  indirect-After :
      (ip : Dinode) (blocks : Blocks) (k t : ℕ)
      → IsSafe sb ip blocks
      → 12 ≤ k
      → k < 140
      → addr ip 12 ≡ t
      → t ≢ 0
      → After sb ip blocks k (bmap_indirect fuel sb (k - 12) (maps t ip blocks))
  unfolding After bmap_indirect
  indirect-After ip blocks k t s le lt at_t nz =
      elim (Bool-cases (entry (blocks t) (k - 12) == 0)) [
        | inr e ↦
            rw (e, bmap_indirect)
              (record {
                safe = s;
                at = indirect_home blocks k le;
                there = ground (arith, e);
                kept = λ j jl z. (refl, refl);
                fields = refl;
              })
        | inl e ↦ elim (balloc_lem sb blocks (λ y yl. (s.map y yl).1) fuel enough) [
          | inl (q, f) ↦ rw (e, bmap_indirect, q) tt
          | inr (x, c, q, g) ↦ rw (e, bmap_indirect, q) (takes e x c g)
        ]
      ]
    where
      indirect_home : (b : Blocks) (j : ℕ) → 12 ≤ j → home ip b j ≡ entry (b t) (j - 12)
      indirect_home b j lj =
          let l : ltb j 12 ≡ false = ground (arith, lj) in
          let z : (t == 0) ≡ false = ground (arith, nz) in rw (l, at_t, z) refl

      takes :
          (entry (blocks t) (k - 12) == 0) ≡ true
          → (x : ℕ) (c : Blocks) → Takes sb blocks x c
          → Placed sb ip blocks k x ip (set_entry c t (k - 12) x)
      takes e x c g =
          let own : IsOwn sb blocks t =
            subst (IsOwn sb blocks) at_t (s.table (λ w. nz (sym at_t ∙ w))) in
          let new = set_entry c t (k - 12) x in
          let empty : home ip blocks k ≡ 0 = indirect_home blocks k le ∙ ground (arith, e) in
          let small : x < 2 ^ 32 = omega (arith, g.in_range, s.words) in
          let at : home ip new k ≡ x =
            indirect_home new k le ∙ entry-set_entry_self c t (k - 12) x small in
          let marks1 = Takes-Marks sb ip blocks s x c g in
          let map_same : (y : ℕ) → y < sb.size → used sb new y ≡ used sb c y = λ y yl.
            used-same sb c new y
              (set_entry-other c t (bblock y sb) (k - 12) x (λ w. own.no_map y yl (sym w))) in
          let marks2 : Marks sb c new = (
            λ u w. u (sym (map_same 0 (omega (arith, own.in_range))) ∙ w),
            λ y yl u w. u (sym (map_same y yl) ∙ w),
          ) in
          let marks : Marks sb blocks new =
            (λ u. marks2.0 (marks1.0 u), λ y yl u. marks2.1 y yl (marks1.1 y yl u)) in
          let same : (j : ℕ) → j < 140 → home ip new j ≡ (if k == j then x else home ip blocks j) =
            λ j jl. elim (Bool-cases (k == j)) [
              | inl d ↦ let q : j ≡ k = ground (arith, d) in rw d (ap (home ip new) q ∙ at)
              | inr d ↦ elim (Bool-cases (ltb j 12)) [
                | inl m ↦ rw (d, m) refl
                | inr m ↦
                    let lj : 12 ≤ j = ground (arith, m) in
                    rw d (
                      indirect_home new j lj
                      ∙ entry-set_entry_ne c t (k - 12) (j - 12) x (ground (arith, d, le, lj))
                      ∙ ap (λ (f : ℕ → ℕ). entry f (j - 12)) (own_kept sb ip blocks s x t c g own).1
                      ∙ sym (indirect_home blocks j lj))
              ]
            ] in
          record {
            safe =
                grown-IsSafe sb ip blocks s ip new k x lt s.numbers marks same
                  (IsOwn-Marks sb c new x marks2 (Takes-IsOwn sb ip blocks s x c g)) g.was_free
                  refl;
            at = at;
            there = not_zero sb ip blocks s x c g;
            kept = λ j jl z. elim (Bool-cases (k == j)) [
              | inl d ↦
                  let q : j ≡ k = ground (arith, d) in absurd (z (ap (home ip blocks) q ∙ empty))
              | inr d ↦ (
                rw d at (same j jl),
                set_entry-other c t (home ip blocks j) (k - 12) x
                      (λ w. s.apart.no_table j jl z (sym w ∙ sym at_t))
                    ∙ (own_kept sb ip blocks s x (home ip blocks j) c g (s.homes j jl z)).1,
              )
            ];
            fields = refl;
          }

  table-AfterTable :
      (ip : Dinode) (blocks : Blocks)
      → IsSafe sb ip blocks
      → AfterTable sb ip blocks (with_block fuel sb ip 12 blocks)
  unfolding AfterTable with_block
  table-AfterTable ip blocks s = elim (Bool-cases (addr ip 12 == 0)) [
    | inr e ↦
        rw (e, with_block)
          (record {
            safe = s;
            at = refl;
            there = ground (arith, e);
            kept = λ j jl. refl;
            held = λ j jl z. refl;
            fields = refl;
          })
    | inl e ↦ elim (balloc_lem sb blocks (λ y yl. (s.map y yl).1) fuel enough) [
      | inl (q, f) ↦ rw (e, with_block, q) tt
      | inr (x, c, q, g) ↦ rw (e, with_block, q) (takes e x c g)
    ]
  ]
    where
      takes :
          (addr ip 12 == 0) ≡ true
          → (x : ℕ) (c : Blocks) → Takes sb blocks x c
          → Tabled sb ip blocks x (placed ip 12 x) c
      takes e x c g =
          let nz = not_zero sb ip blocks s x c g in
          let xz : (x == 0) ≡ false = ground (arith, nz) in
          let at : addr (placed ip 12 x) 12 ≡ x =
            get_or-set_self ip.addrs 12 x 0 (omega (arith, s.numbers)) in
          let kept : (j : ℕ) → j < 140 → home (placed ip 12 x) c j ≡ home ip blocks j = λ j jl.
            elim (Bool-cases (ltb j 12)) [
              | inl m ↦ rw m (get_or-set_ne ip.addrs 12 j x 0 (ground (arith, m)))
              | inr m ↦ rw (m, at, xz, e) (entry_zero (c x) (j - 12) g.zeroed)
            ] in
          let marks = Takes-Marks sb ip blocks s x c g in
          let olds : (j : ℕ) → j < 140 → home ip blocks j ≢ 0 → IsOwn sb c (home ip blocks j) =
            λ j jl z. IsOwn-Marks sb blocks c (home ip blocks j) marks (s.homes j jl z) in
          record {
            safe = record {
              numbers = length-set ip.addrs 12 x ∙ s.numbers;
              apart = record {
                once = λ j l jl ll z q.
                    s.apart.once j l jl ll (λ w. z (kept j jl ∙ w))
                      (sym (kept j jl) ∙ q ∙ kept l ll);
                no_table = λ j jl z q.
                    (own_kept sb ip blocks s x (home ip blocks j) c g
                        (s.homes j jl (λ w. z (kept j jl ∙ w)))).0
                      (sym (kept j jl) ∙ q ∙ at);
              };
              homes = λ j jl z.
                  subst (IsOwn sb c) (sym (kept j jl)) (olds j jl (λ w. z (kept j jl ∙ w)));
              table = λ z. subst (IsOwn sb c) (sym at) (Takes-IsOwn sb ip blocks s x c g);
              map = λ y yl. let (a, b) = s.map y yl in (a, marks.1 (bblock y sb) a b);
              boot = marks.0 s.boot;
              words = s.words;
            };
            at = at;
            there = nz;
            kept = kept;
            held = λ j jl z. (own_kept sb ip blocks s x (home ip blocks j) c g (s.homes j jl z)).1;
            fields = refl;
          }

  Placed-Tabled :
      (ip ip1 ip' : Dinode) (blocks b1 c : Blocks) (k t b : ℕ)
      → Tabled sb ip blocks t ip1 b1
      → Placed sb ip1 b1 k b ip' c
      → Placed sb ip blocks k b ip' c
  Placed-Tabled ip ip1 ip' blocks b1 c k t b a p = record {
    safe = p.safe;
    at = p.at;
    there = p.there;
    kept = λ j jl z.
        let e = a.kept j jl in
        let (q, r) = p.kept j jl (λ w. z (sym e ∙ w)) in
        (q ∙ e, ap c (sym e) ∙ r ∙ ap b1 e ∙ a.held j jl z);
    fields = p.fields ∙ ap (λ (i : Dinode). record i { addrs = ip'.addrs }) a.fields;
  }

  -- Where an inode and the free map agree, and with fuel for the map: if bmap gives a block for block `k`
  -- of the file, allocated now or before, then it is not 0 and stands at place `k` of the inode, the
  -- blocks that the file had before stand where they stood and hold what they held, the inode and the map
  -- agree, and no field of the inode but its numbers has changed.
  pub bmap-Placed :
      (ip ip' : Dinode) (blocks c : Blocks) (k b : ℕ)
      → IsSafe sb ip blocks
      → k < 140
      → bmap fuel sb ip k blocks ≡ maps b ip' c
      → Placed sb ip blocks k b ip' c
  unfolding After AfterTable bmap bmap_indirect
  bmap-Placed ip ip' blocks c k b s lt h = subst (After sb ip blocks k) h (all (ltb k 12) refl)
    where
      behind :
          12 ≤ k
          → (r : Bmap) → AfterTable sb ip blocks r
          → After sb ip blocks k (bmap_indirect fuel sb (k - 12) r)
      behind le no_block a = tt
      behind le (maps t i1 b1) a =
          wrap (bmap_indirect fuel sb (k - 12) (maps t i1 b1))
            (indirect-After i1 b1 k t a.safe le lt a.at a.there)
        where
          wrap : (r : Bmap) → After sb i1 b1 k r → After sb ip blocks k r
          wrap no_block p = tt
          wrap (maps b' i' c') p = Placed-Tabled ip i1 i' blocks b1 c' k t b' a p

      all : (t : Bool) → ltb k 12 ≡ t → After sb ip blocks k (bmap fuel sb ip k blocks)
      all true e = rw (bmap, e) (direct-After fuel sb enough ip blocks k s (ground (arith, e)))
      all false e =
          let m : ltb (k - 12) 128 ≡ true = ground (arith, lt, e) in
          rw (bmap, e, m)
            (behind (ground (arith, e)) (with_block fuel sb ip 12 blocks)
              (table-AfterTable ip blocks s))
