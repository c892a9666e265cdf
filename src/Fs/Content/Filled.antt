-- ===== src/Fs/Content/Filled.antt =====
-- The loop of writei of xv6 modified/fs.c on blocks that are there and on blocks that it allocates.
use osn_assignments.Base.{
  ℕ, zero, suc, ◌+◌, ◌-◌, ◌*◌, ◌/◌, ◌%◌, ◌<◌, ◌≤◌, ◌≡◌, ◌≢◌, refl, sym, ◌∙◌, ap, subst, ◌⊎◌, ltb,
  min, Bool-cases, inl, inr, Option, none, some, List, [], ◌∷◌, length, take, drop, arith,
}
use osn_assignments.Fs.{Superblock, bblock, Blocks}
use osn_assignments.Fs.Scan.{used}
use osn_assignments.Fs.Icache.{Dinode}
use osn_assignments.Fs.Content.{addr, Bmap, maps, no_block, bmap, put_bytes, writei_loop}
use osn_assignments.Fs.Content.Reading.{home, byte_at}
use osn_assignments.Fs.Content.Writing.{
  patched, chunk, put_bytes-other, home-put_bytes, patched-patched, length-take, length-drop,
}
use osn_assignments.Fs.Content.Written.{IsApart-kept}
use osn_assignments.Fs.Content.Growing.{IsOwn, IsSafe, Marks, IsOwn-Marks, used-same}
use osn_assignments.Fs.Content.Placing.{Placed}
use osn_assignments.Fs.Content.Allocating.{bmap-Placed}

-- A byte of a block that the file has, or of the range that is written.
abbrev pub IsHeld : Dinode → Blocks → ℕ → List ℕ → ℕ → Type 0
IsHeld ip blocks off l o = (home ip blocks (o / 512) ≢ 0) ⊎ ((off ≤ o) × (o < off + length l))

-- What writing the list at `off` has done to the file.
pub record Filled (sb : Superblock) (ip : Dinode) (blocks : Blocks) (ip' : Dinode) (c : Blocks)
    (off : ℕ) (l : List ℕ) : Type 0 where
  pub safe : IsSafe sb ip' c
  pub held : (o : ℕ) → o < 71680 → IsHeld ip blocks off l o → home ip' c (o / 512) ≢ 0
  pub bytes :
      (o : ℕ)
      → o < 71680
      → IsHeld ip blocks off l o
      → byte_at ip' c o ≡ patched off l (byte_at ip blocks) o
  pub fields : ip' ≡ record ip { addrs = ip'.addrs }

pub patched-same :
    (f g : ℕ → ℕ) (off o : ℕ) (l : List ℕ)
    → (f o ≡ g o) ⊎ ((off ≤ o) × (o < off + length l))
    → patched off l f o ≡ patched off l g o
patched-same f g off o l (inl e) = ground (arith, e)
patched-same f g off o l (inr (a, b)) = ground (arith, a, b)

pub patched-behind :
    (g : ℕ → ℕ) (off m o : ℕ) (l : List ℕ) → length l ≡ m → off + m ≤ o → g o ≡ patched off l g o
patched-behind g off m o l e h = ground (arith, e, h)

pub Filled-nil :
    (sb : Superblock) (ip : Dinode) (blocks : Blocks) (off : ℕ)
    → IsSafe sb ip blocks
    → Filled sb ip blocks ip blocks off []
Filled-nil sb ip blocks off s = record {
  safe = s;
  held = λ o ol x. elim x [ inl z ↦ z | inr (a, d) ↦ absurd (omega arith) ];
  bytes = λ o ol x. ground arith;
  fields = refl;
}

-- Bytes put into a block of the file.
put_bytes-IsSafe :
    (sb : Superblock) (ip : Dinode) (blocks : Blocks) (k i : ℕ) (l : List ℕ)
    → IsSafe sb ip blocks
    → k < 140
    → home ip blocks k ≢ 0
    → IsSafe sb ip (put_bytes blocks (home ip blocks k) i l)
put_bytes-IsSafe sb ip blocks k i l s lt nz =
    let b = home ip blocks k in
    let c = put_bytes blocks b i l in
    let own = s.homes k lt nz in
    let homes : (j : ℕ) → home ip c j ≡ home ip blocks j =
      λ j. home-put_bytes ip blocks b i l j (s.apart.no_table k lt nz) in
    let map_same : (y : ℕ) → y < sb.size → used sb c y ≡ used sb blocks y = λ y yl.
      used-same sb blocks c y
        (put_bytes-other blocks b (bblock y sb) i l (λ w. own.no_map y yl (sym w))) in
    let marks : Marks sb blocks c = (
      λ u w. u (sym (map_same 0 (omega (arith, own.in_range))) ∙ w),
      λ y yl u w. u (sym (map_same y yl) ∙ w),
    ) in
    record {
      numbers = s.numbers;
      apart = IsApart-kept ip blocks c homes s.apart;
      homes = λ j jl z.
          subst (IsOwn sb c) (sym (homes j)) (
            IsOwn-Marks sb blocks c (home ip blocks j) marks (s.homes j jl (λ w. z (homes j ∙ w))));
      table = λ z. IsOwn-Marks sb blocks c (addr ip 12) marks (s.table z);
      map = λ y yl. let (p, q) = s.map y yl in (p, marks.1 (bblock y sb) p q);
      boot = marks.0 s.boot;
      words = s.words;
    }

Placed-byte :
    (sb : Superblock) (ip ip1 : Dinode) (blocks b1 : Blocks) (k b o : ℕ)
    → Placed sb ip blocks k b ip1 b1
    → o < 71680
    → home ip blocks (o / 512) ≢ 0
    → byte_at ip1 b1 o ≡ byte_at ip blocks o
Placed-byte sb ip ip1 blocks b1 k b o p lt z =
    let (e, r) = p.kept (o / 512) (omega arith) z in
    ap (λ h. b1 h (o % 512)) e ∙ ap (λ (f : ℕ → ℕ). f (o % 512)) r

module _ (fuel : ℕ) (sb : Superblock) (enough : sb.size + 4096 ≤ 4096 * fuel) where
  -- One round, and what the rounds after it do.
  round-Filled :
      (ip ip1 ip' : Dinode) (blocks b1 c : Blocks) (off m b : ℕ) (l : List ℕ)
      → m ≤ length l
      → m + off % 512 ≤ 512
      → off + length l ≤ 71680
      → 1 ≤ m
      → Placed sb ip blocks (off / 512) b ip1 b1
      → Filled sb ip1 (put_bytes b1 b (off % 512) (take m l)) ip' c (off + m) (drop m l)
      → Filled sb ip blocks ip' c off l
  round-Filled ip ip1 ip' blocks b1 c off m b l ml fit top one p f =
      let k = off / 512 in
      let now = put_bytes b1 b (off % 512) (take m l) in
      let lt = length-take m l ml in
      let ld = length-drop m l in
      let kl : k < 140 = omega (arith, ml) in
      let s = p.safe in
      let nz : home ip1 b1 k ≢ 0 = λ w. p.there (sym p.at ∙ w) in
      let homes : (j : ℕ) → home ip1 now j ≡ home ip1 b1 j = λ j.
        home-put_bytes ip1 b1 b (off % 512) (take m l) j
          (λ w. s.apart.no_table k kl nz (p.at ∙ w)) in
      let stays : (o : ℕ) → o < 71680 → home ip blocks (o / 512) ≢ 0 → home ip1 now (o / 512) ≢ 0 =
        λ o ol z w. z (sym (p.kept (o / 512) (omega arith) z).0 ∙ sym (homes (o / 512)) ∙ w) in
      let first : (o : ℕ) → off ≤ o → o < off + m → home ip1 now (o / 512) ≢ 0 = λ o a d w.
        let q : o / 512 ≡ k = omega arith in
        nz (ap (home ip1 b1) (sym q) ∙ sym (homes (o / 512)) ∙ w) in
      let put : (o : ℕ)
          → o < 71680
          → byte_at ip1 now o ≡ patched off (take m l) (byte_at ip1 b1) o =
        λ o ol.
          subst
            (λ h.
              byte_at ip1 (put_bytes b1 h (off % 512) (take m l)) o
              ≡ patched off (take m l) (byte_at ip1 b1) o)
            p.at (chunk ip1 b1 off (take m l) o s.apart kl nz (omega (arith, lt)) ol) in
      let whole : (o : ℕ)
          → (byte_at ip1 now o ≡ patched off (take m l) (byte_at ip blocks) o)
          → byte_at ip' c o ≡ patched (off + m) (drop m l) (byte_at ip1 now) o
          → byte_at ip' c o ≡ patched off l (byte_at ip blocks) o =
        λ o g h. h ∙ patched-patched (byte_at ip blocks) (byte_at ip1 now) off m o l ml g in
      record {
        safe = f.safe;
        held = λ o ol x. elim x [
          | inl z ↦ f.held o ol (inl (stays o ol z))
          | inr (a, d) ↦ elim (Bool-cases (ltb o (off + m))) [
            | inl e ↦ f.held o ol (inl (first o a (ground (arith, e))))
            | inr e ↦ f.held o ol (inr (ground (arith, e), omega (arith, ld, ml)))
          ]
        ];
        bytes = λ o ol x. elim x [
          | inl z ↦
              whole o
                (put o ol
                  ∙ patched-same (byte_at ip1 b1) (byte_at ip blocks) off o (take m l)
                      (inl (Placed-byte sb ip ip1 blocks b1 k b o p ol z)))
                (f.bytes o ol (inl (stays o ol z)))
          | inr (a, d) ↦ elim (Bool-cases (ltb o (off + m))) [
            | inl e ↦
                let u : o < off + m = ground (arith, e) in
                whole o
                  (put o ol
                    ∙ patched-same (byte_at ip1 b1) (byte_at ip blocks) off o (take m l)
                        (inr (a, omega (arith, lt))))
                  (f.bytes o ol (inl (first o a u)))
            | inr e ↦
                let u : off + m ≤ o = ground (arith, e) in
                f.bytes o ol (inr (u, omega (arith, ld, ml)))
                ∙ patched-patched (byte_at ip1 now) (byte_at ip1 now) off m o l ml
                    (patched-behind (byte_at ip1 now) off m o (take m l) lt u)
                ∙ patched-same (byte_at ip1 now) (byte_at ip blocks) off o l (inr (a, d))
          ]
        ];
        fields = f.fields ∙ ap (λ (i : Dinode). record i { addrs = ip'.addrs }) p.fields;
      }

  pub writei_loop-Filled :
      (rounds : ℕ) (ip ip' : Dinode) (blocks c : Blocks) (off e : ℕ) (l : List ℕ)
      → off + length l ≤ 71680
      → IsSafe sb ip blocks
      → writei_loop rounds fuel sb ip blocks off l ≡ some (ip', c, e)
      → (e ≡ off + length l) × Filled sb ip blocks ip' c off l
  unfolding writei_loop
  writei_loop-Filled rounds ip ip' blocks c off e [] top s h =
      let qi : ip ≡ ip' = cc in
      let qc : blocks ≡ c = cc in
      let qe : off ≡ e = cc in
      (
        sym qe ∙ omega arith,
        subst (λ i. Filled sb ip blocks i c off []) qi
            (subst (λ b. Filled sb ip blocks ip b off []) qc (Filled-nil sb ip blocks off s)),
      )
  writei_loop-Filled zero ip ip' blocks c off e (x ∷ src) top s h = cc
  writei_loop-Filled (suc rounds) ip ip' blocks c off e (x ∷ src) top s h =
      go (λ i1 b1 o1 l1. writei_loop-Filled rounds i1 ip' b1 c o1 e l1)
        (bmap fuel sb ip (off / 512) blocks) refl
    where
      l : List ℕ
      l = x ∷ src

      m : ℕ
      m = min (length l) (512 - off % 512)

      go :
          ((i1 : Dinode) (b1 : Blocks) (o1 : ℕ) (l1 : List ℕ)
            → o1 + length l1 ≤ 71680
            → IsSafe sb i1 b1
            → writei_loop rounds fuel sb i1 b1 o1 l1 ≡ some (ip', c, e)
            → (e ≡ o1 + length l1) × Filled sb i1 b1 ip' c o1 l1)
          → (r : Bmap) → bmap fuel sb ip (off / 512) blocks ≡ r
          → (e ≡ off + length l) × Filled sb ip blocks ip' c off l
      go ih no_block q = absurd (clash (rw (q, writei_loop) at h))
        where
          outcome : Option (Dinode × Blocks × ℕ)
          outcome = some (ip', c, e)

          clash : none ≡ outcome → ⊥
          clash w = cc
      go ih (maps b i1 b1) q =
          let sizes : (m ≤ length l) × (1 ≤ m) × (m + off % 512 ≤ 512) = ground arith in
          let kl : off / 512 < 140 = omega (arith, sizes) in
          let p = bmap-Placed fuel sb enough ip i1 blocks b1 (off / 512) b s kl q in
          let nz : home i1 b1 (off / 512) ≢ 0 = λ w. p.there (sym p.at ∙ w) in
          let ld = length-drop m l in
          let safe : IsSafe sb i1 (put_bytes b1 b (off % 512) (take m l)) =
            subst (λ h. IsSafe sb i1 (put_bytes b1 h (off % 512) (take m l))) p.at
              (put_bytes-IsSafe sb i1 b1 (off / 512) (off % 512) (take m l) p.safe kl nz) in
          let (u, f) =
            ih i1 (put_bytes b1 b (off % 512) (take m l)) (off + m) (drop m l)
              (omega (arith, ld, sizes)) safe (rw (q, writei_loop) at h) in
          (
            u ∙ omega (arith, ld, sizes),
            round-Filled ip i1 ip' blocks b1 c off m b l sizes.0 sizes.2 top sizes.1 p f,
          )
