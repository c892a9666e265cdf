-- ===== src/Fs/Content/Roundtrip.antt =====
-- readi of xv6 modified/fs.c gives back what writei has written.
use osn_assignments.Base.{
  ℕ, zero, suc, ◌+◌, ◌-◌, ◌*◌, ◌/◌, ◌%◌, ◌^◌, ◌<◌, ◌≤◌, ◌≡◌, ◌≢◌, refl, sym, ◌∙◌, ap, subst, ◌==◌,
  ltb, leb, Bool-cases, inl, inr, true, false, Option, Option-cases, none, some, List, [], ◌∷◌,
  get_or, length, tab, arith,
}
use osn_assignments.Fs.{Superblock, Blocks}
use osn_assignments.Fs.Icache.{Dinode}
use osn_assignments.Fs.Content.{
  readi_loop, writei_loop, grown, writei, readi, t_dev, Ended, refused, ends,
}
use osn_assignments.Fs.Content.Reading.{home, byte_at, IsThere, tab-shift, readi_loop_lem}
use osn_assignments.Fs.Content.Writing.{patched}
use osn_assignments.Fs.Content.Growing.{IsSafe}
use osn_assignments.Fs.Content.Filled.{Filled, writei_loop-Filled}

tab-patched : (f : ℕ → ℕ) (off : ℕ) (l : List ℕ) → tab (patched off l f) off (length l) ≡ l
tab-patched f off l =
    tab-shift (patched off l f) (λ j. get_or l j 0) off 0 (length l) in_list ∙ all l
  where
    in_list : (j : ℕ) → j < length l → patched off l f (off + j) ≡ get_or l (0 + j) 0
    in_list j lt =
        let q : off + j - off ≡ 0 + j = omega arith in
        let a : leb off (off + j) ≡ true = ground arith in
        let b : ltb (off + j) (off + length l) ≡ true = ground (arith, lt) in rw (a, b, q) refl

    all : (k : List ℕ) → tab (λ j. get_or k j 0) 0 (length k) ≡ k
    all [] = refl
    all (x ∷ k) =
        ap (λ r. x ∷ r)
          (tab-shift (λ j. get_or (x ∷ k) j 0) (λ j. get_or k j 0) 1 0 (length k)
              (λ j lt.
                let e : 1 + j ≡ suc j = omega arith in
                let d : 0 + j ≡ j = omega arith in rw (e, d) refl)
            ∙ all k)

-- readi of bytes that are there.
read_there :
    (fuel : ℕ) (sb : Superblock) (ip : Dinode) (blocks : Blocks) (off n : ℕ)
    → ip.kind ≢ t_dev
    → off + n ≤ 71680
    → off + n ≤ ip.size
    → (1 ≤ n → IsThere ip blocks off (off + n))
    → readi fuel sb ip blocks off n ≡ ends (some (tab (byte_at ip blocks) off n, ip, blocks))
unfolding readi readi_loop
read_there fuel sb ip blocks off n file small fits h =
    let kd : (ip.kind == 3) ≡ false = ground (arith, file) in
    let e : ltb ip.size off ≡ false = ground (arith, fits) in
    let m : (off + n) % 2 ^ 32 ≡ off + n = omega arith in
    let f : ltb (off + n) off ≡ false = ground arith in
    let g : ltb ip.size (off + n) ≡ false = ground (arith, fits) in
    rw (kd, readi, e, m, f, g) (ap ends (loop n refl))
  where
    loop :
        (k : ℕ)
        → n ≡ k
        → readi_loop k fuel sb ip blocks off k ≡ some (tab (byte_at ip blocks) off k, ip, blocks)
    loop zero q = refl
    loop (suc k) q =
        readi_loop_lem (suc k) fuel sb ip blocks off (suc k) (omega arith)
          (subst (λ j. IsThere ip blocks off (off + j)) q (h (omega arith)))

-- What writei has done if it has come to its end.
record Ran (fuel : ℕ) (sb : Superblock) (ip : Dinode) (blocks : Blocks) (off : ℕ) (l : List ℕ)
    (ip' : Dinode) (c : Blocks) : Type 0 where
  starts : off ≤ ip.size
  fits : off + length l ≤ 71680
  inner : Dinode
  end : ℕ
  loop : writei_loop (length l) fuel sb ip blocks off l ≡ some (inner, c, end)
  last : grown (length l) inner end ≡ ip'

writei-Ran :
    (fuel : ℕ) (sb : Superblock) (ip ip' : Dinode) (blocks c : Blocks) (off : ℕ) (l : List ℕ)
    → ip.kind ≢ t_dev
    → length l < 2 ^ 32
    → writei fuel sb ip blocks off l ≡ ends (some (ip', c))
    → Ran fuel sb ip blocks off l ip' c
unfolding writei
writei-Ran fuel sb ip ip' blocks c off l file word h =
    let kd : (ip.kind == 3) ≡ false = ground (arith, file) in
    elim (Bool-cases (ltb ip.size off)) [
      | inl e ↦ absurd (clash (rw (kd, writei, e) at h))
      | inr e ↦ elim (Bool-cases (ltb ((off + length l) % 2 ^ 32) off)) [
        | inl f ↦ absurd (clash (rw (kd, writei, e, f) at h))
        | inr f ↦ elim (Bool-cases (ltb 71680 ((off + length l) % 2 ^ 32))) [
          | inl g ↦ absurd (clash (rw (kd, writei, e, f, g) at h))
          | inr g ↦
              let le : off ≤ ip.size = ground (arith, e) in
              let a : off ≤ (off + length l) % 2 ^ 32 = ground (arith, f) in
              let d : (off + length l) % 2 ^ 32 ≤ 71680 = ground (arith, g) in
              let top : off + length l ≤ 71680 = omega arith in
              elim (Option-cases (writei_loop (length l) fuel sb ip blocks off l)) [
                | inl q ↦ absurd (stuck (rw (kd, writei, e, f, g, q) at h))
                | inr ((i1, c1, k), q) ↦
                    let r : ended (grown (length l) i1 k) c1 ≡ ended ip' c =
                      rw (kd, writei, e, f, g, q) at h in
                    let ri : grown (length l) i1 k ≡ ip' = cc in
                    let rc : c1 ≡ c = cc in
                    record {
                      starts = le;
                      fits = top;
                      inner = i1;
                      end = k;
                      loop = q ∙ ap (λ b. out i1 b k) rc;
                      last = ri;
                    }
              ]
        ]
      ]
    ]
  where
    ended : Dinode → Blocks → Ended (Dinode × Blocks)
    ended i b = ends (some (i, b))

    out : Dinode → Blocks → ℕ → Option (Dinode × Blocks × ℕ)
    out i b k = some (i, b, k)

    panic : Ended (Dinode × Blocks)
    panic = ends none

    clash : refused ≡ ended ip' c → ⊥
    clash q = cc

    stuck : panic ≡ ended ip' c → ⊥
    stuck q = cc

module _ (sb : Superblock) (ip ip' : Dinode) (blocks c : Blocks) (off : ℕ) (l : List ℕ)
    (f : Filled sb ip blocks ip' c off l) (top : off + length l ≤ 71680) where
  filled-IsThere : 1 ≤ length l → IsThere ip' c off (off + length l)
  filled-IsThere one k a b = (
    omega arith,
    elim (Bool-cases (leb off (512 * k))) [
      | inl e ↦
          let le : off ≤ 512 * k = ground (arith, e) in
          let q : 512 * k / 512 ≡ k = omega arith in
          λ z. f.held (512 * k) (omega arith) (inr (le, b)) (ap (home ip' c) q ∙ z)
      | inr e ↦
          let lt : 512 * k < off = ground (arith, e) in
          let q : off / 512 ≡ k = omega arith in
          λ z. f.held off (omega arith) (inr (omega arith, omega arith)) (ap (home ip' c) q ∙ z)
    ],
  )

  filled-bytes : tab (byte_at ip' c) off (length l) ≡ l
  filled-bytes =
      tab-shift (byte_at ip' c) (patched off l (byte_at ip blocks)) off off (length l)
        (λ j lt. f.bytes (off + j) (omega arith) (inr (omega arith, omega arith)))
      ∙ tab-patched (byte_at ip blocks) off l

grown-cases :
    (n : ℕ) (ip : Dinode) (off : ℕ)
    → off ≤ ip.size
    → (s : ℕ) × (grown n ip (off + n) ≡ record ip { size = s }) × (off + n ≤ s)
grown-cases n ip off le = elim (Bool-cases (ltb 0 n)) [
  | inr e ↦ rw e (ip.size, refl, ground (arith, e, le))
  | inl e ↦ elim (Bool-cases (ltb ip.size (off + n))) [
    | inl d ↦ rw (e, d) (off + n, refl, omega arith)
    | inr d ↦ rw (e, d) (ip.size, refl, ground (arith, d))
  ]
]

-- For an inode that is no device and that agrees with the free map, and with fuel for the map: what
-- writei has put into the file, on blocks that it had and on blocks that writei allocated, readi gives
-- back from the same offset, and changes nothing.
pub readi-writei :
    (fuel : ℕ) (sb : Superblock) (ip ip' : Dinode) (blocks blocks' : Blocks) (off : ℕ) (l : List ℕ)
    → sb.size + 4096 ≤ 4096 * fuel
    → ip.kind ≢ t_dev
    → length l < 2 ^ 32
    → IsSafe sb ip blocks
    → writei fuel sb ip blocks off l ≡ ends (some (ip', blocks'))
    → readi fuel sb ip' blocks' off (length l) ≡ ends (some (l, ip', blocks'))
readi-writei fuel sb ip ip' blocks blocks' off l enough file word s h =
    let r = writei-Ran fuel sb ip ip' blocks blocks' off l file word h in
    let i1 = r.inner in
    let (e, f) =
      writei_loop-Filled fuel sb enough (length l) ip i1 blocks blocks' off r.end l r.fits s
        r.loop in
    let same : i1.size ≡ ip.size = ap (λ i. i.size) f.fields in
    let kind : i1.kind ≡ ip.kind = ap (λ i. i.kind) f.fields in
    let (size, g, reach) = grown-cases (length l) i1 off (omega (arith, same, r.starts)) in
    let q : record i1 { size = size } ≡ ip' = sym g ∙ ap (grown (length l) i1) (sym e) ∙ r.last in
    subst (λ i. reads i) q
      (read_there fuel sb (record i1 { size = size }) blocks' off (length l)
          (omega (arith, kind, file)) r.fits reach
          (filled-IsThere sb ip i1 blocks blocks' off l f r.fits)
        ∙ ap (λ k. ended (record i1 { size = size }) k)
            (filled-bytes sb ip i1 blocks blocks' off l f r.fits))
  where
    ended : Dinode → List ℕ → Ended (List ℕ × Dinode × Blocks)
    ended i k = ends (some (k, i, blocks'))

    reads : Dinode → Type 0
    reads i = readi fuel sb i blocks' off (length l) ≡ ends (some (l, i, blocks'))
