-- ===== src/Fs/Transfer/Chunks.antt =====
-- filewrite of xv6 modified/file.c writes its bytes chunk by chunk as writei would in one piece.
use osn_assignments.Base.{
  ℕ, zero, suc, ◌+◌, ◌*◌, ◌/◌, ◌<◌, ◌≤◌, ◌≡◌, ◌≢◌, refl, sym, ◌∙◌, ap, ◌⊎◌, inl, inr, ltb, min,
  Bool-cases, true, some, List, [], ◌∷◌, length, take, drop, arith,
}
use osn_assignments.File.{File, fd_inode}
use osn_assignments.Fs.{Superblock, Blocks}
use osn_assignments.Fs.Icache.{Dinode}
use osn_assignments.Fs.Content.{writei, t_dev, Ended, ends}
use osn_assignments.Fs.Content.Reading.{home, byte_at, IsThere}
use osn_assignments.Fs.Content.Writing.{patched-patched, length-take, length-drop}
use osn_assignments.Fs.Content.Growing.{IsSafe}
use osn_assignments.Fs.Content.Filled.{Filled, Filled-nil, patched-same, patched-behind}
use osn_assignments.Fs.Content.Outcomes.{
  reached, WriteiSpec, refuses, panics, writes, writei-WriteiSpec,
}
use osn_assignments.Fs.Transfer.{Io, panicked, moved, write_chunks, filewrite}

-- The inode with another size.
abbrev pub sized : Dinode → ℕ → Dinode
sized ip s = record ip { size = s }

sized-IsSafe :
    (sb : Superblock) (ip : Dinode) (blocks : Blocks) (n : ℕ)
    → IsSafe sb ip blocks
    → IsSafe sb (sized ip n) blocks
sized-IsSafe sb ip blocks n s = record {
  numbers = s.numbers;
  apart = record { once = s.apart.once; no_table = s.apart.no_table };
  homes = s.homes;
  table = s.table;
  map = s.map;
  boot = s.boot;
  words = s.words;
}

-- Two writes, one behind the other, are one.
Filled-Filled :
    (sb : Superblock) (ip i i2 : Dinode) (blocks c c2 : Blocks) (off n s : ℕ) (l : List ℕ)
    → n ≤ length l
    → Filled sb ip blocks i c off (take n l)
    → Filled sb (sized i s) c i2 c2 (off + n) (drop n l)
    → Filled sb ip blocks (sized i2 ip.size) c2 off l
Filled-Filled sb ip i i2 blocks c c2 off n s l nl f g =
    let lt = length-take n l nl in
    let ld = length-drop n l in
    let old = byte_at ip blocks in
    let mid = byte_at i c in
    record {
      safe = sized-IsSafe sb i2 c2 ip.size g.safe;
      held = λ o ol x. elim x [
        | inl z ↦ g.held o ol (inl (f.held o ol (inl z)))
        | inr (a, d) ↦ elim (Bool-cases (ltb o (off + n))) [
          | inl e ↦
              let u : o < off + n = ground (arith, e) in
              g.held o ol (inl (f.held o ol (inr (a, omega (arith, lt)))))
          | inr e ↦ g.held o ol (inr (ground (arith, e), omega (arith, ld, nl)))
        ]
      ];
      bytes = λ o ol x. elim x [
        | inl z ↦
            g.bytes o ol (inl (f.held o ol (inl z)))
            ∙ patched-patched old mid off n o l nl (f.bytes o ol (inl z))
        | inr (a, d) ↦ elim (Bool-cases (ltb o (off + n))) [
          | inl e ↦
              let u : o < off + n = ground (arith, e) in
              let v : o < off + length (take n l) = omega (arith, lt) in
              g.bytes o ol (inl (f.held o ol (inr (a, v))))
              ∙ patched-patched old mid off n o l nl (f.bytes o ol (inr (a, v)))
          | inr e ↦
              let u : off + n ≤ o = ground (arith, e) in
              g.bytes o ol (inr (u, omega (arith, ld, nl)))
              ∙ patched-patched mid mid off n o l nl (patched-behind mid off n o (take n l) lt u)
              ∙ patched-same mid old off o l (inr (a, d))
        ]
      ];
      fields =
          ap (λ (j : Dinode). record j { size = ip.size }) g.fields
          ∙ ap (λ (j : Dinode). record j { addrs = i2.addrs; size = ip.size }) f.fields;
    }

reached-reached : (s a b : ℕ) → a ≤ b → reached (reached s a) b ≡ reached s b
reached-reached s a b le = ground (arith, le)

reached-bounds :
    (s e : ℕ)
    → (s ≤ reached s e) × (e ≤ reached s e) × (s ≤ 71680 → e ≤ 71680 → reached s e ≤ 71680)
reached-bounds s e = elim (Bool-cases (ltb s e)) [
  | inl b ↦ rw b (ground (arith, b), omega arith, λ x y. y)
  | inr b ↦ rw b (omega arith, ground (arith, b), λ x y. x)
]

-- The two ends of a write within the largest size, given as the outcome of a loop.
abbrev pub Chunked : Superblock → Dinode → Blocks → ℕ → List ℕ → Io → Type 0
Chunked sb ip blocks off l r =
    ((r ≡ panicked) × ¬ IsThere ip blocks off (off + length l))
    ⊎ ((i : Dinode) × (c : Blocks) × (r
          ≡ moved [] (sized i (reached ip.size (off + length l))) c (off + length l))
        × Filled sb ip blocks i c off l)

module _ (fuel : ℕ) (sb : Superblock) (enough : sb.size + 4096 ≤ 4096 * fuel) where
  -- A chunk that is written, and what the rest does.
  chunk-Chunked :
      (ip i : Dinode) (blocks c : Blocks) (off n : ℕ) (l : List ℕ) (r : Io)
      → n ≤ length l
      → off + length l ≤ 71680
      → Filled sb ip blocks i c off (take n l)
      → Chunked sb (sized i (reached ip.size (off + n))) c (off + n) (drop n l) r
      → Chunked sb ip blocks off l r
  chunk-Chunked ip i blocks c off n l r nl top f (inl (p, none_there)) = inl (
    p,
    λ h. none_there (λ k a b.
        let ld = length-drop n l in
        let (kl, z) = h k (omega arith) (omega (arith, ld, nl)) in
        let q : 512 * k / 512 ≡ k = omega arith in
        (
          kl,
          λ w.
              f.held (512 * k) (omega arith) (inl (λ v. z (ap (home ip blocks) (sym q) ∙ v)))
                (ap (home i c) q ∙ w),
        )),
  )
  chunk-Chunked ip i blocks c off n l r nl top f (inr (i2, c2, p, g)) =
      let ld = length-drop n l in
      let end : off + n + length (drop n l) ≡ off + length l = omega (arith, ld, nl) in
      let size : reached (reached ip.size (off + n)) (off + n + length (drop n l))
          ≡ reached ip.size (off + length l) =
        ap (reached (reached ip.size (off + n))) end
        ∙ reached-reached ip.size (off + n) (off + length l) (omega (arith, nl)) in
      inr (
        sized i2 ip.size,
        c2,
        p
            ∙ ap (λ k. moved [] (sized i2 k) c2 (off + n + length (drop n l))) size
            ∙ ap (λ k. moved [] (sized i2 (reached ip.size (off + length l))) c2 k) end,
        Filled-Filled sb ip i i2 blocks c c2 off n (reached ip.size (off + n)) l nl f g,
      )

  write_chunks-Chunked :
      (rounds : ℕ) (ip : Dinode) (blocks : Blocks) (off : ℕ) (l : List ℕ)
      → length l ≤ rounds
      → ip.kind ≢ t_dev
      → ip.size ≤ 71680
      → off ≤ ip.size
      → off + length l ≤ 71680
      → IsSafe sb ip blocks
      → Chunked sb ip blocks off l (write_chunks rounds fuel sb ip blocks off l)
  unfolding write_chunks
  write_chunks-Chunked rounds ip blocks off [] le file small o fits s =
      let z : off + 0 ≡ off = omega arith in
      let e : reached ip.size off ≡ ip.size = ground (arith, o) in
      inr (ip, blocks, rw (z, e) refl, Filled-nil sb ip blocks off s)
  write_chunks-Chunked zero ip blocks off (x ∷ src) le file small o fits s = absurd (omega arith)
  write_chunks-Chunked (suc rounds) ip blocks off (x ∷ src) le file small o fits s =
      go (λ i1 b1 o1 l1. write_chunks-Chunked rounds i1 b1 o1 l1)
        (writei-WriteiSpec fuel sb ip blocks off (take (min (length (x ∷ src)) 1536) (x ∷ src))
          enough file small
          (omega (arith, length-take (min (length (x ∷ src)) 1536) (x ∷ src) (omega arith))) s)
    where
      l : List ℕ
      l = x ∷ src

      n : ℕ
      n = min (length l) 1536

      go :
          ((i1 : Dinode) (b1 : Blocks) (o1 : ℕ) (l1 : List ℕ)
            → length l1 ≤ rounds
            → i1.kind ≢ t_dev
            → i1.size ≤ 71680
            → o1 ≤ i1.size
            → o1 + length l1 ≤ 71680
            → IsSafe sb i1 b1
            → Chunked sb i1 b1 o1 l1 (write_chunks rounds fuel sb i1 b1 o1 l1))
          → WriteiSpec fuel sb ip blocks off (take n l)
          → Chunked sb ip blocks off l (write_chunks (suc rounds) fuel sb ip blocks off l)
      go ih (refuses (inl a) e) = absurd (omega arith)
      go ih (refuses (inr a) e) =
          let lt = length-take n l (omega arith) in absurd (omega (arith, lt))
      go ih (panics a b none_there e) =
          let lt = length-take n l (omega arith) in
          inl (rw (e, write_chunks) refl, λ h. none_there (λ k p q. h k p (omega (arith, lt))))
      go ih (writes a b i c f e) =
          let sizes : (n ≤ length l) × (1 ≤ n) = ground arith in
          let lt = length-take n l sizes.0 in
          let ld = length-drop n l in
          let t = reached-bounds ip.size (off + n) in
          let kind : i.kind ≡ ip.kind = ap (λ (j : Dinode). j.kind) f.fields in
          let now = sized i (reached ip.size (off + n)) in
          let e' : writei fuel sb ip blocks off (take n l) ≡ ends (some (now, c)) =
            e ∙ ap (λ k. ended (sized i (reached ip.size (off + k))) c) lt in
          let r =
            ih now c (off + n) (drop n l) (omega (arith, ld, sizes)) (omega (arith, kind, file))
              (t.2 small (omega (arith, sizes))) t.1 (omega (arith, ld, sizes))
              (sized-IsSafe sb i c (reached ip.size (off + n)) f.safe) in
          rw (e', write_chunks)
            (chunk-Chunked ip i blocks c off n l
              (write_chunks rounds fuel sb now c (off + n) (drop n l)) sizes.0 fits f r)
        where
          ended : Dinode → Blocks → Ended (Dinode × Blocks)
          ended j k = ends (some (j, k))

-- filewrite of a file open for writing on an inode that is no device and agrees with the free map, from
-- an offset within it, where the result is not above the largest size, and with fuel for the map: for
-- any number of chunks, all the bytes are at the offset afterwards, on blocks that the file had and on
-- blocks allocated for them, no other byte of the blocks that the file had has changed, `f->off` is
-- behind them, and the size is the end of the range if that is greater; or it panics, which it does
-- only if some block of the range was not there before.
pub filewrite_lem :
    (fuel : ℕ) (sb : Superblock) (f : File) (ip : Dinode) (blocks : Blocks) (l : List ℕ)
    → sb.size + 4096 ≤ 4096 * fuel
    → f.writable ≡ true
    → f.kind ≡ fd_inode
    → ip.kind ≢ t_dev
    → ip.size ≤ 71680
    → f.off ≤ ip.size
    → f.off + length l ≤ 71680
    → IsSafe sb ip blocks
    → Chunked sb ip blocks f.off l (filewrite fuel sb f ip blocks l)
unfolding filewrite
filewrite_lem fuel sb f ip blocks l enough writable inode file small o fits s =
    rw (writable, filewrite, inode)
      (write_chunks-Chunked fuel sb enough (length l) ip blocks f.off l (omega arith) file small o
        fits s)
