-- ===== src/Fs/Content/Written.antt =====
-- The whole of writei of xv6 modified/fs.c.
use osn_assignments.Base.{
  ℕ, zero, suc, ◌+◌, ◌-◌, ◌/◌, ◌%◌, ◌^◌, ◌<◌, ◌≤◌, ◌≡◌, ◌≢◌, ◌==◌, refl, sym, ◌∙◌, ap, ◌⊎◌, ltb,
  min, if◌then◌else◌, Bool-cases, inl, inr, false, Option, some, List, [], ◌∷◌, length, take, drop,
  arith,
}
use osn_assignments.Fs.{Superblock, Blocks}
use osn_assignments.Fs.Icache.{Dinode}
use osn_assignments.Fs.Content.{put_bytes, writei_loop, grown, writei, t_dev, refused, ends}
use osn_assignments.Fs.Content.Reading.{home, byte_at, bmap-home, IsThere}
use osn_assignments.Fs.Content.Writing.{
  patched, IsApart, chunk, home-put_bytes, patched-patched, length-take, length-drop,
}

-- What writing a list at `off` has done to the file.
pub record Wrote (ip : Dinode) (blocks blocks' : Blocks) (off : ℕ) (l : List ℕ) : Type 0 where
  pub homes : (k : ℕ) → home ip blocks' k ≡ home ip blocks k
  pub bytes : (o : ℕ) → o < 71680 → byte_at ip blocks' o ≡ patched off l (byte_at ip blocks) o

pub IsApart-kept :
    (ip : Dinode) (blocks blocks' : Blocks)
    → ((k : ℕ) → home ip blocks' k ≡ home ip blocks k)
    → IsApart ip blocks
    → IsApart ip blocks'
IsApart-kept ip blocks blocks' h a = record {
  once = λ j k jl kl z e. a.once j k jl kl (λ q. z (h j ∙ q)) (sym (h j) ∙ e ∙ h k);
  no_table = λ k kl z e. a.no_table k kl (λ q. z (h k ∙ q)) (sym (h k) ∙ e);
}

abbrev Outcome : Type 0
Outcome = Option (Dinode × Blocks × ℕ)

pub writei_loop_lem :
    (rounds fuel : ℕ) (sb : Superblock) (ip : Dinode) (blocks : Blocks) (off : ℕ) (l : List ℕ)
    → length l ≤ rounds
    → IsThere ip blocks off (off + length l)
    → IsApart ip blocks
    → (blocks' : Blocks) × (writei_loop rounds fuel sb ip blocks off l
        ≡ some (ip, blocks', off + length l))
      × Wrote ip blocks blocks' off l
unfolding writei_loop
writei_loop_lem rounds fuel sb ip blocks off [] le h a =
    let z : off + 0 ≡ off = omega arith in
    (blocks, rw z refl, record { homes = λ k. refl; bytes = λ o lt. ground arith })
writei_loop_lem zero fuel sb ip blocks off (x ∷ src) le h a = absurd (omega arith)
writei_loop_lem (suc rounds) fuel sb ip blocks off (x ∷ src) le h a =
    let l = x ∷ src in
    let m = min (length l) (512 - off % 512) in
    let sizes : (m ≤ length l) × (1 ≤ m) × (m + off % 512 ≤ 512) = ground arith in
    let there = h (off / 512) (omega arith) (omega arith) in
    let b = home ip blocks (off / 512) in
    let now = put_bytes blocks b (off % 512) (take m l) in
    let homes = λ (k : ℕ).
      home-put_bytes ip blocks b (off % 512) (take m l) k
        (a.no_table (off / 512) there.0 there.1) in
    let lt = length-take m l sizes.0 in
    let ld = length-drop m l in
    let step : writei_loop (suc rounds) fuel sb ip blocks off l
        ≡ writei_loop rounds fuel sb ip now (off + m) (drop m l) =
      rw (bmap-home fuel sb ip (off / 512) blocks there.0 there.1, writei_loop) refl in
    let (blocks', e, w) =
      writei_loop_lem rounds fuel sb ip now (off + m) (drop m l) (omega (arith, ld, sizes))
        (λ k p q.
          let t = h k (omega (arith, sizes)) (omega (arith, ld, sizes)) in
          (t.0, λ z. t.1 (sym (homes k) ∙ z)))
        (IsApart-kept ip blocks now homes a) in
    let end : off + m + length (drop m l) ≡ off + length l = omega (arith, ld, sizes) in
    (
      blocks',
      step ∙ e ∙ ap (λ (k : ℕ). result blocks' k) end,
      record {
        homes = λ k. w.homes k ∙ homes k;
        bytes = λ o ol.
            w.bytes o ol
            ∙ patched-patched (byte_at ip blocks) (byte_at ip now) off m o l sizes.0
                (chunk ip blocks off (take m l) o a there.0 there.1 (omega (arith, lt, sizes)) ol);
      },
    )
  where
    result : Blocks → ℕ → Outcome
    result b k = some (ip, b, k)

grown-end :
    (ip : Dinode) (off n : ℕ)
    → off ≤ ip.size
    → grown n ip (off + n) ≡ (if ltb ip.size (off + n) then record ip { size = off + n } else ip)
grown-end ip off n le = elim (Bool-cases (ltb 0 n)) [
  | inl e ↦ rw e refl
  | inr e ↦ let f : ltb ip.size (off + n) ≡ false = ground (arith, e, le) in rw (e, f) refl
]

writei-fits :
    (fuel : ℕ) (sb : Superblock) (ip ip' : Dinode) (blocks blocks' : Blocks) (off k : ℕ)
    (l : List ℕ)
    → ip.kind ≢ t_dev
    → off ≤ ip.size
    → off + length l ≤ 71680
    → writei_loop (length l) fuel sb ip blocks off l ≡ some (ip', blocks', k)
    → writei fuel sb ip blocks off l ≡ ends (some (grown (length l) ip' k, blocks'))
unfolding writei
writei-fits fuel sb ip ip' blocks blocks' off k l file le fits q =
    let kd : (ip.kind == 3) ≡ false = ground (arith, file) in
    let e : ltb ip.size off ≡ false = ground (arith, le) in
    let m : (off + length l) % 2 ^ 32 ≡ off + length l = omega arith in
    let f : ltb (off + length l) off ≡ false = ground arith in
    let g : ltb 71680 (off + length l) ≡ false = ground (arith, fits) in
    rw (kd, writei, e, m, f, g, q) refl

-- For an inode that is no device, where the blocks that the range touches are all there already, no block stands twice in the inode, and the file
-- is not longer than the largest: writei gives -1 exactly if it starts behind the end of the file, or
-- the sum of offset and count wraps or is above the largest size; else it puts the bytes at the offset,
-- changes no other byte that a file can have, and the size becomes the end of the range if that is
-- greater. All other fields of the inode stay.
writei_lem :
    (fuel : ℕ) (sb : Superblock) (ip : Dinode) (blocks : Blocks) (off : ℕ) (l : List ℕ)
    → ip.kind ≢ t_dev
    → ip.size ≤ 71680
    → length l < 2 ^ 32
    → (off + length l ≤ 71680 → IsThere ip blocks off (off + length l))
    → IsApart ip blocks
    → (((ip.size < off) ⊎ (71680 < off + length l)) × (writei fuel sb ip blocks off l ≡ refused))
      ⊎ ((off ≤ ip.size)
          × (off + length l ≤ 71680)
          × ((ip' : Dinode) × (blocks' : Blocks) × (writei fuel sb ip blocks off l
                ≡ ends (some (ip', blocks')))
              × (ip' ≡ (
                  if ltb ip.size (off + length l) then record ip { size = off + length l } else ip))
              × Wrote ip blocks blocks' off l))
unfolding writei
writei_lem fuel sb ip blocks off l file small word h a =
    let kd : (ip.kind == 3) ≡ false = ground (arith, file) in
    elim (Bool-cases (ltb ip.size off)) [
      | inl e ↦ inl (inl (ground (arith, e)), rw (kd, writei, e) refl)
      | inr e ↦
          let le : off ≤ ip.size = ground (arith, e) in
          elim (Bool-cases (ltb ((off + length l) % 2 ^ 32) off)) [
            | inl f ↦
                let wraps : (off + length l) % 2 ^ 32 < off = ground (arith, f) in
                inl (inr (omega arith), rw (kd, writei, e, f) refl)
            | inr f ↦
                let ge : off ≤ (off + length l) % 2 ^ 32 = ground (arith, f) in
                let m : (off + length l) % 2 ^ 32 ≡ off + length l = omega arith in
                elim (Bool-cases (ltb 71680 (off + length l))) [
                  | inl g ↦ inl (inr (ground (arith, g)), rw (kd, writei, e, f, m, g) refl)
                  | inr g ↦
                      let fits : off + length l ≤ 71680 = ground (arith, g) in
                      let (blocks', q, w) =
                        writei_loop_lem (length l) fuel sb ip blocks off l (omega arith) (h fits)
                          a in
                      inr (
                        le,
                        fits,
                        (
                          grown (length l) ip (off + length l),
                          blocks',
                          writei-fits fuel sb ip ip blocks blocks' off (off + length l) l file le
                              fits q,
                          grown-end ip off (length l) le,
                          w,
                        ),
                      )
                ]
          ]
    ]
