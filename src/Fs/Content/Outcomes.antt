-- ===== src/Fs/Content/Outcomes.antt =====
-- All ends of writei of xv6 modified/fs.c, also where it allocates.
use osn_assignments.Base.{
  ℕ, ◌+◌, ◌*◌, ◌%◌, ◌^◌, ◌<◌, ◌≤◌, ◌≡◌, ◌≢◌, refl, sym, ◌∙◌, ap, subst, ◌⊎◌, ◌==◌, ltb, Bool-cases,
  if◌then◌else◌, inl, inr, true, false, Option, Option-cases, none, some, List, length, arith,
}
use osn_assignments.Fs.{Superblock, Blocks}
use osn_assignments.Fs.Icache.{Dinode}
use osn_assignments.Fs.Content.{writei_loop, grown, writei, t_dev, Ended, refused, ends}
use osn_assignments.Fs.Content.Reading.{IsThere}
use osn_assignments.Fs.Content.Written.{writei_loop_lem}
use osn_assignments.Fs.Content.Growing.{IsSafe}
use osn_assignments.Fs.Content.Filled.{Filled, writei_loop-Filled}

-- The size of a file of size `s` after a write that ends at `e`.
abbrev pub reached : ℕ → ℕ → ℕ
reached s e = if ltb s e then e else s

grown-reached :
    (ip : Dinode) (s off n : ℕ)
    → ip.size ≡ s
    → off ≤ s
    → grown n ip (off + n) ≡ record ip { size = reached s (off + n) }
grown-reached ip s off n q le =
    subst (λ k. grown n ip (off + n) ≡ record ip { size = reached k (off + n) }) q
      (elim (Bool-cases (ltb ip.size (off + n))) [
        | inl d ↦ let one : ltb 0 n ≡ true = ground (arith, d, le, q) in rw (one, d) refl
        | inr d ↦ elim (Bool-cases (ltb 0 n)) [ inl e ↦ rw (e, d) refl | inr e ↦ rw (e, d) refl ]
      ])

-- The ends of writei.
pub data WriteiSpec (fuel : ℕ) (sb : Superblock) (ip : Dinode) (blocks : Blocks) (off : ℕ)
    (l : List ℕ) : Type 0 where
  refuses :
      (ip.size < off) ⊎ (71680 < off + length l)
      → writei fuel sb ip blocks off l ≡ refused
      → WriteiSpec fuel sb ip blocks off l
  -- A block of the range is not there, and one could not be allocated.
  panics :
      off ≤ ip.size
      → off + length l ≤ 71680
      → ¬ IsThere ip blocks off (off + length l)
      → writei fuel sb ip blocks off l ≡ ends none
      → WriteiSpec fuel sb ip blocks off l
  writes :
      off ≤ ip.size
      → off + length l ≤ 71680
      → (i : Dinode) (c : Blocks) → Filled sb ip blocks i c off l
      → writei fuel sb ip blocks off l
        ≡ ends (some (record i { size = reached ip.size (off + length l) }, c))
      → WriteiSpec fuel sb ip blocks off l

-- For an inode that is no device and that agrees with the free map, and with fuel for the map: writei
-- gives -1 exactly if it starts behind the end of the file, or the sum of offset and count is above the
-- largest size. Else, on blocks that the file had and on blocks that it allocates, it puts the bytes at
-- the offset and changes no other byte of the blocks that the file had; the inode agrees with the map
-- again, its size is the end of the range if that is greater, and only its numbers have changed beside;
-- or it panics, which it does only if some block of the range was not there before.
pub writei-WriteiSpec :
    (fuel : ℕ) (sb : Superblock) (ip : Dinode) (blocks : Blocks) (off : ℕ) (l : List ℕ)
    → sb.size + 4096 ≤ 4096 * fuel
    → ip.kind ≢ t_dev
    → ip.size ≤ 71680
    → length l < 2 ^ 32
    → IsSafe sb ip blocks
    → WriteiSpec fuel sb ip blocks off l
unfolding writei
writei-WriteiSpec fuel sb ip blocks off l enough file small word s =
    let kd : (ip.kind == 3) ≡ false = ground (arith, file) in
    elim (Bool-cases (ltb ip.size off)) [
      | inl e ↦ refuses (inl (ground (arith, e))) (rw (kd, writei, e) refl)
      | inr e ↦
          let le : off ≤ ip.size = ground (arith, e) in
          elim (Bool-cases (ltb ((off + length l) % 2 ^ 32) off)) [
            | inl f ↦
                let wraps : (off + length l) % 2 ^ 32 < off = ground (arith, f) in
                refuses (inr (omega arith)) (rw (kd, writei, e, f) refl)
            | inr f ↦
                let ge : off ≤ (off + length l) % 2 ^ 32 = ground (arith, f) in
                let m : (off + length l) % 2 ^ 32 ≡ off + length l = omega arith in
                elim (Bool-cases (ltb 71680 (off + length l))) [
                  | inl g ↦ refuses (inr (ground (arith, g))) (rw (kd, writei, e, f, m, g) refl)
                  | inr g ↦
                      let top : off + length l ≤ 71680 = ground (arith, g) in
                      elim (Option-cases (writei_loop (length l) fuel sb ip blocks off l)) [
                        | inl q ↦
                            panics le top
                              (λ h.
                                let (c, r, w) =
                                  writei_loop_lem (length l) fuel sb ip blocks off l (omega arith) h
                                    s.apart in
                                clash c (sym q ∙ r))
                              (rw (kd, writei, e, f, m, g, q) refl)
                        | inr ((i, c, k), q) ↦
                            let (z, w) =
                              writei_loop-Filled fuel sb enough (length l) ip i blocks c off k l top
                                s q in
                            let same : i.size ≡ ip.size = ap (λ i. i.size) w.fields in
                            writes le top i c w (
                              rw (kd, writei, e, f, m, g, q)
                                (ap (λ j. ended j c)
                                  (ap (grown (length l) i) z
                                    ∙ grown-reached i ip.size off (length l) same le)))
                      ]
                ]
          ]
    ]
  where
    ended : Dinode → Blocks → Ended (Dinode × Blocks)
    ended i b = ends (some (i, b))

    outcome : Blocks → Option (Dinode × Blocks × ℕ)
    outcome c = some (ip, c, off + length l)

    clash : (c : Blocks) → none ≡ outcome c → ⊥
    clash c q = cc
