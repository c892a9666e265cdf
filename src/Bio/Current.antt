-- ===== src/Bio/Current.antt =====
-- What a block holds for its readers, and that bget of xv6 modified/bio.c finds it.
use osn_assignments.Base.{
  ℕ, ◌≡◌, refl, sym, ◌∙◌, ap, inl, inr, if◌then◌else◌, false, Option, none, some, Bool-cases,
  Option-cases, List, [], ◌∷◌, arith,
}
use osn_assignments.Proc.Types.{inc_word}
use osn_assignments.Bio.{Buf, Disk, find_cached, is_unused, recycle, bget}
use osn_assignments.Bio.Search.{of_block, buffers, find_cached-none}

pair : Buf → List Buf → Option (Buf × List Buf)
pair c l = some (c, l)

-- The contents of block `n` of device 1 as a process is to see them: those of its valid buffer, which
-- may be newer than the disk, and those of the disk if it has none.
abbrev pub current : ℕ → List Buf → Disk → ℕ
current n [] d = d.block n
current n (b ∷ l) d =
    if of_block 1 n b then (if b.valid then b.contents else d.block n) else current n l d

-- What the buffer holds, or will hold once it is read.
abbrev pub seen : ℕ → Buf → Disk → ℕ
seen n c d = if c.valid then c.contents else d.block n

find_cached-current :
    (d : Disk) (n : ℕ) (l l' : List Buf) (c : Buf)
    → find_cached 1 n l ≡ some (c, l')
    → seen n c d ≡ current n l d
unfolding find_cached pair
find_cached-current d n [] l' c h = cc
find_cached-current d n (b ∷ l) l' c h = elim (Bool-cases (of_block 1 n b)) [
  | inl e ↦
      let q : pair (hold b) (hold b ∷ l) ≡ pair c l' = rw e at h in
      let qc : hold b ≡ c = cc in ap (λ x. seen n x d) (sym qc) ∙ rw e refl
  | inr e ↦ elim (Option-cases (find_cached 1 n l)) [
    | inl z ↦ absurd (clash (rw (e, z) at h))
    | inr ((c', m), s) ↦
        let q : pair c' (b ∷ m) ≡ pair c l' = rw (e, s) at h in
        let qc : c' ≡ c = cc in
        ap (λ x. seen n x d) (sym qc) ∙ rw e (find_cached-current d n l m c' s)
  ]
]
  where
    hold : Buf → Buf
    hold b = record b { refcnt = inc_word b.refcnt }

    clash : none ≡ pair c l' → ⊥
    clash q = cc

absent-current : (d : Disk) (n : ℕ) (l : List Buf) → buffers 1 n l ≡ 0 → current n l d ≡ d.block n
absent-current d n [] z = refl
absent-current d n (b ∷ l) z =
    let k : of_block 1 n b ≡ false = ground arith in rw k (absent-current d n l (omega arith))

recycle-valid :
    (dev n : ℕ) (l l' : List Buf) (c : Buf) → recycle dev n l ≡ some (c, l') → c.valid ≡ false
unfolding recycle pair
recycle-valid dev n [] l' c h = cc
recycle-valid dev n (b ∷ l) l' c h = elim (Option-cases (recycle dev n l)) [
  | inr ((c', m), s) ↦
      let q : pair c' (b ∷ m) ≡ pair c l' = rw s at h in
      let qc : c' ≡ c = cc in ap (λ x. x.valid) (sym qc) ∙ recycle-valid dev n l m c' s
  | inl z ↦ elim (Bool-cases (is_unused b)) [
    | inr e ↦ absurd (clash (rw (z, e) at h))
    | inl e ↦
        let q : pair (own b) (own b ∷ l) ≡ pair c l' = rw (z, e) at h in
        let qc : own b ≡ c = cc in ap (λ x. x.valid) (sym qc)
  ]
]
  where
    own : Buf → Buf
    own b = record b { dev = dev; blockno = n; valid = false; dirty = false; refcnt = 1 }

    clash : none ≡ pair c l' → ⊥
    clash q = cc

pub bget-current :
    (d : Disk) (n : ℕ) (l l' : List Buf) (c : Buf)
    → bget 1 n l ≡ some (c, l')
    → seen n c d ≡ current n l d
unfolding bget
bget-current d n l l' c h = elim (Option-cases (find_cached 1 n l)) [
  | inr (r, s) ↦ find_cached-current d n l l' c (s ∙ (rw (s, bget) at h))
  | inl z ↦
      let v : c.valid ≡ false = recycle-valid 1 n l l' c (rw (z, bget) at h) in
      rw v (sym (absent-current d n l (find_cached-none 1 n l z)))
]
