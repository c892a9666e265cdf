-- ===== src/Bio/Sound.antt =====
-- Buffers of xv6 modified/bio.c that hold what their block on the disk holds.
use osn_assignments.Base.{
  ℕ, ◌≡◌, ◌∙◌, subst, inl, inr, ◌==◌, true, false, Option, none, some, Bool-cases, Option-cases,
  List, [], ◌∷◌, All,
}
use osn_assignments.Proc.Types.{inc_word}
use osn_assignments.Bio.{Buf, Disk, find_cached, is_unused, recycle, bget, put_buf}
use osn_assignments.Bio.Search.{of_block, find_cached-some, recycle-some}

-- A buffer is sound: a dirty one is valid, and a valid one that is not dirty holds what the disk holds.
pub record IsSound (d : Disk) (b : Buf) : Type 0 where
  pub filled : b.dirty ≡ true → b.valid ≡ true
  pub same : b.valid ≡ true → b.dirty ≡ false → b.contents ≡ d.block b.blockno
  pub device : b.valid ≡ true → b.dev ≡ 1

pair : Buf → List Buf → Option (Buf × List Buf)
pair c l = some (c, l)

find_cached-IsSound :
    (d : Disk) (dev n : ℕ) (l l' : List Buf) (c : Buf)
    → All (IsSound d) l
    → find_cached dev n l ≡ some (c, l')
    → All (IsSound d) l' × IsSound d c
unfolding find_cached pair
find_cached-IsSound d dev n [] l' c a h = cc
find_cached-IsSound d dev n (b ∷ l) l' c a h = elim (Bool-cases (of_block dev n b)) [
  | inl e ↦
      let q : pair (hold b) (hold b ∷ l) ≡ pair c l' = rw e at h in
      let qc : hold b ≡ c = cc in
      let ql : hold b ∷ l ≡ l' = cc in
      let g : IsSound d (hold b) = record {
        filled = a.0.filled;
        same = a.0.same;
        device = a.0.device;
      } in
      (subst (All (IsSound d)) ql (g, a.1), subst (IsSound d) qc g)
  | inr e ↦ elim (Option-cases (find_cached dev n l)) [
    | inl z ↦ absurd (clash (rw (e, z) at h))
    | inr ((c', m), s) ↦
        let q : pair c' (b ∷ m) ≡ pair c l' = rw (e, s) at h in
        let qc : c' ≡ c = cc in
        let ql : b ∷ m ≡ l' = cc in
        let r = find_cached-IsSound d dev n l m c' a.1 s in
        (subst (All (IsSound d)) ql (a.0, r.0), subst (IsSound d) qc r.1)
  ]
]
  where
    hold : Buf → Buf
    hold b = record b { refcnt = inc_word b.refcnt }

    clash : none ≡ pair c l' → ⊥
    clash q = cc

recycle-IsSound :
    (d : Disk) (dev n : ℕ) (l l' : List Buf) (c : Buf)
    → All (IsSound d) l
    → recycle dev n l ≡ some (c, l')
    → All (IsSound d) l' × IsSound d c
unfolding recycle pair
recycle-IsSound d dev n [] l' c a h = cc
recycle-IsSound d dev n (b ∷ l) l' c a h = elim (Option-cases (recycle dev n l)) [
  | inr ((c', m), s) ↦
      let q : pair c' (b ∷ m) ≡ pair c l' = rw s at h in
      let qc : c' ≡ c = cc in
      let ql : b ∷ m ≡ l' = cc in
      let r = recycle-IsSound d dev n l m c' a.1 s in
      (subst (All (IsSound d)) ql (a.0, r.0), subst (IsSound d) qc r.1)
  | inl z ↦ elim (Bool-cases (is_unused b)) [
    | inr e ↦ absurd (clash (rw (z, e) at h))
    | inl e ↦
        let q : pair (own b) (own b ∷ l) ≡ pair c l' = rw (z, e) at h in
        let qc : own b ≡ c = cc in
        let ql : own b ∷ l ≡ l' = cc in
        let g : IsSound d (own b) = record { filled = λ t. cc; same = λ t. cc; device = λ t. cc } in
        (subst (All (IsSound d)) ql (g, a.1), subst (IsSound d) qc g)
  ]
]
  where
    own : Buf → Buf
    own b = record b { dev = dev; blockno = n; valid = false; dirty = false; refcnt = 1 }

    clash : none ≡ pair c l' → ⊥
    clash q = cc

pub put_buf-All :
    (P : Buf → Type 0) (i : ℕ) (b : Buf) (l : List Buf)
    → P b
    → All P l
    → All P (put_buf i (λ c. b) l)
unfolding put_buf
put_buf-All P i b [] p a = tt
put_buf-All P i b (c ∷ l) p a = elim (Bool-cases (c.id == i)) [
  | inl e ↦ rw e (p, a.1)
  | inr e ↦ rw e (a.0, put_buf-All P i b l p a.1)
]

pub bget-IsSound :
    (d : Disk) (dev n : ℕ) (l l' : List Buf) (c : Buf)
    → All (IsSound d) l
    → bget dev n l ≡ some (c, l')
    → All (IsSound d) l' × IsSound d c
unfolding bget
bget-IsSound d dev n l l' c a h = elim (Option-cases (find_cached dev n l)) [
  | inr (r, s) ↦ find_cached-IsSound d dev n l l' c a (s ∙ (rw (s, bget) at h))
  | inl z ↦ recycle-IsSound d dev n l l' c a (rw (z, bget) at h)
]

pub bget-of_block :
    (dev n : ℕ) (l l' : List Buf) (c : Buf) → bget dev n l ≡ some (c, l') → of_block dev n c ≡ true
unfolding bget
bget-of_block dev n l l' c h = elim (Option-cases (find_cached dev n l)) [
  | inr (r, s) ↦ (find_cached-some dev n l l' c (s ∙ (rw (s, bget) at h))).0
  | inl z ↦ (recycle-some dev n l l' c (rw (z, bget) at h)).0
]
