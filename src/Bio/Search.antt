-- ===== src/Bio/Search.antt =====
-- What the two loops of bget of xv6 modified/bio.c find, and the lists that they leave.
use osn_assignments.Base.{
  not, Bool, ◌==◌, ℕ, ◌+◌, ◌≡◌, refl, sym, ◌∙◌, ap, All, inl, inr, if◌then◌else◌, true, false,
  Option, none, some, Option-cases, Bool-cases, List, [], ◌∷◌, ◌++◌, arith,
}
use osn_assignments.Proc.Types.{inc_word}
use osn_assignments.Bio.{Buf, find_cached, recycle}

-- What a search gives.
abbrev pub pair : Buf → List Buf → Option (Buf × List Buf)
pair c l = some (c, l)

-- The buffer stands for the block.
abbrev pub of_block : ℕ → ℕ → Buf → Bool
of_block dev blockno b = if b.dev == dev then b.blockno == blockno else false

-- No one has a reference to the buffer, and it has nothing to be written.
abbrev pub is_idle : Buf → Bool
is_idle b = if b.refcnt == 0 then not b.dirty else false

-- How many buffers the block has.
abbrev pub buffers : ℕ → ℕ → List Buf → ℕ
buffers dev blockno [] = 0
buffers dev blockno (b ∷ l) = (if of_block dev blockno b then 1 else 0) + buffers dev blockno l

pub find_cached-none :
    (dev blockno : ℕ) (l : List Buf) → find_cached dev blockno l ≡ none → buffers dev blockno l ≡ 0
unfolding find_cached
find_cached-none dev blockno [] h = refl
find_cached-none dev blockno (b ∷ l) h = elim (Bool-cases (of_block dev blockno b)) [
  | inl e ↦ absurd (clash (rw e at h))
  | inr e ↦ elim (Option-cases (find_cached dev blockno l)) [
    | inl n ↦ rw e (omega (arith, find_cached-none dev blockno l n))
    | inr ((c, l'), s) ↦ absurd (clash (rw (e, s) at h))
  ]
]
  where
    clash : {r : Buf × List Buf} → some r ≡ none → ⊥
    clash q = cc

-- The list `l'` is `l` where one buffer has one reference more, which makes it `c`.
pub record Cached (c : Buf) (l l' : List Buf) : Type 0 where
  pub front : List Buf
  pub old : Buf
  pub behind : List Buf
  pub before : l ≡ front ++ (old ∷ behind)
  pub after : l' ≡ front ++ (c ∷ behind)
  pub one_more : c ≡ record old { refcnt = inc_word old.refcnt }

-- A found buffer is the block's, and every block has as many buffers as before.
pub find_cached-some :
    (dev blockno : ℕ) (l l' : List Buf) (c : Buf)
    → find_cached dev blockno l ≡ some (c, l')
    → (of_block dev blockno c ≡ true) × Cached c l l' × ((d n : ℕ) → buffers d n l' ≡ buffers d n l)
unfolding find_cached
find_cached-some dev blockno [] l' c h = cc
find_cached-some dev blockno (b ∷ l) l' c h = elim (Bool-cases (of_block dev blockno b)) [
  | inl e ↦
      let q : pair (hold b) (hold b ∷ l) ≡ pair c l' = rw e at h in
      let qc : hold b ≡ c = cc in
      let ql : hold b ∷ l ≡ l' = cc in
      (
        rw (sym qc) e,
        record {
          front = [];
          old = b;
          behind = l;
          before = refl;
          after = sym ql ∙ ap (λ k. k ∷ l) qc;
          one_more = sym qc;
        },
        λ d n. rw (sym ql) refl,
      )
  | inr e ↦ elim (Option-cases (find_cached dev blockno l)) [
    | inl n ↦ absurd (clash (rw (e, n) at h))
    | inr ((c', m), s) ↦
        let q : pair c' (b ∷ m) ≡ pair c l' = rw (e, s) at h in
        let qc : c' ≡ c = cc in
        let ql : b ∷ m ≡ l' = cc in
        let (i, r, f) = find_cached-some dev blockno l m c' s in
        (
          rw (sym qc) i,
          record {
            front = b ∷ r.front;
            old = r.old;
            behind = r.behind;
            before = ap (λ k. b ∷ k) r.before;
            after = sym ql ∙ ap (λ k. b ∷ k) r.after ∙ ap (λ k. b ∷ (r.front ++ (k ∷ r.behind))) qc;
            one_more = sym qc ∙ r.one_more;
          },
          λ d n. rw (sym ql) (ap (λ k. (if of_block d n b then 1 else 0) + k) (f d n)),
        )
  ]
]
  where
    hold : Buf → Buf
    hold b = record b { refcnt = inc_word b.refcnt }

    clash : none ≡ pair c l' → ⊥
    clash q = cc

-- The list `l'` is `l` with one unused buffer `b`, behind which every buffer is in use, replaced.
pub record Recycled (c : Buf) (l l' : List Buf) : Type 0 where
  pub front : List Buf
  pub old : Buf
  pub behind : List Buf
  pub before : l ≡ front ++ (old ∷ behind)
  pub after : l' ≡ front ++ (c ∷ behind)
  pub unused : is_idle old ≡ true
  pub in_use : All (λ b. is_idle b ≡ false) behind

pub recycle-none :
    (dev blockno : ℕ) (l : List Buf) → recycle dev blockno l ≡ none → All (λ b. is_idle b ≡ false) l
unfolding recycle
recycle-none dev blockno [] h = tt
recycle-none dev blockno (b ∷ l) h = elim (Option-cases (recycle dev blockno l)) [
  | inr ((c, m), s) ↦ absurd (clash (rw s at h))
  | inl n ↦ elim (Bool-cases (is_idle b)) [
    | inl e ↦ absurd (clash (rw (n, e) at h))
    | inr e ↦ (e, recycle-none dev blockno l n)
  ]
]
  where
    clash : {r : Buf × List Buf} → some r ≡ none → ⊥
    clash q = cc

pub recycle-some :
    (dev blockno : ℕ) (l l' : List Buf) (c : Buf)
    → recycle dev blockno l ≡ some (c, l')
    → (of_block dev blockno c ≡ true) × (c.refcnt ≡ 1) × Recycled c l l'
unfolding recycle
recycle-some dev blockno [] l' c h = cc
recycle-some dev blockno (b ∷ l) l' c h = elim (Option-cases (recycle dev blockno l)) [
  | inr ((c', m), s) ↦
      let q : pair c' (b ∷ m) ≡ some (c, l') = rw s at h in
      let qc : c' ≡ c = cc in
      let ql : b ∷ m ≡ l' = cc in
      let (i, n, r) = recycle-some dev blockno l m c' s in
      (
        rw (sym qc) i,
        rw (sym qc) n,
        record {
          front = b ∷ r.front;
          old = r.old;
          behind = r.behind;
          before = ap (λ k. b ∷ k) r.before;
          after = rw (sym ql, sym qc) (ap (λ k. b ∷ k) r.after);
          unused = r.unused;
          in_use = r.in_use;
        },
      )
  | inl n ↦ elim (Bool-cases (is_idle b)) [
    | inr e ↦ absurd (clash (rw (n, e) at h))
    | inl e ↦
        let q : pair (own b) (own b ∷ l) ≡ some (c, l') = rw (n, e) at h in
        let qc : own b ≡ c = cc in
        let ql : own b ∷ l ≡ l' = cc in
        (
          rw (sym qc) (ground arith),
          rw (sym qc) refl,
          record {
            front = [];
            old = b;
            behind = l;
            before = refl;
            after = rw (sym ql, sym qc) refl;
            unused = e;
            in_use = recycle-none dev blockno l n;
          },
        )
  ]
]
  where
    own : Buf → Buf
    own b = record b { dev = dev; blockno = blockno; valid = false; dirty = false; refcnt = 1 }

    clash : none ≡ pair c l' → ⊥
    clash q = cc
