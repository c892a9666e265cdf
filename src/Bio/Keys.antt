-- ===== src/Bio/Keys.antt =====
-- In the buffer cache of xv6 modified/bio.c no block has two buffers, and a buffer is recycled only
-- when no one uses it.
use osn_assignments.Base.{
  ℕ, ◌+◌, ◌≤◌, ◌≡◌, ◌≢◌, ◌↔◌, refl, ◌∙◌, ap, All, ◌⊎◌, inl, inr, true, false, none, some,
  Option-cases, Bool-cases, List, [], ◌∷◌, ◌++◌, arith,
}
use osn_assignments.Bio.{Buf, find_cached, recycle, bget}
use osn_assignments.Bio.Search.{
  pair, of_block, is_idle, buffers, Cached, Recycled, find_cached-none, find_cached-some,
  recycle-none, recycle-some,
}

pub buffers-append :
    (d n : ℕ) (k l : List Buf) → buffers d n (k ++ l) ≡ buffers d n k + buffers d n l
buffers-append d n [] l = omega arith
buffers-append d n (b ∷ k) l = omega (arith, buffers-append d n k l)

-- On every device but 0, whose block 0 every buffer stands for at first, a block has one buffer at
-- most.
abbrev pub NoAlias : List Buf → Type 0
NoAlias l = (d n : ℕ) → d ≢ 0 → buffers d n l ≤ 1

-- The list that recycling leaves, where the block had no buffer.
Recycled-NoAlias :
    (dev blockno : ℕ) (l l' : List Buf) (c : Buf)
    → NoAlias l
    → buffers dev blockno l ≡ 0
    → of_block dev blockno c ≡ true
    → Recycled c l l'
    → NoAlias l'
Recycled-NoAlias dev blockno l l' c w z i r d n ne =
    let u : buffers d n l ≡ buffers d n r.front + buffers d n (r.old ∷ r.behind) =
      ap (buffers d n) r.before ∙ buffers-append d n r.front (r.old ∷ r.behind) in
    let v : buffers d n l' ≡ buffers d n r.front + buffers d n (c ∷ r.behind) =
      ap (buffers d n) r.after ∙ buffers-append d n r.front (c ∷ r.behind) in
    let x = w d n ne in
    elim (Bool-cases (of_block d n c)) [
      | inr e ↦ ground (arith, u, v, x, e)
      | inl e ↦
          let y : (d ≡ dev) × (n ≡ blockno) = ground (arith, i, e) in
          let z' : buffers d n l ≡ 0 = rw (y.0, y.1) z in ground (arith, u, v, z', e)
    ]

-- Where no block has two buffers, and for a block of a device other than 0: a buffer that bget
-- gives is the block's, and still no block has two buffers. Either it was in the cache and has one
-- reference more, or the block had none and it took the place of an unused buffer, with one
-- reference, and no buffer behind that one was unused.
pub bget_lem :
    (dev blockno : ℕ) (l l' : List Buf) (c : Buf)
    → NoAlias l
    → bget dev blockno l ≡ some (c, l')
    → (of_block dev blockno c ≡ true)
      × NoAlias l'
      × (Cached c l l' ⊎ ((buffers dev blockno l ≡ 0) × (c.refcnt ≡ 1) × Recycled c l l'))
unfolding bget
bget_lem dev blockno l l' c w h = elim (Option-cases (find_cached dev blockno l)) [
  | inr ((c', m), s) ↦
      let q : pair c' m ≡ some (c, l') = rw (s, bget) at h in
      let s' : find_cached dev blockno l ≡ some (c, l') = s ∙ q in
      let f = find_cached-some dev blockno l l' c s' in
      (f.0, λ d n ne. rw (f.2 d n) (w d n ne), inl f.1)
  | inl n ↦
      let q : recycle dev blockno l ≡ some (c, l') = rw (n, bget) at h in
      let z = find_cached-none dev blockno l n in
      let (i, one, r) = recycle-some dev blockno l l' c q in
      (i, Recycled-NoAlias dev blockno l l' c w z i r, inr (z, one, r))
]

recycle-full :
    (dev blockno : ℕ) (l : List Buf) → All (λ b. is_idle b ≡ false) l → recycle dev blockno l ≡ none
unfolding recycle
recycle-full dev blockno [] a = refl
recycle-full dev blockno (b ∷ l) a = rw (recycle-full dev blockno l a.1, a.0) refl

absent :
    (dev blockno : ℕ) (l : List Buf) → buffers dev blockno l ≡ 0 → find_cached dev blockno l ≡ none
unfolding find_cached
absent dev blockno [] z = refl
absent dev blockno (b ∷ l) z =
    let e : of_block dev blockno b ≡ false = ground arith in
    rw (e, absent dev blockno l (omega arith)) refl

-- bget panics exactly when the block has no buffer and every buffer is in use.
pub bget-none_iff :
    (dev blockno : ℕ) (l : List Buf)
    → (bget dev blockno l ≡ none) ↔ ((buffers dev blockno l ≡ 0) × All (λ b. is_idle b ≡ false) l)
unfolding bget
bget-none_iff dev blockno l = (
  λ h. elim (Option-cases (find_cached dev blockno l)) [
    | inr (r, s) ↦ absurd (clash r (rw (s, bget) at h))
    | inl n ↦ (find_cached-none dev blockno l n, recycle-none dev blockno l (rw (n, bget) at h))
  ],
  λ p. rw (absent dev blockno l p.0, bget) (recycle-full dev blockno l p.1),
)
  where
    clash : (r : Buf × List Buf) → some r ≡ none → ⊥
    clash r q = cc
