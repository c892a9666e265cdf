-- ===== src/Bio/Release.antt =====
-- What brelse of xv6 modified/bio.c does to the list of buffers.
use osn_assignments.Base.{
  ℕ, ◌+◌, ◌≡◌, ◌≢◌, refl, ◌∙◌, ap, ◌⊎◌, inl, inr, ◌==◌, if◌then◌else◌, Bool, true, false, Option,
  none, some, Bool-cases, Option-cases, List, [], ◌∷◌, ◌++◌, arith,
}
use osn_assignments.Proc.Types.{dec_word}
use osn_assignments.Bio.{Buf, put_buf, unlink, brelse}
use osn_assignments.Bio.Search.{of_block, buffers}
use osn_assignments.Bio.Keys.{buffers-append}

-- The place of the buffer `i` in the list.
pub record Place (i : ℕ) (l : List Buf) : Type 0 where
  pub front : List Buf
  pub here : Buf
  pub behind : List Buf
  pub whole : l ≡ front ++ (here ∷ behind)
  pub found : here.id ≡ i

abbrev pair : Buf → List Buf → Option (Buf × List Buf)
pair c l = some (c, l)

unlink-some :
    (i : ℕ) (l rest : List Buf) (c : Buf)
    → unlink i l ≡ some (c, rest)
    → (p : Place i l) × (c ≡ p.here)
      × (rest ≡ p.front ++ p.behind)
      × ((f : Buf → Buf) → put_buf i f l ≡ p.front ++ (f p.here ∷ p.behind))
unfolding unlink put_buf
unlink-some i [] rest c h = cc
unlink-some i (b ∷ l) rest c h = elim (Bool-cases (b.id == i)) [
  | inl e ↦
      let q : pair b l ≡ pair c rest = rw e at h in
      let qc : c ≡ b = cc in
      let ql : rest ≡ l = cc in
      (
        record { front = []; here = b; behind = l; whole = refl; found = ground arith },
        qc,
        ql,
        λ f. rw e refl,
      )
  | inr e ↦ elim (Option-cases (unlink i l)) [
    | inl n ↦ absurd (clash (rw (e, n) at h))
    | inr ((c', m), s) ↦
        let q : pair c' (b ∷ m) ≡ pair c rest = rw (e, s) at h in
        let qc : c ≡ c' = cc in
        let ql : rest ≡ b ∷ m = cc in
        let (p, u, v, w) = unlink-some i l m c' s in
        (
          record {
            front = b ∷ p.front;
            here = p.here;
            behind = p.behind;
            whole = ap (λ k. b ∷ k) p.whole;
            found = p.found;
          },
          qc ∙ u,
          ql ∙ ap (λ k. b ∷ k) v,
          λ f. rw e (ap (λ k. b ∷ k) (w f)),
        )
  ]
]
  where
    clash : none ≡ pair c rest → ⊥
    clash q = cc

-- Whether the list has the buffer `i`.
abbrev pub has_id : ℕ → List Buf → Bool
has_id i [] = false
has_id i (b ∷ l) = if b.id == i then true else has_id i l

unlink-none : (i : ℕ) (l : List Buf) → has_id i l ≡ true → unlink i l ≢ none
unfolding unlink
unlink-none i [] t h = cc
unlink-none i (b ∷ l) t h = elim (Bool-cases (b.id == i)) [
  | inl e ↦ clash b l (rw e at h)
  | inr e ↦ elim (Option-cases (unlink i l)) [
    | inl n ↦ unlink-none i l (rw e at t) n
    | inr ((c, m), s) ↦ clash c (b ∷ m) (rw (e, s) at h)
  ]
]
  where
    clash : (c : Buf) (m : List Buf) → pair c m ≡ none → ⊥
    clash c m q = cc

-- The buffer with one reference less.
abbrev pub dropped : Buf → Buf
dropped b = record b { refcnt = dec_word b.refcnt }

count :
    (i d n : ℕ) (l : List Buf) (p : Place i l)
    → buffers d n l
      ≡ buffers d n p.front + ((if of_block d n p.here then 1 else 0) + buffers d n p.behind)
count i d n l p = ap (buffers d n) p.whole ∙ buffers-append d n p.front (p.here ∷ p.behind)

-- brelse of a buffer of the cache takes one reference from it. At its last reference the buffer
-- becomes the first of the list, else it stays in its place; the others keep theirs, and every block
-- has as many buffers as before.
brelse_lem :
    (i : ℕ) (l : List Buf)
    → has_id i l ≡ true
    → (p : Place i l) × (((dec_word p.here.refcnt ≡ 0)
          × (brelse i l ≡ dropped p.here ∷ (p.front ++ p.behind)))
        ⊎ ((dec_word p.here.refcnt ≢ 0) × (brelse i l ≡ p.front ++ (dropped p.here ∷ p.behind))))
      × ((d n : ℕ) → buffers d n (brelse i l) ≡ buffers d n l)
unfolding brelse
brelse_lem i l t = elim (Option-cases (unlink i l)) [
  | inl n ↦ absurd (unlink-none i l t n)
  | inr ((c, rest), s) ↦
      let (p, u, v, w) = unlink-some i l rest c s in
      elim (Bool-cases (dec_word c.refcnt == 0)) [
        | inl e ↦
            let q : brelse i l ≡ dropped p.here ∷ (p.front ++ p.behind) =
              rw (s, brelse, e, u, v) refl in
            (
              p,
              inl (ground (arith, e, u), q),
              λ d n.
                  ap (buffers d n) q
                  ∙ omega (arith, count i d n l p, buffers-append d n p.front p.behind),
            )
        | inr e ↦
            let q : brelse i l ≡ p.front ++ (dropped p.here ∷ p.behind) =
              rw (s, brelse, e) (w dropped) in
            (
              p,
              inr (ground (arith, e, u), q),
              λ d n.
                  ap (buffers d n) q
                  ∙ omega (
                    arith,
                    count i d n l p,
                    buffers-append d n p.front (dropped p.here ∷ p.behind),
                  ),
            )
      ]
]
