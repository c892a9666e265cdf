-- ===== src/Bio/Data.antt =====
-- The contents of the buffers of xv6 modified/bio.c against the blocks on the disk.
use osn_assignments.Base.{
  ℕ, ◌<◌, ◌≤◌, ◌≡◌, ◌≢◌, refl, sym, ◌∙◌, ap, ◌⊎◌, inl, inr, ◌==◌, leb, true, false, some,
  Bool-cases, List, [], ◌∷◌, All, update, update_self, update_ne, arith,
}
use osn_assignments.Bio.{Buf, Disk, bget, iderw, bread, bwrite, put_buf}
use osn_assignments.Bio.Search.{of_block, buffers}
use osn_assignments.Bio.Keys.{NoAlias}
use osn_assignments.Bio.Sound.{IsSound, put_buf-All, bget-IsSound, bget-of_block}
use osn_assignments.Bio.Current.{current, bget-current}

-- Where every buffer is sound, reading a block of device 1 within the disk gives a valid buffer of that
-- block whenever bget gives one. It has the contents of the valid buffer that the block had, clean or
-- dirty, and those of the disk if it had none; where the buffer is not dirty, these are those of the
-- disk in either case. The disk is as before and every buffer is sound.
pub bread_lem :
    (n : ℕ) (l l1 : List Buf) (c : Buf) (d : Disk)
    → All (IsSound d) l
    → bget 1 n l ≡ some (c, l1)
    → n < d.size
    → (b : Buf) × (l' : List Buf) × (bread 1 n l d ≡ some (b, l', d))
      × (of_block 1 n b ≡ true)
      × (b.valid ≡ true)
      × (b.contents ≡ current n l d)
      × (b.dirty ≡ false → b.contents ≡ d.block n)
      × All (IsSound d) l'
unfolding bread iderw
bread_lem n l l1 c d a h lt =
    let (a1, g) = bget-IsSound d 1 n l l1 c a h in
    let k = bget-of_block 1 n l l1 c h in
    let s = bget-current d n l l1 c h in
    let on : (c.dev ≡ 1) × (c.blockno ≡ n) = ground arith in
    elim (Bool-cases c.valid) [
      | inl v ↦
          (c, l1, rw (h, bread, v) refl, k, v, rw v at s, λ cl. g.same v cl ∙ ap d.block on.1, a1)
      | inr v ↦
          let cl : c.dirty ≡ false = ground (arith, g.filled, v) in
          let b : Buf = record c { contents = d.block c.blockno; valid = true } in
          let dv : (c.dev == 1) ≡ true = ground arith in
          let sz : leb d.size c.blockno ≡ false = ground arith in
          let gb : IsSound d b = record {
            filled = λ t. refl;
            same = λ t u. refl;
            device = λ t. on.0;
          } in
          (
            b,
            put_buf c.id (λ x. b) l1,
            rw (h, bread, v, iderw, dv, sz, cl) refl,
            k,
            refl,
            ap d.block on.1 ∙ (rw v at s),
            λ t. ap d.block on.1,
            put_buf-All (IsSound d) c.id b l1 gb a1,
          )
    ]

-- The buffer `i` of the list, which is the one of the block.
abbrev pub Held : ℕ → ℕ → List Buf → Type 0
Held i n [] = ⊥
Held i n (b ∷ l) =
    ((b.id == i) ≡ true) × (of_block 1 n b ≡ true) ⊎ ((b.id == i) ≡ false) × Held i n l

Held-buffers : (i n : ℕ) (l : List Buf) → Held i n l → 1 ≤ buffers 1 n l
Held-buffers i n [] h = absurd h
Held-buffers i n (b ∷ l) (inl (e, k)) = rw k (omega arith)
Held-buffers i n (b ∷ l) (inr (e, h)) = omega (arith, Held-buffers i n l h)

module _ (d : Disk) (n v : ℕ) where
  abbrev written : Disk
  written = record d { block = update d.block n v }

  other-IsSound : (b : Buf) → IsSound d b → of_block 1 n b ≡ false → IsSound written b
  other-IsSound b g k = record {
    filled = g.filled;
    same = λ t u.
        let dv = g.device t in
        let ne : n ≢ b.blockno = λ q. ground (arith, dv, q, k) in
        g.same t u ∙ sym (update_ne d.block n b.blockno v ne);
    device = g.device;
  }

  others-IsSound : (l : List Buf) → All (IsSound d) l → buffers 1 n l ≡ 0 → All (IsSound written) l
  others-IsSound [] a z = tt
  others-IsSound (b ∷ l) a z =
      let k : of_block 1 n b ≡ false = ground arith in
      (other-IsSound b a.0 k, others-IsSound l a.1 (omega arith))

  put_buf-IsSound :
      (i : ℕ) (b : Buf) (l : List Buf)
      → Held i n l
      → buffers 1 n l ≤ 1
      → All (IsSound d) l
      → IsSound written b
      → All (IsSound written) (put_buf i (λ c. b) l)
  unfolding put_buf
  put_buf-IsSound i b [] h w a g = absurd h
  put_buf-IsSound i b (c ∷ l) (inl (e, k)) w a g =
      rw e (g, others-IsSound l a.1 (ground (arith, w, k)))
  put_buf-IsSound i b (c ∷ l) (inr (e, h)) w a g =
      let pos = Held-buffers i n l h in
      let k : of_block 1 n c ≡ false = ground (arith, w, pos) in
      rw e (other-IsSound c a.0 k, put_buf-IsSound i b l h (omega arith) a.1 g)

-- Writing a buffer of a block of device 1 within the disk, which is the block's only one in the
-- cache, puts its contents on the disk, leaves the other blocks alone, and makes the buffer clean;
-- where every buffer was sound, every buffer still is.
pub bwrite_lem :
    (b : Buf) (l : List Buf) (d : Disk)
    → All (IsSound d) l
    → NoAlias l
    → Held b.id b.blockno l
    → b.dev ≡ 1
    → b.blockno < d.size
    → let l' = put_buf b.id (λ c. record b { valid = true; dirty = false }) l in
      let d' = record d { block = update d.block b.blockno b.contents } in
      (bwrite b l d ≡ some (l', d')) × All (IsSound d') l'
unfolding bwrite iderw
bwrite_lem b l d a w h dv lt =
    let one : (b.dev == 1) ≡ true = ground arith in
    let sz : leb d.size b.blockno ≡ false = ground arith in
    (
      elim (Bool-cases b.valid) [
        | inl v ↦ rw (bwrite, iderw, v, one, sz) refl
        | inr v ↦ rw (bwrite, iderw, v, one, sz) refl
      ],
      put_buf-IsSound d b.blockno b.contents b.id (record b { valid = true; dirty = false }) l h
          (w 1 b.blockno (λ q. cc)) a
          (record {
            filled = λ t. refl;
            same = λ t u. sym (update_self d.block b.blockno b.contents);
            device = λ t. dv;
          }),
    )
