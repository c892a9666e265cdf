-- ===== src/File/Counts.antt =====
-- The reference counts of xv6 modified/file.c.
use osn_assignments.Base.{
  ℕ, zero, suc, ◌+◌, ◌-◌, ◌<◌, ◌≡◌, ◌≢◌, refl, ◌∙◌, ap, ◌==◌, ltb, true, false, some, List, [], ◌∷◌,
  length, modify, find_index, find_index-some, arith, get_or-modify_self, get_or-modify_ne,
}
use osn_assignments.File.{
  File, zero_file, file_at, is_free, filealloc, filedup, Closed, panics, still_open, closes_pipe,
  puts_inode, closes_nothing, last_close, fileclose, fd_none,
}

modify-back :
    (t : List File) (i : ℕ) (f g : File → File)
    → ((x : File) → g (f x) ≡ x)
    → modify (modify t i f) i g ≡ t
modify-back [] i f g h = refl
modify-back (x ∷ t) zero f g h = ap (λ y. y ∷ t) (h x)
modify-back (x ∷ t) (suc i) f g h = ap (λ r. x ∷ r) (modify-back t i f g h)

pub in_range : (t : List File) (i : ℕ) → (file_at t i).ref ≢ 0 → i < length t
in_range [] i h = absurd (h refl)
in_range (x ∷ t) zero h = omega arith
in_range (x ∷ t) (suc i) h = omega (arith, in_range t i h)

-- A reference taken by filedup and dropped by fileclose leaves the table as it was, and the file
-- open.
fileclose-filedup :
    (i : ℕ) (t t' : List File) → filedup i t ≡ some t' → fileclose i t' ≡ still_open t
unfolding filedup fileclose
fileclose-filedup i t t' h =
    let d : (t' ≡ modify t i up) × ((file_at t i).ref ≢ 0) = ground arith in
    let n : (file_at (modify t i up) i).ref ≡ (file_at t i).ref + 1 =
      ap (λ f. f.ref) (get_or-modify_self t i up zero_file (in_range t i d.1)) in
    let z : ((file_at (modify t i up) i).ref == 0) ≡ false = ground (arith, n) in
    let b : ltb 1 (file_at (modify t i up) i).ref ≡ true = ground (arith, n) in
    rw (d.0, z, b) (ap still_open (modify-back t i up down back))
  where
    up : File → File
    up f = record f { ref = f.ref + 1 }

    down : File → File
    down f = record f { ref = f.ref - 1 }

    back : (f : File) → down (up f) ≡ f
    back f = let e : f.ref + 1 - 1 ≡ f.ref = omega arith in ap (λ r. record f { ref = r }) e

-- fileclose after fileclose, as long as the file stays open.
unfoldable pub closes : ℕ → ℕ → List File → Closed
closes zero i t = still_open t
closes (suc n) i t = elim (fileclose i t) [
  | panics ↦ panics
  | still_open t' ↦ closes n i t'
  | closes_pipe p w t' ↦ panics
  | puts_inode ip t' ↦ panics
  | closes_nothing t' ↦ panics
]

drop : File → File
drop f = record f { ref = f.ref - 1 }

fileclose-drop :
    (i : ℕ) (t : List File)
    → ltb 1 (file_at t i).ref ≡ true
    → fileclose i t ≡ still_open (modify t i drop)
unfolding fileclose drop
fileclose-drop i t b = let z : ((file_at t i).ref == 0) ≡ false = ground arith in rw (z, b)

-- A file with n + 1 references stays open through n calls of fileclose; the next one closes what it
-- stands for, as it was, and frees the slot.
closes_lem :
    (n i : ℕ) (t : List File)
    → (file_at t i).ref ≡ n + 1
    → (t' : List File) × (closes n i t ≡ still_open t')
      × ((file_at t' i).kind ≡ (file_at t i).kind)
      × (fileclose i t'
          ≡ last_close
              (file_at t i).kind
              (file_at t' i)
              (modify t' i (λ f. record f { ref = 0; kind = fd_none })))
      × ((file_at (modify t' i (λ f. record f { ref = 0; kind = fd_none })) i).ref ≡ 0)
unfolding closes fileclose drop
closes_lem zero i t h =
    let z : ((file_at t i).ref == 0) ≡ false = ground arith in
    let b : ltb 1 (file_at t i).ref ≡ false = ground arith in
    (
      t,
      refl,
      refl,
      rw (z, b),
      ap (λ f. f.ref)
          (get_or-modify_self t i (λ f. record f { ref = 0; kind = fd_none }) zero_file
            (in_range t i (omega arith))),
    )
closes_lem (suc n) i t h =
    let s = get_or-modify_self t i drop zero_file (in_range t i (omega arith)) in
    let r = closes_lem n i (modify t i drop) (ap (λ f. f.ref) s ∙ omega arith) in
    let k : (file_at (modify t i drop) i).kind ≡ (file_at t i).kind = ap (λ f. f.kind) s in
    (
      r.0,
      rw (fileclose-drop i t (ground arith), closes) r.1,
      r.2 ∙ k,
      r.3
          ∙ ap
              (λ c.
                last_close c (file_at r.0 i)
                  (modify r.0 i (λ f. record f { ref = 0; kind = fd_none })))
              k,
      r.4,
    )

-- filealloc gives the first slot without references, with one reference now, and leaves every other
-- slot alone.
filealloc_lem :
    (t : List File) (i j : ℕ)
    → find_index is_free t ≡ some i
    → i ≢ j
    → let (r, t') = filealloc t in
      (r ≡ some i)
      × ((file_at t i).ref ≡ 0)
      × ((file_at t' i).ref ≡ 1)
      × (file_at t' j ≡ file_at t j)
unfolding filealloc
filealloc_lem t i j e ne =
    let r = find_index-some is_free t i zero_file e in
    rw (e, filealloc)
      (
        refl,
        ground (arith, r.1),
        ap (λ f. f.ref) (get_or-modify_self t i (λ f. record f { ref = 1 }) zero_file r.0),
        get_or-modify_ne t i j (λ f. record f { ref = 1 }) zero_file ne,
      )
