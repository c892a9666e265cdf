-- ===== src/Fs/Content/Writing.antt =====
-- writei of xv6 modified/fs.c changes the bytes of the file that it is to write, and no others.
use osn_assignments.Base.{
  ℕ, zero, suc, ◌+◌, ◌-◌, ◌/◌, ◌%◌, ◌<◌, ◌≤◌, ◌≡◌, ◌≢◌, refl, sym, ◌∙◌, ap, ◌==◌, ltb, leb,
  if◌then◌else◌, Bool-cases, inl, inr, false, List, [], ◌∷◌, get_or, length, take, drop, update,
  update_ne, update_self, arith,
}
use osn_assignments.Fs.{Blocks, set_byte}
use osn_assignments.Fs.Icache.{Dinode}
use osn_assignments.Fs.Content.{entry, addr, put_bytes}
use osn_assignments.Fs.Content.Reading.{home, byte_at}

-- `f` with the bytes of the list from `i` on.
abbrev pub patched : ℕ → List ℕ → (ℕ → ℕ) → ℕ → ℕ
patched i l f j =
    if leb i j then (if ltb j (i + length l) then get_or l (j - i) 0 else f j) else f j

pub put_bytes-other :
    (blocks : Blocks) (b c i : ℕ) (l : List ℕ) → b ≢ c → put_bytes blocks b i l c ≡ blocks c
unfolding put_bytes
put_bytes-other blocks b c i [] ne = refl
put_bytes-other blocks b c i (x ∷ xs) ne =
    put_bytes-other (set_byte blocks b i x) b c (i + 1) xs ne
    ∙ update_ne blocks b c (update (blocks b) i x) ne

put_bytes-patched :
    (blocks : Blocks) (b i : ℕ) (l : List ℕ) (j : ℕ)
    → put_bytes blocks b i l b j ≡ patched i l (blocks b) j
unfolding put_bytes
put_bytes-patched blocks b i [] j = ground arith
put_bytes-patched blocks b i (x ∷ xs) j =
    let ih = put_bytes-patched (set_byte blocks b i x) b (i + 1) xs j in
    let here : set_byte blocks b i x b j ≡ update (blocks b) i x j =
      ap (λ (f : ℕ → ℕ). f j) (update_self blocks b (update (blocks b) i x)) in
    elim (Bool-cases (i == j)) [
      | inl e ↦ let q : j - i ≡ 0 = ground (arith, e) in rw q (ground (arith, ih, here, e))
      | inr e ↦ elim (Bool-cases (leb i j)) [
        | inl f ↦
            let q : j - i ≡ suc (j - (i + 1)) = ground (arith, e, f) in
            rw q (ground (arith, ih, here, e, f))
        | inr f ↦ ground (arith, ih, here, e, f)
      ]
    ]

pub home-put_bytes :
    (ip : Dinode) (blocks : Blocks) (b i : ℕ) (l : List ℕ) (k : ℕ)
    → b ≢ addr ip 12
    → home ip (put_bytes blocks b i l) k ≡ home ip blocks k
home-put_bytes ip blocks b i l k ne =
    ap
      (λ (f : ℕ → ℕ).
        if ltb k 12 then addr ip k else if addr ip 12 == 0 then 0 else entry f (k - 12))
      (put_bytes-other blocks b (addr ip 12) i l ne)

-- No block stands at two places of the file, and none is the block of the further addresses.
pub record IsApart (ip : Dinode) (blocks : Blocks) : Type 0 where
  pub once :
      (j k : ℕ)
      → j < 140
      → k < 140
      → home ip blocks j ≢ 0
      → home ip blocks j ≡ home ip blocks k
      → j ≡ k
  pub no_table : (k : ℕ) → k < 140 → home ip blocks k ≢ 0 → home ip blocks k ≢ addr ip 12

same_block :
    (f g : ℕ → ℕ) (off o : ℕ) (l : List ℕ)
    → off / 512 ≡ o / 512
    → f (o % 512) ≡ g o
    → patched (off % 512) l f (o % 512) ≡ patched off l g o
same_block f g off o l k h =
    let a : leb (off % 512) (o % 512) ≡ leb off o = ground arith in
    let b : ltb (o % 512) (off % 512 + length l) ≡ ltb o (off + length l) = ground arith in
    let d : o % 512 - off % 512 ≡ o - off = omega arith in rw (a, b, d, h) refl

outside :
    (f : ℕ → ℕ) (off o : ℕ) (l : List ℕ)
    → off / 512 ≢ o / 512
    → length l + off % 512 ≤ 512
    → patched off l f o ≡ f o
outside f off o l ne h = elim (Bool-cases (leb off o)) [
  | inr a ↦ rw a refl
  | inl a ↦
      let le : off ≤ o = ground (arith, a) in
      let far : off + length l ≤ o = omega arith in
      let b : ltb o (off + length l) ≡ false = ground (arith, far) in rw (a, b) refl
]

-- One round of the loop.
pub chunk :
    (ip : Dinode) (blocks : Blocks) (off : ℕ) (l : List ℕ) (o : ℕ)
    → IsApart ip blocks
    → off / 512 < 140
    → home ip blocks (off / 512) ≢ 0
    → length l + off % 512 ≤ 512
    → o < 71680
    → byte_at ip (put_bytes blocks (home ip blocks (off / 512)) (off % 512) l) o
      ≡ patched off l (byte_at ip blocks) o
chunk ip blocks off l o a lt h len ol =
    let b = home ip blocks (off / 512) in
    let e : home ip (put_bytes blocks b (off % 512) l) (o / 512) ≡ home ip blocks (o / 512) =
      home-put_bytes ip blocks b (off % 512) l (o / 512) (a.no_table (off / 512) lt h) in
    elim (Bool-cases (off / 512 == o / 512)) [
      | inl q ↦
          let k : off / 512 ≡ o / 512 = ground (arith, q) in
          ap (λ c. put_bytes blocks b (off % 512) l c (o % 512)) (e ∙ ap (home ip blocks) (sym k))
          ∙ put_bytes-patched blocks b (off % 512) l (o % 512)
          ∙ same_block (blocks b) (byte_at ip blocks) off o l k
              (ap (λ c. blocks (home ip blocks c) (o % 512)) k)
      | inr q ↦
          let k : off / 512 ≢ o / 512 = ground (arith, q) in
          let ne : b ≢ home ip blocks (o / 512) =
            λ s. k (a.once (off / 512) (o / 512) lt (omega arith) h s) in
          ap (λ c. put_bytes blocks b (off % 512) l c (o % 512)) e
          ∙ ap (λ (f : ℕ → ℕ). f (o % 512))
              (put_bytes-other blocks b (home ip blocks (o / 512)) (off % 512) l ne)
          ∙ sym (outside (byte_at ip blocks) off o l k len)
    ]

pub length-take : (m : ℕ) (l : List ℕ) → m ≤ length l → length (take m l) ≡ m
length-take zero l h = refl
length-take (suc m) [] h = absurd (omega arith)
length-take (suc m) (x ∷ l) h = ap suc (length-take m l (omega arith))

pub length-drop : (m : ℕ) (l : List ℕ) → length (drop m l) ≡ length l - m
length-drop zero l = omega arith
length-drop (suc m) [] = omega arith
length-drop (suc m) (x ∷ l) = length-drop m l ∙ omega arith

get_or-take : (m : ℕ) (l : List ℕ) (i : ℕ) → i < m → get_or (take m l) i 0 ≡ get_or l i 0
get_or-take zero l i h = absurd (omega arith)
get_or-take (suc m) [] i h = refl
get_or-take (suc m) (x ∷ l) zero h = refl
get_or-take (suc m) (x ∷ l) (suc i) h = get_or-take m l i (omega arith)

get_or-drop : (m : ℕ) (l : List ℕ) (i : ℕ) → get_or (drop m l) i 0 ≡ get_or l (m + i) 0
get_or-drop zero l i = ap (λ k. get_or l k 0) (omega arith)
get_or-drop (suc m) [] i = refl
get_or-drop (suc m) (x ∷ l) i =
    let e : suc m + i ≡ suc (m + i) = omega arith in rw e (get_or-drop m l i)

-- The first bytes and then the rest are the whole.
pub patched-patched :
    (f g : ℕ → ℕ) (off m o : ℕ) (l : List ℕ)
    → m ≤ length l
    → g o ≡ patched off (take m l) f o
    → patched (off + m) (drop m l) g o ≡ patched off l f o
patched-patched f g off m o l h e =
    let lt = length-take m l h in
    let ld = length-drop m l in
    elim (Bool-cases (ltb o (off + m))) [
      | inl a ↦ elim (Bool-cases (leb off o)) [
        | inl b ↦
            let q = get_or-take m l (o - off) (ground (arith, a, b)) in
            ground (arith, a, b, e, lt, ld, q, h)
        | inr b ↦ ground (arith, a, b, e, lt, ld, h)
      ]
      | inr a ↦
          let k : m + (o - (off + m)) ≡ o - off = ground (arith, a) in
          let q : get_or (drop m l) (o - (off + m)) 0 ≡ get_or l (o - off) 0 =
            get_or-drop m l (o - (off + m)) ∙ ap (λ j. get_or l j 0) k in
          ground (arith, a, e, lt, ld, q, h)
    ]
