-- ===== src/Str/Move.antt =====
-- memset and memmove of xv6 modified/string.c: which bytes change, and to what.
use osn_assignments.Base.{
  ℕ, zero, suc, ◌+◌, ◌-◌, ◌*◌, ◌/◌, ◌%◌, ◌<◌, ◌≤◌, ◌≡◌, ◌∙◌, ◌⊎◌, inl, inr, ◌==◌, ltb, leb,
  if◌then◌else◌, Bool, true, false, ◌&&◌, Bool-cases, update, update_ne, arith,
}
use osn_assignments.Str.{stosb, store_word, stosl, memset, move_down, move_up, memmove}

-- Whether `a` is one of the `n` addresses from `d` on.
abbrev pub within : ℕ → ℕ → ℕ → Bool
within d n a = if leb d a then ltb a (d + n) else false

move_up_lem :
    (d s n a : ℕ) (m : ℕ → ℕ)
    → (d ≤ s) ⊎ (s + n ≤ d)
    → move_up d s n m a ≡ (if within d n a then m (s + (a - d)) else m a)
unfolding move_up
move_up_lem d s zero a m o = let e : within d 0 a ≡ false = ground arith in rw e
move_up_lem d s (suc n) a m o =
    move_up_lem (d + 1) (s + 1) n a (update m d (m s)) (omega arith) ∙ here
  where
    here :
        (if within (d + 1) n a
          then update m d (m s) (s + 1 + (a - (d + 1)))
          else update m d (m s) a)
        ≡ (if within d (suc n) a then m (s + (a - d)) else m a)
    here = elim (Bool-cases (d == a)) [
      | inl e ↦
          let e' : d ≡ a = ground arith in
          let w1 : within (d + 1) n a ≡ false = ground arith in
          let w2 : within d (suc n) a ≡ true = ground arith in
          let z : s + (a - d) ≡ s = omega arith in rw (w1, w2, e, z)
      | inr e ↦ elim (Bool-cases (within (d + 1) n a)) [
        | inl w1 ↦
            let w2 : within d (suc n) a ≡ true = ground arith in
            let z : s + 1 + (a - (d + 1)) ≡ s + (a - d) = ground arith in
            rw (w1, w2, z) (update_ne m d (s + (a - d)) (m s) (ground arith))
        | inr w1 ↦ let w2 : within d (suc n) a ≡ false = ground arith in rw (w1, w2, e)
      ]
    ]

move_down_lem :
    (d s n a : ℕ) (m : ℕ → ℕ)
    → s ≤ d
    → move_down d s n m a ≡ (if within d n a then m (s + (a - d)) else m a)
unfolding move_down
move_down_lem d s zero a m o = let e : within d 0 a ≡ false = ground arith in rw e
move_down_lem d s (suc n) a m o = move_down_lem d s n a (update m (d + n) (m (s + n))) o ∙ here
  where
    here :
        (if within d n a
          then update m (d + n) (m (s + n)) (s + (a - d))
          else update m (d + n) (m (s + n)) a)
        ≡ (if within d (suc n) a then m (s + (a - d)) else m a)
    here = elim (Bool-cases (d + n == a)) [
      | inl e ↦
          let w1 : within d n a ≡ false = ground arith in
          let w2 : within d (suc n) a ≡ true = ground arith in
          let z : s + (a - d) ≡ s + n = ground arith in rw (w1, w2, e, z)
      | inr e ↦ elim (Bool-cases (within d n a)) [
        | inl w1 ↦
            let w2 : within d (suc n) a ≡ true = ground arith in
            rw (w1, w2) (update_ne m (d + n) (s + (a - d)) (m (s + n)) (ground arith))
        | inr w1 ↦ let w2 : within d (suc n) a ≡ false = ground arith in rw (w1, w2, e)
      ]
    ]

-- memmove copies the n bytes as they were before the call, also where the two ranges overlap in
-- either way, and changes no other byte.
pub memmove_lem :
    (dst src n a : ℕ) (m : ℕ → ℕ)
    → memmove dst src n m a ≡ (if within dst n a then m (src + (a - dst)) else m a)
unfolding memmove
memmove_lem dst src n a m = elim (Bool-cases (ltb src dst && ltb dst (src + n))) [
  | inl e ↦ rw e (move_down_lem dst src n a m (ground arith))
  | inr e ↦ rw e (move_up_lem dst src n a m (ground arith))
]

stosb_lem : (d c n a : ℕ) (m : ℕ → ℕ) → stosb d c n m a ≡ (if within d n a then c % 256 else m a)
unfolding stosb
stosb_lem d c zero a m = let e : within d 0 a ≡ false = ground arith in rw e
stosb_lem d c (suc n) a m = stosb_lem (d + 1) c n a (update m d (c % 256)) ∙ here
  where
    here :
        (if within (d + 1) n a then c % 256 else update m d (c % 256) a)
        ≡ (if within d (suc n) a then c % 256 else m a)
    here = ground arith

stosl_lem :
    (d b n a : ℕ) (m : ℕ → ℕ)
    → b < 256
    → stosl d (b * 16777216 + b * 65536 + b * 256 + b) n m a
      ≡ (if within d (n * 4) a then b else m a)
unfolding stosl
stosl_lem d b zero a m h = let e : within d (0 * 4) a ≡ false = ground arith in rw e
stosl_lem d b (suc n) a m h =
    stosl_lem (d + 4) b n a (store_word d (b * 16777216 + b * 65536 + b * 256 + b) m) h ∙ here
  where
    w : ℕ
    w = b * 16777216 + b * 65536 + b * 256 + b

    here :
        (if within (d + 4) (n * 4) a
          then b
          else store_word d (b * 16777216 + b * 65536 + b * 256 + b) m a)
        ≡ (if within d (suc n * 4) a then b else m a)
    here =
        let b0 : w % 256 ≡ b = omega arith in
        let b1 : w / 256 % 256 ≡ b = omega arith in
        let b2 : w / 65536 % 256 ≡ b = omega arith in
        let b3 : w / 16777216 % 256 ≡ b = omega arith in rw (b0, b1, b2, b3) (ground arith)

-- memset writes the low byte of c to each of the n addresses from dst on, whether it stores words or
-- bytes, and changes no other byte.
memset_lem :
    (dst c n a : ℕ) (m : ℕ → ℕ) → memset dst c n m a ≡ (if within dst n a then c % 256 else m a)
unfolding memset
memset_lem dst c n a m = elim (Bool-cases ((dst % 4 == 0) && (n % 4 == 0))) [
  | inl e ↦
      let z : n / 4 * 4 ≡ n = ground arith in
      rw (e, stosl_lem dst (c % 256) (n / 4) a m (omega arith), z)
  | inr e ↦ rw e (stosb_lem dst c n a m)
]
