-- ===== src/Ulib/Numbers.antt =====
-- printint of xv6 modified/printf.c and atoi of ulib.c undo each other, and strcmp decides equality.
use osn_assignments.Base.{
  ℕ, zero, suc, ◌+◌, ◌-◌, ◌*◌, ◌/◌, ◌%◌, ◌^◌, ◌<◌, ◌≡◌, ◌≢◌, ◌↔◌, refl, inl, inr, ◌==◌, leb, Bool,
  true, false, ◌&&◌, Bool-cases, List, [], ◌∷◌, ◌++◌, All, arith,
}
use osn_assignments.Base.Int.{pos}
use osn_assignments.Ulib.{strcmp, is_digit, atoi_from, atoi, digit, fill_buf, put_back, printint}

-- All characters are digits.
abbrev Digits : List ℕ → Type 0
Digits [] = Unit
Digits (c ∷ s) = (is_digit c ≡ true) × Digits s

Digits-append : (s : List ℕ) (c : ℕ) → Digits s → is_digit c ≡ true → Digits (s ++ (c ∷ []))
Digits-append [] c d h = (h, tt)
Digits-append (a ∷ s) c d h = (d.0, Digits-append s c d.1 h)

atoi_from-append :
    (n c : ℕ) (s : List ℕ)
    → Digits s
    → is_digit c ≡ true
    → atoi_from n (s ++ (c ∷ [])) ≡ (atoi_from n s * 10 + c - 48) % 2 ^ 32
unfolding atoi_from
atoi_from-append n c [] d h = rw h
atoi_from-append n c (a ∷ s) d h = rw d.0 (atoi_from-append ((n * 10 + a - 48) % 2 ^ 32) c s d.1 h)

abbrev pow10 : ℕ → ℕ
pow10 zero = 1
pow10 (suc n) = 10 * pow10 n

digit-is_digit : (x : ℕ) → is_digit (digit (x % 10)) ≡ true
digit-is_digit x = ground arith

Digits-fill_buf : (room x : ℕ) → Digits (put_back (fill_buf room 10 x))
unfolding fill_buf put_back atoi_from
Digits-fill_buf zero x = tt
Digits-fill_buf (suc room) x = elim (Bool-cases (x / 10 == 0)) [
  | inl e ↦ rw e (digit-is_digit x, tt)
  | inr e ↦ rw e (
      Digits-append (put_back (fill_buf room 10 (x / 10))) (digit (x % 10))
        (Digits-fill_buf room (x / 10)) (digit-is_digit x))
]

atoi_from-fill_buf :
    (room x : ℕ)
    → x < pow10 (suc room)
    → x < 2 ^ 32
    → atoi_from 0 (put_back (fill_buf (suc room) 10 x)) ≡ x
unfolding fill_buf put_back atoi_from
atoi_from-fill_buf zero x h w =
    let e : (x / 10 == 0) ≡ true = ground arith in
    rw (e, atoi_from, digit-is_digit x) (ground arith)
atoi_from-fill_buf (suc room) x h w = elim (Bool-cases (x / 10 == 0)) [
  | inl e ↦ rw (e, atoi_from, digit-is_digit x) (ground arith)
  | inr e ↦
      rw
        (
          e,
          atoi_from-append 0 (digit (x % 10)) (put_back (fill_buf (suc room) 10 (x / 10)))
              (Digits-fill_buf (suc room) (x / 10)) (digit-is_digit x),
          atoi_from-fill_buf room (x / 10) (omega arith) (omega arith),
        )
        (ground arith)
]

-- atoi reads back what printint prints in base 10, for every int that is not negative.
pub atoi-printint : (x : ℕ) (sgn : Bool) → x < 2 ^ 31 → atoi (printint x 10 sgn) ≡ x
unfolding atoi printint
atoi-printint x sgn h =
    let e : (sgn && leb (2 ^ 31) x) ≡ false = ground arith in
    rw e (atoi_from-fill_buf 15 x (omega arith) (omega arith))

-- strcmp gives 0 exactly for equal strings; the strings hold no NUL.
strcmp_iff :
    (p q : List ℕ) → All (λ c. c ≢ 0) p → All (λ c. c ≢ 0) q → (strcmp p q ≡ pos 0) ↔ (p ≡ q)
unfolding strcmp
strcmp_iff [] [] hp hq = (λ h. refl, λ h. refl)
strcmp_iff [] (b ∷ q) hp hq = let ne = hq.0 in (λ h. absurd (ground arith), λ h. absurd (cc))
strcmp_iff (a ∷ p) [] hp hq = let ne = hp.0 in (λ h. absurd (ground arith), λ h. absurd (cc))
strcmp_iff (a ∷ p) (b ∷ q) hp hq = elim (Bool-cases (a == b)) [
  | inl e ↦
      let e' : a ≡ b = ground arith in
      let r = strcmp_iff p q hp.1 hq.1 in rw e (λ h. rw (e', r.0 h), λ h. r.1 cc)
  | inr e ↦ let ne : a ≢ b = ground arith in rw e (λ h. absurd (ground arith), λ h. absurd (ne cc))
]
