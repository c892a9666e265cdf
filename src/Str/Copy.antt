-- ===== src/Str/Copy.antt =====
-- strncpy, safestrcpy, strlen, memcmp and strncmp of xv6 modified/string.c.
use osn_assignments.Base.{
  ℕ, zero, suc, ◌+◌, ◌<◌, ◌≤◌, ◌≡◌, ◌≢◌, refl, sym, ◌∙◌, ap, ◌⊎◌, inl, inr, ◌==◌, true, false,
  Bool-cases, some, update, update_self, update_ne, arith,
}
use osn_assignments.Base.Int.{pos}
use osn_assignments.Str.{memcmp, safe_copy, safestrcpy, strlen_from, strlen}

safe_copy-outside : (s t n a : ℕ) (m : ℕ → ℕ) → (a < s) ⊎ (s + n < a) → safe_copy s t n m a ≡ m a
unfolding safe_copy
safe_copy-outside s t zero a m o = update_ne m s a 0 (omega arith)
safe_copy-outside s t (suc n) a m o = elim (Bool-cases (m t == 0)) [
  | inl e ↦
      rw e (
        update_ne (update m s (m t)) (s + 1) a 0 (omega arith)
        ∙ update_ne m s a (m t) (omega arith))
  | inr e ↦ rw e (
      safe_copy-outside (s + 1) (t + 1) n a (update m s (m t)) (omega arith)
      ∙ update_ne m s a (m t) (omega arith))
]

safe_copy-ends : (s t n : ℕ) (m : ℕ → ℕ) → (j : ℕ) × (j ≤ n) × (safe_copy s t n m (s + j) ≡ 0)
unfolding safe_copy
safe_copy-ends s t zero m =
    (0, omega arith, let e : s + 0 ≡ s = omega arith in rw e (update_self m s 0))
safe_copy-ends s t (suc n) m = elim (Bool-cases (m t == 0)) [
  | inl e ↦ (1, omega arith, rw e (update_self (update m s (m t)) (s + 1) 0))
  | inr e ↦
      let r = safe_copy-ends (s + 1) (t + 1) n (update m s (m t)) in
      let p : s + suc r.0 ≡ s + 1 + r.0 = omega arith in
      (suc r.0, omega (arith, r.1), rw (e, p) r.2)
]

-- safestrcpy with n above 0 leaves a NUL within the n bytes of the destination, and changes no byte
-- outside them, whatever stands in the source and wherever it stands.
safestrcpy_lem :
    (s t n a : ℕ) (m : ℕ → ℕ)
    → 0 < n
    → (a < s) ⊎ (s + n ≤ a)
    → ((j : ℕ) × (j < n) × (safestrcpy s t n m (s + j) ≡ 0)) × (safestrcpy s t n m a ≡ m a)
unfolding safestrcpy
safestrcpy_lem s t zero a m h o = absurd (omega arith)
safestrcpy_lem s t (suc n) a m h o =
    let r = safe_copy-ends s t n m in
    ((r.0, omega (arith, r.1), r.2), safe_copy-outside s t n a m (omega arith))

strlen_from-found :
    (fuel s n l : ℕ) (m : ℕ → ℕ)
    → n ≤ l
    → l < n + fuel
    → m (s + l) ≡ 0
    → ((j : ℕ) → n ≤ j → j < l → m (s + j) ≢ 0)
    → strlen_from fuel s n m ≡ some l
unfolding strlen_from
strlen_from-found zero s n l m a b e f = absurd (omega arith)
strlen_from-found (suc fuel) s n l m a b e f = elim (Bool-cases (n == l)) [
  | inl h ↦
      let h' : n ≡ l = ground arith in let z : (m (s + l) == 0) ≡ true = ground arith in rw (h', z)
  | inr h ↦
      let ne : m (s + n) ≢ 0 = f n (omega arith) (ground arith) in
      let z : (m (s + n) == 0) ≡ false = ground arith in
      rw z (
        strlen_from-found fuel s (n + 1) l m (ground arith) (omega arith) e
          (λ j p q. f j (omega arith) q))
]

-- strlen gives the place of the first NUL, if it is within the bytes that it may read.
strlen_lem :
    (fuel s l : ℕ) (m : ℕ → ℕ)
    → l < fuel
    → m (s + l) ≡ 0
    → ((j : ℕ) → j < l → m (s + j) ≢ 0)
    → strlen fuel s m ≡ some l
unfolding strlen
strlen_lem fuel s l m h e f =
    strlen_from-found fuel s 0 l m (omega arith) (omega arith) e (λ j a b. f j b)

-- memcmp gives 0 if the two ranges hold the same bytes.
memcmp-same :
    (s t n : ℕ) (m : ℕ → ℕ) → ((j : ℕ) → j < n → m (s + j) ≡ m (t + j)) → memcmp s t n m ≡ pos 0
unfolding memcmp
memcmp-same s t zero m h = refl
memcmp-same s t (suc n) m h =
    let e0 : s + 0 ≡ s = omega arith in
    let e1 : t + 0 ≡ t = omega arith in
    let e : m s ≡ m t = rw (e0, e1) at (h 0 (omega arith)) in
    let z : (m s == m t) ≡ true = ground arith in
    rw z (
      memcmp-same (s + 1) (t + 1) n m
        (λ j lt. ap m (plus s j) ∙ h (j + 1) (omega arith) ∙ sym (ap m (plus t j))))
  where
    plus : (s j : ℕ) → s + 1 + j ≡ s + (j + 1)
    plus s j = omega arith
