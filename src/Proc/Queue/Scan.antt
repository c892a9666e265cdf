-- ===== src/Proc/Queue/Scan.antt =====
-- The duplicate check of push in xv6 modified/proc.c: what its scans of the five levels find.
use osn_assignments.Base.{
  ℕ, zero, suc, ◌+◌, ◌-◌, ◌%◌, ◌<◌, ◌≤◌, ◌≡◌, refl, ◌∙◌, sym, ap, ap₂, inl, inr, leb, ◌==◌,
  if◌then◌else◌, Bool, true, false, ◌||◌, Bool-cases, Option, none, some, List, [], ◌∷◌, ◌++◌,
  get_or, arith,
}
use osn_assignments.Proc.Types.{Levels}
use osn_assignments.Proc.Queue.{is_ptr, is_empty, level, below_level, cell, any_from, scan_level}
use osn_assignments.Proc.Queue.Window.{tab, ring, ring_len, contents, IsLevel, contains}

any_from-eq-contains : (c : ℕ → Option ℕ) (n k b : ℕ) → any_from c n k b ≡ contains b (tab c k n)
unfolding any_from
any_from-eq-contains c zero k b = refl
any_from-eq-contains c (suc n) k b = elim (Bool-cases (is_ptr (c k) b)) [
  | inl h ↦ rw h
  | inr h ↦ rw h (any_from-eq-contains c n (k + 1) b)
]

contains-append :
    (p : ℕ) (xs ys : List (Option ℕ)) → contains p (xs ++ ys) ≡ (contains p xs || contains p ys)
contains-append p [] ys = refl
contains-append p (x ∷ xs) ys = elim (Bool-cases (is_ptr x p)) [
  | inl h ↦ rw h
  | inr h ↦ rw h (contains-append p xs ys)
]

tab-append : (g : ℕ → Option ℕ) (t n m u : ℕ) → t + n ≡ u → tab g t (n + m) ≡ tab g t n ++ tab g u m
tab-append g t zero m u e =
    let e1 : t ≡ u = omega arith in let e2 : 0 + m ≡ m = omega arith in rw (e1, e2)
tab-append g t (suc n) m u e =
    let e1 : suc n + m ≡ suc (n + m) = omega arith in
    rw e1 (ap (λ r. g t ∷ r) (tab-append g (t + 1) n m u (omega arith)))

-- Two windows with the same items at the same distance from their starts.
tab-eq :
    (g h : ℕ → Option ℕ) (t u n : ℕ)
    → ((j : ℕ) → j < n → g (t + j) ≡ h (u + j))
    → tab g t n ≡ tab h u n
tab-eq g h t u zero e = refl
tab-eq g h t u (suc n) e =
    let e0 : t + 0 ≡ t = omega arith in
    let e1 : u + 0 ≡ u = omega arith in
    let first : g (t + 0) ≡ h (u + 0) = e 0 (omega arith) in
    ap₂ ◌∷◌ (rw (e0, e1) at first) (
      tab-eq g h (t + 1) (u + 1) n
        (λ j q. ap g (plus t j) ∙ e (j + 1) (omega arith) ∙ ap h (sym (plus u j))))
  where
    plus : (t j : ℕ) → t + 1 + j ≡ t + (j + 1)
    plus t j = omega arith

cell-suc : (q : Levels) (i k x : ℕ) → k ≡ suc x → cell q i k ≡ get_or (level q i).slots x none
cell-suc q i k x e = rw e

module _ (q : Levels) (i x f b : ℕ) (hf : f < 64) (hb : b < 64) where
  abbrev s : List (Option ℕ)
  s = (level q i).slots

  straight : f ≤ b → tab (cell q i) (f + 1) (b + 1 + 1 - (f + 1)) ≡ tab (ring s f) 0 (ring_len f b)
  straight le =
      let n : b + 1 + 1 - (f + 1) ≡ ring_len f b = omega arith in
      rw n (
        tab-eq (cell q i) (ring s f) (f + 1) 0 (ring_len f b)
          (λ j a. cell-suc q i (f + 1 + j) ((f + (0 + j)) % 64) (omega arith)))

  wrapped :
      b < f
      → tab (cell q i) (f + 1) (64 + 1 - (f + 1)) ++ tab (cell q i) 1 (b + 1)
        ≡ tab (ring s f) 0 (ring_len f b)
  wrapped lt =
      let n : ring_len f b ≡ 64 - f + (b + 1) = omega arith in
      let n1 : 64 + 1 - (f + 1) ≡ 64 - f = omega arith in
      rw (n, n1, tab-append (ring s f) 0 (64 - f) (b + 1) (64 - f) (omega arith))
        (ap₂ ◌++◌
          (tab-eq (cell q i) (ring s f) (f + 1) 0 (64 - f)
            (λ j a. cell-suc q i (f + 1 + j) ((f + (0 + j)) % 64) (omega arith)))
          (tab-eq (cell q i) (ring s f) 1 (64 - f) (b + 1)
            (λ j a. cell-suc q i (1 + j) ((f + (64 - f + j)) % 64) (omega arith))))

-- What the scan of a level sees: the processes in it, or, where it is empty, the word below it.
abbrev pub seen : Levels → ℕ → ℕ → Bool
seen q i b =
    if is_empty (level q i) then is_ptr (below_level q i) b else contains b (contents (level q i))

or_false : (b : Bool) → (b || false) ≡ b
or_false true = refl
or_false false = refl

scan_cases :
    (q : Levels) (i x : ℕ) (f b : Option ℕ)
    → IsLevel (level q i)
    → (level q i).face ≡ f
    → (level q i).back ≡ b
    → scan_level q i x ≡ seen q i x
unfolding scan_level any_from
scan_cases q i x none none v ef eb = rw (ef, eb) (or_false (is_ptr (below_level q i) x))
scan_cases q i x none (some b) v ef eb = absurd (rw (ef, eb) at (v.cursors))
scan_cases q i x (some f) none v ef eb = absurd (rw (ef, eb) at (v.cursors))
scan_cases q i x (some f) (some b) v ef eb =
    let v' : (f < 64) × (b < 64) = rw (ef, eb) at (v.cursors) in
    let e : (f + 1 == 0) ≡ false = ground arith in
    elim (Bool-cases (leb (f + 1) (b + 1))) [
      | inl h ↦
          let st = straight q i x f b v'.0 v'.1 (ground arith) in
          rw (ef, eb, e, h, ← st) (any_from-eq-contains (cell q i) (b + 1 + 1 - (f + 1)) (f + 1) x)
      | inr h ↦
          let wr = wrapped q i x f b v'.0 v'.1 (ground arith) in
          rw
            (
              ef,
              eb,
              e,
              h,
              ← wr,
              any_from-eq-contains (cell q i) (64 + 1 - (f + 1)) (f + 1) x,
              any_from-eq-contains (cell q i) (b + 1) 1 x,
            )
            (sym (
              contains-append x (tab (cell q i) (f + 1) (64 + 1 - (f + 1)))
                (tab (cell q i) 1 (b + 1))))
    ]

-- The scan of a valid level.
pub scan_level-seen : (q : Levels) (i x : ℕ) → IsLevel (level q i) → scan_level q i x ≡ seen q i x
scan_level-seen q i x v = scan_cases q i x (level q i).face (level q i).back v refl refl
