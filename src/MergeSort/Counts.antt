-- ===== src/MergeSort/Counts.antt =====
-- How often a value stands in a range of an array of Assignment concurrency /q1/Q1.c.
use osn_assignments.Base.{
  ℕ, zero, suc, ◌+◌, ◌-◌, ◌<◌, ◌≤◌, ◌≡◌, ◌∙◌, ap, ◌==◌, if◌then◌else◌, Bool, List, [], ◌∷◌, tab,
  update, arith, inl, inr, Bool-cases, update_self, update_ne, tab-ext,
}
use osn_assignments.Base.Int.{ℤ, eq_int}
use osn_assignments.MergeSort.{Array, swap}

abbrev pub one : Bool → ℕ
one b = if b then 1 else 0

abbrev pub count : ℤ → List ℤ → ℕ
count x [] = 0
count x (y ∷ ys) = one (eq_int y x) + count x ys

-- How often `x` stands in the range.
abbrev pub occurs : ℤ → Array → ℕ → ℕ → ℕ
occurs x arr lo hi = count x (tab arr lo (hi - lo))

count-tab-update :
    (x v : ℤ) (arr : Array) (t n a : ℕ)
    → t ≤ a
    → a < t + n
    → count x (tab (update arr a v) t n) + one (eq_int (arr a) x)
      ≡ count x (tab arr t n) + one (eq_int v x)
count-tab-update x v arr t zero a h lt = absurd (omega arith)
count-tab-update x v arr t (suc n) a h lt = elim (Bool-cases (a == t)) [
  | inl e ↦
      let e' : t ≡ a = ground arith in
      let same : tab (update arr a v) (a + 1) n ≡ tab arr (a + 1) n =
        tab-ext (update arr a v) arr (a + 1) n (λ j p q. update_ne arr a j v (omega arith)) in
      rw (e', update_self arr a v, same) (omega arith)
  | inr e ↦
      let ne : update arr a v t ≡ arr t = update_ne arr a t v (ground arith) in
      rw ne (omega (arith, count-tab-update x v arr (t + 1) n a (ground arith) (omega arith)))
]

-- A swap within a range changes no count.
pub occurs-swap :
    (x : ℤ) (arr : Array) (lo hi a b : ℕ)
    → lo ≤ a
    → a < hi
    → lo ≤ b
    → b < hi
    → occurs x (swap a b arr) lo hi ≡ occurs x arr lo hi
occurs-swap x arr lo hi a b la ah lb bh = elim (Bool-cases (a == b)) [
  | inl e ↦
      let e' : a ≡ b = ground arith in
      let u1 = count-tab-update x (arr b) arr lo (hi - lo) b lb (omega arith) in
      let u2 = count-tab-update x (arr b) (update arr b (arr b)) lo (hi - lo) b lb (omega arith) in
      let s : update arr b (arr b) b ≡ arr b = update_self arr b (arr b) in
      rw e' (omega (arith, u1, u2, ap (λ v. one (eq_int v x)) s))
  | inr e ↦
      let u1 = count-tab-update x (arr b) arr lo (hi - lo) a la (omega arith) in
      let u2 = count-tab-update x (arr a) (update arr a (arr b)) lo (hi - lo) b lb (omega arith) in
      let s : update arr a (arr b) b ≡ arr b = update_ne arr a b (arr b) (ground arith) in
      omega (arith, u1, u2, ap (λ v. one (eq_int v x)) s)
]

count-append_tab :
    (x : ℤ) (arr : Array) (t n m : ℕ)
    → count x (tab arr t (n + m)) ≡ count x (tab arr t n) + count x (tab arr (t + n) m)
count-append_tab x arr t zero m =
    let a : zero + m ≡ m = omega arith in
    let b : t + zero ≡ t = omega arith in rw (a, b) (omega arith)
count-append_tab x arr t (suc n) m =
    let a : suc n + m ≡ suc (n + m) = omega arith in
    let b : t + suc n ≡ t + 1 + n = omega arith in
    rw (a, b) (omega (arith, count-append_tab x arr (t + 1) n m))

-- A range is its two parts.
pub occurs-split :
    (x : ℤ) (arr : Array) (lo mid hi : ℕ)
    → lo ≤ mid
    → mid ≤ hi
    → occurs x arr lo hi ≡ occurs x arr lo mid + occurs x arr mid hi
occurs-split x arr lo mid hi a b =
    let e : hi - lo ≡ (mid - lo) + (hi - mid) = omega arith in
    let f : lo + (mid - lo) ≡ mid = omega arith in
    rw e (count-append_tab x arr lo (mid - lo) (hi - mid) ∙ rw f)

pub occurs-ext :
    (x : ℤ) (arr arr' : Array) (lo hi : ℕ)
    → ((j : ℕ) → lo ≤ j → j < hi → arr j ≡ arr' j)
    → occurs x arr lo hi ≡ occurs x arr' lo hi
occurs-ext x arr arr' lo hi h =
    ap (count x) (tab-ext arr arr' lo (hi - lo) (λ j p q. h j p (omega arith)))
