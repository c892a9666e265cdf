-- ===== src/Base/Find.antt =====
-- Search loops over an array: the first match, and an update in place.
use Prim.Native.Nat.{ℕ, zero, suc, ◌<◌}
use mathlib.Core.Path.{◌≡◌, refl, ap}
use mathlib.Core.Logic.{◌≢◌, inl, inr}
use mathlib.Core.Bool.{Bool, true, false}
use mathlib.Core.Option.{Option, none, some}
use mathlib.Core.Option
use mathlib.Core.List.{List, [], ◌∷◌}
use native.Mathlib.Omega.{arith}
use osn_assignments.Base.Tests.{if◌then◌else◌, Bool-cases}
use osn_assignments.Base.Lists.{length, get_or}

module _ {ℓ} {A : Type ℓ} where
  abbrev pub modify : List A → ℕ → (A → A) → List A
  modify [] i f = []
  modify (x ∷ xs) zero f = f x ∷ xs
  modify (x ∷ xs) (suc i) f = x ∷ modify xs i f

  pub length-modify : (xs : List A) (i : ℕ) (f : A → A) → length (modify xs i f) ≡ length xs
  length-modify [] i f = refl
  length-modify (x ∷ xs) zero f = refl
  length-modify (x ∷ xs) (suc i) f = ap suc (length-modify xs i f)

  pub get_or-modify_self :
      (xs : List A) (i : ℕ) (f : A → A) (d : A)
      → i < length xs
      → get_or (modify xs i f) i d ≡ f (get_or xs i d)
  get_or-modify_self [] i f d h = absurd (omega arith)
  get_or-modify_self (x ∷ xs) zero f d h = refl
  get_or-modify_self (x ∷ xs) (suc i) f d h = get_or-modify_self xs i f d (omega arith)

  pub get_or-modify_ne :
      (xs : List A) (i j : ℕ) (f : A → A) (d : A)
      → i ≢ j
      → get_or (modify xs i f) j d ≡ get_or xs j d
  get_or-modify_ne [] i j f d h = refl
  get_or-modify_ne (x ∷ xs) zero zero f d h = absurd (h refl)
  get_or-modify_ne (x ∷ xs) zero (suc j) f d h = refl
  get_or-modify_ne (x ∷ xs) (suc i) zero f d h = refl
  get_or-modify_ne (x ∷ xs) (suc i) (suc j) f d h = get_or-modify_ne xs i j f d (λ e. h (ap suc e))

  -- `for(p = table; p < &table[N]; p++) if(test) break;`
  unfoldable pub find_index : (A → Bool) → List A → Option ℕ
  find_index test [] = none
  find_index test (x ∷ xs) = if test x then some 0 else Option.map suc (find_index test xs)

  -- The index of the first match: it is in range, it passes, and nothing before it does.
  pub find_index-some :
      (test : A → Bool) (xs : List A) (i : ℕ) (d : A)
      → find_index test xs ≡ some i
      → (i < length xs)
        × (test (get_or xs i d) ≡ true)
        × ((j : ℕ) → j < i → test (get_or xs j d) ≡ false)
  unfolding find_index
  find_index-some test [] i d h = absurd (ground arith)
  find_index-some test (x ∷ xs) zero d h = elim (Bool-cases (test x)) [
    | inl e ↦ (omega arith, e, λ j q. absurd (omega arith))
    | inr e ↦ absurd (ground arith)
  ]
  find_index-some test (x ∷ xs) (suc i) d h = elim (Bool-cases (test x)) [
    | inl e ↦ absurd (ground arith)
    | inr e ↦
        let r = find_index-some test xs i d (ground arith) in
        (omega (arith, r.0), r.1, λ j q. before j q e r.2)
  ]
    where
      before :
          (j : ℕ)
          → j < suc i
          → test x ≡ false
          → ((j : ℕ) → j < i → test (get_or xs j d) ≡ false)
          → test (get_or (x ∷ xs) j d) ≡ false
      before zero q e r = e
      before (suc j) q e r = r j (omega arith)

  -- No match: nothing passes.
  pub find_index-none :
      (test : A → Bool) (xs : List A) (d : A)
      → find_index test xs ≡ none
      → (j : ℕ) → j < length xs
      → test (get_or xs j d) ≡ false
  unfolding find_index
  find_index-none test [] d h j q = absurd (omega arith)
  find_index-none test (x ∷ xs) d h zero q = ground arith
  find_index-none test (x ∷ xs) d h (suc j) q =
      find_index-none test xs d (ground arith) j (omega arith)

  -- A match somewhere is found.
  pub find_index-total :
      (test : A → Bool) (xs : List A) (j : ℕ) (d : A)
      → j < length xs
      → test (get_or xs j d) ≡ true
      → find_index test xs ≢ none
  find_index-total test xs j d q e h =
      false_true (test (get_or xs j d)) (find_index-none test xs d h j q) e
    where
      false_true : (b : Bool) → b ≡ false → b ≡ true → ⊥
      false_true b f t = ground arith

  -- The first match is what the loop finds.
  pub find_index-first :
      (test : A → Bool) (xs : List A) (i : ℕ) (d : A)
      → i < length xs
      → test (get_or xs i d) ≡ true
      → ((j : ℕ) → j < i → test (get_or xs j d) ≡ false)
      → find_index test xs ≡ some i
  unfolding find_index
  find_index-first test [] i d lt h before = absurd (omega arith)
  find_index-first test (x ∷ xs) zero d lt h before = rw h
  find_index-first test (x ∷ xs) (suc i) d lt h before = rw (
    before 0 (omega arith),
    find_index-first test xs i d (omega arith) h (λ j q. before (suc j) (omega arith)),
  )

  -- With no match the loop finds nothing.
  pub find_index-miss :
      (test : A → Bool) (xs : List A) (d : A)
      → ((j : ℕ) → j < length xs → test (get_or xs j d) ≡ false)
      → find_index test xs ≡ none
  unfolding find_index
  find_index-miss test [] d h = refl
  find_index-miss test (x ∷ xs) d h =
      rw (h 0 (omega arith), find_index-miss test xs d (λ j q. h (suc j) (omega arith)))

  -- A reflexive relation that an update respects holds at each index.
  pub modify-rel {κ} :
      (R : A → A → Type κ) (f : A → A)
      → ((x : A) → R x x)
      → ((x : A) → R x (f x))
      → (xs : List A) (i j : ℕ) (d : A) → R (get_or xs j d) (get_or (modify xs i f) j d)
  modify-rel R f r s [] i j d = r d
  modify-rel R f r s (x ∷ xs) zero zero d = s x
  modify-rel R f r s (x ∷ xs) zero (suc j) d = r (get_or xs j d)
  modify-rel R f r s (x ∷ xs) (suc i) zero d = r x
  modify-rel R f r s (x ∷ xs) (suc i) (suc j) d = modify-rel R f r s xs i j d

  -- An update that the test does not see.
  pub find_index-modify :
      (test : A → Bool) (f : A → A) (xs : List A) (i : ℕ)
      → ((x : A) → test (f x) ≡ test x)
      → find_index test (modify xs i f) ≡ find_index test xs
  unfolding find_index
  find_index-modify test f [] i h = refl
  find_index-modify test f (x ∷ xs) zero h = rw (h x)
  find_index-modify test f (x ∷ xs) (suc i) h = rw (find_index-modify test f xs i h)
