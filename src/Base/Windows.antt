-- ===== src/Base/Windows.antt =====
-- Windows of a sequence: its items from one index on, as a list.
use Prim.Native.Nat.{ℕ, zero, suc, ◌+◌, ◌≤◌, ◌<◌}
use mathlib.Core.Path.{◌≡◌, refl, ap, ap₂}
use mathlib.Core.List.{List, [], ◌∷◌, ◌++◌}
use native.Mathlib.Omega.{arith}
use osn_assignments.Base.Tests.{ltb, if◌then◌else◌}
use osn_assignments.Base.Lists.{length}

module _ {ℓ} {A : Type ℓ} where
  -- g t, ..., g (t + n - 1)
  abbrev pub tab : (ℕ → A) → ℕ → ℕ → List A
  tab g t zero = []
  tab g t (suc n) = g t ∷ tab g (t + 1) n

  -- The sequence without its item `m`.
  abbrev pub skip : (ℕ → A) → ℕ → ℕ → A
  skip g m j = if ltb j m then g j else g (j + 1)

  pub tab-ext :
      (g h : ℕ → A) (t n : ℕ) → ((j : ℕ) → t ≤ j → j < t + n → g j ≡ h j) → tab g t n ≡ tab h t n
  tab-ext g h t zero e = refl
  tab-ext g h t (suc n) e =
      ap₂ ◌∷◌ (e t (omega arith) (omega arith))
        (tab-ext g h (t + 1) n (λ j p q. e j (omega arith) (omega arith)))

  pub tab-add_one : (g : ℕ → A) (t n : ℕ) → tab g (t + 1) n ≡ tab (λ j. g (j + 1)) t n
  tab-add_one g t zero = refl
  tab-add_one g t (suc n) = ap (λ r. g (t + 1) ∷ r) (tab-add_one g (t + 1) n)

  pub tab-snoc : (g : ℕ → A) (t n : ℕ) → tab g t (suc n) ≡ tab g t n ++ (g (t + n) ∷ [])
  tab-snoc g t zero = ap (λ k. g k ∷ []) (omega arith)
  tab-snoc g t (suc n) =
      let e : t + suc n ≡ t + 1 + n = omega arith in rw e (ap (λ r. g t ∷ r) (tab-snoc g (t + 1) n))

  pub length-tab : (g : ℕ → A) (t n : ℕ) → length (tab g t n) ≡ n
  length-tab g t zero = refl
  length-tab g t (suc n) = ap suc (length-tab g (t + 1) n)
