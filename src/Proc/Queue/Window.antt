-- ===== src/Proc/Queue/Window.antt =====
-- The processes that a level of the MLFQ queues holds, oldest first, and how the loops of `remove`
-- move its slots.
use osn_assignments.Base.{
  ℕ, zero, suc, ◌+◌, ◌-◌, ◌%◌, ◌<◌, ◌≤◌, ◌≡◌, ◌≢◌, refl, ◌∙◌, ap₂, ◌⊎◌, inl, inr, ◌==◌,
  if◌then◌else◌, Bool, true, false, Bool-cases, Option, none, some, List, [], ◌∷◌, length, get_or,
  set, arith, get_or-set_self, get_or-set_ne, length-set,
}
pub use osn_assignments.Base.{tab, skip, tab-ext, tab-add_one, tab-snoc, length-tab}
use osn_assignments.Proc.Types.{Level}
use osn_assignments.Proc.Queue.{is_ptr, find_slot, shift_slots}

-- The list without the first pointer to `p`.
abbrev pub erase : ℕ → List (Option ℕ) → List (Option ℕ)
erase p [] = []
erase p (x ∷ xs) = if is_ptr x p then xs else x ∷ erase p xs

-- Whether a pointer to `p` is in the list.
abbrev pub contains : ℕ → List (Option ℕ) → Bool
contains p [] = false
contains p (x ∷ xs) = if is_ptr x p then true else contains p xs

-- The `t`-th slot from `f` on, going round.
abbrev pub ring : List (Option ℕ) → ℕ → ℕ → Option ℕ
ring s f t = get_or s ((f + t) % 64) none

abbrev pub ring_len : ℕ → ℕ → ℕ
ring_len f b = (b + 64 - f) % 64 + 1

abbrev pub contents_of : Option ℕ → Option ℕ → List (Option ℕ) → List (Option ℕ)
contents_of (some f) (some b) s = tab (ring s f) 0 (ring_len f b)
contents_of (some f) none s = []
contents_of none b s = []

abbrev pub contents : Level → List (Option ℕ)
contents l = contents_of l.face l.back l.slots

-- Both cursors are -1, or both are indices.
abbrev pub Cursors : Option ℕ → Option ℕ → Type 0
Cursors none none = Unit
Cursors (some f) (some b) = (f < 64) × (b < 64)
Cursors none (some b) = ⊥
Cursors (some f) none = ⊥

pub record IsLevel (l : Level) : Type 0 where
  pub full_array : length l.slots ≡ 64
  pub cursors : Cursors l.face l.back

pub erase-tab :
    (p : ℕ) (g : ℕ → Option ℕ) (d t n : ℕ)
    → d < n
    → is_ptr (g (t + d)) p ≡ true
    → ((j : ℕ) → t ≤ j → j < t + d → is_ptr (g j) p ≡ false)
    → erase p (tab g t n) ≡ tab (skip g (t + d)) t (n - 1)
erase-tab p g d t zero lt hit first = absurd (omega arith)
erase-tab p g zero t (suc n) lt hit first =
    let e : t + 0 ≡ t = omega arith in
    let e1 : suc n - 1 ≡ n = omega arith in
    let h : is_ptr (g t) p ≡ true = rw e at hit in
    rw (h, e1, e, tab-add_one g t n)
      (tab-ext (λ j. g (j + 1)) (skip g t) t n (λ j a b. ground arith))
erase-tab p g (suc d) t (suc zero) lt hit first = absurd (omega arith)
erase-tab p g (suc d) t (suc (suc n)) lt hit first =
    let h : is_ptr (g t) p ≡ false = first t (omega arith) (omega arith) in
    let e : t + suc d ≡ t + 1 + d = omega arith in
    let e1 : suc (suc n) - 1 ≡ suc n = omega arith in
    let hd : g t ≡ skip g (t + 1 + d) t = ground arith in
    let ih : erase p (tab g (t + 1) (suc n)) ≡ tab (skip g (t + 1 + d)) (t + 1) (suc n - 1) =
      erase-tab p g d (t + 1) (suc n) (omega arith) (rw e at hit)
        (λ j a b. first j (omega arith) (omega arith)) in
    let e2 : suc n - 1 ≡ n = omega arith in
    let ih2 : erase p (tab g (t + 1) (suc n)) ≡ tab (skip g (t + 1 + d)) (t + 1) n = rw e2 at ih in
    rw (h, e, e1) (ap₂ ◌∷◌ hd ih2)

pub find_slot-some :
    (s : List (Option ℕ)) (n j p m : ℕ)
    → find_slot s n j p ≡ some m
    → (j ≤ m)
      × (m < j + n)
      × (is_ptr (get_or s m none) p ≡ true)
      × ((x : ℕ) → j ≤ x → x < m → is_ptr (get_or s x none) p ≡ false)
unfolding find_slot
find_slot-some s zero j p m e = absurd (ground arith)
find_slot-some s (suc n) j p m e = elim (Bool-cases (is_ptr (get_or s j none) p)) [
  | inl h ↦
      let em : j ≡ m = ground arith in
      (omega arith, omega arith, rw em at h, λ x a b. absurd (omega arith))
  | inr h ↦
      let r = find_slot-some s n (j + 1) p m (ground arith) in
      (omega (arith, r.0), omega (arith, r.1), r.2, λ x a b. miss x a b h r.3)
]
  where
    miss :
        (x : ℕ)
        → j ≤ x
        → x < m
        → is_ptr (get_or s j none) p ≡ false
        → ((x : ℕ) → j + 1 ≤ x → x < m → is_ptr (get_or s x none) p ≡ false)
        → is_ptr (get_or s x none) p ≡ false
    miss x a b h r = elim (Bool-cases (j == x)) [
      | inl e ↦ let e' : j ≡ x = ground arith in rw e' at h
      | inr e ↦ r x (ground arith) b
    ]

pub find_slot-none :
    (s : List (Option ℕ)) (n j p x : ℕ)
    → find_slot s n j p ≡ none
    → j ≤ x
    → x < j + n
    → is_ptr (get_or s x none) p ≡ false
unfolding find_slot
find_slot-none s zero j p x e a b = absurd (omega arith)
find_slot-none s (suc n) j p x e a b = elim (Bool-cases (j == x)) [
  | inl q ↦
      let e' : j ≡ x = ground arith in
      let h : is_ptr (get_or s j none) p ≡ false = ground arith in rw e' at h
  | inr q ↦ find_slot-none s n (j + 1) p x (ground arith) (ground arith) (omega arith)
]

pub length-shift_slots : (s : List (Option ℕ)) (j n : ℕ) → length (shift_slots s j n) ≡ length s
unfolding shift_slots
length-shift_slots s j zero = refl
length-shift_slots s j (suc n) = omega (
  arith,
  length-shift_slots (set s j (get_or s (j - 1) none)) (j - 1) n,
  length-set s j (get_or s (j - 1) none),
)

-- A slot outside (j - n, j] keeps its value.
pub shift_slots-outside :
    (s : List (Option ℕ)) (j n x : ℕ)
    → n ≤ j
    → (x + n ≤ j) ⊎ (j < x)
    → get_or (shift_slots s j n) x none ≡ get_or s x none
unfolding shift_slots
shift_slots-outside s j zero x h o = refl
shift_slots-outside s j (suc n) x h o =
    shift_slots-outside (set s j (get_or s (j - 1) none)) (j - 1) n x (omega arith) (omega arith)
    ∙ get_or-set_ne s j x (get_or s (j - 1) none) none (omega arith)

-- A slot in (j - n, j] takes the value of the slot before it.
pub shift_slots-inside :
    (s : List (Option ℕ)) (j n x : ℕ)
    → n ≤ j
    → j < length s
    → j < x + n
    → x ≤ j
    → get_or (shift_slots s j n) x none ≡ get_or s (x - 1) none
unfolding shift_slots
shift_slots-inside s j zero x h lt a b = absurd (omega arith)
shift_slots-inside s j (suc n) x h lt a b = elim (Bool-cases (j == x)) [
  | inl q ↦
      let e : j ≡ x = ground arith in
      rw (← e) (
        shift_slots-outside (set s j (get_or s (j - 1) none)) (j - 1) n j (omega arith)
          (omega arith)
        ∙ get_or-set_self s j (get_or s (j - 1) none) none lt)
  | inr q ↦
      let ne : j ≢ x = ground arith in
      let len = length-set s j (get_or s (j - 1) none) in
      shift_slots-inside (set s j (get_or s (j - 1) none)) (j - 1) n x (omega arith) (omega arith)
        (omega arith) (omega arith)
      ∙ get_or-set_ne s j (x - 1) (get_or s (j - 1) none) none (omega arith)
]

-- A pointer in the window is in the list.
pub contains-tab :
    (p : ℕ) (g : ℕ → Option ℕ) (t n j : ℕ)
    → t ≤ j
    → j < t + n
    → is_ptr (g j) p ≡ true
    → contains p (tab g t n) ≡ true
contains-tab p g t zero j a b h = absurd (omega arith)
contains-tab p g t (suc n) j a b h = elim (Bool-cases (is_ptr (g t) p)) [
  | inl e ↦ rw e
  | inr e ↦ rw e (
      contains-tab p g (t + 1) n j (later t j a (λ q. false_true (is_ptr (g t) p) e (rw q h)))
        (omega arith) h)
]
  where
    later : (t j : ℕ) → t ≤ j → t ≢ j → t + 1 ≤ j
    later t j a q = omega arith

    false_true : (b : Bool) → b ≡ false → b ≡ true → ⊥
    false_true b q r = ground arith

pub contains-tab-false :
    (p : ℕ) (g : ℕ → Option ℕ) (t n : ℕ)
    → ((j : ℕ) → t ≤ j → j < t + n → is_ptr (g j) p ≡ false)
    → contains p (tab g t n) ≡ false
contains-tab-false p g t zero h = refl
contains-tab-false p g t (suc n) h =
    rw (h t (omega arith) (omega arith))
      (contains-tab-false p g (t + 1) n (λ j a b. h j (omega arith) (omega arith)))
