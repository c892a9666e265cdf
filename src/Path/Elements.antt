-- ===== src/Path/Elements.antt =====
-- skipelem of xv6 modified/fs.c takes a path apart into its elements.
use osn_assignments.Base.{
  ℕ, zero, suc, ◌<◌, ◌≤◌, ◌≡◌, refl, sym, ◌∙◌, ap, ◌⊎◌, inl, inr, ◌==◌, if◌then◌else◌, Bool,
  Bool-cases, Option, none, some, List, [], ◌∷◌, length, map, take, arith, true, false,
}
use osn_assignments.Path.{dirsiz, slash, skip_slashes, element, past_element, skipelem, is_empty}

-- A byte in front of the first of the pieces.
abbrev pub grow : ℕ → List (List ℕ) → List (List ℕ)
grow c [] = (c ∷ []) ∷ []
grow c (w ∷ ws) = (c ∷ w) ∷ ws

-- The pieces between the slashes, empty ones included.
abbrev pub pieces : List ℕ → List (List ℕ)
pieces [] = [] ∷ []
pieces (c ∷ p) = if c == slash then [] ∷ pieces p else grow c (pieces p)

abbrev pub nonempty : List (List ℕ) → List (List ℕ)
nonempty [] = []
nonempty ([] ∷ ws) = nonempty ws
nonempty ((c ∷ w) ∷ ws) = (c ∷ w) ∷ nonempty ws

-- The elements of a path.
abbrev pub elements : List ℕ → List (List ℕ)
elements p = nonempty (pieces p)

pieces-element :
    (p : List ℕ)
    → (ws : List (List ℕ)) × (pieces p ≡ element p ∷ ws) × (elements (past_element p) ≡ nonempty ws)
unfolding element past_element
pieces-element [] = ([], refl, refl)
pieces-element (c ∷ p) = elim (Bool-cases (c == slash)) [
  | inl e ↦ rw e (pieces p, refl, rw e refl)
  | inr e ↦ let (ws, q, r) = pieces-element p in rw e (ws, ap (grow c) q, r)
]

elements-skip_slashes : (p : List ℕ) → elements (skip_slashes p) ≡ elements p
unfolding skip_slashes
elements-skip_slashes [] = refl
elements-skip_slashes (c ∷ p) = elim (Bool-cases (c == slash)) [
  | inl e ↦ rw e (elements-skip_slashes p)
  | inr e ↦ rw e (rw e refl)
]

length-past_element : (p : List ℕ) → length (past_element p) ≤ length p
unfolding past_element
length-past_element [] = omega arith
length-past_element (c ∷ p) = elim (Bool-cases (c == slash)) [
  | inl e ↦ rw e (omega arith)
  | inr e ↦ rw e (omega (arith, length-past_element p))
]

length-skip_slashes : (p : List ℕ) → length (skip_slashes p) ≤ length p
unfolding skip_slashes
length-skip_slashes [] = omega arith
length-skip_slashes (c ∷ p) = elim (Bool-cases (c == slash)) [
  | inl e ↦ rw e (omega (arith, length-skip_slashes p))
  | inr e ↦ rw e (omega arith)
]

-- Behind the slashes the path is at its end, or at the first byte of an element.
starts :
    (p : List ℕ)
    → (skip_slashes p ≡ [])
      ⊎ ((c : ℕ) × (q : List ℕ) × (skip_slashes p ≡ c ∷ q) × ((c == slash) ≡ false))
unfolding skip_slashes
starts [] = inl refl
starts (c ∷ p) = elim (Bool-cases (c == slash)) [
  | inl e ↦ rw e (starts p)
  | inr e ↦ rw e (inr (c, p, refl, e))
]

elements-split :
    (c : ℕ) (q : List ℕ)
    → (c == slash) ≡ false
    → elements (c ∷ q) ≡ element (c ∷ q) ∷ elements (past_element (c ∷ q))
unfolding element past_element
elements-split c q e =
    let (ws, p, r) = pieces-element q in
    rw e (ap (λ ps. nonempty (grow c ps)) p ∙ ap (λ k. (c ∷ element q) ∷ k) (sym r))

is_empty-elements : (p : List ℕ) → is_empty (skip_slashes p) ≡ true → elements p ≡ []
unfolding skip_slashes
is_empty-elements p h = elim (starts p) [
  | inl n ↦ sym (elements-skip_slashes p) ∙ ap elements n
  | inr (c, q, s, e) ↦ absurd (clash (rw s at h))
]
  where
    clash : false ≡ true → ⊥
    clash q = cc

-- Whether no name is left.
abbrev pub is_done : List (List ℕ) → Bool
is_done [] = true
is_done (w ∷ ws) = false

is_empty-is_done : (p : List ℕ) → is_empty (skip_slashes p) ≡ is_done (elements (skip_slashes p))
unfolding skip_slashes
is_empty-is_done p = elim (starts p) [
  | inl n ↦ rw n refl
  | inr (c, q, s, e) ↦ rw s (sym (ap is_done (elements-split c q e)))
]

length-past :
    (c : ℕ) (q : List ℕ) → (c == slash) ≡ false → length (past_element (c ∷ q)) < length (c ∷ q)
unfolding past_element
length-past c q e = rw e (omega (arith, length-past_element q))

-- skipelem gives null exactly at a path without elements; else it gives the first element, cut to 14
-- bytes, and a shorter path with the other elements, which is empty only if there are none.
pub skipelem_cases :
    (p : List ℕ)
    → ((skipelem p ≡ none) × (elements p ≡ []))
      ⊎ ((w : List ℕ) × (r : List ℕ) × (skipelem p ≡ some (take dirsiz w, r))
          × (elements p ≡ w ∷ elements r)
          × (length r < length p)
          × (is_empty r ≡ is_done (elements r)))
unfolding skipelem
skipelem_cases p = elim (starts p) [
  | inl n ↦ inl (rw (n, skipelem) refl, sym (elements-skip_slashes p) ∙ ap elements n)
  | inr (c, q, s, e) ↦
      let r = past_element (c ∷ q) in
      let len : length (skip_slashes r) < length p =
        omega
          (arith, length-skip_slashes r, length-past c q e, length-skip_slashes p, ap length s) in
      inr (
        element (c ∷ q),
        skip_slashes r,
        rw (s, skipelem) refl,
        sym (elements-skip_slashes p)
            ∙ ap elements s
            ∙ elements-split c q e
            ∙ ap (λ k. element (c ∷ q) ∷ k) (sym (elements-skip_slashes r)),
        len,
        is_empty-is_done r,
      )
]

-- The names that skipelem gives one after another.
unfoldable pub names : ℕ → List ℕ → Option (List (List ℕ))
names zero p = none
names (suc fuel) p = elim (skipelem p) [
  | none ↦ some []
  | some (w, r) ↦ elim (names fuel r) [ none ↦ none | some ws ↦ some (w ∷ ws) ]
]

-- Called again and again on what it left, skipelem comes to the path's end after at most as many
-- calls as the path has bytes, and one; the names it gave are the pieces between the path's slashes,
-- the empty ones left out, each cut to 14 bytes.
pub skipelem_lem :
    (fuel : ℕ) (p : List ℕ) → length p < fuel → names fuel p ≡ some (map (take dirsiz) (elements p))
unfolding names
skipelem_lem zero p lt = absurd (omega arith)
skipelem_lem (suc fuel) p lt = elim (skipelem_cases p) [
  | inl (n, e) ↦ rw (n, names, e) refl
  | inr (w, r, s, e, len, d) ↦ rw (s, names, skipelem_lem fuel r (omega arith), e) refl
]
