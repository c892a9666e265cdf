-- ===== src/Grep/Spec.antt =====
-- What the expressions of xv6 modified/grep.c mean, apart from the matcher, and that the matcher
-- decides it.
use osn_assignments.Base.{
  ℕ, ◌≡◌, ◌≢◌, ◌↔◌, refl, ◌⊎◌, inl, inr, ◌==◌, if◌then◌else◌, Bool, true, false, ◌||◌, Bool-cases,
  List, [], ◌∷◌, arith,
}
use osn_assignments.Grep.{is_nil, matchstar_with, matchhere, match_anywhere, match}

-- A character of the expression stands for a character of the text: itself, or any for a dot.
abbrev pub Stands : ℕ → ℕ → Type 0
Stands c t = (c ≡ t) ⊎ (c ≡ b'.')

-- The expression matches a prefix of the text. Each constructor is a form of the expression.
pub data Prefix : List ℕ → List ℕ → Type 0 where
  done : (text : List ℕ) → Prefix [] text
  end : Prefix (b'$' ∷ []) []
  star_stop : {c : ℕ} {re text : List ℕ} → Prefix re text → Prefix (c ∷ (b'*' ∷ re)) text
  star_more :
      {c t : ℕ} {re text : List ℕ}
      → Stands c t
      → Prefix (c ∷ (b'*' ∷ re)) text
      → Prefix (c ∷ (b'*' ∷ re)) (t ∷ text)
  last : {c t : ℕ} {text : List ℕ} → c ≢ b'$' → Stands c t → Prefix (c ∷ []) (t ∷ text)
  char :
      {c d t : ℕ} {re text : List ℕ}
      → d ≢ b'*'
      → Stands c t
      → Prefix (d ∷ re) text
      → Prefix (c ∷ (d ∷ re)) (t ∷ text)

-- The expression matches somewhere in the text.
pub data Anywhere (re : List ℕ) : List ℕ → Type 0 where
  here : {text : List ℕ} → Prefix re text → Anywhere re text
  later : {t : ℕ} {text : List ℕ} → Anywhere re text → Anywhere re (t ∷ text)

-- What `match` decides: a leading `^` ties the match to the start.
abbrev pub Matches : List ℕ → List ℕ → Type 0
Matches [] text = Anywhere [] text
Matches (c ∷ re) text = ((c ≡ b'^') × Prefix re text) ⊎ ((c ≢ b'^') × Anywhere (c ∷ re) text)

Stands-char : (c t : ℕ) → (c == b'.' || c == t) ≡ true → Stands c t
Stands-char c t h = grind arith

char-Stands : (c t : ℕ) → Stands c t → (c == b'.' || c == t) ≡ true
char-Stands c t h = grind arith

flip_char : (c t : ℕ) → (t == c || c == b'.') ≡ (c == b'.' || c == t)
flip_char c t = grind arith

star_sound :
    (re : List ℕ) (m : List ℕ → Bool) (c : ℕ)
    → ((text : List ℕ) → m text ≡ true → Prefix re text)
    → (text : List ℕ) → matchstar_with m c text ≡ true
    → Prefix (c ∷ (b'*' ∷ re)) text
unfolding matchstar_with
star_sound re m c sound [] h = star_stop (sound [] h)
star_sound re m c sound (t ∷ text) h = elim (Bool-cases (m (t ∷ text))) [
  | inl e ↦ star_stop (sound (t ∷ text) e)
  | inr e ↦ elim (Bool-cases (c == b'.' || c == t)) [
    | inl s ↦
        star_more (Stands-char c t s) (star_sound re m c sound text (rw (e, flip_char c t, s) at h))
    | inr s ↦ absurd (clash (rw (e, flip_char c t, s) at h))
  ]
]
  where
    clash : false ≡ true → ⊥
    clash q = cc

matchhere_sound : (re text : List ℕ) → matchhere re text ≡ true → Prefix re text
unfolding matchhere
matchhere_sound [] text h = done text
matchhere_sound (c ∷ []) text h = elim (Bool-cases (c == b'$')) [
  | inl e ↦ final c text (ground arith) (rw (e) at h)
  | inr e ↦ one c text (ground arith) (rw (e) at h)
]
  where
    final : (c : ℕ) (text : List ℕ) → c ≡ b'$' → is_nil text ≡ true → Prefix (c ∷ []) text
    final c [] e h = rw e end
    final c (t ∷ text) e h = absurd (ground arith)

    one :
        (c : ℕ) (text : List ℕ)
        → c ≢ b'$'
        → (elim text as (λ x. Bool) [ [] ↦ false | t ∷ rest ↦ c == b'.' || c == t ]) ≡ true
        → Prefix (c ∷ []) text
    one c [] e h = absurd (ground arith)
    one c (t ∷ text) e h = last e (Stands-char c t h)
matchhere_sound (c ∷ (d ∷ re)) text h = elim (Bool-cases (d == b'*')) [
  | inl e ↦
      let e' : d ≡ b'*' = ground arith in
      rw e' (star_sound re (matchhere re) c (λ s q. matchhere_sound re s q) text (rw (e) at h))
  | inr e ↦ one c d re text (ground arith) (λ s q. matchhere_sound (d ∷ re) s q) (rw (e) at h)
]
  where
    one :
        (c d : ℕ) (re text : List ℕ)
        → d ≢ b'*'
        → ((s : List ℕ) → matchhere (d ∷ re) s ≡ true → Prefix (d ∷ re) s)
        → (elim text as (λ x. Bool) [
          | [] ↦ false
          | t ∷ rest ↦ if c == b'.' || c == t then matchhere (d ∷ re) rest else false
        ])
          ≡ true
        → Prefix (c ∷ (d ∷ re)) text
    one c d re [] e sound h = absurd (ground arith)
    one c d re (t ∷ text) e sound h = elim (Bool-cases (c == b'.' || c == t)) [
      | inl s ↦ char e (Stands-char c t s) (sound text (rw s at h))
      | inr s ↦ absurd (clash (rw s at h))
    ]
      where
        clash : false ≡ true → ⊥
        clash q = cc

star_here :
    (m : List ℕ → Bool) (c : ℕ) (text : List ℕ) → m text ≡ true → matchstar_with m c text ≡ true
unfolding matchstar_with
star_here m c [] h = h
star_here m c (t ∷ text) h = rw h

star_next :
    (m : List ℕ → Bool) (c t : ℕ) (text : List ℕ)
    → Stands c t
    → matchstar_with m c text ≡ true
    → matchstar_with m c (t ∷ text) ≡ true
unfolding matchstar_with
star_next m c t text s h = elim (Bool-cases (m (t ∷ text))) [
  | inl e ↦ rw e
  | inr e ↦ rw (e, flip_char c t, char-Stands c t s) h
]

matchhere_complete : {re text : List ℕ} → Prefix re text → matchhere re text ≡ true
unfolding matchhere
matchhere_complete (done text) = refl
matchhere_complete end = refl
matchhere_complete (star_stop {c} {re} {text} h) =
    star_here (matchhere re) c text (matchhere_complete h)
matchhere_complete (star_more {c} {t} {re} {text} s h) =
    star_next (matchhere re) c t text s (matchhere_complete h)
matchhere_complete (last {c} {t} ne s) =
    let e : (c == b'$') ≡ false = ground arith in rw (e) (char-Stands c t s)
matchhere_complete (char {c} {d} {t} {re} {text} ne s h) =
    let e : (d == b'*') ≡ false = ground arith in rw (e, char-Stands c t s) (matchhere_complete h)

match_anywhere_sound : (re text : List ℕ) → match_anywhere re text ≡ true → Anywhere re text
unfolding match_anywhere
match_anywhere_sound re [] h = here (matchhere_sound re [] h)
match_anywhere_sound re (t ∷ text) h = elim (Bool-cases (matchhere re (t ∷ text))) [
  | inl e ↦ here (matchhere_sound re (t ∷ text) e)
  | inr e ↦ later (match_anywhere_sound re text (rw e at h))
]

match_anywhere_complete :
    (re : List ℕ) {text : List ℕ} → Anywhere re text → match_anywhere re text ≡ true
unfolding match_anywhere
match_anywhere_complete re (here {text} p) = at_start re text (matchhere_complete p)
  where
    at_start : (re text : List ℕ) → matchhere re text ≡ true → match_anywhere re text ≡ true
    at_start re [] h = h
    at_start re (t ∷ text) h = rw h
match_anywhere_complete re (later {t} {text} a) = elim (Bool-cases (matchhere re (t ∷ text))) [
  | inl e ↦ rw e
  | inr e ↦ rw e (match_anywhere_complete re a)
]

-- `matchhere` answers true exactly if the expression matches a prefix of the text.
matchhere_iff : (re text : List ℕ) → (matchhere re text ≡ true) ↔ Prefix re text
matchhere_iff re text = (matchhere_sound re text, λ p. matchhere_complete p)

-- `match` answers true exactly if the expression matches somewhere in the text, or, behind a
-- leading `^`, at its start.
pub match_iff : (re text : List ℕ) → (match re text ≡ true) ↔ Matches re text
unfolding match
match_iff [] text = (match_anywhere_sound [] text, λ a. match_anywhere_complete [] a)
match_iff (c ∷ re) text = elim (Bool-cases (c == b'^')) [
  | inl e ↦
      let e' : c ≡ b'^' = ground arith in
      rw e (
        λ h. inl (e', matchhere_sound re text h),
        λ m. elim m [ inl p ↦ matchhere_complete p.1 | inr q ↦ absurd (q.0 e') ],
      )
  | inr e ↦
      let ne : c ≢ b'^' = ground arith in
      rw e (
        λ h. inr (ne, match_anywhere_sound (c ∷ re) text h),
        λ m. elim m [ inl p ↦ absurd (ne p.0) | inr q ↦ match_anywhere_complete (c ∷ re) q.1 ],
      )
]
