-- ===== src/Grep.antt =====
-- The regular expression matcher of xv6 modified/grep.c. A C string is the list of its characters
-- before the NUL, so `*text == '\0'` is the empty list.
pub mod Spec
use osn_assignments.Base.{
  ℕ, zero, suc, ◌+◌, ◌==◌, if◌then◌else◌, Bool, true, false, ◌||◌, ◌&&◌, List, [], ◌∷◌, length,
}

abbrev pub is_nil : List ℕ → Bool
is_nil [] = true
is_nil (c ∷ s) = false

-- The loop of matchstar, over the match `m` of the rest of the expression.
unfoldable pub matchstar_with : (List ℕ → Bool) → ℕ → List ℕ → Bool
matchstar_with m c [] = m []
matchstar_with m c (t ∷ text) =
    let rest = matchstar_with m c text in
    if m (t ∷ text) then true else if t == c || c == b'.' then rest else false

-- `matchhere`, with the star of its second branch at the call of matchstar.
unfoldable pub matchhere : List ℕ → List ℕ → Bool
unfolding matchstar_with
matchhere [] text = true
matchhere (c ∷ []) text =
    if c == b'$' then is_nil text else elim text [ [] ↦ false | t ∷ rest ↦ c == b'.' || c == t ]
matchhere (c ∷ (d ∷ re)) text =
    if d == b'*' then matchstar_with (matchhere re) c text else elim text [
      | [] ↦ false
      | t ∷ rest ↦ if c == b'.' || c == t then matchhere (d ∷ re) rest else false
    ]

-- `matchstar`
unfoldable pub matchstar : ℕ → List ℕ → List ℕ → Bool
unfolding matchhere
matchstar c re text = matchstar_with (matchhere re) c text

-- The loop of match over the places in the text.
unfoldable pub match_anywhere : List ℕ → List ℕ → Bool
unfolding matchhere
match_anywhere re [] = matchhere re []
match_anywhere re (t ∷ text) =
    let rest = match_anywhere re text in if matchhere re (t ∷ text) then true else rest

-- `match`
unfoldable pub match : List ℕ → List ℕ → Bool
unfolding match_anywhere
match [] text = match_anywhere [] text
match (c ∷ re) text = if c == b'^' then matchhere re text else match_anywhere (c ∷ re) text
