-- ===== src/Tests/Texts.antt =====
-- grep's matcher and the byte functions at concrete texts and memories.
use osn_assignments.Wc.{no_counts, wc_reads}
use osn_assignments.Wc.Words.{concat, newlines, pieces, full_pieces, wc_lem}
use osn_assignments.Base.{
  length, ℕ, ◌+◌, ◌-◌, ◌≡◌, ◌↔◌, refl, ◌==◌, if◌then◌else◌, true, false, List, [], ◌∷◌,
}
use osn_assignments.Grep.{matchhere, match, match_anywhere, matchstar_with}
use osn_assignments.Grep.Spec.{Matches, match_iff}
use osn_assignments.Str.{memmove}
use osn_assignments.Str.Move.{within, memmove_lem}

-- `a.*c` and `xabbc`
abbrev pattern_text : List ℕ
pattern_text = b'a' ∷ (b'.' ∷ (b'*' ∷ (b'c' ∷ [])))

abbrev line_text : List ℕ
line_text = b'x' ∷ (b'a' ∷ (b'b' ∷ (b'b' ∷ (b'c' ∷ []))))

match_run : match pattern_text line_text ≡ true
unfolding match match_anywhere matchhere matchstar_with
match_run = refl

matchhere_run : matchhere pattern_text line_text ≡ false
unfolding matchhere matchstar_with
matchhere_run = refl

match_iff_example : (match pattern_text line_text ≡ true) ↔ Matches pattern_text line_text
match_iff_example = match_iff pattern_text line_text

-- Address `a` holds the byte `a`, but for a NUL at 5.
abbrev ram : ℕ → ℕ
ram a = if a == 5 then 0 else a

memmove_lem_example : memmove 3 1 4 ram 5 ≡ (if within 3 4 5 then ram (1 + (5 - 3)) else ram 5)
memmove_lem_example = memmove_lem 3 1 4 5 ram

-- "ab c", cut inside the first word, and a newline.
abbrev reads : List (List ℕ)
reads = (b'a' ∷ []) ∷ ((b'b' ∷ (b' ' ∷ (b'c' ∷ (10 ∷ [])))) ∷ [])

wc_run : full_pieces (pieces (concat reads)) ≡ 2
wc_run = refl

wc_lem_example :
    let r = wc_reads reads no_counts in
    (r.lines ≡ newlines (concat reads))
    × (r.words ≡ full_pieces (pieces (concat reads)))
    × (r.chars ≡ length (concat reads))
wc_lem_example = wc_lem reads
