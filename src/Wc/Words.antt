-- ===== src/Wc/Words.antt =====
-- wc of xv6 modified/wc.c counts the lines, words and bytes of its input, however read divides it.
use osn_assignments.Base.{
  ℕ, ◌+◌, ◌≡◌, refl, sym, ◌∙◌, ap, subst, ◌==◌, if◌then◌else◌, Bool, Bool-cases, inl, inr, true,
  false, List, [], ◌∷◌, ◌++◌, length, arith,
}
use osn_assignments.Wc.{Counts, is_space, wc_byte, wc_buf, wc_reads, no_counts}

-- The buffers one behind the other.
abbrev pub concat : List (List ℕ) → List ℕ
concat [] = []
concat (b ∷ bs) = b ++ concat bs

abbrev pub newlines : List ℕ → ℕ
newlines [] = 0
newlines (b ∷ l) = (if b == 10 then 1 else 0) + newlines l

-- A byte in front of the first of the pieces.
abbrev pub grow : ℕ → List (List ℕ) → List (List ℕ)
grow c [] = (c ∷ []) ∷ []
grow c (w ∷ ws) = (c ∷ w) ∷ ws

-- A blank, a tab of either kind, a carriage return or a newline.
abbrev pub is_blank : ℕ → Bool
is_blank c =
    if c == 32
    then true
    else if c == 13
    then true
    else if c == 9
    then true
    else if c == 10
    then true
    else c == 11

-- The pieces of a text between its blanks, empty ones included.
abbrev pub pieces : List ℕ → List (List ℕ)
pieces [] = [] ∷ []
pieces (c ∷ l) = if is_blank c then [] ∷ pieces l else grow c (pieces l)

-- How many pieces are not empty.
abbrev pub full_pieces : List (List ℕ) → ℕ
full_pieces [] = 0
full_pieces ([] ∷ ws) = full_pieces ws
full_pieces ((c ∷ w) ∷ ws) = 1 + full_pieces ws

abbrev tail : List (List ℕ) → List (List ℕ)
tail [] = []
tail (w ∷ ws) = ws

-- The words that the loop is still to count.
abbrev to_come : Bool → List ℕ → ℕ
to_come inword l = if inword then full_pieces (tail (pieces l)) else full_pieces (pieces l)

is_space-is_blank : (c : ℕ) → is_space c ≡ is_blank c
unfolding is_space
is_space-is_blank c = ground arith

full_pieces-grow :
    (c : ℕ) (l : List ℕ) → full_pieces (grow c (pieces l)) ≡ 1 + full_pieces (tail (pieces l))
full_pieces-grow c l = go (pieces l)
  where
    go : (ws : List (List ℕ)) → full_pieces (grow c ws) ≡ 1 + full_pieces (tail ws)
    go [] = refl
    go (w ∷ ws) = refl

tail-grow : (c : ℕ) (ws : List (List ℕ)) → tail (grow c ws) ≡ tail ws
tail-grow c [] = refl
tail-grow c (w ∷ ws) = refl

-- What the loop over a text adds to the counts.
record Counted (l : List ℕ) (s s' : Counts) : Type 0 where
  lines : s'.lines ≡ s.lines + newlines l
  chars : s'.chars ≡ s.chars + length l
  words : s'.words ≡ s.words + to_come s.inword l

-- The counts after a blank.
abbrev spaced : ℕ → Counts → Counts
spaced b s = record s {
  lines = if b == 10 then s.lines + 1 else s.lines;
  chars = s.chars + 1;
  inword = false;
}

-- The counts after another byte.
abbrev inside : ℕ → Counts → Counts
inside b s = record s {
  lines = if b == 10 then s.lines + 1 else s.lines;
  chars = s.chars + 1;
  words = if s.inword then s.words else s.words + 1;
  inword = true;
}

to_come-space :
    (i : Bool) (b : ℕ) (l : List ℕ) → is_blank b ≡ true → to_come i (b ∷ l) ≡ to_come false l
to_come-space true b l k = rw k refl
to_come-space false b l k = rw k refl

to_come-word :
    (i : Bool) (b n : ℕ) (l : List ℕ)
    → is_blank b ≡ false
    → (if i then n else n + 1) + to_come true l ≡ n + to_come i (b ∷ l)
to_come-word true b n l k = rw k (ap (λ ws. n + full_pieces ws) (sym (tail-grow b (pieces l))))
to_come-word false b n l k = rw k (omega (arith, full_pieces-grow b l))

wc_byte-spaced : (b : ℕ) (s : Counts) → is_space b ≡ true → wc_byte b s ≡ spaced b s
unfolding wc_byte
wc_byte-spaced b s e = rw e refl

wc_byte-inside : (b : ℕ) (s : Counts) → is_space b ≡ false → wc_byte b s ≡ inside b s
unfolding wc_byte
wc_byte-inside b s e = go s.lines s.words s.chars s.inword
  where
    go :
        (l w c : ℕ) (i : Bool)
        → wc_byte b (record { lines = l; words = w; chars = c; inword = i })
          ≡ inside b (record { lines = l; words = w; chars = c; inword = i })
    go l w c true = rw e refl
    go l w c false = rw e refl

wc_buf-Counted : (l : List ℕ) (s : Counts) → Counted l s (wc_buf l s)
unfolding wc_buf wc_byte
wc_buf-Counted [] s = record {
  lines = omega arith;
  chars = omega arith;
  words = none_to_come s.inword;
}
  where
    none_to_come : (i : Bool) → s.words ≡ s.words + to_come i []
    none_to_come true = omega arith
    none_to_come false = omega arith
wc_buf-Counted (b ∷ l) s = elim (Bool-cases (is_space b)) [
  | inl e ↦
      let k : is_blank b ≡ true = sym (is_space-is_blank b) ∙ e in
      let c = wc_buf-Counted l (spaced b s) in
      subst (λ r. Counted (b ∷ l) s (wc_buf l r)) (sym (wc_byte-spaced b s e))
        (record {
          lines = c.lines ∙ ground arith;
          chars = c.chars ∙ omega arith;
          words = c.words ∙ ap (λ n. s.words + n) (sym (to_come-space s.inword b l k));
        })
  | inr e ↦
      let k : is_blank b ≡ false = sym (is_space-is_blank b) ∙ e in
      let c = wc_buf-Counted l (inside b s) in
      subst (λ r. Counted (b ∷ l) s (wc_buf l r)) (sym (wc_byte-inside b s e))
        (record {
          lines = c.lines ∙ ground arith;
          chars = c.chars ∙ omega arith;
          words = c.words ∙ to_come-word s.inword b s.words l k;
        })
]

wc_buf-append : (k l : List ℕ) (s : Counts) → wc_buf (k ++ l) s ≡ wc_buf l (wc_buf k s)
unfolding wc_buf
wc_buf-append [] l s = refl
wc_buf-append (b ∷ k) l s = wc_buf-append k l (wc_byte b s)

wc_reads-concat : (bufs : List (List ℕ)) (s : Counts) → wc_reads bufs s ≡ wc_buf (concat bufs) s
unfolding wc_reads wc_buf
wc_reads-concat [] s = refl
wc_reads-concat (b ∷ bs) s = wc_reads-concat bs (wc_buf b s) ∙ sym (wc_buf-append b (concat bs) s)

-- However the input comes divided into buffers, wc counts its newlines, its bytes, and its words, which
-- are the pieces between blanks that are not empty, also where a word goes over the end of a buffer.
pub wc_lem :
    (bufs : List (List ℕ))
    → let r = wc_reads bufs no_counts in
      (r.lines ≡ newlines (concat bufs))
      × (r.words ≡ full_pieces (pieces (concat bufs)))
      × (r.chars ≡ length (concat bufs))
wc_lem bufs =
    let c = wc_buf-Counted (concat bufs) no_counts in
    let e = wc_reads-concat bufs no_counts in
    (
      ap (λ s. s.lines) e ∙ c.lines ∙ omega arith,
      ap (λ s. s.words) e ∙ c.words ∙ omega arith,
      ap (λ s. s.chars) e ∙ c.chars ∙ omega arith,
    )
