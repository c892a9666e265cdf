-- ===== src/Path/Lookup.antt =====
-- namex of xv6 modified/fs.c finds the inode that the path's elements name one after another, and
-- leaves no reference behind but the one to the inode that it gives.
use osn_assignments.Base.{
  ℕ, zero, suc, ◌+◌, ◌<◌, ◌≤◌, ◌≡◌, refl, ◌∙◌, ap, inl, inr, ◌==◌, if◌then◌else◌, Bool, true, false,
  ◌&&◌, Bool-cases, Option, Option-cases, none, some, List, [], ◌∷◌, length, take, arith,
}
use osn_assignments.Path.{dirsiz, slash, is_empty, ref_up, ref_down, rootino, namex_loop, namex}
use osn_assignments.Path.Elements.{elements, is_done, skipelem_cases}

-- The references that a result stands for.
abbrev pub held : Option (ℕ × List ℕ) → ℕ → ℕ
held none j = 0
held (some (i, w)) j = if i == j then 1 else 0

moved :
    (ip next : ℕ) (refs : ℕ → ℕ) (j : ℕ)
    → 1 ≤ refs ip
    → ref_down ip (ref_up next refs) j + (if ip == j then 1 else 0)
      ≡ refs j + (if next == j then 1 else 0)
moved ip next refs j h = ground arith

moved-held : (ip next : ℕ) (refs : ℕ → ℕ) → 1 ≤ refs ip → 1 ≤ ref_down ip (ref_up next refs) next
moved-held ip next refs h = ground arith

down :
    (ip : ℕ) (refs : ℕ → ℕ) (j : ℕ)
    → 1 ≤ refs ip
    → ref_down ip refs j + (if ip == j then 1 else 0) ≡ refs j
down ip refs j h = ground arith

-- What namei is to give: the inode, whatever the name.
abbrev pub inode_of : Option (ℕ × List ℕ) → Option ℕ
inode_of none = none
inode_of (some (i, w)) = some i

-- Where the lookup starts.
abbrev pub origin : ℕ → List ℕ → ℕ
origin cwd [] = cwd
origin cwd (c ∷ path) = if c == slash then rootino else cwd

started :
    (ip : ℕ) (refs : ℕ → ℕ) (j a b : ℕ)
    → a + (if ip == j then 1 else 0) ≡ ref_up ip refs j + b
    → a ≡ refs j + b
started ip refs j a b h = ground arith

module _ (is_dir : ℕ → Bool) (entry : ℕ → List ℕ → Option ℕ) where
  -- The inode that the elements name from `ip` on.
  abbrev pub resolve : ℕ → List (List ℕ) → Option ℕ
  resolve ip [] = some ip
  resolve ip (w ∷ ws) =
      if is_dir ip
      then elim (entry ip (take dirsiz w)) [ none ↦ none | some n ↦ resolve n ws ]
      else none

  answer : Bool → ℕ → List ℕ → List (List ℕ) → Option (ℕ × List ℕ)
  answer parent ip name [] = if parent then none else some (ip, name)
  answer parent ip name (w ∷ ws) = elim (is_dir ip) [
    | false ↦ none
    | true ↦ elim (parent && is_done ws) [
      | true ↦ some (ip, take dirsiz w)
      | false ↦ elim (entry ip (take dirsiz w)) [
        | none ↦ none
        | some n ↦ answer parent n (take dirsiz w) ws
      ]
    ]
  ]

  -- What the loop gives, and the counts it leaves.
  record Ends (parent : Bool) (ip : ℕ) (name path : List ℕ) (refs : ℕ → ℕ)
      (r : Option (Option (ℕ × List ℕ) × (ℕ → ℕ))) : Type 0 where
    refs' : ℕ → ℕ
    gives : r ≡ some (answer parent ip name (elements path), refs')
    counts :
        (j : ℕ)
        → refs' j + (if ip == j then 1 else 0)
          ≡ refs j + held (answer parent ip name (elements path)) j

  namex_loop-Ends :
      (fuel : ℕ) (parent : Bool) (ip : ℕ) (name path : List ℕ) (refs : ℕ → ℕ)
      → length path < fuel
      → 1 ≤ refs ip
      → Ends parent ip name path refs (namex_loop is_dir entry fuel parent ip name path refs)
  unfolding namex_loop answer
  namex_loop-Ends zero parent ip name path refs lt h = absurd (omega arith)
  namex_loop-Ends (suc fuel) parent ip name path refs lt h = elim (skipelem_cases path) [
    | inl (n, e) ↦ elim (Bool-cases parent) [
      | inl t ↦ record {
        refs' = ref_down ip refs;
        gives = rw (n, namex_loop, e, t, answer) refl;
        counts = λ j. rw (e, answer, t) (down ip refs j h ∙ omega arith);
      }
      | inr t ↦ record {
        refs' = refs;
        gives = rw (n, namex_loop, e, t, answer) refl;
        counts = λ j. rw (e, answer, t) refl;
      }
    ]
    | inr (w, r, s, e, len, d) ↦ elim (Bool-cases (is_dir ip)) [
      | inr t ↦ record {
        refs' = ref_down ip refs;
        gives = rw (s, namex_loop, t, e, answer, t) refl;
        counts = λ j. rw (e, answer, t) (down ip refs j h ∙ omega arith);
      }
      | inl t ↦
          let k : (parent && is_empty r) ≡ (parent && is_done (elements r)) =
            ap (λ b. parent && b) d in
          elim (Bool-cases (parent && is_done (elements r))) [
            | inl u ↦ record {
              refs' = refs;
              gives = rw (s, namex_loop, t, k ∙ u, e, answer, t, u) refl;
              counts = λ j. rw (e, answer, t, u) (omega arith);
            }
            | inr u ↦ elim (Option-cases (entry ip (take dirsiz w))) [
              | inl x ↦ record {
                refs' = ref_down ip refs;
                gives = rw (s, namex_loop, t, k ∙ u, x, e, answer, t, u, x) refl;
                counts = λ j. rw (e, answer, t, u, x) (down ip refs j h ∙ omega arith);
              }
              | inr (next, x) ↦
                  let ih =
                    namex_loop-Ends fuel parent next (take dirsiz w) r
                      (ref_down ip (ref_up next refs)) (omega arith) (moved-held ip next refs h) in
                  record {
                    refs' = ih.refs';
                    gives = rw (s, namex_loop, t, k ∙ u, x, e, answer, t, u, x) ih.gives;
                    counts = λ j.
                        rw (e, answer, t, u, x)
                          (omega (arith, ih.counts j, moved ip next refs j h));
                  }
            ]
          ]
    ]
  ]

  answer-resolve :
      (ip : ℕ) (name : List ℕ) (ws : List (List ℕ))
      → inode_of (answer false ip name ws) ≡ resolve ip ws
  unfolding answer
  answer-resolve ip name [] = refl
  answer-resolve ip name (w ∷ ws) = elim (Bool-cases (is_dir ip)) [
    | inr t ↦ rw (t, answer) refl
    | inl t ↦ elim (Option-cases (entry ip (take dirsiz w))) [
      | inl x ↦ rw (t, answer, x) refl
      | inr (next, x) ↦ rw (t, answer, x) (answer-resolve next (take dirsiz w) ws)
    ]
  ]

  -- The last element, in the directory that the others name.
  abbrev pub resolve_parent : ℕ → List (List ℕ) → Option (ℕ × List ℕ)
  resolve_parent ip [] = none
  resolve_parent ip (w ∷ []) = if is_dir ip then some (ip, take dirsiz w) else none
  resolve_parent ip (w ∷ (v ∷ ws)) =
      if is_dir ip
      then elim (entry ip (take dirsiz w)) [ none ↦ none | some n ↦ resolve_parent n (v ∷ ws) ]
      else none

  answer-resolve_parent :
      (ip : ℕ) (name : List ℕ) (ws : List (List ℕ)) → answer true ip name ws ≡ resolve_parent ip ws
  unfolding answer
  answer-resolve_parent ip name [] = refl
  answer-resolve_parent ip name (w ∷ []) = elim (Bool-cases (is_dir ip)) [
    | inr t ↦ rw (t, answer) refl
    | inl t ↦ rw (t, answer) refl
  ]
  answer-resolve_parent ip name (w ∷ (v ∷ ws)) = elim (Bool-cases (is_dir ip)) [
    | inr t ↦ rw (t, answer) refl
    | inl t ↦ elim (Option-cases (entry ip (take dirsiz w))) [
      | inl x ↦ rw (t, answer, x) refl
      | inr (next, x) ↦ rw (t, answer, x) (answer-resolve_parent next (take dirsiz w) (v ∷ ws))
    ]
  ]

  namex_lem :
      (parent : Bool) (fuel cwd : ℕ) (path : List ℕ) (refs : ℕ → ℕ)
      → length path < fuel
      → Ends parent
          (origin cwd path)
          []
          path
          (ref_up (origin cwd path) refs)
          (namex is_dir entry fuel parent cwd path refs)
  unfolding namex
  namex_lem parent fuel cwd [] refs lt =
      namex_loop-Ends fuel parent cwd [] [] (ref_up cwd refs) lt (ground arith)
  namex_lem parent fuel cwd (c ∷ path) refs lt =
      let ip = origin cwd (c ∷ path) in
      namex_loop-Ends fuel parent ip [] (c ∷ path) (ref_up ip refs) lt (ground arith)

  -- With more fuel than the path has bytes, namei comes to an end and gives the inode that the
  -- elements of the path name one after another, from the root if the path starts with a slash and
  -- else from the current directory; it gives null exactly if one of them is not to be found or the
  -- next one is looked for in an inode that is no directory. Each inode then has as many references
  -- as before, and the one that is given has one more.
  pub namei_lem :
      (fuel cwd : ℕ) (path : List ℕ) (refs : ℕ → ℕ)
      → length path < fuel
      → (r : Option (ℕ × List ℕ)) × (refs' : ℕ → ℕ) × (namex is_dir entry fuel false cwd path refs
          ≡ some (r, refs'))
        × (inode_of r ≡ resolve (origin cwd path) (elements path))
        × ((j : ℕ) → refs' j ≡ refs j + held r j)
  namei_lem fuel cwd path refs lt =
      let e = namex_lem false fuel cwd path refs lt in
      let ip = origin cwd path in
      let r = answer false ip [] (elements path) in
      (
        r,
        e.refs',
        e.gives,
        answer-resolve ip [] (elements path),
        λ j. started ip refs j (e.refs' j) (held r j) (e.counts j),
      )

  -- With more fuel than the path has bytes, nameiparent comes to an end and gives the directory that
  -- all elements of the path but the last one name, and the last one, cut to 14 bytes; it gives null
  -- if the path has no element, or the directory is not to be found or is none. Each inode then has
  -- as many references as before, and the one that is given has one more.
  pub nameiparent_lem :
      (fuel cwd : ℕ) (path : List ℕ) (refs : ℕ → ℕ)
      → length path < fuel
      → (r : Option (ℕ × List ℕ)) × (refs' : ℕ → ℕ) × (namex is_dir entry fuel true cwd path refs
          ≡ some (r, refs'))
        × (r ≡ resolve_parent (origin cwd path) (elements path))
        × ((j : ℕ) → refs' j ≡ refs j + held r j)
  nameiparent_lem fuel cwd path refs lt =
      let e = namex_lem true fuel cwd path refs lt in
      let ip = origin cwd path in
      let r = answer true ip [] (elements path) in
      (
        r,
        e.refs',
        e.gives,
        answer-resolve_parent ip [] (elements path),
        λ j. started ip refs j (e.refs' j) (held r j) (e.counts j),
      )
