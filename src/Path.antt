-- ===== src/Path.antt =====
-- Path names in xv6 modified/fs.c: skipelem, and namex with namei and nameiparent. A path is the list
-- of its bytes before the NUL; a name is its bytes, of which `char name[DIRSIZ]` keeps 14 at most.
-- An inode is its number; `is_dir` and `entry`, which are parameters of the section, are its type and
-- what dirlookup finds in it. Of an inode's cache entry only the count of references is state here.
pub mod Elements
pub mod Lookup
use osn_assignments.Base.{
  ℕ, zero, suc, ◌+◌, ◌-◌, ◌==◌, if◌then◌else◌, Bool, true, false, ◌&&◌, Option, none, some, List,
  [], ◌∷◌, take, update,
}

-- `DIRSIZ`
abbrev pub dirsiz : ℕ
dirsiz = 14

abbrev pub slash : ℕ
slash = b'/'

-- `while(*path == '/') path++`
unfoldable pub skip_slashes : List ℕ → List ℕ
skip_slashes [] = []
skip_slashes (c ∷ p) = if c == slash then skip_slashes p else c ∷ p

-- `while(*path != '/' && *path != 0) path++`: what the loop passes, and where it stops.
unfoldable pub element : List ℕ → List ℕ
element [] = []
element (c ∷ p) = if c == slash then [] else c ∷ element p

unfoldable pub past_element : List ℕ → List ℕ
past_element [] = []
past_element (c ∷ p) = if c == slash then c ∷ p else past_element p

-- `skipelem`: the name and the path behind it, or `none` for the null pointer.
unfoldable pub skipelem : List ℕ → Option (List ℕ × List ℕ)
unfolding skip_slashes element past_element
skipelem p = elim (skip_slashes p) [
  | [] ↦ none
  | c ∷ q ↦ some (take dirsiz (element (c ∷ q)), skip_slashes (past_element (c ∷ q)))
]

abbrev pub is_empty : List ℕ → Bool
is_empty [] = true
is_empty (c ∷ p) = false

-- The count of references of each inode, with one more and with one less for `ip`.
abbrev pub ref_up : ℕ → (ℕ → ℕ) → ℕ → ℕ
ref_up ip refs = update refs ip (refs ip + 1)

abbrev pub ref_down : ℕ → (ℕ → ℕ) → ℕ → ℕ
ref_down ip refs = update refs ip (refs ip - 1)

-- `ROOTINO`
abbrev pub rootino : ℕ
rootino = 1

module _ (is_dir : ℕ → Bool) (entry : ℕ → List ℕ → Option ℕ) where
  -- The loop of `namex`: the inode and `name`, or null, and the counts. `none` is fuel that ran out.
  unfoldable pub namex_loop :
      (fuel : ℕ) (parent : Bool) (ip : ℕ) (name path : List ℕ) (refs : ℕ → ℕ)
      → Option (Option (ℕ × List ℕ) × (ℕ → ℕ))
  unfolding skipelem
  namex_loop zero parent ip name path refs = none
  namex_loop (suc fuel) parent ip name path refs = elim (skipelem path) [
    | none ↦ some (if parent then (none, ref_down ip refs) else (some (ip, name), refs))
    | some (name', path') ↦ elim (is_dir ip) [
      | false ↦ some (none, ref_down ip refs)
      | true ↦ elim (parent && is_empty path') [
        | true ↦ some (some (ip, name'), refs)
        | false ↦ elim (entry ip name') [
          | none ↦ some (none, ref_down ip refs)
          | some next ↦ namex_loop fuel parent next name' path' (ref_down ip (ref_up next refs))
        ]
      ]
    ]
  ]

  -- `namex` of a process whose current directory is `cwd`.
  unfoldable pub namex :
      (fuel : ℕ) (parent : Bool) (cwd : ℕ) (path : List ℕ) (refs : ℕ → ℕ)
      → Option (Option (ℕ × List ℕ) × (ℕ → ℕ))
  unfolding namex_loop
  namex fuel parent cwd [] refs = namex_loop fuel parent cwd [] [] (ref_up cwd refs)
  namex fuel parent cwd (c ∷ path) refs =
      let ip = if c == slash then rootino else cwd in
      namex_loop fuel parent ip [] (c ∷ path) (ref_up ip refs)
