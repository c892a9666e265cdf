-- ===== src/Fs/Directory.antt =====
-- dirlookup of xv6 modified/fs.c. A directory is an inode whose contents are entries of 16 bytes: the
-- number of an inode, and a name of 14 bytes or up to a NUL.
pub mod Lookup
use osn_assignments.Base.{
  ℕ, zero, suc, ◌+◌, ◌*◌, ◌==◌, ltb, if◌then◌else◌, Bool, true, false, Option, none, some, List,
  get_or, length, take, drop, tab,
}
use osn_assignments.Fs.{Superblock, Blocks}
use osn_assignments.Fs.Icache.{Dinode}
use osn_assignments.Fs.Content.{readi, Ended, refused, to_device, ends}
use osn_assignments.Fs.Content.Reading.{byte_at}

-- The byte that a pointer into a name shows.
abbrev pub head_of : List ℕ → ℕ
head_of p = get_or p 0 0

-- `strncmp(s, t, n) == 0`
unfoldable pub same_name : ℕ → List ℕ → List ℕ → Bool
same_name zero p q = true
same_name (suc n) p q =
    let rest = same_name n (drop 1 p) (drop 1 q) in
    if head_of p == 0 then head_of q == 0 else if head_of p == head_of q then rest else false

-- `namecmp(s, t) == 0`
unfoldable pub namecmp : List ℕ → List ℕ → Bool
unfolding same_name
namecmp s t = same_name 14 s t

-- `de.inum` and `de.name` of the bytes of an entry.
abbrev pub inum_of : List ℕ → ℕ
inum_of de = get_or de 0 0 + 256 * get_or de 1 0

abbrev pub name_of : List ℕ → List ℕ
name_of de = take 14 (drop 2 de)

-- `T_DIR`
abbrev pub t_dir : ℕ
t_dir = 1

-- The loop of `dirlookup` from `off` on: the inode's number and the offset, or null. `none` is a panic
-- or fuel that ran out. A directory is no device, so readi does not come to one.
unfoldable pub dirlookup_loop :
    (rounds fuel : ℕ) → Superblock → List ℕ → (off : ℕ) → Dinode → Blocks → Option (Option (ℕ × ℕ))
unfolding readi namecmp
dirlookup_loop zero fuel sb name off dp blocks = none
dirlookup_loop (suc rounds) fuel sb name off dp blocks = elim (ltb off dp.size) [
  | false ↦ some none
  | true ↦ elim (readi fuel sb dp blocks off 16) [
    | refused ↦ none
    | to_device m ↦ none
    | ends r ↦ elim r [
      | none ↦ none
      | some (de, dp', blocks') ↦
          let rest = dirlookup_loop rounds fuel sb name (off + 16) dp' blocks' in
          if length de == 16
          then (if inum_of de == 0
              then rest
              else if namecmp name (name_of de)
              then some (some (inum_of de, off))
              else rest)
          else none
    ]
  ]
]

-- `dirlookup` up to the call of iget.
unfoldable pub dirlookup :
    (rounds fuel : ℕ) → Superblock → List ℕ → Dinode → Blocks → Option (Option (ℕ × ℕ))
unfolding dirlookup_loop
dirlookup rounds fuel sb name dp blocks =
    if dp.kind == t_dir then dirlookup_loop rounds fuel sb name 0 dp blocks else none
