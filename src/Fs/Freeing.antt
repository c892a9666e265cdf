-- ===== src/Fs/Freeing.antt =====
-- itrunc of xv6 modified/fs.c, up to the iupdate at its end.
pub mod Freed
use osn_assignments.Base.{
  ℕ, zero, suc, ◌+◌, ◌==◌, Bool, true, false, if◌then◌else◌, Option, none, some, List, [], ◌∷◌,
  ◌++◌, take, replicate, tab,
}
use osn_assignments.Fs.{Superblock, Blocks, bfree}
use osn_assignments.Fs.Icache.{Dinode}
use osn_assignments.Fs.Content.{ndirect, nindirect, entry, addr}

-- A loop of `itrunc`: bfree of the numbers that are not 0; `none` is its panic.
unfoldable pub free_all : Superblock → Blocks → List ℕ → Option Blocks
unfolding bfree
free_all sb blocks [] = some blocks
free_all sb blocks (x ∷ l) = elim (x == 0) [
  | true ↦ free_all sb blocks l
  | false ↦ elim (bfree sb blocks x) [ none ↦ none | some blocks' ↦ free_all sb blocks' l ]
]

-- The numbers in an indirect block.
unfoldable pub numbers_in : (ℕ → ℕ) → List ℕ
numbers_in block = tab (entry block) 0 nindirect

-- bfree of the numbers of the indirect block, and then of that block.
unfoldable pub free_table : Superblock → Blocks → List ℕ → ℕ → Option Blocks
unfolding free_all
free_table sb blocks l ind = elim (free_all sb blocks l) [
  | none ↦ none
  | some blocks' ↦ bfree sb blocks' ind
]

-- The indirect part of `itrunc`; the numbers are those that stand in the block when it is read.
unfoldable pub free_indirect : Superblock → Blocks → ℕ → Option Blocks
unfolding free_table numbers_in
free_indirect sb blocks ind = elim (ind == 0) [
  | true ↦ some blocks
  | false ↦ free_table sb blocks (numbers_in (blocks ind)) ind
]

-- `itrunc`: the inode and the blocks.
unfoldable pub itrunc : Superblock → Dinode → Blocks → Option (Dinode × Blocks)
unfolding free_all free_indirect
itrunc sb ip blocks = elim (free_all sb blocks (take ndirect ip.addrs)) [
  | none ↦ none
  | some blocks1 ↦ elim (free_indirect sb blocks1 (addr ip ndirect)) [
    | none ↦ none
    | some blocks2 ↦ some (record ip { addrs = replicate 13 0; size = 0 }, blocks2)
  ]
]
