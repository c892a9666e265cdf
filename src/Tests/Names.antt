-- ===== src/Tests/Names.antt =====
-- Path names, the free map and the inode cache.
use osn_assignments.Base.{
  ℕ, zero, suc, ◌+◌, ◌/◌, ◌<◌, ◌≡◌, ◌≢◌, ◌⊎◌, ◌==◌, if◌then◌else◌, refl, Bool, true, false, Option,
  none, some, List, [], ◌∷◌, map, take, update, arith,
}
use osn_assignments.Path.{dirsiz, namex}
use osn_assignments.Path.Elements.{elements, names, skipelem_lem}
use osn_assignments.Path.Lookup.{held, resolve, inode_of, origin, namei_lem}
use osn_assignments.Fs.{
  Superblock, Blocks, bit, set_bit, scan_bits, allocates, out_of_blocks, balloc_from, balloc, bfree,
}
use osn_assignments.Fs.Scan.{Full}
use osn_assignments.Fs.Bitmap.{IsMapped, Takes, balloc_lem, bfree-balloc}
use osn_assignments.Fs.Icache.{Inode, iget}
use osn_assignments.Fs.Icache.Entries.{is_of, zero_inode, at, Once, Got, iget_lem}

-- "//a/bc/"
abbrev path : List ℕ
path = b'/' ∷ (b'/' ∷ (b'a' ∷ (b'/' ∷ (b'b' ∷ (b'c' ∷ (b'/' ∷ []))))))

skipelem_lem_example : names 8 path ≡ some (map (take dirsiz) (elements path))
skipelem_lem_example = skipelem_lem 8 path (omega arith)

elements_run : elements path ≡ (b'a' ∷ []) ∷ ((b'b' ∷ (b'c' ∷ [])) ∷ [])
elements_run = refl

-- Directory 1 has the directory 2 as "a", and that has the file 3 by any other name.
abbrev dirs : ℕ → Bool
dirs i = if i == 1 then true else i == 2

abbrev entries : ℕ → List ℕ → Option ℕ
entries i [] = none
entries i (c ∷ w) =
    if c == b'a' then (if i == 1 then some 2 else none) else (if i == 2 then some 3 else none)

abbrev refs : ℕ → ℕ
refs i = 1

namei_lem_example :
    (r : Option (ℕ × List ℕ)) × (refs' : ℕ → ℕ) × (namex dirs entries 8 false 5 path refs
      ≡ some (r, refs'))
    × (inode_of r ≡ resolve dirs entries (origin 5 path) (elements path))
    × ((j : ℕ) → refs' j ≡ refs j + held r j)
namei_lem_example = namei_lem dirs entries 8 5 path refs (omega arith)

resolve_run : resolve dirs entries (origin 5 path) (elements path) ≡ some 3
resolve_run = refl

-- A file system of 20 blocks with the map in block 3, whose first four blocks are in use.
abbrev super : Superblock
super = record {
  size = 20;
  nblocks = 16;
  ninodes = 8;
  nlog = 0;
  logstart = 2;
  inodestart = 2;
  bmapstart = 3;
}

abbrev image : Blocks
image b i = if b == 3 then (if i == 0 then 15 else 0) else b + i

image-IsMapped : IsMapped super image
unfolding bit
image-IsMapped y lt = let e : y / 4096 ≡ 0 = omega arith in rw e (λ h. cc)

-- Block 4 is the first free one.
abbrev image4 : Blocks
image4 = update (update image 3 (update (image 3) 0 31)) 4 (λ i. 0)

balloc_run : balloc_from 2 super image 0 ≡ allocates 4 image4
unfolding balloc_from scan_bits bit set_bit
balloc_run = refl

balloc_lem_example :
    ((balloc 2 super image ≡ out_of_blocks) × Full super image 0 20)
    ⊎ ((x : ℕ) × (blocks' : Blocks) × (balloc 2 super image ≡ allocates x blocks')
        × Takes super image x blocks')
balloc_lem_example = balloc_lem super image image-IsMapped 2 (omega arith)

bfree-balloc_example :
    (blocks'' : Blocks) × (bfree super image4 4 ≡ some blocks'')
    × ((c i : ℕ) → c ≢ 4 → blocks'' c i ≡ image c i)
unfolding balloc
bfree-balloc_example = bfree-balloc super image image-IsMapped 2 4 image4 (omega arith) balloc_run

-- Inode 7 of device 1 in use, and a free entry.
abbrev inodes : List Inode
inodes = record zero_inode { dev = 1; inum = 7; ref = 2; valid = true } ∷ (zero_inode ∷ [])

unused_behind : (d n j : ℕ) → is_of d n (at inodes (suc j)) ≢ true
unused_behind d n zero h = cc
unused_behind d n (suc j) h = cc

inodes-Once : Once inodes
inodes-Once d n zero zero h g = refl
inodes-Once d n zero (suc j) h g = absurd (unused_behind d n j g)
inodes-Once d n (suc i) j h g = absurd (unused_behind d n i h)

iget_lem_example :
    ((iget 1 9 inodes ≡ none)
      × ((i : ℕ) → (is_of 1 9 (at inodes i) ≡ false) × (i < 2 → (at inodes i).ref ≢ 0)))
    ⊎ ((r : ℕ) × (t' : List Inode) × (iget 1 9 inodes ≡ some (r, t'))
        × Got 1 9 r inodes t'
        × Once t')
iget_lem_example = iget_lem 1 9 inodes inodes-Once
