-- ===== src/Fs/Content.antt =====
-- The contents of an inode in xv6 modified/fs.c: bmap, readi and writei. What a device's own functions
-- do is not followed, and the copy of the inode that iupdate puts on the disk is left out. An inode is the copy of it in the cache, `Dinode`; its `addrs`
-- are 13 numbers.
pub mod Reading
pub mod Writing
pub mod Written
pub mod Roundtrip
pub mod Entries
pub mod Growing
pub mod Placing
pub mod Allocating
pub mod Filled
pub mod Outcomes
use osn_assignments.Base.{
  ℕ, zero, suc, ◌+◌, ◌-◌, ◌*◌, ◌/◌, ◌%◌, ◌^◌, ◌==◌, ltb, leb, min, if◌then◌else◌, Bool, true, false,
  Option, none, some, List, [], ◌∷◌, ◌++◌, get_or, set, tab, update, length, take, drop,
}
use osn_assignments.Fs.{
  Superblock, Blocks, set_byte, bsize, Balloc, allocates, out_of_blocks, no_fuel, balloc,
}
use osn_assignments.Fs.Icache.{Dinode}

-- `NDIRECT` and `NINDIRECT`
abbrev pub ndirect : ℕ
ndirect = 12

abbrev pub nindirect : ℕ
nindirect = 128

-- `a[i]` of a block of numbers, and the store to it.
abbrev pub entry : (ℕ → ℕ) → ℕ → ℕ
entry block i =
    block (4 * i)
    + 256 * block (4 * i + 1)
    + 65536 * block (4 * i + 2)
    + 16777216 * block (4 * i + 3)

abbrev pub set_entry : Blocks → ℕ → ℕ → ℕ → Blocks
set_entry blocks b i v =
    set_byte
      (set_byte (set_byte (set_byte blocks b (4 * i) (v % 256)) b (4 * i + 1) (v / 256 % 256)) b
        (4 * i + 2) (v / 65536 % 256))
      b (4 * i + 3) (v / 16777216 % 256)

-- How bmap ends: with the block's number, or with a panic, also balloc's.
pub data Bmap : Type 0 where
  maps : ℕ → Dinode → Blocks → Bmap
  no_block : Bmap

-- `addrs[i]`, and the store of what balloc gives to it.
abbrev pub addr : Dinode → ℕ → ℕ
addr ip i = get_or ip.addrs i 0

unfoldable pub with_block : ℕ → Superblock → Dinode → ℕ → Blocks → Bmap
unfolding balloc
with_block fuel sb ip i blocks = elim (addr ip i == 0) [
  | false ↦ maps (addr ip i) ip blocks
  | true ↦ elim (balloc fuel sb blocks) [
    | allocates x blocks' ↦ maps x (record ip { addrs = set ip.addrs i x }) blocks'
    | out_of_blocks ↦ no_block
    | no_fuel ↦ no_block
  ]
]

-- The part of `bmap` behind the load of the indirect block, for entry `i` of it.
unfoldable pub bmap_indirect : ℕ → Superblock → ℕ → Bmap → Bmap
unfolding balloc
bmap_indirect fuel sb i no_block = no_block
bmap_indirect fuel sb i (maps ind ip blocks) = elim (entry (blocks ind) i == 0) [
  | false ↦ maps (entry (blocks ind) i) ip blocks
  | true ↦ elim (balloc fuel sb blocks) [
    | allocates x blocks' ↦ maps x ip (set_entry blocks' ind i x)
    | out_of_blocks ↦ no_block
    | no_fuel ↦ no_block
  ]
]

-- `bmap`, with the fuel of balloc.
unfoldable pub bmap : ℕ → Superblock → Dinode → ℕ → Blocks → Bmap
unfolding with_block bmap_indirect
bmap fuel sb ip bn blocks =
    if ltb bn ndirect
    then with_block fuel sb ip bn blocks
    else if ltb (bn - ndirect) nindirect
    then bmap_indirect fuel sb (bn - ndirect) (with_block fuel sb ip ndirect blocks)
    else no_block

-- The loop of `readi` with `left` bytes to go: the bytes, the inode and the blocks. `none` is a panic
-- or fuel that ran out.
unfoldable pub readi_loop :
    (rounds fuel : ℕ)
    → Superblock
    → Dinode
    → Blocks
    → (off left : ℕ) → Option (List ℕ × Dinode × Blocks)
unfolding bmap
readi_loop zero fuel sb ip blocks off left = if left == 0 then some ([], ip, blocks) else none
readi_loop (suc rounds) fuel sb ip blocks off left = elim (left == 0) [
  | true ↦ some ([], ip, blocks)
  | false ↦ elim (bmap fuel sb ip (off / bsize) blocks) [
    | no_block ↦ none
    | maps b ip' blocks' ↦
        let m = min left (bsize - off % bsize) in
        elim (readi_loop rounds fuel sb ip' blocks' (off + m) (left - m)) [
          | none ↦ none
          | some (l, i, c) ↦ some (tab (blocks' b) (off % bsize) m ++ l, i, c)
        ]
  ]
]

-- `T_DEV` and `NDEV`
abbrev pub t_dev : ℕ
t_dev = 3

abbrev pub ndev : ℕ
ndev = 10

-- How readi and writei end: with -1, in the hands of the device `devsw[m]`, which gives -1 if it lacks
-- the function, or with the loop, where `none` is a panic or fuel that ran out.
pub data Ended (A : Type 0) : Type 0 where
  refused : Ended A
  to_device : ℕ → Ended A
  ends : Option A → Ended A

-- The branch for a device; the major number is a short, and one from 32768 on is negative.
abbrev pub device : {A : Type 0} → Dinode → Ended A
device ip = if ltb ip.major ndev then to_device ip.major else refused

-- `readi`
unfoldable pub readi :
    (fuel : ℕ) → Superblock → Dinode → Blocks → (off n : ℕ) → Ended (List ℕ × Dinode × Blocks)
unfolding readi_loop
readi fuel sb ip blocks off n =
    if ip.kind == t_dev
    then device ip
    else if ltb ip.size off
    then refused
    else if ltb ((off + n) % 2 ^ 32) off
    then refused
    else let n' = if ltb ip.size ((off + n) % 2 ^ 32) then ip.size - off else n in
      ends (readi_loop n' fuel sb ip blocks off n')

-- `memmove(bp->data + i, src, m)` and log_write.
unfoldable pub put_bytes : Blocks → ℕ → ℕ → List ℕ → Blocks
put_bytes blocks b i [] = blocks
put_bytes blocks b i (x ∷ xs) = put_bytes (set_byte blocks b i x) b (i + 1) xs

-- The loop of `writei` with the bytes `src` to go: the inode, the blocks and `off`. `none` is a panic
-- or fuel that ran out.
unfoldable pub writei_loop :
    (rounds fuel : ℕ)
    → Superblock
    → Dinode
    → Blocks
    → (off : ℕ) → List ℕ
    → Option (Dinode × Blocks × ℕ)
unfolding bmap put_bytes
writei_loop rounds fuel sb ip blocks off [] = some (ip, blocks, off)
writei_loop zero fuel sb ip blocks off (x ∷ src) = none
writei_loop (suc rounds) fuel sb ip blocks off (x ∷ src) =
    elim (bmap fuel sb ip (off / bsize) blocks) [
      | no_block ↦ none
      | maps b ip' blocks' ↦
          let m = min (length (x ∷ src)) (bsize - off % bsize) in
          writei_loop rounds fuel sb ip' (put_bytes blocks' b (off % bsize) (take m (x ∷ src)))
            (off + m) (drop m (x ∷ src))
    ]

-- `MAXFILE*BSIZE`
abbrev pub max_size : ℕ
max_size = 71680

-- `if(n > 0 && off > ip->size) ip->size = off;`
abbrev pub grown : ℕ → Dinode → ℕ → Dinode
grown n ip off = if ltb 0 n then (if ltb ip.size off then record ip { size = off } else ip) else ip

-- `writei`
unfoldable pub writei :
    (fuel : ℕ) → Superblock → Dinode → Blocks → (off : ℕ) → List ℕ → Ended (Dinode × Blocks)
unfolding writei_loop
writei fuel sb ip blocks off src =
    if ip.kind == t_dev
    then device ip
    else if ltb ip.size off
    then refused
    else if ltb ((off + length src) % 2 ^ 32) off
    then refused
    else if ltb max_size ((off + length src) % 2 ^ 32)
    then refused
    else ends (elim (writei_loop (length src) fuel sb ip blocks off src) [
      | none ↦ none
      | some (ip', blocks', off') ↦ some (grown (length src) ip' off', blocks')
    ])
