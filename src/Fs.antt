-- ===== src/Fs.antt =====
-- The lower layers of xv6 modified/fs.c: the blocks and their free map (Bitmap), the inode cache
-- (Icache), and directories (Directory). `blocks` is what bread shows of each block, byte by byte, with
-- the writes of the running transaction; each function is one step of it. Block numbers are below
-- 2 ^ 31, so that the sums of the loops do not wrap.
pub mod Bits
pub mod Scan
pub mod Bitmap
pub mod Icache
pub mod Content
pub mod Directory
pub mod Transfer
pub mod Freeing
use osn_assignments.Base.{
  ℕ, zero, suc, ◌+◌, ◌-◌, ◌*◌, ◌/◌, ◌%◌, ◌==◌, ltb, if◌then◌else◌, Bool, true, false, Option, none,
  some, List, [], ◌∷◌, update,
}

-- `BSIZE` and `BPB`
abbrev pub bsize : ℕ
bsize = 512

abbrev pub bpb : ℕ
bpb = 4096

-- `struct superblock`
pub record Superblock : Type 0 where
  pub size : ℕ
  pub nblocks : ℕ
  pub ninodes : ℕ
  pub nlog : ℕ
  pub logstart : ℕ
  pub inodestart : ℕ
  pub bmapstart : ℕ

-- `BBLOCK`
abbrev pub bblock : ℕ → Superblock → ℕ
bblock b sb = b / bpb + sb.bmapstart

-- The bytes of each block.
abbrev pub Blocks : Type 0
Blocks = ℕ → ℕ → ℕ

-- `bp->data[i] = v` and log_write, for block `b`.
abbrev pub set_byte : Blocks → ℕ → ℕ → ℕ → Blocks
set_byte blocks b i v = update blocks b (update (blocks b) i v)

-- `bzero`
abbrev pub bzero : Blocks → ℕ → Blocks
bzero blocks b = update blocks b (λ i. 0)

-- `x & (1 << k)`, 0 or 1 for clear or not.
unfoldable pub bit : ℕ → ℕ → ℕ
bit zero x = x % 2
bit (suc k) x = bit k (x / 2)

-- `x | (1 << k)`
unfoldable pub set_bit : ℕ → ℕ → ℕ
set_bit zero x = if x % 2 == 0 then x + 1 else x
set_bit (suc k) x = 2 * set_bit k (x / 2) + x % 2

-- `x & ~(1 << k)`
unfoldable pub clear_bit : ℕ → ℕ → ℕ
clear_bit zero x = x - x % 2
clear_bit (suc k) x = 2 * clear_bit k (x / 2) + x % 2

-- The inner loop of `balloc` from `bi` on, with `n` bits left of the map's block: the first free one.
unfoldable pub scan_bits : ℕ → Superblock → Blocks → ℕ → ℕ → Option ℕ
unfolding bit
scan_bits zero sb blocks b bi = none
scan_bits (suc n) sb blocks b bi =
    let rest = scan_bits n sb blocks b (bi + 1) in
    if ltb (b + bi) sb.size
    then (if bit (bi % 8) (blocks (bblock b sb) (bi / 8)) == 0 then some bi else rest)
    else none

pub data Balloc : Type 0 where
  allocates : ℕ → Blocks → Balloc
  out_of_blocks : Balloc
  no_fuel : Balloc

-- `balloc` from the block `b` of its outer loop on.
unfoldable pub balloc_from : ℕ → Superblock → Blocks → ℕ → Balloc
unfolding scan_bits set_bit
balloc_from zero sb blocks b = no_fuel
balloc_from (suc fuel) sb blocks b = elim (ltb b sb.size) [
  | false ↦ out_of_blocks
  | true ↦ elim (scan_bits bpb sb blocks b 0) [
    | none ↦ balloc_from fuel sb blocks (b + bpb)
    | some bi ↦
        let byte = blocks (bblock b sb) (bi / 8) in
        allocates (b + bi)
          (bzero (set_byte blocks (bblock b sb) (bi / 8) (set_bit (bi % 8) byte)) (b + bi))
  ]
]

unfoldable pub balloc : ℕ → Superblock → Blocks → Balloc
unfolding balloc_from
balloc fuel sb blocks = balloc_from fuel sb blocks 0

-- `bfree`; `none` is the panic.
unfoldable pub bfree : Superblock → Blocks → ℕ → Option Blocks
unfolding bit clear_bit
bfree sb blocks b =
    let bi = b % bpb in
    let byte = blocks (bblock b sb) (bi / 8) in
    if bit (bi % 8) byte == 0
    then none
    else some (set_byte blocks (bblock b sb) (bi / 8) (clear_bit (bi % 8) byte))
