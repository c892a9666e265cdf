-- ===== src/Fs/Transfer.antt =====
-- fileread and filewrite of xv6 modified/file.c on an inode. A pipe's transfer is that of Pipe; the
-- transaction around each writei is that of Log.
pub mod Chunks
use osn_assignments.Base.{
  ℕ, zero, suc, ◌+◌, if◌then◌else◌, Bool, true, false, min, Option, none, some, List, [], ◌∷◌,
  length, take, drop, ltb,
}
use osn_assignments.File.{File, FileType, fd_none, fd_pipe, fd_inode}
use osn_assignments.Fs.{Superblock, Blocks}
use osn_assignments.Fs.Icache.{Dinode}
use osn_assignments.Fs.Content.{readi, writei, Ended, refused, to_device, ends}

-- `max`: three blocks, as `MAXOPBLOCKS` is 10.
abbrev pub max_chunk : ℕ
max_chunk = 1536

-- How fileread and filewrite end: with a panic, with -1, in the function of a pipe, in that of a device (for
-- filewrite with the first chunk; the further ones are not followed), or with the bytes
-- read or the bytes not written, the inode, the blocks and `f->off`.
pub data Io : Type 0 where
  panicked : Io
  fails : Io
  to_pipe : ℕ → Io
  to_driver : ℕ → Io
  moved : List ℕ → Dinode → Blocks → ℕ → Io

-- The branch of `fileread` for an inode.
unfoldable pub read_inode : ℕ → Superblock → Dinode → Blocks → ℕ → ℕ → Io
unfolding readi
read_inode fuel sb ip blocks off n = elim (readi fuel sb ip blocks off n) [
  | refused ↦ fails
  | to_device m ↦ to_driver m
  | ends r ↦ elim r [
    | none ↦ panicked
    | some (l, ip', blocks') ↦ moved l ip' blocks' (off + length l)
  ]
]

-- `fileread`
unfoldable pub fileread : ℕ → Superblock → File → Dinode → Blocks → ℕ → Io
unfolding read_inode
fileread fuel sb f ip blocks n =
    if f.readable
    then elim (f.kind) [
      | fd_pipe ↦ to_pipe f.pipe
      | fd_inode ↦ read_inode fuel sb ip blocks f.off n
      | fd_none ↦ panicked
    ]
    else fails

-- The loop of `filewrite` with the bytes `l` to go.
unfoldable pub write_chunks : ℕ → ℕ → Superblock → Dinode → Blocks → ℕ → List ℕ → Io
unfolding writei
write_chunks rounds fuel sb ip blocks off [] = moved [] ip blocks off
write_chunks zero fuel sb ip blocks off (x ∷ src) = panicked
write_chunks (suc rounds) fuel sb ip blocks off (x ∷ src) =
    let n1 = min (length (x ∷ src)) max_chunk in
    elim (writei fuel sb ip blocks off (take n1 (x ∷ src))) [
      | refused ↦ moved (x ∷ src) ip blocks off
      | to_device m ↦ to_driver m
      | ends r ↦ elim r [
        | none ↦ panicked
        | some (ip', blocks') ↦
            write_chunks rounds fuel sb ip' blocks' (off + n1) (drop n1 (x ∷ src))
      ]
    ]

-- `filewrite`; the result is -1 if bytes are left.
unfoldable pub filewrite : ℕ → Superblock → File → Dinode → Blocks → List ℕ → Io
unfolding write_chunks
filewrite fuel sb f ip blocks l =
    if f.writable
    then elim (f.kind) [
      | fd_pipe ↦ to_pipe f.pipe
      | fd_inode ↦ write_chunks (length l) fuel sb ip blocks f.off l
      | fd_none ↦ panicked
    ]
    else fails
