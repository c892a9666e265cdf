-- ===== src/Bio.antt =====
-- The buffer cache of xv6 modified/bio.c over the disk in memory of memide.c. The linked list through
-- `head` is the list of buffers, most recently used first; a `struct buf *` is its place `id` in
-- `bcache.buf`. The contents of a block are one value, moved and never looked into. Each function is
-- one step under bcache.lock; the buffers' sleeping locks are those of Sleeplock.
pub mod Search
pub mod Keys
pub mod Release
pub mod Sound
pub mod Current
pub mod Data
use osn_assignments.Base.{
  ℕ, zero, suc, ◌+◌, ◌==◌, leb, if◌then◌else◌, Bool, true, false, ◌&&◌, not, Option, none, some,
  List, [], ◌∷◌, ◌++◌, update,
}
use osn_assignments.Proc.Types.{inc_word, dec_word}

-- `NBUF`
abbrev pub nbuf : ℕ
nbuf = 30

-- `struct buf`; `valid` and `dirty` are its flags.
pub record Buf : Type 0 where
  pub id : ℕ
  pub dev : ℕ
  pub blockno : ℕ
  pub refcnt : ℕ
  pub valid : Bool
  pub dirty : Bool
  pub contents : ℕ

-- A buffer as the loader leaves it.
abbrev pub zero_buf : ℕ → Buf
zero_buf i = record {
  id = i;
  dev = 0;
  blockno = 0;
  refcnt = 0;
  valid = false;
  dirty = false;
  contents = 0;
}

-- `binit`: the loop with `n` buffers left from `i` on, and the list so far.
unfoldable pub binit_from : ℕ → ℕ → List Buf → List Buf
binit_from zero i l = l
binit_from (suc n) i l = binit_from n (i + 1) (zero_buf i ∷ l)

unfoldable pub binit : List Buf
unfolding binit_from
binit = binit_from nbuf 0 []

abbrev pub has_block : ℕ → ℕ → Buf → Bool
has_block dev blockno b = if b.dev == dev then b.blockno == blockno else false

-- The first loop of `bget`: the buffer of the block, with one reference more, and the list.
unfoldable pub find_cached : ℕ → ℕ → List Buf → Option (Buf × List Buf)
find_cached dev blockno [] = none
find_cached dev blockno (b ∷ l) =
    let rest = find_cached dev blockno l in
    if has_block dev blockno b
    then (let b' = record b { refcnt = inc_word b.refcnt } in some (b', b' ∷ l))
    else elim rest [ none ↦ none | some (c, l') ↦ some (c, b ∷ l') ]

abbrev pub is_unused : Buf → Bool
is_unused b = if b.refcnt == 0 then not b.dirty else false

-- The second loop of `bget`, which walks the list from its end: the last unused buffer, given over to
-- the block, and the list.
unfoldable pub recycle : ℕ → ℕ → List Buf → Option (Buf × List Buf)
recycle dev blockno [] = none
recycle dev blockno (b ∷ l) = elim (recycle dev blockno l) [
  | some (c, l') ↦ some (c, b ∷ l')
  | none ↦
      if is_unused b
      then (let b' = record b {
        dev = dev;
        blockno = blockno;
        valid = false;
        dirty = false;
        refcnt = 1;
      } in
          some (b', b' ∷ l))
      else none
]

-- `bget`; `none` is the panic.
unfoldable pub bget : ℕ → ℕ → List Buf → Option (Buf × List Buf)
unfolding find_cached recycle
bget dev blockno l = elim (find_cached dev blockno l) [
  | some r ↦ some r
  | none ↦ recycle dev blockno l
]

-- A store through a pointer to buffer `i`.
unfoldable pub put_buf : ℕ → (Buf → Buf) → List Buf → List Buf
put_buf i f [] = []
put_buf i f (b ∷ l) = if b.id == i then f b ∷ l else b ∷ put_buf i f l

-- The disk: the contents of its blocks, and their number.
pub record Disk : Type 0 where
  pub block : ℕ → ℕ
  pub size : ℕ

-- `iderw` of memide.c on a locked buffer: the buffer and the disk after it; `none` is a panic.
unfoldable pub iderw : Buf → Disk → Option (Buf × Disk)
iderw b d =
    if (if b.valid then not b.dirty else false)
    then none
    else if not (b.dev == 1)
    then none
    else if leb d.size b.blockno
    then none
    else if b.dirty
    then some (
      record b { dirty = false; valid = true },
      record d { block = update d.block b.blockno b.contents },
    )
    else some (record b { contents = d.block b.blockno; valid = true }, d)

-- `bread`: the buffer, the cache and the disk.
unfoldable pub bread : ℕ → ℕ → List Buf → Disk → Option (Buf × List Buf × Disk)
unfolding bget iderw put_buf
bread dev blockno l d = elim (bget dev blockno l) [
  | none ↦ none
  | some (b, l') ↦ if b.valid then some (b, l', d) else elim (iderw b d) [
    | none ↦ none
    | some (b', d') ↦ some (b', put_buf b.id (λ c. b') l', d')
  ]
]

-- `bwrite` of a locked buffer.
unfoldable pub bwrite : Buf → List Buf → Disk → Option (List Buf × Disk)
unfolding iderw put_buf
bwrite b l d = elim (iderw (record b { dirty = true }) d) [
  | none ↦ none
  | some (b', d') ↦ some (put_buf b.id (λ c. b') l, d')
]

-- The buffer `i` and the list without it.
unfoldable pub unlink : ℕ → List Buf → Option (Buf × List Buf)
unlink i [] = none
unlink i (b ∷ l) =
    let rest = unlink i l in
    if b.id == i then some (b, l) else elim rest [ none ↦ none | some (c, l') ↦ some (c, b ∷ l') ]

-- `brelse` of a locked buffer, behind its releasesleep.
unfoldable pub brelse : ℕ → List Buf → List Buf
unfolding unlink put_buf
brelse i l = elim (unlink i l) [
  | none ↦ l
  | some (b, rest) ↦
      if dec_word b.refcnt == 0
      then record b { refcnt = dec_word b.refcnt } ∷ rest
      else put_buf i (λ c. record c { refcnt = dec_word c.refcnt }) l
]
