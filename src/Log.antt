-- ===== src/Log.antt =====
-- The write-ahead log of xv6 modified/log.c. The on-disk header block is the list of its block
-- numbers, `lh.n` of them; any other block is one value, moved and never looked into. The buffer
-- cache gives `bread` the newest contents of a block: `cache` before a commit, and then the disk,
-- where each bwrite of one block is atomic.
pub mod Writes
pub mod Crash
pub mod Recovery
pub mod Space
use osn_assignments.Base.{
  ℕ, zero, suc, ◌+◌, ◌-◌, ◌*◌, ◌==◌, ltb, leb, if◌then◌else◌, Bool, true, false, ◌||◌, Option, none,
  some, List, [], ◌∷◌, ◌++◌, length, update,
}
use osn_assignments.Base.Int.{to_int, lt_int, pos}
use osn_assignments.Proc.Types.{inc_word, dec_word}

-- `LOGSIZE` and `MAXOPBLOCKS`
abbrev pub log_size : ℕ
log_size = 30

abbrev pub max_op_blocks : ℕ
max_op_blocks = 10

-- The disk: the header at block `log.start`, and the contents of the other blocks.
pub record Disk : Type 0 where
  pub head : List ℕ
  pub blocks : ℕ → ℕ

-- One bwrite.
pub data Write : Type 0 where
  block : ℕ → ℕ → Write
  header : List ℕ → Write

abbrev pub apply : Write → Disk → Disk
apply (block b v) d = record d { blocks = update d.blocks b v }
apply (header lh) d = record d { head = lh }

-- The writes in order.
unfoldable pub apply_all : List Write → Disk → Disk
apply_all [] d = d
apply_all (w ∷ ws) d = apply_all ws (apply w d)

-- The writes of `write_log` from index `tail` on.
unfoldable pub write_log : ℕ → ℕ → List ℕ → (ℕ → ℕ) → List Write
write_log start tail [] cache = []
write_log start tail (b ∷ bs) cache =
    block (start + tail + 1) (cache b) ∷ write_log start (tail + 1) bs cache

-- The writes of `install_trans` from index `tail` on, each from the disk as it is then.
unfoldable pub install_trans : ℕ → ℕ → List ℕ → Disk → List Write
install_trans start tail [] d = []
install_trans start tail (b ∷ bs) d =
    let v = d.blocks (start + tail + 1) in
    block b v ∷ install_trans start (tail + 1) bs (apply (block b v) d)

-- The writes of `commit`; `write_head` is one write of the header.
unfoldable pub commit : ℕ → List ℕ → (ℕ → ℕ) → Disk → List Write
unfolding write_log install_trans apply_all
commit start [] cache d = []
commit start (b ∷ bs) cache d =
    let logged = write_log start 0 (b ∷ bs) cache ++ (header (b ∷ bs) ∷ []) in
    logged ++ (install_trans start 0 (b ∷ bs) (apply_all logged d) ++ (header [] ∷ []))

-- The writes of `recover_from_log`, behind its read_head.
unfoldable pub recover_from_log : ℕ → Disk → List Write
unfolding install_trans
recover_from_log start d = install_trans start 0 d.head d ++ (header [] ∷ [])

-- `struct log`, in memory. `outstanding` is an `int` as its 32-bit pattern.
pub record Log : Type 0 where
  pub start : ℕ
  pub size : ℕ
  pub outstanding : ℕ
  pub committing : Bool
  pub lh : List ℕ

-- One round of `begin_op`; `none` where it sleeps.
unfoldable pub begin_op : Log → Option Log
begin_op l =
    if l.committing
    then none
    else if ltb log_size (length l.lh + inc_word l.outstanding * max_op_blocks)
    then none
    else some (record l { outstanding = inc_word l.outstanding })

-- How the locked part of `end_op` ends.
pub data Ended : Type 0 where
  panics : Ended
  must_commit : Log → Ended
  wakes : Log → Ended

unfoldable pub end_op : Log → Ended
end_op l =
    if l.committing
    then panics
    else if dec_word l.outstanding == 0
    then must_commit (record l { outstanding = dec_word l.outstanding; committing = true })
    else wakes (record l { outstanding = dec_word l.outstanding })

-- The rest of `end_op`, when its commit is done.
abbrev pub committed : Log → Log
committed l = record l { committing = false; lh = [] }

-- The loop of `log_write`: the block list with `b` recorded.
unfoldable pub record_block : ℕ → List ℕ → List ℕ
record_block b [] = b ∷ []
record_block b (c ∷ cs) = if c == b then b ∷ cs else c ∷ record_block b cs

-- `log_write`; `none` is either panic.
unfoldable pub log_write : ℕ → Log → Option Log
log_write b l =
    if leb log_size (length l.lh) || leb (l.size - 1) (length l.lh)
    then none
    else if lt_int (to_int l.outstanding) (pos 1)
    then none
    else some (record l { lh = record_block b l.lh })
