-- ===== src/File.antt =====
-- The table of open files in xv6 modified/file.c: filealloc, filedup and fileclose. A `struct file *`
-- is the index of its slot; a pipe and an inode are opaque. `ref` counts, and is never negative.
pub mod Counts
use osn_assignments.Base.{
  ℕ, zero, suc, ◌+◌, ◌-◌, ◌==◌, ltb, if◌then◌else◌, Bool, true, false, Option, none, some, List, [],
  ◌∷◌, get_or, modify, find_index,
}

-- `enum { FD_NONE, FD_PIPE, FD_INODE }`
pub data FileType : Type 0 where
  fd_none fd_pipe fd_inode : FileType

-- `struct file`
pub record File : Type 0 where
  pub kind : FileType
  pub ref : ℕ
  pub readable : Bool
  pub writable : Bool
  pub pipe : ℕ
  pub ip : ℕ
  pub off : ℕ

-- A slot as the loader leaves it.
abbrev pub zero_file : File
zero_file = record {
  kind = fd_none;
  ref = 0;
  readable = false;
  writable = false;
  pipe = 0;
  ip = 0;
  off = 0;
}

abbrev pub file_at : List File → ℕ → File
file_at t i = get_or t i zero_file

abbrev pub is_free : File → Bool
is_free f = f.ref == 0

-- `filealloc`
unfoldable pub filealloc : List File → Option ℕ × List File
filealloc t = elim (find_index is_free t) [
  | none ↦ (none, t)
  | some i ↦ (some i, modify t i (λ f. record f { ref = 1 }))
]

-- `filedup`; `none` is the panic.
unfoldable pub filedup : ℕ → List File → Option (List File)
filedup i t =
    if (file_at t i).ref == 0 then none else some (modify t i (λ f. record f { ref = f.ref + 1 }))

-- How fileclose ends: with a panic, with references left, with a call of pipeclose, with a call of
-- iput, or with neither.
pub data Closed : Type 0 where
  panics : Closed
  still_open : List File → Closed
  closes_pipe : ℕ → Bool → List File → Closed
  puts_inode : ℕ → List File → Closed
  closes_nothing : List File → Closed

-- The calls that fileclose makes for the copy `ff` of a file, on the table after it.
abbrev pub last_close : FileType → File → List File → Closed
last_close fd_none ff t = closes_nothing t
last_close fd_pipe ff t = closes_pipe ff.pipe ff.writable t
last_close fd_inode ff t = puts_inode ff.ip t

-- `fileclose`
unfoldable pub fileclose : ℕ → List File → Closed
fileclose i t =
    if (file_at t i).ref == 0
    then panics
    else if ltb 1 (file_at t i).ref
    then still_open (modify t i (λ f. record f { ref = f.ref - 1 }))
    else last_close (file_at t i).kind (file_at t i)
        (modify t i (λ f. record f { ref = 0; kind = fd_none }))
