-- ===== src/Sysfile.antt =====
-- File descriptors in xv6 modified/sysfile.c: argfd, fdalloc, and the system calls on open files up to
-- the calls that they make of file.c. `ofile` is the caller's table, and a `struct file *` its slot in
-- the table of File. The result -1 is `none`.
pub mod Slots
pub mod Links
pub mod Transfer
use osn_assignments.Base.{
  ℕ, zero, suc, ◌+◌, ◌*◌, ◌%◌, ◌^◌, ◌==◌, ltb, leb, if◌then◌else◌, Bool, true, false, Option, none,
  some, List, [], ◌∷◌, get_or, set, modify,
}
use osn_assignments.File.{File, filealloc, filedup, Closed, still_open, fileclose, fd_pipe}
use osn_assignments.Syscall.{
  Caller, is_negative, argint, argptr, argstr, fetchint, fetchstr, add_word,
}

-- `NOFILE`
abbrev pub nofile : ℕ
nofile = 16

-- `argfd`: the descriptor and the file.
unfoldable pub argfd : Caller → List (Option ℕ) → ℕ → Option (ℕ × ℕ)
unfolding argint
argfd c ofile n = elim (argint c n) [
  | none ↦ none
  | some fd ↦
      if is_negative fd
      then none
      else if leb nofile fd
      then none
      else elim (get_or ofile fd none) [ none ↦ none | some f ↦ some (fd, f) ]
]

-- `fdalloc`: the descriptor and the table.
unfoldable pub fdalloc : ℕ → List (Option ℕ) → Option (ℕ × List (Option ℕ))
fdalloc f [] = none
fdalloc f (none ∷ t) = some (0, some f ∷ t)
fdalloc f (some g ∷ t) = elim (fdalloc f t) [
  | none ↦ none
  | some (fd, t') ↦ some (suc fd, some g ∷ t')
]

-- How a system call on descriptors ends: with a panic, or with its result and the two tables.
pub data Done : Type 0 where
  panicked : Done
  returns : Option ℕ → List (Option ℕ) → List File → Done

-- `sys_dup`
unfoldable pub sys_dup : Caller → List (Option ℕ) → List File → Done
unfolding argfd fdalloc
sys_dup c ofile t = elim (argfd c ofile 0) [
  | none ↦ returns none ofile t
  | some (fd0, f) ↦ elim (fdalloc f ofile) [
    | none ↦ returns none ofile t
    | some (fd, ofile') ↦ elim (filedup f t) [
      | none ↦ panicked
      | some t' ↦ returns (some fd) ofile' t'
    ]
  ]
]

-- `sys_close`: the table of descriptors and how fileclose ends, if it is called.
unfoldable pub sys_close : Caller → List (Option ℕ) → List File → Option (List (Option ℕ) × Closed)
unfolding argfd fileclose
sys_close c ofile t = elim (argfd c ofile 0) [
  | none ↦ none
  | some (fd, f) ↦ some (set ofile fd none, fileclose f t)
]

-- The arguments with which `sys_read` and `sys_write` call fileread and filewrite: file, pointer and
-- count.
unfoldable pub sys_transfer : Caller → List (Option ℕ) → Option (ℕ × ℕ × ℕ)
unfolding argfd argint argptr
sys_transfer c ofile = elim (argfd c ofile 0) [
  | none ↦ none
  | some (fd, f) ↦ elim (argint c 2) [
    | none ↦ none
    | some n ↦ elim (argptr c 1 n) [ none ↦ none | some p ↦ some (f, p, n) ]
  ]
]

-- `sys_fstat`: the arguments of filestat.
unfoldable pub sys_fstat : Caller → List (Option ℕ) → Option (ℕ × ℕ)
unfolding argfd argptr
sys_fstat c ofile = elim (argfd c ofile 0) [
  | none ↦ none
  | some (fd, f) ↦ elim (argptr c 1 20) [ none ↦ none | some st ↦ some (f, st) ]
]

-- The loop of `sys_exec` from argument `i` on, with `n` places of `argv` left: the arguments' addresses.
unfoldable pub exec_args : ℕ → Caller → ℕ → ℕ → Option (List ℕ)
unfolding fetchint fetchstr
exec_args zero c uargv i = none
exec_args (suc n) c uargv i = elim (fetchint c ((uargv + 4 * i) % 2 ^ 32)) [
  | none ↦ none
  | some uarg ↦ elim (uarg == 0) [
    | true ↦ some []
    | false ↦ elim (fetchstr c uarg) [
      | none ↦ none
      | some len ↦ elim (exec_args n c uargv (i + 1)) [ none ↦ none | some l ↦ some (uarg ∷ l) ]
    ]
  ]
]

-- `sys_exec`: the path and the arguments with which it calls exec.
unfoldable pub sys_exec : Caller → Option (ℕ × List ℕ)
unfolding argstr argint exec_args
sys_exec c = elim (argstr c 0) [
  | none ↦ none
  | some (path, len) ↦ elim (argint c 1) [
    | none ↦ none
    | some uargv ↦ elim (exec_args 32 c uargv 0) [ none ↦ none | some l ↦ some (path, l) ]
  ]
]
