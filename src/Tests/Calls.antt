-- ===== src/Tests/Calls.antt =====
-- System call arguments and file descriptors.
use osn_assignments.Base.{
  ℕ, zero, suc, ◌+◌, ◌^◌, ◌<◌, ◌≤◌, ◌≡◌, ◌≢◌, ◌⊎◌, ◌==◌, if◌then◌else◌, refl, Option, none, some,
  List, [], ◌∷◌, replicate, get_or, set, arith,
}
use osn_assignments.File.{File, zero_file, fd_inode, file_at, Closed, still_open, last_close}
use osn_assignments.Syscall.{Caller, fetchint, argint, argptr}
use osn_assignments.Syscall.Bounds.{argptr_lem}
use osn_assignments.Sysfile.{argfd, returns, sys_dup, sys_close, sys_transfer}
use osn_assignments.Sysfile.Slots.{IsCounted, Picked}
use osn_assignments.Sysfile.Links.{sys_dup-IsCounted, files_after, sys_close-IsCounted}
use osn_assignments.Sysfile.Transfer.{IsBytes, sys_transfer_lem}

-- A process of 64 bytes whose arguments are 1, 40 and 8.
abbrev caller : Caller
caller = record {
  sz = 64;
  memory = λ a. if a == 20 then 1 else if a == 24 then 40 else if a == 28 then 8 else 0;
  esp = 16;
}

abbrev descriptors : List (Option ℕ)
descriptors = some 0 ∷ (some 1 ∷ replicate 14 none)

-- File 1 is open in another process too.
abbrev opened : List File
opened =
    record zero_file { kind = fd_inode; ref = 1 }
    ∷ (record zero_file { kind = fd_inode; ref = 2; ip = 3 } ∷ [])

abbrev others : ℕ → ℕ
others i = if i == 1 then 1 else 0

opened-IsCounted : IsCounted others descriptors opened
opened-IsCounted zero = refl
opened-IsCounted (suc zero) = refl
opened-IsCounted (suc (suc i)) = ground arith

argptr_lem_example :
    ((8 < 2 ^ 31) × (40 < 64) × (40 + 8 ≤ 64) × (argptr caller 1 8 ≡ some 40))
    ⊎ (((2 ^ 31 ≤ 8) ⊎ ((64 ≤ 40) ⊎ (64 < 40 + 8))) × (argptr caller 1 8 ≡ none))
unfolding argint fetchint
argptr_lem_example = argptr_lem caller 1 8 40 (omega arith) (omega arith) refl

sys_transfer_run : sys_transfer caller descriptors ≡ some (1, 40, 8)
unfolding sys_transfer argfd argint fetchint argptr
sys_transfer_run = refl

caller-IsBytes : IsBytes caller
caller-IsBytes a = ground arith

sys_transfer_lem_example :
    ((fd : ℕ) × (get_or descriptors fd none ≡ some 1)) × (8 < 2 ^ 31) × (40 < 64) × (40 + 8 ≤ 64)
sys_transfer_lem_example =
    sys_transfer_lem caller descriptors 1 40 8 (omega arith) caller-IsBytes sys_transfer_run

sys_dup-IsCounted_example :
    (r : Option ℕ) × (ofile' : List (Option ℕ)) × (t' : List File) × (sys_dup caller descriptors
        opened
      ≡ returns r ofile' t')
    × IsCounted others ofile' t'
    × (((r ≡ none)
          × (ofile' ≡ descriptors)
          × (t' ≡ opened)
          × ((argfd caller descriptors 0 ≡ none)
              ⊎ ((j : ℕ) → j < 16 → get_or descriptors j none ≢ none)))
        ⊎ ((fd0 : ℕ) × (f : ℕ) × (fd : ℕ) × (argfd caller descriptors 0 ≡ some (fd0, f))
            × (r ≡ some fd)
            × (get_or descriptors fd0 none ≡ some f)
            × Picked f descriptors fd ofile'))
sys_dup-IsCounted_example = sys_dup-IsCounted caller descriptors opened others opened-IsCounted

sys_close-IsCounted_example :
    (d : Closed) × (t' : List File) × (sys_close caller descriptors opened
      ≡ some (set descriptors 1 none, d))
    × (files_after d ≡ some t')
    × IsCounted others (set descriptors 1 none) t'
    × (((1 ≤ 1) × (d ≡ still_open t'))
        ⊎ ((◌≡◌ {A = ℕ} 1 0) × (d ≡ last_close fd_inode (file_at opened 1) t')))
unfolding argfd argint fetchint
sys_close-IsCounted_example =
    sys_close-IsCounted caller descriptors opened others 1 1 opened-IsCounted refl
