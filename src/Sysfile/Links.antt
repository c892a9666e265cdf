-- ===== src/Sysfile/Links.antt =====
-- The system calls of xv6 modified/sysfile.c keep the references of a file equal to the descriptors
-- that name it.
use osn_assignments.Base.{
  ℕ, ◌+◌, ◌-◌, ◌<◌, ◌≤◌, ◌≡◌, ◌≢◌, refl, ◌⊎◌, inl, inr, ◌==◌, ltb, Bool-cases, false, Option,
  Option-cases, none, some, List, length, get_or, set, modify, arith,
}
use osn_assignments.File.{
  File, file_at, filedup, FileType, fd_none, fd_pipe, fd_inode, Closed, panics, still_open,
  closes_pipe, puts_inode, closes_nothing, last_close, fileclose,
}
use osn_assignments.File.Counts.{in_range}
use osn_assignments.Syscall.{Caller}
use osn_assignments.Sysfile.{argfd, returns, sys_dup, sys_close}
use osn_assignments.Sysfile.Slots.{
  links, IsCounted, links-at, links-set, links-set_self, Picked, fdalloc_lem, argfd_lem, up, ref-up,
  ref-down,
}

-- In a process whose files are counted, sys_dup does not panic, and its files are counted after it.
-- It fails, and changes nothing, if the argument is no open descriptor or all descriptors are open;
-- else it gives the first free descriptor, which names the argument's file then.
pub sys_dup-IsCounted :
    (c : Caller) (ofile : List (Option ℕ)) (t : List File) (extra : ℕ → ℕ)
    → IsCounted extra ofile t
    → (r : Option ℕ) × (ofile' : List (Option ℕ)) × (t' : List File) × (sys_dup c ofile t
        ≡ returns r ofile' t')
      × IsCounted extra ofile' t'
      × (((r ≡ none)
            × (ofile' ≡ ofile)
            × (t' ≡ t)
            × ((argfd c ofile 0 ≡ none)
                ⊎ ((j : ℕ) → j < length ofile → get_or ofile j none ≢ none)))
          ⊎ ((fd0 : ℕ) × (f : ℕ) × (fd : ℕ) × (argfd c ofile 0 ≡ some (fd0, f))
              × (r ≡ some fd)
              × (get_or ofile fd0 none ≡ some f)
              × Picked f ofile fd ofile'))
unfolding sys_dup filedup
sys_dup-IsCounted c ofile t extra w = elim (Option-cases (argfd c ofile 0)) [
  | inl e ↦ (none, ofile, t, rw (e, sys_dup) refl, w, inl (refl, refl, refl, inl e))
  | inr ((fd0, f), e) ↦
      let named = argfd_lem c ofile 0 fd0 f e in
      elim (fdalloc_lem f ofile) [
        | inl (q, h) ↦ (none, ofile, t, rw (e, sys_dup, q) refl, w, inl (refl, refl, refl, inr h))
        | inr (fd, ofile', q, p) ↦
            let n : ((file_at t f).ref == 0) ≡ false =
              ground (arith, w f, links-at ofile fd0 f named) in
            (
              some fd,
              ofile',
              modify t f up,
              rw (e, sys_dup, q, filedup, n) refl,
              λ i. omega (
                arith,
                w i,
                p.linked i,
                ref-up t f i (in_range t f (in_use f (w f) (links-at ofile fd0 f named))),
              ),
              inr (fd0, f, fd, e, refl, named, p),
            )
      ]
]
  where
    in_use :
        (f : ℕ)
        → (file_at t f).ref ≡ links f ofile + extra f
        → 1 ≤ links f ofile
        → (file_at t f).ref ≢ 0
    in_use f a b z = omega arith

-- The table of files after fileclose.
abbrev pub files_after : Closed → Option (List File)
files_after panics = none
files_after (still_open t) = some t
files_after (closes_pipe p w t) = some t
files_after (puts_inode ip t) = some t
files_after (closes_nothing t) = some t

files_after-last_close :
    (k : FileType) (ff : File) (t : List File) → files_after (last_close k ff t) ≡ some t
files_after-last_close fd_none ff t = refl
files_after-last_close fd_pipe ff t = refl
files_after-last_close fd_inode ff t = refl

-- In a process whose files are counted, sys_close of an open descriptor frees it and no other, does
-- not panic, and the files are counted after it. The file stays open exactly if another descriptor,
-- of this process or another one, names it; else fileclose closes what it stands for.
pub sys_close-IsCounted :
    (c : Caller) (ofile : List (Option ℕ)) (t : List File) (extra : ℕ → ℕ) (fd f : ℕ)
    → IsCounted extra ofile t
    → argfd c ofile 0 ≡ some (fd, f)
    → (d : Closed) × (t' : List File) × (sys_close c ofile t ≡ some (set ofile fd none, d))
      × (files_after d ≡ some t')
      × IsCounted extra (set ofile fd none) t'
      × (((1 ≤ links f (set ofile fd none) + extra f) × (d ≡ still_open t'))
          ⊎ ((links f (set ofile fd none) + extra f ≡ 0)
              × (d ≡ last_close (file_at t f).kind (file_at t f) t')))
unfolding sys_close fileclose
sys_close-IsCounted c ofile t extra fd f w e =
    let named = argfd_lem c ofile 0 fd f e in
    let l = links-set ofile fd f in
    let self = links-set_self ofile fd f named in
    let cnt : (file_at t f).ref ≡ links f (set ofile fd none) + 1 + extra f =
      omega (arith, w f, self) in
    let n : ((file_at t f).ref == 0) ≡ false = ground (arith, cnt) in
    let lt : f < length t = in_range t f (pos cnt) in
    elim (Bool-cases (ltb 1 (file_at t f).ref)) [
      | inl b ↦
          let t' = modify t f less in
          (
            still_open t',
            t',
            rw (e, sys_close, fileclose, n, b) refl,
            refl,
            λ i.
                omega (
                  arith,
                  w i,
                  l i named,
                  ref-down t f i less lt (less_ref (file_at t f) (pos cnt)),
                ),
            inl (ground (arith, cnt, b), refl),
          )
      | inr b ↦
          let t' = modify t f freed in
          (
            last_close (file_at t f).kind (file_at t f) t',
            t',
            rw (e, sys_close, fileclose, n, b) refl,
            files_after-last_close (file_at t f).kind (file_at t f) t',
            λ i. omega (arith, w i, l i named, ref-down t f i freed lt (ground (arith, cnt, b))),
            inr (ground (arith, cnt, b), refl),
          )
    ]
  where
    less : File → File
    less x = record x { ref = x.ref - 1 }

    freed : File → File
    freed x = record x { ref = 0; kind = fd_none }

    pos : (file_at t f).ref ≡ links f (set ofile fd none) + 1 + extra f → (file_at t f).ref ≢ 0
    pos a z = omega arith

    less_ref : (x : File) → x.ref ≢ 0 → x.ref - 1 + 1 ≡ x.ref
    less_ref x h = omega arith
