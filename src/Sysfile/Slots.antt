-- ===== src/Sysfile/Slots.antt =====
-- The descriptors of xv6 modified/sysfile.c and the references of the files that they name.
use osn_assignments.Base.{
  ℕ, zero, suc, ◌+◌, ◌<◌, ◌≤◌, ◌≡◌, ◌≢◌, refl, sym, ◌∙◌, ap, ◌⊎◌, inl, inr, ◌==◌, leb,
  if◌then◌else◌, Bool-cases, Option, Option-cases, none, some, List, [], ◌∷◌, length, get_or, set,
  modify, get_or-modify_self, get_or-modify_ne, arith,
}
use osn_assignments.File.{File, zero_file, file_at}
use osn_assignments.Syscall.{Caller, argint, is_negative}
use osn_assignments.Sysfile.{argfd, fdalloc, nofile}

-- How many descriptors of the table name file `i`.
abbrev pub links : ℕ → List (Option ℕ) → ℕ
links i [] = 0
links i (none ∷ t) = links i t
links i (some g ∷ t) = (if g == i then 1 else 0) + links i t

-- Every file has as many references as there are descriptors of this process that name it, and
-- `extra` for the other processes.
abbrev pub IsCounted : (ℕ → ℕ) → List (Option ℕ) → List File → Type 0
IsCounted extra ofile t = (i : ℕ) → (file_at t i).ref ≡ links i ofile + extra i

pub links-at :
    (ofile : List (Option ℕ)) (fd f : ℕ) → get_or ofile fd none ≡ some f → 1 ≤ links f ofile
links-at [] fd f h = cc
links-at (none ∷ t) zero f h = cc
links-at (some g ∷ t) zero f h = ground arith
links-at (none ∷ t) (suc fd) f h = links-at t fd f h
links-at (some g ∷ t) (suc fd) f h = omega (arith, links-at t fd f h)

pub links-set :
    (ofile : List (Option ℕ)) (fd f i : ℕ)
    → get_or ofile fd none ≡ some f
    → links i (set ofile fd none) + (if f == i then 1 else 0) ≡ links i ofile
links-set [] fd f i h = cc
links-set (none ∷ t) zero f i h = cc
links-set (some g ∷ t) zero f i h = ground arith
links-set (none ∷ t) (suc fd) f i h = links-set t fd f i h
links-set (some g ∷ t) (suc fd) f i h = omega (arith, links-set t fd f i h)

-- Descriptor `fd` was the first free one and names file `f` now.
pub record Picked (f : ℕ) (ofile : List (Option ℕ)) (fd : ℕ) (ofile' : List (Option ℕ))
    : Type 0 where
  pub in_table : fd < length ofile
  pub was_free : get_or ofile fd none ≡ none
  pub before : (j : ℕ) → j < fd → get_or ofile j none ≢ none
  pub written : ofile' ≡ set ofile fd (some f)
  pub linked : (i : ℕ) → links i ofile' ≡ links i ofile + (if f == i then 1 else 0)

-- fdalloc gives the first free descriptor, which names the file then, and fails exactly if none is
-- free.
pub fdalloc_lem :
    (f : ℕ) (ofile : List (Option ℕ))
    → ((fdalloc f ofile ≡ none) × ((j : ℕ) → j < length ofile → get_or ofile j none ≢ none))
      ⊎ ((fd : ℕ) × (ofile' : List (Option ℕ)) × (fdalloc f ofile ≡ some (fd, ofile'))
          × Picked f ofile fd ofile')
unfolding fdalloc
fdalloc_lem f [] = inl (refl, λ j lt. absurd (omega arith))
fdalloc_lem f (none ∷ t) = inr (
  0,
  some f ∷ t,
  refl,
  record {
    in_table = omega arith;
    was_free = refl;
    before = λ j lt. absurd (omega arith);
    written = refl;
    linked = λ i. omega arith;
  },
)
fdalloc_lem f (some g ∷ t) = elim (fdalloc_lem f t) [
  | inl (e, h) ↦ inl (rw e refl, later h)
  | inr (fd, t', e, p) ↦ inr (
    suc fd,
    some g ∷ t',
    rw e refl,
    record {
      in_table = omega (arith, p.in_table);
      was_free = p.was_free;
      before = later p.before;
      written = ap (λ l. some g ∷ l) p.written;
      linked = λ i. omega (arith, p.linked i);
    },
  )
]
  where
    later :
        {n : ℕ}
        → ((j : ℕ) → j < n → get_or t j none ≢ none)
        → (j : ℕ) → j < suc n
        → get_or (some g ∷ t) j none ≢ none
    later h zero lt e = cc
    later h (suc j) lt e = h j (omega arith) e

pub links-set_self :
    (ofile : List (Option ℕ)) (fd f : ℕ)
    → get_or ofile fd none ≡ some f
    → links f (set ofile fd none) + 1 ≡ links f ofile
links-set_self ofile fd f h = ground (arith, links-set ofile fd f f h)

-- What argfd gives is a descriptor of the table that is open.
pub argfd_lem :
    (c : Caller) (ofile : List (Option ℕ)) (n fd f : ℕ)
    → argfd c ofile n ≡ some (fd, f)
    → get_or ofile fd none ≡ some f
unfolding argfd
argfd_lem c ofile n fd f h = elim (Option-cases (argint c n)) [
  | inl e ↦ absurd (clash (rw (e, argfd) at h))
  | inr (a, e) ↦ elim (Bool-cases (is_negative a)) [
    | inl x ↦ absurd (clash (rw (e, argfd, x) at h))
    | inr x ↦ elim (Bool-cases (leb nofile a)) [
      | inl y ↦ absurd (clash (rw (e, argfd, x, y) at h))
      | inr y ↦ elim (Option-cases (get_or ofile a none)) [
        | inl z ↦ absurd (clash (rw (e, argfd, x, y, z) at h))
        | inr (g, z) ↦
            let q : pair a g ≡ pair fd f = rw (e, argfd, x, y, z) at h in
            let qa : a ≡ fd = cc in
            let qg : g ≡ f = cc in ap (λ k. get_or ofile k none) (sym qa) ∙ z ∙ ap some qg
      ]
    ]
  ]
]
  where
    pair : ℕ → ℕ → Option (ℕ × ℕ)
    pair a g = some (a, g)

    clash : none ≡ pair fd f → ⊥
    clash q = cc

-- One reference more.
abbrev pub up : File → File
up f = record f { ref = f.ref + 1 }

pub ref-up :
    (t : List File) (f i : ℕ)
    → f < length t
    → (file_at (modify t f up) i).ref ≡ (file_at t i).ref + (if f == i then 1 else 0)
ref-up t f i lt = elim (Bool-cases (f == i)) [
  | inl e ↦
      let q : i ≡ f = ground (arith, e) in
      rw (e, q) (ap (λ x. x.ref) (get_or-modify_self t f up zero_file lt))
  | inr e ↦
      let ne : f ≢ i = ground (arith, e) in
      rw e (ap (λ x. x.ref) (get_or-modify_ne t f i up zero_file ne) ∙ omega arith)
]

pub ref-down :
    (t : List File) (f i : ℕ) (g : File → File)
    → f < length t
    → (g (file_at t f)).ref + 1 ≡ (file_at t f).ref
    → (file_at (modify t f g) i).ref + (if f == i then 1 else 0) ≡ (file_at t i).ref
ref-down t f i g lt h = elim (Bool-cases (f == i)) [
  | inl e ↦
      let q : i ≡ f = ground (arith, e) in
      rw (e, q) (ap (λ x. x.ref + 1) (get_or-modify_self t f g zero_file lt) ∙ h)
  | inr e ↦
      let ne : f ≢ i = ground (arith, e) in
      rw e (omega (arith, ap (λ x. x.ref) (get_or-modify_ne t f i g zero_file ne)))
]
