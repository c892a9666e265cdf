-- ===== src/Proc/Sched/Levels.antt =====
-- The MLFQ scheduler of xv6 modified/proc.c on its queues: the pop from the first busy level, and the
-- aging pass.
use osn_assignments.Base.{
  ℕ, zero, suc, ◌+◌, ◌-◌, ◌%◌, ◌<◌, ◌≤◌, ◌≡◌, ◌≢◌, refl, ◌∙◌, ap, ap₂, inl, inr, ltb, leb, ◌==◌,
  if◌then◌else◌, Bool, true, false, Bool-cases, Option, Option-cases, none, some, List, [], ◌∷◌,
  ◌++◌, get_or, tab, arith,
}
use osn_assignments.Proc.Types.{nproc, age, Level, Levels, Kernel, proc_at, put_proc, dec_word}
use osn_assignments.Proc.Queue.{up, is_empty, level, pop, remove}
use osn_assignments.Proc.Queue.Window.{contents, contents_of, ring, ring_len, IsLevel, Cursors}
use osn_assignments.Proc.Queue.Ring.{fifo_pop}
use osn_assignments.Proc.Queue.Push.{IsQueues, push-IsQueues, pop_lem, remove_lem}
use osn_assignments.Proc.Sched.{age_proc, age_cell, age_upto, age_to_end, age_level, pop_first}

-- What `n` levels from level `i` on hold, one after the other.
abbrev pub waiting : ℕ → ℕ → Levels → List (Option ℕ)
waiting zero i q = []
waiting (suc n) i q = contents (level q i) ++ waiting n (i + 1) q

waiting-ext :
    (n i : ℕ) (q q' : Levels)
    → ((j : ℕ) → i ≤ j → contents (level q' j) ≡ contents (level q j))
    → waiting n i q' ≡ waiting n i q
waiting-ext zero i q q' h = refl
waiting-ext (suc n) i q q' h =
    ap₂ ◌++◌ (h i (omega arith)) (waiting-ext n (i + 1) q q' (λ j a. h j (omega arith)))

contents-empty : (l : Level) → IsLevel l → is_empty l ≡ true → contents l ≡ []
contents-empty l v e = go l.face l.back l.slots e
  where
    go : (f b : Option ℕ) (s : List (Option ℕ)) → (up f == 0) ≡ true → contents_of f b s ≡ []
    go none b s e = refl
    go (some f) b s e = absurd (ground arith)

-- A busy level holds an oldest process.
contents-busy :
    (l : Level)
    → IsLevel l
    → is_empty l ≡ false
    → (x : Option ℕ) × (xs : List (Option ℕ)) × (contents l ≡ x ∷ xs)
contents-busy l v e = go l.face l.back l.slots e v.cursors
  where
    go :
        (f b : Option ℕ) (s : List (Option ℕ))
        → (up f == 0) ≡ false
        → Cursors f b
        → (x : Option ℕ) × (xs : List (Option ℕ)) × (contents_of f b s ≡ x ∷ xs)
    go none b s e c = absurd (ground arith)
    go (some f) none s e c = absurd c
    go (some f) (some b) s e c =
        let n : ring_len f b ≡ suc ((b + 64 - f) % 64) = omega arith in
        (ring s f 0, tab (ring s f) 1 ((b + 64 - f) % 64), rw n)

pop_other :
    (i j : ℕ) (k : Kernel)
    → i < 5
    → IsQueues k.queues
    → i ≢ j
    → contents (level (pop i k).1.queues j) ≡ contents (level k.queues j)
pop_other i j k h v ne = let e : (i == j) ≡ false = ground arith in rw e at ((pop_lem i j k h v).1)

pop_self :
    (i : ℕ) (k : Kernel)
    → i < 5
    → IsQueues k.queues
    → contents (level (pop i k).1.queues i) ≡ (fifo_pop (contents (level k.queues i))).1
pop_self i k h v = let e : (i == i) ≡ true = ground arith in rw e at ((pop_lem i i k h v).1)

-- On five valid levels, the pop of MLFQ from the `n` levels from `i` on takes the oldest process of
-- the first busy one, the first of all that wait there in the order of the levels, null if none
-- waits; the others keep their order, and the levels below `i`, the table and the levels' validity
-- stay.
pub pop_first_lem :
    (n i : ℕ) (k : Kernel)
    → i + n ≤ 5
    → IsQueues k.queues
    → let (p, k') = pop_first n i k in
      (p ≡ (fifo_pop (waiting n i k.queues)).0)
      × (waiting n i k'.queues ≡ (fifo_pop (waiting n i k.queues)).1)
      × ((j : ℕ) → j < i → contents (level k'.queues j) ≡ contents (level k.queues j))
      × (k'.procs ≡ k.procs)
      × IsQueues k'.queues
unfolding pop_first
pop_first_lem zero i k h v = (refl, refl, λ j a. refl, refl, v)
pop_first_lem (suc n) i k h v = elim (Bool-cases (is_empty (level k.queues i))) [
  | inl e ↦
      let r = pop_first_lem n (i + 1) k (omega arith) v in
      let c = contents-empty (level k.queues i) (v.each i (omega arith)) e in
      rw (e, c) (r.0, ap₂ ◌++◌ (r.2 i (omega arith) ∙ c) r.1, λ j a. r.2 j (omega arith), r.3, r.4)
  | inr e ↦
      let (x, xs, c) = contents-busy (level k.queues i) (v.each i (omega arith)) e in
      let r = pop_lem i i k (omega arith) v in
      let head : (pop i k).0 ≡ x = r.0 ∙ ap (λ l. (fifo_pop l).0) c in
      let rest : contents (level (pop i k).1.queues i) ≡ xs =
        pop_self i k (omega arith) v ∙ ap (λ l. (fifo_pop l).1) c in
      rw (e, c)
        (
          head,
          ap₂ ◌++◌ rest (
              waiting-ext n (i + 1) k.queues (pop i k).1.queues
                (λ j a. pop_other i j k (omega arith) v (omega arith))),
          λ j a. pop_other i j k (omega arith) v (omega arith),
          r.2,
          r.3,
        )
]

age_proc-IsQueues :
    (i p : ℕ) (k : Kernel) → i < 4 → IsQueues k.queues → IsQueues (age_proc (suc i) p k).queues
unfolding age_proc
age_proc-IsQueues i p k h v = elim (Bool-cases (ltb age (proc_at k p).waittime)) [
  | inr e ↦ rw e v
  | inl e ↦
      let below : suc i - 1 ≡ i = omega arith in
      rw (e, below)
        (push-IsQueues i p (put_proc (remove (suc i) p k) p (λ p. record p { qn = dec_word p.qn }))
          (omega arith) (remove_lem (suc i) p i k (omega arith) v).2)
]

age_cell-IsQueues :
    (i j : ℕ) (k : Kernel) → i < 4 → IsQueues k.queues → IsQueues (age_cell (suc i) j k).queues
unfolding age_cell
age_cell-IsQueues i j k h v = elim (Option-cases (get_or (level k.queues (suc i)).slots j none)) [
  | inl e ↦ rw (e, age_cell) v
  | inr (p, e) ↦ rw (e, age_cell) (age_proc-IsQueues i p k h v)
]

age_upto-IsQueues :
    (n i j : ℕ) (k : Kernel) → i < 4 → IsQueues k.queues → IsQueues (age_upto n (suc i) j k).queues
unfolding age_upto
age_upto-IsQueues zero i j k h v = v
age_upto-IsQueues (suc n) i j k h v =
    elim (Bool-cases (leb (j + 1) (up (level k.queues (suc i)).back))) [
      | inr e ↦ rw e v
      | inl e ↦
          rw e
            (age_upto-IsQueues n i (j + 1) (age_cell (suc i) j k) h (age_cell-IsQueues i j k h v))
    ]

age_to_end-IsQueues :
    (n i j : ℕ) (k : Kernel)
    → i < 4
    → IsQueues k.queues
    → IsQueues (age_to_end n (suc i) j k).queues
unfolding age_to_end
age_to_end-IsQueues zero i j k h v = v
age_to_end-IsQueues (suc n) i j k h v =
    age_to_end-IsQueues n i (j + 1) (age_cell (suc i) j k) h (age_cell-IsQueues i j k h v)

either-IsQueues :
    (c : Bool) (a b : Kernel)
    → IsQueues a.queues
    → IsQueues b.queues
    → IsQueues (if c then a else b).queues
either-IsQueues true a b u v = u
either-IsQueues false a b u v = v

age_level-IsQueues :
    (i : ℕ) (k : Kernel) → i < 4 → IsQueues k.queues → IsQueues (age_level (suc i) k).queues
unfolding age_level
age_level-IsQueues i k h v = elim (Option-cases (level k.queues (suc i)).face) [
  | inl e ↦ rw (e, age_level) v
  | inr (f, e) ↦
      rw (e, age_level)
        (either-IsQueues (leb (f + 1) (up (level k.queues (suc i)).back))
          (age_upto nproc (suc i) f k)
          (age_upto nproc (suc i) 0 (age_to_end (nproc - f) (suc i) f k))
          (age_upto-IsQueues nproc i f k h v)
          (age_upto-IsQueues nproc i 0 (age_to_end (nproc - f) (suc i) f k) h
            (age_to_end-IsQueues (nproc - f) i f k h v)))
]

-- The aging pass of MLFQ over the levels 1 to 4, which removes and pushes while it walks the rings,
-- keeps five valid levels valid.
aging-IsQueues :
    (k : Kernel)
    → IsQueues k.queues
    → IsQueues (age_level 4 (age_level 3 (age_level 2 (age_level 1 k)))).queues
aging-IsQueues k v =
    age_level-IsQueues 3 (age_level 3 (age_level 2 (age_level 1 k))) (omega arith) (
      age_level-IsQueues 2 (age_level 2 (age_level 1 k)) (omega arith) (
        age_level-IsQueues 1 (age_level 1 k) (omega arith)
          (age_level-IsQueues 0 k (omega arith) v)))
