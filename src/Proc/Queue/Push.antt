-- ===== src/Proc/Queue/Push.antt =====
-- push, pop and remove of xv6 modified/proc.c on the kernel's five levels.
use osn_assignments.Base.{
  ℕ, zero, suc, ◌<◌, ◌≡◌, ◌≢◌, refl, ◌∙◌, ap, inl, inr, ◌==◌, if◌then◌else◌, Bool, true, false,
  ◌||◌, Bool-cases, Option, none, some, List, [], ◌∷◌, ◌++◌, length, get_or, modify, set, arith,
  length-modify, get_or-modify_self, get_or-modify_ne, get_or-set_self, get_or-set_ne, length-set,
}
use osn_assignments.Proc.Types.{Level, Levels, Kernel, empty_level}
use osn_assignments.Proc.Queue.{
  is_empty, is_full, level, queued, append_slot, pop_slot, remove_slot, try_push, push, pop, remove,
}
use osn_assignments.Proc.Queue.Window.{contents, IsLevel, erase, contains}
use osn_assignments.Proc.Queue.Ring.{
  append_slot-contents, append_slot-IsLevel, fifo_pop, pop_slot_refines,
}
use osn_assignments.Proc.Queue.Erase.{remove_slot_lem}
use osn_assignments.Proc.Queue.Scan.{seen, scan_level-seen}

-- Five levels, each a valid ring.
pub record IsQueues (q : Levels) : Type 0 where
  pub five : length q.levels ≡ 5
  pub each : (i : ℕ) → i < 5 → IsLevel (level q i)

-- On five valid levels, the duplicate check sees each level's processes, and for each empty level
-- the word below it.
queued-seen :
    (q : Levels) (b : ℕ)
    → IsQueues q
    → queued q b ≡ (seen q 0 b || (seen q 1 b || (seen q 2 b || (seen q 3 b || seen q 4 b))))
unfolding queued
queued-seen q b v = rw (
  scan_level-seen q 0 b (v.each 0 (omega arith)),
  scan_level-seen q 1 b (v.each 1 (omega arith)),
  scan_level-seen q 2 b (v.each 2 (omega arith)),
  scan_level-seen q 3 b (v.each 3 (omega arith)),
  scan_level-seen q 4 b (v.each 4 (omega arith)),
)

-- Whether `push` adds the process.
abbrev pub accepts : ℕ → ℕ → Levels → Bool
accepts a b q =
    if is_empty (level q a)
    then true
    else if queued q b
    then false
    else if is_full (level q a)
    then false
    else true

module _ (q : Levels) (a : ℕ) (f : Level → Level) where
  abbrev changed : Levels
  changed = record q { levels = modify q.levels a f }

  level-modify_self : a < length q.levels → level changed a ≡ f (level q a)
  unfolding level
  level-modify_self h = get_or-modify_self q.levels a f empty_level h

  level-modify_ne : (i : ℕ) → a ≢ i → level changed i ≡ level q i
  unfolding level
  level-modify_ne i h = get_or-modify_ne q.levels a i f empty_level h

  modify-IsQueues :
      a < 5 → (IsLevel (level q a) → IsLevel (f (level q a))) → IsQueues q → IsQueues changed
  modify-IsQueues h keep v = record {
    five = length-modify q.levels a f ∙ v.five;
    each = λ i lt. elim (Bool-cases (a == i)) [
      | inl e ↦
          let e' : a ≡ i = ground arith in
          rw (← e') (rw (level-modify_self (omega (arith, v.five))) (keep (v.each a h)))
      | inr e ↦ rw (level-modify_ne i (ground arith)) (v.each i lt)
    ];
  }

-- An empty valid level is not full.
empty_not_full : (l : Level) → IsLevel l → is_empty l ≡ true → is_full l ≡ false
empty_not_full l v h = go l.face l.back l.size l.slots v h
  where
    go :
        (f b : Option ℕ) (n : ℕ) (s : List (Option ℕ))
        → IsLevel (record { face = f; back = b; size = n; slots = s })
        → is_empty (record { face = f; back = b; size = n; slots = s }) ≡ true
        → is_full (record { face = f; back = b; size = n; slots = s }) ≡ false
    go none none n s v h = refl
    go none (some b) n s v h = absurd (v.cursors)
    go (some f) b n s v h = absurd (ground arith)

accepts-not_full :
    (a b : ℕ) (q : Levels)
    → IsLevel (level q a)
    → accepts a b q ≡ true
    → is_full (level q a) ≡ false
accepts-not_full a b q v h = elim (Bool-cases (is_empty (level q a))) [
  | inl e ↦ empty_not_full (level q a) v e
  | inr e ↦ decided (is_empty (level q a)) (queued q b) (is_full (level q a)) e h
]
  where
    decided :
        (x y z : Bool)
        → x ≡ false
        → (if x then true else if y then false else if z then false else true) ≡ true
        → z ≡ false
    decided x y z e h = ground arith

try_push-eq :
    (a b : ℕ) (q : Levels)
    → try_push a b q ≡ (if accepts a b q then some (changed q a (λ l. append_slot l b)) else none)
unfolding try_push
try_push-eq a b q = elim (Bool-cases (is_empty (level q a))) [
  | inl e ↦ rw e
  | inr e ↦ elim (Bool-cases (queued q b)) [
    | inl e2 ↦ rw (e, e2)
    | inr e2 ↦ elim (Bool-cases (is_full (level q a))) [
      | inl e3 ↦ rw (e, e2, e3)
      | inr e3 ↦ rw (e, e2, e3)
    ]
  ]
]

pub push-eq :
    (a b : ℕ) (k : Kernel)
    → push a b k ≡ (
        if accepts a b k.queues
        then record k {
          queues = changed k.queues a (λ l. append_slot l b);
          procs = modify k.procs b (λ p. record p { curtime = 0; waittime = 0 });
        }
        else k)
unfolding push
push-eq a b k = elim (Bool-cases (accepts a b k.queues)) [
  | inl e ↦ rw (try_push-eq a b k.queues, push, e)
  | inr e ↦ rw (try_push-eq a b k.queues, push, e)
]

-- `push` to a level below 5 keeps the five levels valid.
pub push-IsQueues :
    (a b : ℕ) (k : Kernel) → a < 5 → IsQueues k.queues → IsQueues (push a b k).queues
push-IsQueues a b k h v = elim (Bool-cases (accepts a b k.queues)) [
  | inl e ↦
      rw (push-eq a b k, e)
        (modify-IsQueues k.queues a (λ l. append_slot l b) h
          (append_slot-IsLevel (level k.queues a) b) v)
  | inr e ↦ rw (push-eq a b k, e) v
]

-- On five valid levels, `push` to level `a` below 5 changes no level but `a`, and that only if it
-- accepts: the process joins at the end.
pub push-contents :
    (a b i : ℕ) (k : Kernel)
    → a < 5
    → IsQueues k.queues
    → contents (level (push a b k).queues i) ≡ (
        if a == i
        then if accepts a b k.queues
          then contents (level k.queues i) ++ (some b ∷ [])
          else contents (level k.queues i)
        else contents (level k.queues i))
push-contents a b i k h v = elim (Bool-cases (accepts a b k.queues)) [
  | inr e ↦ elim (Bool-cases (a == i)) [
    | inl s ↦ rw (push-eq a b k, e, s)
    | inr s ↦ rw (push-eq a b k, e, s)
  ]
  | inl e ↦ elim (Bool-cases (a == i)) [
    | inl s ↦
        let same : i ≡ a = ground arith in
        rw
          (
            push-eq a b k,
            e,
            s,
            same,
            level-modify_self k.queues a (λ l. append_slot l b) (omega (arith, v.five)),
          )
          (append_slot-contents (level k.queues a) b (v.each a h)
            (accepts-not_full a b k.queues (v.each a h) e))
    | inr s ↦
        rw (push-eq a b k, e, s, level-modify_ne k.queues a (λ l. append_slot l b) i (ground arith))
  ]
]

or_true : (b : Bool) → (b || true) ≡ true
or_true true = refl
or_true false = refl

-- On five valid levels with level `a` busy, `push` of a process changes nothing if some empty level
-- has a pointer to it left over in the last slot of the level below, whether or not any level holds
-- the process.
pub push_stale :
    (a b i : ℕ) (k : Kernel)
    → i < 4
    → IsQueues k.queues
    → is_empty (level k.queues a) ≡ false
    → is_empty (level k.queues (suc i)) ≡ true
    → get_or (level k.queues i).slots 63 none ≡ some b
    → push a b k ≡ k
push_stale a b i k lt v busy vacant stale =
    let there : queued k.queues b ≡ true =
      rw (queued-seen k.queues b v) (any i lt (one (suc i) vacant)) in
    rw (push-eq a b k, busy, there)
  where
    one : (j : ℕ) → is_empty (level k.queues (suc i)) ≡ true → seen k.queues (suc i) b ≡ true
    one j e = rw (e, stale) (ground arith)

    any :
        (i : ℕ)
        → i < 4
        → seen k.queues (suc i) b ≡ true
        → (seen k.queues 0 b
            || (seen k.queues 1 b
                || (seen k.queues 2 b || (seen k.queues 3 b || seen k.queues 4 b))))
          ≡ true
    any zero h e = rw e (or_true (seen k.queues 0 b))
    any (suc zero) h e = rw e (simp or_true)
    any (suc (suc zero)) h e = rw e (simp or_true)
    any (suc (suc (suc zero))) h e = rw e (simp or_true)
    any (suc (suc (suc (suc i)))) h e = absurd (omega arith)

-- On five valid levels, `pop` gives the oldest process of level `a` below 5, null if there is none;
-- that level keeps the others in order, every other level its processes, the table stays as it is
-- and the levels stay valid.
pub pop_lem :
    (a i : ℕ) (k : Kernel)
    → a < 5
    → IsQueues k.queues
    → let (p, k') = pop a k in
      (p ≡ (fifo_pop (contents (level k.queues a))).0)
      × (contents (level k'.queues i) ≡ (
          if a == i
          then (fifo_pop (contents (level k.queues a))).1
          else contents (level k.queues i)))
      × (k'.procs ≡ k.procs)
      × IsQueues k'.queues
unfolding pop level
pop_lem a i k h v =
    let r = pop_slot_refines (level k.queues a) (v.each a h) in
    let l = (pop_slot (level k.queues a)).1 in
    let here : get_or (set k.queues.levels a l) a empty_level ≡ l =
      get_or-set_self k.queues.levels a l empty_level (omega (arith, v.five)) in
    (
      ap (λ t. t.0) r.0,
      elim (Bool-cases (a == i)) [
        | inl e ↦ let e' : i ≡ a = ground arith in rw (e, e', here) (ap (λ t. t.1) r.0)
        | inr e ↦
            rw e (ap contents (get_or-set_ne k.queues.levels a i l empty_level (ground arith)))
      ],
      refl,
      record {
        five = length-set k.queues.levels a l ∙ v.five;
        each = λ j lt. elim (Bool-cases (a == j)) [
          | inl e ↦ let e' : a ≡ j = ground arith in rw (← e', here) r.1
          | inr e ↦
              rw (get_or-set_ne k.queues.levels a j l empty_level (ground arith)) (v.each j lt)
        ];
      },
    )

-- On five valid levels, `remove` of a process from level `i` below 5: a level of one process is
-- emptied, whichever process that is; a longer one loses its first pointer to the process, if there
-- is one. Every other level, and the table, stay, and the levels stay valid.
pub remove_lem :
    (i p j : ℕ) (k : Kernel)
    → i < 5
    → IsQueues k.queues
    → (contents (level (remove i p k).queues j) ≡ (
        if i == j
        then (if length (contents (level k.queues i)) == 1
            then []
            else if contains p (contents (level k.queues i))
            then erase p (contents (level k.queues i))
            else contents (level k.queues i))
        else contents (level k.queues j)))
      × ((remove i p k).procs ≡ k.procs)
      × IsQueues (remove i p k).queues
unfolding remove
remove_lem i p j k h v =
    let r = remove_slot_lem (level k.queues i) p (v.each i h) in
    (
      elim (Bool-cases (i == j)) [
        | inl e ↦
            let e' : j ≡ i = ground arith in
            rw (e, e', level-modify_self k.queues i (λ l. remove_slot l p) (omega (arith, v.five)))
              r.1
        | inr e ↦ rw (e, level-modify_ne k.queues i (λ l. remove_slot l p) j (ground arith))
      ],
      refl,
      modify-IsQueues k.queues i (λ l. remove_slot l p) h (λ _. r.0) v,
    )
