-- ===== src/Proc/Queue.antt =====
-- push, pop and remove of xv6 modified/proc.c: the five circular queues of the MLFQ scheduler.
-- Loops run over indices plus one, so that the index -1 is 0: `cell q i 0` is `queue[i][-1]`, which
-- in memory is the last slot of the level below.
pub mod Window
pub mod Ring
pub mod Removal
pub mod Erase
pub mod Scan
pub mod Push
use osn_assignments.Base.{
  ℕ, zero, suc, ◌+◌, ◌-◌, ◌%◌, ◌==◌, leb, ltb, if◌then◌else◌, Bool, true, false, ◌||◌, Option, none,
  some, List, get_or, set, modify,
}
use osn_assignments.Proc.Types.{
  nproc, Level, Levels, Kernel, Proc, put_proc, empty_level, inc_word, dec_word,
}

-- An index plus one, with -1 for `none`.
abbrev pub up : Option ℕ → ℕ
up none = 0
up (some j) = j + 1

-- `queue[i][j] == b` for a pointer `b` that is not null.
abbrev pub is_ptr : Option ℕ → ℕ → Bool
is_ptr none b = false
is_ptr (some p) b = p == b

unfoldable pub level : Levels → ℕ → Level
level q i = get_or q.levels i empty_level

-- The word just below `queue[i][0]`.
abbrev pub below_level : Levels → ℕ → Option ℕ
below_level q zero = q.below
below_level q (suc i) = get_or (level q i).slots 63 none

abbrev pub cell : Levels → ℕ → ℕ → Option ℕ
cell q i zero = below_level q i
cell q i (suc j) = get_or (level q i).slots j none

-- Whether one of the `n` cells from `k` on is `b`.
unfoldable pub any_from : (ℕ → Option ℕ) → ℕ → ℕ → ℕ → Bool
any_from c zero k b = false
any_from c (suc n) k b = is_ptr (c k) b || any_from c n (k + 1) b

-- The scan of one level for `b` in `push`.
unfoldable pub scan_level : Levels → ℕ → ℕ → Bool
unfolding any_from level
scan_level q i b =
    if leb (up face) (up back)
    then any_from (cell q i) (up back + 1 - up face) (up face) b
    else any_from (cell q i) (nproc + 1 - up face) (up face) b || any_from (cell q i) (up back) 1 b
  where
    open (level q i) use {face, back}

-- The scan of all five levels.
unfoldable pub queued : Levels → ℕ → Bool
unfolding scan_level
queued q b =
    scan_level q 0 b
    || (scan_level q 1 b || (scan_level q 2 b || (scan_level q 3 b || scan_level q 4 b)))

-- `face[a]==back[a]+1 || face[a]==0 && back[a]==NPROC-1`
abbrev pub is_full : Level → Bool
is_full l = (up l.face == up l.back + 1) || (if up l.face == 1 then up l.back == nproc else false)

abbrev pub is_empty : Level → Bool
is_empty l = up l.face == 0

-- From the label `yono` on.
unfoldable pub append_slot : Level → ℕ → Level
append_slot l b = record {
  face = if is_empty l then some 0 else l.face;
  back = some (up l.back % nproc);
  size = inc_word l.size;
  slots = set l.slots (up l.back % nproc) (some b);
}

-- `push` on the queues: `none` where it returns early.
unfoldable pub try_push : ℕ → ℕ → Levels → Option Levels
unfolding append_slot queued level
try_push a b q =
    if is_empty (level q a)
    then some added
    else if queued q b
    then none
    else if is_full (level q a)
    then none
    else some added
  where
    added : Levels
    added = record q { levels = modify q.levels a (λ l. append_slot l b) }

-- `push`
unfoldable pub push : ℕ → ℕ → Kernel → Kernel
push a b k = elim (try_push a b k.queues) [
  | none ↦ k
  | some q ↦ put_proc (record k { queues = q }) b (λ p. record p { curtime = 0; waittime = 0 })
]

-- `pop` on one level: the pointer and the level after it.
unfoldable pub pop_slot : Level → Option ℕ × Level
pop_slot l = elim l.face [
  | none ↦ (none, l)
  | some f ↦ (
    get_or l.slots f none,
    if f + 1 == up l.back
        then record l { face = none; back = none; size = dec_word l.size }
        else record l { face = some ((f + 1) % nproc); size = dec_word l.size },
  )
]

-- `pop`
unfoldable pub pop : ℕ → Kernel → Option ℕ × Kernel
unfolding pop_slot level
pop a k =
    let (p, l) = pop_slot (level k.queues a) in
    (p, record k { queues = record (k.queues) { levels = set k.queues.levels a l } })

-- The first of the `n` indices from `j` on whose slot is `p`.
unfoldable pub find_slot : List (Option ℕ) → ℕ → ℕ → ℕ → Option ℕ
find_slot s zero j p = none
find_slot s (suc n) j p =
    let rest = find_slot s n (j + 1) p in if is_ptr (get_or s j none) p then some j else rest

-- `for(; n > 0; n--, j--) queue[i][j] = queue[i][j-1];`
unfoldable pub shift_slots : List (Option ℕ) → ℕ → ℕ → List (Option ℕ)
shift_slots s j zero = s
shift_slots s j (suc n) = shift_slots (set s j (get_or s (j - 1) none)) (j - 1) n

-- `face[i] += 1; face[i] %= NPROC;` over new slots.
abbrev pub advance : Level → ℕ → List (Option ℕ) → Level
advance l f s = record l { face = some ((f + 1) % nproc); slots = s }

-- The loops of the last case of `remove`: down to 0, over the end, and down to the face.
unfoldable pub shift_around : List (Option ℕ) → ℕ → ℕ → List (Option ℕ)
unfolding shift_slots
shift_around s f m =
    let s1 = shift_slots s m m in shift_slots (set s1 0 (get_or s1 63 none)) 63 (63 - f)

-- `remove` on one level. A level with face -1 has back -1, and takes the first branch.
unfoldable pub remove_slot : Level → ℕ → Level
unfolding find_slot shift_slots shift_around
remove_slot l p =
    if up l.face == up l.back then record l { face = none; back = none } else elim l.face [
      | none ↦ l
      | some f ↦
          if leb (f + 1) (up l.back)
          then elim (find_slot l.slots (up l.back - f) f p) [
            | none ↦ l
            | some m ↦
                if m == f then advance l f l.slots else advance l f (shift_slots l.slots m (m - f))
          ]
          else elim (find_slot l.slots (nproc - f) f p) [
            | some m ↦
                if m == f then advance l f l.slots else advance l f (shift_slots l.slots m (m - f))
            | none ↦ elim (find_slot l.slots (up l.back) 0 p) [
              | none ↦ l
              | some m ↦ advance l f (shift_around l.slots f m)
            ]
          ]
    ]

-- `remove`
unfoldable pub remove : ℕ → ℕ → Kernel → Kernel
unfolding remove_slot
remove i p k = record k {
  queues = record (k.queues) { levels = modify k.queues.levels i (λ l. remove_slot l p) };
}
