-- ===== src/Proc/Queue/Ring.antt =====
-- push, pop and remove on one level of the MLFQ queues, against the list of its processes.
use osn_assignments.Base.{
  ℕ, suc, ◌+◌, ◌%◌, ◌<◌, ◌≡◌, ◌≢◌, refl, ◌∙◌, ap, ap₂, inl, inr, ◌==◌, false, Bool-cases, Option,
  none, some, List, [], ◌∷◌, ◌++◌, length, get_or, set, arith, get_or-set_self, get_or-set_ne,
  length-set,
}
use osn_assignments.Proc.Types.{Level}
use osn_assignments.Proc.Queue.{is_full, append_slot, pop_slot}
use osn_assignments.Proc.Queue.Window.{
  tab-ext, tab-snoc, tab-add_one, ring, ring_len, contents, contents_of, IsLevel,
}

-- Slots after a store at `(b + 1) % 64`, seen from `f`.
contents-append :
    (f b x : ℕ) (s : List (Option ℕ))
    → length s ≡ 64
    → f < 64
    → b < 64
    → (b + 1) % 64 ≢ f
    → contents_of (some f) (some ((b + 1) % 64)) (set s ((b + 1) % 64) (some x))
      ≡ contents_of (some f) (some b) s ++ (some x ∷ [])
contents-append f b x s len hf hb ne =
    let e : ring_len f ((b + 1) % 64) ≡ suc (ring_len f b) = omega arith in
    let last : (f + (0 + ring_len f b)) % 64 ≡ (b + 1) % 64 = omega arith in
    let s' = set s ((b + 1) % 64) (some x) in
    rw (e, tab-snoc (ring s' f) 0 (ring_len f b))
      (ap₂ ◌++◌
        (tab-ext (ring s' f) (ring s f) 0 (ring_len f b)
          (λ j p q. get_or-set_ne s ((b + 1) % 64) ((f + j) % 64) (some x) none (omega arith)))
        (ap (λ y. y ∷ [])
          (ap (λ k. get_or s' k none) last
            ∙ get_or-set_self s ((b + 1) % 64) (some x) none (omega arith))))

contents-append_cases :
    (f b : Option ℕ) (s : List (Option ℕ)) (n x : ℕ)
    → IsLevel (record { face = f; back = b; size = n; slots = s })
    → is_full (record { face = f; back = b; size = n; slots = s }) ≡ false
    → contents (append_slot (record { face = f; back = b; size = n; slots = s }) x)
      ≡ contents_of f b s ++ (some x ∷ [])
unfolding append_slot
contents-append_cases none none s n x v h =
    ap (λ y. y ∷ []) (get_or-set_self s 0 (some x) none (omega arith))
contents-append_cases none (some b) s n x v h = absurd (v.cursors)
contents-append_cases (some f) none s n x v h = absurd (v.cursors)
contents-append_cases (some f) (some b) s n x v h =
    let e : (f + 1 == 0) ≡ false = ground arith in
    let ne : (b + 1) % 64 ≢ f = ground arith in
    rw e (contents-append f b x s v.full_array v.cursors.0 v.cursors.1 ne)

-- A level that is not full gets `x` at its end.
pub append_slot-contents :
    (l : Level) (x : ℕ)
    → IsLevel l
    → is_full l ≡ false
    → contents (append_slot l x) ≡ contents l ++ (some x ∷ [])
append_slot-contents l x = contents-append_cases l.face l.back l.slots l.size x

IsLevel-append_cases :
    (f b : Option ℕ) (s : List (Option ℕ)) (n x : ℕ)
    → IsLevel (record { face = f; back = b; size = n; slots = s })
    → IsLevel (append_slot (record { face = f; back = b; size = n; slots = s }) x)
unfolding append_slot
IsLevel-append_cases none none s n x v = omega (arith, length-set s 0 (some x))
IsLevel-append_cases none (some b) s n x v = absurd (v.cursors)
IsLevel-append_cases (some f) none s n x v = absurd (v.cursors)
IsLevel-append_cases (some f) (some b) s n x v =
    let e : (f + 1 == 0) ≡ false = ground arith in
    record {
      full_array = length-set s ((b + 1) % 64) (some x) ∙ v.full_array;
      cursors = rw e (omega arith);
    }

pub append_slot-IsLevel : (l : Level) (x : ℕ) → IsLevel l → IsLevel (append_slot l x)
append_slot-IsLevel l x = IsLevel-append_cases l.face l.back l.slots l.size x

-- What a queue of pointers gives at its front, and what stays; the null pointer if it is empty.
abbrev pub fifo_pop : List (Option ℕ) → Option ℕ × List (Option ℕ)
fifo_pop [] = (none, [])
fifo_pop (x ∷ xs) = (x, xs)

-- The window without its oldest slot is the window from the next slot on.
contents-next :
    (f b : ℕ) (s : List (Option ℕ))
    → f < 64
    → b < 64
    → f ≢ b
    → contents_of (some f) (some b) s
      ≡ get_or s f none ∷ contents_of (some ((f + 1) % 64)) (some b) s
contents-next f b s hf hb ne =
    let e : ring_len f b ≡ suc (ring_len ((f + 1) % 64) b) = omega arith in
    let e0 : (f + 0) % 64 ≡ f = omega arith in
    let m = ring_len ((f + 1) % 64) b in
    rw (e, e0, tab-add_one (ring s f) 0 m)
      (ap (λ r. get_or s f none ∷ r)
        (tab-ext (λ j. ring s f (j + 1)) (ring s ((f + 1) % 64)) 0 m
          (λ j p q. ap (λ k. get_or s k none) (omega arith))))

pop_slot_refines_cases :
    (f b : Option ℕ) (s : List (Option ℕ)) (n : ℕ)
    → IsLevel (record { face = f; back = b; size = n; slots = s })
    → let (p, l) = pop_slot (record { face = f; back = b; size = n; slots = s }) in
      ((p, contents l) ≡ fifo_pop (contents_of f b s)) × IsLevel l
unfolding pop_slot
pop_slot_refines_cases none none s n v = (refl, v)
pop_slot_refines_cases none (some b) s n v = absurd (v.cursors)
pop_slot_refines_cases (some f) none s n v = absurd (v.cursors)
pop_slot_refines_cases (some f) (some b) s n v = elim (Bool-cases (f + 1 == b + 1)) [
  | inl h ↦
      let e : ring_len f b ≡ 1 = ground arith in
      let e0 : (f + 0) % 64 ≡ f = omega arith in
      rw (h, e, e0) (refl, record { full_array = v.full_array; cursors = tt })
  | inr h ↦
      let ne : f ≢ b = ground arith in
      rw (h, contents-next f b s v.cursors.0 v.cursors.1 ne)
        (refl, record { full_array = v.full_array; cursors = omega arith })
]

-- `pop` gives the oldest pointer of the level, null if there is none, and leaves the others.
pub pop_slot_refines :
    (l : Level)
    → IsLevel l
    → let (p, l') = pop_slot l in ((p, contents l') ≡ fifo_pop (contents l)) × IsLevel l'
pop_slot_refines l = pop_slot_refines_cases l.face l.back l.slots l.size
