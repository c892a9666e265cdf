-- ===== src/Proc/Queue/Erase.antt =====
-- remove of xv6 modified/proc.c against erasure from the list of a level's processes, and what it
-- does when the process is not in the level.
use osn_assignments.Base.{
  ℕ, ◌+◌, ◌-◌, ◌%◌, ◌<◌, ◌≤◌, ◌≡◌, ◌≢◌, refl, ◌∙◌, ◌⊎◌, inl, inr, leb, ltb, ◌==◌, if◌then◌else◌,
  true, false, Bool-cases, Option, none, some, Option-cases, List, [], length, get_or, arith,
}
use osn_assignments.Proc.Types.{Level}
use osn_assignments.Proc.Queue.{
  is_ptr, find_slot, shift_slots, shift_around, remove_slot, advance, up,
}
use osn_assignments.Proc.Queue.Window.{
  ring, ring_len, contents, contents_of, IsLevel, erase, contains, contains-tab, contains-tab-false,
  find_slot-some, find_slot-none, length-shift_slots, length-tab,
}
use osn_assignments.Proc.Queue.Removal.{contents-shift, contents-shift_around, length-shift_around}

-- A level with two processes or more.
module _ (f b p n : ℕ) (s : List (Option ℕ)) (len : length s ≡ 64) (hf : f < 64) (hb : b < 64)
    (ne : f ≢ b) where
  abbrev this : Level
  this = record { face = some f; back = some b; size = n; slots = s }

  record Outcome (l : Level) : Type 0 where
    pub valid : IsLevel l
    pub items :
        contents l ≡ (if contains p (contents this) then erase p (contents this) else contents this)

  -- Found at `m`, from the face on.
  ahead :
      (m : ℕ)
      → f ≤ m
      → m < 64
      → m - f < ring_len f b
      → is_ptr (get_or s m none) p ≡ true
      → ((x : ℕ) → f ≤ x → x < m → is_ptr (get_or s x none) p ≡ false)
      → Outcome (advance this f (shift_slots s m (m - f)))
  ahead m a c inside hit first =
      let e : (f + (m - f)) % 64 ≡ m = omega arith in
      let there : contains p (contents this) ≡ true =
        contains-tab p (ring s f) 0 (ring_len f b) (m - f) (omega arith) (omega arith) (rw e hit) in
      record {
        valid = record { full_array = length-shift_slots s m (m - f) ∙ len; cursors = omega arith };
        items = rw there (contents-shift f b m p s len hf hb ne c hit a inside first);
      }

  -- Found at `m`, behind the end of the array.
  around :
      (m : ℕ)
      → m ≤ b
      → b < f
      → is_ptr (get_or s m none) p ≡ true
      → ((x : ℕ) → f ≤ x → x < 64 → is_ptr (get_or s x none) p ≡ false)
      → ((x : ℕ) → x < m → is_ptr (get_or s x none) p ≡ false)
      → Outcome (advance this f (shift_around s f m))
  around m a c hit high low =
      let e : (f + (m + 64 - f)) % 64 ≡ m = omega arith in
      let there : contains p (contents this) ≡ true =
        contains-tab p (ring s f) 0 (ring_len f b) (m + 64 - f) (omega arith) (omega arith)
          (rw e hit) in
      record {
        valid = record {
          full_array = length-shift_around f m s len (omega arith) hf;
          cursors = omega arith;
        };
        items =
            rw there (contents-shift_around f b m p s len hf hb ne (omega arith) hit a c high low);
      }

  absent : ((t : ℕ) → t < ring_len f b → is_ptr (ring s f t) p ≡ false) → Outcome this
  absent h =
      let away : contains p (contents this) ≡ false =
        contains-tab-false p (ring s f) 0 (ring_len f b) (λ j a c. h j (omega arith)) in
      record { valid = record { full_array = len; cursors = (hf, hb) }; items = rw away }

  distinct : (up this.face == up this.back) ≡ false
  distinct = ground arith

  shift-none : (m : ℕ) → m ≡ f → shift_slots s m (m - f) ≡ s
  unfolding shift_slots
  shift-none m e = let z : m - f ≡ 0 = omega arith in rw z

  -- The face is taken off by the same formula as any other place.
  moved_up :
      (m : ℕ)
      → Outcome (advance this f (shift_slots s m (m - f)))
      → Outcome (if m == f then advance this f s else advance this f (shift_slots s m (m - f)))
  moved_up m o = elim (Bool-cases (m == f)) [
    | inl h ↦ rw h (rw (shift-none m (ground arith)) at o)
    | inr h ↦ rw h o
  ]

  remove_straight : f < b → Outcome (remove_slot this p)
  unfolding remove_slot
  remove_straight lt =
      let c : leb (f + 1) (up this.back) ≡ true = ground arith in
      elim (Option-cases (find_slot s (b + 1 - f) f p)) [
        | inl e ↦
            rw (distinct, c, e)
              (absent (λ t q.
                find_slot-none s (b + 1 - f) f p ((f + t) % 64) e (omega arith) (omega arith)))
        | inr (m, e) ↦
            let r = find_slot-some s (b + 1 - f) f p m e in
            rw (distinct, c, e)
              (moved_up m (ahead m r.0 (omega (arith, r.1)) (omega (arith, r.0, r.1)) r.2 r.3))
      ]

  remove_wrapped : b < f → Outcome (remove_slot this p)
  unfolding remove_slot
  remove_wrapped lt =
      let c : leb (f + 1) (up this.back) ≡ false = ground arith in
      elim (Option-cases (find_slot s (64 - f) f p)) [
        | inr (m, e) ↦
            let r = find_slot-some s (64 - f) f p m e in
            rw (distinct, c, e)
              (moved_up m (ahead m r.0 (omega (arith, r.1)) (omega (arith, r.0, r.1)) r.2 r.3))
        | inl e ↦ rw (distinct, c, e) (behind e)
      ]
    where
      behind :
          find_slot s (64 - f) f p ≡ none
          → Outcome (elim (find_slot s (b + 1) 0 p) [
            | none ↦ this
            | some m ↦ advance this f (shift_around s f m)
          ])
      behind e = elim (Option-cases (find_slot s (b + 1) 0 p)) [
        | inl e2 ↦ rw e2 (absent (λ t q. nowhere ((f + t) % 64) e e2 (omega arith)))
        | inr (m, e2) ↦
            let r = find_slot-some s (b + 1) 0 p m e2 in
            rw e2 (
              around m (omega (arith, r.1)) lt r.2
                (λ x a d. find_slot-none s (64 - f) f p x e a (omega arith))
                (λ x a. r.3 x (omega arith) a))
      ]
        where
          nowhere :
              (x : ℕ)
              → find_slot s (64 - f) f p ≡ none
              → find_slot s (b + 1) 0 p ≡ none
              → (x ≤ b) ⊎ ((f ≤ x) × (x < 64))
              → is_ptr (get_or s x none) p ≡ false
          nowhere x e e2 (inl a) = find_slot-none s (b + 1) 0 p x e2 (omega arith) (omega arith)
          nowhere x e e2 (inr a) = find_slot-none s (64 - f) f p x e a.0 (omega (arith, a.1))

remove_longer :
    (f b p n : ℕ) (s : List (Option ℕ))
    (v : IsLevel (record { face = some f; back = some b; size = n; slots = s })) (ne : f ≢ b)
    → Outcome f b p n s v.full_array v.cursors.0 v.cursors.1 ne
        (remove_slot (record { face = some f; back = some b; size = n; slots = s }) p)
remove_longer f b p n s v ne = elim (Bool-cases (ltb f b)) [
  | inl h ↦ remove_straight f b p n s v.full_array v.cursors.0 v.cursors.1 ne (ground arith)
  | inr h ↦ remove_wrapped f b p n s v.full_array v.cursors.0 v.cursors.1 ne (ground arith)
]

remove_slot_cases :
    (f b : Option ℕ) (p n : ℕ) (s : List (Option ℕ))
    → IsLevel (record { face = f; back = b; size = n; slots = s })
    → let l = remove_slot (record { face = f; back = b; size = n; slots = s }) p in
      IsLevel l
      × (contents l ≡ (
          if length (contents_of f b s) == 1
          then []
          else if contains p (contents_of f b s)
          then erase p (contents_of f b s)
          else contents_of f b s))
unfolding remove_slot
remove_slot_cases none none p n s v = (record { full_array = v.full_array; cursors = tt }, refl)
remove_slot_cases none (some b) p n s v = absurd (v.cursors)
remove_slot_cases (some f) none p n s v = absurd (v.cursors)
remove_slot_cases (some f) (some b) p n s v = elim (Bool-cases (f + 1 == b + 1)) [
  | inl h ↦
      let one : (length (contents_of (some f) (some b) s) == 1) ≡ true =
        ground (arith, length-tab (ring s f) 0 (ring_len f b)) in
      rw (h, one) (record { full_array = v.full_array; cursors = tt }, refl)
  | inr h ↦
      let ne : f ≢ b = ground arith in
      let more : (length (contents_of (some f) (some b) s) == 1) ≡ false =
        ground (arith, length-tab (ring s f) 0 (ring_len f b)) in
      let out = remove_longer f b p n s v ne in rw more (out.valid, out.items)
]

-- `remove` of a process on a valid level: the level stays valid; a level of one process is emptied,
-- whichever process that is; a longer one loses the first pointer to the process, if there is one.
pub remove_slot_lem :
    (l : Level) (p : ℕ)
    → IsLevel l
    → IsLevel (remove_slot l p)
      × (contents (remove_slot l p) ≡ (
          if length (contents l) == 1
          then []
          else if contains p (contents l)
          then erase p (contents l)
          else contents l))
remove_slot_lem l p = remove_slot_cases l.face l.back p l.size l.slots
