-- ===== src/Proc/Queue/Removal.antt =====
-- remove of xv6 modified/proc.c on one level, against the list of its processes.
use osn_assignments.Base.{
  ℕ, ◌+◌, ◌-◌, ◌%◌, ◌<◌, ◌≤◌, ◌≡◌, ◌≢◌, ◌∙◌, sym, ap, inl, inr, ltb, ◌==◌, true, false, Bool-cases,
  Option, none, some, List, length, get_or, set, arith, get_or-set_self, get_or-set_ne, length-set,
}
use osn_assignments.Proc.Queue.{is_ptr, shift_slots, shift_around}
use osn_assignments.Proc.Queue.Window.{
  tab-ext, skip, ring, ring_len, contents_of, erase, erase-tab, shift_slots-inside,
  shift_slots-outside, length-shift_slots,
}

-- A scan of the window by offsets: where `p` stands first, the slots moved up over that place give
-- the window without it.
contents-moved :
    (f b d p : ℕ) (s s' : List (Option ℕ))
    → f < 64
    → b < 64
    → f ≢ b
    → d < ring_len f b
    → is_ptr (ring s f d) p ≡ true
    → ((t : ℕ) → t < d → is_ptr (ring s f t) p ≡ false)
    → ((t : ℕ) → t + 1 < ring_len f b → ring s' ((f + 1) % 64) t ≡ skip (ring s f) d t)
    → contents_of (some ((f + 1) % 64)) (some b) s' ≡ erase p (contents_of (some f) (some b) s)
contents-moved f b d p s s' hf hb ne hd hit first moved =
    let e : ring_len ((f + 1) % 64) b ≡ ring_len f b - 1 = omega arith in
    let e0 : 0 + d ≡ d = omega arith in
    let er =
      erase-tab p (ring s f) d 0 (ring_len f b) hd (rw e0 hit) (λ j a c. first j (omega arith)) in
    rw (er, e, e0)
      (tab-ext (ring s' ((f + 1) % 64)) (skip (ring s f) d) 0 (ring_len f b - 1)
        (λ j a c. moved j (omega arith)))

-- What the loops of `remove` round the end leave in each slot.
module _ (f m : ℕ) (s : List (Option ℕ)) (len : length s ≡ 64) (lt : m < f) (hf : f < 64) where
  abbrev s1 : List (Option ℕ)
  s1 = shift_slots s m m

  abbrev s2 : List (Option ℕ)
  s2 = set s1 0 (get_or s1 63 none)

  len1 : length s1 ≡ 64
  len1 = length-shift_slots s m m ∙ len

  len2 : length s2 ≡ 64
  len2 = length-set s1 0 (get_or s1 63 none) ∙ len1

  pub length-shift_around : length (shift_around s f m) ≡ 64
  unfolding shift_around
  length-shift_around = length-shift_slots s2 63 (63 - f) ∙ len2

  shift_around-kept : (x : ℕ) → m < x → x ≤ f → get_or (shift_around s f m) x none ≡ get_or s x none
  unfolding shift_around
  shift_around-kept x a b =
      shift_slots-outside s2 63 (63 - f) x (omega arith) (omega arith)
      ∙ get_or-set_ne s1 0 x (get_or s1 63 none) none (omega arith)
      ∙ shift_slots-outside s m m x (omega arith) (omega arith)

  shift_around-upper :
      (x : ℕ) → f < x → x < 64 → get_or (shift_around s f m) x none ≡ get_or s (x - 1) none
  unfolding shift_around
  shift_around-upper x a b =
      shift_slots-inside s2 63 (63 - f) x (omega arith) (omega (arith, len2)) (omega arith)
        (omega arith)
      ∙ get_or-set_ne s1 0 (x - 1) (get_or s1 63 none) none (omega arith)
      ∙ shift_slots-outside s m m (x - 1) (omega arith) (omega arith)

  shift_around-lower :
      (x : ℕ) → 0 < x → x ≤ m → get_or (shift_around s f m) x none ≡ get_or s (x - 1) none
  unfolding shift_around
  shift_around-lower x a b =
      shift_slots-outside s2 63 (63 - f) x (omega arith) (omega arith)
      ∙ get_or-set_ne s1 0 x (get_or s1 63 none) none (omega arith)
      ∙ shift_slots-inside s m m x (omega arith) (omega arith) (omega arith) (omega arith)

  shift_around-zero : get_or (shift_around s f m) 0 none ≡ get_or s 63 none
  unfolding shift_around
  shift_around-zero =
      shift_slots-outside s2 63 (63 - f) 0 (omega arith) (omega arith)
      ∙ get_or-set_self s1 0 (get_or s1 63 none) none (omega (arith, len1))
      ∙ shift_slots-outside s m m 63 (omega arith) (omega arith)

  -- Seen from the face, the slots before the place `m` have moved up by one.
  shift_around-before :
      (t : ℕ) → t < m + 64 - f → ring (shift_around s f m) ((f + 1) % 64) t ≡ ring s f t
  shift_around-before t q = elim (Bool-cases (ltb (f + t) 63)) [
    | inl h ↦
        let e : ((f + 1) % 64 + t) % 64 ≡ f + t + 1 = ground arith in
        let e' : (f + t) % 64 ≡ f + t + 1 - 1 = ground arith in
        rw (e, e') (shift_around-upper (f + t + 1) (omega arith) (ground arith))
    | inr h ↦ elim (Bool-cases (f + t == 63)) [
      | inl h2 ↦
          let e : ((f + 1) % 64 + t) % 64 ≡ 0 = ground arith in
          let e' : (f + t) % 64 ≡ 63 = ground arith in rw (e, e') shift_around-zero
      | inr h2 ↦
          let gt : 63 < f + t = ground arith in
          let e : ((f + 1) % 64 + t) % 64 ≡ (f + t) % 64 + 1 = omega arith in
          let e' : (f + t) % 64 ≡ (f + t) % 64 + 1 - 1 = omega arith in
          rw e (
            shift_around-lower ((f + t) % 64 + 1) (omega arith) (omega arith)
            ∙ ap (λ k. get_or s k none) (sym e'))
    ]
  ]

  pub shift_around-skip :
      (t : ℕ)
      → t + 1 < 64
      → ring (shift_around s f m) ((f + 1) % 64) t ≡ skip (ring s f) (m + 64 - f) t
  shift_around-skip t q = elim (Bool-cases (ltb t (m + 64 - f))) [
    | inl h ↦ rw h (shift_around-before t (ground arith))
    | inr h ↦
        let ge : m + 64 - f ≤ t = ground arith in
        let e : ((f + 1) % 64 + t) % 64 ≡ (f + (t + 1)) % 64 = omega arith in
        rw (h, e) (shift_around-kept ((f + (t + 1)) % 64) (omega arith) (omega arith))
  ]

module _ (f b m p : ℕ) (s : List (Option ℕ)) (len : length s ≡ 64) (hf : f < 64) (hb : b < 64)
    (ne : f ≢ b) (hm : m < 64) (hit : is_ptr (get_or s m none) p ≡ true) where
  -- The process is at or after the face in the array: the slots between move up by one.
  pub contents-shift :
      f ≤ m
      → m - f < ring_len f b
      → ((x : ℕ) → f ≤ x → x < m → is_ptr (get_or s x none) p ≡ false)
      → contents_of (some ((f + 1) % 64)) (some b) (shift_slots s m (m - f))
        ≡ erase p (contents_of (some f) (some b) s)
  contents-shift le inside first =
      contents-moved f b (m - f) p s (shift_slots s m (m - f)) hf hb ne inside
        (let e : (f + (m - f)) % 64 ≡ m = omega arith in rw e hit)
        (λ t q. first ((f + t) % 64) (omega arith) (omega arith)) (λ t q. moved t q)
    where
      moved :
          (t : ℕ)
          → t + 1 < ring_len f b
          → ring (shift_slots s m (m - f)) ((f + 1) % 64) t ≡ skip (ring s f) (m - f) t
      moved t q = elim (Bool-cases (ltb t (m - f))) [
        | inl h ↦
            let lt : t < m - f = ground arith in
            let e : ((f + 1) % 64 + t) % 64 ≡ f + 1 + t = omega arith in
            let e' : (f + t) % 64 ≡ f + 1 + t - 1 = omega arith in
            rw (h, e, e')
              (shift_slots-inside s m (m - f) (f + 1 + t) (omega arith) (omega arith) (omega arith)
                (omega arith))
        | inr h ↦
            let ge : m - f ≤ t = ground arith in
            let e : ((f + 1) % 64 + t) % 64 ≡ (f + (t + 1)) % 64 = omega arith in
            rw (h, e)
              (shift_slots-outside s m (m - f) ((f + (t + 1)) % 64) (omega arith) (omega arith))
      ]

  -- The process is before the face in the array: the slots move up round the end.
  pub contents-shift_around :
      m ≤ b
      → b < f
      → ((x : ℕ) → f ≤ x → x < 64 → is_ptr (get_or s x none) p ≡ false)
      → ((x : ℕ) → x < m → is_ptr (get_or s x none) p ≡ false)
      → contents_of (some ((f + 1) % 64)) (some b) (shift_around s f m)
        ≡ erase p (contents_of (some f) (some b) s)
  contents-shift_around le wrapped high low =
      contents-moved f b (m + 64 - f) p s (shift_around s f m) hf hb ne (omega arith)
        (let e : (f + (m + 64 - f)) % 64 ≡ m = omega arith in rw e hit) first
        (λ t q. shift_around-skip f m s len (omega arith) hf t (omega arith))
    where
      first : (t : ℕ) → t < m + 64 - f → is_ptr (ring s f t) p ≡ false
      first t q = elim (Bool-cases (ltb (f + t) 64)) [
        | inl h ↦ high ((f + t) % 64) (ground arith) (omega arith)
        | inr h ↦ low ((f + t) % 64) (ground arith)
      ]
