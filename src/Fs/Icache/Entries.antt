-- ===== src/Fs/Icache/Entries.antt =====
-- What iget of xv6 modified/fs.c does to the entries of the inode cache.
use mathlib.Core.Option
use osn_assignments.Base.{
  ℕ, zero, suc, ◌+◌, ◌<◌, ◌≡◌, ◌≢◌, refl, sym, ◌∙◌, ap, ◌⊎◌, inl, inr, ◌==◌, ltb, if◌then◌else◌,
  Bool, Bool-cases, true, false, Option, Option-cases, find_index, find_index-some, find_index-none,
  get_or-modify_self, get_or-modify_ne, none, some, List, [], ◌∷◌, length, modify, get_or, arith,
}
use osn_assignments.Fs.Icache.{Inode, remember, iget_loop, hold, take_over, iget_end, iget}

-- The entry is in use and stands for the inode.
abbrev pub is_of : ℕ → ℕ → Inode → Bool
is_of d n ip = if ltb 0 ip.ref then (if ip.dev == d then ip.inum == n else false) else false

shift : ℕ → Option ℕ → Option ℕ
shift i none = none
shift i (some k) = some (i + k)

shift-suc : (i : ℕ) (r : Option ℕ) → shift i (Option.map suc r) ≡ shift (i + 1) r
unfolding shift
shift-suc i none = refl
shift-suc i (some k) = ap some (omega arith)

abbrev is_free : Inode → Bool
is_free ip = ip.ref == 0

iget_loop-cached :
    (dev inum : ℕ) (t : List Inode) (i : ℕ) (empty : Option ℕ)
    → (iget_loop dev inum t i empty).0 ≡ shift i (find_index (is_of dev inum) t)
unfolding iget_loop find_index shift
iget_loop-cached dev inum [] i empty = refl
iget_loop-cached dev inum (ip ∷ t) i empty = elim (Bool-cases (is_of dev inum ip)) [
  | inl e ↦ rw e (ap some (omega arith))
  | inr e ↦ rw e (
      iget_loop-cached dev inum t (i + 1) (remember empty i ip)
      ∙ sym (shift-suc i (find_index (is_of dev inum) t)))
]

-- What `empty` is behind the loop, where the inode is not cached.
found_empty : Option ℕ → ℕ → List Inode → Option ℕ
found_empty (some e) i t = some e
found_empty none i t = shift i (find_index is_free t)

iget_loop-empty :
    (dev inum : ℕ) (t : List Inode) (i : ℕ) (empty : Option ℕ)
    → find_index (is_of dev inum) t ≡ none
    → (iget_loop dev inum t i empty).1 ≡ found_empty empty i t
unfolding iget_loop find_index shift found_empty
iget_loop-empty dev inum [] i none h = refl
iget_loop-empty dev inum [] i (some e) h = refl
iget_loop-empty dev inum (ip ∷ t) i none h =
    let c : is_of dev inum ip ≡ false = ground arith in
    let n : find_index (is_of dev inum) t ≡ none = ground arith in
    elim (Bool-cases (ip.ref == 0)) [
      | inl z ↦ rw (c, z) (iget_loop-empty dev inum t (i + 1) (some i) n ∙ ap some (omega arith))
      | inr z ↦
          rw (c, z)
            (iget_loop-empty dev inum t (i + 1) none n ∙ sym (shift-suc i (find_index is_free t)))
    ]
iget_loop-empty dev inum (ip ∷ t) i (some e) h =
    let c : is_of dev inum ip ≡ false = ground arith in
    let n : find_index (is_of dev inum) t ≡ none = ground arith in
    rw c (iget_loop-empty dev inum t (i + 1) (some e) n)

-- iget takes the first entry that has the inode, or else the first free one.
iget_cases :
    (dev inum : ℕ) (t : List Inode)
    → ((k : ℕ) × (find_index (is_of dev inum) t ≡ some k)
        × (iget dev inum t ≡ some (k, modify t k hold)))
      ⊎ ((find_index (is_of dev inum) t ≡ none)
          × (iget dev inum t ≡ iget_end dev inum t none (find_index is_free t)))
unfolding iget iget_end shift found_empty
iget_cases dev inum t =
    let a = iget_loop-cached dev inum t 0 none in
    elim (Option-cases (find_index (is_of dev inum) t)) [
      | inr (k, e) ↦
          let q : (iget_loop dev inum t 0 none).0 ≡ some k =
            a ∙ ap (shift 0) e ∙ ap some (omega arith) in
          inl (k, e, rw (q, iget) refl)
      | inl e ↦
          let q : (iget_loop dev inum t 0 none).0 ≡ none = a ∙ ap (shift 0) e in
          let r = iget_loop-empty dev inum t 0 none e in
          inr (e, rw (q, r, iget) (zero_shift (find_index is_free t)))
    ]
  where
    zero_shift : (r : Option ℕ) → iget_end dev inum t none (shift 0 r) ≡ iget_end dev inum t none r
    zero_shift none = refl
    zero_shift (some k) = let e : 0 + k ≡ k = omega arith in rw e refl

-- The entry at a place; behind the table there is a free one.
abbrev pub zero_inode : Inode
zero_inode = record {
  dev = 0;
  inum = 0;
  ref = 0;
  valid = false;
  node = record { kind = 0; major = 0; minor = 0; nlink = 0; size = 0; addrs = [] };
}

abbrev pub at : List Inode → ℕ → Inode
at t i = get_or t i zero_inode

-- No inode has two entries in use.
abbrev pub Once : List Inode → Type 0
Once t = (d n i j : ℕ) → is_of d n (at t i) ≡ true → is_of d n (at t j) ≡ true → i ≡ j

-- What iget has done to the table: entry `r` has the inode now and one reference more, and the
-- others are as before.
pub record Got (dev inum r : ℕ) (t t' : List Inode) : Type 0 where
  pub in_table : r < length t
  pub has_inode : is_of dev inum (at t' r) ≡ true
  pub taken :
      ((is_of dev inum (at t r) ≡ true) × (at t' r ≡ hold (at t r)))
      ⊎ (((i : ℕ) → is_of dev inum (at t i) ≡ false)
          × ((at t r).ref ≡ 0)
          × ((at t' r).ref ≡ 1)
          × ((at t' r).valid ≡ false))
  pub others : (i : ℕ) → r ≢ i → at t' i ≡ at t i

uncached :
    (dev inum : ℕ) (t : List Inode) (i : ℕ)
    → find_index (is_of dev inum) t ≡ none
    → is_of dev inum (at t i) ≡ false
unfolding find_index
uncached dev inum [] i e = refl
uncached dev inum (ip ∷ t) zero e = ground arith
uncached dev inum (ip ∷ t) (suc i) e = uncached dev inum t i (ground arith)

same_inode :
    (d n d' n' : ℕ) (ip : Inode) → is_of d n ip ≡ true → is_of d' n' ip ≡ true → (d ≡ d') × (n ≡ n')
same_inode d n d' n' ip x y = ground arith

module _ (dev inum r : ℕ) (t t' : List Inode) (g : Got dev inum r t t') (w : Once t) where
  apart : (d n j : ℕ) → is_of d n (at t' r) ≡ true → is_of d n (at t j) ≡ true → r ≡ j
  apart d n j x y =
      let (p, q) = same_inode d n dev inum (at t' r) x g.has_inode in
      let y' : is_of dev inum (at t j) ≡ true = rw (p, q) at y in
      elim (g.taken) [
        | inl (c, h) ↦ w dev inum r j c y'
        | inr (f, z, u, v) ↦ absurd (clash (sym (f j) ∙ y'))
      ]
    where
      clash : false ≡ true → ⊥
      clash e = cc

  Got-Once : Once t'
  Got-Once d n i j x y = elim (Bool-cases (r == i)) [
    | inl a ↦ elim (Bool-cases (r == j)) [
      | inl b ↦ ground arith
      | inr b ↦
          let ei : i ≡ r = ground arith in
          let nj : r ≢ j = ground arith in
          ei
          ∙ apart d n j (ap (λ k. is_of d n (at t' k)) (sym ei) ∙ x)
              (ap (is_of d n) (sym (g.others j nj)) ∙ y)
    ]
    | inr a ↦
        let ni : r ≢ i = ground arith in
        let x' = ap (is_of d n) (sym (g.others i ni)) ∙ x in
        elim (Bool-cases (r == j)) [
          | inl b ↦
              let ej : j ≡ r = ground arith in
              sym (ej ∙ apart d n i (ap (λ k. is_of d n (at t' k)) (sym ej) ∙ y) x')
          | inr b ↦
              let nj : r ≢ j = ground arith in
              w d n i j x' (ap (is_of d n) (sym (g.others j nj)) ∙ y)
        ]
  ]

-- Where no inode has two entries: iget panics exactly if the inode has none and every entry is in
-- use; else it gives an entry of the table with the inode. That is the inode's entry, with one
-- reference more, or, if it had none, a free one, with one reference and not yet read from the disk.
-- The other entries stay as they are, and still no inode has two.
pub iget_lem :
    (dev inum : ℕ) (t : List Inode)
    → Once t
    → ((iget dev inum t ≡ none)
        × ((i : ℕ) → (is_of dev inum (at t i) ≡ false) × (i < length t → (at t i).ref ≢ 0)))
      ⊎ ((r : ℕ) × (t' : List Inode) × (iget dev inum t ≡ some (r, t'))
          × Got dev inum r t t'
          × Once t')
unfolding iget_end
iget_lem dev inum t w = elim (iget_cases dev inum t) [
  | inl (k, e, q) ↦
      let (lt, c, b) = find_index-some (is_of dev inum) t k zero_inode e in
      let s = get_or-modify_self t k hold zero_inode lt in
      let o = λ (i : ℕ) (ne : k ≢ i). get_or-modify_ne t k i hold zero_inode ne in
      let g : Got dev inum k t (modify t k hold) = record {
        in_table = lt;
        has_inode = rw s (ground (arith, c));
        taken = inl (c, s);
        others = o;
      } in
      inr (k, modify t k hold, q, g, Got-Once dev inum k t (modify t k hold) g w)
  | inr (e, q) ↦ elim (Option-cases (find_index is_free t)) [
    | inl f ↦ inl (
      q ∙ ap (iget_end dev inum t none) f,
      λ i. (
        uncached dev inum t i e,
        λ lt z. in_use (at t i) (find_index-none is_free t zero_inode f i lt) z,
      ),
    )
    | inr (k, f) ↦
        let t' = modify t k (take_over dev inum) in
        let (lt, c, b) = find_index-some is_free t k zero_inode f in
        let s = get_or-modify_self t k (take_over dev inum) zero_inode lt in
        let g : Got dev inum k t t' = record {
          in_table = lt;
          has_inode = rw s (ground arith);
          taken = inr (
            λ i. uncached dev inum t i e,
            ground (arith, c),
            ap (λ ip. ip.ref) s,
            ap (λ ip. ip.valid) s,
          );
          others = λ i ne. get_or-modify_ne t k i (take_over dev inum) zero_inode ne;
        } in
        inr (k, t', q ∙ ap (iget_end dev inum t none) f, g, Got-Once dev inum k t t' g w)
  ]
]
  where
    in_use : (ip : Inode) → is_free ip ≡ false → ip.ref ≢ 0
    in_use ip h z = ground arith
