-- ===== src/Pipe/Fifo.antt =====
-- A pipe of xv6 modified/pipe.c is a queue of at most 512 bytes, whatever the counters' wrap-around.
use osn_assignments.Base.{
  ℕ, zero, suc, ◌+◌, ◌-◌, ◌%◌, ◌^◌, ◌≤◌, ◌<◌, min, ◌≡◌, ◌≢◌, refl, sym, ◌∙◌, ap, ap₂, inl, inr,
  ◌==◌, Bool, true, false, not, ◌||◌, Bool-cases, List, [], ◌∷◌, ◌++◌, length, update, update_self,
  update_ne, tab, tab-ext, tab-snoc, tab-add_one, arith,
}
use mathlib.Core.List.{append_assoc, append-nil}
use osn_assignments.Pipe.{
  Pipe, Progress, done, waits, fails, is_full, put_byte, pipewrite, copy_out, piperead,
}

-- The number of bytes in the pipe.
abbrev pub count : Pipe → ℕ
count p = (p.nwrite + 2 ^ 32 - p.nread) % 2 ^ 32

pub record IsPipe (p : Pipe) : Type 0 where
  pub read_word : p.nread < 2 ^ 32
  pub write_word : p.nwrite < 2 ^ 32
  pub fits : count p ≤ 512

abbrev pub byte_at : (ℕ → ℕ) → ℕ → ℕ → ℕ
byte_at m r t = m ((r + t) % 512)

-- The bytes in the pipe, oldest first.
abbrev pub contents : Pipe → List ℕ
contents p = tab (byte_at p.bytes p.nread) 0 (count p)

put_byte-contents :
    (b : ℕ) (p : Pipe)
    → IsPipe p
    → is_full p ≡ false
    → IsPipe (put_byte b p) × (contents (put_byte b p) ≡ contents p ++ (b ∷ []))
put_byte-contents b p v h =
    let room : count p < 512 = ground (arith, v.fits) in
    let n : count (put_byte b p) ≡ suc (count p) = omega arith in
    let at_end : (p.nread + (0 + count p)) % 512 ≡ p.nwrite % 512 = omega arith in
    let m' = update p.bytes (p.nwrite % 512) b in
    (
      record { read_word = v.read_word; write_word = omega arith; fits = omega arith },
      rw (n, tab-snoc (byte_at m' p.nread) 0 (count p))
          (ap₂ ◌++◌
            (tab-ext (byte_at m' p.nread) (byte_at p.bytes p.nread) 0 (count p)
              (λ j x y. update_ne p.bytes (p.nwrite % 512) ((p.nread + j) % 512) b (omega arith)))
            (ap (λ c. c ∷ []) (ap m' at_end ∙ update_self p.bytes (p.nwrite % 512) b))),
    )

-- What a call of pipewrite with `bs` left to write makes of the pipe.
pub data WriteSpec (killed : Bool) (bs : List ℕ) (p : Pipe) : Progress (List ℕ) → Type 0 where
  wrote : (q : Pipe) → IsPipe q → contents q ≡ contents p ++ bs → WriteSpec killed bs p (done q [])
  full :
      (q : Pipe) (rest : List ℕ)
      → IsPipe q
      → contents q ++ rest ≡ contents p ++ bs
      → count q ≡ 512
      → (not q.readopen || killed) ≡ false
      → WriteSpec killed bs p (waits q rest)
  broken :
      (q : Pipe) (rest : List ℕ)
      → IsPipe q
      → contents q ++ rest ≡ contents p ++ bs
      → count q ≡ 512
      → (not q.readopen || killed) ≡ true
      → WriteSpec killed bs p (fails q rest)

full-count : (p : Pipe) → IsPipe p → is_full p ≡ true → count p ≡ 512
full-count p v h = ground (arith, v.read_word, v.write_word)

WriteSpec-cons :
    (killed : Bool) (b : ℕ) (bs : List ℕ) (p q : Pipe) (r : Progress (List ℕ))
    → contents q ≡ contents p ++ (b ∷ [])
    → WriteSpec killed bs q r
    → WriteSpec killed (b ∷ bs) p r
WriteSpec-cons killed b bs p q r e (wrote t v c) =
    wrote t v (c ∙ rw e (append_assoc (contents p) (b ∷ []) bs))
WriteSpec-cons killed b bs p q r e (full t rest v c n o) =
    full t rest v (c ∙ rw e (append_assoc (contents p) (b ∷ []) bs)) n o
WriteSpec-cons killed b bs p q r e (broken t rest v c n o) =
    broken t rest v (c ∙ rw e (append_assoc (contents p) (b ∷ []) bs)) n o

-- On a valid pipe, pipewrite appends the bytes in order, without loss or repetition: all of them,
-- or as many as fill the pipe, and then it waits, or fails if the read end is closed or the caller
-- killed.
pub pipewrite-WriteSpec :
    (killed : Bool) (bs : List ℕ) (p : Pipe)
    → IsPipe p
    → WriteSpec killed bs p (pipewrite killed bs p)
unfolding pipewrite
pipewrite-WriteSpec killed [] p v = wrote p v (sym (append-nil (contents p)))
pipewrite-WriteSpec killed (b ∷ bs) p v = elim (Bool-cases (is_full p)) [
  | inl f ↦ elim (Bool-cases (not p.readopen || killed)) [
    | inl c ↦ rw (f, c) (broken p (b ∷ bs) v refl (full-count p v f) c)
    | inr c ↦ rw (f, c) (full p (b ∷ bs) v refl (full-count p v f) c)
  ]
  | inr f ↦
      let put = put_byte-contents b p v f in
      rw f (
        WriteSpec-cons killed b bs p (put_byte b p) (pipewrite killed bs (put_byte b p)) put.1
          (pipewrite-WriteSpec killed bs (put_byte b p) put.0))
]

-- The copying loop takes the oldest bytes, at most n of them, and leaves the others.
pub copy_out_lem :
    (n : ℕ) (p : Pipe)
    → IsPipe p
    → let (bs, q) = copy_out n p in
      IsPipe q × (bs ++ contents q ≡ contents p) × (length bs ≡ min n (count p))
unfolding copy_out
copy_out_lem zero p v = (v, refl, omega arith)
copy_out_lem (suc n) p v = elim (Bool-cases (p.nread == p.nwrite)) [
  | inl e ↦ let z : count p ≡ 0 = ground arith in rw e (v, refl, omega arith)
  | inr e ↦
      let q = record p { nread = (p.nread + 1) % 2 ^ 32 } in
      let ne : p.nread ≢ p.nwrite = ground arith in
      let c : count p ≡ suc (count q) = omega (arith, v.read_word, v.write_word) in
      let vq : IsPipe q = record {
        read_word = omega arith;
        write_word = v.write_word;
        fits = omega (arith, v.fits);
      } in
      let ih = copy_out_lem n q vq in
      let first : (p.nread + 0) % 512 ≡ p.nread % 512 = omega arith in
      let moved : contents p ≡ p.bytes (p.nread % 512) ∷ contents q =
        rw (c, first, tab-add_one (byte_at p.bytes p.nread) 0 (count q))
          (ap (λ r. p.bytes (p.nread % 512) ∷ r)
            (tab-ext (λ j. byte_at p.bytes p.nread (j + 1)) (byte_at p.bytes q.nread) 0 (count q)
              (λ j x y. ap p.bytes (omega arith)))) in
      rw e (ih.0, ap (λ r. p.bytes (p.nread % 512) ∷ r) ih.1 ∙ sym moved, omega (arith, ih.2))
]

-- piperead from a valid pipe that is not empty returns at once with its oldest bytes, as many as
-- asked for or as there are, and leaves the others in order.
pub piperead_lem :
    (killed : Bool) (n : ℕ) (p : Pipe)
    → IsPipe p
    → p.nread ≢ p.nwrite
    → (q : Pipe) × (bs : List ℕ) × (piperead killed n p ≡ done q bs)
      × IsPipe q
      × (bs ++ contents q ≡ contents p)
      × (length bs ≡ min n (count p))
unfolding piperead
piperead_lem killed n p v ne =
    let e : (p.nread == p.nwrite) ≡ false = ground arith in
    let r = copy_out_lem n p v in ((copy_out n p).1, (copy_out n p).0, rw e, r.0, r.1, r.2)
