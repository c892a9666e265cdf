-- ===== src/Log/Space.antt =====
-- The space of the log in xv6 modified/log.c: what begin_op reserves and what log_write records.
use osn_assignments.Base.{
  ℕ, ◌+◌, ◌*◌, ◌≤◌, ◌<◌, ◌≡◌, refl, inl, inr, ◌==◌, if◌then◌else◌, Bool, true, false, Bool-cases,
  some, List, [], ◌∷◌, length, arith,
}
use osn_assignments.Proc.Types.{inc_word}
use osn_assignments.Log.{Log, begin_op, log_write, record_block}
use osn_assignments.Log.Writes.{member}

-- begin_op lets a system call in exactly if no commit runs and the recorded blocks, with ten for
-- each call then in progress, fit the log; it counts the call and changes nothing else.
begin_op_lem :
    (l l' : Log)
    → begin_op l ≡ some l'
    → (l.committing ≡ false)
      × (length l'.lh + l'.outstanding * 10 ≤ 30)
      × (l'.outstanding ≡ inc_word l.outstanding)
      × (l'.lh ≡ l.lh)
unfolding begin_op
begin_op_lem l l' h = ground arith

-- The list has no block twice.
abbrev pub Distinct : List ℕ → Type 0
Distinct [] = Unit
Distinct (b ∷ bs) = (member b bs ≡ false) × Distinct bs

member-record_block :
    (b x : ℕ) (bs : List ℕ) → member x (record_block b bs) ≡ (if b == x then true else member x bs)
unfolding record_block
member-record_block b x [] = refl
member-record_block b x (c ∷ cs) = elim (Bool-cases (c == b)) [
  | inl e ↦ let e' : c ≡ b = ground arith in rw (e, e') (twice (b == x) (member x cs))
  | inr e ↦ rw (e, member-record_block b x cs) (swap (c == x) (b == x) (member x cs))
]
  where
    twice : (p r : Bool) → (if p then true else r) ≡ (if p then true else (if p then true else r))
    twice p r = ground arith

    swap :
        (p q r : Bool)
        → (if p then true else (if q then true else r))
          ≡ (if q then true else (if p then true else r))
    swap p q r = ground arith

length-record_block : (b : ℕ) (bs : List ℕ) → length (record_block b bs) ≤ length bs + 1
unfolding record_block
length-record_block b [] = omega arith
length-record_block b (c ∷ cs) = elim (Bool-cases (c == b)) [
  | inl e ↦ rw e (omega arith)
  | inr e ↦ rw e (omega (arith, length-record_block b cs))
]

Distinct-record_block : (b : ℕ) (bs : List ℕ) → Distinct bs → Distinct (record_block b bs)
unfolding record_block
Distinct-record_block b [] d = (refl, tt)
Distinct-record_block b (c ∷ cs) d = elim (Bool-cases (c == b)) [
  | inl e ↦ let e' : c ≡ b = ground arith in rw e (rw e' at (d.0), d.1)
  | inr e ↦
      let ne : (b == c) ≡ false = ground arith in
      rw e (rw (member-record_block b c cs, ne) d.0, Distinct-record_block b cs d.1)
]

recorded :
    (b : ℕ) (l l' : Log)
    → log_write b l ≡ some l'
    → (l'.lh ≡ record_block b l.lh) × (length l.lh < 30)
unfolding log_write
recorded b l l' h = ground arith

-- With a block list that has no block twice, log_write that does not panic records the block, once:
-- a block already in the transaction is absorbed. The other blocks stay, the list grows by one at
-- most and stays within the log.
log_write_lem :
    (b : ℕ) (l l' : Log)
    → Distinct l.lh
    → log_write b l ≡ some l'
    → Distinct l'.lh
      × ((x : ℕ) → member x l'.lh ≡ (if b == x then true else member x l.lh))
      × (length l'.lh ≤ length l.lh + 1)
      × (length l'.lh ≤ 30)
log_write_lem b l l' d h =
    let r = recorded b l l' h in
    rw r.0 (
      Distinct-record_block b l.lh d,
      λ x. member-record_block b x l.lh,
      length-record_block b l.lh,
      omega (arith, length-record_block b l.lh, r.1),
    )
