-- ===== src/Log/Writes.antt =====
-- Sequences of disk writes of xv6 modified/log.c, and what write_log leaves in the log blocks.
use osn_assignments.Base.{
  ℕ, zero, suc, ◌+◌, ◌<◌, ◌≤◌, ◌≡◌, refl, ◌∙◌, ◌⊎◌, ◌==◌, if◌then◌else◌, Bool, true, false, List,
  [], ◌∷◌, ◌++◌, length, take, update_self, update_ne, arith,
}
use osn_assignments.Log.{Disk, Write, block, apply, apply_all, write_log}

-- Not one of the `n` log blocks behind `start`, nor the header.
abbrev pub Outside : ℕ → ℕ → ℕ → Type 0
Outside start n b = (b < start) ⊎ (start + n < b)

abbrev pub member : ℕ → List ℕ → Bool
member b [] = false
member b (c ∷ cs) = if c == b then true else member b cs

-- Block `b` after the whole transaction.
abbrev pub installed : List ℕ → (ℕ → ℕ) → Disk → ℕ → ℕ
installed bs cache d b = if member b bs then cache b else d.blocks b

-- The log blocks from index `t` on hold the cached contents of `bs`.
abbrev pub LogHolds : ℕ → ℕ → List ℕ → (ℕ → ℕ) → Disk → Type 0
LogHolds start t [] cache d = Unit
LogHolds start t (b ∷ bs) cache d =
    (d.blocks (start + t + 1) ≡ cache b) × LogHolds start (t + 1) bs cache d

-- A property of the disk before and after each write of a sequence.
abbrev pub AllStates : (Disk → Type 0) → List Write → Disk → Type 0
AllStates P [] d = P d
AllStates P (w ∷ ws) d = P d × AllStates P ws (apply w d)

pub AllStates-append :
    (P : Disk → Type 0) (xs ys : List Write) (d : Disk)
    → AllStates P xs d
    → AllStates P ys (apply_all xs d)
    → AllStates P (xs ++ ys) d
unfolding apply_all
AllStates-append P [] ys d hx hy = hy
AllStates-append P (x ∷ xs) ys d hx hy = (hx.0, AllStates-append P xs ys (apply x d) hx.1 hy)

pub AllStates-take :
    (P : Disk → Type 0) (ws : List Write) (d : Disk) (k : ℕ)
    → AllStates P ws d
    → P (apply_all (take k ws) d)
unfolding apply_all
AllStates-take P [] d zero h = h
AllStates-take P [] d (suc k) h = h
AllStates-take P (w ∷ ws) d zero h = h.0
AllStates-take P (w ∷ ws) d (suc k) h = AllStates-take P ws (apply w d) k h.1

pub AllStates-map :
    (P Q : Disk → Type 0)
    → ((d : Disk) → P d → Q d)
    → (ws : List Write) (d : Disk) → AllStates P ws d
    → AllStates Q ws d
AllStates-map P Q f [] d h = f d h
AllStates-map P Q f (w ∷ ws) d h = (f d h.0, AllStates-map P Q f ws (apply w d) h.1)

pub apply_all-append :
    (xs ys : List Write) (d : Disk) → apply_all (xs ++ ys) d ≡ apply_all ys (apply_all xs d)
unfolding apply_all
apply_all-append [] ys d = refl
apply_all-append (x ∷ xs) ys d = apply_all-append xs ys (apply x d)

-- A write elsewhere leaves the log blocks.
pub LogHolds-update :
    (start t : ℕ) (bs : List ℕ) (cache : ℕ → ℕ) (d : Disk) (c v : ℕ)
    → ((c ≤ start + t) ⊎ (start + t + length bs < c))
    → LogHolds start t bs cache d
    → LogHolds start t bs cache (apply (block c v) d)
LogHolds-update start t [] cache d c v o h = tt
LogHolds-update start t (b ∷ bs) cache d c v o h = (
  update_ne d.blocks c (start + t + 1) v (omega arith) ∙ h.0,
  LogHolds-update start (t + 1) bs cache d c v (omega arith) h.1,
)

-- While the log blocks are written, the header and the blocks outside stay.
pub record Untouched (start n : ℕ) (d0 d : Disk) : Type 0 where
  pub head : d.head ≡ d0.head
  pub home : (b : ℕ) → Outside start n b → d.blocks b ≡ d0.blocks b

pub write_log-Untouched :
    (start n t : ℕ) (bs : List ℕ) (cache : ℕ → ℕ) (d0 d : Disk)
    → t + length bs ≤ n
    → Untouched start n d0 d
    → AllStates (Untouched start n d0) (write_log start t bs cache) d
unfolding write_log
write_log-Untouched start n t [] cache d0 d h u = u
write_log-Untouched start n t (b ∷ bs) cache d0 d h u = (
  u,
  write_log-Untouched start n (t + 1) bs cache d0 (apply (block (start + t + 1) (cache b)) d)
      (omega arith)
      record {
        head = u.head;
        home = λ c o. update_ne d.blocks (start + t + 1) c (cache b) (omega arith) ∙ u.home c o;
      },
)

pub AllStates-last :
    (P : Disk → Type 0) (ws : List Write) (d : Disk) → AllStates P ws d → P (apply_all ws d)
unfolding apply_all
AllStates-last P [] d h = h
AllStates-last P (w ∷ ws) d h = AllStates-last P ws (apply w d) h.1

pub write_log-kept :
    (start t x : ℕ) (bs : List ℕ) (cache : ℕ → ℕ) (d : Disk)
    → x ≤ start + t
    → (apply_all (write_log start t bs cache) d).blocks x ≡ d.blocks x
unfolding write_log apply_all
write_log-kept start t x [] cache d h = refl
write_log-kept start t x (b ∷ bs) cache d h =
    write_log-kept start (t + 1) x bs cache (apply (block (start + t + 1) (cache b)) d)
      (omega arith)
    ∙ update_ne d.blocks (start + t + 1) x (cache b) (omega arith)

pub write_log-LogHolds :
    (start t : ℕ) (bs : List ℕ) (cache : ℕ → ℕ) (d : Disk)
    → LogHolds start t bs cache (apply_all (write_log start t bs cache) d)
unfolding write_log apply_all
write_log-LogHolds start t [] cache d = tt
write_log-LogHolds start t (b ∷ bs) cache d = (
  write_log-kept start (t + 1) (start + t + 1) bs cache (apply (block (start + t + 1) (cache b)) d)
        (omega arith)
      ∙ update_self d.blocks (start + t + 1) (cache b),
  write_log-LogHolds start (t + 1) bs cache (apply (block (start + t + 1) (cache b)) d),
)
