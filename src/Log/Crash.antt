-- ===== src/Log/Crash.antt =====
-- Crash safety of xv6 modified/log.c: the states that a commit goes through.
use osn_assignments.Base.{
  ℕ, ◌+◌, ◌<◌, ◌≤◌, ◌≡◌, ◌≢◌, refl, ◌∙◌, sym, ◌⊎◌, inl, inr, ◌==◌, if◌then◌else◌, Bool, true, false,
  Bool-cases, List, [], ◌∷◌, length, All, update_ne, arith,
}
use osn_assignments.Log.{Disk, block, apply, apply_all, install_trans}
use osn_assignments.Log.Writes.{Outside, member, installed, LogHolds, AllStates, LogHolds-update}

-- Installing from the log blocks puts the cached contents home.
install_trans-blocks :
    (start n t : ℕ) (bs : List ℕ) (cache : ℕ → ℕ) (d : Disk) (b : ℕ)
    → t + length bs ≤ n
    → All (Outside start n) bs
    → LogHolds start t bs cache d
    → (apply_all (install_trans start t bs d) d).blocks b ≡ installed bs cache d b
unfolding install_trans apply_all
install_trans-blocks start n t [] cache d b h o l = refl
install_trans-blocks start n t (c ∷ bs) cache d b h o l =
    let v = d.blocks (start + t + 1) in
    let d1 = apply (block c v) d in
    let later = LogHolds-update start (t + 1) bs cache d c v (beyond o.0) l.1 in
    install_trans-blocks start n (t + 1) bs cache d1 b (omega arith) o.1 later
    ∙ regroup (member b bs) l.0
  where
    beyond :
        (c < start) ⊎ (start + n < c) → (c ≤ start + (t + 1)) ⊎ (start + (t + 1) + length bs < c)
    beyond (inl a) = inl (omega arith)
    beyond (inr a) = inr (omega arith)

    regroup :
        (m : Bool)
        → d.blocks (start + t + 1) ≡ cache c
        → (if m then cache b else (if c == b then d.blocks (start + t + 1) else d.blocks b))
          ≡ (if (if c == b then true else m) then cache b else d.blocks b)
    regroup true e = elim (Bool-cases (c == b)) [ inl s ↦ rw s | inr s ↦ rw s ]
    regroup false e = elim (Bool-cases (c == b)) [
      | inl s ↦ let s' : c ≡ b = ground arith in rw (s, e, s')
      | inr s ↦ rw s
    ]

-- The three kinds of states that a commit of `bs` goes through from `d0`.
module _ (start : ℕ) (bs : List ℕ) (cache : ℕ → ℕ) (d0 : Disk) where
  abbrev pub n : ℕ
  n = length bs

  -- The header still says that there is nothing to install.
  pub record Old (d : Disk) : Type 0 where
    pub head : d.head ≡ []
    pub home : (b : ℕ) → Outside start n b → d.blocks b ≡ d0.blocks b

  -- The header names the blocks, and the log holds them.
  pub record Logged (d : Disk) : Type 0 where
    pub head : d.head ≡ bs
    pub log : LogHolds start 0 bs cache d
    pub home : (b : ℕ) → Outside start n b → member b bs ≡ false → d.blocks b ≡ d0.blocks b

  -- The header is cleared again, and the blocks are home.
  pub record New (d : Disk) : Type 0 where
    pub head : d.head ≡ []
    pub home : (b : ℕ) → Outside start n b → d.blocks b ≡ installed bs cache d0 b

  abbrev pub Between : Disk → Type 0
  Between d = Old d ⊎ (Logged d ⊎ New d)

  Logged-write :
      (d : Disk) (c v : ℕ)
      → member c bs ≡ true
      → Outside start n c
      → Logged d
      → Logged (apply (block c v) d)
  Logged-write d c v m o l = record {
    head = l.head;
    log = LogHolds-update start 0 bs cache d c v (omega arith) l.log;
    home = λ b ob mb. update_ne d.blocks c b v (differ b mb) ∙ l.home b ob mb;
  }
    where
      differ : (b : ℕ) → member b bs ≡ false → c ≢ b
      differ b mb e = clash (sym (rw e at m) ∙ mb)
        where
          clash : true ≡ false → ⊥
          clash q = cc

  pub install_trans-Logged :
      (t : ℕ) (cs : List ℕ) (d : Disk)
      → All (λ c. (member c bs ≡ true) × Outside start n c) cs
      → Logged d
      → AllStates Logged (install_trans start t cs d) d
  unfolding install_trans
  install_trans-Logged t [] d a l = l
  install_trans-Logged t (c ∷ cs) d a l = (
    l,
    install_trans-Logged (t + 1) cs (apply (block c (d.blocks (start + t + 1))) d) a.1
        (Logged-write d c (d.blocks (start + t + 1)) a.0.0 a.0.1 l),
  )

  pub members :
      (cs : List ℕ)
      → ((c : ℕ) → member c cs ≡ true → member c bs ≡ true)
      → All (Outside start n) cs
      → All (λ c. (member c bs ≡ true) × Outside start n c) cs
  members [] f a = tt
  members (c ∷ cs) f a = ((f c (first c cs), a.0), members cs (λ x h. f x (rest c x cs h)) a.1)
    where
      first : (c : ℕ) (cs : List ℕ) → member c (c ∷ cs) ≡ true
      first c cs = ground arith

      rest : (c x : ℕ) (cs : List ℕ) → member x cs ≡ true → member x (c ∷ cs) ≡ true
      rest c x cs h = elim (Bool-cases (c == x)) [ inl e ↦ rw e | inr e ↦ rw e h ]

  pub Logged-installed :
      (d : Disk) (b : ℕ)
      → All (Outside start n) bs
      → Logged d
      → Outside start n b
      → (apply_all (install_trans start 0 bs d) d).blocks b ≡ installed bs cache d0 b
  Logged-installed d b a l o =
      install_trans-blocks start n 0 bs cache d b (omega arith) a l.log ∙ same
    where
      same : installed bs cache d b ≡ installed bs cache d0 b
      same = elim (Bool-cases (member b bs)) [ inl e ↦ rw e | inr e ↦ rw e (l.home b o e) ]
