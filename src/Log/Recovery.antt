-- ===== src/Log/Recovery.antt =====
-- Crash safety of xv6 modified/log.c: a commit cut off after any of its disk writes, followed by
-- recovery, leaves the home blocks with all of the transaction or with none of it.
use osn_assignments.Base.{
  ℕ, ◌+◌, ◌≡◌, refl, ◌∙◌, ap, ◌⊎◌, inl, inr, List, [], ◌∷◌, ◌++◌, length, take, All, arith,
}
use osn_assignments.Log.{
  Disk, Write, header, apply, apply_all, write_log, install_trans, commit, recover_from_log,
}
use osn_assignments.Log.Writes.{
  Outside, installed, LogHolds, AllStates, AllStates-append, AllStates-take, AllStates-map,
  AllStates-last, apply_all-append, Untouched, write_log-Untouched, write_log-LogHolds,
}
use osn_assignments.Log.Crash.{
  Old, Logged, New, Between, install_trans-Logged, members, Logged-installed,
}

module _ (start : ℕ) (bs : List ℕ) (cache : ℕ → ℕ) (d0 : Disk) (clean : d0.head ≡ [])
    (away : All (Outside start (length bs)) bs) where
  writes : List Write
  writes = write_log start 0 bs cache

  untouched : AllStates (Untouched start (length bs) d0) writes d0
  unfolding writes
  untouched =
      write_log-Untouched start (length bs) 0 bs cache d0 d0 (omega arith)
        record { head = refl; home = λ b o. refl }

  old : (d : Disk) → Untouched start (length bs) d0 d → Old start bs cache d0 d
  old d u = record { head = u.head ∙ clean; home = u.home }

  dw : Disk
  dw = apply_all writes d0

  logged_now : Logged start bs cache d0 (apply (header bs) dw)
  unfolding dw writes
  logged_now = record {
    head = refl;
    log = header_kept 0 bs (write_log-LogHolds start 0 bs cache d0);
    home = λ b o m. (AllStates-last (Untouched start (length bs) d0) writes d0 untouched).home b o;
  }
    where
      header_kept :
          (t : ℕ) (cs : List ℕ)
          → LogHolds start t cs cache dw
          → LogHolds start t cs cache (apply (header bs) dw)
      header_kept t [] h = tt
      header_kept t (c ∷ cs) h = (h.0, header_kept (t + 1) cs h.1)

  d1 : Disk
  d1 = apply (header bs) dw

  d1-eq : apply_all (writes ++ (header bs ∷ [])) d0 ≡ d1
  unfolding d1 dw apply_all
  d1-eq = apply_all-append writes (header bs ∷ []) d0

  at_d1 : Logged start bs cache d0 d1
  unfolding d1
  at_d1 = logged_now

  logging : AllStates (Between start bs cache d0) (writes ++ (header bs ∷ [])) d0
  unfolding dw
  logging =
      AllStates-append (Between start bs cache d0) writes (header bs ∷ []) d0
        (AllStates-map (Untouched start (length bs) d0) (Between start bs cache d0)
          (λ d u. inl (old d u)) writes d0 untouched)
        (
          inl (
              old (apply_all writes d0)
                (AllStates-last (Untouched start (length bs) d0) writes d0 untouched)),
          inr (inl logged_now),
        )

  inside : AllStates (Logged start bs cache d0) (install_trans start 0 bs d1) d1
  inside =
      install_trans-Logged start bs cache d0 0 bs d1 (members start bs cache d0 bs (λ c h. h) away)
        at_d1

  finished : New start bs cache d0 (apply (header []) (apply_all (install_trans start 0 bs d1) d1))
  finished = record {
    head = refl;
    home = λ b o. Logged-installed start bs cache d0 d1 b away at_d1 o;
  }

  installing :
      AllStates (Between start bs cache d0) (install_trans start 0 bs d1 ++ (header [] ∷ [])) d1
  installing =
      AllStates-append (Between start bs cache d0) (install_trans start 0 bs d1) (header [] ∷ []) d1
        (AllStates-map (Logged start bs cache d0) (Between start bs cache d0) (λ d l. inr (inl l))
          (install_trans start 0 bs d1) d1 inside)
        (
          inr (
              inl (
                AllStates-last (Logged start bs cache d0) (install_trans start 0 bs d1) d1 inside)),
          inr (inr finished),
        )

  pub full_commit : List Write
  full_commit =
      (writes ++ (header bs ∷ []))
      ++ (install_trans start 0 bs (apply_all (writes ++ (header bs ∷ [])) d0) ++ (header [] ∷ []))

  pub full_commit-Between : AllStates (Between start bs cache d0) full_commit d0
  unfolding full_commit
  full_commit-Between =
      AllStates-append (Between start bs cache d0) (writes ++ (header bs ∷ []))
        (install_trans start 0 bs (apply_all (writes ++ (header bs ∷ [])) d0) ++ (header [] ∷ []))
        d0 logging (rw d1-eq installing)

  pub full_commit-New : New start bs cache d0 (apply_all full_commit d0)
  unfolding full_commit apply_all
  full_commit-New =
      rw
        (
          apply_all-append (writes ++ (header bs ∷ []))
              (install_trans start 0 bs (apply_all (writes ++ (header bs ∷ [])) d0)
                ++ (header [] ∷ []))
              d0,
          d1-eq,
          apply_all-append (install_trans start 0 bs d1) (header [] ∷ []) d1,
        )
        finished

  -- After recovery from any of the states, the disk is clean and holds all or nothing.
  abbrev pub Recovered : Disk → Type 0
  Recovered c =
      let r = apply_all (recover_from_log start c) c in
      (r.head ≡ [])
      × (((b : ℕ) → Outside start (length bs) b → r.blocks b ≡ d0.blocks b)
          ⊎ ((b : ℕ) → Outside start (length bs) b → r.blocks b ≡ installed bs cache d0 b))

  recover_empty :
      (c : Disk) → c.head ≡ [] → apply_all (recover_from_log start c) c ≡ apply (header []) c
  unfolding recover_from_log apply_all install_trans
  recover_empty c h = rw h

  recover_logged :
      (c : Disk)
      → c.head ≡ bs
      → apply_all (recover_from_log start c) c
        ≡ apply (header []) (apply_all (install_trans start 0 bs c) c)
  unfolding recover_from_log apply_all
  recover_logged c h =
      ap (λ hs. apply_all (install_trans start 0 hs c ++ (header [] ∷ [])) c) h
      ∙ apply_all-append (install_trans start 0 bs c) (header [] ∷ []) c

  pub Between-Recovered : (c : Disk) → Between start bs cache d0 c → Recovered c
  Between-Recovered c (inl o) = rw (recover_empty c o.head) (refl, inl o.home)
  Between-Recovered c (inr (inl l)) =
      rw (recover_logged c l.head)
        (refl, inr (λ b o. Logged-installed start bs cache d0 c b away l o))
  Between-Recovered c (inr (inr w)) = rw (recover_empty c w.head) (refl, inr w.home)

-- On a disk with an empty log, and for a transaction whose blocks lie outside the log: cut its
-- commit off after any number `k` of disk writes and run recovery. Then the log is empty, and the
-- blocks outside the log hold what they held before the transaction, all of them, or what they hold
-- after it, all of them.
pub crash_safe :
    (start : ℕ) (bs : List ℕ) (cache : ℕ → ℕ) (d : Disk) (k : ℕ)
    → d.head ≡ []
    → All (Outside start (length bs)) bs
    → let c = apply_all (take k (commit start bs cache d)) d in
      let r = apply_all (recover_from_log start c) c in
      (r.head ≡ [])
      × (((b : ℕ) → Outside start (length bs) b → r.blocks b ≡ d.blocks b)
          ⊎ ((b : ℕ) → Outside start (length bs) b → r.blocks b ≡ installed bs cache d b))
unfolding commit full_commit writes
crash_safe start [] cache d k clean away =
    Between-Recovered start [] cache d clean away (apply_all (take k []) d) (
      AllStates-take (Between start [] cache d) [] d k
        (inl record { head = clean; home = λ b o. refl }))
crash_safe start (b ∷ bs) cache d k clean away =
    Between-Recovered start (b ∷ bs) cache d clean away
      (apply_all (take k (full_commit start (b ∷ bs) cache d clean away)) d)
      (AllStates-take (Between start (b ∷ bs) cache d)
        (full_commit start (b ∷ bs) cache d clean away) d k
        (full_commit-Between start (b ∷ bs) cache d clean away))

-- On a disk with an empty log, and for a transaction whose blocks lie outside the log: a commit
-- that is not cut off leaves the log empty and puts every block of the transaction home; the other
-- blocks outside the log stay.
commit_lem :
    (start : ℕ) (bs : List ℕ) (cache : ℕ → ℕ) (d : Disk) (b : ℕ)
    → d.head ≡ []
    → All (Outside start (length bs)) bs
    → Outside start (length bs) b
    → let r = apply_all (commit start bs cache d) d in
      (r.head ≡ []) × (r.blocks b ≡ installed bs cache d b)
unfolding commit full_commit apply_all writes
commit_lem start [] cache d x clean away o = (clean, refl)
commit_lem start (b ∷ bs) cache d x clean away o =
    let f = full_commit-New start (b ∷ bs) cache d clean away in (f.head, f.home x o)
