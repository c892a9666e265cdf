-- ===== src/Fs/Directory/Lookup.antt =====
-- dirlookup of xv6 modified/fs.c finds the first used entry of the name.
use osn_assignments.Base.{
  ℕ, zero, suc, ◌+◌, ◌-◌, ◌*◌, ◌%◌, ◌^◌, ◌<◌, ◌≤◌, ◌≡◌, ◌≢◌, refl, sym, ◌∙◌, ap, ◌⊎◌, inl, inr,
  ◌==◌, ltb, min, if◌then◌else◌, Bool, Bool-cases, true, false, Option, none, some, List, tab,
  arith,
}
use osn_assignments.Fs.{Superblock, Blocks}
use osn_assignments.Fs.Icache.{Dinode}
use osn_assignments.Fs.Content.{readi, Ended, ends}
use osn_assignments.Fs.Content.Reading.{byte_at, IsThere, readi_lem}
use osn_assignments.Fs.Directory.{namecmp, name_of, t_dir, dirlookup_loop, dirlookup}

module _ (dp : Dinode) (blocks : Blocks) where
  -- The entry at an offset: its number, its name, and whether it is used and has the name.
  abbrev pub number_at : ℕ → ℕ
  number_at off = byte_at dp blocks off + 256 * byte_at dp blocks (off + 1)

  abbrev pub name_at : ℕ → List ℕ
  name_at off = tab (byte_at dp blocks) (off + 2) 14

  abbrev pub is_named : List ℕ → ℕ → Bool
  is_named name off = if number_at off == 0 then false else namecmp name (name_at off)

  -- No entry from one offset up to another has the name.
  abbrev pub Unnamed : List ℕ → ℕ → ℕ → Type 0
  Unnamed name lo hi = (k : ℕ) → lo ≤ 16 * k → 16 * k < hi → is_named name (16 * k) ≡ false

  -- What a lookup is to find.
  pub data Lookup (name : List ℕ) (off : ℕ) : Option (ℕ × ℕ) → Type 0 where
    missing : Unnamed name off dp.size → Lookup name off none
    found :
        {at : ℕ}
        → off ≤ at
        → at < dp.size
        → is_named name at ≡ true
        → Unnamed name off at
        → Lookup name off (some (number_at at, at))

  module _ (dir : dp.kind ≡ t_dir) (small : dp.size ≤ 71680) (there : IsThere dp blocks 0 dp.size)
      (whole : dp.size % 16 ≡ 0) (fuel : ℕ) (sb : Superblock) (name : List ℕ) where
    read_entry :
        (off : ℕ)
        → off % 16 ≡ 0
        → off < dp.size
        → readi fuel sb dp blocks off 16 ≡ ends (some (tab (byte_at dp blocks) off 16, dp, blocks))
    read_entry off m lt =
        elim (readi_lem fuel sb dp blocks off 16 (omega (arith, dir)) small (omega arith) there) [
          | inl (why, q) ↦ absurd (bad why)
          | inr (le, w, q) ↦
              let e : min 16 (dp.size - off) ≡ 16 = omega arith in
              q ∙ ap (λ k. ended (tab (byte_at dp blocks) off k)) e
        ]
      where
        ended : List ℕ → Ended (List ℕ × Dinode × Blocks)
        ended k = ends (some (k, dp, blocks))

        bad : (dp.size < off) ⊎ (2 ^ 32 ≤ off + 16) → ⊥
        bad (inl a) = omega arith
        bad (inr a) = omega arith

    entry_name : (off : ℕ) → name_of (tab (byte_at dp blocks) off 16) ≡ name_at off
    entry_name off =
        let e : off + 1 + 1 ≡ off + 2 = omega arith in ap (λ k. tab (byte_at dp blocks) k 14) e

    Unnamed-step :
        (off hi : ℕ)
        → is_named name off ≡ false
        → Unnamed name (off + 16) hi
        → off % 16 ≡ 0
        → Unnamed name off hi
    Unnamed-step off hi n u m k le lt = elim (Bool-cases (off == 16 * k)) [
      | inl e ↦ let q : off ≡ 16 * k = ground (arith, e) in ap (is_named name) (sym q) ∙ n
      | inr e ↦ let ne : off ≢ 16 * k = ground (arith, e) in u k (omega arith) lt
    ]

    Lookup-step :
        (off : ℕ) {r : Option (ℕ × ℕ)}
        → is_named name off ≡ false
        → off % 16 ≡ 0
        → Lookup name (off + 16) r
        → Lookup name off r
    Lookup-step off n m (missing u) = missing (Unnamed-step off dp.size n u m)
    Lookup-step off n m (found {at} le lt h u) =
        found (omega arith) lt h (Unnamed-step off at n u m)

    -- One round of the loop, and the entry that it looks at.
    round :
        (rounds off : ℕ)
        → off % 16 ≡ 0
        → off < dp.size
        → dirlookup_loop (suc rounds) fuel sb name off dp blocks ≡ (
            if number_at off == 0
            then dirlookup_loop rounds fuel sb name (off + 16) dp blocks
            else if namecmp name (name_at off)
            then some (some (number_at off, off))
            else dirlookup_loop rounds fuel sb name (off + 16) dp blocks)
    unfolding dirlookup_loop
    round rounds off m lt =
        let l : ltb off dp.size ≡ true = ground (arith, lt) in
        let rest = dirlookup_loop rounds fuel sb name (off + 16) dp blocks in
        rw (l, dirlookup_loop, read_entry off m lt)
          (ap
            (λ (w : List ℕ).
              if number_at off == 0
              then rest
              else if namecmp name w
              then some (some (number_at off, off))
              else rest)
            (entry_name off))

    dirlookup_loop-Lookup :
        (rounds off : ℕ)
        → off % 16 ≡ 0
        → off ≤ dp.size
        → dp.size + 16 ≤ off + 16 * rounds
        → (r : Option (ℕ × ℕ)) × (dirlookup_loop rounds fuel sb name off dp blocks ≡ some r)
          × Lookup name off r
    unfolding dirlookup_loop
    dirlookup_loop-Lookup zero off m le enough = absurd (omega arith)
    dirlookup_loop-Lookup (suc rounds) off m le enough = elim (Bool-cases (ltb off dp.size)) [
      | inr e ↦
          (none, rw (e, dirlookup_loop) refl, missing (λ k a b. absurd (ground (arith, e, a, b))))
      | inl e ↦
          let lt : off < dp.size = ground (arith, e) in
          let next : off + 16 ≤ dp.size = omega arith in
          let (r, q, f) =
            dirlookup_loop-Lookup rounds (off + 16) (omega arith) next (omega arith) in
          let s = round rounds off m lt in
          elim (Bool-cases (number_at off == 0)) [
            | inl z ↦ (r, s ∙ rw z q, Lookup-step off (rw z refl) m f)
            | inr z ↦ elim (Bool-cases (namecmp name (name_at off))) [
              | inl n ↦ (
                some (number_at off, off),
                s ∙ rw (z, n) refl,
                found (omega arith) lt (rw (z, n) refl) (λ k a b. absurd (omega arith)),
              )
              | inr n ↦ (r, s ∙ rw (z, n) q, Lookup-step off (rw (z, n) refl) m f)
            ]
          ]
    ]

    -- In a directory whose size is a multiple of 16 and whose blocks are there, and with a round for each
    -- entry and one more, dirlookup comes to an end: it gives the number and the offset of the first
    -- entry that is used and has the name, and null exactly if there is none.
    pub dirlookup-Lookup :
        (rounds : ℕ)
        → dp.size + 16 ≤ 16 * rounds
        → (r : Option (ℕ × ℕ)) × (dirlookup rounds fuel sb name dp blocks ≡ some r)
          × Lookup name 0 r
    unfolding dirlookup
    dirlookup-Lookup rounds enough =
        let t : (dp.kind == 1) ≡ true = ground (arith, dir) in
        let (r, q, f) = dirlookup_loop-Lookup rounds 0 refl (omega arith) (omega arith) in
        (r, rw (t, dirlookup) q, f)
