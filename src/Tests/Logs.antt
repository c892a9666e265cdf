-- ===== src/Tests/Logs.antt =====
-- The log of xv6 modified/log.c at a transaction of two blocks.
use osn_assignments.Base.{ℕ, ◌+◌, ◌≡◌, refl, ◌⊎◌, false, [], ◌∷◌, take, arith}
use osn_assignments.Log.{Disk, block, header, apply_all, commit, recover_from_log, Log}
use osn_assignments.Log.Writes.{Outside, installed}
use osn_assignments.Log.Recovery.{crash_safe}

abbrev clean_disk : Disk
clean_disk = record { head = []; blocks = λ b. b }

abbrev new_contents : ℕ → ℕ
new_contents b = b + 100

-- Blocks 40 and 50 change; the log starts at block 2.
commit_run :
    commit 2 (40 ∷ (50 ∷ [])) new_contents clean_disk
    ≡ block 3 140
      ∷ (block 4 150
          ∷ (header (40 ∷ (50 ∷ [])) ∷ (block 40 140 ∷ (block 50 150 ∷ (header [] ∷ [])))))
unfolding commit
commit_run = refl

crash_safe_example :
    let c = apply_all (take 4 (commit 2 (40 ∷ (50 ∷ [])) new_contents clean_disk)) clean_disk in
    let r = apply_all (recover_from_log 2 c) c in
    (r.head ≡ [])
    × (((b : ℕ) → Outside 2 2 b → r.blocks b ≡ clean_disk.blocks b)
        ⊎ ((b : ℕ)
            → Outside 2 2 b
            → r.blocks b ≡ installed (40 ∷ (50 ∷ [])) new_contents clean_disk b))
crash_safe_example = crash_safe 2 (40 ∷ (50 ∷ [])) new_contents clean_disk 4 refl (omega arith)

abbrev one_op : Log
one_op = record { start = 2; size = 30; outstanding = 1; committing = false; lh = 7 ∷ (9 ∷ []) }

abbrev wrote : Log
wrote = record one_op { lh = 7 ∷ (9 ∷ (8 ∷ [])) }
