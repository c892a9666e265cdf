-- ===== src/Tests/Buffers.antt =====
-- The buffer cache.
use osn_assignments.Base.{
  ◌*◌, ◌≡◌, ◌⊎◌, inl, refl, true, false, some, List, [], ◌∷◌, All, update, arith,
}
use osn_assignments.Bio.{Buf, find_cached, recycle, bget, Disk, bread, bwrite, put_buf}
use osn_assignments.Bio.Search.{of_block, buffers, Cached, Recycled}
use osn_assignments.Bio.Keys.{NoAlias, bget_lem}
use osn_assignments.Bio.Sound.{IsSound}
use osn_assignments.Bio.Current.{current}
use osn_assignments.Bio.Data.{bread_lem, bwrite_lem}

-- A buffer in use, a clean free one and a dirty one.
abbrev busy : Buf
busy = record {
  id = 2;
  dev = 1;
  blockno = 5;
  refcnt = 1;
  valid = true;
  dirty = false;
  contents = 50;
}

abbrev unused : Buf
unused = record {
  id = 0;
  dev = 1;
  blockno = 6;
  refcnt = 0;
  valid = true;
  dirty = false;
  contents = 60;
}

abbrev logged : Buf
logged = record {
  id = 1;
  dev = 1;
  blockno = 7;
  refcnt = 0;
  valid = true;
  dirty = true;
  contents = 71;
}

abbrev cache : List Buf
cache = busy ∷ (unused ∷ (logged ∷ []))

abbrev fresh : Buf
fresh = record unused { blockno = 9; refcnt = 1; valid = false }

abbrev cache_fresh : List Buf
cache_fresh = busy ∷ (fresh ∷ (logged ∷ []))

abbrev disk : Disk
disk = record { block = λ b. 10 * b; size = 100 }

cache-NoAlias : NoAlias cache
cache-NoAlias d n ne = ground arith

cache-IsSound : All (IsSound disk) cache
cache-IsSound = (
  record { filled = λ h. refl; same = λ h g. refl; device = λ h. refl },
  (
    record { filled = λ h. refl; same = λ h g. refl; device = λ h. refl },
    (record { filled = λ h. refl; same = λ h g. cc; device = λ h. refl }, tt),
  ),
)

-- Block 9 takes the place of the clean free buffer.
bget_run : bget 1 9 cache ≡ some (fresh, cache_fresh)
unfolding bget find_cached recycle
bget_run = refl

bget_lem_example :
    (of_block 1 9 fresh ≡ true)
    × NoAlias cache_fresh
    × (Cached fresh cache cache_fresh
        ⊎ ((buffers 1 9 cache ≡ 0) × (fresh.refcnt ≡ 1) × Recycled fresh cache cache_fresh))
bget_lem_example = bget_lem 1 9 cache cache_fresh fresh cache-NoAlias bget_run

bread_lem_example :
    (b : Buf) × (l' : List Buf) × (bread 1 9 cache disk ≡ some (b, l', disk))
    × (of_block 1 9 b ≡ true)
    × (b.valid ≡ true)
    × (b.contents ≡ current 9 cache disk)
    × (b.dirty ≡ false → b.contents ≡ disk.block 9)
    × All (IsSound disk) l'
bread_lem_example = bread_lem 9 cache cache_fresh fresh disk cache-IsSound bget_run (omega arith)

-- The busy buffer with new contents.
abbrev changed : Buf
changed = record busy { contents = 51 }

bwrite_lem_example :
    let l' = put_buf 2 (λ c. record changed { valid = true; dirty = false }) cache in
    let d' = record disk { block = update disk.block 5 51 } in
    (bwrite changed cache disk ≡ some (l', d')) × All (IsSound d') l'
bwrite_lem_example =
    bwrite_lem changed cache disk cache-IsSound cache-NoAlias (inl (refl, refl)) refl (omega arith)
