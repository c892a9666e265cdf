-- ===== src/Tests/Contents.antt =====
-- The contents of an inode.
use osn_assignments.Base.{
  true, ℕ, zero, suc, ◌+◌, ◌-◌, ◌/◌, ◌^◌, ◌<◌, ◌≤◌, ◌≡◌, ◌≢◌, ◌⊎◌, refl, ◌∙◌, ◌==◌, ltb, min,
  if◌then◌else◌, Bool-cases, inl, inr, Option, some, List, [], ◌∷◌, ◌++◌, replicate, get_or, tab,
  arith,
}
use osn_assignments.File.{File, zero_file, fd_inode}
use osn_assignments.Fs.Transfer.{filewrite}
use osn_assignments.Fs.Transfer.Chunks.{Chunked, filewrite_lem}
use osn_assignments.Fs.{
  Superblock, Blocks, bit, set_bit, set_byte, bzero, balloc, balloc_from, scan_bits,
}
use osn_assignments.Fs.Icache.{Dinode}
use osn_assignments.Fs.Content.{
  bmap, with_block, put_bytes, readi, writei, writei_loop, refused, ends,
}
use osn_assignments.Fs.Content.Reading.{home, byte_at, IsThere, readi_lem}
use osn_assignments.Fs.Content.Writing.{IsApart}
use osn_assignments.Fs.Content.Outcomes.{WriteiSpec, writei-WriteiSpec}
use osn_assignments.Fs.Content.Growing.{IsOwn, IsSafe}
use osn_assignments.Fs.Content.Roundtrip.{readi-writei}
use osn_assignments.Fs.Freeing.{itrunc}
use osn_assignments.Fs.Freeing.Freed.{IsOwned, Frees, all_blocks, itrunc_lem}
use osn_assignments.Fs.Directory.{dirlookup}
use osn_assignments.Fs.Directory.Lookup.{Lookup, dirlookup-Lookup}

abbrev super : Superblock
super = record {
  size = 200;
  nblocks = 16;
  ninodes = 8;
  nlog = 0;
  logstart = 2;
  inodestart = 2;
  bmapstart = 3;
}

-- A directory with the entries "." for 1 and "a" for 7 in block 100.
abbrev node : Dinode
node = record { kind = 1; major = 0; minor = 0; nlink = 1; size = 32; addrs = 100 ∷ replicate 12 0 }

abbrev image : Blocks
image b i =
    if b == 100
    then (if i == 0
        then 1
        else if i == 2
        then b'.'
        else if i == 16
        then 7
        else if i == 18
        then b'a'
        else 0)
    else 0

node-IsThere : (size : ℕ) → size ≤ 512 → IsThere node image 0 size
node-IsThere size le k a b = let z : k ≡ 0 = omega arith in rw z (omega arith, λ q. cc)

zeros : (n i : ℕ) → get_or {A = ℕ} (replicate n 0) i 0 ≡ 0
zeros zero i = refl
zeros (suc n) zero = refl
zeros (suc n) (suc i) = zeros n i

home_behind : (k : ℕ) → home node image (suc k) ≡ 0
home_behind k = elim (Bool-cases (ltb (suc k) 12)) [ inl e ↦ rw e (zeros 12 k) | inr e ↦ rw e refl ]

node-IsApart : IsApart node image
node-IsApart = record { once = once; no_table = λ k lt ne. ne }
  where
    clash : ◌≢◌ {A = ℕ} 100 0
    clash = λ q. cc

    once :
        (j k : ℕ)
        → j < 140
        → k < 140
        → home node image j ≢ 0
        → home node image j ≡ home node image k
        → j ≡ k
    once zero zero a b ne q = refl
    once zero (suc k) a b ne q = absurd (clash (q ∙ home_behind k))
    once (suc j) k a b ne q = absurd (ne (home_behind j))

readi_lem_example :
    (((32 < 16) ⊎ (2 ^ 32 ≤ 16 + 40)) × (readi 1 super node image 16 40 ≡ refused))
    ⊎ ((16 ≤ 32)
        × (16 + 40 < 2 ^ 32)
        × (readi 1 super node image 16 40
            ≡ ends (some (tab (byte_at node image) 16 (min 40 (32 - 16)), node, image))))
readi_lem_example =
    readi_lem 1 super node image 16 40 (omega arith) (omega arith) (omega arith)
      (node-IsThere 32 (omega arith))

abbrev text : List ℕ
text = b'x' ∷ (b'y' ∷ [])

-- A file of one block, 100, which is full, in a file system whose map, block 3, has the bits of the
-- blocks 0, 3 and 100.
abbrev file : Dinode
file = record {
  kind = 2;
  major = 0;
  minor = 0;
  nlink = 1;
  size = 512;
  addrs = 100 ∷ replicate 12 0;
}

abbrev used_image : Blocks
used_image b i = if b == 3 then (if i == 0 then 9 else if i == 12 then 16 else 0) else 0

file_behind : (b : Blocks) (k : ℕ) → home file b (suc k) ≡ 0
file_behind b k = elim (Bool-cases (ltb (suc k) 12)) [
  | inl e ↦ rw e (zeros 12 k)
  | inr e ↦ rw e refl
]

block_100-IsOwn : IsOwn super used_image 100
unfolding bit
block_100-IsOwn = record {
  in_range = omega arith;
  in_use = λ q. cc;
  no_map = λ y lt e. omega arith;
}

file-IsSafe : IsSafe super file used_image
unfolding bit
file-IsSafe = record {
  numbers = refl;
  apart = record { once = once; no_table = λ k lt ne. ne };
  homes = homes;
  table = λ z. absurd (z refl);
  map = λ y lt. let e : y / 4096 ≡ 0 = omega arith in rw e (omega arith, λ q. cc);
  boot = λ q. cc;
  words = omega arith;
}
  where
    homes :
        (k : ℕ)
        → k < 140
        → home file used_image k ≢ 0
        → IsOwn super used_image (home file used_image k)
    homes zero lt z = block_100-IsOwn
    homes (suc k) lt z = absurd (z (file_behind used_image k))

    hundred : ◌≢◌ {A = ℕ} 100 0
    hundred q = cc

    once :
        (j k : ℕ)
        → j < 140
        → k < 140
        → home file used_image j ≢ 0
        → home file used_image j ≡ home file used_image k
        → j ≡ k
    once zero zero a b ne q = refl
    once zero (suc k) a b ne q = absurd (hundred (q ∙ file_behind used_image k))
    once (suc j) k a b ne q = absurd (ne (file_behind used_image j))

-- The file and the blocks after two bytes were added behind its end, in block 1.
abbrev longer : Dinode
longer = record file { size = 514; addrs = 100 ∷ (1 ∷ replicate 11 0) }

abbrev longer_image : Blocks
longer_image = set_byte (set_byte (bzero (set_byte used_image 3 0 11) 1) 1 0 b'x') 1 1 b'y'

readi-writei_example :
    readi 2 super longer longer_image 512 2 ≡ ends (some (text, longer, longer_image))
unfolding writei writei_loop bmap with_block put_bytes balloc balloc_from scan_bits bit set_bit
readi-writei_example =
    readi-writei 2 super file longer used_image longer_image 512 text (omega arith) (omega arith)
      (omega arith) file-IsSafe refl

dirlookup-Lookup_example :
    (r : Option (ℕ × ℕ)) × (dirlookup 3 1 super (b'a' ∷ []) node image ≡ some r)
    × Lookup node image (b'a' ∷ []) 0 r
dirlookup-Lookup_example =
    dirlookup-Lookup node image refl (omega arith) (node-IsThere 32 (omega arith)) refl 1 super
      (b'a' ∷ []) 3 (omega arith)

abbrev node33 : Dinode
node33 = record node { size = 33 }

writei-WriteiSpec_example : WriteiSpec 2 super file used_image 512 text
writei-WriteiSpec_example =
    writei-WriteiSpec 2 super file used_image 512 text (omega arith) (omega arith) (omega arith)
      (omega arith) file-IsSafe

abbrev opened : File
opened = record zero_file { kind = fd_inode; ref = 1; writable = true; off = 512 }

filewrite_lem_example :
    Chunked super file used_image 512 text (filewrite 2 super opened file used_image text)
filewrite_lem_example =
    filewrite_lem 2 super opened file used_image text (omega arith) refl refl (omega arith)
      (omega arith) (omega arith) (omega arith) file-IsSafe

abbrev marked : Blocks
marked b i = if b == 3 then (if i == 12 then 16 else 0) else 0

itrunc_lem_example :
    (blocks' : Blocks) × (itrunc super node marked
      ≡ some (record node { addrs = replicate 13 0; size = 0 }, blocks'))
    × Frees super marked blocks' (all_blocks node marked)
unfolding bit
itrunc_lem_example =
    itrunc_lem super node marked (λ nz. (omega arith, refl, refl), empties 11) (λ y lt. omega arith)
  where
    empties : (n : ℕ) → IsOwned super marked (replicate n 0 ++ [])
    empties zero = tt
    empties (suc n) = (λ nz. absurd (nz refl), empties n)
