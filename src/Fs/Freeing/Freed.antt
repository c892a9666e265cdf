-- ===== src/Fs/Freeing/Freed.antt =====
-- itrunc of xv6 modified/fs.c frees the blocks of the inode, and no others.
use osn_assignments.Base.{
  ℕ, ◌/◌, ◌%◌, ◌<◌, ◌≡◌, ◌≢◌, refl, sym, ◌∙◌, ap, ◌==◌, Bool, Bool-cases, Option-cases, true, false,
  inl, inr, if◌then◌else◌, Option, none, some, List, [], ◌∷◌, ◌++◌, take, replicate, update,
  update_ne, arith,
}
use osn_assignments.Fs.{Superblock, Blocks, bblock, bpb, set_byte, clear_bit, bfree}
use osn_assignments.Fs.Bits.{bit-clear_bit_self, bit-clear_bit_ne}
use osn_assignments.Fs.Scan.{used}
use osn_assignments.Fs.Bitmap.{used-set_byte, bfree-set}
use osn_assignments.Fs.Icache.{Dinode}
use osn_assignments.Fs.Content.{addr}
use osn_assignments.Fs.Freeing.{free_all, numbers_in, free_table, free_indirect, itrunc}

-- Whether the list has the number.
abbrev pub listed : ℕ → List ℕ → Bool
listed y [] = false
listed y (x ∷ l) = if x == y then true else listed y l

-- The numbers that are not 0 are of blocks in use in the file system, none twice.
abbrev pub IsOwned : Superblock → Blocks → List ℕ → Type 0
IsOwned sb blocks [] = Unit
IsOwned sb blocks (x ∷ l) =
    (x ≢ 0 → (x < sb.size) × (used sb blocks x ≡ 1) × (listed x l ≡ false)) × IsOwned sb blocks l

-- The blocks of the list are free now, and no other block's bit has changed; only blocks of the map
-- are written.
pub record Frees (sb : Superblock) (blocks blocks' : Blocks) (l : List ℕ) : Type 0 where
  pub bits : (y : ℕ) → y ≢ 0 → used sb blocks' y ≡ (if listed y l then 0 else used sb blocks y)
  pub others : (c : ℕ) → ((y : ℕ) → y < sb.size → bblock y sb ≢ c) → blocks' c ≡ blocks c

bfree-Frees :
    (sb : Superblock) (blocks : Blocks) (x : ℕ)
    → x < sb.size
    → used sb blocks x ≡ 1
    → (blocks' : Blocks) × (bfree sb blocks x ≡ some blocks') × Frees sb blocks blocks' (x ∷ [])
bfree-Frees sb blocks x lt u =
    let byte = blocks (bblock x sb) (x % bpb / 8) in
    let new = set_byte blocks (bblock x sb) (x % bpb / 8) (clear_bit (x % 8) byte) in
    (
      new,
      bfree-set sb blocks x u,
      record {
        bits = λ y ne.
            used-set_byte sb blocks x y (clear_bit (x % 8) byte)
              (λ j n. bit-clear_bit_ne (x % 8) j byte n)
            ∙ ap (λ b. if x == y then b else used sb blocks y) (bit-clear_bit_self (x % 8) byte)
            ∙ same (x == y) (used sb blocks y);
        others = λ c h.
            update_ne blocks (bblock x sb) c
              (update (blocks (bblock x sb)) (x % bpb / 8) (clear_bit (x % 8) byte)) (h x lt);
      },
    )
  where
    same :
        (b : Bool) (n : ℕ) → (if b then 0 else n) ≡ (if (if b then true else false) then 0 else n)
    same true n = refl
    same false n = refl

IsOwned-Frees :
    (sb : Superblock) (blocks blocks' : Blocks) (x : ℕ) (l : List ℕ)
    → Frees sb blocks blocks' (x ∷ [])
    → listed x l ≡ false
    → IsOwned sb blocks l
    → IsOwned sb blocks' l
IsOwned-Frees sb blocks blocks' x [] f n o = tt
IsOwned-Frees sb blocks blocks' x (z ∷ l) f n o =
    let ne : (z == x) ≡ false = ground (arith, n) in
    let n' : listed x l ≡ false = ground (arith, n) in
    (
      λ nz.
          let (a, b, c) = o.0 nz in
          let e : (x == z) ≡ false = ground (arith, ne) in (a, f.bits z nz ∙ rw e b, c),
      IsOwned-Frees sb blocks blocks' x l f n' o.1,
    )

pub free_all-Frees :
    (sb : Superblock) (blocks : Blocks) (l : List ℕ)
    → IsOwned sb blocks l
    → (blocks' : Blocks) × (free_all sb blocks l ≡ some blocks') × Frees sb blocks blocks' l
unfolding free_all
free_all-Frees sb blocks [] o = (blocks, refl, record { bits = λ y ne. refl; others = λ c h. refl })
free_all-Frees sb blocks (x ∷ l) o = elim (Bool-cases (x == 0)) [
  | inl e ↦
      let (blocks', q, f) = free_all-Frees sb blocks l o.1 in
      (
        blocks',
        rw (e, free_all) q,
        record {
          bits =
              λ y ne. let d : (x == y) ≡ false = ground (arith, e, ne) in f.bits y ne ∙ rw d refl;
          others = f.others;
        },
      )
  | inr e ↦
      let nz : x ≢ 0 = ground (arith, e) in
      let (lt, u, n) = o.0 nz in
      let (now, p, g) = bfree-Frees sb blocks x lt u in
      let (blocks', q, f) = free_all-Frees sb now l (IsOwned-Frees sb blocks now x l g n o.1) in
      (
        blocks',
        rw (e, free_all, p) q,
        record {
          bits = λ y ne.
              f.bits y ne
              ∙ ap (λ k. if listed y l then 0 else k) (g.bits y ne)
              ∙ both (x == y) (listed y l) (used sb blocks y);
          others = λ c h. f.others c h ∙ g.others c h;
        },
      )
]
  where
    both :
        (a b : Bool) (k : ℕ)
        → (if b then 0 else if (if a then true else false) then 0 else k)
          ≡ (if (if a then true else b) then 0 else k)
    both true true k = refl
    both true false k = refl
    both false true k = refl
    both false false k = refl

free_all-append :
    (sb : Superblock) (blocks b1 : Blocks) (k l : List ℕ)
    → free_all sb blocks k ≡ some b1
    → free_all sb blocks (k ++ l) ≡ free_all sb b1 l
unfolding free_all
free_all-append sb blocks b1 [] l h = let e : blocks ≡ b1 = cc in ap (λ b. free_all sb b l) e
free_all-append sb blocks b1 (x ∷ k) l h = elim (Bool-cases (x == 0)) [
  | inl e ↦ rw (e, free_all) (free_all-append sb blocks b1 k l (rw (e, free_all) at h))
  | inr e ↦ elim (Option-cases (bfree sb blocks x)) [
    | inl n ↦ absurd (clash (rw (e, free_all, n) at h))
    | inr (b, n) ↦ rw (e, free_all, n) (free_all-append sb b b1 k l (rw (e, free_all, n) at h))
  ]
]
  where
    clash : none ≡ some b1 → ⊥
    clash q = cc

free_all-panic :
    (sb : Superblock) (blocks : Blocks) (k l : List ℕ)
    → free_all sb blocks k ≡ none
    → free_all sb blocks (k ++ l) ≡ none
unfolding free_all
free_all-panic sb blocks [] l h = cc
free_all-panic sb blocks (x ∷ k) l h = elim (Bool-cases (x == 0)) [
  | inl e ↦ rw (e, free_all) (free_all-panic sb blocks k l (rw (e, free_all) at h))
  | inr e ↦ elim (Option-cases (bfree sb blocks x)) [
    | inl n ↦ rw (e, free_all, n) refl
    | inr (b, n) ↦ rw (e, free_all, n) (free_all-panic sb b k l (rw (e, free_all, n) at h))
  ]
]

listed-front : (x : ℕ) (k l : List ℕ) → listed x (k ++ l) ≡ false → listed x k ≡ false
listed-front x [] l h = refl
listed-front x (y ∷ k) l h = elim (Bool-cases (y == x)) [
  | inl e ↦ ground (arith, e, h)
  | inr e ↦ rw e (listed-front x k l (rw e at h))
]

IsOwned-front :
    (sb : Superblock) (blocks : Blocks) (k l : List ℕ)
    → IsOwned sb blocks (k ++ l)
    → IsOwned sb blocks k
IsOwned-front sb blocks [] l o = tt
IsOwned-front sb blocks (x ∷ k) l o =
    (λ nz. let (a, b, c) = o.0 nz in (a, b, listed-front x k l c), IsOwned-front sb blocks k l o.1)

-- The numbers of all blocks of an inode: the direct ones, those in the indirect block, and that one.
abbrev pub further : Blocks → ℕ → List ℕ
further blocks ind = if ind == 0 then [] else numbers_in (blocks ind) ++ (ind ∷ [])

abbrev pub all_blocks : Dinode → Blocks → List ℕ
all_blocks ip blocks = take 12 ip.addrs ++ further blocks (addr ip 12)

free_all-one :
    (sb : Superblock) (blocks : Blocks) (x : ℕ)
    → (x == 0) ≡ false
    → free_all sb blocks (x ∷ []) ≡ bfree sb blocks x
unfolding free_all
free_all-one sb blocks x e = elim (Option-cases (bfree sb blocks x)) [
  | inl n ↦ rw (e, free_all, n) refl
  | inr (b, n) ↦ rw (e, free_all, n) refl
]

free_table-free_all :
    (sb : Superblock) (blocks : Blocks) (l : List ℕ) (ind : ℕ)
    → (ind == 0) ≡ false
    → free_table sb blocks l ind ≡ free_all sb blocks (l ++ (ind ∷ []))
unfolding free_table
free_table-free_all sb blocks l ind e = elim (Option-cases (free_all sb blocks l)) [
  | inl n ↦ rw (n, free_table) (sym (free_all-panic sb blocks l (ind ∷ []) n))
  | inr (b, n) ↦
      rw (n, free_table)
        (sym (free_all-append sb blocks b l (ind ∷ []) n ∙ free_all-one sb b ind e))
]

free_indirect-further :
    (sb : Superblock) (blocks : Blocks) (ind : ℕ)
    → free_indirect sb blocks ind ≡ free_all sb blocks (further blocks ind)
unfolding free_indirect free_all
free_indirect-further sb blocks ind = go (ind == 0) refl
  where
    go :
        (t : Bool)
        → (ind == 0) ≡ t
        → elim t as (λ t. Option Blocks) [
          | true ↦ some blocks
          | false ↦ free_table sb blocks (numbers_in (blocks ind)) ind
        ]
          ≡ free_all sb blocks (if t then [] else numbers_in (blocks ind) ++ (ind ∷ []))
    go true e = refl
    go false e = free_table-free_all sb blocks (numbers_in (blocks ind)) ind e

-- Where the blocks of an inode are in use and none stands twice in it, and the indirect one is none of
-- the map's: itrunc does not panic; it frees exactly the inode's blocks, direct, indirect and the
-- indirect block itself, writes to no block outside of the map, and leaves the inode without blocks
-- and of size 0.
pub itrunc_lem :
    (sb : Superblock) (ip : Dinode) (blocks : Blocks)
    → IsOwned sb blocks (all_blocks ip blocks)
    → ((y : ℕ) → y < sb.size → bblock y sb ≢ addr ip 12)
    → (blocks' : Blocks) × (itrunc sb ip blocks
        ≡ some (record ip { addrs = replicate 13 0; size = 0 }, blocks'))
      × Frees sb blocks blocks' (all_blocks ip blocks)
unfolding itrunc
itrunc_lem sb ip blocks o h =
    let k = take 12 ip.addrs in
    let ind = addr ip 12 in
    let (blocks', q, f) = free_all-Frees sb blocks (all_blocks ip blocks) o in
    let (b1, p, g) =
      free_all-Frees sb blocks k (IsOwned-front sb blocks k (further blocks ind) o) in
    let same : further b1 ind ≡ further blocks ind =
      ap (λ (d : ℕ → ℕ). if ind == 0 then [] else numbers_in d ++ (ind ∷ [])) (g.others ind h) in
    let rest : free_all sb b1 (further blocks ind) ≡ some blocks' =
      sym (free_all-append sb blocks b1 k (further blocks ind) p) ∙ q in
    let fi : free_indirect sb b1 ind ≡ some blocks' =
      free_indirect-further sb b1 ind ∙ ap (free_all sb b1) same ∙ rest in
    (blocks', rw (p, itrunc, fi) refl, f)
