-- ===== src/Fs/Content/Entries.antt =====
-- The numbers in an indirect block of xv6 modified/fs.c: what a store of one does to the others.
use osn_assignments.Base.{
  ℕ, ◌+◌, ◌*◌, ◌/◌, ◌%◌, ◌^◌, ◌<◌, ◌≡◌, ◌≢◌, refl, ◌∙◌, ap, ◌==◌, if◌then◌else◌, false, update,
  update_self, arith,
}
use osn_assignments.Fs.{Blocks, set_byte}
use osn_assignments.Fs.Content.{entry, set_entry}

set_byte_self :
    (blocks : Blocks) (b i v k : ℕ) → set_byte blocks b i v b k ≡ (if i == k then v else blocks b k)
set_byte_self blocks b i v k =
    ap (λ (f : ℕ → ℕ). f k) (update_self blocks b (update (blocks b) i v))

-- The bytes of the block after the store.
set_entry-bytes :
    (blocks : Blocks) (b i v k : ℕ)
    → set_entry blocks b i v b k ≡ (
        if 4 * i + 3 == k
        then v / 16777216 % 256
        else if 4 * i + 2 == k
        then v / 65536 % 256
        else if 4 * i + 1 == k
        then v / 256 % 256
        else if 4 * i == k
        then v % 256
        else blocks b k)
set_entry-bytes blocks b i v k =
    let b1 = set_byte blocks b (4 * i) (v % 256) in
    let b2 = set_byte b1 b (4 * i + 1) (v / 256 % 256) in
    let b3 = set_byte b2 b (4 * i + 2) (v / 65536 % 256) in
    set_byte_self b3 b (4 * i + 3) (v / 16777216 % 256) k
    ∙ ap (λ n. if 4 * i + 3 == k then v / 16777216 % 256 else n)
        (set_byte_self b2 b (4 * i + 2) (v / 65536 % 256) k
          ∙ ap (λ n. if 4 * i + 2 == k then v / 65536 % 256 else n)
              (set_byte_self b1 b (4 * i + 1) (v / 256 % 256) k
                ∙ ap (λ n. if 4 * i + 1 == k then v / 256 % 256 else n)
                    (set_byte_self blocks b (4 * i) (v % 256) k)))

pub entry-set_entry_self :
    (blocks : Blocks) (b i v : ℕ) → v < 2 ^ 32 → entry (set_entry blocks b i v b) i ≡ v
entry-set_entry_self blocks b i v h =
    let f0 : set_entry blocks b i v b (4 * i) ≡ v % 256 =
      set_entry-bytes blocks b i v (4 * i) ∙ ground arith in
    let f1 : set_entry blocks b i v b (4 * i + 1) ≡ v / 256 % 256 =
      set_entry-bytes blocks b i v (4 * i + 1) ∙ ground arith in
    let f2 : set_entry blocks b i v b (4 * i + 2) ≡ v / 65536 % 256 =
      set_entry-bytes blocks b i v (4 * i + 2) ∙ ground arith in
    let f3 : set_entry blocks b i v b (4 * i + 3) ≡ v / 16777216 % 256 =
      set_entry-bytes blocks b i v (4 * i + 3) ∙ ground arith in
    rw (f0, f1, f2, f3) (omega arith)

pub entry-set_entry_ne :
    (blocks : Blocks) (b i j v : ℕ)
    → i ≢ j
    → entry (set_entry blocks b i v b) j ≡ entry (blocks b) j
entry-set_entry_ne blocks b i j v ne =
    let f0 : set_entry blocks b i v b (4 * j) ≡ blocks b (4 * j) =
      set_entry-bytes blocks b i v (4 * j) ∙ ground (arith, ne) in
    let f1 : set_entry blocks b i v b (4 * j + 1) ≡ blocks b (4 * j + 1) =
      set_entry-bytes blocks b i v (4 * j + 1) ∙ ground (arith, ne) in
    let f2 : set_entry blocks b i v b (4 * j + 2) ≡ blocks b (4 * j + 2) =
      set_entry-bytes blocks b i v (4 * j + 2) ∙ ground (arith, ne) in
    let f3 : set_entry blocks b i v b (4 * j + 3) ≡ blocks b (4 * j + 3) =
      set_entry-bytes blocks b i v (4 * j + 3) ∙ ground (arith, ne) in
    rw (f0, f1, f2, f3) refl

pub set_entry-other : (blocks : Blocks) (b c i v : ℕ) → b ≢ c → set_entry blocks b i v c ≡ blocks c
set_entry-other blocks b c i v ne = let e : (b == c) ≡ false = ground (arith, ne) in rw e refl
