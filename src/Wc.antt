-- ===== src/Wc.antt =====
-- The counter of xv6 modified/wc.c: `wc` on what the calls of read give, one buffer after another. The
-- counts stay below 2 ^ 31.
pub mod Words
use osn_assignments.Base.{
  ℕ, ◌+◌, ◌==◌, if◌then◌else◌, Bool, true, false, List, [], ◌∷◌, Option, none, some,
}
use osn_assignments.Ulib.{strchr}

-- `l`, `w`, `c` and `inword`
pub record Counts : Type 0 where
  pub lines : ℕ
  pub words : ℕ
  pub chars : ℕ
  pub inword : Bool

-- `strchr(" \r\t\n\v", c)`
unfoldable pub is_space : ℕ → Bool
unfolding strchr
is_space c = elim (strchr (b' ' ∷ (13 ∷ (9 ∷ (10 ∷ (11 ∷ []))))) c) [ none ↦ false | some i ↦ true ]

-- A round of the inner loop.
unfoldable pub wc_byte : ℕ → Counts → Counts
unfolding is_space
wc_byte b s =
    let lines = if b == 10 then s.lines + 1 else s.lines in
    if is_space b
    then record s { lines = lines; chars = s.chars + 1; inword = false }
    else if s.inword
    then record s { lines = lines; chars = s.chars + 1 }
    else record s { lines = lines; chars = s.chars + 1; words = s.words + 1; inword = true }

-- The inner loop on a buffer.
unfoldable pub wc_buf : List ℕ → Counts → Counts
unfolding wc_byte
wc_buf [] s = s
wc_buf (b ∷ buf) s = wc_buf buf (wc_byte b s)

-- The loop over the buffers.
unfoldable pub wc_reads : List (List ℕ) → Counts → Counts
unfolding wc_buf
wc_reads [] s = s
wc_reads (buf ∷ bufs) s = wc_reads bufs (wc_buf buf s)

abbrev pub no_counts : Counts
no_counts = record { lines = 0; words = 0; chars = 0; inword = false }
