-- ===== src/Ulib.antt =====
-- Strings and numbers of the user library: strcmp, strchr and atoi of xv6 modified/ulib.c, and
-- printint of printf.c. A C string is the list of its characters before the NUL.
pub mod Numbers
use osn_assignments.Base.{
  ℕ, zero, suc, ◌+◌, ◌-◌, ◌*◌, ◌/◌, ◌%◌, ◌^◌, ◌==◌, ltb, leb, if◌then◌else◌, Bool, true, false,
  ◌&&◌, Option, none, some, List, [], ◌∷◌, ◌++◌,
}
use osn_assignments.Base.Int.{ℤ, pos, sub_ℕ}

-- `strcmp`
unfoldable pub strcmp : List ℕ → List ℕ → ℤ
strcmp [] [] = pos 0
strcmp [] (b ∷ q) = sub_ℕ 0 b
strcmp (a ∷ p) [] = sub_ℕ a 0
strcmp (a ∷ p) (b ∷ q) = let rest = strcmp p q in if a == b then rest else sub_ℕ a b

-- `strchr`: the rest of the string from the character on.
unfoldable pub strchr : List ℕ → ℕ → Option (List ℕ)
strchr [] c = none
strchr (a ∷ s) c = let rest = strchr s c in if a == c then some (a ∷ s) else rest

-- `'0' <= c && c <= '9'`
abbrev pub is_digit : ℕ → Bool
is_digit c = if leb 48 c then leb c 57 else false

-- The loop of `atoi` from the number `n` on, an `int` as its 32-bit pattern.
unfoldable pub atoi_from : ℕ → List ℕ → ℕ
atoi_from n [] = n
atoi_from n (c ∷ s) =
    let rest = atoi_from ((n * 10 + c - 48) % 2 ^ 32) s in if is_digit c then rest else n

unfoldable pub atoi : List ℕ → ℕ
unfolding atoi_from
atoi s = atoi_from 0 s

-- `digits[d]`
abbrev pub digit : ℕ → ℕ
digit d = if ltb d 10 then 48 + d else 55 + d

-- The loop that fills `buf`, for at most `room` characters.
unfoldable pub fill_buf : ℕ → ℕ → ℕ → List ℕ
fill_buf zero base x = []
fill_buf (suc room) base x =
    let rest = fill_buf room base (x / base) in
    digit (x % base) ∷ (if x / base == 0 then [] else rest)

-- `while(--i >= 0) putc(fd, buf[i]);`
unfoldable pub put_back : List ℕ → List ℕ
put_back [] = []
put_back (c ∷ buf) = put_back buf ++ (c ∷ [])

-- `printint` of the `int` with the pattern `xx`: what it prints. `buf` has 16 characters, which is
-- enough for any base from 10 on and a sign.
unfoldable pub printint : ℕ → ℕ → Bool → List ℕ
unfolding fill_buf put_back
printint xx base sgn =
    if sgn && leb (2 ^ 31) xx
    then put_back (fill_buf 16 base (2 ^ 32 - xx) ++ (b'-' ∷ []))
    else put_back (fill_buf 16 base xx)
