-- ===== src/Str.antt =====
-- The byte and string functions of xv6 modified/string.c over a memory of bytes. A range that a
-- function touches does not wrap round the end of the 32-bit addresses.
pub mod Move
pub mod Copy
use osn_assignments.Base.{
  ℕ, zero, suc, ◌+◌, ◌-◌, ◌*◌, ◌/◌, ◌%◌, ◌^◌, ◌==◌, ltb, if◌then◌else◌, Bool, true, false, ◌&&◌,
  Option, none, some, update,
}
use osn_assignments.Base.Int.{ℤ, pos, sub_ℕ}

-- `stosb` of x86.h: `cnt` bytes of value `c` from `dst` up.
unfoldable pub stosb : ℕ → ℕ → ℕ → (ℕ → ℕ) → ℕ → ℕ
stosb dst c zero m = m
stosb dst c (suc cnt) m = stosb (dst + 1) c cnt (update m dst (c % 256))

-- A 32-bit store, low byte first.
abbrev pub store_word : ℕ → ℕ → (ℕ → ℕ) → ℕ → ℕ
store_word a w m =
    update
      (update (update (update m a (w % 256)) (a + 1) (w / 256 % 256)) (a + 2) (w / 65536 % 256))
      (a + 3) (w / 16777216 % 256)

-- `stosl` of x86.h: `cnt` words from `dst` up.
unfoldable pub stosl : ℕ → ℕ → ℕ → (ℕ → ℕ) → ℕ → ℕ
stosl dst w zero m = m
stosl dst w (suc cnt) m = stosl (dst + 4) w cnt (store_word dst w m)

-- `memset`; `c` is an `int` as its 32-bit pattern, and the fields of the word do not overlap.
unfoldable pub memset : ℕ → ℕ → ℕ → (ℕ → ℕ) → ℕ → ℕ
unfolding stosb stosl
memset dst c n m =
    if (dst % 4 == 0) && (n % 4 == 0)
    then (let b = c % 256 in stosl dst (b * 16777216 + b * 65536 + b * 256 + b) (n / 4) m)
    else stosb dst c n m

-- `memcmp`
unfoldable pub memcmp : ℕ → ℕ → ℕ → (ℕ → ℕ) → ℤ
memcmp s1 s2 zero m = pos 0
memcmp s1 s2 (suc n) m =
    let rest = memcmp (s1 + 1) (s2 + 1) n m in if m s1 == m s2 then rest else sub_ℕ (m s1) (m s2)

-- `while(n-- > 0) *--d = *--s;` with `d` and `s` the starts of what is left.
unfoldable pub move_down : ℕ → ℕ → ℕ → (ℕ → ℕ) → ℕ → ℕ
move_down d s zero m = m
move_down d s (suc n) m = move_down d s n (update m (d + n) (m (s + n)))

-- `while(n-- > 0) *d++ = *s++;`
unfoldable pub move_up : ℕ → ℕ → ℕ → (ℕ → ℕ) → ℕ → ℕ
move_up d s zero m = m
move_up d s (suc n) m = move_up (d + 1) (s + 1) n (update m d (m s))

-- `memmove`, and `memcpy`, which calls it.
unfoldable pub memmove : ℕ → ℕ → ℕ → (ℕ → ℕ) → ℕ → ℕ
unfolding move_down move_up
memmove dst src n m =
    if ltb src dst && ltb dst (src + n) then move_down dst src n m else move_up dst src n m

-- `strncmp`
unfoldable pub strncmp : ℕ → ℕ → ℕ → (ℕ → ℕ) → ℤ
strncmp p q zero m = pos 0
strncmp p q (suc n) m =
    let rest = strncmp (p + 1) (q + 1) n m in
    if m p == 0 then sub_ℕ (m p) (m q) else if m p == m q then rest else sub_ℕ (m p) (m q)

-- `while(n-- > 0) *s++ = 0;`
unfoldable pub zero_fill : ℕ → ℕ → (ℕ → ℕ) → ℕ → ℕ
zero_fill s zero m = m
zero_fill s (suc n) m = zero_fill (s + 1) n (update m s 0)

-- `strncpy`, for an `n` that is not negative; with a negative one it does nothing, as with 0.
unfoldable pub strncpy : ℕ → ℕ → ℕ → (ℕ → ℕ) → ℕ → ℕ
unfolding zero_fill
strncpy s t zero m = m
strncpy s t (suc n) m =
    let rest = strncpy (s + 1) (t + 1) n (update m s (m t)) in
    if m t == 0 then zero_fill (s + 1) n (update m s (m t)) else rest

-- The loop of safestrcpy with `n` more bytes to copy, and the NUL behind it.
unfoldable pub safe_copy : ℕ → ℕ → ℕ → (ℕ → ℕ) → ℕ → ℕ
safe_copy s t zero m = update m s 0
safe_copy s t (suc n) m =
    let rest = safe_copy (s + 1) (t + 1) n (update m s (m t)) in
    if m t == 0 then update (update m s (m t)) (s + 1) 0 else rest

-- `safestrcpy`, for an `n` that is not negative.
unfoldable pub safestrcpy : ℕ → ℕ → ℕ → (ℕ → ℕ) → ℕ → ℕ
unfolding safe_copy
safestrcpy s t zero m = m
safestrcpy s t (suc n) m = safe_copy s t n m

-- `strlen` over at most `fuel` bytes; `none` if there is no NUL among them.
unfoldable pub strlen_from : ℕ → ℕ → ℕ → (ℕ → ℕ) → Option ℕ
strlen_from zero s n m = none
strlen_from (suc fuel) s n m =
    let rest = strlen_from fuel s (n + 1) m in if m (s + n) == 0 then some n else rest

unfoldable pub strlen : ℕ → ℕ → (ℕ → ℕ) → Option ℕ
unfolding strlen_from
strlen fuel s m = strlen_from fuel s 0 m
