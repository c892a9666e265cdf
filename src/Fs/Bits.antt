-- ===== src/Fs/Bits.antt =====
-- The bits of a byte, as balloc and bfree of xv6 modified/fs.c test, set and clear them.
use osn_assignments.Base.{
  ℕ, zero, suc, ◌+◌, ◌-◌, ◌*◌, ◌/◌, ◌%◌, ◌≡◌, ◌≢◌, refl, ap, ◌==◌, if◌then◌else◌, arith,
}
use osn_assignments.Fs.{bit, set_bit, clear_bit}

pub bit-set_bit_self : (k x : ℕ) → bit k (set_bit k x) ≡ 1
unfolding bit set_bit
bit-set_bit_self zero x = ground arith
bit-set_bit_self (suc k) x =
    let h : (2 * set_bit k (x / 2) + x % 2) / 2 ≡ set_bit k (x / 2) = omega arith in
    rw h (bit-set_bit_self k (x / 2))

pub bit-set_bit_ne : (k j x : ℕ) → k ≢ j → bit j (set_bit k x) ≡ bit j x
unfolding bit set_bit
bit-set_bit_ne zero zero x h = absurd (h refl)
bit-set_bit_ne zero (suc j) x h =
    let e : (if x % 2 == 0 then x + 1 else x) / 2 ≡ x / 2 = ground arith in rw e refl
bit-set_bit_ne (suc k) zero x h = omega arith
bit-set_bit_ne (suc k) (suc j) x h =
    let e : (2 * set_bit k (x / 2) + x % 2) / 2 ≡ set_bit k (x / 2) = omega arith in
    rw e (bit-set_bit_ne k j (x / 2) (λ q. h (ap suc q)))

pub bit-clear_bit_self : (k x : ℕ) → bit k (clear_bit k x) ≡ 0
unfolding bit clear_bit
bit-clear_bit_self zero x = omega arith
bit-clear_bit_self (suc k) x =
    let h : (2 * clear_bit k (x / 2) + x % 2) / 2 ≡ clear_bit k (x / 2) = omega arith in
    rw h (bit-clear_bit_self k (x / 2))

pub bit-clear_bit_ne : (k j x : ℕ) → k ≢ j → bit j (clear_bit k x) ≡ bit j x
unfolding bit clear_bit
bit-clear_bit_ne zero zero x h = absurd (h refl)
bit-clear_bit_ne zero (suc j) x h = let e : (x - x % 2) / 2 ≡ x / 2 = omega arith in rw e refl
bit-clear_bit_ne (suc k) zero x h = omega arith
bit-clear_bit_ne (suc k) (suc j) x h =
    let e : (2 * clear_bit k (x / 2) + x % 2) / 2 ≡ clear_bit k (x / 2) = omega arith in
    rw e (bit-clear_bit_ne k j (x / 2) (λ q. h (ap suc q)))

-- Clearing a bit that was just set gives the byte back, if the bit was clear.
pub clear_bit-set_bit : (k x : ℕ) → bit k x ≡ 0 → clear_bit k (set_bit k x) ≡ x
unfolding bit set_bit clear_bit
clear_bit-set_bit zero x h = ground arith
clear_bit-set_bit (suc k) x h =
    let e : (2 * set_bit k (x / 2) + x % 2) / 2 ≡ set_bit k (x / 2) = omega arith in
    rw e (omega (arith, clear_bit-set_bit k (x / 2) h))
