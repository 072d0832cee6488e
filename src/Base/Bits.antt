-- ===== src/Base/Bits.antt =====
-- Bits of a number by `/` and `%`, and runs of set bits.
use Prim.Native.Nat.{ℕ, zero, suc, ◌+◌, ◌-◌, ◌*◌, ◌/◌, ◌%◌, ◌^◌, ◌<◌}
use mathlib.Core.Path.{◌≡◌}
use mathlib.Core.Bool.{Bool, true, ◌&&◌}
use native.Mathlib.Omega.{arith}
use native.Mathlib.Nat.{
  add-zero, pow-zero, pow-suc, mul_comm, div-div-eq-div-mul, mod_def, mod-lt, mul-div-le,
}
use viy.Base.Tests.{◌==◌}

pub pow-add : (a b : ℕ) → 2 ^ (a + b) ≡ 2 ^ a * 2 ^ b
pow-add a zero = rw add-zero (omega (arith, pow-zero 2))
pow-add a (suc b) =
    let e : a + suc b ≡ suc (a + b) = omega arith in
    rw (e, pow-suc 2 (a + b), pow-suc 2 b, pow-add a b) (omega arith)

pub pow-pos : (k : ℕ) → 0 < 2 ^ k
pow-pos zero = omega arith
pow-pos (suc k) = rw (pow-suc 2 k) (omega (arith, pow-pos k))

-- (x & (1u << i)) != 0
abbrev pub test_bit : ℕ → ℕ → Bool
test_bit x i = x / 2 ^ i % 2 == 1

pub test_bit_shift : (x c i : ℕ) → test_bit (x / 2 ^ c) i ≡ test_bit x (c + i)
test_bit_shift x c i = rw (div-div-eq-div-mul x (2 ^ c) (2 ^ i), pow-add c i)

pub test_bit_half : (x i : ℕ) → test_bit (x / 2) i ≡ test_bit x (suc i)
test_bit_half x i = rw (pow-suc 2 i, div-div-eq-div-mul x 2 (2 ^ i), mul_comm 2 (2 ^ i))

pub mod_double : (x n : ℕ) → 0 < n → x % (n * 2) ≡ 2 * (x / 2 % n) + x % 2
mod_double x n h =
    rw (mul_comm n 2, mod_def x (2 * n), mod_def (x / 2) n, ← div-div-eq-div-mul x 2 n)
      (omega (arith, mul-div-le (x / 2) n))

-- The lowest k bits are all set exactly if each of them is.
unfoldable pub ones : ℕ → ℕ → Bool
ones zero x = true
ones (suc k) x = x % 2 == 1 && ones k (x / 2)

pub low_bits_full : (k x : ℕ) → (x % 2 ^ k == 2 ^ k - 1) ≡ ones k x
unfolding ones
low_bits_full zero x = ground arith
low_bits_full (suc k) x =
    rw (pow-suc 2 k, mod_double x (2 ^ k) (pow-pos k))
      (ground (arith, low_bits_full k (x / 2), pow-pos k, mod-lt (x / 2) (pow-pos k)))

pub pow-suc-div : (x c : ℕ) → x / 2 ^ c / 2 ≡ x / 2 ^ suc c
pow-suc-div x c = rw (div-div-eq-div-mul x (2 ^ c) 2, pow-suc 2 c)
