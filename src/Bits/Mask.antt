-- ===== src/Bits/Mask.antt =====
-- Masks: an operand of zeros, an operand equal to the other, and a run of ones.
use Prim.Native.Nat.{differ, bit_or-bitwise}
use native.Mathlib.Nat.{pow-suc, one-le-pow, div-add-mod'}
use zirgen.Prelude.{
  ℕ, zero, suc, ◌+◌, ◌-◌, ◌*◌, ◌/◌, ◌%◌, ◌^◌, ◌<◌, ◌≤◌, ◌≡◌, refl, bit_and, bit_or, bit_xor, arith,
}
use zirgen.Bits.Digits.{bit_and_step, bit_or_step, bit_xor_step}
use zirgen.Bits.Fields.{bit_and-split, bit_or-join, mod_two_pow-suc}

differ-zero : (x : ℕ) → differ x 0 ≡ x
differ-zero zero = refl
differ-zero (suc x) = refl

differ_self : (x : ℕ) → differ x x ≡ 0
differ_self zero = refl
differ_self (suc x) = differ_self x

-- Each of these goes from `a / 2` to `a`; `n` bounds the digits.
module _ where
  and-zero : (n a : ℕ) → a ≤ n → bit_and a 0 ≡ 0
  and-zero n zero h = refl
  and-zero zero (suc a) h = absurd (omega arith)
  and-zero (suc n) (suc a) h =
      omega (arith, bit_and_step (suc a) 0, and-zero n (suc a / 2) (omega arith))

  or-zero : (n a : ℕ) → a ≤ n → bit_or a 0 ≡ a
  or-zero n zero h = refl
  or-zero zero (suc a) h = absurd (omega arith)
  or-zero (suc n) (suc a) h =
      omega (arith, bit_or_step (suc a) 0, or-zero n (suc a / 2) (omega arith))

  xor-zero : (n a : ℕ) → a ≤ n → bit_xor a 0 ≡ a
  xor-zero n zero h = refl
  xor-zero zero (suc a) h = absurd (omega arith)
  xor-zero (suc n) (suc a) h =
      omega (
        arith,
        bit_xor_step (suc a) 0,
        differ-zero (suc a % 2),
        xor-zero n (suc a / 2) (omega arith),
      )

  xor_same : (n a : ℕ) → a ≤ n → bit_xor a a ≡ 0
  xor_same n zero h = refl
  xor_same zero (suc a) h = absurd (omega arith)
  xor_same (suc n) (suc a) h = omega (
    arith,
    bit_xor_step (suc a) (suc a),
    differ_self (suc a % 2),
    xor_same n (suc a / 2) (omega arith),
  )

pub bit_and-zero : (a : ℕ) → bit_and a 0 ≡ 0
bit_and-zero a = and-zero a a (omega arith)

pub bit_or-zero : (a : ℕ) → bit_or a 0 ≡ a
bit_or-zero a = or-zero a a (omega arith)

pub bit_xor-zero : (a : ℕ) → bit_xor a 0 ≡ a
bit_xor-zero a = xor-zero a a (omega arith)

pub bit_xor_self : (a : ℕ) → bit_xor a a ≡ 0
bit_xor_self a = xor_same a a (omega arith)

-- `a & (2 ^ k - 1)` keeps the `k` low bits.
pub bit_and-ones : (k a : ℕ) → bit_and a (2 ^ k - 1) ≡ a % 2 ^ k
bit_and-ones zero a = omega (arith, bit_and-zero a)
bit_and-ones (suc k) a =
    let half : (2 ^ suc k - 1) / 2 ≡ 2 ^ k - 1 = omega (arith, pow-suc 2 k, one-le-pow k 2) in
    let odd : (2 ^ suc k - 1) % 2 ≡ 1 = omega (arith, pow-suc 2 k, one-le-pow k 2) in
    ground (
      arith,
      bit_and_step a (2 ^ suc k - 1),
      half,
      odd,
      mod_two_pow-suc a k,
      bit_and-ones k (a / 2),
    )

-- `a & ((2 ^ k - 1) << j)` keeps the `k` bits from the bit `j` on.
pub bit_and-field : (j k a : ℕ) → bit_and a ((2 ^ k - 1) * 2 ^ j) ≡ a / 2 ^ j % 2 ^ k * 2 ^ j
bit_and-field j k a =
    let high : (2 ^ k - 1) * 2 ^ j / 2 ^ j ≡ 2 ^ k - 1 = grind (arith, one-le-pow j 2) in
    let low : (2 ^ k - 1) * 2 ^ j % 2 ^ j ≡ 0 = grind (arith, one-le-pow j 2) in
    rw (bit_and-split j a ((2 ^ k - 1) * 2 ^ j), high, low, bit_and-ones k, bit_and-zero)
      (omega arith)

pub zero-bit_or : (r : ℕ) → bit_or 0 r ≡ r
zero-bit_or r = bit_or-bitwise 0 r

-- `(q << k) | r` is a sum where `r` fits `k` bits.
pub bit_or-add : (k q r : ℕ) → r < 2 ^ k → bit_or (q * 2 ^ k) r ≡ q * 2 ^ k + r
bit_or-add k q r h = ground (arith, bit_or-join k q 0 0 r, bit_or-zero q, zero-bit_or r)

-- `|` of a word whose `k` low bits are zero and one that fits them.
pub bit_or_low : (k a r : ℕ) → a % 2 ^ k ≡ 0 → r < 2 ^ k → bit_or a r ≡ a + r
bit_or_low k a r h fits =
    let whole : a ≡ a / 2 ^ k * 2 ^ k = omega (arith, div-add-mod' a (2 ^ k)) in
    rw whole (bit_or-add k (a / 2 ^ k) r fits)

-- The same with the fields in the other order.
pub bit_or_high : (k q r : ℕ) → r < 2 ^ k → bit_or r (q * 2 ^ k) ≡ q * 2 ^ k + r
bit_or_high k q r h = ground (arith, bit_or-join k 0 q r 0, bit_or-zero r, zero-bit_or q)
