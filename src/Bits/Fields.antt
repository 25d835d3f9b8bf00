-- ===== src/Bits/Fields.antt =====
-- An operation on binary digits acts on the fields of its words separately.
use Prim.Native.Nat.{differ}
use native.Mathlib.Nat.{pow-suc, pow-succ', div-div-eq-div-mul, div-add-mod}
use zirgen.Prelude.{
  ℕ, zero, suc, ◌+◌, ◌*◌, ◌/◌, ◌%◌, ◌^◌, ◌<◌, ◌≡◌, refl, ap, sym, min, max, bit_and, bit_or,
  bit_xor, arith,
}
use zirgen.Bits.Digits.{bit_and_step, bit_or_step, bit_xor_step}

div_two_pow-suc : (a k : ℕ) → a / 2 ^ suc k ≡ a / 2 / 2 ^ k
div_two_pow-suc a k = rw pow-succ' (sym (div-div-eq-div-mul a 2 (2 ^ k)))

pub mod_two_pow-suc : (a k : ℕ) → a % 2 ^ suc k ≡ a / 2 % 2 ^ k * 2 + a % 2
mod_two_pow-suc a k = omega (
  arith,
  pow-suc 2 k,
  div_two_pow-suc a k,
  div-add-mod a (2 ^ suc k),
  div-add-mod (a / 2) (2 ^ k),
  ap (λ (t : ℕ). a / 2 / 2 ^ k * t) (pow-suc 2 k),
  ap (λ (t : ℕ). t * 2 ^ suc k) (div_two_pow-suc a k),
)

pub div-pack : (x r m : ℕ) → r < m → (x * m + r) / m ≡ x
div-pack x r m h = grind arith

pub mod-pack : (x r m : ℕ) → r < m → (x * m + r) % m ≡ r
mod-pack x r m h = grind arith

module _ (op : ℕ → ℕ → ℕ) (f : ℕ → ℕ → ℕ)
    (step : (a b : ℕ) → op a b ≡ op (a / 2) (b / 2) * 2 + f (a % 2) (b % 2))
    (zeros : op 0 0 ≡ 0) where
  op_pair : (x y r s : ℕ) → r < 2 → s < 2 → op (x * 2 + r) (y * 2 + s) ≡ op x y * 2 + f r s
  op_pair x y r s p q =
      let x' : (x * 2 + r) / 2 ≡ x = omega arith in
      let y' : (y * 2 + s) / 2 ≡ y = omega arith in
      let r' : (x * 2 + r) % 2 ≡ r = omega arith in
      let s' : (y * 2 + s) % 2 ≡ s = omega arith in
      rw (x', y', r', s') at (step (x * 2 + r) (y * 2 + s))

  split : (k a b : ℕ) → op a b ≡ op (a / 2 ^ k) (b / 2 ^ k) * 2 ^ k + op (a % 2 ^ k) (b % 2 ^ k)
  split zero a b = grind (arith, zeros)
  split (suc k) a b =
      rw
        (
          div_two_pow-suc a k,
          div_two_pow-suc b k,
          mod_two_pow-suc a k,
          mod_two_pow-suc b k,
          op_pair (a / 2 % 2 ^ k) (b / 2 % 2 ^ k) (a % 2) (b % 2) (omega arith) (omega arith),
        )
        (omega (
          arith,
          step a b,
          split k (a / 2) (b / 2),
          ap (λ (t : ℕ). op (a / 2 / 2 ^ k) (b / 2 / 2 ^ k) * t) (pow-suc 2 k),
        ))

  -- Fields of `k` low bits do not meet those above them.
  join :
      (k x y r s : ℕ)
      → r < 2 ^ k
      → s < 2 ^ k
      → op (x * 2 ^ k + r) (y * 2 ^ k + s) ≡ op x y * 2 ^ k + op r s
  join k x y r s p q =
      rw
        (
          div-pack x r (2 ^ k) p,
          div-pack y s (2 ^ k) q,
          mod-pack x r (2 ^ k) p,
          mod-pack y s (2 ^ k) q,
        )
        at (split k (x * 2 ^ k + r) (y * 2 ^ k + s))

  bound :
      ((x y : ℕ) → x < 2 → y < 2 → f x y < 2) → (k a b : ℕ) → a < 2 ^ k → b < 2 ^ k → op a b < 2 ^ k
  bound digit zero a b p q = grind (arith, zeros)
  bound digit (suc k) a b p q = omega (
    arith,
    pow-suc 2 k,
    step a b,
    digit (a % 2) (b % 2) (omega arith) (omega arith),
    bound digit k (a / 2) (b / 2) (omega (arith, pow-suc 2 k)) (omega (arith, pow-suc 2 k)),
  )

differ-lt : (x y : ℕ) → x < 2 → y < 2 → differ x y < 2
differ-lt zero y p q = q
differ-lt (suc zero) zero p q = p
differ-lt (suc zero) (suc y) p q = omega arith
differ-lt (suc (suc x)) y p q = absurd (omega arith)

pub bit_and-split :
    (k a b : ℕ)
    → bit_and a b ≡ bit_and (a / 2 ^ k) (b / 2 ^ k) * 2 ^ k + bit_and (a % 2 ^ k) (b % 2 ^ k)
bit_and-split = split bit_and min bit_and_step refl

pub bit_and-join :
    (k x y r s : ℕ)
    → r < 2 ^ k
    → s < 2 ^ k
    → bit_and (x * 2 ^ k + r) (y * 2 ^ k + s) ≡ bit_and x y * 2 ^ k + bit_and r s
bit_and-join = join bit_and min bit_and_step refl

pub bit_and-lt : (k a b : ℕ) → a < 2 ^ k → b < 2 ^ k → bit_and a b < 2 ^ k
bit_and-lt = bound bit_and min bit_and_step refl (λ x y p q. omega arith)

pub bit_or-split :
    (k a b : ℕ)
    → bit_or a b ≡ bit_or (a / 2 ^ k) (b / 2 ^ k) * 2 ^ k + bit_or (a % 2 ^ k) (b % 2 ^ k)
bit_or-split = split bit_or max bit_or_step refl

pub bit_or-join :
    (k x y r s : ℕ)
    → r < 2 ^ k
    → s < 2 ^ k
    → bit_or (x * 2 ^ k + r) (y * 2 ^ k + s) ≡ bit_or x y * 2 ^ k + bit_or r s
bit_or-join = join bit_or max bit_or_step refl

pub bit_or-lt : (k a b : ℕ) → a < 2 ^ k → b < 2 ^ k → bit_or a b < 2 ^ k
bit_or-lt = bound bit_or max bit_or_step refl (λ x y p q. omega arith)

pub bit_xor-split :
    (k a b : ℕ)
    → bit_xor a b ≡ bit_xor (a / 2 ^ k) (b / 2 ^ k) * 2 ^ k + bit_xor (a % 2 ^ k) (b % 2 ^ k)
bit_xor-split = split bit_xor differ bit_xor_step refl

pub bit_xor-join :
    (k x y r s : ℕ)
    → r < 2 ^ k
    → s < 2 ^ k
    → bit_xor (x * 2 ^ k + r) (y * 2 ^ k + s) ≡ bit_xor x y * 2 ^ k + bit_xor r s
bit_xor-join = join bit_xor differ bit_xor_step refl

pub bit_xor-lt : (k a b : ℕ) → a < 2 ^ k → b < 2 ^ k → bit_xor a b < 2 ^ k
bit_xor-lt = bound bit_xor differ bit_xor_step refl (λ x y p q. differ-lt x y p q)
