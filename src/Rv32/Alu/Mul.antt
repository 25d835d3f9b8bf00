-- ===== src/Rv32/Alu/Mul.antt =====
-- The multiplications: the two words of a product.
use zirgen.Prelude.{
  ℕ, zero, suc, ◌+◌, ◌-◌, ◌*◌, ◌/◌, ◌%◌, ◌^◌, ◌<◌, ◌≤◌, ◌≡◌, refl, ap, ◌⊎◌, inl, inr, some, arith,
}
use zirgen.Word.{IsWord}
use zirgen.Word.Signed.{ℤ, pos, negsuc, neg, ◌*ℤ◌, int32, wrap}
use zirgen.Rv32.Inst.{mul, mulh, mulhsu, mulhu}
use zirgen.Rv32.Alu.{mul_out}

wrap-neg : (n : ℕ) → n ≤ 2 ^ 64 → wrap (2 ^ 64) (neg n) ≡ (2 ^ 64 - n) % 2 ^ 64
unfolding wrap neg
wrap-neg zero h = refl
wrap-neg (suc n) h = omega arith

-- A factor and its complement.
complement : (a b : ℕ) → IsWord b → a * suc (2 ^ 32 - 1 - b) + a * b ≡ a * 2 ^ 32
complement a b h =
    let e : suc (2 ^ 32 - 1 - b) + b ≡ 2 ^ 32 = omega arith in
    omega (arith, ap (λ (t : ℕ). a * t) e)

product_bound : (a b n m : ℕ) → a ≤ n → b ≤ m → a * b ≤ n * m
product_bound a b n m p q = grind arith

pub int32-cases :
    (w : ℕ)
    → ((w < 2 ^ 31) × (int32 w ≡ pos w)) ⊎ ((2 ^ 31 ≤ w) × (int32 w ≡ negsuc (2 ^ 32 - 1 - w)))
unfolding int32
int32-cases w = ground arith

abbrev low : ℤ → ℕ
low x = wrap (2 ^ 64) x % 2 ^ 32

module _ (a b : ℕ) (p : IsWord a) (q : IsWord b) where
  abbrev minus : ℕ → ℤ
  minus w = negsuc (2 ^ 32 - 1 - w)

  low-pos-pos : low (pos a *ℤ pos b) ≡ a * b % 2 ^ 32
  unfolding ◌*ℤ◌ wrap
  low-pos-pos = omega arith

  low-pos-minus : low (pos a *ℤ minus b) ≡ a * b % 2 ^ 32
  unfolding ◌*ℤ◌
  low-pos-minus = omega (
    arith,
    complement a b q,
    product_bound a (suc (2 ^ 32 - 1 - b)) (2 ^ 32) (2 ^ 32) (omega arith) (omega arith),
    wrap-neg (a * suc (2 ^ 32 - 1 - b)),
  )

  low-minus-pos : low (minus a *ℤ pos b) ≡ a * b % 2 ^ 32
  unfolding ◌*ℤ◌
  low-minus-pos = omega (
    arith,
    complement b a p,
    product_bound (suc (2 ^ 32 - 1 - a)) b (2 ^ 32) (2 ^ 32) (omega arith) (omega arith),
    wrap-neg (suc (2 ^ 32 - 1 - a) * b),
  )

  low-minus-minus : low (minus a *ℤ minus b) ≡ a * b % 2 ^ 32
  unfolding ◌*ℤ◌ wrap
  low-minus-minus = omega (arith, complement b a p, complement (suc (2 ^ 32 - 1 - a)) b q)

-- One factor signed, as in MULHSU.
wrap-mul_unsigned-low : (a b : ℕ) → IsWord a → IsWord b → low (int32 a *ℤ pos b) ≡ a * b % 2 ^ 32
wrap-mul_unsigned-low a b p q = elim (int32-cases a) [
  | inl (_, ea) ↦ rw ea (low-pos-pos a b p q)
  | inr (_, ea) ↦ rw ea (low-minus-pos a b p q)
]

-- The low word of a signed product is that of the unsigned one.
wrap-mul-low : (a b : ℕ) → IsWord a → IsWord b → low (int32 a *ℤ int32 b) ≡ a * b % 2 ^ 32
wrap-mul-low a b p q = elim (int32-cases a) [
  | inl (_, ea) ↦ elim (int32-cases b) [
    | inl (_, eb) ↦ rw (ea, eb) (low-pos-pos a b p q)
    | inr (_, eb) ↦ rw (ea, eb) (low-pos-minus a b p q)
  ]
  | inr (_, ea) ↦ elim (int32-cases b) [
    | inl (_, eb) ↦ rw (ea, eb) (low-minus-pos a b p q)
    | inr (_, eb) ↦ rw (ea, eb) (low-minus-minus a b p q)
  ]
]

wrap-lt : (x : ℤ) → wrap (2 ^ 64) x < 2 ^ 64
unfolding wrap
wrap-lt (pos n) = omega arith
wrap-lt (negsuc n) = omega arith

-- The words that MUL, MULHU, MULH and MULHSU leave for one pair of operands.
pub record IsProduct (imm a b : ℕ) : Type 0 where
  pub lo : ℕ
  pub hi : ℕ
  pub hi_signed : ℕ
  pub hi_mixed : ℕ
  pub mul_eq : mul_out imm a b mul ≡ some lo
  pub mulhu_eq : mul_out imm a b mulhu ≡ some hi
  pub mulh_eq : mul_out imm a b mulh ≡ some hi_signed
  pub mulhsu_eq : mul_out imm a b mulhsu ≡ some hi_mixed
  pub unsigned : hi * 2 ^ 32 + lo ≡ a * b
  pub signed : hi_signed * 2 ^ 32 + lo ≡ wrap (2 ^ 64) (int32 a *ℤ int32 b)
  pub mixed : hi_mixed * 2 ^ 32 + lo ≡ wrap (2 ^ 64) (int32 a *ℤ pos b)

-- For all words `a` and `b`: the low word of MUL and the high word of MULHU, MULH or MULHSU
-- together are the product of `a` and `b`, read as unsigned numbers, as signed ones, or the
-- first as signed and the second as unsigned, modulo 2 ^ 64.
pub mul_out-IsProduct : (imm a b : ℕ) → IsWord a → IsWord b → IsProduct imm a b
unfolding mul_out
mul_out-IsProduct imm a b p q = record {
  lo = a * b % 2 ^ 32;
  hi = a * b % 2 ^ 64 / 2 ^ 32;
  hi_signed = wrap (2 ^ 64) (int32 a *ℤ int32 b) / 2 ^ 32;
  hi_mixed = wrap (2 ^ 64) (int32 a *ℤ pos b) / 2 ^ 32;
  mul_eq = refl;
  mulhu_eq = refl;
  mulh_eq = refl;
  mulhsu_eq = refl;
  unsigned = omega (arith, product_bound a b (2 ^ 32 - 1) (2 ^ 32 - 1) (omega arith) (omega arith));
  signed = omega (arith, wrap-mul-low a b p q);
  mixed = omega (arith, wrap-mul_unsigned-low a b p q);
}
