-- ===== src/Rv32/Alu/Div.antt =====
-- The divisions: quotient and remainder belong together.
use zirgen.Prelude.{
  ℕ, zero, suc, ◌+◌, ◌-◌, ◌*◌, ◌/◌, ◌%◌, ◌^◌, ◌<◌, ◌≤◌, ◌≡◌, ◌≢◌, refl, ap, ◌∙◌, inl, inr, some,
  arith, if◌then◌else◌, ◌==◌, Bool-cases, false,
}
use native.Mathlib.Nat.{div-add-mod', div-le_self, mod-le, mod-lt, mul-le-mul}
use zirgen.Word.{IsWord}
use zirgen.Word.Signed.{ℤ, pos, negsuc, neg, ◌*ℤ◌, tdiv, tmod, int32, wrap, magnitude}
use zirgen.BigInt.Int.{pos_part, neg_part, ◌+ℤ◌, ext, +ℤ_parts, pos_part-*ℤ, neg_part-*ℤ, neg-parts}
use zirgen.Rv32.Inst.{div, divu, rem, remu}
use zirgen.Rv32.Alu.{overflows, div_out}

-- What the four instructions write: no division that C leaves undefined is run.
module _ (imm a b : ℕ) where
  abbrev pub div_value : ℕ
  div_value =
      if overflows imm a b
      then a
      else (if b == 0 then 0xffffffff else wrap (2 ^ 32) (tdiv (int32 a) (int32 b)))

  abbrev pub rem_value : ℕ
  rem_value =
      if overflows imm a b
      then 0
      else (if b == 0 then a else wrap (2 ^ 32) (tmod (int32 a) (int32 b)))

  pub div_out-div : div_out imm a b div ≡ some div_value
  unfolding div_out
  div_out-div = ground arith

  pub div_out-rem : div_out imm a b rem ≡ some rem_value
  unfolding div_out
  div_out-rem = ground arith

  pub div_out-divu : div_out imm a b divu ≡ some (if b == 0 then 0xffffffff else a / b)
  unfolding div_out
  div_out-divu = ground arith

  pub div_out-remu : div_out imm a b remu ≡ some (if b == 0 then a else a % b)
  unfolding div_out
  div_out-remu = ground arith

-- What the instructions write for the operands `a` and `b`: with a divisor other than 0 and but for
-- -2 ^ 31 / -1, the integers with a quotient that is rounded towards 0; with the divisor 0, all ones and
-- the dividend; and -2 ^ 31 and 0.
pub record IsQuotient (imm a b : ℕ) : Type 0 where
  pub q : ℕ
  pub r : ℕ
  pub q_signed : ℕ
  pub r_signed : ℕ
  pub divu_eq : div_out imm a b divu ≡ some q
  pub remu_eq : div_out imm a b remu ≡ some r
  pub div_eq : div_out imm a b div ≡ some q_signed
  pub rem_eq : div_out imm a b rem ≡ some r_signed
  pub unsigned : b ≢ 0 → q * b + r ≡ a
  pub small : b ≢ 0 → r < b
  pub signed :
      b ≢ 0 → (a ≡ 2 ^ 31 → b ≢ 2 ^ 32 - 1) → int32 q_signed *ℤ int32 b +ℤ int32 r_signed ≡ int32 a
  pub small_signed : b ≢ 0 → magnitude (int32 r_signed) < magnitude (int32 b)
  pub not_negative : b ≢ 0 → neg_part (int32 a) ≡ 0 → neg_part (int32 r_signed) ≡ 0
  pub not_positive : b ≢ 0 → pos_part (int32 a) ≡ 0 → pos_part (int32 r_signed) ≡ 0
  pub by_zero : b ≡ 0 → (q ≡ 2 ^ 32 - 1) × (r ≡ a) × (q_signed ≡ 2 ^ 32 - 1) × (r_signed ≡ a)
  pub overflow : a ≡ 2 ^ 31 → b ≡ 2 ^ 32 - 1 → (q_signed ≡ 2 ^ 31) × (r_signed ≡ 0)

pub wrap-neg : (n : ℕ) → n ≤ 2 ^ 32 → wrap (2 ^ 32) (neg n) ≡ (2 ^ 32 - n) % 2 ^ 32
unfolding wrap neg
wrap-neg zero h = refl
wrap-neg (suc n) h = omega arith

int32-wrap : (z : ℤ) → pos_part z < 2 ^ 31 → neg_part z ≤ 2 ^ 31 → int32 (wrap (2 ^ 32) z) ≡ z
unfolding int32 wrap
int32-wrap (pos n) h l = ground arith
int32-wrap (negsuc n) h l = ground arith

magnitude-int32-le : (b : ℕ) → IsWord b → magnitude (int32 b) ≤ 2 ^ 31
unfolding int32
magnitude-int32-le b h = ground arith

magnitude-int32-pos : (b : ℕ) → IsWord b → b ≢ 0 → 0 < magnitude (int32 b)
unfolding int32
magnitude-int32-pos b h ne = ground arith

pos_part-int32 : (a : ℕ) → IsWord a → pos_part (int32 a) < 2 ^ 31
unfolding int32
pos_part-int32 a h = ground arith

int32_zero : int32 0 ≡ pos 0
unfolding int32
int32_zero = refl

magnitude-neg : (n : ℕ) → magnitude (neg n) ≡ n
unfolding neg
magnitude-neg zero = refl
magnitude-neg (suc n) = refl

neq-false : (b : ℕ) → b ≢ 0 → (b == 0) ≡ false
neq-false b ne = ground (arith, ne)

least : (a : ℕ) → IsWord a → neg_part (int32 a) ≡ 2 ^ 31 → a ≡ 2 ^ 31
unfolding int32
least a p e = ground (arith, e)

last : (b : ℕ) → IsWord b → neg_part (int32 b) ≡ 1 → b ≡ 2 ^ 32 - 1
unfolding int32
last b h e = ground (arith, e)

not_both :
    (a b : ℕ)
    → IsWord a
    → IsWord b
    → (a ≡ 2 ^ 31 → b ≢ 2 ^ 32 - 1)
    → int32 a ≡ negsuc (2 ^ 31 - 1)
    → int32 b ≢ negsuc 0
not_both a b p h fits ea eb =
    let na : neg_part (int32 a) ≡ 2 ^ 31 = ap neg_part ea in
    let nb : neg_part (int32 b) ≡ 1 = ap neg_part eb in fits (least a p na) (last b h nb)

-- A product with a negated factor, by the parts of the other one.
neg-times :
    (t : ℕ) (y : ℤ)
    → (pos_part (neg t *ℤ y) ≡ t * neg_part y) × (neg_part (neg t *ℤ y) ≡ t * pos_part y)
neg-times t y =
    let (z, n) = neg-parts t in
    (
      pos_part-*ℤ (neg t) y ∙ rw (z, n) (omega arith),
      neg_part-*ℤ (neg t) y ∙ rw (z, n) (omega arith),
    )

-- The division of C.
tdiv-tmod : (x y : ℤ) → tdiv x y *ℤ y +ℤ tmod x y ≡ x
unfolding tdiv tmod
tdiv-tmod (pos a) (pos b) =
    ext _ _ (omega (arith, +ℤ_parts, pos_part-*ℤ, neg_part-*ℤ, div-add-mod' a b))
tdiv-tmod (pos a) (negsuc b) =
    let (z, n) = neg-times (a / suc b) (negsuc b) in
    ext _ _ (omega (arith, +ℤ_parts, z, n, div-add-mod' a (suc b)))
tdiv-tmod (negsuc a) (pos b) =
    let (z, n) = neg-times (suc a / b) (pos b) in
    let (z', n') = neg-parts (suc a % b) in
    ext _ _ (omega (arith, +ℤ_parts, z, n, z', n', div-add-mod' (suc a) b))
tdiv-tmod (negsuc a) (negsuc b) =
    let (z', n') = neg-parts (suc a % suc b) in
    ext _ _
      (omega (arith, +ℤ_parts, pos_part-*ℤ, neg_part-*ℤ, z', n', div-add-mod' (suc a) (suc b)))

-- The parts of a quotient are not above the dividend's magnitude, and below it for a bigger divisor.
half : (n m : ℕ) → 2 ≤ m → n / m ≤ n / 2
half n m h =
    let t : n / m * 2 ≤ n / m * m = mul-le-mul {n₂ = n / m} {m₂ = m} (omega arith) h in
    omega (arith, t, div-add-mod' n m)

tdiv-parts :
    (x y : ℤ)
    → magnitude x ≤ 2 ^ 31
    → (x ≡ negsuc (2 ^ 31 - 1) → y ≢ negsuc 0)
    → pos_part x < 2 ^ 31
    → (pos_part (tdiv x y) < 2 ^ 31) × (neg_part (tdiv x y) ≤ 2 ^ 31)
unfolding tdiv
tdiv-parts (pos a) (pos b) m ne h = (omega (arith, div-le_self a b), omega arith)
tdiv-parts (pos a) (negsuc b) m ne h =
    let (z, n) = neg-parts (a / suc b) in
    (omega (arith, z), omega (arith, n, div-le_self a (suc b)))
tdiv-parts (negsuc a) (pos b) m ne h =
    let (z, n) = neg-parts (suc a / b) in
    (omega (arith, z), omega (arith, n, div-le_self (suc a) b))
tdiv-parts (negsuc a) (negsuc zero) m ne h = (
  elim (Bool-cases (a == 2 ^ 31 - 1)) [
    | inl e ↦ absurd (ne (ground (arith, e)) refl)
    | inr e ↦ ground (arith, e)
  ],
  omega arith,
)
tdiv-parts (negsuc a) (negsuc (suc b)) m ne h =
    (omega (arith, half (suc a) (suc (suc b))), omega arith)

tmod-parts :
    (x y : ℤ)
    → 0 < magnitude y
    → magnitude y ≤ 2 ^ 31
    → (pos_part (tmod x y) < 2 ^ 31)
      × (neg_part (tmod x y) < 2 ^ 31)
      × (magnitude (tmod x y) < magnitude y)
      × (neg_part x ≡ 0 → neg_part (tmod x y) ≡ 0)
      × (pos_part x ≡ 0 → pos_part (tmod x y) ≡ 0)
unfolding tmod
tmod-parts (pos n) y p m =
    let below = mod-lt n p in
    (omega arith, omega arith, below, λ e. refl, λ e. omega (arith, mod-le n (magnitude y)))
tmod-parts (negsuc n) y p m =
    let below = mod-lt (suc n) p in
    let (z, k) = neg-parts (suc n % magnitude y) in
    (
      omega (arith, z),
      omega (arith, k),
      omega (arith, magnitude-neg (suc n % magnitude y)),
      λ e. absurd (omega (arith, e)),
      λ e. z,
    )

-- The signed quotient and remainder, as words.
module _ (a b : ℕ) (p : IsWord a) (h : IsWord b) (ne : b ≢ 0) where
  remainder_fits : int32 (wrap (2 ^ 32) (tmod (int32 a) (int32 b))) ≡ tmod (int32 a) (int32 b)
  remainder_fits =
      let (l, k, _, _, _) =
        tmod-parts (int32 a) (int32 b) (magnitude-int32-pos b h ne) (magnitude-int32-le b h) in
      int32-wrap (tmod (int32 a) (int32 b)) l (omega (arith, k))

  quotient_fits :
      (a ≡ 2 ^ 31 → b ≢ 2 ^ 32 - 1)
      → int32 (wrap (2 ^ 32) (tdiv (int32 a) (int32 b))) ≡ tdiv (int32 a) (int32 b)
  quotient_fits fits =
      let (l, k) =
        tdiv-parts (int32 a) (int32 b) (magnitude-int32-le a p) (not_both a b p h fits)
          (pos_part-int32 a p) in
      int32-wrap (tdiv (int32 a) (int32 b)) l k

  signed_again :
      (imm : ℕ)
      → (a ≡ 2 ^ 31 → b ≢ 2 ^ 32 - 1)
      → int32 (div_value imm a b) *ℤ int32 b +ℤ int32 (rem_value imm a b) ≡ int32 a
  signed_again imm fits = elim (Bool-cases (overflows imm a b)) [
    | inl e ↦ absurd (fits (ground (arith, e)) (ground (arith, e)))
    | inr e ↦
        rw (e, neq-false b ne, quotient_fits fits, remainder_fits) (tdiv-tmod (int32 a) (int32 b))
  ]

  -- The remainder, also where the quotient overflows.
  abbrev IsRemainder : ℤ → Type 0
  IsRemainder r =
      (magnitude r < magnitude (int32 b))
      × (neg_part (int32 a) ≡ 0 → neg_part r ≡ 0)
      × (pos_part (int32 a) ≡ 0 → pos_part r ≡ 0)

  rem_value-IsRemainder : (imm : ℕ) → IsRemainder (int32 (rem_value imm a b))
  rem_value-IsRemainder imm =
      let (_, _, small, plus, minus) =
        tmod-parts (int32 a) (int32 b) (magnitude-int32-pos b h ne) (magnitude-int32-le b h) in
      elim (Bool-cases (overflows imm a b)) [
        | inl e ↦ rw (e, int32_zero) (magnitude-int32-pos b h ne, λ x. refl, λ x. refl)
        | inr e ↦ rw (e, neq-false b ne, remainder_fits) (small, plus, minus)
      ]

-- For all words `a` and `b`: with a divisor other than 0, DIVU and REMU write the quotient and the
-- remainder of the numbers, and DIV and REM those of the integers, but for -2 ^ 31 / -1, with a
-- remainder that has the dividend's sign or is 0. With the divisor 0 the quotient is all ones and the
-- remainder the dividend; for -2 ^ 31 / -1 they are -2 ^ 31 and 0.
pub div_out-IsQuotient : (imm a b : ℕ) → IsWord a → IsWord b → IsQuotient imm a b
div_out-IsQuotient imm a b p h = record {
  q = if b == 0 then 0xffffffff else a / b;
  r = if b == 0 then a else a % b;
  q_signed = div_value imm a b;
  r_signed = rem_value imm a b;
  divu_eq = div_out-divu imm a b;
  remu_eq = div_out-remu imm a b;
  div_eq = div_out-div imm a b;
  rem_eq = div_out-rem imm a b;
  unsigned = λ ne. rw (neq-false b ne) (div-add-mod' a b);
  small = λ ne. ground arith;
  signed = λ ne fits. signed_again a b p h ne imm fits;
  small_signed = λ ne. (rem_value-IsRemainder a b p h ne imm).0;
  not_negative = λ ne. (rem_value-IsRemainder a b p h ne imm).1;
  not_positive = λ ne. (rem_value-IsRemainder a b p h ne imm).2;
  by_zero = λ z. ground (arith, z);
  overflow = λ x y. ground (arith, x, y);
}
