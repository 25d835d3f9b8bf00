-- ===== src/Fp/Laws.antt =====
-- The operations on Montgomery forms are those of the integers modulo P.
use native.Mathlib.Nat.{add-mul-mod_self_right}
use zirgen.Prelude.{ℕ, ◌+◌, ◌-◌, ◌*◌, ◌/◌, ◌%◌, ◌^◌, ◌<◌, ◌≤◌, ◌≡◌, sym, ap, ◌∙◌, arith}
use zirgen.Modular.{mod-mul, mod-mul_left}
use zirgen.Word.{IsWord}
use zirgen.Fp.{
  p, m, r2, add_raw, sub_raw, mul_raw, encode, decode, Fp, as_uint32, of_uint32, add, sub, neg, mul,
}

-- An `Fp` is valid when its raw value is below P.
abbrev pub IsRaw : ℕ → Type 0
IsRaw a = a < p

-- 2 ^ -32 modulo P.
abbrev k : ℕ
k = 943718400

add_raw_lem : (a b : ℕ) → IsRaw a → IsRaw b → add_raw a b ≡ (a + b) % p
unfolding add_raw
add_raw_lem a b ha hb = ground arith

sub_raw_lem : (a b : ℕ) → IsRaw a → IsRaw b → sub_raw a b ≡ (a + p - b) % p
unfolding sub_raw
sub_raw_lem a b ha hb = ground arith

-- The reduction of `mul`, before its last subtraction.
abbrev red : ℕ → ℕ
red o = m * ((2 ^ 32 - o % 2 ^ 32) % 2 ^ 32) % 2 ^ 32

red_divides : (o : ℕ) → (o + red o * p) % 2 ^ 32 ≡ 0
red_divides o = omega arith

redc : ℕ → ℕ
redc o = (o + red o * p) / 2 ^ 32

redc_lt : (o : ℕ) → o < 2 ^ 32 * p → redc o < 2 * p
unfolding redc
redc_lt o h = omega arith

-- Multiplied by `k`, which is the inverse of 2 ^ 32: both are `o * k` but for multiples of P.
cancel : (t o r : ℕ) → t * 2 ^ 32 ≡ o + r * p → t % p ≡ o * k % p
cancel t o r h =
    let e : t + t * 2013265919 * p ≡ o * k + r * k * p = omega arith in
    sym (add-mul-mod_self_right t (t * 2013265919) p)
    ∙ ap (λ x. x % p) e
    ∙ add-mul-mod_self_right (o * k) (r * k) p

redc_mod : (o : ℕ) → redc o % p ≡ o * k % p
unfolding redc
redc_mod o = cancel (redc o) o (red o) (omega (arith, red_divides o))

mul_raw_lem : (a b : ℕ) → a * b < 2 ^ 32 * p → mul_raw a b ≡ a * b * k % p
unfolding mul_raw redc
mul_raw_lem a b h = ground (arith, redc_lt (a * b) h, redc_mod (a * b))

product_lt : (a b : ℕ) → IsRaw a → IsRaw b → a * b < 2 ^ 32 * p
product_lt a b ha hb = let h : a * b ≤ p * p = grind arith in omega arith

-- The number that a raw value stands for.
value : ℕ → ℕ
value a = a * k % p

decode_lem : (a : ℕ) → IsWord a → decode a ≡ value a
unfolding decode value
decode_lem a h = mul_raw_lem 1 a (omega arith) ∙ ap (λ x. x % p) (omega arith)

encode-IsRaw : (a : ℕ) → IsWord a → IsRaw (encode a)
unfolding encode
encode-IsRaw a h = rw (mul_raw_lem r2 a (omega arith)) (omega arith)

decode-encode_raw : (a : ℕ) → IsWord a → decode (encode a) ≡ a % p
decode-encode_raw a h =
    let e : encode a ≡ r2 * a * k % p = unfold encode in mul_raw_lem r2 a (omega arith) in
    decode_lem (encode a) (omega arith) ∙ ap value e ∙ (unfold value in omega arith)

add_raw-value : (a b : ℕ) → IsRaw a → IsRaw b → value (add_raw a b) ≡ (value a + value b) % p
unfolding value
add_raw-value a b ha hb = omega (arith, add_raw_lem a b ha hb)

sub_raw-value : (a b : ℕ) → IsRaw a → IsRaw b → value (sub_raw a b) ≡ (value a + p - value b) % p
unfolding value
sub_raw-value a b ha hb = omega (arith, sub_raw_lem a b ha hb)

neg_raw-value : (a : ℕ) → IsRaw a → value (sub_raw 0 a) ≡ (p - value a) % p
neg_raw-value a ha = sub_raw-value 0 a (omega arith) ha ∙ (unfold value in omega arith)

mul_raw-value : (a b : ℕ) → IsRaw a → IsRaw b → value (mul_raw a b) ≡ value a * value b % p
unfolding value
mul_raw-value a b ha hb =
    ap (λ x. x * k % p) (mul_raw_lem a b (product_lt a b ha hb))
    ∙ mod-mul_left (a * b * k) k p
    ∙ ap (λ x. x % p) (omega arith)
    ∙ sym (mod-mul (a * k) (b * k) p)

-- The number of a valid element.
abbrev pub IsValid : Fp → Type 0
IsValid x = IsRaw x.val

as_uint32_lem : (x : Fp) → IsValid x → as_uint32 x ≡ value x.val
unfolding as_uint32
as_uint32_lem x h = decode_lem x.val (omega arith)

pub as_uint32-lt : (x : Fp) → IsValid x → as_uint32 x < p
as_uint32-lt x h = rw (as_uint32_lem x h) (unfold value in omega arith)

-- Each operation gives a valid element, and the number of the result is that of the integers
-- modulo P on the numbers of the operands.
pub record IsModular (x y : Fp) : Type 0 where
  pub add_valid : IsValid (add x y)
  pub add_eq : as_uint32 (add x y) ≡ (as_uint32 x + as_uint32 y) % p
  pub sub_valid : IsValid (sub x y)
  pub sub_eq : as_uint32 (sub x y) ≡ (as_uint32 x + p - as_uint32 y) % p
  pub neg_valid : IsValid (neg x)
  pub neg_eq : as_uint32 (neg x) ≡ (p - as_uint32 x) % p
  pub mul_valid : IsValid (mul x y)
  pub mul_eq : as_uint32 (mul x y) ≡ as_uint32 x * as_uint32 y % p

add-IsValid : (x y : Fp) → IsValid x → IsValid y → IsValid (add x y)
unfolding add
add-IsValid x y hx hy = rw (add_raw_lem x.val y.val hx hy) (omega arith)

sub-IsValid : (x y : Fp) → IsValid x → IsValid y → IsValid (sub x y)
unfolding sub
sub-IsValid x y hx hy = rw (sub_raw_lem x.val y.val hx hy) (omega arith)

neg-IsValid : (x : Fp) → IsValid x → IsValid (neg x)
unfolding neg
neg-IsValid x hx = rw (sub_raw_lem 0 x.val (omega arith) hx) (omega arith)

pub mul-IsValid : (x y : Fp) → IsValid x → IsValid y → IsValid (mul x y)
unfolding mul
mul-IsValid x y hx hy = rw (mul_raw_lem x.val y.val (product_lt x.val y.val hx hy)) (omega arith)

-- For all valid elements: `+`, binary and unary `-` and `*` give valid elements, and `asUInt32` takes
-- them to the sum, the difference, the opposite and the product modulo P.
pub ops-IsModular : (x y : Fp) → IsValid x → IsValid y → IsModular x y
ops-IsModular x y hx hy = record {
  add_valid = add-IsValid x y hx hy;
  add_eq =
      rw (as_uint32_lem (add x y) (add-IsValid x y hx hy), as_uint32_lem x hx, as_uint32_lem y hy)
        (unfold add in add_raw-value x.val y.val hx hy);
  sub_valid = sub-IsValid x y hx hy;
  sub_eq =
      rw (as_uint32_lem (sub x y) (sub-IsValid x y hx hy), as_uint32_lem x hx, as_uint32_lem y hy)
        (unfold sub in sub_raw-value x.val y.val hx hy);
  neg_valid = neg-IsValid x hx;
  neg_eq =
      rw (as_uint32_lem (neg x) (neg-IsValid x hx), as_uint32_lem x hx)
        (unfold neg in neg_raw-value x.val hx);
  mul_valid = mul-IsValid x y hx hy;
  mul_eq =
      rw (as_uint32_lem (mul x y) (mul-IsValid x y hx hy), as_uint32_lem x hx, as_uint32_lem y hy)
        (unfold mul in mul_raw-value x.val y.val hx hy);
}

-- The constructor takes every `uint32_t` to a valid element, and `asUInt32` takes that back to the
-- number modulo P.
pub as_uint32-of_uint32 :
    (v : ℕ) → IsWord v → IsValid (of_uint32 v) × (as_uint32 (of_uint32 v) ≡ v % p)
unfolding of_uint32 as_uint32
as_uint32-of_uint32 v h = (encode-IsRaw v h, decode-encode_raw v h)
