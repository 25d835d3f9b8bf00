-- ===== src/Fp.antt =====
-- The field of risc0/fp/fp.h: numbers modulo P = 15 * 2 ^ 27 + 1, kept in Montgomery form.
pub mod Laws
pub mod Pow
use zirgen.Prelude.{
  ℕ, zero, suc, ◌+◌, ◌-◌, ◌*◌, ◌/◌, ◌%◌, ◌^◌, Bool, not, ltb, leb, ◌==◌, if◌then◌else◌,
}
use zirgen.Word.{u32, add32, sub32, mul32}

abbrev pub p : ℕ
p = 15 * 2 ^ 27 + 1

abbrev pub m : ℕ
m = 0x88000001

abbrev pub r2 : ℕ
r2 = 1172168163

-- The static methods on raw values.
unfoldable pub add_raw : ℕ → ℕ → ℕ
add_raw a b = let r = add32 a b in if leb p r then sub32 r p else r

unfoldable pub sub_raw : ℕ → ℕ → ℕ
sub_raw a b = let r = sub32 a b in if ltb p r then add32 r p else r

-- `o64`, `low`, `red` and `ret` of the source; both sums are of 64 bits.
unfoldable pub mul_raw : ℕ → ℕ → ℕ
mul_raw a b =
    let o64 = a * b % 2 ^ 64 in
    let low = sub32 0 (u32 o64) in
    let red = mul32 m low in
    let ret = u32 ((o64 + red * p % 2 ^ 64) % 2 ^ 64 / 2 ^ 32) in
    if leb p ret then sub32 ret p else ret

unfoldable pub encode : ℕ → ℕ
unfolding mul_raw
encode a = mul_raw r2 a

unfoldable pub decode : ℕ → ℕ
unfolding mul_raw
decode a = mul_raw 1 a

pub record Fp : Type 0 where
  pub val : ℕ

-- `Fp(val, true)` and `Fp(val)`
abbrev pub raw : ℕ → Fp
raw v = record { val = v }

unfoldable pub of_uint32 : ℕ → Fp
unfolding encode
of_uint32 v = raw (encode v)

unfoldable pub as_uint32 : Fp → ℕ
unfolding decode
as_uint32 x = decode x.val

unfoldable pub max_val : Fp
unfolding of_uint32
max_val = of_uint32 (p - 1)

abbrev pub invalid : Fp
invalid = raw 0xffffffff

unfoldable pub add : Fp → Fp → Fp
unfolding add_raw
add x y = raw (add_raw x.val y.val)

unfoldable pub neg : Fp → Fp
unfolding sub_raw
neg x = raw (sub_raw 0 x.val)

unfoldable pub sub : Fp → Fp → Fp
unfolding sub_raw
sub x y = raw (sub_raw x.val y.val)

unfoldable pub mul : Fp → Fp → Fp
unfolding mul_raw
mul x y = raw (mul_raw x.val y.val)

unfoldable pub equal : Fp → Fp → Bool
equal x y = x.val == y.val

unfoldable pub less : Fp → Fp → Bool
unfolding decode
less x y = ltb (decode x.val) (decode y.val)

-- The new value of `x++` and `++x`, and of `x--` and `--x`.
unfoldable pub increment : Fp → Fp
unfolding add_raw encode
increment x = raw (add_raw x.val (encode 1))

unfoldable pub decrement : Fp → Fp
unfolding sub_raw encode
decrement x = raw (sub_raw x.val (encode 1))

-- `while (n != 0)`, which halves `n`, a 64-bit number; `fuel` bounds the rounds.
unfoldable pub pow_loop : ℕ → Fp → Fp → ℕ → Fp
unfolding mul
pow_loop zero tot x n = tot
pow_loop (suc fuel) tot x n =
    let rest = pow_loop fuel (if n % 2 == 1 then mul tot x else tot) (mul x x) (n / 2) in
    if not (n == 0) then rest else tot

unfoldable pub pow : Fp → ℕ → Fp
unfolding pow_loop of_uint32
pow x n = pow_loop 64 (of_uint32 1) x n

unfoldable pub inv : Fp → Fp
unfolding pow
inv x = pow x (p - 2)
