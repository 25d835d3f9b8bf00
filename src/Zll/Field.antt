-- ===== src/Zll/Field.antt =====
-- `Field`: numbers of 64 bits modulo a prime.
pub mod Laws
use zirgen.Prelude.{
  ℕ, zero, suc, ◌+◌, ◌-◌, ◌*◌, ◌/◌, ◌%◌, ◌^◌, ltb, leb, ◌==◌, ◌||◌, if◌then◌else◌, Option, none,
  some,
}

abbrev pub field_prime_default : ℕ
field_prime_default = 2 ^ 27 * 15 + 1

abbrev pub u64 : ℕ → ℕ
u64 n = n % 2 ^ 64

-- 2 ^ 64 is added first, since `-` stops at 0.
abbrev pub sub64 : ℕ → ℕ → ℕ
sub64 a b = u64 (a + 2 ^ 64 - b)

pub record Field : Type 0 where
  pub prime : ℕ

abbrev pub default_field : Field
default_field = record { prime = field_prime_default }

module _ (f : Field) where
  unfoldable pub add : ℕ → ℕ → ℕ
  add a b = let o = u64 (a + b) in if ltb o a || leb f.prime o then sub64 o f.prime else o

  unfoldable pub sub : ℕ → ℕ → ℕ
  unfolding add
  sub a b = add a (sub64 f.prime b)

  -- The product of two numbers of 64 bits fits the 128 bits of the source.
  unfoldable pub mul : ℕ → ℕ → ℕ
  mul a b = u64 (a * b % 2 ^ 128 % f.prime)

  -- `while (r1 != 0)`
  unfoldable pub euclid : ℕ → ℕ → ℕ → ℕ → ℕ → Option ℕ
  unfolding sub mul
  euclid zero t0 t1 r0 r1 = none
  euclid (suc fuel) t0 t1 r0 r1 =
      let quot = r0 / r1 in
      let t2 = sub t0 (mul quot t1) in
      let r2 = sub64 r0 (u64 (quot * r1)) in
      let rest = euclid fuel t1 t2 r1 r2 in if r1 == 0 then some t0 else rest

  unfoldable pub inv : ℕ → ℕ → Option ℕ
  unfolding euclid
  inv fuel a = euclid fuel 0 1 f.prime a
