-- ===== src/FpExt.antt =====
-- The extension field of risc0/fp/fpext.h: polynomials of four `Fp` coefficients.
pub mod Laws
use zirgen.Prelude.{ℕ, zero, suc, ◌-◌, ◌/◌, ◌%◌, Bool, not, ◌&&◌, ◌==◌, if◌then◌else◌}
use zirgen.Fp
use zirgen.Fp.{Fp, p, of_uint32, invalid}

pub record FpExt : Type 0 where
  pub e0 : Fp
  pub e1 : Fp
  pub e2 : Fp
  pub e3 : Fp

-- `BETA` and `NBETA`
abbrev pub beta : Fp
beta = of_uint32 11

abbrev pub nbeta : Fp
nbeta = of_uint32 (p - 11)

-- `FpExt(a, b, c, d)`
abbrev pub parts : Fp → Fp → Fp → Fp → FpExt
parts a b c d = record { e0 = a; e1 = b; e2 = c; e3 = d }

abbrev pub zeros : FpExt
zeros = let z = Fp.raw 0 in parts z z z z

unfoldable pub of_fp : Fp → FpExt
of_fp x = parts x (of_uint32 0) (of_uint32 0) (of_uint32 0)

abbrev pub invalid_ext : FpExt
invalid_ext = parts invalid invalid invalid invalid

unfoldable pub add : FpExt → FpExt → FpExt
add x y = parts (Fp.add x.e0 y.e0) (Fp.add x.e1 y.e1) (Fp.add x.e2 y.e2) (Fp.add x.e3 y.e3)

unfoldable pub sub : FpExt → FpExt → FpExt
sub x y = parts (Fp.sub x.e0 y.e0) (Fp.sub x.e1 y.e1) (Fp.sub x.e2 y.e2) (Fp.sub x.e3 y.e3)

unfoldable pub neg : FpExt → FpExt
unfolding sub
neg x = sub zeros x

-- `operator*(Fp)`
unfoldable pub scale : FpExt → Fp → FpExt
scale x c = parts (Fp.mul x.e0 c) (Fp.mul x.e1 c) (Fp.mul x.e2 c) (Fp.mul x.e3 c)

infixl 65 ◌⊕◌ ◌⊖◌
infixl 70 ◌⊗◌
abbrev pub ◌⊕◌ : Fp → Fp → Fp
x ⊕ y = Fp.add x y

abbrev pub ◌⊖◌ : Fp → Fp → Fp
x ⊖ y = Fp.sub x y

abbrev pub ◌⊗◌ : Fp → Fp → Fp
x ⊗ y = Fp.mul x y

unfoldable pub mul : FpExt → FpExt → FpExt
mul a b =
    parts (a.e0 ⊗ b.e0 ⊕ nbeta ⊗ (a.e1 ⊗ b.e3 ⊕ a.e2 ⊗ b.e2 ⊕ a.e3 ⊗ b.e1))
      (a.e0 ⊗ b.e1 ⊕ a.e1 ⊗ b.e0 ⊕ nbeta ⊗ (a.e2 ⊗ b.e3 ⊕ a.e3 ⊗ b.e2))
      (a.e0 ⊗ b.e2 ⊕ a.e1 ⊗ b.e1 ⊕ a.e2 ⊗ b.e0 ⊕ nbeta ⊗ (a.e3 ⊗ b.e3))
      (a.e0 ⊗ b.e3 ⊕ a.e1 ⊗ b.e2 ⊕ a.e2 ⊗ b.e1 ⊕ a.e3 ⊗ b.e0)

unfoldable pub equal : FpExt → FpExt → Bool
equal x y = Fp.equal x.e0 y.e0 && (Fp.equal x.e1 y.e1 && (Fp.equal x.e2 y.e2 && Fp.equal x.e3 y.e3))

abbrev pub const_part : FpExt → Fp
const_part x = x.e0

-- As in `Fp.pow_loop`.
unfoldable pub pow_loop : ℕ → FpExt → FpExt → ℕ → FpExt
unfolding mul
pow_loop zero tot x n = tot
pow_loop (suc fuel) tot x n =
    let rest = pow_loop fuel (if n % 2 == 1 then mul tot x else tot) (mul x x) (n / 2) in
    if not (n == 0) then rest else tot

unfoldable pub pow : FpExt → ℕ → FpExt
unfolding pow_loop of_fp
pow x n = pow_loop 64 (of_fp (of_uint32 1)) x n

unfoldable pub inv : FpExt → FpExt
inv a =
    let b0 = a.e0 ⊗ a.e0 ⊕ beta ⊗ (a.e1 ⊗ (a.e3 ⊕ a.e3) ⊖ a.e2 ⊗ a.e2) in
    let b2 = a.e0 ⊗ (a.e2 ⊕ a.e2) ⊖ a.e1 ⊗ a.e1 ⊕ beta ⊗ (a.e3 ⊗ a.e3) in
    let c = b0 ⊗ b0 ⊕ beta ⊗ b2 ⊗ b2 in
    let ic = Fp.inv c in
    let b0' = b0 ⊗ ic in
    let b2' = b2 ⊗ ic in
    parts (a.e0 ⊗ b0' ⊕ beta ⊗ a.e2 ⊗ b2') (Fp.neg a.e1 ⊗ b0' ⊕ nbeta ⊗ a.e3 ⊗ b2')
      (Fp.neg a.e0 ⊗ b2' ⊕ a.e2 ⊗ b0') (a.e1 ⊗ b2' ⊖ a.e3 ⊗ b0')
