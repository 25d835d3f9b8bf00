-- ===== src/BigInt/ApInt.antt =====
-- `toAPInt` of zirgen/Dialect/BigInt/IR/Eval.cpp over the integers of LLVM, which are a parameter.
pub mod Laws
use zirgen.Prelude.{ℕ, ◌+◌, ◌*◌, ◌-◌, ◌^◌, ◌<◌, ◌≤◌, ◌≡◌, ◌↔◌, Bool, false, [], ◌∷◌, length}
use zirgen.Word.Signed.{ℤ, pos, ◌*ℤ◌}
use zirgen.BigInt.Int.{pos_part, neg_part, ◌+ℤ◌}
use zirgen.BigInt.Poly.{BytePoly}

-- `APInt`: the constructor with a width and a signed value, `+=`, `smul_sat`, the product with a small
-- number, and the test against 0.
pub record ApInt (A : Type 0) : Type 0 where
  pub make : ℕ → ℤ → A
  pub add : A → A → A
  pub smul_sat : A → A → A
  pub scale : A → ℕ → A
  pub is_nonzero : A → Bool

-- A number of this width, in two's complement.
abbrev pub InRange : ℕ → ℤ → Type 0
InRange bits v = (pos_part v < 2 ^ (bits - 1)) × (neg_part v ≤ 2 ^ (bits - 1))

-- What the documentation of LLVM says of them, `Holds bits a v` for an `a` of this width with the signed
-- value `v`: where the result is in the range of the width, no operation wraps around or saturates.
pub record IsApInt {A : Type 0} (api : ApInt A) (Holds : ℕ → A → ℤ → Type 0) : Type 0 where
  pub make : (bits : ℕ) (v : ℤ) → InRange bits v → Holds bits (api.make bits v) v
  pub add :
      (bits : ℕ) (a b : A) (v w : ℤ)
      → Holds bits a v
      → Holds bits b w
      → InRange bits (v +ℤ w)
      → Holds bits (api.add a b) (v +ℤ w)
  pub smul_sat :
      (bits : ℕ) (a b : A) (v w : ℤ)
      → Holds bits a v
      → Holds bits b w
      → InRange bits (v *ℤ w)
      → Holds bits (api.smul_sat a b) (v *ℤ w)
  pub scale :
      (bits : ℕ) (a : A) (v : ℤ) (k : ℕ)
      → Holds bits a v
      → InRange bits (v *ℤ pos k)
      → Holds bits (api.scale a k) (v *ℤ pos k)
  pub is_nonzero :
      (bits : ℕ) (a : A) (v : ℤ) → Holds bits a v → (api.is_nonzero a ≡ false) ↔ (v ≡ pos 0)

module _ {A : Type 0} (api : ApInt A) where
  -- The loop, with `out` and `mul`.
  unfoldable pub sum_from : ℕ → BytePoly → A → A → A
  sum_from bits [] out mul = out
  sum_from bits (c ∷ val) out mul =
      sum_from bits val (api.add out (api.smul_sat mul (api.make bits c))) (api.scale mul (2 ^ 8))

  unfoldable pub to_ap_int : BytePoly → A
  unfolding sum_from
  to_ap_int val =
      let max_bits = length val * 8 + 32 in
      sum_from max_bits val (api.make max_bits (pos 0)) (api.make max_bits (pos 1))
