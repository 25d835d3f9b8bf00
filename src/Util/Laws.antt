-- ===== src/Util/Laws.antt =====
-- `divide_rv32im` is the division of the emulator.
use zirgen.Prelude.{◌∙◌, ℕ, suc, ◌<◌, ◌≡◌, ◌-◌, ◌^◌, ◌/◌, ◌%◌, some, arith, inl, inr}
use zirgen.Word.{IsWord}
use zirgen.Word.Signed.{wrap, tdiv, tmod, ltb_ℤ}
use zirgen.Rv32.Inst.{div, divu, rem, remu}
use zirgen.Rv32.Alu.{div_out}
use zirgen.Rv32.Alu.Mul.{int32-cases}
use zirgen.Rv32.Alu.Div.{
  wrap-neg, div_value, rem_value, div_out-div, div_out-rem, div_out-divu, div_out-remu,
}
use zirgen.Util.{divide_rv32im, negated}
use native.Mathlib.Nat.{div-le_self, mod-le}

-- The instructions, and the calls that should agree with them.
pub record IsDivision (imm a b : ℕ) : Type 0 where
  pub divu_eq : div_out imm a b divu ≡ some (divide_rv32im a b 0).0
  pub remu_eq : div_out imm a b remu ≡ some (divide_rv32im a b 0).1
  pub div_eq : div_out imm a b div ≡ some (divide_rv32im a b 1).0
  pub rem_eq : div_out imm a b rem ≡ some (divide_rv32im a b 1).1

negated_lem : (a : ℕ) → 0 < a → IsWord a → negated 0 a ≡ 2 ^ 32 - a
negated_lem a h p = omega arith

suc_lem : (a : ℕ) → IsWord a → suc (2 ^ 32 - 1 - a) ≡ 2 ^ 32 - a
suc_lem a p = omega arith

module _ (imm a b : ℕ) (p : IsWord a) (q : IsWord b) where
  signed_div : some (div_value imm a b) ≡ some (divide_rv32im a b 1).0
  unfolding divide_rv32im ltb_ℤ tdiv wrap
  signed_div = elim (int32-cases a) [
    | inl (s, e) ↦ elim (int32-cases b) [
      | inl (t, f) ↦ rw (e, f) (ground (arith, div-le_self a b))
      | inr (t, f) ↦
          rw (e, f)
            (let small = div-le_self a (2 ^ 32 - b) in
              rw
                (
                  suc_lem b q,
                  wrap-neg (a / (2 ^ 32 - b)) (omega (arith, small)),
                  negated_lem b (omega arith) q,
                )
                (ground (arith, small)))
    ]
    | inr (s, e) ↦ elim (int32-cases b) [
      | inl (t, f) ↦
          rw (e, f)
            (let small = div-le_self (2 ^ 32 - a) b in
              rw
                (
                  suc_lem a p,
                  wrap-neg ((2 ^ 32 - a) / b) (omega (arith, small)),
                  negated_lem a (omega arith) p,
                )
                (ground (arith, small)))
      | inr (t, f) ↦
          rw (e, f)
            (let small = div-le_self (2 ^ 32 - a) (2 ^ 32 - b) in
              rw
                (
                  suc_lem a p,
                  suc_lem b q,
                  negated_lem a (omega arith) p,
                  negated_lem b (omega arith) q,
                )
                (ground (arith, small)))
    ]
  ]

  signed_rem : some (rem_value imm a b) ≡ some (divide_rv32im a b 1).1
  unfolding divide_rv32im ltb_ℤ tmod wrap
  signed_rem = elim (int32-cases a) [
    | inl (s, e) ↦ elim (int32-cases b) [
      | inl (t, f) ↦ rw (e, f) (ground (arith, mod-le a b))
      | inr (t, f) ↦
          rw (e, f)
            (rw (suc_lem b q, negated_lem b (omega arith) q)
              (ground (arith, mod-le a (2 ^ 32 - b))))
    ]
    | inr (s, e) ↦ elim (int32-cases b) [
      | inl (t, f) ↦
          rw (e, f)
            (let small = mod-le (2 ^ 32 - a) b in
              rw
                (
                  suc_lem a p,
                  wrap-neg ((2 ^ 32 - a) % b) (omega (arith, small)),
                  negated_lem a (omega arith) p,
                )
                (ground (arith, small)))
      | inr (t, f) ↦
          rw (e, f)
            (let small = mod-le (2 ^ 32 - a) (2 ^ 32 - b) in
              rw
                (
                  suc_lem a p,
                  suc_lem b q,
                  wrap-neg ((2 ^ 32 - a) % (2 ^ 32 - b)) (omega (arith, small)),
                  negated_lem a (omega arith) p,
                  negated_lem b (omega arith) q,
                )
                (ground (arith, small)))
    ]
  ]

-- With sign type 0 the quotient and the remainder of `divide_rv32im` are what DIVU and REMU of the
-- emulator write, with sign type 1 what DIV and REM write, the special cases included.
pub divide-IsDivision : (imm a b : ℕ) → IsWord a → IsWord b → IsDivision imm a b
unfolding divide_rv32im
divide-IsDivision imm a b p q = record {
  divu_eq = div_out-divu imm a b;
  remu_eq = div_out-remu imm a b;
  div_eq = div_out-div imm a b ∙ signed_div imm a b p q;
  rem_eq = div_out-rem imm a b ∙ signed_rem imm a b p q;
}
