-- ===== src/Rv32/Alu.antt =====
-- What the `switch` statements of `RV32Emulator` compute, in
-- zirgen/circuit/rv32im/shared/rv32im.h: `stepMisc`, `stepMul`, `stepDiv`, `stepLoad` and
-- `stepStore`, without their calls of the context. `none` and `impossible` are
-- `__builtin_unreachable`, and `none` also a division that C leaves undefined.
pub mod Mul
pub mod Div
pub mod Memory
pub mod Bounds
use zirgen.Prelude.{
  ℕ, ◌*◌, ◌/◌, ◌%◌, ◌^◌, Bool, not, ◌&&◌, ◌||◌, Option, none, some, bit_and, bit_or, bit_xor, ltb,
  ◌==◌, if◌then◌else◌,
}
use zirgen.Word.{add32, sub32, mul32, shl32, shr}
use zirgen.Word.Signed.{◌*ℤ◌, pos, tdiv, tmod, asr, ltb_ℤ, int32, wrap}
use zirgen.Rv32.Inst.{
  InstType, add, sub, xor, or, and, slt, sltu, addi, xori, ori, andi, slti, sltiu, beq, bne, blt,
  bge, bltu, bgeu, jal, jalr, lui, auipc, sll, slli, mul, mulh, mulhsu, mulhu, srl, sra, srli, srai,
  div, divu, rem, remu, lb, lh, lw, lbu, lhu, sb, sh, sw,
}
use zirgen.Rv32.Decode.{DecodedInst, imm_b, imm_i, imm_j, imm_u}

-- The local variables of `stepMisc` after its `switch`.
pub record Misc : Type 0 where
  pub rd : ℕ
  pub out : ℕ
  pub new_pc : ℕ

abbrev pub bit : Bool → ℕ
bit b = if b then 1 else 0

module _ (d : DecodedInst) (pc : ℕ) where
  -- A value for `rd`, and on to the next instruction.
  abbrev writes : ℕ → Option Misc
  writes v = some (record { rd = d.rd; out = v; new_pc = add32 pc 4 })

  -- `br_cond`
  abbrev br_cond : Bool → Option Misc
  br_cond cond =
      some (record { rd = 0; out = 0; new_pc = if cond then add32 pc (imm_b d) else add32 pc 4 })

  -- A jump leaves the address behind it.
  abbrev jumps : ℕ → Option Misc
  jumps target = some (record { rd = d.rd; out = add32 pc 4; new_pc = target })

  unfoldable pub misc : InstType → ℕ → ℕ → Option Misc
  misc add rs1 rs2 = writes (add32 rs1 rs2)
  misc sub rs1 rs2 = writes (sub32 rs1 rs2)
  misc xor rs1 rs2 = writes (bit_xor rs1 rs2)
  misc or rs1 rs2 = writes (bit_or rs1 rs2)
  misc and rs1 rs2 = writes (bit_and rs1 rs2)
  misc slt rs1 rs2 = writes (bit (ltb_ℤ (int32 rs1) (int32 rs2)))
  misc sltu rs1 rs2 = writes (bit (ltb rs1 rs2))
  misc addi rs1 rs2 = writes (add32 rs1 (imm_i d))
  misc xori rs1 rs2 = writes (bit_xor rs1 (imm_i d))
  misc ori rs1 rs2 = writes (bit_or rs1 (imm_i d))
  misc andi rs1 rs2 = writes (bit_and rs1 (imm_i d))
  misc slti rs1 rs2 = writes (bit (ltb_ℤ (int32 rs1) (int32 (imm_i d))))
  misc sltiu rs1 rs2 = writes (bit (ltb rs1 (imm_i d)))
  misc beq rs1 rs2 = br_cond (rs1 == rs2)
  misc bne rs1 rs2 = br_cond (not (rs1 == rs2))
  misc blt rs1 rs2 = br_cond (ltb_ℤ (int32 rs1) (int32 rs2))
  misc bge rs1 rs2 = br_cond (not (ltb_ℤ (int32 rs1) (int32 rs2)))
  misc bltu rs1 rs2 = br_cond (ltb rs1 rs2)
  misc bgeu rs1 rs2 = br_cond (not (ltb rs1 rs2))
  misc jal rs1 rs2 = jumps (add32 pc (imm_j d))
  misc jalr rs1 rs2 = jumps (add32 rs1 (imm_i d))
  misc lui rs1 rs2 = writes (imm_u d)
  misc auipc rs1 rs2 = writes (add32 pc (imm_u d))
  misc _ rs1 rs2 = none

module _ (imm_i rs1 rs2 : ℕ) where
  unfoldable pub mul_out : InstType → Option ℕ
  mul_out sll = some (shl32 rs1 (bit_and rs2 0x1f))
  mul_out slli = some (shl32 rs1 (bit_and imm_i 0x1f))
  mul_out mul = some (mul32 rs1 rs2)
  mul_out mulh = some (shr (wrap (2 ^ 64) (int32 rs1 *ℤ int32 rs2)) 32)
  mul_out mulhsu = some (shr (wrap (2 ^ 64) (int32 rs1 *ℤ pos rs2)) 32)
  mul_out mulhu = some (shr (rs1 * rs2 % 2 ^ 64) 32)
  mul_out _ = none

  -- The quotient INT32_MIN / -1, which overflows in C, is taken apart first.
  abbrev pub overflows : Bool
  overflows = rs1 == 0x80000000 && rs2 == 0xffffffff

  -- C leaves a division by 0 undefined, and the one that overflows.
  abbrev defined : Bool → ℕ → Option ℕ
  defined bad v = if bad then none else some v

  unfoldable pub div_out : InstType → Option ℕ
  div_out srl = some (shr rs1 (bit_and rs2 0x1f))
  div_out sra = some (wrap (2 ^ 32) (asr (int32 rs1) (bit_and rs2 0x1f)))
  div_out srli = some (shr rs1 (bit_and imm_i 0x1f))
  div_out srai = some (wrap (2 ^ 32) (asr (int32 rs1) (bit_and imm_i 0x1f)))
  div_out slli = some (shl32 rs1 (bit_and imm_i 0x1f))
  div_out div =
      if overflows
      then some rs1
      else (if rs2 == 0
          then some 0xffffffff
          else defined (overflows || rs2 == 0) (wrap (2 ^ 32) (tdiv (int32 rs1) (int32 rs2))))
  div_out divu = if rs2 == 0 then some 0xffffffff else defined (rs2 == 0) (rs1 / rs2)
  div_out rem =
      if overflows
      then some 0
      else (if rs2 == 0
          then some rs1
          else defined (overflows || rs2 == 0) (wrap (2 ^ 32) (tmod (int32 rs1) (int32 rs2))))
  div_out remu = if rs2 == 0 then some rs1 else defined (rs2 == 0) (rs1 % rs2)
  div_out _ = none

pub data Access : Type 0 where
  value : ℕ → Access
  misaligned impossible : Access

-- `if (addr & mask) return doTrap(..._ADDRESS_MISALIGNED)`
abbrev aligned : ℕ → ℕ → ℕ → Access
aligned addr mask v = if bit_and addr mask == 0 then value v else misaligned

-- `if (out & top) out |= high`
abbrev extend : ℕ → ℕ → ℕ → ℕ
extend top high out = if bit_and out top == 0 then out else bit_or out high

abbrev shift : ℕ → ℕ
shift addr = 8 * bit_and addr 3

-- `data` is the word at `addr / 4`.
unfoldable pub load_out : InstType → ℕ → ℕ → Access
load_out lb addr word = value (extend 0x80 0xffffff00 (bit_and (shr word (shift addr)) 0xff))
load_out lh addr word =
    aligned addr 1 (extend 0x8000 0xffff0000 (bit_and (shr word (shift addr)) 0xffff))
load_out lw addr word = aligned addr 3 word
load_out lbu addr word = value (bit_and (shr word (shift addr)) 0xff)
load_out lhu addr word = aligned addr 1 (bit_and (shr word (shift addr)) 0xffff)
load_out _ addr word = impossible

-- `data ^= data & (mask << shift); data |= (rs2 & mask) << shift;`
unfoldable pub merge : ℕ → ℕ → ℕ → ℕ → ℕ
merge mask k word rs2 =
    bit_or (bit_xor word (bit_and word (shl32 mask k))) (shl32 (bit_and rs2 mask) k)

unfoldable pub store_out : InstType → ℕ → ℕ → ℕ → Access
unfolding merge
store_out sb addr word rs2 = value (merge 0xff (shift addr) word rs2)
store_out sh addr word rs2 = aligned addr 1 (merge 0xffff (shift addr) word rs2)
store_out sw addr word rs2 = aligned addr 3 rs2
store_out _ addr word rs2 = impossible
