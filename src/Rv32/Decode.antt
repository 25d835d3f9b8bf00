-- ===== src/Rv32/Decode.antt =====
-- `DecodedInst` of zirgen/circuit/rv32im/shared/rv32im.h: the fields of an instruction word and its
-- five immediates, with the masks and shifts of the source.
pub mod Laws
use zirgen.Prelude.{ℕ, bit_and, bit_or}
use zirgen.Word.{mul32, shl32, shr}

pub record DecodedInst : Type 0 where
  pub inst : ℕ
  pub top_bit : ℕ
  pub func7 : ℕ
  pub rs2 : ℕ
  pub rs1 : ℕ
  pub func3 : ℕ
  pub rd : ℕ
  pub opcode : ℕ

-- The constructor.
unfoldable pub decode : ℕ → DecodedInst
decode inst = record {
  inst = inst;
  top_bit = shr (bit_and inst 0x80000000) 31;
  func7 = shr (bit_and inst 0xfe000000) 25;
  rs2 = shr (bit_and inst 0x01f00000) 20;
  rs1 = shr (bit_and inst 0x000f8000) 15;
  func3 = shr (bit_and inst 0x00007000) 12;
  rd = shr (bit_and inst 0x00000f80) 7;
  opcode = bit_and inst 0x0000007f;
}

unfoldable pub imm_b : DecodedInst → ℕ
imm_b d =
    bit_or
      (bit_or (bit_or (mul32 d.top_bit 0xfffff000) (shl32 (bit_and d.rd 1) 11))
        (shl32 (bit_and d.func7 0x3f) 5))
      (bit_and d.rd 0x1e)

unfoldable pub imm_i : DecodedInst → ℕ
imm_i d = bit_or (bit_or (mul32 d.top_bit 0xfffff000) (shl32 d.func7 5)) d.rs2

unfoldable pub imm_s : DecodedInst → ℕ
imm_s d = bit_or (bit_or (mul32 d.top_bit 0xfffff000) (shl32 d.func7 5)) d.rd

unfoldable pub imm_j : DecodedInst → ℕ
imm_j d =
    bit_or
      (bit_or
        (bit_or (bit_or (bit_or (mul32 d.top_bit 0xfff00000) (shl32 d.rs1 15)) (shl32 d.func3 12))
          (shl32 (bit_and d.rs2 1) 11))
        (shl32 (bit_and d.func7 0x3f) 5))
      (bit_and d.rs2 0x1e)

unfoldable pub imm_u : DecodedInst → ℕ
imm_u d = bit_and d.inst 0xfffff000
