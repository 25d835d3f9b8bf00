-- ===== src/Rv32/Decode/Laws.antt =====
-- The fields and immediates of an instruction word, by arithmetic.
use zirgen.Prelude.{
  ℕ, ◌+◌, ◌-◌, ◌*◌, ◌/◌, ◌%◌, ◌^◌, ◌<◌, ◌≡◌, refl, arith, bit_and, bit_or, ltb, if◌then◌else◌,
}
use zirgen.Bits.Mask.{bit_and-field, bit_and-ones, bit_or_low}
use zirgen.Word.{IsWord, mul32, shl32}
use zirgen.Rv32.Decode.{DecodedInst, decode, imm_b, imm_i, imm_s, imm_j, imm_u}

-- The fields of a word, from its top to its bottom.
pub record IsDecoded (inst : ℕ) (d : DecodedInst) : Type 0 where
  pub inst_eq : d.inst ≡ inst
  pub top_bit_eq : d.top_bit ≡ inst / 2 ^ 31 % 2
  pub func7_eq : d.func7 ≡ inst / 2 ^ 25 % 128
  pub rs2_eq : d.rs2 ≡ inst / 2 ^ 20 % 32
  pub rs1_eq : d.rs1 ≡ inst / 2 ^ 15 % 32
  pub func3_eq : d.func3 ≡ inst / 2 ^ 12 % 8
  pub rd_eq : d.rd ≡ inst / 2 ^ 7 % 32
  pub opcode_eq : d.opcode ≡ inst % 128

-- The masks and shifts of the constructor of `DecodedInst` take the fields of a word apart: each
-- field is the bits of the word at its place, for every word.
pub decode-IsDecoded : (inst : ℕ) → IsDecoded inst (decode inst)
unfolding decode
decode-IsDecoded inst = record {
  inst_eq = refl;
  top_bit_eq = omega (arith, bit_and-field 31 1 inst);
  func7_eq = omega (arith, bit_and-field 25 7 inst);
  rs2_eq = omega (arith, bit_and-field 20 5 inst);
  rs1_eq = omega (arith, bit_and-field 15 5 inst);
  func3_eq = omega (arith, bit_and-field 12 3 inst);
  rd_eq = omega (arith, bit_and-field 7 5 inst);
  opcode_eq = bit_and-ones 7 inst;
}

-- The word whose `n` low bits are those of `x`, and whose other bits repeat the highest of them.
abbrev pub sign_extend : ℕ → ℕ → ℕ
sign_extend n x = if ltb x (2 ^ (n - 1)) then x else x + 2 ^ 32 - 2 ^ n

-- An upper part in steps of `2 ^ k`, a middle part of `w * 2 ^ j` and the `j` lowest bits.
or_three :
    (j k a b c : ℕ)
    → a % 2 ^ k ≡ 0
    → b < 2 ^ k
    → (a + b) % 2 ^ j ≡ 0
    → c < 2 ^ j
    → bit_or (bit_or a b) c ≡ a + b + c
or_three j k a b c p q r s = ground (arith, bit_or_low k a b p q, bit_or_low j (bit_or a b) c)

pub imm_i_lem : (inst : ℕ) → IsWord inst → imm_i (decode inst) ≡ sign_extend 12 (inst / 2 ^ 20)
unfolding imm_i
imm_i_lem inst h =
    let d = decode inst in
    let fields = decode-IsDecoded inst in
    ground (arith, or_three 5 12 (mul32 d.top_bit 0xfffff000) (shl32 d.func7 5) d.rs2)

pub imm_s_lem :
    (inst : ℕ)
    → IsWord inst
    → imm_s (decode inst) ≡ sign_extend 12 (inst / 2 ^ 25 * 32 + inst / 2 ^ 7 % 32)
unfolding imm_s
imm_s_lem inst h =
    let d = decode inst in
    let fields = decode-IsDecoded inst in
    ground (arith, or_three 5 12 (mul32 d.top_bit 0xfffff000) (shl32 d.func7 5) d.rd)

-- Bits 31, 7, 30 to 25 and 11 to 8 of a branch, times 2.
pub imm_b_lem :
    (inst : ℕ)
    → IsWord inst
    → imm_b (decode inst)
      ≡ sign_extend 13 (
          inst / 2 ^ 31 * 4096
          + inst / 2 ^ 7 % 2 * 2048
          + inst / 2 ^ 25 % 64 * 32
          + inst / 2 ^ 8 % 16 * 2)
unfolding imm_b
imm_b_lem inst h =
    let d = decode inst in
    let fields = decode-IsDecoded inst in
    let b11 = bit_and-ones 1 d.rd in
    let b5 = bit_and-ones 6 d.func7 in
    let b1 = bit_and-field 1 4 d.rd in
    let top = mul32 d.top_bit 0xfffff000 in
    let mid = shl32 (bit_and d.rd 1) 11 in
    let low = shl32 (bit_and d.func7 0x3f) 5 in
    ground (
      arith,
      or_three 11 12 top mid low,
      bit_or_low 5 (bit_or (bit_or top mid) low) (bit_and d.rd 0x1e),
    )

-- Bits 31, 19 to 12, 20 and 30 to 21 of a jump, times 2.
pub imm_j_lem :
    (inst : ℕ)
    → IsWord inst
    → imm_j (decode inst)
      ≡ sign_extend 21 (
          inst / 2 ^ 31 * 2 ^ 20
          + inst / 2 ^ 12 % 256 * 4096
          + inst / 2 ^ 20 % 2 * 2048
          + inst / 2 ^ 21 % 1024 * 2)
unfolding imm_j
imm_j_lem inst h =
    let d = decode inst in
    let fields = decode-IsDecoded inst in
    let b11 = bit_and-ones 1 d.rs2 in
    let b5 = bit_and-ones 6 d.func7 in
    let b1 = bit_and-field 1 4 d.rs2 in
    let top = mul32 d.top_bit 0xfff00000 in
    let upper = bit_or (bit_or top (shl32 d.rs1 15)) (shl32 d.func3 12) in
    let c11 = shl32 (bit_and d.rs2 1) 11 in
    let c5 = shl32 (bit_and d.func7 0x3f) 5 in
    ground (
      arith,
      or_three 15 20 top (shl32 d.rs1 15) (shl32 d.func3 12),
      or_three 11 12 upper c11 c5,
      bit_or_low 5 (bit_or (bit_or upper c11) c5) (bit_and d.rs2 0x1e),
    )

pub imm_u_lem : (inst : ℕ) → IsWord inst → imm_u (decode inst) ≡ inst / 2 ^ 12 * 2 ^ 12
unfolding imm_u
imm_u_lem inst h = let fields = decode-IsDecoded inst in ground (arith, bit_and-field 12 20 inst)

-- The five immediates of a word, sign-extended from the bits that the instruction set names.
pub record HasImmediates (inst : ℕ) (d : DecodedInst) : Type 0 where
  pub imm_i_eq : imm_i d ≡ sign_extend 12 (inst / 2 ^ 20)
  pub imm_s_eq : imm_s d ≡ sign_extend 12 (inst / 2 ^ 25 * 32 + inst / 2 ^ 7 % 32)
  pub imm_b_eq :
      imm_b d
      ≡ sign_extend 13 (
          inst / 2 ^ 31 * 4096
          + inst / 2 ^ 7 % 2 * 2048
          + inst / 2 ^ 25 % 64 * 32
          + inst / 2 ^ 8 % 16 * 2)
  pub imm_j_eq :
      imm_j d
      ≡ sign_extend 21 (
          inst / 2 ^ 31 * 2 ^ 20
          + inst / 2 ^ 12 % 256 * 4096
          + inst / 2 ^ 20 % 2 * 2048
          + inst / 2 ^ 21 % 1024 * 2)
  pub imm_u_eq : imm_u d ≡ inst / 2 ^ 12 * 2 ^ 12

-- The immediates that `immI`, `immS`, `immB`, `immJ` and `immU` put together by masks, shifts and
-- `|` of the decoded fields of a word are those of the instruction set: the named bits of the
-- word, sign-extended, or its upper 20 bits.
pub decode-HasImmediates : (inst : ℕ) → IsWord inst → HasImmediates inst (decode inst)
decode-HasImmediates inst h = record {
  imm_i_eq = imm_i_lem inst h;
  imm_s_eq = imm_s_lem inst h;
  imm_b_eq = imm_b_lem inst h;
  imm_j_eq = imm_j_lem inst h;
  imm_u_eq = imm_u_lem inst h;
}
