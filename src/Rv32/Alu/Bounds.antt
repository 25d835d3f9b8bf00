-- ===== src/Rv32/Alu/Bounds.antt =====
-- The results of the switches are words, and the switches cover what they are called for.
use zirgen.Prelude.{
  ℕ, ◌%◌, ◌^◌, ◌<◌, ◌≤◌, ◌≡◌, Bool, true, Option, none, some, arith, ltb, ◌==◌, if◌then◌else◌,
  if_both, bit_and,
}
use native.Mathlib.Nat.{div-le_self, mod-le, mod-lt, one-le-pow}
use zirgen.Bits.{bit_and-lt, bit_or-lt, bit_xor-lt}
use zirgen.Word.{IsWord, shr}
use zirgen.Word.Signed.{ℤ, pos, negsuc, ◌*ℤ◌, tdiv, tmod, asr, int32, wrap}
use zirgen.Rv32.Inst.{InstType, add, get_major, lb, lh, lw, lbu, lhu, sb, sh, sw}
use zirgen.Rv32.Decode.{DecodedInst, decode, imm_b, imm_i, imm_s, imm_j, imm_u}
use zirgen.Rv32.Decode.Laws.{
  decode-IsDecoded, imm_b_lem, imm_i_lem, imm_s_lem, imm_j_lem, imm_u_lem,
}
use zirgen.Rv32.Alu.Memory.{load_out-IsLoaded, store_out-IsStored}
use zirgen.Rv32.Alu.{
  Misc, misc, mul_out, div_out, Access, value, misaligned, impossible, load_out, store_out,
}

-- What the emulator needs of a decoded instruction.
pub record FieldsFit (d : DecodedInst) : Type 0 where
  pub rd : d.rd < 32
  pub rs1 : d.rs1 < 32
  pub rs2 : d.rs2 < 32
  pub word_imm_b : IsWord (imm_b d)
  pub word_imm_i : IsWord (imm_i d)
  pub word_imm_s : IsWord (imm_s d)
  pub word_imm_j : IsWord (imm_j d)
  pub word_imm_u : IsWord (imm_u d)

abbrev pub MiscFits : Option Misc → Type 0
MiscFits none = ⊥
MiscFits (some r) = (r.rd < 32) × IsWord r.out × IsWord r.new_pc

abbrev pub OutFits : Option ℕ → Type 0
OutFits none = ⊥
OutFits (some v) = IsWord v

abbrev pub AccessFits : Access → Type 0
AccessFits (value v) = IsWord v
AccessFits misaligned = Unit
AccessFits impossible = ⊥

module _ (d : DecodedInst) (pc rs1 rs2 : ℕ) (f : FieldsFit d) (p : IsWord rs1)
    (q : IsWord rs2) where
  pub misc-MiscFits :
      (type : InstType) → ltb (get_major type) 3 ≡ true → MiscFits (misc d pc type rs1 rs2)
  unfolding misc get_major
  misc-MiscFits add h = omega arith
  misc-MiscFits _ h = ground (
    arith,
    bit_and-lt 32 rs1 rs2 p q,
    bit_or-lt 32 rs1 rs2 p q,
    bit_xor-lt 32 rs1 rs2 p q,
    bit_and-lt 32 rs1 (imm_i d) p f.word_imm_i,
    bit_or-lt 32 rs1 (imm_i d) p f.word_imm_i,
    bit_xor-lt 32 rs1 (imm_i d) p f.word_imm_i,
  )

wrap-lt : (k : ℕ) (x : ℤ) → wrap (2 ^ k) x < 2 ^ k
unfolding wrap
wrap-lt k (pos n) = mod-lt n (one-le-pow k 2 (omega arith))
wrap-lt k (negsuc n) = omega (arith, one-le-pow k 2)

shr-le : (a k : ℕ) → shr a k ≤ a
shr-le a k = div-le_self a (2 ^ k)

module _ (imm rs1 rs2 : ℕ) (p : IsWord rs1) where
  pub mul_out-OutFits :
      (type : InstType) → (get_major type == 3) ≡ true → OutFits (mul_out imm rs1 rs2 type)
  unfolding mul_out get_major
  mul_out-OutFits add h = ground arith
  mul_out-OutFits _ h =
      ground (arith, wrap-lt 64 (int32 rs1 *ℤ int32 rs2), wrap-lt 64 (int32 rs1 *ℤ pos rs2))

  pub div_out-OutFits :
      (type : InstType) → (get_major type == 4) ≡ true → OutFits (div_out imm rs1 rs2 type)
  unfolding div_out get_major
  div_out-OutFits add h = ground arith
  div_out-OutFits _ h = ground (
    arith,
    shr-le rs1 (bit_and rs2 31),
    shr-le rs1 (bit_and imm 31),
    div-le_self rs1 rs2,
    mod-le rs1 rs2,
    wrap-lt 32 (asr (int32 rs1) (bit_and rs2 31)),
    wrap-lt 32 (asr (int32 rs1) (bit_and imm 31)),
    wrap-lt 32 (tdiv (int32 rs1) (int32 rs2)),
    wrap-lt 32 (tmod (int32 rs1) (int32 rs2)),
  )

value-fits : (b : Bool) (v : ℕ) → IsWord v → AccessFits (if b then value v else misaligned)
value-fits b v h = if_both AccessFits b h tt

module _ (addr word : ℕ) (h : IsWord word) where
  pub load_out-AccessFits :
      (type : InstType) → (get_major type == 5) ≡ true → AccessFits (load_out type addr word)
  unfolding get_major
  load_out-AccessFits lb e = rw (load_out-IsLoaded addr word h).lb_eq (ground arith)
  load_out-AccessFits lh e =
      rw (load_out-IsLoaded addr word h).lh_eq (value-fits (addr % 2 == 0) _ (ground arith))
  load_out-AccessFits lw e =
      rw (load_out-IsLoaded addr word h).lw_eq (value-fits (addr % 4 == 0) _ h)
  load_out-AccessFits lbu e = rw (load_out-IsLoaded addr word h).lbu_eq (omega arith)
  load_out-AccessFits lhu e =
      rw (load_out-IsLoaded addr word h).lhu_eq (value-fits (addr % 2 == 0) _ (omega arith))
  load_out-AccessFits _ e = cc

  pub store_out-AccessFits :
      (rs2 : ℕ)
      → IsWord rs2
      → (type : InstType) → (get_major type == 6) ≡ true
      → AccessFits (store_out type addr word rs2)
  unfolding get_major
  store_out-AccessFits rs2 p sb e =
      let stored = store_out-IsStored addr word rs2 h in rw stored.sb_eq stored.sb_word
  store_out-AccessFits rs2 p sh e =
      let stored = store_out-IsStored addr word rs2 h in
      rw stored.sh_eq (value-fits (addr % 2 == 0) _ stored.sh_word)
  store_out-AccessFits rs2 p sw e =
      rw (store_out-IsStored addr word rs2 h).sw_eq (value-fits (addr % 4 == 0) _ p)
  store_out-AccessFits rs2 p _ e = cc

pub decode-FieldsFit : (inst : ℕ) → IsWord inst → FieldsFit (decode inst)
decode-FieldsFit inst h =
    let d = decode-IsDecoded inst in
    record {
      rd = omega arith;
      rs1 = omega arith;
      rs2 = omega arith;
      word_imm_b = rw (imm_b_lem inst h) (ground arith);
      word_imm_i = rw (imm_i_lem inst h) (ground arith);
      word_imm_s = rw (imm_s_lem inst h) (ground arith);
      word_imm_j = rw (imm_j_lem inst h) (ground arith);
      word_imm_u = rw (imm_u_lem inst h) (ground arith);
    }
