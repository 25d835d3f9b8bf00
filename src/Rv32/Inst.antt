-- ===== src/Rv32/Inst.antt =====
-- The instruction table: zirgen/circuit/rv32im/shared/rv32im.h, `ALL_INSTS`, `InstType`, `getMajor`,
-- `getMinor` and `TrapCause`.
use zirgen.Prelude.{ℕ, ◌/◌, ◌%◌, Option, none, some, List, [], ◌∷◌}

pub data InstType : Type 0 where
  add sub xor or and slt sltu addi xori ori andi slti : InstType
  sltiu beq bne blt bge bltu bgeu jal jalr lui auipc sll : InstType
  slli mul mulh mulhsu mulhu srl sra srli srai div divu rem : InstType
  remu lb lh lw lbu lhu sb sh sw eany mret : InstType
  invalid : InstType

-- The value of the enumerator, `major * 8 + minor`.
unfoldable pub code : InstType → ℕ
code add = 0
code sub = 1
code xor = 2
code or = 3
code and = 4
code slt = 5
code sltu = 6
code addi = 7
code xori = 8
code ori = 9
code andi = 10
code slti = 11
code sltiu = 12
code beq = 13
code bne = 14
code blt = 15
code bge = 16
code bltu = 17
code bgeu = 18
code jal = 19
code jalr = 20
code lui = 21
code auipc = 22
code sll = 24
code slli = 25
code mul = 26
code mulh = 27
code mulhsu = 28
code mulhu = 29
code srl = 32
code sra = 33
code srli = 34
code srai = 35
code div = 36
code divu = 37
code rem = 38
code remu = 39
code lb = 40
code lh = 41
code lw = 42
code lbu = 43
code lhu = 44
code sb = 48
code sh = 49
code sw = 50
code eany = 56
code mret = 57
code invalid = 255

unfoldable pub get_major : InstType → ℕ
unfolding code
get_major inst = code inst / 8

unfoldable pub get_minor : InstType → ℕ
unfolding code
get_minor inst = code inst % 8

-- A line of the table; `none` stands for its -1, which matches every value.
pub record Entry : Type 0 where
  pub major : ℕ
  pub minor : ℕ
  pub opcode : ℕ
  pub func3 : Option ℕ
  pub func7 : Option ℕ
  pub inst : InstType

abbrev entry : ℕ → ℕ → ℕ → Option ℕ → Option ℕ → InstType → Entry
entry major minor opcode func3 func7 inst = record {
  major = major;
  minor = minor;
  opcode = opcode;
  func3 = func3;
  func7 = func7;
  inst = inst;
}

abbrev pub all_insts : List Entry
all_insts =
    entry 0 0 0x33 (some 0x0) (some 0x00) add
    ∷ entry 0 1 0x33 (some 0x0) (some 0x20) sub
    ∷ entry 0 2 0x33 (some 0x4) (some 0x00) xor
    ∷ entry 0 3 0x33 (some 0x6) (some 0x00) or
    ∷ entry 0 4 0x33 (some 0x7) (some 0x00) and
    ∷ entry 0 5 0x33 (some 0x2) (some 0x00) slt
    ∷ entry 0 6 0x33 (some 0x3) (some 0x00) sltu
    ∷ entry 0 7 0x13 (some 0x0) none addi
    ∷ entry 1 0 0x13 (some 0x4) none xori
    ∷ entry 1 1 0x13 (some 0x6) none ori
    ∷ entry 1 2 0x13 (some 0x7) none andi
    ∷ entry 1 3 0x13 (some 0x2) none slti
    ∷ entry 1 4 0x13 (some 0x3) none sltiu
    ∷ entry 1 5 0x63 (some 0x0) none beq
    ∷ entry 1 6 0x63 (some 0x1) none bne
    ∷ entry 1 7 0x63 (some 0x4) none blt
    ∷ entry 2 0 0x63 (some 0x5) none bge
    ∷ entry 2 1 0x63 (some 0x6) none bltu
    ∷ entry 2 2 0x63 (some 0x7) none bgeu
    ∷ entry 2 3 0x6f none none jal
    ∷ entry 2 4 0x67 (some 0x0) none jalr
    ∷ entry 2 5 0x37 none none lui
    ∷ entry 2 6 0x17 none none auipc
    ∷ entry 3 0 0x33 (some 0x1) (some 0x00) sll
    ∷ entry 3 1 0x13 (some 0x1) (some 0x00) slli
    ∷ entry 3 2 0x33 (some 0x0) (some 0x01) mul
    ∷ entry 3 3 0x33 (some 0x1) (some 0x01) mulh
    ∷ entry 3 4 0x33 (some 0x2) (some 0x01) mulhsu
    ∷ entry 3 5 0x33 (some 0x3) (some 0x01) mulhu
    ∷ entry 4 0 0x33 (some 0x5) (some 0x00) srl
    ∷ entry 4 1 0x33 (some 0x5) (some 0x20) sra
    ∷ entry 4 2 0x13 (some 0x5) (some 0x00) srli
    ∷ entry 4 3 0x13 (some 0x5) (some 0x20) srai
    ∷ entry 4 4 0x33 (some 0x4) (some 0x01) div
    ∷ entry 4 5 0x33 (some 0x5) (some 0x01) divu
    ∷ entry 4 6 0x33 (some 0x6) (some 0x01) rem
    ∷ entry 4 7 0x33 (some 0x7) (some 0x01) remu
    ∷ entry 5 0 0x03 (some 0x0) none lb
    ∷ entry 5 1 0x03 (some 0x1) none lh
    ∷ entry 5 2 0x03 (some 0x2) none lw
    ∷ entry 5 3 0x03 (some 0x4) none lbu
    ∷ entry 5 4 0x03 (some 0x5) none lhu
    ∷ entry 6 0 0x23 (some 0x0) none sb
    ∷ entry 6 1 0x23 (some 0x1) none sh
    ∷ entry 6 2 0x23 (some 0x2) none sw
    ∷ entry 7 0 0x73 (some 0x0) (some 0x00) eany
    ∷ entry 7 1 0x73 (some 0x0) (some 0x18) mret
    ∷ []

pub data TrapCause : Type 0 where
  instruction_address_misaligned instruction_access_fault illegal_instruction : TrapCause
  breakpoint load_address_misaligned load_access_fault : TrapCause
  store_address_misaligned store_access_fault environment_call_from_u_mode : TrapCause
