-- ===== src/Rv32/Emulator.antt =====
-- `RV32Emulator` of zirgen/circuit/rv32im/shared/rv32im.h over any context: the calls of the
-- context in the order of the source.
pub mod Laws
pub mod Run
use zirgen.Prelude.{
  ℕ, zero, suc, ◌/◌, ◌%◌, Bool, true, not, Option, none, some, bit_and, ltb, ◌==◌, if◌then◌else◌,
}
use zirgen.Word.{add32}
use zirgen.Rv32.Inst.{
  InstType, eany, mret, get_major, instruction_address_misaligned, instruction_access_fault,
  illegal_instruction, breakpoint, load_address_misaligned, load_access_fault,
  store_address_misaligned, store_access_fault,
}
use zirgen.Rv32.Decode.{DecodedInst, decode, imm_i, imm_s}
use zirgen.Rv32.Table.{lookup}
use zirgen.Rv32.Context.{M, Context, ◌>>=◌, ◌>>◌, return, raise, unless, unreachable}
use zirgen.Rv32.Alu.{
  Misc, misc, mul_out, div_out, Access, value, misaligned, impossible, load_out, store_out,
}

module _ {S : Type 0} (c : Context S) where
  -- The end of `stepMisc`.
  unfoldable pub finish_misc : Option Misc → M S Bool
  finish_misc none = raise unreachable
  finish_misc (some r) =
      unless (not (r.new_pc % 4 == 0)) (c.do_trap instruction_address_misaligned)
        (do c.store_reg r.rd r.out; c.set_pc r.new_pc; return true)

  unfoldable pub step_misc : InstType → DecodedInst → M S Bool
  unfolding finish_misc
  step_misc type d = do
    pc ← c.get_pc
    rs1 ← c.load_reg d.rs1
    rs2 ← c.load_reg d.rs2
    finish_misc (misc d pc type rs1 rs2)

  -- `context.storeReg(decoded.rd, out); context.setPC(context.getPC() + 4);`
  unfoldable pub finish_out : ℕ → Option ℕ → M S Bool
  finish_out rd none = raise unreachable
  finish_out rd (some out) = do
    c.store_reg rd out
    pc ← c.get_pc
    c.set_pc (add32 pc 4)
    return true

  unfoldable pub step_mul : InstType → DecodedInst → M S Bool
  unfolding finish_out
  step_mul type d = do
    rs1 ← c.load_reg d.rs1
    rs2 ← c.load_reg d.rs2
    finish_out d.rd (mul_out (imm_i d) rs1 rs2 type)

  unfoldable pub step_div : InstType → DecodedInst → M S Bool
  unfolding finish_out
  step_div type d = do
    rs1 ← c.load_reg d.rs1
    rs2 ← c.load_reg d.rs2
    finish_out d.rd (div_out (imm_i d) rs1 rs2 type)

  unfoldable pub finish_load : ℕ → Access → M S Bool
  unfolding finish_out
  finish_load rd (value out) = finish_out rd (some out)
  finish_load rd misaligned = c.do_trap load_address_misaligned
  finish_load rd impossible = raise unreachable

  unfoldable pub step_load : InstType → DecodedInst → M S Bool
  unfolding finish_load
  step_load type d = do
    rs1 ← c.load_reg d.rs1
    let addr = add32 rs1 (imm_i d)
    allowed ← c.check_data_load addr
    unless (not allowed) (c.do_trap load_access_fault)
        (do word ← c.load_mem (addr / 4); finish_load d.rd (load_out type addr word))

  unfoldable pub finish_store : ℕ → Access → M S Bool
  finish_store word (value v) = do
    c.store_mem word v
    pc ← c.get_pc
    c.set_pc (add32 pc 4)
    return true
  finish_store word misaligned = c.do_trap store_address_misaligned
  finish_store word impossible = raise unreachable

  unfoldable pub step_store : InstType → DecodedInst → M S Bool
  unfolding finish_store
  step_store type d = do
    rs1 ← c.load_reg d.rs1
    rs2 ← c.load_reg d.rs2
    let addr = add32 rs1 (imm_s d)
    allowed ← c.check_data_store addr
    unless (not allowed) (c.do_trap store_access_fault)
        (do word ← c.load_mem (addr / 4); finish_store (addr / 4) (store_out type addr word rs2))

  unfoldable pub step_priv : InstType → DecodedInst → M S Bool
  step_priv eany d =
      if d.rs2 == 0
      then c.do_ecall
      else (if d.rs2 == 1 then c.do_trap breakpoint else c.do_trap illegal_instruction)
  step_priv mret d = c.do_mret
  step_priv _ d = raise unreachable

  -- `switch (getMajor(type))`
  unfoldable pub dispatch : ℕ → InstType → DecodedInst → M S Bool
  unfolding step_misc step_mul step_div step_load step_store step_priv
  dispatch major type d =
      if ltb major 3
      then step_misc type d
      else (if major == 3
          then step_mul type d
          else (if major == 4
              then step_div type d
              else (if major == 5
                  then step_load type d
                  else (if major == 6
                      then step_store type d
                      else (if major == 7
                          then step_priv type d
                          else c.do_trap illegal_instruction)))))

  -- `step` behind the fetch.
  unfoldable pub execute : ℕ → M S (Unit {0})
  unfolding dispatch
  execute inst = do
    let d = decode inst
    let type = lookup d
    c.inst_decoded type d
    ret ← dispatch (get_major type) type d
    if ret then c.end_normal type d else return tt

  unfoldable pub step : M S (Unit {0})
  unfolding execute
  step = do
    pc ← c.get_pc
    allowed ← c.check_inst_load pc
    unless (not allowed) (c.do_trap instruction_access_fault >>= λ _. return tt) (do
      inst ← c.load_mem (pc / 4)
      unless (not (bit_and inst 3 == 3)) (c.do_trap illegal_instruction >>= λ _. return tt)
          (execute inst))

  -- The loop of `run`, with `left` rounds left before `curStep` is `maxSteps`.
  unfoldable pub rounds : ℕ → M S (Unit {0})
  unfolding step
  rounds zero = c.is_done >>= λ _. return tt
  rounds (suc left) = do
    let more = rounds left
    done ← c.is_done
    unless done (return tt) (step >>= λ _. more)

  unfoldable pub run : ℕ → M S Bool
  unfolding rounds
  run max_steps = do rounds max_steps; c.is_done
