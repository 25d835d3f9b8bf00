-- ===== src/Vm/Traps.antt =====
-- `R0Context` of zirgen/circuit/rv32im/v2/emu/r0vm.h: traps, calls of user mode, and the way back.
use zirgen.Prelude.{ℕ, ◌+◌, ◌%◌, not, ◌||◌, Bool, true, false, ltb, leb, ◌==◌}
use zirgen.Word.{add32}
use zirgen.Rv32.Inst.{
  TrapCause, instruction_address_misaligned, instruction_access_fault, illegal_instruction,
  breakpoint, load_address_misaligned, load_access_fault, store_address_misaligned,
  store_access_fault, environment_call_from_u_mode,
}
use zirgen.Rv32.Context.{
  M, ◌>>=◌, ◌>>◌, return, raise, unless, trap_in_machine_mode, bad_trap_address, mret_in_user_mode,
}
use zirgen.Vm.{Host, Vm, lift, get_pc, set_pc, get_mode, set_mode, load_mem, store_mem, load_reg}
use zirgen.Vm.Constants.{
  kernel_start_addr, mepc_word, suspend_pc_word, suspend_mode_word, ecall_dispatch_word,
  trap_dispatch_word, reg_a7,
}

-- The value of the enumerator.
unfoldable pub cause_code : TrapCause → ℕ
cause_code instruction_address_misaligned = 0
cause_code instruction_access_fault = 1
cause_code illegal_instruction = 2
cause_code breakpoint = 3
cause_code load_address_misaligned = 4
cause_code load_access_fault = 5
cause_code store_address_misaligned = 6
cause_code store_access_fault = 7
cause_code environment_call_from_u_mode = 8

abbrev pub bad_dispatch : ℕ → Bool
bad_dispatch addr = not (addr % 4 == 0) || ltb addr kernel_start_addr

module _ {H : Type 0} (c : Host H) where
  unfoldable pub resume : M (Vm H) (Unit {0})
  resume = do
    pc ← load_mem c suspend_pc_word
    set_pc pc
    mode ← load_mem c suspend_mode_word
    set_mode mode
    lift c.resume

  unfoldable pub suspend : M (Vm H) (Unit {0})
  suspend = do
    pc ← get_pc
    store_mem c suspend_pc_word pc
    mode ← get_mode
    store_mem c suspend_mode_word mode
    lift c.suspend

  unfoldable pub enter_trap : ℕ → M (Vm H) (Unit {0})
  enter_trap addr = do
    mode ← get_mode
    unless (not (mode == 0)) (raise trap_in_machine_mode)
        (do pc ← get_pc; store_mem c mepc_word pc; set_pc addr; set_mode 1)

  unfoldable pub do_trap : TrapCause → M (Vm H) Bool
  unfolding cause_code enter_trap
  do_trap cause = do
    lift c.trap_rewind
    dispatch_addr ← load_mem c (trap_dispatch_word + cause_code cause)
    unless (bad_dispatch dispatch_addr) (raise bad_trap_address)
        (do enter_trap dispatch_addr; lift (c.trap cause); return false)

  unfoldable pub do_user_ecall : M (Vm H) Bool
  unfolding load_reg do_trap enter_trap
  do_user_ecall = do
    dispatch ← load_reg c reg_a7
    unless (leb 512 dispatch) (do_trap environment_call_from_u_mode) (do
      dispatch_addr ← load_mem c (ecall_dispatch_word + dispatch)
      unless (bad_dispatch dispatch_addr) (do_trap environment_call_from_u_mode)
          (do enter_trap dispatch_addr; return true))

  unfoldable pub do_mret : M (Vm H) Bool
  do_mret = do
    mode ← get_mode
    unless (mode == 0) (raise mret_in_user_mode)
        (do pc ← load_mem c mepc_word; set_pc (add32 pc 4); set_mode 0; return true)
