-- ===== src/Vm/Machine.antt =====
-- `R0Context` of zirgen/circuit/rv32im/v2/emu/r0vm.h: the checks of addresses, the calls, and the
-- machine as a context of the emulator.
use zirgen.Prelude.{ℕ, ◌/◌, not, ◌&&◌, ◌||◌, Bool, false, ltb, leb, ◌==◌, if◌then◌else◌}
use zirgen.Prelude.Result.{ok}
use zirgen.Word.{add32}
use zirgen.Rv32.Context.{M, Context, ◌>>=◌, ◌>>◌, return, raise, no_machine_ecall}
use zirgen.Vm.{Host, Vm, lift, get_pc, set_pc, get_mode, load_mem, store_mem, load_reg, store_reg}
use zirgen.Vm.Constants.{
  zero_page_end_word, kernel_start_word, reg_a7, state_machine_ecall, state_poseidon_entry,
}
use zirgen.Vm.Traps.{do_trap, do_user_ecall, do_mret}
use zirgen.Vm.Io.{do_terminate, do_host_read, do_host_write}
use zirgen.Vm.Poseidon.{p2_ecall}

module _ {H : Type 0} (c : Host H) where
  unfoldable pub check_inst_load : ℕ → M (Vm H) Bool
  check_inst_load addr = do
    mode ← get_mode
    return (
        not (ltb (addr / 4) zero_page_end_word)
        && not ((mode == 0) && leb kernel_start_word (addr / 4)))

  unfoldable pub check_data_load : ℕ → M (Vm H) Bool
  check_data_load addr = do
    mode ← get_mode
    return
        (not (mode == 0) || (leb zero_page_end_word (addr / 4) && ltb (addr / 4) kernel_start_word))

  unfoldable pub do_poseidon2 : M (Vm H) Bool
  unfolding p2_ecall
  do_poseidon2 = do
    pc ← get_pc
    set_pc (add32 pc 4)
    lift (c.ecall_cycle state_machine_ecall state_poseidon_entry 0 0 0)
    lift (p2_ecall c)
    return false

  unfoldable pub do_machine_ecall : M (Vm H) Bool
  unfolding load_reg do_terminate do_host_read do_host_write do_poseidon2
  do_machine_ecall = do
    call ← load_reg c reg_a7
    if call == 0
        then do_terminate c
        else (if call == 1
            then do_host_read c
            else (if call == 2
                then do_host_write c
                else (if call == 3 then do_poseidon2 else raise no_machine_ecall)))

  unfoldable pub do_ecall : M (Vm H) Bool
  unfolding do_machine_ecall do_user_ecall
  do_ecall = do
    mode ← get_mode
    if mode == 0 then do_user_ecall c else (do_machine_ecall >>= λ _. return false)

  unfoldable pub r0_context : Context (Vm H)
  unfolding check_inst_load check_data_load do_ecall do_mret do_trap load_reg store_reg
  r0_context = record {
    is_done = λ s. ok (s.done, s);
    check_inst_load = check_inst_load;
    check_data_load = check_data_load;
    check_data_store = check_data_load;
    do_ecall = do_ecall;
    do_mret = do_mret c;
    do_trap = do_trap c;
    inst_decoded = λ type d. return tt;
    end_normal = λ type d. lift (c.instruction type d);
    get_pc = get_pc;
    set_pc = set_pc;
    load_reg = load_reg c;
    store_reg = store_reg c;
    load_mem = load_mem c;
    store_mem = store_mem c;
  }
