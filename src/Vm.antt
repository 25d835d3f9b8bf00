-- ===== src/Vm.antt =====
-- The version 2 machine: `R0Context` of zirgen/circuit/rv32im/v2/emu/r0vm.h, a context of the emulator
-- with two modes, traps and calls of the host, over the context that it is a template over.
pub mod Constants
pub mod Traps
pub mod Io
pub mod Poseidon
pub mod Machine
pub mod User
pub mod Terminate
pub mod Exec
mod Tests
use zirgen.Prelude.{ℕ, ◌+◌, Bool, true, false, List, ◌==◌, if◌then◌else◌}
use zirgen.Prelude.Result.{ok, throws}
use zirgen.Rv32.Inst.{InstType, TrapCause}
use zirgen.Rv32.Decode.{DecodedInst}
use zirgen.Rv32.Context.{M, ◌>>=◌}
use zirgen.Vm.Constants.{machine_regs_word, user_regs_word}

-- What `R0Context` calls of its template parameter. `read` returns the bytes that the host gave.
-- The numbers of a Poseidon2 cycle are its state and the one that follows.
pub record Host (H : Type 0) : Type 0 where
  pub load : ℕ → M H ℕ
  pub store : ℕ → ℕ → M H (Unit {0})
  pub host_peek : ℕ → M H ℕ
  pub read : ℕ → ℕ → M H (List ℕ)
  pub write : ℕ → List ℕ → M H ℕ
  pub ecall_cycle : ℕ → ℕ → ℕ → ℕ → ℕ → M H (Unit {0})
  pub p2_cycle : ℕ → ℕ → M H (Unit {0})
  pub trap_rewind : M H (Unit {0})
  pub trap : TrapCause → M H (Unit {0})
  pub instruction : InstType → DecodedInst → M H (Unit {0})
  pub resume : M H (Unit {0})
  pub suspend : M H (Unit {0})

-- `pc` and `machineMode` belong to the host's object in the source.
pub record Vm (H : Type 0) : Type 0 where
  pub host : H
  pub pc : ℕ
  pub machine_mode : ℕ
  pub done : Bool
  pub exit_code : ℕ

unfoldable pub fresh : {H : Type 0} → H → Vm H
fresh host = record { host = host; pc = 0; machine_mode = 0; done = false; exit_code = 0 }

-- A call of the host.
abbrev pub lift : {H A : Type 0} → M H A → M (Vm H) A
lift m s = elim (m s.host) [ ok (a, h) ↦ ok (a, record s { host = h }) | throws e ↦ throws e ]

unfoldable pub get_pc : {H : Type 0} → M (Vm H) ℕ
get_pc s = ok (s.pc, s)

unfoldable pub set_pc : {H : Type 0} → ℕ → M (Vm H) (Unit {0})
set_pc pc s = ok (tt, record s { pc = pc })

unfoldable pub get_mode : {H : Type 0} → M (Vm H) ℕ
get_mode s = ok (s.machine_mode, s)

unfoldable pub set_mode : {H : Type 0} → ℕ → M (Vm H) (Unit {0})
set_mode mode s = ok (tt, record s { machine_mode = mode })

unfoldable pub set_done : {H : Type 0} → M (Vm H) (Unit {0})
set_done s = ok (tt, record s { done = true })

abbrev pub regs_word : ℕ → ℕ
regs_word mode = if mode == 0 then user_regs_word else machine_regs_word

module _ {H : Type 0} (c : Host H) where
  abbrev pub load_mem : ℕ → M (Vm H) ℕ
  load_mem word = lift (c.load word)

  abbrev pub store_mem : ℕ → ℕ → M (Vm H) (Unit {0})
  store_mem word val = lift (c.store word val)

  unfoldable pub load_reg : ℕ → M (Vm H) ℕ
  load_reg reg = do mode ← get_mode; load_mem (regs_word mode + reg)

  -- What is written to register 0 goes 64 words above.
  unfoldable pub store_reg : ℕ → ℕ → M (Vm H) (Unit {0})
  store_reg reg val = do
    mode ← get_mode
    store_mem ((if reg == 0 then regs_word mode + 64 else regs_word mode) + reg) val
