-- ===== src/Rv32/Context.antt =====
-- The `Context` that `RV32Emulator` of zirgen/circuit/rv32im/shared/rv32im.h is a template over: the
-- methods that it calls, each a function of the context's state that returns or throws.
pub mod Base
pub mod Laws
use zirgen.Prelude.{ℕ, Bool, true, false}
use zirgen.Prelude.Result.{Result, ok, throws}
use zirgen.Rv32.Inst.{InstType, TrapCause}
use zirgen.Rv32.Decode.{DecodedInst}

-- `unimplemented` is the `std::runtime_error` of `BaseContext`. The next two stand for what C++
-- leaves undefined: `__builtin_unreachable` and an index outside of an array. The others are the
-- exceptions of the version 2 emulator.
pub data Error : Type 0 where
  unimplemented unreachable out_of_range : Error
  trap_in_machine_mode bad_trap_address mret_in_user_mode : Error
  wrapping_io large_io no_machine_ecall check_failed invalid_word no_data : Error

abbrev pub M : Type 0 → Type 0 → Type 0
M S A = S → Result Error (A × S)

infixl 5 ◌>>=◌ ◌>>◌
abbrev pub ◌>>=◌ : {S A B : Type 0} → M S A → (A → M S B) → M S B
◌>>=◌ m f s = elim (m s) [ ok (a, s') ↦ f a s' | throws e ↦ throws e ]

abbrev pub ◌>>◌ : {S B : Type 0} → M S (Unit {0}) → M S B → M S B
m >> k = m >>= λ _. k

abbrev pub return : {S A : Type 0} → A → M S A
return a s = ok (a, s)

abbrev pub raise : {S A : Type 0} → Error → M S A
raise e s = throws e

-- `if (cond) { block }`, and on.
abbrev pub unless : {S A : Type 0} → Bool → M S A → M S A → M S A
unless true m k = m
unless false m k = k

pub record Context (S : Type 0) : Type 0 where
  pub is_done : M S Bool
  pub check_inst_load : ℕ → M S Bool
  pub check_data_load : ℕ → M S Bool
  pub check_data_store : ℕ → M S Bool
  pub do_ecall : M S Bool
  pub do_mret : M S Bool
  pub do_trap : TrapCause → M S Bool
  pub inst_decoded : InstType → DecodedInst → M S (Unit {0})
  pub end_normal : InstType → DecodedInst → M S (Unit {0})
  pub get_pc : M S ℕ
  pub set_pc : ℕ → M S (Unit {0})
  pub load_reg : ℕ → M S ℕ
  pub store_reg : ℕ → ℕ → M S (Unit {0})
  pub load_mem : ℕ → M S ℕ
  pub store_mem : ℕ → ℕ → M S (Unit {0})
