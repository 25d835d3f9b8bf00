-- ===== src/Rv32/Context/Base.antt =====
-- `BaseContext` of zirgen/circuit/rv32im/shared/rv32im.h, the context of the tests. The map `memory`
-- is a function into `Option`; `memory[word]` puts a 0 where the map has no entry.
pub mod Laws
use zirgen.Prelude.{
  ℕ, Bool, true, false, Option, none, some, List, ltb, ◌==◌, if◌then◌else◌, get_or, set, replicate,
}
use zirgen.Prelude.Result.{ok, throws}
use zirgen.Rv32.Context.{M, Context, unimplemented, out_of_range}

pub record BaseContext : Type 0 where
  pub done : Bool
  pub pc : ℕ
  pub regs : List ℕ
  pub memory : ℕ → Option ℕ

abbrev pub initial : BaseContext
initial = record { done = false; pc = 0; regs = replicate 32 0; memory = λ _. none }

unfoldable pub load_reg : ℕ → M BaseContext ℕ
load_reg reg s = if ltb reg 32 then ok (get_or s.regs reg 0, s) else throws out_of_range

unfoldable pub store_reg : ℕ → ℕ → M BaseContext (Unit {0})
store_reg reg val s =
    if reg == 0
    then ok (tt, s)
    else (if ltb reg 32
        then ok (tt, record s { regs = set s.regs reg val })
        else throws out_of_range)

abbrev pub update : (ℕ → Option ℕ) → ℕ → ℕ → ℕ → Option ℕ
update m k v j = if j == k then some v else m j

unfoldable pub load_mem : ℕ → M BaseContext ℕ
load_mem word s = elim (s.memory word) [
  | some v ↦ ok (v, s)
  | none ↦ ok (0, record s { memory = update s.memory word 0 })
]

unfoldable pub store_mem : ℕ → ℕ → M BaseContext (Unit {0})
store_mem word val s = ok (tt, record s { memory = update s.memory word val })

unfoldable pub base : Context BaseContext
unfolding load_reg store_reg load_mem store_mem
base = record {
  is_done = λ s. ok (s.done, s);
  check_inst_load = λ addr s. ok (true, s);
  check_data_load = λ addr s. ok (true, s);
  check_data_store = λ addr s. ok (true, s);
  do_ecall = λ s. ok (true, record s { done = true });
  do_mret = λ s. throws unimplemented;
  do_trap = λ cause s. throws unimplemented;
  inst_decoded = λ type d s. ok (tt, s);
  end_normal = λ type d s. ok (tt, s);
  get_pc = λ s. ok (s.pc, s);
  set_pc = λ pc s. ok (tt, record s { pc = pc });
  load_reg = load_reg;
  store_reg = store_reg;
  load_mem = load_mem;
  store_mem = store_mem;
}
