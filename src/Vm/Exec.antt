-- ===== src/Vm/Exec.antt =====
-- `ExecContext` of zirgen/circuit/rv32im/v2/emu/exec.cpp: the host of the machine that counts cycles
-- and passes memory on to the pages and input and output on to a handler; and `TestIoHandler`, the
-- handler of the tests.
use zirgen.Prelude.{
  ℕ, zero, suc, ◌+◌, ◌/◌, ◌%◌, ◌^◌, List, [], ◌∷◌, ◌++◌, length, ◌==◌, if◌then◌else◌, bit_or,
}
use zirgen.Prelude.Result.{Result, ok, throws}
use zirgen.Word.{shl32}
use zirgen.Rv32.Context.{M, ◌>>=◌, return, invalid_word, no_data}
use zirgen.Emu.Image as Image
use zirgen.Emu.Paging.{PagedMemory, load, store, peek}
use zirgen.Vm.{Host}

-- `HostIoHandler`, over a state of its own.
pub record IoHandler (U : Type 0) : Type 0 where
  pub write : ℕ → List ℕ → M U ℕ
  pub read : ℕ → ℕ → M U (List ℕ)

-- `Segment` is represented by the two records that the context adds to.
pub record ExecContext (U : Type 0) : Type 0 where
  pub upstream : U
  pub pager : PagedMemory
  pub read_record : List (List ℕ)
  pub write_record : List ℕ
  pub user_cycles : ℕ
  pub phys_cycles : ℕ

-- A call of the pager. All that it throws is about words or pages that are not there.
abbrev paged :
    {U A : Type 0} → (PagedMemory → Result Image.Error (A × PagedMemory)) → M (ExecContext U) A
paged m s = elim (m s.pager) [
  | ok (a, pager) ↦ ok (a, record s { pager = pager })
  | throws e ↦ throws invalid_word
]

abbrev store_unit : ℕ → ℕ → PagedMemory → Result Image.Error (Unit {0} × PagedMemory)
store_unit word val pager = elim (store word val pager) [
  | ok next ↦ ok (tt, next)
  | throws e ↦ throws e
]

abbrev phys_cycle : {U : Type 0} → M (ExecContext U) (Unit {0})
phys_cycle s = ok (tt, record s { phys_cycles = s.phys_cycles + 1 })

abbrev nothing : {U : Type 0} → M (ExecContext U) (Unit {0})
nothing s = ok (tt, s)

module _ {U : Type 0} (io : IoHandler U) where
  -- `write` records how much the handler took, `read` what it gave.
  unfoldable pub exec_write : ℕ → List ℕ → M (ExecContext U) ℕ
  exec_write fd bytes s = elim (io.write fd bytes s.upstream) [
    | ok (rlen, upstream) ↦
        ok (rlen, record s { upstream = upstream; write_record = s.write_record ++ rlen ∷ [] })
    | throws e ↦ throws e
  ]

  unfoldable pub exec_read : ℕ → ℕ → M (ExecContext U) (List ℕ)
  exec_read fd len s = elim (io.read fd len s.upstream) [
    | ok (bytes, upstream) ↦
        ok (bytes, record s { upstream = upstream; read_record = s.read_record ++ bytes ∷ [] })
    | throws e ↦ throws e
  ]

  unfoldable pub exec_host : Host (ExecContext U)
  unfolding load store peek exec_write exec_read
  exec_host = record {
    load = λ word. paged (load word);
    store = λ word val. paged (store_unit word val);
    host_peek = λ word. paged (peek word);
    read = exec_read;
    write = exec_write;
    ecall_cycle = λ cur next s0 s1 s2. phys_cycle;
    p2_cycle = λ cur next. phys_cycle;
    trap_rewind = nothing;
    trap = λ cause. nothing;
    instruction = λ type d s.
        ok (tt, record s { user_cycles = s.user_cycles + 1; phys_cycles = s.phys_cycles + 1 });
    resume = nothing;
    suspend = nothing;
  }

-- The queues of `TestIoHandler`, by descriptor.
pub record TestIoHandler : Type 0 where
  pub input : ℕ → List ℕ
  pub output : ℕ → List ℕ

abbrev put : (ℕ → List ℕ) → ℕ → List ℕ → ℕ → List ℕ
put queues fd bytes j = if j == fd then bytes else queues j

unfoldable pub push_u32 : ℕ → ℕ → M TestIoHandler (Unit {0})
push_u32 fd val s =
    let bytes =
      (val % 256) ∷ (val / 2 ^ 8 % 256) ∷ (val / 2 ^ 16 % 256) ∷ (val / 2 ^ 24 % 256) ∷ [] in
    ok (tt, record s { input = put s.input fd (s.input fd ++ bytes) })

-- The front of a queue of output is taken off it.
unfoldable pub pop_byte : ℕ → M TestIoHandler ℕ
pop_byte fd s = elim (s.output fd) [
  | [] ↦ throws no_data
  | b ∷ rest ↦ ok (b, record s { output = put s.output fd rest })
]

unfoldable pub pop_u32 : ℕ → M TestIoHandler ℕ
unfolding pop_byte
pop_u32 fd = do
  b0 ← pop_byte fd
  b1 ← pop_byte fd
  b2 ← pop_byte fd
  b3 ← pop_byte fd
  return (bit_or (bit_or (bit_or b0 (shl32 b1 8)) (shl32 b2 16)) (shl32 b3 24))

-- The bytes that are taken off a queue, at most a number of them, and those that stay.
abbrev split_at : ℕ → List ℕ → List ℕ × List ℕ
split_at zero bytes = ([], bytes)
split_at (suc n) [] = ([], [])
split_at (suc n) (b ∷ bytes) = let (taken, rest) = split_at n bytes in (b ∷ taken, rest)

unfoldable pub test_io : IoHandler TestIoHandler
test_io = record {
  write =
      λ fd bytes s. ok (length bytes, record s { output = put s.output fd (s.output fd ++ bytes) });
  read = λ fd len s.
      let (taken, rest) = split_at len (s.input fd) in
      ok (taken, record s { input = put s.input fd rest });
}
