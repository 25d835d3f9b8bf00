-- ===== src/Rv32/Tests.antt =====
-- Programs run to their end, and the laws at concrete instructions.
use zirgen.Prelude.{
  ℕ, ◌+◌, true, ◌<◌, ◌≡◌, refl, Bool, Option, none, some, [], ◌∷◌, get_or, replicate,
  get_or-replicate, zero, suc, arith,
}
use zirgen.Prelude.Result.{Result, ok, throws, Post}
use zirgen.Rv32.Context.{Error}
use zirgen.Rv32.Context.Laws.{Any, Ensures}
use zirgen.Rv32.Context.Base.{BaseContext, base, initial}
use zirgen.Rv32.Context.Base.Laws.{IsWf, IsUnimplemented, base-Laws}
use zirgen.Rv32.Inst.{get_major, all_insts, mul, mret}
use zirgen.Rv32.Decode.{decode, imm_i, imm_s}
use zirgen.Rv32.Decode.Laws.{HasImmediates, decode-HasImmediates, IsDecoded, decode-IsDecoded}
use zirgen.Rv32.Table.{lookup, map10}
use zirgen.Rv32.Table.Laws.{taken_for, search_insts, lookup-search_insts, map10-lt, lookup_any_mret}
use zirgen.Rv32.Alu.{misc, mul_out}
use zirgen.Rv32.Alu.Mul.{IsProduct, mul_out-IsProduct}
use zirgen.Rv32.Alu.Div.{IsQuotient, div_out-IsQuotient}
use zirgen.Rv32.Alu.Memory.{IsLoaded, load_out-IsLoaded, IsStored, store_out-IsStored}
use zirgen.Rv32.Emulator.{step, run}
use zirgen.Rv32.Emulator.Laws.{step-Ensures}
use zirgen.Rv32.Emulator.Run.{run-IsWf, run-stays_done}

-- addi x1, x0, 5; addi x2, x0, -3; mul x3, x1, x2; ecall
abbrev program : ℕ → Option ℕ
program w =
    get_or (some 0x00500093 ∷ some 0xffd00113 ∷ some 0x022081b3 ∷ some 0x00000073 ∷ []) w none

abbrev machine : BaseContext
machine = record initial { memory = program }

reg3 : Result Error (Bool × BaseContext) → ℕ
reg3 (ok (done, s)) = get_or s.regs 3 0
reg3 (throws e) = 0

decodes_mul : lookup (decode 0x022081b3) ≡ mul
unfolding lookup decode
decodes_mul = refl

product : reg3 (run base 10 machine) ≡ 0xfffffff1
unfolding reg3 run base get_major lookup decode imm_i imm_s misc mul_out
product = refl

program-words : (w v : ℕ) → program w ≡ some v → v < 0x100000000
program-words zero v = ground arith
program-words (suc zero) v = ground arith
program-words (suc (suc zero)) v = ground arith
program-words (suc (suc (suc zero))) v = ground arith
program-words (suc (suc (suc (suc w)))) v = cc

machine-IsWf : IsWf machine
machine-IsWf = record {
  pc_aligned = omega arith;
  count = refl;
  zero_reg = refl;
  reg_words = λ i.
      let z : ◌≡◌ {A = ℕ} (get_or (replicate 32 0) i 0) 0 = get_or-replicate 32 i in
      omega (arith, z);
  mem_words = program-words;
}

run-IsWf_example :
    Post (λ (r : Bool × BaseContext). Any r.0 × IsWf r.1) IsUnimplemented (run base 10 machine)
run-IsWf_example = run-IsWf 10 machine machine-IsWf

abbrev last_state : Result Error (Bool × BaseContext) → BaseContext
last_state (ok (done, s)) = s
last_state (throws e) = machine

abbrev final : BaseContext
final = last_state (run base 10 machine)

ends : run base 10 machine ≡ ok (true, final)
unfolding run base get_major lookup decode imm_i imm_s misc mul_out
ends = refl

run-stays_done_example : run base (10 + 3) machine ≡ ok (true, final)
run-stays_done_example = run-stays_done 10 3 machine final ends

step-Ensures_example : Ensures IsWf IsUnimplemented Any (step base)
step-Ensures_example = step-Ensures base base-Laws

lookup-search_insts_example :
    lookup (decode 0x022081b3)
    ≡ search_insts all_insts
        (decode 0x022081b3).opcode
        (decode 0x022081b3).func3
        (taken_for (decode 0x022081b3).func7)
unfolding decode
lookup-search_insts_example =
    lookup-search_insts (decode 0x022081b3) (omega arith) refl (omega arith)

map10-lt_example : map10 0x33 0 1 < 1024
map10-lt_example = map10-lt 0x33 0 1 (omega arith) (omega arith)

-- sfence.vma, whose func7 is 9.
lookup_any_mret_example : lookup (decode 0x12000073) ≡ mret
unfolding decode
lookup_any_mret_example = lookup_any_mret (decode 0x12000073) refl refl (omega arith) (omega arith)

decode-IsDecoded_example : IsDecoded 0xffd00113 (decode 0xffd00113)
decode-IsDecoded_example = decode-IsDecoded 0xffd00113

decode-HasImmediates_example : HasImmediates 0xffd00113 (decode 0xffd00113)
decode-HasImmediates_example = decode-HasImmediates 0xffd00113 (omega arith)

mul_out-IsProduct_example : IsProduct 0 5 0xfffffffd
mul_out-IsProduct_example = mul_out-IsProduct 0 5 0xfffffffd (omega arith) (omega arith)

div_out-IsQuotient_example : IsQuotient 0 0x80000000 0xffffffff
div_out-IsQuotient_example = div_out-IsQuotient 0 0x80000000 0xffffffff (omega arith) (omega arith)

load_out-IsLoaded_example : IsLoaded 0x1002 0x8899aabb
load_out-IsLoaded_example = load_out-IsLoaded 0x1002 0x8899aabb (omega arith)

store_out-IsStored_example : IsStored 0x1001 0x8899aabb 0x112233
store_out-IsStored_example = store_out-IsStored 0x1001 0x8899aabb 0x112233 (omega arith)
