-- ===== src/Vm/Tests.antt =====
-- The machine over a host whose memory is a function: short runs, and instances of the theorems.
use zirgen.Prelude.{
  ℕ, zero, suc, ◌≡◌, refl, Bool, true, false, List, [], ◌∷◌, ◌==◌, if◌then◌else◌, arith,
}
use zirgen.Prelude.Result.{Result, ok, throws, Post}
use zirgen.Rv32.Inst.{get_major}
use zirgen.Rv32.Decode.{decode}
use zirgen.Rv32.Table.{lookup}
use zirgen.Rv32.Context.{Error}
use zirgen.Rv32.Context.Laws.{Any}
use zirgen.Rv32.Emulator.{step, run}
use zirgen.Vm.{Host, Vm, load_reg, store_reg, get_pc, set_pc, get_mode, set_mode}
use zirgen.Vm.Io.{do_host_read, read_bytes, read_words, read_four, word_at, next_state, write_byte}
use zirgen.Vm.Exec.{TestIoHandler, pop_u32, pop_byte}
use zirgen.Vm.Machine.{r0_context}
use zirgen.Vm.User.{IsLawful, InUser, Confined, Thrown}
use zirgen.Vm.User.Step.{step-Confined}
use zirgen.Vm.Terminate.{run-terminates}

-- The host gives the bytes from 1 on.
abbrev counting : ℕ → ℕ → List ℕ
counting zero first = []
counting (suc n) first = first ∷ counting n (suc first)

abbrev words_host : ℕ → Host (ℕ → ℕ)
words_host given = record {
  load = λ word h. ok (h word, h);
  store = λ word val h. ok (tt, λ j. if j == word then val else h j);
  host_peek = λ word h. ok (h word, h);
  read = λ fd len h. ok (counting given 1, h);
  write = λ fd bytes h. ok (0, h);
  ecall_cycle = λ cur next s0 s1 s2 h. ok (tt, h);
  p2_cycle = λ cur next h. ok (tt, h);
  trap_rewind = λ h. ok (tt, h);
  trap = λ cause h. ok (tt, h);
  instruction = λ type d h. ok (tt, h);
  resume = λ h. ok (tt, h);
  suspend = λ h. ok (tt, h);
}

abbrev view : (ℕ → ℕ) → ℕ → ℕ
view h = h

abbrev Never : Error → Type 0
Never e = ⊥

words_host-IsLawful : (given : ℕ) → IsLawful (words_host given) view Never
words_host-IsLawful given = record {
  load = λ word h. (refl, λ j. refl);
  store = λ word val h j. refl;
  ecall_cycle = λ cur next s0 s1 s2 h j. refl;
  trap_rewind = λ h j. refl;
  trap = λ cause h j. refl;
  instruction = λ type d h j. refl;
}

-- `ecall` at the first address of user mode, the number of the call in a7, and its entry in the table.
abbrev user_memory : ℕ → ℕ
user_memory j =
    if j == 0x4000
    then 0x73
    else (if j == 0x3fffc031 then 5 else (if j == 0x3fffc405 then 0xc0001000 else 0))

abbrev user : Vm (ℕ → ℕ)
user = record { host = user_memory; pc = 0x10000; machine_mode = 0; done = false; exit_code = 0 }

user-InUser : InUser view user_memory Any user
user-InUser = record {
  mode = refl;
  pc = omega arith;
  here = tt;
  words = λ j. ground arith;
  kept = λ j d r. refl;
}

step-Confined_example :
    Post
      (λ (r : Unit {0} × Vm (ℕ → ℕ)). Any r.0 × Confined view user_memory user.pc r.1)
      (Thrown Never)
      (step (r0_context (words_host 0)) user)
step-Confined_example =
    step-Confined (words_host 0) view Never (words_host-IsLawful 0) user user-InUser

-- What a state says of the program counter, the mode, and two words.
abbrev seen : {A : Type 0} → ℕ → ℕ → Result Error (A × Vm (ℕ → ℕ)) → List ℕ
seen w v r = elim r [ ok (a, s) ↦ s.pc ∷ s.machine_mode ∷ s.host w ∷ s.host v ∷ [] | throws e ↦ [] ]

-- The step goes to the kernel and saves the program counter.
user_call :
    seen 0x3fffc080 0x4000 (step (r0_context (words_host 0)) user)
    ≡ 0xc0001000 ∷ 1 ∷ 0x10000 ∷ 0x73 ∷ []
unfolding step r0_context get_major lookup decode get_pc set_pc get_mode set_mode load_reg
user_call = refl

abbrev machine : ℕ → ℕ → Vm (ℕ → ℕ)
machine call at = record {
  host = λ j.
      if j == 0x4000
      then 0x73
      else (if j == 0x3fffc011
          then call
          else (if j == 0x3fffc00b then at else (if j == 0x3fffc00c then 64 else 0)));
  pc = 0x10000;
  machine_mode = 1;
  done = false;
  exit_code = 0;
}

run-terminates_example :
    Post
      (λ (r : Bool × Vm (ℕ → ℕ)). (r.0 ≡ true) × (r.1.done ≡ true))
      Never
      (run (r0_context (words_host 0)) 8 (machine 0 0))
run-terminates_example =
    run-terminates (words_host 0) view Never (words_host-IsLawful 0) 7 (machine 0 0) (record {
      not_done = refl;
      mode = omega arith;
      above_zero_page = omega arith;
      inst = refl;
      call = refl;
    })

-- Sixteen bytes to an aligned address arrive.
sixteen :
    seen 0x40000 0x40003 (step (r0_context (words_host 16)) (machine 1 0x100000))
    ≡ 0x10004 ∷ 1 ∷ 0x04030201 ∷ 0x100f0e0d ∷ []
unfolding step r0_context get_major lookup decode get_pc set_pc get_mode set_mode load_reg store_reg
    do_host_read read_bytes read_words read_four word_at next_state write_byte
sixteen = refl

-- Of eight bytes the first word gets the third to the sixth, and the second word nothing.
eight :
    seen 0x40000 0x40001 (step (r0_context (words_host 8)) (machine 1 0x100000))
    ≡ 0x10004 ∷ 1 ∷ 0x06050403 ∷ 0 ∷ []
unfolding step r0_context get_major lookup decode get_pc set_pc get_mode set_mode load_reg store_reg
    do_host_read read_bytes read_words read_four word_at next_state write_byte
eight = refl

-- Three bytes to an aligned address do not arrive, and the program counter stays at the call.
three :
    seen 0x40000 0x40001 (step (r0_context (words_host 3)) (machine 1 0x100000))
    ≡ 0x10000 ∷ 1 ∷ 0 ∷ 0 ∷ []
unfolding step r0_context get_major lookup decode get_pc set_pc get_mode set_mode load_reg store_reg
    do_host_read read_bytes read_words read_four word_at next_state write_byte
three = refl

abbrev empty_io : TestIoHandler
empty_io = record { input = λ fd. []; output = λ fd. [] }

abbrev popped : Result Error (ℕ × TestIoHandler) → List ℕ
popped r = elim r [ ok (v, s) ↦ v ∷ s.output 3 | throws e ↦ [] ]

-- A word that is written to the handler's output is popped whole; five bytes leave one.
written_word :
    popped (pop_u32 3 (record empty_io { output = λ fd. 1 ∷ 2 ∷ 3 ∷ 4 ∷ 5 ∷ [] }))
    ≡ 0x04030201 ∷ 5 ∷ []
unfolding pop_u32 pop_byte
written_word = refl
