-- ===== src/Vm/User/Step.antt =====
-- A step of the emulator in user mode.
use zirgen.Prelude.{ℕ, ◌/◌, ◌≡◌, inl, inr, refl, Bool, true, ◌==◌, arith}
use zirgen.Prelude.Result.{Post}
use zirgen.Rv32.Inst.{InstType}
use zirgen.Rv32.Decode.{DecodedInst}
use zirgen.Rv32.Context.{Error}
use zirgen.Rv32.Context.Laws.{
  Any, Ends, Ensures, Laws, Ends-return, Ends-bind, Ends-unless, Ends-weaken, Ends-after,
  Ends-either,
}
use zirgen.Rv32.Emulator.{step}
use zirgen.Rv32.Emulator.Laws.{step-Ensures}
use zirgen.Vm.{Host, Vm, lift}
use zirgen.Vm.Traps.{do_mret}
use zirgen.Vm.Machine.{check_inst_load, check_data_load, r0_context}
use zirgen.Vm.User.{IsUserData, IsLawful, Thrown, InUser, Confined}
use zirgen.Vm.User.Keeps.{
  User, load_mem-User, call-User, store_mem-User, get_mode-User, get_pc-User, set_pc-User,
  load_reg-User, store_reg-User,
}
use zirgen.Vm.User.Traps.{
  Before, call-Trapped, raise-Ends, confined, do_trap-Trapped, do_ecall-Trapped,
}

at_pc :
    {H : Type 0} (view : H → ℕ → ℕ) (s : Vm H)
    → InUser view (view s.host) Any s
    → InUser view (view s.host) (λ pc. pc ≡ s.pc) s
at_pc view s u = record { mode = u.mode; pc = u.pc; here = refl; words = u.words; kept = u.kept }

module _ {H : Type 0} (c : Host H) (view : H → ℕ → ℕ) (R : Error → Type 0)
    (lawful : IsLawful c view R) (first : ℕ → ℕ) (before : ℕ) where
  abbrev Here : ℕ → Type 0
  Here = Before c view R lawful first before

  do_mret-throws :
      Ends (User c view R lawful first Here) (Confined view first before) (Thrown R) Any (do_mret c)
  unfolding do_mret
  do_mret-throws = Ends-bind (get_mode-User c view R lawful first Here) λ mode e.
      Ends-unless (mode == 0) (raise-Ends c view R lawful first before _ (inr (inr refl)))
        λ ne. absurd (ground (arith, e, ne))

  check_inst_load-IsUserData :
      (addr : ℕ)
      → Ensures
          (User c view R lawful first Here)
          (Thrown R)
          (λ b. b ≡ true → IsUserData (addr / 4))
          (check_inst_load c addr)
  unfolding check_inst_load
  check_inst_load-IsUserData addr = Ends-bind (get_mode-User c view R lawful first Here) λ mode e.
      Ends-return {Q = λ (b : Bool). b ≡ true → IsUserData (addr / 4)} _ (λ s h. h)
        λ b. ground (arith, e, b)

  check_data_load-IsUserData :
      (addr : ℕ)
      → Ensures
          (User c view R lawful first Here)
          (Thrown R)
          (λ b. b ≡ true → IsUserData (addr / 4))
          (check_data_load c addr)
  unfolding check_data_load
  check_data_load-IsUserData addr = Ends-bind (get_mode-User c view R lawful first Here) λ mode e.
      Ends-return {Q = λ (b : Bool). b ≡ true → IsUserData (addr / 4)} _ (λ s h. h)
        λ b. ground (arith, e, b)

  end_normal-Confined :
      (type : InstType) (d : DecodedInst)
      → Ensures (Confined view first before) (Thrown R) Any (lift (c.instruction type d))
  end_normal-Confined type d =
      Ends-either
        (Ends-after
          (call-User c view R lawful first Any (c.instruction type d) (lawful.instruction type d))
          λ s u. inl u)
        (Ends-after
          (call-Trapped c view R lawful first before (c.instruction type d)
            (lawful.instruction type d))
          λ s t. inr t)

  User-Laws :
      Laws
        (r0_context c)
        (User c view R lawful first Here)
        (Confined view first before)
        (Thrown R)
        IsUserData
        IsUserData
  unfolding r0_context
  User-Laws = record {
    is_done = record { from = λ s u. (tt, u) };
    check_inst_load = λ addr h. check_inst_load-IsUserData addr;
    check_data_load = λ addr h. check_data_load-IsUserData addr;
    check_data_store =
        λ addr h. Ends-weaken (λ b p e. (p e, p e)) (check_data_load-IsUserData addr);
    do_ecall =
        confined c view R lawful first before (do_ecall-Trapped c view R lawful first before);
    do_mret = do_mret-throws;
    do_trap = λ cause.
        confined c view R lawful first before (do_trap-Trapped c view R lawful first before cause);
    inst_decoded = λ type d. Ends-return tt (λ s h. h) tt;
    end_normal = end_normal-Confined;
    get_pc = Ends-weaken (λ pc (is, _). is) (get_pc-User c view R lawful first Here);
    set_pc = λ pc is. Ends-after (set_pc-User c view R lawful first Here pc is) λ s u. inl u;
    load_reg = λ reg h. load_reg-User c view R lawful first Here reg;
    store_reg = store_reg-User c view R lawful first Here;
    load_mem =
        λ word h may. Ends-weaken (λ v (w, _). w) (load_mem-User c view R lawful first Here word);
    store_mem = λ word v h may w. store_mem-User c view R lawful first Here word v (inl may) w;
  }

-- A step of user mode over a lawful host ends in user mode, with no word changed but those of the
-- user's data and registers; or in machine mode, at an aligned address of the kernel that stands in
-- one of the two tables, with the program counter of the instruction in the word of MEPC and no other word
-- changed besides; or it
-- throws, because the host does, because the table has no address for the trap, or because the
-- instruction is MRET.
pub step-Confined :
    {H : Type 0} (c : Host H) (view : H → ℕ → ℕ) (R : Error → Type 0)
    → IsLawful c view R
    → (s : Vm H) → InUser view (view s.host) Any s
    → Post
        (λ (r : Unit {0} × Vm H). Any r.0 × Confined view (view s.host) s.pc r.1)
        (Thrown R)
        (step (r0_context c) s)
step-Confined c view R lawful s u =
    (step-Ensures (r0_context c) (User-Laws c view R lawful (view s.host) s.pc)).from s
      (at_pc view s u)
