-- ===== src/Vm/Terminate.antt =====
-- The run of the emulator over the machine ends when machine mode asks the host to terminate.
use mathlib.Core.Path.{subst}
use zirgen.Prelude.{
  ℕ, zero, suc, ◌+◌, ◌/◌, ◌≤◌, ◌≡◌, ◌≢◌, refl, sym, ap, ◌∙◌, not, Bool, true, false, arith, ◌==◌,
  bit_and,
}
use zirgen.Prelude.Result.{Post}
use zirgen.Rv32.Inst.{eany, get_major}
use zirgen.Rv32.Decode.{decode}
use zirgen.Rv32.Table.{lookup}
use zirgen.Rv32.Context.{M, Error}
use zirgen.Rv32.Context.Laws.{
  Any, Ends, Ensures, Ends-return, Ends-bind, Ends-passed, Ends-if, Ends-else, Ends-before,
  Ends-stop,
}
use zirgen.Rv32.Emulator.{step, execute, dispatch, step_priv, rounds, run}
use zirgen.Vm.{Host, Vm, lift, get_pc, get_mode, set_done, load_mem, load_reg, regs_word}
use zirgen.Vm.Constants.{
  machine_regs_word, user_regs_word, reg_a0, reg_a1, reg_a7, state_machine_ecall, state_terminate,
  state_suspend,
}
use zirgen.Vm.Io.{do_terminate}
use zirgen.Vm.Machine.{check_inst_load, do_machine_ecall, do_ecall, r0_context}
use zirgen.Vm.User.{IsLawful, SameView}
use zirgen.Vm.User.Keeps.{lift-Ends}

abbrev ecall : ℕ
ecall = 0x73

-- Machine mode is at an ECALL, and a7 holds the number of the call to terminate.
pub record AtTerminate {H : Type 0} (view : H → ℕ → ℕ) (s : Vm H) : Type 0 where
  pub not_done : s.done ≡ false
  pub mode : s.machine_mode ≢ 0
  pub above_zero_page : 0x10000 ≤ s.pc
  pub inst : view s.host (s.pc / 4) ≡ ecall
  pub call : view s.host (machine_regs_word + reg_a7) ≡ 0

abbrev Done : {H : Type 0} → Vm H → Type 0
Done s = s.done ≡ true

decoded : lookup (decode ecall) ≡ eany
unfolding lookup decode
decoded = refl

set_done-Done : {H : Type 0} {R : Error → Type 0} → Ends {S = Vm H} (λ s. Unit) Done R Any set_done
unfolding set_done
set_done-Done = record { from = λ s h. (tt, refl) }

module _ {H : Type 0} (c : Host H) (view : H → ℕ → ℕ) (R : Error → Type 0)
    (lawful : IsLawful c view R) where
  call-Done :
      (m : M H (Unit {0}))
      → ((h : H) → Post (λ (r : Unit {0} × H). SameView (view h) (view r.1)) R (m h))
      → Ensures Done R Any (lift m)
  call-Done m p = lift-Ends _ m (λ s d. p s.host) (λ s d _ h same. (tt, d)) (λ e r. r)

  load-Done : (word : ℕ) → Ensures Done R Any (load_mem c word)
  load-Done word =
      lift-Ends _ (c.load word) (λ s d. lawful.load word s.host) (λ s d v h q. (tt, d)) (λ e r. r)

  do_terminate-Done : Ends (λ s. Unit) Done R (λ ret. ret ≡ false) (do_terminate c)
  unfolding do_terminate
  do_terminate-Done =
      Ends-bind
        (lift-Ends {J = λ s. Unit} {Q = Any} _
          (c.ecall_cycle state_machine_ecall state_terminate 0 0 0)
          (λ s d. lawful.ecall_cycle _ _ _ _ _ s.host) (λ s d _ h same. (tt, tt)) (λ e r. r))
        λ _ _. Ends-bind set_done-Done λ _ _. Ends-bind (load-Done (user_regs_word + reg_a0)) λ _ _.
          Ends-bind (load-Done (user_regs_word + reg_a1)) λ _ _.
            Ends-bind
              (call-Done (c.ecall_cycle state_terminate state_suspend 0 0 0)
                (lawful.ecall_cycle state_terminate state_suspend 0 0 0))
              λ _ _. Ends-return false (λ s h. h) refl

  abbrev At : ℕ → Vm H → Type 0
  At pc s = AtTerminate view s × (s.pc ≡ pc)

  same-At :
      (pc : ℕ) (s : Vm H) (h : H)
      → At pc s
      → SameView (view s.host) (view h)
      → At pc (record s { host = h })
  same-At pc s h (at, e) same = (
    record {
      not_done = at.not_done;
      mode = at.mode;
      above_zero_page = at.above_zero_page;
      inst = same (s.pc / 4) ∙ at.inst;
      call = same (machine_regs_word + reg_a7) ∙ at.call;
    },
    e,
  )

  get_pc-At : (pc : ℕ) → Ensures (At pc) R (λ v. v ≡ pc) get_pc
  unfolding get_pc
  get_pc-At pc = record { from = λ s h. (h.1, h) }

  get_mode-At : (pc : ℕ) → Ensures (At pc) R (λ mode. mode ≢ 0) get_mode
  unfolding get_mode
  get_mode-At pc = record { from = λ s h. (h.0.mode, h) }

  check_inst_load-At :
      (pc : ℕ) → 0x10000 ≤ pc → Ensures (At pc) R (λ b. b ≡ true) (check_inst_load c pc)
  unfolding check_inst_load
  check_inst_load-At pc above =
      Ends-bind (get_mode-At pc) λ mode ne. Ends-return _ (λ s h. h) (ground (arith, ne, above))

  load_inst-At : (pc : ℕ) → Ensures (At pc) R (λ v. v ≡ ecall) (load_mem c (pc / 4))
  load_inst-At pc =
      lift-Ends _ (c.load (pc / 4)) (λ s h. lawful.load (pc / 4) s.host)
        (λ s h v host (e, same).
          (e ∙ ap (λ (t : ℕ). view s.host (t / 4)) (sym h.1) ∙ h.0.inst, same-At pc s host h same))
        (λ e r. r)

  load_call-At :
      (pc mode : ℕ)
      → mode ≢ 0
      → Ensures (At pc) R (λ v. v ≡ 0) (load_mem c (regs_word mode + reg_a7))
  load_call-At pc mode ne =
      let base : regs_word mode ≡ machine_regs_word = ground (arith, ne) in
      lift-Ends _ (c.load (regs_word mode + reg_a7))
        (λ s h. lawful.load (regs_word mode + reg_a7) s.host)
        (λ s h v host (e, same).
          (e ∙ ap (λ (t : ℕ). view s.host (t + reg_a7)) base ∙ h.0.call, same-At pc s host h same))
        (λ e r. r)

  do_ecall-Done : (pc : ℕ) → Ends (At pc) Done R (λ ret. ret ≡ false) (do_ecall c)
  unfolding do_ecall do_machine_ecall load_reg
  do_ecall-Done pc = Ends-bind (get_mode-At pc) λ mode ne.
      Ends-else (mode == 0) _ (ground (arith, ne)) (
        Ends-bind
          (Ends-bind (Ends-bind (get_mode-At pc) λ mode' ne'. load_call-At pc mode' ne') λ call e.
            Ends-if (call == 0) _ (ground (arith, e)) (Ends-before do_terminate-Done λ s h. tt))
          λ _ _. Ends-return false (λ s h. h) refl)

  dispatched :
      (pc : ℕ)
      → Ends
          (At pc)
          Done
          R
          (λ ret. ret ≡ false)
          (dispatch
            (r0_context c)
            (get_major (lookup (decode ecall)))
            (lookup (decode ecall))
            (decode ecall))
  dispatched pc =
      rw decoded (unfold dispatch get_major step_priv decode r0_context in do_ecall-Done pc)

  -- The methods of the context that the step calls.
  decoded-At :
      (pc : ℕ)
      → Ensures (At pc) R Any ((r0_context c).inst_decoded (lookup (decode ecall)) (decode ecall))
  unfolding r0_context
  decoded-At pc = Ends-return tt (λ s h. h) tt

  pc-At : (pc : ℕ) → Ensures (At pc) R (λ v. v ≡ pc) (r0_context c).get_pc
  unfolding r0_context
  pc-At pc = get_pc-At pc

  check-At :
      (pc v : ℕ)
      → v ≡ pc
      → 0x10000 ≤ pc
      → Ensures (At pc) R (λ b. b ≡ true) ((r0_context c).check_inst_load v)
  unfolding r0_context
  check-At pc v e above =
      subst (λ t. Ensures (At pc) R (λ b. b ≡ true) (check_inst_load c t)) (sym e)
        (check_inst_load-At pc above)

  inst-At :
      (pc v : ℕ) → v ≡ pc → Ensures (At pc) R (λ i. i ≡ ecall) ((r0_context c).load_mem (v / 4))
  unfolding r0_context
  inst-At pc v e =
      subst (λ (t : ℕ). Ensures (At pc) R (λ i. i ≡ ecall) (load_mem c (t / 4))) (sym e)
        (load_inst-At pc)

  is_done-At : (pc : ℕ) → Ensures (At pc) R (λ b. b ≡ false) (r0_context c).is_done
  unfolding r0_context
  is_done-At pc = record { from = λ s h. (h.0.not_done, h) }

  is_done-Done : Ensures Done R (λ b. b ≡ true) (r0_context c).is_done
  unfolding r0_context
  is_done-Done = record { from = λ s d. (d, d) }

  execute-Done :
      (pc inst : ℕ) → inst ≡ ecall → Ends (At pc) Done R Any (execute (r0_context c) inst)
  unfolding execute
  execute-Done pc inst same =
      subst (λ i. Ends (At pc) Done R Any (execute (r0_context c) i)) (sym same)
        (Ends-bind (decoded-At pc) λ _ _.
          Ends-bind (dispatched pc) λ ret e. Ends-else ret _ e (Ends-return tt (λ s h. h) tt))

  step-Done : (pc : ℕ) → 0x10000 ≤ pc → Ends (At pc) Done R Any (step (r0_context c))
  unfolding step
  step-Done pc above = Ends-bind (pc-At pc) λ v e. Ends-bind (check-At pc v e above) λ allowed may.
      Ends-passed (not allowed) _ (ground (arith, may)) (
        Ends-bind (inst-At pc v e) λ inst same.
          Ends-passed (not (bit_and inst 3 == 3)) _ (rw same refl) (execute-Done pc inst same))

  rounds-Done : (n : ℕ) → Ensures Done R Any (rounds (r0_context c) n)
  unfolding rounds
  rounds-Done zero = Ends-bind is_done-Done λ _ _. Ends-return tt (λ s h. h) tt
  rounds-Done (suc n) =
      Ends-bind is_done-Done λ done e. Ends-stop done _ e (Ends-return tt (λ s h. h) tt)

  run-Done :
      (pc n : ℕ) → 0x10000 ≤ pc → Ends (At pc) Done R (λ b. b ≡ true) (run (r0_context c) (suc n))
  unfolding run rounds
  run-Done pc n above =
      Ends-bind
        (Ends-bind (is_done-At pc)
          λ done e. Ends-passed done _ e (Ends-bind (step-Done pc above) λ _ _. rounds-Done n))
        λ _ _. is_done-Done

-- In machine mode at an ECALL that asks to terminate, the run of the emulator ends within one step:
-- with every budget of at least one step it answers that the machine is done, unless the host throws.
-- Over a host that does not throw, it returns.
pub run-terminates :
    {H : Type 0} (c : Host H) (view : H → ℕ → ℕ) (R : Error → Type 0)
    → IsLawful c view R
    → (budget : ℕ) (s : Vm H) → AtTerminate view s
    → Post
        (λ (r : Bool × Vm H). (r.0 ≡ true) × (r.1.done ≡ true))
        R
        (run (r0_context c) (suc budget) s)
run-terminates c view R lawful budget s at =
    (run-Done c view R lawful s.pc budget at.above_zero_page).from s (at, refl)
