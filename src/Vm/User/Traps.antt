-- ===== src/Vm/User/Traps.antt =====
-- Traps and calls of user mode end in machine mode at an address of the tables.
use mathlib.Core.Path.{subst}
use zirgen.Prelude.{
  ℕ, ◌+◌, ◌≤◌, ◌<◌, ◌≡◌, ◌≢◌, inl, inr, refl, sym, ◌∙◌, not, true, false, leb, ◌==◌, if_both, arith,
}
use zirgen.Prelude.Result.{Post}
use zirgen.Word.{IsWord}
use zirgen.Rv32.Inst.{
  TrapCause, instruction_address_misaligned, instruction_access_fault, illegal_instruction,
  breakpoint, load_address_misaligned, load_access_fault, store_address_misaligned,
  store_access_fault, environment_call_from_u_mode,
}
use zirgen.Rv32.Context.{M, Error, raise, ◌>>◌, trap_in_machine_mode}
use zirgen.Rv32.Context.Laws.{
  IsPc, Any, Ends, Ensures, Ends-return, Ends-bind, Ends-unless, Ends-passed, Ends-after, Ends-if,
}
use zirgen.Vm.{Host, Vm, lift, set_pc, set_mode, store_mem}
use zirgen.Vm.Constants.{
  mepc_word, reg_a7, trap_dispatch_word, ecall_dispatch_word, kernel_start_addr,
}
use zirgen.Vm.Traps.{cause_code, enter_trap, do_trap, do_user_ecall, bad_dispatch}
use zirgen.Vm.Machine.{do_ecall}
use zirgen.Vm.User.{
  IsUserData, IsUserReg, IsDispatch, SameView, IsLawful, Thrown, Trapped, Confined,
}
use zirgen.Vm.User.Keeps.{
  lift-Ends, User, Loaded, load_mem-User, call-User, get_mode-User, get_pc-User, load_reg-User,
}

cause_code-lt : (cause : TrapCause) → cause_code cause < 9
unfolding cause_code
cause_code-lt instruction_address_misaligned = omega arith
cause_code-lt instruction_access_fault = omega arith
cause_code-lt illegal_instruction = omega arith
cause_code-lt breakpoint = omega arith
cause_code-lt load_address_misaligned = omega arith
cause_code-lt load_access_fault = omega arith
cause_code-lt store_address_misaligned = omega arith
cause_code-lt store_access_fault = omega arith
cause_code-lt environment_call_from_u_mode = omega arith

-- The words of the tables are none of the user's.
IsDispatch-not_data : (k : ℕ) → IsDispatch k → IsUserData k → ⊥
IsDispatch-not_data k (inl d) u = omega arith
IsDispatch-not_data k (inr d) u = omega arith

IsDispatch-not_reg : (k : ℕ) → IsDispatch k → IsUserReg k → ⊥
IsDispatch-not_reg k (inl d) (inl u) = omega arith
IsDispatch-not_reg k (inl d) (inr u) = omega arith
IsDispatch-not_reg k (inr d) (inl u) = omega arith
IsDispatch-not_reg k (inr d) (inr u) = omega arith

module _ {H : Type 0} (c : Host H) (view : H → ℕ → ℕ) (R : Error → Type 0)
    (lawful : IsLawful c view R) (first : ℕ → ℕ) (before : ℕ) where
  abbrev pub Before : ℕ → Type 0
  Before pc = pc ≡ before

  -- An address that a trap may go to.
  abbrev IsTarget : ℕ → Type 0
  IsTarget addr =
      IsPc addr × (kernel_start_addr ≤ addr) × ((k : ℕ) × IsDispatch k × (addr ≡ first k))

  -- After the program counter is saved, before the mode is set.
  record Entering (addr : ℕ) (s : Vm H) : Type 0 where
    saved : view s.host mepc_word ≡ before
    words : (j : ℕ) → IsWord (view s.host j)
    kept :
        (j : ℕ) → (IsUserData j → ⊥) → (IsUserReg j → ⊥) → j ≢ mepc_word → view s.host j ≡ first j

  save_pc-Entering :
      (addr pc : ℕ)
      → IsPc pc × Before pc
      → Ends
          (User c view R lawful first Before)
          (Entering addr)
          (Thrown R)
          Any
          (store_mem c mepc_word pc)
  save_pc-Entering addr pc (is, here) =
      lift-Ends _ (c.store mepc_word pc) (λ s u. lawful.store mepc_word pc s.host)
        (λ s u _ h stored. (
          tt,
          record {
            saved = stored mepc_word ∙ here;
            words = λ j.
                subst IsWord (sym (stored j)) (if_both IsWord (j == mepc_word) is.0 (u.words j));
            kept = λ j d r ne. stored j ∙ ground (arith, ne, u.kept j d r);
          },
        ))
        (λ e r. inl r)

  enter :
      (addr : ℕ)
      → IsTarget addr
      → Ends (Entering addr) (Trapped view first before) (Thrown R) Any (set_pc addr >> set_mode 1)
  unfolding set_pc set_mode
  enter addr (is, kernel, from_table) = record {
    from = λ s h. (
      tt,
      record {
        mode = refl;
        pc = is;
        in_kernel = kernel;
        dispatched = from_table;
        saved = h.saved;
        words = h.words;
        kept = h.kept;
      },
    );
  }

  pub call-Trapped :
      (m : M H (Unit {0}))
      → ((h : H) → Post (λ (r : Unit {0} × H). SameView (view h) (view r.1)) R (m h))
      → Ensures (Trapped view first before) (Thrown R) Any (lift m)
  call-Trapped m p =
      lift-Ends _ m (λ s u. p s.host)
        (λ s u _ h same. (
          tt,
          record {
            mode = u.mode;
            pc = u.pc;
            in_kernel = u.in_kernel;
            dispatched = u.dispatched;
            saved = same mepc_word ∙ u.saved;
            words = λ j. subst IsWord (sym (same j)) (u.words j);
            kept = λ j d r ne. same j ∙ u.kept j d r ne;
          },
        ))
        (λ e r. inl r)

  enter_trap-Trapped :
      (addr : ℕ)
      → IsTarget addr
      → Ends
          (User c view R lawful first Before)
          (Trapped view first before)
          (Thrown R)
          Any
          (enter_trap c addr)
  unfolding enter_trap
  enter_trap-Trapped addr (is, kernel, from_table) =
      Ends-bind (get_mode-User c view R lawful first Before) λ mode e.
        Ends-passed (not (mode == 0)) (raise trap_in_machine_mode) (ground (arith, e)) (
          Ends-bind (get_pc-User c view R lawful first Before) λ pc p.
            Ends-bind (save_pc-Entering addr pc p) λ _ _. enter addr (is, kernel, from_table))

  -- `throw` in place of a trap.
  pub raise-Ends :
      {A : Type 0} {J : Vm H → Type 0} (e : Error)
      → Thrown R e
      → Ends (User c view R lawful first Before) J (Thrown R) (Any {A = A}) (raise e)
  raise-Ends e t = record { from = λ s u. t }

  target :
      (k addr : ℕ)
      → IsDispatch k
      → Loaded c view R lawful first Before k addr
      → bad_dispatch addr ≡ false
      → IsTarget addr
  target k addr d (word, kept) e = (
    (word, ground (arith, e)),
    ground (arith, e),
    (k, d, kept (IsDispatch-not_data k d) (IsDispatch-not_reg k d)),
  )

  pub do_trap-Trapped :
      (cause : TrapCause)
      → Ends
          (User c view R lawful first Before)
          (Trapped view first before)
          (Thrown R)
          Any
          (do_trap c cause)
  unfolding do_trap
  do_trap-Trapped cause =
      let k = trap_dispatch_word + cause_code cause in
      let at : IsDispatch k = inr (omega (arith, cause_code-lt cause)) in
      Ends-bind (call-User c view R lawful first Before c.trap_rewind lawful.trap_rewind) λ _ _.
        Ends-bind (load_mem-User c view R lawful first Before k) λ addr loaded.
          Ends-unless (bad_dispatch addr) (raise-Ends _ (inr (inl refl))) λ good.
            Ends-bind (enter_trap-Trapped addr (target k addr at loaded good)) λ _ _.
              Ends-bind (call-Trapped (c.trap cause) (lawful.trap cause))
                λ _ _. Ends-return false (λ s h. h) tt

  -- A trap is one way to end confined.
  pub confined :
      {A : Type 0} {Q : A → Type 0} {m : M (Vm H) A}
      → Ends (User c view R lawful first Before) (Trapped view first before) (Thrown R) Q m
      → Ends (User c view R lawful first Before) (Confined view first before) (Thrown R) Q m
  confined p = Ends-after p λ s t. inr t

  do_user_ecall-Trapped :
      Ends
        (User c view R lawful first Before)
        (Trapped view first before)
        (Thrown R)
        Any
        (do_user_ecall c)
  unfolding do_user_ecall
  do_user_ecall-Trapped =
      let trap = do_trap-Trapped environment_call_from_u_mode in
      Ends-bind (load_reg-User c view R lawful first Before reg_a7) λ call _.
        Ends-unless (leb 512 call) trap λ small.
          let k = ecall_dispatch_word + call in
          let at : IsDispatch k = inl (ground (arith, small)) in
          Ends-bind (load_mem-User c view R lawful first Before k) λ addr loaded.
            Ends-unless (bad_dispatch addr) trap λ good.
              Ends-bind (enter_trap-Trapped addr (target k addr at loaded good))
                λ _ _. Ends-return true (λ s h. h) tt

  pub do_ecall-Trapped :
      Ends
        (User c view R lawful first Before)
        (Trapped view first before)
        (Thrown R)
        Any
        (do_ecall c)
  unfolding do_ecall
  do_ecall-Trapped =
      Ends-bind (get_mode-User c view R lawful first Before)
        λ mode e. Ends-if (mode == 0) _ (ground (arith, e)) do_user_ecall-Trapped
