-- ===== src/Rv32/Emulator/Laws.antt =====
-- The emulator over a context with its laws: a step keeps the context's invariant, and throws
-- nothing but what the context throws.
use zirgen.Prelude.{
  ℕ, zero, suc, ◌/◌, ◌%◌, ◌^◌, ◌<◌, ◌≡◌, true, not, Option, none, some, inl, inr, Bool-cases, arith,
  ltb, ◌==◌, refl, false, Bool, if_both, bit_and,
}
use zirgen.Word.{IsWord, add32}
use zirgen.Rv32.Inst.{InstType, eany, mret, get_major}
use zirgen.Rv32.Decode.{DecodedInst, decode, imm_i}
use zirgen.Rv32.Table.{lookup}
use zirgen.Rv32.Context.{Context, Error}
use zirgen.Rv32.Context.Laws.{Ensures, Ends, Any, Laws, Ends-return, Ends-bind, Ends-unless}
use zirgen.Rv32.Alu.{Misc, Access, value, misaligned, impossible}
use zirgen.Rv32.Alu.Bounds.{
  FieldsFit, MiscFits, OutFits, AccessFits, misc-MiscFits, mul_out-OutFits, div_out-OutFits,
  load_out-AccessFits, store_out-AccessFits, decode-FieldsFit,
}
use zirgen.Rv32.Emulator.{
  finish_misc, step_misc, finish_out, step_mul, step_div, finish_load, step_load, finish_store,
  step_store, step_priv, dispatch, execute, step, rounds, run,
}

-- The test of `unless (not b)` has failed.
not-false : (b : Bool) → not b ≡ false → b ≡ true
not-false true e = refl
not-false false e = cc

module _ {S : Type 0} (c : Context S) {I J : S → Type 0} {R : Error → Type 0}
    {Loads Stores : ℕ → Type 0} (laws : Laws c I J R Loads Stores) where
  finish_misc-Ensures : (r : Option Misc) → MiscFits r → Ends I J R Any (finish_misc c r)
  unfolding finish_misc
  finish_misc-Ensures none f = elim f [ ]
  finish_misc-Ensures (some r) (rd, out, new_pc) =
      Ends-unless (not (r.new_pc % 4 == 0)) (laws.do_trap _) λ aligned.
        Ends-bind (laws.store_reg r.rd r.out rd out) λ _ _.
          Ends-bind (laws.set_pc r.new_pc (new_pc, ground arith))
            λ _ _. Ends-return true (λ _ h. h) tt

  finish_out-Ensures :
      (rd : ℕ) → rd < 32 → (out : Option ℕ) → OutFits out → Ends I J R Any (finish_out c rd out)
  unfolding finish_out
  finish_out-Ensures rd h none f = elim f [ ]
  finish_out-Ensures rd h (some v) f = Ends-bind (laws.store_reg rd v h f) λ _ _.
      Ends-bind laws.get_pc λ pc ok.
        Ends-bind (laws.set_pc (add32 pc 4) (omega arith)) λ _ _. Ends-return true (λ _ h. h) tt

  finish_load-Ensures :
      (rd : ℕ) → rd < 32 → (a : Access) → AccessFits a → Ends I J R Any (finish_load c rd a)
  unfolding finish_load
  finish_load-Ensures rd h (value v) f = finish_out-Ensures rd h (some v) f
  finish_load-Ensures rd h misaligned f = laws.do_trap _
  finish_load-Ensures rd h impossible f = elim f [ ]

  finish_store-Ensures :
      (word : ℕ)
      → word < 2 ^ 30
      → Stores word
      → (a : Access) → AccessFits a
      → Ends I J R Any (finish_store c word a)
  unfolding finish_store
  finish_store-Ensures word h may (value v) f = Ends-bind (laws.store_mem word v h may f) λ _ _.
      Ends-bind laws.get_pc λ pc ok.
        Ends-bind (laws.set_pc (add32 pc 4) (omega arith)) λ _ _. Ends-return true (λ _ h. h) tt
  finish_store-Ensures word h may misaligned f = laws.do_trap _
  finish_store-Ensures word h may impossible f = elim f [ ]

  module _ (d : DecodedInst) where
    step_priv_eany : Ends I J R Any (step_priv c eany d)
    unfolding step_priv
    step_priv_eany =
        if_both (Ends I J R Any) (d.rs2 == 0) laws.do_ecall
          (if_both (Ends I J R Any) (d.rs2 == 1) (laws.do_trap _) (laws.do_trap _))

    step_priv_mret : Ends I J R Any (step_priv c mret d)
    unfolding step_priv
    step_priv_mret = laws.do_mret

    step_priv-Ensures :
        (type : InstType) → (get_major type == 7) ≡ true → Ends I J R Any (step_priv c type d)
    unfolding get_major
    step_priv-Ensures eany e = step_priv_eany
    step_priv-Ensures mret e = step_priv_mret
    step_priv-Ensures _ e = cc

  module _ (type : InstType) (d : DecodedInst) (f : FieldsFit d) where
    step_misc-Ensures : ltb (get_major type) 3 ≡ true → Ends I J R Any (step_misc c type d)
    unfolding step_misc
    step_misc-Ensures e = Ends-bind laws.get_pc λ pc _. Ends-bind (laws.load_reg d.rs1 f.rs1) λ a p.
        Ends-bind (laws.load_reg d.rs2 f.rs2)
          λ b q. finish_misc-Ensures _ (misc-MiscFits d pc a b f p q type e)

    step_mul-Ensures : (get_major type == 3) ≡ true → Ends I J R Any (step_mul c type d)
    unfolding step_mul
    step_mul-Ensures e = Ends-bind (laws.load_reg d.rs1 f.rs1) λ a p.
        Ends-bind (laws.load_reg d.rs2 f.rs2)
          λ b q. finish_out-Ensures d.rd f.rd _ (mul_out-OutFits (imm_i d) a b p type e)

    step_div-Ensures : (get_major type == 4) ≡ true → Ends I J R Any (step_div c type d)
    unfolding step_div
    step_div-Ensures e = Ends-bind (laws.load_reg d.rs1 f.rs1) λ a p.
        Ends-bind (laws.load_reg d.rs2 f.rs2)
          λ b q. finish_out-Ensures d.rd f.rd _ (div_out-OutFits (imm_i d) a b p type e)

    step_load-Ensures : (get_major type == 5) ≡ true → Ends I J R Any (step_load c type d)
    unfolding step_load
    step_load-Ensures e = Ends-bind (laws.load_reg d.rs1 f.rs1) λ a p.
        Ends-bind (laws.check_data_load _ (omega arith)) λ allowed may.
          Ends-unless (not allowed) (laws.do_trap _) λ passed.
            Ends-bind (laws.load_mem _ (omega arith) (may (not-false allowed passed)))
              λ word h. finish_load-Ensures d.rd f.rd _ (load_out-AccessFits _ word h type e)

    step_store-Ensures : (get_major type == 6) ≡ true → Ends I J R Any (step_store c type d)
    unfolding step_store
    step_store-Ensures e = Ends-bind (laws.load_reg d.rs1 f.rs1) λ a p.
        Ends-bind (laws.load_reg d.rs2 f.rs2) λ b q.
          Ends-bind (laws.check_data_store _ (omega arith)) λ allowed may.
            Ends-unless (not allowed) (laws.do_trap _) λ passed.
              Ends-bind (laws.load_mem _ (omega arith) (may (not-false allowed passed)).0) λ word h.
                finish_store-Ensures _ (omega arith) (may (not-false allowed passed)).1 _
                  (store_out-AccessFits _ word h b q type e)

    dispatch-Ensures : Ends I J R Any (dispatch c (get_major type) type d)
    unfolding dispatch
    dispatch-Ensures = elim (Bool-cases (ltb (get_major type) 3)) [
      | inl e ↦ rw e (step_misc-Ensures e)
      | inr e₀ ↦ elim (Bool-cases (get_major type == 3)) [
        | inl e ↦ rw (e₀, e) (step_mul-Ensures e)
        | inr e₁ ↦ elim (Bool-cases (get_major type == 4)) [
          | inl e ↦ rw (e₀, e₁, e) (step_div-Ensures e)
          | inr e₂ ↦ elim (Bool-cases (get_major type == 5)) [
            | inl e ↦ rw (e₀, e₁, e₂, e) (step_load-Ensures e)
            | inr e₃ ↦ elim (Bool-cases (get_major type == 6)) [
              | inl e ↦ rw (e₀, e₁, e₂, e₃, e) (step_store-Ensures e)
              | inr e₄ ↦ elim (Bool-cases (get_major type == 7)) [
                | inl e ↦ rw (e₀, e₁, e₂, e₃, e₄, e) (step_priv-Ensures d type e)
                | inr e₅ ↦ rw (e₀, e₁, e₂, e₃, e₄, e₅) (laws.do_trap _)
              ]
            ]
          ]
        ]
      ]
    ]

  execute-Ensures : (inst : ℕ) → IsWord inst → Ends I J R Any (execute c inst)
  unfolding execute
  execute-Ensures inst h =
      let d = decode inst in
      let type = lookup d in
      Ends-bind (laws.inst_decoded type d) λ _ _.
        Ends-bind (dispatch-Ensures type d (decode-FieldsFit inst h)) λ ret _.
          if_both (Ends J J R Any) ret (laws.end_normal type d) (Ends-return tt (λ _ h. h) tt)

  -- Over a context with its laws, a step from a state with `I` ends in a state with `J`, or throws
  -- what the context may throw. So the code that C++ leaves undefined, an index outside of the
  -- registers, `__builtin_unreachable` and a division by 0 or one that overflows, is not reached where
  -- the context does not throw it itself; and the step loads and stores no word but those that the checks of the context let pass.
  pub step-Ensures : Ends I J R Any (step c)
  unfolding step
  step-Ensures = Ends-bind laws.get_pc λ pc ok.
      Ends-bind (laws.check_inst_load pc (ok.0)) λ allowed may.
        Ends-unless (not allowed) (Ends-bind (laws.do_trap _) λ _ _. Ends-return tt (λ _ h. h) tt)
          λ passed.
            Ends-bind (laws.load_mem (pc / 4) (omega arith) (may (not-false allowed passed)))
              λ inst h.
                Ends-unless (not (bit_and inst 3 == 3))
                  (Ends-bind (laws.do_trap _) λ _ _. Ends-return tt (λ _ h. h) tt)
                  λ _. execute-Ensures inst h

module _ {S : Type 0} (c : Context S) {I : S → Type 0} {R : Error → Type 0}
    {Loads Stores : ℕ → Type 0} (laws : Laws c I I R Loads Stores) where
  rounds-Ensures : (left : ℕ) → Ensures I R Any (rounds c left)
  unfolding rounds
  rounds-Ensures zero = Ends-bind laws.is_done λ _ _. Ends-return tt (λ _ h. h) tt
  rounds-Ensures (suc left) = Ends-bind laws.is_done λ done _.
      Ends-unless done (Ends-return tt (λ _ h. h) tt)
        λ _. Ends-bind (step-Ensures c laws) λ _ _. rounds-Ensures left

  -- `run` keeps an invariant that the context keeps, for every bound on the steps.
  pub run-Ensures : (max_steps : ℕ) → Ensures I R Any (run c max_steps)
  unfolding run
  run-Ensures max_steps = Ends-bind (rounds-Ensures max_steps) λ _ _. laws.is_done
