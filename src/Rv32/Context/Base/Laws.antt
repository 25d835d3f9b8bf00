-- ===== src/Rv32/Context/Base/Laws.antt =====
-- `BaseContext` has the laws of a context, with the invariant `IsWf`.
use zirgen.Prelude.{
  ℕ, ◌<◌, ◌≡◌, ◌≢◌, refl, ◌∙◌, true, some, arith, ltb, ◌==◌, length, get_or, set, length-set,
  get_or-set_self, get_or-set_ne, Bool-cases, Option-cases, inl, inr,
}
use zirgen.Word.{IsWord}
use zirgen.Rv32.Context
use zirgen.Rv32.Context.{Error, unimplemented}
use zirgen.Rv32.Context.Laws.{IsPc, Any, Ensures, Laws}
use zirgen.Rv32.Context.Base.{BaseContext, base, update, load_reg, store_reg, load_mem}

-- 32 registers that hold words, the first of them 0; a word in memory; an aligned `pc`.
pub record IsWf (s : BaseContext) : Type 0 where
  pub pc_aligned : IsPc s.pc
  pub count : length s.regs ≡ 32
  pub zero_reg : get_or s.regs 0 0 ≡ 0
  pub reg_words : (i : ℕ) → IsWord (get_or s.regs i 0)
  pub mem_words : (w v : ℕ) → s.memory w ≡ some v → IsWord v

abbrev pub IsUnimplemented : Error → Type 0
IsUnimplemented e = e ≡ unimplemented

abbrev pub Keeps : {A : Type 0} → (A → Type 0) → Context.M BaseContext A → Type 0
Keeps Q m = Ensures IsWf IsUnimplemented Q m

store_reg-words :
    (s : BaseContext) (reg v : ℕ)
    → IsWf s
    → reg < 32
    → IsWord v
    → (i : ℕ) → IsWord (get_or (set s.regs reg v) i 0)
store_reg-words s reg v wf h p i = ground (
  arith,
  get_or-set_self s.regs reg v 0 (rw wf.count h),
  get_or-set_ne s.regs reg i v 0,
  wf.reg_words i,
)

update-words :
    (s : BaseContext) (word val : ℕ)
    → IsWf s
    → IsWord val
    → (w v : ℕ) → update s.memory word val w ≡ some v
    → IsWord v
update-words s word val wf p w v e = ground (arith, wf.mem_words w v)

load_reg-Keeps : (reg : ℕ) → reg < 32 → Keeps IsWord (load_reg reg)
unfolding load_reg
load_reg-Keeps reg h = record { from = λ s wf. rw (in_range) (wf.reg_words reg, wf) }
  where
    in_range : ltb reg 32 ≡ true
    in_range = ground arith

-- The write to a register other than the first.
written-IsWf :
    (s : BaseContext) (reg v : ℕ)
    → IsWf s
    → reg ≢ 0
    → reg < 32
    → IsWord v
    → IsWf (record s { regs = set s.regs reg v })
written-IsWf s reg v wf ne h p = record {
  pc_aligned = wf.pc_aligned;
  count = length-set s.regs reg v ∙ wf.count;
  zero_reg = get_or-set_ne s.regs reg 0 v 0 ne ∙ wf.zero_reg;
  reg_words = store_reg-words s reg v wf h p;
  mem_words = wf.mem_words;
}

store_reg-Keeps : (reg v : ℕ) → reg < 32 → IsWord v → Keeps Any (store_reg reg v)
unfolding store_reg
store_reg-Keeps reg v h p = record {
  from = λ s wf. elim (Bool-cases (reg == 0)) [
    | inl e ↦ rw e (tt, wf)
    | inr e ↦ rw (e, in_range) (tt, written-IsWf s reg v wf (ground arith) h p)
  ];
}
  where
    in_range : ltb reg 32 ≡ true
    in_range = ground arith

load_mem-Keeps : (word : ℕ) → Keeps IsWord (load_mem word)
unfolding load_mem
load_mem-Keeps word = record {
  from = λ s wf. elim (Option-cases (s.memory word)) [
    | inl e ↦
        rw (e, load_mem)
          (
            omega arith,
            record {
              pc_aligned = wf.pc_aligned;
              count = wf.count;
              zero_reg = wf.zero_reg;
              reg_words = wf.reg_words;
              mem_words = update-words s word 0 wf (omega arith);
            },
          )
    | inr (v, e) ↦ rw (e, load_mem) (wf.mem_words word v e, wf)
  ];
}

-- Every word may be loaded and stored.
pub base-Laws : Laws base IsWf IsWf IsUnimplemented Any Any
unfolding base
base-Laws = record {
  is_done = record { from = λ s wf. (tt, wf) };
  check_inst_load = λ addr h. record { from = λ s wf. (λ _. tt, wf) };
  check_data_load = λ addr h. record { from = λ s wf. (λ _. tt, wf) };
  check_data_store = λ addr h. record { from = λ s wf. (λ _. (tt, tt), wf) };
  do_ecall = record {
    from = λ s wf. (
      tt,
      record {
        pc_aligned = wf.pc_aligned;
        count = wf.count;
        zero_reg = wf.zero_reg;
        reg_words = wf.reg_words;
        mem_words = wf.mem_words;
      },
    );
  };
  do_mret = record { from = λ s wf. refl };
  do_trap = λ cause. record { from = λ s wf. refl };
  inst_decoded = λ type d. record { from = λ s wf. (tt, wf) };
  end_normal = λ type d. record { from = λ s wf. (tt, wf) };
  get_pc = record { from = λ s wf. (wf.pc_aligned, wf) };
  set_pc = λ pc ok. record {
    from = λ s wf. (
      tt,
      record {
        pc_aligned = ok;
        count = wf.count;
        zero_reg = wf.zero_reg;
        reg_words = wf.reg_words;
        mem_words = wf.mem_words;
      },
    );
  };
  load_reg = load_reg-Keeps;
  store_reg = store_reg-Keeps;
  load_mem = λ word below may. load_mem-Keeps word;
  store_mem = λ word v below may p. record {
    from = λ s wf. (
      tt,
      record {
        pc_aligned = wf.pc_aligned;
        count = wf.count;
        zero_reg = wf.zero_reg;
        reg_words = wf.reg_words;
        mem_words = update-words s word v wf p;
      },
    );
  };
}
