-- ===== src/Vm/User.antt =====
-- What user mode may touch, and what the machine asks of its host.
pub mod Keeps
pub mod Traps
pub mod Step
use zirgen.Prelude.{ℕ, ◌%◌, ◌≤◌, ◌<◌, ◌≡◌, ◌≢◌, ◌+◌, ◌⊎◌, ◌==◌, if◌then◌else◌}
use zirgen.Prelude.Result.{Post}
use zirgen.Word.{IsWord}
use zirgen.Rv32.Inst.{InstType, TrapCause}
use zirgen.Rv32.Decode.{DecodedInst}
use zirgen.Rv32.Context.{M, Error, bad_trap_address, mret_in_user_mode}
use zirgen.Rv32.Context.Laws.{IsPc, Any}
use zirgen.Vm.{Host, Vm}
use zirgen.Vm.Constants.{
  zero_page_end_word, kernel_start_word, kernel_start_addr, user_regs_word, mepc_word,
  ecall_dispatch_word, trap_dispatch_word,
}

-- The words of a user program.
abbrev pub IsUserData : ℕ → Type 0
IsUserData w = (zero_page_end_word ≤ w) × (w < kernel_start_word)

-- Its registers, and the word that takes what is written to x0.
abbrev pub IsUserReg : ℕ → Type 0
IsUserReg w = ((user_regs_word ≤ w) × (w < user_regs_word + 32)) ⊎ (w ≡ user_regs_word + 64)

-- The words of the two tables that a trap is dispatched by.
abbrev pub IsDispatch : ℕ → Type 0
IsDispatch w =
    ((ecall_dispatch_word ≤ w) × (w < ecall_dispatch_word + 512))
    ⊎ ((trap_dispatch_word ≤ w) × (w < trap_dispatch_word + 9))

abbrev pub SameView : (ℕ → ℕ) → (ℕ → ℕ) → Type 0
SameView before after = (j : ℕ) → after j ≡ before j

-- A host whose memory is seen through `view`: a load gives what is there and a store changes its
-- word only; the callbacks leave the memory alone. Each may throw an error with `R`.
pub record IsLawful {H : Type 0} (c : Host H) (view : H → ℕ → ℕ) (R : Error → Type 0) : Type 0 where
  pub load :
      (word : ℕ) (h : H)
      → Post (λ (r : ℕ × H). (r.0 ≡ view h word) × SameView (view h) (view r.1)) R (c.load word h)
  pub store :
      (word val : ℕ) (h : H)
      → Post
          (λ (r : Unit {0} × H). (j : ℕ) → view r.1 j ≡ (if j == word then val else view h j))
          R
          (c.store word val h)
  pub ecall_cycle :
      (cur next s0 s1 s2 : ℕ) (h : H)
      → Post
          (λ (r : Unit {0} × H). SameView (view h) (view r.1))
          R
          (c.ecall_cycle cur next s0 s1 s2 h)
  pub trap_rewind :
      (h : H) → Post (λ (r : Unit {0} × H). SameView (view h) (view r.1)) R (c.trap_rewind h)
  pub trap :
      (cause : TrapCause) (h : H)
      → Post (λ (r : Unit {0} × H). SameView (view h) (view r.1)) R (c.trap cause h)
  pub instruction :
      (type : InstType) (d : DecodedInst) (h : H)
      → Post (λ (r : Unit {0} × H). SameView (view h) (view r.1)) R (c.instruction type d h)

-- What a step of user mode may throw besides: there is no address to dispatch a trap to, or the
-- program runs MRET.
abbrev pub Thrown : (Error → Type 0) → Error → Type 0
Thrown R e = R e ⊎ ((e ≡ bad_trap_address) ⊎ (e ≡ mret_in_user_mode))

module _ {H : Type 0} (view : H → ℕ → ℕ) (first : ℕ → ℕ) where
  -- In user mode at a program counter with `Here`: no word but the user's differs from the memory at
  -- first.
  pub record InUser (Here : ℕ → Type 0) (s : Vm H) : Type 0 where
    pub mode : s.machine_mode ≡ 0
    pub pc : IsPc s.pc
    pub here : Here s.pc
    pub words : (j : ℕ) → IsWord (view s.host j)
    pub kept : (j : ℕ) → (IsUserData j → ⊥) → (IsUserReg j → ⊥) → view s.host j ≡ first j

  -- In machine mode after a trap from the program counter `from`: the program counter is an aligned
  -- address of the kernel that stands in one of the tables, the word of MEPC is `from`, and no other
  -- word differs besides the user's.
  pub record Trapped (from : ℕ) (s : Vm H) : Type 0 where
    pub mode : s.machine_mode ≡ 1
    pub pc : IsPc s.pc
    pub in_kernel : kernel_start_addr ≤ s.pc
    pub dispatched : (k : ℕ) × IsDispatch k × (s.pc ≡ first k)
    pub saved : view s.host mepc_word ≡ from
    pub words : (j : ℕ) → IsWord (view s.host j)
    pub kept :
        (j : ℕ) → (IsUserData j → ⊥) → (IsUserReg j → ⊥) → j ≢ mepc_word → view s.host j ≡ first j

  abbrev pub Confined : ℕ → Vm H → Type 0
  Confined from s = InUser Any s ⊎ Trapped from s
