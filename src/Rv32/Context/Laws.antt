-- ===== src/Rv32/Context/Laws.antt =====
-- What the emulator asks of a context: an invariant `I` of its state that every method keeps, what
-- the methods return, and the errors `R` that they may throw.
use zirgen.Prelude.{
  ℕ, ◌/◌, ◌%◌, ◌^◌, ◌<◌, ◌≡◌, ◌⊎◌, inl, inr, if◌then◌else◌, refl, Bool, true, false,
}
use zirgen.Prelude.Result.{Result, ok, throws, Post}
use zirgen.Word.{IsWord}
use zirgen.Rv32.Inst.{InstType, TrapCause}
use zirgen.Rv32.Decode.{DecodedInst}
use zirgen.Rv32.Context.{M, Context, Error, ◌>>=◌, unless}

abbrev pub IsPc : ℕ → Type 0
IsPc pc = IsWord pc × (pc % 4 ≡ 0)

-- From a state with `I`, `m` returns a value with `Q` in a state with `J`, or throws an error with
-- `R`.
pub record Ends {S A : Type 0} (I J : S → Type 0) (R : Error → Type 0) (Q : A → Type 0) (m : M S A)
    : Type 0 where
  pub from : (s : S) → I s → Post (λ (r : A × S). Q r.0 × J r.1) R (m s)

-- The same where `m` keeps `I`.
abbrev pub Ensures :
    {S A : Type 0} → (S → Type 0) → (Error → Type 0) → (A → Type 0) → M S A → Type 0
Ensures I R Q m = Ends I I R Q m

abbrev pub Any : {A : Type 0} → A → Type 0
Any a = Unit

-- Where a check of the context passes, the word may be loaded or stored. `I` holds while the
-- emulator works on an instruction; what ends it, a new program counter, a trap or a privileged
-- instruction, leaves a state with `J`.
pub record Laws {S : Type 0} (c : Context S) (I J : S → Type 0) (R : Error → Type 0)
    (Loads Stores : ℕ → Type 0) : Type 0 where
  pub is_done : Ensures I R Any c.is_done
  pub check_inst_load :
      (addr : ℕ)
      → IsWord addr
      → Ensures I R (λ b. b ≡ true → Loads (addr / 4)) (c.check_inst_load addr)
  pub check_data_load :
      (addr : ℕ)
      → IsWord addr
      → Ensures I R (λ b. b ≡ true → Loads (addr / 4)) (c.check_data_load addr)
  pub check_data_store :
      (addr : ℕ)
      → IsWord addr
      → Ensures I R (λ b. b ≡ true → Loads (addr / 4) × Stores (addr / 4)) (c.check_data_store addr)
  pub do_ecall : Ends I J R Any c.do_ecall
  pub do_mret : Ends I J R Any c.do_mret
  pub do_trap : (cause : TrapCause) → Ends I J R Any (c.do_trap cause)
  pub inst_decoded : (type : InstType) (d : DecodedInst) → Ensures I R Any (c.inst_decoded type d)
  pub end_normal : (type : InstType) (d : DecodedInst) → Ensures J R Any (c.end_normal type d)
  pub get_pc : Ensures I R IsPc c.get_pc
  pub set_pc : (pc : ℕ) → IsPc pc → Ends I J R Any (c.set_pc pc)
  pub load_reg : (reg : ℕ) → reg < 32 → Ensures I R IsWord (c.load_reg reg)
  pub store_reg : (reg v : ℕ) → reg < 32 → IsWord v → Ensures I R Any (c.store_reg reg v)
  pub load_mem : (word : ℕ) → word < 2 ^ 30 → Loads word → Ensures I R IsWord (c.load_mem word)
  pub store_mem :
      (word v : ℕ) → word < 2 ^ 30 → Stores word → IsWord v → Ensures I R Any (c.store_mem word v)

module _ {S : Type 0} {I J : S → Type 0} {R : Error → Type 0} where
  pub Ends-return :
      {A : Type 0} {Q : A → Type 0} (a : A)
      → ((s : S) → I s → J s)
      → Q a
      → Ends I J R Q (λ s. ok (a, s))
  Ends-return a weaken q = record { from = λ s h. (q, weaken s h) }

  pub Ends-bind :
      {K : S → Type 0} {A B : Type 0} {P : A → Type 0} {Q : B → Type 0} {m : M S A} {f : A → M S B}
      → Ends I J R P m
      → ((a : A) → P a → Ends J K R Q (f a))
      → Ends I K R Q (m >>= f)
  Ends-bind {K} {P} {Q} {m} {f} hm hf = record { from = λ s h. go (m s) (hm.from s h) }
    where
      go :
          (r : Result Error (_ × S))
          → Post (λ r. P r.0 × J r.1) R r
          → Post (λ r. Q r.0 × K r.1) R (elim r [ ok (a, s') ↦ f a s' | throws e ↦ throws e ])
      go (ok (a, s')) (p, h) = (hf a p).from s' h
      go (throws e) h = h

  pub Ends-unless :
      {A : Type 0} {Q : A → Type 0} (b : Bool) {m k : M S A}
      → Ends I J R Q m
      → (b ≡ false → Ends I J R Q k)
      → Ends I J R Q (unless b m k)
  Ends-unless true hm hk = hm
  Ends-unless false hm hk = hk refl

  -- Where the test is known to fail.
  pub Ends-passed :
      {A : Type 0} {Q : A → Type 0} (b : Bool) (m : M S A) {k : M S A}
      → b ≡ false
      → Ends I J R Q k
      → Ends I J R Q (unless b m k)
  Ends-passed true m e hk = cc
  Ends-passed false m e hk = hk

  pub Ends-weaken :
      {A : Type 0} {P Q : A → Type 0} {m : M S A}
      → ((a : A) → P a → Q a)
      → Ends I J R P m
      → Ends I J R Q m
  Ends-weaken {A} {P} {Q} {m} f one = record { from = λ s h. go (m s) (one.from s h) }
    where
      go :
          (r : Result Error (A × S))
          → Post (λ (r : A × S). P r.0 × J r.1) R r
          → Post (λ (r : A × S). Q r.0 × J r.1) R r
      go (ok (a, t)) (p, j) = (f a p, j)
      go (throws e) h = h

  pub Ends-after :
      {K : S → Type 0} {A : Type 0} {Q : A → Type 0} {m : M S A}
      → Ends I J R Q m
      → ((s : S) → J s → K s)
      → Ends I K R Q m
  Ends-after {K} {A} {Q} {m} one f = record { from = λ s h. go (m s) (one.from s h) }
    where
      go :
          (r : Result Error (A × S))
          → Post (λ (r : A × S). Q r.0 × J r.1) R r
          → Post (λ (r : A × S). Q r.0 × K r.1) R r
      go (ok (a, t)) (q, j) = (q, f t j)
      go (throws e) h = h

  -- Where the test is known to succeed.
  pub Ends-if :
      {A : Type 0} {Q : A → Type 0} (b : Bool) {m : M S A} (k : M S A)
      → b ≡ true
      → Ends I J R Q m
      → Ends I J R Q (if b then m else k)
  Ends-if true k e hm = hm
  Ends-if false k e hm = cc

  pub Ends-stop :
      {A : Type 0} {Q : A → Type 0} (b : Bool) {m : M S A} (k : M S A)
      → b ≡ true
      → Ends I J R Q m
      → Ends I J R Q (unless b m k)
  Ends-stop true k e hm = hm
  Ends-stop false k e hm = cc

  pub Ends-else :
      {A : Type 0} {Q : A → Type 0} (b : Bool) (m : M S A) {k : M S A}
      → b ≡ false
      → Ends I J R Q k
      → Ends I J R Q (if b then m else k)
  Ends-else true m e hk = cc
  Ends-else false m e hk = hk

  pub Ends-before :
      {I' : S → Type 0} {A : Type 0} {Q : A → Type 0} {m : M S A}
      → Ends I J R Q m
      → ((s : S) → I' s → I s)
      → Ends I' J R Q m
  Ends-before p f = record { from = λ s h. p.from s (f s h) }

  pub Ends-either :
      {I' : S → Type 0} {A : Type 0} {Q : A → Type 0} {m : M S A}
      → Ends I J R Q m
      → Ends I' J R Q m
      → Ends (λ s. I s ⊎ I' s) J R Q m
  Ends-either p q = record { from = λ s h. elim h [ inl i ↦ p.from s i | inr i ↦ q.from s i ] }
