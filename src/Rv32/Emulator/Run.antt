-- ===== src/Rv32/Emulator/Run.antt =====
-- `run` over the context of the tests.
use Prim.Native.Nat.add
use native.Mathlib.Nat.{zero-add}
use zirgen.Prelude.{
  ℕ, zero, suc, ◌+◌, ◌≡◌, refl, sym, ap, ◌∙◌, Bool, true, false, Bool-cases, inl, inr, arith,
}
use zirgen.Prelude.Result.{Result, ok, throws, Post}
use zirgen.Rv32.Context.{M, ◌>>=◌, Error}
use zirgen.Rv32.Context.Laws.{Any}
use zirgen.Rv32.Context.Base.{BaseContext, base}
use zirgen.Rv32.Context.Base.Laws.{IsWf, IsUnimplemented, base-Laws}
use zirgen.Rv32.Emulator.{step, rounds, run}
use zirgen.Rv32.Emulator.Laws.{run-Ensures}

-- From a well-formed state, `run` with any bound on the steps returns with a well-formed state or
-- throws the `unimplemented` of `doTrap` and `doMRET`. In particular the register x0 is 0 and the
-- program counter is aligned at the end, every register and memory cell holds a word, and no
-- `__builtin_unreachable`, index out of range, or division that C++ leaves undefined is reached.
pub run-IsWf :
    (max_steps : ℕ) (s : BaseContext)
    → IsWf s
    → Post (λ (r : Bool × BaseContext). Any r.0 × IsWf r.1) IsUnimplemented (run base max_steps s)
run-IsWf max_steps s wf = (run-Ensures base base-Laws max_steps).from s wf

bind_assoc :
    {S A B C : Type 0} (m : M S A) (f : A → M S B) (g : B → M S C) (s : S)
    → (m >>= f >>= g) s ≡ (m >>= λ a. f a >>= g) s
bind_assoc m f g s = ground arith

rounds-done : (n : ℕ) (s : BaseContext) → s.done ≡ true → rounds base n s ≡ ok (tt, s)
unfolding rounds base
rounds-done zero s h = refl
rounds-done (suc n) s h = rw h refl

rounds-suc :
    (n : ℕ) (s : BaseContext)
    → s.done ≡ false
    → rounds base (suc n) s ≡ (step base >>= λ _. rounds base n) s
unfolding rounds base
rounds-suc n s h = rw h refl

-- What follows a result.
abbrev then_rounds :
    ℕ → Result Error (Unit {0} × BaseContext) → Result Error (Unit {0} × BaseContext)
then_rounds k r = elim r [ ok (_, t) ↦ rounds base k t | throws e ↦ throws e ]

rounds-add :
    (m k : ℕ) (s : BaseContext) → rounds base (m + k) s ≡ (rounds base m >>= λ _. rounds base k) s
rounds-add zero k s = rw zero-add (unfold rounds base in refl)
rounds-add (suc m) k s = rw add.suc (elim (Bool-cases s.done) [
  | inl h ↦
      rounds-done (suc (m + k)) s h
      ∙ sym (rounds-done k s h)
      ∙ ap (then_rounds k) (sym (rounds-done (suc m) s h))
  | inr h ↦
      rounds-suc (m + k) s h
      ∙ (λ i. (step base >>= λ _ t. rounds-add m k t i) s)
      ∙ sym (bind_assoc (step base) (λ _. rounds base m) (λ _. rounds base k) s)
      ∙ ap (then_rounds k) (sym (rounds-suc m s h))
])

abbrev answer : Result Error (Unit {0} × BaseContext) → Result Error (Bool × BaseContext)
answer r = elim r [ ok (_, t) ↦ base.is_done t | throws e ↦ throws e ]

-- A budget of `m + k` steps is one of `m` steps and then one of `k`: the same final state, the same
-- answer and the same exception.
pub run-add : (m k : ℕ) (s : BaseContext) → run base (m + k) s ≡ (run base m >>= λ _. run base k) s
unfolding run base
run-add m k s =
    ap answer (rounds-add m k s)
    ∙ bind_assoc (rounds base m) (λ _. rounds base k) (λ _. base.is_done) s
    ∙ sym (bind_assoc (rounds base m) (λ _. base.is_done) (λ _. run base k) s)

abbrev flag : Result Error (Bool × BaseContext) → Bool
flag (ok (b, s)) = b
flag (throws e) = true

abbrev is_at_end : Result Error (Bool × BaseContext) → Bool
is_at_end (ok (b, s)) = s.done
is_at_end (throws e) = true

-- The answer is the `done` of the state.
answer_done : (r : Result Error (Unit {0} × BaseContext)) → is_at_end (answer r) ≡ flag (answer r)
unfolding base
answer_done (ok (_, s)) = refl
answer_done (throws e) = refl

run-done : (k : ℕ) (s : BaseContext) → s.done ≡ true → run base k s ≡ ok (true, s)
unfolding run base
run-done k s h = ap answer (rounds-done k s h) ∙ rw h refl

abbrev then_run : ℕ → Result Error (Bool × BaseContext) → Result Error (Bool × BaseContext)
then_run k r = elim r [ ok (_, t) ↦ run base k t | throws e ↦ throws e ]

-- A run that answers that the machine is done gives the same answer in the same state with every
-- bigger budget.
pub run-stays_done :
    (m k : ℕ) (s s' : BaseContext)
    → run base m s ≡ ok (true, s')
    → run base (m + k) s ≡ ok (true, s')
unfolding run
run-stays_done m k s s' h =
    let at_end = sym (ap is_at_end h) ∙ answer_done (rounds base m s) ∙ ap flag h in
    run-add m k s ∙ ap (then_run k) h ∙ run-done k s' at_end
