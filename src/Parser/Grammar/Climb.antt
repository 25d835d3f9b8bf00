-- ===== src/Parser/Grammar/Climb.antt =====
-- The loop over operators reads the operators of a written tree.
use zirgen.Prelude.{
  ℕ, suc, ◌+◌, ◌≤◌, ◌<◌, ◌≡◌, refl, ap, List, ◌∷◌, some, false, ltb, if◌then◌else◌, arith,
  Bool-cases, inl, inr,
}
use zirgen.Word.Signed.{pos, ltb_ℤ}
use zirgen.Lexer.State.{Message}
use zirgen.Ast.{Expression, null}
use zirgen.Parser.Source.{Parser, pure}
use zirgen.Parser.Instance.{Tokens, Lexeme, list_source, first_token, nowhere}
use zirgen.Parser.Precedence.{get_precedence, build_binary_op}
use zirgen.Parser.Descent.{parse_binary_op}
use zirgen.Parser.Grammar.{
  Op, op_range, op_and, op_add, op_sub, op_mul, op_div, op_mod, op_token, op_node, level, Next,
  operator, stop, next_token, mark,
}
use zirgen.Parser.Grammar.Steps.{
  Runs, Runs-unique, spend, primary, climb, before, precedence-next, Below, binary_stops,
}

module _ (errors : List Message) (test_num : ℕ) where
  abbrev at : List Lexeme → Lexeme → Parser Tokens
  at = before errors test_num

  build-op :
      (o : Op) (lhs rhs : Expression) (s : Parser Tokens)
      → build_binary_op list_source (op_token o) lhs rhs nowhere s ≡ some (op_node o lhs rhs, s)
  unfolding build_binary_op list_source
  build-op op_range lhs rhs s = refl
  build-op op_and lhs rhs s = refl
  build-op op_add lhs rhs s = refl
  build-op op_sub lhs rhs s = refl
  build-op op_mul lhs rhs s = refl
  build-op op_div lhs rhs s = refl
  build-op op_mod lhs rhs s = refl

  tight-enough : (o : Op) (q : ℕ) → q ≤ level o → ltb_ℤ (pos (level o)) (pos q) ≡ false
  unfolding ltb_ℤ
  tight-enough o q le = ground arith

  -- Behind an operator that does not bind more tightly, the loop would end at once.
  untested :
      (o : Op) (n : Next) (first rhs : Expression) (mid rest : List Lexeme) (mid_last last : Lexeme)
      → Below n (suc (level o))
      → first_token mid ≡ next_token n
      → Runs (climb first (suc (level o))) (at mid mid_last) (rhs, at rest last)
      → ◌≡◌ {A = Expression × Parser Tokens} (first, at mid mid_last) (rhs, at rest last)
  untested o n first rhs mid rest mid_last last below e h =
      Runs-unique (climb first (suc (level o)))
        (binary_stops errors test_num n (suc (level o)) first mid mid_last below e) h

  looser : (a b : ℕ) → ltb a b ≡ false → b < suc a
  looser a b h = ground arith

  -- The right operand is what the loop for tighter operators gives, whether it is entered or not.
  right_operand :
      (o : Op) (n : Next) (first rhs : Expression) (mid rest : List Lexeme) (mid_last last : Lexeme)
      (f : ℕ)
      → first_token mid ≡ next_token n
      → (h : Runs (climb first (suc (level o))) (at mid mid_last) (rhs, at rest last)) → h.0 ≤ f
      → (if ltb_ℤ (pos (level o)) (get_precedence (first_token mid))
            then climb first (suc (level o)) f
            else pure first)
          (at mid mid_last)
        ≡ some (rhs, at rest last)
  unfolding ltb_ℤ
  right_operand o (operator p) first rhs mid rest mid_last last f e h le =
      rw (e, precedence-next (operator p))
        (elim (Bool-cases (ltb (level o) (level p))) [
          | inl t ↦ rw t (h.1 f le)
          | inr t ↦ rw t (
              ap some (
                untested o (operator p) first rhs mid rest mid_last last
                  (looser (level o) (level p) t) e h))
        ])
  right_operand o (stop t) first rhs mid rest mid_last last f e h le =
      rw (e, precedence-next (stop t))
        (ap some (untested o (stop t) first rhs mid rest mid_last last tt e h))

  -- An operator of a high enough level is read with its right operand, which is the primary
  -- expression `first` and the tighter operators behind it.
  pub climb-op :
      (o : Op) (q : ℕ) (lhs first rhs : Expression) (n : Next) (right mid rest : List Lexeme)
      (l m last mid_last : Lexeme) (r : Expression × Parser Tokens)
      → q ≤ level o
      → Runs (primary null) (at right (mark (op_token o))) (first, at mid mid_last)
      → first_token mid ≡ next_token n
      → Runs (climb first (suc (level o))) (at mid mid_last) (rhs, at rest last)
      → Runs (climb (op_node o lhs rhs) q) (at rest last) r
      → Runs (climb lhs q) (at (mark (op_token o) ∷ right) l) r
  unfolding parse_binary_op list_source
  climb-op o q lhs first rhs n right mid rest l m last mid_last r le (b1, h1) e (b2, h2) (b3, h3) =
      spend (climb lhs q) (at (mark (op_token o) ∷ right) l) (b1 + (b2 + b3)) λ f enough.
        rw
          (
            precedence-next (operator o),
            tight-enough o q le,
            h1 f (omega arith),
            right_operand o n first rhs mid rest mid_last last f e (b2, h2) (omega arith),
            build-op o lhs rhs (at rest last),
          )
          (h3 f (omega arith))
