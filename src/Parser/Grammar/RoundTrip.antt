-- ===== src/Parser/Grammar/RoundTrip.antt =====
-- The parser reads a written tree back.
use zirgen.Prelude.{ℕ, suc, ◌≤◌, ◌≡◌, refl, List, ◌∷◌, false, ltb, arith, Bool-cases, inl, inr}
use zirgen.Lexer.Token.{tok_minus, tok_paren_l, tok_paren_r}
use zirgen.Lexer.State.{Message}
use zirgen.Ast.{Expression, null}
use zirgen.Parser.Instance.{Lexeme, list_source, first_token}
use zirgen.Parser.Expression.{is_null, starts_primary}
use zirgen.Parser.Expression as Parts
use zirgen.Parser.Descent.{parse_primary}
use zirgen.Parser.Grammar.{
  Op, op_range, op_and, op_add, op_sub, op_mul, op_div, op_mod, op_token, level, Stop, stop_token,
  stop_paren, Next, operator, stop, next_token, mark, Tree, name, number, negated, binary, node,
  written, ending,
}
use zirgen.Parser.Grammar.Steps.{Runs, spend, primary, whole, Below}
use zirgen.Parser.Grammar.Leads.{
  Leads, at, primary_ends, Leads-atom, Leads-inside, Leads-reads, Leads-negated, Leads-bracketed,
  Below-all,
}

module _ (errors : List Message) (test_num : ℕ) where
  node_is_there : (t : Tree) → is_null (node t) ≡ false
  node_is_there (name x) = refl
  node_is_there (number x) = refl
  node_is_there (negated t) = refl
  node_is_there (binary op_range l r) = refl
  node_is_there (binary op_and l r) = refl
  node_is_there (binary op_add l r) = refl
  node_is_there (binary op_sub l r) = refl
  node_is_there (binary op_mul l r) = refl
  node_is_there (binary op_div l r) = refl
  node_is_there (binary op_mod l r) = refl

  Below-mono : (n : Next) (a b : ℕ) → a ≤ b → Below n a → Below n b
  Below-mono (operator o) a b le h = omega arith
  Below-mono (stop t) a b le h = tt

  -- An operand of an operator that binds more tightly than it has to.
  Leads-looser :
      (e : Expression) (o : Op) (p : ℕ) (tokens rest : List Lexeme) (last end : Lexeme)
      → ltb (level o) p ≡ false
      → Leads errors test_num e (level o) tokens rest last end
      → Leads errors test_num e p tokens rest last end
  Leads-looser e o p tokens rest last end c a =
      let le : p ≤ level o = ground arith in
      record {
        first = a.first;
        mid = a.mid;
        mid_last = a.mid_last;
        next = a.next;
        is_there = a.is_there;
        at_next = a.at_next;
        begins = a.begins;
        reads_first = a.reads_first;
        climbs = λ q out lq h. a.climbs q out (omega arith) h;
      }

  Below-bracket :
      (n : Next) (o : Op) (p : ℕ)
      → Below n (suc p)
      → ltb (level o) p ≡ false
      → Below n (suc (level o))
  Below-bracket n o p below c = Below-mono n (suc p) (suc (level o)) (ground arith) below

  parse-Leads :
      (t : Tree) (p : ℕ) (n : Next) (rest : List Lexeme) (last : Lexeme)
      → Below n (suc p)
      → first_token rest ≡ next_token n
      → Leads errors test_num (node t) p (written p t rest) rest last (ending p t)
  unfolding written ending parse_primary Parts.parse_identifier Parts.parse_literal starts_primary
      list_source
  parse-Leads (name x) p n rest last below q =
      let (b, after) =
        primary_ends errors test_num n (node (name x)) rest (ending p (name x)) refl q in
      Leads-atom errors test_num (node (name x)) p n (written p (name x) rest) rest last
        (ending p (name x)) refl q (inl refl)
        (spend (primary null) (at errors test_num (written p (name x) rest) last) b after)
  parse-Leads (number x) p n rest last below q =
      let (b, after) =
        primary_ends errors test_num n (node (number x)) rest (ending p (number x)) refl q in
      Leads-atom errors test_num (node (number x)) p n (written p (number x) rest) rest last
        (ending p (number x)) refl q (inl refl)
        (spend (primary null) (at errors test_num (written p (number x) rest) last) b after)
  parse-Leads (negated t) p n rest last below q =
      Leads-negated errors test_num n (node t) p (written 6 t rest) rest last (ending 6 t)
        (node_is_there t) q
        (parse-Leads t 6 n rest (mark tok_minus)
          (Below-mono n 6 7 (omega arith) (Below-all errors test_num n)) q)
  parse-Leads (binary o l r) p n rest last below q = elim (Bool-cases (ltb (level o) p)) [
    | inl c ↦
        let more = mark tok_paren_r ∷ rest in
        let right = written (suc (level o)) r more in
        let tokens = written (level o) l (mark (op_token o) ∷ right) in
        let inside =
          Leads-inside errors test_num o (node l) (node r) (stop stop_paren) tokens right more
            (mark tok_paren_l) (ending (level o) l) (ending (suc (level o)) r) tt refl
            (parse-Leads l (level o) (operator o) (mark (op_token o) ∷ right) (mark tok_paren_l)
              (omega arith) refl)
            (parse-Leads r (suc (level o)) (stop stop_paren) more (mark (op_token o)) tt refl) in
        rw c (
          Leads-bracketed errors test_num n (node (binary o l r)) p (level o) tokens rest last
            (ending (suc (level o)) r) (node_is_there (binary o l r)) q inside)
    | inr c ↦
        let right = written (suc (level o)) r rest in
        let tokens = written (level o) l (mark (op_token o) ∷ right) in
        let behind = Below-bracket n o p below c in
        let inside =
          Leads-inside errors test_num o (node l) (node r) n tokens right rest last
            (ending (level o) l) (ending (suc (level o)) r) behind q
            (parse-Leads l (level o) (operator o) (mark (op_token o) ∷ right) last (omega arith)
              refl)
            (parse-Leads r (suc (level o)) n rest (mark (op_token o))
              (Below-mono n (suc (level o)) (suc (suc (level o))) (omega arith) behind) q) in
        rw c (
          Leads-looser (node (binary o l r)) o p tokens rest last (ending (suc (level o)) r) c
            inside)
  ]

  -- The tokens of a tree, with brackets only where the precedences ask for them, are read back as the
  -- tree's node, whatever may end an expression behind them, and with any fuel from some bound on.
  pub parse_expression-written :
      (t : Tree) (s : Stop) (rest : List Lexeme) (last : Lexeme)
      → first_token rest ≡ stop_token s
      → Runs
          (whole null)
          (at errors test_num (written 0 t rest) last)
          (node t, at errors test_num rest (ending 0 t))
  parse_expression-written t s rest last q =
      Leads-reads errors test_num s (node t) 0 (written 0 t rest) rest last (ending 0 t)
        (node_is_there t) q (parse-Leads t 0 (stop s) rest last tt q)
