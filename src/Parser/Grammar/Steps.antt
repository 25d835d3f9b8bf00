-- ===== src/Parser/Grammar/Steps.antt =====
-- Runs of the parser that end with some fuel and give the same with more, and its steps at tokens
-- that end an operand.
use zirgen.Prelude.{ℕ, zero, suc, ◌+◌, ◌≤◌, ◌<◌, ◌≡◌, refl, List, some, true, false, arith}
use zirgen.Word.Signed.{ℤ, pos, negsuc, ltb_ℤ}
use zirgen.Lexer.State.{Message}
use zirgen.Ast.{Expression}
use zirgen.Parser.Source.{Parser, Step}
use zirgen.Parser.Instance.{Tokens, Lexeme, list_source, first_token}
use zirgen.Parser.Precedence.{get_precedence}
use zirgen.Parser.Expression.{is_null}
use zirgen.Parser.Descent.{parse_primary, parse_binary_op, parse_expression}
use zirgen.Parser.Grammar.{
  op_range, op_and, op_add, op_sub, op_mul, op_div, op_mod, level, Stop, stop_token, Next, operator,
  stop, next_token, stop_paren, stop_square, stop_angle, stop_curly, stop_block, stop_comma,
  stop_semicolon, stop_define, stop_eq, stop_colon, stop_bang, stop_with, stop_init, stop_variadic,
  stop_eof,
}

-- With enough fuel, `p` gives `r` from `s`.
abbrev pub Runs : {A : Type 0} → (ℕ → Step Tokens A) → Parser Tokens → A × Parser Tokens → Type 0
Runs p s r = (bound : ℕ) × ((f : ℕ) → bound ≤ f → p f s ≡ some r)

-- The three loops of the descent from a left operand on.
abbrev pub primary : Expression → ℕ → Step Tokens Expression
primary left f = parse_primary list_source f left

abbrev pub climb : Expression → ℕ → ℕ → Step Tokens Expression
climb lhs q f = parse_binary_op list_source f lhs (pos q)

abbrev pub whole : Expression → ℕ → Step Tokens Expression
whole left f = parse_expression list_source f (pos 0) left

-- A run has one result.
pub Runs-unique :
    {A : Type 0} (p : ℕ → Step Tokens A) {s : Parser Tokens} {r r' : A × Parser Tokens}
    → Runs p s r
    → Runs p s r'
    → r ≡ r'
Runs-unique p (b, h) (b', h') =
    let e = h (b + b') (omega arith) in let e' = h' (b + b') (omega arith) in cc

-- A unit of fuel is there to spend.
pub spend :
    {A : Type 0} (p : ℕ → Step Tokens A) (s : Parser Tokens) {r : A × Parser Tokens} (b : ℕ)
    → ((f : ℕ) → b ≤ f → p (suc f) s ≡ some r)
    → Runs p s r
spend p s {r} b h = (suc b, enough)
  where
    enough : (f : ℕ) → suc b ≤ f → p f s ≡ some r
    enough zero q = absurd (omega arith)
    enough (suc f) q = h f (omega arith)

abbrev pub level_of : Next → ℤ
level_of (operator o) = pos (level o)
level_of (stop t) = negsuc 0

pub precedence-next : (n : Next) → get_precedence (next_token n) ≡ level_of n
unfolding get_precedence
precedence-next (operator op_range) = refl
precedence-next (operator op_and) = refl
precedence-next (operator op_add) = refl
precedence-next (operator op_sub) = refl
precedence-next (operator op_mul) = refl
precedence-next (operator op_div) = refl
precedence-next (operator op_mod) = refl
precedence-next (stop stop_paren) = refl
precedence-next (stop stop_square) = refl
precedence-next (stop stop_angle) = refl
precedence-next (stop stop_curly) = refl
precedence-next (stop stop_block) = refl
precedence-next (stop stop_comma) = refl
precedence-next (stop stop_semicolon) = refl
precedence-next (stop stop_define) = refl
precedence-next (stop stop_eq) = refl
precedence-next (stop stop_colon) = refl
precedence-next (stop stop_bang) = refl
precedence-next (stop stop_with) = refl
precedence-next (stop stop_init) = refl
precedence-next (stop stop_variadic) = refl
precedence-next (stop stop_eof) = refl

-- What stands behind an operand binds less tightly than `q`.
abbrev pub Below : Next → ℕ → Type 0
Below (operator o) q = level o < q
Below (stop t) q = Unit

pub Below→ltb : (n : Next) (q : ℕ) → Below n q → ltb_ℤ (level_of n) (pos q) ≡ true
unfolding ltb_ℤ
Below→ltb (operator o) q h = ground arith
Below→ltb (stop t) q h = refl

module _ (errors : List Message) (test_num : ℕ) where
  -- The parser in front of `rest`, with `last` taken last.
  abbrev pub before : List Lexeme → Lexeme → Parser Tokens
  before rest last = record {
    lexer = record { rest = rest; last = last; errors = errors };
    test_num = test_num;
  }

  -- An operand that is complete stays as it is.
  pub primary_stops :
      (n : Next) (f : ℕ) (left : Expression) (rest : List Lexeme) (last : Lexeme)
      → is_null left ≡ false
      → first_token rest ≡ next_token n
      → parse_primary list_source (suc f) left (before rest last) ≡ some (left, before rest last)
  unfolding parse_primary list_source
  primary_stops (operator op_range) f left rest last h e = rw (e, h) refl
  primary_stops (operator op_and) f left rest last h e = rw (e, h) refl
  primary_stops (operator op_add) f left rest last h e = rw (e, h) refl
  primary_stops (operator op_sub) f left rest last h e = rw (e, h) refl
  primary_stops (operator op_mul) f left rest last h e = rw (e, h) refl
  primary_stops (operator op_div) f left rest last h e = rw (e, h) refl
  primary_stops (operator op_mod) f left rest last h e = rw (e, h) refl
  primary_stops (stop stop_paren) f left rest last h e = rw (e, h) refl
  primary_stops (stop stop_square) f left rest last h e = rw (e, h) refl
  primary_stops (stop stop_angle) f left rest last h e = rw (e, h) refl
  primary_stops (stop stop_curly) f left rest last h e = rw (e, h) refl
  primary_stops (stop stop_block) f left rest last h e = rw (e, h) refl
  primary_stops (stop stop_comma) f left rest last h e = rw (e, h) refl
  primary_stops (stop stop_semicolon) f left rest last h e = rw (e, h) refl
  primary_stops (stop stop_define) f left rest last h e = rw (e, h) refl
  primary_stops (stop stop_eq) f left rest last h e = rw (e, h) refl
  primary_stops (stop stop_colon) f left rest last h e = rw (e, h) refl
  primary_stops (stop stop_bang) f left rest last h e = rw (e, h) refl
  primary_stops (stop stop_with) f left rest last h e = rw (e, h) refl
  primary_stops (stop stop_init) f left rest last h e = rw (e, h) refl
  primary_stops (stop stop_variadic) f left rest last h e = rw (e, h) refl
  primary_stops (stop stop_eof) f left rest last h e = rw (e, h) refl

  -- The loop over operators ends there.
  pub binary_stops :
      (n : Next) (q : ℕ) (lhs : Expression) (rest : List Lexeme) (last : Lexeme)
      → Below n q
      → first_token rest ≡ next_token n
      → Runs (climb lhs q) (before rest last) (lhs, before rest last)
  unfolding parse_binary_op list_source
  binary_stops n q lhs rest last h e =
      spend (climb lhs q) (before rest last) 0
        (λ f _. rw (e, precedence-next n, Below→ltb n q h) refl)

  stop_step :
      (t : Stop) (f : ℕ) (left : Expression) (rest : List Lexeme) (last : Lexeme)
      → is_null left ≡ false
      → first_token rest ≡ stop_token t
      → parse_expression list_source (suc f) (pos 0) left (before rest last)
        ≡ some (left, before rest last)
  unfolding parse_expression list_source
  stop_step stop_paren f left rest last h e = rw e refl
  stop_step stop_square f left rest last h e = rw e refl
  stop_step stop_angle f left rest last h e = rw e refl
  stop_step stop_curly f left rest last h e = rw e refl
  stop_step stop_block f left rest last h e = rw (e, h) refl
  stop_step stop_comma f left rest last h e = rw e refl
  stop_step stop_semicolon f left rest last h e = rw e refl
  stop_step stop_define f left rest last h e = rw e refl
  stop_step stop_eq f left rest last h e = rw e refl
  stop_step stop_colon f left rest last h e = rw e refl
  stop_step stop_bang f left rest last h e = rw e refl
  stop_step stop_with f left rest last h e = rw e refl
  stop_step stop_init f left rest last h e = rw e refl
  stop_step stop_variadic f left rest last h e = rw e refl
  stop_step stop_eof f left rest last h e = rw e refl

  -- The loop of `parseExpression` ends at a stop.
  pub expression_stops :
      (t : Stop) (left : Expression) (rest : List Lexeme) (last : Lexeme)
      → is_null left ≡ false
      → first_token rest ≡ stop_token t
      → Runs (whole left) (before rest last) (left, before rest last)
  expression_stops t left rest last h e =
      spend (whole left) (before rest last) 0 (λ f _. stop_step t f left rest last h e)
