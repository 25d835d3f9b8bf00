-- ===== src/Parser/Grammar.antt =====
-- Expressions over the binary operators, and how they are written: an independent description of
-- what the parser should read, with brackets only where the precedences ask for them.
pub mod Steps
pub mod Climb
pub mod Leads
pub mod RoundTrip
use Prim.Native.String.{String}
use zirgen.Prelude.{ℕ, suc, List, [], ◌∷◌, ltb, if◌then◌else◌}
use zirgen.Lexer.Token.{
  Token, codes, tok_range, tok_bit_and, tok_plus, tok_minus, tok_times, tok_div, tok_mod, tok_ident,
  tok_literal, tok_paren_l, tok_paren_r, tok_curly_l, tok_curly_r, tok_square_r, tok_angle_r,
  tok_comma, tok_semicolon, tok_define, tok_eq, tok_colon, tok_bang, tok_with, tok_init,
  tok_variadic, tok_eof,
}
use zirgen.Ast.{Name, Expression, range, construct, ident, literal, expression, no_expressions}
use zirgen.Parser.Precedence.{call}
use zirgen.Parser.Instance.{Lexeme, nowhere}

pub data Op : Type 0 where
  op_range op_and op_add op_sub op_mul op_div op_mod : Op

pub data Tree : Type 0 where
  name : Name → Tree
  number : ℕ → Tree
  negated : Tree → Tree
  binary : Op → Tree → Tree → Tree

abbrev pub op_token : Op → Token
op_token op_range = tok_range
op_token op_and = tok_bit_and
op_token op_add = tok_plus
op_token op_sub = tok_minus
op_token op_mul = tok_times
op_token op_div = tok_div
op_token op_mod = tok_mod

-- The bigger, the tighter.
abbrev pub level : Op → ℕ
level op_range = 1
level op_and = 2
level op_add = 3
level op_sub = 3
level op_mul = 4
level op_div = 4
level op_mod = 4

abbrev pub op_node : Op → Expression → Expression → Expression
op_node op_range l r = range nowhere l r
op_node op_and l r = call nowhere "BitAnd" l r
op_node op_add l r = call nowhere "Add" l r
op_node op_sub l r = call nowhere "Sub" l r
op_node op_mul l r = call nowhere "Mul" l r
op_node op_div l r = call nowhere "Div" l r
op_node op_mod l r = call nowhere "Mod" l r

abbrev pub neg_node : Expression → Expression
neg_node e = construct nowhere (ident nowhere (codes "Neg")) (expression e no_expressions)

-- The node that a tree stands for.
abbrev pub node : Tree → Expression
node (name n) = ident nowhere n
node (number k) = literal nowhere k
node (negated t) = neg_node (node t)
node (binary o l r) = op_node o (node l) (node r)

abbrev pub mark : Token → Lexeme
mark t = record { token = t; text = []; number = 0 }

-- The tokens of a tree in a place for operands of a level from `p` on, before those of `rest`. An
-- operator's left operand may have its own level, its right one has a higher; a negation's operand
-- has none.
unfoldable pub written : ℕ → Tree → List Lexeme → List Lexeme
written p (name n) rest = record { token = tok_ident; text = n; number = 0 } ∷ rest
written p (number k) rest = record { token = tok_literal; text = []; number = k } ∷ rest
written p (negated t) rest = mark tok_minus ∷ written 6 t rest
written p (binary o l r) rest =
    let inside = written (level o) l (mark (op_token o) ∷ written (suc (level o)) r rest) in
    let bracketed =
      mark tok_paren_l
      ∷ written (level o) l
          (mark (op_token o) ∷ written (suc (level o)) r (mark tok_paren_r ∷ rest)) in
    if ltb (level o) p then bracketed else inside

-- The last of these tokens.
unfoldable pub ending : ℕ → Tree → Lexeme
ending p (name n) = record { token = tok_ident; text = n; number = 0 }
ending p (number k) = record { token = tok_literal; text = []; number = k }
ending p (negated t) = ending 6 t
ending p (binary o l r) =
    let inside = ending (suc (level o)) r in if ltb (level o) p then mark tok_paren_r else inside

-- The tokens that may stand behind an expression.
pub data Stop : Type 0 where
  stop_paren stop_square stop_angle stop_curly stop_block stop_comma stop_semicolon stop_define
        stop_eq stop_colon :
      Stop
  stop_bang stop_with stop_init stop_variadic stop_eof : Stop

abbrev pub stop_token : Stop → Token
stop_token stop_paren = tok_paren_r
stop_token stop_square = tok_square_r
stop_token stop_angle = tok_angle_r
stop_token stop_curly = tok_curly_r
stop_token stop_block = tok_curly_l
stop_token stop_comma = tok_comma
stop_token stop_semicolon = tok_semicolon
stop_token stop_define = tok_define
stop_token stop_eq = tok_eq
stop_token stop_colon = tok_colon
stop_token stop_bang = tok_bang
stop_token stop_with = tok_with
stop_token stop_init = tok_init
stop_token stop_variadic = tok_variadic
stop_token stop_eof = tok_eof

-- What stands behind an operand.
pub data Next : Type 0 where
  operator : Op → Next
  stop : Stop → Next

abbrev pub next_token : Next → Token
next_token (operator o) = op_token o
next_token (stop t) = stop_token t
