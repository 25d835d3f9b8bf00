-- ===== src/Parser/Expression.antt =====
-- The expressions and the blocks. Every call costs a unit of fuel, and every round of a loop, since
-- what a call leaves of the input is not a structural part of it.
use Prim.Native.String.{String}
use zirgen.Prelude.{Bool, true, false, ◌||◌, if◌then◌else◌, Option, none, some}
use zirgen.Lexer.Token.{
  Token, is, codes, tok_angle_l, tok_bit_and, tok_curly_l, tok_curly_r, tok_div, tok_dot, tok_mod,
  tok_paren_l, tok_plus, tok_square_l, tok_times, tok_back, tok_for, tok_ident, tok_if, tok_literal,
  tok_mux, tok_range, tok_reduce, tok_string_literal,
}
use zirgen.Lexer.Reader.{Location}
use zirgen.Ast.{
  Name, Expression, Statements, null, literal, string_literal, ident, lookup, construct, block,
  back, no_expressions, expression,
}
use zirgen.Parser.Source as Source
use zirgen.Parser.Source.{TokenSource, Step, pure, out_of_fuel, when, ◌>>=◌, ◌>>◌}

abbrev pub is_null : Expression → Bool
is_null null = true
is_null _ = false

-- `Ident::classof` and `getName`.
abbrev pub ident_name : Expression → Option Name
ident_name (ident l n) = some n
ident_name _ = none

-- The tokens at which `parseExpression` calls `parsePrimaryExpression`.
unfoldable pub starts_primary : Token → Bool
starts_primary t =
    is t tok_curly_l
    || (is t tok_literal
        || (is t tok_string_literal
            || (is t tok_ident
                || (is t tok_for
                    || (is t tok_reduce
                        || (is t tok_if
                            || (is t tok_square_l
                                || (is t tok_angle_l
                                    || (is t tok_paren_l
                                        || (is t tok_mux
                                            || (is t tok_dot || is t tok_back)))))))))))

unfoldable pub infix_only : Token → Bool
infix_only t =
    is t tok_range
    || (is t tok_bit_and || (is t tok_plus || (is t tok_times || (is t tok_div || is t tok_mod))))

module _ {S : Type 0} (source : TokenSource S) where
  abbrev peek : Step S Token
  peek = Source.peek source

  abbrev take : Step S Token
  take = Source.take source

  abbrev take_if : Token → Step S Bool
  take_if = Source.take_if source

  abbrev last_location : Step S Location
  last_location = Source.last_location source

  abbrev error : String → Step S (Unit {0})
  error = Source.error source

  abbrev fail : {A : Type 0} → String → A → Step S A
  fail = Source.fail source

  -- `if (!lexer.takeTokenIf(t)) { error(text); return nullptr; }`, and with `takeToken`.
  abbrev pub expect_if : Token → String → Step S Expression → Step S Expression
  expect_if t text rest = take_if t >>= λ taken. if taken then rest else fail text null

  abbrev pub expect : Token → String → Step S Expression → Step S Expression
  expect t text rest = take >>= λ token. if is token t then rest else fail text null

  unfoldable pub parse_literal : Step S Expression
  parse_literal = do
    token ← take
    loc ← last_location
    value ← Source.literal source
    text ← Source.identifier source
    pure (
        if is token tok_literal
        then literal loc value
        else (if is token tok_string_literal then string_literal loc text else null))

  unfoldable pub parse_identifier : Step S Expression
  parse_identifier =
      expect tok_ident "An identifier must start with a letter"
        do loc ← last_location; name ← Source.identifier source; pure (ident loc name)

  unfoldable pub parse_lookup : Expression → Step S Expression
  parse_lookup base =
      expect tok_dot "Expected a '.' after base component in member lookup expression" do
        loc ← last_location
        expect tok_ident "Expected an identifier"
            do name ← Source.identifier source; pure (lookup loc base name)

  -- The value of a block, which stands for `Component()` where there is none.
  abbrev pub value_or_component : Location → Expression → Expression
  value_or_component loc null = construct loc (ident loc (codes "Component")) no_expressions
  value_or_component loc e = e

  -- What follows the loop of `parseBlock`, which may have returned.
  abbrev pub finish_block : Location → Option (Statements × Expression) → Step S Expression
  finish_block loc none = pure null
  finish_block loc (some (body, last)) = expect tok_curly_r "A block must end with '}'" do
    failed ← Source.failed source
    pure (if failed then null else block loc body (value_or_component loc last))

  abbrev pub finish_negate : Location → Expression → Step S Expression
  finish_negate loc val = do
    when (is_null val) (error "expected expression after minus sign")
    pure (construct loc (ident loc (codes "Neg")) (expression val no_expressions))

  abbrev pub finish_back : Location → Expression → Expression → Step S Expression
  finish_back loc base null = fail "Unable to parse back distance" null
  finish_back loc base rhs = pure (back loc base rhs)

  abbrev pub one_minus : Location → Expression → Expression
  one_minus loc condition =
      construct loc (ident loc (codes "Sub"))
        (expression (literal loc 1) (expression condition no_expressions))
