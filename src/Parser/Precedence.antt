-- ===== src/Parser/Precedence.antt =====
-- The binary operators: how tightly they bind, and the nodes that they stand for.
use Prim.Native.String.{String}
use zirgen.Prelude.{suc, ◌||◌, if◌then◌else◌}
use zirgen.Word.Signed.{ℤ, pos, negsuc}
use zirgen.Lexer.Token.{
  Token, is, codes, tok_range, tok_bit_and, tok_plus, tok_minus, tok_times, tok_div, tok_mod,
  tok_dot,
}
use zirgen.Lexer.Reader.{Location}
use zirgen.Ast.{Expression, range, construct, ident, expression, no_expressions}
use zirgen.Parser.Source.{TokenSource, Step, pure, error, ◌>>◌}

unfoldable pub get_precedence : Token → ℤ
get_precedence t =
    if is t tok_range
    then pos 1
    else (if is t tok_bit_and
        then pos 2
        else (if is t tok_plus || is t tok_minus
            then pos 3
            else (if is t tok_times || (is t tok_div || is t tok_mod)
                then pos 4
                else (if is t tok_dot then pos 5 else negsuc 0))))

-- `precedence + 1`
abbrev pub next_precedence : ℤ → ℤ
next_precedence (pos n) = pos (suc n)
next_precedence (negsuc n) = pos 0

-- `make_shared<Construct>` of the component of that name.
abbrev pub call : Location → String → Expression → Expression → Expression
call loc name lhs rhs =
    construct loc (ident loc (codes name)) (expression lhs (expression rhs no_expressions))

module _ {S : Type 0} (source : TokenSource S) where
  unfoldable pub build_binary_op : Token → Expression → Expression → Location → Step S Expression
  build_binary_op t lhs rhs loc =
      if is t tok_range
      then pure (range loc lhs rhs)
      else (if is t tok_bit_and
          then pure (call loc "BitAnd" lhs rhs)
          else (if is t tok_mod
              then pure (call loc "Mod" lhs rhs)
              else (if is t tok_plus
                  then pure (call loc "Add" lhs rhs)
                  else (if is t tok_minus
                      then pure (call loc "Sub" lhs rhs)
                      else (if is t tok_times
                          then pure (call loc "Mul" lhs rhs)
                          else (if is t tok_div
                              then pure (call loc "Div" lhs rhs)
                              else (error source "Undefined binary operator"
                                  >> pure (call loc "Undefined" lhs rhs))))))))
