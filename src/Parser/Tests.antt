-- ===== src/Parser/Tests.antt =====
-- Modules read from their text and from lists of tokens.
use Prim.Native.String.{String}
use zirgen.Prelude.{ℕ, List, Option, none, some, ◌≡◌, refl, [], ◌∷◌}
use zirgen.Lexer.Token.{
  Token, codes, tok_component, tok_ident, tok_literal, tok_define, tok_paren_l, tok_paren_r,
  tok_curly_l, tok_curly_r, tok_plus, tok_times, tok_minus, tok_extern, tok_semicolon, tok_eof,
}
use zirgen.Ast.{Module, extern, ident, null}
use zirgen.Ast.Print.{print_module}
use zirgen.Parser.Source.{Parser}
use zirgen.Parser.Declaration.{parse_module}
use zirgen.Parser.Declaration.Laws.{Ended, parse_module-Ended}
use zirgen.Parser.Instance.{parse_text, list_source, nowhere, Lexeme, Tokens}
use zirgen.Parser.Instance.Laws.{list_source-Notes}
use zirgen.Parser.Grammar as Grammar
use zirgen.Parser.Grammar.{
  Tree, node, written, ending, binary, negated, op_add, op_sub, op_mul, stop_semicolon,
}
use zirgen.Parser.Grammar.Steps.{Runs, whole, before}
use zirgen.Parser.Grammar.RoundTrip.{parse_expression-written}

printed : {S : Type 0} → Option (Option Module × Parser S) → List ℕ
printed none = codes "does not return"
printed (some (none, s)) = codes "has errors"
printed (some (some m, s)) = print_module m

abbrev mark : Token → Lexeme
mark t = record { token = t; text = []; number = 0 }

abbrev name : String → Lexeme
name s = record { token = tok_ident; text = codes s; number = 0 }

abbrev number : ℕ → Lexeme
number n = record { token = tok_literal; text = []; number = n }

abbrev state : List Lexeme → Parser Tokens
state lexemes = record {
  lexer = record { rest = lexemes; last = mark tok_eof; errors = [] };
  test_num = 0;
}

-- component Top() { a := 1 + 2 * 3; a }
sums :
    printed (
      parse_module list_source 40 (
        state (
          mark tok_component
          ∷ name "Top"
          ∷ mark tok_paren_l
          ∷ mark tok_paren_r
          ∷ mark tok_curly_l
          ∷ name "a"
          ∷ mark tok_define
          ∷ number 1
          ∷ mark tok_plus
          ∷ number 2
          ∷ mark tok_times
          ∷ number 3
          ∷ mark tok_semicolon
          ∷ name "a"
          ∷ mark tok_curly_r
          ∷ [])))
    ≡ codes
        "{\"body\":[{\"kind\":\"object\",\"name\":\"Top\",\"attributes\":[],\"type_params\":[],\"params\":[],\"body\":{\"class\":\"Block\",\"body\":[{\"class\":\"Definition\",\"name\":\"a\",\"value\":{\"class\":\"Construct\",\"type\":{\"class\":\"Ident\",\"name\":\"Add\"},\"args\":[{\"class\":\"Literal\",\"value\":1},{\"class\":\"Construct\",\"type\":{\"class\":\"Ident\",\"name\":\"Mul\"},\"args\":[{\"class\":\"Literal\",\"value\":2},{\"class\":\"Literal\",\"value\":3}]}]}}],\"value\":{\"class\":\"Ident\",\"name\":\"a\"}}}]}"
unfolding printed parse_module list_source print_module
sums = refl

missing_file : printed (parse_text (λ name. none) 8 (codes "import a;")) ≡ codes "has errors"
unfolding printed parse_text print_module
missing_file = refl

included :
    printed (parse_text (λ name. some (codes "extern B();")) 12 (codes "import b;"))
    ≡ codes
        "{\"body\":[{\"kind\":\"extern\",\"name\":\"B\",\"attributes\":[],\"type_params\":[],\"params\":[],\"body\":{\"class\":\"Ident\",\"name\":\"Component\"}}]}"
unfolding printed parse_text print_module
included = refl

-- 1 - (2 - a) * -b
abbrev difference : Tree
difference = binary op_sub (Grammar.number 1) (
    binary op_mul (binary op_sub (Grammar.number 2) (Grammar.name (codes "a")))
      (negated (Grammar.name (codes "b"))))

written_difference :
    written 0 difference (mark tok_semicolon ∷ [])
    ≡ number 1
      ∷ mark tok_minus
      ∷ mark tok_paren_l
      ∷ number 2
      ∷ mark tok_minus
      ∷ name "a"
      ∷ mark tok_paren_r
      ∷ mark tok_times
      ∷ mark tok_minus
      ∷ name "b"
      ∷ mark tok_semicolon
      ∷ []
unfolding written
written_difference = refl

parse_expression-written_example :
    Runs
      (whole null)
      (before [] 0 (written 0 difference (mark tok_semicolon ∷ [])) (mark tok_eof))
      (node difference, before [] 0 (mark tok_semicolon ∷ []) (ending 0 difference))
parse_expression-written_example =
    parse_expression-written [] 0 difference stop_semicolon (mark tok_semicolon ∷ []) (mark tok_eof)
      refl

-- extern B();
abbrev extern_tokens : List Lexeme
extern_tokens =
    mark tok_extern ∷ name "B" ∷ mark tok_paren_l ∷ mark tok_paren_r ∷ mark tok_semicolon ∷ []

abbrev extern_module : Module
extern_module = record {
  loc = nowhere;
  body =
      some (record {
        loc = nowhere;
        kind = extern;
        name = codes "B";
        attributes = [];
        type_params = [];
        params = [];
        body = ident nowhere (codes "Component");
      })
      ∷ [];
}

abbrev extern_end : Parser Tokens
extern_end = record {
  lexer = record { rest = []; last = mark tok_semicolon; errors = [] };
  test_num = 0;
}

extern_run :
    parse_module list_source 6 (state extern_tokens) ≡ some (some extern_module, extern_end)
unfolding parse_module list_source
extern_run = refl

parse_module-Ended_example : Ended list_source extern_end.lexer
parse_module-Ended_example =
    parse_module-Ended list_source 6 extern_module (state extern_tokens) extern_end
      list_source-Notes extern_run
