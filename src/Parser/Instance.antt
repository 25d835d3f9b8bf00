-- ===== src/Parser/Instance.antt =====
-- The lexer as the source of the parser's tokens, and a list of tokens as another.
pub mod Laws
use zirgen.Prelude.{ℕ, List, [], ◌∷◌, ◌++◌, Bool, true, false, Option, some, if◌then◌else◌}
use zirgen.Lexer.Token.{Token, is, tok_eof}
use zirgen.Lexer.Reader.{Location}
use zirgen.Lexer.State.{Lexer, Message, start, in_main, do_import}
use zirgen.Lexer.Take.{peek_token, take_token, take_token_if}
use zirgen.Ast.{Name, Module}
use zirgen.Parser.Source.{TokenSource, Parser}
use zirgen.Parser.Declaration.{parse_module}

abbrev pub some_of {ℓ} : {A : Type ℓ} → List A → Bool
some_of [] = false
some_of (x ∷ xs) = true

-- `files` finds the text of an included file.
unfoldable pub lexer_source : (Name → Option (List ℕ)) → TokenSource Lexer
unfolding peek_token take_token take_token_if in_main do_import
lexer_source files = record {
  peek_token = peek_token;
  take_token = take_token;
  take_token_if = λ t. take_token_if (λ u. is u t);
  in_main = in_main;
  identifier = λ l. l.identifier;
  literal = λ l. l.literal;
  last_location = λ l. l.last_location;
  do_import = do_import files;
  report =
      λ m l. record l { errors = l.errors ++ record { place = l.last_location; message = m } ∷ [] };
  failed = λ l. some_of l.errors;
}

-- The constructor of `Parser`, and `parseModule`.
unfoldable pub parse_text :
    (Name → Option (List ℕ)) → ℕ → List ℕ → Option (Option Module × Parser Lexer)
unfolding lexer_source start parse_module
parse_text files fuel text =
    parse_module (lexer_source files) fuel (record { lexer = start text; test_num = 0 })

-- A token with the text and the number that the lexer would give for it.
pub record Lexeme : Type 0 where
  pub token : Token
  pub text : Name
  pub number : ℕ

pub record Tokens : Type 0 where
  pub rest : List Lexeme
  pub last : Lexeme
  pub errors : List Message

abbrev pub first_token : List Lexeme → Token
first_token [] = tok_eof
first_token (x ∷ rest) = x.token

abbrev pub take_lexeme : Tokens → List Lexeme → Option (Token × Tokens)
take_lexeme s [] = some (tok_eof, s)
take_lexeme s (x ∷ rest) = some (x.token, record s { rest = rest; last = x })

abbrev pub take_lexeme_if : Token → Tokens → List Lexeme → Option (Bool × Tokens)
take_lexeme_if t s [] = some (is tok_eof t, s)
take_lexeme_if t s (x ∷ rest) =
    some (if is x.token t then (true, record s { rest = rest; last = x }) else (false, s))

abbrev pub nowhere : Location
nowhere = record { buf = []; position = 0 }

unfoldable pub list_source : TokenSource Tokens
list_source = record {
  peek_token = λ s. some (first_token s.rest, s);
  take_token = λ s. take_lexeme s s.rest;
  take_token_if = λ t s. take_lexeme_if t s s.rest;
  in_main = λ s. true;
  identifier = λ s. s.last.text;
  literal = λ s. s.last.number;
  last_location = λ s. nowhere;
  do_import = λ name s. s;
  report = λ m s. record s { errors = s.errors ++ m ∷ [] };
  failed = λ s. some_of s.errors;
}
