-- ===== src/Parser/Source.antt =====
-- What the parser asks of its lexer, as operations on a state `S`, and its own state and steps.
use Prim.Native.String.{String}
use zirgen.Prelude.{ℕ, suc, Bool, true, false, Option, none, some}
use zirgen.Lexer.Token.{Token}
use zirgen.Lexer.Reader.{Location}
use zirgen.Lexer.State.{Message, syntax}
use zirgen.Ast.{Name}

-- The calls of `lexer`, and of the list `errors`, which the lexer shares.
pub record TokenSource (S : Type 0) : Type 0 where
  pub peek_token : S → Option (Token × S)
  pub take_token : S → Option (Token × S)
  pub take_token_if : Token → S → Option (Bool × S)
  pub in_main : S → Bool
  pub identifier : S → Name
  pub literal : S → ℕ
  pub last_location : S → Location
  pub do_import : Name → S → S
  pub report : Message → S → S
  pub failed : S → Bool

pub record Parser (S : Type 0) : Type 0 where
  pub lexer : S
  pub test_num : ℕ

-- A step of the parser; `none` is a call that does not return, or not within the given fuel.
abbrev pub Step : Type 0 → Type 0 → Type 0
Step S A = Parser S → Option (A × Parser S)

module _ {S A : Type 0} where
  abbrev pub pure : A → Step S A
  pure a s = some (a, s)

  abbrev pub out_of_fuel : Step S A
  out_of_fuel s = none

  abbrev pub after : {B : Type 0} → (A → Step S B) → Option (A × Parser S) → Option (B × Parser S)
  after f none = none
  after f (some (a, s)) = f a s

infixl 1 ◌>>=◌ ◌>>◌
abbrev pub ◌>>=◌ : {S A B : Type 0} → Step S A → (A → Step S B) → Step S B
p >>= f = λ s. after f (p s)

abbrev pub ◌>>◌ : {S A B : Type 0} → Step S A → Step S B → Step S B
p >> q = p >>= λ _. q

abbrev pub resumed : {S A : Type 0} → Parser S → Option (A × S) → Option (A × Parser S)
resumed s none = none
resumed s (some (a, lexer)) = some (a, record s { lexer = lexer })

module _ {S : Type 0} (source : TokenSource S) where
  abbrev lifted : {A : Type 0} → (S → Option (A × S)) → Step S A
  lifted call s = resumed s (call s.lexer)

  abbrev pub peek : Step S Token
  peek = lifted source.peek_token

  abbrev pub take : Step S Token
  take = lifted source.take_token

  abbrev pub take_if : Token → Step S Bool
  take_if t = lifted (source.take_token_if t)

  abbrev pub identifier : Step S Name
  identifier s = some (source.identifier s.lexer, s)

  abbrev pub literal : Step S ℕ
  literal s = some (source.literal s.lexer, s)

  abbrev pub last_location : Step S Location
  last_location s = some (source.last_location s.lexer, s)

  abbrev pub in_main : Step S Bool
  in_main s = some (source.in_main s.lexer, s)

  abbrev pub failed : Step S Bool
  failed s = some (source.failed s.lexer, s)

  abbrev pub report : Message → Step S (Unit {0})
  report m s = some (tt, record s { lexer = source.report m s.lexer })

  abbrev pub error : String → Step S (Unit {0})
  error text = report (syntax text)

  -- `error(text); return value;`
  abbrev pub fail : {A : Type 0} → String → A → Step S A
  fail text value = error text >> pure value

  abbrev pub do_import : Name → Step S (Unit {0})
  do_import name s = some (tt, record s { lexer = source.do_import name s.lexer })

  -- `testNum++`
  abbrev pub next_test : Step S ℕ
  next_test s = some (s.test_num, record s { test_num = suc s.test_num })

abbrev pub when : {S : Type 0} → Bool → Step S (Unit {0}) → Step S (Unit {0})
when true p = p
when false p = pure tt
